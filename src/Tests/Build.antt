-- ===== src/Tests/Build.antt =====
-- cmd/build.go on a file system in memory.
mod Run
mod Tree
use Prim.Native.String.{String}
use text.Mathlib.Text.{◌==◌ as str_eq}
use invari_os.Base.{
  ℕ, Bool, true, false, Bool-cases, inl, inr, Option, none, some, List, [], ◌∷◌, ◌++◌, Result, ok,
  err, ok_injective, ◌==◌, ==_iff, if◌then◌else◌, ◌≡◌, ◌≢◌, refl, sym, ap, ◌∙◌, arith,
}
use invari_os.Base.Text.{Text, codes, under, dir_of, same_text, same_text-eq, same_text_refl}
use invari_os.Ociimage.{Registry, Race}
use invari_os.Openbao.{World, body}
use invari_os.Release.{unset, os_release_for}
use invari_os.Build.Machine.{Host, removed, Command}
use invari_os.Build.Files.{copy_error, closed, copied, copy_file}
use invari_os.Build.Files.Copied.{FileLaws}
use invari_os.Build.Layout.{BuildLayout, new_build_layout}
use invari_os.Build.Stage.{stage_esp, stage_dir}
use invari_os.Build.Stage.Staged.{Outside, Staged, stage_esp-Staged}
use invari_os.Tests.Openbao.{world}

abbrev pub Files : Type 0
Files = Text → Option (List ℕ)

abbrev pub put : Text → List ℕ → Files → Files
put p b s q = if same_text q p then some b else s q

put-same : (p : Text) (b : List ℕ) (s : Files) → put p b s p ≡ some b
put-same p b s = rw (same_text_refl p)

put-other : (p q : Text) (b : List ℕ) (s : Files) → q ≢ p → put p b s q ≡ s q
put-other p q b s differs = elim (Bool-cases (same_text q p)) [
  | inl same ↦ absurd (differs (same_text-eq q p same))
  | inr other ↦ rw other
]

-- The directory itself, or a path below it.
abbrev is_under : Text → Text → Bool
is_under [] [] = true
is_under [] (c ∷ p) = c == b'/'
is_under (d ∷ ds) [] = false
is_under (d ∷ ds) (c ∷ p) = if d == c then is_under ds p else false

is_under-under : (d q : Text) → is_under d (under d q) ≡ true
is_under-under [] q = refl
is_under-under (c ∷ d) q = ground (arith, is_under-under d q)

is_under-same : (d : Text) → is_under d d ≡ true
is_under-same [] = refl
is_under-same (c ∷ d) = ground (arith, is_under-same d)

is_under-Outside : (d q : Text) → q ≢ d → ((r : Text) → q ≢ under d r) → is_under d q ≡ false
is_under-Outside [] [] a b = absurd (a refl)
is_under-Outside [] (c ∷ p) a b = elim (Bool-cases (c == b'/')) [
  | inl slash ↦ absurd (b p (ap (λ x. x ∷ p) ((==_iff c b'/').0 slash)))
  | inr no_slash ↦ no_slash
]
is_under-Outside (d ∷ ds) [] a b = refl
is_under-Outside (d ∷ ds) (c ∷ p) a b = elim (Bool-cases (d == c)) [
  | inl same ↦
      let at = (==_iff d c).0 same in
      rw same (
        is_under-Outside ds p (λ e. a (ap (λ x. x ∷ p) (sym at) ∙ ap (λ x. d ∷ x) e))
          (λ r e. b r (ap (λ x. x ∷ p) (sym at) ∙ ap (λ x. d ∷ x) e)))
  | inr other ↦ rw other refl
]

abbrev clear : Text → Files → Files
clear d s q = if is_under d q then none else s q

clear-under : (d q : Text) (s : Files) → clear d s (under d q) ≡ none
clear-under d q s = rw (is_under-under d q)

clear-outside : (d q : Text) (s : Files) → q ≢ d → ((r : Text) → q ≢ under d r) → clear d s q ≡ s q
clear-outside d q s a b = rw (is_under-Outside d q a b)

abbrev appended : Text → List ℕ → Files → Option (List ℕ) → Files
appended p b s none = put p b s
appended p b s (some c) = put p (c ++ b) s

-- Every image holds the four files that the build takes from its images.
abbrev pub registry : Registry Files
registry = record {
  Image = Text;
  Layer = Text;
  pull = λ ref arch s. (ok ref, s);
  mkdir_all = λ dir s. (none, s);
  stream = λ image. (image, none);
  untar = λ b stop dir s. (
    none,
    put (under dir (codes "vmlinuz")) (1 ∷ []) (
        put (under dir (codes "kernel.config")) (2 ∷ []) (
          put (under dir (codes "systemd-boot.efi")) (3 ∷ [])
            (put (under dir (codes "boot.efi.stub")) (4 ∷ []) s))),
  );
  create_temp = λ s. (ok (codes "/tmp/push.tar.gz"), s);
  tar_gz = λ dir file s. (none, s);
  layer_from_file = λ file s. ok file;
  append_layer = λ layer. ok layer;
  config_error = λ image. none;
  set_platform = λ image arch. ok image;
  push_image = λ image ref insecure s. (none, s);
  remove_temp = λ file s. (none, s);
}

abbrev opened : Option (List ℕ) → Result String (List ℕ × Option String)
opened none = err "no such file"
opened (some b) = ok (b, none)

abbrev pub memory : Host
memory = record {
  State = Files;
  remove_all = λ d s. (none, clear d s);
  mkdir_all = λ d mode s. (none, s);
  remove = λ p s. (removed, s);
  link = λ to p s. (none, s);
  stat = λ s p. ok 493;
  walk = λ s p. [];
  open_file = λ s p. opened (s p);
  create = λ p mode s. (none, put p [] s);
  write = λ p b s. (none, appended p b s (s p));
  close = λ p s. (none, s);
  truncate = λ p size s. (none, s);
  write_file = λ p b mode s. (none, put p b s);
  mkdir_temp = λ s. (ok (codes "/tmp/invarios-uki"), s);
  run = λ c s. (ok (codes "v1.2\n"), s);
  make_vfat = λ image stage s. (none, s);
  assemble = λ stub out sections s. (none, put out (5 ∷ []) s);
  osrel = λ s p. ok (some (ok (os_release_for unset.name (codes "v1.2"))));
  registry = registry;
  race = λ ref. record { export_first = true; interrupted = false };
  name = λ t. if same_text t (codes "openbao_2_linux_amd64.tar.gz") then "tgz" else "";
  world = record world {
    get = λ url.
        if str_eq url "/checksums.txt"
        then body (codes "5 openbao_2_linux_amd64.tar.gz\n") none
        else body (1 ∷ 2 ∷ []) none;
  };
  files = λ s p. none;
  set_files = λ fs s. s;
}

opened-some : (o : Option (List ℕ)) (b : List ℕ) → opened o ≡ ok (b, none) → o ≡ some b
opened-some none b e = absurd (cc)
opened-some (some c) b e = ap some (ap (λ p. p.0) (ok_injective String e))

write_self :
    (p : Text) (b c : List ℕ) (s : Files) (o : Option (List ℕ))
    → o ≡ some c
    → appended p b s o p ≡ some (c ++ b)
write_self p b c s none e = absurd (cc)
write_self p b c s (some d) e = put-same p (d ++ b) s ∙ ap some (ap (λ x. x ++ b) (cc))

write-other :
    (p q : Text) (b : List ℕ) (s : Files) (o : Option (List ℕ)) → q ≢ p → appended p b s o q ≡ s q
write-other p q b s none differs = put-other p q b s differs
write-other p q b s (some c) differs = put-other p q (c ++ b) s differs

pub memory-FileLaws : FileLaws memory
memory-FileLaws = record {
  file = λ s p. s p;
  open_file-file = λ s p b e. opened-some (s p) b e;
  mkdir_all-file = λ d q mode s. refl;
  create-self = λ p mode s t e. ap (λ x. x.1 p) (sym e) ∙ put-same p [] s;
  create-other = λ p q mode s t e differs. ap (λ x. x.1 q) (sym e) ∙ put-other p q [] s differs;
  write-self = λ p b c s t e was. ap (λ x. x.1 p) (sym e) ∙ write_self p b c s (s p) was;
  write-other = λ p q b s t e differs. ap (λ x. x.1 q) (sym e) ∙ write-other p q b s (s p) differs;
  close-file = λ p q s. refl;
  write_file-self = λ p b mode s t e. ap (λ x. x.1 p) (sym e) ∙ put-same p b s;
  write_file-other =
      λ p q b mode s t e differs. ap (λ x. x.1 q) (sym e) ∙ put-other p q b s differs;
  remove_all-under = λ d q s t e. ap (λ x. x.1 (under d q)) (sym e) ∙ clear-under d q s;
  remove_all-outside = λ d q s t e a b. ap (λ x. x.1 q) (sym e) ∙ clear-outside d q s a b;
}

abbrev l : BuildLayout
l = record {
  root = codes ".";
  downloads = codes "downloads";
  scratch = codes "/tmp/b";
  rootfs = codes "/tmp/b/rootfs";
  out = codes "out";
}

-- A file is left over from an earlier build.
abbrev before_stage : Files
before_stage =
    put (codes "/sd/systemd-bootx64.efi") (3 ∷ [])
      (put (codes "out/u.efi") (5 ∷ 5 ∷ []) (put (codes "/tmp/b/esp/old") (9 ∷ []) (λ p. none)))

abbrev after_stage : Files
after_stage = (stage_esp memory l (codes "/sd") (codes "out/u.efi") (codes "v1") before_stage).1

stage_esp_succeeds :
    stage_esp memory l (codes "/sd") (codes "out/u.efi") (codes "v1") before_stage
    ≡ (ok (codes "/tmp/b/esp"), after_stage)
unfolding stage_esp copy_file copied copy_error closed same_text
stage_esp_succeeds = refl

apart : (d p : Text) → is_under d p ≡ false → Outside d p
apart d p e = record {
  not_it = λ q. absurd (cc (sym (is_under-same d) ∙ ap (is_under d) (sym q) ∙ e));
  not_below = λ r q. absurd (cc (sym (is_under-under d r) ∙ ap (is_under d) (sym q) ∙ e));
}

stage_esp-Staged_example :
    Staged memory memory-FileLaws l
      (codes "/sd")
      (codes "out/u.efi")
      (codes "v1")
      before_stage
      after_stage
stage_esp-Staged_example =
    stage_esp-Staged memory memory-FileLaws l (codes "/sd") (codes "out/u.efi") (codes "v1")
      before_stage after_stage (codes "/tmp/b/esp") (apart (stage_dir l) _ refl)
      (apart (stage_dir l) _ refl) stage_esp_succeeds
