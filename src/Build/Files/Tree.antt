-- ===== src/Build/Files/Tree.antt =====
-- cmd/build.go: the tree behind a copyTree that reports no error.
use Prim.Native.String.{String}
use invari_os.Base.{
  ℕ, none, some, List, [], ◌∷◌, Result, ok, err, >>=-eq-ok, All, ◌≡◌, ◌≢◌, refl, sym, ap, ◌∙◌,
}
use invari_os.Base.Text.{Text, under}
use invari_os.Build.Machine.{
  Host, Visit, walk_failed, here, visited, Kind, symlink, directory, regular,
}
use invari_os.Build.Files.{copy_kind, copy_info, copy_visit, copy_visits, copy_tree}
use invari_os.Build.Files.Copied.{FileLaws, checked-ok, copy_file-Copied}

module _ (h : Host) (laws : FileLaws h) (src dst : Text) where
  open laws use {file}

  -- Where a visit's entry stands, and where it is copied to.
  abbrev pub source_of : Visit → Text
  source_of (walk_failed why) = src
  source_of (here info) = src
  source_of (visited rel info) = under src rel

  abbrev pub target_of : Visit → Text
  target_of (walk_failed why) = dst
  target_of (here info) = dst
  target_of (visited rel info) = under dst rel

  abbrev pub info_of : Visit → Result String Kind
  info_of (walk_failed why) = err why
  info_of (here info) = info
  info_of (visited rel info) = info

  -- A regular file's content has come from p to q.
  abbrev pub Moved : Text → Text → h.State → h.State → Result String Kind → Type 0
  Moved p q s t (ok (regular mode)) = (b : List ℕ) × (file s p ≡ some b) × (file t q ≡ some b)
  Moved p q s t (ok (directory mode)) = Unit {0}
  Moved p q s t (ok (symlink to)) = Unit {0}
  Moved p q s t (err why) = Unit {0}

  -- The walk comes to each entry once.
  abbrev pub Once : List Visit → Type 0
  Once [] = Unit {0}
  Once (v ∷ vs) = All (λ w. target_of v ≢ target_of w) vs × Once vs

  abbrev pub Untouched : List Visit → Text → Type 0
  Untouched vs q = All (λ w. q ≢ target_of w) vs

  -- symlink(2) changes no file elsewhere; and no source is a target.
  pub record Apart : Type 0 where
    pub link-other :
        (to p q : Text) (s t : h.State) → h.link to p s ≡ (none, t) → q ≢ p → file t q ≡ file s q
    pub sources : (v w : Visit) → source_of v ≢ target_of w

  module _ (apart : Apart) where
    -- What one entry's copy does.
    record Step (p q : Text) (info : Result String Kind) (s t : h.State) : Type 0 where
      moved : Moved p q s t info
      others : (r : Text) → r ≢ q → file t r ≡ file s r

    copy_info-Step :
        (p q : Text) (info : Result String Kind) (s t : h.State)
        → copy_info h p q info s ≡ (ok tt, t)
        → Step p q info s t
    unfolding copy_info copy_kind
    copy_info-Step p q (err why) s t e = absurd (cc (ap (λ x. x.0) e))
    copy_info-Step p q (ok (symlink (err why))) s t e = absurd (cc (ap (λ x. x.0) e))
    copy_info-Step p q (ok (symlink (ok to))) s t e = record {
      moved = tt;
      others =
          λ r differs. apart.link-other to q r s t (checked-ok h laws (h.link to q s) t e) differs;
    }
    copy_info-Step p q (ok (directory mode)) s t e = record {
      moved = tt;
      others = λ r differs.
          ap (λ x. file x.1 r) (sym (checked-ok h laws (h.mkdir_all q mode s) t e))
          ∙ laws.mkdir_all-file q r mode s;
    }
    copy_info-Step p q (ok (regular mode)) s t e =
        let c = copy_file-Copied h laws p q mode s t e in
        record { moved = (c.content, c.source, c.destination); others = c.others }

    copy_visit-Step :
        (v : Visit) (s t : h.State)
        → copy_visit h src dst v s ≡ (ok tt, t)
        → Step (source_of v) (target_of v) (info_of v) s t
    unfolding copy_visit
    copy_visit-Step (walk_failed why) s t e = absurd (cc (ap (λ x. x.0) e))
    copy_visit-Step (here info) s t e = copy_info-Step src dst info s t e
    copy_visit-Step (visited rel info) s t e =
        copy_info-Step (under src rel) (under dst rel) info s t e

    -- Contents that are the same at the source before and at the target behind.
    Moved-same :
        (p q : Text) (s s' t t' : h.State) (info : Result String Kind)
        → file s' p ≡ file s p
        → file t q ≡ file t' q
        → Moved p q s' t' info
        → Moved p q s t info
    Moved-same p q s s' t t' (ok (regular mode)) before behind (b, at, to) =
        (b, sym before ∙ at, behind ∙ to)
    Moved-same p q s s' t t' (ok (directory mode)) before behind m = tt
    Moved-same p q s s' t t' (ok (symlink to)) before behind m = tt
    Moved-same p q s s' t t' (err why) before behind m = tt

    abbrev pub Copies : h.State → h.State → List Visit → Type 0
    Copies s t vs = All (λ v. Moved (source_of v) (target_of v) s t (info_of v)) vs

    Copies-same :
        (s s' t : h.State) (vs : List Visit)
        → ((v : Visit) → file s' (source_of v) ≡ file s (source_of v))
        → Copies s' t vs
        → Copies s t vs
    Copies-same s s' t [] same c = tt
    Copies-same s s' t (v ∷ vs) same c = (
      Moved-same (source_of v) (target_of v) s s' t t (info_of v) (same v) refl c.0,
      Copies-same s s' t vs same c.1,
    )

    copy_visits-others :
        (vs : List Visit) (s t : h.State) (q : Text)
        → copy_visits h src dst vs s ≡ (ok tt, t)
        → Untouched vs q
        → file t q ≡ file s q
    unfolding copy_visits
    copy_visits-others [] s t q e u = ap (λ x. file x.1 q) (sym e)
    copy_visits-others (v ∷ vs) s t q e u =
        let (_, s1, first, rest) =
          >>=-eq-ok (copy_visit h src dst v) (λ _. copy_visits h src dst vs) s e in
        copy_visits-others vs s1 t q rest u.1 ∙ (copy_visit-Step v s s1 first).others q u.0

    copy_visits-Copies :
        (vs : List Visit) (s t : h.State)
        → copy_visits h src dst vs s ≡ (ok tt, t)
        → Once vs
        → Copies s t vs
    unfolding copy_visits
    copy_visits-Copies [] s t e once = tt
    copy_visits-Copies (v ∷ vs) s t e once =
        let (_, s1, first, rest) =
          >>=-eq-ok (copy_visit h src dst v) (λ _. copy_visits h src dst vs) s e in
        let step = copy_visit-Step v s s1 first in
        (
          Moved-same (source_of v) (target_of v) s s t s1 (info_of v) refl
              (copy_visits-others vs s1 t (target_of v) rest once.0) step.moved,
          Copies-same s s1 t vs (λ w. step.others (source_of w) (apart.sources w v))
              (copy_visits-Copies vs s1 t rest once.1),
        )

    -- Let copyTree report no error, over a file system that keeps FileLaws, where symlink(2)
    -- changes no file elsewhere, no source is a target, and the walk comes to each entry once. Then
    -- every regular file that the walk visits stands at its place under the destination with the
    -- content that it had at the source, and every file that is no entry's target is as it was.
    pub copy_tree-Copies :
        (s t : h.State)
        → Once (h.walk s src)
        → copy_tree h src dst s ≡ (ok tt, t)
        → Copies s t (h.walk s src)
          × ((q : Text) → Untouched (h.walk s src) q → file t q ≡ file s q)
    unfolding copy_tree
    copy_tree-Copies s t once e = (
      copy_visits-Copies (h.walk s src) s t e once,
      λ q u. copy_visits-others (h.walk s src) s t q e u,
    )
