-- ===== src/Initramfs/RoundTrip.antt =====
-- internal/initramfs/cpio.go: an entry of writeEntry, from its reader's side.
use mathlib.Core.Path.{subst}
use invari_os.Base.{
  ℕ, ◌+◌, ◌%◌, ◌^◌, ◌<◌, some, List, [], ◌∷◌, ◌++◌, append_assoc, Result, ok, err, ok_injective,
  >>=-eq-ok, length, replicate, All, ◌≡◌, refl, ap, arith,
}
use invari_os.Initramfs.{
  Sink, Error, Header, header_fields, Node, symlink, directory, regular, Info, Plan, plan_of,
  type_directory, type_regular, type_symlink, fixed_part, pad, write_padding, write_header,
  write_payload, write_planned, planned, write_entry,
}
use invari_os.Initramfs.Reader.{read_entry, entry_bytes, read_entry-entry_bytes}
use invari_os.Initramfs.Writes.{
  SinkLaws, Appends, Appends-trans, Appends-nil, padding-Appends, header-Appends, file-Appends,
  target-Appends,
}

-- What an entry's data is: the link's target, or what the file was read to.
abbrev pub data_of : Node → List ℕ
data_of (symlink (ok b)) = b
data_of (symlink (err why)) = []
data_of directory = []
data_of (regular size (ok f)) = f.bytes
data_of (regular size (err why)) = []

abbrev pub type_of : Node → ℕ
type_of (symlink r) = type_symlink
type_of directory = type_directory
type_of (regular size r) = type_regular

abbrev pub header_of : List ℕ → ℕ → Info → Header
header_of name ino info = record {
  ino = ino;
  mode = type_of info.node + info.perm;
  file_size = length (data_of info.node);
  nlink = 1;
  name_size = length name + 1;
}

-- The bytes of one entry were appended, and a reader takes them for the member that was meant.
pub record Written (w : Sink) (name : List ℕ) (ino : ℕ) (info : Info) (s t : w.State) : Type 0 where
  pub bytes : List ℕ
  pub appended : w.content t ≡ w.content s ++ bytes
  pub read_back :
      (rest : List ℕ)
      → read_entry (bytes ++ rest)
        ≡ some (
          record {
            ino = ino;
            mode = type_of info.node + info.perm;
            nlink = 1;
            name = name;
            data_ = data_of info.node;
          },
          rest,
        )

-- The bounds of the format's 32-bit fields.
pub record Fits (name : List ℕ) (ino : ℕ) (info : Info) : Type 0 where
  pub name_fits : 111 + length name < 2 ^ 32
  pub ino_fits : ino < 2 ^ 32
  pub perm_fits : info.perm < 512
  pub data_fits : length (data_of info.node) < 2 ^ 32

module _ (w : Sink) (laws : SinkLaws w) where
  -- The plan's payload appends the node's data, whose length is the plan's size.
  Pays : Node → Plan → Type 0
  Pays n p =
      (s t : w.State)
      → write_payload w p.file_size p.payload s ≡ (ok tt, t)
      → Appends w laws (data_of n) s t × (p.file_size ≡ length (data_of n))

  payload_matches :
      (n : Node) (p : Plan)
      → length (data_of n) < 2 ^ 32
      → plan_of n ≡ ok p
      → (p.file_type ≡ type_of n) × Pays n p
  unfolding plan_of Pays
  payload_matches (symlink (err why)) p small e = absurd (cc)
  payload_matches (symlink (ok b)) p small e =
      subst (λ (q : Plan). (q.file_type ≡ type_symlink) × Pays (symlink (ok b)) q)
        (ok_injective Error e) (refl, λ s t k. (target-Appends w laws _ b s t k, omega arith))
  payload_matches directory p small e =
      subst (λ (q : Plan). (q.file_type ≡ type_directory) × Pays directory q) (ok_injective Error e)
        (refl, λ s t k. (Appends-nil w laws s t (unfold write_payload in ap (λ x. x.1) k), refl))
  payload_matches (regular size (err why)) p small e = absurd (cc)
  payload_matches (regular size (ok f)) p small e =
      subst (λ (q : Plan). (q.file_type ≡ type_regular) × Pays (regular size (ok f)) q)
        (ok_injective Error e)
        (
          refl,
          λ s t k.
              let (appends, count) =
                file-Appends w laws (size % 2 ^ 32) f.bytes f.read_error s t k in
              (appends, omega arith),
        )

module _ (w : Sink) (laws : SinkLaws w) (name : List ℕ) (ino : ℕ) (info : Info)
    (fits : Fits name ino info) where
  abbrev H : Header
  H = header_of name ino info

  abbrev planned_header : Plan → Header
  planned_header p = record {
    ino = ino;
    mode = p.file_type + info.perm;
    file_size = p.file_size;
    nlink = 1;
    name_size = (length name + 1) % 2 ^ 32;
  }

  abbrev front : List ℕ
  front = fixed_part H ++ ((name ++ (0 ∷ [])) ++ replicate (pad (110 + H.name_size)) 0)

  joined_up : (a b c d e : List ℕ) → (a ++ (b ++ c)) ++ (d ++ e) ≡ a ++ (b ++ (c ++ (d ++ e)))
  joined_up a b c d e = search (append_assoc)

  planned-Appends :
      (p : Plan) (s t : w.State)
      → p.file_type ≡ type_of info.node
      → Pays w laws info.node p
      → write_planned w info name ino p s ≡ (ok tt, t)
      → Appends w laws (entry_bytes H name (data_of info.node)) s t
  unfolding write_planned Pays
  planned-Appends p s t type_is pays e =
      let f = fits.name_fits in
      let (_, s1, first, e1) = >>=-eq-ok (write_header w (planned_header p) name) _ s e in
      let (_, s2, second, third) = >>=-eq-ok (write_payload w p.file_size p.payload) _ s1 e1 in
      let (paid, size) = pays s1 s2 second in
      let name_size : (length name + 1) % 2 ^ 32 ≡ length name + 1 = omega arith in
      let same : planned_header p ≡ H = cc in
      let head : write_header w H name s ≡ (ok tt, s1) =
        subst (λ h. write_header w h name s ≡ (ok tt, s1)) same first in
      let last : write_padding w H.file_size s2 ≡ (ok tt, t) =
        subst (λ n. write_padding w n s2 ≡ (ok tt, t)) size third in
      let whole =
        Appends-trans w laws front (data_of info.node ++ replicate (pad H.file_size) 0) s s1 t
          (header-Appends w laws H name s s1 (omega arith) head)
          (Appends-trans w laws (data_of info.node) (replicate (pad H.file_size) 0) s1 s2 t paid
            (padding-Appends w laws H.file_size s2 t last)) in
      subst (λ b. Appends w laws b s t)
        (joined_up (fixed_part H) (name ++ (0 ∷ [])) (replicate (pad (110 + H.name_size)) 0)
          (data_of info.node) (replicate (pad H.file_size) 0))
        whole

  fields_fit : All (λ f. f < 2 ^ 32) (header_fields H)
  fields_fit =
      let a = fits.name_fits in
      let b = fits.ino_fits in
      let c = fits.perm_fits in
      let d = fits.data_fits in
      let mode : type_of info.node + info.perm < 2 ^ 32 = type_fits info.node c in ground arith
    where
      type_fits : (n : Node) → info.perm < 512 → type_of n + info.perm < 2 ^ 32
      type_fits (symlink r) c = omega arith
      type_fits directory c = omega arith
      type_fits (regular size r) c = omega arith

  Written-Appends :
      (s t : w.State)
      → Appends w laws (entry_bytes H name (data_of info.node)) s t
      → Written w name ino info s t
  Written-Appends s t a = record {
    bytes = entry_bytes H name (data_of info.node);
    appended = a;
    read_back = λ rest. read_entry-entry_bytes H name (data_of info.node) rest refl refl fields_fit;
  }

  -- Let writeEntry report no error, over a writer that keeps SinkLaws, and let the entry keep to the
  -- format's 32-bit fields. Then it appended bytes that a reader of the newc format takes for one
  -- entry with this name, number, type, permissions and data, and the reader goes on right behind
  -- them, whatever comes next.
  pub write_entry-Written :
      (s t : w.State)
      → write_entry w (ok info) name ino s ≡ (ok tt, t)
      → Written w name ino info s t
  unfolding write_entry planned
  write_entry-Written s t e = split (plan_of info.node) refl e
    where
      split :
          (r : Result Error Plan)
          → plan_of info.node ≡ r
          → planned w info name ino r s ≡ (ok tt, t)
          → Written w name ino info s t
      split (err why) q k = absurd (cc)
      split (ok p) q k =
          let (type_is, pays) = payload_matches w laws info.node p fits.data_fits q in
          Written-Appends s t (planned-Appends p s t type_is pays k)
