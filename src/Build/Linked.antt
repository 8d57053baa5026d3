-- ===== src/Build/Linked.antt =====
-- cmd/build.go: the binary that buildInvariosBinary's command links, as `go build` reads the command.
use invari_os.Base.{
  Bool, true, false, none, some, All, List, [], ◌∷◌, ◌++◌, ◌≡◌, refl, if◌then◌else◌, arith,
}
use invari_os.Base.Text.{Text, codes, same_text, onto_first, is_space, cut_prefix}
use invari_os.Release.{Baked, unset, tag}
use invari_os.Release.Agrees.{bool_text, values}
use invari_os.Build.Machine.{Command}
use invari_os.Build.Prepare.{ldflags}

-- How go splits the text behind -ldflags, where no word starts with a quote: at white space. What is
-- empty between two spaces is no flag.
abbrev pub words : Text → List Text
words [] = [] ∷ []
words (c ∷ s) = if is_space c then [] ∷ words s else onto_first c (words s)

-- No white space.
abbrev pub IsWord : Text → Type 0
IsWord s = All (λ c. is_space c ≡ false) s

-- The linker's -X, as `go doc cmd/link` has it: importpath.name=value sets the string variable `name`
-- of the package. The variables are those of internal/version and internal/bootimage.
abbrev set_named : Text → (Text → Baked → Baked) → Text → Baked → Baked
set_named name set w b = elim (cut_prefix name w) [ none ↦ b | some value ↦ set value b ]

abbrev pub set_variable : Text → Baked → Baked
set_variable w b =
    set_named (codes "github.com/invarios/invarios/internal/version.Name=")
      (λ v x. record x { name = v }) w
      (set_named (codes "github.com/invarios/invarios/internal/version.Tag=")
        (λ v x. record x { tag = v }) w
        (set_named (codes "github.com/invarios/invarios/internal/version.SHA=")
          (λ v x. record x { sha = v }) w
          (set_named (codes "github.com/invarios/invarios/internal/bootimage.Repository=")
            (λ v x. record x { repository = v }) w
            (set_named (codes "github.com/invarios/invarios/internal/bootimage.Insecure=")
              (λ v x. record x { insecure = v }) w b))))

-- `named` is whether the word before was -X.
abbrev pub linked_with : Bool → List Text → Baked → Baked
linked_with named [] b = b
linked_with true (w ∷ ws) b = linked_with false ws (set_variable w b)
linked_with false (w ∷ ws) b = linked_with (same_text w (codes "-X")) ws b

-- What stands behind -ldflags in a command's arguments; `named` is whether it is the next.
abbrev pub ldflags_of : Bool → List Text → Text
ldflags_of named [] = []
ldflags_of true (w ∷ ws) = w
ldflags_of false (w ∷ ws) = ldflags_of (same_text w (codes "-ldflags")) ws

-- The binary that a `go build` links of this program.
abbrev pub binary_of : Command → Baked
binary_of c = linked_with false (words (ldflags_of false c.args)) unset

words-word : (s t : Text) → IsWord s → words (s ++ (32 ∷ t)) ≡ s ∷ words t
unfolding is_space
words-word [] t h = refl
words-word (c ∷ s) t h = rw (h.0, words-word s t h.1) refl

words_last : (s : Text) → IsWord s → words s ≡ s ∷ []
unfolding is_space
words_last [] h = refl
words_last (c ∷ s) h = rw (h.0, words_last s h.1) refl

bool_text-IsWord : (b : Bool) → IsWord (bool_text b)
unfolding is_space
bool_text-IsWord true = ground arith
bool_text-IsWord false = ground arith

module _ (t sha pull : Text) (insecure : Bool) (t_word : IsWord t) (sha_word : IsWord sha)
    (pull_word : IsWord pull) where
  pub linked_with-ldflags :
      linked_with false (words (ldflags t sha pull insecure)) unset ≡ values t sha pull insecure
  unfolding ldflags is_space same_text cut_prefix
  linked_with-ldflags =
      rw
        (
          words-word t _ t_word,
          words-word sha _ sha_word,
          words-word pull _ pull_word,
          words_last (bool_text insecure) (bool_text-IsWord insecure),
        )
        refl
