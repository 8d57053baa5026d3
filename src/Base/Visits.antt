-- ===== src/Base/Visits.antt =====
-- Computations that may fail and that also say which states they pass through: where a power
-- loss may leave the machine.
use mathlib.Core.Path.{◌≡◌, refl}
use native.Mathlib.Omega.{arith}
use mathlib.Core.List.{List, [], ◌++◌}
use invari_os.Base.Lists.{All, All-append}
use invari_os.Base.Results.{Result, ok, err}

-- The result, the final state, and the states on the way.
abbrev pub T : Type 0 → Type 0 → Type 0 → Type 0
T S E A = S → Result E A × S × List S

abbrev pub visit : {S E A : Type 0} → List S → Result E A × S × List S → Result E A × S × List S
visit vs (r, u, ws) = (r, u, vs ++ ws)

abbrev pub bind :
    {S E A B : Type 0} → Result E A × S × List S → (A → T S E B) → Result E B × S × List S
bind (ok a, t, vs) f = visit vs (f a t)
bind (err e, t, vs) f = (err e, t, vs)

infixl 5 ◌>>=◌ ◌>>◌
abbrev pub ◌>>=◌ : {S E A B : Type 0} → T S E A → (A → T S E B) → T S E B
◌>>=◌ m f s = bind (m s) f

abbrev pub ◌>>◌ : {S E B : Type 0} → T S E (Unit {0}) → T S E B → T S E B
m >> k = m >>= λ _. k

-- A value that costs no step, such as a test of the state or a plain error.
abbrev pub read : {S E A : Type 0} → (S → Result E A) → T S E A
read f s = (f s, s, [])

-- An error that the caller wraps.
abbrev pub wrap_result : {E F A : Type 0} → (E → F) → Result E A → Result F A
wrap_result f (ok a) = ok a
wrap_result f (err e) = err (f e)

abbrev pub wrap : {S E F A : Type 0} → (E → F) → T S E A → T S F A
wrap f m s = let (r, t, vs) = m s in (wrap_result f r, t, vs)

-- `m` keeps `P`, at its end and all the way.
abbrev pub Keeps : {S E A : Type 0} → (S → Type 0) → T S E A → Type 0
Keeps {S} P m = (s : S) → P s → P (m s).1 × All P (m s).2

pub Keeps-bind :
    {S E A B : Type 0} (P : S → Type 0) (m : T S E A) (f : A → T S E B)
    → Keeps P m
    → ((a : A) → Keeps P (f a))
    → Keeps P (m >>= f)
Keeps-bind {S} {E} {A} {B} P m f keep_m keep_f s h = split (m s) (keep_m s h)
  where
    split : (p : Result E A × S × List S) → P p.1 × All P p.2 → P (bind p f).1 × All P (bind p f).2
    split (ok a, t, vs) (k, ks) = let (l, ls) = keep_f a t k in (l, All-append P vs (f a t).2 ks ls)
    split (err e, t, vs) k = k

pub Keeps-read : {S E A : Type 0} (P : S → Type 0) (f : S → Result E A) → Keeps P (read f)
Keeps-read P f s h = (h, tt)

pub Keeps-wrap :
    {S E F A : Type 0} (P : S → Type 0) (f : E → F) (m : T S E A) → Keeps P m → Keeps P (wrap f m)
Keeps-wrap P f m keep s h = keep s h

pub >>=-eq-ok :
    {S E A B : Type 0} (m : T S E A) (f : A → T S E B) (s : S) {b : B} {u : S} {vs : List S}
    → (m >>= f) s ≡ (ok b, u, vs)
    → (a : A) × (t : S) × (us : List S) × (ws : List S) × (m s ≡ (ok a, t, us))
      × (f a t ≡ (ok b, u, ws))
>>=-eq-ok {S} {E} {A} {B} m f s {b} {u} {vs} h = split (m s) refl h
  where
    split :
        (p : Result E A × S × List S)
        → m s ≡ p
        → bind p f ≡ (ok b, u, vs)
        → (a : A) × (t : S) × (us : List S) × (ws : List S) × (m s ≡ (ok a, t, us))
          × (f a t ≡ (ok b, u, ws))
    split (ok a, t, us) e k = (a, t, us, (f a t).2, e, ground arith)
    split (err x, t, us) e k = absurd (cc)

pub read-eq-ok :
    {S E A : Type 0} (f : S → Result E A) (s : S) {a : A} {t : S} {us : List S}
    → read f s ≡ (ok a, t, us)
    → (f s ≡ ok a) × (t ≡ s)
read-eq-ok f s h = (cc, cc)

pub wrap-eq-ok :
    {S E F A : Type 0} (f : E → F) (m : T S E A) (s : S) {a : A} {t : S} {us : List S}
    → wrap f m s ≡ (ok a, t, us)
    → m s ≡ (ok a, t, us)
wrap-eq-ok {S} {E} {F} {A} f m s {a} {t} {us} h = split (m s) h
  where
    split :
        (p : Result E A × S × List S)
        → ◌≡◌ {A = Result F A × S × List S} (wrap_result f p.0, p.1, p.2) (ok a, t, us)
        → p ≡ (ok a, t, us)
    split (ok b, u, vs) k = cc
    split (err x, u, vs) k = absurd (cc)
