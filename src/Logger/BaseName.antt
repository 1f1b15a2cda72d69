-- ===== src/Logger/BaseName.antt =====
-- The file name that a log line shows.
use caimr.Prelude.{
  ℕ, ◌≡◌, refl, ap, subst, ◌⊎◌, inl, inr, Bool, false, ◌||◌, Bool-cases, Option, none, some, Bytes,
  [], ◌∷◌, ◌++◌, ◌==◌, ==_iff, arith,
}
use mathlib.Core.Option.{some-injective}
use caimr.Logger.{behind, after_slash, basename_or, base_name}

abbrev pub has_slash : Bytes → Bool
has_slash [] = false
has_slash (c ∷ cs) = (c == 47) || has_slash cs

-- The directory is empty, or ends in a slash.
abbrev pub IsDirectory : Bytes → Type 0
IsDirectory dir = (dir ≡ []) ⊎ ((up : Bytes) × (dir ≡ up ++ 47 ∷ []))

-- `filename` is a directory with `base` behind it, and `base` has no slash.
abbrev pub IsBaseOf : Bytes → Bytes → Type 0
IsBaseOf filename base =
    ((dir : Bytes) × ((filename ≡ dir ++ base) × IsDirectory dir)) × (has_slash base ≡ false)

-- The same with a directory that is not empty.
abbrev Behind : Bytes → Bytes → Type 0
Behind filename base =
    ((up : Bytes) × (filename ≡ (up ++ 47 ∷ []) ++ base)) × (has_slash base ≡ false)

behind-none :
    (o : Option Bytes) (c : ℕ) (cs : Bytes)
    → behind o c cs ≡ none
    → (o ≡ none) × ((c == 47) ≡ false)
behind-none none c cs h = ground arith
behind-none (some base) c cs h = absurd (ground arith)

after_slash-none : (f : Bytes) → after_slash f ≡ none → has_slash f ≡ false
unfolding after_slash
after_slash-none [] h = refl
after_slash-none (c ∷ cs) h =
    let (e, plain) = behind-none (after_slash cs) c cs h in simp plain (after_slash-none cs e)

behind-Behind :
    (o : Option Bytes) (c : ℕ) (cs base : Bytes)
    → (o ≡ none → has_slash cs ≡ false)
    → ((b : Bytes) → o ≡ some b → Behind cs b)
    → behind o c cs ≡ some base
    → Behind (c ∷ cs) base
behind-Behind none c cs base plain below h = elim (Bool-cases (c == 47)) [
  | inl slash ↦
      subst (Behind (c ∷ cs)) (some-injective cs base (simp slash at h))
        (([], ap (λ k. k ∷ cs) ((==_iff c 47).0 slash)), plain refl)
  | inr other ↦ absurd (ground (arith, simp other at h))
]
behind-Behind (some b) c cs base plain below h =
    let ((up, split), no_slash) = below b refl in
    subst (Behind (c ∷ cs)) (some-injective b base h) ((c ∷ up, ap (λ t. c ∷ t) split), no_slash)

after_slash-some : (f base : Bytes) → after_slash f ≡ some base → Behind f base
unfolding after_slash
after_slash-some [] base h = absurd (ground arith)
after_slash-some (c ∷ cs) base h =
    behind-Behind (after_slash cs) c cs base (after_slash-none cs) (after_slash-some cs) h

basename_or-IsBaseOf :
    (filename : Bytes) (o : Option Bytes)
    → after_slash filename ≡ o
    → IsBaseOf filename (basename_or filename o)
basename_or-IsBaseOf filename none e = (([], (refl, inl refl)), after_slash-none filename e)
basename_or-IsBaseOf filename (some base) e =
    let ((up, split), plain) = after_slash-some filename base e in
    ((up ++ 47 ∷ [], (split, inr (up, refl))), plain)

-- The name shown is the file's path without its directory: what is left of the path is empty or ends
-- in a slash, and the name has no slash.
pub base_name_lem : (filename : Bytes) → IsBaseOf filename (base_name filename)
unfolding base_name
base_name_lem filename = basename_or-IsBaseOf filename (after_slash filename) refl
