-- ===== src/TcpServer/Counts.antt =====
-- Counting the calls that the server posts, and the entries of its map.
use caimr.Prelude.{
  ◌∙◌, ℕ, ◌+◌, ◌<◌, ◌≡◌, refl, ap, inl, inr, Bool-cases, Bool, true, false, none, some, List, [],
  ◌∷◌, ◌++◌, ◌==◌, if◌then◌else◌, erase, lookup, arith,
}
use mathlib.Core.Logic.{∥∥₁_elim}
use mathlib.Core.List.{Perm, Permᴰ}
use native.Mathlib.Nat.{ℕ_set}
use caimr.Functor.{Functor, establish_conn, destroy_conn}
use caimr.TcpServer.{TcpServer, Conn, farewells}

abbrev pub one_if : Bool → ℕ
one_if true = 1
one_if false = 0

-- How many entries of the map have the key.
abbrev pub entries {ℓ} : {V : Type ℓ} → ℕ → List (ℕ × V) → ℕ
entries id [] = 0
entries id ((key, v) ∷ m) = one_if (key == id) + entries id m

abbrev pub establishes : ℕ → Functor → ℕ
establishes id (establish_conn conn) = one_if (conn == id)
establishes id _ = 0

abbrev pub destroys : ℕ → Functor → ℕ
destroys id (destroy_conn conn) = one_if (conn == id)
destroys id _ = 0

abbrev pub tally : (Functor → ℕ) → List (ℕ × Functor) → ℕ
tally w [] = 0
tally w ((l, f) ∷ fs) = w f + tally w fs

-- How often the connection has been handed to its loop to be established, and to be destroyed.
abbrev pub established : ℕ → TcpServer → ℕ
established id s = tally (establishes id) s.posted

abbrev pub destroyed : ℕ → TcpServer → ℕ
destroyed id s = tally (destroys id) s.posted

pub tally-append :
    (w : Functor → ℕ) (fs : List (ℕ × Functor)) (l : ℕ) (f : Functor)
    → tally w (fs ++ (l, f) ∷ []) ≡ tally w fs + w f
tally-append w [] l f = omega arith
tally-append w ((m, g) ∷ fs) l f = omega (arith, tally-append w fs l f)

pub tally-concat :
    (w : Functor → ℕ) (fs gs : List (ℕ × Functor)) → tally w (fs ++ gs) ≡ tally w fs + tally w gs
tally-concat w [] gs = omega arith
tally-concat w ((m, g) ∷ fs) gs = omega (arith, tally-concat w fs gs)

module _ {ℓ} {V : Type ℓ} where
  pub entries-erase :
      (key id : ℕ) (m : List (ℕ × V))
      → entries id (erase key m) ≡ (if key == id then 0 else entries id m)
  unfolding erase
  entries-erase key id [] = ground arith
  entries-erase key id ((k, v) ∷ m) = ground (arith, entries-erase key id m)

  pub entries-lookup : (id : ℕ) (v : V) (m : List (ℕ × V)) → lookup id m ≡ some v → 0 < entries id m
  unfolding lookup
  entries-lookup id v [] h = ground arith
  entries-lookup id v ((k, w) ∷ m) h = elim (Bool-cases (k == id)) [
    | inl on ↦ simp on (omega arith)
    | inr off ↦ simp off (omega (arith, entries-lookup id v m (simp off at h)))
  ]

module _ {ℓ} {V : Type ℓ} where
  pub lookup-none : (id : ℕ) (m : List (ℕ × V)) → entries id m ≡ 0 → lookup id m ≡ none
  unfolding lookup
  lookup-none id [] h = refl
  lookup-none id ((k, w) ∷ m) h = elim (Bool-cases (k == id)) [
    | inl on ↦ absurd (omega (arith, simp on at h))
    | inr off ↦ simp off (lookup-none id m (omega (arith, simp off at h)))
  ]

-- Every connection stands under its own id.
abbrev pub Keyed : List (ℕ × Conn) → Type 0
Keyed [] = Unit {0}
Keyed ((key, conn) ∷ m) = (key ≡ conn.id) × Keyed m

pub erase-Keyed : (key : ℕ) (m : List (ℕ × Conn)) → Keyed m → Keyed (erase key m)
unfolding erase
erase-Keyed key [] h = tt
erase-Keyed key ((k, conn) ∷ m) (e, h) = elim (Bool-cases (k == key)) [
  | inl on ↦ simp on (erase-Keyed key m h)
  | inr off ↦ simp off (e, erase-Keyed key m h)
]

pub tally-farewells :
    (id : ℕ) (m : List (ℕ × Conn)) → Keyed m → tally (destroys id) (farewells m) ≡ entries id m
unfolding farewells
tally-farewells id [] h = refl
tally-farewells id ((key, conn) ∷ m) (e, h) =
    omega (arith, ap (λ k. one_if (k == id)) e, tally-farewells id m h)

pub establishes-farewells :
    (id : ℕ) (m : List (ℕ × Conn)) → tally (establishes id) (farewells m) ≡ 0
unfolding farewells
establishes-farewells id [] = refl
establishes-farewells id ((key, conn) ∷ m) = omega (arith, establishes-farewells id m)

-- The order in which the connections are come to does not matter to a count.
tally-farewells-permᴰ :
    (w : Functor → ℕ) {m m' : List (ℕ × Conn)}
    → Permᴰ m m'
    → tally w (farewells m) ≡ tally w (farewells m')
unfolding farewells
tally-farewells-permᴰ w Permᴰ.nil = refl
tally-farewells-permᴰ w (Permᴰ.cons {a = a} {b = b} e p) =
    omega (arith, ap (λ (c : ℕ × Conn). w (destroy_conn c.1.id)) e, tally-farewells-permᴰ w p)
tally-farewells-permᴰ w (Permᴰ.swap {a = a} {b = b} e e') = omega (
  arith,
  ap (λ (c : ℕ × Conn). w (destroy_conn c.1.id)) e,
  ap (λ (c : ℕ × Conn). w (destroy_conn c.1.id)) e',
)
tally-farewells-permᴰ w (Permᴰ.trans p q) = tally-farewells-permᴰ w p ∙ tally-farewells-permᴰ w q

pub tally-farewells-perm :
    (w : Functor → ℕ) (m m' : List (ℕ × Conn))
    → Perm m m'
    → tally w (farewells m) ≡ tally w (farewells m')
tally-farewells-perm w m m' p =
    ∥∥₁_elim p (ℕ_set (tally w (farewells m)) (tally w (farewells m'))) (tally-farewells-permᴰ w)
