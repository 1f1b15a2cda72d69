-- ===== src/LogStream/Decimal.antt =====
-- The decimal text of `format_integer`, read back.
use native.Mathlib.Nat.{pow-suc}
use mathlib.Core.List.{reverse-cons, reverse-append}
use caimr.Prelude.{
  ℕ, zero, suc, ◌+◌, ◌-◌, ◌*◌, ◌/◌, ◌%◌, ◌^◌, ◌≤◌, ◌<◌, ◌≡◌, refl, sym, ap, ◌∙◌, subst, inl, inr,
  Bool, true, false, ◌&&◌, Bool-cases, Option, none, some, Bytes, [], ◌∷◌, ◌++◌, reverse, length,
  length-append, leb, ◌==◌, ==_iff, append-nil, if◌then◌else◌, arith,
}
use caimr.LogStream.{
  ℤ, pos, negsuc, is_negative, magnitude, digit_at, digit_loop, max_digits, decimal,
}

-- A reader of decimal numbers, written without regard to the code.
abbrev pub is_digit : ℕ → Bool
is_digit c = leb 48 c && leb c 57

abbrev pub all_digits : Bytes → Bool
all_digits [] = true
all_digits (c ∷ cs) = is_digit c && all_digits cs

abbrev pub read_from : ℕ → Bytes → ℕ
read_from acc [] = acc
read_from acc (c ∷ cs) = read_from (acc * 10 + (c - 48)) cs

abbrev pub minus : ℕ → Option ℤ
minus zero = none
minus (suc n) = some (negsuc n)

pub read : Bytes → Option ℤ
read [] = none
read (c ∷ cs) =
    if c == 45
    then (if all_digits cs then minus (read_from 0 cs) else none)
    else if all_digits (c ∷ cs)
    then some (pos (read_from 0 (c ∷ cs)))
    else none

abbrev all_below : ℕ → (ℕ → Bool) → Bool
all_below zero q = true
all_below (suc n) q = q n && all_below n q

and-left : (a b : Bool) → (a && b) ≡ true → a ≡ true
and-left a b h = ground arith

and-right : (a b : Bool) → (a && b) ≡ true → b ≡ true
and-right a b h = ground arith

all_below_sound : (n : ℕ) (q : ℕ → Bool) (i : ℕ) → all_below n q ≡ true → i < n → q i ≡ true
all_below_sound zero q i h lt = absurd (omega arith)
all_below_sound (suc n) q i h lt = elim (Bool-cases (i == n)) [
  | inl e ↦ subst (λ k. q k ≡ true) (sym ((==_iff i n).0 e)) (and-left (q n) (all_below n q) h)
  | inr ne ↦ all_below_sound n q i (and-right (q n) (all_below n q) h) (ground (arith, ne, lt))
]

abbrev right_digit : Bool → ℕ → Bool
right_digit negative r = digit_at negative r == 48 + r

digit_table : (all_below 10 (right_digit true) ≡ true) × (all_below 10 (right_digit false) ≡ true)
unfolding digit_at
digit_table = (refl, refl)

digit_lem : (negative : Bool) (r : ℕ) → r < 10 → digit_at negative r ≡ 48 + r
digit_lem true r lt = ground (arith, all_below_sound 10 (right_digit true) r digit_table.0 lt)
digit_lem false r lt = ground (arith, all_below_sound 10 (right_digit false) r digit_table.1 lt)

-- The number whose digits stand in reverse.
abbrev reversed_value : Bytes → ℕ
reversed_value [] = 0
reversed_value (c ∷ cs) = (c - 48) + 10 * reversed_value cs

loop-value :
    (fuel : ℕ) (negative : Bool) (num : ℕ)
    → num < 10 ^ fuel
    → reversed_value (digit_loop fuel negative num) ≡ num
unfolding digit_loop
loop-value zero negative num h = omega (arith, h)
loop-value (suc fuel) negative num h =
    let p = pow-suc 10 fuel in
    let ih = loop-value fuel negative (num / 10) (omega (arith, p, h)) in
    let d = digit_lem negative (num % 10) (omega arith) in
    elim (Bool-cases (num / 10 == 0)) [
      | inl last ↦ simp (last, d) (ground (arith, last))
      | inr more ↦ simp (more, d, ih) (omega arith)
    ]

loop-digits :
    (fuel : ℕ) (negative : Bool) (num : ℕ) → all_digits (digit_loop fuel negative num) ≡ true
unfolding digit_loop
loop-digits zero negative num = refl
loop-digits (suc fuel) negative num =
    let ih = loop-digits fuel negative (num / 10) in
    let d = digit_lem negative (num % 10) (omega arith) in
    elim (Bool-cases (num / 10 == 0)) [
      | inl last ↦ simp (last, d) (ground arith)
      | inr more ↦ simp (more, d, ih) (ground arith)
    ]

loop-length : (fuel : ℕ) (negative : Bool) (num : ℕ) → length (digit_loop fuel negative num) ≤ fuel
unfolding digit_loop
loop-length zero negative num = omega arith
loop-length (suc fuel) negative num = ground (arith, loop-length fuel negative (num / 10))

read_from-append :
    (acc : ℕ) (xs : Bytes) (c : ℕ) → read_from acc (xs ++ c ∷ []) ≡ read_from acc xs * 10 + (c - 48)
read_from-append acc [] c = refl
read_from-append acc (x ∷ xs) c = read_from-append (acc * 10 + (x - 48)) xs c

read_from-reverse : (cs : Bytes) → read_from 0 (reverse cs) ≡ reversed_value cs
read_from-reverse [] = refl
read_from-reverse (c ∷ cs) =
    rw (reverse-cons c cs, read_from-append 0 (reverse cs) c, read_from-reverse cs) (omega arith)

all_digits-append : (xs ys : Bytes) → all_digits (xs ++ ys) ≡ (all_digits xs && all_digits ys)
all_digits-append [] ys = refl
all_digits-append (x ∷ xs) ys = ground (arith, all_digits-append xs ys)

all_digits-reverse : (cs : Bytes) → all_digits (reverse cs) ≡ all_digits cs
all_digits-reverse [] = refl
all_digits-reverse (c ∷ cs) =
    rw (reverse-cons c cs, all_digits-append (reverse cs) (c ∷ []), all_digits-reverse cs)
      (ground arith)

length-reverse : (cs : Bytes) → length (reverse cs) ≡ length cs
length-reverse [] = refl
length-reverse (c ∷ cs) =
    omega
      (arith, ap length (reverse-cons c cs), length-append (reverse cs) (c ∷ []), length-reverse cs)

loop-nonempty :
    (fuel : ℕ) (negative : Bool) (num : ℕ) → 0 < length (digit_loop (suc fuel) negative num)
unfolding digit_loop
loop-nonempty fuel negative num = omega arith

read-digits :
    (cs : Bytes) → 0 < length cs → all_digits cs ≡ true → read cs ≡ some (pos (read_from 0 cs))
unfolding read
read-digits [] some_left h = absurd (omega arith)
read-digits (c ∷ cs) some_left h = ground arith

read-minus : (cs : Bytes) → all_digits cs ≡ true → read (45 ∷ cs) ≡ minus (read_from 0 cs)
unfolding read
read-minus cs h = simp h refl

-- The numbers of 64 bits, signed or not.
abbrev pub InRange : ℤ → Type 0
InRange num = magnitude num < 2 ^ 64

-- Every integer of 64 bits, signed or not, is written as its decimal text: a reader that knows
-- nothing of the code gets the same number back.
pub read-decimal : (num : ℤ) → InRange num → read (decimal num) ≡ some num
unfolding decimal
read-decimal (pos n) h =
    let ds = digit_loop max_digits false n in
    let value : read_from 0 (reverse ds) ≡ n =
      read_from-reverse ds ∙ loop-value max_digits false n (omega (arith, h)) in
    rw (append-nil ds) (
      read-digits (reverse ds) (omega (arith, length-reverse ds, loop-nonempty 19 false n))
        (all_digits-reverse ds ∙ loop-digits max_digits false n)
      ∙ ap (λ k. some (pos k)) value)
read-decimal (negsuc n) h =
    let ds = digit_loop max_digits true (suc n) in
    let value : read_from 0 (reverse ds) ≡ suc n =
      read_from-reverse ds ∙ loop-value max_digits true (suc n) (omega (arith, h)) in
    rw (reverse-append ds (45 ∷ [])) (
      read-minus (reverse ds) (all_digits-reverse ds ∙ loop-digits max_digits true (suc n))
      ∙ ap minus value)

pub decimal-nonempty : (n : ℕ) → 0 < length (decimal (pos n))
unfolding decimal
decimal-nonempty n =
    let ds = digit_loop max_digits false n in
    omega (arith, length-reverse (ds ++ []), length-append ds [], loop-nonempty 19 false n)

-- With its sign it has 21 characters at most.
pub length-decimal : (num : ℤ) → length (decimal num) ≤ 21
unfolding decimal
length-decimal num =
    let ds = digit_loop max_digits (is_negative num) (magnitude num) in
    ground (
      arith,
      length-reverse (ds ++ (if is_negative num then 45 ∷ [] else [])),
      length-append ds (if is_negative num then 45 ∷ [] else []),
      loop-length max_digits (is_negative num) (magnitude num),
    )
