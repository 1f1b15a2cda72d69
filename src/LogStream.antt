-- ===== src/LogStream.antt =====
-- include/log/logstream.h and src/log/logstream.cpp: the operators `<<` of the log stream, over its
-- buffer of 1024 characters.
pub mod Decimal
pub mod Insert
mod Examples
use caimr.Prelude.{
  ℕ, zero, suc, ◌+◌, ◌-◌, ◌/◌, ◌%◌, Bool, true, false, Option, none, some, Bytes, List, [], ◌∷◌,
  ◌++◌, reverse, length, get_elem?, write_at, leb, ◌==◌, if◌then◌else◌,
}
use caimr.FixedBuffer
use caimr.FixedBuffer.{FixedBuffer}

-- An integer of any of the types that `format_integer` is used at; `negsuc n` is -(n + 1).
pub data ℤ : Type 0 where
  pos : ℕ → ℤ
  negsuc : ℕ → ℤ

abbrev pub is_negative : ℤ → Bool
is_negative (pos n) = false
is_negative (negsuc n) = true

abbrev pub magnitude : ℤ → ℕ
magnitude (pos n) = n
magnitude (negsuc n) = suc n

abbrev pub digits : Bytes
digits =
    57 ∷ 56 ∷ 55 ∷ 54 ∷ 53 ∷ 52 ∷ 51 ∷ 50 ∷ 49 ∷ 48 ∷ 49 ∷ 50 ∷ 51 ∷ 52 ∷ 53 ∷ 54 ∷ 55 ∷ 56 ∷ 57
    ∷ []

-- `zero[remainder]`, with `zero` at index 9 of the table; the remainder of a negative number is
-- negative, as `%` rounds towards zero. Outside the table the character is 0.
unfoldable pub digit_at : (negative : Bool) → (remainder : ℕ) → ℕ
digit_at negative remainder =
    elim (get_elem? digits (if negative then 9 - remainder else 9 + remainder)) [
      | none ↦ 0
      | some c ↦ c
    ]

-- The do-while loop: the digits of the number from the last one on. `fuel` bounds their number.
unfoldable pub digit_loop : (fuel : ℕ) → (negative : Bool) → (num : ℕ) → Bytes
unfolding digit_at
digit_loop zero negative num = []
digit_loop (suc fuel) negative num =
    let rest = digit_loop fuel negative (num / 10) in
    digit_at negative (num % 10) ∷ (if num / 10 == 0 then [] else rest)

-- A number of 64 bits has 20 digits at most.
abbrev pub max_digits : ℕ
max_digits = 20

abbrev pub max_num_size : ℕ
max_num_size = 48

-- The characters between `start` and `cur` after `std::reverse`.
unfoldable pub decimal : ℤ → Bytes
unfolding digit_loop
decimal num = reverse (
    digit_loop max_digits (is_negative num) (magnitude num)
    ++ (if is_negative num then 45 ∷ [] else []))

-- Characters put at `cur()`, followed by `add`.
abbrev pub put : Bytes → FixedBuffer → FixedBuffer
put bytes b = FixedBuffer.add (length bytes) (record b { chars = write_at b.chars b.cur bytes })

pub format_integer : ℤ → FixedBuffer → FixedBuffer
unfolding decimal
format_integer num b = if leb max_num_size (FixedBuffer.size b) then put (decimal num) b else b

-- `operator<<(double)`: `printed` is what snprintf makes of it.
pub format_double : (printed : Bytes) → FixedBuffer → FixedBuffer
format_double printed b = if leb max_num_size (FixedBuffer.size b) then put printed b else b

-- What is put into the stream: an integer, a double as printed, a character, a char* (`none` is the
-- null pointer), or a block with a length (std::string, another buffer, or a gtemplate).
pub data Item : Type 0 where
  integer : ℤ → Item
  double : (printed : Bytes) → Item
  character : ℕ → Item
  c_string : Option Bytes → Item
  block : Bytes → Item

-- "(null)"
abbrev pub null_text : Bytes
null_text = 40 ∷ 110 ∷ 117 ∷ 108 ∷ 108 ∷ 41 ∷ []

-- The operator `<<` that the type of the item selects.
pub insert : Item → FixedBuffer → FixedBuffer
unfolding format_integer format_double
insert (integer v) b = format_integer v b
insert (double printed) b = format_double printed b
insert (character c) b = FixedBuffer.append (c ∷ []) b
insert (c_string none) b = FixedBuffer.append null_text b
insert (c_string (some str)) b = FixedBuffer.append str b
insert (block bytes) b = FixedBuffer.append bytes b

-- A chain of `<<`.
unfoldable pub insert_all : List Item → FixedBuffer → FixedBuffer
unfolding insert
insert_all [] b = b
insert_all (item ∷ items) b = insert_all items (insert item b)
