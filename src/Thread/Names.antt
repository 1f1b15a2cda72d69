-- ===== src/Thread/Names.antt =====
-- The default names of threads.
use caimr.Prelude.{
  ℕ, ◌-◌, ◌^◌, ◌<◌, ◌≡◌, ◌≢◌, sym, ap, ◌∙◌, Bytes, Option, none, ◌∷◌, length, drop, take_all, some,
  arith,
}
use caimr.LogStream.{ℤ, pos, negsuc, decimal}
use caimr.LogStream.Decimal.{read, read-decimal, length-decimal, InRange}
use caimr.Thread.{as_int, default_name}

prefix : Bytes → Bytes
prefix digits = 116 ∷ 104 ∷ 114 ∷ 101 ∷ 97 ∷ 100 ∷ digits

-- snprintf cuts nothing off.
default_name-whole : (n : ℕ) → default_name n ≡ prefix (decimal (as_int n))
unfolding default_name prefix
default_name-whole n =
    take_all 31 (prefix (decimal (as_int n))) (omega (arith, length-decimal (as_int n)))

length-prefix : (n : ℕ) → length (prefix (decimal (as_int n))) < 32
unfolding prefix
length-prefix n = omega (arith, length-decimal (as_int n))

as_int-InRange : (n : ℕ) → n < 2 ^ 32 → InRange (as_int n)
as_int-InRange n h = ground arith

-- The number of 32 bits that an int is kept in.
to_bits : ℤ → ℕ
to_bits (pos n) = n
to_bits (negsuc n) = 2 ^ 32 - 1 - n

bits_of : Option ℤ → ℕ
unfolding to_bits
bits_of none = 0
bits_of (some z) = to_bits z

to_bits-as_int : (n : ℕ) → n < 2 ^ 32 → to_bits (as_int n) ≡ n
unfolding to_bits
to_bits-as_int n h = ground arith

-- The decimal texts of two ints are equal only if the ints are.
pub decimal-injective :
    (m n : ℕ) → m < 2 ^ 32 → n < 2 ^ 32 → decimal (as_int m) ≡ decimal (as_int n) → m ≡ n
unfolding bits_of
decimal-injective m n a b e =
    sym (to_bits-as_int m a)
    ∙ ap bits_of (
        sym (read-decimal (as_int m) (as_int-InRange m a))
        ∙ ap read e
        ∙ read-decimal (as_int n) (as_int-InRange n b))
    ∙ to_bits-as_int n b

-- Default names do not clash: two threads named by different values of the counter of 32 bits have
-- different names, each the word "thread" and the whole decimal text of the counter, which the 32
-- characters have room for.
pub default_names_differ :
    (m n : ℕ)
    → m < 2 ^ 32
    → n < 2 ^ 32
    → m ≢ n
    → (default_name m ≢ default_name n) × (length (default_name m) < 32)
unfolding prefix
default_names_differ m n a b ne = (
  λ e. ne (
      decimal-injective m n a b
        (ap (drop 6) (sym (default_name-whole m) ∙ e ∙ default_name-whole n))),
  omega (arith, ap length (default_name-whole m), length-prefix m),
)
