-- ===== src/Prelude/Blocks.antt =====
-- Blocks of bytes as std::vector<char> and std::copy handle them, and size_t arithmetic.
use Prim.Native.Nat.{ℕ, zero, suc, ◌+◌, ◌-◌, ◌%◌, ◌^◌, ◌≤◌}
use mathlib.Core.Path.{◌≡◌, refl, ap}
use mathlib.Core.List.{List, [], ◌∷◌, ◌++◌}
use native.Mathlib.Omega.{arith}
use caimr.Prelude.Lists.{
  length, take, drop, replicate, length-append, length-replicate, length-take,
}
use caimr.Prelude.Tests.{leb, if◌then◌else◌}

abbrev pub Bytes : Type 0
Bytes = List ℕ

-- size_t addition and subtraction wrap at 2^64.
abbrev pub add_size : ℕ → ℕ → ℕ
add_size a b = (a + b) % 2 ^ 64

abbrev pub sub_size : ℕ → ℕ → ℕ
sub_size a b = (a + 2 ^ 64 - b) % 2 ^ 64

-- std::copy of a block to an offset. Bytes past the end of the storage are not stored.
abbrev pub write_at : Bytes → ℕ → Bytes → Bytes
write_at [] i xs = []
write_at (b ∷ bs) (suc i) xs = b ∷ write_at bs i xs
write_at (b ∷ bs) zero [] = b ∷ bs
write_at (b ∷ bs) zero (x ∷ xs) = x ∷ write_at bs zero xs

-- `n` bytes from an offset on.
abbrev pub slice : Bytes → ℕ → ℕ → Bytes
slice buf i n = take n (drop i buf)

-- std::vector<char>::resize: new bytes are zero.
abbrev pub resize : Bytes → ℕ → Bytes
resize buf n = if leb n (length buf) then take n buf else buf ++ replicate (n - length buf) 0

pub length-write_at : (buf : Bytes) (i : ℕ) (xs : Bytes) → length (write_at buf i xs) ≡ length buf
length-write_at [] i xs = refl
length-write_at (b ∷ bs) (suc i) xs = ap suc (length-write_at bs i xs)
length-write_at (b ∷ bs) zero [] = refl
length-write_at (b ∷ bs) zero (x ∷ xs) = ap suc (length-write_at bs zero xs)

pub length-resize : (buf : Bytes) (n : ℕ) → length (resize buf n) ≡ n
length-resize buf n = ground (
  arith,
  length-take n buf,
  length-append buf (replicate (n - length buf) 0),
  length-replicate {A = ℕ} (n - length buf) 0,
)

-- A write behind an offset, seen from that offset.
pub drop-write_at :
    (buf : Bytes) (r w : ℕ) (xs : Bytes)
    → r ≤ w
    → drop r (write_at buf w xs) ≡ write_at (drop r buf) (w - r) xs
drop-write_at buf zero w xs h = ap (λ k. write_at buf k xs) (omega arith)
drop-write_at [] (suc r) w xs h = refl
drop-write_at (b ∷ bs) (suc r) zero xs h = absurd (omega arith)
drop-write_at (b ∷ bs) (suc r) (suc w) xs h =
    let e : suc w - suc r ≡ w - r = omega arith in rw e (drop-write_at bs r w xs (omega arith))

-- What stands up to the end of a write: the old bytes before it, then the written ones.
pub take-write_at :
    (buf : Bytes) (n : ℕ) (xs : Bytes)
    → n + length xs ≤ length buf
    → take (n + length xs) (write_at buf n xs) ≡ take n buf ++ xs
take-write_at [] zero [] h = refl
take-write_at [] zero (x ∷ xs) h = absurd (omega arith)
take-write_at [] (suc n) xs h = absurd (omega arith)
take-write_at (b ∷ bs) zero [] h = refl
take-write_at (b ∷ bs) zero (x ∷ xs) h =
    let e : 0 + suc (length xs) ≡ suc (0 + length xs) = omega arith in
    rw e (ap (λ t. x ∷ t) (take-write_at bs zero xs (omega arith)))
take-write_at (b ∷ bs) (suc n) xs h =
    let e : suc n + length xs ≡ suc (n + length xs) = omega arith in
    rw e (ap (λ t. b ∷ t) (take-write_at bs n xs (omega arith)))
