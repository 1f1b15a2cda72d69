-- ===== src/FixedBuffer.antt =====
-- include/log/fixedbuffer.h: an array of SIZE characters that is filled from the front.
use caimr.Prelude.{
  ℕ, ◌+◌, ◌-◌, ◌≤◌, ◌<◌, ◌^◌, ◌≡◌, sym, append-nil, [], inl, inr, Bool-cases, Bytes, ◌++◌, take,
  write_at, length, length-write_at, take-write_at, replicate, sub_size, ltb, ltb→lt, if◌then◌else◌,
  arith,
}

-- `chars` is `data_`, whose length is SIZE; `cur` is `cur_ - data_`.
pub record FixedBuffer : Type 0 where
  pub chars : Bytes
  pub cur : ℕ

-- The array is not initialised.
unfoldable pub create : Bytes → FixedBuffer
create garbage = record { chars = garbage; cur = 0 }

-- What stands between `cur_` and the end.
abbrev pub size : FixedBuffer → ℕ
size b = length b.chars - b.cur

-- The size goes to size_t for the comparison.
unfoldable pub append : Bytes → FixedBuffer → FixedBuffer
append bytes b =
    if ltb (length bytes) (sub_size (length b.chars) b.cur)
    then record { chars = write_at b.chars b.cur bytes; cur = b.cur + length bytes }
    else b

abbrev pub add : ℕ → FixedBuffer → FixedBuffer
add len b = record b { cur = b.cur + len }

abbrev pub reset : FixedBuffer → FixedBuffer
reset b = record b { cur = 0 }

abbrev pub bzero : FixedBuffer → FixedBuffer
bzero b = record b { chars = replicate (length b.chars) 0 }

abbrev pub to_string : FixedBuffer → Bytes
to_string b = take b.cur b.chars

pub record IsValid (b : FixedBuffer) : Type 0 where
  pub inside : b.cur ≤ length b.chars
  pub small : length b.chars < 2 ^ 31

-- Characters written at `cur_` extend the text, if there is room for them.
pub write_lem :
    (bytes : Bytes) (b : FixedBuffer)
    → IsValid b
    → length bytes ≤ size b
    → (to_string (add (length bytes) (record b { chars = write_at b.chars b.cur bytes }))
        ≡ to_string b ++ bytes)
      × IsValid (add (length bytes) (record b { chars = write_at b.chars b.cur bytes }))
write_lem bytes b v room = (
  take-write_at b.chars b.cur bytes (omega (arith, v.inside)),
  record {
    inside = omega (arith, v.inside, length-write_at b.chars b.cur bytes);
    small = omega (arith, v.small, length-write_at b.chars b.cur bytes);
  },
)

-- What `append` leaves: the text is added whole if it leaves room for one character more, and
-- dropped whole otherwise.
pub append_or_drop :
    (bytes : Bytes) (b : FixedBuffer)
    → IsValid b
    → (to_string (append bytes b)
        ≡ to_string b ++ (if ltb (length bytes) (size b) then bytes else []))
      × IsValid (append bytes b)
unfolding append
append_or_drop bytes b v =
    let e : sub_size (length b.chars) b.cur ≡ size b = omega (arith, v.inside, v.small) in
    rw e elim (Bool-cases (ltb (length bytes) (size b))) [
      | inl fits ↦
          simp fits (write_lem bytes b v (omega (arith, ltb→lt (length bytes) (size b) fits)))
      | inr full ↦ simp full (sym (append-nil (to_string b)), v)
    ]

pub size-append :
    (bytes : Bytes) (b : FixedBuffer)
    → IsValid b
    → size (append bytes b) ≡ size b - length (if ltb (length bytes) (size b) then bytes else [])
unfolding append
size-append bytes b v =
    let e : sub_size (length b.chars) b.cur ≡ size b = omega (arith, v.inside, v.small) in
    rw e elim (Bool-cases (ltb (length bytes) (size b))) [
      | inl fits ↦ simp fits (omega (arith, length-write_at b.chars b.cur bytes))
      | inr full ↦ simp full (omega arith)
    ]
