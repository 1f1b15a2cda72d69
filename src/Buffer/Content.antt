-- ===== src/Buffer/Content.antt =====
-- The representation invariant of a buffer, and its content: what each operation of buffer.h does
-- to the bytes that can be read.
use caimr.Prelude.{
  ℕ, ◌+◌, ◌-◌, ◌^◌, ◌≤◌, ◌<◌, ◌≡◌, refl, sym, [], arith, Bytes, slice, length, drop, length-take,
  length-drop, length-replicate, drop-drop, drop-take, drop_all, add_size, ltb, inl, inr,
  Bool-cases, ltb→lt, ltb→ge,
}
use caimr.Buffer.{
  Buffer, create, cheap_prepend, readable_bytes, writable_bytes, prependable_bytes, retrieve,
}

pub record IsValid (b : Buffer) : Type 0 where
  pub prepend : cheap_prepend ≤ b.reader_index
  pub ordered : b.reader_index ≤ b.writer_index
  pub within : b.writer_index ≤ length b.buf
  pub small : length b.buf < 2 ^ 64

-- There is room in a size_t for the storage grown by `len` bytes.
abbrev pub Fits : Buffer → ℕ → Type 0
Fits b len = length b.buf + len + cheap_prepend < 2 ^ 64

-- The readable bytes.
abbrev pub content : Buffer → Bytes
content b = slice b.buf b.reader_index (b.writer_index - b.reader_index)

-- On a valid buffer the three size_t counts are the plain differences of the indices, and with the
-- readable bytes they make up the storage.
pub counts_lem :
    (b : Buffer)
    → IsValid b
    → (readable_bytes b ≡ length (content b))
      × (readable_bytes b ≡ b.writer_index - b.reader_index)
      × (writable_bytes b ≡ length b.buf - b.writer_index)
      × (prependable_bytes b + readable_bytes b + writable_bytes b ≡ length b.buf)
unfolding readable_bytes writable_bytes prependable_bytes
counts_lem b v =
    let l = length-take (b.writer_index - b.reader_index) (drop b.reader_index b.buf) in
    let d = length-drop b.reader_index b.buf in
    (omega (arith, l, d), omega arith, omega arith, omega arith)

-- A new buffer is valid and holds nothing.
pub create_lem :
    (initial : ℕ)
    → initial + cheap_prepend < 2 ^ 64
    → IsValid (create initial) × (content (create initial) ≡ [])
unfolding create
create_lem initial h =
    let l = length-replicate {A = ℕ} (add_size cheap_prepend initial) 0 in (omega (arith, l), refl)

-- It has the room that it was created with.
pub create-Fits :
    (initial len : ℕ)
    → initial + len + cheap_prepend + cheap_prepend < 2 ^ 64
    → Fits (create initial) len
unfolding create
create-Fits initial len h =
    omega (arith, length-replicate {A = ℕ} (add_size cheap_prepend initial) 0)

shifted :
    (b : Buffer) (len : ℕ)
    → slice b.buf (b.reader_index + len) (b.writer_index - (b.reader_index + len))
      ≡ drop len (content b)
shifted b len =
    let e : b.writer_index - (b.reader_index + len) ≡ b.writer_index - b.reader_index - len =
      omega arith in
    rw (
      drop-take (b.writer_index - b.reader_index) len (drop b.reader_index b.buf),
      drop-drop b.reader_index len b.buf,
      e,
    )

retrieve_less :
    (b : Buffer) (len : ℕ)
    → IsValid b
    → len < b.writer_index - b.reader_index
    → retrieve b len ≡ record b { reader_index = b.reader_index + len }
unfolding retrieve
retrieve_less b len v h = ground arith

retrieve_rest :
    (b : Buffer) (len : ℕ)
    → IsValid b
    → b.writer_index - b.reader_index ≤ len
    → retrieve b len ≡ record b { reader_index = cheap_prepend; writer_index = cheap_prepend }
unfolding retrieve
retrieve_rest b len v h = ground arith

-- Taking `len` bytes off drops them from the content; taking as many as there are, or more, empties
-- it. The buffer stays valid, and its storage is not touched.
pub retrieve_lem :
    (b : Buffer) (len : ℕ)
    → IsValid b
    → IsValid (retrieve b len)
      × (content (retrieve b len) ≡ drop len (content b))
      × ((retrieve b len).buf ≡ b.buf)
retrieve_lem b len v = elim (Bool-cases (ltb len (b.writer_index - b.reader_index))) [
  | inl less ↦
      let window = b.writer_index - b.reader_index in
      let rest = drop b.reader_index b.buf in
      let h : len < window = ltb→lt len window less in
      rw (retrieve_less b len v h) (omega arith, shifted b len, refl)
  | inr more ↦
      let h : b.writer_index - b.reader_index ≤ len = ltb→ge len _ more in
      rw (retrieve_rest b len v h) (
        omega arith,
        sym (
            drop_all len (content b) (
              omega (
                arith,
                length-take (b.writer_index - b.reader_index) (drop b.reader_index b.buf),
              ))),
        refl,
      )
]

pub length-content : (b : Buffer) → IsValid b → length (content b) ≡ b.writer_index - b.reader_index
length-content b v = omega (
  arith,
  length-take (b.writer_index - b.reader_index) (drop b.reader_index b.buf),
  length-drop b.reader_index b.buf,
)
