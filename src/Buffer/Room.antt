-- ===== src/Buffer/Room.antt =====
-- How the buffer of include/net/buffer.h finds room for what is appended, and that its content
-- survives it.
use caimr.Prelude.{
  ℕ, ◌+◌, ◌-◌, ◌≤◌, ◌<◌, ◌≡◌, refl, ap, ◌∙◌, ◌++◌, arith, Bytes, write_at, slice, resize, replicate,
  length, take, drop, length-drop, length-write_at, length-resize, drop-write_at, take-write_at,
  take-append, drop-append, take_all, add_size, ltb, leb, inl, inr, Bool-cases, ltb→lt, ltb→ge,
}
use caimr.Buffer.{Buffer, cheap_prepend, ensure_writable_bytes, append}
use caimr.Buffer.Content.{IsValid, Fits, content, length-content}

-- The two ways in which `append` finds room, in plain arithmetic.
grow_lem :
    (b : Buffer) (len : ℕ)
    → IsValid b
    → Fits b len
    → length b.buf - b.writer_index < len
    → length b.buf - b.writer_index + b.reader_index < len + cheap_prepend
    → ensure_writable_bytes b len ≡ record b { buf = resize b.buf (b.writer_index + len) }
unfolding ensure_writable_bytes
grow_lem b len v f h k = ground arith

slide_lem :
    (b : Buffer) (len : ℕ)
    → IsValid b
    → Fits b len
    → length b.buf - b.writer_index < len
    → len + cheap_prepend ≤ length b.buf - b.writer_index + b.reader_index
    → ensure_writable_bytes b len ≡ record {
      buf = write_at b.buf cheap_prepend (content b);
      reader_index = cheap_prepend;
      writer_index = cheap_prepend + (b.writer_index - b.reader_index);
    }
unfolding ensure_writable_bytes
slide_lem b len v f h k = ground arith

enough_lem :
    (b : Buffer) (len : ℕ)
    → IsValid b
    → len ≤ length b.buf - b.writer_index
    → ensure_writable_bytes b len ≡ b
unfolding ensure_writable_bytes
enough_lem b len v h = ground arith

-- Growing the storage keeps the content.
content-resize :
    (b : Buffer) (n : ℕ)
    → IsValid b
    → length b.buf ≤ n
    → content (record b { buf = resize b.buf n }) ≡ content b
content-resize b n v h =
    let k = b.writer_index - b.reader_index in
    let zeros = replicate {A = ℕ} (n - length b.buf) 0 in
    elim (Bool-cases (leb n (length b.buf))) [
      | inl shrink ↦
          let e : n ≡ length b.buf = ground arith in rw (shrink, take_all n b.buf (omega arith))
      | inr grow ↦ rw (
        grow,
        drop-append b.reader_index b.buf zeros (omega arith),
        take-append k (drop b.reader_index b.buf) zeros
            (omega (arith, length-drop b.reader_index b.buf)),
      )
    ]

-- Moving the content to the front keeps it.
content-slide :
    (buf xs : Bytes) (r w : ℕ)
    → w - r ≡ length xs
    → r + length xs ≤ length buf
    → slice (write_at buf r xs) r (w - r) ≡ xs
content-slide buf xs r w e h =
    let z : r - r ≡ 0 = omega arith in
    let n : length xs ≡ 0 + length xs = omega arith in
    let room : 0 + length xs ≤ length (drop r buf) = omega (arith, length-drop r buf) in
    rw (e, drop-write_at buf r r xs (omega arith), z)
      (ap (λ k. take k (write_at (drop r buf) 0 xs)) n ∙ take-write_at (drop r buf) 0 xs room)

-- Bytes written behind the writer index, which then moves past them, extend the content.
pub content-write_at :
    (b : Buffer) (xs : Bytes)
    → IsValid b
    → b.writer_index + length xs ≤ length b.buf
    → content (record b {
      buf = write_at b.buf b.writer_index xs;
      writer_index = b.writer_index + length xs;
    })
      ≡ content b ++ xs
content-write_at b xs v h =
    let k = b.writer_index - b.reader_index in
    let rest = drop b.reader_index b.buf in
    let e : b.writer_index + length xs - b.reader_index ≡ k + length xs = omega arith in
    rw (e, drop-write_at b.buf b.reader_index b.writer_index xs v.ordered)
      (take-write_at rest k xs (omega (arith, length-drop b.reader_index b.buf)))

-- What `ensure_writable_bytes` leaves: a valid buffer with the same content, room for `len` more
-- bytes, and a storage that has grown by `len` at most and never shrinks.
pub record Ensured (b : Buffer) (len : ℕ) (b' : Buffer) : Type 0 where
  pub valid : IsValid b'
  pub same : content b' ≡ content b
  pub room : b'.writer_index + len ≤ length b'.buf
  pub bound : length b'.buf ≤ length b.buf + len
  pub kept : length b.buf ≤ length b'.buf

-- On a valid buffer, and for any length with which its storage still fits into a size_t,
-- `ensure_writable_bytes` makes room for that many bytes: the buffer stays valid with the same
-- content, and its storage never shrinks and grows by that length at most.
pub ensure_writable_bytes_lem :
    (b : Buffer) (len : ℕ) → IsValid b → Fits b len → Ensured b len (ensure_writable_bytes b len)
ensure_writable_bytes_lem b len v f = elim (Bool-cases (ltb space len)) [
  | inr enough ↦ rw (enough_lem b len v (ltb→ge space len enough)) (record {
    valid = v;
    same = refl;
    room = omega (arith, ltb→ge space len enough);
    bound = omega arith;
    kept = omega arith;
  })
  | inl short ↦ elim (Bool-cases (ltb (space + b.reader_index) (len + cheap_prepend))) [
    | inl tight ↦
        let s = ltb→lt space len short in
        let l = length-resize b.buf (b.writer_index + len) in
        rw (grow_lem b len v f s (ltb→lt _ _ tight)) (record {
          valid = omega (arith, l);
          same = content-resize b (b.writer_index + len) v (omega arith);
          room = omega (arith, l);
          bound = omega (arith, l);
          kept = omega (arith, l);
        })
    | inr loose ↦
        let c = length-content b v in
        let l = length-write_at b.buf cheap_prepend (content b) in
        rw (slide_lem b len v f (ltb→lt space len short) (ltb→ge _ _ loose)) (record {
          valid = omega (arith, l);
          same =
              content-slide b.buf (content b) cheap_prepend
                (cheap_prepend + (b.writer_index - b.reader_index)) (omega (arith, c))
                (omega (arith, c));
          room = omega (arith, l, ltb→ge _ _ loose);
          bound = omega (arith, l);
          kept = omega (arith, l);
        })
  ]
]
  where
    space : ℕ
    space = length b.buf - b.writer_index

-- The copy and the move of the writer index that end `append`.
stored_lem :
    (b b' : Buffer) (bytes : Bytes)
    → Fits b (length bytes)
    → Ensured b (length bytes) b'
    → let b'' = record b' {
      buf = write_at b'.buf b'.writer_index bytes;
      writer_index = add_size b'.writer_index (length bytes);
    } in
      IsValid b''
      × (content b'' ≡ content b ++ bytes)
      × (length b''.buf ≤ length b.buf + length bytes)
stored_lem b b' bytes f e =
    let wrap : add_size b'.writer_index (length bytes) ≡ b'.writer_index + length bytes =
      omega (arith, e.room, e.valid.small) in
    let l = length-write_at b'.buf b'.writer_index bytes in
    rw wrap (
      omega (arith, l, e.valid.prepend, e.valid.ordered, e.room, e.valid.small),
      content-write_at b' bytes e.valid e.room ∙ ap (λ c. c ++ bytes) e.same,
      omega (arith, l, e.bound),
    )

-- `append` puts the block behind the content, whichever way it finds room: the content is the old
-- one with the block behind it, the buffer stays valid, and the storage grows by the length of the
-- block at most.
pub append_lem :
    (b : Buffer) (bytes : Bytes)
    → IsValid b
    → Fits b (length bytes)
    → IsValid (append b bytes)
      × (content (append b bytes) ≡ content b ++ bytes)
      × (length (append b bytes).buf ≤ length b.buf + length bytes)
unfolding append
append_lem b bytes v f =
    stored_lem b (ensure_writable_bytes b (length bytes)) bytes f
      (ensure_writable_bytes_lem b (length bytes) v f)
