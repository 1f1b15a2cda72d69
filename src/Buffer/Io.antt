-- ===== src/Buffer/Io.antt =====
-- buffer::read_fd and write_fd of src/net/buffer.cpp.
use caimr.Prelude.{
  ℕ, ◌+◌, ◌-◌, ◌^◌, ◌≤◌, ◌<◌, ◌≡◌, refl, ap, ◌∙◌, ◌++◌, arith, Bytes, write_at, length, take, drop,
  length-take, length-drop, length-write_at, take-append-drop, append_assoc, take_all, sub_size,
  add_size, leb, leb→le, le→leb, gt→leb, inl, inr, Bool-cases,
}
use caimr.Buffer.{
  Buffer, extra_size, readable_bytes, writable_bytes, retrieve, append, received, read_failed,
  IoResult, failed, moved, read_capacity, read_fd, write_fd,
}
use caimr.Buffer.Content.{IsValid, Fits, content, counts_lem, retrieve_lem}
use caimr.Buffer.Room.{append_lem, content-write_at}

-- One call of readv is always offered room for 64 KiB at least, the whole writable part included, and
-- for 64 KiB at most beyond that part.
pub read_capacity_bounds :
    (b : Buffer)
    → IsValid b
    → (extra_size ≤ read_capacity b)
      × (length b.buf - b.writer_index ≤ read_capacity b)
      × (read_capacity b ≤ length b.buf - b.writer_index + extra_size)
unfolding read_capacity
read_capacity_bounds b v =
    let e : sub_size (length b.buf) b.writer_index ≡ length b.buf - b.writer_index = omega arith in
    rw e (ground arith)

-- The storage filled to its end by the first block of readv.
filled : Buffer → Bytes → Buffer
filled b bytes = record b {
  buf = write_at b.buf b.writer_index bytes;
  writer_index = length (write_at b.buf b.writer_index bytes);
}

filled_lem :
    (b : Buffer) (bytes : Bytes)
    → IsValid b
    → length bytes ≡ length b.buf - b.writer_index
    → IsValid (filled b bytes)
      × (content (filled b bytes) ≡ content b ++ bytes)
      × (length (filled b bytes).buf ≡ length b.buf)
unfolding filled
filled_lem b bytes v e =
    let l = length-write_at b.buf b.writer_index bytes in
    let room : b.writer_index + length bytes ≡ length (write_at b.buf b.writer_index bytes) =
      omega (arith, l, v.within) in
    (omega (arith, l), rw (← room) (content-write_at b bytes v (omega arith)), l)

read_fd_fits :
    (b : Buffer) (bytes : Bytes)
    → IsValid b
    → length bytes ≤ length b.buf - b.writer_index
    → read_fd b (received bytes) ≡ (
      record b {
        buf = write_at b.buf b.writer_index (take (length b.buf - b.writer_index) bytes);
        writer_index = b.writer_index + length bytes;
      },
      moved (length bytes),
    )
unfolding read_fd
read_fd_fits b bytes v h =
    let e : writable_bytes b ≡ length b.buf - b.writer_index = (counts_lem b v).2 in
    let s : add_size b.writer_index (length bytes) ≡ b.writer_index + length bytes =
      omega (arith, v.small, v.within) in
    rw (e, le→leb (length bytes) _ h, s)

read_fd_spills :
    (b : Buffer) (bytes : Bytes)
    → IsValid b
    → length b.buf - b.writer_index < length bytes
    → length bytes < 2 ^ 64
    → let writable = length b.buf - b.writer_index in
      read_fd b (received bytes) ≡ (
        append
            (filled b (take writable bytes))
            (take (length bytes - writable) (drop writable bytes)),
        moved (length bytes),
      )
unfolding read_fd filled
read_fd_spills b bytes v h k =
    let writable = length b.buf - b.writer_index in
    let e : writable_bytes b ≡ writable = (counts_lem b v).2 in
    let s : sub_size (length bytes) writable ≡ length bytes - writable = omega arith in
    rw (e, gt→leb (length bytes) writable h, s)

spilled :
    (b : Buffer) (bytes : Bytes)
    → IsValid b
    → Fits b (length bytes)
    → length bytes ≤ read_capacity b
    → length b.buf - b.writer_index < length bytes
    → let writable = length b.buf - b.writer_index in
      let b' =
        append
          (filled b (take writable bytes))
          (take (length bytes - writable) (drop writable bytes)) in
      IsValid b'
      × (content b' ≡ content b ++ bytes)
      × (moved (length bytes) ≡ moved (length bytes))
      × (length b'.buf ≤ length b.buf + extra_size)
spilled b bytes v f cap h =
    let writable = length b.buf - b.writer_index in
    let first = take writable bytes in
    let second = drop writable bytes in
    let whole : take (length bytes - writable) second ≡ second =
      take_all (length bytes - writable) second (omega (arith, length-drop writable bytes)) in
    let (fv, fc, fl) = filled_lem b first v (omega (arith, length-take writable bytes)) in
    let (av, ac, al) =
      append_lem (filled b first) second fv
        (omega (arith, length-drop writable bytes, fl, v.within)) in
    rw whole (
      av,
      ac
          ∙ ap (λ c. c ++ second) fc
          ∙ append_assoc (content b) first second
          ∙ ap (λ t. content b ++ t) (take-append-drop writable bytes),
      refl,
      omega (arith, al, fl, length-drop writable bytes, (read_capacity_bounds b v).2),
    )

-- `read_fd` loses nothing of what the kernel delivered and keeps its order, whether the bytes fit
-- into the writable part or spill into the second block: they stand behind the old content. It
-- returns their number, and the buffer stays valid. Within what readv was offered the storage grows
-- by 64 KiB at most.
pub read_fd_lem :
    (b : Buffer) (bytes : Bytes)
    → IsValid b
    → Fits b (length bytes)
    → length bytes ≤ read_capacity b
    → let (b', n) = read_fd b (received bytes) in
      IsValid b'
      × (content b' ≡ content b ++ bytes)
      × (n ≡ moved (length bytes))
      × (length b'.buf ≤ length b.buf + extra_size)
read_fd_lem b bytes v f cap =
    elim (Bool-cases (leb (length bytes) (length b.buf - b.writer_index))) [
      | inl fits ↦
          let h : length bytes ≤ length b.buf - b.writer_index = leb→le _ _ fits in
          let l = length-write_at b.buf b.writer_index bytes in
          rw (read_fd_fits b bytes v h, take_all (length b.buf - b.writer_index) bytes h)
            (omega (arith, l), content-write_at b bytes v (omega arith), refl, omega (arith, l))
      | inr spills ↦
          rw (read_fd_spills b bytes v (ground arith) (omega arith))
            (spilled b bytes v f cap (ground arith))
    ]

-- A failed read changes nothing and reports errno.
pub read_fd-failed : (b : Buffer) (errno : ℕ) → read_fd b (read_failed errno) ≡ (b, failed errno)
unfolding read_fd
read_fd-failed b errno = refl

pub write_fd-answer : (b : Buffer) (answer : IoResult) → (write_fd b answer).1 ≡ answer
unfolding write_fd
write_fd-answer b answer = refl

-- `write_fd` offers the kernel exactly the content, and retrieving as many bytes as it accepted
-- leaves the rest: what was accepted and what is left make up the old content.
pub write_fd-retrieve :
    (b : Buffer) (n : ℕ)
    → IsValid b
    → let (offered, r) = write_fd b (moved n) in
      (offered ≡ content b) × (r ≡ moved n) × (take n offered ++ content (retrieve b n) ≡ content b)
unfolding write_fd
write_fd-retrieve b n v =
    let e : readable_bytes b ≡ b.writer_index - b.reader_index = (counts_lem b v).1 in
    rw e (
      refl,
      refl,
      ap (λ t. take n (content b) ++ t) (retrieve_lem b n v).1 ∙ take-append-drop n (content b),
    )
