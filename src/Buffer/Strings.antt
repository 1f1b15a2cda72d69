-- ===== src/Buffer/Strings.antt =====
-- The reads of include/net/buffer.h that hand out a std::string.
use caimr.Prelude.{
  ℕ, ◌+◌, ◌-◌, ◌≤◌, ◌<◌, ◌≡◌, refl, sym, ap, ◌∙◌, [], ◌++◌, arith, slice, length, take, drop,
  length-take, length-drop, take_all, drop_all, take_add, take-take, drop-drop,
}
use caimr.Buffer.{Buffer, readable_bytes, retrieve_as_string, retrieve_all_as_string}
use caimr.Buffer.Content.{IsValid, content, counts_lem, retrieve_lem, length-content}

-- Reading a string of at most the readable length gives the first bytes of the content and takes
-- them off.
pub retrieve_as_string_lem :
    (b : Buffer) (len : ℕ)
    → IsValid b
    → len ≤ length (content b)
    → let (s, b') = retrieve_as_string b len in
      (s ≡ take len (content b))
      × (content b' ≡ drop len (content b))
      × IsValid b'
      × (b'.buf ≡ b.buf)
unfolding retrieve_as_string
retrieve_as_string_lem b len v h =
    let (rv, rc, rb) = retrieve_lem b len v in
    (
      sym (
          take-take (b.writer_index - b.reader_index) len (drop b.reader_index b.buf)
            (omega (arith, length-content b v))),
      rc,
      rv,
      rb,
    )

-- `retrieve_all_as_string` gives the whole content and leaves the buffer empty and valid, its
-- storage untouched.
pub retrieve_all_as_string_lem :
    (b : Buffer)
    → IsValid b
    → let (s, b') = retrieve_all_as_string b in
      (s ≡ content b) × (content b' ≡ []) × IsValid b' × (b'.buf ≡ b.buf)
unfolding retrieve_all_as_string
retrieve_all_as_string_lem b v =
    let e : readable_bytes b ≡ length (content b) = (counts_lem b v).0 in
    let (s, c, v', u) = retrieve_as_string_lem b (length (content b)) v (omega arith) in
    rw e (
      s ∙ take_all (length (content b)) (content b) (omega arith),
      c ∙ drop_all (length (content b)) (content b) (omega arith),
      v',
      u,
    )

-- Asked for more than the readable length, `retrieve_as_string` does not stop at the writer index:
-- behind the content it hands out bytes of the storage that nobody wrote or that were read before.
pub retrieve_as_string-overread :
    (b : Buffer) (len : ℕ)
    → IsValid b
    → length (content b) < len
    → b.reader_index + len ≤ length b.buf
    → let (s, b') = retrieve_as_string b len in
      (s ≡ content b ++ slice b.buf b.writer_index (len - length (content b)))
      × (length s ≡ len)
      × (content b' ≡ [])
unfolding retrieve_as_string
retrieve_as_string-overread b len v h room =
    let k = b.writer_index - b.reader_index in
    let rest = drop b.reader_index b.buf in
    let c = length-content b v in
    let e : len ≡ k + (len - k) = omega (arith, c) in
    let w : b.reader_index + k ≡ b.writer_index = omega (arith, v.ordered) in
    (
      ap (λ n. take n rest) e
          ∙ take_add k (len - k) rest
          ∙ rw (drop-drop b.reader_index k b.buf, w, c) refl,
      omega (arith, length-take len rest, length-drop b.reader_index b.buf),
      (retrieve_lem b len v).1 ∙ drop_all len (content b) (omega arith),
    )
