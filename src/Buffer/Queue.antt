-- ===== src/Buffer/Queue.antt =====
-- A buffer behaves as a queue of bytes: no sequence of calls tells the two apart, as long as the
-- storage fits into a size_t and no string longer than the content is asked for.
use caimr.Prelude.{
  ℕ, ◌+◌, ◌^◌, ◌≤◌, ◌<◌, ◌≡◌, refl, ap, ap₂, List, [], ◌∷◌, ◌++◌, arith, Bytes, length, take, drop,
}
use caimr.Buffer.{
  Buffer, cheap_prepend, retrieve, retrieve_as_string, retrieve_all_as_string,
  ensure_writable_bytes, append,
}
use caimr.Buffer.Content.{IsValid, content, retrieve_lem}
use caimr.Buffer.Room.{append_lem, ensure_writable_bytes_lem}
use caimr.Buffer.Strings.{retrieve_as_string_lem, retrieve_all_as_string_lem}

-- A client's call. The two reads hand out a string.
pub data Call : Type 0 where
  appends : Bytes → Call
  ensures : ℕ → Call
  retrieves : ℕ → Call
  takes_string : ℕ → Call
  takes_all : Call

-- The strings handed out, and the buffer that is left.
pub run : Buffer → List Call → List Bytes × Buffer
run b [] = ([], b)
run b (appends bytes ∷ cs) = run (append b bytes) cs
run b (ensures len ∷ cs) = run (ensure_writable_bytes b len) cs
run b (retrieves len ∷ cs) = run (retrieve b len) cs
run b (takes_string len ∷ cs) =
    let (s, b') = retrieve_as_string b len in let (out, last) = run b' cs in (s ∷ out, last)
run b (takes_all ∷ cs) =
    let (s, b') = retrieve_all_as_string b in let (out, last) = run b' cs in (s ∷ out, last)

-- The same calls on a queue of bytes, oldest first.
pub run_queue : Bytes → List Call → List Bytes × Bytes
run_queue q [] = ([], q)
run_queue q (appends bytes ∷ cs) = run_queue (q ++ bytes) cs
run_queue q (ensures len ∷ cs) = run_queue q cs
run_queue q (retrieves len ∷ cs) = run_queue (drop len q) cs
run_queue q (takes_string len ∷ cs) =
    let (out, last) = run_queue (drop len q) cs in (take len q ∷ out, last)
run_queue q (takes_all ∷ cs) = let (out, last) = run_queue [] cs in (q ∷ out, last)

-- No string longer than the content is asked for.
abbrev pub Admissible : Bytes → List Call → Type 0
Admissible q [] = Unit {0}
Admissible q (appends bytes ∷ cs) = Admissible (q ++ bytes) cs
Admissible q (ensures len ∷ cs) = Admissible q cs
Admissible q (retrieves len ∷ cs) = Admissible (drop len q) cs
Admissible q (takes_string len ∷ cs) = (len ≤ length q) × Admissible (drop len q) cs
Admissible q (takes_all ∷ cs) = Admissible [] cs

-- By how much the calls can make the storage grow.
abbrev pub volume : List Call → ℕ
volume [] = 0
volume (appends bytes ∷ cs) = length bytes + volume cs
volume (ensures len ∷ cs) = len + volume cs
volume (retrieves len ∷ cs) = volume cs
volume (takes_string len ∷ cs) = volume cs
volume (takes_all ∷ cs) = volume cs

abbrev pub FitsAll : Buffer → List Call → Type 0
FitsAll b cs = length b.buf + volume cs + cheap_prepend < 2 ^ 64

-- The strings that a valid buffer hands out over a sequence of admissible calls are those of the
-- queue of its content, what is left in it at the end is what is left in the queue, and it is still
-- valid, if its storage with all that the calls can add to it fits into a size_t.
pub run_refines :
    (cs : List Call) {b : Buffer}
    → IsValid b
    → FitsAll b cs
    → Admissible (content b) cs
    → ((run b cs).0 ≡ (run_queue (content b) cs).0)
      × (content (run b cs).1 ≡ (run_queue (content b) cs).1)
      × IsValid (run b cs).1
unfolding run run_queue
run_refines [] v f a = (refl, refl, v)
run_refines (appends bytes ∷ cs) {b} v f a =
    let (v', c, l) = append_lem b bytes v (omega arith) in
    rw c at (run_refines cs v' (omega arith) (rw c a))
run_refines (ensures len ∷ cs) {b} v f a =
    let e = ensure_writable_bytes_lem b len v (omega arith) in
    rw e.same at (run_refines cs e.valid (omega (arith, e.bound)) (rw e.same a))
run_refines (retrieves len ∷ cs) {b} v f a =
    let (v', c, s) = retrieve_lem b len v in
    rw c at (run_refines cs v' (omega (arith, ap length s)) (rw c a))
run_refines (takes_string len ∷ cs) {b} v f a =
    let (s, c, v', u) = retrieve_as_string_lem b len v a.0 in
    let rest = rw c at (run_refines cs v' (omega (arith, ap length u)) (rw c a.1)) in
    (ap₂ ◌∷◌ s rest.0, rest.1, rest.2)
run_refines (takes_all ∷ cs) {b} v f a =
    let (s, c, v', u) = retrieve_all_as_string_lem b v in
    let rest = rw c at (run_refines cs v' (omega (arith, ap length u)) (rw c a)) in
    (ap₂ ◌∷◌ s rest.0, rest.1, rest.2)
