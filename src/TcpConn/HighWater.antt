-- ===== src/TcpConn/HighWater.antt =====
-- When `send_in_loop` of src/net/tcp_conn.cpp tells the user that too much waits.
use caimr.Prelude.{
  ℕ, ◌+◌, ◌-◌, ◌%◌, ◌<◌, ◌^◌, ◌≡◌, ◌≢◌, inl, inr, refl, sym, ap, ◌∙◌, true, false, not, ◌&&◌, List,
  [], ◌∷◌, ◌++◌, append-nil, Bytes, length, length-append, sub_size, length-drop, take_all, take,
  drop, arith, ltb, leb, ◌==◌, if◌then◌else◌, Bool-cases,
}
use native.Mathlib.Nat.{mod-eq_of_lt}
use caimr.Buffer
use caimr.Buffer.{Buffer, IoResult, failed, moved}
use caimr.Buffer.Content
use caimr.Buffer.Content.{content, Fits}
use caimr.Chan.{is_writing}
use caimr.Eloop.Channels
use caimr.Eloop.Pending.{pending-queue_in_loop}
use caimr.Functor.{Functor, high_water_mark}
use caimr.TcpConn.{
  TcpConn, Callbacks, disconnected, is_set, Attempt, store_rest, note_high_water, write_directly,
  attempt, keep_rest, send_in_loop,
}
use caimr.TcpConn.Stream.{Answered, IsValid, open_state}
use caimr.TcpConn.Sending.{keep_rest-Kept, write_directly-moved, write_directly-failed}
use caimr.TcpConn.Flushing.{waiting}

-- The calls of the high-water callback in a queue of functors, by what they report.
abbrev pub alarms : List Functor → List ℕ
alarms [] = []
alarms (high_water_mark conn len ∷ fs) = len ∷ alarms fs
alarms (_ ∷ fs) = alarms fs

abbrev pub queued_alarms : TcpConn → List ℕ
queued_alarms c = alarms c.loop.pending_functors

-- The call that is due when the output goes from `before` to `after`: one if this passes the mark.
abbrev pub due : (mark before after : ℕ) → List ℕ
due mark before after = if leb mark after && ltb before mark then after ∷ [] else []

alarms-append : (fs gs : List Functor) → alarms (fs ++ gs) ≡ alarms fs ++ alarms gs
alarms-append [] gs = refl
alarms-append (high_water_mark conn len ∷ fs) gs = ap (λ t. len ∷ t) (alarms-append fs gs)
alarms-append (Functor.send_in_loop conn ptr len ∷ fs) gs = alarms-append fs gs
alarms-append (Functor.shutdown_in_loop conn ∷ fs) gs = alarms-append fs gs
alarms-append (Functor.establish_conn conn ∷ fs) gs = alarms-append fs gs
alarms-append (Functor.destroy_conn conn ∷ fs) gs = alarms-append fs gs
alarms-append (Functor.write_complete conn ∷ fs) gs = alarms-append fs gs
alarms-append (Functor.remove_conn_in_loop conn ∷ fs) gs = alarms-append fs gs
alarms-append (Functor.listen ∷ fs) gs = alarms-append fs gs

pending-store_rest :
    (rest : Bytes) (c : TcpConn)
    → (store_rest rest c).loop.pending_functors ≡ c.loop.pending_functors
unfolding store_rest
pending-store_rest rest c = elim (Bool-cases (is_writing c.ch)) [
  | inl on ↦ simp on
  | inr off ↦ simp off (Channels.pending-enable_writing c.ch c.loop)
]

not_due : (mark n : ℕ) → due mark n n ≡ []
not_due mark n = ground arith

-- `c'` has in its queue what `c` has, and the call that is due.
abbrev Rings : TcpConn → TcpConn → Type 0
Rings c c' = queued_alarms c' ≡ queued_alarms c ++ due c.high_water_mark (waiting c) (waiting c')

as_queued :
    (c d c' : TcpConn)
    → queued_alarms d ≡ queued_alarms c
    → queued_alarms c' ≡ queued_alarms d ++ due c.high_water_mark (waiting c) (waiting c')
    → Rings c c'
as_queued c d c' same r = r ∙ ap (λ q. q ++ due c.high_water_mark (waiting c) (waiting c')) same

module _ (cb : Callbacks) (set : is_set cb.high_water_mark_callback ≡ true) where
  alarms-note_high_water :
      (remaining : ℕ) (c : TcpConn)
      → Content.IsValid c.output_buf
      → waiting c + remaining < 2 ^ 64
      → queued_alarms (note_high_water cb remaining c)
        ≡ queued_alarms c ++ due c.high_water_mark (waiting c) (waiting c + remaining)
  unfolding note_high_water
  alarms-note_high_water remaining c v small =
      let count = (Content.counts_lem c.output_buf v).0 in
      let total : (waiting c + remaining) % 2 ^ 64 ≡ waiting c + remaining = mod-eq_of_lt small in
      let f = high_water_mark c.id (waiting c + remaining) in
      let none_queued = sym (append-nil (queued_alarms c)) in
      elim (Bool-cases (leb c.high_water_mark (waiting c + remaining))) [
        | inr below ↦ simp (total, count, set, below) none_queued
        | inl above ↦ elim (Bool-cases (ltb (waiting c) c.high_water_mark)) [
          | inr already ↦ simp (total, count, set, above, already) none_queued
          | inl first ↦
              simp (total, count, set, above, first)
                (ap alarms (pending-queue_in_loop c.loop.thread_id f c.loop)
                  ∙ alarms-append c.loop.pending_functors (f ∷ []))
        ]
      ]

  -- Block and attempt as in `keep_rest-Kept`.
  alarms-keep_rest :
      (bytes rest : Bytes) (a : Attempt)
      → a.fault_occurred ≡ false
      → a.remaining ≡ length rest
      → take a.remaining (drop a.nwrote bytes) ≡ rest
      → Content.IsValid a.conn.output_buf
      → Fits a.conn.output_buf (length rest)
      → is_writing a.conn.ch ≡ not (length (content a.conn.output_buf) == 0)
      → queued_alarms (keep_rest cb bytes a)
        ≡ queued_alarms a.conn
          ++ due a.conn.high_water_mark (waiting a.conn) (waiting (keep_rest cb bytes a))
  unfolding keep_rest
  alarms-keep_rest bytes [] a ok n e v f w =
      simp (ok, n, not_due a.conn.high_water_mark (waiting a.conn))
        (sym (append-nil (queued_alarms a.conn)))
  alarms-keep_rest bytes (x ∷ rest) a ok n e v f w =
      let k = keep_rest-Kept cb bytes (x ∷ rest) a ok n e v f w in
      let after : waiting (keep_rest cb bytes a) ≡ waiting a.conn + a.remaining =
        ap length k.content
        ∙ length-append (content a.conn.output_buf) (x ∷ rest)
        ∙ ap (λ m. waiting a.conn + m) (sym n) in
      let more : ltb 0 a.remaining ≡ true = ground (arith, n) in
      let (size, _, _, all) = Content.counts_lem a.conn.output_buf v in
      let queued : queued_alarms (keep_rest cb bytes a)
          ≡ queued_alarms (note_high_water cb a.remaining a.conn) =
        simp (ok, more)
          (ap alarms (pending-store_rest _ (note_high_water cb a.remaining a.conn))) in
      queued
      ∙ alarms-note_high_water a.remaining a.conn v (omega (arith, n, f, size, all))
      ∙ ap (λ m. queued_alarms a.conn ++ due a.conn.high_water_mark (waiting a.conn) m) (sym after)

  alarms-write_directly :
      (answer : IoResult) (bytes : Bytes) (c : TcpConn)
      → queued_alarms (write_directly cb answer bytes c).conn ≡ queued_alarms c
  unfolding write_directly
  alarms-write_directly (failed errno) bytes c = refl
  alarms-write_directly (moved n) bytes c =
      elim (Bool-cases (sub_size (length bytes) n == 0 && is_set cb.write_complete_callback)) [
        | inr off ↦ simp off
        | inl on ↦ simp on (
            ap alarms (pending-queue_in_loop c.loop.thread_id (Functor.write_complete c.id) c.loop)
            ∙ alarms-append c.loop.pending_functors (Functor.write_complete c.id ∷ [])
            ∙ append-nil (queued_alarms c))
      ]

  direct-Rings :
      (answer : IoResult) (bytes : Bytes) (c : TcpConn)
      → IsValid c
      → c.state ≢ disconnected
      → Fits c.output_buf (length bytes)
      → Answered answer bytes
      → Rings c (keep_rest cb bytes (write_directly cb answer bytes c))
  direct-Rings (moved n) bytes c v live f a =
      let (l, e) = write_directly-moved cb n bytes c a (omega arith) in
      let same : alarms l.pending_functors ≡ queued_alarms c =
        ap (λ (t : Attempt). queued_alarms t.conn) (sym e)
        ∙ alarms-write_directly (moved n) bytes c in
      let size = length-drop n bytes in
      let d : TcpConn = record c {
        loop = l;
        socket = record (c.socket) { sent = c.socket.sent ++ take n bytes };
      } in
      let t : Attempt = record {
        conn = d;
        nwrote = n;
        remaining = length bytes - n;
        fault_occurred = false;
      } in
      rw e (
        as_queued c d (keep_rest cb bytes t) same (
          alarms-keep_rest bytes (drop n bytes) t refl (sym size)
            (take_all (length bytes - n) (drop n bytes) (omega (arith, size))) v.output
            (omega (arith, size)) (v.writing live)))
  direct-Rings (failed errno) bytes c v live f (ep, er) =
      rw (write_directly-failed cb errno bytes c ep er) (
        alarms-keep_rest bytes bytes _ refl refl (take_all (length bytes) bytes (omega arith))
          v.output f (v.writing live))

  attempt-Rings :
      (answer : IoResult) (bytes : Bytes) (c : TcpConn)
      → IsValid c
      → c.state ≢ disconnected
      → Fits c.output_buf (length bytes)
      → Answered answer bytes
      → Rings c (keep_rest cb bytes (attempt cb answer bytes c))
  unfolding attempt
  attempt-Rings answer bytes c v live f a =
      elim (Bool-cases (not (is_writing c.ch) && Buffer.readable_bytes c.output_buf == 0)) [
        | inl idle ↦ simp idle (direct-Rings answer bytes c v live f a)
        | inr busy ↦ simp busy (
            alarms-keep_rest bytes bytes _ refl refl (take_all (length bytes) bytes (omega arith))
              v.output f (v.writing live))
      ]

  -- The user is told when too much waits, and not more often. If a high-water callback is set, and under
  -- the conditions of `send_in_loop_lem`, a call of it is queued exactly when the block takes the
  -- output from below the mark to the mark or beyond it, one call and not more, and it reports what
  -- waits from then on; no other call of it that is queued is touched.
  pub send_in_loop-alarms :
      (answer : IoResult) (bytes : Bytes) (c : TcpConn)
      → IsValid c
      → c.state ≢ disconnected
      → Fits c.output_buf (length bytes)
      → Answered answer bytes
      → let c' = send_in_loop cb answer bytes c in
        queued_alarms c' ≡ queued_alarms c ++ due c.high_water_mark (waiting c) (waiting c')
  unfolding send_in_loop
  send_in_loop-alarms answer bytes c v live f a =
      simp (open_state c.state live) (attempt-Rings answer bytes c v live f a)
