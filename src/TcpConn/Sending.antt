-- ===== src/TcpConn/Sending.antt =====
-- What `send_in_loop` of src/net/tcp_conn.cpp makes of the stream, whatever write(2) answers.
use caimr.Prelude.{
  ℕ, ◌-◌, ◌≤◌, ◌<◌, ◌^◌, ◌≡◌, ◌≢◌, inl, inr, refl, sym, ap, ap₂, subst, ◌∙◌, true, false, not, ◌&&◌,
  [], ◌∷◌, ◌++◌, append_assoc, append-nil, Bytes, length, take, drop, length-drop, take_all,
  take-append-drop, sub_size, arith, ltb, ◌==◌, Bool-cases,
}
use caimr.Buffer
use caimr.Buffer.{Buffer, IoResult, failed, moved}
use caimr.Buffer.Content
use caimr.Buffer.Content.{content, Fits}
use caimr.Chan.{is_writing}
use caimr.Eloop.{Eloop}
use caimr.Functor.{Functor}
use caimr.TcpConn.{
  TcpConn, Callbacks, disconnected, Attempt, epipe, econnreset, store_rest, note_high_water,
  write_directly, attempt, keep_rest, send_in_loop,
}
use caimr.TcpConn.Stream.{
  Answered, IsValid, Kept, Sent, nothing_waits, open_state, store_rest-Kept, stream,
}

module _ (cb : Callbacks) where
  -- Apart from the loop, in which the callback is queued, nothing changes.
  note_high_water-loop :
      (remaining : ℕ) (c : TcpConn)
      → (l : Eloop Functor) × (note_high_water cb remaining c ≡ record c { loop = l })
  unfolding note_high_water
  note_high_water-loop remaining c = ((note_high_water cb remaining c).loop, ground arith)

  pub keep_rest-Kept :
      (bytes rest : Bytes) (a : Attempt)
      → a.fault_occurred ≡ false
      → a.remaining ≡ length rest
      → take a.remaining (drop a.nwrote bytes) ≡ rest
      → Content.IsValid a.conn.output_buf
      → Fits a.conn.output_buf (length rest)
      → is_writing a.conn.ch ≡ not (length (content a.conn.output_buf) == 0)
      → Kept a.conn rest (keep_rest cb bytes a)
  unfolding keep_rest
  keep_rest-Kept bytes [] a ok n e v f w =
      simp (ok, n)
        (record {
          socket = refl;
          state = refl;
          input = refl;
          output = v;
          content = sym (append-nil (content a.conn.output_buf));
          writing = w;
        })
  keep_rest-Kept bytes (x ∷ rest) a ok n e v f w =
      let (l, q) = note_high_water-loop a.remaining a.conn in
      let c : TcpConn = record (a.conn) { loop = l } in
      let more : ltb 0 a.remaining ≡ true = ground (arith, n) in
      let k : Kept a.conn (x ∷ rest) (store_rest (x ∷ rest) c) =
        let s = store_rest-Kept c (x ∷ rest) v f (omega arith) in
        record {
          socket = s.socket;
          state = s.state;
          input = s.input;
          output = s.output;
          content = s.content;
          writing = s.writing;
        } in
      simp (ok, more, e, q) k

  pub write_directly-moved :
      (n : ℕ) (bytes : Bytes) (c : TcpConn)
      → n ≤ length bytes
      → length bytes < 2 ^ 64
      → (l : Eloop Functor) × (write_directly cb (moved n) bytes c ≡ record {
        conn = record c {
          loop = l;
          socket = record (c.socket) { sent = c.socket.sent ++ take n bytes };
        };
        nwrote = n;
        remaining = length bytes - n;
        fault_occurred = false;
      })
  unfolding write_directly
  write_directly-moved n bytes c le small =
      let e : sub_size (length bytes) n ≡ length bytes - n = omega arith in
      ((write_directly cb (moved n) bytes c).conn.loop, rw e (ground arith))

  -- From what was kept to what was sent.
  Kept-Sent :
      (c d c' : TcpConn) (bytes rest : Bytes)
      → Kept d rest c'
      → IsValid c
      → d.state ≡ c.state
      → d.input_buf ≡ c.input_buf
      → d.socket.sent ++ (content d.output_buf ++ rest) ≡ stream c ++ bytes
      → Sent c bytes c'
  Kept-Sent c d c' bytes rest k v s i e = record {
    stream = ap₂ ◌++◌ (ap (λ s. s.sent) k.socket) k.content ∙ e;
    valid = record {
      input = subst Content.IsValid (sym (k.input ∙ i)) v.input;
      output = k.output;
      writing = λ _. k.writing;
    };
    state = k.state ∙ s;
    input = k.input ∙ i;
  }

  pub write_directly-failed :
      (errno : ℕ) (bytes : Bytes) (c : TcpConn)
      → errno ≢ epipe
      → errno ≢ econnreset
      → write_directly cb (failed errno) bytes c
        ≡ record { conn = c; nwrote = 0; remaining = length bytes; fault_occurred = false }
  unfolding write_directly
  write_directly-failed errno bytes c ep er = ground arith

  -- With nothing waiting, the kernel takes the first bytes and the rest is kept.
  direct-Sent :
      (answer : IoResult) (bytes : Bytes) (c : TcpConn)
      → IsValid c
      → c.state ≢ disconnected
      → content c.output_buf ≡ []
      → Fits c.output_buf (length bytes)
      → Answered answer bytes
      → Sent c bytes (keep_rest cb bytes (write_directly cb answer bytes c))
  direct-Sent (moved n) bytes c v live empty f a =
      let (l, e) = write_directly-moved n bytes c a (omega arith) in
      let d : TcpConn = record c {
        loop = l;
        socket = record (c.socket) { sent = c.socket.sent ++ take n bytes };
      } in
      let size = length-drop n bytes in
      let k =
        keep_rest-Kept bytes (drop n bytes) _ refl (sym size)
          (take_all (length bytes - n) (drop n bytes) (omega (arith, size))) v.output
          (omega (arith, size)) (v.writing live) in
      rw e (
        Kept-Sent c d _ bytes (drop n bytes) k v refl refl (
          simp (empty, append-nil)
            (append_assoc c.socket.sent (take n bytes) (drop n bytes)
              ∙ ap (λ t. c.socket.sent ++ t) (take-append-drop n bytes))))
  direct-Sent (failed errno) bytes c v live empty f (ep, er) =
      rw (write_directly-failed errno bytes c ep er) (
        Kept-Sent c c _ bytes bytes
          (keep_rest-Kept bytes bytes _ refl refl (take_all (length bytes) bytes (omega arith))
            v.output f (v.writing live))
          v refl refl (sym (append_assoc c.socket.sent (content c.output_buf) bytes)))

  attempt-Sent :
      (answer : IoResult) (bytes : Bytes) (c : TcpConn)
      → IsValid c
      → c.state ≢ disconnected
      → Fits c.output_buf (length bytes)
      → Answered answer bytes
      → Sent c bytes (keep_rest cb bytes (attempt cb answer bytes c))
  unfolding attempt
  attempt-Sent answer bytes c v live f a =
      elim (Bool-cases (not (is_writing c.ch) && Buffer.readable_bytes c.output_buf == 0)) [
        | inl idle ↦ simp idle (
            direct-Sent answer bytes c v live
              (nothing_waits (content c.output_buf) (is_writing c.ch) (v.writing live)
                (ground (arith, idle)))
              f a)
        | inr busy ↦ simp busy (
            Kept-Sent c c _ bytes bytes
              (keep_rest-Kept bytes bytes _ refl refl (take_all (length bytes) bytes (omega arith))
                v.output f (v.writing live))
              v refl refl (sym (append_assoc c.socket.sent (content c.output_buf) bytes)))
      ]

  -- What is sent on a valid connection that is not closed, if it fits behind the output and the
  -- kernel takes no more than it was offered and reports no broken connection, goes, whole and in
  -- order, to the end of the stream: the kernel has taken its beginning, if it was asked at all,
  -- and the rest waits in the output buffer, with EPOLLOUT asked for. The connection stays valid,
  -- and its state and input are not changed.
  pub send_in_loop_lem :
      (answer : IoResult) (bytes : Bytes) (c : TcpConn)
      → IsValid c
      → c.state ≢ disconnected
      → Fits c.output_buf (length bytes)
      → Answered answer bytes
      → Sent c bytes (send_in_loop cb answer bytes c)
  unfolding send_in_loop
  send_in_loop_lem answer bytes c v live f a =
      simp (open_state c.state live) (attempt-Sent answer bytes c v live f a)
