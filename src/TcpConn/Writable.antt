-- ===== src/TcpConn/Writable.antt =====
-- tcp_conn::handle_write: the output buffer is written out when the socket takes data again, and a
-- connection that is shutting down closes its sending side once nothing is left.
use caimr.Prelude.{
  ℕ, zero, suc, ◌≡◌, ◌≢◌, ◌⊎◌, inl, inr, refl, sym, ap, ap₂, subst, ◌∙◌, true, false, not, [], ◌∷◌,
  ◌++◌, append_assoc, Bytes, length, take, arith, lt→ltb, ◌==◌, if◌then◌else◌, Bool-cases,
}
use caimr.Buffer
use caimr.Buffer.{Buffer, IoResult, failed, moved}
use caimr.Buffer.Content
use caimr.Buffer.Content.{content}
use caimr.Buffer.Io
use caimr.Chan.{is_writing}
use caimr.Eloop.Channels
use caimr.TcpConn.{
  TcpConn, Callbacks, State, disconnenting, is_state, shutdown_in_loop, drained, after_write,
  handle_write,
}
use caimr.TcpConn.Stream.{IsValid, stream}

-- The sending side is closed only behind the last byte: it stays as it was, or the connection is
-- shutting down and nothing waits.
abbrev pub ClosesLast : TcpConn → TcpConn → Type 0
ClosesLast c c' =
    (c'.socket.write_closed ≡ c.socket.write_closed)
    ⊎ ((content c'.output_buf ≡ []) × (c.state ≡ disconnenting))

closes_at :
    (c c' : TcpConn) (s : State)
    → c.state ≡ s
    → c'.socket.write_closed ≡ (if is_state s disconnenting then true else c.socket.write_closed)
    → content c'.output_buf ≡ []
    → ClosesLast c c'
closes_at c c' disconnenting h e q = inr (q, h)
closes_at c c' _ h e q = inl e

pub record Drained (c c' : TcpConn) : Type 0 where
  pub sent : c'.socket.sent ≡ c.socket.sent
  pub output : c'.output_buf ≡ c.output_buf
  pub input : c'.input_buf ≡ c.input_buf
  pub state : c'.state ≡ c.state
  pub writing : is_writing c'.ch ≡ false
  pub closed :
      c'.socket.write_closed
      ≡ (if is_state c.state disconnenting then true else c.socket.write_closed)

nonempty : (q : Bytes) → q ≢ [] → not (length q == 0) ≡ true
nonempty [] h = absurd (h refl)
nonempty (x ∷ q) h = ground arith

pub empty_of_length : (q : Bytes) → (length q == 0) ≡ true → q ≡ []
empty_of_length [] h = refl
empty_of_length (x ∷ q) h = absurd (ground arith)

module _ (cb : Callbacks) where
  pub drained-Drained : (c : TcpConn) → Drained c (drained cb c)
  unfolding drained shutdown_in_loop
  drained-Drained c =
      let off = Channels.is_writing-disable_writing c.ch c.loop in
      record {
        sent = ground (arith, off);
        output = ground (arith, off);
        input = ground (arith, off);
        state = ground (arith, off);
        writing = ground (arith, off);
        closed = ground (arith, off);
      }

  -- `c'` is `c` after some bytes went over from the output buffer to the kernel.
  pub record Written (c c' : TcpConn) : Type 0 where
    pub stream : stream c' ≡ stream c
    pub valid : IsValid c'
    pub state : c'.state ≡ c.state
    pub input : c'.input_buf ≡ c.input_buf
    pub closes : ClosesLast c c'

  unchanged : (c : TcpConn) → IsValid c → Written c c
  unchanged c v = record { stream = refl; valid = v; state = refl; input = refl; closes = inl refl }

  -- The connection after the kernel took `n` of the bytes offered.
  abbrev taken : ℕ → TcpConn → TcpConn
  taken n c = record c {
    output_buf = Buffer.retrieve c.output_buf n;
    socket = record (c.socket) {
      sent = c.socket.sent ++ take n (Buffer.write_fd c.output_buf (moved n)).0;
    };
  }

  stream-taken : (n : ℕ) (c : TcpConn) → IsValid c → stream (taken n c) ≡ stream c
  stream-taken n c v =
      let (_, _, e) = Io.write_fd-retrieve c.output_buf n v.output in
      append_assoc c.socket.sent _ _ ∙ ap (λ t. c.socket.sent ++ t) e

  drained-Written :
      (n : ℕ) (c : TcpConn)
      → IsValid c
      → content (taken n c).output_buf ≡ []
      → Written c (drained cb (taken n c))
  drained-Written n c v empty =
      let d = drained-Drained (taken n c) in
      let (rv, _, _) = Content.retrieve_lem c.output_buf n v.output in
      record {
        stream = ap₂ (λ s b. s ++ content b) d.sent d.output ∙ stream-taken n c v;
        valid = record {
          input = subst Content.IsValid (sym d.input) v.input;
          output = subst Content.IsValid (sym d.output) rv;
          writing = λ _.
              d.writing
              ∙ sym (
                  ap (λ b. not (length (content b) == 0)) d.output
                  ∙ ap (λ q. not (length q == 0)) empty);
        };
        state = d.state;
        input = d.input;
        closes =
            closes_at c (drained cb (taken n c)) c.state refl d.closed
              (ap content d.output ∙ empty);
      }

  taken-Written :
      (n : ℕ) (c : TcpConn)
      → IsValid c
      → is_writing c.ch ≡ true
      → content (taken n c).output_buf ≢ []
      → Written c (taken n c)
  taken-Written n c v on more =
      let (rv, _, _) = Content.retrieve_lem c.output_buf n v.output in
      record {
        stream = stream-taken n c v;
        valid = record {
          input = v.input;
          output = rv;
          writing = λ _. on ∙ sym (nonempty (content (taken n c).output_buf) more);
        };
        state = refl;
        input = refl;
        closes = inl refl;
      }

  after_write-Written :
      (answer : IoResult) (c : TcpConn)
      → IsValid c
      → is_writing c.ch ≡ true
      → Written c (after_write cb (Buffer.write_fd c.output_buf answer).0 answer c)
  unfolding after_write
  after_write-Written (failed errno) c v on = unchanged c v
  after_write-Written (moved zero) c v on = unchanged c v
  after_write-Written (moved (suc n)) c v on =
      let left = Buffer.readable_bytes (Buffer.retrieve c.output_buf (suc n)) in
      let (rv, _, _) = Content.retrieve_lem c.output_buf (suc n) v.output in
      let count : left ≡ length (content (taken (suc n) c).output_buf) =
        (Content.counts_lem (taken (suc n) c).output_buf rv).0 in
      elim (Bool-cases (left == 0)) [
        | inl none_left ↦
            simp (lt→ltb 0 (suc n) (omega arith), none_left)
              (drained-Written (suc n) c v
                (empty_of_length (content (taken (suc n) c).output_buf) (ground (arith, count))))
        | inr some_left ↦
            simp (lt→ltb 0 (suc n) (omega arith), some_left)
              (taken-Written (suc n) c v on (λ e. absurd (ground (arith, count, ap length e))))
      ]

  -- What `handle_write` does to a valid connection, however much the kernel takes, and also if it
  -- fails: the stream stays what it is, as bytes only go over from the output buffer to the kernel;
  -- the connection stays valid, so EPOLLOUT is asked for exactly while something is left; state and
  -- input are not changed; and the sending side is closed behind the last byte only.
  pub handle_write_lem :
      (answer : IoResult) (c : TcpConn) → IsValid c → Written c (handle_write cb answer c)
  unfolding handle_write
  handle_write_lem answer c v = elim (Bool-cases (is_writing c.ch)) [
    | inl on ↦ simp (on, Io.write_fd-answer c.output_buf answer) (after_write-Written answer c v on)
    | inr off ↦ simp off (unchanged c v)
  ]
