-- ===== src/TcpConn/Failing.antt =====
-- What `send_in_loop` of src/net/tcp_conn.cpp does when write(2) fails.
use caimr.Prelude.{
  ℕ, ◌≡◌, ◌≢◌, Bool, if◌then◌else◌, ◌⊎◌, inl, inr, refl, sym, ap, ◌∙◌, true, false, not, ◌&&◌, ◌||◌,
  [], ◌++◌, Bytes, length, arith, ◌==◌, ==_iff, Bool-cases,
}
use caimr.Buffer
use caimr.Buffer.{Buffer, IoResult, failed, moved}
use caimr.Buffer.Content
use caimr.Buffer.Content.{content, Fits}
use caimr.Chan.{is_writing}
use caimr.TcpConn.{
  TcpConn, Callbacks, disconnected, ewouldblock, epipe, econnreset, write_directly, attempt,
  keep_rest, send_in_loop,
}
use caimr.TcpConn.Stream.{IsValid, Sent, nothing_waits, open_state, stream}
use caimr.TcpConn.Inputs.{Bounded}
use caimr.TcpConn.Sending.{send_in_loop_lem}

which :
    (errno : ℕ)
    → (errno == epipe || errno == econnreset) ≡ true
    → (errno ≡ epipe) ⊎ (errno ≡ econnreset)
which errno h = elim (Bool-cases (errno == epipe)) [
  | inl pipe ↦ inl ((==_iff errno epipe).0 pipe)
  | inr other ↦ inr (ground (arith, other, h))
]

-- The block is dropped: write(2) is called, and says that the peer is gone.
abbrev pub lost : IoResult → TcpConn → Bool
lost (moved n) c = false
lost (failed errno) c =
    (not (is_writing c.ch) && Buffer.readable_bytes c.output_buf == 0)
    && (errno == epipe || errno == econnreset)

-- What a block does to a valid connection, when the kernel may answer anything.
pub record Handed (bytes : Bytes) (answer : IoResult) (c c' : TcpConn) : Type 0 where
  pub stream : stream c' ≡ (if lost answer c then stream c else stream c ++ bytes)
  pub valid : IsValid c'
  pub state : c'.state ≡ c.state
  pub input : c'.input_buf ≡ c.input_buf

module _ (cb : Callbacks) where
  -- A block sent when nothing waits and the peer is gone (EPIPE or ECONNRESET) is dropped: nothing of
  -- the connection changes, so it still counts as open and none of its callbacks learns of the loss.
  send_in_loop-broken :
      (errno : ℕ) (bytes : Bytes) (c : TcpConn)
      → IsValid c
      → c.state ≢ disconnected
      → content c.output_buf ≡ []
      → (errno ≡ epipe) ⊎ (errno ≡ econnreset)
      → send_in_loop cb (failed errno) bytes c ≡ c
  unfolding send_in_loop attempt keep_rest write_directly
  send_in_loop-broken errno bytes c v live empty h =
      let off : is_writing c.ch ≡ false = v.writing live ∙ ap (λ q. not (length q == 0)) empty in
      let none_left : (Buffer.readable_bytes c.output_buf == 0) ≡ true =
        ground (arith, (Content.counts_lem c.output_buf v.output).0, ap length empty) in
      let fault : (not (errno == ewouldblock) && (errno == epipe || errno == econnreset)) ≡ true =
        ground arith in
      simp (open_state c.state live, off, none_left, fault)

  -- While something waits, write(2) is not called.
  send_in_loop-busy :
      (answer answer' : IoResult) (bytes : Bytes) (c : TcpConn)
      → (not (is_writing c.ch) && Buffer.readable_bytes c.output_buf == 0) ≡ false
      → send_in_loop cb answer bytes c ≡ send_in_loop cb answer' bytes c
  unfolding send_in_loop attempt
  send_in_loop-busy answer answer' bytes c busy = simp busy

  kept-Handed :
      (bytes : Bytes) (answer : IoResult) (c c' : TcpConn)
      → lost answer c ≡ false
      → Sent c bytes c'
      → Handed bytes answer c c'
  kept-Handed bytes answer c c' e s = record {
    stream = s.stream ∙ ap (λ b. if b then stream c else stream c ++ bytes) (sym e);
    valid = s.valid;
    state = s.state;
    input = s.input;
  }

  failed-Handed :
      (errno : ℕ) (bytes : Bytes) (c : TcpConn)
      → IsValid c
      → c.state ≢ disconnected
      → Fits c.output_buf (length bytes)
      → Handed bytes (failed errno) c (send_in_loop cb (failed errno) bytes c)
  failed-Handed errno bytes c v live f = elim (Bool-cases (errno == epipe || errno == econnreset)) [
    | inr fine ↦ kept-Handed bytes (failed errno) c _ (ground (arith, fine)) (
        send_in_loop_lem cb (failed errno) bytes c v live f
          (λ h. absurd (ground (arith, fine, h)), λ h. absurd (ground (arith, fine, h))))
    | inl broken ↦
        elim (Bool-cases (not (is_writing c.ch) && Buffer.readable_bytes c.output_buf == 0)) [
          | inl idle ↦
              let empty =
                nothing_waits (content c.output_buf) (is_writing c.ch) (v.writing live)
                  (ground (arith, idle)) in
              rw (send_in_loop-broken errno bytes c v live empty (which errno broken)) (record {
                stream = ground (arith, idle, broken);
                valid = v;
                state = refl;
                input = refl;
              })
          | inr busy ↦ rw (send_in_loop-busy (failed errno) (moved 0) bytes c busy) (
              kept-Handed bytes (failed errno) c _ (ground (arith, busy))
                (send_in_loop_lem cb (moved 0) bytes c v live f (omega arith)))
        ]
  ]

  -- A block that `send_in_loop` is given for a connection that is not DISCONNECTED, one that has been
  -- shut down and is DISCONNENTING included, whatever write(2) answers when it is asked to take it: the
  -- block goes once, whole and in order, to the end of the stream, the kernel having taken its
  -- beginning, if it was asked at all, and the rest waiting in the output buffer, with EPOLLOUT asked
  -- for. Only if nothing was waiting and write(2) fails with EPIPE or ECONNRESET is the block dropped.
  -- In each case the connection stays valid, and its state and input are not changed. The block fits
  -- into the output buffer, and write(2) takes no more than there is.
  pub send_in_loop-Handed :
      (answer : IoResult) (bytes : Bytes) (c : TcpConn)
      → IsValid c
      → c.state ≢ disconnected
      → Fits c.output_buf (length bytes)
      → Bounded answer bytes
      → Handed bytes answer c (send_in_loop cb answer bytes c)
  send_in_loop-Handed (moved n) bytes c v live f a =
      kept-Handed bytes (moved n) c _ refl (send_in_loop_lem cb (moved n) bytes c v live f a)
  send_in_loop-Handed (failed errno) bytes c v live f a = failed-Handed errno bytes c v live f
