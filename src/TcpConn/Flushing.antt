-- ===== src/TcpConn/Flushing.antt =====
-- How a connection gets rid of its output: `handle_write`, time after time, and what `shutdown` comes to.
use caimr.Prelude.{
  ℕ, zero, suc, ◌+◌, ◌-◌, ◌≤◌, ◌≡◌, ◌≢◌, inl, inr, refl, sym, ap, ap₂, ◌∙◌, true, false, not, List,
  [], ◌∷◌, ◌++◌, append-nil, length, length-drop, take, arith, lt→ltb, ◌==◌, Bool-cases,
  if◌then◌else◌,
}
use caimr.Buffer
use caimr.Buffer.{Buffer, IoResult, failed, moved}
use caimr.Buffer.Content
use caimr.Buffer.Content.{content}
use caimr.Buffer.Io
use caimr.Chan.{is_writing}
use caimr.Eloop
use caimr.TcpConn.{
  TcpConn, Callbacks, connected, disconnenting, disconnected, is_state, shutdown_in_loop, shutdown,
  after_write, handle_write,
}
use caimr.TcpConn.Stream.{IsValid, stream, nothing_waits}
use caimr.TcpConn.Writable.{drained-Drained, empty_of_length, handle_write_lem}

-- What still waits in the output buffer.
abbrev pub waiting : TcpConn → ℕ
waiting c = length (content c.output_buf)

-- The answer takes something.
abbrev pub takes : IoResult → ℕ
takes (moved zero) = 0
takes (moved (suc n)) = 1
takes (failed errno) = 0

abbrev pub takings : List IoResult → ℕ
takings [] = 0
takings (answer ∷ answers) = takes answer + takings answers

-- A connection that is shutting down and has nothing left has closed its sending side.
abbrev pub ClosedBehind : TcpConn → Type 0
ClosedBehind c = c.state ≡ disconnenting → waiting c ≡ 0 → c.socket.write_closed ≡ true

record Progress (n : ℕ) (c c' : TcpConn) : Type 0 where
  less : waiting c' ≤ waiting c - n
  closed : ClosedBehind c'

-- The connection right after `shutdown`, in its own thread.
record Shut (c c' : TcpConn) : Type 0 where
  sent : c'.socket.sent ≡ c.socket.sent
  output : c'.output_buf ≡ c.output_buf
  state : c'.state ≡ disconnenting
  valid : IsValid c'
  closed : ClosedBehind c'

shutdown-Shut :
    (tid : ℕ) (c : TcpConn)
    → IsValid c
    → c.state ≡ connected
    → Eloop.is_in_loop_thread tid c.loop ≡ true
    → Shut c (shutdown tid c)
unfolding shutdown shutdown_in_loop
shutdown-Shut tid c v up own =
    let is_up : is_state c.state connected ≡ true = ap (λ s. is_state s connected) up in
    let w = v.writing (λ h. cc (up, h)) in
    elim (Bool-cases (is_writing c.ch)) [
      | inl on ↦
          simp (is_up, own, on)
            (record {
              sent = refl;
              output = refl;
              state = refl;
              valid = record { input = v.input; output = v.output; writing = λ _. w };
              closed = λ s e. absurd (ground (arith, w, on, e));
            })
      | inr off ↦
          simp (is_up, own, off)
            (record {
              sent = refl;
              output = refl;
              state = refl;
              valid = record { input = v.input; output = v.output; writing = λ _. w };
              closed = λ s e. refl;
            })
    ]

-- What is left of a connection when its output has been written out.
pub record AllSent (c c' : TcpConn) : Type 0 where
  pub nothing_waits : content c'.output_buf ≡ []
  pub sent : c'.socket.sent ≡ stream c
  pub quiet : is_writing c'.ch ≡ false
  pub closed : c'.socket.write_closed ≡ true

module _ (cb : Callbacks) where
  -- The socket can be written to, time after time.
  abbrev pub flush : List IoResult → TcpConn → TcpConn
  flush [] c = c
  flush (answer ∷ answers) c = flush answers (handle_write cb answer c)

  after_write-Progress :
      (answer : IoResult) (c : TcpConn)
      → IsValid c
      → ClosedBehind c
      → Progress (takes answer) c (after_write cb (Buffer.write_fd c.output_buf answer).0 answer c)
  unfolding after_write
  after_write-Progress (failed errno) c v b = record { less = omega arith; closed = b }
  after_write-Progress (moved zero) c v b = record { less = omega arith; closed = b }
  after_write-Progress (moved (suc n)) c v b =
      let left = Buffer.readable_bytes (Buffer.retrieve c.output_buf (suc n)) in
      let (rv, rc, _) = Content.retrieve_lem c.output_buf (suc n) v.output in
      let count : left ≡ length (content (Buffer.retrieve c.output_buf (suc n))) =
        (Content.counts_lem (Buffer.retrieve c.output_buf (suc n)) rv).0 in
      let size : length (content (Buffer.retrieve c.output_buf (suc n))) ≡ waiting c - suc n =
        ap length rc ∙ length-drop (suc n) (content c.output_buf) in
      elim (Bool-cases (left == 0)) [
        | inl none_left ↦
            let t = record c {
              output_buf = Buffer.retrieve c.output_buf (suc n);
              socket = record (c.socket) {
                sent =
                    c.socket.sent ++ take (suc n) (Buffer.write_fd c.output_buf (moved (suc n))).0;
              };
            } in
            let d = drained-Drained cb t in
            simp (lt→ltb 0 (suc n) (omega arith), none_left)
              (record {
                less = omega (arith, ap (λ b. length (content b)) d.output, size);
                closed = λ s e.
                    d.closed
                    ∙ ap (λ q. if is_state q disconnenting then true else c.socket.write_closed)
                        (sym d.state ∙ s);
              })
        | inr some_left ↦
            simp (lt→ltb 0 (suc n) (omega arith), some_left)
              (record {
                less = omega (arith, size);
                closed = λ s e. absurd (ground (arith, count, e));
              })
      ]

  handle_write-Progress :
      (answer : IoResult) (c : TcpConn)
      → IsValid c
      → c.state ≢ disconnected
      → ClosedBehind c
      → Progress (takes answer) c (handle_write cb answer c)
  unfolding handle_write
  handle_write-Progress answer c v live b = elim (Bool-cases (is_writing c.ch)) [
    | inl on ↦ simp (on, Io.write_fd-answer c.output_buf answer) (after_write-Progress answer c v b)
    | inr off ↦
        let empty =
          ap length (nothing_waits (content c.output_buf) (is_writing c.ch) (v.writing live) off) in
        simp off (record { less = omega (arith, empty); closed = b })
  ]

  record Flushed (c c' : TcpConn) : Type 0 where
    stream : stream c' ≡ stream c
    state : c'.state ≡ c.state
    valid : IsValid c'
    closed : ClosedBehind c'

  flush-Flushed :
      (answers : List IoResult) (c : TcpConn)
      → IsValid c
      → c.state ≢ disconnected
      → ClosedBehind c
      → Flushed c (flush answers c) × (waiting (flush answers c) ≤ waiting c - takings answers)
  flush-Flushed [] c v live b =
      (record { stream = refl; state = refl; valid = v; closed = b }, omega arith)
  flush-Flushed (answer ∷ answers) c v live b =
      let w = handle_write_lem cb answer c v in
      let p = handle_write-Progress answer c v live b in
      let (f, l) =
        flush-Flushed answers (handle_write cb answer c) w.valid (λ h. live (sym w.state ∙ h))
          p.closed in
      (
        record {
          stream = f.stream ∙ w.stream;
          state = f.state ∙ w.state;
          valid = f.valid;
          closed = f.closed;
        },
        omega (arith, l, p.less),
      )

  -- A shutdown loses nothing, and comes about. When the user shuts down a valid connection that is up, in
  -- the thread of its loop, and the socket can be written to from then on, whatever write(2) answers
  -- each time, failures among them: once it has taken something as often as there are bytes waiting, at
  -- the latest, all that had been sent has been taken by the kernel, in order, nothing waits, EPOLLOUT
  -- is no longer asked for, and the sending side is closed.
  pub flush-shutdown :
      (tid : ℕ) (answers : List IoResult) (c : TcpConn)
      → IsValid c
      → c.state ≡ connected
      → Eloop.is_in_loop_thread tid c.loop ≡ true
      → waiting c ≤ takings answers
      → AllSent c (flush answers (shutdown tid c))
  flush-shutdown tid answers c v up own enough =
      let h = shutdown-Shut tid c v up own in
      let live : (shutdown tid c).state ≢ disconnected = λ e. cc (h.state, e) in
      let (f, l) = flush-Flushed answers (shutdown tid c) h.valid live h.closed in
      let c' = flush answers (shutdown tid c) in
      let same : waiting (shutdown tid c) ≡ waiting c = ap (λ b. length (content b)) h.output in
      let none_left : waiting c' ≡ 0 = omega (arith, l, same, enough) in
      let empty : content c'.output_buf ≡ [] =
        empty_of_length (content c'.output_buf) (ground (arith, none_left)) in
      record {
        nothing_waits = empty;
        sent =
            sym (append-nil c'.socket.sent)
            ∙ ap (λ q. c'.socket.sent ++ q) (sym empty)
            ∙ f.stream
            ∙ ap₂ (λ t b. t ++ content b) h.sent h.output;
        quiet = f.valid.writing (λ e. live (sym f.state ∙ e)) ∙ ap (λ q. not (length q == 0)) empty;
        closed = f.closed (f.state ∙ h.state) none_left;
      }
