-- ===== src/TcpConn/Stream.antt =====
-- The bytes of a connection on their way out: what was accepted by the kernel and what waits in the
-- output buffer are, in this order, all that was sent.
use caimr.Prelude.{
  ◌≤◌, ◌<◌, ◌≡◌, ◌≢◌, inl, inr, refl, sym, ap, ◌∙◌, Bool, true, false, not, [], ◌∷◌, ◌++◌, Bytes,
  length, length-append, arith, ◌==◌, Bool-cases,
}
use caimr.Buffer
use caimr.Buffer.{Buffer, IoResult, failed, moved}
use caimr.Buffer.Content
use caimr.Buffer.Room
use caimr.Buffer.Content.{content, Fits}
use caimr.Chan.{is_writing}
use caimr.Eloop.Channels
use caimr.TcpConn.{TcpConn, State, disconnected, is_state, epipe, econnreset, store_rest}

-- What the peer has been or will be sent.
abbrev pub stream : TcpConn → Bytes
stream c = c.socket.sent ++ content c.output_buf

-- Both buffers are valid, and the poller is asked for EPOLLOUT exactly while something waits to be
-- written (as long as the connection is not closed).
pub record IsValid (c : TcpConn) : Type 0 where
  pub input : Content.IsValid c.input_buf
  pub output : Content.IsValid c.output_buf
  pub writing : c.state ≢ disconnected → is_writing c.ch ≡ not (length (content c.output_buf) == 0)

-- A connection after `rest` was put behind its output.
pub record Kept (c : TcpConn) (rest : Bytes) (c' : TcpConn) : Type 0 where
  pub socket : c'.socket ≡ c.socket
  pub state : c'.state ≡ c.state
  pub input : c'.input_buf ≡ c.input_buf
  pub output : Content.IsValid c'.output_buf
  pub content : content c'.output_buf ≡ content c.output_buf ++ rest
  pub writing : is_writing c'.ch ≡ not (length (Content.content c'.output_buf) == 0)

pub store_rest-Kept :
    (c : TcpConn) (rest : Bytes)
    → Content.IsValid c.output_buf
    → Fits c.output_buf (length rest)
    → 0 < length rest
    → Kept c rest (store_rest rest c)
unfolding store_rest
store_rest-Kept c rest v f pos =
    let (av, ac, _) = Room.append_lem c.output_buf rest v f in
    let full : not (length (content (Buffer.append c.output_buf rest)) == 0) ≡ true =
      ground (arith, ap length ac, length-append (content c.output_buf) rest) in
    elim (Bool-cases (is_writing c.ch)) [
      | inl on ↦ simp on (record {
        socket = refl;
        state = refl;
        input = refl;
        output = av;
        content = ac;
        writing = on ∙ sym full;
      })
      | inr off ↦ simp off (record {
        socket = refl;
        state = refl;
        input = refl;
        output = av;
        content = ac;
        writing = Channels.is_writing-enable_writing c.ch c.loop ∙ sym full;
      })
    ]

-- What write(2) answers when it is asked to take `bytes`: it takes no more than there are, or fails
-- with an error that does not mean a broken connection.
abbrev pub Answered : IoResult → Bytes → Type 0
Answered (moved n) bytes = n ≤ length bytes
Answered (failed errno) bytes = (errno ≢ epipe) × (errno ≢ econnreset)

-- What a sent block does to a valid connection: the block goes to the end of the stream, the
-- connection stays valid, and neither its state nor its input changes.
pub record Sent (c : TcpConn) (bytes : Bytes) (c' : TcpConn) : Type 0 where
  pub stream : stream c' ≡ stream c ++ bytes
  pub valid : IsValid c'
  pub state : c'.state ≡ c.state
  pub input : c'.input_buf ≡ c.input_buf

pub open_state : (s : State) → s ≢ disconnected → is_state s disconnected ≡ false
open_state disconnected live = absurd (live refl)
open_state _ live = refl

pub nothing_waits : (q : Bytes) (w : Bool) → w ≡ not (length q == 0) → w ≡ false → q ≡ []
nothing_waits [] w e off = refl
nothing_waits (x ∷ q) w e off = absurd (ground arith)
