-- ===== src/TcpConn/Inputs.antt =====
-- What happens to a connection, as the handlers and operations of src/net/tcp_conn.cpp.
use caimr.Prelude.{ℕ, ◌≤◌, ◌≡◌, ◌≢◌, refl, true, Option, none, some, Bytes, length, arith}
use caimr.Buffer.{IoResult, failed, moved, Readv, received, read_failed, read_fd, read_capacity}
use caimr.Buffer.Content.{Fits}
use caimr.TcpConn.{
  TcpConn, Callbacks, State, connenting, connected, disconnenting, disconnected, is_state, call,
  shutdown_in_loop, shutdown, send_in_loop, send, destroy_conn, handle_close, handle_error,
  handle_read, handle_write,
}
use caimr.TcpConn.Stream.{IsValid}

-- How far a connection has got.
abbrev pub rank : State → ℕ
rank connenting = 0
rank connected = 1
rank disconnenting = 2
rank disconnected = 3

-- When a callback of the user may be called: if it sends, for instance, what it sends fits into the
-- output buffer. A closed connection takes no data.
pub record Room : Type 1 where
  pub ok : TcpConn → Type 0
  pub closed : (c : TcpConn) → c.state ≡ disconnected → ok c

-- A user callback keeps a connection valid and does not turn it back, as one does that calls `send` or
-- `shutdown`, or reads from the input buffer.
abbrev pub KeepsConn : Room → (TcpConn → TcpConn) → Type 0
KeepsConn room f =
    (c : TcpConn) → IsValid c → room.ok c → IsValid (f c) × (rank c.state ≤ rank (f c).state)

abbrev pub Keeps : Room → Option (TcpConn → TcpConn) → Type 0
Keeps room none = Unit {0}
Keeps room (some f) = KeepsConn room f

pub record Polite (cb : Callbacks) (room : Room) : Type 0 where
  pub conn : Keeps room cb.conn_callback
  pub msg : Keeps room cb.msg_callback
  pub close : Keeps room cb.close_callback

pub rank-le : (s : State) → rank s ≤ 3
rank-le connenting = omega arith
rank-le connected = omega arith
rank-le disconnenting = omega arith
rank-le disconnected = omega arith

pub rank-started : (s : State) → s ≢ connenting → 1 ≤ rank s
rank-started connenting up = absurd (up refl)
rank-started connected up = omega arith
rank-started disconnenting up = omega arith
rank-started disconnected up = omega arith

pub is_connected-eq : (s : State) → is_state s connected ≡ true → s ≡ connected
is_connected-eq connected h = refl
is_connected-eq connenting h = cc
is_connected-eq disconnenting h = cc
is_connected-eq disconnected h = cc

pub call-Keeps :
    (room : Room) (f : Option (TcpConn → TcpConn)) (c : TcpConn)
    → Keeps room f
    → IsValid c
    → room.ok c
    → IsValid (call f c) × (rank c.state ≤ rank (call f c).state)
call-Keeps room none c k v o = (v, omega arith)
call-Keeps room (some f) c k v o = k c v o

pub rank-disconnected : (s : State) → 3 ≤ rank s → s ≡ disconnected
rank-disconnected connenting h = absurd (omega (arith, h))
rank-disconnected connected h = absurd (omega (arith, h))
rank-disconnected disconnenting h = absurd (omega (arith, h))
rank-disconnected disconnected h = refl

-- What happens to an established connection in the thread of its loop: data is sent, the channel
-- reports an event, the user shuts it down, or a queued functor runs.
pub data Input : Type 0 where
  sends : (tid ptr : ℕ) → IoResult → Bytes → Input
  flushes : IoResult → Bytes → Input  -- `send_in_loop`, out of the queue
  reads : Readv → Input
  writes : IoResult → Input
  closes : Input
  errors : Input
  shuts : (tid : ℕ) → Input
  shuts_in_loop : Input
  destroys : Input

-- What write(2) may answer when it is asked to take `bytes`: it takes no more than there are, or fails.
abbrev pub Bounded : IoResult → Bytes → Type 0
Bounded (moved n) bytes = n ≤ length bytes
Bounded (failed errno) bytes = Unit {0}

module _ (cb : Callbacks) where
  unfoldable pub handle : Input → TcpConn → TcpConn
  handle (sends tid ptr answer bytes) c = send cb tid ptr answer bytes c
  handle (flushes answer bytes) c = send_in_loop cb answer bytes c
  handle (reads answer) c = handle_read cb answer c
  handle (writes answer) c = handle_write cb answer c
  handle closes c = handle_close cb c
  handle errors c = handle_error cb c
  handle (shuts tid) c = shutdown tid c
  handle shuts_in_loop c = shutdown_in_loop c
  handle destroys c = destroy_conn cb c

-- What the kernel and the size of the buffers have to allow for.
abbrev pub Allowed : Room → Input → TcpConn → Type 0
Allowed room (sends tid ptr answer bytes) c =
    Fits c.output_buf (length bytes) × Bounded answer bytes
Allowed room (flushes answer bytes) c = Fits c.output_buf (length bytes) × Bounded answer bytes
Allowed room (reads (received bytes)) c =
    Fits c.input_buf (length bytes)
    × (length bytes ≤ read_capacity c.input_buf)
    × room.ok (record c { input_buf = (read_fd c.input_buf (received bytes)).0 })
Allowed room (reads (read_failed errno)) c =
    room.ok (record c { input_buf = (read_fd c.input_buf (read_failed errno)).0 })
Allowed room _ c = Unit {0}
