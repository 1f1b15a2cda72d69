-- ===== src/TcpConn/Members.antt =====
-- The members of a connection (include/net/tcp_conn.h): its state, its callbacks with their setters,
-- and what it keeps; and the errno values that it looks at (src/net/tcp_conn.cpp).
use caimr.Prelude.{ℕ, Bool, true, false, Option, none, some}
use caimr.Buffer.{Buffer}
use caimr.Chan.{Chan}
use caimr.Eloop.{Eloop}
use caimr.Functor.{Functor}
use caimr.Socket.{Socket}

pub data State : Type 0 where
  disconnected connenting connected disconnenting : State

-- `a == b` on states.
abbrev pub is_state : State → State → Bool
is_state disconnected disconnected = true
is_state connenting connenting = true
is_state connected connected = true
is_state disconnenting disconnenting = true
is_state _ _ = false

pub record TcpConn : Type 0 where
  pub loop : Eloop Functor
  pub id : ℕ
  pub state : State
  pub reading : Bool
  pub socket : Socket
  pub ch : Chan
  pub high_water_mark : ℕ
  pub input_buf : Buffer
  pub output_buf : Buffer

-- The five std::function members.
pub record Callbacks : Type 0 where
  pub conn_callback : Option (TcpConn → TcpConn)
  pub msg_callback : Option (TcpConn → TcpConn)
  pub write_complete_callback : Option (TcpConn → TcpConn)
  pub close_callback : Option (TcpConn → TcpConn)
  pub high_water_mark_callback : Option (ℕ → TcpConn → TcpConn)

abbrev pub set_conn_callback : (TcpConn → TcpConn) → Callbacks → Callbacks
set_conn_callback f cb = record cb { conn_callback = some f }

abbrev pub set_msg_callback : (TcpConn → TcpConn) → Callbacks → Callbacks
set_msg_callback f cb = record cb { msg_callback = some f }

abbrev pub set_write_complete_callback : (TcpConn → TcpConn) → Callbacks → Callbacks
set_write_complete_callback f cb = record cb { write_complete_callback = some f }

abbrev pub set_close_callback : (TcpConn → TcpConn) → Callbacks → Callbacks
set_close_callback f cb = record cb { close_callback = some f }

-- With the mark, which stands in the connection.
abbrev pub set_high_water_mark_callback :
    (ℕ → TcpConn → TcpConn) → (mark : ℕ) → Callbacks × TcpConn → Callbacks × TcpConn
set_high_water_mark_callback f mark (cb, c) =
    (record cb { high_water_mark_callback = some f }, record c { high_water_mark = mark })

abbrev pub call : Option (TcpConn → TcpConn) → TcpConn → TcpConn
call none c = c
call (some f) c = f c

abbrev pub is_set {ℓ} : {A : Type ℓ} → Option A → Bool
is_set none = false
is_set (some f) = true

abbrev pub ewouldblock : ℕ
ewouldblock = 11

abbrev pub epipe : ℕ
epipe = 32

abbrev pub econnreset : ℕ
econnreset = 104
