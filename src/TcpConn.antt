-- ===== src/TcpConn.antt =====
-- include/net/tcp_conn.h and src/net/tcp_conn.cpp: a TCP connection, together with the loop that it
-- belongs to (`loop_`) and its socket. The answers of the system calls are arguments; shutdown(2) is
-- taken to succeed, as it does on a socket that is connected.
-- The callbacks of the user are functions on the connection; an unset std::function is `none`.
mod Members
pub mod Stream
pub mod Sending
pub mod Failing
pub mod Writable
pub mod Inputs
pub mod Handlers
pub mod States
pub mod Closing
pub mod Phases
pub mod Birth
pub mod Flushing
pub mod HighWater
pub mod Tame
pub mod TameHandlers
pub mod Dispatch
pub mod Served
pub mod Established
pub mod Echo
pub mod Replies
mod Examples
use caimr.Prelude.{
  ℕ, ◌+◌, ◌*◌, Bool, true, false, not, ◌&&◌, ◌||◌, Option, none, some, List, [], ◌∷◌, ◌++◌, Bytes,
  add_size, sub_size, length, take, drop, ltb, leb, ◌==◌, if◌then◌else◌,
}
use caimr.Buffer
use caimr.Buffer.{Buffer, IoResult, failed, moved, Readv}
use caimr.Chan
use caimr.Chan.{Chan}
use caimr.Eloop
use caimr.Eloop.{Eloop}
use caimr.Eloop.Channels
use caimr.Functor.{Functor}
use caimr.Socket
use caimr.Socket.{Socket}
pub use Members.*

-- The constructor: `address` is where the channel object lies, `keep_alive_answer` what setsockopt(2)
-- answers.
unfoldable pub create :
    Eloop Functor → (id sockfd address : ℕ) → (keep_alive_answer : Bool) → TcpConn
create loop id sockfd address keep_alive_answer = record {
  loop = loop;
  id = id;
  state = connenting;
  reading = true;
  socket = Socket.set_keep_alive keep_alive_answer true (Socket.create sockfd);
  ch = Chan.set_error_callback (
      Chan.set_close_callback
        (Chan.set_write_callback (Chan.set_read_callback (Chan.create address sockfd))));
  high_water_mark = 64 * 1024 * 1024;
  input_buf = Buffer.create Buffer.initial_size;
  output_buf = Buffer.create Buffer.initial_size;
}

pub is_connected : TcpConn → Bool
is_connected c = is_state c.state connected

-- An operation of the channel, which may go through the loop to the poller.
abbrev pub on_chan : (Chan → Eloop Functor → Eloop Functor × Chan) → TcpConn → TcpConn
on_chan f c = let (l, ch') = f c.ch c.loop in record c { loop = l; ch = ch' }

-- `loop_->queue_in_loop`, called in the thread of the loop.
abbrev pub queue_here : Functor → TcpConn → TcpConn
queue_here f c = record c { loop = Eloop.queue_in_loop c.loop.thread_id f c.loop }

-- What `establish_conn` hands to the user.
abbrev pub opened : TcpConn → TcpConn
opened c = on_chan Channels.enable_reading (record c { state = connected; ch = Chan.tie c.ch })

-- `socket_->shutdown_write()`
abbrev shutdown_write : TcpConn → TcpConn
shutdown_write c = record c { socket = Socket.shutdown_write true c.socket }

pub shutdown_in_loop : TcpConn → TcpConn
shutdown_in_loop c = if not (Chan.is_writing c.ch) then shutdown_write c else c

pub shutdown : ℕ → TcpConn → TcpConn
unfolding shutdown_in_loop
shutdown tid c =
    if is_state c.state connected
    then (let c' = record c { state = disconnenting } in
        if Eloop.is_in_loop_thread tid c'.loop
        then shutdown_in_loop c'
        else record c' { loop = Eloop.queue_in_loop tid (Functor.shutdown_in_loop c.id) c'.loop })
    else c

-- Appends to the output buffer, and asks for EPOLLOUT if that has not been done.
pub store_rest : Bytes → TcpConn → TcpConn
store_rest rest c =
    let c' = record c { output_buf = Buffer.append c.output_buf rest } in
    if not (Chan.is_writing c'.ch) then on_chan Channels.enable_writing c' else c'

-- What the first attempt to write leaves behind.
pub record Attempt : Type 0 where
  pub conn : TcpConn
  pub nwrote : ℕ
  pub remaining : ℕ
  pub fault_occurred : Bool

module _ (cb : Callbacks) where
  -- The write that `send_in_loop` tries when nothing waits in the output buffer.
  pub write_directly : IoResult → Bytes → TcpConn → Attempt
  write_directly (moved n) bytes c =
      let remaining = sub_size (length bytes) n in
      let c' = record c { socket = record (c.socket) { sent = c.socket.sent ++ take n bytes } } in
      record {
        conn =
            if remaining == 0 && is_set cb.write_complete_callback
            then queue_here (Functor.write_complete c.id) c'
            else c';
        nwrote = n;
        remaining = remaining;
        fault_occurred = false;
      }
  write_directly (failed errno) bytes c = record {
    conn = c;
    nwrote = 0;
    remaining = length bytes;
    fault_occurred = not (errno == ewouldblock) && (errno == epipe || errno == econnreset);
  }

  -- The first half of `send_in_loop`.
  pub attempt : IoResult → Bytes → TcpConn → Attempt
  attempt answer bytes c =
      if not (Chan.is_writing c.ch) && Buffer.readable_bytes c.output_buf == 0
      then write_directly answer bytes c
      else record { conn = c; nwrote = 0; remaining = length bytes; fault_occurred = false }

  -- The output buffer passes the high-water mark: the callback for it is queued.
  pub note_high_water : (remaining : ℕ) → TcpConn → TcpConn
  note_high_water remaining c =
      let old_len = Buffer.readable_bytes c.output_buf in
      let total = add_size old_len remaining in
      if leb c.high_water_mark total
        && ltb old_len c.high_water_mark
        && is_set cb.high_water_mark_callback
      then queue_here (Functor.high_water_mark c.id total) c
      else c

  -- The second half: what was not written waits in the output buffer.
  pub keep_rest : Bytes → Attempt → TcpConn
  keep_rest bytes a =
      if not a.fault_occurred && ltb 0 a.remaining
      then store_rest (take a.remaining (drop a.nwrote bytes)) (note_high_water a.remaining a.conn)
      else a.conn

  pub send_in_loop : IoResult → Bytes → TcpConn → TcpConn
  send_in_loop answer bytes c =
      if is_state c.state disconnected then c else keep_rest bytes (attempt answer bytes c)

  -- `ptr` is the address of the characters of `data`.
  pub send : (tid ptr : ℕ) → IoResult → Bytes → TcpConn → TcpConn
  unfolding send_in_loop
  send tid ptr answer bytes c =
      if is_state c.state connected
      then (if Eloop.is_in_loop_thread tid c.loop then send_in_loop answer bytes c else record c {
        loop = Eloop.queue_in_loop tid (Functor.send_in_loop c.id ptr (length bytes)) c.loop;
      })
      else c

  unfoldable pub establish_conn : TcpConn → TcpConn
  establish_conn c = call cb.conn_callback (opened c)

  pub destroy_conn : TcpConn → TcpConn
  destroy_conn c =
      let c' =
        if is_state c.state connected
        then call cb.conn_callback
            (on_chan Channels.disable_all (record c { state = disconnected }))
        else c in
      on_chan Channels.remove c'

  pub handle_close : TcpConn → TcpConn
  handle_close c =
      call cb.close_callback
        (call cb.conn_callback (on_chan Channels.disable_all (record c { state = disconnected })))

  -- Only logs the socket's error.
  pub handle_error : TcpConn → TcpConn
  handle_error c = c

  -- What `handle_read` does with the answer of `read_fd`.
  pub after_read : IoResult → TcpConn → TcpConn
  unfolding handle_close handle_error
  after_read (moved n) c = if ltb 0 n then call cb.msg_callback c else handle_close c
  after_read (failed errno) c = handle_error c

  pub handle_read : Readv → TcpConn → TcpConn
  unfolding after_read
  handle_read answer c =
      let (input, n) = Buffer.read_fd c.input_buf answer in
      after_read n (record c { input_buf = input })

  -- The output buffer has been written out.
  pub drained : TcpConn → TcpConn
  drained c =
      let c₁ = on_chan Channels.disable_writing c in
      let c₂ =
        if is_set cb.write_complete_callback
        then queue_here (Functor.write_complete c.id) c₁
        else c₁ in
      if is_state c₂.state disconnenting then shutdown_in_loop c₂ else c₂

  -- What `handle_write` does with the bytes offered and the answer of write(2).
  pub after_write : Bytes → IoResult → TcpConn → TcpConn
  after_write offered (failed errno) c = c
  after_write offered (moved n) c =
      let c' = record c {
        output_buf = Buffer.retrieve c.output_buf n;
        socket = record (c.socket) { sent = c.socket.sent ++ take n offered };
      } in
      if ltb 0 n then (if Buffer.readable_bytes c'.output_buf == 0 then drained c' else c') else c

  pub handle_write : IoResult → TcpConn → TcpConn
  unfolding after_write
  handle_write answer c =
      if Chan.is_writing c.ch
      then (let (offered, n) = Buffer.write_fd c.output_buf answer in after_write offered n c)
      else c
