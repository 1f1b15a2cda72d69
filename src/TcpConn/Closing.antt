-- ===== src/TcpConn/Closing.antt =====
-- The end of a connection: what `shutdown` refuses, what the callbacks see of a close, and what is
-- left in the poller. And one flaw of `send` from another thread.
use caimr.Prelude.{
  ℕ, ◌≡◌, ◌≢◌, inl, inr, refl, ap, false, none, Bytes, length, arith, ◌==◌, ◌||◌, if◌then◌else◌,
  Bool-cases,
}
use caimr.Events.{none_event}
use caimr.Buffer.{IoResult}
use caimr.Buffer.Content.{content}
use caimr.Chan.{is_writing, deleted}
use caimr.Poller.Interest
use caimr.Poller.Interest.{Epoll}
use caimr.Eloop
use caimr.Eloop.{Eloop}
use caimr.Eloop.Channels
use caimr.TcpConn.{
  TcpConn, Callbacks, connected, disconnenting, disconnected, is_state, call, shutdown_in_loop,
  shutdown, send, destroy_conn, handle_close,
}
use caimr.TcpConn.Stream.{IsValid}

-- In the thread of its loop, an open connection closes its sending side at once if nothing waits to
-- be written, and otherwise not yet.
pub shutdown_in_loop_lem :
    (c : TcpConn)
    → IsValid c
    → c.state ≢ disconnected
    → (shutdown_in_loop c).socket.write_closed
      ≡ (length (content c.output_buf) == 0 || c.socket.write_closed)
unfolding shutdown_in_loop
shutdown_in_loop_lem c v live = ground (arith, v.writing live)

state-shutdown_in_loop : (c : TcpConn) → (shutdown_in_loop c).state ≡ c.state
unfolding shutdown_in_loop
state-shutdown_in_loop c = elim (Bool-cases (is_writing c.ch)) [
  | inl on ↦ simp on
  | inr off ↦ simp off
]

shutdown-refuses : (tid : ℕ) (c : TcpConn) → is_state (shutdown tid c).state connected ≡ false
unfolding shutdown
shutdown-refuses tid c = elim (Bool-cases (is_state c.state connected)) [
  | inr off ↦ simp off
  | inl on ↦ elim (Bool-cases (Eloop.is_in_loop_thread tid c.loop)) [
    | inl own ↦
        simp (on, own)
          (ap (λ s. is_state s connected)
            (state-shutdown_in_loop (record c { state = disconnenting })))
    | inr other ↦ simp (on, other)
  ]
]

shutdown-refused : (tid : ℕ) (c : TcpConn) → is_state c.state connected ≡ false → shutdown tid c ≡ c
unfolding shutdown
shutdown-refused tid c off = simp off

module _ (cb : Callbacks) where
  pub send-refused :
      (tid ptr : ℕ) (answer : IoResult) (bytes : Bytes) (c : TcpConn)
      → is_state c.state connected ≡ false
      → send cb tid ptr answer bytes c ≡ c
  unfolding send
  send-refused tid ptr answer bytes c off = simp off

  -- After `shutdown`, from whichever thread, the connection takes no more data, and a second
  -- `shutdown` does nothing; so it is whatever state it was in.
  pub send-shutdown :
      (tid tid' ptr : ℕ) (answer : IoResult) (bytes : Bytes) (c : TcpConn)
      → (send cb tid' ptr answer bytes (shutdown tid c) ≡ shutdown tid c)
        × (shutdown tid' (shutdown tid c) ≡ shutdown tid c)
  send-shutdown tid tid' ptr answer bytes c =
      let off = shutdown-refuses tid c in
      (
        send-refused tid' ptr answer bytes (shutdown tid c) off,
        shutdown-refused tid' (shutdown tid c) off,
      )

  -- A send from another thread hands over the address and the length of the data, not the data: two
  -- blocks of one length at one address leave the same state, though the functor will read the memory
  -- only when the loop gets to it.
  pub send-by_address :
      (tid ptr : ℕ) (answer : IoResult) (bytes bytes' : Bytes) (c : TcpConn)
      → Eloop.is_in_loop_thread tid c.loop ≡ false
      → length bytes ≡ length bytes'
      → send cb tid ptr answer bytes c ≡ send cb tid ptr answer bytes' c
  unfolding send
  send-by_address tid ptr answer bytes bytes' c other e = simp (other, e)

  -- On a close the connection's own callback runs first, then the server's, and both only once the
  -- state is DISCONNECTED and the channel asks for no events; nothing that waited to be written or
  -- read has been touched.
  pub handle_close_lem :
      (c : TcpConn)
      → (c' : TcpConn) × (handle_close cb c ≡ call cb.close_callback (call cb.conn_callback c'))
        × (c'.state ≡ disconnected)
        × (c'.ch.events ≡ none_event)
        × (c'.socket ≡ c.socket)
        × (c'.input_buf ≡ c.input_buf)
        × (c'.output_buf ≡ c.output_buf)
  unfolding handle_close
  handle_close_lem c = (
    record c {
      state = disconnected;
      loop = (Channels.disable_all c.ch c.loop).0;
      ch = (Channels.disable_all c.ch c.loop).1;
    },
    refl,
    refl,
    ap (λ ch. ch.events) (Channels.disable_all-events c.ch c.loop),
    refl,
    refl,
    refl,
  )

  -- `destroy_conn` takes the channel out of the poller for good, whatever the state was and whatever
  -- the connection callback did: the poller's map does not have its descriptor, and a kernel that
  -- keeps to the documented effect of epoll_ctl no longer watches it.
  pub destroy_conn-unwatched :
      (k : Epoll) (c : TcpConn)
      → let c' = destroy_conn cb c in
        (c'.ch.index ≡ deleted)
        × (Interest.watches k c'.loop.poller c'.ch.fd ≡ none)
        × (Eloop.has_chan c'.ch c'.loop ≡ false)
  unfolding destroy_conn
  destroy_conn-unwatched k c = removed (
      if is_state c.state connected
      then call cb.conn_callback (record c {
        state = disconnected;
        loop = (Channels.disable_all c.ch c.loop).0;
        ch = (Channels.disable_all c.ch c.loop).1;
      })
      else c)
    where
      removed :
          (d : TcpConn)
          → ((Channels.remove d.ch d.loop).1.index ≡ deleted)
            × (Interest.watches k
                  (Channels.remove d.ch d.loop).0.poller
                  (Channels.remove d.ch d.loop).1.fd
                ≡ none)
            × (Eloop.has_chan (Channels.remove d.ch d.loop).1 (Channels.remove d.ch d.loop).0
                ≡ false)
      removed d = Channels.remove-unwatched k d.ch d.loop
