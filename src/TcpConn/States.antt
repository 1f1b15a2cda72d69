-- ===== src/TcpConn/States.antt =====
-- The life of a connection: CONNENTING, CONNECTED, DISCONNENTING, DISCONNECTED, in this order only,
-- and what may be done to it in each state.
use caimr.Prelude.{◌≤◌, refl, ap, List, [], ◌∷◌, arith}
use caimr.TcpConn.{TcpConn, Callbacks, handle_error}
use caimr.TcpConn.Stream.{IsValid}
use caimr.TcpConn.Writable.{handle_write_lem}
use caimr.TcpConn.Inputs.{
  rank, Room, Polite, Input, sends, flushes, reads, writes, closes, errors, shuts, shuts_in_loop,
  destroys, handle, Allowed,
}
use caimr.TcpConn.Handlers.{
  send_in_loop-Kept, send-Kept, shutdown_in_loop-Kept, shutdown-Kept, handle_close-Kept,
  destroy_conn-Kept, handle_read-Kept,
}

module _ (cb : Callbacks) where
  unfoldable pub run : List Input → TcpConn → TcpConn
  run [] c = c
  run (input ∷ inputs) c = run inputs (handle cb input c)

module _ (cb : Callbacks) (room : Room) where
  -- Whatever happens to a connection in the thread of its loop, as long as the kernel keeps to its
  -- bounds and the user's callbacks are polite and have the room that they need: the connection stays
  -- valid, so that EPOLLOUT is asked for exactly while output waits, and its state never goes back.
  pub handle-Kept :
      Polite cb room
      → (input : Input) (c : TcpConn) → IsValid c
      → Allowed room input c
      → IsValid (handle cb input c) × (rank c.state ≤ rank (handle cb input c).state)
  unfolding handle handle_error
  handle-Kept p (sends tid ptr answer bytes) c v (f, a) = send-Kept cb tid ptr answer bytes c v f a
  handle-Kept p (flushes answer bytes) c v (f, a) =
      send_in_loop-Kept cb answer bytes c c.state refl v f a
  handle-Kept p (reads answer) c v a = handle_read-Kept cb room p answer c v a
  handle-Kept p (writes answer) c v a =
      let w = handle_write_lem cb answer c v in (w.valid, omega (arith, ap rank w.state))
  handle-Kept p closes c v a = handle_close-Kept cb room p c v
  handle-Kept p errors c v a = (v, omega arith)
  handle-Kept p (shuts tid) c v a = shutdown-Kept cb tid c v
  handle-Kept p shuts_in_loop c v a = shutdown_in_loop-Kept cb c v
  handle-Kept p destroys c v a = destroy_conn-Kept cb room p c v

  abbrev pub AllAllowed : List Input → TcpConn → Type 0
  AllAllowed [] c = Unit {0}
  AllAllowed (input ∷ inputs) c = Allowed room input c × AllAllowed inputs (handle cb input c)

  -- Whatever happens to a connection after `establish_conn`, and in whatever order, as long as the
  -- kernel keeps to its bounds, what is sent fits into the buffers and the user's callbacks are
  -- polite and have the room that they need: a valid connection stays valid, so that EPOLLOUT is asked
  -- for exactly while output waits in an open connection, and its state never goes back.
  pub run-Kept :
      Polite cb room
      → (inputs : List Input) (c : TcpConn) → IsValid c
      → AllAllowed inputs c
      → IsValid (run cb inputs c) × (rank c.state ≤ rank (run cb inputs c).state)
  unfolding run
  run-Kept p [] c v a = (v, omega arith)
  run-Kept p (input ∷ inputs) c v (a, rest) =
      let (v₁, r₁) = handle-Kept p input c v a in
      let (v₂, r₂) = run-Kept p inputs (handle cb input c) v₁ rest in (v₂, omega (arith, r₁, r₂))
