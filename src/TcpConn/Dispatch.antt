-- ===== src/TcpConn/Dispatch.antt =====
-- A connection behind its channel: the constructor binds the four callbacks of the channel to the
-- handlers of the connection (src/net/tcp_conn.cpp), and `handle_event` (src/net/chan.cpp) calls them.
use caimr.Prelude.{◌≤◌, ◌≡◌, refl, sym, subst, ◌∙◌, Bool, List, [], ◌∷◌, map}
use caimr.Buffer.{IoResult, Readv}
use caimr.Chan
use caimr.Chan.{Chan, Handler}
use caimr.Chan.Dispatch.{due, keep, run_all, handle_event_lem}
use caimr.Poller.Interest.{Epoll}
use caimr.TcpConn.{TcpConn, Callbacks, handle_close, handle_error, handle_read, handle_write}
use caimr.TcpConn.Stream.{IsValid}
use caimr.TcpConn.Inputs.{Input, handle, rank, Room, Polite}
use caimr.TcpConn.States.{run, AllAllowed, run-Kept}
use caimr.TcpConn.Tame.{OwnConn, OwnConn-trans, unmoved, Tame}
use caimr.TcpConn.TameHandlers.{handle_close-Own, handle_read-Own, handle_write-Own}

-- What the callbacks of the channel call. `r` and `w` are what readv and write answer if they are asked.
abbrev pub bound : Callbacks → Readv → IoResult → Handler → TcpConn → TcpConn
bound cb r w Handler.reads c = handle_read cb r c
bound cb r w Handler.writes c = handle_write cb w c
bound cb r w Handler.closes c = handle_close cb c
bound cb r w Handler.errors c = handle_error cb c

-- The events that poll has reported reach the connection.
pub on_event : Callbacks → Readv → IoResult → (alive : Bool) → TcpConn → TcpConn
on_event cb r w alive c = Chan.handle_event (bound cb r w) c.ch alive c

abbrev pub input_of : Readv → IoResult → Handler → Input
input_of r w Handler.reads = Input.reads r
input_of r w Handler.writes = Input.writes w
input_of r w Handler.closes = Input.closes
input_of r w Handler.errors = Input.errors

abbrev pub due_handlers : (alive : Bool) → Chan → List Handler
due_handlers alive ch =
    keep (due ch alive) (Handler.closes ∷ Handler.errors ∷ Handler.reads ∷ Handler.writes ∷ [])

-- What the reported events come to.
abbrev pub inputs_of : Readv → IoResult → (alive : Bool) → Chan → List Input
inputs_of r w alive ch = map (input_of r w) (due_handlers alive ch)

module _ (cb : Callbacks) (r : Readv) (w : IoResult) where
  run-map :
      (hs : List Handler) (c : TcpConn)
      → run_all (bound cb r w) hs c ≡ run cb (map (input_of r w) hs) c
  unfolding run handle
  run-map [] c = refl
  run-map (Handler.reads ∷ hs) c = run-map hs (handle_read cb r c)
  run-map (Handler.writes ∷ hs) c = run-map hs (handle_write cb w c)
  run-map (Handler.closes ∷ hs) c = run-map hs (handle_close cb c)
  run-map (Handler.errors ∷ hs) c = run-map hs (handle_error cb c)

  -- What `handle_event` makes of a connection is what the handlers make of it that its events call
  -- for, one after the other: those for a hang-up without data, an error, data and room, in this order.
  pub on_event-run :
      (alive : Bool) (c : TcpConn) → on_event cb r w alive c ≡ run cb (inputs_of r w alive c.ch) c
  unfolding on_event
  on_event-run alive c =
      handle_event_lem (bound cb r w) c.ch alive c ∙ run-map (due_handlers alive c.ch) c

  pub on_event-Kept :
      (room : Room)
      → Polite cb room
      → (alive : Bool) (c : TcpConn) → IsValid c
      → AllAllowed cb room (inputs_of r w alive c.ch) c
      → IsValid (on_event cb r w alive c) × (rank c.state ≤ rank (on_event cb r w alive c).state)
  on_event-Kept room p alive c v a =
      subst (λ d. IsValid d × (rank c.state ≤ rank d.state)) (sym (on_event-run alive c))
        (run-Kept cb room p (inputs_of r w alive c.ch) c v a)

  module _ (k : Epoll) (t : Tame k cb) where
    bound-Own : (h : Handler) (c : TcpConn) → OwnConn k c (bound cb r w h c)
    unfolding handle_error
    bound-Own Handler.reads c = handle_read-Own k cb t r c
    bound-Own Handler.writes c = handle_write-Own k cb w c
    bound-Own Handler.closes c = handle_close-Own k cb t c
    bound-Own Handler.errors c = unmoved k c

    run_all-Own : (hs : List Handler) (c : TcpConn) → OwnConn k c (run_all (bound cb r w) hs c)
    run_all-Own [] c = unmoved k c
    run_all-Own (h ∷ hs) c = OwnConn-trans k (bound-Own h c) (run_all-Own hs (bound cb r w h c))

    pub on_event-Own : (alive : Bool) (c : TcpConn) → OwnConn k c (on_event cb r w alive c)
    unfolding on_event
    on_event-Own alive c =
        subst (λ d. OwnConn k c d) (sym (handle_event_lem (bound cb r w) c.ch alive c))
          (run_all-Own (due_handlers alive c.ch) c)
