-- ===== src/Reactor.antt =====
-- A loop with the connections that live in it: what `eloop::loop` (src/net/eloop.cpp) makes of them by
-- way of the poller, their channels (src/net/chan.cpp) and their handlers (src/net/tcp_conn.cpp). A
-- step is what the loop thread does to one connection without looking at another; that a run of the
-- loop is a sequence of steps stands in Reactor/Rounds.
pub mod Served
pub mod Owners
pub mod Steps
pub mod Watching
pub mod Dangling
pub mod Reported
pub mod Rounds
pub mod Conditions
pub mod Newcomers
pub mod Begun
pub mod Handled
pub mod Runs
mod Examples
use caimr.Prelude.{
  ℕ, ◌≡◌, ◌≢◌, Bool, true, Option, none, some, List, [], ◌∷◌, lookup, insert, erase,
}
use caimr.Buffer.{IoResult, Readv}
use caimr.Chan
use caimr.Eloop.{Eloop}
use caimr.Events.{Events}
use caimr.Functor.{Functor}
use caimr.Poller.Interest
use caimr.Poller.Interest.{Epoll}
use caimr.TcpConn
use caimr.TcpConn.{TcpConn, Callbacks, connenting, call, opened, establish_conn, destroy_conn}
use caimr.TcpConn.Dispatch.{on_event, inputs_of}
use caimr.TcpConn.Inputs.{Room, Input, sends, flushes, shuts, shuts_in_loop, handle, Allowed}
use caimr.TcpConn.States.{AllAllowed}

-- The connections by the address of their channel. The `loop` of a connection stands for the pointer
-- `loop_`: what it points to is `loop`.
pub record Reactor : Type 0 where
  pub loop : Eloop Functor
  pub conns : List (ℕ × TcpConn)

-- An operation of the connection `c` at `a`.
abbrev pub visit : (a : ℕ) → (TcpConn → TcpConn) → TcpConn → Reactor → Reactor
visit a f c r =
    let c' = f (record c { loop = r.loop }) in
    record { loop = c'.loop; conns = insert a c' r.conns }

-- The last reference to the connection goes with `destroy_conn`.
abbrev pub bury : Callbacks → (a : ℕ) → TcpConn → Reactor → Reactor
bury cb a c r = record {
  loop = (destroy_conn cb (record c { loop = r.loop })).loop;
  conns = erase a r.conns;
}

abbrev pub call_high_water : Option (ℕ → TcpConn → TcpConn) → (len : ℕ) → TcpConn → TcpConn
call_high_water none len c = c
call_high_water (some f) len c = f len c

-- A connection to whose channel some events may have been reported.
pub data Told : Option TcpConn → Option TcpConn → Type 0 where
  absent : Told none none
  told :
      (c : TcpConn) (revents : Events)
      → Told (some c) (some (record c { ch = Chan.set_revents c.ch revents }))

-- What the user and the queue ask of an established connection.
abbrev pub IsCall : Input → Type 0
IsCall (sends tid ptr answer bytes) = Unit {0}
IsCall (flushes answer bytes) = Unit {0}
IsCall (shuts tid) = Unit {0}
IsCall shuts_in_loop = Unit {0}
IsCall _ = ⊥

module _ (k : Epoll) (cb : Callbacks) (room : Room) (l : Eloop Functor) where
  abbrev Established : Reactor → ℕ → TcpConn → Type 0
  Established r a c = (lookup a r.conns ≡ some c) × (c.state ≢ connenting)

  -- What can happen in a loop that was `l` before it had connections. A descriptor that the kernel has
  -- just given is open neither in the loop itself nor in another connection, and a new channel lies
  -- neither where another connection's does nor where one of the loop's own does.
  pub data Step (r : Reactor) : Reactor → Type 0 where
    enters :
        (id sockfd a : ℕ) (keep_alive_answer : Bool)
        → lookup a r.conns ≡ none
        → ((fd : ℕ) (events : Events) → Interest.watches k l.poller fd ≢ some (events, a))
        → Interest.watches k l.poller sockfd ≡ none
        → ((b : ℕ) (d : TcpConn) → lookup b r.conns ≡ some d → sockfd ≢ d.ch.fd)
        → Step r (record r {
          conns = insert a (TcpConn.create r.loop id sockfd a keep_alive_answer) r.conns;
        })
    establishes :
        (a : ℕ) (c : TcpConn)
        → lookup a r.conns ≡ some c
        → c.state ≡ connenting
        → room.ok (opened (record c { loop = r.loop }))
        → Step r (visit a (establish_conn cb) c r)
    calls :
        (a : ℕ) (c : TcpConn) (input : Input)
        → Established r a c
        → IsCall input
        → Allowed room input (record c { loop = r.loop })
        → Step r (visit a (handle cb input) c r)
    -- What poll has reported stands in the channels.
    reports :
        (conns : List (ℕ × TcpConn))
        → ((b : ℕ) → Told (lookup b r.conns) (lookup b conns))
        → Step r (record r { conns = conns })
    dispatches :
        (a : ℕ) (c : TcpConn) (readv : Readv) (write : IoResult)
        → Established r a c
        → AllAllowed cb room (inputs_of readv write true c.ch) (record c { loop = r.loop })
        → Step r (visit a (on_event cb readv write true) c r)
    completes :
        (a : ℕ) (c : TcpConn)
        → Established r a c
        → room.ok (record c { loop = r.loop })
        → Step r (visit a (call cb.write_complete_callback) c r)
    overflows :
        (a : ℕ) (c : TcpConn) (len : ℕ)
        → Established r a c
        → room.ok (record c { loop = r.loop })
        → Step r (visit a (call_high_water cb.high_water_mark_callback len) c r)
    destroys : (a : ℕ) (c : TcpConn) → Established r a c → Step r (bury cb a c r)
    -- The loop goes on without asking the poller to change anything: it polls, looks at its flags, and
    -- moves functors.
    turns :
        (l' : Eloop Functor)
        → l'.poller.chs ≡ r.loop.poller.chs
        → l'.poller.requests ≡ r.loop.poller.requests
        → Step r (record r { loop = l' })

  pub data Reach : Reactor → Type 0 where
    here : Reach (record { loop = l; conns = [] })
    next : {r s : Reactor} → Reach r → Step r s → Reach s
