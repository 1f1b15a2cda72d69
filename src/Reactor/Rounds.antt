-- ===== src/Reactor/Rounds.antt =====
-- `eloop::loop` (src/net/eloop.cpp) over the connections of a reactor: what an active channel's
-- `handle_event` and the queued functors do (src/net/tcp_conn.cpp), with the acceptor's channel
-- (src/net/acceptor.cpp) and the functors that other threads queue.
use caimr.Prelude.{
  ℕ, ◌+◌, Bool, true, Option, none, some, List, [], ◌∷◌, Bytes, lookup, map, insert, ◌==◌,
  if◌then◌else◌,
}
use caimr.Buffer.{IoResult, Readv}
use caimr.Chan.{Chan}
use caimr.Eloop.{Eloop, queue_in_loop, quit}
use caimr.Eloop.Channels
use caimr.Eloop.Loop.{Program}
use caimr.Functor.{Functor}
use caimr.Poller
use caimr.Poller.{Poller, Wait, wait_failed, ready}
use caimr.TcpConn
use caimr.TcpConn.{TcpConn, Callbacks, connenting, call, opened, establish_conn, destroy_conn}
use caimr.TcpConn.Dispatch.{on_event}
use caimr.Reactor.{Reactor, visit, bury, call_high_water}

-- A connection that the acceptor gives to this loop.
pub record Newcomer : Type 0 where
  pub id : ℕ
  pub sockfd : ℕ
  pub keep_alive_answer : Bool

-- What the system answers to a handler or a functor: readv(2), write(2), the bytes that lie at an
-- address when it reads them, and the connection that is accepted (`none` if accept4 fails, or if the
-- server gives the connection to another loop). `queued` are the functors that other threads queue
-- before the handler or functor runs, and `quits` says whether one of them calls `quit`.
pub record Answers : Type 0 where
  pub readv : Readv
  pub write : IoResult
  pub memory : (ptr len : ℕ) → Bytes
  pub accepted : Option Newcomer
  pub queued : List Functor
  pub quits : Bool

-- `clock` counts the handlers and functors that have run, and `accept_ch` is the channel of the
-- acceptor.
pub record World : Type 0 where
  pub conns : List (ℕ × TcpConn)
  pub clock : ℕ
  pub accept_ch : Chan

abbrev pub Running : Type 0
Running = Eloop Functor × World

abbrev pub reactor : Running → Reactor
reactor (l, w) = record { loop = l; conns = w.conns }

abbrev pub ticked : Reactor → World → Running
ticked r w = (r.loop, record w { conns = r.conns; clock = w.clock + 1 })

-- What other threads do: none of them is the thread of the loop.
unfoldable pub queue_all : List Functor → Eloop Functor → Eloop Functor
queue_all [] l = l
queue_all (f ∷ functors) l = queue_all functors (queue_in_loop (l.thread_id + 1) f l)

abbrev pub interfere : Answers → Eloop Functor → Eloop Functor
interfere answers l =
    let l' = queue_all answers.queued l in if answers.quits then quit (l.thread_id + 1) l' else l'

-- An operation of the connection at the address `a`, if there is one.
abbrev pub operate_on : Option TcpConn → (a : ℕ) → (TcpConn → TcpConn) → Running → Running
operate_on none a f s = ticked (reactor s) s.1
operate_on (some c) a f s = ticked (visit a f c (reactor s)) s.1

unfoldable pub operate : (a : ℕ) → (TcpConn → TcpConn) → Running → Running
operate a f s = operate_on (lookup a s.1.conns) a f s

abbrev pub bury_on : Callbacks → Option TcpConn → (a : ℕ) → Running → Running
bury_on cb none a s = ticked (reactor s) s.1
bury_on cb (some c) a s = ticked (bury cb a c (reactor s)) s.1

-- The part of `tcp_server::remove_conn_in_loop` that concerns this loop: it has to destroy the
-- connection, if the connection is its own.
abbrev pub remove_on : Option TcpConn → (conn : ℕ) → Running → Running
remove_on none conn s = ticked (reactor s) s.1
remove_on (some c) conn (l, w) =
    ticked (reactor (queue_in_loop l.thread_id (Functor.destroy_conn conn) l, w)) w

-- The channels that poll has told of their events, back in their connections.
abbrev pub put_chans : List Chan → List (ℕ × TcpConn) → List (ℕ × TcpConn)
put_chans (ch ∷ chans) ((a, c) ∷ conns) = (a, record c { ch = ch }) ∷ put_chans chans conns
put_chans _ conns = conns

-- The channel of the connection with the id `i` lies at `place i`; `env` answers the system calls.
module _ (cb : Callbacks) (place : ℕ → ℕ) (env : ℕ → Answers) where
  -- What other threads do before the next handler or functor.
  abbrev pub before : Running → Running
  before (l, w) = (interfere (env w.clock) l, w)

  -- `tcp_server::new_conn` for a connection of this loop, which establishes it at once.
  abbrev pub newcomer : Newcomer → Eloop Functor → TcpConn
  newcomer n l = TcpConn.create l n.id n.sockfd (place n.id) n.keep_alive_answer

  abbrev pub entered_with : Newcomer → Running → Reactor
  entered_with n (l, w) = record { loop = l; conns = insert (place n.id) (newcomer n l) w.conns }

  abbrev pub accept_conn : Option Newcomer → Running → Running
  accept_conn none s = ticked (reactor s) s.1
  accept_conn (some n) s =
      ticked (visit (place n.id) (establish_conn cb) (newcomer n s.0) (entered_with n s)) s.1

  -- `handle_event` of the channel at `ptr`: the acceptor's, a connection's, or that of the eventfd,
  -- which it drains.
  unfoldable pub handle_now : (ptr : ℕ) → Running → Running
  unfolding operate
  handle_now ptr s =
      let answers = env s.1.clock in
      if ptr == s.1.accept_ch.id
      then accept_conn answers.accepted s
      else operate ptr (on_event cb answers.readv answers.write true) s

  unfoldable pub handle_event : (ptr : ℕ) → Running → Running
  unfolding handle_now
  handle_event ptr s = handle_now ptr (before s)

  unfoldable pub exec_now : Functor → Running → Running
  unfolding operate
  exec_now (Functor.send_in_loop conn ptr len) s =
      let answers = env s.1.clock in
      operate (place conn) (TcpConn.send_in_loop cb answers.write (answers.memory ptr len)) s
  exec_now (Functor.shutdown_in_loop conn) s = operate (place conn) TcpConn.shutdown_in_loop s
  exec_now (Functor.establish_conn conn) s = operate (place conn) (establish_conn cb) s
  exec_now (Functor.destroy_conn conn) s = bury_on cb (lookup (place conn) s.1.conns) (place conn) s
  exec_now (Functor.write_complete conn) s =
      operate (place conn) (call cb.write_complete_callback) s
  exec_now (Functor.high_water_mark conn len) s =
      operate (place conn) (call_high_water cb.high_water_mark_callback len) s
  exec_now (Functor.remove_conn_in_loop conn) s = remove_on (lookup (place conn) s.1.conns) conn s
  exec_now Functor.listen (l, w) =
      let (l', ch) = Channels.enable_reading w.accept_ch l in
      (l', record w { clock = w.clock + 1; accept_ch = ch })

  unfoldable pub exec : Functor → Running → Running
  unfolding exec_now
  exec f s = exec_now f (before s)

  abbrev pub program : Program Functor World
  program = record {
    exec = exec;
    handle_event = handle_event;
    chans = λ w. map (λ e. e.1.ch) w.conns;
    set_chans = λ chans w. record w { conns = put_chans chans w.conns };
  }

  -- The state in which the handlers of a round begin, and the active channels.
  abbrev pub polled : Wait → Running → Running × List ℕ
  polled answer (l, w) =
      let (poller, chans, active) = Poller.poll l.poller answer (program.chans w) [] in
      ((record l { poller = poller }, program.set_chans chans w), active)

  -- The state in which the functors of a round begin.
  abbrev pub swapped : Running → Running
  swapped (l, w) = (record l { calling_pending_functors = true; pending_functors = [] }, w)
