-- ===== src/Reactor/Examples.antt =====
-- A reactor with two connections, a loop that accepts one, and the theorems on them.
use caimr.Prelude.{
  List, ◌==◌, if◌then◌else◌, ◌*◌, ◌∷◌, ℕ, ◌≡◌, ◌≢◌, ◌⊎◌, inl, inr, subst, refl, true, false, none,
  some, [], lookup, insert, arith, Bytes, length, sym,
}
use caimr.Chan
use caimr.Eloop.{Eloop}
use caimr.Functor.{Functor}
use caimr.Buffer.{failed, read_failed, initial_size}
use caimr.Buffer
use caimr.Buffer.Content.{Fits, create_lem, create-Fits}
use caimr.Eloop.Loop.{loop}
use caimr.Poller.{Wait, ready, Ctl, ctl_add}
use caimr.Events.{Events, read_event}
use caimr.Poller.Interest
use caimr.Poller.Interest.{Epoll}
use caimr.Poller.Examples.{table}
use caimr.TcpConn.{TcpConn, Callbacks, connenting, create, establish_conn, opened}
use caimr.TcpConn.Echo.{echo}
use caimr.TcpConn.Inputs.{Room}
use caimr.TcpConn.Replies.{reply_room, on_message-Keeps, on_message-Own}
use caimr.Reactor.{Reactor, Reach, visit, enters, establishes, here, next}
use caimr.Reactor.Served.{found}
use caimr.Reactor.Owners.{Consistent}
use caimr.Reactor.Steps.{Fair}
use caimr.Reactor.Watching.{Watched, Reach-Watched}
use caimr.Reactor.Rounds.{Answers, Running}
use caimr.Reactor.Dangling.{Alive, watches-Alive}

abbrev base : Eloop Functor
base = record {
  looping = true;
  quit_flag = false;
  calling_pending_functors = false;
  thread_id = 3;
  poller = record { chs = []; events_size = 16; requests = [] };
  pending_functors = [];
  wakeups = 0;
}

abbrev silent_user : Callbacks
silent_user = record {
  conn_callback = none;
  msg_callback = none;
  write_complete_callback = none;
  close_callback = none;
  high_water_mark_callback = none;
}

-- The user echoes what comes in, and the kernel is never ready to take it at echoing.
abbrev echoing : Callbacks
echoing = echo silent_user 500 (failed 11)

abbrev room : Room
room = reply_room (failed 11)

echoing-Fair : Fair table echoing room
echoing-Fair = record {
  polite = record { conn = tt; msg = on_message-Keeps silent_user 500 (failed 11); close = tt };
  tame = record { conn = tt; msg = on_message-Own silent_user 500 (failed 11) table; close = tt };
  write_complete = (tt, tt);
  high_water = tt;
}

-- There is room in a new connection.
new_room :
    (l : Eloop Functor) (id sockfd a : ℕ)
    → room.ok (opened (record (create base id sockfd a true) { loop = l }))
unfolding create
new_room l id sockfd a = λ up.
    let (_, e) = create_lem initial_size (omega arith) in
    (
      subst (λ (bytes : Bytes). Fits (Buffer.create initial_size) (length bytes)) (sym e)
          (create-Fits initial_size 0 (omega arith)),
      tt,
    )

base-Consistent : Consistent table base.poller
unfolding lookup
base-Consistent fd = inl (refl, table.start_empty fd)

abbrev first : TcpConn
first = create base 1 7 1000 true

abbrev second : TcpConn
second = create base 2 9 2000 true

-- Both connections enter, and then the first one is established.
abbrev two : Reactor
two = record { loop = base; conns = insert 2000 second (insert 1000 first []) }

abbrev served : Reactor
served = visit 1000 (establish_conn echoing) first two

alone : (b : ℕ) (d : TcpConn) → lookup b (insert 1000 first []) ≡ some d → 9 ≢ d.ch.fd
unfolding create Chan.create lookup
alone b d h = elim (found table 1000 b first d (record { loop = base; conns = [] }) h) [
  | inl (_, e) ↦ subst (λ (t : TcpConn). 9 ≢ t.ch.fd) e (omega arith)
  | inr (_, l) ↦ absurd (cc l)
]

two-Reach : Reach table echoing room base two
unfolding lookup insert create Chan.create
two-Reach =
    next
      (next here (
        enters 1 7 1000 true refl (λ fd e h. cc (table.start_empty fd, h)) (table.start_empty 7)
          (λ b d h. cc h)))
      (enters 2 9 2000 true refl (λ fd e h. cc (table.start_empty fd, h)) (table.start_empty 9)
        alone)

served-Reach : Reach table echoing room base served
unfolding lookup insert create
served-Reach = next two-Reach (establishes 1000 first refl refl (new_room base 1 7 1000))

abbrev up : TcpConn
up = establish_conn echoing first

up-started : up.state ≢ connenting
unfolding establish_conn
up-started = λ h. cc h

up-here : lookup 1000 served.conns ≡ some up
unfolding lookup insert create
up-here = refl

Reach-Watched_example : Watched table served 1000 up
Reach-Watched_example =
    Reach-Watched table echoing room echoing-Fair base base-Consistent served served-Reach 1000 up
      up-here up-started

up-watched : Interest.watches table served.loop.poller up.ch.fd ≡ some (up.ch.events, 1000)
up-watched =
    (Reach-Watched table echoing room echoing-Fair base base-Consistent served served-Reach 1000 up
      up-here up-started).watched

watches-Alive_example :
    (Interest.watches table base.poller up.ch.fd ≡ some (up.ch.events, 1000))
    ⊎ Alive served up.ch.fd up.ch.events 1000
watches-Alive_example =
    watches-Alive table echoing room echoing-Fair base base-Consistent served served-Reach up.ch.fd
      up.ch.events 1000 up-watched

-- The loop of an acceptor, whose channel at 500 is registered for its descriptor 5.
abbrev request : Ctl
request = record { op = ctl_add; fd = 5; events = read_event; ptr = 500 }

abbrev accepting : Eloop Functor
accepting = record base {
  poller = record { chs = (5, 500) ∷ []; events_size = 16; requests = request ∷ [] };
}

abbrev begun : Running
begun = (accepting, record { conns = []; clock = 0; accept_ch = Chan.create 500 5 })

abbrev place : ℕ → ℕ
place id = id * 1000

-- A connection is accepted, and meanwhile another thread queues a functor for it.
abbrev one_comes : ℕ → Answers
one_comes n = record {
  readv = read_failed 11;
  write = failed 11;
  memory = λ ptr len. [];
  accepted = some (record { id = 1; sockfd = 7; keep_alive_answer = true });
  queued = if n == 0 then Functor.remove_conn_in_loop 1 ∷ [] else [];
  quits = false;
}

abbrev waits : List Wait
waits = ready ((read_event, 500) ∷ []) ∷ []
