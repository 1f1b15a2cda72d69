-- ===== src/TcpConn/Examples.antt =====
-- The theorems of a connection on small inputs: a connection whose output buffer holds two bytes,
-- and an idle one.
use caimr.Prelude.{
  ◌≤◌, ◌≡◌, ◌≢◌, refl, true, false, none, some, List, [], ◌∷◌, ◌++◌, Bytes, lookup, arith,
}
use caimr.Events.{none_event, read_event, write_event, union}
use caimr.Buffer.{Buffer, IoResult, failed, moved}
use caimr.Buffer.Io.{read_capacity_bounds}
use caimr.Buffer.Content
use caimr.Buffer.Content.{content}
use caimr.Chan
use caimr.Chan.{Chan, deleted}
use caimr.Poller
use caimr.Eloop
use caimr.Eloop.{Eloop}
use caimr.Functor.{Functor}
use caimr.Socket
use caimr.TcpConn.{
  TcpConn, Callbacks, epipe, set_high_water_mark_callback, connected, disconnected, call, create,
  establish_conn, send_in_loop, handle_write, shutdown,
}
use caimr.TcpConn.HighWater.{queued_alarms, due, send_in_loop-alarms}
use caimr.TcpConn.Flushing
use caimr.TcpConn.Flushing.{AllSent, flush, flush-shutdown}
use caimr.TcpConn.Echo
use caimr.TcpConn.Echo.{Event, arrives, writable, Ready, echo_lem}
use caimr.TcpConn.Stream.{IsValid, stream}
use caimr.TcpConn.Failing.{Handed, send_in_loop-Handed}
use caimr.TcpConn.Writable.{Written, handle_write_lem}
use caimr.TcpConn.Birth.{IsNew, establish_conn-create}
use caimr.Poller.Examples.{table}
use caimr.TcpConn.States.{run, run-Kept}
use caimr.TcpConn.Handlers.{shutdown-Kept}
use caimr.TcpConn.Inputs.{Input, writes, closes, shuts, destroys, Room, Polite, rank}

abbrev storage : Bytes → Bytes
storage bytes = (0 ∷ 0 ∷ 0 ∷ 0 ∷ 0 ∷ 0 ∷ 0 ∷ 0 ∷ []) ++ bytes

abbrev blank : Buffer
blank = record { buf = storage (0 ∷ 0 ∷ []); reader_index = 8; writer_index = 8 }

abbrev io_loop : Eloop Functor
io_loop = record {
  looping = true;
  quit_flag = false;
  calling_pending_functors = false;
  thread_id = 3;
  poller = Poller.create;
  pending_functors = [];
  wakeups = 0;
}

abbrev new_loop : Eloop Functor
new_loop = record io_loop { poller = record { chs = []; events_size = 16; requests = [] } }

abbrev idle : TcpConn
idle = record {
  loop = io_loop;
  id = 1;
  state = connected;
  reading = true;
  socket = record (Socket.create 7) { keep_alive = true; sent = 9 ∷ [] };
  ch = record {
    id = 1000;
    fd = 7;
    events = read_event;
    revents = none_event;
    index = Chan.added;
    tied = true;
    has_read = true;
    has_write = true;
    has_close = true;
    has_error = true;
  };
  high_water_mark = 64;
  input_buf = blank;
  output_buf = blank;
}

abbrev waiting : TcpConn
waiting = record idle {
  ch = record (idle.ch) { events = union read_event write_event };
  output_buf = record { buf = storage (5 ∷ 6 ∷ []); reader_index = 8; writer_index = 10 };
}

-- The user shuts a connection down at its first message.
abbrev once : Callbacks
once = record {
  conn_callback = none;
  msg_callback = some (λ c. shutdown 3 c);
  write_complete_callback = none;
  close_callback = none;
  high_water_mark_callback = none;
}

blank-IsValid : Content.IsValid blank
blank-IsValid = omega arith

idle-IsValid : IsValid idle
idle-IsValid = record { input = blank-IsValid; output = blank-IsValid; writing = λ _. refl }

waiting-IsValid : IsValid waiting
waiting-IsValid = record { input = blank-IsValid; output = omega arith; writing = λ _. refl }

-- The callbacks need no room.
abbrev anywhere : Room
anywhere = record { ok = λ c. Unit {0}; closed = λ c gone. tt }

once-Polite : Polite once anywhere
once-Polite = record { conn = tt; msg = λ c v o. shutdown-Kept once 3 c v; close = tt }

live : connected ≢ disconnected
live = λ h. cc

-- The peer has gone.
send_in_loop-Handed_example :
    Handed
      (1 ∷ 2 ∷ 3 ∷ [])
      (failed epipe)
      idle
      (send_in_loop once (failed epipe) (1 ∷ 2 ∷ 3 ∷ []) idle)
send_in_loop-Handed_example =
    send_in_loop-Handed once (failed epipe) (1 ∷ 2 ∷ 3 ∷ []) idle idle-IsValid live (omega arith) tt

handle_write_lem_example : Written once waiting (handle_write once (moved 1) waiting)
handle_write_lem_example = handle_write_lem once (moved 1) waiting waiting-IsValid

abbrev inputs : List Input
inputs = writes (moved 2) ∷ shuts 3 ∷ closes ∷ destroys ∷ []

run-Kept_example : IsValid (run once inputs waiting) × (1 ≤ rank (run once inputs waiting).state)
run-Kept_example =
    run-Kept once anywhere once-Polite inputs waiting waiting-IsValid (tt, (tt, (tt, (tt, tt))))

-- Two bytes arrive, one of which the kernel takes back at once and one later.
abbrev events : List Event
events = arrives (1 ∷ 2 ∷ []) 500 (moved 1) ∷ writable (moved 1) ∷ []

idle-Ready : Ready idle
idle-Ready = record { valid = idle-IsValid; up = refl; taken = refl }

echo_lem_example :
    (stream (Echo.run once events idle) ≡ 9 ∷ 1 ∷ 2 ∷ []) × Ready (Echo.run once events idle)
echo_lem_example = echo_lem once events idle idle-Ready (
  (
    omega arith,
    omega arith,
    omega (arith, (read_capacity_bounds blank blank-IsValid).0),
    omega arith,
    omega arith,
  ),
  (tt, tt),
)

unknown : lookup 7 new_loop.poller.chs ≡ none
unfolding lookup
unknown = refl

-- The connection 1 on descriptor 7, with the channel at 1000.
establish_conn-create_example :
    (c : TcpConn) × ((establish_conn once (create new_loop 1 7 1000 true)
        ≡ call once.conn_callback c)
      × IsNew table 7 1000 true c)
establish_conn-create_example =
    establish_conn-create table once new_loop 1 7 1000 true unknown (table.start_empty 7)

in_thread : Eloop.is_in_loop_thread 3 waiting.loop ≡ true
unfolding Eloop.is_in_loop_thread
in_thread = refl

-- Two bytes wait; write(2) fails once with EWOULDBLOCK, and then takes a byte, nothing, and a byte.
abbrev write_answers : List IoResult
write_answers = failed 11 ∷ moved 1 ∷ moved 0 ∷ moved 1 ∷ []

flush-shutdown_example : AllSent waiting (flush once write_answers (shutdown 3 waiting))
flush-shutdown_example =
    flush-shutdown once 3 write_answers waiting waiting-IsValid refl in_thread (omega arith)

-- A user who wants to know when three bytes wait.
abbrev watched : Callbacks × TcpConn
watched = set_high_water_mark_callback (λ len c. c) 3 (once, idle)

-- Three bytes are sent, and the kernel takes none of them at first.
send_in_loop-alarms_example :
    let c' = send_in_loop watched.0 (moved 0) (1 ∷ 2 ∷ 3 ∷ []) watched.1 in
    queued_alarms c' ≡ queued_alarms watched.1 ++ due 3 0 (Flushing.waiting c')
send_in_loop-alarms_example =
    send_in_loop-alarms watched.0 refl (moved 0) (1 ∷ 2 ∷ 3 ∷ []) watched.1
      (record { input = blank-IsValid; output = blank-IsValid; writing = λ _. refl }) live
      (omega arith) (omega arith)
