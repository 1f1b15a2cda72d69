-- ===== src/Acceptor/Examples.antt =====
-- An acceptor on descriptor 9, in a loop that watches nothing yet.
use caimr.Prelude.{ℕ, ◌≡◌, refl, true, false, ◌&&◌, none, some, List, [], ◌∷◌, lookup, ◌>>=◌}
use caimr.Chan
use caimr.Chan.{deleted, fresh}
use caimr.Poller.Examples.{table}
use caimr.Eloop.{Eloop}
use caimr.Functor.{Functor}
use caimr.Socket.{Accept, refused, accepted}
use caimr.Acceptor.{Acceptor, create, set_new_conn_callback, listen, destroy}
use caimr.Acceptor.Listening.{granting, listening_socket, IsListening, IsGone, destroy-listen}

abbrev base_loop : Eloop Functor
base_loop = record {
  looping = false;
  quit_flag = false;
  calling_pending_functors = false;
  thread_id = 3;
  poller = record { chs = []; events_size = 16; requests = [] };
  pending_functors = [];
  wakeups = 0;
}

abbrev acceptor : Acceptor
acceptor = record {
  loop = base_loop;
  accept_socket = listening_socket 9 true false;
  accept_ch = record (Chan.create 100 9) { has_read = true };
  has_callback = true;
  listening = false;
}

unknown : lookup 9 base_loop.poller.chs ≡ none
unfolding lookup
unknown = refl

destroy-listen_example :
    (a : Acceptor) × (((create base_loop 100 true (granting 9 true false) >>= λ new.
    listen true (set_new_conn_callback new))
        ≡ some a)
      × (IsListening table a 100 (listening_socket 9 true (false && true))
          × IsGone table (destroy a) 9))
destroy-listen_example =
    destroy-listen table base_loop 100 9 true true false unknown (table.start_empty 9)

abbrev answers : List (Accept ℕ)
answers = accepted 20 1 ∷ refused 24 ∷ accepted 21 2 ∷ []
