-- ===== src/TcpServer/Examples.antt =====
-- A server with two threads accepts two connections, and the first one is removed.
use caimr.Prelude.{
  ◌+◌, ◌≤◌, ◌<◌, ◌^◌, ◌≡◌, ◌≢◌, ◌⊎◌, ℕ, refl, true, false, some, Bytes, List, length, [], ◌∷◌,
  lookup, insert, erase, arith,
}
use caimr.LogStream.{decimal, digit_loop}
use caimr.LoopPool
use caimr.LoopPool.{get_next_loop}
use caimr.TcpServer.{
  TcpServer, Conn, UserCallbacks, no_callbacks, set_conn_callback, set_thread_num, conn_name,
  create, start, enter, new_conn, remove_conn, remove_conn_in_loop, destroy,
}
use mathlib.Core.List.{Perm}
use mathlib.Core.List.Perm
use caimr.Functor.{Functor, establish_conn}
use caimr.Eloop.{Eloop}
use caimr.Socket.{Accept, accepted, refused}
use caimr.Acceptor.{Acceptor}
use caimr.Acceptor.Listening.{acceptor_on, listening_socket, descriptors}
use caimr.TcpServer.Accepting.{serve, Served, serve_lem}
use caimr.Address
use caimr.Address.{to_ip_port}
use caimr.Address.Examples.{net, localhost}
use caimr.TcpServer.Naming.{conn_names_differ}
use caimr.TcpServer.Service
use caimr.TcpServer.Service.{Service, fresh, taken}
use caimr.TcpServer.Service.Kept.{IsUp, IsGone, nothing_leaks}
use caimr.TcpServer.Counts.{entries, established, destroyed}
use caimr.TcpServer.Lifecycle.{
  Reach, here, next, sets, starts, configures, accepts, removes, one_life, destroyed_in_the_end,
}

-- "127.0.0.1:80"
abbrev address : Bytes
address = 49 ∷ 50 ∷ 55 ∷ 46 ∷ 48 ∷ 46 ∷ 48 ∷ 46 ∷ 49 ∷ 58 ∷ 56 ∷ 48 ∷ []

-- The callbacks of the server named "s", of which one is set.
abbrev callbacks : UserCallbacks
callbacks = record no_callbacks { conn_callback = some 7 }

abbrev listening : TcpServer
listening =
    set_conn_callback 7 (start (λ i. 10 + i) (set_thread_num 2 (create 1 address (115 ∷ []))))

abbrev first_conn : Conn
first_conn = record {
  id = 1;
  io_loop = 10;
  sockfd = 40;
  name = conn_name (115 ∷ []) address 1;
  callbacks = callbacks;
}

abbrev second_conn : Conn
second_conn = record first_conn {
  id = 2;
  io_loop = 11;
  sockfd = 41;
  name = conn_name (115 ∷ []) address 2;
}

abbrev one_conn : TcpServer
one_conn = enter 40 10 (record listening { thread_pool = (get_next_loop listening.thread_pool).1 })

abbrev two_conns : TcpServer
two_conns = enter 41 11 (record one_conn { thread_pool = (get_next_loop one_conn.thread_pool).1 })

first_in : new_conn 40 listening ≡ some one_conn
unfolding new_conn create start set_thread_num get_next_loop LoopPool.set_thread_num LoopPool.start
    LoopPool.create
first_in = refl

second_in : new_conn 41 one_conn ≡ some two_conns
unfolding new_conn create start set_thread_num get_next_loop LoopPool.set_thread_num LoopPool.start
    LoopPool.create
second_in = refl

first_held : lookup 1 two_conns.conns ≡ some first_conn
unfolding lookup insert erase create start set_thread_num get_next_loop LoopPool.set_thread_num
    LoopPool.start LoopPool.create
first_held = refl

small : listening.next_conn_id + 1 < 2 ^ 32
unfolding create start set_thread_num get_next_loop LoopPool.set_thread_num LoopPool.start
    LoopPool.create
small = omega arith

small' : one_conn.next_conn_id + 1 < 2 ^ 32
unfolding create start set_thread_num get_next_loop LoopPool.set_thread_num LoopPool.start
    LoopPool.create
small' = omega arith

listening-Reach : Reach 1 listening
unfolding start create set_thread_num
listening-Reach =
    next (next (next (here address (115 ∷ [])) (sets 2 refl)) (starts (λ i. 10 + i)))
      (configures callbacks)

two-Reach : Reach 1 two_conns
two-Reach = next (next listening-Reach (accepts 40 small first_in)) (accepts 41 small' second_in)

after_removal-Reach : Reach 1 (remove_conn_in_loop first_conn two_conns)
after_removal-Reach = next two-Reach (removes first_conn first_held)

one_life_example :
    let s = remove_conn_in_loop first_conn two_conns in
    (established 1 s ≡ destroyed 1 s + entries 1 s.conns) × (established 1 s ≤ 1)
one_life_example = one_life after_removal-Reach 1

-- The map gives its two connections in the order in which they came.
abbrev items : List (ℕ × Conn)
items = (1, first_conn) ∷ (2, second_conn) ∷ []

items-perm : Perm items two_conns.conns
unfolding insert erase create start set_thread_num get_next_loop LoopPool.set_thread_num
    LoopPool.start LoopPool.create
items-perm = Perm.swap _ _ _

destroyed_in_the_end_example :
    (destroyed 2 (destroy items two_conns) ≡ established 2 (destroy items two_conns))
    × (established 2 (destroy items two_conns) ≡ established 2 two_conns)
destroyed_in_the_end_example = destroyed_in_the_end two-Reach items items-perm 2

-- The first connection is established, closed by its peer, removed and destroyed.
abbrev accepting : Service
accepting = record (fresh 1 address (115 ∷ [])) { server = one_conn }

abbrev listened : Service
listened = taken [] ((10, establish_conn 1) ∷ []) accepting

abbrev up : Service
up = Service.establish 1 (taken [] [] listened)

abbrev closing : Service
closing = Service.close first_conn up

abbrev removed : Service
removed = record closing { server = remove_conn_in_loop first_conn (taken [] [] closing).server }

abbrev over : Service
over = Service.destroy_in_loop 1 (taken [] [] removed)

listened-Reach : Service.Reach 1 listened
unfolding create start set_thread_num get_next_loop LoopPool.set_thread_num LoopPool.start
    LoopPool.create
listened-Reach =
    Service.next
      (Service.next
        (Service.next
          (Service.next (Service.next (Service.here address (115 ∷ [])) (Service.sets 2))
            (Service.starts (λ i. 10 + i)))
          (Service.configures callbacks))
        (Service.accepts 40 small first_in))
      (Service.listens [] ((10, establish_conn 1) ∷ []) 1 refl)

closing-Reach : Service.Reach 1 closing
closing-Reach =
    Service.next (Service.next listened-Reach (Service.establishes [] [] 10 1 refl))
      (Service.closes first_conn refl)

over-Reach : Service.Reach 1 over
unfolding create start set_thread_num get_next_loop LoopPool.set_thread_num LoopPool.start
    LoopPool.create remove_conn remove_conn_in_loop
over-Reach =
    Service.next (Service.next closing-Reach (Service.removes [] [] 1 first_conn refl))
      (Service.destroys [] [] 10 1 refl)

nothing_leaks_example : IsUp over 1 ⊎ IsGone over 1
unfolding create start set_thread_num get_next_loop LoopPool.set_thread_num LoopPool.start
    LoopPool.create remove_conn remove_conn_in_loop
nothing_leaks_example = nothing_leaks over-Reach refl 1 (omega arith) (omega arith)

here_is : two_conns.ip_port ≡ to_ip_port net (Address.create net 80 localhost)
unfolding create start set_thread_num to_ip_port Address.create decimal digit_loop
here_is = refl

abbrev later : TcpServer
later = remove_conn_in_loop first_conn two_conns

second_held : lookup 2 later.conns ≡ some second_conn
unfolding lookup insert erase create start set_thread_num remove_conn_in_loop
second_held = refl

same_server : (later.ip_port ≡ two_conns.ip_port) × (later.name ≡ two_conns.name)
unfolding remove_conn_in_loop
same_server = (refl, refl)

-- The first connection before its removal, and the second one after it.
conn_names_differ_example : first_conn.name ≢ second_conn.name
conn_names_differ_example =
    conn_names_differ net (Address.create net 80 localhost) two-Reach after_removal-Reach here_is
      same_server.0 same_server.1 1 2 first_conn second_conn first_held second_held
      (λ e. omega (arith, e))

abbrev base_loop : Eloop Functor
base_loop = record {
  looping = true;
  quit_flag = false;
  calling_pending_functors = false;
  thread_id = 1;
  poller = record { chs = []; events_size = 16; requests = [] };
  pending_functors = [];
  wakeups = 0;
}

-- An acceptor on descriptor 9, with the server's callback.
abbrev acceptor : Acceptor
acceptor = record (acceptor_on base_loop 100 (listening_socket 9 true false)) {
  has_callback = true;
}

-- A connection, a failure (EMFILE) and another connection.
abbrev answers : List (Accept ℕ)
answers = accepted 40 7 ∷ refused 24 ∷ accepted 41 8 ∷ []

room : listening.next_conn_id + length (descriptors answers) < 2 ^ 32
unfolding create start set_thread_num get_next_loop LoopPool.set_thread_num LoopPool.start
    LoopPool.create
room = omega arith

serve_lem_example :
    (s' : TcpServer) × ((serve acceptor 0 answers listening ≡ some s')
      × Served {A = ℕ} 1 listening ((40, 7) ∷ (41, 8) ∷ []) s')
serve_lem_example = serve_lem acceptor 0 refl answers listening listening-Reach room
