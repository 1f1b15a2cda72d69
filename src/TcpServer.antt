-- ===== src/TcpServer.antt =====
-- include/net/tcp_server.h and src/net/tcp_server.cpp: the server keeps the map of its connections
-- and decides in which loop each one lives. Loops are named by numbers.
pub mod Counts
pub mod Balance
pub mod Lifecycle
pub mod Placing
pub mod Accepting
pub mod Naming
pub mod Service
mod Examples
use caimr.Prelude.{
  ℕ, ◌+◌, ◌%◌, ◌^◌, Bool, true, false, Option, none, some, Bytes, List, [], ◌∷◌, take, ◌++◌, ◌==◌,
  if◌then◌else◌, insert, erase,
}
use caimr.Functor.{Functor, establish_conn, destroy_conn, listen}
use caimr.Functor as Functor
use caimr.LogStream.{decimal}
use caimr.LoopPool
use caimr.LoopPool.{LoopPool}
use caimr.Thread.{as_int}

-- The std::function members that the user sets, by number; `none` is an empty one.
pub record UserCallbacks : Type 0 where
  pub conn_callback : Option ℕ
  pub msg_callback : Option ℕ
  pub write_complete_callback : Option ℕ
  pub thread_init_callback : Option ℕ

-- What the server knows of a connection that a tcp_conn_ptr points to.
pub record Conn : Type 0 where
  pub id : ℕ
  pub io_loop : ℕ
  pub sockfd : ℕ
  pub name : Bytes
  pub callbacks : UserCallbacks

-- `posted` are the functors handed to loops so far, by `run_in_loop` or `queue_in_loop`, in order.
pub record TcpServer : Type 0 where
  pub loop : ℕ
  pub ip_port : Bytes
  pub name : Bytes
  pub callbacks : UserCallbacks
  pub thread_pool : LoopPool ℕ
  pub started : ℕ
  pub next_conn_id : ℕ
  pub conns : List (ℕ × Conn)
  pub posted : List (ℕ × Functor)

abbrev pub no_callbacks : UserCallbacks
no_callbacks = record {
  conn_callback = none;
  msg_callback = none;
  write_complete_callback = none;
  thread_init_callback = none;
}

-- The constructor; `ip_port` is the text of the address that it listens at.
pub create : ℕ → (ip_port name : Bytes) → TcpServer
create loop ip_port name = record {
  loop = loop;
  ip_port = ip_port;
  name = name;
  callbacks = no_callbacks;
  thread_pool = LoopPool.create loop;
  started = 0;
  next_conn_id = 1;
  conns = [];
  posted = [];
}

pub set_thread_num : ℕ → TcpServer → TcpServer
set_thread_num num_threads s = record s {
  thread_pool = LoopPool.set_thread_num num_threads s.thread_pool;
}

abbrev pub set_thread_init_callback : ℕ → TcpServer → TcpServer
set_thread_init_callback cb s = record s {
  callbacks = record (s.callbacks) { thread_init_callback = some cb };
}

abbrev pub set_conn_callback : ℕ → TcpServer → TcpServer
set_conn_callback cb s = record s { callbacks = record (s.callbacks) { conn_callback = some cb } }

abbrev pub set_msg_callback : ℕ → TcpServer → TcpServer
set_msg_callback cb s = record s { callbacks = record (s.callbacks) { msg_callback = some cb } }

abbrev pub set_write_complete_callback : ℕ → TcpServer → TcpServer
set_write_complete_callback cb s = record s {
  callbacks = record (s.callbacks) { write_complete_callback = some cb };
}

abbrev pub is_given : Option ℕ → Bool
is_given none = false
is_given (some cb) = true

abbrev pub post : ℕ → Functor → TcpServer → TcpServer
post loop f s = record s { posted = s.posted ++ (loop, f) ∷ [] }

-- `start_loop` is about the threads of the pool, as in LoopPool.
pub start : (ℕ → ℕ) → TcpServer → TcpServer
start start_loop s =
    let s' = record s { started = (s.started + 1) % 2 ^ 32 } in
    if s.started == 0
    then post s.loop listen (record s' {
      thread_pool =
          (LoopPool.start start_loop (is_given s.callbacks.thread_init_callback) s.thread_pool).0;
    })
    else s'

-- The name of a connection: the server's name with "-{ip_port}#{id}", as snprintf writes that to 64
-- characters.
pub conn_name : (name ip_port : Bytes) → (id : ℕ) → Bytes
conn_name name ip_port id = name ++ take 63 (45 ∷ ip_port ++ 35 ∷ decimal (as_int id))

-- The callbacks of a new connection: those that the server has at the time. It has no use for that of
-- the threads.
abbrev pub conn_callbacks : UserCallbacks → UserCallbacks
conn_callbacks cb = record cb { thread_init_callback = none }

-- The server with a new connection in the loop that the pool chose.
abbrev pub enter : ℕ → ℕ → TcpServer → TcpServer
enter sockfd io_loop s =
    let conn : Conn = record {
      id = s.next_conn_id;
      io_loop = io_loop;
      sockfd = sockfd;
      name = conn_name s.name s.ip_port s.next_conn_id;
      callbacks = conn_callbacks s.callbacks;
    } in
    post io_loop (establish_conn conn.id) (record s {
      next_conn_id = (s.next_conn_id + 1) % 2 ^ 32;
      conns = insert s.next_conn_id conn s.conns;
    })

-- `none`: the pool had no loop at its index.
abbrev pub admit : ℕ → Option ℕ → TcpServer → Option TcpServer
admit sockfd none s = none
admit sockfd (some io_loop) s = some (enter sockfd io_loop s)

pub new_conn : ℕ → TcpServer → Option TcpServer
new_conn sockfd s =
    let (io_loop, pool) = LoopPool.get_next_loop s.thread_pool in
    admit sockfd io_loop (record s { thread_pool = pool })

pub remove_conn : Conn → TcpServer → TcpServer
remove_conn conn s = post s.loop (Functor.remove_conn_in_loop conn.id) s

pub remove_conn_in_loop : Conn → TcpServer → TcpServer
remove_conn_in_loop conn s =
    post conn.io_loop (destroy_conn conn.id) (record s { conns = erase conn.id s.conns })

-- What the destructor posts for the connections that are left.
pub farewells : List (ℕ × Conn) → List (ℕ × Functor)
farewells [] = []
farewells ((key, conn) ∷ items) = (conn.io_loop, destroy_conn conn.id) ∷ farewells items

-- `items` are the entries of the map in the order in which the loop comes to them, which the
-- std::unordered_map decides.
pub destroy : (items : List (ℕ × Conn)) → TcpServer → TcpServer
unfolding farewells
destroy items s = record s { conns = []; posted = s.posted ++ farewells items }
