-- ===== src/Functor.antt =====
-- The functors that src/net/tcp_conn.cpp and src/net/tcp_server.cpp bind and queue in a loop
-- (`eloop::functor` is a std::function), each with the id of the connection that it is for.
use caimr.Prelude.{ℕ}

-- `send_in_loop` is bound to the address and the length of the data, not to a copy.
pub data Functor : Type 0 where
  send_in_loop : (conn ptr len : ℕ) → Functor
  shutdown_in_loop establish_conn destroy_conn write_complete : (conn : ℕ) → Functor
  high_water_mark : (conn len : ℕ) → Functor
  remove_conn_in_loop : (conn : ℕ) → Functor
  listen : Functor
