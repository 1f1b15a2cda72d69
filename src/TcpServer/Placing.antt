-- ===== src/TcpServer/Placing.antt =====
-- What `new_conn` of src/net/tcp_server.cpp does for a new connection.
use caimr.Prelude.{
  Bytes, ℕ, ◌+◌, ◌<◌, ◌^◌, ◌≡◌, refl, none, some, [], ◌∷◌, ◌++◌, lookup, insert, lookup-erase, ◌≢◌,
  arith,
}
use native.Mathlib.Nat.{mod-eq_of_lt}
use caimr.Functor.{establish_conn}
use caimr.LoopPool.{get_next_loop}
use caimr.TcpServer.{TcpServer, Conn, UserCallbacks, new_conn, conn_name, conn_callbacks}
use caimr.TcpServer.Counts.{lookup-none}
use caimr.TcpServer.Balance.{new_conn_lem}
use caimr.TcpServer.Lifecycle.{Reach, Reach-Inv}

-- What the connections of a server have in common.
pub record Config : Type 0 where
  pub name : Bytes
  pub ip_port : Bytes
  pub callbacks : UserCallbacks

abbrev pub config : TcpServer → Config
config s = record { name = s.name; ip_port = s.ip_port; callbacks = s.callbacks }

-- A new connection of such a server.
abbrev pub conn_of : Config → (id io_loop sockfd : ℕ) → Conn
conn_of f id io_loop sockfd = record {
  id = id;
  io_loop = io_loop;
  sockfd = sockfd;
  name = conn_name f.name f.ip_port id;
  callbacks = conn_callbacks f.callbacks;
}

-- What `new_conn` makes of a server.
pub record Placed (sockfd : ℕ) (s s' : TcpServer) : Type 0 where
  pub io_loop : ℕ
  pub turn : (get_next_loop s.thread_pool).0 ≡ some io_loop
  pub unused : lookup s.next_conn_id s.conns ≡ none
  pub entry :
      lookup s.next_conn_id s'.conns ≡ some (conn_of (config s) s.next_conn_id io_loop sockfd)
  pub same : config s' ≡ config s
  pub others : (id : ℕ) → id ≢ s.next_conn_id → lookup id s'.conns ≡ lookup id s.conns
  pub call : s'.posted ≡ s.posted ++ (io_loop, establish_conn s.next_conn_id) ∷ []
  pub count : s'.next_conn_id ≡ s.next_conn_id + 1

-- In the life of a server of less than 2^32 - 1 connections `new_conn` never fails: it takes the loop
-- whose turn it is, enters the connection, named by the server and its id and with the callbacks that
-- the server has at the time, under an id that the map did not have, hands it to that loop to be
-- established, and counts the id up.
pub new_conn-Placed :
    {loop : ℕ} {s : TcpServer}
    → Reach loop s
    → (sockfd : ℕ) → s.next_conn_id + 1 < 2 ^ 32
    → (s' : TcpServer) × ((new_conn sockfd s ≡ some s') × Placed sockfd s s')
unfolding lookup insert
new_conn-Placed {s = s} r sockfd small =
    let v = Reach-Inv r in
    let (l, (turn, placed)) = new_conn_lem sockfd s v.pool in
    (
      _,
      (
        placed,
        record {
          io_loop = l;
          turn = turn;
          unused = lookup-none s.next_conn_id s.conns (ground (arith, v.balance s.next_conn_id));
          entry = ground arith;
          same = refl;
          others = λ id ne. ground (arith, lookup-erase s.next_conn_id id s.conns, ne);
          call = refl;
          count = mod-eq_of_lt small;
        },
      ),
    )
