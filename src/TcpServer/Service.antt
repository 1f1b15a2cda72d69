-- ===== src/TcpServer/Service.antt =====
-- The server together with its connections and the loops that run what it posts
-- (src/net/tcp_server.cpp, src/net/tcp_conn.cpp): connections are accepted, established, closed by
-- their peers, removed and destroyed, in any interleaving. Of a connection only its state and whether
-- the kernel watches it are followed; TcpConn/Phases compares this with TcpConn.
pub mod Phases
pub mod Counted
mod Opening
mod Closing
pub mod Kept
use caimr.Prelude.{
  ℕ, ◌+◌, ◌<◌, ◌^◌, ◌≡◌, Bool, true, false, some, Bytes, List, ◌∷◌, ◌++◌, ◌==◌, if◌then◌else◌,
}
use caimr.Functor.{Functor, establish_conn, destroy_conn, listen}
use caimr.Functor as Functor
use caimr.TcpConn.{State, connenting, connected, disconnenting, disconnected, is_state}
use caimr.TcpServer.{
  TcpServer, Conn, UserCallbacks, create, set_thread_num, start, new_conn, remove_conn,
  remove_conn_in_loop,
}

-- In `server.posted` stand the functors that have not been run yet.
pub record Service : Type 0 where
  pub server : TcpServer
  pub state : ℕ → State
  pub registered : ℕ → Bool

abbrev pub assign {ℓ} : {A : Type ℓ} → ℕ → A → (ℕ → A) → ℕ → A
assign id a f j = if id == j then a else f j

abbrev pub fresh : ℕ → (ip_port name : Bytes) → Service
fresh loop ip_port name = record {
  server = create loop ip_port name;
  state = λ id. connenting;
  registered = λ id. false;
}

-- A functor taken out of those that wait.
abbrev pub taken : List (ℕ × Functor) → List (ℕ × Functor) → Service → Service
taken before after s = record s { server = record (s.server) { posted = before ++ after } }

-- `tcp_conn::establish_conn`
abbrev pub establish : ℕ → Service → Service
establish id s = record s {
  state = assign id connected s.state;
  registered = assign id true s.registered;
}

abbrev pub destroyed_state : State → State
destroyed_state state = if is_state state connected then disconnected else state

-- `tcp_conn::destroy_conn`
abbrev pub destroy_in_loop : ℕ → Service → Service
destroy_in_loop id s = record s {
  state = assign id (destroyed_state (s.state id)) s.state;
  registered = assign id false s.registered;
}

-- `tcp_conn::handle_close`, with `remove_conn` as the close callback. The kernel goes on reporting a
-- hang-up to a channel that wants no events, so it may come again until the connection is destroyed.
abbrev pub close : Conn → Service → Service
close conn s = record s {
  server = remove_conn conn s.server;
  state = assign conn.id disconnected s.state;
}

-- The functors run in any order: what `run_in_loop` runs at once is run before what waits.
pub data Step (s : Service) : Service → Type 0 where
  configures :
      (callbacks : UserCallbacks)
      → Step s (record s { server = record (s.server) { callbacks = callbacks } })
  sets : (num_threads : ℕ) → Step s (record s { server = set_thread_num num_threads s.server })
  starts : (start_loop : ℕ → ℕ) → Step s (record s { server = start start_loop s.server })
  accepts :
      {t : TcpServer} (sockfd : ℕ)
      → s.server.next_conn_id + 1 < 2 ^ 32
      → new_conn sockfd s.server ≡ some t
      → Step s (record s { server = t })
  listens :
      (before after : List (ℕ × Functor)) (l : ℕ)
      → s.server.posted ≡ before ++ (l, listen) ∷ after
      → Step s (taken before after s)
  establishes :
      (before after : List (ℕ × Functor)) (l id : ℕ)
      → s.server.posted ≡ before ++ (l, establish_conn id) ∷ after
      → Step s (establish id (taken before after s))
  shuts :
      (id : ℕ)
      → s.state id ≡ connected
      → Step s (record s { state = assign id disconnenting s.state })
  closes : (conn : Conn) → s.registered conn.id ≡ true → Step s (close conn s)
  removes :
      (before after : List (ℕ × Functor)) (l : ℕ) (conn : Conn)
      → s.server.posted ≡ before ++ (l, Functor.remove_conn_in_loop conn.id) ∷ after
      → Step s (record s { server = remove_conn_in_loop conn (taken before after s).server })
  destroys :
      (before after : List (ℕ × Functor)) (l id : ℕ)
      → s.server.posted ≡ before ++ (l, destroy_conn id) ∷ after
      → Step s (destroy_in_loop id (taken before after s))

pub data Reach (loop : ℕ) : Service → Type 0 where
  here : (ip_port name : Bytes) → Reach loop (fresh loop ip_port name)
  next : {s t : Service} → Reach loop s → Step s t → Reach loop t
