-- ===== src/TcpServer/Lifecycle.antt =====
-- How often the server has a connection established and destroyed.
use caimr.Prelude.{List, ℕ, ◌+◌, ◌^◌, ◌≤◌, ◌<◌, ◌≡◌, refl, sym, ◌∙◌, Bytes, some, lookup, arith}
use mathlib.Core.List.{Perm}
use caimr.LoopPool.Rotation.{set_thread_num-IsValid}
use caimr.TcpServer.{
  TcpServer, Conn, UserCallbacks, create, set_thread_num, start, new_conn, remove_conn,
  remove_conn_in_loop, farewells, destroy,
}
use caimr.TcpServer.Counts.{
  entries, establishes, destroys, established, destroyed, tally-concat, tally-farewells,
  tally-farewells-perm, establishes-farewells,
}
use caimr.TcpServer.Balance.{
  Inv, create-Inv, post-Inv, start-Inv, new_conn-Inv, remove_conn_in_loop-Inv,
}

-- The server's life up to 2^32 - 1 connections, each of which is removed once: `removes` is about a
-- connection that is in the map.
pub data Step (s : TcpServer) : TcpServer → Type 0 where
  sets : (num_threads : ℕ) → s.started ≡ 0 → Step s (set_thread_num num_threads s)
  configures : (callbacks : UserCallbacks) → Step s (record s { callbacks = callbacks })
  starts : (start_loop : ℕ → ℕ) → Step s (start start_loop s)
  accepts :
      {s' : TcpServer} (sockfd : ℕ)
      → s.next_conn_id + 1 < 2 ^ 32
      → new_conn sockfd s ≡ some s'
      → Step s s'
  closes : (conn : Conn) → Step s (remove_conn conn s)
  removes : (conn : Conn) → lookup conn.id s.conns ≡ some conn → Step s (remove_conn_in_loop conn s)

pub data Reach (loop : ℕ) : TcpServer → Type 0 where
  here : (ip_port name : Bytes) → Reach loop (create loop ip_port name)
  next : {s s' : TcpServer} → Reach loop s → Step s s' → Reach loop s'

step-Inv : {s s' : TcpServer} → Step s s' → Inv s → Inv s'
unfolding set_thread_num remove_conn
step-Inv {s} (sets num_threads idle) v = record {
  pool = set_thread_num-IsValid num_threads s.thread_pool v.pool;
  positive = v.positive;
  keyed = v.keyed;
  created = v.created;
  balance = v.balance;
}
step-Inv {s} (configures callbacks) v = record {
  pool = v.pool;
  positive = v.positive;
  keyed = v.keyed;
  created = v.created;
  balance = v.balance;
}
step-Inv {s} (starts start_loop) v = start-Inv start_loop s v
step-Inv {s} {s'} (accepts sockfd small e) v = new_conn-Inv sockfd s s' small e v
step-Inv {s} (closes conn) v = post-Inv s.loop _ s (λ id. (refl, refl)) v
step-Inv {s} (removes conn held) v = remove_conn_in_loop-Inv conn s held v

pub Reach-Inv : {loop : ℕ} {s : TcpServer} → Reach loop s → Inv s
Reach-Inv {loop} (here ip_port name) = create-Inv loop ip_port name
Reach-Inv (next r st) = step-Inv st (Reach-Inv r)

-- Whatever the order of accepts and removals, in the life of a server of less than 2^32 - 1
-- connections that are each removed once: a connection is handed to its loop to be established at
-- most once, and each that was stands either in the map, not yet destroyed, or has been handed to
-- its loop to be destroyed once.
pub one_life :
    {loop : ℕ} {s : TcpServer}
    → Reach loop s
    → (id : ℕ) → (established id s ≡ destroyed id s + entries id s.conns) × (established id s ≤ 1)
one_life {s = s} r id =
    let v = Reach-Inv r in (v.created id ∙ sym (v.balance id), ground (arith, v.created id))

-- When such a server is destroyed, in whatever order its map gives the connections that are left,
-- every connection that it had handed to a loop to be established has been handed to be destroyed
-- exactly as often, and the destructor establishes none.
pub destroyed_in_the_end :
    {loop : ℕ} {s : TcpServer}
    → Reach loop s
    → (items : List (ℕ × Conn)) → Perm items s.conns
    → (id : ℕ)
    → (destroyed id (destroy items s) ≡ established id (destroy items s))
      × (established id (destroy items s) ≡ established id s)
unfolding destroy
destroyed_in_the_end {s = s} r items p id =
    let v = Reach-Inv r in
    let d = tally-concat (destroys id) s.posted (farewells items) in
    let e = tally-concat (establishes id) s.posted (farewells items) in
    let d' =
      tally-farewells-perm (destroys id) items s.conns p ∙ tally-farewells id s.conns v.keyed in
    let e' = establishes-farewells id items in
    (omega (arith, d, e, d', e', v.created id, v.balance id), omega (arith, e, e'))
