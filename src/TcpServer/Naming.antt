-- ===== src/TcpServer/Naming.antt =====
-- The names that the server gives to its connections.
use caimr.Prelude.{
  ℕ, ◌^◌, ◌≤◌, ◌<◌, ◌≡◌, ◌≢◌, sym, ap, ◌∙◌, Bytes, [], ◌∷◌, ◌++◌, append_assoc, length,
  length-append, take_all, arith, ◌+◌, ◌==◌, ==_iff, Option, none, some, lookup, lookup-insert,
  lookup-erase, Bool-cases, inl, inr, subst,
}
use caimr.LogStream.{decimal}
use caimr.LogStream.Decimal.{length-decimal}
use caimr.Thread.{as_int}
use caimr.Thread.Names.{decimal-injective}
use caimr.Address.{Inet, Address, to_ip_port}
use caimr.Address.Text.{to_ip_port-whole}
use native.Mathlib.Nat.{mod-eq_of_lt}
use mathlib.Core.Option.{some-injective}
use caimr.LoopPool.{get_next_loop}
use caimr.TcpServer.{
  TcpServer, Conn, conn_name, create, set_thread_num, start, enter, remove_conn,
  remove_conn_in_loop,
}
use caimr.TcpServer.Balance.{Inv, new_conn_lem}
use caimr.TcpServer.Lifecycle.{
  Step, sets, configures, starts, accepts, closes, removes, Reach, here, next, Reach-Inv,
}

-- What stands in front of the id.
label : (name ip_port : Bytes) → Bytes
label name ip_port = name ++ 45 ∷ ip_port

append-cancel : (xs ys zs : Bytes) → xs ++ ys ≡ xs ++ zs → ys ≡ zs
append-cancel [] ys zs e = e
append-cancel (x ∷ xs) ys zs e = let tail : xs ++ ys ≡ xs ++ zs = cc in append-cancel xs ys zs tail

conn_name-whole :
    (name ip_port : Bytes) (id : ℕ)
    → length ip_port ≤ 37
    → conn_name name ip_port id ≡ label name ip_port ++ 35 ∷ decimal (as_int id)
unfolding conn_name label
conn_name-whole name ip_port id short =
    ap (λ t. name ++ t)
      (take_all 63 (45 ∷ (ip_port ++ 35 ∷ decimal (as_int id))) (
        omega (
          arith,
          length-append ip_port (35 ∷ decimal (as_int id)),
          length-decimal (as_int id),
          short,
        )))
    ∙ sym (append_assoc name (45 ∷ ip_port) (35 ∷ decimal (as_int id)))

-- The buffer has room for whatever the text of the server's address is, so that a name ends with the
-- whole decimal text of the id, as an int of 32 bits.
conn_name-differ :
    (net : Inet) (a : Address net) (name : Bytes) (m n : ℕ)
    → m < 2 ^ 32
    → n < 2 ^ 32
    → m ≢ n
    → conn_name name (to_ip_port net a) m ≢ conn_name name (to_ip_port net a) n
conn_name-differ net a name m n small small' ne e =
    let ip_port = to_ip_port net a in
    let short = (to_ip_port-whole net a).1 in
    let same : 35 ∷ decimal (as_int m) ≡ 35 ∷ decimal (as_int n) =
      append-cancel (label name ip_port) (35 ∷ decimal (as_int m)) (35 ∷ decimal (as_int n))
        (sym (conn_name-whole name ip_port m short) ∙ e ∙ conn_name-whole name ip_port n short) in
    ne (decimal-injective m n small small' cc)

-- A connection that stands under the id in the map has the id's name.
NamedAt : (name ip_port : Bytes) → (id : ℕ) → Option Conn → Type 0
NamedAt name ip_port id none = Unit {0}
NamedAt name ip_port id (some conn) = (conn.name ≡ conn_name name ip_port id) × (id < 2 ^ 32)

record Named (s : TcpServer) : Type 0 where
  next : s.next_conn_id < 2 ^ 32
  each : (id : ℕ) → NamedAt s.name s.ip_port id (lookup id s.conns)

enter-Named :
    (sockfd io_loop : ℕ) (s : TcpServer)
    → s.next_conn_id + 1 < 2 ^ 32
    → Named s
    → Named (enter sockfd io_loop s)
unfolding NamedAt
enter-Named sockfd io_loop s small v = record {
  next = omega (arith, mod-eq_of_lt small);
  each = λ id. elim (Bool-cases (s.next_conn_id == id)) [
    | inl same ↦
        let e = (==_iff s.next_conn_id id).0 same in
        simp (lookup-insert {V = Conn} s.next_conn_id id, same)
          (ap (conn_name s.name s.ip_port) e, subst (λ k. k < 2 ^ 32) e v.next)
    | inr other ↦ simp (lookup-insert {V = Conn} s.next_conn_id id, other) (v.each id)
  ];
}

remove_conn_in_loop-Named :
    (gone : Conn) (s : TcpServer) → Named s → Named (remove_conn_in_loop gone s)
unfolding remove_conn_in_loop NamedAt
remove_conn_in_loop-Named gone s v = record {
  next = v.next;
  each = λ id. elim (Bool-cases (gone.id == id)) [
    | inl same ↦ simp (lookup-erase gone.id id s.conns, same) tt
    | inr other ↦ simp (lookup-erase gone.id id s.conns, other) (v.each id)
  ];
}

named :
    (name ip_port : Bytes) (id : ℕ) (conn : Conn) (o : Option Conn)
    → o ≡ some conn
    → NamedAt name ip_port id o
    → (conn.name ≡ conn_name name ip_port id) × (id < 2 ^ 32)
unfolding NamedAt
named name ip_port id conn o h v = subst (NamedAt name ip_port id) h v

start-Named : (start_loop : ℕ → ℕ) (s : TcpServer) → Named s → Named (start start_loop s)
unfolding start
start-Named start_loop s v = elim (Bool-cases (s.started == 0)) [
  | inl first ↦ simp first (record { next = v.next; each = v.each })
  | inr again ↦ simp again (record { next = v.next; each = v.each })
]

step-Named : {s s' : TcpServer} → Step s s' → Inv s → Named s → Named s'
unfolding set_thread_num remove_conn
step-Named (sets num_threads idle) i v = record { next = v.next; each = v.each }
step-Named (configures callbacks) i v = record { next = v.next; each = v.each }
step-Named {s} (starts start_loop) i v = start-Named start_loop s v
step-Named {s} {s'} (accepts sockfd small e) i v =
    let (l, (_, placed)) = new_conn_lem sockfd s i.pool in
    subst Named (some-injective _ s' (sym placed ∙ e)) (
      enter-Named sockfd l (record s { thread_pool = (get_next_loop s.thread_pool).1 }) small
        (record { next = v.next; each = v.each }))
step-Named (closes conn) i v = record { next = v.next; each = v.each }
step-Named {s} (removes conn held) i v = remove_conn_in_loop-Named conn s v

Reach-Named : {loop : ℕ} {s : TcpServer} → Reach loop s → Named s
unfolding create lookup NamedAt
Reach-Named (here ip_port name) = record { next = omega arith; each = λ id. tt }
Reach-Named (next r st) = step-Named st (Reach-Inv r) (Reach-Named r)

-- Connections of a server of less than 2^32 - 1 connections do not share a name: if two stand in the
-- map under different ids, be it at the same time or at different times in the life of the server,
-- with its name and the text of its address, they have different names.
pub conn_names_differ :
    (net : Inet) (a : Address net) {loop : ℕ} {s s' : TcpServer}
    → Reach loop s
    → Reach loop s'
    → s.ip_port ≡ to_ip_port net a
    → s'.ip_port ≡ s.ip_port
    → s'.name ≡ s.name
    → (m n : ℕ) (c d : Conn) → lookup m s.conns ≡ some c
    → lookup n s'.conns ≡ some d
    → m ≢ n
    → c.name ≢ d.name
conn_names_differ net a {loop} {s} {s'} r r' text ip_port name m n c d h h' ne e =
    let (first, small) = named s.name s.ip_port m c _ h ((Reach-Named r).each m) in
    let (second, small') = named s'.name s'.ip_port n d _ h' ((Reach-Named r').each n) in
    conn_name-differ net a s.name m n small small' ne (
      ap (λ t. conn_name s.name t m) (sym text)
      ∙ sym first
      ∙ e
      ∙ second
      ∙ ap (λ t. conn_name t s'.ip_port n) name
      ∙ ap (λ t. conn_name s.name t n) (ip_port ∙ text))
