-- ===== src/TcpServer/Balance.antt =====
-- What every operation of the server (src/net/tcp_server.cpp) keeps: the counts of what has been handed
-- to the loops fit the ids given out and the map.
use caimr.Prelude.{
  ℕ, ◌+◌, ◌%◌, ◌^◌, ◌≤◌, ◌<◌, ◌≡◌, refl, sym, ap, ◌∙◌, subst, inl, inr, Bool-cases, Bytes, ◌&&◌,
  some, ltb, leb, ◌==◌, insert, lookup, arith,
}
use caimr.Functor.{Functor, establish_conn, destroy_conn, listen}
use mathlib.Core.Option.{some-injective}
use native.Mathlib.Nat.{mod-eq_of_lt}
use caimr.LoopPool.{get_next_loop}
use caimr.LoopPool.Rotation.{IsValid, create-IsValid, start-IsValid, get_next_loop-IsValid}
use caimr.TcpServer.{
  TcpServer, Conn, create, post, start, admit, enter, new_conn, remove_conn_in_loop,
}
use caimr.TcpServer.Counts.{
  one_if, entries, establishes, destroys, established, destroyed, tally-append, entries-erase,
  entries-lookup, Keyed, erase-Keyed,
}

-- 1 for the ids that have been given out.
abbrev pub issued : ℕ → TcpServer → ℕ
issued id s = one_if (leb 1 id && ltb id s.next_conn_id)

pub record Inv (s : TcpServer) : Type 0 where
  pub pool : IsValid s.thread_pool
  pub positive : 1 ≤ s.next_conn_id
  pub keyed : Keyed s.conns
  pub created : (id : ℕ) → established id s ≡ issued id s
  pub balance : (id : ℕ) → destroyed id s + entries id s.conns ≡ issued id s

pub create-Inv : (loop : ℕ) (ip_port name : Bytes) → Inv (create loop ip_port name)
unfolding create
create-Inv loop ip_port name = record {
  pool = create-IsValid loop;
  positive = omega arith;
  keyed = tt;
  created = λ id. ground arith;
  balance = λ id. ground arith;
}

-- Posting anything but the two calls that are counted changes no count.
pub post-Inv :
    (loop : ℕ) (f : Functor) (s : TcpServer)
    → ((id : ℕ) → (establishes id f ≡ 0) × (destroys id f ≡ 0))
    → Inv s
    → Inv (post loop f s)
post-Inv loop f s h v = record {
  pool = v.pool;
  positive = v.positive;
  keyed = v.keyed;
  created =
      λ id. omega (arith, tally-append (establishes id) s.posted loop f, (h id).0, v.created id);
  balance = λ id. omega (arith, tally-append (destroys id) s.posted loop f, (h id).1, v.balance id);
}

pub start-Inv : (start_loop : ℕ → ℕ) (s : TcpServer) → Inv s → Inv (start start_loop s)
unfolding start
start-Inv start_loop s v = elim (Bool-cases (s.started == 0)) [
  | inr again ↦ simp again (record {
    pool = v.pool;
    positive = v.positive;
    keyed = v.keyed;
    created = v.created;
    balance = v.balance;
  })
  | inl first ↦ simp first (
      post-Inv s.loop listen _ (λ id. (refl, refl))
        (record {
          pool = start-IsValid start_loop _ s.thread_pool v.pool;
          positive = v.positive;
          keyed = v.keyed;
          created = v.created;
          balance = v.balance;
        }))
]

enter-Inv :
    (sockfd io_loop : ℕ) (s : TcpServer)
    → s.next_conn_id + 1 < 2 ^ 32
    → Inv s
    → Inv (enter sockfd io_loop s)
unfolding insert
enter-Inv sockfd io_loop s small v =
    let next : (s.next_conn_id + 1) % 2 ^ 32 ≡ s.next_conn_id + 1 = mod-eq_of_lt small in
    let f = establish_conn s.next_conn_id in
    record {
      pool = v.pool;
      positive = omega (arith, next);
      keyed = (refl, erase-Keyed s.next_conn_id s.conns v.keyed);
      created = λ id. rw next (
          ground
            (arith, tally-append (establishes id) s.posted io_loop f, v.created id, v.positive));
      balance = λ id. rw next (
          ground (
            arith,
            tally-append (destroys id) s.posted io_loop f,
            entries-erase s.next_conn_id id s.conns,
            v.balance id,
            v.positive,
          ));
    }

-- `new_conn` never fails, and enters the connection.
pub new_conn_lem :
    (sockfd : ℕ) (s : TcpServer)
    → IsValid s.thread_pool
    → (l : ℕ) × (((get_next_loop s.thread_pool).0 ≡ some l)
        × (new_conn sockfd s
            ≡ some (enter sockfd l (record s { thread_pool = (get_next_loop s.thread_pool).1 }))))
unfolding new_conn
new_conn_lem sockfd s v =
    let ((l, e), v') = get_next_loop-IsValid s.thread_pool v in
    (
      l,
      (e, ap (λ o. admit sockfd o (record s { thread_pool = (get_next_loop s.thread_pool).1 })) e),
    )

pub new_conn-Inv :
    (sockfd : ℕ) (s s' : TcpServer)
    → s.next_conn_id + 1 < 2 ^ 32
    → new_conn sockfd s ≡ some s'
    → Inv s
    → Inv s'
new_conn-Inv sockfd s s' small e v =
    let (l, (_, placed)) = new_conn_lem sockfd s v.pool in
    let v' : Inv (record s { thread_pool = (get_next_loop s.thread_pool).1 }) = record {
      pool = (get_next_loop-IsValid s.thread_pool v.pool).1;
      positive = v.positive;
      keyed = v.keyed;
      created = v.created;
      balance = v.balance;
    } in
    subst Inv (some-injective _ s' (sym placed ∙ e)) (enter-Inv sockfd l _ small v')

pub remove_conn_in_loop-Inv :
    (conn : Conn) (s : TcpServer)
    → lookup conn.id s.conns ≡ some conn
    → Inv s
    → Inv (remove_conn_in_loop conn s)
unfolding remove_conn_in_loop
remove_conn_in_loop-Inv conn s held v = record {
  pool = v.pool;
  positive = v.positive;
  keyed = erase-Keyed conn.id s.conns v.keyed;
  created = λ id. omega (
    arith,
    tally-append (establishes id) s.posted conn.io_loop (destroy_conn conn.id),
    v.created id,
  );
  balance = λ id. ground (
    arith,
    tally-append (destroys id) s.posted conn.io_loop (destroy_conn conn.id),
    entries-erase conn.id id s.conns,
    entries-lookup conn.id conn s.conns held,
    v.balance id,
    v.balance conn.id,
  );
}
