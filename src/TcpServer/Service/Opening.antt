-- ===== src/TcpServer/Service/Opening.antt =====
-- The server starts, accepts connections and has them established: each step keeps the phases.
use native.Mathlib.Nat.{mod-eq_of_lt}
use mathlib.Core.Option.{some-injective}
use caimr.Prelude.{
  ℕ, ◌+◌, ◌%◌, ◌^◌, ◌<◌, ◌≡◌, refl, sym, ◌∙◌, subst, inl, inr, Bool-cases, Bytes, some, List, ◌∷◌,
  ◌++◌, ◌==◌, ==_iff, insert, arith,
}
use caimr.Functor.{Functor, establish_conn, listen}
use caimr.LoopPool.{get_next_loop}
use caimr.LoopPool.Rotation.{create-IsValid, start-IsValid, get_next_loop-IsValid}
use caimr.TcpServer.{TcpServer, create, start, enter, new_conn}
use caimr.TcpServer.Counts.{establishes, destroys, tally-append, entries-erase}
use caimr.TcpServer.Balance.{new_conn_lem}
use caimr.TcpServer.Service
use caimr.TcpServer.Service.{Service, fresh, taken, Step, Reach, here, next}
use caimr.TcpServer.Service.Phases.{Phase-eq, Phase-accept, Phase-establish}
use caimr.TcpServer.Service.Counted.{removals, Inv, tally-taken, count-on, count-off}

pub fresh-Inv : (loop : ℕ) (ip_port name : Bytes) → Inv (fresh loop ip_port name)
unfolding create
fresh-Inv loop ip_port name = record {
  pool = create-IsValid loop;
  positive = omega arith;
  each = λ id. (refl, ground arith, ground arith, refl, refl);
}

pub starts-Inv :
    (start_loop : ℕ → ℕ) (s : Service)
    → Inv s
    → Inv (record s { server = start start_loop s.server })
unfolding start
starts-Inv start_loop s v = elim (Bool-cases (s.server.started == 0)) [
  | inr again ↦ simp again (record { pool = v.pool; positive = v.positive; each = v.each })
  | inl first ↦ simp first (record {
    pool = start-IsValid start_loop _ s.server.thread_pool v.pool;
    positive = v.positive;
    each = λ id.
        Phase-eq (s.state id) (s.registered id) refl
          (omega (arith, tally-append (establishes id) s.server.posted s.server.loop listen))
          (omega (arith, tally-append (removals id) s.server.posted s.server.loop listen))
          (omega (arith, tally-append (destroys id) s.server.posted s.server.loop listen)) refl
          (v.each id);
  })
]

pub establishes-Inv :
    (before after : List (ℕ × Functor)) (l k : ℕ) (s : Service)
    → s.server.posted ≡ before ++ (l, establish_conn k) ∷ after
    → Inv s
    → Inv (Service.establish k (taken before after s))
establishes-Inv before after l k s p v = record {
  pool = v.pool;
  positive = v.positive;
  each = λ id.
      let count =
        λ (w : Functor → ℕ). tally-taken w before after l (establish_conn k) s.server.posted p in
      elim (Bool-cases (k == id)) [
        | inl on ↦ simp on (
            Phase-establish (s.state id) (s.registered id) _ _ _ _ _ (ground arith) (
              Phase-eq (s.state id) (s.registered id) refl
                (omega (arith, count (establishes id), count-on k id on))
                (omega (arith, count (removals id))) (omega (arith, count (destroys id))) refl
                (v.each id)))
        | inr off ↦ simp off (
            Phase-eq (s.state id) (s.registered id) refl
              (omega (arith, count (establishes id), count-off k id off))
              (omega (arith, count (removals id))) (omega (arith, count (destroys id))) refl
              (v.each id))
      ];
}

pub listens-Inv :
    (before after : List (ℕ × Functor)) (l : ℕ) (s : Service)
    → s.server.posted ≡ before ++ (l, listen) ∷ after
    → Inv s
    → Inv (taken before after s)
listens-Inv before after l s p v = record {
  pool = v.pool;
  positive = v.positive;
  each = λ id.
      let count = λ (w : Functor → ℕ). tally-taken w before after l listen s.server.posted p in
      Phase-eq (s.state id) (s.registered id) refl (omega (arith, count (establishes id)))
        (omega (arith, count (removals id))) (omega (arith, count (destroys id))) refl (v.each id);
}

enter-Inv :
    (sockfd io_loop : ℕ) (s : Service)
    → s.server.next_conn_id + 1 < 2 ^ 32
    → Inv s
    → Inv (record s { server = enter sockfd io_loop s.server })
unfolding insert
enter-Inv sockfd io_loop s small v =
    let k = s.server.next_conn_id in
    let next : (k + 1) % 2 ^ 32 ≡ k + 1 = mod-eq_of_lt small in
    let f = establish_conn k in
    record {
      pool = v.pool;
      positive = omega (arith, next);
      each = λ id.
          let put = λ (w : Functor → ℕ). tally-append w s.server.posted io_loop f in
          let old = entries-erase k id s.server.conns in
          rw next elim (Bool-cases (k == id)) [
            | inl on ↦
                let same = (==_iff k id).0 on in
                Phase-eq (s.state id) (s.registered id) (ground (arith, same, v.positive))
                  (omega (arith, put (establishes id), count-on k id on))
                  (omega (arith, put (removals id))) (omega (arith, put (destroys id)))
                  (ground (arith, old, on))
                  (Phase-accept (s.state id) (s.registered id) _ _ _ _ (
                    Phase-eq (s.state id) (s.registered id) (ground (arith, same)) refl refl refl
                      refl (v.each id)))
            | inr off ↦
                Phase-eq (s.state id) (s.registered id) (ground (arith, off))
                  (omega (arith, put (establishes id), count-off k id off))
                  (omega (arith, put (removals id))) (omega (arith, put (destroys id)))
                  (ground (arith, old, off)) (v.each id)
          ];
    }

pub accepts-Inv :
    (sockfd : ℕ) (s : Service) (t : TcpServer)
    → s.server.next_conn_id + 1 < 2 ^ 32
    → new_conn sockfd s.server ≡ some t
    → Inv s
    → Inv (record s { server = t })
accepts-Inv sockfd s t small e v =
    let (l, (_, placed)) = new_conn_lem sockfd s.server v.pool in
    let v' : Inv (record s {
      server = record (s.server) { thread_pool = (get_next_loop s.server.thread_pool).1 };
    }) =
      record {
        pool = (get_next_loop-IsValid s.server.thread_pool v.pool).1;
        positive = v.positive;
        each = v.each;
      } in
    subst (λ u. Inv (record s { server = u })) (some-injective _ t (sym placed ∙ e))
      (enter-Inv sockfd l _ small v')
