-- ===== src/TcpServer/Service/Closing.antt =====
-- Connections are shut down, closed, removed and destroyed: each step keeps the phases.
use caimr.Prelude.{
  ℕ, ◌≡◌, refl, sym, ap, ◌∙◌, subst, inl, inr, Bool-cases, true, false, List, ◌∷◌, ◌++◌, ◌==◌,
  ==_iff, arith,
}
use caimr.Functor.{Functor, destroy_conn}
use caimr.TcpConn.{State}
use caimr.TcpServer.{Conn, remove_conn, remove_conn_in_loop}
use caimr.TcpServer.Counts.{establishes, destroys, tally, tally-append, entries-erase}
use caimr.TcpServer.Service
use caimr.TcpServer.Service.{Service, fresh, taken, Step, Reach, here, next}
use caimr.TcpServer.Service.Phases.{Phase-eq, Phase-shut, Phase-close, Phase-remove, Phase-destroy}
use caimr.TcpServer.Service.Counted.{removals, PhaseOf, Inv, tally-taken, count-on, count-off}

pub shuts-Inv :
    (k : ℕ) (s : Service)
    → s.state k ≡ State.connected
    → Inv s
    → Inv (record s { state = Service.assign k State.disconnenting s.state })
shuts-Inv k s h v = record {
  pool = v.pool;
  positive = v.positive;
  each = λ id. elim (Bool-cases (k == id)) [
    | inl on ↦ simp on (
        Phase-shut (
          subst (λ st. PhaseOf s.server st (s.registered id) id)
            (ap s.state (sym ((==_iff k id).0 on)) ∙ h) (v.each id)))
    | inr off ↦ simp off (v.each id)
  ];
}

pub closes-Inv :
    (conn : Conn) (s : Service) → s.registered conn.id ≡ true → Inv s → Inv (Service.close conn s)
unfolding remove_conn
closes-Inv conn s h v = record {
  pool = v.pool;
  positive = v.positive;
  each = λ id.
      let f = Functor.remove_conn_in_loop conn.id in
      let count = λ (w : Functor → ℕ). tally-append w s.server.posted s.server.loop f in
      elim (Bool-cases (conn.id == id)) [
        | inl on ↦ simp on (
            Phase-eq State.disconnected (s.registered id) refl
              (omega (arith, count (establishes id)))
              (omega (arith, count (removals id), count-on conn.id id on))
              (omega (arith, count (destroys id))) refl
              (Phase-close (s.state id) (s.registered id) _ _ _ _ _
                (ap s.registered (sym ((==_iff conn.id id).0 on)) ∙ h) (v.each id)))
        | inr off ↦ simp off (
            Phase-eq (s.state id) (s.registered id) refl (omega (arith, count (establishes id)))
              (omega (arith, count (removals id), count-off conn.id id off))
              (omega (arith, count (destroys id))) refl (v.each id))
      ];
}

pub removes-Inv :
    (before after : List (ℕ × Functor)) (l : ℕ) (conn : Conn) (s : Service)
    → s.server.posted ≡ before ++ (l, Functor.remove_conn_in_loop conn.id) ∷ after
    → Inv s
    → Inv (record s { server = remove_conn_in_loop conn (taken before after s).server })
unfolding remove_conn_in_loop
removes-Inv before after l conn s p v = record {
  pool = v.pool;
  positive = v.positive;
  each = λ id.
      let f = Functor.remove_conn_in_loop conn.id in
      let out = λ (w : Functor → ℕ). tally-taken w before after l f s.server.posted p in
      let put =
        λ (w : Functor → ℕ). tally-append w (before ++ after) conn.io_loop (destroy_conn conn.id) in
      elim (Bool-cases (conn.id == id)) [
        | inl on ↦
            Phase-eq (s.state id) (s.registered id) refl
              (omega (arith, put (establishes id), out (establishes id)))
              (omega (arith, put (removals id)))
              (omega (arith, put (destroys id), out (destroys id), count-on conn.id id on))
              (ground (arith, entries-erase conn.id id s.server.conns, on))
              (Phase-remove (s.state id) (s.registered id) _ _
                (tally (removals id) (before ++ after)) _ _
                (Phase-eq (s.state id) (s.registered id) refl refl
                  (omega (arith, out (removals id), count-on conn.id id on)) refl refl (v.each id)))
        | inr off ↦
            Phase-eq (s.state id) (s.registered id) refl
              (omega (arith, put (establishes id), out (establishes id)))
              (omega (arith, put (removals id), out (removals id), count-off conn.id id off))
              (omega (arith, put (destroys id), out (destroys id), count-off conn.id id off))
              (ground (arith, entries-erase conn.id id s.server.conns, off)) (v.each id)
      ];
}

pub destroys-Inv :
    (before after : List (ℕ × Functor)) (l k : ℕ) (s : Service)
    → s.server.posted ≡ before ++ (l, destroy_conn k) ∷ after
    → Inv s
    → Inv (Service.destroy_in_loop k (taken before after s))
destroys-Inv before after l k s p v = record {
  pool = v.pool;
  positive = v.positive;
  each = λ id.
      let out =
        λ (w : Functor → ℕ). tally-taken w before after l (destroy_conn k) s.server.posted p in
      elim (Bool-cases (k == id)) [
        | inl on ↦
            let same = (==_iff k id).0 on in
            simp on (
              subst
                (λ j.
                  PhaseOf (taken before after s).server (Service.destroyed_state (s.state j)) false
                    id)
                (sym same)
                (Phase-destroy (s.state id) (s.registered id) _
                  (tally (establishes id) (before ++ after)) (tally (removals id) (before ++ after))
                  (tally (destroys id) (before ++ after)) _
                  (Phase-eq (s.state id) (s.registered id) refl
                    (omega (arith, out (establishes id))) (omega (arith, out (removals id)))
                    (omega (arith, out (destroys id), count-on k id on)) refl (v.each id))))
        | inr off ↦ simp off (
            Phase-eq (s.state id) (s.registered id) refl (omega (arith, out (establishes id)))
              (omega (arith, out (removals id)))
              (omega (arith, out (destroys id), count-off k id off)) refl (v.each id))
      ];
}
