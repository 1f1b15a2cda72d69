-- ===== src/TcpServer/Service/Counted.antt =====
-- The functors that wait for a connection, counted, and the invariant of the service.
use caimr.Prelude.{ℕ, ◌+◌, ◌≤◌, ◌≡◌, ap, Bool, true, false, List, ◌∷◌, ◌++◌, ◌==◌, arith}
use caimr.Functor.{Functor}
use caimr.TcpConn.{State}
use caimr.LoopPool.Rotation.{IsValid}
use caimr.TcpServer.{TcpServer}
use caimr.TcpServer.Counts.{one_if, entries, establishes, destroys, tally, tally-concat}
use caimr.TcpServer.Balance.{issued}
use caimr.TcpServer.Service.{Service}
use caimr.TcpServer.Service.Phases.{Phase}

abbrev pub removals : ℕ → Functor → ℕ
removals id (Functor.remove_conn_in_loop conn) = one_if (conn == id)
removals id _ = 0

-- The phase of a connection, as the server, its state and its registration say.
abbrev pub PhaseOf : TcpServer → State → Bool → ℕ → Type 0
PhaseOf server st reg id =
    Phase st reg (issued id server) (tally (establishes id) server.posted)
      (tally (removals id) server.posted) (tally (destroys id) server.posted)
      (entries id server.conns)

pub record Inv (s : Service) : Type 0 where
  pub pool : IsValid s.server.thread_pool
  pub positive : 1 ≤ s.server.next_conn_id
  pub each : (id : ℕ) → PhaseOf s.server (s.state id) (s.registered id) id

pub tally-taken :
    (w : Functor → ℕ) (before after : List (ℕ × Functor)) (l : ℕ) (f : Functor)
    (posted : List (ℕ × Functor))
    → posted ≡ before ++ (l, f) ∷ after
    → tally w posted ≡ w f + tally w (before ++ after)
tally-taken w before after l f posted p =
    omega
      (arith, ap (tally w) p, tally-concat w before ((l, f) ∷ after), tally-concat w before after)

pub count-on : (k id : ℕ) → (k == id) ≡ true → one_if (k == id) ≡ 1
count-on k id on = ap one_if on

pub count-off : (k id : ℕ) → (k == id) ≡ false → one_if (k == id) ≡ 0
count-off k id off = ap one_if off
