-- ===== src/TcpServer/Service/Kept.antt =====
-- What becomes of the connections of a server, whatever the interleaving.
use caimr.Prelude.{ℕ, ◌+◌, ◌≤◌, ◌<◌, ◌≡◌, refl, ap, ◌⊎◌, inl, inr, Bool, true, false, [], arith}
use caimr.TcpConn.{State}
use caimr.TcpConn.Inputs.{rank}
use caimr.TcpServer.Counts.{entries, establishes, destroys, tally}
use caimr.LoopPool.Rotation.{set_thread_num-IsValid}
use caimr.TcpServer.{set_thread_num}
use caimr.TcpServer.Service
use caimr.TcpServer.Service.{Service, fresh, taken, Step, Reach, here, next}
use caimr.TcpServer.Service.Phases.{Phase, Phase-eq}
use caimr.TcpServer.Service.Counted.{removals, Inv}
use caimr.TcpServer.Service.Opening.{
  fresh-Inv, starts-Inv, listens-Inv, establishes-Inv, accepts-Inv,
}
use caimr.TcpServer.Service.Closing.{shuts-Inv, closes-Inv, removes-Inv, destroys-Inv}

step-Inv : {s t : Service} → Step s t → Inv s → Inv t
unfolding set_thread_num
step-Inv {s} (Service.configures callbacks) v = record {
  pool = v.pool;
  positive = v.positive;
  each = v.each;
}
step-Inv {s} (Service.sets num_threads) v = record {
  pool = set_thread_num-IsValid num_threads s.server.thread_pool v.pool;
  positive = v.positive;
  each = v.each;
}
step-Inv {s} (Service.starts start_loop) v = starts-Inv start_loop s v
step-Inv {s} (Service.accepts {t} sockfd small e) v = accepts-Inv sockfd s t small e v
step-Inv {s} (Service.listens before after l p) v = listens-Inv before after l s p v
step-Inv {s} (Service.establishes before after l id p) v = establishes-Inv before after l id s p v
step-Inv {s} (Service.shuts id h) v = shuts-Inv id s h v
step-Inv {s} (Service.closes conn h) v = closes-Inv conn s h v
step-Inv {s} (Service.removes before after l conn p) v = removes-Inv before after l conn s p v
step-Inv {s} (Service.destroys before after l id p) v = destroys-Inv before after l id s p v

pub Reach-Inv : {loop : ℕ} {s : Service} → Reach loop s → Inv s
Reach-Inv {loop} (here ip_port name) = fresh-Inv loop ip_port name
Reach-Inv (next r st) = step-Inv st (Reach-Inv r)

-- A connection that is up: it stands in the map, the kernel watches it, and it can be closed.
abbrev pub IsUp : Service → ℕ → Type 0
IsUp s id =
    (rank (s.state id) ≡ 1 ⊎ rank (s.state id) ≡ 2)
    × (s.registered id ≡ true)
    × (entries id s.server.conns ≡ 1)

-- A connection that is gone: disconnected, not in the map, and not watched by the kernel.
abbrev pub IsGone : Service → ℕ → Type 0
IsGone s id =
    (s.state id ≡ State.disconnected) × (s.registered id ≡ false) × (entries id s.server.conns ≡ 0)

quiet-Phase :
    (st : State) (reg : Bool) (m : ℕ)
    → Phase st reg 1 0 0 0 m
    → ((rank st ≡ 1 ⊎ rank st ≡ 2) × (reg ≡ true) × (m ≡ 1))
      ⊎ ((st ≡ State.disconnected) × (reg ≡ false) × (m ≡ 0))
quiet-Phase State.connenting reg m p = absurd (omega (arith, p.1))
quiet-Phase State.connected reg m p = inl (inl refl, p.0, p.3)
quiet-Phase State.disconnenting reg m p = inl (inr refl, p.0, p.3)
quiet-Phase State.disconnected true m (a, b, n, c, f) = absurd (omega (arith, c, f))
quiet-Phase State.disconnected false m (a, b, n, c, f) = inr (refl, refl, omega (arith, c))

-- Nothing leaks. When the loops have run all that was posted, every connection that a server of less
-- than 2^32 - 1 connections, with any number of threads, has accepted is either up, in the map and watched by the kernel, or gone
-- from both; and this whatever the order in which connections were accepted, established, shut
-- down, closed, once or several times, removed and destroyed, as long as the server exists.
pub nothing_leaks :
    {loop : ℕ} {s : Service}
    → Reach loop s
    → s.server.posted ≡ []
    → (id : ℕ) → 1 ≤ id
    → id < s.server.next_conn_id
    → IsUp s id ⊎ IsGone s id
nothing_leaks {s = s} r quiet id low high =
    quiet-Phase (s.state id) (s.registered id) (entries id s.server.conns) (
      Phase-eq (s.state id) (s.registered id) (ground arith) (ap (tally (establishes id)) quiet)
        (ap (tally (removals id)) quiet) (ap (tally (destroys id)) quiet) refl
        ((Reach-Inv r).each id))

waiting-Phase :
    (st : State) (reg : Bool) (i e r d m : ℕ)
    → i ≤ 1
    → Phase st reg i e r d m
    → (0 < e → (st ≡ State.connenting) × (reg ≡ false) × (e ≡ 1) × (m ≡ 1))
      × (0 < r + d → st ≡ State.disconnected)
waiting-Phase State.connenting reg i e r d m b (g, a, n, c, f) = (
  λ w. (refl, g, omega (arith, a, b, w), omega (arith, a, b, n, w)),
  λ w. absurd (omega (arith, w, c, f)),
)
waiting-Phase State.connected reg i e r d m b (g, a, h, n, c, f) =
    (λ w. absurd (omega (arith, w, h)), λ w. absurd (omega (arith, w, c, f)))
waiting-Phase State.disconnenting reg i e r d m b (g, a, h, n, c, f) =
    (λ w. absurd (omega (arith, w, h)), λ w. absurd (omega (arith, w, c, f)))
waiting-Phase State.disconnected reg i e r d m b (a, h, n, c, f) =
    (λ w. absurd (omega (arith, w, h)), λ w. refl)

-- What waits in the loops fits the connection it is for. While a call of `establish_conn` waits, it is
-- the only one for its connection, which is still connecting, not watched, and in the map; and while a
-- call of `remove_conn_in_loop` or of `destroy_conn` waits, its connection is disconnected: neither
-- takes down a connection that is up.
waiting_lem :
    {loop : ℕ} {s : Service}
    → Reach loop s
    → (id : ℕ)
    → (0 < tally (establishes id) s.server.posted
        → (s.state id ≡ State.connenting)
          × (s.registered id ≡ false)
          × (tally (establishes id) s.server.posted ≡ 1)
          × (entries id s.server.conns ≡ 1))
      × (0 < tally (removals id) s.server.posted + tally (destroys id) s.server.posted
          → s.state id ≡ State.disconnected)
waiting_lem {s = s} r id =
    waiting-Phase (s.state id) (s.registered id) _ _ _ _ _ (ground arith) ((Reach-Inv r).each id)
