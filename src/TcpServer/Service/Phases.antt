-- ===== src/TcpServer/Service/Phases.antt =====
-- The phases of a connection, by its state and by the functors that wait for it.
use caimr.Prelude.{ℕ, suc, ◌+◌, ◌≤◌, ◌≡◌, refl, ap, subst, Bool, true, false, arith}
use caimr.TcpConn.{State, connenting, connected, disconnenting, disconnected}
use caimr.TcpServer.Counts.{one_if}
use caimr.TcpServer.Service.{destroyed_state}

-- `i` says whether the id has been given out; `e`, `r` and `d` are the functors that wait to establish,
-- remove and destroy the connection, `m` its entries in the map.
abbrev pub Phase : State → Bool → (i e r d m : ℕ) → Type 0
Phase connenting reg i e r d m = (reg ≡ false) × (e ≡ i) × (m ≡ i) × (r ≡ 0) × (d ≡ 0)
Phase connected reg i e r d m = (reg ≡ true) × (i ≡ 1) × (e ≡ 0) × (m ≡ 1) × (r ≡ 0) × (d ≡ 0)
Phase disconnenting reg i e r d m = (reg ≡ true) × (i ≡ 1) × (e ≡ 0) × (m ≡ 1) × (r ≡ 0) × (d ≡ 0)
Phase disconnected reg i e r d m = (i ≡ 1) × (e ≡ 0) × (m ≤ 1) × (m ≤ r) × (one_if reg ≤ m + d)

pub Phase-eq :
    (st : State) (reg : Bool) {i i' e e' r r' d d' m m' : ℕ}
    → i ≡ i'
    → e ≡ e'
    → r ≡ r'
    → d ≡ d'
    → m ≡ m'
    → Phase st reg i e r d m
    → Phase st reg i' e' r' d' m'
Phase-eq st reg {i} {i'} {e} {e'} {r} {r'} {d} {d'} {m} {m'} hi he hr hd hm p =
    subst (λ x. Phase st reg x e' r' d' m') hi
      (subst (λ x. Phase st reg i x r' d' m') he
        (subst (λ x. Phase st reg i e x d' m') hr
          (subst (λ x. Phase st reg i e r x m') hd (subst (λ x. Phase st reg i e r d x) hm p))))

pub Phase-accept :
    (st : State) (reg : Bool) (e r d m : ℕ) → Phase st reg 0 e r d m → Phase st reg 1 (e + 1) r d 1
Phase-accept connenting reg e r d m (g, a, b, c, f) = (g, omega (arith, a), refl, c, f)
Phase-accept connected reg e r d m p = absurd (omega (arith, p.1))
Phase-accept disconnenting reg e r d m p = absurd (omega (arith, p.1))
Phase-accept disconnected reg e r d m p = absurd (omega (arith, p.0))

pub Phase-establish :
    (st : State) (reg : Bool) (i e r d m : ℕ)
    → i ≤ 1
    → Phase st reg i (suc e) r d m
    → Phase connected true i e r d m
Phase-establish connenting reg i e r d m b (g, a, n, c, f) =
    (refl, omega (arith, a, b), omega (arith, a, b), omega (arith, a, b, n), c, f)
Phase-establish connected reg i e r d m b p = absurd (omega (arith, p.2))
Phase-establish disconnenting reg i e r d m b p = absurd (omega (arith, p.2))
Phase-establish disconnected reg i e r d m b p = absurd (omega (arith, p.1))

pub Phase-shut :
    {reg : Bool} {i e r d m : ℕ} → Phase connected reg i e r d m → Phase disconnenting reg i e r d m
Phase-shut p = p

pub Phase-close :
    (st : State) (reg : Bool) (i e r d m : ℕ)
    → reg ≡ true
    → Phase st reg i e r d m
    → Phase disconnected reg i e (r + 1) d m
Phase-close connenting reg i e r d m on p = absurd cc
Phase-close connected reg i e r d m on (g, a, b, n, c, f) =
    (a, b, omega (arith, n), omega (arith, n), omega (arith, n, ap one_if g))
Phase-close disconnenting reg i e r d m on (g, a, b, n, c, f) =
    (a, b, omega (arith, n), omega (arith, n), omega (arith, n, ap one_if g))
Phase-close disconnected reg i e r d m on (a, b, n, c, f) = (a, b, n, omega (arith, c), f)

pub Phase-remove :
    (st : State) (reg : Bool) (i e r d m : ℕ)
    → Phase st reg i e (suc r) d m
    → Phase st reg i e r (d + 1) 0
Phase-remove connenting reg i e r d m p = absurd (omega (arith, p.3))
Phase-remove connected reg i e r d m p = absurd (omega (arith, p.4))
Phase-remove disconnenting reg i e r d m p = absurd (omega (arith, p.4))
Phase-remove disconnected true i e r d m (a, b, n, c, f) =
    (a, b, omega arith, omega arith, omega arith)
Phase-remove disconnected false i e r d m (a, b, n, c, f) =
    (a, b, omega arith, omega arith, omega arith)

pub Phase-destroy :
    (st : State) (reg : Bool) (i e r d m : ℕ)
    → Phase st reg i e r (suc d) m
    → Phase (destroyed_state st) false i e r d m
Phase-destroy connenting reg i e r d m p = absurd (omega (arith, p.4))
Phase-destroy connected reg i e r d m p = absurd (omega (arith, p.5))
Phase-destroy disconnenting reg i e r d m p = absurd (omega (arith, p.5))
Phase-destroy disconnected reg i e r d m (a, b, n, c, f) = (a, b, n, c, omega arith)
