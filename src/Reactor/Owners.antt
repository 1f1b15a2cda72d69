-- ===== src/Reactor/Owners.antt =====
-- Who has registered what in the poller of a reactor: the loop itself, before it had connections, or
-- one of the connections.
use caimr.Prelude.{
  ℕ, ◌≡◌, ◌≢◌, ◌⊎◌, inl, inr, refl, sym, ap, subst, ◌∙◌, suc, false, none, some, [], lookup,
  lookup-insert, lookup-erase, insert, erase, ◌==◌, ==_iff, Bool-cases, arith,
}
use mathlib.Core.Option.{some-injective}
use caimr.Events.{Events, none_event}
use caimr.Chan
use caimr.Chan.{Chan, Index, fresh, added}
use caimr.Eloop.{Eloop}
use caimr.Functor.{Functor}
use caimr.Poller.{Poller}
use caimr.Poller.Interest
use caimr.Poller.Interest.{Epoll}
use caimr.Poller.Registration.{Agrees, Synced}
use caimr.TcpConn.{TcpConn}
use caimr.TcpConn.Served.{Phase, Apart}
use caimr.Reactor.{Reactor}
use caimr.Reactor.Served.{Moved, puts, takes, keeps, tells, told-on}

module _ (k : Epoll) where
  abbrev pub Blank : Poller → (fd : ℕ) → Type 0
  Blank p fd = (lookup fd p.chs ≡ none) × (Interest.watches k p fd ≡ none)

  abbrev pub Entry : Poller → (fd : ℕ) → Events → (id : ℕ) → Type 0
  Entry p fd events id = (lookup fd p.chs ≡ some id) × (Interest.watches k p fd ≡ some (events, id))

  -- The poller's map and the kernel's set tell the same.
  abbrev pub Consistent : Poller → Type 0
  Consistent p = (fd : ℕ) → Blank p fd ⊎ ((events : Events) × ((id : ℕ) × Entry p fd events id))

  -- Who has registered the descriptor `fd` in a reactor that began with the loop `l`.
  pub data Owner (l : Eloop Functor) (r : Reactor) (fd : ℕ) : Type 0 where
    nobody : Blank r.loop.poller fd → Owner l r fd
    loop_itself :
        (events : Events) (id : ℕ)
        → Entry l.poller fd events id
        → Entry r.loop.poller fd events id
        → Owner l r fd
    connection :
        (a : ℕ) (c : TcpConn)
        → lookup a r.conns ≡ some c
        → c.ch.fd ≡ fd
        → Entry r.loop.poller fd c.ch.events a
        → Owner l r fd

  abbrev probe : Index → ℕ → Events → ℕ → Chan
  probe i fd events id = record (Chan.create id fd) { index = i; events = events }

  kept-Blank : (fd₀ fd : ℕ) (p q : Poller) → Apart k fd₀ p q → fd₀ ≢ fd → Blank p fd → Blank q fd
  unfolding Chan.create
  kept-Blank fd₀ fd p q apart ne b = apart (probe fresh fd none_event 0) ne b

  kept-Entry :
      (fd₀ fd : ℕ) (p q : Poller) (events : Events) (id : ℕ)
      → Apart k fd₀ p q
      → fd₀ ≢ fd
      → Entry p fd events id
      → Entry q fd events id
  unfolding Chan.create
  kept-Entry fd₀ fd p q events id apart ne e = apart (probe added fd events id) ne e

  served-Owner :
      (l : Eloop Functor) (r : Reactor) (a : ℕ) (c : TcpConn)
      → lookup a r.conns ≡ some c
      → Phase c
      → c.ch.id ≡ a
      → Synced k r.loop.poller c.ch
      → Owner l r c.ch.fd
  served-Owner l r a c found (inl (_, i)) e s =
      nobody (subst (λ x. Agrees k x r.loop.poller c.ch) i s)
  served-Owner l r a c found (inr (_, i)) e s = connection a c found refl (
      subst (λ x. Entry r.loop.poller c.ch.fd c.ch.events x) e
        (subst (λ x. Agrees k x r.loop.poller c.ch) i s))

  -- A step that has nothing to do with the descriptor.
  kept-Owner :
      (l : Eloop Functor) (r s : Reactor) (fd₀ fd : ℕ)
      → Apart k fd₀ r.loop.poller s.loop.poller
      → fd₀ ≢ fd
      → ((b : ℕ) (d : TcpConn)
          → lookup b r.conns ≡ some d
          → d.ch.fd ≡ fd
          → lookup b s.conns ≡ some d)
      → Owner l r fd
      → Owner l s fd
  kept-Owner l r s fd₀ fd apart ne stays (nobody b) = nobody (kept-Blank fd₀ fd _ _ apart ne b)
  kept-Owner l r s fd₀ fd apart ne stays (loop_itself events id e e') =
      loop_itself events id e (kept-Entry fd₀ fd _ _ events id apart ne e')
  kept-Owner l r s fd₀ fd apart ne stays (connection b d found e entry) =
      connection b d (stays b d found e) e (kept-Entry fd₀ fd _ _ d.ch.events b apart ne entry)

  another :
      (a b fd : ℕ) (c d : TcpConn)
      → c.ch.fd ≢ fd
      → d.ch.fd ≡ fd
      → (a ≡ b → c.ch.fd ≡ d.ch.fd)
      → (a == b) ≡ false
  another a b fd c d ne e same = elim (Bool-cases (a == b)) [
    | inl is ↦ absurd (ne (same ((==_iff a b).0 is) ∙ e))
    | inr other ↦ other
  ]

  pub Moved-Owner :
      (l : Eloop Functor) {r s : Reactor} → Moved k r s → (fd : ℕ) → Owner l r fd → Owner l s fd
  Moved-Owner l {r} (puts a c same alone apart s) fd owner =
      let r' : Reactor = record { loop = c.loop; conns = insert a c r.conns } in
      elim (Bool-cases (c.ch.fd == fd)) [
        | inl is ↦
            subst (λ x. Owner l r' x) ((==_iff c.ch.fd fd).0 is)
              (served-Owner l r' a c (ground (arith, lookup-insert a a c r.conns)) s.phase s.id
                s.synced)
        | inr off ↦
            let ne : c.ch.fd ≢ fd = ground (arith, off) in
            kept-Owner l r r' c.ch.fd fd apart ne
              (λ b d found e.
                let other =
                  another a b fd c d ne e
                    (λ h. same d (subst (λ x. lookup x r.conns ≡ some d) (sym h) found)) in
                ground (arith, lookup-insert a b c r.conns, other, found))
              owner
      ]
  Moved-Owner l {r} (takes a c l' present apart unknown unwatched) fd owner =
      let r' : Reactor = record { loop = l'; conns = erase a r.conns } in
      elim (Bool-cases (c.ch.fd == fd)) [
        | inl is ↦
            subst (λ x. Owner l r' x) ((==_iff c.ch.fd fd).0 is) (nobody (unknown, unwatched))
        | inr off ↦
            let ne : c.ch.fd ≢ fd = ground (arith, off) in
            kept-Owner l r r' c.ch.fd fd apart ne
              (λ b d found e.
                let same : a ≡ b → c.ch.fd ≡ d.ch.fd = λ h.
                  ap (λ (t : TcpConn). t.ch.fd)
                    (some-injective c d
                      (sym present ∙ subst (λ x. lookup x r.conns ≡ some d) (sym h) found)) in
                let other = another a b fd c d ne e same in
                ground (arith, lookup-erase a b r.conns, other, found))
              owner
      ]
  Moved-Owner l {r} (keeps l' same) fd owner =
      kept-Owner l r (record r { loop = l' }) (suc fd) fd (λ other ne t. same other t) (omega arith)
        (λ b d found e. found) owner
  Moved-Owner l {r} (tells conns was) fd (nobody b) = nobody b
  Moved-Owner l {r} (tells conns was) fd (loop_itself events id e e') = loop_itself events id e e'
  Moved-Owner l {r} (tells conns was) fd (connection a c found e entry) =
      let (revents, found') = told-on (lookup a r.conns) (lookup a conns) c (was a) found in
      connection a (record c { ch = Chan.set_revents c.ch revents }) found' e entry

  pub Consistent-Owner :
      (l : Eloop Functor)
      → Consistent l.poller
      → (fd : ℕ) → Owner l (record { loop = l; conns = [] }) fd
  Consistent-Owner l start fd = elim (start fd) [
    | inl blank ↦ nobody blank
    | inr (events, (id, entry)) ↦ loop_itself events id entry entry
  ]

  -- A descriptor that nobody has is known neither to the poller nor to the kernel.
  pub unowned :
      (l : Eloop Functor) (r : Reactor) (fd : ℕ)
      → Interest.watches k l.poller fd ≡ none
      → ((b : ℕ) (d : TcpConn) → lookup b r.conns ≡ some d → fd ≢ d.ch.fd)
      → Owner l r fd
      → Blank r.loop.poller fd
  unowned l r fd unwatched apart (nobody b) = b
  unowned l r fd unwatched apart (loop_itself events id (_, w) _) = absurd (cc (unwatched, w))
  unowned l r fd unwatched apart (connection b d found e _) = absurd (apart b d found (sym e))
