-- ===== src/Reactor/Served.antt =====
-- What holds of each connection of a loop, and how an operation on one of them keeps it for all.
use caimr.Prelude.{
  List, Option, none, refl, ap, ℕ, ◌≡◌, ◌≢◌, sym, subst, ◌∙◌, ◌⊎◌, inl, inr, none, some, [], lookup,
  lookup-insert, lookup-erase, insert, erase, ◌==◌, ==_iff, Bool-cases, arith,
}
use mathlib.Core.Option.{some-injective}
use caimr.Chan
use caimr.Chan.{Chan}
use caimr.Events.{Events}
use caimr.Eloop.{Eloop}
use caimr.Functor.{Functor}
use caimr.Poller.{Poller}
use caimr.Poller.Interest
use caimr.Poller.Interest.{Epoll}
use caimr.Poller.Registration.{Synced}
use caimr.TcpConn.{TcpConn}
use caimr.Chan
use caimr.Chan.{Chan}
use caimr.Events.{Events}
use caimr.Poller.Registration.{Synced}
use caimr.TcpConn.Served.{Served, Apart, reported-Served}
use caimr.Reactor.{Reactor, Told, absent, told}

-- What a connection was before something was reported to it.
pub told-back :
    (o o' : Option TcpConn) (d : TcpConn)
    → Told o o'
    → o' ≡ some d
    → (c : TcpConn) × ((revents : Events) × ((o ≡ some c)
          × (record c { ch = Chan.set_revents c.ch revents } ≡ d)))
told-back _ _ d absent e = absurd (cc e)
told-back _ _ d (told c revents) e = (c, (revents, (refl, some-injective _ d e)))

-- And what it is afterwards.
pub told-on :
    (o o' : Option TcpConn) (c : TcpConn)
    → Told o o'
    → o ≡ some c
    → (revents : Events) × (o' ≡ some (record c { ch = Chan.set_revents c.ch revents }))
told-on _ _ c absent e = absurd (cc e)
told-on _ _ c (told d revents) e = (
  revents,
  ap (λ (t : TcpConn). some (record t { ch = Chan.set_revents t.ch revents }))
      (some-injective d c e),
)

module _ (k : Epoll) where
  pub record Inv (r : Reactor) : Type 0 where
    pub served : (a : ℕ) (c : TcpConn) → lookup a r.conns ≡ some c → Served k r.loop.poller a c
    pub apart :
        (a b : ℕ) (c d : TcpConn)
        → lookup a r.conns ≡ some c
        → lookup b r.conns ≡ some d
        → a ≢ b
        → c.ch.fd ≢ d.ch.fd

  Served-Apart :
      (fd b : ℕ) (p p' : Poller) (d : TcpConn)
      → Apart k fd p p'
      → fd ≢ d.ch.fd
      → Served k p b d
      → Served k p' b d
  Served-Apart fd b p p' d apart ne s = record {
    valid = s.valid;
    id = s.id;
    phase = s.phase;
    synced = apart d.ch ne s.synced;
    hears = s.hears;
  }

  pub found :
      (a b : ℕ) (c' d : TcpConn) (r : Reactor)
      → lookup b (insert a c' r.conns) ≡ some d
      → ((a ≡ b) × (c' ≡ d)) ⊎ ((a ≢ b) × (lookup b r.conns ≡ some d))
  found a b c' d r h = elim (Bool-cases (a == b)) [
    | inl same ↦
        inl (
          (==_iff a b).0 same,
          some-injective c' d (simp (lookup-insert a b c' r.conns, same) at h),
        )
    | inr other ↦ inr (ground (arith, other), simp (lookup-insert a b c' r.conns, other) at h)
  ]

  pub remaining :
      (a b : ℕ) (d : TcpConn) (r : Reactor)
      → lookup b (erase a r.conns) ≡ some d
      → (a ≢ b) × (lookup b r.conns ≡ some d)
  remaining a b d r h = elim (Bool-cases (a == b)) [
    | inl same ↦ absurd (cc (simp (lookup-erase a b r.conns, same) at h))
    | inr other ↦ (ground (arith, other), simp (lookup-erase a b r.conns, other) at h)
  ]

  pub Inv-empty : (l : Eloop Functor) → Inv (record { loop = l; conns = [] })
  unfolding lookup
  Inv-empty l = record { served = λ a c h. cc; apart = λ a b c d h i ne. cc }

  -- What a step comes to. An operation leaves `c` at the address `a`, where nothing or the same
  -- descriptor was before, or a connection leaves the loop and its descriptor the poller; in the
  -- poller nothing changes at another descriptor.
  pub data Moved (r : Reactor) : Reactor → Type 0 where
    puts :
        (a : ℕ) (c : TcpConn)
        → ((d : TcpConn) → lookup a r.conns ≡ some d → c.ch.fd ≡ d.ch.fd)
        → ((b : ℕ) (d : TcpConn) → lookup b r.conns ≡ some d → a ≢ b → c.ch.fd ≢ d.ch.fd)
        → Apart k c.ch.fd r.loop.poller c.loop.poller
        → Served k c.loop.poller a c
        → Moved r (record { loop = c.loop; conns = insert a c r.conns })
    takes :
        (a : ℕ) (c : TcpConn) (l : Eloop Functor)
        → lookup a r.conns ≡ some c
        → Apart k c.ch.fd r.loop.poller l.poller
        → lookup c.ch.fd l.poller.chs ≡ none
        → Interest.watches k l.poller c.ch.fd ≡ none
        → Moved r (record { loop = l; conns = erase a r.conns })
    tells :
        (conns : List (ℕ × TcpConn))
        → ((b : ℕ) → Told (lookup b r.conns) (lookup b conns))
        → Moved r (record r { conns = conns })
    keeps :
        (l : Eloop Functor)
        → ((ch : Chan) → Synced k r.loop.poller ch → Synced k l.poller ch)
        → Moved r (record r { loop = l })

  pub Moved-Inv : {r s : Reactor} → Moved r s → Inv r → Inv s
  Moved-Inv {r} (puts a c same alone apart s) i = record {
    served = λ b d h. elim (found a b c d r h) [
      | inl (e, q) ↦
          subst (λ t. Served k c.loop.poller b t) q (subst (λ x. Served k c.loop.poller x c) e s)
      | inr (ne, l) ↦
          Served-Apart c.ch.fd b r.loop.poller _ d apart (alone b d l ne) (i.served b d l)
    ];
    apart = λ b₁ b₂ d₁ d₂ h₁ h₂ ne. elim (found a b₁ c d₁ r h₁) [
      | inl (e₁, s₁) ↦ elim (found a b₂ c d₂ r h₂) [
        | inl (e₂, s₂) ↦ absurd (ne (sym e₁ ∙ e₂))
        | inr (n₂, l₂) ↦ subst (λ (t : TcpConn). t.ch.fd ≢ d₂.ch.fd) s₁ (alone b₂ d₂ l₂ n₂)
      ]
      | inr (n₁, l₁) ↦ elim (found a b₂ c d₂ r h₂) [
        | inl (e₂, s₂) ↦
            subst (λ (t : TcpConn). d₁.ch.fd ≢ t.ch.fd) s₂ (λ h. alone b₁ d₁ l₁ n₁ (sym h))
        | inr (n₂, l₂) ↦ i.apart b₁ b₂ d₁ d₂ l₁ l₂ ne
      ]
    ];
  }
  Moved-Inv {r} (takes a c l here apart unknown unwatched) i = record {
    served = λ b d h.
        let (ne, h') = remaining a b d r h in
        Served-Apart c.ch.fd b r.loop.poller l.poller d apart (i.apart a b c d here h' ne)
          (i.served b d h');
    apart = λ b₁ b₂ d₁ d₂ h₁ h₂ ne.
        i.apart b₁ b₂ d₁ d₂ (remaining a b₁ d₁ r h₁).1 (remaining a b₂ d₂ r h₂).1 ne;
  }
  Moved-Inv {r} (keeps l same) i = record {
    served = λ b d h.
        let s = i.served b d h in
        record {
          valid = s.valid;
          id = s.id;
          phase = s.phase;
          synced = same d.ch s.synced;
          hears = s.hears;
        };
    apart = i.apart;
  }
  Moved-Inv {r} (tells conns was) i = record {
    served = λ b d h.
        let (c, (revents, (found, e))) =
          told-back (lookup b r.conns) (lookup b conns) d (was b) h in
        subst (λ t. Served k r.loop.poller b t) e
          (reported-Served k r.loop.poller b c revents (i.served b c found));
    apart = λ b₁ b₂ d₁ d₂ h₁ h₂ ne.
        let (c₁, (_, (f₁, e₁))) = told-back (lookup b₁ r.conns) (lookup b₁ conns) d₁ (was b₁) h₁ in
        let (c₂, (_, (f₂, e₂))) = told-back (lookup b₂ r.conns) (lookup b₂ conns) d₂ (was b₂) h₂ in
        λ same.
          i.apart b₁ b₂ c₁ c₂ f₁ f₂ ne
            (ap (λ (t : TcpConn). t.ch.fd) e₁ ∙ same ∙ sym (ap (λ (t : TcpConn). t.ch.fd) e₂));
  }
