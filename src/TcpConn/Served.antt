-- ===== src/TcpConn/Served.antt =====
-- A connection that is served by its loop: it is valid, and registered in the poller once it is
-- established. How it begins, and what its operations do.
use caimr.Prelude.{
  ℕ, ◌≤◌, ◌≡◌, ◌≢◌, ◌⊎◌, inl, inr, refl, sym, ap, ◌∙◌, Bool, not, none, Bytes, lookup, length, ◌==◌,
  arith,
}
use caimr.Events.{Events}
use caimr.Buffer
use caimr.Buffer.Content
use caimr.Chan
use caimr.Chan.{Chan, Index, fresh, added, deleted, is_writing}
use caimr.Eloop.{Eloop}
use caimr.Functor.{Functor}
use caimr.Poller.{Poller}
use caimr.Poller.Interest
use caimr.Poller.Interest.{Epoll}
use caimr.Poller.Registration.{Synced, Agrees-seen}
use caimr.TcpConn.{TcpConn, connenting, create}
use caimr.TcpConn.Stream.{IsValid}
use caimr.TcpConn.Inputs.{rank}
use caimr.TcpConn.Tame.{Hears, OwnConn}

-- A connection has not been registered before it is established, and is registered afterwards.
abbrev pub Phase : TcpConn → Type 0
Phase c =
    ((c.state ≡ connenting) × (c.ch.index ≡ fresh)) ⊎ ((1 ≤ rank c.state) × (c.ch.index ≡ added))

module _ (k : Epoll) where
  -- The connection whose channel lies at the address `a`, with the poller of its loop.
  pub record Served (p : Poller) (a : ℕ) (c : TcpConn) : Type 0 where
    pub valid : IsValid c
    pub id : c.ch.id ≡ a
    pub phase : Phase c
    pub synced : Synced k p c.ch
    pub hears : 1 ≤ rank c.state → Hears c.state c.ch

  -- The poller has changed at the descriptor `fd` only.
  abbrev pub Apart : (fd : ℕ) → Poller → Poller → Type 0
  Apart fd p p' = (other : Chan) → fd ≢ other.fd → Synced k p other → Synced k p' other

  pub create-Served :
      (loop : Eloop Functor) (id sockfd a : ℕ) (answer : Bool)
      → lookup sockfd loop.poller.chs ≡ none
      → Interest.watches k loop.poller sockfd ≡ none
      → Served loop.poller a (create loop id sockfd a answer)
  unfolding create Chan.create
  create-Served loop id sockfd a answer l w =
      let (bv, bc) = Content.create_lem Buffer.initial_size (omega arith) in
      record {
        valid = record {
          input = bv;
          output = bv;
          writing = λ h. sym (ap (λ (q : Bytes). not (length q == 0)) bc);
        };
        id = refl;
        phase = inl (refl, refl);
        synced = (l, w);
        hears = λ started. absurd (omega (arith, started));
      }

  -- An operation that the connection survives.
  pub record Carried (a : ℕ) (c c' : TcpConn) : Type 0 where
    pub served : Served c'.loop.poller a c'
    pub fd : c'.ch.fd ≡ c.ch.fd
    pub apart : Apart c.ch.fd c.loop.poller c'.loop.poller

  pub Carried-trans : (a : ℕ) {c d e : TcpConn} → Carried a c d → Carried a d e → Carried a c e
  Carried-trans a u w = record {
    served = w.served;
    fd = w.fd ∙ u.fd;
    apart = λ other ne t. w.apart other (λ h. ne (sym u.fd ∙ h)) (u.apart other ne t);
  }

  -- An operation of an established connection that keeps it valid, does not turn it back and touches
  -- the poller at its own descriptor only.
  pub operation-Carried :
      (a : ℕ) (c c' : TcpConn)
      → c.state ≢ connenting
      → Served c.loop.poller a c
      → OwnConn k c c'
      → IsValid c' × (rank c.state ≤ rank c'.state)
      → Carried a c c'
  operation-Carried a c c' started s own (v, ahead) =
      let (up, registered) = running c started s.phase in
      let (i, synced) = own.0.keeps registered s.synced in
      record {
        served = record {
          valid = v;
          id = own.0.id ∙ s.id;
          phase = inr (omega (arith, up, ahead), i);
          synced = synced;
          hears = λ _. own.1 (s.hears up);
        };
        fd = own.0.fd;
        apart = own.0.others;
      }
    where
      running :
          (c : TcpConn) → c.state ≢ connenting → Phase c → (1 ≤ rank c.state) × (c.ch.index ≡ added)
      running c started (inl (e, _)) = absurd (started e)
      running c started (inr h) = h

  -- What poll reports to a connection does not concern the poller.
  pub reported-Served :
      (p : Poller) (a : ℕ) (c : TcpConn) (revents : Events)
      → Served p a c
      → Served p a (record c { ch = Chan.set_revents c.ch revents })
  reported-Served p a c revents s = record {
    valid = record { input = s.valid.input; output = s.valid.output; writing = s.valid.writing };
    id = s.id;
    phase = s.phase;
    synced = Agrees-seen k c.ch.index p c.ch revents c.ch.tied s.synced;
    hears = s.hears;
  }
