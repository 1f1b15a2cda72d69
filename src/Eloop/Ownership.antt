-- ===== src/Eloop/Ownership.antt =====
-- What an operation on a channel may do to its loop: the poller's map and the kernel's set change at
-- the channel's own descriptor only, and there they go on telling the same as the channel.
use caimr.Prelude.{◌≡◌, ◌≢◌, refl, sym, ◌∙◌, subst}
use caimr.Chan.{Chan, added}
use caimr.Poller.{Poller}
use caimr.Poller.Interest.{Epoll}
use caimr.Poller.Registration.{Synced}

module _ (k : Epoll) where
  -- From the poller `p` and the channel `ch` to `p'` and `ch'`.
  pub record Own (p : Poller) (ch : Chan) (p' : Poller) (ch' : Chan) : Type 0 where
    pub fd : ch'.fd ≡ ch.fd
    pub id : ch'.id ≡ ch.id
    pub keeps : ch.index ≡ added → Synced k p ch → (ch'.index ≡ added) × Synced k p' ch'
    pub others : (other : Chan) → ch.fd ≢ other.fd → Synced k p other → Synced k p' other

  pub Own-refl : (p : Poller) (ch : Chan) → Own p ch p ch
  Own-refl p ch = record { fd = refl; id = refl; keeps = λ e s. (e, s); others = λ other ne s. s }

  pub Own-trans : {p q r : Poller} {a b c : Chan} → Own p a q b → Own q b r c → Own p a r c
  Own-trans u w = record {
    fd = w.fd ∙ u.fd;
    id = w.id ∙ u.id;
    keeps = λ e s. let (e', s') = u.keeps e s in w.keeps e' s';
    others = λ other ne s. w.others other (λ h. ne (sym u.fd ∙ h)) (u.others other ne s);
  }

  -- The poller has not been asked.
  pub Own-same : (p q : Poller) (ch : Chan) → q ≡ p → Own p ch q ch
  Own-same p q ch e = subst (λ r. Own p ch r ch) (sym e) (Own-refl p ch)
