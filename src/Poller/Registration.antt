-- ===== src/Poller/Registration.antt =====
-- The poller's map, the kernel's set and a channel's own fields tell the same.
use caimr.Prelude.{
  ℕ, ◌≡◌, ◌≢◌, refl, sym, ap, subst, ◌∙◌, Bool, true, false, none, some, arith, lookup,
  lookup-insert, lookup-erase,
}
use caimr.Events.{Events}
use caimr.Chan.{Chan, Index, fresh, added, deleted}
use caimr.Poller.{
  Poller, Ctl, ctl_add, ctl_mod, ctl_del, has_chan, update_at, update_chan, update_chan-eq,
  remove_chan,
}
use caimr.Poller.Interest
use caimr.Poller.Interest.{Epoll}

module _ (k : Epoll) where
  -- A registered channel is in the map and watched for exactly its events; one that is not is in
  -- neither.
  abbrev pub Agrees : Index → Poller → Chan → Type 0
  Agrees added p ch =
      (lookup ch.fd p.chs ≡ some ch.id) × (Interest.watches k p ch.fd ≡ some (ch.events, ch.id))
  Agrees _ p ch = (lookup ch.fd p.chs ≡ none) × (Interest.watches k p ch.fd ≡ none)

  abbrev pub Synced : Poller → Chan → Type 0
  Synced p ch = Agrees ch.index p ch

  -- The channel as a request left it, and what poller and kernel then say of it.
  abbrev pub IsRegistered : Poller × Chan → ℕ → ℕ → Events → Type 0
  IsRegistered (p, ch) fd id wanted =
      (ch.index ≡ added)
      × (ch.fd ≡ fd)
      × (ch.id ≡ id)
      × (ch.events ≡ wanted)
      × (lookup fd p.chs ≡ some id)
      × (Interest.watches k p fd ≡ some (wanted, id))
      × (has_chan p ch ≡ true)

  update_at-IsRegistered :
      (i : Index) (p : Poller) (ch : Chan) (wanted : Events)
      → ch.index ≡ i
      → i ≢ deleted
      → Agrees i p ch
      → IsRegistered (update_at i p (record ch { events = wanted })) ch.fd ch.id wanted
  unfolding update_at has_chan
  update_at-IsRegistered fresh p ch wanted e live (l, w) =
      let found = lookup-insert ch.fd ch.fd ch.id p.chs in
      let c : Ctl = record { op = ctl_add; fd = ch.fd; events = wanted; ptr = ch.id } in
      (
        refl,
        refl,
        refl,
        refl,
        ground (arith, found),
        k.add_absent c _ refl w,
        ground (arith, found),
      )
  update_at-IsRegistered added p ch wanted e live (l, w) =
      let c : Ctl = record { op = ctl_mod; fd = ch.fd; events = wanted; ptr = ch.id } in
      (e, refl, refl, refl, l, k.mod_present c _ _ refl w, ground (arith, l))
  update_at-IsRegistered deleted p ch wanted e live s = absurd (live refl)

  -- A channel that has never been removed and agrees with the map and with the kernel's set, in that
  -- these have its descriptor, if it is registered, with this channel and its events, and otherwise
  -- neither of them has the descriptor: whatever events it asks for next, it is registered afterwards
  -- with exactly those. It is in the map, and the kernel watches for them and for nothing else.
  pub update_chan-IsRegistered :
      (p : Poller) (ch : Chan) (wanted : Events)
      → ch.index ≢ deleted
      → Synced p ch
      → IsRegistered (update_chan p (record ch { events = wanted })) ch.fd ch.id wanted
  unfolding update_chan
  update_chan-IsRegistered p ch wanted live s =
      update_at-IsRegistered ch.index p ch wanted refl live s

  -- A removed channel is in neither place, whatever it was before.
  pub remove_chan-Synced :
      (p : Poller) (ch : Chan)
      → let (p', ch') = remove_chan p ch in
        Synced p' ch'
        × (ch'.index ≡ deleted)
        × (Interest.watches k p' ch.fd ≡ none)
        × (has_chan p' ch' ≡ false)
  unfolding remove_chan has_chan
  remove_chan-Synced p ch =
      let gone = lookup-erase ch.fd ch.fd p.chs in
      let c : Ctl = record { op = ctl_del; fd = ch.fd; events = ch.events; ptr = ch.id } in
      let w = k.del_any c (Interest.replay k p.requests) refl in
      ((ground (arith, gone), w), refl, w, ground (arith, gone))

  pub remove_chan-unknown :
      (p : Poller) (ch : Chan)
      → (lookup ch.fd (remove_chan p ch).0.chs ≡ none)
        × (Interest.watches k (remove_chan p ch).0 ch.fd ≡ none)
  unfolding remove_chan
  remove_chan-unknown p ch = (remove_chan-Synced p ch).0

  -- A channel that asks for events again after its removal: the kernel watches it, but the map does
  -- not have it, since `update_chan` enters only new channels and `remove_chan` leaves the index at
  -- DELETED, not NEW. `has_chan` then denies a channel whose events are delivered.
  update_chan-deleted :
      (p : Poller) (ch : Chan) (wanted : Events)
      → let (p₁, ch₁) = remove_chan p ch in
        let (p₂, ch₂) = update_chan p₁ (record ch₁ { events = wanted }) in
        (ch₂.index ≡ added)
        × (Interest.watches k p₂ ch.fd ≡ some (wanted, ch.id))
        × (has_chan p₂ ch₂ ≡ false)
  unfolding update_chan remove_chan has_chan
  update_chan-deleted p ch wanted =
      let gone = lookup-erase ch.fd ch.fd p.chs in
      let c : Ctl = record { op = ctl_add; fd = ch.fd; events = wanted; ptr = ch.id } in
      (refl, k.add_absent c _ refl (remove_chan-Synced p ch).2, ground (arith, gone))

  -- A registered channel that asks for other events is registered for these.
  pub update_chan-Synced :
      (p : Poller) (ch : Chan) (wanted : Events)
      → ch.index ≡ added
      → Synced p ch
      → let (p', ch') = update_chan p (record ch { events = wanted }) in
        (ch'.index ≡ added) × Synced p' ch'
  update_chan-Synced p ch wanted e s =
      let (i, _, _, _, l, w, _) = update_chan-IsRegistered p ch wanted (λ h. cc (e, h)) s in
      (
        i,
        subst (λ d. Synced (update_chan p (record ch { events = wanted })).0 d)
            (sym (update_chan-eq p (record ch { events = wanted }))) (l, w),
      )

  update_at-other :
      (i : Index) (p : Poller) (ch : Chan) (fd : ℕ)
      → ch.fd ≢ fd
      → (lookup fd (update_at i p ch).0.chs ≡ lookup fd p.chs)
        × (Interest.watches k (update_at i p ch).0 fd ≡ Interest.watches k p fd)
  unfolding update_at
  update_at-other fresh p ch fd ne =
      (ground (arith, lookup-insert ch.fd fd ch.id p.chs), k.others _ _ fd ne)
  update_at-other added p ch fd ne = (refl, k.others _ _ fd ne)
  update_at-other deleted p ch fd ne = (refl, k.others _ _ fd ne)

  Agrees-cong :
      (i : Index) (p p' : Poller) (ch : Chan)
      → lookup ch.fd p'.chs ≡ lookup ch.fd p.chs
      → Interest.watches k p' ch.fd ≡ Interest.watches k p ch.fd
      → Agrees i p ch
      → Agrees i p' ch
  Agrees-cong fresh p p' ch l w s = (l ∙ s.0, w ∙ s.1)
  Agrees-cong added p p' ch l w s = (l ∙ s.0, w ∙ s.1)
  Agrees-cong deleted p p' ch l w s = (l ∙ s.0, w ∙ s.1)

  -- A channel that agrees with the map and with the kernel's set still does when the channel of
  -- another descriptor has been registered, changed or removed.
  pub others-Synced :
      (p : Poller) (ch other : Chan)
      → ch.fd ≢ other.fd
      → Synced p other
      → Synced (update_chan p ch).0 other × Synced (remove_chan p ch).0 other
  unfolding update_chan remove_chan
  others-Synced p ch other ne s =
      let u = update_at-other ch.index p ch other.fd ne in
      (
        Agrees-cong other.index p _ other u.0 u.1 s,
        Agrees-cong other.index p _ other (ground (arith, lookup-erase ch.fd other.fd p.chs))
            (k.others _ _ other.fd ne) s,
      )

  -- What poll reports to a channel, and what it is tied to, is no business of the poller.
  pub Agrees-seen :
      (i : Index) (p : Poller) (ch : Chan) (seen : Events) (tied : Bool)
      → Agrees i p ch
      → Agrees i p (record ch { revents = seen; tied = tied })
  Agrees-seen fresh p ch seen tied s = s
  Agrees-seen added p ch seen tied s = s
  Agrees-seen deleted p ch seen tied s = s

  pub IsRegistered-Synced :
      (p : Poller) (ch : Chan) (fd id : ℕ) (wanted : Events)
      → IsRegistered (p, ch) fd id wanted
      → Synced p ch
  IsRegistered-Synced p ch fd id wanted (i, f, d, e, l, w, _) =
      subst (λ x. Agrees x p ch) (sym i)
        (
          subst (λ x. lookup x p.chs ≡ some ch.id) (sym f) (l ∙ ap some (sym d)),
          subst (λ x. Interest.watches k p x ≡ some (ch.events, ch.id)) (sym f)
              (subst (λ x. Interest.watches k p fd ≡ some (x, ch.id)) (sym e)
                (subst (λ x. Interest.watches k p fd ≡ some (wanted, x)) (sym d) w)),
        )

  -- Nothing was asked of the poller.
  pub Synced-same :
      (p q : Poller) (ch : Chan)
      → q.chs ≡ p.chs
      → q.requests ≡ p.requests
      → Synced p ch
      → Synced q ch
  Synced-same p q ch c r s =
      Agrees-cong ch.index p q ch (ap (lookup ch.fd) c)
        (ap (λ x. k.watched (Interest.replay k x) ch.fd) r) s
