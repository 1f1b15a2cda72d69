-- ===== src/Poller/Poll.antt =====
-- epoll_poller::poll: which channels become active, what each is told, and when the event list
-- grows.
use caimr.Prelude.{
  ℕ, ◌*◌, ◌≤◌, ◌<◌, ◌≡◌, refl, sym, ap, ◌∙◌, Option, none, some, List, [], ◌∷◌, ◌++◌, map, length,
  inl, inr, Bool-cases, append_assoc, append-nil, arith, ltb, lt→ltb, ◌==◌, if◌then◌else◌,
}
use caimr.Events.{Events}
use caimr.Chan.{Chan, set_revents}
use caimr.Poller.{Poller, Wait, wait_failed, ready, report, fill_active_chs, poll}

-- The channel at an address.
abbrev pub find : ℕ → List Chan → Option Chan
find id [] = none
find id (ch ∷ chans) = if ch.id == id then some ch else find id chans

-- The events reported last for an address.
abbrev pub latest : ℕ → List (Events × ℕ) → Option Events
latest id [] = none
latest id ((revt, ptr) ∷ events) = elim (latest id events) [
  | some r ↦ some r
  | none ↦ if ptr == id then some revt else none
]

abbrev pub told : Option Events → Option Chan → Option Chan
told none ch = ch
told (some r) none = none
told (some r) (some ch) = some (set_revents ch r)

find-report :
    (id : ℕ) (revt : Events) (ptr : ℕ) (chans : List Chan)
    → find id (report revt ptr chans)
      ≡ (if ptr == id then told (some revt) (find id chans) else find id chans)
unfolding report
find-report id revt ptr [] = ground arith
find-report id revt ptr (ch ∷ chans) = ground (arith, find-report id revt ptr chans)

told-told :
    (a b : Option Events) (o : Option Chan)
    → told b (told a o) ≡ told (elim b [ some r ↦ some r | none ↦ a ]) o
told-told none none o = refl
told-told none (some r) o = refl
told-told (some q) none o = refl
told-told (some q) (some r) none = refl
told-told (some q) (some r) (some ch) = refl

fill_active_chs_lem :
    (events : List (Events × ℕ)) (chans : List Chan) (active : List ℕ)
    → let (chans', active') = fill_active_chs events chans active in
      (active' ≡ active ++ map (λ e. e.1) events)
      × ((id : ℕ) → find id chans' ≡ told (latest id events) (find id chans))
unfolding fill_active_chs
fill_active_chs_lem [] chans active = (sym (append-nil active), λ id. refl)
fill_active_chs_lem ((revt, ptr) ∷ events) chans active =
    let (a, f) = fill_active_chs_lem events (report revt ptr chans) (active ++ ptr ∷ []) in
    (
      a ∙ append_assoc active (ptr ∷ []) (map (λ e. e.1) events),
      λ id.
          f id
          ∙ ap (told (latest id events)) (reported id)
          ∙ told-told (if ptr == id then some revt else none) (latest id events) (find id chans),
    )
  where
    reported :
        (id : ℕ)
        → find id (report revt ptr chans)
          ≡ told (if ptr == id then some revt else none) (find id chans)
    reported id = ground (arith, find-report id revt ptr chans)

-- After a wait that reports no more events than the list holds, the active channels are the old ones
-- and then the reported ones, in the kernel's order; each channel has as `revents` what was last
-- reported for it and is otherwise unchanged; the event list has doubled exactly if it was filled to
-- its end; and neither the map nor the kernel's set is touched.
pub poll_lem :
    (p : Poller) (events : List (Events × ℕ)) (chans : List Chan) (active : List ℕ)
    → 0 < p.events_size
    → length events ≤ p.events_size
    → let (p', chans', active') = poll p (ready events) chans active in
      (active' ≡ active ++ map (λ e. e.1) events)
      × ((id : ℕ) → find id chans' ≡ told (latest id events) (find id chans))
      × (p'.events_size
          ≡ (if ltb (length events) p.events_size then p.events_size else p.events_size * 2))
      × (p'.chs ≡ p.chs)
      × (p'.requests ≡ p.requests)
unfolding poll
poll_lem p [] chans active pos fits =
    (sym (append-nil active), λ id. refl, ground arith, refl, refl)
poll_lem p (e ∷ events) chans active pos fits =
    let (a, f) = fill_active_chs_lem (e ∷ events) chans active in
    rw (lt→ltb 0 (length (e ∷ events)) (omega arith))
      (a, f, ground arith, ground arith, ground arith)

-- The same channels, but for the events reported to them.
abbrev pub Alike : List Chan → List Chan → Type 0
Alike [] [] = Unit {0}
Alike (c ∷ cs) (d ∷ ds) = ((revents : Events) × (d ≡ set_revents c revents)) × Alike cs ds
Alike _ _ = ⊥

Alike-refl : (cs : List Chan) → Alike cs cs
Alike-refl [] = tt
Alike-refl (c ∷ cs) = ((c.revents, refl), Alike-refl cs)

Alike-trans : (cs ds es : List Chan) → Alike cs ds → Alike ds es → Alike cs es
Alike-trans [] [] es a b = b
Alike-trans [] (d ∷ ds) es a b = absurd a
Alike-trans (c ∷ cs) [] es a b = absurd a
Alike-trans (c ∷ cs) (d ∷ ds) [] a b = absurd b
Alike-trans (c ∷ cs) (d ∷ ds) (e ∷ es) ((q, u), a) ((r, v), b) =
    ((r, v ∙ ap (λ x. set_revents x r) u), Alike-trans cs ds es a b)

report-Alike : (revt : Events) (ptr : ℕ) (chans : List Chan) → Alike chans (report revt ptr chans)
unfolding report
report-Alike revt ptr [] = tt
report-Alike revt ptr (ch ∷ chans) = elim (Bool-cases (ch.id == ptr)) [
  | inl here ↦ simp here ((revt, refl), Alike-refl chans)
  | inr other ↦ simp other ((ch.revents, refl), report-Alike revt ptr chans)
]

fill_active_chs-Alike :
    (events : List (Events × ℕ)) (chans : List Chan) (active : List ℕ)
    → Alike chans (fill_active_chs events chans active).0
unfolding fill_active_chs
fill_active_chs-Alike [] chans active = Alike-refl chans
fill_active_chs-Alike ((revt, ptr) ∷ events) chans active =
    Alike-trans chans (report revt ptr chans) _ (report-Alike revt ptr chans)
      (fill_active_chs-Alike events (report revt ptr chans) (active ++ ptr ∷ []))

-- Whatever epoll_wait answers, poll asks nothing of the kernel, keeps the map, and changes in the
-- channels what has been reported only.
pub poll-Alike :
    (p : Poller) (answer : Wait) (chans : List Chan) (active : List ℕ)
    → let (p', chans', _) = poll p answer chans active in
      (p'.chs ≡ p.chs) × (p'.requests ≡ p.requests) × Alike chans chans'
unfolding poll
poll-Alike p wait_failed chans active = (refl, refl, Alike-refl chans)
poll-Alike p (ready events) chans active = elim (Bool-cases (ltb 0 (length events))) [
  | inr nothing ↦ simp nothing (refl, refl, Alike-refl chans)
  | inl some_events ↦
      simp some_events (ground arith, ground arith, fill_active_chs-Alike events chans active)
]

-- The addresses that epoll_wait has reported.
abbrev pub pointers : Wait → List ℕ
pointers wait_failed = []
pointers (ready events) = map (λ e. e.1) events

pub poll-pointers :
    (p : Poller) (answer : Wait) (chans : List Chan) → (poll p answer chans []).2 ≡ pointers answer
unfolding poll
poll-pointers p wait_failed chans = refl
poll-pointers p (ready []) chans = ground arith
poll-pointers p (ready (e ∷ events)) chans =
    rw (lt→ltb 0 (length (e ∷ events)) (omega arith)) (fill_active_chs_lem (e ∷ events) chans []).0
