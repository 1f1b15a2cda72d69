-- ===== src/Poller.antt =====
-- include/net/poller.h, src/net/poller.cpp, include/net/epoll_poller.h, src/net/epoll_poller.cpp:
-- the poller keeps the map from descriptors to channels and tells the kernel, through epoll_ctl,
-- which events each one wants. A chan* is the address of the channel, its `id`.
pub mod Interest
pub mod Registration
pub mod Poll
pub mod Examples
use caimr.Prelude.{
  ℕ, ◌*◌, ◌<◌, ◌≡◌, refl, Bool, true, false, Option, none, some, List, [], ◌∷◌, ◌++◌, map, length,
  ltb, ◌==◌, if◌then◌else◌, lookup, insert, erase,
}
use caimr.Events.{Events}
use caimr.Chan.{Chan, Index, fresh, added, deleted, set_index, set_revents}

pub data CtlOp : Type 0 where
  ctl_add ctl_mod ctl_del : CtlOp

-- One call of epoll_ctl: the operation, the descriptor, and the epoll_event handed over.
pub record Ctl : Type 0 where
  pub op : CtlOp
  pub fd : ℕ
  pub events : Events
  pub ptr : ℕ

-- `chs` is the map of the base class, `events_size` the size of `events_`; `requests` are the calls
-- of epoll_ctl made so far, the last one first.
pub record Poller : Type 0 where
  pub chs : List (ℕ × ℕ)
  pub events_size : ℕ
  pub requests : List Ctl

abbrev pub init_event_list_size : ℕ
init_event_list_size = 16

unfoldable pub create : Poller
create = record { chs = []; events_size = init_event_list_size; requests = [] }

pub has_chan : Poller → Chan → Bool
has_chan p ch = elim (lookup ch.fd p.chs) [ none ↦ false | some id ↦ id == ch.id ]

-- A refused request is only logged.
pub update : CtlOp → Chan → Poller → Poller
update operation ch p = record p { requests = event ∷ p.requests }
  where
    event : Ctl
    event = record { op = operation; fd = ch.fd; events = ch.events; ptr = ch.id }

-- The branch of `update_chan` by the channel's index.
update_at : Index → Poller → Chan → Poller × Chan
unfolding update
update_at fresh p ch =
    let ch' = set_index ch added in
    (update ctl_add ch' (record p { chs = insert ch.fd ch.id p.chs }), ch')
update_at deleted p ch = let ch' = set_index ch added in (update ctl_add ch' p, ch')
update_at added p ch = (update ctl_mod ch p, ch)

pub update_chan : Poller → Chan → Poller × Chan
unfolding update_at
update_chan p ch = update_at ch.index p ch

update_at-eq :
    (i : Index) (p : Poller) (ch : Chan)
    → ch.index ≡ i
    → (update_at i p ch).1 ≡ record ch { index = added }
unfolding update_at
update_at-eq fresh p ch e = refl
update_at-eq deleted p ch e = refl
update_at-eq added p ch e = λ i. record ch { index = e i }

-- `update_chan` changes nothing of a channel but its index, which says ADDED afterwards.
pub update_chan-eq : (p : Poller) (ch : Chan) → (update_chan p ch).1 ≡ record ch { index = added }
unfolding update_chan
update_chan-eq p ch = update_at-eq ch.index p ch refl

pub remove_chan : Poller → Chan → Poller × Chan
unfolding update
remove_chan p ch =
    let ch' = set_index ch deleted in
    (update ctl_del ch' (record p { chs = erase ch.fd p.chs }), ch')

pub remove_chan-eq : (p : Poller) (ch : Chan) → (remove_chan p ch).1 ≡ record ch { index = deleted }
unfolding remove_chan
remove_chan-eq p ch = refl

-- The answer of epoll_wait: an error, or the ready events with the pointers registered for them.
pub data Wait : Type 0 where
  wait_failed : Wait
  ready : List (Events × ℕ) → Wait

-- `set_revents` on the channel at an address.
report : Events → ℕ → List Chan → List Chan
report revt ptr [] = []
report revt ptr (ch ∷ chans) =
    if ch.id == ptr then set_revents ch revt ∷ chans else ch ∷ report revt ptr chans

-- The loop of `fill_active_chs`, over the channels that exist.
pub fill_active_chs : List (Events × ℕ) → List Chan → List ℕ → List Chan × List ℕ
unfolding report
fill_active_chs [] chans active = (chans, active)
fill_active_chs ((revt, ptr) ∷ events) chans active =
    fill_active_chs events (report revt ptr chans) (active ++ ptr ∷ [])

unfoldable pub poll : Poller → Wait → List Chan → List ℕ → Poller × List Chan × List ℕ
unfolding fill_active_chs
poll p wait_failed chans active = (p, chans, active)
poll p (ready events) chans active =
    if ltb 0 (length events)
    then (let (chans', active') = fill_active_chs events chans active in
        (
          (if length events == p.events_size
              then record p { events_size = p.events_size * 2 }
              else p),
          chans',
          active',
        ))
    else (p, chans, active)
