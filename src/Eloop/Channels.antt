-- ===== src/Eloop/Channels.antt =====
-- The operations of a channel that reach the poller through the loop: `chan::update` and
-- `chan::remove`, and the changes of the wanted events in include/net/chan.h that call `update`.
use caimr.Prelude.{◌≡◌, ◌≢◌, refl, sym, ap, ◌∙◌, true, false, none, lookup, arith}
use caimr.Events.{Events, none_event, read_event, write_event, union, without}
use caimr.Chan.{Chan, is_reading, is_writing, added, deleted}
use caimr.Poller
use caimr.Poller.{Poller}
use caimr.Poller.Interest
use caimr.Poller.Interest.{Epoll}
use caimr.Poller.Registration.{
  Synced, IsRegistered, update_chan-IsRegistered, update_chan-Synced, remove_chan-Synced,
  remove_chan-unknown, others-Synced,
}
use caimr.Eloop.Ownership.{Own}
use caimr.Eloop.{Eloop, update_chan, remove_chan, has_chan}

module _ {ℓ} {F : Type ℓ} where
  pub update : Chan → Eloop F → Eloop F × Chan
  unfolding update_chan
  update ch l = update_chan ch l

  pub remove : Chan → Eloop F → Eloop F × Chan
  unfolding remove_chan
  remove ch l = remove_chan ch l

  pub enable_reading : Chan → Eloop F → Eloop F × Chan
  unfolding update
  enable_reading ch l = update (record ch { events = union ch.events read_event }) l

  pub disable_reading : Chan → Eloop F → Eloop F × Chan
  unfolding update
  disable_reading ch l = update (record ch { events = without ch.events read_event }) l

  pub enable_writing : Chan → Eloop F → Eloop F × Chan
  unfolding update
  enable_writing ch l = update (record ch { events = union ch.events write_event }) l

  pub disable_writing : Chan → Eloop F → Eloop F × Chan
  unfolding update
  disable_writing ch l = update (record ch { events = without ch.events write_event }) l

  pub disable_all : Chan → Eloop F → Eloop F × Chan
  unfolding update
  disable_all ch l = update (record ch { events = none_event }) l

  -- Whatever the poller does with a channel, the channel itself changes in its index only, and the
  -- loop in its poller only.
  pub update_lem :
      (ch : Chan) (l : Eloop F)
      → let (l', ch') = update ch l in
        (ch' ≡ record ch { index = added })
        × (l' ≡ record l { poller = (Poller.update_chan l.poller ch).0 })
  unfolding update
  update_lem ch l = (Poller.update_chan-eq l.poller ch, refl)

  pub is_writing-enable_writing :
      (ch : Chan) (l : Eloop F) → is_writing (enable_writing ch l).1 ≡ true
  unfolding enable_writing
  is_writing-enable_writing ch l =
      ap is_writing (update_lem (record ch { events = union ch.events write_event }) l).0
      ∙ ground arith

  pub is_writing-disable_writing :
      (ch : Chan) (l : Eloop F) → is_writing (disable_writing ch l).1 ≡ false
  unfolding disable_writing
  is_writing-disable_writing ch l =
      ap is_writing (update_lem (record ch { events = without ch.events write_event }) l).0
      ∙ ground arith

  -- Asking for EPOLLOUT, or no longer, does not change what is asked for reading.
  pub is_reading-writing :
      (ch : Chan) (l : Eloop F)
      → (is_reading (enable_writing ch l).1 ≡ is_reading ch)
        × (is_reading (disable_writing ch l).1 ≡ is_reading ch)
  unfolding enable_writing disable_writing
  is_reading-writing ch l = (
    ap is_reading (update_lem (record ch { events = union ch.events write_event }) l).0
        ∙ ground arith,
    ap is_reading (update_lem (record ch { events = without ch.events write_event }) l).0
        ∙ ground arith,
  )

  pub is_reading-enable_reading :
      (ch : Chan) (l : Eloop F) → is_reading (enable_reading ch l).1 ≡ true
  unfolding enable_reading
  is_reading-enable_reading ch l =
      ap is_reading (update_lem (record ch { events = union ch.events read_event }) l).0
      ∙ ground arith

  -- Removal changes the index of the channel only, and in the loop the poller only.
  pub remove_lem :
      (ch : Chan) (l : Eloop F)
      → let (l', ch') = remove ch l in
        (ch' ≡ record ch { index = deleted })
        × (l' ≡ record l { poller = (Poller.remove_chan l.poller ch).0 })
  unfolding remove
  remove_lem ch l = (Poller.remove_chan-eq l.poller ch, refl)

  pub disable_all-events :
      (ch : Chan) (l : Eloop F)
      → (disable_all ch l).1 ≡ record ch { events = none_event; index = added }
  unfolding disable_all
  disable_all-events ch l = (update_lem (record ch { events = none_event }) l).0

  pub enable_reading-events :
      (ch : Chan) (l : Eloop F)
      → (enable_reading ch l).1 ≡ record ch { events = union ch.events read_event; index = added }
  unfolding enable_reading
  enable_reading-events ch l = (update_lem (record ch { events = union ch.events read_event }) l).0

  -- In the loop only the poller changes.
  pub enable_reading-loop :
      (ch : Chan) (l : Eloop F)
      → (enable_reading ch l).0 ≡ record l { poller = (enable_reading ch l).0.poller }
  unfolding enable_reading
  enable_reading-loop ch l =
      let e = (update_lem (record ch { events = union ch.events read_event }) l).1 in
      e ∙ ap (λ (p : Poller). record l { poller = p }) (ap (λ (m : Eloop F). m.poller) (sym e))

  pub pending-enable_writing :
      (ch : Chan) (l : Eloop F) → (enable_writing ch l).0.pending_functors ≡ l.pending_functors
  unfolding enable_writing
  pending-enable_writing ch l =
      ap (λ (m : Eloop F). m.pending_functors)
        (update_lem (record ch { events = union ch.events write_event }) l).1

  -- A channel that has never been removed, and now wants to read, is registered.
  pub enable_reading-IsRegistered :
      (k : Epoll) (ch : Chan) (l : Eloop F)
      → ch.index ≢ deleted
      → Synced k l.poller ch
      → let (l', ch') = enable_reading ch l in
        IsRegistered k (l'.poller, ch') ch.fd ch.id (union ch.events read_event)
  unfolding enable_reading update update_chan
  enable_reading-IsRegistered k ch l live s =
      update_chan-IsRegistered k l.poller ch (union ch.events read_event) live s

  -- A removed channel is neither in the poller's map nor watched by the kernel.
  pub remove-unwatched :
      (k : Epoll) (ch : Chan) (l : Eloop F)
      → let (l', ch') = remove ch l in
        (ch'.index ≡ deleted)
        × (Interest.watches k l'.poller ch'.fd ≡ none)
        × (has_chan ch' l' ≡ false)
  unfolding remove has_chan
  remove-unwatched k ch l =
      let e = Poller.remove_chan-eq l.poller ch in
      let (_, i, w, h) = remove_chan-Synced k l.poller ch in
      (i, ap (λ (c : Chan). Interest.watches k (Poller.remove_chan l.poller ch).0 c.fd) e ∙ w, h)

  pub remove-unknown :
      (k : Epoll) (ch : Chan) (l : Eloop F)
      → (lookup ch.fd (remove ch l).0.poller.chs ≡ none)
        × (Interest.watches k (remove ch l).0.poller ch.fd ≡ none)
  unfolding remove
  remove-unknown k ch l = remove_chan-unknown k l.poller ch

  -- A registered channel that asks for events again.
  update-Own :
      (k : Epoll) (ch : Chan) (wanted : Events) (l : Eloop F)
      → let (l', ch') = update (record ch { events = wanted }) l in Own k l.poller ch l'.poller ch'
  unfolding update update_chan
  update-Own k ch wanted l =
      let d = record ch { events = wanted } in
      let e = Poller.update_chan-eq l.poller d in
      record {
        fd = ap (λ (c : Chan). c.fd) e;
        id = ap (λ (c : Chan). c.id) e;
        keeps = λ i s. update_chan-Synced k l.poller ch wanted i s;
        others = λ other ne s. (others-Synced k l.poller d other ne s).0;
      }

  pub enable_writing-Own :
      (k : Epoll) (ch : Chan) (l : Eloop F)
      → Own k l.poller ch (enable_writing ch l).0.poller (enable_writing ch l).1
  unfolding enable_writing
  enable_writing-Own k ch l = update-Own k ch (union ch.events write_event) l

  pub disable_writing-Own :
      (k : Epoll) (ch : Chan) (l : Eloop F)
      → Own k l.poller ch (disable_writing ch l).0.poller (disable_writing ch l).1
  unfolding disable_writing
  disable_writing-Own k ch l = update-Own k ch (without ch.events write_event) l

  pub disable_all-Own :
      (k : Epoll) (ch : Chan) (l : Eloop F)
      → Own k l.poller ch (disable_all ch l).0.poller (disable_all ch l).1
  unfolding disable_all
  disable_all-Own k ch l = update-Own k ch none_event l

  -- A new channel that asks to read, and one that is removed, leave the others alone.
  pub enable_reading-others :
      (k : Epoll) (ch other : Chan) (l : Eloop F)
      → ch.fd ≢ other.fd
      → Synced k l.poller other
      → Synced k (enable_reading ch l).0.poller other
  unfolding enable_reading
  enable_reading-others k ch other l ne s =
      (update-Own k ch (union ch.events read_event) l).others other ne s

  pub remove-others :
      (k : Epoll) (ch other : Chan) (l : Eloop F)
      → ch.fd ≢ other.fd
      → Synced k l.poller other
      → Synced k (remove ch l).0.poller other
  unfolding remove remove_chan
  remove-others k ch other l ne s = (others-Synced k l.poller ch other ne s).1
