-- ===== src/Chan.antt =====
-- include/net/chan.h and src/net/chan.cpp: a file descriptor with the events that it wants
-- (`events`), those that the poller reported (`revents`), and its callbacks. The operations that
-- also tell the poller (`update`, `remove`) stand in Eloop/Channels.
pub mod Dispatch
mod Examples
use caimr.Prelude.{ℕ, Bool, true, false, not, ◌&&◌, ◌||◌, if◌then◌else◌}
use caimr.Events.{Events, none_event, read_event, write_event, union, without, meets, is_empty}

-- `index_`: what the poller knows of the descriptor (NEW = -1, ADDED = 1, DELETED = 2).
pub data Index : Type 0 where
  fresh added deleted : Index

-- The four callbacks, by name.
pub data Handler : Type 0 where
  reads writes closes errors : Handler

-- `id` is the address of the object. The four Booleans say which std::function members are set.
pub record Chan : Type 0 where
  pub id : ℕ
  pub fd : ℕ
  pub events : Events
  pub revents : Events
  pub index : Index
  pub tied : Bool
  pub has_read : Bool
  pub has_write : Bool
  pub has_close : Bool
  pub has_error : Bool

unfoldable pub create : ℕ → ℕ → Chan
create id fd = record {
  id = id;
  fd = fd;
  events = none_event;
  revents = none_event;
  index = fresh;
  tied = false;
  has_read = false;
  has_write = false;
  has_close = false;
  has_error = false;
}

abbrev pub set_read_callback : Chan → Chan
set_read_callback ch = record ch { has_read = true }

abbrev pub set_write_callback : Chan → Chan
set_write_callback ch = record ch { has_write = true }

abbrev pub set_close_callback : Chan → Chan
set_close_callback ch = record ch { has_close = true }

abbrev pub set_error_callback : Chan → Chan
set_error_callback ch = record ch { has_error = true }

abbrev pub tie : Chan → Chan
tie ch = record ch { tied = true }

abbrev pub set_revents : Chan → Events → Chan
set_revents ch revt = record ch { revents = revt }

abbrev pub set_index : Chan → Index → Chan
set_index ch idx = record ch { index = idx }

abbrev pub is_none_event : Chan → Bool
is_none_event ch = is_empty ch.events

abbrev pub is_writing : Chan → Bool
is_writing ch = meets ch.events write_event

abbrev pub is_reading : Chan → Bool
is_reading ch = meets ch.events read_event

-- The state behind the callbacks is `S`, and `on` runs one of them.
module _ {ℓ} {S : Type ℓ} (on : Handler → S → S) where
  abbrev invoke : Bool → Bool → Handler → S → S
  invoke triggered present h s = if triggered && present then on h s else s

  pub handle_event_with_guard : Chan → S → S
  handle_event_with_guard ch s =
      let r = ch.revents in
      let s₁ = invoke (r.epollhup && not r.epollin) ch.has_close closes s in
      let s₂ = invoke r.epollerr ch.has_error errors s₁ in
      let s₃ = invoke (r.epollin || r.epollpri) ch.has_read reads s₂ in
      invoke r.epollout ch.has_write writes s₃

  -- `alive` says whether the object that the channel is tied to could be locked.
  pub handle_event : Chan → (alive : Bool) → S → S
  unfolding handle_event_with_guard
  handle_event ch alive s =
      if ch.tied
      then (if alive then handle_event_with_guard ch s else s)
      else handle_event_with_guard ch s
