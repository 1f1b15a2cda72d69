-- ===== src/Poller/Interest.antt =====
-- What the kernel's epoll instance is relied on for: the documented effect of epoll_ctl on the set
-- of descriptors that are watched. The instance itself is a parameter.
use caimr.Prelude.{ℕ, ◌≡◌, ◌≢◌, Option, none, some, List, [], ◌∷◌}
use caimr.Events.{Events}
use caimr.Poller.{Ctl, ctl_add, ctl_mod, ctl_del, Poller}

pub record Epoll : Type 1 where
  pub Set : Type 0
  pub start : Set
  pub apply : Ctl → Set → Set
  pub watched : Set → ℕ → Option (Events × ℕ)
  pub start_empty : (fd : ℕ) → watched start fd ≡ none
  pub add_absent :
      (c : Ctl) (s : Set)
      → c.op ≡ ctl_add
      → watched s c.fd ≡ none
      → watched (apply c s) c.fd ≡ some (c.events, c.ptr)
  pub mod_present :
      (c : Ctl) (s : Set) (e : Events × ℕ)
      → c.op ≡ ctl_mod
      → watched s c.fd ≡ some e
      → watched (apply c s) c.fd ≡ some (c.events, c.ptr)
  pub del_any : (c : Ctl) (s : Set) → c.op ≡ ctl_del → watched (apply c s) c.fd ≡ none
  pub others : (c : Ctl) (s : Set) (fd : ℕ) → c.fd ≢ fd → watched (apply c s) fd ≡ watched s fd

module _ (k : Epoll) where
  open k use {Set, start, apply, watched}

  -- The set after the requests that a poller has made.
  abbrev pub replay : List Ctl → Set
  replay [] = start
  replay (c ∷ cs) = apply c (replay cs)

  abbrev pub watches : Poller → ℕ → Option (Events × ℕ)
  watches p fd = watched (replay p.requests) fd
