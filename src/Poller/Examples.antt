-- ===== src/Poller/Examples.antt =====
-- An epoll instance that keeps to the documented behaviour, and the poller's theorems with it.
use caimr.Prelude.{
  ℕ, ◌*◌, ◌≡◌, ◌≢◌, refl, true, false, Option, none, some, List, [], ◌∷◌, arith, ◌==◌, lookup,
  if◌then◌else◌,
}
use caimr.Events.{Events, none_event, read_event, write_event}
use caimr.Chan
use caimr.Chan.{Chan, added, deleted}
use caimr.Poller.{Poller, Ctl, CtlOp, ctl_add, ctl_mod, ctl_del, update_chan, poll, ready}
use caimr.Poller.Interest.{Epoll}
use caimr.Poller.Registration.{Synced, IsRegistered, update_chan-IsRegistered}
use caimr.Poller.Poll.{find, latest, told, poll_lem}

-- What a request leaves at its own descriptor.
effect : Ctl → CtlOp → Option (Events × ℕ) → Option (Events × ℕ)
effect c ctl_add none = some (c.events, c.ptr)
effect c ctl_add (some e) = some e
effect c ctl_mod none = none
effect c ctl_mod (some e) = some (c.events, c.ptr)
effect c ctl_del e = none

effect_add :
    (c : Ctl) (o : CtlOp) (e : Option (Events × ℕ))
    → o ≡ ctl_add
    → e ≡ none
    → effect c o e ≡ some (c.events, c.ptr)
unfolding effect
effect_add c o e h n = ground arith

effect_mod :
    (c : Ctl) (o : CtlOp) (e : Option (Events × ℕ)) (d : Events × ℕ)
    → o ≡ ctl_mod
    → e ≡ some d
    → effect c o e ≡ some (c.events, c.ptr)
unfolding effect
effect_mod c o e d h n = ground arith

effect_del : (c : Ctl) (o : CtlOp) (e : Option (Events × ℕ)) → o ≡ ctl_del → effect c o e ≡ none
unfolding effect
effect_del c o e h = ground arith

same_fd : (n : ℕ) → (n == n) ≡ true
same_fd n = ground arith

other_fd : (n m : ℕ) → n ≢ m → (n == m) ≡ false
other_fd n m h = ground arith

pub table : Epoll
table = record {
  Set = ℕ → Option (Events × ℕ);
  start = λ _. none;
  apply = λ c s fd. if c.fd == fd then effect c c.op (s fd) else s fd;
  watched = λ s fd. s fd;
  start_empty = λ _. refl;
  add_absent = λ c s h n. simp (same_fd c.fd) (effect_add c c.op (s c.fd) h n);
  mod_present = λ c s e h n. simp (same_fd c.fd) (effect_mod c c.op (s c.fd) e h n);
  del_any = λ c s h. simp (same_fd c.fd) (effect_del c c.op (s c.fd) h);
  others = λ c s fd ne. simp (other_fd c.fd fd ne);
}

abbrev empty : Poller
empty = record { chs = []; events_size = 2; requests = [] }

abbrev seven : Chan
seven = record {
  id = 1000;
  fd = 7;
  events = none_event;
  revents = none_event;
  index = Chan.fresh;
  tied = false;
  has_read = true;
  has_write = true;
  has_close = true;
  has_error = true;
}

abbrev nine : Chan
nine = record seven { id = 2000; fd = 9 }

seven-Synced : Synced table empty seven
unfolding lookup table
seven-Synced = (refl, refl)

nine-Synced : Synced table empty nine
unfolding lookup table
nine-Synced = (refl, refl)

update_chan-IsRegistered_example :
    IsRegistered table (update_chan empty (record seven { events = read_event })) 7 1000 read_event
update_chan-IsRegistered_example =
    update_chan-IsRegistered table empty seven read_event (λ h. cc) seven-Synced

abbrev reported : List (Events × ℕ)
reported = (read_event, 2000) ∷ (write_event, 1000) ∷ []

poll_lem_example :
    let (p, chans, active) = poll empty (ready reported) (seven ∷ nine ∷ []) [] in
    (active ≡ 2000 ∷ 1000 ∷ [])
    × ((id : ℕ) → find id chans ≡ told (latest id reported) (find id (seven ∷ nine ∷ [])))
    × (p.events_size ≡ 2 * 2)
    × (p.chs ≡ [])
    × (p.requests ≡ [])
poll_lem_example = poll_lem empty reported (seven ∷ nine ∷ []) [] (omega arith) (omega arith)
