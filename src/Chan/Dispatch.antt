-- ===== src/Chan/Dispatch.antt =====
-- Which callbacks `handle_event` runs, and in which order.
use caimr.Prelude.{◌≡◌, Bool, not, ◌&&◌, ◌||◌, List, [], ◌∷◌, arith, if◌then◌else◌}
use caimr.Events.{Events}
use caimr.Chan.{Chan, Handler, reads, writes, closes, errors, handle_event}

-- When a callback is due: the event is reported, the callback is set, and the object that the
-- channel depends on is alive.
abbrev pub due : Chan → Bool → Handler → Bool
due ch alive h = (not ch.tied || alive) && wanted h
  where
    r : Events
    r = ch.revents

    wanted : Handler → Bool
    wanted closes = r.epollhup && not r.epollin && ch.has_close
    wanted errors = r.epollerr && ch.has_error
    wanted reads = (r.epollin || r.epollpri) && ch.has_read
    wanted writes = r.epollout && ch.has_write

abbrev pub keep : (Handler → Bool) → List Handler → List Handler
keep p [] = []
keep p (h ∷ hs) = if p h then h ∷ keep p hs else keep p hs

abbrev pub run_all {ℓ} : {S : Type ℓ} → (Handler → S → S) → List Handler → S → S
run_all on [] s = s
run_all on (h ∷ hs) s = run_all on hs (on h s)

-- `handle_event` runs the due callbacks, each once, in the order close, error, read, write, each on
-- the state that the one before left; no other callback runs, and none at all if the object that
-- the channel is tied to has died.
pub handle_event_lem {ℓ} :
    {S : Type ℓ} (on : Handler → S → S) (ch : Chan) (alive : Bool) (s : S)
    → handle_event on ch alive s
      ≡ run_all on (keep (due ch alive) (closes ∷ errors ∷ reads ∷ writes ∷ [])) s
unfolding handle_event
handle_event_lem on ch alive s = ground arith
