-- ===== src/Chan/Examples.antt =====
-- The dispatch and the masks on concrete events.
use caimr.Prelude.{◌≡◌, refl, true, false, List, [], ◌∷◌, ◌++◌}
use caimr.Events.{read_event, write_event, union}
use caimr.Chan.{
  Chan, Handler, reads, writes, closes, errors, create, handle_event, handle_event_with_guard,
}
use caimr.Chan.Dispatch.{due, keep, run_all, handle_event_lem}

-- Readable and writable, with an error; no close callback is set.
abbrev busy : Chan
busy = record (create 100 5) {
  revents = record (union read_event write_event) { epollerr = true };
  tied = true;
  has_read = true;
  has_write = true;
  has_error = true;
}

abbrev record_handler : Handler → List Handler → List Handler
record_handler h run = run ++ h ∷ []

handle_event_lem_example :
    handle_event record_handler busy true []
    ≡ run_all record_handler (keep (due busy true) (closes ∷ errors ∷ reads ∷ writes ∷ [])) []
handle_event_lem_example = handle_event_lem record_handler busy true []

order : handle_event record_handler busy true [] ≡ errors ∷ reads ∷ writes ∷ []
unfolding handle_event handle_event_with_guard create
order = refl

dead_object : handle_event record_handler busy false [] ≡ []
unfolding handle_event handle_event_with_guard create
dead_object = refl
