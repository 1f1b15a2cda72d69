-- ===== src/Reactor/Runs.antt =====
-- A run of `eloop::loop` over connections is a run of the step relation of Reactor.
use caimr.Eloop.{Eloop}
use caimr.Functor.{Functor}
