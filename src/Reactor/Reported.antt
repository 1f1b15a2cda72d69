-- ===== src/Reactor/Reported.antt =====
-- Poll reports a connection only once it is established.
use caimr.Prelude.{ℕ, ◌≡◌, ◌≢◌, inl, inr, sym, subst, ◌∙◌, some, lookup, insert}
use mathlib.Core.Option.{some-injective}
use caimr.Events.{Events}
use caimr.Eloop.{Eloop}
use caimr.Functor.{Functor}
use caimr.Poller.Interest
use caimr.Poller.Interest.{Epoll}
use caimr.TcpConn.{TcpConn, Callbacks, connenting}
use caimr.TcpConn.Inputs.{Room}
use caimr.Reactor.{
  Reactor, Step, Reach, here, next, enters, establishes, calls, reports, dispatches, completes,
  overflows, destroys, turns,
}
use caimr.Reactor.Served.{found, remaining, told-back}
use caimr.Reactor.Owners.{Consistent}
use caimr.Reactor.Steps.{Fair}
use caimr.Reactor.Dangling.{watches-Alive}

module _ (k : Epoll) (cb : Callbacks) (room : Room) (l : Eloop Functor) where
  -- No connection lies at `a`.
  abbrev Vacant : (a : ℕ) → Reactor → Type 0
  Vacant a r = (c : TcpConn) → lookup a r.conns ≢ some c

  visit-Vacant :
      (a b : ℕ) (c c' : TcpConn) (r : Reactor)
      → Vacant a r
      → lookup b r.conns ≡ some c
      → (d : TcpConn) → lookup a (insert b c' r.conns) ≢ some d
  visit-Vacant a b c c' r v present d h = elim (found k b a c' d r h) [
    | inl (e, _) ↦ v c (subst (λ x. lookup x r.conns ≡ some c) e present)
    | inr (_, h') ↦ v d h'
  ]

  -- A step puts no connection where a channel of the loop itself lies.
  step-Vacant :
      (fd : ℕ) (events : Events) (a : ℕ)
      → Interest.watches k l.poller fd ≡ some (events, a)
      → {r s : Reactor} → Step k cb room l r s
      → Vacant a r
      → Vacant a s
  step-Vacant fd events a w {r} (enters id sockfd b answer absent elsewhere unwatched apart) v d h =
      elim (found k b a _ d r h) [
        | inl (e, _) ↦
            elsewhere fd events
              (subst (λ x. Interest.watches k l.poller fd ≡ some (events, x)) (sym e) w)
        | inr (_, h') ↦ v d h'
      ]
  step-Vacant fd events a w {r} (establishes b c present e ok) v d h =
      visit-Vacant a b c _ r v present d h
  step-Vacant fd events a w {r} (calls b c input (present, up) is allowed) v d h =
      visit-Vacant a b c _ r v present d h
  step-Vacant fd events a w {r} (reports conns was) v d h =
      let (c, (_, (present, _))) = told-back (lookup a r.conns) (lookup a conns) d (was a) h in
      v c present
  step-Vacant fd events a w {r} (dispatches b c readv write (present, up) allowed) v d h =
      visit-Vacant a b c _ r v present d h
  step-Vacant fd events a w {r} (completes b c (present, up) ok) v d h =
      visit-Vacant a b c _ r v present d h
  step-Vacant fd events a w {r} (overflows b c len (present, up) ok) v d h =
      visit-Vacant a b c _ r v present d h
  step-Vacant fd events a w {r} (destroys b c (present, up)) v d h = v d (remaining k b a d r h).1
  step-Vacant fd events a w {r} (turns l' chs requests) v d h = v d h

  Reach-Vacant :
      (fd : ℕ) (events : Events) (a : ℕ)
      → Interest.watches k l.poller fd ≡ some (events, a)
      → {r : Reactor} → Reach k cb room l r
      → Vacant a r
  unfolding lookup
  Reach-Vacant fd events a w here c h = cc h
  Reach-Vacant fd events a w (next before step) c h =
      step-Vacant fd events a w step (Reach-Vacant fd events a w before) c h

  -- What the kernel watches for the connection at `ptr` is an established connection.
  pub reported_started :
      Fair k cb room
      → Consistent k l.poller
      → (r : Reactor) → Reach k cb room l r
      → (fd : ℕ) (events : Events) (ptr : ℕ)
      → Interest.watches k r.loop.poller fd ≡ some (events, ptr)
      → (c : TcpConn) → lookup ptr r.conns ≡ some c
      → c.state ≢ connenting
  reported_started fair start r reached fd events ptr w c present =
      elim (watches-Alive k cb room fair l start r reached fd events ptr w) [
        | inl own ↦ absurd (Reach-Vacant fd events ptr own reached c present)
        | inr alive ↦
            subst (λ (t : TcpConn). t.state ≢ connenting)
              (some-injective alive.conn c (sym alive.found ∙ present)) alive.started
      ]
