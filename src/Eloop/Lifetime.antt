-- ===== src/Eloop/Lifetime.antt =====
-- The constructor and the destructor of eloop (src/net/eloop.cpp), with the channel of its eventfd and
-- the pointer that each thread keeps to its loop, and `poller::new_default_poller`
-- (src/net/default_poller.cpp).
use caimr.Prelude.{
  ℕ, ◌≡◌, refl, subst, ap, ◌∙◌, Bool, true, false, Option, none, some, [], lookup, ◌>>=◌, not, ◌&&◌,
}
use caimr.Events.{read_event}
use caimr.Chan
use caimr.Chan.{Chan, fresh, deleted}
use caimr.Poller
use caimr.Poller.{Poller}
use caimr.Poller.Interest
use caimr.Poller.Interest.{Epoll}
use caimr.Poller.Registration.{IsRegistered}
use caimr.Eloop.{Eloop, has_chan}
use caimr.Eloop.Channels

-- A loop with its eventfd, `wakeup_fd_`, and its channel.
pub record Owned {ℓ} (F : Type ℓ) : Type ℓ where
  pub loop : Eloop F
  pub wakeup_fd : ℕ
  pub wakeup_ch : Chan
  pub closed : Bool

-- `use_poll`: the variable CAI_USE_POLL is set. `none` is the null pointer.
abbrev pub new_default_poller : (use_poll : Bool) → Option Poller
new_default_poller true = none
new_default_poller false = some Poller.create

-- `none`: the abort() of LOG_FATALF.
abbrev pub create_eventfd : (answer : Option ℕ) → Option ℕ
create_eventfd none = none
create_eventfd (some evtfd) = some evtfd

-- `t_loop_in_this_thread` after the constructor of the loop at the address `this`.
abbrev pub claim_thread : (this : ℕ) → (t_loop_in_this_thread : Option ℕ) → Option ℕ
claim_thread this none = some this
claim_thread this (some other) = none

-- The wakeup channel before `enable_reading`.
abbrev new_chan : (address fd : ℕ) → Chan
new_chan address fd = Chan.set_read_callback (Chan.create address fd)

abbrev pub given : Option ℕ → Bool
given none = false
given (some n) = true

abbrev pub is_made {ℓ} : {A : Type ℓ} → Option A → Bool
is_made none = false
is_made (some a) = true

module _ {ℓ} {F : Type ℓ} where
  -- The constructor, in the thread `tid`, with the address of the new channel and the answer of
  -- eventfd(2); with the loop, the pointer of the thread. `none` where it aborts, and where it uses
  -- the null pointer of the poller.
  pub create :
      (tid this address : ℕ)
      → (use_poll : Bool) → (eventfd_answer t_loop_in_this_thread : Option ℕ) → Option (Owned F × ℕ)
  create tid this address use_poll eventfd_answer t_loop_in_this_thread = do
    poller ← new_default_poller use_poll
    wakeup_fd ← create_eventfd eventfd_answer
    t_loop ← claim_thread this t_loop_in_this_thread
    let (loop, ch) =
        Channels.enable_reading (Chan.set_read_callback (Chan.create address wakeup_fd)) (record {
          looping = false;
          quit_flag = false;
          calling_pending_functors = false;
          thread_id = tid;
          poller = poller;
          pending_functors = [];
          wakeups = 0;
        })
    some (record { loop = loop; wakeup_fd = wakeup_fd; wakeup_ch = ch; closed = false }, t_loop)

  -- The destructor, with the pointer of the thread after it.
  pub destroy : Owned F → Owned F × Option ℕ
  destroy o =
      let (loop, ch) = Channels.disable_all o.wakeup_ch o.loop in
      let (loop', ch') = Channels.remove ch loop in
      (record o { loop = loop'; wakeup_ch = ch'; closed = true }, none)

  -- The loop that the constructor starts from.
  abbrev pub unborn : (tid : ℕ) → Eloop F
  unborn tid = record {
    looping = false;
    quit_flag = false;
    calling_pending_functors = false;
    thread_id = tid;
    poller = Poller.create;
    pending_functors = [];
    wakeups = 0;
  }

  module _ (k : Epoll) where
    new_chan-IsRegistered :
        (address fd : ℕ) (l : Eloop F)
        → lookup fd l.poller.chs ≡ none
        → Interest.watches k l.poller fd ≡ none
        → let (loop, ch) = Channels.enable_reading (new_chan address fd) l in
          IsRegistered k (loop.poller, ch) fd address read_event
    unfolding Chan.create
    new_chan-IsRegistered address fd l unknown unwatched =
        Channels.enable_reading-IsRegistered k (new_chan address fd) l (λ e. cc)
          (unknown, unwatched)

    starts-IsRegistered :
        (tid address fd : ℕ) (l : Eloop F)
        → l ≡ unborn tid
        → let (loop, ch) = Channels.enable_reading (new_chan address fd) l in
          IsRegistered k (loop.poller, ch) fd address read_event
    unfolding Poller.create lookup
    starts-IsRegistered tid address fd l e =
        new_chan-IsRegistered address fd l (ap (λ (m : Eloop F). lookup fd m.poller.chs) e)
          (ap (λ (m : Eloop F). Interest.watches k m.poller fd) e ∙ k.start_empty fd)

    abbrev pub Gone : Owned F × Option ℕ → ℕ → Type 0
    Gone (o, t_loop) fd =
        (Interest.watches k o.loop.poller fd ≡ none)
        × (has_chan o.wakeup_ch o.loop ≡ false)
        × (o.closed ≡ true)
        × (t_loop ≡ none)

    destroy_lem : (o : Owned F) (fd : ℕ) → o.wakeup_ch.fd ≡ fd → Gone (destroy o) fd
    unfolding destroy
    destroy_lem o fd e =
        let (loop, ch) = Channels.disable_all o.wakeup_ch o.loop in
        let (i, w, h) = Channels.remove-unwatched k ch loop in
        let same : (Channels.remove ch loop).1.fd ≡ fd =
          ap (λ (c : Chan). c.fd) (Channels.remove_lem ch loop).0
          ∙ ap (λ (c : Chan). c.fd) (Channels.disable_all-events o.wakeup_ch o.loop)
          ∙ e in
        (
          subst (λ d. Interest.watches k (Channels.remove ch loop).0.poller d ≡ none) same w,
          h,
          refl,
          refl,
        )

    -- In a thread that has no loop, with the epoll poller and an eventfd, the constructor gives a loop
    -- that does not run and has nothing pending, whose eventfd the kernel watches for reading and whose
    -- poller knows the channel, and the thread's pointer is set to it. Whatever has become of the loop
    -- when the destructor runs, the kernel watches the eventfd no longer after it, the poller does not
    -- know the channel, the eventfd is closed and the thread's pointer is null.
    pub life_lem :
        (tid this address fd : ℕ)
        → (o : Owned F) × ((create tid this address false (some fd) none ≡ some (o, this))
            × ((IsRegistered k (o.loop.poller, o.wakeup_ch) fd address read_event)
                × ((o.loop ≡ record (unborn tid) { poller = o.loop.poller })
                    × ((later : Eloop F) → Gone (destroy (record o { loop = later })) fd))))
    unfolding create
    life_lem tid this address fd = (
      _,
      (
        refl,
        (
          starts-IsRegistered tid address fd (unborn tid) refl,
          (
            Channels.enable_reading-loop (new_chan address fd) (unborn tid),
            λ later. destroy_lem _ fd (starts-IsRegistered tid address fd (unborn tid) refl).1,
          ),
        ),
      ),
    )

-- The constructor gives a loop if and only if the thread has none yet, the variable CAI_USE_POLL is
-- not set, and there is an eventfd.
pub create-is_made {ℓ} :
    (F : Type ℓ) (tid this address : ℕ) (use_poll : Bool) (eventfd_answer t_loop : Option ℕ)
    → is_made (create {F = F} tid this address use_poll eventfd_answer t_loop)
      ≡ (not use_poll && given eventfd_answer && not (given t_loop))
unfolding create
create-is_made F tid this address true e t = refl
create-is_made F tid this address false none t = refl
create-is_made F tid this address false (some fd) none = refl
create-is_made F tid this address false (some fd) (some other) = refl
