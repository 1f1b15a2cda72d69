-- ===== src/EloopThread/Stages.antt =====
-- How far the owner and the thread may be apart, when nobody but the destructor quits the loop.
use mathlib.Core.Bool.{true≢false}
use caimr.Prelude.{ℕ, ◌≤◌, ◌≡◌, refl, sym, ◌∙◌, ap, subst, ◌⊎◌, inl, inr, Bool, true, false, arith}
use caimr.EloopThread.{
  EloopThread, OwnerPc, constructed, starting, checking, asleep, returned, quitting, joining,
  destroyed, ThreadPc, unborn, born, creating, initialising, published, looping, leaving, ended,
  notify_one, promised,
}

abbrev pub stage : ThreadPc → ℕ
stage unborn = 0
stage born = 1
stage creating = 2
stage initialising = 3
stage published = 4
stage looping = 5
stage leaving = 6
stage ended = 7

-- `loop_` is set.
abbrev pub has_loop : ThreadPc → Bool
has_loop published = true
has_loop looping = true
has_loop leaving = true
has_loop _ = false

-- The first and the last stage of the thread at each place of the owner.
abbrev pub first : OwnerPc → ℕ
first constructed = 0
first starting = 1
first checking = 2
first asleep = 2
first returned = 4
first quitting = 4
first joining = 4
first destroyed = 0

abbrev pub last : OwnerPc → ℕ
last constructed = 0
last asleep = 3
last joining = 7
last destroyed = 7
last _ = 5

-- Only the destructor sets the quit flag.
abbrev pub Unquit : OwnerPc → Bool → Type 0
Unquit joining q = Unit {0}
Unquit destroyed q = Unit {0}
Unquit _ q = q ≡ false

pub record Inv (s : EloopThread) : Type 0 where
  pub loop_lem : s.loop_ ≡ has_loop s.thread
  pub above : first s.owner ≤ stage s.thread
  pub below : stage s.thread ≤ last s.owner
  pub unquit : Unquit s.owner s.quit_flag

-- What holds of an owner that is known to stand at `o`.
pub at :
    {s : EloopThread} {o : OwnerPc}
    → s.owner ≡ o
    → Inv s
    → (first o ≤ stage s.thread) × (stage s.thread ≤ last o) × Unquit o s.quit_flag
at {s} h v = (
  subst (λ o. first o ≤ stage s.thread) h v.above,
  subst (λ o. stage s.thread ≤ last o) h v.below,
  subst (λ o. Unquit o s.quit_flag) h v.unquit,
)

pub loop-thread : {s : EloopThread} {p : ThreadPc} → s.thread ≡ p → Inv s → s.loop_ ≡ has_loop p
loop-thread h v = v.loop_lem ∙ ap has_loop h

pub last-value : (o : OwnerPc) → (last o ≡ 0) ⊎ (last o ≡ 3) ⊎ (last o ≡ 5) ⊎ (last o ≡ 7)
last-value constructed = inl refl
last-value starting = inr (inr (inl refl))
last-value checking = inr (inr (inl refl))
last-value asleep = inr (inl refl)
last-value returned = inr (inr (inl refl))
last-value quitting = inr (inr (inl refl))
last-value joining = inr (inr (inr refl))
last-value destroyed = inr (inr (inr refl))

pub notify-above : (o : OwnerPc) → first o ≤ 3 → first (notify_one o) ≤ 4
unfolding notify_one
notify-above asleep f = omega arith
notify-above constructed f = omega arith
notify-above starting f = omega arith
notify-above checking f = omega arith
notify-above returned f = omega arith
notify-above quitting f = omega arith
notify-above joining f = omega arith
notify-above destroyed f = omega arith

pub notify-below : (o : OwnerPc) → 3 ≤ last o → 4 ≤ last (notify_one o)
unfolding notify_one
notify-below asleep f = omega arith
notify-below constructed f = absurd (omega (arith, f))
notify-below starting f = omega arith
notify-below checking f = omega arith
notify-below returned f = omega arith
notify-below quitting f = omega arith
notify-below joining f = omega arith
notify-below destroyed f = omega arith

pub notify-Unquit : (o : OwnerPc) (q : Bool) → Unquit o q → Unquit (notify_one o) q
unfolding notify_one
notify-Unquit constructed q u = u
notify-Unquit starting q u = u
notify-Unquit checking q u = u
notify-Unquit asleep q u = u
notify-Unquit returned q u = u
notify-Unquit quitting q u = u
notify-Unquit joining q u = u
notify-Unquit destroyed q u = u

pub Unquit-false : (o : OwnerPc) → Unquit o false
Unquit-false constructed = refl
Unquit-false starting = refl
Unquit-false checking = refl
Unquit-false asleep = refl
Unquit-false returned = refl
Unquit-false quitting = refl
Unquit-false joining = tt
Unquit-false destroyed = tt

-- A loop that has been left was quit, by the destructor.
pub quit-last : (o : OwnerPc) (q : Bool) → Unquit o q → q ≡ true → last o ≡ 7
quit-last constructed q u h = absurd (true≢false (sym h ∙ u))
quit-last starting q u h = absurd (true≢false (sym h ∙ u))
quit-last checking q u h = absurd (true≢false (sym h ∙ u))
quit-last asleep q u h = absurd (true≢false (sym h ∙ u))
quit-last returned q u h = absurd (true≢false (sym h ∙ u))
quit-last quitting q u h = absurd (true≢false (sym h ∙ u))
quit-last joining q u h = refl
quit-last destroyed q u h = refl

pub promised-stage : (p : ThreadPc) → promised p ≡ true → 2 ≤ stage p
unfolding promised
promised-stage unborn h = absurd (true≢false (sym h))
promised-stage born h = absurd (true≢false (sym h))
promised-stage creating h = omega arith
promised-stage initialising h = omega arith
promised-stage published h = omega arith
promised-stage looping h = omega arith
promised-stage leaving h = omega arith
promised-stage ended h = omega arith

-- At the stages that a waiting or a returned owner allows, `loop_` is set from `published` on.
pub loop-early : (p : ThreadPc) → stage p ≤ 5 → has_loop p ≡ false → stage p ≤ 3
loop-early published f h = absurd (true≢false h)
loop-early looping f h = absurd (true≢false h)
loop-early leaving f h = absurd (true≢false h)
loop-early unborn f h = omega arith
loop-early born f h = omega arith
loop-early creating f h = omega arith
loop-early initialising f h = omega arith
loop-early ended f h = absurd (omega (arith, f))

pub loop-late : (p : ThreadPc) → has_loop p ≡ true → 4 ≤ stage p
loop-late published h = omega arith
loop-late looping h = omega arith
loop-late leaving h = omega arith
loop-late unborn h = absurd (true≢false (sym h))
loop-late born h = absurd (true≢false (sym h))
loop-late creating h = absurd (true≢false (sym h))
loop-late initialising h = absurd (true≢false (sym h))
loop-late ended h = absurd (true≢false (sym h))

pub loop-none : (p : ThreadPc) → stage p ≤ 3 → has_loop p ≡ false
loop-none published f = absurd (omega (arith, f))
loop-none looping f = absurd (omega (arith, f))
loop-none leaving f = absurd (omega (arith, f))
loop-none unborn f = refl
loop-none born f = refl
loop-none creating f = refl
loop-none initialising f = refl
loop-none ended f = refl
