-- ===== src/Thread/Life.antt =====
-- The calls of a thread object, one after the other, and its destructor.
use caimr.Prelude.{
  ℕ, ◌≡◌, refl, sym, subst, Bool, true, false, not, ◌&&◌, ◌||◌, Bytes, List, [], ◌∷◌, if◌then◌else◌,
}
use caimr.Thread
use caimr.Thread.{
  Thread, Handle, null, joinable, finished, Outcome, returned, terminated, thrown, undefined,
  and_then, detach, release, destroy, tid, create, set_default,
}

pub data Call : Type 0 where
  starts joins : Call

abbrev pub call : Call → Thread → Outcome Thread
call starts t = Thread.start t
call joins t = Thread.join t

abbrev pub calls : List Call → Thread → Outcome Thread
calls [] t = returned t
calls (c ∷ cs) t = and_then (call c t) (calls cs)

abbrev pub is_start : Call → Bool
is_start starts = true
is_start joins = false

-- Whether the last of the calls is `start`; `before` if there is none.
abbrev pub ends_started : Bool → List Call → Bool
ends_started before [] = before
ends_started before (c ∷ cs) = ends_started (is_start c) cs

abbrev pub has_join : List Call → Bool
has_join [] = false
has_join (c ∷ cs) = not (is_start c) || has_join cs

abbrev is_joinable : Handle → Bool
is_joinable joinable = true
is_joinable _ = false

abbrev Fits : Bool → Bool → Handle → Type 0
Fits s j null = (s ≡ false) × (j ≡ false)
Fits s j joinable = s ≡ true
Fits s j finished = (s ≡ true) × (j ≡ true)

abbrev thread : Bool → Bool → Handle → ℕ → Bytes → Thread
thread s j h i n = record { started_ = s; joined_ = j; thread_ = h; tid_ = i; name_ = n }

abbrev Ends : Thread → Bool → ℕ → Type 0
Ends u bad i = (destroy u ≡ (if bad then terminated else returned tt)) × (tid u ≡ i)

release-at :
    (s j : Bool) (h : Handle)
    → Fits s j h
    → release (if s && not j then detach h else returned h)
      ≡ (if is_joinable h && (j || false) then terminated else returned tt)
release-at s j null f = simp (f.0, f.1)
release-at s true joinable f = simp f
release-at s false joinable f = simp f
release-at s j finished f = simp (f.0, f.1)

or_true : (j : Bool) → (j || true) ≡ true
or_true true = refl
or_true false = refl

life-from :
    (cs : List Call) (s j : Bool) (h : Handle) (i : ℕ) (n : Bytes) (u : Thread)
    → Fits s j h
    → calls cs (thread s j h i n) ≡ returned u
    → Ends u (ends_started (is_joinable h) cs && (j || has_join cs)) i
unfolding destroy Thread.start Thread.join
life-from [] s j h i n u f e =
    let same : thread s j h i n ≡ u = cc in
    subst (λ v. Ends v (is_joinable h && (j || false)) i) same (release-at s j h f, refl)
life-from (starts ∷ cs) s j null i n u f e = life-from cs true j joinable i n u refl e
life-from (starts ∷ cs) s j joinable i n u f e = absurd cc
life-from (starts ∷ cs) s j finished i n u f e = life-from cs true j joinable i n u refl e
life-from (joins ∷ cs) s j null i n u f e = absurd cc
life-from (joins ∷ cs) s j joinable i n u f e =
    subst (λ b. Ends u (ends_started false cs && b) i) (sym (or_true j))
      (life-from cs s true finished i n u (f, refl) e)
life-from (joins ∷ cs) s j finished i n u f e = absurd cc

fresh :
    (cs : List Call) (name : Bytes) (tcount : ℕ) (u : Thread)
    → calls cs (create name tcount).0 ≡ returned u
    → Ends u (ends_started false cs && has_join cs) 0
unfolding create
fresh cs [] tcount u e = life-from cs false false null 0 _ u (refl, refl) e
fresh cs (c ∷ name) tcount u e = life-from cs false false null 0 _ u (refl, refl) e

-- How the life of a thread object ends. When the calls of `start` and `join` made on it have all
-- returned, its destructor returns, the thread detached if it was not joined; but it terminates the
-- program when the last call was a `start` and some call before it a `join`.
pub destroy_lem :
    (cs : List Call) (name : Bytes) (tcount : ℕ) (t : Thread)
    → calls cs (create name tcount).0 ≡ returned t
    → destroy t ≡ (if ends_started false cs && has_join cs then terminated else returned tt)
destroy_lem cs name tcount t e = (fresh cs name tcount t e).0

-- The thread id of a thread object is 0 whatever calls of `start` and `join` have returned: `start`
-- assigns it to itself.
pub tid_lem :
    (cs : List Call) (name : Bytes) (tcount : ℕ) (t : Thread)
    → calls cs (create name tcount).0 ≡ returned t
    → tid t ≡ 0
tid_lem cs name tcount t e = (fresh cs name tcount t e).1
