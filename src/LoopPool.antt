-- ===== src/LoopPool.antt =====
-- include/net/eloop_tpool.h and src/net/eloop_tpool.cpp: a pool of event loops, one for each of its
-- threads, handed out in turn. The type `L` stands for eloop*.
pub mod Rotation
mod Examples
use caimr.Prelude.{
  ℕ, zero, suc, ◌+◌, ◌%◌, Bool, true, false, Option, none, some, List, [], ◌∷◌, ◌++◌, length,
  get_elem?, ◌==◌, ◌&&◌, if◌then◌else◌,
}

pub record LoopPool (L : Type 0) : Type 0 where
  pub base_loop : L
  pub started : Bool
  pub num_threads : ℕ
  pub next_idx : ℕ
  pub loops : List L

module _ {L : Type 0} where
  unfoldable pub create : L → LoopPool L
  create base_loop = record {
    base_loop = base_loop;
    started = false;
    num_threads = 0;
    next_idx = 0;
    loops = [];
  }

  unfoldable pub set_thread_num : ℕ → LoopPool L → LoopPool L
  set_thread_num num_threads p = record p { num_threads = num_threads }

  -- The loop of `start`, from the thread `i` on: `start_loop i` is what `start_loop` of the i-th
  -- eloop_thread returns.
  unfoldable pub start_threads : (ℕ → L) → (i left : ℕ) → List L
  start_threads start_loop i zero = []
  start_threads start_loop i (suc left) = start_loop i ∷ start_threads start_loop (suc i) left

  -- The second result are the loops for which `start` itself calls `cb`, if it is set: each thread
  -- calls it for its own loop.
  unfoldable pub start : (ℕ → L) → (cb_set : Bool) → LoopPool L → LoopPool L × List L
  unfolding start_threads
  start start_loop cb_set p =
      let loops = p.loops ++ start_threads start_loop 0 p.num_threads in
      let called = if (p.num_threads == 0) && cb_set then p.base_loop ∷ [] else [] in
      (record p { started = true; loops = loops }, called)

  -- `none`: the index lies outside the vector.
  unfoldable pub get_next_loop : LoopPool L → Option L × LoopPool L
  get_next_loop p =
      if length p.loops == 0
      then (some p.base_loop, p)
      else (get_elem? p.loops p.next_idx, record p { next_idx = (p.next_idx + 1) % length p.loops })

  pub get_all_loops : LoopPool L → List L
  get_all_loops p = if length p.loops == 0 then p.base_loop ∷ [] else p.loops
