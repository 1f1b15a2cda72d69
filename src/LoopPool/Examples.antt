-- ===== src/LoopPool/Examples.antt =====
-- A pool of three loops: loop `i` has the number 10 + i, the base loop is 1.
use caimr.Prelude.{ℕ, ◌+◌, ◌%◌, ◌≡◌, refl, true, some, length, get_elem?}
use caimr.LoopPool.{
  LoopPool, create, set_thread_num, start, start_threads, get_next_loop, get_all_loops,
}
use caimr.LoopPool.Rotation.{
  after_calls, create-IsValid, set_thread_num-IsValid, start-IsValid, round_robin,
}

abbrev three : LoopPool ℕ
three = (start (λ i. 10 + i) true (set_thread_num 3 (create 1))).0

round_robin_example :
    ((get_next_loop (after_calls 4 three)).0
      ≡ get_elem? (get_all_loops three) ((three.next_idx + 4) % length (get_all_loops three)))
    × ((l : ℕ) × ((get_next_loop (after_calls 4 three)).0 ≡ some l))
round_robin_example =
    round_robin 4 three
      (start-IsValid (λ i. 10 + i) true _ (set_thread_num-IsValid 3 _ (create-IsValid 1)))

fifth : (get_next_loop (after_calls 4 three)).0 ≡ some 11
unfolding get_next_loop after_calls start start_threads set_thread_num create
fifth = refl
