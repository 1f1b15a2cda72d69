-- ===== src/LoopPool/Rotation.antt =====
-- In which order `get_next_loop` hands out the loops.
use native.Mathlib.Nat.{mod-lt, mod-eq_of_lt, mod-add-mod}
use caimr.Prelude.{
  ℕ, zero, suc, ◌+◌, ◌%◌, ◌<◌, ◌≡◌, refl, sym, ap, ap₂, ◌∙◌, inl, inr, Bool-cases, Bool, Option,
  some, List, [], ◌∷◌, length, length-append, get_elem?, ◌==◌, arith,
}
use caimr.LoopPool.{
  LoopPool, create, start_threads, set_thread_num, start, get_next_loop, get_all_loops,
}

module _ {L : Type 0} where
  -- The pool after `k` calls of `get_next_loop`.
  unfoldable pub after_calls : ℕ → LoopPool L → LoopPool L
  after_calls zero p = p
  after_calls (suc k) p = after_calls k (get_next_loop p).1

  -- The index of the next loop lies inside the vector, or is 0 as long as it is empty.
  abbrev pub IsValid : LoopPool L → Type 0
  IsValid p = p.next_idx < length (get_all_loops p)

  in_range : (xs : List L) (i : ℕ) → i < length xs → (x : L) × (get_elem? xs i ≡ some x)
  in_range [] i h = absurd (omega (arith, h))
  in_range (x ∷ xs) zero h = (x, refl)
  in_range (x ∷ xs) (suc i) h = in_range xs i (omega (arith, h))

  record Called (p : LoopPool L) (r : Option L × LoopPool L) : Type 0 where
    result : r.0 ≡ get_elem? (get_all_loops p) p.next_idx
    loops : get_all_loops r.1 ≡ get_all_loops p
    index : r.1.next_idx ≡ (p.next_idx + 1) % length (get_all_loops p)

  -- A call keeps the loops, and moves the index on by one, around the end.
  get_next_loop-Called : (p : LoopPool L) → IsValid p → Called p (get_next_loop p)
  unfolding get_next_loop get_all_loops
  get_next_loop-Called p v = elim (Bool-cases (length p.loops == 0)) [
    | inr some_loops ↦ record {
      result = simp some_loops refl;
      loops = simp some_loops refl;
      index = simp some_loops refl;
    }
    | inl empty ↦
        let first : p.next_idx ≡ 0 = omega (arith, simp empty at v) in
        record {
          result = simp (empty, first) refl;
          loops = simp empty refl;
          index = simp (empty, first) refl;
        }
  ]

  next-IsValid : (p : LoopPool L) → IsValid p → IsValid (get_next_loop p).1
  next-IsValid p v =
      let c = get_next_loop-Called p v in
      let inside : (p.next_idx + 1) % length (get_all_loops p) < length (get_all_loops p) =
        mod-lt (p.next_idx + 1) (omega (arith, v)) in
      omega (arith, inside, c.index, ap length c.loops)

  index_lem :
      (k : ℕ) (p : LoopPool L)
      → IsValid p
      → ((after_calls k p).next_idx ≡ (p.next_idx + k) % length (get_all_loops p))
        × (get_all_loops (after_calls k p) ≡ get_all_loops p)
  unfolding after_calls
  index_lem zero p v =
      (sym (mod-eq_of_lt v) ∙ ap (λ i. i % length (get_all_loops p)) (omega arith), refl)
  index_lem (suc k) p v =
      let c = get_next_loop-Called p v in
      let n = length (get_all_loops p) in
      let (index, loops) = index_lem k (get_next_loop p).1 (next-IsValid p v) in
      (
        index
            ∙ ap₂ (λ i xs. (i + k) % length xs) c.index c.loops
            ∙ mod-add-mod (p.next_idx + 1) n k
            ∙ ap (λ i. i % n) (omega arith),
        loops ∙ c.loops,
      )

  after_calls-IsValid : (k : ℕ) (p : LoopPool L) → IsValid p → IsValid (after_calls k p)
  unfolding after_calls
  after_calls-IsValid zero p v = v
  after_calls-IsValid (suc k) p v = after_calls-IsValid k (get_next_loop p).1 (next-IsValid p v)

  -- The loops are handed out in turn: of a valid pool of `n` loops (the base loop alone, if there are
  -- no threads), the call that comes after `k` others returns the loop whose index is `k` places
  -- further, modulo `n`; and there is one at that place.
  pub round_robin :
      (k : ℕ) (p : LoopPool L)
      → IsValid p
      → ((get_next_loop (after_calls k p)).0
          ≡ get_elem? (get_all_loops p) ((p.next_idx + k) % length (get_all_loops p)))
        × ((l : L) × ((get_next_loop (after_calls k p)).0 ≡ some l))
  round_robin k p v =
      let c = get_next_loop-Called (after_calls k p) (after_calls-IsValid k p v) in
      let (index, loops) = index_lem k p v in
      let (l, e) =
        in_range (get_all_loops (after_calls k p)) (after_calls k p).next_idx
          (after_calls-IsValid k p v) in
      (c.result ∙ ap₂ get_elem? loops index, (l, c.result ∙ e))

  all_loops-nonempty : (p : LoopPool L) → 0 < length (get_all_loops p)
  unfolding get_all_loops
  all_loops-nonempty p = elim (Bool-cases (length p.loops == 0)) [
    | inl empty ↦ simp empty (omega arith)
    | inr some_loops ↦ simp some_loops (ground (arith, some_loops))
  ]

  -- A valid pool has a loop to hand out, and stays valid.
  pub get_next_loop-IsValid :
      (p : LoopPool L)
      → IsValid p
      → ((l : L) × ((get_next_loop p).0 ≡ some l)) × IsValid (get_next_loop p).1
  get_next_loop-IsValid p v =
      let (l, e) = in_range (get_all_loops p) p.next_idx v in
      ((l, (get_next_loop-Called p v).result ∙ e), next-IsValid p v)

  pub create-IsValid : (base_loop : L) → IsValid (create base_loop)
  unfolding create
  create-IsValid base_loop = all_loops-nonempty (create base_loop)

  pub set_thread_num-IsValid :
      (num_threads : ℕ) (p : LoopPool L) → IsValid p → IsValid (set_thread_num num_threads p)
  unfolding set_thread_num get_all_loops
  set_thread_num-IsValid num_threads p v = v

  pub start-IsValid :
      (start_loop : ℕ → L) (cb_set : Bool) (p : LoopPool L)
      → IsValid p
      → IsValid (start start_loop cb_set p).0
  unfolding start get_all_loops
  start-IsValid start_loop cb_set p v = elim (Bool-cases (length p.loops == 0)) [
    | inl empty ↦ omega (arith, simp empty at v, all_loops-nonempty (start start_loop cb_set p).0)
    | inr some_loops ↦
        ground
          (arith, some_loops, v, length-append p.loops (start_threads start_loop 0 p.num_threads))
  ]
