-- ===== src/Thread/Examples.antt =====
-- Threads with names and without, started, joined and started again.
use caimr.Prelude.{◌≡◌, refl, true, List, [], ◌∷◌, length}
use caimr.LogStream.{decimal}
use caimr.Thread.{
  Thread, joinable, returned, terminated, default_name, create, start, join, destroy,
}
use caimr.Thread.Life.{Call, starts, joins, calls, destroy_lem}

-- "thread1" and "thread-2147483648", the name behind the largest int.
name_1 : default_name 1 ≡ 116 ∷ 104 ∷ 114 ∷ 101 ∷ 97 ∷ 100 ∷ 49 ∷ []
unfolding default_name decimal
name_1 = refl

name_wrapped : length (default_name 2147483648) ≡ 17
unfolding default_name decimal
name_wrapped = refl

first_named : (create [] 0).0.name_ ≡ default_name 1
unfolding create
first_named = refl

abbrev again : List Call
again = starts ∷ joins ∷ starts ∷ []

-- A thread that was given the name "a", joined and started again.
abbrev restarted : Thread
restarted = record {
  started_ = true;
  joined_ = true;
  thread_ = joinable;
  tid_ = 0;
  name_ = 97 ∷ [];
}

restarts : calls again (create (97 ∷ []) 0).0 ≡ returned restarted
unfolding create start join
restarts = refl

destroy_lem_example : destroy restarted ≡ terminated
destroy_lem_example = destroy_lem again (97 ∷ []) 0 restarted restarts
