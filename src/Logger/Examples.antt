-- ===== src/Logger/Examples.antt =====
-- A log statement of src/main.cpp, with one time stamp of 19 characters.
use caimr.Prelude.{
  ℕ, ◌+◌, ◌≤◌, ◌≡◌, false, ◌++◌, some, Bytes, List, [], ◌∷◌, length, length-replicate, replicate,
  arith,
}
use caimr.LogStream.{Item, c_string, decimal, digit_loop, digit_at}
use caimr.Logger.{
  debug, log_debug, base_name, after_slash, opening, fatal, initial, set_level, set_output,
  set_flush,
}
use caimr.Logger.Lines.{render_all, line_items}
use caimr.Logger.Session.{Statement, Fits, run, run_lem, line_of}

-- "src/a.cpp"
abbrev path : Bytes
path = 115 ∷ 114 ∷ 99 ∷ 47 ∷ 97 ∷ 46 ∷ 99 ∷ 112 ∷ 112 ∷ []

abbrev garbage : Bytes
garbage = replicate 1024 0

abbrev now : Bytes
now = replicate 19 48

abbrev message : List Item
message = c_string (some (104 ∷ 105 ∷ [])) ∷ []

fits : length (render_all (line_items now debug path 7 (some (102 ∷ [])) message)) + 48 ≤ 1024
unfolding render_all line_items opening decimal digit_loop digit_at base_name after_slash
fits = omega arith

abbrev debugging : Statement
debugging = record {
  macro = log_debug;
  garbage = garbage;
  time = now;
  file = path;
  line = 7;
  func = 102 ∷ [];
  message = message;
}

debugging-Fits : Fits debugging
debugging-Fits = record {
  memory = length-replicate {A = ℕ} 1024 0;
  number = omega arith;
  items = (tt, tt);
  room = fits;
}

-- The level FATAL is set, and the line is written all the same.
run_lem_example :
    run
      (debugging ∷ [])
      (set_flush (λ (w : Bytes). w) (set_output (λ text w. w ++ text) (set_level fatal initial)))
      []
    ≡ (line_of debugging, false)
run_lem_example =
    run_lem fatal (λ text w. w ++ text) (λ w. w) initial (debugging ∷ []) [] (debugging-Fits, tt)
