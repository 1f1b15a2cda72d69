-- ===== src/Logger/Session.antt =====
-- Log statements one after the other, with the output functions that the program has set.
use caimr.Prelude.{
  ℕ, ◌+◌, ◌≤◌, ◌<◌, ◌^◌, ◌≡◌, refl, ap, ◌∙◌, Bool, true, false, ◌||◌, inl, inr, Bool-cases, Bytes,
  List, [], ◌∷◌, map, length, if◌then◌else◌,
}
use caimr.LogStream.{Item}
use caimr.LogStream.Insert.{AllAdmissible}
use caimr.Logger.{
  Level, Macro, log_debug, log_info, log_warn, log_error, log_fatal, log, Globals, set_level,
  set_output, set_flush, perform,
}
use caimr.Logger.Lines.{render_all, line_items, level_of, named, ending, log_lem}

-- What a log statement is made with.
pub record Statement : Type 0 where
  pub macro : Macro
  pub garbage : Bytes
  pub time : Bytes
  pub file : Bytes
  pub line : ℕ
  pub func : Bytes
  pub message : List Item

abbrev pub line_of : Statement → Bytes
line_of s =
    render_all (line_items s.time (level_of s.macro) s.file s.line (named s.macro s.func) s.message)

abbrev aborting : Macro → Bool
aborting log_debug = false
aborting log_info = false
aborting log_warn = false
aborting log_error = false
aborting log_fatal = true

abbrev pub is_fatal : Statement → Bool
is_fatal s = aborting s.macro

-- The conditions of `log_lem`.
pub record Fits (s : Statement) : Type 0 where
  pub memory : length s.garbage ≡ 1024
  pub number : s.line < 2 ^ 64
  pub items : AllAdmissible s.message
  pub room : length (line_of s) + 48 ≤ 1024

abbrev pub AllFit : List Statement → Type 0
AllFit [] = Unit {0}
AllFit (s ∷ ss) = Fits s × AllFit ss

-- The statements that are reached: up to the first LOG_FATAL.
abbrev pub reached : List Statement → List Statement
reached [] = []
reached (s ∷ ss) = s ∷ (if is_fatal s then [] else reached ss)

abbrev pub dies : List Statement → Bool
dies [] = false
dies (s ∷ ss) = is_fatal s || dies ss

module _ {ℓ} {W : Type ℓ} where
  abbrev pub statement : Statement → Globals W → W → W × Bool
  statement s g w = perform g (log s.macro s.garbage s.time s.file s.line s.func s.message) w

  abbrev pub or_abort : W × Bool → (W → W × Bool) → W × Bool
  or_abort (w, true) rest = (w, true)
  or_abort (w, false) rest = rest w

  abbrev pub run : List Statement → Globals W → W → W × Bool
  run [] g w = (w, false)
  run (s ∷ ss) g w = or_abort (statement s g w) (λ w. run ss g w)

  -- The output function called with one text after the other.
  abbrev pub write_all : (Bytes → W → W) → List Bytes → W → W
  write_all out [] w = w
  write_all out (text ∷ texts) w = write_all out texts (out text w)

  ending_lem :
      (macro : Macro) (g : Globals W) (w : W)
      → perform g (ending (level_of macro)) w
        ≡ (if aborting macro then g.g_flush w else w, aborting macro)
  unfolding perform
  ending_lem log_debug g w = refl
  ending_lem log_info g w = refl
  ending_lem log_warn g w = refl
  ending_lem log_error g w = refl
  ending_lem log_fatal g w = refl

  statement_lem :
      (s : Statement) (g : Globals W) (w : W)
      → Fits s
      → statement s g w ≡ (
        if is_fatal s then g.g_flush (g.g_output (line_of s) w) else g.g_output (line_of s) w,
        is_fatal s,
      )
  unfolding perform
  statement_lem s g w f =
      ap (λ effects. perform g effects w)
        (log_lem s.macro s.garbage s.time s.file s.line s.func s.message f.memory f.number f.items
          f.room)
      ∙ ending_lem s.macro g (g.g_output (line_of s) w)

  -- Log statements whose lines leave 48 of the 1024 characters of their streams free, as a number needs
  -- to be written, whose integers have 64 bits and whose doubles snprintf prints in less than 48
  -- characters are written in order, each in one call of the function
  -- given to `set_output` last, whatever level has been set: all of them, or those up to the first
  -- LOG_FATAL, after which the function given to `set_flush` last is called, once, and the program
  -- aborts.
  pub run_lem :
      (level : Level) (out : Bytes → W → W) (flush : W → W) (g : Globals W) (ss : List Statement)
      (w : W)
      → AllFit ss
      → run ss (set_flush flush (set_output out (set_level level g))) w ≡ (
        if dies ss
            then flush (write_all out (map line_of (reached ss)) w)
            else write_all out (map line_of (reached ss)) w,
        dies ss,
      )
  run_lem level out flush g [] w f = refl
  run_lem level out flush g (s ∷ ss) w (f, fs) =
      ap (λ r. or_abort r (λ w. run ss (set_flush flush (set_output out (set_level level g))) w))
        (statement_lem s (set_flush flush (set_output out (set_level level g))) w f)
      ∙ elim (Bool-cases (is_fatal s)) [
        | inl fatal ↦ simp fatal
        | inr goes ↦ simp goes (run_lem level out flush g ss (out (line_of s) w) fs)
      ]
