-- ===== src/Logger.antt =====
-- include/log/logging.h and src/log/logging.cpp: a log line is put together in a stream while the
-- `logger` lives, and written when it dies. What the clock, snprintf and the compiler supply
-- (`time`, `formatted`, `file`, `line`, `func`) are arguments.
pub mod Lines
pub mod BaseName
pub mod Session
mod Examples
use caimr.Prelude.{
  ℕ, zero, suc, ◌+◌, ◌≡◌, Bool, true, false, Option, none, some, Bytes, List, [], ◌∷◌, ◌++◌, take,
  replicate, leb, ◌==◌, if◌then◌else◌,
}
use caimr.FixedBuffer.{FixedBuffer}
use caimr.FixedBuffer
use caimr.LogStream.{ℤ, pos, Item, integer, character, c_string, block, insert_all}

pub data Level : Type 0 where
  trace debug info warn error fatal : Level

abbrev pub level_number : Level → ℕ
level_number trace = 0
level_number debug = 1
level_number info = 2
level_number warn = 3
level_number error = 4
level_number fatal = 5

-- " [TRACE] " and so on.
abbrev pub level_name : Level → Bytes
level_name trace = 32 ∷ 91 ∷ 84 ∷ 82 ∷ 65 ∷ 67 ∷ 69 ∷ 93 ∷ 32 ∷ []
level_name debug = 32 ∷ 91 ∷ 68 ∷ 69 ∷ 66 ∷ 85 ∷ 71 ∷ 93 ∷ 32 ∷ []
level_name info = 32 ∷ 91 ∷ 73 ∷ 78 ∷ 70 ∷ 79 ∷ 93 ∷ 32 ∷ []
level_name warn = 32 ∷ 91 ∷ 87 ∷ 65 ∷ 82 ∷ 78 ∷ 93 ∷ 32 ∷ []
level_name error = 32 ∷ 91 ∷ 69 ∷ 82 ∷ 82 ∷ 79 ∷ 82 ∷ 93 ∷ 32 ∷ []
level_name fatal = 32 ∷ 91 ∷ 70 ∷ 65 ∷ 84 ∷ 65 ∷ 76 ∷ 93 ∷ 32 ∷ []

abbrev pub level_name_len : Level → ℕ
level_name_len trace = 9
level_name_len debug = 9
level_name_len info = 8
level_name_len warn = 8
level_name_len error = 9
level_name_len fatal = 9

-- What stands behind the last slash of `c ∷ cs`, given what stands behind that of `cs`.
abbrev pub behind : Option Bytes → ℕ → Bytes → Option Bytes
behind (some base) c cs = some base
behind none c cs = if c == 47 then some cs else none

-- `strrchr(filename, '/')`, and what stands behind it.
pub after_slash : Bytes → Option Bytes
after_slash [] = none
after_slash (c ∷ cs) = behind (after_slash cs) c cs

-- `data_`: the name, unless there is a slash.
abbrev pub basename_or : Bytes → Option Bytes → Bytes
basename_or filename none = filename
basename_or filename (some base) = base

-- The constructor of `sfile`.
pub base_name : Bytes → Bytes
unfolding after_slash
base_name filename = basename_or filename (after_slash filename)

-- What the constructor of `logger::impl` adds for an errno: its text and " (errno=...) ".
abbrev pub errno_items : (errno : ℕ) → (errno_msg : Bytes) → List Item
errno_items zero errno_msg = []
errno_items (suc e) errno_msg =
    c_string (some errno_msg)
    ∷ c_string (some (32 ∷ 40 ∷ 101 ∷ 114 ∷ 114 ∷ 110 ∷ 111 ∷ 61 ∷ []))
    ∷ integer (pos (suc e))
    ∷ c_string (some (41 ∷ 32 ∷ []))
    ∷ []

-- What the constructor of `logger::impl` puts into the stream. Every logger is made with errno 0.
pub opening :
    (time : Bytes)
    → Level
    → (errno : ℕ) → (errno_msg : Bytes) → (file : Bytes) → (line : ℕ) → List Item
unfolding base_name
opening time level errno errno_msg file line =
    block (take 19 time)
    ∷ character 32
    ∷ block (base_name file)
    ∷ character 58
    ∷ integer (pos line)
    ∷ block (take (level_name_len level) (level_name level))
    ∷ errno_items errno errno_msg

-- The constructor that is also given `func`: "{func} ".
abbrev pub calling : Option Bytes → List Item
calling none = []
calling (some func) = character 123 ∷ c_string (some func) ∷ block (125 ∷ 32 ∷ []) ∷ []

-- What a logger does to the outside: `g_output`, `g_flush`, abort().
pub data Effect : Type 0 where
  outputs : Bytes → Effect
  flushes aborts : Effect

-- A new stream, over whatever lies in its memory.
abbrev pub new_stream : Bytes → FixedBuffer
new_stream garbage = FixedBuffer.create garbage

-- The destructor, which ends the line.
pub finish : Level → FixedBuffer → List Effect
finish level b =
    let b' = insert_all (character 10 ∷ []) b in
    outputs (FixedBuffer.to_string b')
    ∷ (if level_number level == level_number fatal then flushes ∷ aborts ∷ [] else [])

-- A whole statement: the logger is made, `message` is put into its stream, and it dies.
pub write_line :
    (garbage time : Bytes)
    → Level
    → (file : Bytes) → (line : ℕ) → Option Bytes
    → List Item
    → List Effect
unfolding finish opening
write_line garbage time level file line func message = finish level (
    insert_all message (
      insert_all (calling func)
        (insert_all (opening time level 0 [] file line) (new_stream garbage))))

-- `cai::logger::loglevel()` in the macros. Inside the class `logger` the name is that of the enum, not
-- of the function that returns `g_loglevel`, so that this is the enum's value 0.
abbrev pub tested_level : Level
tested_level = trace

-- The macros LOG_DEBUG to LOG_FATAL; `func` is given by LOG_DEBUG only, and only it and LOG_INFO
-- test a level.
pub data Macro : Type 0 where
  log_debug log_info log_warn log_error log_fatal : Macro

pub log :
    Macro → (garbage time file : Bytes) → (line : ℕ) → (func : Bytes) → List Item → List Effect
unfolding write_line
log log_debug garbage time file line func message =
    if leb (level_number tested_level) (level_number debug)
    then write_line garbage time debug file line (some func) message
    else []
log log_info garbage time file line func message =
    if leb (level_number tested_level) (level_number info)
    then write_line garbage time info file line none message
    else []
log log_warn garbage time file line func message =
    write_line garbage time warn file line none message
log log_error garbage time file line func message =
    write_line garbage time error file line none message
log log_fatal garbage time file line func message =
    write_line garbage time fatal file line none message

-- The macros LOG_DEBUGF to LOG_FATALF: snprintf into 1024 characters, the last of them 0.
pub logf : Macro → (garbage time file : Bytes) → (line : ℕ) → (func formatted : Bytes) → List Effect
unfolding log
logf macro garbage time file line func formatted =
    log macro garbage time file line func (c_string (some (take 1023 formatted)) ∷ [])

-- `g_loglevel`, `g_output` and `g_flush`. The state that the output functions change is `W`.
pub record Globals {ℓ} (W : Type ℓ) : Type ℓ where
  pub g_loglevel : Level
  pub g_output : Bytes → W → W
  pub g_flush : W → W

-- At the start of the program they write to stdout: `W` is what stands there.
pub initial : Globals Bytes
initial = record {
  g_loglevel = info;
  g_output = λ text stdout. stdout ++ text;
  g_flush = λ stdout. stdout;
}

module _ {ℓ} {W : Type ℓ} where
  -- The function `loglevel` of the namespace.
  abbrev pub loglevel : Globals W → Level
  loglevel g = g.g_loglevel

  abbrev pub set_level : Level → Globals W → Globals W
  set_level level g = record g { g_loglevel = level }

  abbrev pub set_output : (Bytes → W → W) → Globals W → Globals W
  set_output out g = record g { g_output = out }

  abbrev pub set_flush : (W → W) → Globals W → Globals W
  set_flush flush g = record g { g_flush = flush }

  -- What the effects of a statement do; the Boolean says whether the program has been aborted.
  pub perform : Globals W → List Effect → W → W × Bool
  perform g [] w = (w, false)
  perform g (outputs text ∷ effects) w = perform g effects (g.g_output text w)
  perform g (flushes ∷ effects) w = perform g effects (g.g_flush w)
  perform g (aborts ∷ effects) w = (w, true)
