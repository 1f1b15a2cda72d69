-- ===== src/Logger/Lines.antt =====
-- What the log macros write.
use caimr.Prelude.{
  ℕ, ◌+◌, ◌-◌, ◌≤◌, ◌<◌, ◌^◌, ◌≡◌, refl, sym, ap, ◌∙◌, true, Option, none, some, Bytes, List, [],
  ◌∷◌, ◌++◌, length, length-append, lt→ltb, le→leb, ◌==◌, if◌then◌else◌, arith,
}
use caimr.FixedBuffer.{FixedBuffer, IsValid, size, to_string, create}
use caimr.LogStream.{Item, integer, double, character, c_string, block, max_num_size, insert_all}
use caimr.LogStream.Insert.{render, finds_room, kept_all, AllAdmissible, insert_all_lem}
use caimr.Logger.{
  Level, debug, info, warn, error, fatal, level_number, opening, calling, Effect, outputs, flushes,
  aborts, finish, write_line, new_stream, Macro, log_debug, log_info, log_warn, log_error,
  log_fatal, log,
}

-- The text of a chain of which nothing is dropped.
unfoldable pub render_all : List Item → Bytes
render_all [] = []
render_all (item ∷ items) = render item ++ render_all items

fits_item :
    (item : Item) (room : ℕ) → length (render item) + 48 ≤ room → finds_room item room ≡ true
fits_item (integer v) room h = le→leb max_num_size room (omega (arith, h))
fits_item (double printed) room h = le→leb max_num_size room (omega (arith, h))
fits_item (character c) room h = lt→ltb _ room (omega (arith, h))
fits_item (c_string none) room h = lt→ltb _ room (omega (arith, h))
fits_item (c_string (some str)) room h = lt→ltb _ room (omega (arith, h))
fits_item (block bytes) room h = lt→ltb _ room (omega (arith, h))

kept_all-fits :
    (items : List Item) (room : ℕ)
    → length (render_all items) + 48 ≤ room
    → kept_all room items ≡ render_all items
unfolding render_all kept_all
kept_all-fits [] room h = refl
kept_all-fits (item ∷ items) room h =
    let split = length-append (render item) (render_all items) in
    let fits = fits_item item room (omega (arith, split, h)) in
    simp fits (
      ap (λ t. render item ++ t)
        (kept_all-fits items (room - length (render item)) (omega (arith, split, h))))

insert_all-append :
    (xs ys : List Item) (b : FixedBuffer)
    → insert_all (xs ++ ys) b ≡ insert_all ys (insert_all xs b)
unfolding insert_all
insert_all-append [] ys b = refl
insert_all-append (x ∷ xs) ys b = insert_all-append xs ys _

AllAdmissible-append :
    (xs ys : List Item) → AllAdmissible xs → AllAdmissible ys → AllAdmissible (xs ++ ys)
AllAdmissible-append [] ys h k = k
AllAdmissible-append (x ∷ xs) ys (h, hs) k = (h, AllAdmissible-append xs ys hs k)

-- All that goes into the stream of a statement.
unfoldable pub line_items :
    (time : Bytes) → Level → (file : Bytes) → (line : ℕ) → Option Bytes → List Item → List Item
line_items time level file line func message =
    opening time level 0 [] file line ++ (calling func ++ (message ++ character 10 ∷ []))

calling-AllAdmissible : (func : Option Bytes) → AllAdmissible (calling func)
calling-AllAdmissible none = tt
calling-AllAdmissible (some func) = (tt, (tt, (tt, tt)))

line_items-AllAdmissible :
    (time : Bytes) (level : Level) (file : Bytes) (line : ℕ) (func : Option Bytes)
    (message : List Item)
    → line < 2 ^ 64
    → AllAdmissible message
    → AllAdmissible (line_items time level file line func message)
unfolding line_items opening
line_items-AllAdmissible time level file line func message h a =
    let rest =
      AllAdmissible-append (calling func) (message ++ character 10 ∷ [])
        (calling-AllAdmissible func)
        (AllAdmissible-append message (character 10 ∷ []) a (tt, tt)) in
    (tt, (tt, (tt, (tt, (h, (tt, rest))))))

-- What comes after the output: FATAL ends the program.
abbrev pub ending : Level → List Effect
ending level = if level_number level == level_number fatal then flushes ∷ aborts ∷ [] else []

-- The four steps of a statement are one chain.
one_chain :
    (os cs ms es : List Item) (b : FixedBuffer)
    → insert_all (os ++ (cs ++ (ms ++ es))) b
      ≡ insert_all es (insert_all ms (insert_all cs (insert_all os b)))
one_chain os cs ms es b =
    insert_all-append os (cs ++ (ms ++ es)) b
    ∙ insert_all-append cs (ms ++ es) (insert_all os b)
    ∙ insert_all-append ms es (insert_all cs (insert_all os b))

new_stream-IsValid : (garbage : Bytes) → length garbage ≡ 1024 → IsValid (new_stream garbage)
unfolding create
new_stream-IsValid garbage h = record { inside = omega arith; small = omega (arith, h) }

new_stream_text :
    (garbage : Bytes) (items : List Item)
    → length garbage ≡ 1024
    → AllAdmissible items
    → length (render_all items) + 48 ≤ 1024
    → to_string (insert_all items (new_stream garbage)) ≡ render_all items
unfolding create
new_stream_text garbage items h a fits =
    (insert_all_lem items (new_stream garbage) (new_stream-IsValid garbage h) a).0
    ∙ kept_all-fits items (size (new_stream garbage)) (omega (arith, h, fits))

write_line_lem :
    (garbage time : Bytes) (level : Level) (file : Bytes) (line : ℕ) (func : Option Bytes)
    (message : List Item)
    → length garbage ≡ 1024
    → line < 2 ^ 64
    → AllAdmissible message
    → length (render_all (line_items time level file line func message)) + 48 ≤ 1024
    → write_line garbage time level file line func message
      ≡ outputs (render_all (line_items time level file line func message)) ∷ ending level
unfolding write_line finish line_items
write_line_lem garbage time level file line func message size_1024 small a fits =
    ap (λ t. outputs t ∷ ending level)
      (ap to_string (
          sym (
            one_chain (opening time level 0 [] file line) (calling func) message (character 10 ∷ [])
              (new_stream garbage)))
        ∙ new_stream_text garbage _ size_1024
            (line_items-AllAdmissible time level file line func message small a) fits)

-- The level at which a macro logs, and the function that it names.
abbrev pub level_of : Macro → Level
level_of log_debug = debug
level_of log_info = info
level_of log_warn = warn
level_of log_error = error
level_of log_fatal = fatal

abbrev pub named : Macro → Bytes → Option Bytes
named log_debug func = some func
named _ func = none

-- A log statement whose text, with 48 characters to spare, fits into the 1024 of the stream, and
-- whose numbers are such as the stream admits, writes it as one line: the time, the file's base
-- name, the line number, the level, for LOG_DEBUG the function, the message and a newline, in one
-- call of the output function, after which only LOG_FATAL flushes and aborts. This holds of LOG_DEBUG
-- and LOG_INFO too: no level that is set keeps them from writing.
pub log_lem :
    (macro : Macro) (garbage time file : Bytes) (line : ℕ) (func : Bytes) (message : List Item)
    → length garbage ≡ 1024
    → line < 2 ^ 64
    → AllAdmissible message
    → length (render_all (line_items time (level_of macro) file line (named macro func) message))
        + 48
      ≤ 1024
    → log macro garbage time file line func message
      ≡ outputs (render_all (line_items time (level_of macro) file line (named macro func) message))
        ∷ ending (level_of macro)
unfolding log
log_lem log_debug garbage time file line func message h small a fits =
    write_line_lem garbage time debug file line (some func) message h small a fits
log_lem log_info garbage time file line func message h small a fits =
    write_line_lem garbage time info file line none message h small a fits
log_lem log_warn garbage time file line func message h small a fits =
    write_line_lem garbage time warn file line none message h small a fits
log_lem log_error garbage time file line func message h small a fits =
    write_line_lem garbage time error file line none message h small a fits
log_lem log_fatal garbage time file line func message h small a fits =
    write_line_lem garbage time fatal file line none message h small a fits
