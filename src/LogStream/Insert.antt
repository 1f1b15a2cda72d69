-- ===== src/LogStream/Insert.antt =====
-- What a chain of `<<` leaves in the stream's buffer.
use caimr.Prelude.{
  ℕ, ◌-◌, ◌<◌, ◌≡◌, sym, ap, ◌∙◌, inl, inr, Bool, Bool-cases, none, some, Bytes, List, [], ◌∷◌,
  ◌++◌, append-nil, append_assoc, length, length-write_at, leb, ltb, leb→le, if◌then◌else◌, arith,
}
use caimr.FixedBuffer.{
  FixedBuffer, IsValid, size, to_string, append, append_or_drop, size-append, write_lem,
}
use caimr.LogStream.{
  Item, integer, double, character, c_string, block, decimal, max_num_size, null_text, put, insert,
  insert_all, format_integer, format_double,
}
use caimr.LogStream.Decimal.{InRange, length-decimal}

-- The text of an item.
abbrev pub render : Item → Bytes
render (integer v) = decimal v
render (double printed) = printed
render (character c) = c ∷ []
render (c_string none) = null_text
render (c_string (some str)) = str
render (block bytes) = bytes

-- Whether an item finds room: a number needs 48 free characters, a text one more than its length.
abbrev pub finds_room : Item → ℕ → Bool
finds_room (integer v) room = leb max_num_size room
finds_room (double printed) room = leb max_num_size room
finds_room item room = ltb (length (render item)) room

abbrev pub kept : Item → ℕ → Bytes
kept item room = if finds_room item room then render item else []

-- What a chain adds to a buffer with so much room: each item whole or not at all.
unfoldable pub kept_all : ℕ → List Item → Bytes
kept_all room [] = []
kept_all room (item ∷ items) = kept item room ++ kept_all (room - length (kept item room)) items

-- An integer has 64 bits, and snprintf with "%.12g" prints less than 48 characters.
abbrev pub Admissible : Item → Type 0
Admissible (integer v) = InRange v
Admissible (double printed) = length printed < max_num_size
Admissible _ = Unit {0}

abbrev pub AllAdmissible : List Item → Type 0
AllAdmissible [] = Unit {0}
AllAdmissible (item ∷ items) = Admissible item × AllAdmissible items

-- A buffer whose text has grown by some characters.
record Grown (b : FixedBuffer) (bytes : Bytes) (b' : FixedBuffer) : Type 0 where
  text : to_string b' ≡ to_string b ++ bytes
  valid : IsValid b'
  room : size b' ≡ size b - length bytes

append-Grown :
    (bytes : Bytes) (b : FixedBuffer)
    → IsValid b
    → Grown b (if ltb (length bytes) (size b) then bytes else []) (append bytes b)
append-Grown bytes b v =
    let (text, valid) = append_or_drop bytes b v in
    record { text = text; valid = valid; room = size-append bytes b v }

put-Grown :
    (bytes : Bytes) (b : FixedBuffer)
    → IsValid b
    → length bytes < max_num_size
    → Grown b
        (if leb max_num_size (size b) then bytes else [])
        (if leb max_num_size (size b) then put bytes b else b)
put-Grown bytes b v short = elim (Bool-cases (leb max_num_size (size b))) [
  | inl fits ↦
      let (text, valid) =
        write_lem bytes b v (omega (arith, short, leb→le max_num_size (size b) fits)) in
      simp fits (record {
        text = text;
        valid = valid;
        room = omega (arith, length-write_at b.chars b.cur bytes);
      })
  | inr full ↦
      simp full (record { text = sym (append-nil (to_string b)); valid = v; room = omega arith })
]

insert-Grown :
    (item : Item) (b : FixedBuffer)
    → IsValid b
    → Admissible item
    → Grown b (kept item (size b)) (insert item b)
unfolding insert format_integer format_double
insert-Grown (integer num) b v a = put-Grown (decimal num) b v (omega (arith, length-decimal num))
insert-Grown (double printed) b v a = put-Grown printed b v a
insert-Grown (character c) b v a = append-Grown (c ∷ []) b v
insert-Grown (c_string none) b v a = append-Grown null_text b v
insert-Grown (c_string (some str)) b v a = append-Grown str b v
insert-Grown (block bytes) b v a = append-Grown bytes b v

-- A chain of `<<` on a valid buffer, with integers of 64 bits and doubles that print as less than
-- 48 characters, adds to the text, in order, the items that find room, each whole, and drops the
-- others whole; the buffer never overflows.
pub insert_all_lem :
    (items : List Item) (b : FixedBuffer)
    → IsValid b
    → AllAdmissible items
    → (to_string (insert_all items b) ≡ to_string b ++ kept_all (size b) items)
      × IsValid (insert_all items b)
unfolding insert_all kept_all
insert_all_lem [] b v a = (sym (append-nil (to_string b)), v)
insert_all_lem (item ∷ items) b v (a, rest) =
    let g = insert-Grown item b v a in
    let (text, valid) = insert_all_lem items (insert item b) g.valid rest in
    (
      text
          ∙ ap (λ t. t ++ kept_all (size (insert item b)) items) g.text
          ∙ append_assoc (to_string b) (kept item (size b)) _
          ∙ ap (λ n. to_string b ++ (kept item (size b) ++ kept_all n items)) g.room,
      valid,
    )
