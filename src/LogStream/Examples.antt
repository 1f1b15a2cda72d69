-- ===== src/LogStream/Examples.antt =====
-- A stream of 60 characters: the number finds room, the long text behind it does not.
use caimr.Prelude.{◌≡◌, refl, some, List, [], ◌∷◌, ◌++◌, replicate, arith}
use caimr.FixedBuffer.{FixedBuffer, IsValid, size, to_string, append}
use caimr.LogStream.{
  negsuc, Item, integer, character, c_string, block, decimal, insert, insert_all, digit_loop,
  digit_at, format_integer,
}
use caimr.LogStream.Decimal.{read, read-decimal}
use caimr.LogStream.Insert.{kept_all, insert_all_lem}

read-decimal_example : read (decimal (negsuc 1203)) ≡ some (negsuc 1203)
read-decimal_example = read-decimal (negsuc 1203) (omega arith)

minus_1204 : decimal (negsuc 1203) ≡ 45 ∷ 49 ∷ 50 ∷ 48 ∷ 52 ∷ []
unfolding decimal digit_loop digit_at
minus_1204 = refl

abbrev stream : FixedBuffer
stream = record { chars = replicate 60 0; cur = 0 }

stream-IsValid : IsValid stream
stream-IsValid = record { inside = omega arith; small = omega arith }

abbrev chain : List Item
chain = character 97 ∷ integer (negsuc 6) ∷ block (replicate 57 98) ∷ c_string (some (99 ∷ [])) ∷ []

insert_all_lem_example :
    (to_string (insert_all chain stream) ≡ to_string stream ++ kept_all (size stream) chain)
    × IsValid (insert_all chain stream)
insert_all_lem_example =
    insert_all_lem chain stream stream-IsValid (tt, (omega arith, (tt, (tt, tt))))

long_text_dropped : to_string (insert_all chain stream) ≡ 97 ∷ 45 ∷ 55 ∷ 99 ∷ []
unfolding insert_all insert append format_integer decimal digit_loop digit_at
long_text_dropped = refl
