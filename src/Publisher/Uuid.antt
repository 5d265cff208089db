-- ===== src/Publisher/Uuid.antt =====
-- publisher_client/src/utils/uuid.js: a random UUID (version 4). `crypto.randomUUID` and the
-- source of the sixteen random bytes are the browser's and stand as arguments.
pub mod Layout
use Prim.Native.Char.{Char, code}
use io_t_midterm_availabilit.Base.{
  ℕ, ◌+◌, ◌/◌, ◌%◌, String, Bool, Option, none, some, List, [], ◌∷◌, ◌==◌, if◌then◌else◌,
}
use io_t_midterm_availabilit.Js.Scan.{slice_to, slice_from}

unfoldable pub hex_char : ℕ → Char
hex_char n =
    if n == 0
    then "0"
    else if n == 1
    then "1"
    else if n == 2
    then "2"
    else if n == 3
    then "3"
    else if n == 4
    then "4"
    else if n == 5
    then "5"
    else if n == 6
    then "6"
    else if n == 7
    then "7"
    else if n == 8
    then "8"
    else if n == 9
    then "9"
    else if n == 10
    then "a"
    else if n == 11
    then "b"
    else if n == 12
    then "c"
    else if n == 13
    then "d"
    else if n == 14
    then "e"
    else "f"

-- `byte.toString(16).padStart(2, '0')` in front of a text.
abbrev pub byte_text : ℕ → String → String
byte_text b rest = String.◌∷◌ (hex_char (b / 16)) (String.◌∷◌ (hex_char (b % 16)) rest)

unfoldable pub hex_text : List ℕ → String
hex_text [] = ""
hex_text (b ∷ bs) = byte_text b (hex_text bs)

-- The two bytes with the version and the variant: `(b & 0x0f) | 0x40` and `(b & 0x3f) | 0x80`.
unfoldable pub mark_bytes : ℕ → List ℕ → List ℕ
mark_bytes i [] = []
mark_bytes i (b ∷ bs) =
    let rest = mark_bytes (i + 1) bs in
    (if i == 6 then b % 16 + 64 else if i == 8 then b % 64 + 128 else b) ∷ rest

unfoldable pub dashed : String → String → String
dashed String.[] rest = String.◌∷◌ "-" rest
dashed (String.◌∷◌ c s) rest = String.◌∷◌ c (dashed s rest)

-- `slice(from, to)`
abbrev pub slice : ℕ → ℕ → String → String
slice from size s = slice_to size (slice_from from s)

unfoldable pub group : String → String
group hex =
    dashed (slice 0 8 hex)
      (dashed (slice 8 4 hex) (dashed (slice 12 4 hex) (dashed (slice 16 4 hex) (slice 20 12 hex))))

unfoldable pub generate_uuid : Option String → List ℕ → String
unfolding hex_text mark_bytes group
generate_uuid none bytes = group (hex_text (mark_bytes 0 bytes))
generate_uuid (some uuid) bytes = uuid
