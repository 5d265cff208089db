-- ===== src/Js/Text.antt =====
-- String operations of the language that the program uses, over the characters of a text. An index
-- is used by the program only to cut at an ASCII character that was found, so characters stand for
-- UTF-16 units.
use Prim.Native.Char.{Char, code}
use Prim.Native.String
use io_t_midterm_availabilit.Base.{
  ℕ, zero, suc, ◌+◌, ◌-◌, ◌*◌, ◌/◌, ◌%◌, String, Bool, true, false, ◌&&◌, ◌||◌, List, [], ◌∷◌, leb,
  ◌==◌, if◌then◌else◌,
}

infixr 65 ◌<>◌
abbrev pub ◌<>◌ : String → String → String
a <> b = String.◌++◌ a b

-- White space and line ends, which `\s` matches and `trim` removes.
unfoldable pub is_space : ℕ → Bool
is_space c =
    (leb 9 c && leb c 13)
    || c == 32
    || c == 160
    || c == 0x1680
    || (leb 0x2000 c && leb c 0x200a)
    || c == 0x2028
    || c == 0x2029
    || c == 0x202f
    || c == 0x205f
    || c == 0x3000
    || c == 0xfeff

unfoldable pub trim_start : String → String
unfolding is_space
trim_start String.[] = ""
trim_start (String.◌∷◌ c s) =
    let rest = trim_start s in if is_space (code c) then rest else String.◌∷◌ c s

-- A character in front of a text whose end is trimmed: kept unless it is white space and last.
abbrev pub keep_unless_last : Char → String → String
keep_unless_last c String.[] = if is_space (code c) then "" else String.◌∷◌ c ""
keep_unless_last c (String.◌∷◌ d s) = String.◌∷◌ c (String.◌∷◌ d s)

unfoldable pub trim_end : String → String
unfolding is_space
trim_end String.[] = ""
trim_end (String.◌∷◌ c s) = keep_unless_last c (trim_end s)

unfoldable pub trim : String → String
unfolding trim_start trim_end
trim s = trim_end (trim_start s)

-- `split` at runs of characters that pass the test; empty parts at both ends are kept, as there.
unfoldable pub split_runs : (ℕ → Bool) → Bool → String → String → List String
split_runs sep in_run cur String.[] = cur ∷ []
split_runs sep in_run cur (String.◌∷◌ c s) =
    let skipped = split_runs sep true cur s in
    let closed = cur ∷ split_runs sep true "" s in
    let longer = split_runs sep false (cur <> String.◌∷◌ c "") s in
    if sep (code c) then (if in_run then skipped else closed) else longer

abbrev digit : ℕ → Char → ℕ
digit acc c = acc * 10 + (code c - b'0')

-- `parseInt(s, 10)` of a text of digits; 0 where there is no leading digit (NaN in the source,
-- and both are falsy where it is used).
unfoldable pub parse_int_from : ℕ → String → ℕ
parse_int_from acc String.[] = acc
parse_int_from acc (String.◌∷◌ c s) =
    let rest = parse_int_from (digit acc c) s in
    if leb b'0' (code c) && leb (code c) b'9' then rest else acc

unfoldable pub parse_int : String → ℕ
unfolding parse_int_from
parse_int s = parse_int_from 0 s

abbrev digit_text : ℕ → String
digit_text n =
    if n == 0
    then "0"
    else if n == 1
    then "1"
    else if n == 2
    then "2"
    else if n == 3
    then "3"
    else if n == 4
    then "4"
    else if n == 5
    then "5"
    else if n == 6
    then "6"
    else if n == 7
    then "7"
    else if n == 8
    then "8"
    else "9"

-- The decimal text of a number; the fuel bounds the digits, and a number is more than them.
decimal_from : ℕ → ℕ → String
decimal_from zero n = ""
decimal_from (suc fuel) n =
    let rest = decimal_from fuel (n / 10) <> digit_text (n % 10) in
    if leb n 9 then digit_text n else rest

unfoldable pub decimal : ℕ → String
unfolding decimal_from
decimal n = decimal_from (suc n) n

-- `split` at one character.
abbrev onto_first : Char → List String → List String
onto_first c [] = String.◌∷◌ c "" ∷ []
onto_first c (s ∷ ss) = String.◌∷◌ c s ∷ ss

unfoldable pub split_char : ℕ → String → List String
split_char k String.[] = "" ∷ []
split_char k (String.◌∷◌ c s) =
    let rest = split_char k s in if code c == k then "" ∷ rest else onto_first c rest
