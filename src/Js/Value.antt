-- ===== src/Js/Value.antt =====
-- JavaScript values as `JSON.parse` builds them, and the operations that the program applies.
-- Two occurrences of an object or an array in a parsed text are distinct objects, so `===`
-- between them is false; identifiers compared by the program are read at two places.
use io_t_midterm_availabilit.Base.{
  ℕ, String, ◌≡◌, refl, ◌↔◌, ◌≢◌, Bool, true, false, not, ◌&&◌, List, [], ◌∷◌, Option, none, some,
  arith, ◌=ₛ◌, eq_iff, eq_refl, if◌then◌else◌, int_eqb,
}
use io_t_midterm_availabilit.Js.Number.{Number, fin, infinity, neg_infinity, num_eqb, num_eqb→eq}

mutual
  pub data Value : Type 0 where
    undefined : Value
    null : Value
    bool : Bool → Value
    num : Number → Value
    str : String → Value
    arr : Elements → Value
    obj : Members → Value

  pub data Elements : Type 0 where
    nil : Elements
    cons : Value → Elements → Elements

  pub data Members : Type 0 where
    end : Members
    member : String → Value → Members → Members

abbrev pub elements : Elements → List Value
elements nil = []
elements (cons v vs) = v ∷ elements vs

-- A property of an object; `JSON.parse` keeps the last of two members with one name.
unfoldable pub member_of : Members → String → Value → Value
member_of end k found = found
member_of (member j v ms) k found = member_of ms k (if j =ₛ k then v else found)

-- `v.k` where `v` is neither null nor undefined. Properties that primitives and arrays inherit
-- (`length` and the like) are not read by the program under any of its names.
unfoldable pub get : Value → String → Value
unfolding member_of
get (obj ms) k = member_of ms k undefined
get _ k = undefined

-- `v == null`
abbrev pub is_nullish : Value → Bool
is_nullish undefined = true
is_nullish null = true
is_nullish _ = false

-- Truthiness, as in `if (v)` and `!v`.
abbrev pub truthy : Value → Bool
truthy undefined = false
truthy null = false
truthy (bool b) = b
truthy (num (fin z)) = not (num_eqb (fin z) (fin (io_t_midterm_availabilit.Base.pos 0)))
truthy (num infinity) = true
truthy (num neg_infinity) = true
truthy (str s) = not (s =ₛ "")
truthy (arr _) = true
truthy (obj _) = true

-- `a === b`
abbrev pub strict_eq : Value → Value → Bool
strict_eq undefined undefined = true
strict_eq null null = true
strict_eq (bool true) (bool b) = b
strict_eq (bool false) (bool b) = not b
strict_eq (num a) (num b) = num_eqb a b
strict_eq (str a) (str b) = a =ₛ b
strict_eq _ _ = false

-- `v === "text"`
abbrev pub is_text : Value → String → Bool
is_text (str s) t = s =ₛ t
is_text _ t = false

-- `typeof v === 'string'`, `typeof v === 'number'`, `Array.isArray(v)`
abbrev pub is_string : Value → Bool
is_string (str _) = true
is_string _ = false

abbrev pub is_number : Value → Bool
is_number (num _) = true
is_number _ = false

abbrev pub as_array : Value → Option (List Value)
as_array (arr vs) = some (elements vs)
as_array _ = none

pub is_text_iff : (v : Value) (t : String) → (is_text v t ≡ true) ↔ (v ≡ str t)
is_text_iff (str s) t = ground (arith, eq_iff s t)
is_text_iff undefined t = ground arith
is_text_iff _ t = ground arith

pub strict_eq→eq : (a b : Value) → strict_eq a b ≡ true → a ≡ b
strict_eq→eq undefined undefined h = refl
strict_eq→eq null null h = refl
strict_eq→eq (bool true) (bool b) h = ground arith
strict_eq→eq (bool false) (bool b) h = ground arith
strict_eq→eq (num a) (num b) h = ground (arith, num_eqb→eq a b)
strict_eq→eq (str a) (str b) h = ground (arith, eq_iff a b)
strict_eq→eq _ _ h = ground arith
