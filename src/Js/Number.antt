-- ===== src/Js/Number.antt =====
-- The numbers that `JSON.parse` yields: finite doubles and the infinities (1e999 reads as
-- Infinity); NaN is not among them. Every finite double is a whole multiple of 2^-1074, and
-- `fin z` is z times that unit, so comparisons of doubles are comparisons of integers.
use Prim.Native.Nat.{◌*◌, ◌^◌}
use io_t_midterm_availabilit.Base.{
  ℕ, ◌≡◌, refl, Bool, true, false, not, arith, dec_lt, ap, ◌<◌, pos_part, neg_part, ◌+◌, ℤ, pos,
  int_ltb, int_eqb, int_eqb→eq,
}

pub data Number : Type 0 where
  neg_infinity : Number
  fin : ℤ → Number
  infinity : Number

-- `a < b`
unfoldable pub num_ltb : Number → Number → Bool
num_ltb neg_infinity neg_infinity = false
num_ltb neg_infinity (fin b) = true
num_ltb neg_infinity infinity = true
num_ltb (fin a) neg_infinity = false
num_ltb (fin a) (fin b) = int_ltb a b
num_ltb (fin a) infinity = true
num_ltb infinity neg_infinity = false
num_ltb infinity (fin b) = false
num_ltb infinity infinity = false

-- `a === b`
unfoldable pub num_eqb : Number → Number → Bool
num_eqb neg_infinity neg_infinity = true
num_eqb neg_infinity (fin b) = false
num_eqb neg_infinity infinity = false
num_eqb (fin a) neg_infinity = false
num_eqb (fin a) (fin b) = int_eqb a b
num_eqb (fin a) infinity = false
num_eqb infinity neg_infinity = false
num_eqb infinity (fin b) = false
num_eqb infinity infinity = true

-- `Number.isFinite`
abbrev pub is_finite : Number → Bool
is_finite (fin _) = true
is_finite neg_infinity = false
is_finite infinity = false

-- `0 < n` for a number.
abbrev pub is_positive : Number → Bool
is_positive n = num_ltb (fin (pos 0)) n

-- The double of a whole number, in units of 2^-1074.
unfoldable pub whole : ℕ → Number
whole n = fin (pos (n * 2 ^ 1074))

abbrev pub num_leb : Number → Number → Bool
num_leb a b = not (num_ltb b a)

-- The three ways in which two numbers compare.
pub data Compared (a b : Number) : Type 0 where
  below : num_ltb a b ≡ true → num_eqb a b ≡ false → num_ltb b a ≡ false → Compared a b
  same : a ≡ b → num_eqb a b ≡ true → num_ltb a b ≡ false → num_ltb b a ≡ false → Compared a b
  above : num_ltb b a ≡ true → num_eqb a b ≡ false → num_ltb a b ≡ false → Compared a b

Compared-int : (a b : ℤ) → Compared (fin a) (fin b)
unfolding num_ltb num_eqb
Compared-int a b = by_order (dec_lt (left) right) (dec_lt right left)
  where
    left : ℕ
    left = pos_part a + neg_part b

    right : ℕ
    right = pos_part b + neg_part a

    by_order : Dec (left < right) → Dec (right < left) → Compared (fin a) (fin b)
    by_order (yes p) q = below (ground arith) (ground arith) (ground arith)
    by_order (no p) (yes q) = above (ground arith) (ground arith) (ground arith)
    by_order (no p) (no q) =
        let e : int_eqb a b ≡ true = ground arith in
        same (ap fin (int_eqb→eq a b e)) e (ground arith) (ground arith)

pub compared : (a b : Number) → Compared a b
unfolding num_ltb num_eqb
compared neg_infinity neg_infinity = same refl refl refl refl
compared neg_infinity (fin b) = below refl refl refl
compared neg_infinity infinity = below refl refl refl
compared (fin a) neg_infinity = above refl refl refl
compared (fin a) (fin b) = Compared-int a b
compared (fin a) infinity = below refl refl refl
compared infinity neg_infinity = above refl refl refl
compared infinity (fin b) = above refl refl refl
compared infinity infinity = same refl refl refl refl

-- `<` is transitive, and so is its negation.
pub num_ltb_trans : (a b c : Number) → num_ltb a b ≡ true → num_ltb b c ≡ true → num_ltb a c ≡ true
unfolding num_ltb
num_ltb_trans a b c p q = ground arith

pub num_leb_trans :
    (a b c : Number) → num_ltb b a ≡ false → num_ltb c b ≡ false → num_ltb c a ≡ false
unfolding num_ltb
num_leb_trans a b c p q = ground arith

pub num_eqb→eq : (a b : Number) → num_eqb a b ≡ true → a ≡ b
num_eqb→eq a b h = by_order (compared a b)
  where
    by_order : Compared a b → a ≡ b
    by_order (below _ ne _) = cc
    by_order (same e _ _ _) = e
    by_order (above _ ne _) = cc
