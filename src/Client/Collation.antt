-- ===== src/Client/Collation.antt =====
-- A collation for examples: texts in the order of their characters' codes.
use Prim.Native.Char.{code}
use io_t_midterm_availabilit.Base.{
  ℕ, String, ◌≡◌, refl, arith, ltb, ◌==◌, if◌then◌else◌, Comparison, before, equal, after, flip,
  ◌then_by◌, AtMost, IsOrder,
}

abbrev compare_codes : ℕ → ℕ → Comparison
compare_codes a b = if a == b then equal else if ltb a b then before else after

unfoldable pub code_order : String → String → Comparison
code_order String.[] String.[] = equal
code_order String.[] (String.◌∷◌ d t) = before
code_order (String.◌∷◌ c s) String.[] = after
code_order (String.◌∷◌ c s) (String.◌∷◌ d t) =
    compare_codes (code c) (code d) then_by code_order s t

code_order_flips : (s t : String) → code_order t s ≡ flip (code_order s t)
unfolding code_order
code_order_flips String.[] String.[] = refl
code_order_flips String.[] (String.◌∷◌ d t) = refl
code_order_flips (String.◌∷◌ c s) String.[] = refl
code_order_flips (String.◌∷◌ c s) (String.◌∷◌ d t) = ground (arith, code_order_flips s t)

code_order_trans :
    (s t u : String) → AtMost (code_order s t) → AtMost (code_order t u) → AtMost (code_order s u)
unfolding code_order
code_order_trans String.[] t String.[] p q = refl
code_order_trans String.[] t (String.◌∷◌ e u) p q = refl
code_order_trans (String.◌∷◌ c s) String.[] u p q = ground arith
code_order_trans (String.◌∷◌ c s) (String.◌∷◌ d t) String.[] p q = q
code_order_trans (String.◌∷◌ c s) (String.◌∷◌ d t) (String.◌∷◌ e u) p q =
    ground (arith, code_order_trans s t u)

pub code_order-IsOrder : IsOrder (λ _. Unit) code_order
code_order-IsOrder = record {
  flips = λ s t p q. code_order_flips s t;
  trans = λ s t u p q r. code_order_trans s t u;
}
