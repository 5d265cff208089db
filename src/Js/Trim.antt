-- ===== src/Js/Trim.antt =====
-- What is left when a text is trimmed has nothing more to trim.
use Prim.Native.Char.{Char, code}
use io_t_midterm_availabilit.Base.{String, ◌≡◌, refl, ap, ◌∙◌, inl, inr, Bool-cases, false}
use io_t_midterm_availabilit.Js.Text.{is_space, trim_start, trim_end, trim, keep_unless_last}

keep_unless_last-trim_end :
    (c : Char) (s : String)
    → trim_end s ≡ s
    → trim_end (keep_unless_last c s) ≡ keep_unless_last c s
unfolding trim_end
keep_unless_last-trim_end c String.[] e = elim (Bool-cases (is_space (code c))) [
  | inl q ↦ rw q refl
  | inr q ↦ rw q (rw q refl)
]
keep_unless_last-trim_end c (String.◌∷◌ d s) e = ap (keep_unless_last c) e

trim_end_again : (s : String) → trim_end (trim_end s) ≡ trim_end s
unfolding trim_end
trim_end_again String.[] = refl
trim_end_again (String.◌∷◌ c s) = keep_unless_last-trim_end c (trim_end s) (trim_end_again s)

-- A text whose first character is no white space keeps its front.
trim_start-keep_unless_last :
    (c : Char) (s : String)
    → is_space (code c) ≡ false
    → trim_start (keep_unless_last c s) ≡ keep_unless_last c s
unfolding trim_start
trim_start-keep_unless_last c String.[] e = rw e (rw e refl)
trim_start-keep_unless_last c (String.◌∷◌ d s) e = rw e refl

trim_start-trim : (s : String) → trim_start (trim_end (trim_start s)) ≡ trim_end (trim_start s)
unfolding trim_start trim_end
trim_start-trim String.[] = refl
trim_start-trim (String.◌∷◌ c s) = elim (Bool-cases (is_space (code c))) [
  | inl q ↦ rw q (trim_start-trim s)
  | inr q ↦ rw q (trim_start-keep_unless_last c (trim_end s) q)
]

pub trim_again : (s : String) → trim (trim s) ≡ trim s
unfolding trim
trim_again s = ap trim_end (trim_start-trim s) ∙ trim_end_again (trim_start s)
