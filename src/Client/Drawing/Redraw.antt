-- ===== src/Client/Drawing/Redraw.antt =====
-- TopologyGraph.jsx: the redraws for marks that run out come to an end.
use io_t_midterm_availabilit.Base.{
  ℕ, ◌+◌, ◌≤◌, ◌<◌, ℤ, pos_part, neg_part, int_ltb, ◌≡◌, ap, subst, inl, inr, Bool, true, false,
  Option, some, List, [], ◌∷◌, arith, length, filter, Bool-cases, In, here, there, In-cons,
  In-filter,
}
use io_t_midterm_availabilit.Js.Value.{Value}
use io_t_midterm_availabilit.Client.Parsers.{Node}
use io_t_midterm_availabilit.Client.Transitions.{plus_ms}
use io_t_midterm_availabilit.Client.Drawing.{
  deadlines, recovery_deadlines, least, wait, wait_for, redraw_delay,
}

-- A test that fewer elements pass keeps fewer.
length-filter_le :
    {A : Type 0} (p q : A → Bool) (xs : List A)
    → ((x : A) → p x ≡ true → q x ≡ true)
    → length (filter p xs) ≤ length (filter q xs)
unfolding filter
length-filter_le p q [] h = ground arith
length-filter_le p q (x ∷ xs) h = ground (arith, length-filter_le p q xs h, h x)

length-filter_lt :
    {A : Type 0} (p q : A → Bool) (xs : List A) (y : A)
    → ((x : A) → p x ≡ true → q x ≡ true)
    → In y xs
    → q y ≡ true
    → p y ≡ false
    → length (filter p xs) < length (filter q xs)
unfolding filter
length-filter_lt p q [] y h i t f = elim i [ ]
length-filter_lt p q (x ∷ xs) y h i t f = elim (In-cons i) [
  | inl same ↦ ground (arith, length-filter_le p q xs h, ap p same, ap q same)
  | inr j ↦ ground (arith, length-filter_lt p q xs y h j t f, h x)
]

least-In : (d : ℤ) (ds : List ℤ) → In (least d ds) (d ∷ ds)
unfolding least
least-In d [] = here
least-In d (e ∷ es) = elim (Bool-cases (int_ltb e d)) [
  | inl q ↦ rw q (there (least-In e es))
  | inr q ↦
      rw q (elim (In-cons (least-In d es)) [ inl same ↦ rw same here | inr j ↦ there (there j) ])
]

-- The timer waits for one of the deadlines.
awaited :
    (ds : List ℤ) (later : ℤ) (delay : ℕ)
    → wait_for ds later ≡ some delay
    → (y : ℤ) × In y ds × (delay ≡ wait y later)
awaited [] later delay e = cc
awaited (d ∷ ds) later delay e = (least d ds, least-In d ds, ground arith)

plus_ms_lem :
    (t : ℤ) (w : ℕ) → pos_part (plus_ms t w) + neg_part t ≡ neg_part (plus_ms t w) + pos_part t + w
plus_ms_lem t w = ground arith

-- When the timer has fired, the first deadline is over.
past_deadline :
    (d later fired : ℤ)
    → int_ltb fired (plus_ms later (wait d later)) ≡ false
    → int_ltb fired d ≡ false
past_deadline d later fired h = ground (arith, plus_ms_lem later (wait d later))

later_fires :
    (now later fired : ℤ) (w : ℕ)
    → int_ltb later now ≡ false
    → int_ltb fired (plus_ms later w) ≡ false
    → (d : ℤ) → int_ltb fired d ≡ true
    → int_ltb now d ≡ true
later_fires now later fired w h k d e = ground (arith, plus_ms_lem later w)

-- Each redraw leaves fewer marks to wait for, so that they come to an end: when the timer fires,
-- not before its delay is over, fewer nodes have a deadline still to come than when it was set.
-- The clock does not go back between the two readings of the effect.
pub recovery_deadlines_lt :
    (date_parse : Value → Option ℤ) (nodes : List Node) (now later fired : ℤ) (delay : ℕ)
    → int_ltb later now ≡ false
    → redraw_delay date_parse nodes now later ≡ some delay
    → int_ltb fired (plus_ms later delay) ≡ false
    → length (recovery_deadlines date_parse nodes fired)
      < length (recovery_deadlines date_parse nodes now)
unfolding redraw_delay recovery_deadlines
recovery_deadlines_lt date_parse nodes now later fired delay order set over =
    let ds = deadlines date_parse nodes in
    let (y, i, same) = awaited (filter (int_ltb now) ds) later delay set in
    let (j, still) = In-filter (int_ltb now) ds i in
    let passed : int_ltb fired y ≡ false =
      past_deadline y later fired
        (subst (λ w. int_ltb fired (plus_ms later w) ≡ false) same over) in
    length-filter_lt (int_ltb fired) (int_ltb now) ds y
      (later_fires now later fired delay order over) j still passed
