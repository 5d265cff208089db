-- ===== src/Client/EventText/Delay.antt =====
-- eventPresentation.js: what the label of a delay says about the delay.
use io_t_midterm_availabilit.Base.{
  ℕ, ◌+◌, ◌*◌, ◌/◌, ◌%◌, ◌<◌, String, ◌≡◌, inl, inr, arith, ◌==◌, Bool-cases, subst, if◌then◌else◌,
}
use io_t_midterm_availabilit.Js.Text.{◌<>◌, decimal}

-- A label, with the whole seconds that it names.
pub data Label : String → ℕ → Type 0 where
  seconds_late : (s : ℕ) → 0 < s → s < 60 → Label (decimal s <> "s late") s
  minutes_late : (m : ℕ) → 0 < m → Label (decimal m <> "m late") (m * 60)
  both_late :
      (m s : ℕ)
      → 0 < m
      → 0 < s
      → s < 60
      → Label (decimal m <> "m " <> decimal s <> "s late") (m * 60 + s)

-- The text for a number of seconds that is not 0, split at a minute.
abbrev text_of_seconds : ℕ → String
text_of_seconds total =
    if total / 60 == 0
    then decimal (total % 60) <> "s late"
    else if total % 60 == 0
    then decimal (total / 60) <> "m late"
    else decimal (total / 60) <> "m " <> decimal (total % 60) <> "s late"

named : (total : ℕ) → 0 < total → Label (text_of_seconds total) total
named total positive = elim (Bool-cases (total / 60 == 0)) [
  | inl e ↦
      let whole : total % 60 ≡ total = ground arith in
      rw e (
        subst (Label (decimal (total % 60) <> "s late")) whole
          (seconds_late (total % 60) (ground arith) (ground arith)))
  | inr e ↦ elim (Bool-cases (total % 60 == 0)) [
    | inl f ↦
        let whole : total / 60 * 60 ≡ total = ground arith in
        rw e (
          rw f (
            subst (Label (decimal (total / 60) <> "m late")) whole
              (minutes_late (total / 60) (ground arith))))
    | inr f ↦
        let whole : total / 60 * 60 + total % 60 ≡ total = ground arith in
        rw e (
          rw f (
            subst (Label (decimal (total / 60) <> "m " <> decimal (total % 60) <> "s late")) whole
              (both_late (total / 60) (total % 60) (ground arith) (ground arith) (ground arith))))
  ]
]
