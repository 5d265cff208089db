-- ===== src/Publisher/Selection/Order.antt =====
-- `isBetterCandidate` as an order: smaller RTT first, then fewer hops.
use io_t_midterm_availabilit.Base.{◌≡◌, ◌⊎◌, ◌↔◌, true, false, arith}
use io_t_midterm_availabilit.Js.Number.{num_ltb, compared, num_ltb_trans, num_eqb→eq}
use io_t_midterm_availabilit.Publisher.Selection.{Candidate, is_better}

-- The lexicographic order on round-trip time and hop count.
abbrev pub Precedes : Candidate → Candidate → Type 0
Precedes a b = (num_ltb a.rtt b.rtt ≡ true) ⊎ (a.rtt ≡ b.rtt) × (num_ltb a.hop b.hop ≡ true)

module _ (a b : Candidate) where
  pub is_better_iff : (is_better a b ≡ true) ↔ Precedes a b
  unfolding is_better
  is_better_iff = ground (arith, compared a.rtt b.rtt, num_eqb→eq a.rtt b.rtt)

module _ (a b c : Candidate) where
  pub is_better_trans : is_better a b ≡ true → is_better b c ≡ true → is_better a c ≡ true
  unfolding is_better
  is_better_trans p q = ground (
    arith,
    compared a.rtt b.rtt,
    compared b.rtt c.rtt,
    compared a.rtt c.rtt,
    num_ltb_trans a.rtt b.rtt c.rtt,
    num_ltb_trans a.hop b.hop c.hop,
  )

  -- What beats `b` beats all that does not beat `b`.
  pub is_better_of_not : is_better a b ≡ true → is_better c b ≡ false → is_better a c ≡ true
  unfolding is_better
  is_better_of_not p q = ground (
    arith,
    compared a.rtt b.rtt,
    compared b.rtt c.rtt,
    compared a.rtt c.rtt,
    compared a.hop b.hop,
    compared b.hop c.hop,
    compared a.hop c.hop,
    num_ltb_trans a.rtt b.rtt c.rtt,
    num_ltb_trans a.hop b.hop c.hop,
  )
