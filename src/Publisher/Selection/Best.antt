-- ===== src/Publisher/Selection/Best.antt =====
-- The loop of `pickBestCandidate`: it finds the first of the best eligible nodes.
use io_t_midterm_availabilit.Base.{
  String, ◌≡◌, refl, ap, ◌⊎◌, inl, inr, true, false, ◌&&◌, Option, none, some, List, [], ◌∷◌, ◌++◌,
  All, Bool-cases, and-eq-true, arith,
}
use io_t_midterm_availabilit.Js.Value.{Value}
use io_t_midterm_availabilit.Publisher.Ct.{Node, Link}
use io_t_midterm_availabilit.Publisher.Selection.{
  Candidate, build_candidate, is_better, consider, pick_from, pick_best_candidate,
}
use io_t_midterm_availabilit.Publisher.Selection.Order.{
  Precedes, is_better_iff, is_better_trans, is_better_of_not,
}
use io_t_midterm_availabilit.Publisher.Selection.Eligible.{Eligible, eligible, eligible_iff}

module _ (links : Option (List Link)) (edge_id : Value) (role ip : String) where
  abbrev candidate : Node → Candidate
  candidate node = build_candidate node links edge_id

  abbrev Admitted : Node → Type 0
  Admitted = Eligible edge_id role ip

  -- All eligible nodes before the chosen one are worse, and none behind it is better.
  pub record FirstBest (nodes : List Node) (c : Candidate) : Type 0 where
    pub before : List Node
    pub node : Node
    pub behind : List Node
    pub split : nodes ≡ before ++ node ∷ behind
    pub built : c ≡ build_candidate node links edge_id
    pub admitted : Eligible edge_id role ip node
    pub beats :
        All (λ n. Eligible edge_id role ip n → Precedes c (build_candidate n links edge_id)) before
    pub holds :
        All
          (λ n. Eligible edge_id role ip n → ¬ Precedes (build_candidate n links edge_id) c)
          behind

  -- Nothing is eligible, or the first best is found.
  abbrev pub Found : List Node → Option Candidate → Type 0
  Found nodes r =
      (r ≡ none) × All (λ n. ¬ Eligible edge_id role ip n) nodes
      ⊎ ((c : Candidate) × (r ≡ some c) × FirstBest nodes c)

  abbrev Passes : Node → Type 0
  Passes n = eligible edge_id role ip n ≡ true

  passes : (n : Node) → Admitted n → Passes n
  passes n = (eligible_iff edge_id role ip n).1

  admits : (n : Node) → Passes n → Admitted n
  admits n = (eligible_iff edge_id role ip n).0

  abbrev NoBetter : Candidate → List Node → Type 0
  NoBetter c = All λ n. Admitted n → ¬ Precedes (candidate n) c

  later :
      (n : Node) (nodes : List Node) (c : Candidate)
      → (Passes n → is_better c (candidate n) ≡ true)
      → FirstBest nodes c
      → FirstBest (n ∷ nodes) c
  later n nodes c h f = record {
    before = n ∷ f.before;
    node = f.node;
    behind = f.behind;
    split = ap (◌∷◌ n) f.split;
    built = f.built;
    admitted = f.admitted;
    beats = (λ a. (is_better_iff c (candidate n)).0 (h (passes n a)), f.beats);
    holds = f.holds;
  }

  first :
      (n : Node) (nodes : List Node)
      → Passes n
      → NoBetter (candidate n) nodes
      → FirstBest (n ∷ nodes) (candidate n)
  first n nodes p k = record {
    before = [];
    node = n;
    behind = nodes;
    split = refl;
    built = refl;
    admitted = admits n p;
    beats = tt;
    holds = k;
  }

  -- The loop with a candidate in hand keeps it, or finds the first best, which beats it.
  abbrev Outcome : Candidate → List Node → Option Candidate → Type 0
  Outcome b nodes r =
      (r ≡ some b) × NoBetter b nodes
      ⊎ ((c : Candidate) × (r ≡ some c) × FirstBest nodes c × (is_better c b ≡ true))

  keep :
      (b : Candidate) (n : Node) (nodes : List Node) (r : Option Candidate)
      → (Passes n → is_better (candidate n) b ≡ false)
      → Outcome b nodes r
      → Outcome b (n ∷ nodes) r
  keep b n nodes r h (inl (e, k)) = inl (e, (no_better, k))
    where
      no_better : Admitted n → ¬ Precedes (candidate n) b
      no_better a p = let w = (is_better_iff (candidate n) b).1 p in let e = h (passes n a) in cc
  keep b n nodes r h (inr (c, e, f, w)) =
      inr (c, e, later n nodes c (λ p. is_better_of_not c b (candidate n) w (h p)) f, w)

  replace :
      (b : Candidate) (n : Node) (nodes : List Node) (r : Option Candidate)
      → Passes n
      → is_better (candidate n) b ≡ true
      → Outcome (candidate n) nodes r
      → Outcome b (n ∷ nodes) r
  replace b n nodes r p w (inl (e, k)) = inr (candidate n, e, first n nodes p k, w)
  replace b n nodes r p w (inr (c, e, f, v)) =
      inr (c, e, later n nodes c (λ _. v) f, is_better_trans c (candidate n) b v w)

  consider_keep :
      (n : Node) (b : Candidate)
      → (Passes n → is_better (candidate n) b ≡ false)
      → consider links edge_id role ip n (some b) ≡ some b
  unfolding consider eligible
  consider_keep n b h = ground arith

  consider_take :
      (n : Node) (b : Candidate)
      → Passes n
      → is_better (candidate n) b ≡ true
      → consider links edge_id role ip n (some b) ≡ some (candidate n)
  unfolding consider eligible
  consider_take n b p w = ground arith

  consider_first :
      (n : Node) → Passes n → consider links edge_id role ip n none ≡ some (candidate n)
  unfolding consider eligible
  consider_first n p = ground arith

  consider-none :
      (n : Node) → eligible edge_id role ip n ≡ false → consider links edge_id role ip n none ≡ none
  unfolding consider eligible
  consider-none n p = ground arith

  abbrev rounds : Option Candidate → List Node → Option Candidate
  rounds = pick_from links edge_id role ip

  loop : (b : Candidate) (nodes : List Node) → Outcome b nodes (rounds (some b) nodes)
  unfolding pick_from
  loop b [] = inl (refl, tt)
  loop b (n ∷ nodes) = elim (Bool-cases (eligible edge_id role ip n && is_better (candidate n) b)) [
    | inl e ↦
        let (p, w) = and-eq-true (eligible edge_id role ip n) (is_better (candidate n) b) e in
        rw (consider_take n b p w) (replace b n nodes _ p w (loop (candidate n) nodes))
    | inr e ↦
        let h : Passes n → is_better (candidate n) b ≡ false = λ p. ground arith in
        rw (consider_keep n b h) (keep b n nodes _ h (loop b nodes))
  ]

  Found-cons :
      (n : Node) (nodes : List Node) (r : Option Candidate)
      → eligible edge_id role ip n ≡ false
      → Found nodes r
      → Found (n ∷ nodes) r
  Found-cons n nodes r q (inl (e, k)) = inl (e, (λ a. let p = passes n a in cc, k))
  Found-cons n nodes r q (inr (c, e, f)) = inr (c, e, later n nodes c (λ p. cc) f)

  Found-of_loop :
      (n : Node) (nodes : List Node) (r : Option Candidate)
      → Passes n
      → Outcome (candidate n) nodes r
      → Found (n ∷ nodes) r
  Found-of_loop n nodes r p (inl (e, k)) = inr (candidate n, e, first n nodes p k)
  Found-of_loop n nodes r p (inr (c, e, f, v)) = inr (c, e, later n nodes c (λ _. v) f)

  search_from : (nodes : List Node) → Found nodes (rounds none nodes)
  unfolding pick_from
  search_from [] = inl (refl, tt)
  search_from (n ∷ nodes) = elim (Bool-cases (eligible edge_id role ip n)) [
    | inl p ↦ rw (consider_first n p) (Found-of_loop n nodes _ p (loop (candidate n) nodes))
    | inr q ↦ rw (consider-none n q) (Found-cons n nodes _ q (search_from nodes))
  ]

  pub pick_best_candidate_lem :
      (nodes : List Node) → Found nodes (pick_best_candidate nodes links edge_id role ip)
  unfolding pick_best_candidate
  pick_best_candidate_lem nodes = search_from nodes
