-- ===== src/Publisher/Selection/Choice.antt =====
-- `selectFallbackBroker` and `findPreferredCoreBroker`: which broker is chosen, in which order.
use io_t_midterm_availabilit.Base.{
  String, ◌≡◌, refl, inl, inr, true, false, Option, none, some, List, [], ◌∷◌, All, All-of-In,
  All-In, In, find, find-In, find-none, Option-cases, arith,
}
use io_t_midterm_availabilit.Js.Value.{Value, strict_eq}
use io_t_midterm_availabilit.Publisher.Ct.{Ct, Node}
use io_t_midterm_availabilit.Publisher.Selection.{
  Candidate, Broker, to_broker, candidate_broker, is_named_core, preferred_core,
  find_preferred_core_broker, select_among, select_fallback_broker,
}
use io_t_midterm_availabilit.Publisher.Selection.Eligible.{
  IsBrokerNode, is_broker_node_iff, Eligible,
}
use io_t_midterm_availabilit.Publisher.Selection.Best.{FirstBest, Found, pick_best_candidate_lem}

-- The node with the given id is an online core with an address.
abbrev pub IsNamedCore : Value → Node → Type 0
IsNamedCore core_id n = (strict_eq n.id core_id ≡ true) × IsBrokerNode n "CORE"

abbrev pub NoneIs : (Node → Type 0) → List Node → Type 0
NoneIs P = All λ n. ¬ P n

is_named_core_to : (id : Value) (n : Node) → is_named_core id n ≡ true → IsNamedCore id n
unfolding is_named_core
is_named_core_to id n h = (ground arith, (is_broker_node_iff n "CORE").0 (ground arith))

not-is_named_core : (id : Value) (n : Node) → is_named_core id n ≡ false → ¬ IsNamedCore id n
unfolding is_named_core
not-is_named_core id n h (e, b) = let t = (is_broker_node_iff n "CORE").1 b in ground arith

abbrev pub broker_of : Candidate → Broker
broker_of c = record { id = c.id; ip = c.ip; port = c.port }

module _ (ct : Ct) (nodes : List Node) (edge_id : Value) where
  -- How a core is chosen.
  pub data CoreChoice (r : Option Broker) : Type 0 where
    active :
        (n : Node)
        → In n nodes
        → IsNamedCore ct.active_core_id n
        → r ≡ some (to_broker n)
        → CoreChoice r
    backup :
        (n : Node)
        → NoneIs (IsNamedCore ct.active_core_id) nodes
        → In n nodes
        → IsNamedCore ct.backup_core_id n
        → r ≡ some (to_broker n)
        → CoreChoice r
    other :
        (c : Candidate)
        → NoneIs (IsNamedCore ct.active_core_id) nodes
        → NoneIs (IsNamedCore ct.backup_core_id) nodes
        → FirstBest ct.links edge_id "CORE" "" nodes c
        → r ≡ some (broker_of c)
        → CoreChoice r
    no_core :
        NoneIs (IsNamedCore ct.active_core_id) nodes
        → NoneIs (IsNamedCore ct.backup_core_id) nodes
        → NoneIs (Eligible edge_id "CORE" "") nodes
        → r ≡ none
        → CoreChoice r

  found_none : (id : Value) → find (is_named_core id) nodes ≡ none → NoneIs (IsNamedCore id) nodes
  found_none id e =
      let h = find-none (is_named_core id) nodes e in
      All-of-In _ nodes (λ n i. not-is_named_core id n (All-In _ nodes h i))

  last_resort :
      (r : Option Candidate)
      → NoneIs (IsNamedCore ct.active_core_id) nodes
      → NoneIs (IsNamedCore ct.backup_core_id) nodes
      → Found ct.links edge_id "CORE" "" nodes r
      → CoreChoice (candidate_broker r)
  last_resort r a b (inl (e, k)) = no_core a b k (ground arith)
  last_resort r a b (inr (c, e, f)) = other c a b f (rw e)

  pub preferred_core_lem : CoreChoice (preferred_core ct nodes edge_id)
  unfolding preferred_core
  preferred_core_lem = elim (Option-cases (find (is_named_core ct.active_core_id) nodes)) [
    | inr (n, e) ↦ let (i, t) = find-In _ nodes e in active n i (is_named_core_to _ n t) (rw e)
    | inl e ↦ elim (Option-cases (find (is_named_core ct.backup_core_id) nodes)) [
      | inr (n, e') ↦
          let (i, t) = find-In _ nodes e' in
          backup n (found_none _ e) i (is_named_core_to _ n t) (rw (e, e'))
      | inl e' ↦
          rw (e, e')
            (last_resort _ (found_none _ e) (found_none _ e')
              (pick_best_candidate_lem ct.links edge_id "CORE" "" nodes))
    ]
  ]

  -- The best other edge, and a core only where there is no other edge.
  pub data Choice (ip : String) (r : Option Broker) : Type 0 where
    edge :
        (c : Candidate)
        → FirstBest ct.links edge_id "NODE" ip nodes c
        → r ≡ some (broker_of c)
        → Choice ip r
    core : NoneIs (Eligible edge_id "NODE" ip) nodes → CoreChoice r → Choice ip r

select_among_lem :
    (ct : Ct) (nodes : List Node) (edge_id : Value) (ip : String)
    → Choice ct nodes edge_id ip (select_among ct nodes edge_id ip)
unfolding select_among
select_among_lem ct [] edge_id ip = core tt (no_core tt tt tt refl)
select_among_lem ct (n ∷ ns) edge_id ip =
    elim (pick_best_candidate_lem ct.links edge_id "NODE" ip (n ∷ ns)) [
      | inl (e, k) ↦ rw (e, select_among) (core k (preferred_core_lem ct (n ∷ ns) edge_id))
      | inr (c, e, f) ↦ rw (e, select_among) (edge c f refl)
    ]

with_nodes :
    (ct : Ct) (nodes : List Node) (edge_id : Value) (ip : String)
    → ct.nodes ≡ some nodes
    → select_fallback_broker (some ct) edge_id ip ≡ select_among ct nodes edge_id ip
unfolding select_fallback_broker
with_nodes ct nodes edge_id ip e = ground arith

core_with_nodes :
    (ct : Ct) (nodes : List Node) (edge_id : Value)
    → ct.nodes ≡ some nodes
    → find_preferred_core_broker (some ct) edge_id ≡ preferred_core ct nodes edge_id
unfolding find_preferred_core_broker
core_with_nodes ct nodes edge_id e = ground arith

-- With a table whose `nodes` is an array, `selectFallbackBroker` answers the first of the best
-- other edges, by round-trip time and then hops; where no other edge is usable, the active core,
-- else the backup core, else the first of the best remaining cores; and `found: false` only where
-- none of these is usable.
pub select_fallback_broker_lem :
    (ct : Ct) (nodes : List Node) (edge_id : Value) (ip : String)
    → ct.nodes ≡ some nodes
    → Choice ct nodes edge_id ip (select_fallback_broker (some ct) edge_id ip)
select_fallback_broker_lem ct nodes edge_id ip e =
    rw (with_nodes ct nodes edge_id ip e) (select_among_lem ct nodes edge_id ip)

-- `findPreferredCoreBroker` makes the same choice among cores: active, backup, best of the rest.
pub find_preferred_core_broker_lem :
    (ct : Ct) (nodes : List Node) (edge_id : Value)
    → ct.nodes ≡ some nodes
    → CoreChoice ct nodes edge_id (find_preferred_core_broker (some ct) edge_id)
find_preferred_core_broker_lem ct nodes edge_id e =
    rw (core_with_nodes ct nodes edge_id e) (preferred_core_lem ct nodes edge_id)
