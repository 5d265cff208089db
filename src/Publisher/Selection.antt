-- ===== src/Publisher/Selection.antt =====
-- publisher_client/src/mqtt/ctFailover.js: the broker to fail over to, the return to the primary
-- edge, and which table updates are accepted.
pub mod Primary
pub mod Accepted
pub mod Order
pub mod Eligible
pub mod Best
pub mod Choice
pub mod Usable
use io_t_midterm_availabilit.Base.{
  ℕ, String, Bool, true, false, not, ◌&&◌, ◌||◌, Option, none, some, List, [], ◌∷◌, find, any,
  if◌then◌else◌, ◌=ₛ◌,
}
use io_t_midterm_availabilit.Js.Number.{
  Number, infinity, whole, num_ltb, num_eqb, is_finite, is_positive,
}
use io_t_midterm_availabilit.Js.Value.{
  Value, undefined, null, num, str, truthy, is_nullish, strict_eq, is_text, is_string, is_number,
}
use io_t_midterm_availabilit.Publisher.Ct.{Ct, Node, Link}

-- The fields of a candidate, and of the broker that is returned.
pub record Candidate : Type 0 where
  pub id : Value
  pub ip : Value
  pub port : Value
  pub rtt : Number
  pub hop : Number

pub record Broker : Type 0 where
  pub id : Value
  pub ip : Value
  pub port : Value

abbrev joins : Value → Value → Link → Bool
joins from to l =
    (strict_eq l.from_id from && strict_eq l.to_id to)
    || (strict_eq l.from_id to && strict_eq l.to_id from)

abbrev rtt_of : Option Link → Number
rtt_of none = infinity
rtt_of (some l) = elim l.rtt_ms [ num n ↦ n | _ ↦ infinity ]

-- `links` is `none` where it is no array.
unfoldable pub get_rtt : Option (List Link) → Value → Value → Number
get_rtt none from to = infinity
get_rtt (some links) from to =
    if truthy from && truthy to then rtt_of (find (joins from to) links) else infinity

abbrev pub non_empty : Value → Bool
non_empty (str s) = not (s =ₛ "")
non_empty _ = false

abbrev pub usable_port : Value → Bool
usable_port (num n) = is_finite n && is_positive n
usable_port _ = false

unfoldable pub is_broker_node : Node → String → Bool
is_broker_node node role =
    is_text node.role role
    && is_text node.status "ONLINE"
    && non_empty node.ip
    && usable_port node.port

abbrev hop_of : Value → Number
hop_of (num n) = if is_finite n then n else whole 999
hop_of _ = whole 999

unfoldable pub build_candidate : Node → Option (List Link) → Value → Candidate
build_candidate node links primary_edge_id = record {
  id = node.id;
  ip = node.ip;
  port = node.port;
  rtt = get_rtt links primary_edge_id node.id;
  hop = hop_of node.hop_to_core;
}

unfoldable pub is_better : Candidate → Candidate → Bool
is_better c best = num_ltb c.rtt best.rtt || (num_eqb c.rtt best.rtt && num_ltb c.hop best.hop)

-- `!best || …`
unfoldable pub is_better_candidate : Candidate → Option Candidate → Bool
is_better_candidate c none = true
is_better_candidate c (some best) = is_better c best

unfoldable pub is_excluded_node : Node → Value → String → Bool
is_excluded_node node primary_edge_id primary_edge_ip =
    if truthy primary_edge_id && strict_eq node.id primary_edge_id
    then true
    else not (truthy primary_edge_id)
      && not (primary_edge_ip =ₛ "")
      && is_text node.ip primary_edge_ip

-- One round of the loop of `pickBestCandidate`, and the loop.
unfoldable pub consider :
    Option (List Link) → Value → String → String → Node → Option Candidate → Option Candidate
unfolding is_better_candidate
consider links primary_edge_id role primary_edge_ip node best =
    if not (is_broker_node node role)
    then best
    else if is_excluded_node node primary_edge_id primary_edge_ip
    then best
    else let candidate = build_candidate node links primary_edge_id in
      if is_better_candidate candidate best then some candidate else best

unfoldable pub pick_from :
    Option (List Link) → Value → String → String → Option Candidate → List Node → Option Candidate
pick_from links primary_edge_id role primary_edge_ip best [] = best
pick_from links primary_edge_id role primary_edge_ip best (node ∷ nodes) =
    pick_from links primary_edge_id role primary_edge_ip
      (consider links primary_edge_id role primary_edge_ip node best) nodes

unfoldable pub pick_best_candidate :
    List Node → Option (List Link) → Value → String → String → Option Candidate
pick_best_candidate nodes links primary_edge_id role primary_edge_ip =
    pick_from links primary_edge_id role primary_edge_ip none nodes

abbrev pub to_broker : Node → Broker
to_broker node = record { id = node.id; ip = node.ip; port = node.port }

abbrev pub candidate_broker : Option Candidate → Option Broker
candidate_broker none = none
candidate_broker (some c) = some (record { id = c.id; ip = c.ip; port = c.port })

unfoldable pub is_named_core : Value → Node → Bool
is_named_core core_id node = strict_eq node.id core_id && is_broker_node node "CORE"

abbrev or_else {ℓ} : {A : Type ℓ} → Option Node → Option A → (Node → A) → Option A
or_else (some n) rest f = some (f n)
or_else none rest f = rest

unfoldable pub preferred_core : Ct → List Node → Value → Option Broker
preferred_core ct nodes primary_edge_id =
    or_else (find (is_named_core ct.active_core_id) nodes)
      (or_else (find (is_named_core ct.backup_core_id) nodes)
        (candidate_broker (pick_best_candidate nodes ct.links primary_edge_id "CORE" "")) to_broker)
      to_broker

unfoldable pub find_preferred_core_broker : Option Ct → Value → Option Broker
find_preferred_core_broker none primary_edge_id = none
find_preferred_core_broker (some ct) primary_edge_id = elim ct.nodes [
  | none ↦ none
  | some nodes ↦ preferred_core ct nodes primary_edge_id
]

-- `none` is `{ found: false }`.
unfoldable pub select_among : Ct → List Node → Value → String → Option Broker
select_among ct [] primary_edge_id primary_edge_ip = none
select_among ct (node ∷ nodes) primary_edge_id primary_edge_ip =
    let best_edge =
      pick_best_candidate (node ∷ nodes) ct.links primary_edge_id "NODE" primary_edge_ip in
    elim best_edge [
      | some c ↦ candidate_broker (some c)
      | none ↦ preferred_core ct (node ∷ nodes) primary_edge_id
    ]

unfoldable pub select_fallback_broker : Option Ct → Value → String → Option Broker
select_fallback_broker none primary_edge_id primary_edge_ip = none
select_fallback_broker (some ct) primary_edge_id primary_edge_ip = elim ct.nodes [
  | none ↦ none
  | some nodes ↦ select_among ct nodes primary_edge_id primary_edge_ip
]

abbrev pub is_primary_online : Value → Node → Bool
is_primary_online primary_edge_id n = strict_eq n.id primary_edge_id && is_text n.status "ONLINE"

unfoldable pub should_return_to_primary : Option Ct → Value → Bool
should_return_to_primary none primary_edge_id = false
should_return_to_primary (some ct) primary_edge_id = elim ct.nodes [
  | none ↦ false
  | some nodes ↦ truthy primary_edge_id && any (is_primary_online primary_edge_id) nodes
]

abbrev pub is_newer : Value → Value → Bool
is_newer (num next) (num previous) = num_ltb previous next
is_newer _ _ = true

abbrev pub is_some_list {ℓ} : {A : Type ℓ} → Option (List A) → Bool
is_some_list none = false
is_some_list (some _) = true

unfoldable pub is_well_formed : Ct → Bool
is_well_formed ct =
    is_number ct.version
    && is_some_list ct.nodes
    && is_some_list ct.links
    && is_string ct.active_core_id
    && is_string ct.backup_core_id

unfoldable pub should_accept_ct_update : Option Ct → Option Ct → Bool
should_accept_ct_update previous none = false
should_accept_ct_update none (some next) = is_well_formed next
should_accept_ct_update (some previous) (some next) =
    is_well_formed next && is_newer next.version previous.version

abbrev pub is_primary : Value → Value → Node → Bool
is_primary ip port node =
    is_text node.role "NODE"
    && strict_eq node.ip ip
    && (if is_nullish port then true else strict_eq node.port port)

abbrev pub id_of : Option Node → Value
id_of none = null
id_of (some node) = if is_nullish node.id then null else node.id

unfoldable pub resolve_primary_edge_id : Option Ct → Value → Value → Value
resolve_primary_edge_id none ip port = null
resolve_primary_edge_id (some ct) ip port = elim ct.nodes [
  | none ↦ null
  | some nodes ↦ id_of (find (is_primary ip port) nodes)
]
