-- ===== src/Client/Graph/Joined.antt =====
-- topologyGraphModel.js: the links of the graph, one for each pair of nodes, with their round-trip
-- times.
pub mod Ends
pub mod Entries
pub mod Simple
pub mod Gathered
pub mod Times
pub mod Complete
use io_t_midterm_availabilit.Base.{
  ℕ, String, Bool, true, false, not, ◌&&◌, ◌||◌, Option, none, some, List, [], ◌∷◌, ◌++◌, map,
  filter, any, length, ◌=ₛ◌, if◌then◌else◌, is_after,
}
use io_t_midterm_availabilit.Js.Number.{Number, is_finite, is_positive, num_ltb, whole}
use io_t_midterm_availabilit.Js.Text.{◌<>◌}
use io_t_midterm_availabilit.Js.Value.{Value, num}
use io_t_midterm_availabilit.Client.Parsers.{Node, Link, Table}
use io_t_midterm_availabilit.Client.Endpoint.{Locale}
use io_t_midterm_availabilit.Client.Graph.{LinkClass, normalize_node_id, is_core_in, classify_ends}

-- What the module uses of doubles: the sum and the quotient, both rounded, `toFixed`, and
-- `Math.round`.
pub record Doubles : Type 0 where
  pub plus : Number → Number → Number
  pub divided_by : Number → ℕ → Number
  pub to_fixed : Number → ℕ → String
  pub round : Number → Number

-- `isFinitePositiveRtt`, with the number it lets pass.
unfoldable pub is_finite_positive_rtt : Value → Option Number
is_finite_positive_rtt (num n) = if is_finite n && is_positive n then some n else none
is_finite_positive_rtt _ = none

pub record Entry : Type 0 where
  pub key : String
  pub from_id : String
  pub to_id : String
  pub rtt_values : List Number

pub record GraphLink : Type 0 where
  pub from_id : String
  pub to_id : String
  pub rtt_ms : Option Number
  pub rtt_label : String
  pub edge_kind : LinkClass

abbrev pub values_of : Option Number → List Number
values_of none = []
values_of (some n) = n ∷ []

-- `aggregated.get(key) ?? { … }`, the push, and `aggregated.set(key, …)`: a key that is there
-- keeps its place and its ends.
unfoldable pub add_entry : String → String → String → Option Number → List Entry → List Entry
add_entry key from to rtt [] =
    record { key = key; from_id = from; to_id = to; rtt_values = values_of rtt } ∷ []
add_entry key from to rtt (e ∷ es) =
    let rest = add_entry key from to rtt es in
    if e.key =ₛ key then record e { rtt_values = e.rtt_values ++ values_of rtt } ∷ es else e ∷ rest

abbrev pub has_id : List String → String → Bool
has_id ids id = any (λ x. x =ₛ id) ids

abbrev pub is_drawn : List String → String → String → Bool
is_drawn ids from to =
    not (from =ₛ "" || to =ₛ "" || from =ₛ to) && not (not (has_id ids from) || not (has_id ids to))

abbrev pub add_directed : String × String → Option Number → List Entry → List Entry
add_directed (from, to) rtt es = add_entry (from <> "->" <> to) from to rtt es

module _ (doubles : Doubles) where
  -- `values.reduce((sum, value) => sum + value, 0)`
  unfoldable pub sum_from : Number → List Number → Number
  sum_from acc [] = acc
  sum_from acc (n ∷ ns) = sum_from (doubles.plus acc n) ns

  unfoldable pub average : List Number → Option Number
  unfolding sum_from
  average [] = none
  average (n ∷ ns) = some (doubles.divided_by (sum_from (whole 0) (n ∷ ns)) (length (n ∷ ns)))

  module _ (number_text : Number → String) where
    unfoldable pub format_topology_link_rtt : Option Number → String
    format_topology_link_rtt none = ""
    format_topology_link_rtt (some n) =
        if not (is_finite n && is_positive n)
        then ""
        else if num_ltb n (whole 1)
        then doubles.to_fixed n 2 <> " ms"
        else if num_ltb n (whole 10)
        then doubles.to_fixed n 1 <> " ms"
        else number_text (doubles.round n) <> " ms"

module _ (locale : Locale) where
  abbrev link_id : Value → String
  link_id v = normalize_node_id locale.number_text v

  abbrev pub is_core : Table → String → Bool
  is_core t id = is_core_in locale.number_text t id

  -- The two ends, the core or the smaller text first.
  unfoldable pub normalize_link_direction : String → String → Table → String × String
  normalize_link_direction from to t =
      if is_core t from && not (is_core t to)
      then (from, to)
      else if is_core t to && not (is_core t from)
      then (to, from)
      else if is_after (locale.locale_compare from to)
      then (to, from)
      else (from, to)

  abbrev pub ids_of : List Node → List String
  ids_of [] = []
  ids_of (n ∷ ns) = if link_id n.id =ₛ "" then ids_of ns else link_id n.id ∷ ids_of ns

  abbrev nonempty : List Node → List Node → List Node
  nonempty [] others = others
  nonempty (n ∷ ns) others = n ∷ ns

  abbrev pub node_ids : Table → List Node → List String
  node_ids t visible = ids_of (nonempty visible t.nodes)

  -- The body of the loop over the links.
  unfoldable pub add_link : Table → List String → Link → List Entry → List Entry
  unfolding add_entry normalize_link_direction is_finite_positive_rtt any
  add_link t ids l es =
      if is_drawn ids (link_id l.from_id) (link_id l.to_id)
      then add_directed (normalize_link_direction (link_id l.from_id) (link_id l.to_id) t)
          (is_finite_positive_rtt l.rtt_ms) es
      else es

  unfoldable pub add_links : Table → List String → List Link → List Entry → List Entry
  unfolding add_link
  add_links t ids [] es = es
  add_links t ids (l ∷ ls) es = add_links t ids ls (add_link t ids l es)

  module _ (doubles : Doubles) where
    abbrev pub graph_link : Table → Entry → GraphLink
    graph_link t e =
        let averaged = average doubles e.rtt_values in
        record {
          from_id = e.from_id;
          to_id = e.to_id;
          rtt_ms = averaged;
          rtt_label = format_topology_link_rtt doubles locale.number_text averaged;
          edge_kind = classify_ends locale.number_text t e.from_id e.to_id;
        }

    unfoldable pub build_topology_graph_links : Option Table → List Node → List GraphLink
    unfolding add_links average format_topology_link_rtt
    build_topology_graph_links none visible = []
    build_topology_graph_links (some t) visible =
        map (graph_link t) (add_links t (node_ids t visible) t.links [])
