-- ===== src/Client/Graph/Tests.antt =====
-- Concrete nodes and links of the graph.
use io_t_midterm_availabilit.Base.{
  ℕ, ◌/◌, ◌+◌, ◌≡◌, refl, negsuc, String, inl, some, List, [], ◌∷◌, arith, eq_iff, In, here, there,
  filter, any, pos, lookup, sort_by, insert,
}
use io_t_midterm_availabilit.Js.Number.{Number, fin, num_ltb, num_eqb, whole}
use io_t_midterm_availabilit.Js.Text.{parse_int, parse_int_from, is_space, split_char, ◌<>◌}
use io_t_midterm_availabilit.Js.Scan.{slice_to}
use io_t_midterm_availabilit.Js.Value.{null, num, str}
use io_t_midterm_availabilit.Client.Parsers.{Node, Link, Table}
use io_t_midterm_availabilit.Client.Visibility.{text_of}
use io_t_midterm_availabilit.Client.Collation.{code_order, code_order-IsOrder}
use io_t_midterm_availabilit.Client.Endpoint.{Locale, to_number}
use io_t_midterm_availabilit.Client.Graph.{
  normalize_node_id, role_in, is_core_in, classify_ends, active_link,
}
use io_t_midterm_availabilit.Client.Graph.Layout.{
  stable_hash, stable_hash_from, add_shifted, edge_slot_angle, at, core_place, edge_place,
  place_nodes, compare_core_endpoints, build_topology_node_label, build_topology_node_positions,
}
use io_t_midterm_availabilit.Client.Graph.Layout.Distinct.{
  IsLayout, build_topology_node_positions-IsLayout,
}
use io_t_midterm_availabilit.Client.Graph.Joined.{
  Doubles, GraphLink, is_finite_positive_rtt, add_entry, sum_from, average,
  format_topology_link_rtt, normalize_link_direction, add_link, add_links,
  build_topology_graph_links,
}
use io_t_midterm_availabilit.Client.Graph.Joined.Simple.{
  IsSimple, build_topology_graph_links-IsSimple,
}
use io_t_midterm_availabilit.Client.Graph.Joined.Times.{
  TimesOf, IsMean, build_topology_graph_links-TimesOf,
}
use io_t_midterm_availabilit.Client.Graph.Joined.Ends.{IsNormal}
use io_t_midterm_availabilit.Client.Graph.Joined.Complete.{build_topology_graph_links_complete}

abbrev locale : Locale
locale = record {
  number_text = λ n. "6";
  string_number = λ s. some (whole (parse_int s));
  locale_compare = code_order;
  numeric_compare = code_order;
}

-- Enough of the doubles for whole times.
abbrev sum_of : Number → Number → Number
sum_of (fin (pos a)) (fin (pos b)) = fin (pos (a + b))
sum_of a _ = a

abbrev quotient_of : Number → ℕ → Number
quotient_of (fin (pos a)) n = fin (pos (a / n))
quotient_of a n = a

abbrev doubles : Doubles
doubles = record {
  plus = sum_of;
  divided_by = quotient_of;
  to_fixed = λ n d. "6.0";
  round = λ n. n;
}

drawn : Unit {0}
unfolding parse_int parse_int_from is_space split_char slice_to code_order num_ltb num_eqb whole
    text_of to_number normalize_node_id role_in is_core_in classify_ends stable_hash
    stable_hash_from add_shifted edge_slot_angle core_place edge_place place_nodes
    compare_core_endpoints build_topology_node_label build_topology_node_positions
    is_finite_positive_rtt add_entry sum_from average format_topology_link_rtt
    normalize_link_direction add_link add_links build_topology_graph_links lookup sort_by insert
    filter any
drawn = tt

abbrev node : String → String → Node
node id role = record {
  id = str id;
  role = str role;
  ip = str id;
  port = num (fin (pos 0));
  status = str "ONLINE";
  previous_status = str "ONLINE";
  status_changed_at = null;
  hop_to_core = null;
}

abbrev link : String → String → ℕ → Link
link from to rtt = record { from_id = str from; to_id = str to; rtt_ms = num (whole rtt) }

abbrev both_ways : List Link
both_ways =
    link "edge" "core" 4 ∷ link "core" "edge" 8 ∷ link "core" "gone" 2 ∷ link "core" "core" 1 ∷ []

abbrev nodes : List Node
nodes = node "edge" "NODE" ∷ node "core" "CORE" ∷ node "spare" "CORE" ∷ []

abbrev table : Table
table = record {
  version = fin (pos 1);
  last_update = null;
  active_core_id = "core";
  backup_core_id = "spare";
  nodes = nodes;
  links = both_ways;
}

abbrev joined : GraphLink
joined = record {
  from_id = "core";
  to_id = "edge";
  rtt_ms = some (whole 6);
  rtt_label = "6.0 ms";
  edge_kind = active_link;
}

-- The two directions are one link, and links to themselves or to unknown nodes are left out.
one_link : build_topology_graph_links locale doubles (some table) nodes ≡ joined ∷ []
unfolding drawn
one_link = refl

-- The hash of "a", as FNV-1a has it.
hash_of_a : stable_hash "a" ≡ 0xe40c292c
unfolding drawn
hash_of_a = refl

label_of_core :
    build_topology_node_label locale (some table) (node "spare" "CORE") ≡ "BACKUP\nspare"
unfolding drawn
label_of_core = refl

build_topology_graph_links-IsSimple_example : IsSimple locale table nodes (joined ∷ [])
unfolding drawn
build_topology_graph_links-IsSimple_example =
    build_topology_graph_links-IsSimple locale doubles code_order-IsOrder table nodes

build_topology_graph_links-TimesOf_example :
    (ns : List Number) × TimesOf locale table nodes "core->edge" both_ways ns
    × IsMean doubles ns (some (whole 6))
unfolding drawn
build_topology_graph_links-TimesOf_example =
    build_topology_graph_links-TimesOf locale doubles table nodes joined here

build_topology_graph_links_complete_example :
    (g : GraphLink) × (x : String) × (y : String) × In g
      (build_topology_graph_links locale doubles (some table) nodes)
    × IsNormal locale table "edge" "core" x y
    × (g.from_id <> "->" <> g.to_id ≡ x <> "->" <> y)
unfolding drawn
build_topology_graph_links_complete_example =
    build_topology_graph_links_complete locale doubles table nodes (link "edge" "core" 4) "edge"
      "core" here
      (
        refl,
        refl,
        ((λ e. ground (arith, eq_iff "edge" "", e)), (node "edge" "NODE", inl here, refl)),
        ((λ e. ground (arith, eq_iff "core" "", e)), (node "core" "CORE", inl (there here), refl)),
        λ e. ground (arith, eq_iff "edge" "core", e),
      )

build_topology_node_positions-IsLayout_example :
    IsLayout (build_topology_node_positions locale nodes)
build_topology_node_positions-IsLayout_example = build_topology_node_positions-IsLayout locale nodes

places_of_cores :
    (lookup "core" (build_topology_node_positions locale nodes)
      ≡ some (at (negsuc 79) (negsuc 149)))
    × (lookup "spare" (build_topology_node_positions locale nodes)
        ≡ some (at (pos 80) (negsuc 149)))
unfolding drawn
places_of_cores = (refl, refl)
