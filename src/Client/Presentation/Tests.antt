-- ===== src/Client/Presentation/Tests.antt =====
-- Concrete nodes and events, and the names under which they are shown.
use io_t_midterm_availabilit.Base.{
  ◌≡◌, refl, ap, String, Option, none, some, List, [], ◌∷◌, here, there, In-cons, filter, pos,
  arith, eq_iff, ◌∙◌, inl, inr, Dict, lookup, sort_by, insert,
}
use io_t_midterm_availabilit.Js.Number.{fin, num_ltb, num_eqb, whole}
use io_t_midterm_availabilit.Js.Text.{
  parse_int, parse_int_from, is_space, trim, trim_start, trim_end, split_char, decimal,
}
use io_t_midterm_availabilit.Js.Value.{Value, null, num, str, obj, end, member, get, member_of}
use io_t_midterm_availabilit.Client.Parsers.{Node, Table, MqttMessage}
use io_t_midterm_availabilit.Client.Visibility.{text_of}
use io_t_midterm_availabilit.Client.Graph.{normalize_node_id}
use io_t_midterm_availabilit.Client.Collation.{code_order, code_order-IsOrder}
use io_t_midterm_availabilit.Client.Endpoint.{
  Locale, is_integer, octet, to_number, parse_ipv4, compare_node_endpoints,
}
use io_t_midterm_availabilit.Client.Presentation.{
  Presentation, format_edge_location_alias, resolve_event_node_id, get_node_alias_key,
  resolve_node_alias, last_with_id, add_alias, add_named_alias, add_event_aliases, add_aliases,
  build_auto_node_aliases, add_cores, add_edges, build_node_presentation_map,
}
use io_t_midterm_availabilit.Client.Presentation.Sorted.{
  Precedes, build_node_presentation_map-Precedes,
}

-- Texts of digits are the numbers they spell.
abbrev locale : Locale
locale = record {
  number_text = λ n. "1883";
  string_number = λ s. some (whole (parse_int s));
  locale_compare = code_order;
  numeric_compare = code_order;
}

-- To run the functions on closed nodes.
named : Unit {0}
unfolding parse_int parse_int_from is_space trim trim_start trim_end split_char decimal code_order
    num_ltb num_eqb whole member_of get text_of normalize_node_id is_integer octet to_number
    parse_ipv4 compare_node_endpoints format_edge_location_alias resolve_event_node_id
    get_node_alias_key resolve_node_alias last_with_id add_alias add_named_alias add_event_aliases
    add_aliases build_auto_node_aliases add_cores add_edges build_node_presentation_map lookup
    sort_by insert filter
named = tt

abbrev node : String → String → String → Node
node id role ip = record {
  id = str id;
  role = str role;
  ip = str ip;
  port = num (fin (pos 1883));
  status = str "ONLINE";
  previous_status = str "ONLINE";
  status_changed_at = null;
  hop_to_core = num (fin (pos 1));
}

abbrev table : Option Table
table = some (record {
  version = fin (pos 10);
  last_update = null;
  active_core_id = "core-a";
  backup_core_id = "core-b";
  nodes =
      node "edge-b" "NODE" "192.168.0.16"
      ∷ node "core-b" "CORE" "192.168.0.8"
      ∷ node "edge-a" "NODE" "192.168.0.9"
      ∷ [];
  links = [];
})

abbrev shown_names : Dict Presentation
shown_names = build_node_presentation_map locale table (("192.168.0.9:1883", str " Hall ") ∷ [])

abbrev label_of : Option Presentation → String
label_of none = ""
label_of (some p) = p.list_label

-- The address with the smaller last number is the first edge, and its alias is shown.
edge_labels :
    (label_of (lookup "edge-a" shown_names) ≡ "EDGE 1 · Hall")
    × (label_of (lookup "edge-b" shown_names) ≡ "EDGE 2")
    × (label_of (lookup "core-b" shown_names) ≡ "BACKUP CORE")
unfolding named
edge_labels = (refl, refl, refl)

-- Not an address: a part above 255, and three parts.
no_address :
    (parse_ipv4 locale (str "192.168.0.256") ≡ none) × (parse_ipv4 locale (str "1.2.3") ≡ none)
unfolding named
no_address = (refl, refl)

build_node_presentation_map-Precedes_example :
    Precedes locale
      (("192.168.0.9:1883", str " Hall ") ∷ [])
      shown_names
      (node "edge-a" "NODE" "192.168.0.9")
      (node "edge-b" "NODE" "192.168.0.16")
unfolding named
build_node_presentation_map-Precedes_example =
    build_node_presentation_map-Precedes locale table (("192.168.0.9:1883", str " Hall ") ∷ [])
      code_order-IsOrder
      (λ n i. elim (In-cons i) [
        | inl same ↦ rw same refl
        | inr j ↦ elim (In-cons j) [ inl same ↦ rw same refl | inr k ↦ elim k [ ] ]
      ])
      (
        λ n i. elim (In-cons i) [
          | inl same ↦ (λ e. differ (ap (λ (x : Node). text_of locale.number_text x.id) same) e)
          | inr k ↦ elim k [ ]
        ],
        (λ n i. elim i [ ], tt),
      )
      (node "edge-a" "NODE" "192.168.0.9") (node "edge-b" "NODE" "192.168.0.16") (there here) here
      refl
  where
    differ : {x : String} → x ≡ "edge-a" → "edge-b" ≡ x → ⊥
    differ p q = ground (arith, eq_iff "edge-b" "edge-a", q ∙ p)

abbrev event : String → Value → MqttMessage
event id building = record {
  msg_id = str "1";
  type = str "MOTION";
  timestamp = str "";
  priority = null;
  source = obj (member "id" (str id) end);
  target = null;
  route = null;
  delivery = null;
  payload = obj (member "building_id" building end);
}

abbrev events : List MqttMessage
events = event "edge-a" (str "Hall") ∷ event "edge-a" (str "Library") ∷ []
