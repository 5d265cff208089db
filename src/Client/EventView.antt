-- ===== src/Client/EventView.antt =====
-- client/src/mqtt/eventPresentation.js: how an event is presented, and where it came from.
pub mod Source
use io_t_midterm_availabilit.Base.{
  ℕ, zero, suc, ◌-◌, String, Bool, true, false, not, ◌&&◌, ◌||◌, ℤ, pos, pos_part, neg_part, ◌+◌,
  Option, none, some, List, [], ◌∷◌, ◌=ₛ◌, if◌then◌else◌, Dict, lookup,
}
use io_t_midterm_availabilit.Js.Number.{Number}
use io_t_midterm_availabilit.Js.Text.{◌<>◌}
use io_t_midterm_availabilit.Js.Scan.{slice_to}
use io_t_midterm_availabilit.Js.Value.{
  Value, str, arr, Elements, nil, cons, get, truthy, is_nullish, is_text, strict_eq,
}
use io_t_midterm_availabilit.Js.ValueMap.{ValueMap, set_value, get_value}
use io_t_midterm_availabilit.Client.Parsers.{Node, MqttMessage}
use io_t_midterm_availabilit.Client.Visibility.{text_of, element_text}
use io_t_midterm_availabilit.Client.Presentation.{Presentation}
use io_t_midterm_availabilit.Client.EventText.{
  Dates, Nested, normalize_description, normalize_location_text, parse_nested_publisher_message,
}

abbrev pub NodeMap : Type 0
NodeMap = ValueMap Node

-- `nodeById` of the page: `new Map(nodes.map(node => [node.id, node]))`.
unfoldable pub node_by_id : List Node → NodeMap → NodeMap
unfolding set_value
node_by_id [] map = map
node_by_id (n ∷ ns) map = node_by_id ns (set_value n.id n map)

-- `nodeDisplayMap.get(id)`, whose keys are texts.
abbrev pub display_of : Dict Presentation → Value → Option Presentation
display_of displays (str s) = lookup s displays
display_of displays _ = none

unfoldable pub find_node_by_ip : NodeMap → String → Option Node
find_node_by_ip [] ip = none
find_node_by_ip ((k, n) ∷ rest) ip =
    let later = find_node_by_ip rest ip in
    if ip =ₛ "" then none else if is_text n.ip ip then some n else later

-- `v ?? ''`
abbrev pub or_empty : Value → Value
or_empty v = if is_nullish v then str "" else v

abbrev pub or_node : Option Node → Option Node → Option Node
or_node none other = other
or_node (some n) other = some n

abbrev pub string_or_empty : Value → String
string_or_empty (str s) = s
string_or_empty _ = ""

abbrev original_id : Option Nested → String
original_id none = ""
original_id (some n) = n.original_edge_id

abbrev original_ip : Option Nested → String
original_ip none = ""
original_ip (some n) = n.original_edge_ip

-- The node with an id that is not empty and not the actual source's.
abbrev other_node : NodeMap → String → Value → Option Node
other_node nodes id actual =
    if not (id =ₛ "") && not (is_text actual id) then get_value nodes (str id) else none

-- `displaySourceNode`: the original node of the route, else the one that the publisher names by
-- its id or address, else the node that sent the event.
unfoldable pub display_source_node : NodeMap → String → Option Nested → Value → Option Node
unfolding get_value find_node_by_ip
display_source_node nodes route_original nested actual =
    or_node (other_node nodes route_original actual) (
      or_node (other_node nodes (original_id nested) actual) (
        or_node (find_node_by_ip nodes (original_ip nested))
          (if truthy actual then get_value nodes actual else none)))

-- `displaySourceNode?.id ?? hintedSourceId`
abbrev pub id_or : Option Node → Value → Value
id_or none hint = hint
id_or (some n) hint = if is_nullish n.id then hint else n.id

abbrev hinted : String → Option Nested → Value → Value
hinted route_original nested actual =
    if not (route_original =ₛ "")
    then str route_original
    else if not (original_id nested =ₛ "")
    then str (original_id nested)
    else actual

unfoldable pub display_source_id : NodeMap → String → Option Nested → Value → Value
unfolding display_source_node
display_source_id nodes route_original nested actual =
    id_or (display_source_node nodes route_original nested actual)
      (hinted route_original nested actual)

-- Two identifiers that are there and differ.
abbrev pub via_different : Value → Value → Bool
via_different shown actual = truthy shown && truthy actual && not (strict_eq shown actual)

abbrev pub ip_of : Option Node → Value
ip_of none = str ""
ip_of (some n) = or_empty n.ip

-- `displaySourceNode?.ip ?? nested?.originalEdgeIp ?? ''`
abbrev source_ip_of : Option Node → Option Nested → Value
source_ip_of none nested = str (original_ip nested)
source_ip_of (some n) nested = if is_nullish n.ip then str (original_ip nested) else n.ip

-- `edgeLabel` where it is there and not empty, and `alias` where it is there.
abbrev label_in : Option Presentation → Option String
label_in none = none
label_in (some p) = p.edge_label

abbrev alias_in : Option Presentation → Option String
alias_in none = none
alias_in (some p) = p.alias

abbrev text_in : Option String → String → String
text_in none d = d
text_in (some s) d = s

abbrev option_or : Option String → Option String → Option String
option_or none d = d
option_or (some s) d = some s

-- `a || b` of texts.
abbrev pub or_text : String → String → String
or_text a b = if a =ₛ "" then b else a

-- `Math.max(0, a - b)`; `none` is NaN.
abbrev max_difference : Option ℤ → Option ℤ → Option ℕ
max_difference (some a) (some b) = some ((pos_part a + neg_part b) - (pos_part b + neg_part a))
max_difference none b = none
max_difference (some a) none = none

-- The first eight entries of an array.
abbrev cut : ℕ → Elements → Elements
cut zero vs = nil
cut (suc n) nil = nil
cut (suc n) (cons v vs) = cons v (cut n vs)

-- A label, `none` where the evaluation raises.
abbrev or_label : String → Option String → Option String
or_label a b = if a =ₛ "" then b else some a

abbrev or_unknown : Option String → Option String
or_unknown none = none
or_unknown (some label) = some (or_text label "Unknown edge")

-- The labels are `none` where making them raises, at an identifier that is neither a text nor an
-- array; the rendering ends there.
pub record EventPresentation : Type 0 where
  pub source_id : Value
  pub actual_source_id : Value
  pub source_ip : Value
  pub source_port : String
  pub source_endpoint : String
  pub actual_source_endpoint : String
  pub edge_label : Option String
  pub source_title : Option String
  pub source_alias : String
  pub location_label : String
  pub description_label : String
  pub publisher_id : String
  pub via_failover : Bool
  pub intended_edge_label : Option String
  pub transit_edge_label : Option String
  pub was_queued : Bool
  pub queue_delay_ms : Option ℕ

module _ (number_text : Number → String) where
  abbrev ip_text : Value → String
  ip_text ip = if truthy ip then text_of number_text ip else ""

  -- An address, with the port behind a colon where there is one.
  abbrev endpoint_of : Value → String → String
  endpoint_of ip port =
      if truthy ip then text_of number_text ip <> (if port =ₛ "" then "" else ":" <> port) else ""

  abbrev port_of : Option Node → String
  port_of none = ""
  port_of (some n) = if truthy n.port then text_of number_text n.port else ""

  -- `displays.get(id)` for an identifier that is there.
  abbrev shown_display : Dict Presentation → Value → Option Presentation
  shown_display displays id = if truthy id then display_of displays id else none

  unfoldable pub short_id : Value → Option String
  unfolding slice_to
  short_id (str s) = some (if s =ₛ "" then "" else slice_to 8 s <> "…")
  short_id (arr vs) = some (text_of number_text (arr (cut 8 vs)) <> "…")
  short_id v = if truthy v then none else some ""

  abbrev edge_at : Value → Option Node → Value → Option String
  edge_at id owner fallback_ip =
      if truthy fallback_ip
      then some ("EDGE " <> text_of number_text fallback_ip)
      else if truthy (ip_of owner)
      then some ("EDGE " <> text_of number_text (ip_of owner))
      else if truthy id
      then short_id id
      else some "EDGE"

  unfoldable pub build_edge_label : Value → Option Node → Dict Presentation → Value → Option String
  unfolding short_id
  build_edge_label id owner displays fallback_ip =
      or_label (text_in (label_in (shown_display displays id)) "") (edge_at id owner fallback_ip)

  -- `display?.edgeLabel ?? buildEdgeLabel(…)`
  abbrev edge_label_of : Value → Option Node → Dict Presentation → Value → Option String
  edge_label_of id owner displays ip =
      option_or (label_in (shown_display displays id)) (build_edge_label id owner displays ip)

  abbrev filter_label_in : Option Presentation → String
  filter_label_in none = ""
  filter_label_in (some p) = p.filter_label

  abbrev ip_or : String → Option String → Option String
  ip_or ip none = none
  ip_or ip (some label) = some (or_text ip (or_text label "Unknown edge"))

  unfoldable pub format_event_source_option :
      Value → Option Node → Dict Presentation → Option String
  unfolding short_id
  format_event_source_option id owner displays =
      or_label (filter_label_in (display_of displays id))
        (ip_or (ip_text (ip_of owner)) (short_id id))

  -- `[buildingId, cameraId].filter(Boolean).join(' / ') || 'Location unavailable'`
  abbrev location_label_of : Value → Value → String
  location_label_of building camera =
      let joined =
        if truthy building
        then (if truthy camera
            then element_text number_text building <> " / " <> element_text number_text camera
            else element_text number_text building)
        else if truthy camera
        then element_text number_text camera
        else "" in
      or_text joined "Location unavailable"

  abbrev queue_delay : Dates → Option Nested → Value → Option ℕ
  queue_delay dates none timestamp = some 0
  queue_delay dates (some n) timestamp =
      if truthy n.was_queued && not (n.created_at =ₛ "") && truthy timestamp
      then max_difference (dates.new_date timestamp) (dates.new_date (str n.created_at))
      else some 0

  abbrev description_of : Option Nested → Value → String
  description_of none raw = normalize_description raw
  description_of (some n) raw = n.description

  abbrev publisher_of : Option Nested → String
  publisher_of none = ""
  publisher_of (some n) = n.publisher_id

  abbrev flagged : Option Nested → Bool
  flagged none = false
  flagged (some n) = truthy n.via_failover

  abbrev queued_in : Option Nested → Bool
  queued_in none = false
  queued_in (some n) = truthy n.was_queued

  -- The fields, from the sender, the node that the event is shown under, and its identifier.
  unfoldable pub presentation_of :
      Dates
      → MqttMessage
      → Dict Presentation
      → Option Nested
      → Value
      → Option Node
      → Option Node
      → Value
      → EventPresentation
  unfolding build_edge_label short_id normalize_description
  presentation_of dates e displays nested actual actual_node owner id =
      let display = shown_display displays id in
      let building = or_empty (get e.payload "building_id") in
      let camera = or_empty (get e.payload "camera_id") in
      let automatic = or_text (normalize_location_text building) (normalize_location_text camera) in
      let ip = source_ip_of owner nested in
      let shown = if truthy id then id else actual in
      let label = edge_label_of id owner displays ip in
      let differs = via_different id actual in
      record {
        source_id = shown;
        actual_source_id = actual;
        source_ip = ip;
        source_port = port_of owner;
        source_endpoint = endpoint_of ip (port_of owner);
        actual_source_endpoint = endpoint_of (ip_of actual_node) (port_of actual_node);
        edge_label = label;
        source_title = or_label (text_in (alias_in display) "") (
            or_label automatic (
              or_label (text_in (label_in display) "")
                (or_label (ip_text ip) (or_unknown (short_id shown)))));
        source_alias = text_in (alias_in display) automatic;
        location_label = location_label_of building camera;
        description_label = description_of nested (get e.payload "description");
        publisher_id = publisher_of nested;
        via_failover = flagged nested || differs;
        intended_edge_label = if differs then label else some "";
        transit_edge_label =
            if differs
            then edge_label_of actual actual_node displays (ip_of actual_node)
            else some "";
        was_queued = queued_in nested;
        queue_delay_ms = queue_delay dates nested e.timestamp;
      }

  unfoldable pub get_event_presentation :
      Dates → MqttMessage → NodeMap → Dict Presentation → EventPresentation
  unfolding presentation_of display_source_id display_source_node get_value
      parse_nested_publisher_message
  get_event_presentation dates e nodes displays =
      let actual = or_empty (get e.source "id") in
      let nested = parse_nested_publisher_message dates (get e.payload "description") in
      let route_original = string_or_empty (get e.route "original_node") in
      presentation_of dates e displays nested actual
        (if truthy actual then get_value nodes actual else none)
        (display_source_node nodes route_original nested actual)
        (display_source_id nodes route_original nested actual)
