-- ===== src/Client/EventView/Source.antt =====
-- eventPresentation.js: under which node an event is presented.
use mathlib.Core.Path.{ap₂}
use io_t_midterm_availabilit.Base.{
  String, ◌≡◌, ◌≢◌, refl, sym, ap, ◌∙◌, subst, inl, inr, true, false, Option, none, some, List, [],
  ◌∷◌, arith, ◌=ₛ◌, eq_iff, eq_refl, Bool-cases, if◌then◌else◌, In, In-cons, Dict,
}
use io_t_midterm_availabilit.Js.Number.{Number}
use io_t_midterm_availabilit.Js.Value.{Value, str, get, truthy, is_text, strict_eq, strict_eq→eq}
use io_t_midterm_availabilit.Js.ValueMap.{
  set_value, get_value, get_value-set_value_own, get_value-set_value_other,
}
use io_t_midterm_availabilit.Client.Parsers.{Node, MqttMessage}
use io_t_midterm_availabilit.Client.Presentation.{Presentation}
use io_t_midterm_availabilit.Client.EventText.{Dates, Nested, parse_nested_publisher_message}
use io_t_midterm_availabilit.Client.EventView.{
  NodeMap, node_by_id, or_empty, display_source_node, display_source_id, presentation_of,
  get_event_presentation, id_or, string_or_empty,
}

-- Every node stands under its own id.
abbrev IsKeyed : NodeMap → Type 0
IsKeyed nodes = (id : String) (n : Node) → get_value nodes (str id) ≡ some n → n.id ≡ str id

-- A node with the id is there.
abbrev Lists : NodeMap → String → Type 0
Lists nodes id = (n : Node) × (get_value nodes (str id) ≡ some n)

some-injective : {m n : Node} → some m ≡ some n → m ≡ n
some-injective e = ground arith

set_value-IsKeyed : (n : Node) (nodes : NodeMap) → IsKeyed nodes → IsKeyed (set_value n.id n nodes)
set_value-IsKeyed n nodes keyed k m e = elim (Bool-cases (strict_eq n.id (str k))) [
  | inl f ↦
      let found : some n ≡ some m = sym (get_value-set_value_own n.id n nodes k f) ∙ e in
      subst (λ (x : Node). x.id ≡ str k) (some-injective found) (strict_eq→eq n.id (str k) f)
  | inr f ↦ keyed k m (sym (get_value-set_value_other n.id n nodes k f) ∙ e)
]

node_by_id-IsKeyed :
    (ns : List Node) (nodes : NodeMap) → IsKeyed nodes → IsKeyed (node_by_id ns nodes)
unfolding node_by_id
node_by_id-IsKeyed [] nodes keyed = keyed
node_by_id-IsKeyed (n ∷ ns) nodes keyed =
    node_by_id-IsKeyed ns (set_value n.id n nodes) (set_value-IsKeyed n nodes keyed)

set_value-Lists :
    (id : Value) (n : Node) (nodes : NodeMap) (k : String)
    → Lists nodes k
    → Lists (set_value id n nodes) k
set_value-Lists id n nodes k h = elim (Bool-cases (strict_eq id (str k))) [
  | inl f ↦ (n, get_value-set_value_own id n nodes k f)
  | inr f ↦ (h.0, get_value-set_value_other id n nodes k f ∙ h.1)
]

own : (n : Node) (nodes : NodeMap) (k : String) → n.id ≡ str k → Lists (set_value n.id n nodes) k
own n nodes k e =
    let same : strict_eq n.id (str k) ≡ true = ap (λ x. strict_eq x (str k)) e ∙ eq_refl k in
    (n, get_value-set_value_own n.id n nodes k same)

Lists-node_by_id :
    (ns : List Node) (nodes : NodeMap) (k : String) → Lists nodes k → Lists (node_by_id ns nodes) k
unfolding node_by_id
Lists-node_by_id [] nodes k h = h
Lists-node_by_id (n ∷ ns) nodes k h =
    Lists-node_by_id ns (set_value n.id n nodes) k (set_value-Lists n.id n nodes k h)

node_by_id-Lists :
    (ns : List Node) (nodes : NodeMap) (k : String) (n : Node)
    → In n ns
    → n.id ≡ str k
    → Lists (node_by_id ns nodes) k
unfolding node_by_id
node_by_id-Lists [] nodes k n i e = elim i [ ]
node_by_id-Lists (m ∷ ns) nodes k n i e = elim (In-cons i) [
  | inl same ↦
      Lists-node_by_id ns (set_value m.id m nodes) k
        (own m nodes k (sym (ap (λ (x : Node). x.id) same) ∙ e))
  | inr j ↦ node_by_id-Lists ns (set_value m.id m nodes) k n j e
]

-- An event that names another listed node as the original one is presented under that node.
display_source_id-original :
    (nodes : NodeMap) (r : String) (nested : Option Nested) (actual : Value)
    → IsKeyed nodes
    → Lists nodes r
    → (r =ₛ "") ≡ false
    → is_text actual r ≡ false
    → display_source_id nodes r nested actual ≡ str r
unfolding display_source_id display_source_node
display_source_id-original nodes r nested actual keyed listed full other =
    rw full (rw other (rw listed.1 (id_or_text listed.0 _ (keyed r listed.0 listed.1))))
  where
    id_or_text : (m : Node) (hint : Value) → m.id ≡ str r → id_or (some m) hint ≡ str r
    id_or_text m hint e = rw e refl

-- The fields for a sender and an original node that differ.
presentation_of-relayed :
    (number_text : Number → String) (dates : Dates) (e : MqttMessage) (displays : Dict Presentation)
    (nested : Option Nested) (actual id : Value) (sender_node shown_node : Option Node)
    (original sender : String)
    → id ≡ str original
    → actual ≡ str sender
    → original ≢ ""
    → sender ≢ ""
    → original ≢ sender
    → let view =
        presentation_of number_text dates e displays nested actual sender_node shown_node id in
      (view.source_id ≡ str original)
      × (view.actual_source_id ≡ str sender)
      × (view.via_failover ≡ true)
unfolding presentation_of
presentation_of-relayed number_text dates e displays nested actual id sender_node shown_node
      original sender p q full sent other =
    let there : truthy id ≡ true = ap truthy p ∙ ground (arith, eq_iff original "") in
    let sent_by : truthy actual ≡ true = ap truthy q ∙ ground (arith, eq_iff sender "") in
    let differ : strict_eq id actual ≡ false =
      ap₂ strict_eq p q ∙ ground (arith, eq_iff original sender) in
    (ap (λ b. if b then id else actual) there ∙ p, q, ground arith)

-- Where an event came from, for nodes as the page keeps them: an event whose route names a listed
-- node as the original one, which is not the sender, is presented under that node and as relayed.
-- Both ids are texts that are not empty.
pub get_event_presentation-relayed :
    (number_text : Number → String) (dates : Dates) (e : MqttMessage) (ns : List Node)
    (displays : Dict Presentation) (n : Node) (original sender : String)
    → In n ns
    → n.id ≡ str original
    → original ≢ ""
    → get e.route "original_node" ≡ str original
    → get e.source "id" ≡ str sender
    → sender ≢ ""
    → original ≢ sender
    → let view = get_event_presentation number_text dates e (node_by_id ns []) displays in
      (view.source_id ≡ str original)
      × (view.actual_source_id ≡ str sender)
      × (view.via_failover ≡ true)
unfolding get_event_presentation get_value
get_event_presentation-relayed number_text dates e ns displays n original sender i id full route
      source sent other =
    let nodes = node_by_id ns [] in
    let nested = parse_nested_publisher_message dates (get e.payload "description") in
    let actual = or_empty (get e.source "id") in
    let from : actual ≡ str sender = ap or_empty source in
    let under : string_or_empty (get e.route "original_node") ≡ original =
      ap string_or_empty route in
    let shown : display_source_id nodes original nested actual ≡ str original =
      display_source_id-original nodes original nested actual
        (node_by_id-IsKeyed ns [] (λ k m found. ground arith))
        (node_by_id-Lists ns [] original n i id) (ground (arith, eq_iff original ""))
        (ap (λ v. is_text v original) from ∙ ground (arith, eq_iff sender original)) in
    presentation_of-relayed number_text dates e displays nested actual
      (display_source_id nodes (string_or_empty (get e.route "original_node")) nested actual)
      (if truthy actual then get_value nodes actual else none)
      (display_source_node nodes (string_or_empty (get e.route "original_node")) nested actual)
      original sender (ap (λ r. display_source_id nodes r nested actual) under ∙ shown) from full
      sent other
