-- ===== src/Client/Presentation/Aliases.antt =====
-- nodePresentation.js: the names that events give to nodes, as a search among the events.
use io_t_midterm_availabilit.Base.{
  String, ◌≡◌, Bool, true, false, not, ◌&&◌, ◌||◌, Option, none, some, List, [], ◌∷◌, ◌⊎◌,
  if◌then◌else◌, ◌=ₛ◌, Dict, lookup,
}
use io_t_midterm_availabilit.Js.Value.{Value, str, truthy}
use io_t_midterm_availabilit.Client.Parsers.{Node, MqttMessage}
use io_t_midterm_availabilit.Client.Endpoint.{Locale}
use io_t_midterm_availabilit.Client.Presentation.{
  resolve_event_node_id, alias_at, get_node_alias_key, last_with_id, location_alias,
}

abbrev or_else : Option Value → Option Value → Option Value
or_else none b = b
or_else (some a) b = some a

abbrev given : Bool → String → Option Value
given b alias = if b then some (str alias) else none

-- Every entry is truthy, which is what the tests `!aliases[key]` ask.
abbrev IsFilled : Dict Value → Type 0
IsFilled d = (k : String) (v : Value) → lookup k d ≡ some v → truthy v ≡ true

-- The test `!aliases[key]` tells whether there is an entry.
abbrev HasEntry : Dict Value → String → Type 0
HasEntry d key =
    ((lookup key d ≡ none) × (truthy (alias_at d key) ≡ false))
    ⊎ ((v : Value) × (lookup key d ≡ some v) × (truthy (alias_at d key) ≡ true))

module _ (locale : Locale) (nodes : List Node) where
  -- The text is the address of the node, or the node has none.
  abbrev is_key_of : Option Node → String → Bool
  is_key_of none k = false
  is_key_of (some n) k = not (k =ₛ "") && get_node_alias_key locale n =ₛ k

  -- A node with the id and an alias: the node is known under the text.
  abbrev is_named : String → String → String → Bool
  is_named id alias k =
      not (id =ₛ "")
      && not (alias =ₛ "")
      && (id =ₛ k || is_key_of (last_with_id locale nodes id none) k)

  abbrev names : MqttMessage → String → Bool
  names e k = is_named (resolve_event_node_id e) (location_alias locale e) k

  abbrev pub first_alias : List MqttMessage → String → Option Value
  first_alias [] k = none
  first_alias (e ∷ es) k =
      if names e k then some (str (location_alias locale e)) else first_alias es k
