-- ===== src/Client/Visibility.antt =====
-- client/src/mqtt/topologyVisibility.js: which nodes and links of a parsed table are shown.
pub mod Endpoints
pub mod Hidden
pub mod Shown
use io_t_midterm_availabilit.Base.{
  ℕ, String, Bool, true, false, not, ◌&&◌, ◌||◌, Option, none, some, List, [], ◌∷◌, map, any,
  filter, ◌=ₛ◌, if◌then◌else◌,
}
use io_t_midterm_availabilit.Js.Number.{Number}
use io_t_midterm_availabilit.Js.Text.{◌<>◌}
use io_t_midterm_availabilit.Js.Value.{
  Value, undefined, null, bool, num, str, arr, obj, Elements, nil, cons, truthy, is_nullish,
  is_text, strict_eq,
}
use io_t_midterm_availabilit.Client.Parsers.{Node, Link, Table}

abbrev pub is_displayable_node_status : Value → Bool
is_displayable_node_status status = is_text status "ONLINE" || is_text status "OFFLINE"

abbrev pub is_online : Node → Bool
is_online n = is_text n.status "ONLINE"

-- `hiddenIds.has(node.id)` for a set of texts.
unfoldable pub hides : List String → Value → Bool
hides [] id = false
hides (h ∷ hs) id = is_text id h || hides hs id

-- `nextHiddenIds.delete(node.id)`
abbrev pub is_other_id : Value → String → Bool
is_other_id id h = not (is_text id h)

unfoldable pub reconcile_hidden_node_ids : List Node → List String → List String
reconcile_hidden_node_ids [] hidden = hidden
reconcile_hidden_node_ids (n ∷ ns) hidden =
    reconcile_hidden_node_ids ns
      (if truthy n.id && is_online n then filter (is_other_id n.id) hidden else hidden)

unfoldable pub is_current_core_node : Node → Table → Bool
is_current_core_node n t =
    is_text n.role "CORE"
    && (is_text n.id t.active_core_id
        || (not (t.backup_core_id =ₛ "") && is_text n.id t.backup_core_id))

unfoldable pub is_candidate : Table → List String → Node → Bool
unfolding is_current_core_node hides
is_candidate t hidden n =
    truthy n.id
    && is_displayable_node_status n.status
    && not (hides hidden n.id)
    && (if is_text n.role "CORE" then is_current_core_node n t && is_online n else true)

abbrev pub prefer_presentation_node : Option Node → Node → Node
prefer_presentation_node none candidate = candidate
prefer_presentation_node (some current) candidate =
    if is_online current then current else if is_online candidate then candidate else current

-- `nodeByEndpoint.set(key, preferPresentationNode(nodeByEndpoint.get(key), node))`: a key that is
-- there keeps its place.
unfoldable pub add_node : String → Node → List (String × Node) → List (String × Node)
add_node key n [] = (key, n) ∷ []
add_node key n ((k, m) ∷ rest) =
    if k =ₛ key
    then (k, prefer_presentation_node (some m) n) ∷ rest
    else (k, m) ∷ add_node key n rest

-- `nodeIds.has(id)`
unfoldable pub has_node : List Node → Value → Bool
has_node [] id = false
has_node (n ∷ ns) id = strict_eq n.id id || has_node ns id

abbrev pub joins_shown : List Node → Link → Bool
joins_shown nodes l = has_node nodes l.from_id && has_node nodes l.to_id

-- `number_text` is the language's text of a number.
module _ (number_text : Number → String) where
  -- The text of a value in a template literal.
  unfoldable mutual
    pub text_of : Value → String
    text_of undefined = "undefined"
    text_of null = "null"
    text_of (bool true) = "true"
    text_of (bool false) = "false"
    text_of (num n) = number_text n
    text_of (str s) = s
    text_of (arr vs) = joined_text vs
    text_of (obj ms) = "[object Object]"

    pub joined_text : Elements → String
    joined_text nil = ""
    joined_text (cons v nil) = element_text v
    joined_text (cons v (cons w vs)) = element_text v <> "," <> joined_text (cons w vs)

    pub element_text : Value → String
    element_text undefined = ""
    element_text null = ""
    element_text (bool true) = "true"
    element_text (bool false) = "false"
    element_text (num n) = number_text n
    element_text (str s) = s
    element_text (arr vs) = joined_text vs
    element_text (obj ms) = "[object Object]"

  unfoldable pub endpoint_key : Node → String
  endpoint_key n =
      if not (truthy n.id)
      then ""
      else if is_text n.role "CORE"
      then "CORE:" <> text_of n.id
      else if truthy n.ip && not (is_nullish n.port)
      then "NODE:" <> text_of n.ip <> ":" <> text_of n.port
      else "NODE_ID:" <> text_of n.id

  unfoldable pub by_endpoint : List (String × Node) → List Node → List (String × Node)
  by_endpoint shown [] = shown
  by_endpoint shown (n ∷ ns) = by_endpoint (add_node (endpoint_key n) n shown) ns

  unfoldable pub presentation_nodes : Table → List String → List Node
  presentation_nodes t hidden =
      map (λ (p : String × Node). p.1) (by_endpoint [] (filter (is_candidate t hidden) t.nodes))

  unfoldable pub build_presentation_topology : Table → List String → Table
  build_presentation_topology t hidden =
      let nodes = presentation_nodes t hidden in
      record t { nodes = nodes; links = filter (joins_shown nodes) t.links }
