-- ===== src/Client/Graph/Layout.antt =====
-- topologyGraphModel.js: the labels of the nodes and where the graph places them. A node of the
-- ring round the core is placed by an angle in degrees and a radius: x and y are the anchor's plus
-- the cosine and the sine of the angle times the radius.
pub mod Places
pub mod Distinct
use Prim.Native.Char.{Char, code}
use Prim.Native.Nat.{bit_xor}
use Prim.Native.String
use io_t_midterm_availabilit.Base.{
  ℕ, zero, suc, ◌+◌, ◌-◌, ◌*◌, ◌/◌, ◌%◌, ◌^◌, ◌==◌, ltb, ℤ, pos, negsuc, String, Bool, true, false,
  not, ◌&&◌, Option, none, some, List, [], ◌∷◌, filter, ◌=ₛ◌, if◌then◌else◌, Comparison, before,
  equal, after, ◌then_by◌, sort_by, Dict, put,
}
use io_t_midterm_availabilit.Js.Text.{◌<>◌}
use io_t_midterm_availabilit.Js.Scan.{slice_to}
use io_t_midterm_availabilit.Js.Value.{Value, truthy, is_text}
use io_t_midterm_availabilit.Client.Parsers.{Node, Table}
use io_t_midterm_availabilit.Client.Visibility.{text_of}
use io_t_midterm_availabilit.Client.Graph.{normalize_node_id}
use io_t_midterm_availabilit.Client.Endpoint.{Locale, compare_ports, port_number}
use io_t_midterm_availabilit.Client.Presentation.{is_shown_core, is_shown_edge}

-- `ch.charCodeAt(0)`: the first unit of a pair outside the basic plane.
abbrev char_code_at_0 : Char → ℕ
char_code_at_0 c = if ltb (code c) 0x10000 then code c else 0xd800 + (code c - 0x10000) / 0x400

-- The body of the loop of `stableHash`, on the 32 bits of the hash without their sign: `Math.imul`
-- keeps the lowest 32 bits of the product.
abbrev pub next_hash : ℕ → Char → ℕ
next_hash hash c = bit_xor hash (char_code_at_0 c) * 16777619 % 2 ^ 32

unfoldable pub stable_hash_from : ℕ → String → ℕ
stable_hash_from hash String.[] = hash
stable_hash_from hash (String.◌∷◌ c s) = stable_hash_from (next_hash hash c) s

unfoldable pub stable_hash : String → ℕ
unfolding stable_hash_from
stable_hash input = stable_hash_from 2166136261 input

-- `(hash >> 3) % 24`, added to a number that exceeds 23: the shift reads the hash with its sign,
-- and a remainder has the sign of what is divided.
unfoldable pub add_shifted : ℕ → ℕ → ℕ
add_shifted n hash =
    if ltb hash (2 ^ 31) then n + hash / 8 % 24 else n - (2 ^ 32 - hash + 7) / 8 % 24

-- EDGE_SLOT_ANGLES
unfoldable pub edge_slot_angle : ℕ → ℕ
edge_slot_angle slot =
    if slot == 0
    then 28
    else if slot == 1
    then 52
    else if slot == 2
    then 76
    else if slot == 3
    then 104
    else if slot == 4
    then 128
    else if slot == 5
    then 152
    else if slot == 6
    then 40
    else if slot == 7
    then 64
    else if slot == 8
    then 92
    else if slot == 9
    then 116
    else 140

pub data Position : Type 0 where
  at : (x y : ℤ) → Position
  around : (angle_deg radius : ℕ) → Position

abbrev top_row_y : ℤ
top_row_y = negsuc 149

-- The anchor of the ring, at x = 0.
abbrev pub edge_anchor_y : ℤ
edge_anchor_y = negsuc 109

-- `direction * base`
abbrev pub directed : Bool → ℕ → ℤ
directed true base = pos base
directed false zero = pos 0
directed false (suc n) = negsuc n

-- The place of a core among more than two.
unfoldable pub core_place : ℕ → Position
core_place index =
    let offset_index = index / 2 in
    at (directed (not (index % 2 == 0)) (if offset_index == 0 then 80 else 80 + 140 * offset_index))
      (if offset_index == 0 then top_row_y else negsuc 117)

unfoldable pub edge_place : ℕ → ℕ → Bool → Position
unfolding edge_slot_angle add_shifted
edge_place index hash offline =
    around (edge_slot_angle (index % 11) + hash % 12 - 6)
      (add_shifted (230 + index / 11 * 112 + (if offline then 42 else 0)) hash)

-- The difference of two hashes.
abbrev pub compare_hashes : ℕ → ℕ → Comparison
compare_hashes a b = if ltb a b then before else if ltb b a then after else equal

module _ (locale : Locale) where
  abbrev id_text : Node → String
  id_text n = normalize_node_id locale.number_text n.id

  unfoldable pub compare_core_endpoints : Node → Node → Comparison
  compare_core_endpoints left right =
      locale.numeric_compare (normalize_node_id locale.number_text left.ip)
        (normalize_node_id locale.number_text right.ip)
      then_by compare_ports (port_number locale left) (port_number locale right)
          (locale.locale_compare (id_text left) (id_text right))

  unfoldable pub build_topology_node_label : Option Table → Node → String
  build_topology_node_label none n =
      let short_id = slice_to 8 (id_text n) in
      if short_id =ₛ ""
      then ""
      else if is_text n.role "CORE"
      then "CORE\n" <> short_id
      else short_id
  build_topology_node_label (some t) n =
      let short_id = slice_to 8 (id_text n) in
      if short_id =ₛ ""
      then ""
      else if is_text n.role "CORE"
      then (if is_text n.id t.active_core_id
          then "CORE\n" <> short_id
          else if is_text n.id t.backup_core_id
          then "BACKUP\n" <> short_id
          else "CORE\n" <> short_id)
      else short_id

  abbrev pub compare_edges : Node → Node → Comparison
  compare_edges left right =
      compare_hashes (stable_hash (id_text left)) (stable_hash (id_text right))

  -- `forEach` with the index; `positions[node.id]` is set under the id's text.
  unfoldable pub place_nodes : (ℕ → Node → Position) → ℕ → List Node → Dict Position → Dict Position
  place_nodes place i [] d = d
  place_nodes place i (n ∷ ns) d =
      place_nodes place (suc i) ns (put (text_of locale.number_text n.id) (place i n) d)

  abbrev pub place_cores : List Node → Dict Position
  place_cores [] = []
  place_cores (a ∷ []) = put (text_of locale.number_text a.id) (at (pos 0) top_row_y) []
  place_cores (a ∷ b ∷ []) =
      put (text_of locale.number_text b.id) (at (pos 80) top_row_y)
        (put (text_of locale.number_text a.id) (at (negsuc 79) top_row_y) [])
  place_cores (a ∷ b ∷ c ∷ ns) = place_nodes (λ i n. core_place i) 0 (a ∷ b ∷ c ∷ ns) []

  abbrev pub placed_edge : ℕ → Node → Position
  placed_edge i n = edge_place i (stable_hash (id_text n)) (is_text n.status "OFFLINE")

  unfoldable pub build_topology_node_positions : List Node → Dict Position
  unfolding place_nodes edge_place core_place compare_core_endpoints stable_hash sort_by filter
  build_topology_node_positions nodes =
      place_nodes placed_edge 0 (sort_by compare_edges (filter is_shown_edge nodes))
        (place_cores (sort_by compare_core_endpoints (filter is_shown_core nodes)))
