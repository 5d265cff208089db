-- ===== src/Publisher/Selection/Eligible.antt =====
-- `isBrokerNode` and `isExcludedNode`: which nodes are candidates.
use io_t_midterm_availabilit.Base.{
  String, ◌≡◌, refl, ◌⊎◌, inl, inr, ◌↔◌, ◌≢◌, Bool, Bool-cases, true, false, not, ◌&&◌, arith,
  eq_iff, eq_refl, ℤ, pos, ◌<ℤ◌,
}
use io_t_midterm_availabilit.Js.Number.{fin, num_ltb}
use io_t_midterm_availabilit.Js.Value.{Value, str, num, truthy, strict_eq, is_text_iff}
use io_t_midterm_availabilit.Publisher.Ct.{Node}
use io_t_midterm_availabilit.Publisher.Selection.{
  non_empty, usable_port, is_broker_node, is_excluded_node,
}

-- An online broker of the role with an address: a text that is not empty and a positive port.
pub record IsBrokerNode (node : Node) (role : String) : Type 0 where
  pub role_is : node.role ≡ str role
  pub online : node.status ≡ str "ONLINE"
  pub address : (s : String) × (node.ip ≡ str s) × (s ≢ "")
  pub port_is : (z : ℤ) × (node.port ≡ num (fin z)) × (pos 0 <ℤ z)

address_of : (v : Value) → non_empty v ≡ true → (s : String) × (v ≡ str s) × (s ≢ "")
address_of (str s) h = (s, refl, λ e. ground (arith, eq_iff s ""))
address_of _ h = cc

port_of : (v : Value) → usable_port v ≡ true → (z : ℤ) × (v ≡ num (fin z)) × (pos 0 <ℤ z)
unfolding num_ltb
port_of (num (fin z)) h = (z, refl, ground arith)
port_of _ h = ground arith

pub is_broker_node_iff :
    (node : Node) (role : String) → (is_broker_node node role ≡ true) ↔ IsBrokerNode node role
unfolding is_broker_node num_ltb
is_broker_node_iff node role = (to, from)
  where
    to : is_broker_node node role ≡ true → IsBrokerNode node role
    to h = record {
      role_is = (is_text_iff node.role role).0 (ground arith);
      online = (is_text_iff node.status "ONLINE").0 (ground arith);
      address = address_of node.ip (ground arith);
      port_is = port_of node.port (ground arith);
    }

    from : IsBrokerNode node role → is_broker_node node role ≡ true
    from b = ground (
      arith,
      eq_refl role,
      eq_refl "ONLINE",
      eq_iff b.address.0 "",
      b.role_is,
      b.online,
      b.address.1,
      b.address.2,
      b.port_is.1,
      b.port_is.2,
    )

-- The primary edge: by its id where that is known, else by its address.
abbrev pub IsPrimary : Value → String → Node → Type 0
IsPrimary edge_id ip node =
    (truthy edge_id ≡ true) × (strict_eq node.id edge_id ≡ true)
    ⊎ (truthy edge_id ≡ false) × (ip ≢ "") × (node.ip ≡ str ip)

pub is_excluded_node_iff :
    (node : Node) (edge_id : Value) (ip : String)
    → (is_excluded_node node edge_id ip ≡ true) ↔ IsPrimary edge_id ip node
unfolding is_excluded_node
is_excluded_node_iff node edge_id ip = ground (arith, eq_iff ip "", is_text_iff node.ip ip)

-- A candidate of the loop: a broker of the role that is not the primary edge.
abbrev pub Eligible : Value → String → String → Node → Type 0
Eligible edge_id role ip node = IsBrokerNode node role × ¬ IsPrimary edge_id ip node

unfoldable pub eligible : Value → String → String → Node → Bool
eligible edge_id role ip node = is_broker_node node role && not (is_excluded_node node edge_id ip)

pub eligible_iff :
    (edge_id : Value) (role ip : String) (node : Node)
    → (eligible edge_id role ip node ≡ true) ↔ Eligible edge_id role ip node
unfolding eligible
eligible_iff edge_id role ip node = (to, from)
  where
    broker : (is_broker_node node role ≡ true) ↔ IsBrokerNode node role
    broker = is_broker_node_iff node role

    excluded : (is_excluded_node node edge_id ip ≡ true) ↔ IsPrimary edge_id ip node
    excluded = is_excluded_node_iff node edge_id ip

    to :
        (is_broker_node node role && not (is_excluded_node node edge_id ip)) ≡ true
        → Eligible edge_id role ip node
    to h = (broker.0 (ground arith), λ p. let e = excluded.1 p in ground arith)

    from :
        Eligible edge_id role ip node
        → (is_broker_node node role && not (is_excluded_node node edge_id ip)) ≡ true
    from (b, n) = elim (Bool-cases (is_excluded_node node edge_id ip)) [
      | inl e ↦ absurd (n (excluded.0 e))
      | inr e ↦ rw (broker.1 b, e)
    ]
