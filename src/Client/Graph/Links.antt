-- ===== src/Client/Graph/Links.antt =====
-- The classes of links, and how long a node is marked as recovered.
use io_t_midterm_availabilit.Base.{
  ℤ, String, ◌≡◌, ◌≢◌, refl, subst, true, false, Option, none, some, arith, ◌↔◌, int_ltb,
  Bool-cases, Option-cases, inl, inr,
}
use io_t_midterm_availabilit.Js.Number.{Number}
use io_t_midterm_availabilit.Js.Value.{Value, str, truthy, is_text, is_text_iff}
use io_t_midterm_availabilit.Client.Parsers.{Node, Link, Table}
use io_t_midterm_availabilit.Client.Transitions.{
  is_recently_recovered_node, get_recent_recovery_deadline, parse_timestamp_ms, plus_ms,
  recent_node_transition_window_ms, has_recovered,
}
use io_t_midterm_availabilit.Client.Graph.{
  recovered_edge, classify_topology_node, classify_topology_node_at, classify_ends,
  classify_topology_link,
}

abbrev pub reversed : Link → Link
reversed l = record { from_id = l.to_id; to_id = l.from_id; rtt_ms = l.rtt_ms }

classify_ends_comm :
    (number_text : Number → String) (t : Table) (a b : String)
    → classify_ends number_text t a b ≡ classify_ends number_text t b a
unfolding classify_ends
classify_ends_comm number_text t a b = ground arith

-- The class of a link does not depend on its direction.
pub classify_topology_link-reversed :
    (number_text : Number → String) (t : Option Table) (l : Link)
    → classify_topology_link number_text t (some (reversed l))
      ≡ classify_topology_link number_text t (some l)
unfolding classify_topology_link
classify_topology_link-reversed number_text none l = refl
classify_topology_link-reversed number_text (some t) l = classify_ends_comm number_text t _ _

-- The change of the node's status has a date, and its time has not run out.
pub data IsRecent (date_parse : Value → Option ℤ) (n : Node) (now : ℤ) : Type 0 where
  since :
      (changed : ℤ)
      → parse_timestamp_ms date_parse n.status_changed_at ≡ some changed
      → int_ltb (plus_ms changed recent_node_transition_window_ms) now ≡ false
      → IsRecent date_parse n now

-- What makes a node a recovered one.
pub record IsRecovered (date_parse : Value → Option ℤ) (n : Node) (now : ℤ) : Type 0 where
  pub has_id : truthy n.id ≡ true
  pub edge : n.role ≢ str "CORE"
  pub online : n.status ≡ str "ONLINE"
  pub was_offline : n.previous_status ≡ str "OFFLINE"
  pub recently : IsRecent date_parse n now

recent_at :
    (date_parse : Value → Option ℤ) (n : Node) (now c : ℤ)
    → parse_timestamp_ms date_parse n.status_changed_at ≡ some c
    → IsRecent date_parse n now
    → int_ltb (plus_ms c recent_node_transition_window_ms) now ≡ false
recent_at date_parse n now c e (since x f g) =
    let same : x ≡ c = ground (arith, e, f) in
    subst (λ y. int_ltb (plus_ms y recent_node_transition_window_ms) now ≡ false) same g

no_date :
    (date_parse : Value → Option ℤ) (n : Node) (now : ℤ)
    → parse_timestamp_ms date_parse n.status_changed_at ≡ none
    → ¬ IsRecent date_parse n now
no_date date_parse n now e (since x f g) = ground (arith, e, f)

is_recently_recovered_iff :
    (date_parse : Value → Option ℤ) (n : Node) (now : ℤ)
    → (is_recently_recovered_node date_parse n now recent_node_transition_window_ms ≡ true)
      ↔ ((has_recovered n ≡ true) × IsRecent date_parse n now)
unfolding is_recently_recovered_node get_recent_recovery_deadline
is_recently_recovered_iff date_parse n now = elim (Bool-cases (has_recovered n)) [
  | inr idle ↦ rw idle ((λ e. ground (arith, e)), (λ p. ground (arith, p.0)))
  | inl back ↦ elim (Option-cases (parse_timestamp_ms date_parse n.status_changed_at)) [
    | inl unknown ↦
        rw (back, unknown)
          ((λ e. ground (arith, e)), (λ p. elim (no_date date_parse n now unknown p.1) [ ]))
    | inr (c, e) ↦
        rw (back, e)
          (
            (λ f. (refl, since c e (ground (arith, f)))),
            (λ p. rw (recent_at date_parse n now c e p.1) refl),
          )
  ]
]

node_class_other : (t : Table) (n : Node) → classify_topology_node (some t) n ≢ recovered_edge
unfolding classify_topology_node
node_class_other t n = ground arith

-- What `classifyTopologyNodeAt` tests for a recovered node.
recovered_class :
    (date_parse : Value → Option ℤ) (t : Table) (n : Node) (now : ℤ)
    → (classify_topology_node_at date_parse (some t) n now ≡ recovered_edge) ↔ (
        (truthy n.id ≡ true)
        × (is_text n.role "CORE" ≡ false)
        × (is_text n.status "OFFLINE" ≡ false)
        × (is_recently_recovered_node date_parse n now recent_node_transition_window_ms ≡ true))
unfolding classify_topology_node_at
recovered_class date_parse t n now = ground (arith, node_class_other t n)

-- The three texts of a node that recovered.
has_recovered_iff :
    (n : Node)
    → (has_recovered n ≡ true)
      ↔ ((n.role ≢ str "CORE") × (n.status ≡ str "ONLINE") × (n.previous_status ≡ str "OFFLINE"))
has_recovered_iff n = ground (
  arith,
  is_text_iff n.role "CORE",
  is_text_iff n.status "ONLINE",
  is_text_iff n.previous_status "OFFLINE",
)

-- A node is shown as recovered exactly if it has an id, is an online edge that was offline before,
-- and the date of that change is known and not more than 15 seconds ago.
pub classify_topology_node_at_iff :
    (date_parse : Value → Option ℤ) (t : Table) (n : Node) (now : ℤ)
    → (classify_topology_node_at date_parse (some t) n now ≡ recovered_edge)
      ↔ IsRecovered date_parse n now
classify_topology_node_at_iff date_parse t n now = (forward, backward)
  where
    forward :
        classify_topology_node_at date_parse (some t) n now ≡ recovered_edge
        → IsRecovered date_parse n now
    forward e =
        let c = (recovered_class date_parse t n now).0 e in
        let p = (is_recently_recovered_iff date_parse n now).0 c.3 in
        let h = (has_recovered_iff n).0 p.0 in
        record { has_id = c.0; edge = h.0; online = h.1; was_offline = h.2; recently = p.1 }

    backward :
        IsRecovered date_parse n now
        → classify_topology_node_at date_parse (some t) n now ≡ recovered_edge
    backward r =
        let q =
          (is_recently_recovered_iff date_parse n now).1
            ((has_recovered_iff n).1 (r.edge, r.online, r.was_offline), r.recently) in
        (recovered_class date_parse t n now).1 (
          r.has_id,
          ground (arith, r.edge, is_text_iff n.role "CORE"),
          ground (arith, r.online, is_text_iff n.status "OFFLINE"),
          q,
        )
