-- ===== src/Client/Visibility/Hidden.antt =====
-- The hidden nodes after a new table (`reconcileHiddenNodeIds`).
use io_t_midterm_availabilit.Base.{
  String, ◌≡◌, ◌≢◌, ◌↔◌, inl, inr, true, ◌&&◌, List, [], ◌∷◌, arith, All, All-In, All-of-In, In,
  filter, In-filter, filter-In, if◌then◌else◌, Bool-cases,
}
use io_t_midterm_availabilit.Js.Number.{Number}
use io_t_midterm_availabilit.Js.Value.{str, truthy, is_text_iff}
use io_t_midterm_availabilit.Client.Parsers.{Node, Table}
use io_t_midterm_availabilit.Client.Visibility.{
  is_online, is_other_id, reconcile_hidden_node_ids, build_presentation_topology, endpoint_key,
}
use io_t_midterm_availabilit.Client.Visibility.Shown.{
  build_presentation_topology-IsPresentation, IsShowable,
}

-- The node does not bring `h` back.
abbrev pub Leaves : String → Node → Type 0
Leaves h n = truthy n.id ≡ true → is_online n ≡ true → n.id ≢ str h

one_out :
    (n : Node) (hidden : List String) (h : String)
    → In h (if truthy n.id && is_online n then filter (is_other_id n.id) hidden else hidden)
      ↔ In h hidden × Leaves h n
one_out n hidden h = elim (Bool-cases (truthy n.id && is_online n)) [
  | inl e ↦ rw e (
    (λ i.
        let (j, o) = In-filter (is_other_id n.id) hidden i in
        (j, λ t u. ground (arith, is_text_iff n.id h))),
    (λ (i, l). filter-In (is_other_id n.id) hidden i (ground (arith, is_text_iff n.id h))),
  )
  | inr e ↦ rw e ((λ i. (i, λ t u. ground arith)), (λ (i, l). i))
]

-- A node stays hidden exactly if it was, and no node of the table with its id is online.
pub reconcile_hidden_node_ids_iff :
    (ns : List Node) (hidden : List String) (h : String)
    → In h (reconcile_hidden_node_ids ns hidden) ↔ In h hidden × All (Leaves h) ns
unfolding reconcile_hidden_node_ids
reconcile_hidden_node_ids_iff [] hidden h = ((λ i. (i, tt)), (λ p. p.0))
reconcile_hidden_node_ids_iff (n ∷ ns) hidden h =
    let r =
      reconcile_hidden_node_ids_iff ns
        (if truthy n.id && is_online n then filter (is_other_id n.id) hidden else hidden) h in
    let o = one_out n hidden h in
    (
      (λ i. let (j, a) = r.0 i in let (k, l) = o.0 j in (k, (l, a))),
      (λ (i, la). r.1 (o.1 (i, la.0), la.1)),
    )

-- Once the hidden nodes are reconciled with a table, the endpoint of each of its online edges is
-- shown as online.
pub build_presentation_topology-reconcile_hidden_node_ids :
    (number_text : Number → String) (t : Table) (hidden : List String) (n : Node)
    → In n t.nodes
    → truthy n.id ≡ true
    → n.status ≡ str "ONLINE"
    → n.role ≢ str "CORE"
    → (m : Node) × In m
        (build_presentation_topology number_text t (reconcile_hidden_node_ids t.nodes hidden)).nodes
      × (endpoint_key number_text m ≡ endpoint_key number_text n)
      × (is_online m ≡ true)
build_presentation_topology-reconcile_hidden_node_ids number_text t hidden n i id online edge =
    let left = reconcile_hidden_node_ids t.nodes hidden in
    let on : is_online n ≡ true = (is_text_iff n.status "ONLINE").1 online in
    let open_id : All (λ h. n.id ≢ str h) left =
      All-of-In (λ h. n.id ≢ str h) left
        (λ h j.
          All-In (Leaves h) t.nodes ((reconcile_hidden_node_ids_iff t.nodes hidden h).0 j).1 i id
            on) in
    let showable : IsShowable t left n = record {
      has_id = id;
      known = inl online;
      not_hidden = open_id;
      if_core = inl edge;
    } in
    let (m, j, k, o) =
      (build_presentation_topology-IsPresentation number_text t left).complete n i showable in
    (m, j, k, o on)
