-- ===== src/Client/Visibility/Shown.antt =====
-- What `buildPresentationTopology` shows of a table.
use io_t_midterm_availabilit.Base.{
  String, ◌≡◌, ◌≢◌, refl, ◌⊎◌, ◌↔◌, inl, inr, true, false, List, [], ◌∷◌, map, arith, All, All-In,
  All-of-In, In, here, there, filter, In-filter, filter-In, sym, ◌∙◌, eq_iff, Bool-cases,
}
use io_t_midterm_availabilit.Js.Number.{Number}
use io_t_midterm_availabilit.Js.Value.{Value, str, truthy, strict_eq, is_text_iff}
use io_t_midterm_availabilit.Client.Parsers.{Node, Link, Table}
use io_t_midterm_availabilit.Client.Visibility.{
  is_online, hides, is_current_core_node, is_candidate, has_node, joins_shown, endpoint_key,
  by_endpoint, presentation_nodes, build_presentation_topology,
}
use io_t_midterm_availabilit.Client.Visibility.Endpoints.{
  KeyAbsent, HasDistinctKeys, by_endpoint-HasDistinctKeys, by_endpoint-All, by_endpoint-Covers,
}

-- What the client means to show: nodes with an id that is not hidden, in one of the two known
-- states; of the cores only the active and the backup one, and only online.
pub record IsShowable (t : Table) (hidden : List String) (n : Node) : Type 0 where
  pub has_id : truthy n.id ≡ true
  pub known : (n.status ≡ str "ONLINE") ⊎ (n.status ≡ str "OFFLINE")
  pub not_hidden : All (λ h. n.id ≢ str h) hidden
  pub if_core :
      (n.role ≢ str "CORE")
      ⊎ (n.status ≡ str "ONLINE")
        × ((n.id ≡ str t.active_core_id) ⊎ (t.backup_core_id ≢ "") × (n.id ≡ str t.backup_core_id))

hides_iff :
    (hidden : List String) (id : Value) → (hides hidden id ≡ false) ↔ All (λ h. id ≢ str h) hidden
unfolding hides
hides_iff [] id = ((λ _. tt), (λ _. refl))
hides_iff (h ∷ hs) id = ground (arith, hides_iff hs id, is_text_iff id h)

pub is_candidate_iff :
    (t : Table) (hidden : List String) (n : Node)
    → (is_candidate t hidden n ≡ true) ↔ IsShowable t hidden n
unfolding is_candidate is_current_core_node
is_candidate_iff t hidden n = ground (
  arith,
  is_text_iff n.status "ONLINE",
  is_text_iff n.status "OFFLINE",
  is_text_iff n.role "CORE",
  is_text_iff n.id t.active_core_id,
  is_text_iff n.id t.backup_core_id,
  eq_iff t.backup_core_id "",
  hides_iff hidden n.id,
)

-- The id of a shown node.
abbrev pub IsShown : List Node → Value → Type 0
IsShown nodes id = (n : Node) × In n nodes × (strict_eq n.id id ≡ true)

has_node_to : (nodes : List Node) (id : Value) → has_node nodes id ≡ true → IsShown nodes id
unfolding has_node
has_node_to [] id h = cc
has_node_to (n ∷ ns) id h = elim (Bool-cases (strict_eq n.id id)) [
  | inl e ↦ (n, here, e)
  | inr e ↦ let (m, i, f) = has_node_to ns id (ground arith) in (m, there i, f)
]

has_node_from :
    (nodes : List Node) (id : Value) (n : Node)
    → In n nodes
    → strict_eq n.id id ≡ true
    → has_node nodes id ≡ true
unfolding has_node
has_node_from [] id n i e = elim i [ ]
has_node_from (x ∷ ns) id n here e = rw e
has_node_from (x ∷ ns) id n (there i) e = ground (arith, has_node_from ns id n i e)

-- The links between shown nodes.
module _ (t : Table) (nodes : List Node) (l : Link) where
  IsShown-links :
      In l (filter (joins_shown nodes) t.links)
      → In l t.links × IsShown nodes l.from_id × IsShown nodes l.to_id
  IsShown-links i =
      let (j, e) = In-filter (joins_shown nodes) t.links i in
      let b : (has_node nodes l.from_id ≡ true) × (has_node nodes l.to_id ≡ true) =
        ground (arith, e) in
      (j, has_node_to nodes l.from_id b.0, has_node_to nodes l.to_id b.1)

  links_shown :
      In l t.links
      → IsShown nodes l.from_id
      → IsShown nodes l.to_id
      → In l (filter (joins_shown nodes) t.links)
  links_shown i (n, a, e) (m, b, f) =
      filter-In (joins_shown nodes) t.links i
        (rw (has_node_from nodes l.from_id n a e, has_node_from nodes l.to_id m b f) refl)

In-shown_nodes :
    (m : List (String × Node)) (p : String × Node)
    → In p m
    → In p.1 (map (λ (q : String × Node). q.1) m)
In-shown_nodes [] p i = elim i [ ]
In-shown_nodes (q ∷ m) p here = here
In-shown_nodes (q ∷ m) p (there i) = there (In-shown_nodes m p i)

All-shown_nodes :
    (P : Node → Type 0) (m : List (String × Node))
    → All (λ p. P p.1) m
    → All P (map (λ (q : String × Node). q.1) m)
All-shown_nodes P [] h = tt
All-shown_nodes P (q ∷ m) h = (h.0, All-shown_nodes P m h.1)

module _ (number_text : Number → String) where
  -- No two nodes have one endpoint.
  abbrev pub HasDistinctEndpoints : List Node → Type 0
  HasDistinctEndpoints [] = Unit {0}
  HasDistinctEndpoints (n ∷ ns) =
      All (λ m. endpoint_key number_text m ≢ endpoint_key number_text n) ns
      × HasDistinctEndpoints ns

  pub record IsPresentation (t : Table) (hidden : List String) (shown : Table) : Type 0 where
    pub sound : (n : Node) → In n shown.nodes → In n t.nodes × IsShowable t hidden n
    pub one_each : HasDistinctEndpoints shown.nodes
    pub complete :
        (n : Node)
        → In n t.nodes
        → IsShowable t hidden n
        → (m : Node) × In m shown.nodes
          × (endpoint_key number_text m ≡ endpoint_key number_text n)
          × (is_online n ≡ true → is_online m ≡ true)
    pub links_to :
        (l : Link)
        → In l shown.links
        → In l t.links × IsShown shown.nodes l.from_id × IsShown shown.nodes l.to_id
    pub links_from :
        (l : Link)
        → In l t.links
        → IsShown shown.nodes l.from_id
        → IsShown shown.nodes l.to_id
        → In l shown.links
    pub version : shown.version ≡ t.version
    pub active : shown.active_core_id ≡ t.active_core_id
    pub backup : shown.backup_core_id ≡ t.backup_core_id

  abbrev Keyed : String → Node → Type 0
  Keyed k n = k ≡ endpoint_key number_text n

  distinct_nodes :
      (m : List (String × Node))
      → All (λ p. Keyed p.0 p.1) m
      → HasDistinctKeys m
      → HasDistinctEndpoints (map (λ (q : String × Node). q.1) m)
  distinct_nodes [] k d = tt
  distinct_nodes ((j, n) ∷ m) k d = (apart m k.1 d.0, distinct_nodes m k.1 d.1)
    where
      apart :
          (m : List (String × Node))
          → All (λ p. Keyed p.0 p.1) m
          → KeyAbsent j m
          → All
              (λ x. endpoint_key number_text x ≢ endpoint_key number_text n)
              (map (λ (q : String × Node). q.1) m)
      apart [] k a = tt
      apart (q ∷ m) k' a = ((λ e. a.0 (k'.0 ∙ e ∙ sym k.0)), apart m k'.1 a.1)

  module _ (t : Table) (hidden : List String) where
    abbrev candidates : List Node
    candidates = filter (is_candidate t hidden) t.nodes

    abbrev shown_map : List (String × Node)
    shown_map = by_endpoint number_text [] candidates

    abbrev Genuine : String → Node → Type 0
    Genuine k n = Keyed k n × In n t.nodes × IsShowable t hidden n

    genuine : All (λ p. Genuine p.0 p.1) shown_map
    genuine =
        by_endpoint-All number_text Genuine [] candidates
          (All-of-In _ candidates (λ n i.
            let (j, e) = In-filter (is_candidate t hidden) t.nodes i in
            (refl, j, (is_candidate_iff t hidden n).0 e)))
          tt

    abbrev Listed : Node → Type 0
    Listed n = In n t.nodes × IsShowable t hidden n

    listed : All (λ p. Listed p.1) shown_map
    listed =
        All-of-In (λ p. Listed p.1) shown_map
          (λ p j. let g = All-In (λ q. Genuine q.0 q.1) shown_map genuine j in (g.1, g.2))

    keyed : All (λ p. Keyed p.0 p.1) shown_map
    keyed =
        All-of-In (λ p. Keyed p.0 p.1) shown_map
          (λ p j. (All-In (λ q. Genuine q.0 q.1) shown_map genuine j).0)

    -- `buildPresentationTopology` shows nodes of the table that may be shown, at most one for each
    -- endpoint; every node that may be shown has its endpoint shown, by an online node if it is
    -- online itself; and the links shown are those between shown nodes.
    pub build_presentation_topology-IsPresentation :
        IsPresentation t hidden (build_presentation_topology number_text t hidden)
    unfolding build_presentation_topology presentation_nodes
    build_presentation_topology-IsPresentation = record {
      sound = λ n i.
          All-In Listed (map (λ (q : String × Node). q.1) shown_map)
            (All-shown_nodes Listed shown_map listed) i;
      one_each =
          distinct_nodes shown_map keyed (by_endpoint-HasDistinctKeys number_text [] candidates tt);
      complete = λ n i s. complete n i s;
      links_to = λ l i. IsShown-links t (presentation_nodes number_text t hidden) l i;
      links_from = λ l i f g. links_shown t (presentation_nodes number_text t hidden) l i f g;
      version = refl;
      active = refl;
      backup = refl;
    }
      where
        complete :
            (n : Node)
            → In n t.nodes
            → IsShowable t hidden n
            → (m : Node) × In m (presentation_nodes number_text t hidden)
              × (endpoint_key number_text m ≡ endpoint_key number_text n)
              × (is_online n ≡ true → is_online m ≡ true)
        complete n i s =
            let c =
              filter-In (is_candidate t hidden) t.nodes i ((is_candidate_iff t hidden n).1 s) in
            let (p, j, ko) = by_endpoint-Covers number_text n [] candidates c in
            (
              p.1,
              In-shown_nodes shown_map p j,
              sym (All-In (λ q. Keyed q.0 q.1) shown_map keyed j) ∙ ko.0,
              ko.1,
            )
