-- ===== src/Client/Hook/LastWill.antt =====
-- The last will of a core: what hiding the core does.
use io_t_midterm_availabilit.Base.{
  ℕ, String, ◌≡◌, refl, sym, subst, ◌∙◌, ap, true, ◌&&◌, some, List, [], ◌∷◌, arith, All, In, here,
  there, filter, Bool-cases, inl, inr,
}
use io_t_midterm_availabilit.Js.Value.{truthy, is_text, is_text_iff}
use io_t_midterm_availabilit.Client.Parsers.{Table, Node}
use io_t_midterm_availabilit.Client.Visibility.{is_online, is_other_id, reconcile_hidden_node_ids}
use io_t_midterm_availabilit.Client.Visibility.Hidden.{Leaves}
use io_t_midterm_availabilit.Client.Hook.State.{Env, State, Incident, initial}
use io_t_midterm_availabilit.Client.Hook.Updates.{push_incident, refresh_visible_topology, refresh}
use io_t_midterm_availabilit.Client.Hook.Messages.{note_core_down}
use io_t_midterm_availabilit.Client.Hook.Step.{Event, run}
use io_t_midterm_availabilit.Client.Hook.View.{ViewOf, run-IsView}

filter_left :
    (n : Node) (hs : List String)
    → truthy n.id ≡ true
    → is_online n ≡ true
    → All (λ h. Leaves h n) hs
    → filter (is_other_id n.id) hs ≡ hs
unfolding filter
filter_left n [] u o l = refl
filter_left n (h ∷ hs) u o l =
    let other : is_other_id n.id h ≡ true = ground (arith, l.0 u o, is_text_iff n.id h) in
    rw other (ap (λ r. h ∷ r) (filter_left n hs u o l.1))

All-heads :
    (n : Node) (ns : List Node) (hs : List String)
    → All (λ h. All (Leaves h) (n ∷ ns)) hs
    → All (λ h. Leaves h n) hs × All (λ h. All (Leaves h) ns) hs
All-heads n ns [] a = (tt, tt)
All-heads n ns (h ∷ hs) a = let r = All-heads n ns hs a.1 in ((a.0.0, r.0), (a.0.1, r.1))

reconcile-stable :
    (ns : List Node) (hs : List String)
    → All (λ h. All (Leaves h) ns) hs
    → reconcile_hidden_node_ids ns hs ≡ hs
unfolding reconcile_hidden_node_ids
reconcile-stable [] hs a = refl
reconcile-stable (n ∷ ns) hs a =
    let r = All-heads n ns hs a in
    elim (Bool-cases (truthy n.id && is_online n)) [
      | inl e ↦
          rw (e, filter_left n hs (ground arith) (ground arith) r.0) (reconcile-stable ns hs r.1)
      | inr e ↦ rw e (reconcile-stable ns hs r.1)
    ]

reconcile-drops :
    (f : String) (ns : List Node) (hs : List String) (n : Node)
    → In n ns
    → is_text n.id f ≡ true
    → (truthy n.id && is_online n) ≡ true
    → reconcile_hidden_node_ids ns (f ∷ hs) ≡ reconcile_hidden_node_ids ns hs
unfolding reconcile_hidden_node_ids filter
reconcile-drops f [] hs n i e o = elim i [ ]
reconcile-drops f (m ∷ ns) hs n here e o = rw (o, e) refl
reconcile-drops f (m ∷ ns) hs n (there i) e o = elim (Bool-cases (truthy m.id && is_online m)) [
  | inl g ↦ elim (Bool-cases (is_text m.id f)) [
    | inl d ↦ rw (g, d) refl
    | inr d ↦ rw (g, d) (reconcile-drops f ns (filter (is_other_id m.id) hs) n i e o)
  ]
  | inr g ↦ rw g (reconcile-drops f ns hs n i e o)
]

push_incident-topology : (i : Incident) (s : State) → (push_incident i s).topology ≡ s.topology
unfolding push_incident
push_incident-topology i s = ground arith

module _ (env : Env) where
  refresh-topology :
      (t : Table) (f : String) (s : State) (n : Node)
      → ViewOf env (some t) s.hidden_node_ids s.topology
      → In n t.nodes
      → is_text n.id f ≡ true
      → (truthy n.id && is_online n) ≡ true
      → (refresh env (some t) (record s { hidden_node_ids = f ∷ s.hidden_node_ids })).topology
        ≡ s.topology
  refresh-topology t f s n v i e o =
      rw
        (
          reconcile-drops f t.nodes s.hidden_node_ids n i e o,
          reconcile-stable t.nodes s.hidden_node_ids v.0,
        )
        (sym v.1)

  -- In every session, the last will of a core that the last table shows online does not hide the
  -- core: the topology shown stays as it was, since the hidden nodes are reconciled with that same
  -- table.
  pub note_core_down-topology :
      (url : String) (es : List Event) (t : Table) (failed : String) (now : ℕ) (n : Node)
      → (run env (initial url) es).raw_topology ≡ some t
      → In n t.nodes
      → is_text n.id failed ≡ true
      → (truthy n.id && is_online n) ≡ true
      → (note_core_down env failed now (run env (initial url) es)).topology
        ≡ (run env (initial url) es).topology
  unfolding note_core_down refresh_visible_topology
  note_core_down-topology url es t failed now n r i e o =
      let s = run env (initial url) es in
      let v : ViewOf env (some t) s.hidden_node_ids s.topology =
        subst (λ x. ViewOf env x s.hidden_node_ids s.topology) r (run-IsView env url es) in
      push_incident-topology _ _ ∙ rw r (refresh-topology t failed s n v i e o)
