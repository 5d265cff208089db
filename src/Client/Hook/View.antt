-- ===== src/Client/Hook/View.antt =====
-- The shown topology is always what the last table shows with the hidden nodes, and none of these
-- is online in it.
use io_t_midterm_availabilit.Base.{
  ℕ, String, ◌≡◌, refl, Option, none, some, List, [], ◌∷◌, arith, All, All-of-In,
}
use io_t_midterm_availabilit.Client.Parsers.{Table, MqttMessage}
use io_t_midterm_availabilit.Client.Visibility.{
  build_presentation_topology, reconcile_hidden_node_ids,
}
use io_t_midterm_availabilit.Client.Visibility.Hidden.{Leaves, reconcile_hidden_node_ids_iff}
use io_t_midterm_availabilit.Client.Hook.State.{Env, State, Incident, initial}
use io_t_midterm_availabilit.Client.Hook.Updates.{
  push_incident, push_alert, alert_expires, apply_presentation_topology, refresh_visible_topology,
  refresh,
}
use io_t_midterm_availabilit.Client.Hook.Messages.{note_buffered, note_delay, push_event}
use io_t_midterm_availabilit.Client.Hook.Step.{Event, step, run}
use io_t_midterm_availabilit.Client.Hook.Moves.{
  Move, links, notes, alerts, times_out, sees_id, shows_event, applies, refreshes, hides, Moves,
  stay, more, step-Moves, sees, hides_more,
}

-- `t` brings none of the hidden nodes back.
abbrev pub IsHiddenIn : Table → List String → Type 0
IsHiddenIn t hidden = All (λ h. All (Leaves h) t.nodes) hidden

record SameView (s t : State) : Type 0 where
  raw : t.raw_topology ≡ s.raw_topology
  hidden : t.hidden_node_ids ≡ s.hidden_node_ids
  shown : t.topology ≡ s.topology

push_incident-Same : (i : Incident) (s : State) → SameView s (push_incident i s)
unfolding push_incident
push_incident-Same i s = ground arith

alert_expires-Same : (ts : ℕ) (s : State) → SameView s (alert_expires ts s)
unfolding alert_expires
alert_expires-Same ts s = ground arith

module _ (env : Env) where
  abbrev pub ViewOf : Option Table → List String → Option Table → Type 0
  ViewOf none hidden shown = shown ≡ none
  ViewOf (some t) hidden shown =
      IsHiddenIn t hidden × (shown ≡ some (build_presentation_topology env.number_text t hidden))

  abbrev pub IsView : State → Type 0
  IsView s = ViewOf s.raw_topology s.hidden_node_ids s.topology

  IsView-of-Same : {s t : State} → SameView s t → IsView s → IsView t
  IsView-of-Same d v = rw (d.raw, d.hidden, d.shown) v

  reconciled :
      (t : Table) (hidden : List String) → IsHiddenIn t (reconcile_hidden_node_ids t.nodes hidden)
  reconciled t hidden =
      All-of-In (λ h. All (Leaves h) t.nodes) (reconcile_hidden_node_ids t.nodes hidden)
        (λ h i. ((reconcile_hidden_node_ids_iff t.nodes hidden h).0 i).1)

  apply-IsView : (t : Table) (s : State) → IsView (apply_presentation_topology env t s)
  unfolding apply_presentation_topology
  apply-IsView t s = (reconciled t s.hidden_node_ids, refl)

  -- A refresh restores the view after any change of the hidden nodes.
  abbrev Blank : Option Table → Option Table → Type 0
  Blank none shown = shown ≡ none
  Blank (some t) shown = Unit {0}

  Blank-of-View :
      (raw shown : Option Table) (hidden : List String) → ViewOf raw hidden shown → Blank raw shown
  Blank-of-View none shown hidden v = v
  Blank-of-View (some t) shown hidden v = tt

  refresh-IsView :
      (raw : Option Table) (s : State)
      → s.raw_topology ≡ raw
      → Blank raw s.topology
      → IsView (refresh env raw s)
  refresh-IsView none s e v = rw e v
  refresh-IsView (some t) s e v = rw e (reconciled t s.hidden_node_ids, refl)

  refreshed :
      (s : State) → Blank s.raw_topology s.topology → IsView (refresh_visible_topology env s)
  unfolding refresh_visible_topology
  refreshed s v = refresh-IsView s.raw_topology s refl v

  note_delay-Same :
      (m : MqttMessage) (now delay : ℕ) (s : State) → SameView s (note_delay env m now delay s)
  unfolding note_delay note_buffered push_incident
  note_delay-Same m now delay s = ground arith

  Move-IsView : {s t : State} → Move env s t → IsView s → IsView t
  unfolding push_alert push_event
  Move-IsView (links _ _ _ _ _ _ _) v = v
  Move-IsView {s} (notes i) v = IsView-of-Same (push_incident-Same i s) v
  Move-IsView (alerts a) v = v
  Move-IsView {s} (times_out ts) v = IsView-of-Same (alert_expires-Same ts s) v
  Move-IsView (sees_id i) v = v
  Move-IsView {s} (shows_event m topic now h) v =
      IsView-of-Same (note_delay-Same m now _ (sees m.msg_id s)) v
  Move-IsView {s} (applies t) v = apply-IsView t s
  Move-IsView {s} refreshes v =
      refreshed s (Blank-of-View s.raw_topology s.topology s.hidden_node_ids v)
  Move-IsView {s} (hides h) v =
      refreshed (hides_more h s) (Blank-of-View s.raw_topology s.topology s.hidden_node_ids v)

  Moves-IsView : {s t : State} → Moves env s t → IsView s → IsView t
  Moves-IsView stay v = v
  Moves-IsView (more m n) v = Move-IsView n (Moves-IsView m v)

  -- After any events, the topology shown is what `buildPresentationTopology` makes of the last
  -- accepted table and the hidden nodes, none of which is online in that table; none is shown
  -- before the first table.
  pub run-IsView : (url : String) (es : List Event) → IsView (run env (initial url) es)
  unfolding run
  run-IsView url es = from (initial url) es refl
    where
      from : (s : State) (es : List Event) → IsView s → IsView (run env s es)
      from s [] v = v
      from s (e ∷ es) v = from (step env s e) es (Moves-IsView (step-Moves env s e) v)
