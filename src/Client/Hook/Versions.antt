-- ===== src/Client/Hook/Versions.antt =====
-- The version guard of the client: a table that is not newer is not accepted, but for one table
-- after a core was lost or switched.
use io_t_midterm_availabilit.Base.{
  ℕ, String, ◌≡◌, refl, Bool, true, false, Option, none, some, arith, Bool-cases, Option-cases, inl,
  inr, subst, either_branch,
}
use io_t_midterm_availabilit.Js.Number.{num_leb, compared, Compared, below, same, above}
use io_t_midterm_availabilit.Js.Value.{Value, str}
use io_t_midterm_availabilit.Client.Parsers.{Table, Node, MqttMessage}
use io_t_midterm_availabilit.Client.Failover.{
  parse_broker_endpoint, select_promoted_active_node, resolve_backup_reconnect_target,
}
use io_t_midterm_availabilit.Client.Hook.State.{Env, State, Incident}
use io_t_midterm_availabilit.Client.Hook.Updates.{
  push_incident, push_alert, alert_expires, see_message, is_seen_message, reconnect_to_broker_host,
  apply_presentation_topology, refresh_visible_topology, reconnect_to_described, follow_promotion,
  has_text,
}
use io_t_midterm_availabilit.Client.Hook.Messages.{
  is_stale, accept_table, on_topology, note_buffered, note_delay, push_event, accept_event, on_data,
  note_node, apply_newer, accept_node_alert, on_node_alert, note_switch, accept_switch,
  on_core_switch, to_backup, leave_failed_core, note_core_down, accept_will, on_core_will,
  description, is_active_core, core_alert, is_offline_in, node_in, parsed_table, alert_key,
}
use io_t_midterm_availabilit.Client.Hook.Step.{
  Event, message, connects, errors, closes, reconnects, expires, sets_broker_url, effect, Topic,
  topology, data_event, node_down, node_up, core_switch, other, core_will, topic_of, on_message,
  step,
}

-- The second table is there and not older where the first one is there.
abbrev pub IsNotOlder : Option Table → Option Table → Type 0
IsNotOlder none b = Unit {0}
IsNotOlder (some a) none = ⊥
IsNotOlder (some a) (some b) = num_leb a.version b.version ≡ true

IsNotOlder-refl : (a : Option Table) → IsNotOlder a a
IsNotOlder-refl none = tt
IsNotOlder-refl (some a) = ground (arith, compared a.version a.version)

newer : (t : Table) (raw : Option Table) → is_stale t raw ≡ false → IsNotOlder raw (some t)
newer t none h = tt
newer t (some r) h = by_order (compared r.version t.version)
  where
    by_order : Compared r.version t.version → IsNotOlder (some r) (some t)
    by_order (below l e g) = ground arith
    by_order (same p e l g) = ground arith
    by_order (above g e l) = ground arith

-- Everything but the acceptance of a table keeps the last table.
abbrev pub Keeps : Option Table → State → Type 0
Keeps raw s = s.raw_topology ≡ raw

module _ (env : Env) (raw : Option Table) where
  incident-Keeps : (i : Incident) (s : State) → Keeps raw s → Keeps raw (push_incident i s)
  unfolding push_incident
  incident-Keeps i s h = ground arith

  reconnect-Keeps :
      (v : Value) (reason : String) (s : State)
      → Keeps raw s
      → Keeps raw (reconnect_to_broker_host env v reason s)
  unfolding reconnect_to_broker_host
  reconnect-Keeps v reason s h = ground arith

  described-Keeps :
      (d : Value) (reason : String) (s : State)
      → Keeps raw s
      → Keeps raw (reconnect_to_described env d reason s)
  unfolding reconnect_to_described
  described-Keeps d reason s h = elim (Option-cases (parse_broker_endpoint d)) [
    | inl e ↦ rw e h
    | inr (x, e) ↦ rw e (ground (arith, reconnect-Keeps (str x.host) reason s h))
  ]

  pub promotion-Keeps :
      (previous : Option Table) (t : Table) (s : State)
      → Keeps raw s
      → Keeps raw (follow_promotion env previous t s)
  unfolding follow_promotion
  promotion-Keeps previous t s h =
      elim (Option-cases (
        select_promoted_active_node env.number_text env.new_url env.to_lower_case previous (some t)
          s.client_url)) [
            | inl e ↦ rw e h
            | inr (n, e) ↦ rw e (ground (arith, reconnect-Keeps n.ip "M-04" s h))
          ]

  event-Keeps :
      (m : Option MqttMessage) (topic : String) (now : ℕ) (s : State)
      → Keeps raw s
      → Keeps raw (accept_event env m topic now s)
  unfolding accept_event note_delay note_buffered push_event push_incident
  event-Keeps none topic now s h = h
  event-Keeps (some m) topic now s h = ground arith

  refresh-Keeps : (s : State) → Keeps raw s → Keeps raw (refresh_visible_topology env s)
  unfolding refresh_visible_topology
  refresh-Keeps s h = ground arith

  see-Keeps : (m : Option MqttMessage) (s : State) → Keeps raw s → Keeps raw (see_message m s)
  see-Keeps none s h = h
  see-Keeps (some m) s h = h

  switch-Keeps :
      (m : Option MqttMessage) (topic raw_text : String) (now : ℕ) (s : State)
      → Keeps raw s
      → Keeps raw (accept_switch env m topic raw_text now s)
  unfolding accept_switch note_switch push_alert
  switch-Keeps m topic raw_text now s h =
      either_branch (Keeps raw) (is_seen_message m s) s _ h
        (described-Keeps (description m) "core_switch" _ (incident-Keeps _ _ (see-Keeps m s h)))

  will-Keeps :
      (previous : Option Table) (m : Option MqttMessage) (topic raw_text failed : String)
      (later : ℕ) (s : State)
      → Keeps raw s
      → Keeps raw (accept_will env previous m topic raw_text failed later s)
  unfolding accept_will push_alert leave_failed_core
  will-Keeps previous m topic raw_text failed later s h =
      either_branch (Keeps raw) (is_seen_message m s) s _ h (
        either_branch (Keeps raw) (is_active_core previous failed) _ _
          (to (resolve_backup_reconnect_target previous none)) (see-Keeps m s h))
    where
      after : State
      after = record (push_alert (core_alert env topic raw_text m later) (see_message m s)) {
        force_accept_next = true;
      }

      to : (n : Option Node) → Keeps raw (to_backup env n m after)
      to none = described-Keeps (description m) "W-01" after (see-Keeps m s h)
      to (some n) = reconnect-Keeps n.ip "W-01" after (see-Keeps m s h)

  down-Keeps :
      (failed : String) (now : ℕ) (s : State)
      → Keeps raw s
      → Keeps raw (note_core_down env failed now s)
  unfolding note_core_down
  down-Keeps failed now s h = incident-Keeps _ _ (refresh-Keeps _ h)

  node-Keeps :
      (down : Bool) (id : String) (ct : Option Table) (now : ℕ) (s : State)
      → Keeps raw s
      → Keeps raw (note_node env down id ct now s)
  unfolding note_node
  node-Keeps false id ct now s h = incident-Keeps _ s h
  node-Keeps true id ct now s h =
      either_branch (Keeps raw) (is_offline_in (node_in ct id)) _ s (incident-Keeps _ s h) h

module _ (env : Env) where
  -- The last table of the second state is not older.
  abbrev Progress : State → State → Type 0
  Progress s t = IsNotOlder s.raw_topology t.raw_topology

  kept : {raw r : Option Table} → r ≡ raw → IsNotOlder raw r
  kept {raw} e = rw e (IsNotOlder-refl raw)

  pub applied_table :
      (t : Table) (s : State) → (apply_presentation_topology env t s).raw_topology ≡ some t
  unfolding apply_presentation_topology
  applied_table t s = refl

  applied :
      (s : State) (t : Table)
      → is_stale t s.raw_topology ≡ false
      → Progress s (apply_presentation_topology env t s)
  unfolding apply_presentation_topology
  applied s t e = newer t s.raw_topology e

  table-Progress :
      (t : Option Table) (s : State)
      → s.force_accept_next ≡ false
      → Progress s (accept_table env t s)
  unfolding accept_table
  table-Progress none s f = kept refl
  table-Progress (some t) s f = elim (Bool-cases (is_stale t s.raw_topology)) [
    | inl stale ↦ rw (f, stale) (kept refl)
    | inr fresh ↦
        rw (f, fresh)
          (let accepted =
              apply_presentation_topology env t (record s { force_accept_next = false }) in
            let e =
              promotion-Keeps env (some t) s.raw_topology t accepted
                (applied_table t (record s { force_accept_next = false })) in
            rw e (newer t s.raw_topology fresh))
  ]

  newer-Progress : (ct : Option Table) (s : State) → Progress s (apply_newer env ct s)
  unfolding apply_newer
  newer-Progress none s = kept (refresh-Keeps env s.raw_topology s refl)
  newer-Progress (some t) s = elim (Bool-cases (is_stale t s.raw_topology)) [
    | inl stale ↦ rw stale (kept (refresh-Keeps env s.raw_topology s refl))
    | inr fresh ↦ rw fresh (applied s t fresh)
  ]

  alert-Progress :
      (topic raw id : String) (ct : Option Table) (later : ℕ) (s : State)
      → Progress s (accept_node_alert env topic raw id ct later s)
  unfolding accept_node_alert push_alert
  alert-Progress topic raw id ct later s =
      either_branch (Progress s) (has_text (alert_key env topic raw ct) s.seen_alert_keys) s _
        (kept refl) (newer-Progress ct _)

  node-Progress :
      (down : Bool) (topic raw id : String) (now later : ℕ) (s : State)
      → Progress s (on_node_alert env down topic raw id now later s)
  unfolding on_node_alert
  node-Progress down topic raw id now later s =
      let noted = note_node env down id (parsed_table env raw) now s in
      subst
        (λ r.
          IsNotOlder r
            (accept_node_alert env topic raw id (parsed_table env raw) later noted).raw_topology)
        (node-Keeps env s.raw_topology down id (parsed_table env raw) now s refl)
        (alert-Progress topic raw id (parsed_table env raw) later noted)

  message-Progress :
      (kind : Topic) (topic raw : String) (now later : ℕ) (s : State)
      → s.force_accept_next ≡ false
      → Progress s (on_message env kind topic raw now later s)
  unfolding on_message on_topology on_data on_core_switch on_core_will
  message-Progress topology topic raw now later s f = table-Progress _ s f
  message-Progress data_event topic raw now later s f =
      kept (event-Keeps env s.raw_topology _ topic now s refl)
  message-Progress node_down topic raw now later s f = node-Progress true topic raw _ now later s
  message-Progress node_up topic raw now later s f = node-Progress false topic raw _ now later s
  message-Progress core_switch topic raw now later s f =
      kept (switch-Keeps env s.raw_topology _ topic raw now s refl)
  message-Progress (core_will failed) topic raw now later s f = kept (
      will-Keeps env s.raw_topology s.raw_topology _ topic raw failed later _
        (down-Keeps env s.raw_topology failed now s refl))
  message-Progress other topic raw now later s f = kept refl

  -- Unless the next table is accepted whatever its version, which is so after a core switch or the
  -- last will of a core, no event makes the last table older or takes it away.
  pub step-IsNotOlder :
      (s : State) (e : Event)
      → s.force_accept_next ≡ false
      → IsNotOlder s.raw_topology (step env s e).raw_topology
  unfolding step alert_expires
  step-IsNotOlder s (message topic raw now later) f =
      message-Progress (topic_of topic) topic raw now later s f
  step-IsNotOlder s (expires ts) f = kept (ground arith)
  step-IsNotOlder s connects f = kept refl
  step-IsNotOlder s errors f = kept refl
  step-IsNotOlder s closes f = kept refl
  step-IsNotOlder s reconnects f = kept refl
  step-IsNotOlder s (sets_broker_url url) f = kept refl
  step-IsNotOlder s effect f = kept refl
