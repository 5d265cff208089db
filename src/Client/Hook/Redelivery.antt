-- ===== src/Client/Hook/Redelivery.antt =====
-- A broker may deliver a message twice (QoS 1). What the second delivery does.
use io_t_midterm_availabilit.Base.{
  ℕ, String, ◌≡◌, refl, Bool, true, false, not, ◌&&◌, ◌||◌, Option, none, some, List, ◌∷◌, arith,
  any, Bool-cases, Option-cases, inl, inr, ◌=ₛ◌, ◌∙◌, eq_refl,
}
use io_t_midterm_availabilit.Js.Number.{compared}
use io_t_midterm_availabilit.Js.Value.{Value, str, strict_eq, is_string}
use io_t_midterm_availabilit.Client.Parsers.{Table, MqttMessage}
use io_t_midterm_availabilit.Client.Failover.{select_promoted_active_node, parse_broker_endpoint}
use io_t_midterm_availabilit.Client.Hook.State.{Env, State, Incident}
use io_t_midterm_availabilit.Client.Hook.Updates.{
  push_incident, push_alert, see_message, reconnect_to_broker_host, apply_presentation_topology,
  refresh_visible_topology, reconnect_to_described, follow_promotion, has_value, has_text,
}
use io_t_midterm_availabilit.Client.Hook.Messages.{
  is_stale, accept_table, push_event, event_entry, accept_event, note_node, apply_newer,
  accept_node_alert, note_switch, accept_switch, description, core_alert, on_topology, on_data,
  on_core_switch, on_node_alert, parsed_message, parsed_table, alert_key, is_offline_in, node_in,
}
use io_t_midterm_availabilit.Client.Hook.Feed.{note_delay-events}
use io_t_midterm_availabilit.Client.Hook.Versions.{promotion-Keeps, applied_table}
use io_t_midterm_availabilit.Client.Hook.Step.{
  Topic, topology, data_event, node_down, node_up, core_switch, other, core_will, on_message,
  message, topic_of, step,
}

strict_eq_text : (v : Value) → is_string v ≡ true → strict_eq v v ≡ true
strict_eq_text (str s) h = ground (arith, eq_refl s)
strict_eq_text _ h = ground arith

-- The same remembered ids and keys.
record SameSeen (s t : State) : Type 0 where
  ids : t.seen_msg_ids ≡ s.seen_msg_ids
  alerts : t.seen_alert_keys ≡ s.seen_alert_keys
  incidents : t.seen_incident_keys ≡ s.seen_incident_keys

-- A second incident with the key of a first one is not noted.
abbrev is_known : String → List String → Bool
is_known k keys = k =ₛ "" || has_text k keys

incident_known :
    (i : Incident) (s : State) → is_known i.key s.seen_incident_keys ≡ true → push_incident i s ≡ s
unfolding push_incident
incident_known i s h = rw h refl

incident_remembered :
    (i : Incident) (s : State) → is_known i.key (push_incident i s).seen_incident_keys ≡ true
unfolding push_incident any
incident_remembered i s = elim (Bool-cases (is_known i.key s.seen_incident_keys)) [
  | inl e ↦ rw (e, e) refl
  | inr e ↦ ground (arith, e, eq_refl i.key)
]

incident_again :
    (i j : Incident) (s t : State)
    → j.key ≡ i.key
    → t.seen_incident_keys ≡ (push_incident i s).seen_incident_keys
    → push_incident j t ≡ t
incident_again i j s t k e = incident_known j t (rw (k, e) (incident_remembered i s))

-- A message that the client can recognise when it comes again.
abbrev pub IsIdentified : Topic → Option MqttMessage → Type 0
IsIdentified (core_will id) m = ⊥
IsIdentified core_switch none = ⊥
IsIdentified core_switch (some m) = is_string m.msg_id ≡ true
IsIdentified data_event (some m) = is_string m.msg_id ≡ true
IsIdentified data_event none = Unit
IsIdentified topology m = Unit
IsIdentified node_down m = Unit
IsIdentified node_up m = Unit
IsIdentified other m = Unit

module _ (env : Env) where
  event_seen :
      (e : MqttMessage) (topic : String) (now : ℕ) (t : State)
      → has_value e.msg_id t.seen_msg_ids ≡ true
      → accept_event env (some e) topic now t ≡ t
  unfolding accept_event
  event_seen e topic now t h = rw h refl

  event_remembered :
      (e : MqttMessage) (topic : String) (now : ℕ) (s : State)
      → strict_eq e.msg_id e.msg_id ≡ true
      → has_value e.msg_id (accept_event env (some e) topic now s).seen_msg_ids ≡ true
  unfolding accept_event push_event any
  event_remembered e topic now s h = elim (Bool-cases (has_value e.msg_id s.seen_msg_ids)) [
    | inl seen ↦ rw (seen, seen) refl
    | inr new ↦
        rw
          (
            new,
            (note_delay-events env e now (event_entry env e topic now).delay_ms
                (see_message (some e) s)).1,
            h,
          )
          refl
  ]

  table_stale :
      (t : Table) (s : State)
      → s.force_accept_next ≡ false
      → is_stale t s.raw_topology ≡ true
      → accept_table env (some t) s ≡ s
  unfolding accept_table
  table_stale t s f e = rw (f, e) refl

  reconnect_force :
      (v : Value) (reason : String) (s : State)
      → (reconnect_to_broker_host env v reason s).force_accept_next ≡ s.force_accept_next
  unfolding reconnect_to_broker_host
  reconnect_force v reason s = ground arith

  promotion_force :
      (previous : Option Table) (t : Table) (s : State)
      → (follow_promotion env previous t s).force_accept_next ≡ s.force_accept_next
  unfolding follow_promotion
  promotion_force previous t s =
      elim (Option-cases (
        select_promoted_active_node env.number_text env.new_url env.to_lower_case previous (some t)
          s.client_url)) [
            | inl e ↦ rw e refl
            | inr (n, e) ↦ rw e (ground (arith, reconnect_force n.ip "M-04" s))
          ]

  apply_force :
      (t : Table) (s : State)
      → (apply_presentation_topology env t s).force_accept_next ≡ s.force_accept_next
  unfolding apply_presentation_topology
  apply_force t s = refl

  -- A table that was handled is stale, and not forced if it was accepted.
  table_handled :
      (t : Table) (s : State)
      → (not s.force_accept_next && is_stale t s.raw_topology) ≡ false
      → ((accept_table env (some t) s).force_accept_next ≡ false)
        × (is_stale t (accept_table env (some t) s).raw_topology ≡ true)
  unfolding accept_table
  table_handled t s h =
      let accepted = apply_presentation_topology env t (record s { force_accept_next = false }) in
      let f : (follow_promotion env s.raw_topology t accepted).force_accept_next ≡ false =
        promotion_force s.raw_topology t accepted
        ∙ apply_force t (record s { force_accept_next = false }) in
      let r : (follow_promotion env s.raw_topology t accepted).raw_topology ≡ some t =
        promotion-Keeps env (some t) s.raw_topology t accepted
          (applied_table env t (record s { force_accept_next = false })) in
      rw h (f, rw r (ground (arith, compared t.version t.version)))

  table_again :
      (t : Option Table) (s : State)
      → accept_table env t (accept_table env t s) ≡ accept_table env t s
  unfolding accept_table
  table_again none s = refl
  table_again (some t) s =
      elim (Bool-cases (not s.force_accept_next && is_stale t s.raw_topology)) [
        | inl stale ↦ rw (stale, stale) refl
        | inr fresh ↦
            let h = table_handled t s fresh in table_stale t (accept_table env (some t) s) h.0 h.1
      ]

  -- What is remembered is not forgotten by what follows.
  apply_newer-Same : (ct : Option Table) (s : State) → SameSeen s (apply_newer env ct s)
  unfolding apply_newer apply_presentation_topology refresh_visible_topology
  apply_newer-Same ct s = ground arith

  reconnect-Same :
      (v : Value) (reason : String) (s : State)
      → SameSeen s (reconnect_to_broker_host env v reason s)
  unfolding reconnect_to_broker_host
  reconnect-Same v reason s = ground arith

  described-Same :
      (d : Value) (reason : String) (s : State) → SameSeen s (reconnect_to_described env d reason s)
  unfolding reconnect_to_described
  described-Same d reason s = elim (Option-cases (parse_broker_endpoint d)) [
    | inl e ↦ rw e (ground arith)
    | inr (x, e) ↦ rw e (ground (arith, reconnect-Same (str x.host) reason s))
  ]

  switch_seen :
      (e : MqttMessage) (topic raw : String) (now : ℕ) (t : State)
      → has_value e.msg_id t.seen_msg_ids ≡ true
      → accept_switch env (some e) topic raw now t ≡ t
  unfolding accept_switch
  switch_seen e topic raw now t h = rw h refl

  note_switch-ids :
      (m : Option MqttMessage) (now : ℕ) (s : State)
      → (note_switch env m now s).seen_msg_ids ≡ s.seen_msg_ids
  unfolding note_switch push_incident
  note_switch-ids m now s = ground arith

  abbrev switched : MqttMessage → String → String → ℕ → State → State
  switched e topic raw now s =
      record (note_switch env (some e) now
        (push_alert (core_alert env topic raw (some e) now) (see_message (some e) s))) {
          force_accept_next = true;
        }

  switched-ids :
      (e : MqttMessage) (topic raw : String) (now : ℕ) (s : State)
      → (reconnect_to_described env
          (description (some e))
          "core_switch"
          (switched e topic raw now s)).seen_msg_ids
        ≡ e.msg_id ∷ s.seen_msg_ids
  unfolding push_alert
  switched-ids e topic raw now s =
      (described-Same (description (some e)) "core_switch" (switched e topic raw now s)).ids
      ∙ note_switch-ids (some e) now _

  switch_remembered :
      (e : MqttMessage) (topic raw : String) (now : ℕ) (s : State)
      → strict_eq e.msg_id e.msg_id ≡ true
      → has_value e.msg_id (accept_switch env (some e) topic raw now s).seen_msg_ids ≡ true
  unfolding accept_switch any
  switch_remembered e topic raw now s h = elim (Bool-cases (has_value e.msg_id s.seen_msg_ids)) [
    | inl seen ↦ rw (seen, seen) refl
    | inr new ↦ rw (new, switched-ids e topic raw now s, h) refl
  ]

  alert_seen :
      (topic raw id : String) (ct : Option Table) (later : ℕ) (t : State)
      → has_text (alert_key env topic raw ct) t.seen_alert_keys ≡ true
      → accept_node_alert env topic raw id ct later t ≡ t
  unfolding accept_node_alert
  alert_seen topic raw id ct later t h = rw h refl

  alert_remembered :
      (topic raw id : String) (ct : Option Table) (later : ℕ) (s : State)
      → (has_text
            (alert_key env topic raw ct)
            (accept_node_alert env topic raw id ct later s).seen_alert_keys
          ≡ true)
        × ((accept_node_alert env topic raw id ct later s).seen_incident_keys
            ≡ s.seen_incident_keys)
  unfolding accept_node_alert push_alert any
  alert_remembered topic raw id ct later s =
      elim (Bool-cases (has_text (alert_key env topic raw ct) s.seen_alert_keys)) [
        | inl seen ↦ rw (seen, seen) (refl, refl)
        | inr new ↦
            let f =
              apply_newer-Same ct
                (record s { seen_alert_keys = alert_key env topic raw ct ∷ s.seen_alert_keys }) in
            rw (new, f.alerts, eq_refl (alert_key env topic raw ct)) (refl, f.incidents)
      ]

  note_again :
      (down : Bool) (id : String) (ct : Option Table) (now again : ℕ) (s t : State)
      → t.seen_incident_keys ≡ (note_node env down id ct now s).seen_incident_keys
      → note_node env down id ct again t ≡ t
  unfolding note_node
  note_again false id ct now again s t e = incident_again _ _ s t refl e
  note_again true id ct now again s t e = elim (Bool-cases (is_offline_in (node_in ct id))) [
    | inl off ↦ rw off (incident_again _ _ s t refl (rw off at e))
    | inr on ↦ rw on refl
  ]

  alert_again :
      (down : Bool) (topic raw id : String) (now later now' later' : ℕ) (s : State)
      → on_node_alert env down topic raw id now' later'
          (on_node_alert env down topic raw id now later s)
        ≡ on_node_alert env down topic raw id now later s
  unfolding on_node_alert
  alert_again down topic raw id now later now' later' s =
      let ct = parsed_table env raw in
      let noted = note_node env down id ct now s in
      let handled = accept_node_alert env topic raw id ct later noted in
      let r = alert_remembered topic raw id ct later noted in
      rw (note_again down id ct now now' s handled r.1)
        (alert_seen topic raw id ct later' handled r.0)

  switch_again :
      (m : Option MqttMessage) (topic raw : String) (now again : ℕ) (s : State)
      → IsIdentified core_switch m
      → accept_switch env m topic raw again (accept_switch env m topic raw now s)
        ≡ accept_switch env m topic raw now s
  switch_again none topic raw now again s h = elim h [ ]
  switch_again (some e) topic raw now again s h =
      switch_seen e topic raw again _
        (switch_remembered e topic raw now s (strict_eq_text e.msg_id h))

  event_again :
      (m : Option MqttMessage) (topic : String) (now again : ℕ) (s : State)
      → IsIdentified data_event m
      → accept_event env m topic again (accept_event env m topic now s)
        ≡ accept_event env m topic now s
  unfolding accept_event
  event_again none topic now again s h = refl
  event_again (some e) topic now again s h =
      event_seen e topic again (accept_event env (some e) topic now s)
        (event_remembered e topic now s (strict_eq_text e.msg_id h))

  message_again :
      (kind : Topic) (topic raw : String) (now later now' later' : ℕ) (s : State)
      → IsIdentified kind (parsed_message env raw)
      → on_message env kind topic raw now' later' (on_message env kind topic raw now later s)
        ≡ on_message env kind topic raw now later s
  unfolding on_message on_topology on_data on_core_switch
  message_again topology topic raw now later now' later' s h = table_again (parsed_table env raw) s
  message_again data_event topic raw now later now' later' s h =
      event_again (parsed_message env raw) topic now now' s h
  message_again node_down topic raw now later now' later' s h =
      alert_again true topic raw _ now later now' later' s
  message_again node_up topic raw now later now' later' s h =
      alert_again false topic raw _ now later now' later' s
  message_again core_switch topic raw now later now' later' s h =
      switch_again (parsed_message env raw) topic raw now now' s h
  message_again other topic raw now later now' later' s h = refl
  message_again (core_will id) topic raw now later now' later' s h = elim h [ ]

  -- A message that is delivered again, with no event in between and at any reading of the clock,
  -- changes nothing: neither what is shown nor what is remembered. The message is no last will; an event or a core switch
  -- has a text as its id, and a core switch parses.
  pub step_again :
      (s : State) (topic raw : String) (now later now' later' : ℕ)
      → IsIdentified (topic_of topic) (parsed_message env raw)
      → step env (step env s (message topic raw now later)) (message topic raw now' later')
        ≡ step env s (message topic raw now later)
  unfolding step
  step_again s topic raw now later now' later' h =
      message_again (topic_of topic) topic raw now later now' later' s h
