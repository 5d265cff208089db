-- ===== src/Client/Hook/Failover.antt =====
-- Where the client goes when the active core is lost.
use io_t_midterm_availabilit.Base.{
  ℕ, String, ◌≡◌, ◌≢◌, refl, subst, sym, ◌∙◌, ap, true, false, ◌||◌, Option, none, some, ◌∷◌, ◌↔◌,
  find, FirstOf, find-FirstOf, FirstOf-find, arith, if◌then◌else◌, Bool-cases, Option-cases, inl,
  inr, ◌=ₛ◌, eq_iff,
}
use io_t_midterm_availabilit.Js.Value.{Value, undefined, str, truthy, is_text, is_text_iff}
use io_t_midterm_availabilit.Client.Parsers.{Table, Node, MqttMessage}
use io_t_midterm_availabilit.Client.Failover.{
  build_broker_url, parse_broker_endpoint, Endpoint, find_node_by_id, find_backup_core_node,
  can_serve, resolve_backup_reconnect_target,
}
use io_t_midterm_availabilit.Client.Hook.State.{Env, State, Incident}
use io_t_midterm_availabilit.Client.Hook.Updates.{
  push_incident, push_alert, see_message, is_seen_message, reconnect_to_broker_host,
  refresh_visible_topology, reconnect_to_described,
}
use io_t_midterm_availabilit.Client.Hook.Messages.{
  leave_failed_core, note_core_down, accept_will, on_core_will, description, core_alert,
  parsed_message,
}

abbrev pub HasId : String → Node → Type 0
HasId id n = n.id ≡ str id

-- The table names a backup core, this is the first node with its id, and it has an address and is
-- not offline.
pub record IsServingBackup (t : Table) (n : Node) : Type 0 where
  pub named : t.backup_core_id ≢ ""
  pub first : FirstOf (HasId t.backup_core_id) t.nodes n
  pub address : truthy n.ip ≡ true
  pub not_offline : n.status ≢ str "OFFLINE"

-- The address that the client should go to once the active core of `t` is lost: the backup core's
-- where the table has one that can serve, else the one that the last will describes.
pub data Target (t : Table) (m : Option MqttMessage) : Option Value → Type 0 where
  backup : (n : Node) → IsServingBackup t n → Target t m (some n.ip)
  described :
      (e : Endpoint)
      → ((n : Node) → ¬ IsServingBackup t n)
      → parse_broker_endpoint (description m) ≡ some e
      → e.host ≢ ""
      → Target t m (some (str e.host))
  nowhere :
      ((n : Node) → ¬ IsServingBackup t n)
      → ((e : Endpoint) → parse_broker_endpoint (description m) ≡ some e → e.host ≡ "")
      → Target t m none

has_id_iff : (id : String) (n : Node) → (is_text n.id id ≡ true) ↔ HasId id n
has_id_iff id n = is_text_iff n.id id

found_backup :
    (t : Table) (n : Node)
    → resolve_backup_reconnect_target (some t) none ≡ some n
    → IsServingBackup t n
unfolding resolve_backup_reconnect_target find_backup_core_node find_node_by_id
found_backup t n e = elim (Bool-cases (t.backup_core_id =ₛ "")) [
  | inl empty ↦ ground (arith, empty, e)
  | inr text ↦ elim (Option-cases (find (λ (x : Node). is_text x.id t.backup_core_id) t.nodes)) [
    | inl absent ↦ ground (arith, text, absent, e)
    | inr (m, f) ↦ elim (Bool-cases (can_serve m)) [
      | inr idle ↦ ground (arith, text, f, idle, e)
      | inl able ↦
          let same : m ≡ n = ground (arith, text, f, able, e) in
          let ready : can_serve n ≡ true = subst (λ x. can_serve x ≡ true) same able in
          record {
            named = λ q. ground (arith, text, eq_iff t.backup_core_id "");
            first =
                find-FirstOf (λ (x : Node). is_text x.id t.backup_core_id) (HasId t.backup_core_id)
                  (has_id_iff t.backup_core_id) t.nodes n (f ∙ ap some same);
            address = ground (arith, ready);
            not_offline = λ q. ground (arith, ready, (is_text_iff n.status "OFFLINE").1 q);
          }
    ]
  ]
]

no_backup :
    (t : Table)
    → resolve_backup_reconnect_target (some t) none ≡ none
    → (n : Node) → ¬ IsServingBackup t n
unfolding resolve_backup_reconnect_target find_backup_core_node find_node_by_id
no_backup t e n b =
    let text : (t.backup_core_id =ₛ "") ≡ false =
      ground (arith, eq_iff t.backup_core_id "", b.named) in
    let online : is_text n.status "OFFLINE" ≡ false =
      ground (arith, is_text_iff n.status "OFFLINE", b.not_offline) in
    ground (
      arith,
      text,
      online,
      b.address,
      FirstOf-find (λ (x : Node). is_text x.id t.backup_core_id) (HasId t.backup_core_id)
          (has_id_iff t.backup_core_id) t.nodes n b.first,
      e,
    )

-- The URL of an address, where it is a URL at all and not the one of the present client.
abbrev pub url_after : String → String → Option String → String
url_after current broker none = broker
url_after current broker (some url) = if url =ₛ "" || url =ₛ current then broker else url

-- The same URLs and message ids.
record SameLink (s t : State) : Type 0 where
  broker : t.broker_url ≡ s.broker_url
  client : t.client_url ≡ s.client_url
  ids : t.seen_msg_ids ≡ s.seen_msg_ids

push_incident-SameLink : (i : Incident) (s : State) → SameLink s (push_incident i s)
unfolding push_incident
push_incident-SameLink i s = ground arith

module _ (env : Env) where
  abbrev pub goes_to : String → String → Option Value → String
  goes_to current broker none = broker
  goes_to current broker (some host) =
      url_after current broker
        (build_broker_url env.number_text env.new_url env.to_lower_case current host undefined)

  refresh-SameLink : (s : State) → SameLink s (refresh_visible_topology env s)
  unfolding refresh_visible_topology
  refresh-SameLink s = ground arith

  down-SameLink :
      (failed : String) (now : ℕ) (s : State) → SameLink s (note_core_down env failed now s)
  unfolding note_core_down
  down-SameLink failed now s =
      let hidden = record s { hidden_node_ids = failed ∷ s.hidden_node_ids } in
      let r = refresh-SameLink hidden in
      let i = push_incident-SameLink _ (refresh_visible_topology env hidden) in
      record { broker = i.broker ∙ r.broker; client = i.client ∙ r.client; ids = i.ids ∙ r.ids }

  reconnect-goes_to :
      (host : Value) (reason : String) (s : State)
      → (reconnect_to_broker_host env host reason s).broker_url
        ≡ goes_to s.client_url s.broker_url (some host)
  unfolding reconnect_to_broker_host
  reconnect-goes_to host reason s = ground arith

  -- Leaving a core that was lost.
  left_core :
      (t : Table) (failed : String) (m : Option MqttMessage) (s : State)
      → (t.active_core_id =ₛ failed) ≡ true
      → (a : Option Value) × Target t m a
        × ((leave_failed_core env (some t) failed m s).broker_url
            ≡ goes_to s.client_url s.broker_url a)
  unfolding leave_failed_core reconnect_to_described
  left_core t failed m s h = elim (Option-cases (resolve_backup_reconnect_target (some t) none)) [
    | inr (n, e) ↦
        (some n.ip, backup n (found_backup t n e), rw (h, e) (reconnect-goes_to n.ip "W-01" s))
    | inl absent ↦ elim (Option-cases (parse_broker_endpoint (description m))) [
      | inl none_described ↦ (
        none,
        nowhere (no_backup t absent) (λ x f. ground (arith, none_described, f)),
        rw (h, absent, none_described) refl,
      )
      | inr (d, e) ↦ elim (Bool-cases (d.host =ₛ "")) [
        | inl empty ↦ (
          none,
          nowhere (no_backup t absent) (λ x f. ground (arith, e, f, empty, eq_iff d.host "")),
          rw (h, absent, e, empty) refl,
        )
        | inr text ↦ (
          some (str d.host),
          described d (no_backup t absent) e (ground (arith, text, eq_iff d.host "")),
          rw (h, absent, e, text) (reconnect-goes_to (str d.host) "W-01" s),
        )
      ]
    ]
  ]

  abbrev alerted : Option MqttMessage → String → String → ℕ → State → State
  alerted m topic raw later s =
      record (push_alert (core_alert env topic raw m later) (see_message m s)) {
        force_accept_next = true;
      }

  still_new :
      (m : Option MqttMessage) (s t : State)
      → t.seen_msg_ids ≡ s.seen_msg_ids
      → is_seen_message m s ≡ false
      → is_seen_message m t ≡ false
  still_new none s t e h = refl
  still_new (some m) s t e h = rw e h

  accepted_will :
      (t : Table) (failed topic raw : String) (m : Option MqttMessage) (later : ℕ) (s : State)
      → (t.active_core_id =ₛ failed) ≡ true
      → is_seen_message m s ≡ false
      → (a : Option Value) × Target t m a
        × ((accept_will env (some t) m topic raw failed later s).broker_url
            ≡ goes_to s.client_url s.broker_url a)
  unfolding accept_will push_alert
  accepted_will t failed topic raw none later s h new =
      left_core t failed none (alerted none topic raw later s) h
  accepted_will t failed topic raw (some e) later s h new =
      rw new (left_core t failed (some e) (alerted (some e) topic raw later s) h)

  goes_same :
      (a : Option Value) (c c' b b' : String) → c' ≡ c → b' ≡ b → goes_to c' b' a ≡ goes_to c b a
  goes_same a c c' b b' e f = rw (e, f) refl

  will_from :
      (last : Option Table) (t : Table) (topic raw failed : String) (m : Option MqttMessage)
      (later : ℕ) (s down : State)
      → last ≡ some t
      → SameLink s down
      → (t.active_core_id =ₛ failed) ≡ true
      → is_seen_message m s ≡ false
      → (a : Option Value) × Target t m a
        × ((accept_will env last m topic raw failed later down).broker_url
            ≡ goes_to s.client_url s.broker_url a)
  will_from last t topic raw failed m later s down r d h new =
      let (a, g, p) =
        accepted_will t failed topic raw m later down h (still_new m s down d.ids new) in
      let q : (accept_will env last m topic raw failed later down).broker_url
          ≡ goes_to down.client_url down.broker_url a =
        subst
          (λ x.
            (accept_will env x m topic raw failed later down).broker_url
            ≡ goes_to down.client_url down.broker_url a)
          (sym r) p in
      (
        a,
        g,
        q ∙ goes_same a s.client_url down.client_url s.broker_url down.broker_url d.client d.broker,
      )

  -- The last will of the active core, when it comes for the first time, sends the client to the
  -- backup core of the last table if that can serve, else to the host that the will describes;
  -- without either, or where the address makes no URL or the one of the present client, the
  -- broker's URL stays. The backup can serve if the table names one, and the first node with its id
  -- has an address and is not offline.
  pub on_core_will-Target :
      (t : Table) (topic raw failed : String) (now later : ℕ) (s : State)
      → s.raw_topology ≡ some t
      → (t.active_core_id =ₛ failed) ≡ true
      → is_seen_message (parsed_message env raw) s ≡ false
      → (a : Option Value) × Target t (parsed_message env raw) a
        × ((on_core_will env topic raw failed now later s).broker_url
            ≡ goes_to s.client_url s.broker_url a)
  unfolding on_core_will
  on_core_will-Target t topic raw failed now later s r h new =
      will_from s.raw_topology t topic raw failed (parsed_message env raw) later s
        (note_core_down env failed now s) r (down-SameLink failed now s) h new
