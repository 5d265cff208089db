-- ===== src/Client/Hook/Feed.antt =====
-- The lists that the client shows: events, alerts and incidents.
use io_t_midterm_availabilit.Base.{
  ℕ, zero, suc, String, ◌≡◌, ◌≤◌, Bool, false, ◌||◌, List, [], ◌∷◌, arith, All, All-In, All-of-In,
  All-take, any-All, any, filter, In-filter, In-cons, In, here, there, length, take, length-take,
  Bool-cases, inl, inr, ◌==◌, ◌=ₛ◌, leb, ◌-◌, either_branch,
}
use io_t_midterm_availabilit.Js.Value.{Value, strict_eq}
use io_t_midterm_availabilit.Client.Parsers.{Table, MqttMessage}
use io_t_midterm_availabilit.Client.Hook.State.{
  Env, State, Alert, Incident, EventEntry, initial, max_events, max_alerts, max_incidents,
  buffered_event_threshold_ms, buffered_incident_cooldown_ms,
}
use io_t_midterm_availabilit.Client.Hook.Updates.{
  push_incident, push_alert, alert_expires, drop_first, is_other_ts, has_value, has_text,
  apply_presentation_topology, refresh_visible_topology,
}
use io_t_midterm_availabilit.Client.Hook.Messages.{
  buffered_incident, cooldown_key, last_seen, note_buffered, note_delay, push_event, event_entry,
}
use io_t_midterm_availabilit.Client.Hook.Step.{Event, step, run}
use io_t_midterm_availabilit.Client.Hook.Moves.{
  Move, links, notes, alerts, times_out, sees_id, shows_event, applies, refreshes, hides, Moves,
  stay, more, step-Moves, sees, hides_more,
}

-- No two elements are the same, as `same` says.
abbrev pub IsDistinct {ℓ} : {A : Type ℓ} (same : A → A → Bool) → List A → Type 0
IsDistinct same [] = Unit {0}
IsDistinct same (x ∷ xs) = All (λ y. same x y ≡ false) xs × IsDistinct same xs

IsDistinct-take {ℓ} :
    {A : Type ℓ} (same : A → A → Bool) (n : ℕ) (xs : List A)
    → IsDistinct same xs
    → IsDistinct same (take n xs)
IsDistinct-take same zero xs d = tt
IsDistinct-take same (suc n) [] d = tt
IsDistinct-take same (suc n) (x ∷ xs) d =
    (All-take (λ y. same x y ≡ false) n xs d.0, IsDistinct-take same n xs d.1)

-- At most `n` elements, no two with one key, whose keys are remembered.
pub record IsShownList {ℓ κ} {A : Type ℓ} {K : Type κ} (n : ℕ) (eq : K → K → Bool) (key : A → K)
    (seen : List K) (xs : List A) : Type κ where
  pub short : length xs ≤ n
  pub distinct : IsDistinct (λ x y. eq (key x) (key y)) xs
  pub remembered : All (λ x. In (key x) seen) xs

seen_more {ℓ κ} :
    {A : Type ℓ} {K : Type κ} (key : A → K) (k : K) (seen : List K) (xs : List A)
    → All (λ x. In (key x) seen) xs
    → All (λ x. In (key x) (k ∷ seen)) xs
seen_more key k seen [] h = tt
seen_more key k seen (x ∷ xs) h = (there h.0, seen_more key k seen xs h.1)

module _ {ℓ κ} {A : Type ℓ} {K : Type κ} (n : ℕ) (eq : K → K → Bool) (key : A → K) where
  remember :
      (k : K) (seen : List K) (xs : List A)
      → IsShownList n eq key seen xs
      → IsShownList n eq key (k ∷ seen) xs
  remember k seen xs v = record {
    short = v.short;
    distinct = v.distinct;
    remembered = seen_more key k seen xs v.remembered;
  }

  show_new :
      (x : A) (seen : List K) (xs : List A)
      → any (eq (key x)) seen ≡ false
      → IsShownList n eq key seen xs
      → IsShownList n eq key (key x ∷ seen) (take n (x ∷ xs))
  show_new x seen xs new v =
      let apart : All (λ k. eq (key x) k ≡ false) seen = any-All (eq (key x)) seen new in
      let fresh : All (λ y. eq (key x) (key y) ≡ false) xs =
        All-of-In (λ y. eq (key x) (key y) ≡ false) xs
          (λ y i.
            All-In (λ k. eq (key x) k ≡ false) seen apart
              (All-In (λ z. In (key z) seen) xs v.remembered i)) in
      record {
        short = omega (arith, length-take n (x ∷ xs));
        distinct = IsDistinct-take (λ a b. eq (key a) (key b)) n (x ∷ xs) (fresh, v.distinct);
        remembered =
            All-take (λ a. In (key a) (key x ∷ seen)) n (x ∷ xs)
              (here, seen_more key (key x) seen xs v.remembered);
      }

abbrev pub event_id : EventEntry → Value
event_id e = e.msg.msg_id

abbrev pub incident_key : Incident → String
incident_key i = i.key

abbrev pub is_key : String → String → Bool
is_key k j = j =ₛ k

pub record IsFeed (s : State) : Type 0 where
  pub events : IsShownList max_events strict_eq event_id s.seen_msg_ids s.events
  pub incidents : IsShownList max_incidents is_key incident_key s.seen_incident_keys s.incidents
  pub alerts : length s.alerts ≤ max_alerts
  pub timers : All (λ (a : Alert). In a.ts s.expiries) s.alerts

push_incident-IsFeed : (i : Incident) (s : State) → IsFeed s → IsFeed (push_incident i s)
unfolding push_incident
push_incident-IsFeed i s v =
    elim (Bool-cases (i.key =ₛ "" || has_text i.key s.seen_incident_keys)) [
      | inl e ↦ rw e v
      | inr e ↦ rw e (record {
        events = v.events;
        incidents =
            show_new max_incidents is_key incident_key i s.seen_incident_keys s.incidents
              (ground arith) v.incidents;
        alerts = v.alerts;
        timers = v.timers;
      })
    ]

push_alert-IsFeed : (a : Alert) (s : State) → IsFeed s → IsFeed (push_alert a s)
unfolding push_alert
push_alert-IsFeed a s v = record {
  events = v.events;
  incidents = v.incidents;
  alerts = omega (arith, length-take max_alerts (a ∷ s.alerts));
  timers =
      All-take (λ (b : Alert). In b.ts (a.ts ∷ s.expiries)) max_alerts (a ∷ s.alerts)
        (here, seen_more (λ (b : Alert). b.ts) a.ts s.expiries s.alerts v.timers);
}

drop_first-In : (ts t : ℕ) (xs : List ℕ) → (t == ts) ≡ false → In t xs → In t (drop_first ts xs)
unfolding drop_first
drop_first-In ts t [] ne i = i
drop_first-In ts t (x ∷ xs) ne i = elim (Bool-cases (x == ts)) [
  | inl e ↦ elim (In-cons i) [ inl same ↦ ground arith | inr j ↦ rw e j ]
  | inr e ↦ elim (In-cons i) [
    | inl same ↦ rw (e, same) here
    | inr j ↦ rw e (there (drop_first-In ts t xs ne j))
  ]
]

length-filter : {A : Type 0} (p : A → Bool) (xs : List A) → length (filter p xs) ≤ length xs
unfolding filter
length-filter p [] = omega arith
length-filter p (x ∷ xs) = ground (arith, length-filter p xs)

alert_expires-IsFeed : (ts : ℕ) (s : State) → IsFeed s → IsFeed (alert_expires ts s)
unfolding alert_expires
alert_expires-IsFeed ts s v =
    either_branch IsFeed (any (λ t. t == ts) s.expiries) _ s
      (record {
        events = v.events;
        incidents = v.incidents;
        alerts = omega (arith, length-filter (is_other_ts ts) s.alerts, v.alerts);
        timers =
            All-of-In (λ (a : Alert). In a.ts (drop_first ts s.expiries))
              (filter (is_other_ts ts) s.alerts)
              (λ a i.
                let (j, o) = In-filter (is_other_ts ts) s.alerts i in
                drop_first-In ts a.ts s.expiries (ground (arith, o))
                  (All-In (λ (b : Alert). In b.ts s.expiries) s.alerts v.timers j));
      })
      v

record SameFeed (s t : State) : Type 0 where
  events : t.events ≡ s.events
  incidents : t.incidents ≡ s.incidents
  alerts : t.alerts ≡ s.alerts
  expiries : t.expiries ≡ s.expiries
  ids : t.seen_msg_ids ≡ s.seen_msg_ids
  keys : t.seen_incident_keys ≡ s.seen_incident_keys

IsFeed-of-Same : {s t : State} → SameFeed s t → IsFeed s → IsFeed t
IsFeed-of-Same d v = record {
  events = rw (d.events, d.ids) v.events;
  incidents = rw (d.incidents, d.keys) v.incidents;
  alerts = rw d.alerts v.alerts;
  timers = rw (d.alerts, d.expiries) v.timers;
}

-- Noting a delay changes neither the events nor their keys, and keeps the rest.
note_delay-IsFeed :
    (env : Env) (m : MqttMessage) (now delay : ℕ) (s : State)
    → IsFeed s
    → IsFeed (note_delay env m now delay s)
unfolding note_delay note_buffered
note_delay-IsFeed env m now delay s v =
    either_branch IsFeed (leb buffered_event_threshold_ms delay) _ s
      (either_branch IsFeed
        (leb buffered_incident_cooldown_ms (now - last_seen (cooldown_key m) s.buffered_seen_at)) _
        s
        (push_incident-IsFeed (buffered_incident env m now delay) _ (record {
          events = v.events;
          incidents = v.incidents;
          alerts = v.alerts;
          timers = v.timers;
        }))
        v)
      v

pub note_delay-events :
    (env : Env) (m : MqttMessage) (now delay : ℕ) (s : State)
    → (note_delay env m now delay s).events ≡ s.events
      × ((note_delay env m now delay s).seen_msg_ids ≡ s.seen_msg_ids)
unfolding note_delay note_buffered push_incident
note_delay-events env m now delay s = ground arith

sees-IsFeed : (i : Value) (s : State) → IsFeed s → IsFeed (sees i s)
sees-IsFeed i s v = record {
  events = remember max_events strict_eq event_id i s.seen_msg_ids s.events v.events;
  incidents = v.incidents;
  alerts = v.alerts;
  timers = v.timers;
}

module _ (env : Env) where
  apply-Same : (t : Table) (s : State) → SameFeed s (apply_presentation_topology env t s)
  unfolding apply_presentation_topology
  apply-Same t s = ground arith

  refresh-Same : (s : State) → SameFeed s (refresh_visible_topology env s)
  unfolding refresh_visible_topology
  refresh-Same s = ground arith

  shows_event-IsFeed :
      (m : MqttMessage) (topic : String) (now : ℕ) (s : State)
      → has_value m.msg_id s.seen_msg_ids ≡ false
      → IsFeed s
      → IsFeed (
          push_event env
            (event_entry env m topic now)
            (note_delay env m now (event_entry env m topic now).delay_ms (sees m.msg_id s)))
  unfolding push_event
  shows_event-IsFeed m topic now s new v =
      let e = event_entry env m topic now in
      let w = note_delay-IsFeed env m now e.delay_ms (sees m.msg_id s) (sees-IsFeed m.msg_id s v) in
      let same = note_delay-events env m now e.delay_ms (sees m.msg_id s) in
      record {
        events =
            rw (same.0, same.1)
              (show_new max_events strict_eq event_id e s.seen_msg_ids s.events new v.events);
        incidents = w.incidents;
        alerts = w.alerts;
        timers = w.timers;
      }

  Move-IsFeed : {s t : State} → Move env s t → IsFeed s → IsFeed t
  Move-IsFeed (links _ _ _ _ _ _ _) v = record {
    events = v.events;
    incidents = v.incidents;
    alerts = v.alerts;
    timers = v.timers;
  }
  Move-IsFeed {s} (notes i) v = push_incident-IsFeed i s v
  Move-IsFeed {s} (alerts a) v = push_alert-IsFeed a s v
  Move-IsFeed {s} (times_out ts) v = alert_expires-IsFeed ts s v
  Move-IsFeed {s} (sees_id i) v = sees-IsFeed i s v
  Move-IsFeed {s} (shows_event m topic now new) v = shows_event-IsFeed m topic now s new v
  Move-IsFeed {s} (applies t) v = IsFeed-of-Same (apply-Same t s) v
  Move-IsFeed {s} refreshes v = IsFeed-of-Same (refresh-Same s) v
  Move-IsFeed {s} (hides h) v =
      IsFeed-of-Same (refresh-Same (hides_more h s)) (record {
        events = v.events;
        incidents = v.incidents;
        alerts = v.alerts;
        timers = v.timers;
      })

  Moves-IsFeed : {s t : State} → Moves env s t → IsFeed s → IsFeed t
  Moves-IsFeed stay v = v
  Moves-IsFeed (more m n) v = Move-IsFeed n (Moves-IsFeed m v)

  -- After any events, at most 50 events, 20 alerts and 12 incidents are shown; no two events have
  -- one message id and no two incidents one key, so that redelivered messages show once; and every
  -- alert has a timer that is going to remove it.
  pub run-IsFeed : (url : String) (es : List Event) → IsFeed (run env (initial url) es)
  unfolding run
  run-IsFeed url es = from (initial url) es empty
    where
      empty : IsFeed (initial url)
      empty = record {
        events = record { short = omega arith; distinct = tt; remembered = tt };
        incidents = record { short = omega arith; distinct = tt; remembered = tt };
        alerts = omega arith;
        timers = tt;
      }

      from : (s : State) (es : List Event) → IsFeed s → IsFeed (run env s es)
      from s [] v = v
      from s (e ∷ es) v = from (step env s e) es (Moves-IsFeed (step-Moves env s e) v)
