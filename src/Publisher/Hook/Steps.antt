-- ===== src/Publisher/Hook/Steps.antt =====
-- Every step of the hook keeps its connection sound.
use io_t_midterm_availabilit.Base.{
  ℕ, ◌≡◌, refl, ◌≢◌, inl, inr, String, Bool, true, false, Option, none, some, List, [], ◌∷◌, arith,
  All, eq_iff, Bool-cases,
}
use io_t_midterm_availabilit.Publisher.Ct.{Ct}
use io_t_midterm_availabilit.Publisher.Message.{Args, Message, build_message, build_topic}
use io_t_midterm_availabilit.Js.Url.{Url}
use io_t_midterm_availabilit.Publisher.Selection.{should_accept_ct_update}
use io_t_midterm_availabilit.Publisher.Hook.State.{
  queued, State, Client, Entry, Pending, Timer, failover, primary_retry, initial,
  reconnect_delay_ms,
}
use io_t_midterm_availabilit.Publisher.Hook.Queue.{upsert_event, queue_publish, put_back}
use io_t_midterm_availabilit.Publisher.Hook.Connection.{
  destroy_client, connect, disconnect, unmount, decide_after_ct, handle_ct_message, resolve_primary,
  remember_preferred_core, store_ct,
}
use io_t_midterm_availabilit.Publisher.Hook.Delivery.{
  publish, publish_timeout, publish_result, timed_out, acknowledged, publish_entry, publish_offline,
  publish_online, publish_built, is_connecting, without_pending, flush_to, flush_found,
  should_suppress_duplicate_publish, build_publish_attempt_key, flush_queue, flush_all, flush_one,
  flush_result, mark_broker_activity, lose_unless,
}
use io_t_midterm_availabilit.Publisher.Hook.Step.{
  ClientEvent, connects_at, link_down, offline, errored, closed, ct, other, packet, Event,
  user_connects, user_disconnects, unmounts, user_publishes, from_client, reconnect_timer,
  health_timer, publish_timer, published, flushed_one, client_step, to_client, timer_fires, step,
}
use io_t_midterm_availabilit.Publisher.Hook.Frame.{put_back-Frame}
use io_t_midterm_availabilit.Publisher.Hook.Liveness.{
  Attached, IsAlive, IsSound, IsSound-of-Frame, handle_connection_loss-IsSound,
  connect_to_broker-empty, connect_to_broker-IsSound, attempt_failover-IsSound,
}

-- What a table update stores before the decision.
record SameLink (s t : State) : Type 0 where
  manual : t.manual_disconnect ≡ s.manual_disconnect
  primary : t.primary_url ≡ s.primary_url
  status : t.status ≡ s.status
  client : t.client ≡ s.client
  timer : t.timer ≡ s.timer
  fallback : t.on_fallback ≡ s.on_fallback
  active : t.active_url ≡ s.active_url

remember-SameLink : (s : State) → SameLink s (remember_preferred_core s)
unfolding remember_preferred_core
remember-SameLink s = ground arith

resolve-SameLink : (s : State) → SameLink s (resolve_primary s)
unfolding resolve_primary
resolve-SameLink s = ground arith

stored-SameLink :
    (next : Ct) (s : State)
    → SameLink s (resolve_primary (remember_preferred_core (store_ct next s)))
stored-SameLink next s = ground (
  arith,
  remember-SameLink (store_ct next s),
  resolve-SameLink (remember_preferred_core (store_ct next s)),
)

SameLink-IsSound : (s t : State) → SameLink s t → s.primary_url ≢ "" → IsSound s → IsSound t
SameLink-IsSound s t l p v = ground arith

decide_after_ct-IsSound :
    (s : State)
    → s.manual_disconnect ≡ false
    → s.primary_url ≢ ""
    → IsSound s
    → IsSound (decide_after_ct s)
unfolding decide_after_ct
decide_after_ct-IsSound s m p v = ground (
  arith,
  attempt_failover-IsSound s,
  connect_to_broker-IsSound s.primary_url (record s { on_fallback = false }),
)

handle_ct_message-IsSound :
    (table : Option Ct) (s : State)
    → s.manual_disconnect ≡ false
    → s.primary_url ≢ ""
    → IsSound s
    → IsSound (handle_ct_message table s)
unfolding handle_ct_message
handle_ct_message-IsSound none s m p v = v
handle_ct_message-IsSound (some next) s m p v =
    elim (Bool-cases (should_accept_ct_update s.ct (some next))) [
      | inl e ↦
          let l = stored-SameLink next s in
          simp e
            (decide_after_ct-IsSound _ (ground arith) (ground arith) (SameLink-IsSound s _ l p v))
      | inr e ↦ simp e v
    ]

lose_unless-IsSound : (b : Bool) (s : State) → IsSound s → IsSound (lose_unless b s)
lose_unless-IsSound b s v = ground (arith, handle_connection_loss-IsSound 0 s)

-- Flushing only moves entries, and publishing over a live client only adds one.
flush_all-Same : (n : ℕ) (items : List Entry) (s : State) → SameLink s (flush_all n items s)
unfolding flush_all flush_one
flush_all-Same n [] s = ground arith
flush_all-Same n (item ∷ items) s =
    let l = flush_all-Same n items (flush_one n item s) in ground arith

flush_all-table :
    (n : ℕ) (items : List Entry) (s : State)
    → ((flush_all n items s).ct ≡ s.ct)
      × ((flush_all n items s).cached_core_url ≡ s.cached_core_url)
unfolding flush_all flush_one
flush_all-table n [] s = (refl, refl)
flush_all-table n (item ∷ items) s = flush_all-table n items (flush_one n item s)

flush_result-IsSound :
    (id : String) (failed : Bool) (now : ℕ) (s : State)
    → IsSound s
    → IsSound (flush_result id failed now s)
unfolding flush_result flush_found upsert_event mark_broker_activity
flush_result-IsSound id failed now s v = ground arith

flush_queue-IsSound : (s : State) → IsSound s → IsSound (flush_queue s)
unfolding flush_queue flush_to flush_all
flush_queue-IsSound s v = to_queue s.client
  where
    to_queue : (c : Option Client) → IsSound (flush_to c s)
    to_queue none = v
    to_queue (some c) =
        let emptied : State = record s { queue = []; queue_size = 0 } in
        ground
          (arith, flush_all-Same c.serial s.queue emptied, flush_all-table c.serial s.queue emptied)

put_back-IsSound : (e : Entry) (s : State) → IsSound s → IsSound (put_back e s)
put_back-IsSound e s v = IsSound-of-Frame (put_back-Frame e s) v

without_pending-IsSound : (id : String) (s : State) → IsSound s → IsSound (without_pending id s)
without_pending-IsSound id s v = ground arith

timed_out-IsSound :
    (id : String) (p : Option Pending) (s : State) → IsSound s → IsSound (timed_out id p s)
unfolding timed_out
timed_out-IsSound id none s v = v
timed_out-IsSound id (some p) s v =
    let v' =
      lose_unless-IsSound p.was_connecting _
        (without_pending-IsSound id _ (put_back-IsSound p.entry s v)) in
    elim (Bool-cases p.settled) [ inl e ↦ rw e v | inr e ↦ rw e v' ]

acknowledged-IsSound :
    (id : String) (failed : Bool) (now : ℕ) (p : Option Pending) (s : State)
    → IsSound s
    → IsSound (acknowledged id failed now p s)
unfolding acknowledged
acknowledged-IsSound id failed now none s v = v
acknowledged-IsSound id true now (some p) s v =
    lose_unless-IsSound p.was_connecting _
      (put_back-IsSound p.entry _ (without_pending-IsSound id s v))
acknowledged-IsSound id false now (some p) s v =
    unfold upsert_event mark_broker_activity in ground arith

abbrev offline_log : Entry → State → State
offline_log e s = upsert_event (record (e.log) { status = queued }) (queue_publish e s)

publish_offline-IsSound : (e : Entry) (s : State) → IsSound s → IsSound (publish_offline e s)
unfolding publish_offline
publish_offline-IsSound e s v =
    lose_unless-IsSound (is_connecting s.status) (offline_log e s)
      (unfold upsert_event queue_publish in ground arith)

publish_entry-IsSound :
    (c : Option Client) (e : Entry) (now : ℕ) (s : State)
    → IsSound s
    → IsSound (publish_entry c e now s).0
unfolding publish_entry publish_online
publish_entry-IsSound none e now s v = publish_offline-IsSound e s v
publish_entry-IsSound (some c) e now s v = ground (arith, publish_offline-IsSound e s)

publish_built-IsSound :
    (a : Args) (now : ℕ) (m : Option Message) (t : Option String) (s : State)
    → IsSound s
    → IsSound (publish_built a now m t s).0
unfolding publish_built
publish_built-IsSound a now none t s v = v
publish_built-IsSound a now (some m) none s v = v
publish_built-IsSound a now (some m) (some t) s v = publish_entry-IsSound s.client _ now s v

publish-IsSound : (a : Args) (now : ℕ) (s : State) → IsSound s → IsSound (publish a now s).0
unfolding publish
publish-IsSound a now s v =
    let v' =
      publish_built-IsSound a now (build_message a) (build_topic a.type a.building_id a.camera_id)
        (record s { last_attempt = some (record { key = build_publish_attempt_key a; at = now }) })
        (ground arith) in
    elim (Bool-cases
      (should_suppress_duplicate_publish s.last_attempt (build_publish_attempt_key a) now)) [
        | inl e ↦ rw e v
        | inr e ↦ rw e v'
      ]

connect-IsSound :
    (urls : List Url) (s : State)
    → All (λ u. u.href ≢ "") urls
    → IsSound s
    → IsSound (connect urls s)
unfolding connect destroy_client
connect-IsSound [] s h v = ground arith
connect-IsSound (u ∷ us) s h v = connect_to_broker-IsSound u.href _ refl h.0 (inr refl) h.0

disconnect-IsSound : (s : State) → IsSound s → IsSound (disconnect s)
unfolding disconnect
disconnect-IsSound s v = ground arith

unmount-IsSound : (s : State) → IsSound s → IsSound (unmount s)
unfolding unmount
unmount-IsSound s v = ground arith

client_step-IsSound :
    (c : Client) (e : ClientEvent) (s : State)
    → s.client ≡ some c
    → IsSound s
    → IsSound (client_step c e s)
unfolding client_step
client_step-IsSound c (connects_at now) s h v =
    flush_queue-IsSound _ (unfold mark_broker_activity in ground arith)
client_step-IsSound c link_down s h v = ground arith
client_step-IsSound c offline s h v = handle_connection_loss-IsSound 0 s v
client_step-IsSound c errored s h v = handle_connection_loss-IsSound 0 s v
client_step-IsSound c closed s h v =
    ground (arith, handle_connection_loss-IsSound reconnect_delay_ms s)
client_step-IsSound c (ct now table) s h v =
    handle_ct_message-IsSound table _ (unfold mark_broker_activity in ground arith)
      (unfold mark_broker_activity in ground arith) (unfold mark_broker_activity in ground arith)
client_step-IsSound c (other now) s h v = unfold mark_broker_activity in ground arith
client_step-IsSound c (packet now) s h v = unfold mark_broker_activity in ground arith

-- The URLs that a user can connect to are not empty.
abbrev pub IsPossible : Event → Type 0
IsPossible (user_connects urls) = All (λ u. u.href ≢ "") urls
IsPossible _ = Unit {0}

to_client-IsSound :
    (n : ℕ) (e : ClientEvent) (c : Option Client) (s : State)
    → s.client ≡ c
    → IsSound s
    → IsSound (to_client n e c s)
to_client-IsSound n e none s h v = v
to_client-IsSound n e (some c) s h v = ground (arith, client_step-IsSound c e s)

timer_fires-IsSound :
    (t : Option Timer) (s : State) → s.timer ≡ t → IsSound s → IsSound (timer_fires t s)
timer_fires-IsSound none s h v = v
timer_fires-IsSound (some (failover d)) s h v = attempt_failover-IsSound _ (ground arith)
timer_fires-IsSound (some primary_retry) s h v = ground (
  arith,
  eq_iff s.primary_url "",
  connect_to_broker-empty s.primary_url (record s { timer = none }),
  connect_to_broker-IsSound s.primary_url (record s { timer = none }),
)

pub step-IsSound : (s : State) (e : Event) → IsPossible e → IsSound s → IsSound (step s e)
unfolding step
step-IsSound s (user_connects urls) h v = connect-IsSound urls s h v
step-IsSound s user_disconnects h v = disconnect-IsSound s v
step-IsSound s unmounts h v = unmount-IsSound s v
step-IsSound s (user_publishes a now) h v = publish-IsSound a now s v
step-IsSound s (from_client n e) h v = to_client-IsSound n e s.client s refl v
step-IsSound s reconnect_timer h v = timer_fires-IsSound s.timer s refl v
step-IsSound s (health_timer now) h v = ground (arith, handle_connection_loss-IsSound 0 s)
step-IsSound s (publish_timer id) h v = unfold publish_timeout in timed_out-IsSound id _ s v
step-IsSound s (published id failed now) h v =
    unfold publish_result in acknowledged-IsSound id failed now _ s v
step-IsSound s (flushed_one id failed now) h v = flush_result-IsSound id failed now s v

-- The states that the hook can reach, from its initial state by any sequence of possible events.
pub data Reach : State → Type 0 where
  start : Reach initial
  next : {s : State} → Reach s → (e : Event) → IsPossible e → Reach (step s e)

initial-IsSound : IsSound initial
initial-IsSound = ground arith

Reach-IsSound : {s : State} → Reach s → IsSound s
Reach-IsSound start = initial-IsSound
Reach-IsSound (next {s} r e p) = step-IsSound s e p (Reach-IsSound r)

-- The publisher is never stuck: in every reachable state in which the user wants a connection (no
-- disconnect or unmount since, and a primary URL set by a connect that was not rejected), there is
-- a client or a timer that is going to make one.
pub Reach-IsAlive : {s : State} → Reach s → IsAlive s
Reach-IsAlive r = (Reach-IsSound r).alive

-- After a disconnect by the user or an unmount, and until the next connect, there is no client and
-- no reconnect timer, in every reachable state.
pub Reach-parked :
    {s : State} → Reach s → s.manual_disconnect ≡ true → (s.client ≡ none) × (s.timer ≡ none)
Reach-parked r m = let v = (Reach-IsSound r).kept in ground arith

-- A client always goes to the URL that the hook shows as active; without the fallback mark that is
-- the primary's URL.
pub Reach-Attached : {s : State} → Reach s → Attached s s.client
Reach-Attached r = (Reach-IsSound r).kept.attached
