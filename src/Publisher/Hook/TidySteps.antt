-- ===== src/Publisher/Hook/TidySteps.antt =====
-- Every step of the hook keeps its log and queue tidy.
use io_t_midterm_availabilit.Base.{
  ℕ, refl, String, Bool, true, false, not, Option, none, some, List, [], ◌∷◌, arith, All,
  All-append, All-In, filter, find, find-In, Bool-cases, Option-cases, inl, inr, ◌=ₛ◌,
}
use io_t_midterm_availabilit.Publisher.Ct.{Ct}
use io_t_midterm_availabilit.Publisher.Message.{Args, Message, build_message, build_topic}
use io_t_midterm_availabilit.Js.Url.{Url}
use io_t_midterm_availabilit.Publisher.Hook.State.{
  State, Client, Entry, Pending, Timer, failover, primary_retry,
}
use io_t_midterm_availabilit.Publisher.Hook.Queue.{clear_pending_discard, has_id, has_pending_id}
use io_t_midterm_availabilit.Publisher.Hook.Connection.{
  connect, disconnect, unmount, destroy_client, connect_to_broker, attempt_failover, fail_over_to,
  to_selected, schedule_primary_retry, schedule_reconnect, handle_connection_loss, decide_after_ct,
  handle_ct_message, resolve_primary, remember_preferred_core,
}
use io_t_midterm_availabilit.Publisher.Hook.Delivery.{
  publish, publish_timeout, publish_result, timed_out, acknowledged, publish_entry, publish_offline,
  publish_online, publish_built, new_entry, flush_to, flush_found, flush_queue, flush_all,
  flush_one, flush_result, mark_broker_activity, lose_unless, is_other_entry, without_pending,
  build_publish_attempt_key,
}
use io_t_midterm_availabilit.Publisher.Hook.Step.{
  ClientEvent, connects_at, link_down, offline, errored, closed, ct, other, packet, Event,
  user_connects, user_disconnects, unmounts, user_publishes, from_client, reconnect_timer,
  health_timer, publish_timer, published, flushed_one, client_step, step, to_client, timer_fires,
}
use io_t_midterm_availabilit.Publisher.Hook.Tidy.{
  IsUnset, IsOpen, IsTidy, SameDelivery, IsTidy-of-Same, upsert_event-IsTidy, queue_publish-IsTidy,
  put_back-IsTidy, clear_pending_queue-IsTidy,
}
use io_t_midterm_availabilit.Publisher.Hook.Steps.{Reach, start, next}

-- Connecting and failing over leave the log and the queue alone.
destroy_client-Same : (s : State) → SameDelivery s (destroy_client s)
unfolding destroy_client
destroy_client-Same s = ground arith

connect_to_broker-Same : (url : String) (s : State) → SameDelivery s (connect_to_broker url s)
unfolding connect_to_broker destroy_client
connect_to_broker-Same url s = ground arith

fail_over_to-Same : (url : String) (s : State) → SameDelivery s (fail_over_to url s)
unfolding fail_over_to
fail_over_to-Same url s =
    ground
      (arith, connect_to_broker-Same url (record s { on_fallback = not (url =ₛ s.primary_url) }))

attempt_failover-Same : (s : State) → SameDelivery s (attempt_failover s)
unfolding attempt_failover to_selected schedule_primary_retry
attempt_failover-Same s = grind (arith, fail_over_to-Same)

decide_after_ct-Same : (s : State) → SameDelivery s (decide_after_ct s)
unfolding decide_after_ct
decide_after_ct-Same s = ground (
  arith,
  attempt_failover-Same s,
  connect_to_broker-Same s.primary_url (record s { on_fallback = false }),
)

handle_ct_message-Same :
    (table : Option Ct) (s : State) → SameDelivery s (handle_ct_message table s)
unfolding handle_ct_message resolve_primary remember_preferred_core
handle_ct_message-Same none s = ground arith
handle_ct_message-Same (some table) s = grind (arith, decide_after_ct-Same)

handle_connection_loss-IsTidy : (d : ℕ) (s : State) → IsTidy s → IsTidy (handle_connection_loss d s)
unfolding handle_connection_loss schedule_reconnect destroy_client
handle_connection_loss-IsTidy d s v = ground (arith, clear_pending_queue-IsTidy s v)

lose_unless-IsTidy : (b : Bool) (s : State) → IsTidy s → IsTidy (lose_unless b s)
lose_unless-IsTidy b s v = ground (arith, handle_connection_loss-IsTidy 0 s)

filter-All {ℓ} :
    {A : Type ℓ} (P : A → Type 0) (p : A → Bool) (xs : List A) → All P xs → All P (filter p xs)
unfolding filter
filter-All P p [] h = tt
filter-All P p (x ∷ xs) (h, hs) = elim (Bool-cases (p x)) [
  | inl e ↦ rw e (h, filter-All P p xs hs)
  | inr e ↦ rw e (filter-All P p xs hs)
]

flush_all-IsTidy :
    (n : ℕ) (items : List Entry) (s : State)
    → All IsUnset items
    → IsTidy s
    → IsTidy (flush_all n items s)
unfolding flush_all flush_one
flush_all-IsTidy n [] s h v = v
flush_all-IsTidy n (x ∷ xs) s (h, hs) v = flush_all-IsTidy n xs (flush_one n x s) hs (ground arith)

flush_queue-IsTidy : (s : State) → IsTidy s → IsTidy (flush_queue s)
unfolding flush_queue flush_to
flush_queue-IsTidy s v = to_client_queue s.client
  where
    to_client_queue : (c : Option Client) → IsTidy (flush_to c s)
    to_client_queue none = v
    to_client_queue (some c) = ground (
      arith,
      flush_all-IsTidy c.serial s.queue (record s { queue = []; queue_size = 0 }) v.unset_queue,
    )

flush_result-IsTidy :
    (id : String) (failed : Bool) (now : ℕ) (s : State)
    → IsTidy s
    → IsTidy (flush_result id failed now s)
unfolding flush_result
flush_result-IsTidy id failed now s v = elim (Option-cases (find (has_id id) s.flushing)) [
  | inl e ↦ simp e (unfold flush_found in v)
  | inr (item, e) ↦
      simp e (found item (All-In IsUnset s.flushing v.unset_flushing (find-In _ _ e).0) failed)
]
  where
    kept : State
    kept = record s { flushing = filter (is_other_entry id) s.flushing }

    kept_tidy : IsTidy kept
    kept_tidy = record {
      log = v.log;
      counted = v.counted;
      unset_queue = v.unset_queue;
      unset_flushing = filter-All IsUnset _ s.flushing v.unset_flushing;
      open_pending = v.open_pending;
    }

    found : (item : Entry) → IsUnset item → (b : Bool) → IsTidy (flush_found b now id (some item) s)
    found item u true =
        unfold flush_found in upsert_event-IsTidy _ _ (λ h. cc) (ground (arith, kept_tidy))
    found item u false =
        unfold flush_found mark_broker_activity in
        upsert_event-IsTidy _ _ (ground (arith, u)) (ground (arith, kept_tidy))

without_pending-IsTidy : (id : String) (s : State) → IsTidy s → IsTidy (without_pending id s)
without_pending-IsTidy id s v = record {
  log = v.log;
  counted = v.counted;
  unset_queue = v.unset_queue;
  unset_flushing = v.unset_flushing;
  open_pending = filter-All IsOpen _ s.pending v.open_pending;
}

timed_out-IsTidy :
    (id : String) (p : Pending) (s : State) → IsOpen p → IsTidy s → IsTidy (timed_out id (some p) s)
unfolding timed_out
timed_out-IsTidy id p s o v = rw (o.1) (
    lose_unless-IsTidy p.was_connecting _
      (without_pending-IsTidy id _ (put_back-IsTidy p.entry s o.0 v)))

pub publish_timeout-IsTidy : (id : String) (s : State) → IsTidy s → IsTidy (publish_timeout id s)
unfolding publish_timeout
publish_timeout-IsTidy id s v = elim (Option-cases (find (has_pending_id id) s.pending)) [
  | inl e ↦ simp e (unfold timed_out in v)
  | inr (p, e) ↦
      simp e (timed_out-IsTidy id p s (All-In IsOpen s.pending v.open_pending (find-In _ _ e).0) v)
]

acknowledged-IsTidy :
    (id : String) (failed : Bool) (now : ℕ) (p : Pending) (s : State)
    → IsOpen p
    → IsTidy s
    → IsTidy (acknowledged id failed now (some p) s)
unfolding acknowledged mark_broker_activity
acknowledged-IsTidy id true now p s o v =
    lose_unless-IsTidy p.was_connecting _
      (put_back-IsTidy p.entry _ o.0 (without_pending-IsTidy id s v))
acknowledged-IsTidy id false now p s o v =
    upsert_event-IsTidy _ _ (λ h. cc) (ground (arith, without_pending-IsTidy id s v))

pub publish_result-IsTidy :
    (id : String) (failed : Bool) (now : ℕ) (s : State)
    → IsTidy s
    → IsTidy (publish_result id failed now s)
unfolding publish_result
publish_result-IsTidy id failed now s v = elim (Option-cases (find (has_pending_id id) s.pending)) [
  | inl e ↦ simp e (unfold acknowledged in v)
  | inr (p, e) ↦ simp e (
      acknowledged-IsTidy id failed now p s
        (All-In IsOpen s.pending v.open_pending (find-In _ _ e).0) v)
]

publish_offline-IsTidy :
    (e : Entry) (s : State) → IsUnset e → IsTidy s → IsTidy (publish_offline e s)
unfolding publish_offline
publish_offline-IsTidy e s u v =
    lose_unless-IsTidy _ _ (upsert_event-IsTidy _ _ (λ h. cc) (queue_publish-IsTidy e s u v))

publish_online-IsTidy :
    (c : Client) (e : Entry) (s : State) → IsUnset e → IsTidy s → IsTidy (publish_online c e s)
unfolding publish_online
publish_online-IsTidy c e s u v = record {
  log = v.log;
  counted = v.counted;
  unset_queue = v.unset_queue;
  unset_flushing = v.unset_flushing;
  open_pending =
      All-append IsOpen _ _ (filter-All IsOpen _ s.pending v.open_pending) ((u, refl, refl), tt);
}

publish_entry-IsTidy :
    (c : Option Client) (e : Entry) (now : ℕ) (s : State)
    → IsUnset e
    → IsTidy s
    → IsTidy (publish_entry c e now s).0
unfolding publish_entry
publish_entry-IsTidy none e now s u v = publish_offline-IsTidy e s u v
publish_entry-IsTidy (some c) e now s u v =
    ground (arith, publish_offline-IsTidy e s u v, publish_online-IsTidy c e s u v)

publish_built-IsTidy :
    (a : Args) (now : ℕ) (m : Option Message) (t : Option String) (s : State)
    → IsTidy s
    → IsTidy (publish_built a now m t s).0
unfolding publish_built new_entry
publish_built-IsTidy a now none t s v = v
publish_built-IsTidy a now (some m) none s v = v
publish_built-IsTidy a now (some m) (some t) s v = publish_entry-IsTidy s.client _ now s refl v

pub publish-IsTidy : (a : Args) (now : ℕ) (s : State) → IsTidy s → IsTidy (publish a now s).0
unfolding publish
publish-IsTidy a now s v = ground (
  arith,
  publish_built-IsTidy a now (build_message a) (build_topic a.type a.building_id a.camera_id)
      (record s { last_attempt = some (record { key = build_publish_attempt_key a; at = now }) }),
)

connect-IsTidy : (urls : List Url) (s : State) → IsTidy s → IsTidy (connect urls s)
unfolding connect destroy_client
connect-IsTidy [] s v = ground arith
connect-IsTidy (u ∷ us) s v = IsTidy-of-Same (connect_to_broker-Same u.href _) (ground arith)

disconnect-IsTidy : (s : State) → IsTidy s → IsTidy (disconnect s)
unfolding disconnect
disconnect-IsTidy s v = ground arith

unmount-IsTidy : (s : State) → IsTidy s → IsTidy (unmount s)
unfolding unmount clear_pending_discard
unmount-IsTidy s v = ground arith

client_step-IsTidy :
    (c : Client) (e : ClientEvent) (s : State) → IsTidy s → IsTidy (client_step c e s)
unfolding client_step mark_broker_activity
client_step-IsTidy c (connects_at now) s v = flush_queue-IsTidy _ (ground arith)
client_step-IsTidy c link_down s v = ground arith
client_step-IsTidy c offline s v = handle_connection_loss-IsTidy 0 s v
client_step-IsTidy c errored s v = handle_connection_loss-IsTidy 0 s v
client_step-IsTidy c closed s v = ground (arith, handle_connection_loss-IsTidy 1500 s v)
client_step-IsTidy c (ct now table) s v =
    IsTidy-of-Same (handle_ct_message-Same table _) (ground arith)
client_step-IsTidy c (other now) s v = ground arith
client_step-IsTidy c (packet now) s v = ground arith

to_client-IsTidy :
    (n : ℕ) (e : ClientEvent) (c : Option Client) (s : State)
    → IsTidy s
    → IsTidy (to_client n e c s)
to_client-IsTidy n e none s v = v
to_client-IsTidy n e (some c) s v = ground (arith, client_step-IsTidy c e s v)

timer_fires-IsTidy : (t : Option Timer) (s : State) → IsTidy s → IsTidy (timer_fires t s)
timer_fires-IsTidy none s v = v
timer_fires-IsTidy (some (failover d)) s v = IsTidy-of-Same (attempt_failover-Same _) (ground arith)
timer_fires-IsTidy (some primary_retry) s v =
    ground (arith, connect_to_broker-Same s.primary_url (record s { timer = none }))

pub step-IsTidy : (s : State) (e : Event) → IsTidy s → IsTidy (step s e)
unfolding step
step-IsTidy s (user_connects urls) v = connect-IsTidy urls s v
step-IsTidy s user_disconnects v = disconnect-IsTidy s v
step-IsTidy s unmounts v = unmount-IsTidy s v
step-IsTidy s (user_publishes a now) v = publish-IsTidy a now s v
step-IsTidy s (from_client n e) v = to_client-IsTidy n e s.client s v
step-IsTidy s reconnect_timer v = timer_fires-IsTidy s.timer s v
step-IsTidy s (health_timer now) v = ground (arith, handle_connection_loss-IsTidy 0 s v)
step-IsTidy s (publish_timer id) v = publish_timeout-IsTidy id s v
step-IsTidy s (published id failed now) v = publish_result-IsTidy id failed now s v
step-IsTidy s (flushed_one id failed now) v = flush_result-IsTidy id failed now s v

-- In every reachable state the log has at most 30 entries, one for each message, and none with the
-- status `flushed`; the queue size shown is the queue's length; and every pending publish is
-- neither settled nor queued.
pub Reach-IsTidy : {s : State} → Reach s → IsTidy s
Reach-IsTidy start = ground arith
Reach-IsTidy (next {s} r e p) = step-IsTidy s e (Reach-IsTidy r)
