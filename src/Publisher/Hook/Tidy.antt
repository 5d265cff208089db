-- ===== src/Publisher/Hook/Tidy.antt =====
-- The log and the queue over all histories of the hook.
use io_t_midterm_availabilit.Base.{◌≡◌, ◌≢◌, false, List, [], ◌∷◌, arith, All, All-append, length}
use io_t_midterm_availabilit.Publisher.Hook.State.{State, LogEntry, Entry, Pending, unset, flushed}
use io_t_midterm_availabilit.Publisher.Hook.Queue.{
  upsert_event, push_bounded, queue_publish, put_back, requeue, requeue_all, clear_pending_queue,
}
use io_t_midterm_availabilit.Publisher.Hook.Log.{IsLog, upsert-IsLog}

abbrev pub IsUnset : Entry → Type 0
IsUnset e = e.log.status ≡ unset

-- A pending publish that is neither settled nor queued.
abbrev pub IsOpen : Pending → Type 0
IsOpen p = IsUnset p.entry × (p.settled ≡ false) × (p.queued ≡ false)

pub record IsTidy (s : State) : Type 0 where
  pub log : IsLog s.events
  pub counted : s.queue_size ≡ length s.queue
  pub unset_queue : All IsUnset s.queue
  pub unset_flushing : All IsUnset s.flushing
  pub open_pending : All IsOpen s.pending

-- The same log, queue and pending publishes.
pub record SameDelivery (s t : State) : Type 0 where
  pub events : t.events ≡ s.events
  pub size : t.queue_size ≡ s.queue_size
  pub queue : t.queue ≡ s.queue
  pub flushing : t.flushing ≡ s.flushing
  pub pending : t.pending ≡ s.pending

pub IsTidy-of-Same : {s t : State} → SameDelivery s t → IsTidy s → IsTidy t
IsTidy-of-Same d v = ground arith

pub upsert_event-IsTidy :
    (l : LogEntry) (s : State) → l.status ≢ flushed → IsTidy s → IsTidy (upsert_event l s)
unfolding upsert_event
upsert_event-IsTidy l s ne v = ground (arith, upsert-IsLog l s.events)

push_bounded-All :
    (P : Entry → Type 0) (e : Entry) (q : List Entry) → P e → All P q → All P (push_bounded e q)
unfolding push_bounded
push_bounded-All P e [] p h = (p, tt)
push_bounded-All P e (x ∷ q) p h =
    ground (arith, All-append P (x ∷ q) (e ∷ []), All-append P q (e ∷ []))

pub queue_publish-IsTidy :
    (e : Entry) (s : State) → IsUnset e → IsTidy s → IsTidy (queue_publish e s)
unfolding queue_publish
queue_publish-IsTidy e s u v = ground (arith, push_bounded-All IsUnset e s.queue u v.unset_queue)

pub put_back-IsTidy : (e : Entry) (s : State) → IsUnset e → IsTidy s → IsTidy (put_back e s)
unfolding put_back
put_back-IsTidy e s u v = upsert_event-IsTidy _ _ (λ h. cc) (queue_publish-IsTidy e s u v)

requeue_all-IsTidy :
    (ps : List Pending) (s : State) → All IsOpen ps → IsTidy s → IsTidy (requeue_all ps s)
unfolding requeue_all requeue
requeue_all-IsTidy [] s h v = v
requeue_all-IsTidy (p ∷ ps) s (o, h) v =
    rw (o.1, o.2) (requeue_all-IsTidy ps _ h (put_back-IsTidy p.entry s o.0 v))

pub clear_pending_queue-IsTidy : (s : State) → IsTidy s → IsTidy (clear_pending_queue s)
unfolding clear_pending_queue
clear_pending_queue-IsTidy s v = requeue_all-IsTidy s.pending _ v.open_pending (ground arith)
