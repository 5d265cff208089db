-- ===== src/Publisher/Hook/Offline.antt =====
-- The offline queue: what `queuePublish` and `clearPendingPublishes` do to it.
use io_t_midterm_availabilit.Base.{
  ℕ, ◌+◌, ◌≤◌, ◌<◌, ◌≡◌, ◌≢◌, inl, inr, refl, sym, ap, subst, ◌∙◌, String, false, List, [], ◌∷◌,
  ◌++◌, arith, All, length, length-append, any, leb, map, Bool-cases, eq_iff,
}
use mathlib.Core.List.{append_assoc, append-nil}
use io_t_midterm_availabilit.Publisher.Hook.State.{State, Entry, entry_id, Pending, max_queue}
use io_t_midterm_availabilit.Publisher.Hook.Queue.{
  has_id, push_bounded, queue_publish, upsert_event, put_back, requeue, requeue_all,
  clear_pending_queue,
}
use io_t_midterm_availabilit.Publisher.Hook.Tidy.{IsOpen}
use io_t_midterm_availabilit.Publisher.Hook.Connection.{
  handle_connection_loss, destroy_client, schedule_reconnect,
}

abbrev pub IsAbsent : String → List Entry → Type 0
IsAbsent id = All λ e. entry_id e ≢ id

abbrev pub HasDistinctEntries : List Entry → Type 0
HasDistinctEntries [] = Unit {0}
HasDistinctEntries (e ∷ es) = IsAbsent (entry_id e) es × HasDistinctEntries es

any-IsAbsent : (id : String) (q : List Entry) → any (has_id id) q ≡ false → IsAbsent id q
unfolding any
any-IsAbsent id [] h = tt
any-IsAbsent id (e ∷ q) h = ground (arith, eq_iff (entry_id e) id, any-IsAbsent id q)

IsAbsent-any : (id : String) (q : List Entry) → IsAbsent id q → any (has_id id) q ≡ false
unfolding any
IsAbsent-any id [] h = refl
IsAbsent-any id (e ∷ q) h = ground (arith, eq_iff (entry_id e) id, IsAbsent-any id q)

IsAbsent-push :
    (id : String) (e : Entry) (q : List Entry)
    → IsAbsent id q
    → entry_id e ≢ id
    → IsAbsent id (q ++ e ∷ [])
IsAbsent-push id e [] h n = (n, tt)
IsAbsent-push id e (x ∷ q) h n = (h.0, IsAbsent-push id e q h.1 n)

distinct_push :
    (e : Entry) (q : List Entry)
    → IsAbsent (entry_id e) q
    → HasDistinctEntries q
    → HasDistinctEntries (q ++ e ∷ [])
distinct_push e [] a d = (tt, tt)
distinct_push e (x ∷ q) a d =
    (IsAbsent-push (entry_id x) e q d.0 (λ h. a.0 (sym h)), distinct_push e q a.1 d.1)

distinct_bounded :
    (e : Entry) (q : List Entry)
    → IsAbsent (entry_id e) q
    → HasDistinctEntries q
    → HasDistinctEntries (push_bounded e q)
unfolding push_bounded
distinct_bounded e [] a d = (tt, tt)
distinct_bounded e (x ∷ q) a d =
    ground (arith, distinct_push e (x ∷ q) a d, distinct_push e q a.1 d.1)

-- What `queuePublish` does: nothing where the message is already queued; otherwise the entry goes
-- to the end, and only a full queue gives up its oldest entry for it.
pub data Queued (e : Entry) (q r : List Entry) : Type 0 where
  known : ¬ IsAbsent (entry_id e) q → r ≡ q → Queued e q r
  added : IsAbsent (entry_id e) q → length q < max_queue → r ≡ q ++ e ∷ [] → Queued e q r
  rotated :
      (oldest : Entry) (rest : List Entry)
      → IsAbsent (entry_id e) q
      → max_queue ≤ length q
      → q ≡ oldest ∷ rest
      → r ≡ rest ++ e ∷ []
      → Queued e q r

push_bounded-Queued :
    (e : Entry) (q : List Entry) → IsAbsent (entry_id e) q → Queued e q (push_bounded e q)
unfolding push_bounded
push_bounded-Queued e [] a = added tt (omega arith) refl
push_bounded-Queued e (x ∷ q) a = elim (Bool-cases (leb max_queue (length (x ∷ q)))) [
  | inl h ↦ rotated x q a (ground arith) refl (rw h)
  | inr h ↦ added a (ground arith) (rw h)
]

-- `queuePublish`, for every entry and queue: nothing happens where the message is already queued;
-- otherwise the entry goes to the end, and only a full queue gives up its oldest entry for it.
pub queue_publish-Queued : (e : Entry) (s : State) → Queued e s.queue (queue_publish e s).queue
unfolding queue_publish
queue_publish-Queued e s = elim (Bool-cases (any (has_id (entry_id e)) s.queue)) [
  | inl h ↦ simp h (known (λ a. let f = IsAbsent-any (entry_id e) s.queue a in cc) refl)
  | inr h ↦ simp h (push_bounded-Queued e s.queue (any-IsAbsent (entry_id e) s.queue h))
]

-- A queue within its limit of 100 and with one entry for each message stays so.
pub queue_publish-bounded :
    (e : Entry) (s : State)
    → length s.queue ≤ max_queue
    → HasDistinctEntries s.queue
    → (length (queue_publish e s).queue ≤ max_queue) × HasDistinctEntries (queue_publish e s).queue
unfolding queue_publish
queue_publish-bounded e s b d = by_case (queue_publish-Queued e s)
  where
    by_case :
        Queued e s.queue (queue_publish e s).queue
        → (length (queue_publish e s).queue ≤ max_queue)
          × HasDistinctEntries (queue_publish e s).queue
    by_case (known _ h) = rw h (b, d)
    by_case (added a l h) =
        rw h (omega (arith, length-append s.queue (e ∷ [])), distinct_push e s.queue a d)
    by_case (rotated x rest a l q h) =
        let a' : IsAbsent (entry_id e) (x ∷ rest) = rw q at a in
        let d' : HasDistinctEntries (x ∷ rest) = rw q at d in
        rw h
          (omega (arith, length-append rest (e ∷ []), ap length q), distinct_push e rest a'.1 d'.1)

IsAbsent-of_distinct :
    (q : List Entry) (e : Entry) (r : List Entry)
    → HasDistinctEntries (q ++ e ∷ r)
    → IsAbsent (entry_id e) q
IsAbsent-of_distinct [] e r d = tt
IsAbsent-of_distinct (x ∷ q) e r d = (head_apart q d.0, IsAbsent-of_distinct q e r d.1)
  where
    head_apart : (q : List Entry) → IsAbsent (entry_id x) (q ++ e ∷ r) → entry_id x ≢ entry_id e
    head_apart [] a h = a.0 (sym h)
    head_apart (y ∷ q) a h = head_apart q a.1 h

abbrev pub entries : List Pending → List Entry
entries = map λ p. p.entry

put_back-queue :
    (e : Entry) (s : State)
    → IsAbsent (entry_id e) s.queue
    → length s.queue < max_queue
    → (put_back e s).queue ≡ s.queue ++ e ∷ []
unfolding put_back upsert_event queue_publish push_bounded
put_back-queue e s a l = ground (arith, IsAbsent-any (entry_id e) s.queue a)

requeue_all-pending : (ps : List Pending) (s : State) → (requeue_all ps s).pending ≡ s.pending
unfolding requeue_all requeue put_back upsert_event queue_publish
requeue_all-pending [] s = refl
requeue_all-pending (p ∷ ps) s = ground (arith, requeue_all-pending ps (requeue p s))

-- The queue when all pending publishes are put back, one after another.
requeue_all-queue :
    (ps : List Pending) (s : State)
    → All IsOpen ps
    → length s.queue + length ps ≤ max_queue
    → HasDistinctEntries (s.queue ++ entries ps)
    → (requeue_all ps s).queue ≡ s.queue ++ entries ps
unfolding requeue_all requeue
requeue_all-queue [] s o l d = sym (append-nil s.queue)
requeue_all-queue (p ∷ ps) s o l d =
    let e = p.entry in
    let q : (put_back e s).queue ≡ s.queue ++ e ∷ [] =
      put_back-queue e s (IsAbsent-of_distinct s.queue e (entries ps) d) (omega arith) in
    let joined : s.queue ++ e ∷ entries ps ≡ (put_back e s).queue ++ entries ps =
      rw q (sym (append_assoc s.queue (e ∷ []) (entries ps))) in
    let d' : HasDistinctEntries ((put_back e s).queue ++ entries ps) =
      subst HasDistinctEntries joined d in
    let l' : length (put_back e s).queue + length ps ≤ max_queue =
      omega (arith, ap length q, length-append s.queue (e ∷ [])) in
    rw (o.0.1, o.0.2) (requeue_all-queue ps (put_back e s) o.1 l' d' ∙ sym joined)

-- Nothing is lost with the connection, unless the user has disconnected: where the queue has room
-- for the pending publishes and no message occurs twice, they all end up behind the queued ones,
-- oldest first, and none stays pending. The pending publishes have to be open, which holds in every reachable state.
pub handle_connection_loss-queue :
    (delay : ℕ) (s : State)
    → s.manual_disconnect ≡ false
    → All IsOpen s.pending
    → length s.queue + length s.pending ≤ max_queue
    → HasDistinctEntries (s.queue ++ entries s.pending)
    → ((handle_connection_loss delay s).queue ≡ s.queue ++ entries s.pending)
      × ((handle_connection_loss delay s).pending ≡ [])
unfolding handle_connection_loss clear_pending_queue destroy_client schedule_reconnect
handle_connection_loss-queue delay s m o l d =
    let q = requeue_all-queue s.pending (record s { pending = [] }) o l d in
    let e = requeue_all-pending s.pending (record s { pending = [] }) in ground arith
