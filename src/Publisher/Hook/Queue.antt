-- ===== src/Publisher/Hook/Queue.antt =====
-- usePublisher.js: the event log, the offline queue, and the return of unacknowledged publishes to
-- the queue.
use io_t_midterm_availabilit.Base.{
  String, Bool, not, ◌||◌, List, [], ◌∷◌, ◌++◌, length, take, drop, any, filter, leb, ◌=ₛ◌,
  if◌then◌else◌,
}
use io_t_midterm_availabilit.Publisher.Hook.State.{
  State, LogEntry, queued, Entry, entry_id, Pending, max_log, max_queue,
}

-- `trimEventLog([entry, ...prev.filter(…)])`
abbrev pub is_other_log : String → LogEntry → Bool
is_other_log id item = not (item.msg.msg_id =ₛ id)

unfoldable pub upsert : LogEntry → List LogEntry → List LogEntry
upsert entry prev = take max_log (entry ∷ filter (is_other_log entry.msg.msg_id) prev)

unfoldable pub upsert_event : LogEntry → State → State
upsert_event entry s = record s { events = upsert entry s.events }

abbrev pub has_id : String → Entry → Bool
has_id id item = entry_id item =ₛ id

-- `shift` where the queue is full, then `push`.
unfoldable pub push_bounded : Entry → List Entry → List Entry
push_bounded entry queue =
    if leb max_queue (length queue) then drop 1 queue ++ entry ∷ [] else queue ++ entry ∷ []

unfoldable pub enqueue : Entry → List Entry → List Entry
enqueue entry queue =
    if any (has_id (entry_id entry)) queue then queue else push_bounded entry queue

-- `queuePublish` without its Boolean result, which is only stored in an entry that has left the
-- map of pending publishes.
unfoldable pub queue_publish : Entry → State → State
queue_publish entry s = if any (has_id (entry_id entry)) s.queue then s else record s {
  queue = push_bounded entry s.queue;
  queue_size = length (push_bounded entry s.queue);
}

abbrev pub or_text : String → String → String
or_text a b = if a =ₛ "" then b else a

-- The log line of an entry that goes back to the queue.
abbrev pub queued_log : State → Entry → LogEntry
queued_log s entry = record (entry.log) {
  status = queued;
  broker_url = or_text s.active_url entry.log.broker_url;
  sent_at = entry.sent_at;
}

-- `queuePublish(entry)` and the `upsertEvent` behind it.
unfoldable pub put_back : Entry → State → State
put_back entry s = upsert_event (queued_log s entry) (queue_publish entry s)

-- One entry in `clearPendingPublishes('queue')`.
unfoldable pub requeue : Pending → State → State
requeue p s = if p.settled || p.queued then s else put_back p.entry s

unfoldable pub requeue_all : List Pending → State → State
requeue_all [] s = s
requeue_all (p ∷ ps) s = requeue_all ps (requeue p s)

unfoldable pub clear_pending_queue : State → State
clear_pending_queue s = requeue_all s.pending (record s { pending = [] })

unfoldable pub clear_pending_discard : State → State
clear_pending_discard s = record s { pending = [] }

abbrev pub has_pending_id : String → Pending → Bool
has_pending_id id p = pending_id p =ₛ id
  where
    pending_id : Pending → String
    pending_id q = entry_id q.entry
