-- ===== src/Publisher/Hook/Frame.antt =====
-- The queue operations of the hook leave its connection alone.
use io_t_midterm_availabilit.Base.{◌≡◌, List, [], ◌∷◌, arith}
use io_t_midterm_availabilit.Publisher.Hook.State.{State, Entry, Pending}
use io_t_midterm_availabilit.Publisher.Hook.Queue.{
  upsert_event, queue_publish, put_back, requeue, requeue_all, clear_pending_queue,
}

-- The same in every field that connecting and failing over read.
pub record Frame (s t : State) : Type 0 where
  pub manual : t.manual_disconnect ≡ s.manual_disconnect
  pub primary : t.primary_url ≡ s.primary_url
  pub status : t.status ≡ s.status
  pub client : t.client ≡ s.client
  pub timer : t.timer ≡ s.timer
  pub fallback : t.on_fallback ≡ s.on_fallback
  pub active : t.active_url ≡ s.active_url
  pub table : t.ct ≡ s.ct
  pub cached : t.cached_core_url ≡ s.cached_core_url
  pub serial : t.next_serial ≡ s.next_serial
  pub calls : t.calls ≡ s.calls

pub Frame-refl : (s : State) → Frame s s
Frame-refl s = ground arith

pub Frame-trans : {s t u : State} → Frame s t → Frame t u → Frame s u
Frame-trans f g = ground arith

pub put_back-Frame : (e : Entry) (s : State) → Frame s (put_back e s)
unfolding put_back upsert_event queue_publish
put_back-Frame e s = ground arith

requeue-Frame : (p : Pending) (s : State) → Frame s (requeue p s)
unfolding requeue
requeue-Frame p s = ground (arith, put_back-Frame p.entry s)

requeue_all-Frame : (ps : List Pending) (s : State) → Frame s (requeue_all ps s)
unfolding requeue_all
requeue_all-Frame [] s = Frame-refl s
requeue_all-Frame (p ∷ ps) s = Frame-trans (requeue-Frame p s) (requeue_all-Frame ps (requeue p s))

pub clear_pending_queue-Frame : (s : State) → Frame s (clear_pending_queue s)
unfolding clear_pending_queue
clear_pending_queue-Frame s =
    let f = requeue_all-Frame s.pending (record s { pending = [] }) in ground arith
