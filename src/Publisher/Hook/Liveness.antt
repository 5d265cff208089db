-- ===== src/Publisher/Hook/Liveness.antt =====
-- The connection of the hook over all histories: it is never left without a way to reconnect, and
-- it stays off after the user disconnects.
use io_t_midterm_availabilit.Base.{
  ℕ, ◌≡◌, ◌≢◌, ◌⊎◌, inl, inr, String, Bool, true, false, Option, none, some, arith, eq_iff, ◌=ₛ◌,
  Bool-cases, ◌||◌, if◌then◌else◌,
}
use io_t_midterm_availabilit.Publisher.Ct.{Ct}
use io_t_midterm_availabilit.Publisher.Selection.{Broker}
use io_t_midterm_availabilit.Publisher.Hook.State.{State, error, Client}
use io_t_midterm_availabilit.Publisher.Hook.Connection.{
  connect_to_broker, schedule_primary_retry, fail_over_to, handle_connection_loss, attempt_failover,
  to_selected, fallback_url, has_nodes,
}
use io_t_midterm_availabilit.Publisher.Hook.Frame.{Frame, clear_pending_queue-Frame}

-- A client goes to the active URL, which is the primary's unless the fallback mark is set.
abbrev pub Attached : State → Option Client → Type 0
Attached s none = Unit {0}
Attached s (some c) = (c.url ≡ s.active_url) × ((s.on_fallback ≡ true) ⊎ (c.url ≡ s.primary_url))

pub record IsKept (s : State) : Type 0 where
  pub attached : Attached s s.client
  -- after a disconnect by the user there is no client, and no timer that makes one
  pub parked : (s.manual_disconnect ≡ false) ⊎ (s.client ≡ none) × (s.timer ≡ none)
  -- before the first connect nothing is known
  pub homeless : (s.primary_url ≢ "") ⊎ (s.client ≡ none) × (s.ct ≡ none) × (s.cached_core_url ≡ "")

-- There is a client, or a timer that will make one; or the user disconnected, never connected, or
-- typed no usable URL.
abbrev pub IsAlive : State → Type 0
IsAlive s =
    (s.manual_disconnect ≡ true)
    ⊎ (s.primary_url ≡ "")
    ⊎ (s.status ≡ error)
    ⊎ (s.client ≢ none)
    ⊎ (s.timer ≢ none)

pub record IsSound (s : State) : Type 0 where
  pub kept : IsKept s
  pub alive : IsAlive s

pub IsSound-of-Frame : {s t : State} → Frame s t → IsSound s → IsSound t
IsSound-of-Frame f v = ground arith

pub handle_connection_loss-IsSound :
    (delay : ℕ) (s : State) → IsSound s → IsSound (handle_connection_loss delay s)
unfolding handle_connection_loss
handle_connection_loss-IsSound delay s v = ground (arith, clear_pending_queue-Frame s)

-- Connecting to a URL that is the primary's, or with the fallback mark set.
pub connect_to_broker-IsSound :
    (url : String) (s : State)
    → s.manual_disconnect ≡ false
    → s.primary_url ≢ ""
    → (s.on_fallback ≡ true) ⊎ (url ≡ s.primary_url)
    → url ≢ ""
    → IsSound (connect_to_broker url s)
unfolding connect_to_broker
connect_to_broker-IsSound url s m p f u = ground (arith, eq_iff url "")

pub connect_to_broker-empty : (url : String) (s : State) → url ≡ "" → connect_to_broker url s ≡ s
unfolding connect_to_broker
connect_to_broker-empty url s e = ground (arith, eq_iff url "")

fail_over_to-IsSound :
    (url : String) (s : State)
    → s.manual_disconnect ≡ false
    → s.primary_url ≢ ""
    → url ≢ ""
    → IsSound (fail_over_to url s)
unfolding fail_over_to
fail_over_to-IsSound url s m p u =
    connect_to_broker-IsSound url _ m p (ground (arith, eq_iff url s.primary_url)) u

schedule_primary_retry-IsSound :
    (s : State) → s.manual_disconnect ≡ false → IsKept s → IsSound (schedule_primary_retry s)
unfolding schedule_primary_retry
schedule_primary_retry-IsSound s m k = ground arith

-- The URL that is tried is not empty.
abbrev is_useless : State → String → Bool
is_useless s url = url =ₛ "" || url =ₛ s.active_url

non_empty_url : (s : State) (url : String) → is_useless s url ≡ false → url ≢ ""
non_empty_url s url h = ground (arith, eq_iff url "")

to_selected-IsSound :
    (s : State) (b : Option Broker)
    → s.manual_disconnect ≡ false
    → s.primary_url ≢ ""
    → IsKept s
    → IsSound (to_selected s b)
unfolding to_selected
to_selected-IsSound s none m p k = schedule_primary_retry-IsSound s m k
to_selected-IsSound s (some b) m p k = elim (Bool-cases (is_useless s (fallback_url s b))) [
  | inl e ↦ rw e (schedule_primary_retry-IsSound s m k)
  | inr e ↦ rw e (fail_over_to-IsSound (fallback_url s b) s m p (non_empty_url s _ e))
]

homes : (s : State) → IsKept s → s.ct ≢ none → s.primary_url ≢ ""
homes s k h = ground arith

has_nodes-ne-none : (ct : Option Ct) → has_nodes ct ≡ true → ct ≢ none
has_nodes-ne-none none h = cc
has_nodes-ne-none (some ct) h = cc

without_table-IsSound :
    (s : State)
    → s.manual_disconnect ≡ false
    → IsKept s
    → IsSound (
        if s.cached_core_url =ₛ ""
        then schedule_primary_retry s
        else fail_over_to s.cached_core_url s)
without_table-IsSound s m k = elim (Bool-cases (s.cached_core_url =ₛ "")) [
  | inl e ↦ rw e (schedule_primary_retry-IsSound s m k)
  | inr e ↦
      let u : s.cached_core_url ≢ "" = ground (arith, eq_iff s.cached_core_url "") in
      rw e (fail_over_to-IsSound s.cached_core_url s m (ground arith) u)
]

pub attempt_failover-IsSound : (s : State) → IsKept s → IsSound (attempt_failover s)
unfolding attempt_failover
attempt_failover-IsSound s k = elim (Bool-cases s.manual_disconnect) [
  | inl m ↦ rw (m, attempt_failover) (ground arith)
  | inr m ↦ elim (Bool-cases (has_nodes s.ct)) [
    | inl h ↦ simp (m, h) (to_selected-IsSound s _ m (homes s k (has_nodes-ne-none s.ct h)) k)
    | inr h ↦ simp (m, h) (without_table-IsSound s m k)
  ]
]
