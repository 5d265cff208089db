-- ===== src/Publisher/Hook/Log.antt =====
-- The event log of the hook: `upsertEvent` and `trimEventLog`.
use io_t_midterm_availabilit.Base.{
  ℕ, zero, suc, ◌≤◌, ◌≢◌, String, Bool, List, [], ◌∷◌, arith, All, length, take, length-take,
  filter, eq_iff, Bool-cases, inl, inr,
}
use io_t_midterm_availabilit.Publisher.Hook.State.{LogEntry, flushed, max_log}
use io_t_midterm_availabilit.Publisher.Hook.Queue.{upsert, is_other_log}

-- No entry has the id.
abbrev pub Unlogged : String → List LogEntry → Type 0
Unlogged id = All λ l. l.msg.msg_id ≢ id

-- One entry for each message.
abbrev pub HasUniqueIds : List LogEntry → Type 0
HasUniqueIds [] = Unit {0}
HasUniqueIds (l ∷ ls) = Unlogged l.msg.msg_id ls × HasUniqueIds ls

pub record IsLog (ls : List LogEntry) : Type 0 where
  pub short : length ls ≤ max_log
  pub unique : HasUniqueIds ls
  -- the status that `flushQueue` means to log for a queued message
  pub never_flushed : All (λ l. l.status ≢ flushed) ls

filter-All :
    (P : LogEntry → Type 0) (p : LogEntry → Bool) (ls : List LogEntry)
    → All P ls
    → All P (filter p ls)
unfolding filter
filter-All P p [] h = tt
filter-All P p (l ∷ ls) (h, hs) = elim (Bool-cases (p l)) [
  | inl e ↦ rw e (h, filter-All P p ls hs)
  | inr e ↦ rw e (filter-All P p ls hs)
]

filter-HasUniqueIds :
    (p : LogEntry → Bool) (ls : List LogEntry) → HasUniqueIds ls → HasUniqueIds (filter p ls)
unfolding filter
filter-HasUniqueIds p [] h = tt
filter-HasUniqueIds p (l ∷ ls) (h, hs) = elim (Bool-cases (p l)) [
  | inl e ↦ rw e (filter-All _ p ls h, filter-HasUniqueIds p ls hs)
  | inr e ↦ rw e (filter-HasUniqueIds p ls hs)
]

filter-Unlogged : (id : String) (ls : List LogEntry) → Unlogged id (filter (is_other_log id) ls)
unfolding filter
filter-Unlogged id [] = tt
filter-Unlogged id (l ∷ ls) = ground (arith, filter-Unlogged id ls, eq_iff l.msg.msg_id id)

take-All : (P : LogEntry → Type 0) (n : ℕ) (ls : List LogEntry) → All P ls → All P (take n ls)
take-All P zero ls h = tt
take-All P (suc n) [] h = tt
take-All P (suc n) (l ∷ ls) (h, hs) = (h, take-All P n ls hs)

take-HasUniqueIds : (n : ℕ) (ls : List LogEntry) → HasUniqueIds ls → HasUniqueIds (take n ls)
take-HasUniqueIds zero ls h = tt
take-HasUniqueIds (suc n) [] h = tt
take-HasUniqueIds (suc n) (l ∷ ls) (h, hs) = (take-All _ n ls h, take-HasUniqueIds n ls hs)

pub upsert-IsLog :
    (l : LogEntry) (ls : List LogEntry) → l.status ≢ flushed → IsLog ls → IsLog (upsert l ls)
unfolding upsert
upsert-IsLog l ls ne h =
    let kept = filter (is_other_log l.msg.msg_id) ls in
    record {
      short = omega (arith, length-take max_log (l ∷ kept));
      unique =
          take-HasUniqueIds max_log (l ∷ kept)
            (filter-Unlogged _ ls, filter-HasUniqueIds _ ls h.unique);
      never_flushed = take-All _ max_log (l ∷ kept) (ne, filter-All _ _ ls h.never_flushed);
    }
