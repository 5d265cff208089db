-- ===== src/Publisher/Brokers.antt =====
-- publisher_client/src/mqtt/failover.js: the list of broker URLs that a user types. `new URL` is
-- the browser's and stands as a parameter.
pub mod Parts
pub mod Candidates
use io_t_midterm_availabilit.Base.{
  ℕ, ◌+◌, ◌%◌, String, Bool, false, ◌||◌, ◌==◌, Option, none, some, List, [], ◌∷◌, ◌++◌, any, ◌=ₛ◌,
  if◌then◌else◌, ℤ, pos, negsuc,
}
use io_t_midterm_availabilit.Js.Url.{Url}
use io_t_midterm_availabilit.Js.Text.{is_space, trim, split_runs}

abbrev pub is_ws : Url → Bool
is_ws u = u.protocol =ₛ "ws:" || u.protocol =ₛ "wss:"

abbrev pub is_separator : ℕ → Bool
is_separator c = c == 10 || c == b',' || is_space c

abbrev pub if_ws : Option Url → Option Url
if_ws none = none
if_ws (some u) = if is_ws u then some u else none

abbrev pub with_some : Option Url → List Url → List Url
with_some none us = us
with_some (some u) us = u ∷ us

module _ (new_url : String → Option Url) where
  unfoldable pub normalize_broker_url : String → Option Url
  normalize_broker_url raw =
      let trimmed = trim raw in if trimmed =ₛ "" then none else if_ws (new_url trimmed)

  -- `map` and `filter(Boolean)`
  unfoldable pub normalized : List String → List Url
  normalized [] = []
  normalized (part ∷ parts) = with_some (normalize_broker_url part) (normalized parts)

abbrev pub same_href : String → Url → Bool
same_href h u = u.href =ₛ h

-- The loop over `parts` with the set of URLs seen, which are those in `brokers`.
unfoldable pub add_unseen : List Url → List Url → List Url
add_unseen brokers [] = brokers
add_unseen brokers (u ∷ us) =
    add_unseen (if any (same_href u.href) brokers then brokers else brokers ++ u ∷ []) us

unfoldable pub parse_broker_candidates : (String → Option Url) → String → List Url
unfolding normalized add_unseen
parse_broker_candidates new_url raw =
    add_unseen [] (normalized new_url (split_runs is_separator false "" raw))

-- `getNextBrokerIndex` for whole numbers.
unfoldable pub get_next_broker_index : ℤ → ℤ → ℤ
get_next_broker_index current (negsuc n) = negsuc 0
get_next_broker_index (negsuc i) (pos total) = if total == 0 then negsuc 0 else pos 0
get_next_broker_index (pos i) (pos total) = if total == 0 then negsuc 0 else pos ((i + 1) % total)
