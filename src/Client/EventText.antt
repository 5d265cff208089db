-- ===== src/Client/EventText.antt =====
-- client/src/mqtt/eventPresentation.js: the texts for the times, delays and descriptions of events.
pub mod Delay
use Prim.Native.Char.{code}
use Prim.Native.String
use io_t_midterm_availabilit.Base.{
  ℕ, zero, suc, ◌+◌, ◌*◌, ◌/◌, ◌%◌, ◌==◌, ltb, leb, String, Bool, true, false, not, ◌&&◌, ◌||◌, ℤ,
  Option, none, some, List, [], ◌∷◌, ◌=ₛ◌, if◌then◌else◌,
}
use io_t_midterm_availabilit.Js.Text.{◌<>◌, trim, decimal}
use io_t_midterm_availabilit.Js.Scan.{slice_to, slice_from, starts_with}
use io_t_midterm_availabilit.Js.Value.{Value, str, arr, obj, null, bool, get, truthy, is_nullish}

-- What the module uses of the language: `JSON.parse` (`none` where it throws), the time of
-- `new Date` (`none` for NaN), and `toLocaleTimeString` of a time.
pub record Dates : Type 0 where
  pub json_parse : String → Option Value
  pub new_date : Value → Option ℤ
  pub clock_text : ℤ → String

unfoldable pub normalize_description : Value → String
normalize_description (str s) =
    let trimmed = trim s in
    if trimmed =ₛ ""
    then ""
    else if trimmed =ₛ "auto-detect"
    then "Camera auto-detect"
    else if trimmed =ₛ "manual"
    then "Manual trigger"
    else if starts_with b'{' trimmed
    then ""
    else trimmed
normalize_description _ = ""

abbrev pub normalize_location_text : Value → String
normalize_location_text (str s) = trim s
normalize_location_text _ = ""

-- The parts of `\d{2}:\d{2}:\d{2}`.
pub data ClockPart : Type 0 where
  digit colon : ClockPart

abbrev clock_parts : List ClockPart
clock_parts = digit ∷ digit ∷ colon ∷ digit ∷ digit ∷ colon ∷ digit ∷ digit ∷ []

abbrev fits_clock_part : ClockPart → ℕ → Bool
fits_clock_part digit c = leb b'0' c && leb c b'9'
fits_clock_part colon c = c == b':'

-- The text begins with the parts.
unfoldable pub begins_with : List ClockPart → String → Bool
begins_with [] s = true
begins_with (p ∷ ps) String.[] = false
begins_with (p ∷ ps) (String.◌∷◌ c s) = fits_clock_part p (code c) && begins_with ps s

-- `timestamp.match(/T(\d{2}:\d{2}:\d{2})/)?.[1]`
unfoldable pub match_clock : String → Option String
unfolding begins_with slice_to
match_clock String.[] = none
match_clock (String.◌∷◌ c s) =
    let later = match_clock s in
    if code c == b'T' && begins_with clock_parts s then some (slice_to 8 s) else later

abbrev matched_or_slice : Option String → String → String
matched_or_slice (some m) s = m
matched_or_slice none s =
    let part = slice_to 8 (slice_from 11 s) in if part =ₛ "" then "—" else part

unfoldable pub format_event_time : Value → String
unfolding match_clock slice_from
format_event_time (str s) = matched_or_slice (match_clock s) s
format_event_time _ = "—"

-- The milliseconds are `none` where they are no finite number; a delay is never negative.
unfoldable pub format_delay_label : Option ℕ → String
format_delay_label none = "just now"
format_delay_label (some delay_ms) =
    let total_seconds = (delay_ms + 500) / 1000 in
    let minutes = total_seconds / 60 in
    let seconds = total_seconds % 60 in
    if ltb delay_ms 1000
    then "just now"
    else if minutes == 0
    then decimal seconds <> "s late"
    else if seconds == 0
    then decimal minutes <> "m late"
    else decimal minutes <> "m " <> decimal seconds <> "s late"

pub record Nested : Type 0 where
  pub publisher_id : String
  pub description : String
  pub via_failover : Value
  pub original_edge_id : String
  pub original_edge_ip : String
  pub intended_edge_ip : String
  pub was_queued : Value
  pub created_at : String

abbrev text_or : Value → String → String
text_or (str s) d = s
text_or _ d = d

-- `v ?? false`
abbrev or_false : Value → Value
or_false v = if is_nullish v then bool false else v

abbrev nested_of : Value → Nested
nested_of parsed = record {
  publisher_id = text_or (get (get parsed "source") "id") "";
  description = normalize_description (get (get parsed "payload") "description");
  via_failover = or_false (get parsed "via_failover");
  original_edge_id =
      text_or (get parsed "original_edge_id") (text_or (get parsed "intended_edge_id") "");
  original_edge_ip =
      text_or (get parsed "original_edge_ip") (text_or (get parsed "intended_edge_ip") "");
  intended_edge_ip = text_or (get parsed "intended_edge_ip") "";
  was_queued = or_false (get parsed "was_queued");
  created_at = text_or (get parsed "created_at") "";
}

-- An object or an array is what `typeof` calls an object.
abbrev nested_in : Option Value → Option Nested
nested_in (some (obj ms)) = some (nested_of (obj ms))
nested_in (some (arr vs)) = some (nested_of (arr vs))
nested_in _ = none

module _ (dates : Dates) where
  unfoldable pub format_clock_time : Value → String
  format_clock_time v = if truthy v then shown (dates.new_date v) else "—"
    where
      shown : Option ℤ → String
      shown none = "—"
      shown (some ms) = dates.clock_text ms

  unfoldable pub parse_nested_publisher_message : Value → Option Nested
  unfolding normalize_description trim
  parse_nested_publisher_message (str s) =
      if trim s =ₛ "" then none else nested_in (dates.json_parse s)
  parse_nested_publisher_message _ = none
