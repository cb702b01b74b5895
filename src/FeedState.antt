-- ===== src/FeedState.antt =====
-- feed_state.py: the lifecycle transitions of a feed. A transition's log line and counter
-- increment are values of `Transition`, which the operations return beside the new feed.
pub mod Lifecycle
use feedgate_fetcher.Prelude.{
  ℕ, ◌+◌, ◌*◌, ◌-◌, String, Option, none, some, List, [], ◌∷◌, ◌++◌, Bool, true, false, ◌&&◌, not,
  leb, if◌then◌else◌,
}
use feedgate_fetcher.Prelude.Time.{day}
use feedgate_fetcher.Models.{
  Feed, FeedStatus, active, broken, dead, ErrorCode, status_eq, is_http_410,
}
use text.Mathlib.Text.{◌==◌ as str_eq}

-- the `reason` labels
pub data Reason : Type 0 where
  fetch_succeeded http_410 consecutive_failures no_success http_304_recovery manual_reactivate :
      Reason

pub record Transition : Type 0 where
  pub from_status : FeedStatus
  pub to_status : FeedStatus
  pub reason : Reason

-- What `transition_feed` counts and logs. It leaves the feed alone: callers assign `status`.
unfoldable pub transition_feed : Feed → FeedStatus → Reason → List Transition
transition_feed feed new_status reason =
    record { from_status = feed.status; to_status = new_status; reason = reason } ∷ []

-- `x or y` on an optional value that is never falsy when present
abbrev pub or_default : Option ℕ → ℕ → ℕ
or_default none d = d
or_default (some v) d = v

-- `if title: feed.title = title`
abbrev pub new_title : Option String → Option String → Option String
new_title none old = old
new_title (some t) old = if str_eq t "" then old else some t

unfoldable pub mark_fetch_success : Feed → ℕ → Option String → Feed × List Transition
unfolding transition_feed
mark_fetch_success feed now title =
    let f = record feed {
      title = new_title title feed.title;
      last_successful_fetch_at = some now;
      last_error_code = none;
      consecutive_failures = 0;
    } in
    if not (status_eq f.status active)
    then (record f { status = active }, transition_feed f active fetch_succeeded)
    else (f, [])

-- `now - reference >= timedelta(days=dead_duration_days)`; a difference of instants may be
-- negative, and is then below every duration that is not
abbrev pub is_overdue : ℕ → ℕ → ℕ → Bool
is_overdue now reference dead_duration_days = leb (reference + dead_duration_days * day) now

-- the first `if` of the else branch
unfoldable pub break_if_due : Feed → ℕ → Feed × List Transition
unfolding transition_feed
break_if_due feed broken_threshold =
    if status_eq feed.status active && leb broken_threshold feed.consecutive_failures
    then (record feed { status = broken }, transition_feed feed broken consecutive_failures)
    else (feed, [])

-- the second `if` of the else branch
unfoldable pub bury_if_overdue : Feed → ℕ → ℕ → Feed × List Transition
unfolding transition_feed
bury_if_overdue feed now dead_duration_days =
    if status_eq feed.status broken
      && is_overdue now (or_default feed.last_successful_fetch_at feed.created_at)
          dead_duration_days
    then (record feed { status = dead }, transition_feed feed dead no_success)
    else (feed, [])

unfoldable pub mark_fetch_failure : Feed → ℕ → ErrorCode → ℕ → ℕ → Feed × List Transition
unfolding transition_feed break_if_due bury_if_overdue
mark_fetch_failure feed now code broken_threshold dead_duration_days =
    let f = record feed {
      last_error_code = some code;
      consecutive_failures = feed.consecutive_failures + 1;
    } in
    if is_http_410 code
    then (if not (status_eq f.status dead)
        then (record f { status = dead }, transition_feed f dead http_410)
        else (f, []))
    else let (g, first) = break_if_due f broken_threshold in
      let (h, second) = bury_if_overdue g now dead_duration_days in (h, first ++ second)
