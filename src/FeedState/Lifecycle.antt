-- ===== src/FeedState/Lifecycle.antt =====
-- About feed_state.py: the status table of docs/spec/feed.md, the edges of the lifecycle, logs
-- of transitions as trails, and the invariant that ties the status to the failure count.
use feedgate_fetcher.Prelude.{
  ℕ, ◌+◌, ◌≤◌, ◌<◌, String, ◌≡◌, Option, none, some, List, [], ◌∷◌, Bool, true, false, arith, leb,
}
use feedgate_fetcher.Models.{Feed, FeedStatus, active, broken, dead, ErrorCode, is_http_410}
use feedgate_fetcher.FeedState.{
  Transition, Reason, or_default, is_overdue, mark_fetch_success, mark_fetch_failure,
}

-- The counter is below the threshold exactly while the circuit is closed. Nothing is said of a
-- dead feed: a 410 kills at any count.
pub record IsConsistent (broken_threshold : ℕ) (feed : Feed) : Type 0 where
  pub closed : feed.status ≡ active → feed.consecutive_failures < broken_threshold
  pub opened : feed.status ≡ broken → broken_threshold ≤ feed.consecutive_failures

-- The status that the specification's table gives after a failed fetch.
unfoldable pub status_after_failure : FeedStatus → Bool → Bool → Bool → FeedStatus
status_after_failure _ true _ _ = dead
status_after_failure dead false _ _ = dead
status_after_failure active false false _ = active
status_after_failure active false true true = dead
status_after_failure active false true false = broken
status_after_failure broken false _ true = dead
status_after_failure broken false _ false = broken

-- The edges of the lifecycle, with the reasons that are given for them.
unfoldable pub is_edge : FeedStatus → FeedStatus → Reason → Bool
is_edge broken active Reason.fetch_succeeded = true
is_edge dead active Reason.fetch_succeeded = true
is_edge active dead Reason.http_410 = true
is_edge broken dead Reason.http_410 = true
is_edge active broken Reason.consecutive_failures = true
is_edge broken dead Reason.no_success = true
is_edge broken active Reason.http_304_recovery = true
is_edge broken active Reason.manual_reactivate = true
is_edge dead active Reason.manual_reactivate = true
is_edge _ _ _ = false

-- A log of transitions leads from one status to another, edge by edge.
abbrev pub Trail : FeedStatus → List Transition → FeedStatus → Type 0
Trail s [] u = s ≡ u
Trail s (t ∷ ts) u =
    (t.from_status ≡ s)
    × (is_edge t.from_status t.to_status t.reason ≡ true)
    × Trail t.to_status ts u

module _ (feed : Feed) (now : ℕ) where
  pub mark_fetch_success-IsConsistent :
      (title : Option String) {broken_threshold : ℕ}
      → 0 < broken_threshold
      → IsConsistent broken_threshold (mark_fetch_success feed now title).0
  unfolding mark_fetch_success
  mark_fetch_success-IsConsistent title h = ground arith

  pub mark_fetch_success_lem :
      (title : Option String)
      → ((mark_fetch_success feed now title).0.status ≡ active)
        × ((mark_fetch_success feed now title).0.consecutive_failures ≡ 0)
        × ((mark_fetch_success feed now title).0.last_error_code ≡ none)
        × ((mark_fetch_success feed now title).0.last_successful_fetch_at ≡ some now)
  unfolding mark_fetch_success
  mark_fetch_success_lem title = ground arith

  pub mark_fetch_success_identity :
      (title : Option String)
      → ((mark_fetch_success feed now title).0.id ≡ feed.id)
        × ((mark_fetch_success feed now title).0.url ≡ feed.url)
        × ((mark_fetch_success feed now title).0.created_at ≡ feed.created_at)
  unfolding mark_fetch_success
  mark_fetch_success_identity title = ground arith

  module _ (code : ErrorCode) (broken_threshold dead_duration_days : ℕ) where
    -- After a failed fetch the status is that of the specification's table, which decides by the
    -- old status, by whether the code is 410, by whether the new failure count reaches the
    -- threshold, and by whether the last success, or else the creation, is too long ago.
    pub mark_fetch_failure-status :
        (mark_fetch_failure feed now code broken_threshold dead_duration_days).0.status
        ≡ status_after_failure feed.status
            (is_http_410 code)
            (leb broken_threshold (feed.consecutive_failures + 1))
            (is_overdue now
              (or_default feed.last_successful_fetch_at feed.created_at)
              dead_duration_days)
    unfolding mark_fetch_failure status_after_failure
    mark_fetch_failure-status = ground arith

    -- A failed fetch keeps a feed consistent: an active feed has fewer failures than the
    -- threshold, a broken one at least as many.
    pub mark_fetch_failure-IsConsistent :
        IsConsistent broken_threshold feed
        → IsConsistent broken_threshold
            (mark_fetch_failure feed now code broken_threshold dead_duration_days).0
    unfolding mark_fetch_failure
    mark_fetch_failure-IsConsistent h = ground arith

    pub mark_fetch_failure-code :
        (mark_fetch_failure feed now code broken_threshold dead_duration_days).0.last_error_code
        ≡ some code
    unfolding mark_fetch_failure
    mark_fetch_failure-code = ground arith

    pub mark_fetch_failure_identity :
        ((mark_fetch_failure feed now code broken_threshold dead_duration_days).0.id ≡ feed.id)
        × ((mark_fetch_failure feed now code broken_threshold dead_duration_days).0.url ≡ feed.url)
        × ((mark_fetch_failure feed now code broken_threshold dead_duration_days).0.created_at
            ≡ feed.created_at)
    unfolding mark_fetch_failure
    mark_fetch_failure_identity = ground arith

    -- What a failed fetch logs leads from the old status to the new one along edges of the
    -- lifecycle: no change of status is unlogged, and none is logged that did not happen.
    pub mark_fetch_failure-Trail :
        Trail feed.status
          (mark_fetch_failure feed now code broken_threshold dead_duration_days).1
          (mark_fetch_failure feed now code broken_threshold dead_duration_days).0.status
    unfolding mark_fetch_failure is_edge
    mark_fetch_failure-Trail = ground arith

  -- What a successful fetch logs leads from the old status to the new one along edges of the
  -- lifecycle.
  pub mark_fetch_success-Trail :
      (title : Option String)
      → Trail feed.status
          (mark_fetch_success feed now title).1
          (mark_fetch_success feed now title).0.status
  unfolding mark_fetch_success is_edge
  mark_fetch_success-Trail title = ground arith
