-- ===== src/System/Races.antt =====
-- About a reactivation by api/feeds.py that comes while a job of the feed is under way.
use feedgate_fetcher.Prelude.{ℕ, ◌+◌, ◌≡◌, ◌==◌, false, arith, ◌∙◌, refl}
use feedgate_fetcher.Models.{Feed, FeedStatus, ErrorCode, active, broken, status_eq, status_eq_iff}
use feedgate_fetcher.FeedState.{mark_fetch_failure}
use feedgate_fetcher.FeedState.Lifecycle.{IsConsistent}
use feedgate_fetcher.Api.Feeds.{reactivated}
use feedgate_fetcher.System.{column, write_changes}

failures-suc :
    (feed : Feed) (now : ℕ) (code : ErrorCode) (threshold days : ℕ)
    → (mark_fetch_failure feed now code threshold days).0.consecutive_failures
      ≡ feed.consecutive_failures + 1
unfolding mark_fetch_failure
failures-suc feed now code threshold days = ground arith

column_changed : (a b c : ℕ) → (a == b) ≡ false → column ◌==◌ a b c ≡ b
column_changed a b c h = ground arith

column_same : (a b c : FeedStatus) → a ≡ b → column status_eq a b c ≡ c
column_same a b c e = rw ((status_eq_iff a b).1 e) refl

module _ (loaded : Feed) (now t next : ℕ) (code : ErrorCode) (threshold days : ℕ) where
  -- A broken feed that is consistent is reactivated while its job is under way. If the job then
  -- fails and leaves the feed broken, the commit writes the count of failures, and not the status,
  -- which the session has not changed: the stored row is active, and has at least as many failures
  -- as break a feed, so that it is not consistent.
  pub write_changes-reactivated :
      loaded.status ≡ broken
      → IsConsistent threshold loaded
      → (mark_fetch_failure loaded now code threshold days).0.status ≡ broken
      → let failed = record ((mark_fetch_failure loaded now code threshold days).0) {
        next_fetch_at = next;
      } in
        let stored = write_changes loaded failed (reactivated t loaded).0 in
        (stored.status ≡ active)
        × (stored.consecutive_failures ≡ loaded.consecutive_failures + 1)
        × ¬ IsConsistent threshold stored
  unfolding write_changes reactivated
  write_changes-reactivated b h f =
      let assigned = (mark_fetch_failure loaded now code threshold days).0 in
      let count = failures-suc loaded now code threshold days in
      let counted =
        column_changed loaded.consecutive_failures assigned.consecutive_failures 0
          (ground (arith, count)) in
      let kept = column_same loaded.status assigned.status active (cc (b, f)) in
      (
        kept,
        counted ∙ count,
        λ c. absurd (omega (arith, c.closed kept, counted, count, h.opened b)),
      )
