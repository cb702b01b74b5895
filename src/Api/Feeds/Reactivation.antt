-- ===== src/Api/Feeds/Reactivation.antt =====
-- About `reactivate_feed` of api/feeds.py.
use feedgate_fetcher.Prelude.{
  ℕ, ◌≤◌, ◌<◌, ◌≡◌, refl, ap, sym, ◌∙◌, Option, none, some, List, true, inl, inr, ◌==◌,
  if◌then◌else◌, arith, Bool-cases, Option-cases,
}
use feedgate_fetcher.Prelude.Find.{find-map}
use feedgate_fetcher.Prelude.Ints.{ℤ}
use feedgate_fetcher.Models.{Feed, active}
use feedgate_fetcher.FeedState.{transition_feed}
use feedgate_fetcher.FeedState.Lifecycle.{IsConsistent, Trail, is_edge}
use feedgate_fetcher.Scheduler.{is_due}
use feedgate_fetcher.Api.Http.{Reply, respond, http_error}
use feedgate_fetcher.Api.Entries.{is_id}
use feedgate_fetcher.Api.Feeds.{
  Database, find_id, get_feed, reactivated, update_feed, reactivate_feed,
}
use feedgate_fetcher.Api.Feeds.Unique.{names}
use mathlib.Core.Option
use feedgate_fetcher.Api.Feeds.Changes.{get_feed-missing, get_feed-found}

pub reactivate_feed-found :
    (i : ℤ) (now : ℕ) (db : Database) (feed : Feed)
    → find_id i db.feeds ≡ some feed
    → reactivate_feed i now db ≡ (
      (respond (reactivated now feed).0, (reactivated now feed).1),
      record db { feeds = update_feed (reactivated now feed).0 db.feeds },
    )
unfolding reactivate_feed
reactivate_feed-found i now db feed e = rw (reactivate_feed, e) refl

pub get_feed-respond :
    (i : ℤ) (db : Database) (feed : Feed)
    → get_feed i db ≡ respond feed
    → find_id i db.feeds ≡ some feed
get_feed-respond i db feed g = elim (Option-cases (find_id i db.feeds)) [
  | inl e ↦ absurd (cc (sym (get_feed-missing i db e) ∙ g))
  | inr (found, e) ↦ e ∙ ap body (sym (get_feed-found i db found e) ∙ g)
]
  where
    body : Reply Feed → Option Feed
    body (respond f) = some f
    body (http_error status) = none

pub find_id-update :
    (i : ℤ) (feeds : List Feed) (feed row : Feed)
    → row.id ≡ feed.id
    → find_id i feeds ≡ some feed
    → find_id i (update_feed row feeds) ≡ some row
unfolding find_id update_feed
find_id-update i feeds feed row same e =
    find-map (names i) (λ f. if f.id == row.id then row else f) feeds kept
    ∙ ap (Option.map (λ f. if f.id == row.id then row else f)) e
    ∙ own (ground (arith, same))
  where
    own : (feed.id == row.id) ≡ true → some (if feed.id == row.id then row else feed) ≡ some row
    own k = rw k refl

    kept : (f : Feed) → is_id (if f.id == row.id then row else f).id i ≡ is_id f.id i
    kept f = elim (Bool-cases (f.id == row.id)) [
      | inl k ↦ rw k (ap (λ id. is_id id i) (ground (arith, k)))
      | inr k ↦ rw k refl
    ]

pub reactivated_lem :
    (now now' probe_cutoff broken_threshold : ℕ) (feed : Feed)
    → 0 < broken_threshold
    → now ≤ now'
    → (is_due now' probe_cutoff (reactivated now feed).0 ≡ true)
      × IsConsistent broken_threshold (reactivated now feed).0
      × Trail feed.status (reactivated now feed).1 active
unfolding is_due reactivated transition_feed is_edge
reactivated_lem now now' probe_cutoff broken_threshold feed b l = ground arith

-- A feed that is reactivated is answered as it is stored: its last success is as it was, it is due
-- from that instant on, it is consistent for any positive threshold, and the log leads from its
-- old status to active along edges of the lifecycle.
pub reactivate_feed_lem :
    (feed_id : ℤ) (now now' probe_cutoff broken_threshold : ℕ) (db : Database) (feed : Feed)
    → get_feed feed_id db ≡ respond feed
    → 0 < broken_threshold
    → now ≤ now'
    → (row : Feed) × ((reactivate_feed feed_id now db).0.0 ≡ respond row)
      × (get_feed feed_id (reactivate_feed feed_id now db).1 ≡ respond row)
      × (row.last_successful_fetch_at ≡ feed.last_successful_fetch_at)
      × (is_due now' probe_cutoff row ≡ true)
      × IsConsistent broken_threshold row
      × Trail feed.status (reactivate_feed feed_id now db).0.1 active
reactivate_feed_lem feed_id now now' probe_cutoff broken_threshold db feed g b l =
    let e = get_feed-respond feed_id db feed g in
    let after = record db { feeds = update_feed (reactivated now feed).0 db.feeds } in
    let (due, consistent, trail) =
      reactivated_lem now now' probe_cutoff broken_threshold feed b l in
    rw (reactivate_feed-found feed_id now db feed e) (
      (reactivated now feed).0,
      refl,
      get_feed-found feed_id after (reactivated now feed).0 (
          find_id-update feed_id db.feeds feed (reactivated now feed).0 (unfold reactivated in refl)
            e),
      unfold reactivated in refl,
      due,
      consistent,
      trail,
    )
