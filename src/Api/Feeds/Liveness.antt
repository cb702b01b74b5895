-- ===== src/Api/Feeds/Liveness.antt =====
-- About `reactivate_feed` of api/feeds.py and the tick of fetcher/scheduler.py that follows it.
use feedgate_fetcher.Prelude.{
  ℕ, ◌+◌, ◌*◌, ◌≤◌, ◌≡◌, ◌∙◌, refl, sym, ap, subst, inl, inr, some, List, [], ◌∷◌, Bool, true,
  false, ◌==◌, any, length, length-map, if◌then◌else◌, arith, Bool-cases,
}
use feedgate_fetcher.Prelude.Time.{day}
use feedgate_fetcher.Prelude.Ints.{ℤ, pos}
use feedgate_fetcher.Prelude.Find.{find}
use feedgate_fetcher.Models.{Feed}
use feedgate_fetcher.Exceptions.{ok}
use feedgate_fetcher.Scheduler.{ClaimConfig, find_feed, claim_due_feeds}
use feedgate_fetcher.Scheduler.Fairness.{claim_due_feeds_complete}
use feedgate_fetcher.Api.Http.{respond}
use feedgate_fetcher.Api.Entries.{is_id}
use feedgate_fetcher.Api.Feeds.{
  Database, find_id, get_feed, reactivated, update_feed, reactivate_feed,
}
use feedgate_fetcher.Api.Feeds.Changes.{find_id-eq}
use feedgate_fetcher.Api.Feeds.Reactivation.{
  get_feed-respond, find_id-update, reactivate_feed-found, reactivated_lem,
}

find_feed-find_id : (id : ℕ) (feeds : List Feed) → find_feed id feeds ≡ find_id (pos id) feeds
unfolding find_feed find_id find
find_feed-find_id id [] = refl
find_feed-find_id id (feed ∷ feeds) = elim (Bool-cases (feed.id == id)) [
  | inl e ↦ let own : is_id feed.id (pos id) ≡ true = ground (arith, e) in rw (e, own) refl
  | inr e ↦
      let other : is_id feed.id (pos id) ≡ false = ground (arith, e) in
      rw (e, other) (find_feed-find_id id feeds)
]

length-update_feed :
    (row : Feed) (feeds : List Feed) → length (update_feed row feeds) ≡ length feeds
unfolding update_feed
length-update_feed row = length-map (λ f. if f.id == row.id then row else f)

module _ (c : ClaimConfig) (locked : ℕ → Bool) (now now' cutoff : ℕ) (feed_id : ℤ) (db : Database)
    (feed : Feed) (ids : List ℕ) (feeds' : List Feed) where
  -- A feed that is reactivated, also a dead one, is among the ids that the next claim returns, at
  -- the same instant or later, if its row is not locked, the claim does not raise, and the batch
  -- is no smaller than the table of feeds.
  pub reactivate_feed-claimed :
      get_feed feed_id db ≡ respond feed
      → now ≤ now'
      → locked feed.id ≡ false
      → length db.feeds ≤ c.claim_batch_size
      → cutoff + c.dead_probe_interval_days * day ≡ now'
      → claim_due_feeds c now' locked (reactivate_feed feed_id now db).1.feeds ≡ ok (ids, feeds')
      → any (λ i. i == feed.id) ids ≡ true
  reactivate_feed-claimed g later free size probed claimed =
      let e = get_feed-respond feed_id db feed g in
      let row = (reactivated now feed).0 in
      let same : row.id ≡ feed.id = unfold reactivated in refl in
      let after = update_feed row db.feeds in
      let stored : find_feed feed.id after ≡ some row =
        find_feed-find_id feed.id after
        ∙ ap (λ i. find_id i after) (sym (find_id-eq feed_id db.feeds feed e))
        ∙ find_id-update feed_id db.feeds feed row same e in
      let feeds_after : (reactivate_feed feed_id now db).1.feeds ≡ after =
        ap (λ x. x.1.feeds) (reactivate_feed-found feed_id now db feed e) in
      let (due, _, _) = reactivated_lem now now' cutoff 1 feed (omega arith) later in
      subst (λ id. any (λ i. i == id) ids ≡ true) same
        (claim_due_feeds_complete c now' locked cutoff after feeds' ids feed.id row
          (subst (λ fs. claim_due_feeds c now' locked fs ≡ ok (ids, feeds')) feeds_after claimed)
          stored (subst (λ id. locked id ≡ false) (sym same) free) probed due
          (omega (arith, size, length-update_feed row db.feeds)))
