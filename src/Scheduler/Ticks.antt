-- ===== src/Scheduler/Ticks.antt =====
-- About `_process_feed` and `tick_once` of fetcher/scheduler.py, and the feeds' consistency.
use feedgate_fetcher.Prelude.{
  ℕ, ◌<◌, ◌≡◌, ◌∙◌, refl, sym, ap, subst, some, List, [], ◌∷◌, map, Bool, true, false, ◌==◌, ==_iff,
  any, All, Bool-cases, Option-cases, inl, inr,
}
use feedgate_fetcher.Models.{Feed}
use mathlib.Core.Option.{some-injective}
use feedgate_fetcher.FeedState.Lifecycle.{IsConsistent}
use feedgate_fetcher.Exceptions.{Result, ok, raise, Result-split}
use feedgate_fetcher.Http.{Upstream, FetchConfig, FetchState, fetch_one}
use feedgate_fetcher.Http.Outcome.{fetch_one-Advances}
use feedgate_fetcher.Scheduler.{
  ClaimConfig, World, lease, find_feed, save_feed, session, settle, process_feed, process_feeds,
  tick_once, claim_due_feeds,
}
use feedgate_fetcher.Scheduler.Claims.{claim_due_feeds-feeds, lease-id}

-- Every feed is consistent, and the feeds are those of `w`.
pub record IsSound (n : ℕ) (w w' : World) : Type 0 where
  pub consistent : All (IsConsistent n) w'.feeds
  pub ids : map (λ feed. feed.id) w'.feeds ≡ map (λ feed. feed.id) w.feeds

-- the row that is found is one of the table, with the id that was looked for
pub find_feed-All {κ} :
    (P : Feed → Type κ) (id : ℕ) (feeds : List Feed) (feed : Feed)
    → find_feed id feeds ≡ some feed
    → All P feeds
    → (feed.id ≡ id) × P feed
unfolding find_feed
find_feed-All P id [] feed e h = cc
find_feed-All P id (f ∷ feeds) feed e h = elim (Bool-cases (f.id == id)) [
  | inl k ↦
      subst (λ g. (g.id ≡ id) × P g) (some-injective f feed (sym (here k) ∙ e))
        ((==_iff f.id id).0 k, h.0)
  | inr k ↦ find_feed-All P id feeds feed (sym (there k) ∙ e) h.1
]
  where
    here : (f.id == id) ≡ true → find_feed id (f ∷ feeds) ≡ some f
    here k = rw (k, find_feed) refl

    there : (f.id == id) ≡ false → find_feed id (f ∷ feeds) ≡ find_feed id feeds
    there k = rw (k, find_feed) refl

save_feed-All {κ} :
    (P : Feed → Type κ) (id : ℕ) (row : Feed) (feeds : List Feed)
    → P row
    → All P feeds
    → All P (save_feed id row feeds)
unfolding save_feed
save_feed-All P id row [] r h = tt
save_feed-All P id row (f ∷ feeds) r h = elim (Bool-cases (f.id == id)) [
  | inl k ↦ rw k (r, save_feed-All P id row feeds r h.1)
  | inr k ↦ rw k (h.0, save_feed-All P id row feeds r h.1)
]

save_feed-ids :
    (id : ℕ) (row : Feed) (feeds : List Feed)
    → row.id ≡ id
    → map (λ feed. feed.id) (save_feed id row feeds) ≡ map (λ feed. feed.id) feeds
unfolding save_feed
save_feed-ids id row [] r = refl
save_feed-ids id row (f ∷ feeds) r = elim (Bool-cases (f.id == id)) [
  | inl k ↦ rw k (rw r (rw ((==_iff f.id id).0 k) (ap (◌∷◌ id) (save_feed-ids id row feeds r))))
  | inr k ↦ rw k (ap (◌∷◌ f.id) (save_feed-ids id row feeds r))
]

-- a lease changes neither the status nor the failure count, nor the id
lease-IsConsistent :
    (n now until : ℕ) (sel : List ℕ) (feed : Feed)
    → IsConsistent n feed
    → IsConsistent n (lease until now sel feed)
unfolding lease
lease-IsConsistent n now until sel feed h = elim (Bool-cases (any (λ id. id == feed.id) sel)) [
  | inl e ↦ rw (e, lease) (record { closed = h.closed; opened = h.opened })
  | inr e ↦ rw (e, lease) h
]

lease-All :
    (n now until : ℕ) (sel : List ℕ) (feeds : List Feed)
    → All (IsConsistent n) feeds
    → All (IsConsistent n) (map (lease until now sel) feeds)
lease-All n now until sel [] h = tt
lease-All n now until sel (feed ∷ feeds) h =
    (lease-IsConsistent n now until sel feed h.0, lease-All n now until sel feeds h.1)

lease-ids :
    (now until : ℕ) (sel : List ℕ) (feeds : List Feed)
    → map (λ feed. feed.id) (map (lease until now sel) feeds) ≡ map (λ feed. feed.id) feeds
lease-ids now until sel [] = refl
lease-ids now until sel (feed ∷ feeds) =
    rw (lease-id until now sel feed) (ap (◌∷◌ feed.id) (lease-ids now until sel feeds))

settle-IsSound :
    (n feed_id : ℕ) (w : World) (r : Result (Unit {0}) × FetchState)
    → IsConsistent n r.1.feed
    → r.1.feed.id ≡ feed_id
    → All (IsConsistent n) w.feeds
    → IsSound n w (settle feed_id w r).1
unfolding settle
settle-IsSound n feed_id w (ok u, s) q i h = record {
  consistent = save_feed-All (IsConsistent n) feed_id s.feed w.feeds q h;
  ids = save_feed-ids feed_id s.feed w.feeds i;
}
settle-IsSound n feed_id w (raise e, s) q i h = record { consistent = h; ids = refl }

module _ (up : ℕ → Upstream) (c : FetchConfig) (now : ℕ)
    (p : 0 < c.intervals.broken_threshold) where
  process_feed-IsSound :
      (feed_id : ℕ) (w : World)
      → All (IsConsistent c.intervals.broken_threshold) w.feeds
      → IsSound c.intervals.broken_threshold w (process_feed up c now feed_id w).1
  unfolding process_feed
  process_feed-IsSound feed_id w h = elim (Option-cases (find_feed feed_id w.feeds)) [
    | inl e ↦ rw (e, process_feed) (record { consistent = h; ids = refl })
    | inr (feed, e) ↦
        let n = c.intervals.broken_threshold in
        let (i, q) = find_feed-All (IsConsistent n) feed_id w.feeds feed e h in
        let a = fetch_one-Advances (up feed_id) c now (session w feed) p in
        rw (e, process_feed)
          (settle-IsSound n feed_id w (fetch_one (up feed_id) c now (session w feed))
            (a.consistent q) (a.id ∙ i) h)
  ]

  process_feeds-IsSound :
      (ids : List ℕ) (w : World)
      → All (IsConsistent c.intervals.broken_threshold) w.feeds
      → IsSound c.intervals.broken_threshold w (process_feeds up c now ids w).1
  unfolding process_feeds
  process_feeds-IsSound [] w h = record { consistent = h; ids = refl }
  process_feeds-IsSound (id ∷ ids) w h =
      let first = process_feed-IsSound id w h in
      let rest = process_feeds-IsSound ids (process_feed up c now id w).1 first.consistent in
      record { consistent = rest.consistent; ids = rest.ids ∙ first.ids }

  -- With a positive broken threshold, a tick leaves every feed consistent if all were, and the
  -- same feeds in the same order, whatever the outside world answers to each fetch and whichever
  -- of the fetches raise.
  pub tick_once-IsSound :
      (claim : ClaimConfig) (locked : ℕ → Bool) (w : World)
      → All (IsConsistent c.intervals.broken_threshold) w.feeds
      → IsSound c.intervals.broken_threshold w (tick_once up c now claim locked w).1
  unfolding tick_once
  tick_once-IsSound claim locked w h =
      elim (Result-split (claim_due_feeds claim now locked w.feeds)) [
        | inr (e, f) ↦ rw (f, tick_once) (record { consistent = h; ids = refl })
        | inl ((ids, feeds), f) ↦
            let (sel, until, l) = claim_due_feeds-feeds claim now locked w.feeds ids feeds f in
            let r =
              process_feeds-IsSound ids (record w { feeds = feeds })
                (rw l (lease-All c.intervals.broken_threshold now until sel w.feeds h)) in
            rw (f, tick_once)
              (record {
                consistent = r.consistent;
                ids = r.ids ∙ ap (map (λ feed. feed.id)) l ∙ lease-ids now until sel w.feeds;
              })
      ]
