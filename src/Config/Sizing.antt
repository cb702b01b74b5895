-- ===== src/Config/Sizing.antt =====
-- About the settings of config.py: when the jobs of a tick fit into a lease and into a shutdown.
use feedgate_fetcher.Prelude.{
  ℕ, ◌+◌, ◌*◌, ◌≤◌, ◌<◌, ◌≡◌, refl, sym, subst, Option, some, List, [], ◌∷◌, map, Bool, true,
  length-map, All, arith, Bool-cases, inl, inr,
}
use feedgate_fetcher.Prelude.Every.{All-map, All-intro, All-implies}
use feedgate_fetcher.Prelude.Time.{second}
use feedgate_fetcher.Models.{Feed}
use feedgate_fetcher.Exceptions.{ok}
use feedgate_fetcher.Scheduler.{lease, select_due, claim_due_feeds}
use feedgate_fetcher.Scheduler.Claims.{
  among, id_of, returned_ids, returned_ids-among, claim_due_feeds-Claim, lease-id,
}
use feedgate_fetcher.Scheduler.Claims.Size.{length-claim_due_feeds}
use feedgate_fetcher.Scheduler.Permits.{gather_time}
use feedgate_fetcher.Api.Feeds.Unique.{UniqueFeeds}
use feedgate_fetcher.App.{Ending, returned, clean, drain_background_task}
use feedgate_fetcher.App.Drains.{drain-gather_time}
use feedgate_fetcher.Config.{Settings}
use feedgate_fetcher.Config.Wiring.{claim_config}

-- so many rounds of jobs, of such a length, fit
pub record IsSized (s : Settings) (rounds longest : ℕ) : Type 0 where
  pub permits : 0 < s.fetch_concurrency
  pub batch : s.fetch_claim_batch_size ≤ rounds * s.fetch_concurrency
  pub in_lease : rounds * longest ≤ s.fetch_claim_ttl_seconds * second
  pub in_drain : rounds * longest ≤ s.shutdown_drain

-- what is so at the end of a tick's jobs
pub record IsInTime (s : Settings) (now : ℕ) (ids : List ℕ) (feeds' : List Feed)
    (durations : List ℕ) (on_cancel : Option Ending) : Type 0 where
  pub end : ℕ
  pub ends : gather_time s.fetch_concurrency durations ≡ some end
  -- the rows that the claim has returned are still leased
  pub still_leased : All (λ feed. among ids feed.id ≡ true → now + end ≤ feed.next_fetch_at) feeds'
  -- a shutdown that comes with the tick lets it end
  pub drained :
      drain_background_task
        (some (record { finish = some (end, returned); on_cancel = on_cancel }))
        s.shutdown_drain
      ≡ (true, clean end)

lease-next_fetch_at :
    (until now : ℕ) (sel : List ℕ) (feed : Feed)
    → among sel feed.id ≡ true
    → (lease until now sel feed).next_fetch_at ≡ until
unfolding lease
lease-next_fetch_at until now sel feed e = rw e refl

leased_rows :
    (until now : ℕ) (sel : List ℕ) (feeds all : List Feed)
    → All
        (λ feed. among (returned_ids sel all) feed.id ≡ true → feed.next_fetch_at ≡ until)
        (map (lease until now sel) feeds)
leased_rows until now sel [] all = tt
leased_rows until now sel (feed ∷ feeds) all = (row, leased_rows until now sel feeds all)
  where
    row :
        among (returned_ids sel all) (lease until now sel feed).id ≡ true
        → (lease until now sel feed).next_fetch_at ≡ until
    row e = elim (Bool-cases (among sel feed.id)) [
      | inl k ↦ lease-next_fetch_at until now sel feed k
      | inr k ↦
          let e' =
            subst (λ id. among (returned_ids sel all) id ≡ true) (lease-id until now sel feed) e in
          let no = returned_ids-among sel all feed.id k in absurd (cc (e', no))
    ]

claimed-leased :
    (s : Settings) (now : ℕ) (locked : ℕ → Bool) (feeds feeds' : List Feed) (ids : List ℕ)
    → claim_due_feeds (claim_config s) now locked feeds ≡ ok (ids, feeds')
    → All
        (λ feed.
          among ids feed.id ≡ true → feed.next_fetch_at ≡ now + s.fetch_claim_ttl_seconds * second)
        feeds'
claimed-leased s now locked feeds feeds' ids e =
    let p = claim_due_feeds-Claim (claim_config s) now locked feeds ids feeds' e in
    let until = now + s.fetch_claim_ttl_seconds * second in
    let sel = map id_of (select_due (claim_config s) now locked p.probe_cutoff feeds) in
    let IsLeased =
      λ (ids : List ℕ) (feed : Feed). (among ids feed.id ≡ true → feed.next_fetch_at ≡ until) in
    subst (λ ids. All (IsLeased ids) feeds') (sym p.selected)
      (subst (All (IsLeased (returned_ids sel feeds))) (sym p.leased)
        (leased_rows until now sel feeds feeds))

-- If the settings allow at least one fetch at a time, so many rounds of fetches are enough for a
-- batch, and so many times some length fit both into a lease and into the drain of a shutdown; and
-- if the feeds have unique ids and URLs and no job that a claim starts takes longer than that
-- length, then all jobs of the claim end, each row that it returned is leased at least until then,
-- and a shutdown that begins with the tick lets it end by itself, without a cancellation.
pub claim_due_feeds-IsInTime :
    (s : Settings) (rounds longest now : ℕ) (locked : ℕ → Bool) (feeds feeds' : List Feed)
    (ids : List ℕ) (took : ℕ → ℕ) (on_cancel : Option Ending)
    → IsSized s rounds longest
    → UniqueFeeds feeds
    → ((id : ℕ) → took id ≤ longest)
    → claim_due_feeds (claim_config s) now locked feeds ≡ ok (ids, feeds')
    → IsInTime s now ids feeds' (map took ids) on_cancel
claim_due_feeds-IsInTime s rounds longest now locked feeds feeds' ids took on_cancel z u short e =
    let few = length-claim_due_feeds (claim_config s) now locked feeds feeds' ids u e in
    let (end, ends, bound, drained) =
      drain-gather_time s.fetch_concurrency rounds longest s.shutdown_drain (map took ids) on_cancel
        z.permits (All-map took (λ d. d ≤ longest) ids (All-intro short ids))
        (omega (arith, few, length-map took ids, z.batch)) z.in_drain in
    record {
      end = end;
      ends = ends;
      still_leased =
          All-implies (λ feed row k. omega (arith, row k, bound, z.in_lease)) feeds'
            (claimed-leased s now locked feeds feeds' ids e);
      drained = drained;
    }
