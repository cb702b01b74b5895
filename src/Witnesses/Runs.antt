-- ===== src/Witnesses/Runs.antt =====
-- The parts of the service interleaved, at concrete inputs.
use feedgate_fetcher.Prelude.{
  ◌+◌, ◌*◌, ◌≡◌, refl, some, none, List, [], ◌∷◌, ◌==◌, false, any, filter, arith,
}
use feedgate_fetcher.Prelude.Ints.{pos}
use feedgate_fetcher.Prelude.Sort.{sort}
use feedgate_fetcher.Prelude.Time.{day, add_delta, sub_delta}
use feedgate_fetcher.Models.{Feed, active, http_5xx}
use feedgate_fetcher.FeedState.{mark_fetch_failure}
use feedgate_fetcher.FeedState.Lifecycle.{IsConsistent}
use feedgate_fetcher.Scheduler.{find_feed, lease, is_due, claim_due_feeds, process_feed}
use feedgate_fetcher.Api.Feeds.{reactivated, reactivate_feed}
use feedgate_fetcher.Api.Feeds.Tables.{IsValidDatabase}
use feedgate_fetcher.System.{
  System, Event, create, delete, reactivate, claim, proceed, crash, sweep, waiting, write_changes,
  step, run,
}
use feedgate_fetcher.System.Valid.{run-IsValidDatabase}
use feedgate_fetcher.System.Commits.{world_of, proceed-process_feed}
use feedgate_fetcher.System.Exclusive.{run-exclusive}
use feedgate_fetcher.System.Races.{write_changes-reactivated}
use feedgate_fetcher.Witnesses.Data.{today, network, upstream, config, broken_feed}
use feedgate_fetcher.Witnesses.Data
use feedgate_fetcher.Witnesses.Registry.{rules}
use feedgate_fetcher.Witnesses.Api.{db, db-IsValidDatabase, two_feeds-UniqueFeeds, second_feed}

abbrev idle : System
idle = record { db = db; jobs = [] }

-- a worker claims both feeds; one is deleted while its job is under way, and comes back to find it gone
abbrev day_of_events : List Event
day_of_events =
    claim Data.claim today (λ id. false)
    ∷ proceed 0 upstream config []
    ∷ delete (pos 1)
    ∷ proceed 0 upstream config []
    ∷ reactivate (pos 2) (today + 1)
    ∷ crash 0
    ∷ create "http://blog/new/" (today + 2) (today + 2)
    ∷ sweep (record { retention_days = 1; retention_min_per_feed = 1; retention_batch_size = 0 })
        (today + 3) none
    ∷ []

run-IsValidDatabase_example : IsValidDatabase (run rules network day_of_events idle).db
run-IsValidDatabase_example =
    run-IsValidDatabase rules network day_of_events idle db-IsValidDatabase

-- between the claims, another worker claims, and a job loads its row
abbrev quiet_events : List Event
quiet_events =
    claim Data.claim (today + 1) (λ id. false)
    ∷ proceed 0 upstream config []
    ∷ reactivate (pos 2) (today + 2)
    ∷ []

abbrev leased_1 : Feed
leased_1 = record (Data.feed) { next_fetch_at = today + 90_000_000; last_attempt_at = some today }

abbrev leased_2 : Feed
leased_2 = record second_feed { next_fetch_at = today + 90_000_000; last_attempt_at = some today }

abbrev leased_3 : Feed
leased_3 = record second_feed {
  status = active;
  last_error_code = none;
  consecutive_failures = 0;
  next_fetch_at = today + 90_000_003;
  last_attempt_at = some (today + 3);
}

run-exclusive_example : any (λ i. i == 1) (2 ∷ []) ≡ false
unfolding run find_feed reactivate_feed claim_due_feeds sub_delta add_delta sort lease is_due any
    filter
run-exclusive_example =
    run-exclusive rules network Data.claim Data.claim today (today + 3) (λ id. false) (λ id. false)
      1 quiet_events idle (1 ∷ 2 ∷ []) (2 ∷ []) (leased_1 ∷ leased_2 ∷ [])
      (leased_1 ∷ leased_3 ∷ []) db-IsValidDatabase refl refl (refl, (refl, (refl, tt))) refl
      (omega arith) (omega arith)

abbrev one_job : System
one_job = record idle { jobs = waiting 1 today ∷ [] }

proceed-process_feed_example :
    ((step rules network
        (proceed 0 upstream config [])
        (step rules network (proceed 0 upstream config []) one_job)).db.feeds
      ≡ (process_feed (λ id. upstream) config today 1 (world_of [] db)).1.feeds)
    × ((step rules network
          (proceed 0 upstream config [])
          (step rules network (proceed 0 upstream config []) one_job)).db.table
        ≡ (process_feed (λ id. upstream) config today 1 (world_of [] db)).1.table)
proceed-process_feed_example =
    proceed-process_feed rules network upstream config (omega arith) [] 0 1 today (Data.feed)
      one_job two_feeds-UniqueFeeds refl (unfold find_feed in refl)

abbrev lately : Feed
lately = record broken_feed { last_successful_fetch_at = some (99 * day) }

-- the row after the reactivation and the commit
abbrev raced : Feed
raced =
    write_changes lately
      (record ((mark_fetch_failure lately today http_5xx 3 7).0) { next_fetch_at = today + 60 })
      (reactivated (today + 1) lately).0

write_changes-reactivated_example :
    (raced.status ≡ active) × (raced.consecutive_failures ≡ 6) × ¬ IsConsistent 3 raced
write_changes-reactivated_example =
    write_changes-reactivated lately today (today + 1) (today + 60) http_5xx 3 7 refl
      (record { closed = λ e. cc; opened = λ e. omega arith }) (unfold mark_fetch_failure in refl)
