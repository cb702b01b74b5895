-- ===== src/Witnesses/Running.antt =====
-- A request to a guarded service, and a few turns of the scheduler's loop.
use feedgate_fetcher.Prelude.{String, ◌*◌, ◌+◌, ◌<◌, none, some, List, [], ◌∷◌, true, false, arith}
use feedgate_fetcher.Prelude.Texts.{codes}
use feedgate_fetcher.Prelude.Time.{second}
use feedgate_fetcher.Exceptions.{fresh, other}
use feedgate_fetcher.Api.Http.{Reply, respond}
use feedgate_fetcher.Api.Feeds.{Database}
use feedgate_fetcher.Api.Router.{Endpoint, delete_feed, literal, OwnPages, serve}
use feedgate_fetcher.Api.Router.Search.{search, search-IsRouter}
use feedgate_fetcher.Api.Router.Guarded.{IsPublic, serve-unauthorised}
use feedgate_fetcher.Scheduler.Loop.{Turn, LoopState, run}
use feedgate_fetcher.Scheduler.Loop.Sound.{Ran, run-Ran}
use feedgate_fetcher.Witnesses.Data.{today, upstream, config, claim, world}
use feedgate_fetcher.Witnesses.Feeds.{feed-IsConsistent, broken_feed-IsConsistent}
use feedgate_fetcher.Witnesses.Api.{db}

-- a deletion that empties the tables, and an answer that changes nothing
abbrev handlers : Endpoint → List String → Database → Reply String × Database
handlers delete_feed values db = (respond "", record db { feeds = [] })
handlers _ values db = (respond "", db)

abbrev first_feed : List String
first_feed = "v1" ∷ "feeds" ∷ "1" ∷ []

abbrev own : OwnPages
own = record {
  paths =
      ("GET", literal "openapi.json" ∷ [])
      ∷ ("GET", literal "docs" ∷ [])
      ∷ ("GET", literal "redoc" ∷ [])
      ∷ [];
  text = λ segments. "<html>";
}

serve-unauthorised_example :
    IsPublic search own
      (codes "secret")
      handlers
      "DELETE"
      first_feed
      (some (codes "guess"))
      db
      (serve search own (codes "secret") handlers "DELETE" first_feed (some (codes "guess")) db)
serve-unauthorised_example =
    serve-unauthorised search own (codes "secret") handlers "DELETE" first_feed
      (some (codes "guess")) db search-IsRouter (λ e. cc) (λ e. cc)

abbrev turn : Turn
turn = record {
  now = today;
  ended_at = today + second;
  locked = λ id. false;
  up = λ id. upstream;
  trouble = none;
  stop_is_set = false;
}

-- a tick that fetches, one that the database refuses, and one more before the stop
abbrev turns : List Turn
turns =
    turn
    ∷ record turn { now = today + 60 * second; trouble = some (fresh other) }
    ∷ record turn { now = today + 120 * second; stop_is_set = true }
    ∷ turn
    ∷ []

abbrev idle : LoopState
idle = record {
  consecutive_errors = 0;
  metrics = record { ok_total = 0; error_total = 0; claimed_total = 0; last_tick = none };
  world = world;
}

abbrev closing : 0 < 3
closing = omega arith

run-Ran_example : Ran config claim closing 60 idle (run config claim 60 false turns idle)
run-Ran_example =
    run-Ran config claim closing 60 false turns idle (omega arith)
      (feed-IsConsistent, (broken_feed-IsConsistent, tt))
