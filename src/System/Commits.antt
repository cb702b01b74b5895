-- ===== src/System/Commits.antt =====
-- About the two steps of a job against `process_feed` of Scheduler, which takes them as one.
use feedgate_fetcher.Prelude.{
  ℕ, zero, suc, ◌<◌, ◌≡◌, ◌∙◌, refl, sym, ap, subst, String, Option, none, some, List, [], ◌∷◌,
  Bool, true, ◌==◌, ==_iff, All, arith, Bool-cases, inl, inr, if◌then◌else◌,
}
use feedgate_fetcher.Prelude.Every.{All-intro}
use feedgate_fetcher.Prelude.Ints.{pos}
use feedgate_fetcher.Models.{Feed, ErrorCode, status_eq, status_eq_iff}
use feedgate_fetcher.Exceptions.{Result, ok, raise}
use feedgate_fetcher.Upsert.{same_text, same_time}
use feedgate_fetcher.Http.{Upstream, FetchConfig, FetchState, fetch_one}
use feedgate_fetcher.Http.Outcome.{fetch_one-Advances}
use feedgate_fetcher.Scheduler.{World, find_feed, save_feed, process_feed}
use feedgate_fetcher.Scheduler
use feedgate_fetcher.Scheduler.Ticks.{find_feed-All}
use feedgate_fetcher.Ssrf.{Network}
use feedgate_fetcher.Url.{UrlRules}
use feedgate_fetcher.Api.Feeds.{Database, find_id}
use feedgate_fetcher.Api.Feeds.Unique.{UniqueFeeds, UniqueFeeds-same}
use feedgate_fetcher.System.{
  System, waiting, proceed, code_place, same_code, column, write_changes, update_one,
  update_changed, settle, end_job, session, load, proceed_job, step, get_elem?,
}
use text.Mathlib.Text.{◌==◌ as str_eq}
use text.Mathlib.TextEquality.{eq_iff}

-- the member at a place of the enumeration
code_at : ℕ → ErrorCode
code_at zero = ErrorCode.dns
code_at (suc zero) = ErrorCode.tcp_refused
code_at (suc (suc zero)) = ErrorCode.tls_error
code_at (suc (suc (suc zero))) = ErrorCode.timeout
code_at (suc (suc (suc (suc zero)))) = ErrorCode.connection
code_at (suc (suc (suc (suc (suc n))))) =
    if n == 0
    then ErrorCode.http_4xx
    else if n == 1
    then ErrorCode.http_410
    else if n == 2
    then ErrorCode.http_5xx
    else if n == 3
    then ErrorCode.http_error
    else if n == 4
    then ErrorCode.rate_limited
    else if n == 5
    then ErrorCode.not_a_feed
    else if n == 6
    then ErrorCode.redirect_loop
    else if n == 7
    then ErrorCode.too_large
    else if n == 8
    then ErrorCode.blocked
    else ErrorCode.other

code_at-code_place : (a : ErrorCode) → code_at (code_place a) ≡ a
unfolding code_at
code_at-code_place ErrorCode.dns = refl
code_at-code_place ErrorCode.tcp_refused = refl
code_at-code_place ErrorCode.tls_error = refl
code_at-code_place ErrorCode.timeout = refl
code_at-code_place ErrorCode.connection = refl
code_at-code_place ErrorCode.http_4xx = refl
code_at-code_place ErrorCode.http_410 = refl
code_at-code_place ErrorCode.http_5xx = refl
code_at-code_place ErrorCode.http_error = refl
code_at-code_place ErrorCode.rate_limited = refl
code_at-code_place ErrorCode.not_a_feed = refl
code_at-code_place ErrorCode.redirect_loop = refl
code_at-code_place ErrorCode.too_large = refl
code_at-code_place ErrorCode.blocked = refl
code_at-code_place ErrorCode.other = refl

same_code-eq : (a b : Option ErrorCode) → same_code a b ≡ true → a ≡ b
same_code-eq none none h = refl
same_code-eq none (some b) h = cc
same_code-eq (some a) none h = cc
same_code-eq (some a) (some b) h =
    ap some (sym (code_at-code_place a) ∙ ap code_at ((==_iff _ _).0 h) ∙ code_at-code_place b)

same_text-eq : (a b : Option String) → same_text a b ≡ true → a ≡ b
same_text-eq none none h = refl
same_text-eq none (some b) h = cc
same_text-eq (some a) none h = cc
same_text-eq (some a) (some b) h = ap some ((eq_iff a b).0 h)

same_time-eq : (a b : Option ℕ) → same_time a b ≡ true → a ≡ b
same_time-eq none none h = refl
same_time-eq none (some b) h = cc
same_time-eq (some a) none h = cc
same_time-eq (some a) (some b) h = ap some ((==_iff a b).0 h)

-- a column that nobody else has written takes the assigned value
column_self {ℓ} :
    {A : Type ℓ} (same : A → A → Bool)
    → ((a b : A) → same a b ≡ true → a ≡ b)
    → (a b : A) → column same a b a ≡ b
column_self same eq a b = elim (Bool-cases (same a b)) [
  | inl e ↦ rw e (eq a b e)
  | inr e ↦ rw e refl
]

write_changes_self :
    (loaded assigned : Feed)
    → assigned.id ≡ loaded.id
    → assigned.url ≡ loaded.url
    → assigned.created_at ≡ loaded.created_at
    → write_changes loaded assigned loaded ≡ assigned
unfolding write_changes
write_changes_self loaded assigned i u c =
    rw
      (
        column_self str_eq (λ a b. (eq_iff a b).0) loaded.effective_url assigned.effective_url,
        column_self same_text same_text-eq loaded.title assigned.title,
        column_self status_eq (λ a b. (status_eq_iff a b).0) loaded.status assigned.status,
        column_self same_time same_time-eq loaded.last_successful_fetch_at
            assigned.last_successful_fetch_at,
        column_self same_time same_time-eq loaded.last_attempt_at assigned.last_attempt_at,
        column_self same_code same_code-eq loaded.last_error_code assigned.last_error_code,
        column_self ◌==◌ (λ a b. (==_iff a b).0) loaded.next_fetch_at assigned.next_fetch_at,
        column_self ◌==◌ (λ a b. (==_iff a b).0) loaded.consecutive_failures
            assigned.consecutive_failures,
        column_self same_text same_text-eq loaded.etag assigned.etag,
        column_self same_text same_text-eq loaded.last_modified assigned.last_modified,
        sym i,
        sym u,
        sym c,
      )
      refl

-- where the row is as the session has loaded it, its UPDATE makes it the session's
update_changed-save_feed :
    (loaded assigned : Feed) (feeds : List Feed)
    → write_changes loaded assigned loaded ≡ assigned
    → All (λ f. (f.id == loaded.id) ≡ true → f ≡ loaded) feeds
    → update_changed loaded assigned feeds ≡ save_feed loaded.id assigned feeds
unfolding update_changed update_one save_feed
update_changed-save_feed loaded assigned [] w h = refl
update_changed-save_feed loaded assigned (f ∷ feeds) w h =
    let ih = update_changed-save_feed loaded assigned feeds w h.1 in
    elim (Bool-cases (f.id == loaded.id)) [
      | inl k ↦ rw k (
          ap (λ (g : Feed). g ∷ update_changed loaded assigned feeds)
            (ap (λ (g : Feed). write_changes loaded assigned g) (h.0 k) ∙ w)
          ∙ ap (◌∷◌ assigned) ih)
      | inr k ↦ rw k (ap (◌∷◌ f) ih)
    ]

find_feed-find_id : (id : ℕ) (feeds : List Feed) → find_id (pos id) feeds ≡ find_feed id feeds
unfolding find_id find_feed
find_feed-find_id id [] = refl
find_feed-find_id id (f ∷ feeds) = ground (arith, find_feed-find_id id feeds)

-- the world of a worker whose process has these fallback hosts
abbrev pub world_of : List (List ℕ) → Database → World
world_of hosts db = record {
  feeds = db.feeds;
  table = db.table;
  fallback_hosts = hosts;
  transitions = [];
  observed = [];
}

settle-eq :
    (loaded : Feed) (hosts : List (List ℕ)) (db : Database) (r : Result (Unit {0}) × FetchState)
    → update_changed loaded r.1.feed db.feeds ≡ save_feed loaded.id r.1.feed db.feeds
    → ((settle loaded r db).feeds ≡ (Scheduler.settle loaded.id (world_of hosts db) r).1.feeds)
      × ((settle loaded r db).table ≡ (Scheduler.settle loaded.id (world_of hosts db) r).1.table)
unfolding settle Scheduler.settle
settle-eq loaded hosts db (ok u, s) e = (e, refl)
settle-eq loaded hosts db (raise x, s) e = (refl, refl)

module _ (rules : UrlRules) (net : Network) (up : Upstream) (c : FetchConfig)
    (p : 0 < c.intervals.broken_threshold) where
  end_job-process_feed :
      (hosts : List (List ℕ)) (now : ℕ) (row : Feed) (db : Database)
      → UniqueFeeds db.feeds
      → find_feed row.id db.feeds ≡ some row
      → ((end_job row (fetch_one up c now (session hosts row db)) db).feeds
          ≡ (process_feed (λ id. up) c now row.id (world_of hosts db)).1.feeds)
        × ((end_job row (fetch_one up c now (session hosts row db)) db).table
            ≡ (process_feed (λ id. up) c now row.id (world_of hosts db)).1.table)
  unfolding end_job process_feed
  end_job-process_feed hosts now row db u e =
      let r = fetch_one up c now (session hosts row db) in
      let a = fetch_one-Advances up c now (session hosts row db) p in
      rw (e, end_job)
        (rw (e, process_feed)
          (settle-eq row hosts db r (
            update_changed-save_feed row r.1.feed db.feeds
              (write_changes_self row r.1.feed a.id a.url a.created_at)
              (UniqueFeeds-same db.feeds row (pos row.id) u
                (find_feed-find_id row.id db.feeds ∙ e)))))

  -- A job whose two steps follow one another directly leaves the feeds and the entries that
  -- `_process_feed` leaves when it is taken as one: where nobody writes in between, the columns
  -- that the session has changed make the whole row. The URLs and ids of feeds must be unique, the
  -- feed there, and the broken threshold positive.
  pub proceed-process_feed :
      (hosts : List (List ℕ)) (i feed_id now : ℕ) (row : Feed) (s : System)
      → UniqueFeeds (s.db).feeds
      → get_elem? s.jobs i ≡ some (waiting feed_id now)
      → find_feed feed_id (s.db).feeds ≡ some row
      → let after =
          (step rules net (proceed 0 up c hosts) (step rules net (proceed i up c hosts) s)).db in
        let once = (process_feed (λ id. up) c now feed_id (world_of hosts s.db)).1 in
        (after.feeds ≡ once.feeds) × (after.table ≡ once.table)
  unfolding step proceed_job load
  proceed-process_feed hosts i feed_id now row s u j e =
      let same =
        (find_feed-All (λ f. Unit {0}) feed_id (s.db).feeds row e
          (All-intro (λ f. tt) (s.db).feeds)).0 in
      let found = subst (λ id. find_feed id (s.db).feeds ≡ some row) (sym same) e in
      let w = world_of hosts s.db in
      let done = end_job row (fetch_one up c now (session hosts row s.db)) s.db in
      rw j (
        rw (e, load)
          (subst
            (λ id.
              (done.feeds ≡ (process_feed (λ _. up) c now id w).1.feeds)
              × (done.table ≡ (process_feed (λ _. up) c now id w).1.table))
            same (end_job-process_feed hosts now row s.db u found)))
