-- ===== src/Seeding/Twice.antt =====
-- About two runs of scripts/seed_feeds.py, one after the other.
use feedgate_fetcher.Prelude.{
  ℕ, ◌+◌, ◌≡◌, refl, ap, ◌∙◌, subst, String, none, some, List, [], ◌∷◌, ◌++◌, true, length, All,
  Option-cases, inl, inr, arith,
}
use feedgate_fetcher.Prelude.Find.{find-append_some}
use feedgate_fetcher.Models.{Feed}
use feedgate_fetcher.Api.Http.{Reply, respond}
use feedgate_fetcher.Api.Feeds.{Database, find_url, new_feed, register, create_feed, checked_url}
use feedgate_fetcher.Api.Feeds.Create.{
  create_feed-register, register-new, register-known, find_url-append,
}
use feedgate_fetcher.Api.Access.{handle, end_session, require_api_key}
use feedgate_fetcher.Api.Access.Safety.{handle-admitted}
use feedgate_fetcher.Seeding.{Service, feed_create, post_feed, Tally, tally, seed, exit_code}
use text.Mathlib.Text.{◌==◌ as str_eq}

-- A URL whose request reaches the service and passes its checks.
pub record IsAccepted (service : Service) (url : String) : Type 0 where
  pub reaches : service.reaches url ≡ true
  pub payload_url : String
  pub reads : feed_create service.http_url url ≡ some payload_url
  pub registered_url : String
  pub checked : checked_url service.rules service.network payload_url ≡ respond registered_url

-- a feed has the URL
abbrev Known : String → List Feed → Type 0
Known url feeds = (feed : Feed) × (find_url url feeds ≡ some feed)

Known-append : (url : String) (feeds more : List Feed) → Known url feeds → Known url (feeds ++ more)
Known-append url feeds more (feed, e) =
    (feed, unfold find_url in find-append_some (λ f. str_eq f.url url) feeds more e)

module _ (service : Service) (open_service : service.configured_key ≡ []) (now db_now : ℕ) where
  admitted : require_api_key service.configured_key none ≡ respond tt
  admitted = ap (λ key. require_api_key key none) open_service ∙ unfold require_api_key in refl

  abbrev registration : String → Database → Reply (ℕ × Feed) × Database
  registration url db = register url now db_now db

  post_feed-register :
      (url : String) (db : Database) (a : IsAccepted service url) (status : ℕ) (feed : Feed)
      (after : Database)
      → register a.registered_url now db_now db ≡ (respond (status, feed), after)
      → post_feed service now db_now url db ≡ (status, after)
  unfolding post_feed
  post_feed-register url db a status feed after e = rw (post_feed, a.reaches, a.reads, handled) refl
    where
      handled :
          handle service.configured_key none
            (create_feed service.rules service.network a.payload_url now db_now)
            db
          ≡ (respond (status, feed), after)
      handled =
          handle-admitted service.configured_key none
            (create_feed service.rules service.network a.payload_url now db_now) db admitted
          ∙ ap (end_session db) (
              create_feed-register service.rules service.network a.payload_url a.registered_url now
                db_now db a.checked
              ∙ e)
          ∙ unfold end_session in refl

  -- a first post creates the feed, and a later one finds it
  post_feed-new :
      (url : String) (db : Database) (a : IsAccepted service url)
      → find_url a.registered_url db.feeds ≡ none
      → post_feed service now db_now url db ≡ (
        201,
        record db {
          feeds = db.feeds ++ new_feed db.next_feed_id a.registered_url now db_now ∷ [];
          next_feed_id = db.next_feed_id + 1;
        },
      )
  post_feed-new url db a e =
      post_feed-register url db a 201 _ _ (register-new a.registered_url now db_now db e)

  post_feed-known :
      (url : String) (db : Database) (a : IsAccepted service url) (feed : Feed)
      → find_url a.registered_url db.feeds ≡ some feed
      → post_feed service now db_now url db
        ≡ (200, record db { next_feed_id = db.next_feed_id + 1 })
  post_feed-known url db a feed e =
      post_feed-register url db a 200 feed _ (register-known a.registered_url now db_now db feed e)

  post_feed-knows :
      (url : String) (db : Database) (a : IsAccepted service url)
      → Known a.registered_url (post_feed service now db_now url db).1.feeds
  post_feed-knows url db a = elim (Option-cases (find_url a.registered_url db.feeds)) [
    | inl e ↦ rw (post_feed-new url db a e) (
      new_feed db.next_feed_id a.registered_url now db_now,
      find_url-append a.registered_url db.feeds _ e refl,
    )
    | inr (feed, e) ↦ rw (post_feed-known url db a feed e) (feed, e)
  ]

  post_feed-keeps :
      (url : String) (db : Database) (a : IsAccepted service url) (v : String)
      → Known v db.feeds
      → Known v (post_feed service now db_now url db).1.feeds
  post_feed-keeps url db a v k = elim (Option-cases (find_url a.registered_url db.feeds)) [
    | inl e ↦ rw (post_feed-new url db a e) (Known-append v db.feeds _ k)
    | inr (feed, e) ↦ rw (post_feed-known url db a feed e) k
  ]

abbrev pub none_yet : Tally
none_yet = record { created = 0; existing = 0; failed = 0 }

abbrev AllKnown :
    (service : Service) (urls : List String) → All (IsAccepted service) urls → List Feed → Type 0
AllKnown service [] accepted feeds = Unit
AllKnown service (url ∷ urls) accepted feeds =
    Known accepted.0.registered_url feeds × AllKnown service urls accepted.1 feeds

module _ (service : Service) (open_service : service.configured_key ≡ []) where
  module _ (now db_now : ℕ) where
    seed-keeps :
        (urls : List String) (t : Tally) (db : Database) (v : String)
        → All (IsAccepted service) urls
        → Known v db.feeds
        → Known v (seed service now db_now urls t db).1.feeds
    unfolding seed
    seed-keeps [] t db v accepted k = k
    seed-keeps (url ∷ urls) t db v accepted k =
        seed-keeps urls _ _ v accepted.1
          (post_feed-keeps service open_service now db_now url db accepted.0 v k)

    seed-knows :
        (urls : List String) (t : Tally) (db : Database) (accepted : All (IsAccepted service) urls)
        → AllKnown service urls accepted (seed service now db_now urls t db).1.feeds
    unfolding seed
    seed-knows [] t db accepted = tt
    seed-knows (url ∷ urls) t db accepted = (
      seed-keeps urls _ _ accepted.0.registered_url accepted.1
          (post_feed-knows service open_service now db_now url db accepted.0),
      seed-knows urls _ _ accepted.1,
    )

    -- every URL is known: nothing is created and nothing fails
    record AllExist (urls : List String) (t : Tally) (db : Database) (r : Tally × Database)
        : Type 0 where
      created : r.0.created ≡ t.created
      existing : r.0.existing ≡ t.existing + length urls
      failed : r.0.failed ≡ t.failed
      feeds : r.1.feeds ≡ db.feeds

    seed-existing :
        (urls : List String) (t : Tally) (db : Database) (accepted : All (IsAccepted service) urls)
        → AllKnown service urls accepted db.feeds
        → AllExist urls t db (seed service now db_now urls t db)
    unfolding seed tally
    seed-existing [] t db accepted k = record {
      created = refl;
      existing = omega arith;
      failed = refl;
      feeds = refl;
    }
    seed-existing (url ∷ urls) t db accepted ((feed, e), k) =
        let next = record db { next_feed_id = db.next_feed_id + 1 } in
        let rest = seed-existing urls (record t { existing = t.existing + 1 }) next accepted.1 k in
        rw (post_feed-known service open_service now db_now url db accepted.0 feed e) (record {
          created = rest.created;
          existing = omega (arith, rest.existing);
          failed = rest.failed;
          feeds = rest.feeds;
        })

  -- If the service asks for no key and every URL of the catalogue reaches it and passes its
  -- checks, then a second run of the seeding script, at whatever times, creates nothing, finds
  -- every URL registered, exits with 0 and leaves the feeds as the first run left them.
  pub seed_twice :
      (urls : List String) (now db_now now' db_now' : ℕ) (db first second : Database)
      (counts counts' : Tally)
      → All (IsAccepted service) urls
      → seed service now db_now urls none_yet db ≡ (counts, first)
      → seed service now' db_now' urls none_yet first ≡ (counts', second)
      → (counts'.created ≡ 0)
        × (counts'.existing ≡ length urls)
        × (exit_code counts'.failed ≡ 0)
        × (second.feeds ≡ first.feeds)
  seed_twice urls now db_now now' db_now' db first second counts counts' accepted e f =
      let known =
        subst (λ r. AllKnown service urls accepted r.1.feeds) e
          (seed-knows now db_now urls none_yet db accepted) in
      let r =
        subst (AllExist now' db_now' urls none_yet first) f
          (seed-existing now' db_now' urls none_yet first accepted known) in
      (
        r.created,
        omega (arith, r.existing),
        ap exit_code r.failed ∙ (unfold exit_code in refl),
        r.feeds,
      )
