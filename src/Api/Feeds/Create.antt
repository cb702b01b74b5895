-- ===== src/Api/Feeds/Create.antt =====
-- About `create_feed` of api/feeds.py.
use feedgate_fetcher.Prelude.{
  ℕ, ◌+◌, ◌≡◌, refl, ap, sym, ◌∙◌, subst, Option, none, some, String, List, [], ◌∷◌, ◌++◌, true,
  false, inl, inr, All, All-append, Option-cases,
}
use feedgate_fetcher.Prelude.Find.{find-append_none, find-first}
use feedgate_fetcher.Exceptions.{ok, Result-cases}
use feedgate_fetcher.Models.{Feed}
use feedgate_fetcher.Ssrf.{Network, validate_public_url}
use feedgate_fetcher.Url.{UrlRules}
use feedgate_fetcher.Api.Http.{Reply, respond, http_error, Reply-cases}
use feedgate_fetcher.Api.Feeds.{
  Database, find_url, answer, new_feed, insert_feed, create_feed, register, normalized, validated,
  checked_url,
}
use text.Mathlib.Text.{◌==◌ as str_eq}
use text.Mathlib.TextPositions.{eq_refl}

-- the row that was appended is the one that is found
pub find_url-append :
    (url : String) (feeds : List Feed) (new : Feed)
    → find_url url feeds ≡ none
    → new.url ≡ url
    → find_url url (feeds ++ new ∷ []) ≡ some new
unfolding find_url
find_url-append url feeds new e same =
    find-append_none (λ feed. str_eq feed.url url) feeds (new ∷ []) e
    ∙ find-first (λ feed. str_eq feed.url url) new []
        (subst (λ u. str_eq u url ≡ true) (sym same) (eq_refl url))

insert_feed-new :
    (url : String) (now db_now : ℕ) (db : Database)
    → find_url url db.feeds ≡ none
    → insert_feed url now db_now db ≡ (
      some db.next_feed_id,
      record db {
        feeds = db.feeds ++ new_feed db.next_feed_id url now db_now ∷ [];
        next_feed_id = db.next_feed_id + 1;
      },
    )
unfolding insert_feed
insert_feed-new url now db_now db e = rw (insert_feed, e) refl

insert_feed-known :
    (url : String) (now db_now : ℕ) (db : Database) (feed : Feed)
    → find_url url db.feeds ≡ some feed
    → insert_feed url now db_now db ≡ (none, record db { next_feed_id = db.next_feed_id + 1 })
unfolding insert_feed
insert_feed-known url now db_now db feed e = rw (insert_feed, e) refl

pub register-new :
    (url : String) (now db_now : ℕ) (db : Database)
    → find_url url db.feeds ≡ none
    → register url now db_now db ≡ (
      respond (201, new_feed db.next_feed_id url now db_now),
      record db {
        feeds = db.feeds ++ new_feed db.next_feed_id url now db_now ∷ [];
        next_feed_id = db.next_feed_id + 1;
      },
    )
unfolding register answer
register-new url now db_now db e =
    ap (answer url) (insert_feed-new url now db_now db e)
    ∙ rw (answer, find_url-append url db.feeds (new_feed db.next_feed_id url now db_now) e refl)
        refl

pub register-known :
    (url : String) (now db_now : ℕ) (db : Database) (feed : Feed)
    → find_url url db.feeds ≡ some feed
    → register url now db_now db
      ≡ (respond (200, feed), record db { next_feed_id = db.next_feed_id + 1 })
unfolding register answer
register-known url now db_now db feed e =
    ap (answer url) (insert_feed-known url now db_now db feed e) ∙ rw (answer, e) refl

register_lem :
    (url : String) (now db_now : ℕ) (db : Database)
    → register url now db_now db ≡ elim (find_url url db.feeds) [
      | none ↦ (
        respond (201, new_feed db.next_feed_id url now db_now),
        record db {
          feeds = db.feeds ++ new_feed db.next_feed_id url now db_now ∷ [];
          next_feed_id = db.next_feed_id + 1;
        },
      )
      | some feed ↦ (respond (200, feed), record db { next_feed_id = db.next_feed_id + 1 })
    ]
register_lem url now db_now db = elim (Option-cases (find_url url db.feeds)) [
  | inl e ↦ register-new url now db_now db e ∙ rw e refl
  | inr (feed, e) ↦ register-known url now db_now db feed e ∙ rw e refl
]

abbrev answered : Reply (ℕ × Feed) → Option Feed
answered (respond (status, feed)) = some feed
answered (http_error status) = none

-- the feed of an answer is stored under its URL
answer-stored :
    (url : String) (new_id : Option ℕ) (db : Database) (status : ℕ) (feed : Feed)
    → (answer url (new_id, db)).0 ≡ respond (status, feed)
    → find_url url db.feeds ≡ some feed
unfolding answer
answer-stored url new_id db status feed r = elim (Option-cases (find_url url db.feeds)) [
  | inl e ↦ let r' = rw (e, answer) at r in absurd (cc r')
  | inr (g, e) ↦ let r' = rw (e, answer) at r in e ∙ ap answered r'
]

register-stored :
    (url : String) (now db_now : ℕ) (db : Database) (status : ℕ) (feed : Feed)
    → (register url now db_now db).0 ≡ respond (status, feed)
    → find_url url (register url now db_now db).1.feeds ≡ some feed
unfolding register
register-stored url now db_now db status feed r =
    let x = insert_feed url now db_now db in answer-stored url x.0 x.1 status feed r

module _ (rules : UrlRules) (net : Network) where
  pub create_feed-register :
      (payload_url url : String) (now db_now : ℕ) (db : Database)
      → checked_url rules net payload_url ≡ respond url
      → create_feed rules net payload_url now db_now db ≡ register url now db_now db
  unfolding create_feed
  create_feed-register payload_url url now db_now db c = rw (create_feed, c) refl

  create_feed-refused :
      (payload_url : String) (now db_now : ℕ) (db : Database) (status : ℕ)
      → checked_url rules net payload_url ≡ http_error status
      → create_feed rules net payload_url now db_now db ≡ (http_error status, db)
  unfolding create_feed
  create_feed-refused payload_url now db_now db status c = rw (create_feed, c) refl

  checked_url-same :
      (a b : String)
      → normalized rules a ≡ normalized rules b
      → checked_url rules net a ≡ checked_url rules net b
  unfolding checked_url
  checked_url-same a b e = rw e refl

  -- For a URL that passes the checks, a registration answers 201 with a new active feed, due at
  -- once and behind the others, when no feed has the normal form of the URL, and 200 with the
  -- stored feed, the feeds as they were, when one has it; it never fails.
  pub create_feed_lem :
      (payload_url url : String) (now db_now : ℕ) (db : Database)
      → checked_url rules net payload_url ≡ respond url
      → create_feed rules net payload_url now db_now db ≡ elim (find_url url db.feeds) [
        | none ↦ (
          respond (201, new_feed db.next_feed_id url now db_now),
          record db {
            feeds = db.feeds ++ new_feed db.next_feed_id url now db_now ∷ [];
            next_feed_id = db.next_feed_id + 1;
          },
        )
        | some feed ↦ (respond (200, feed), record db { next_feed_id = db.next_feed_id + 1 })
      ]
  create_feed_lem payload_url url now db_now db c =
      create_feed-register payload_url url now db_now db c ∙ register_lem url now db_now db

  -- Registering again answers 200 with the same feed and leaves the feeds as they were, at
  -- whatever times, if the first registration succeeded and both texts have one normal form.
  pub create_feed-again :
      (payload_url again : String) (now db_now now' db_now' : ℕ) (db : Database) (status : ℕ)
      (feed : Feed)
      → (create_feed rules net payload_url now db_now db).0 ≡ respond (status, feed)
      → normalized rules again ≡ normalized rules payload_url
      → (create_feed rules net again now' db_now'
            (create_feed rules net payload_url now db_now db).1).0
          ≡ respond (200, feed)
        × ((create_feed rules net again now' db_now'
              (create_feed rules net payload_url now db_now db).1).1.feeds
            ≡ (create_feed rules net payload_url now db_now db).1.feeds)
  create_feed-again payload_url again now db_now now' db_now' db status feed r same =
      elim (Reply-cases (checked_url rules net payload_url)) [
        | inl (s, c) ↦
            absurd (cc (sym r ∙ ap (λ x. x.0) (create_feed-refused payload_url now db_now db s c)))
        | inr (url, c) ↦
            let first = create_feed-register payload_url url now db_now db c in
            let stored =
              register-stored url now db_now db status feed (sym (ap (λ x. x.0) first) ∙ r) in
            let after = (register url now db_now db).1 in
            rw
              (
                first,
                create_feed-register again url now' db_now' after
                    (checked_url-same again payload_url same ∙ c),
                register-known url now' db_now' after feed stored,
              )
              (refl, refl)
      ]

  validated_lem :
      (u url : String) → validated net u ≡ respond url → validate_public_url net url false ≡ ok tt
  unfolding validated
  validated_lem u url v = elim (Result-cases (validate_public_url net u false)) [
    | inl k ↦
        let v' : respond u ≡ respond url = rw (k, validated) at v in
        subst (λ x. validate_public_url net x false ≡ ok tt) (ap (λ r. body u r) v') k
    | inr (x, k) ↦ let v' = rw (k, validated) at v in absurd (cc v')
  ]
    where
      body : String → Reply String → String
      body d (respond x) = x
      body d (http_error s) = d

  checked_url-validated :
      (payload_url url : String)
      → checked_url rules net payload_url ≡ respond url
      → validate_public_url net url false ≡ ok tt
  unfolding checked_url
  checked_url-validated payload_url url c = elim (Reply-cases (normalized rules payload_url)) [
    | inl (s, e) ↦ let c' = rw (e, checked_url) at c in absurd (cc c')
    | inr (u, e) ↦ let c' = rw (e, checked_url) at c in validated_lem u url c'
  ]

  -- If every feed of the table has a URL that passes the check of a registration, an allowed
  -- scheme and a host that is no literal address of a blocked range, then so it is after a
  -- registration.
  pub create_feed-validated :
      (payload_url : String) (now db_now : ℕ) (db : Database)
      → All (λ feed. validate_public_url net feed.url false ≡ ok tt) db.feeds
      → All
          (λ feed. validate_public_url net feed.url false ≡ ok tt)
          (create_feed rules net payload_url now db_now db).1.feeds
  create_feed-validated payload_url now db_now db h =
      elim (Reply-cases (checked_url rules net payload_url)) [
        | inl (s, c) ↦ rw (create_feed-refused payload_url now db_now db s c) h
        | inr (url, c) ↦ elim (Option-cases (find_url url db.feeds)) [
          | inl e ↦
              rw
                (
                  create_feed-register payload_url url now db_now db c,
                  register-new url now db_now db e,
                )
                (All-append _ db.feeds _ h (checked_url-validated payload_url url c, tt))
          | inr (feed, e) ↦
              rw
                (
                  create_feed-register payload_url url now db_now db c,
                  register-known url now db_now db feed e,
                )
                h
        ]
      ]
