-- ===== src/Api/Access/Safety.antt =====
-- About requests behind the key of api/dependencies.py, and what their failures leave.
use feedgate_fetcher.Prelude.{
  ℕ, ◌≡◌, ◌≢◌, refl, Option, List, [], ◌∷◌, ◌||◌, leb, any, Bool-cases, inl, inr,
}
use feedgate_fetcher.Prelude.Texts.{codes_eq}
use feedgate_fetcher.Prelude.Equal.{codes_eq_lem}
use feedgate_fetcher.Api.Http.{Reply, respond, http_error, Reply-cases}
use feedgate_fetcher.Api.Feeds.{Database}
use feedgate_fetcher.Api.Access.{
  compare_digest, or_empty, check_key, require_api_key, end_session, handle,
}

-- the check lets no other key pass
check_key_lem :
    (configured_key provided : List ℕ)
    → check_key configured_key provided ≡ respond tt
    → provided ≡ configured_key
unfolding check_key compare_digest
check_key_lem configured_key [] h = cc
check_key_lem configured_key (c ∷ provided) h =
    elim (Bool-cases (any (leb 128) (c ∷ provided) || any (leb 128) configured_key)) [
      | inl e ↦ let h' = rw (check_key, compare_digest, e) at h in absurd (cc h')
      | inr e ↦ elim (Bool-cases (codes_eq (c ∷ provided) configured_key)) [
        | inl k ↦ codes_eq_lem (c ∷ provided) configured_key k
        | inr k ↦ let h' = rw (check_key, compare_digest, e, k) at h in absurd (cc h')
      ]
    ]

require_api_key_lem :
    (configured_key : List ℕ) (provided : Option (List ℕ))
    → configured_key ≢ []
    → require_api_key configured_key provided ≡ respond tt
    → or_empty provided ≡ configured_key
unfolding require_api_key
require_api_key_lem [] provided n h = absurd (n refl)
require_api_key_lem (k ∷ configured_key) provided n h =
    check_key_lem (k ∷ configured_key) (or_empty provided) h

module _ {ℓ} {A : Type ℓ} (configured_key : List ℕ) (provided : Option (List ℕ))
    (handler : Database → Reply A × Database) (db : Database) where
  handle-refused :
      (status : ℕ)
      → require_api_key configured_key provided ≡ http_error status
      → handle configured_key provided handler db ≡ (http_error status, db)
  unfolding handle
  handle-refused status e = rw (handle, e) refl

  pub handle-admitted :
      require_api_key configured_key provided ≡ respond tt
      → handle configured_key provided handler db ≡ end_session db (handler db)
  unfolding handle
  handle-admitted e = rw (handle, e) refl

  -- When a key is configured and a request brings another one or none, the request is answered
  -- with an error, and whatever its handler does, the tables are left as they were.
  pub handle-unauthorised :
      configured_key ≢ []
      → or_empty provided ≢ configured_key
      → (status : ℕ) × (handle configured_key provided handler db ≡ (http_error status, db))
  handle-unauthorised n wrong = elim (Reply-cases (require_api_key configured_key provided)) [
    | inl (status, e) ↦ (status, handle-refused status e)
    | inr (u, e) ↦ absurd (wrong (require_api_key_lem configured_key provided n e))
  ]
