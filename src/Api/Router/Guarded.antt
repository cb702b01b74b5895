-- ===== src/Api/Router/Guarded.antt =====
-- About the routes of api/router.py and the key.
use feedgate_fetcher.Prelude.{
  ℕ, ◌≡◌, ◌≢◌, ◌∙◌, ◌⊎◌, refl, sym, ap, subst, String, Option, some, List, [], ◌∷◌, map, true, All,
  All-append, Bool-cases, inl, inr,
}
use feedgate_fetcher.Api.Http.{Reply, respond, http_error}
use feedgate_fetcher.Api.Feeds.{Database}
use feedgate_fetcher.Api.Access.{or_empty}
use feedgate_fetcher.Api.Access.Safety.{handle-unauthorised}
use feedgate_fetcher.Api.Router.{
  Segment, Endpoint, Route, health_route, register_routers, OwnPages, page_route, app_routes,
  Answer, reply, redirect, Found, found, redirected, missing, Search, IsFound, IsRouter, match_path,
  healthy, run_endpoint, call, serve,
}
use mathlib.Core.List.{Memᴰ}
use mathlib.Core.List.Memᴰ.{head, tail}
use text.Mathlib.Text.{◌==◌ as str_eq}
use text.Mathlib.TextEquality.{eq_iff}

All-Mem {ℓ κ} : {A : Type ℓ} (P : A → Type κ) {x : A} (xs : List A) → All P xs → Memᴰ x xs → P x
All-Mem P [] h m = elim m [ ]
All-Mem P (y ∷ xs) h (head e) = subst P (sym e) h.0
All-Mem P (y ∷ xs) h (tail m) = All-Mem P xs h.1 m

-- only its own path matches the health check's
health_path :
    (path values : List String)
    → match_path health_route.path path ≡ some values
    → path ≡ "healthz" ∷ []
unfolding match_path
health_path [] values e = cc
health_path (part ∷ []) values e = elim (Bool-cases (str_eq "healthz" part)) [
  | inl k ↦ ap (λ p. p ∷ []) (sym ((eq_iff "healthz" part).0 k))
  | inr k ↦ cc (rw k at e)
]
health_path (part ∷ more ∷ parts) values e = elim (Bool-cases (str_eq "healthz" part)) [
  | inl k ↦ cc (rw k at e)
  | inr k ↦ cc (rw k at e)
]

Found-cases :
    (x : Found)
    → (((status : ℕ) × (x ≡ missing status)) ⊎ ((url : String) × (x ≡ redirected url)))
      ⊎ ((r : Route) × (values : List String) × (x ≡ found r values))
Found-cases (missing status) = inl (inl (status, refl))
Found-cases (redirected url) = inl (inr (url, refl))
Found-cases (found r values) = inr (r, values, refl)

-- a route asks for the key, or it is the health check's, or one of FastAPI's pages
abbrev IsGuarded : OwnPages → Route → Type 0
IsGuarded own r =
    (r.is_protected ≡ true)
    ⊎ ((r ≡ health_route) ⊎ ((p : String × List Segment) × Memᴰ p own.paths × (r ≡ page_route p)))

routers-IsGuarded : (own : OwnPages) → All (IsGuarded own) register_routers
routers-IsGuarded own = (
  inl refl,
  (inr (inl refl), (inl refl, (inl refl, (inl refl, (inl refl, (inl refl, (inl refl, tt))))))),
)

pages-IsGuarded :
    (own : OwnPages) (paths : List (String × List Segment))
    → ((p : String × List Segment) → Memᴰ p paths → Memᴰ p own.paths)
    → All (IsGuarded own) (map page_route paths)
pages-IsGuarded own [] h = tt
pages-IsGuarded own (p ∷ paths) h =
    (inr (inr (p, h p (head refl), refl)), pages-IsGuarded own paths (λ q m. h q (tail m)))

app_routes-IsGuarded : (own : OwnPages) → All (IsGuarded own) (app_routes own)
app_routes-IsGuarded own =
    All-append (IsGuarded own) (map page_route own.paths) register_routers
      (pages-IsGuarded own own.paths (λ p m. m)) (routers-IsGuarded own)

module _ (find : Search) (own : OwnPages) (configured_key : List ℕ)
    (handlers : Endpoint → List String → Database → Reply String × Database) (method : String)
    (path : List String) (provided : Option (List ℕ)) (db : Database) where
  -- the answer of the health check, with the tables as they were
  abbrev pub IsHealthy : Reply String × Database → Type 0
  IsHealthy r = (method ≡ "GET") × (path ≡ "healthz" ∷ []) × (r ≡ (respond healthy, db))

  -- one of FastAPI's own pages, which shows what it always shows
  abbrev pub IsPage : Reply String × Database → Type 0
  IsPage r =
      (segments : List Segment) × Memᴰ (method, segments) own.paths
      × (r ≡ (respond (own.text segments), db))

  abbrev pub IsRefused : Reply String × Database → Type 0
  IsRefused r = (status : ℕ) × (r ≡ (http_error status, db))

  -- an answer that tells nothing of the tables and leaves them as they were
  abbrev pub IsPublic : Answer × Database → Type 0
  IsPublic (reply answer, db') =
      IsHealthy (answer, db') ⊎ (IsPage (answer, db') ⊎ IsRefused (answer, db'))
  IsPublic (redirect url, db') = db' ≡ db

  call-public :
      (r : Route) (values : List String)
      → configured_key ≢ []
      → or_empty provided ≢ configured_key
      → IsFound method path (app_routes own) r values
      → IsHealthy (call find own configured_key handlers r values provided db)
        ⊎ (IsPage (call find own configured_key handlers r values provided db)
            ⊎ IsRefused (call find own configured_key handlers r values provided db))
  unfolding call run_endpoint
  call-public r values n wrong f =
      elim (All-Mem (IsGuarded own) (app_routes own) (app_routes-IsGuarded own) f.registered) [
        | inl p ↦ inr (
            inr (
              rw (p, call)
                (handle-unauthorised configured_key provided
                  (run_endpoint find own configured_key handlers r r.endpoint values) db n wrong)))
        | inr (inl h) ↦ inl (
          sym f.by_method ∙ ap (λ (r : Route). r.method) h,
          health_path path values (subst (λ y. match_path y.path path ≡ some values) h f.by_path),
          subst
              (λ y.
                call find own configured_key handlers y values provided db ≡ (respond healthy, db))
              (sym h) refl,
        )
        | inr (inr (p, m, h)) ↦ inr (
            inl (
              p.1,
              subst (λ x. Memᴰ (x, p.1) own.paths)
                  (sym (ap (λ (r : Route). r.method) h) ∙ f.by_method) m,
              subst
                  (λ y.
                    call find own configured_key handlers y values provided db
                    ≡ (respond (own.text p.1), db))
                  (sym h) refl,
            ))
      ]

  -- If the search for a route finds only registered ones that fit the request, and where a key is
  -- configured and a request brings another one or none, then whatever its method and path are and
  -- whatever the handlers do, the tables stay as they were, and the request is a GET of /healthz,
  -- which is answered as healthy, or is answered by one of the pages that FastAPI adds by itself,
  -- with the text that this page always has, by a redirect that the search decides on, or by an
  -- error.
  pub serve-unauthorised :
      IsRouter find
      → configured_key ≢ []
      → or_empty provided ≢ configured_key
      → IsPublic (serve find own configured_key handlers method path provided db)
  unfolding serve
  serve-unauthorised router n wrong = elim (Found-cases (find method path (app_routes own))) [
    | inl (inl (status, e)) ↦ rw (e, serve) (inr (inr (status, refl)))
    | inl (inr (url, e)) ↦ rw (e, serve) refl
    | inr (r, values, e) ↦
        rw (e, serve)
          (call-public r values n wrong (router method path (app_routes own) r values e))
  ]
