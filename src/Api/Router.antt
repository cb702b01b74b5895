-- ===== src/Api/Router.antt =====
-- api/router.py: the routes of the service, in the order of their registration, with those of
-- api/feeds.py and api/entries.py. A path is the list of its parts between slashes. Starlette's search
-- for the route of a request is a parameter, with its redirects; Search has one that IsRouter holds of.
-- The pages that FastAPI adds by itself (`/docs`, `/redoc`, `/openapi.json`) are a parameter, too.
pub mod Search
pub mod Guarded
use feedgate_fetcher.Prelude.{
  ℕ, ◌≡◌, String, Option, none, some, List, [], ◌∷◌, ◌++◌, map, Bool, true, false, if◌then◌else◌,
}
use feedgate_fetcher.Api.Http.{Reply, respond, http_error}
use feedgate_fetcher.Api.Feeds.{Database}
use feedgate_fetcher.Api.Access.{handle}
use mathlib.Core.List.{Memᴰ}
use text.Mathlib.Text.{◌==◌ as str_eq}

pub data Segment : Type 0 where
  literal : String → Segment
  -- `{feed_id}`
  parameter : Segment

pub data Endpoint : Type 0 where
  healthz metrics : Endpoint
  -- one of FastAPI's own
  page : Endpoint
  create_feed list_feeds get_feed delete_feed reactivate_feed : Endpoint
  list_entries : Endpoint

pub record Route : Type 0 where
  pub method : String
  pub path : List Segment
  pub endpoint : Endpoint
  -- does it depend on `require_api_key`?
  pub is_protected : Bool

abbrev pub route : String → List Segment → Endpoint → Route
route method path endpoint = record {
  method = method;
  path = path;
  endpoint = endpoint;
  is_protected = false;
}

abbrev pub health_route : Route
health_route = route "GET" (literal "healthz" ∷ []) healthz

abbrev pub feeds_path : List Segment
feeds_path = literal "v1" ∷ literal "feeds" ∷ []

abbrev pub feed_routes : List Route
feed_routes =
    route "POST" feeds_path create_feed
    ∷ route "GET" feeds_path list_feeds
    ∷ route "GET" (feeds_path ++ parameter ∷ []) get_feed
    ∷ route "DELETE" (feeds_path ++ parameter ∷ []) delete_feed
    ∷ route "POST" (feeds_path ++ parameter ∷ literal "reactivate" ∷ []) reactivate_feed
    ∷ []

abbrev pub entry_routes : List Route
entry_routes = route "GET" (literal "v1" ∷ literal "entries" ∷ []) list_entries ∷ []

-- `dependencies=[Depends(require_api_key)]`
abbrev pub protect : Route → Route
protect r = record r { is_protected = true }

-- `register_routers`
abbrev pub register_routers : List Route
register_routers =
    protect (route "GET" (literal "metrics" ∷ []) metrics)
    ∷ health_route
    ∷ (map protect feed_routes ++ map protect entry_routes)

-- what a path of a route means: the values of its parameters, if a request's path fits it
unfoldable pub match_path : List Segment → List String → Option (List String)
match_path [] [] = some []
match_path [] (part ∷ parts) = none
match_path (segment ∷ segments) [] = none
match_path (literal s ∷ segments) (part ∷ parts) =
    let rest = match_path segments parts in if str_eq s part then rest else none
match_path (parameter ∷ segments) (part ∷ parts) = elim (match_path segments parts) [
  | none ↦ none
  | some values ↦ some (part ∷ values)
]

-- what the search comes to: a route with the values of its path's parameters; a redirect to the path
-- with or without its last slash; or no route, with 404 or 405
pub data Found : Type 0 where
  found : Route → List String → Found
  redirected : String → Found
  missing : ℕ → Found

-- Starlette's search, by the method and the path of a request and the routes
abbrev pub Search : Type 0
Search = String → List String → List Route → Found

-- what is known of a route that a search has found
pub record IsFound (method : String) (path : List String) (routes : List Route) (r : Route)
    (values : List String) : Type 0 where
  pub registered : Memᴰ r routes
  pub by_method : r.method ≡ method
  pub by_path : match_path r.path path ≡ some values

-- the documented behaviour of the search: what it finds is registered and fits the request
abbrev pub IsRouter : Search → Type 0
IsRouter find =
    (method : String) (path : List String) (routes : List Route) (r : Route) (values : List String)
    → find method path routes ≡ found r values
    → IsFound method path routes r values

-- the pages that FastAPI adds by itself, by method and path, with what each shows
pub record OwnPages : Type 0 where
  pub paths : List (String × List Segment)
  pub text : List Segment → String

abbrev pub page_route : String × List Segment → Route
page_route p = route p.0 p.1 page

-- `app = FastAPI(...)`, and `register_routers(app)`
abbrev pub app_routes : OwnPages → List Route
app_routes own = map page_route own.paths ++ register_routers

-- `{"status": "ok"}`
abbrev pub healthy : String
healthy = "ok"

pub data Answer : Type 0 where
  reply : Reply String → Answer
  redirect : String → Answer

-- A request, with the key it brings, if any. The handlers are those of Entries and Feeds, and the
-- metrics; those of the health check and of FastAPI's pages look at nothing.
module _ (find : Search) (own : OwnPages) (configured_key : List ℕ)
    (handlers : Endpoint → List String → Database → Reply String × Database) where
  unfoldable pub run_endpoint : Route → Endpoint → List String → Database → Reply String × Database
  run_endpoint r healthz values db = (respond healthy, db)
  run_endpoint r page values db = (respond (own.text r.path), db)
  run_endpoint r endpoint values db = handlers endpoint values db

  unfoldable pub call : Route → List String → Option (List ℕ) → Database → Reply String × Database
  unfolding handle run_endpoint
  call r values provided db =
      if r.is_protected
      then handle configured_key provided (run_endpoint r r.endpoint values) db
      else run_endpoint r r.endpoint values db

  unfoldable pub serve : String → List String → Option (List ℕ) → Database → Answer × Database
  unfolding call
  serve method path provided db = elim (find method path (app_routes own)) [
    | missing status ↦ (reply (http_error status), db)
    | redirected url ↦ (redirect url, db)
    | found r values ↦ let (answer, db') = call r values provided db in (reply answer, db')
  ]
