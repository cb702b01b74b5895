-- ===== src/Api/Router/Search.antt =====
-- A search for the route of a request, one way to be the parameter of api/router.py's model.
use feedgate_fetcher.Prelude.{
  ℕ, ◌≡◌, ◌∙◌, sym, ap, subst, String, none, some, List, [], ◌∷◌, if◌then◌else◌, Bool-cases,
  Option-cases, inl, inr,
}
use feedgate_fetcher.Api.Router.{
  Route, Found, found, missing, Search, IsFound, IsRouter, match_path,
}
use mathlib.Core.List.Memᴰ.{head, tail}
use text.Mathlib.Text.{◌==◌ as str_eq}
use text.Mathlib.TextEquality.{eq_iff}

-- the first route that fits; if there is none, 405 where the path of one fits, and else `status`
unfoldable pub resolve : String → List String → List Route → ℕ → Found
unfolding match_path
resolve method path [] status = missing status
resolve method path (r ∷ routes) status = elim (match_path r.path path) [
  | none ↦ resolve method path routes status
  | some values ↦
      let rest = resolve method path routes 405 in
      if str_eq r.method method then found r values else rest
]

abbrev pub search : Search
search method path routes = resolve method path routes 404

later :
    {method : String} {path : List String} {routes : List Route} {r : Route} {values : List String}
    (x : Route)
    → IsFound method path routes r values
    → IsFound method path (x ∷ routes) r values
later x f = record { registered = tail f.registered; by_method = f.by_method; by_path = f.by_path }

resolve-IsFound :
    (method : String) (path : List String) (routes : List Route) (status : ℕ) (r : Route)
    (values : List String)
    → resolve method path routes status ≡ found r values
    → IsFound method path routes r values
unfolding resolve
resolve-IsFound method path [] status r values e = cc
resolve-IsFound method path (x ∷ routes) status r values e =
    elim (Option-cases (match_path x.path path)) [
      | inl m ↦ later x (resolve-IsFound method path routes status r values (rw (resolve, m) at e))
      | inr (v, m) ↦ elim (Bool-cases (str_eq x.method method)) [
        | inl k ↦
            let e' = rw k at (rw (resolve, m) at e) in
            let same : x ≡ r = cc e' in
            let values_same : v ≡ values = cc e' in
            record {
              registered = head (sym same);
              by_method = subst (λ y. y.method ≡ method) same ((eq_iff x.method method).0 k);
              by_path =
                  subst (λ y. match_path y.path path ≡ some values) same (m ∙ ap some values_same);
            }
        | inr k ↦
            later x
              (resolve-IsFound method path routes 405 r values (rw k at (rw (resolve, m) at e)))
      ]
    ]

pub search-IsRouter : IsRouter search
search-IsRouter method path routes r values e = resolve-IsFound method path routes 404 r values e
