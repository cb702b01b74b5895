-- ===== src/Http/Outcome/Stages.antt =====
-- The relation of the states before and after a stage of `fetch_one`, and the stages that change
-- the feed's row.
use feedgate_fetcher.Prelude.{
  ℕ, ◌<◌, ◌≡◌, Option, refl, ap, sym, ◌∙◌, subst, List, [], ◌∷◌, ◌++◌, Bool-cases, inl, inr, ◌*◌,
  max, Option-cases,
}
use feedgate_fetcher.Models.{FeedStatus, active, broken, status_eq, status_eq_iff}
use feedgate_fetcher.Errors.{classify_error}
use feedgate_fetcher.Prelude.Time.{second, add_delta}
use feedgate_fetcher.Exceptions.{Exc, Result-split}
use feedgate_fetcher.FeedState.{
  Transition, Reason, or_default, transition_feed, mark_fetch_success, mark_fetch_failure,
}
use feedgate_fetcher.FeedState.Lifecycle.{
  IsConsistent, Trail, is_edge, mark_fetch_success-Trail, mark_fetch_success-IsConsistent,
  mark_fetch_failure-Trail, mark_fetch_failure-IsConsistent, mark_fetch_success_identity,
  mark_fetch_failure_identity,
}
use feedgate_fetcher.Parser.{ParsedFeed}
use feedgate_fetcher.Policy.Headers.{Headers, parse_retry_after}
use feedgate_fetcher.Policy.NextFetch.{compute_next_fetch_at}
use feedgate_fetcher.Http.{
  Upstream, FetchConfig, FetchState, Observation, observe_fetch, schedule, mark_not_modified,
  wait_for, on_rate_limited, mark_success, on_failure,
}
use mathlib.Core.List.{append_assoc, append-nil}

-- The feed of `s'` is that of `s`, moved along the lifecycle by the logged transitions.
pub record Advances (broken_threshold : ℕ) (s s' : FetchState) : Type 0 where
  pub logged : List Transition
  pub log : s'.transitions ≡ s.transitions ++ logged
  pub trail : Trail s.feed.status logged s'.feed.status
  pub consistent : IsConsistent broken_threshold s.feed → IsConsistent broken_threshold s'.feed
  pub id : s'.feed.id ≡ s.feed.id
  pub url : s'.feed.url ≡ s.feed.url
  pub created_at : s'.feed.created_at ≡ s.feed.created_at

Trail-append :
    (a b c : FeedStatus) (l m : List Transition) → Trail a l b → Trail b m c → Trail a (l ++ m) c
Trail-append a b c [] m h k = subst (λ x. Trail x m c) (sym h) k
Trail-append a b c (t ∷ l) m h k = (h.0, h.1, Trail-append t.to_status b c l m h.2 k)

pub Advances-trans : (n : ℕ) {a b c : FetchState} → Advances n a b → Advances n b c → Advances n a c
Advances-trans n {a} {b} {c} p q = record {
  logged = p.logged ++ q.logged;
  log = q.log ∙ ap (λ l. l ++ q.logged) p.log ∙ append_assoc a.transitions p.logged q.logged;
  trail = Trail-append a.feed.status b.feed.status c.feed.status p.logged q.logged p.trail q.trail;
  consistent = λ h. q.consistent (p.consistent h);
  id = q.id ∙ p.id;
  url = q.url ∙ p.url;
  created_at = q.created_at ∙ p.created_at;
}

-- a stage that leaves the lifecycle alone
pub Advances-keep :
    (n : ℕ) (s s' : FetchState)
    → s'.transitions ≡ s.transitions
    → s'.feed.status ≡ s.feed.status
    → s'.feed.consecutive_failures ≡ s.feed.consecutive_failures
    → s'.feed.id ≡ s.feed.id
    → s'.feed.url ≡ s.feed.url
    → s'.feed.created_at ≡ s.feed.created_at
    → Advances n s s'
Advances-keep n s s' t st f i u c = record {
  logged = [];
  log = t ∙ sym (append-nil s.transitions);
  trail = sym st;
  consistent = λ h. record {
    closed = λ e. rw f (h.closed (sym st ∙ e));
    opened = λ e. rw f (h.opened (sym st ∙ e));
  };
  id = i;
  url = u;
  created_at = c;
}

-- what is counted is no part of the lifecycle
pub Advances-observe :
    (n : ℕ) (s s' : FetchState) (o : Observation)
    → Advances n s s'
    → Advances n s (observe_fetch o s')
unfolding observe_fetch
Advances-observe n s s' o a = record {
  logged = a.logged;
  log = a.log;
  trail = a.trail;
  consistent = a.consistent;
  id = a.id;
  url = a.url;
  created_at = a.created_at;
}

-- and so is the server's hint
pub Advances-hint :
    (n : ℕ) (s s' : FetchState) (hint : Option ℕ)
    → Advances n s s'
    → Advances n s (record s' { server_hint = hint })
Advances-hint n s s' hint a = record {
  logged = a.logged;
  log = a.log;
  trail = a.trail;
  consistent = a.consistent;
  id = a.id;
  url = a.url;
  created_at = a.created_at;
}

module _ (up : Upstream) (c : FetchConfig) (now : ℕ) where
  pub schedule-Advances :
      (n weekly : ℕ) (s : FetchState) → Advances n s (schedule up c now weekly s).1
  unfolding schedule
  schedule-Advances n weekly s =
      elim (Result-split
        (compute_next_fetch_at s.feed now c.intervals up.draw s.server_hint weekly)) [
          | inl (t, e) ↦ rw (e, schedule) (Advances-keep n s _ refl refl refl refl refl refl)
          | inr (e, f) ↦ rw (f, schedule) (Advances-keep n s s refl refl refl refl refl refl)
        ]

  pub mark_not_modified-Advances :
      (n : ℕ) (s : FetchState) → 0 < n → Advances n s (mark_not_modified up c now s)
  unfolding mark_not_modified is_edge
  mark_not_modified-Advances n s p = elim (Bool-cases (status_eq s.feed.status broken)) [
    | inr e ↦ rw (e, mark_not_modified) (Advances-keep n s _ refl refl refl refl refl refl)
    | inl e ↦
        rw (e, mark_not_modified)
          (record {
            logged = transition_feed s.feed active Reason.http_304_recovery;
            log = refl;
            trail = (refl, rw ((status_eq_iff s.feed.status broken).0 e) refl, refl);
            consistent = λ h. record { closed = λ k. p; opened = λ k. cc };
            id = refl;
            url = refl;
            created_at = refl;
          })
  ]

  wait_for-Advances :
      (n : ℕ) (retry_after : Option ℕ) (s : FetchState)
      → Advances n s (wait_for up c now retry_after s).1
  unfolding wait_for
  wait_for-Advances n retry_after s =
      elim (Option-cases (
        add_delta now
          (max (or_default retry_after 0) c.intervals.base_interval_seconds * second))) [
            | inl e ↦ rw (e, wait_for) (Advances-keep n s _ refl refl refl refl refl refl)
            | inr (t, e) ↦ rw (e, wait_for) (Advances-keep n s _ refl refl refl refl refl refl)
          ]

  pub on_rate_limited-Advances :
      (n : ℕ) (headers : Headers) (s : FetchState)
      → Advances n s (on_rate_limited up c now headers s).1
  unfolding on_rate_limited
  on_rate_limited-Advances n headers s =
      elim (Result-split (parse_retry_after up.parse_date (headers "retry-after") now)) [
        | inl (retry_after, e) ↦ rw (e, on_rate_limited) (wait_for-Advances n retry_after s)
        | inr (x, e) ↦ rw (e, on_rate_limited) (Advances-keep n s s refl refl refl refl refl refl)
      ]

  pub mark_success-Advances :
      (n : ℕ) (headers : Headers) (parsed : ParsedFeed) (s : FetchState)
      → 0 < n
      → Advances n s (mark_success up c now headers parsed s)
  unfolding mark_success
  mark_success-Advances n headers parsed s p =
      let (id, url, created_at) = mark_fetch_success_identity s.feed now parsed.title in
      record {
        logged = (mark_fetch_success s.feed now parsed.title).1;
        log = refl;
        trail = mark_fetch_success-Trail s.feed now parsed.title;
        consistent = λ _.
            let h = mark_fetch_success-IsConsistent s.feed now parsed.title p in
            record { closed = h.closed; opened = h.opened };
        id = id;
        url = url;
        created_at = created_at;
      }

  pub on_failure-Advances :
      (exc : Exc) (s : FetchState)
      → Advances c.intervals.broken_threshold s (on_failure up c now exc s)
  unfolding on_failure
  on_failure-Advances exc s =
      let n = c.intervals.broken_threshold in
      let code = classify_error exc in
      let (id, url, created_at) =
        mark_fetch_failure_identity s.feed now code n c.dead_duration_days in
      record {
        logged = (mark_fetch_failure s.feed now code n c.dead_duration_days).1;
        log = refl;
        trail = mark_fetch_failure-Trail s.feed now code n c.dead_duration_days;
        consistent = mark_fetch_failure-IsConsistent s.feed now code n c.dead_duration_days;
        id = id;
        url = url;
        created_at = created_at;
      }
