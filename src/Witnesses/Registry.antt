-- ===== src/Witnesses/Registry.antt =====
-- A table of two feeds under the handlers of api/feeds.py, and web addresses taken apart.
use feedgate_fetcher.Prelude.{◌≡◌, ◌↔◌, refl, [], true, ◌||◌, inl, arith}
use feedgate_fetcher.Prelude.Texts.{codes, codes_eq}
use feedgate_fetcher.Url.{is_unsafe, SplitResult, UrlRules, urlunsplit, normalize_url}
use feedgate_fetcher.Url.Parts.{IsHttpParts}
use feedgate_fetcher.Url.Identity.{canonical, normalize_url_iff}

abbrev pub rules : UrlRules
rules = record {
  is_valid_netloc = λ s. true;
  uses_netloc = λ s. codes_eq s (codes "http") || codes_eq s (codes "https");
}

-- http://blog/feed/#top
abbrev parts : SplitResult
parts = record {
  scheme = codes "http";
  netloc = codes "blog";
  path = codes "/feed/";
  query = [];
  fragment = codes "top";
}

-- http://blog/feed
abbrev bare : SplitResult
bare = record parts { path = codes "/feed"; fragment = [] }

parts-IsHttpParts : IsHttpParts rules parts
unfolding is_unsafe
parts-IsHttpParts = record {
  scheme = inl refl;
  netloc_nonempty = refl;
  netloc = ground arith;
  netloc_valid = refl;
  path_rooted = refl;
  path = ground arith;
  query = tt;
  visible = ground arith;
}

bare-IsHttpParts : IsHttpParts rules bare
unfolding is_unsafe
bare-IsHttpParts = record {
  scheme = inl refl;
  netloc_nonempty = refl;
  netloc = ground arith;
  netloc_valid = refl;
  path_rooted = refl;
  path = ground arith;
  query = tt;
  visible = ground arith;
}

normalize_url_iff_example :
    (normalize_url rules (urlunsplit rules parts) ≡ normalize_url rules (urlunsplit rules bare))
    ↔ (canonical parts ≡ canonical bare)
normalize_url_iff_example = normalize_url_iff rules parts bare parts-IsHttpParts bare-IsHttpParts
