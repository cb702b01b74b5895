-- ===== src/Ssrf.antt =====
-- ssrf.py. Python's `urlsplit` and `ipaddress.ip_address` and the resolver are parameters: what they
-- return for a text, with their exceptions as values. Host names and addresses are code points.
pub mod Public
use feedgate_fetcher.Prelude.{
  ℕ, String, Option, none, some, List, [], ◌∷◌, Bool, true, false, ◌||◌, not, any, if◌then◌else◌,
}
use feedgate_fetcher.Prelude.Texts.{codes, codes_eq, lower, before_code}
use feedgate_fetcher.Exceptions.{Exc, Result, ok, raise, fresh, blocked_url, other, ◌>>=◌, ◌>>◌}

-- the parts of a URL that the program reads
pub record SplitUrl : Type 0 where
  pub scheme : List ℕ
  pub hostname : Option (List ℕ)

-- the properties of an address object
pub record IpAddress : Type 0 where
  pub is_private : Bool
  pub is_loopback : Bool
  pub is_link_local : Bool
  pub is_reserved : Bool
  pub is_multicast : Bool
  pub is_unspecified : Bool

-- what `loop.getaddrinfo` does: its addresses, a `socket.gaierror`, or another exception
pub data Lookup : Type 0 where
  found : List (List ℕ) → Lookup
  gaierror : Lookup
  failed : Exc → Lookup

pub record Network : Type 0 where
  -- `urlsplit`; `none` is a `ValueError`
  pub urlsplit : String → Option SplitUrl
  -- `ipaddress.ip_address`; `none` is a `ValueError`
  pub ip_address : List ℕ → Option IpAddress
  pub getaddrinfo : List ℕ → Lookup

unfoldable pub is_blocked_ip : IpAddress → Bool
is_blocked_ip ip =
    ip.is_private || ip.is_loopback || ip.is_link_local || ip.is_reserved || ip.is_multicast
    || ip.is_unspecified

unfoldable pub is_allowed_scheme : List ℕ → Bool
is_allowed_scheme scheme = codes_eq scheme (codes "http") || codes_eq scheme (codes "https")

module _ (net : Network) where
  -- `_resolve`
  unfoldable pub resolve_host : List ℕ → Result (List (List ℕ))
  resolve_host host = elim (net.getaddrinfo host) [
    | found addrs ↦ ok addrs
    | gaierror ↦ ok []
    | failed e ↦ raise e
  ]

  -- does a resolved address get the URL rejected? An address that does not parse is passed over.
  unfoldable pub is_blocked_address : List ℕ → Bool
  unfolding is_blocked_ip before_code
  is_blocked_address addr = elim (net.ip_address (before_code b'%' addr)) [
    | none ↦ false
    | some ip ↦ is_blocked_ip ip
  ]

  -- the loop over the addresses
  unfoldable pub check_addresses : List (List ℕ) → Result (Unit {0})
  unfolding is_blocked_address
  check_addresses [] = ok tt
  check_addresses (addr ∷ addrs) =
      let rest = check_addresses addrs in
      if is_blocked_address addr then raise (fresh blocked_url) else rest

  unfoldable pub check_host : List ℕ → Bool → Result (Unit {0})
  unfolding is_blocked_ip resolve_host check_addresses
  check_host host resolve = elim (net.ip_address host) [
    | some literal ↦ if is_blocked_ip literal then raise (fresh blocked_url) else ok tt
    | none ↦ if not resolve then ok tt else do addrs ← resolve_host host; check_addresses addrs
  ]

  -- `if not host: raise`
  unfoldable pub check_hostname : Option (List ℕ) → Bool → Result (Unit {0})
  unfolding check_host
  check_hostname none resolve = raise (fresh blocked_url)
  check_hostname (some []) resolve = raise (fresh blocked_url)
  check_hostname (some (c ∷ host)) resolve = check_host (c ∷ host) resolve

  unfoldable pub validate_public_url : String → Bool → Result (Unit {0})
  unfolding lower is_allowed_scheme check_hostname
  validate_public_url url resolve = elim (net.urlsplit url) [
    | none ↦ raise (fresh other)
    | some parts ↦
        if not (is_allowed_scheme (lower parts.scheme))
        then raise (fresh blocked_url)
        else check_hostname parts.hostname resolve
  ]

  -- `SSRFGuardTransport.handle_async_request`: the URLs that the inner transport has been handed,
  -- and its answer, which is a parameter.
  unfoldable pub handle_async_request {ℓ} :
      {A : Type ℓ} → (String → Result A) → String → List String → Result A × List String
  unfolding validate_public_url
  handle_async_request inner url sent = elim (validate_public_url url true) [
    | ok _ ↦ (inner url, url ∷ sent)
    | raise e ↦ (raise e, sent)
  ]

  -- Any sequence of exchanges of the client, redirect follow-ups among them.
  unfoldable pub exchanges {ℓ} :
      {A : Type ℓ} → (String → Result A) → List String → List String → List String
  unfolding handle_async_request
  exchanges inner [] sent = sent
  exchanges inner (url ∷ urls) sent = exchanges inner urls (handle_async_request inner url sent).1
