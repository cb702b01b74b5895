-- ===== src/Ssrf/Public.antt =====
-- About ssrf.py: what a public address, host and URL are.
use feedgate_fetcher.Prelude.{
  ℕ, String, Option, none, some, List, [], ◌∷◌, Bool, true, false, ◌≡◌, ◌≢◌, refl, ◌⊎◌, inl, inr,
  All, arith, Bool-cases, Option-cases, if◌then◌else◌, sym, ◌∙◌,
}
use feedgate_fetcher.Prelude.Texts.{lower, before_code}
use feedgate_fetcher.Exceptions.{
  Exc, Result, ok, raise, fresh, blocked_url, other, ◌>>=◌, Result-cases,
}
use feedgate_fetcher.Ssrf.{
  SplitUrl, IpAddress, found, failed, Network, is_blocked_ip, is_allowed_scheme, resolve_host,
  is_blocked_address, check_addresses, check_host, check_hostname, validate_public_url,
  handle_async_request, exchanges,
}

-- An address of the public internet.
pub record IsPublicIp (ip : IpAddress) : Type 0 where
  pub private : ip.is_private ≡ false
  pub loopback : ip.is_loopback ≡ false
  pub link_local : ip.is_link_local ≡ false
  pub reserved : ip.is_reserved ≡ false
  pub multicast : ip.is_multicast ≡ false
  pub unspecified : ip.is_unspecified ≡ false

raise≢ok {ℓ} : {A : Type ℓ} {e : Exc} {a : A} → raise e ≢ ok a
raise≢ok h = cc

module _ (net : Network) where
  -- A text that, if it is an address, is a public one.
  abbrev pub NoBlockedIp : List ℕ → Type 0
  NoBlockedIp text = (ip : IpAddress) → net.ip_address text ≡ some ip → IsPublicIp ip

  pub record IsPublicHost (host : List ℕ) : Type 0 where
    pub literal : NoBlockedIp host
    -- where the host is a name: the resolver did not fail in an unknown way, and each address that
    -- it gave is public, or unreadable
    pub no_failure : net.ip_address host ≡ none → (e : Exc) → net.getaddrinfo host ≢ failed e
    pub resolved :
        net.ip_address host ≡ none
        → (addrs : List (List ℕ)) → net.getaddrinfo host ≡ found addrs
        → All (λ a. NoBlockedIp (before_code b'%' a)) addrs

  pub record IsPublicUrl (url : String) : Type 0 where
    pub parts : SplitUrl
    pub host : List ℕ
    pub splits : net.urlsplit url ≡ some parts
    pub scheme : is_allowed_scheme (lower parts.scheme) ≡ true
    pub hostname : parts.hostname ≡ some host
    pub has_host : host ≢ []
    pub public_host : IsPublicHost host

  is_blocked_ip-false : (ip : IpAddress) → is_blocked_ip ip ≡ false → IsPublicIp ip
  unfolding is_blocked_ip
  is_blocked_ip-false ip h = ground arith

  is_blocked_address-false :
      (a : List ℕ) → is_blocked_address net a ≡ false → NoBlockedIp (before_code b'%' a)
  unfolding is_blocked_address
  is_blocked_address-false a h ip e = is_blocked_ip-false ip (rw (e, is_blocked_address) at h)

  check_addresses-ok :
      (addrs : List (List ℕ))
      → check_addresses net addrs ≡ ok tt
      → All (λ a. NoBlockedIp (before_code b'%' a)) addrs
  unfolding check_addresses
  check_addresses-ok [] h = tt
  check_addresses-ok (a ∷ addrs) h = elim (Bool-cases (is_blocked_address net a)) [
    | inl b ↦ absurd (raise≢ok (rw b at h))
    | inr b ↦ (is_blocked_address-false a b, check_addresses-ok addrs (rw b at h))
  ]

  check_host-literal :
      (host : List ℕ) (ip : IpAddress) (resolve : Bool)
      → net.ip_address host ≡ some ip
      → check_host net host resolve
        ≡ (if is_blocked_ip ip then raise (fresh blocked_url) else ok tt)
  unfolding check_host
  check_host-literal host ip resolve e = rw (e, check_host) refl

  check_host-name :
      (host : List ℕ)
      → net.ip_address host ≡ none
      → check_host net host true ≡ (resolve_host net host >>= check_addresses net)
  unfolding check_host
  check_host-name host e = rw (e, check_host) refl

  check_host-failed :
      (host : List ℕ) (e : Exc)
      → net.ip_address host ≡ none
      → net.getaddrinfo host ≡ failed e
      → check_host net host true ≡ raise e
  unfolding resolve_host
  check_host-failed host e n f = rw (check_host-name host n, f, resolve_host) refl

  check_host-found :
      (host : List ℕ) (addrs : List (List ℕ))
      → net.ip_address host ≡ none
      → net.getaddrinfo host ≡ found addrs
      → check_host net host true ≡ check_addresses net addrs
  unfolding resolve_host
  check_host-found host addrs n f = rw (check_host-name host n, f, resolve_host) refl

  check_host-ok : (host : List ℕ) → check_host net host true ≡ ok tt → IsPublicHost host
  check_host-ok host h = record {
    literal = λ ip e. literal_ok ip e (Bool-cases (is_blocked_ip ip));
    no_failure = λ n e f. raise≢ok (sym (check_host-failed host e n f) ∙ h);
    resolved = λ n addrs f. check_addresses-ok addrs (sym (check_host-found host addrs n f) ∙ h);
  }
    where
      literal_ok :
          (ip : IpAddress)
          → net.ip_address host ≡ some ip
          → (is_blocked_ip ip ≡ true) ⊎ (is_blocked_ip ip ≡ false)
          → IsPublicIp ip
      literal_ok ip e (inl b) = absurd (
          raise≢ok {e = fresh blocked_url}
            (sym (check_host-literal host ip true e ∙ rw b refl) ∙ h))
      literal_ok ip e (inr b) = is_blocked_ip-false ip b

  -- the guard as a whole
  validated_host :
      (hostname : Option (List ℕ))
      → check_hostname net hostname true ≡ ok tt
      → (host : List ℕ) × (hostname ≡ some host) × (host ≢ []) × IsPublicHost host
  unfolding check_hostname
  validated_host none h = absurd (raise≢ok h)
  validated_host (some []) h = absurd (raise≢ok h)
  validated_host (some (c ∷ host)) h = (c ∷ host, refl, λ e. cc, check_host-ok (c ∷ host) h)

  validated_parts :
      (url : String) (parts : SplitUrl)
      → net.urlsplit url ≡ some parts
      → validate_public_url net url true ≡ ok tt
      → (is_allowed_scheme (lower parts.scheme) ≡ true)
        × (check_hostname net parts.hostname true ≡ ok tt)
  unfolding validate_public_url
  validated_parts url parts e h = ground arith

  -- A URL that passes the check with resolution splits, has an allowed scheme and a host that is
  -- not empty; the host is no blocked address, and if it is a name, the resolver did not fail in
  -- an unknown way and gave no blocked address.
  pub validate_public_url-IsPublicUrl :
      (url : String) → validate_public_url net url true ≡ ok tt → IsPublicUrl url
  unfolding validate_public_url
  validate_public_url-IsPublicUrl url h = elim (Option-cases (net.urlsplit url)) [
    | inl e ↦ absurd (raise≢ok {e = fresh other} (sym (rw (e, validate_public_url) refl) ∙ h))
    | inr (parts, e) ↦
        let (scheme, checked) = validated_parts url parts e h in
        let (host, is_host, nonempty, public_host) = validated_host parts.hostname checked in
        record {
          parts = parts;
          host = host;
          splits = e;
          scheme = scheme;
          hostname = is_host;
          has_host = nonempty;
          public_host = public_host;
        }
  ]

  handle_async_request-IsPublicUrl {ℓ} :
      {A : Type ℓ} (inner : String → Result A) (url : String) (sent : List String)
      → All IsPublicUrl sent
      → All IsPublicUrl (handle_async_request net inner url sent).1
  unfolding handle_async_request
  handle_async_request-IsPublicUrl inner url sent h =
      elim (Result-cases (validate_public_url net url true)) [
        | inl e ↦ rw (e, handle_async_request) (validate_public_url-IsPublicUrl url e, h)
        | inr (e, f) ↦ rw (f, handle_async_request) h
      ]

  -- Whatever URLs the client asks for one after the other, redirects included, if those already
  -- sent are public then all that have reached the inner transport in the end are: each has an
  -- allowed scheme and a host that is, or resolves to, no blocked address.
  pub exchanges-IsPublicUrl {ℓ} :
      {A : Type ℓ} (inner : String → Result A) (urls sent : List String)
      → All IsPublicUrl sent
      → All IsPublicUrl (exchanges net inner urls sent)
  unfolding exchanges
  exchanges-IsPublicUrl inner [] sent h = h
  exchanges-IsPublicUrl inner (url ∷ urls) sent h =
      exchanges-IsPublicUrl inner urls (handle_async_request net inner url sent).1
        (handle_async_request-IsPublicUrl inner url sent h)
