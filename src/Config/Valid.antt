-- ===== src/Config/Valid.antt =====
-- internal/config/config.go: what holds of a configuration that Validate accepts.
use simplecontainerregistry.Base.{
  ℕ, ◌≤◌, ◌<◌, Bytes, codes, beq_iff, Bool, true, false, ◌||◌, not, List, [], ◌∷◌, Option, none,
  some, is_nil, trim, is_slash, Result, ok, err, ◌>>=◌, >>=-eq-ok, ◌≡◌, ◌≢◌, ◌⊎◌, refl, inl, inr,
  All, Bool-cases, arith, Result-cases,
}
use simplecontainerregistry.Base.Int.{ℤ, pos, negsuc, ltb_ℤ}
use simplecontainerregistry.Storage.Disk.{is_not_exist}
use simplecontainerregistry.Config.{
  HttpConfig, StorageConfig, Config, Url, Cidr, Net, default_config,
}
use simplecontainerregistry.Config.Checks.{
  guard, is_positive, is_https, insecure_allowed, check_url, public_url_of, check_cidr, check_cidrs,
  check_limits, check_origin, check_http, check_storage, validate, load, apply_environment, checked,
}

pub guard-ok : (b : Bool) (message : Bytes) {x : Unit {0}} → guard b message ≡ ok x → b ≡ true
guard-ok true message h = refl
guard-ok false message h = cc h

positive : (z : ℤ) → is_positive z ≡ true → (n : ℕ) × (z ≡ pos n) × (0 < n)
positive (pos n) h = (n, refl, ground arith)
positive (negsuc n) h = absurd (ground arith)

module _ (net : Net) where
  -- The public URL is an https URL without path, query and fragment.
  abbrev pub IsHttpsOrigin : HttpConfig → Type 0
  IsHttpsOrigin h =
      (url : Url) × (net.parse_request_uri h.public_url ≡ some url)
      × (url.scheme ≡ codes "https")
      × (url.host ≢ [])
      × (url.raw_query ≡ [])
      × (url.fragment ≡ [])
      × (trim is_slash url.path ≡ [])

  -- A network of proxies, of which the prefix is not empty and the host bits are zero.
  abbrev pub IsProxyNetwork : Bytes → Type 0
  IsProxyNetwork raw =
      (cidr : Cidr) × (net.parse_cidr raw ≡ some cidr) × (0 < cidr.ones) × (cidr.is_network ≡ true)

  pub record IsSafe (c : Config) : Type 0 where
    pub transport :
        (insecure_allowed net c.http ≡ true)
        ⊎ (IsHttpsOrigin c.http × (c.http.secure_cookies ≡ true))
    pub proxies : All IsProxyNetwork c.http.trusted_proxy_cidrs
    pub forwarded :
        (c.http.trust_forwarded_headers ≡ false)
        ⊎ (IsHttpsOrigin c.http × (c.http.trusted_proxy_cidrs ≢ []))
    pub port : (n : ℕ) × (c.http.port ≡ pos n) × (0 < n) × (n ≤ 65535)
    pub upload_limit : (n : ℕ) × (c.storage.max_upload_bytes ≡ pos n) × (0 < n)
    pub upload_sessions : (n : ℕ) × (c.storage.max_upload_sessions ≡ pos n) × (0 < n)
    pub token_ttl : (n : ℕ) × (c.auth.token_ttl ≡ pos n) × (0 < n)

  not_nil : {A : Type 0} (xs : List A) → is_nil xs ≡ false → xs ≢ []
  not_nil [] h e = cc h
  not_nil (x ∷ xs) h e = cc e

  nil : {A : Type 0} (xs : List A) → is_nil xs ≡ true → xs ≡ []
  nil [] h = refl
  nil (x ∷ xs) h = cc h

  check_url-https :
      (allowed : Bool) (parsed found : Option Url)
      → check_url net allowed parsed ≡ ok found
      → is_https found ≡ true
      → (url : Url) × (parsed ≡ some url)
        × (url.scheme ≡ codes "https")
        × (url.host ≢ [])
        × (url.raw_query ≡ [])
        × (url.fragment ≡ [])
        × (trim is_slash url.path ≡ [])
  unfolding check_url
  check_url-https allowed none found h https = cc h
  check_url-https allowed (some url) found h https = (
    url,
    refl,
    (beq_iff url.scheme (codes "https")).0 (ground arith),
    not_nil url.host (ground arith),
    nil url.raw_query (ground arith),
    nil url.fragment (ground arith),
    nil (trim is_slash url.path) (ground arith),
  )

  public_url-https :
      (h : HttpConfig) (found : Option Url)
      → public_url_of net h ≡ ok found
      → is_https found ≡ true
      → IsHttpsOrigin h
  unfolding public_url_of
  public_url-https h found e https = elim (Bool-cases (is_nil h.public_url)) [
    | inl empty ↦ absurd (ground arith)
    | inr given ↦ check_url-https (insecure_allowed net h) _ found (rw given at e) https
  ]

  check_cidr-network :
      (raw : Bytes) (cidr : Option Cidr) {x : Unit {0}}
      → net.parse_cidr raw ≡ cidr
      → check_cidr net cidr ≡ ok x
      → IsProxyNetwork raw
  unfolding check_cidr
  check_cidr-network raw none e h = cc h
  check_cidr-network raw (some cidr) e h = (cidr, e, ground arith, ground arith)

  check_cidrs-All :
      (raws : List Bytes) {x : Unit {0}} → check_cidrs net raws ≡ ok x → All IsProxyNetwork raws
  unfolding check_cidrs
  check_cidrs-All [] h = tt
  check_cidrs-All (raw ∷ raws) h =
      let (a, ha, rest) = >>=-eq-ok (check_cidr net (net.parse_cidr raw)) _ h in
      (check_cidr-network raw _ refl ha, check_cidrs-All raws rest)

  port_in_range :
      (h : HttpConfig)
      → check_limits net h ≡ ok tt
      → (n : ℕ) × (h.port ≡ pos n) × (0 < n) × (n ≤ 65535)
  unfolding check_limits
  port_in_range h e = in_range h.port (ground arith) (ground arith)
    where
      in_range :
          (z : ℤ)
          → is_positive z ≡ true
          → ltb_ℤ (pos 65535) z ≡ false
          → (n : ℕ) × (z ≡ pos n) × (0 < n) × (n ≤ 65535)
      in_range (pos n) h k = (n, refl, ground arith, ground arith)
      in_range (negsuc n) h k = absurd (ground arith)

  -- What the checks against the public URL say of the Booleans when they pass.
  origin_checks :
      (h : HttpConfig) (found : Option Url)
      → check_origin net h found ≡ ok tt
      → ((is_https found || insecure_allowed net h) ≡ true)
        × ((h.secure_cookies || insecure_allowed net h) ≡ true)
        × (check_cidrs net h.trusted_proxy_cidrs ≡ ok tt)
        × ((not h.trust_forwarded_headers || not (is_nil h.trusted_proxy_cidrs)) ≡ true)
        × ((not h.trust_forwarded_headers || is_https found) ≡ true)
  unfolding check_origin
  origin_checks h found e = elim (Result-cases (check_cidrs net h.trusted_proxy_cidrs)) [
    | inl (x, passed) ↦ (ground arith, ground arith, passed, ground arith, ground arith)
    | inr (x, refused) ↦ absurd (ground arith)
  ]

  validated :
      (c : Config)
      → validate net c ≡ ok tt
      → (check_http net c.http ≡ ok tt)
        × (check_storage net c.storage ≡ ok tt)
        × (is_positive c.auth.token_ttl ≡ true)
  unfolding validate
  validated c e =
      let (x, http, rest) = >>=-eq-ok (check_http net c.http) _ e in
      let (y, storage, more) = >>=-eq-ok (check_storage net c.storage) _ rest in
      (http, storage, ground arith)

  limited :
      (s : StorageConfig)
      → check_storage net s ≡ ok tt
      → (is_positive s.max_upload_bytes ≡ true) × (is_positive s.max_upload_sessions ≡ true)
  unfolding check_storage
  limited s e = (ground arith, ground arith)

  -- What check_http says of the transport and of the trusted proxies.
  http_safe :
      (h : HttpConfig)
      → check_http net h ≡ ok tt
      → ((insecure_allowed net h ≡ true) ⊎ (IsHttpsOrigin h × (h.secure_cookies ≡ true)))
        × (All IsProxyNetwork h.trusted_proxy_cidrs)
        × ((h.trust_forwarded_headers ≡ false) ⊎ (IsHttpsOrigin h × (h.trusted_proxy_cidrs ≢ [])))
        × ((n : ℕ) × (h.port ≡ pos n) × (0 < n) × (n ≤ 65535))
  unfolding check_http
  http_safe h e =
      let (x, limits, more) = >>=-eq-ok (check_limits net h) _ e in
      let (found, url, origin) = >>=-eq-ok (public_url_of net h) _ more in
      let (a, b, c, d, f) = origin_checks h found origin in
      (
        elim (Bool-cases (insecure_allowed net h)) [
          | inl allowed ↦ inl allowed
          | inr refused ↦ inr (public_url-https h found url (ground arith), ground arith)
        ],
        check_cidrs-All h.trusted_proxy_cidrs c,
        elim (Bool-cases h.trust_forwarded_headers) [
          | inl trusted ↦ inr (
            public_url-https h found url (ground arith),
            not_nil h.trusted_proxy_cidrs (ground arith),
          )
          | inr ignored ↦ inl ignored
        ],
        port_in_range h limits,
      )

  validate-IsSafe : (c : Config) → validate net c ≡ ok tt → IsSafe c
  validate-IsSafe c e =
      let (http, storage, ttl) = validated c e in
      let (transport, proxies, forwarded, port) = http_safe c.http http in
      let (bytes, sessions) = limited c.storage storage in
      record {
        transport = transport;
        proxies = proxies;
        forwarded = forwarded;
        port = port;
        upload_limit = positive c.storage.max_upload_bytes bytes;
        upload_sessions = positive c.storage.max_upload_sessions sessions;
        token_ttl = positive c.auth.token_ttl ttl;
      }

  returned :
      (call : Result (Unit {0})) (c loaded : Config)
      → (call >>= λ _. ok c) ≡ ok loaded
      → (call ≡ ok tt) × (c ≡ loaded)
  returned (ok x) c loaded e = (refl, cc e)
  returned (err x) c loaded e = cc e

  returned-IsSafe : (c loaded : Config) → (validate net c >>= λ _. ok c) ≡ ok loaded → IsSafe loaded
  returned-IsSafe c loaded e =
      let (valid, same) = returned (validate net c) c loaded e in
      validate-IsSafe loaded (rw same at valid)

  checked-IsSafe :
      (getenv : Bytes → Bytes) (c loaded : Config)
      → checked net getenv c ≡ ok loaded
      → IsSafe loaded
  unfolding checked
  checked-IsSafe getenv c loaded e = returned-IsSafe (apply_environment net getenv c) loaded e

  -- A configuration that Load yields, from a file or from the defaults, is safe to serve: plain
  -- HTTP is allowed, by the operator or since the address is the loopback, or else the public URL
  -- is an https origin (with a host, without path, query and fragment) and cookies are secure;
  -- each trusted proxy entry is a network with a prefix that is not empty, and forwarded headers
  -- are trusted only with such entries and an https origin; the port lies in 1..65535, and the
  -- upload limits and the lifetime of tokens are positive.
  pub load-IsSafe :
      (getenv : Bytes → Bytes) (unmarshal : Bytes → Config → Result Config) (file : Result Bytes)
      (c : Config)
      → load net getenv unmarshal file ≡ ok c
      → IsSafe c
  unfolding load
  load-IsSafe getenv unmarshal (ok content) c e =
      let (parsed, _, rest) = >>=-eq-ok (unmarshal content default_config) _ e in
      checked-IsSafe getenv parsed c rest
  load-IsSafe getenv unmarshal (err x) c e = elim (Bool-cases (is_not_exist x)) [
    | inl missing ↦ checked-IsSafe getenv default_config c (rw missing at e)
    | inr other ↦ absurd (ground arith)
  ]
