-- ===== src/Config/Checks.antt =====
-- internal/config/config.go: Load, and the checks of Validate. The decoder of YAML and the environment are
-- parameters.
use simplecontainerregistry.Base.{
  ◌*◌, ◌^◌, Bytes, codes, beq, Bool, true, false, ◌&&◌, ◌||◌, not, List, [], ◌∷◌, Option, none,
  some, is_nil, trim, is_slash, if◌then◌else◌, ◌==◌, Result, ok, err, failure, ◌>>=◌,
}
use simplecontainerregistry.Base.Int.{ℤ, pos, ltb_ℤ}
use simplecontainerregistry.Storage.Disk.{is_not_exist}
use simplecontainerregistry.Config.{
  HttpConfig, StorageConfig, Config, Url, Cidr, Net, default_config,
}

abbrev pub guard : Bool → Bytes → Result (Unit {0})
guard true message = ok tt
guard false message = err (failure message)

abbrev pub is_positive : ℤ → Bool
is_positive z = ltb_ℤ (pos 0) z

abbrev pub is_https : Option Url → Bool
is_https none = false
is_https (some url) = beq url.scheme (codes "https")

module _ (net : Net) where
  unfoldable pub is_loopback_address : Bytes → Bool
  is_loopback_address address = beq address (codes "localhost") || net.is_loopback_ip address

  abbrev pub insecure_allowed : HttpConfig → Bool
  unfolding is_loopback_address
  insecure_allowed h = h.allow_insecure_http || is_loopback_address h.address

  -- The checks of an URL that was parsed.
  unfoldable pub check_url : Bool → Option Url → Result (Option Url)
  check_url allowed none =
      err (failure (codes "http.publicURL must be an absolute http or https URL"))
  check_url allowed (some url) = do
    _ ←
        guard
          (not (
            is_nil url.host
            || (not (beq url.scheme (codes "http")) && not (beq url.scheme (codes "https")))))
          (codes "http.publicURL must be an absolute http or https URL")
    _ ←
        guard (is_nil url.raw_query && (is_nil url.fragment && is_nil (trim is_slash url.path)))
          (codes "http.publicURL must not include path, query, or fragment")
    _ ← guard (not (beq url.scheme (codes "http")) || allowed) (codes "http.publicURL uses http")
    ok (some url)

  -- The URL of the configuration, if it names one.
  unfoldable pub public_url_of : HttpConfig → Result (Option Url)
  unfolding check_url is_loopback_address
  public_url_of h =
      if is_nil h.public_url
      then ok none
      else check_url (insecure_allowed h) (net.parse_request_uri h.public_url)

  unfoldable pub check_cidr : Option Cidr → Result (Unit {0})
  check_cidr none = err (failure (codes "invalid http.trustedProxyCIDRs entry"))
  check_cidr (some cidr) = do
    _ ← guard (not (cidr.ones == 0)) (codes "http.trustedProxyCIDRs entry trusts every address")
    guard cidr.is_network (codes "http.trustedProxyCIDRs entry has host bits set")

  unfoldable pub check_cidrs : List Bytes → Result (Unit {0})
  unfolding check_cidr
  check_cidrs [] = ok tt
  check_cidrs (raw ∷ raws) = check_cidr (net.parse_cidr raw) >>= λ _. check_cidrs raws

  unfoldable pub check_limits : HttpConfig → Result (Unit {0})
  check_limits h = do
    _ ←
        guard (is_positive h.port && not (ltb_ℤ (pos 65535) h.port))
          (codes "http.port must be between 1 and 65535")
    _ ← guard (is_positive h.read_timeout) (codes "http.readTimeout must be positive")
    _ ← guard (is_positive h.write_timeout) (codes "http.writeTimeout must be positive")
    _ ← guard (is_positive h.idle_timeout) (codes "http.idleTimeout must be positive")
    guard
        (not (ltb_ℤ h.max_header_bytes (pos 1024))
          && not (ltb_ℤ (pos (16 * 2 ^ 20)) h.max_header_bytes))
        (codes "http.maxHeaderBytes must be between 1024 and 16777216")

  -- The checks that follow once the public URL is known.
  unfoldable pub check_origin : HttpConfig → Option Url → Result (Unit {0})
  unfolding check_cidrs is_loopback_address
  check_origin h public_url = do
    _ ←
        guard (is_https public_url || insecure_allowed h)
          (codes "http.publicURL must be set to the public https origin")
    _ ←
        guard (h.secure_cookies || insecure_allowed h)
          (codes "http.secureCookies: false requires http.allowInsecureHTTP: true")
    _ ← check_cidrs h.trusted_proxy_cidrs
    _ ←
        guard (not h.trust_forwarded_headers || not (is_nil h.trusted_proxy_cidrs))
          (codes "http.trustedProxyCIDRs is required")
    guard (not h.trust_forwarded_headers || is_https public_url)
        (codes "http.trustForwardedHeaders requires an https http.publicURL")

  unfoldable pub check_http : HttpConfig → Result (Unit {0})
  unfolding check_limits public_url_of check_origin
  check_http h = check_limits h >>= λ _. public_url_of h >>= check_origin h

  abbrev pub same_bool : Bool → Bool → Bool
  same_bool true b = b
  same_bool false b = not b

  unfoldable pub check_storage : StorageConfig → Result (Unit {0})
  check_storage s = do
    _ ← guard (not (is_nil s.root_directory)) (codes "storage.rootDirectory is required")
    _ ← guard (is_positive s.max_upload_bytes) (codes "storage.maxUploadBytes must be positive")
    _ ←
        guard (is_positive s.max_upload_sessions)
          (codes "storage.maxUploadSessions must be positive")
    guard (is_positive s.upload_ttl) (codes "storage.uploadTTL must be positive")

  -- Config.Validate.
  unfoldable pub validate : Config → Result (Unit {0})
  unfolding check_http check_storage
  validate c = do
    _ ← check_http c.http
    _ ← check_storage c.storage
    _ ← guard (beq c.database.driver (codes "sqlite")) (codes "unsupported database.driver")
    _ ← guard (not (is_nil c.database.dsn)) (codes "database.dsn is required")
    _ ← guard (not (is_nil c.auth.issuer)) (codes "auth.issuer is required")
    _ ← guard (not (is_nil c.auth.service)) (codes "auth.service is required")
    _ ← guard (is_positive c.auth.token_ttl) (codes "auth.tokenTTL must be positive")
    guard (same_bool (is_nil c.bootstrap.admin_username) (is_nil c.bootstrap.admin_password))
        (codes "bootstrap admin username and password must be provided together")

  -- An empty field is read from the environment.
  unfoldable pub apply_environment : (Bytes → Bytes) → Config → Config
  apply_environment getenv c = record c {
    bootstrap = record {
      admin_username =
          if is_nil c.bootstrap.admin_username
          then getenv (codes "SCR_BOOTSTRAP_ADMIN_USERNAME")
          else c.bootstrap.admin_username;
      admin_password =
          if is_nil c.bootstrap.admin_password
          then getenv (codes "SCR_BOOTSTRAP_ADMIN_PASSWORD")
          else c.bootstrap.admin_password;
    };
  }

  -- Load: an error of Validate comes with the configuration in Go; here it comes alone.
  unfoldable pub checked : (Bytes → Bytes) → Config → Result Config
  unfolding apply_environment validate
  checked getenv c = validate (apply_environment getenv c) >>= λ _. ok (apply_environment getenv c)

  unfoldable pub load :
      (Bytes → Bytes) → (Bytes → Config → Result Config) → Result Bytes → Result Config
  unfolding apply_environment validate
  load getenv unmarshal (err e) =
      if not (is_not_exist e) then err e else checked getenv default_config
  load getenv unmarshal (ok content) = unmarshal content default_config >>= λ c. checked getenv c
