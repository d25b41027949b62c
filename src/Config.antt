-- ===== src/Config.antt =====
-- internal/config/config.go: the configuration and its defaults. A duration is nanoseconds, an int is a
-- ℤ in its range. Packages net/url and net are parameters.
pub mod Checks
pub mod Valid
use simplecontainerregistry.Base.{
  ℕ, ◌*◌, ◌^◌, Bytes, codes, beq, Bool, true, false, ◌&&◌, ◌||◌, not, List, [], ◌∷◌, ◌++◌, Option,
  none, some, is_nil, trim, is_slash, if◌then◌else◌, ◌==◌, Result, ok, err, Error, failure,
  not_exist, ◌>>=◌,
}
use simplecontainerregistry.Base.Int.{ℤ, pos, negsuc, ltb_ℤ}
use simplecontainerregistry.Storage.Disk.{is_not_exist}

pub record HttpConfig : Type 0 where
  pub address : Bytes
  pub port : ℤ
  pub secure_cookies : Bool
  pub allow_insecure_http : Bool
  pub public_url : Bytes
  pub trust_forwarded_headers : Bool
  pub trusted_proxy_cidrs : List Bytes
  pub read_timeout : ℤ
  pub write_timeout : ℤ
  pub idle_timeout : ℤ
  pub max_header_bytes : ℤ

pub record StorageConfig : Type 0 where
  pub root_directory : Bytes
  pub gc : Bool
  pub gc_delay : ℤ
  pub gc_interval : ℤ
  pub max_upload_bytes : ℤ
  pub max_upload_sessions : ℤ
  pub upload_ttl : ℤ

pub record DatabaseConfig : Type 0 where
  pub driver : Bytes
  pub dsn : Bytes

pub record AuthConfig : Type 0 where
  pub issuer : Bytes
  pub service : Bytes
  pub token_ttl : ℤ

pub record BootstrapConfig : Type 0 where
  pub admin_username : Bytes
  pub admin_password : Bytes

pub record Config : Type 0 where
  pub http : HttpConfig
  pub storage : StorageConfig
  pub database : DatabaseConfig
  pub auth : AuthConfig
  pub bootstrap : BootstrapConfig

-- The fields of url.URL that are read.
pub record Url : Type 0 where
  pub scheme : Bytes
  pub host : Bytes
  pub path : Bytes
  pub raw_query : Bytes
  pub fragment : Bytes

-- What net.ParseCIDR yields: the length of the prefix, and whether the address is that of the network.
pub record Cidr : Type 0 where
  pub ones : ℕ
  pub is_network : Bool

pub record Net : Type 0 where
  -- url.ParseRequestURI
  pub parse_request_uri : Bytes → Option Url
  pub parse_cidr : Bytes → Option Cidr
  -- net.ParseIP, and IsLoopback of what it yields
  pub is_loopback_ip : Bytes → Bool

abbrev pub minute : ℕ
minute = 60_000_000_000

abbrev pub default_config : Config
default_config = record {
  http = record {
    address = codes "0.0.0.0";
    port = pos 5000;
    secure_cookies = true;
    allow_insecure_http = false;
    public_url = [];
    trust_forwarded_headers = false;
    trusted_proxy_cidrs = [];
    read_timeout = pos (30 * minute);
    write_timeout = pos (30 * minute);
    idle_timeout = pos (2 * minute);
    max_header_bytes = pos (2 ^ 20);
  };
  storage = record {
    root_directory = codes "/var/lib/scr/registry";
    gc = true;
    gc_delay = pos (60 * minute);
    gc_interval = pos (24 * 60 * minute);
    max_upload_bytes = pos (10 * 2 ^ 30);
    max_upload_sessions = pos 100;
    upload_ttl = pos (24 * 60 * minute);
  };
  database = record { driver = codes "sqlite"; dsn = codes "/var/lib/scr/scr.db" };
  auth = record { issuer = codes "scr"; service = codes "scr"; token_ttl = pos (10 * minute) };
  bootstrap = record { admin_username = []; admin_password = [] };
}
