-- ===== src/Tests/Config.antt =====
-- internal/config/config.go, on a file that asks for an https origin behind one proxy network.
use simplecontainerregistry.Base.{
  Bytes, codes, beq, true, false, List, [], ◌∷◌, ◌≡◌, refl, Option, none, some, Result, ok,
}
use simplecontainerregistry.Config.{Config, Url, Net, default_config}
use simplecontainerregistry.Config.Checks.{load}
use simplecontainerregistry.Config.Valid.{IsSafe, load-IsSafe}

abbrev origin : Url
origin = record {
  scheme = codes "https";
  host = codes "scr";
  path = [];
  raw_query = [];
  fragment = [];
}

abbrev net : Net
net = record {
  parse_request_uri = λ text. some origin;
  parse_cidr = λ text. some (record { ones = 8; is_network = true });
  is_loopback_ip = λ text. beq text (codes "127.0.0.1");
}

-- What the file sets: the public URL and a proxy.
abbrev read : Bytes → Config → Result Config
read content c = ok (record c {
  http = record c.http {
    public_url = content;
    trust_forwarded_headers = true;
    trusted_proxy_cidrs = codes "10.0.0.0/8" ∷ [];
  };
})

abbrev served : Config
served = record default_config {
  http = record default_config.http {
    public_url = codes "https://scr";
    trust_forwarded_headers = true;
    trusted_proxy_cidrs = codes "10.0.0.0/8" ∷ [];
  };
}

loaded : load net (λ name. []) read (ok (codes "https://scr")) ≡ ok served
unfolding load beq simplecontainerregistry.Base.trim simplecontainerregistry.Base.trim_right
    simplecontainerregistry.Base.drop_while simplecontainerregistry.Config.Checks.checked
loaded = refl

load-IsSafe_example : IsSafe net served
load-IsSafe_example = load-IsSafe net (λ name. []) read (ok (codes "https://scr")) served loaded
