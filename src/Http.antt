-- ===== src/Http.antt =====
-- pkg/cel/libs/http/types.go: the request that policies see and the response that they build.
-- A pointer is an `Option`; a Go string that holds a request's body is its bytes.
pub mod Functions
pub mod Library
use kyverno_http_authorizer.Base.{ℕ, ℤ, String, Option, some, List, Result, ok, ◌>>=◌, length}
use kyverno_http_authorizer.GoMap.{GoMap}

-- The map of a Kv may be nil.
pub record Kv : Type 0 where
  pub inner : Option (GoMap (List String))

-- GetInnerMap
abbrev pub get_inner_map : Kv → Option (GoMap (List String))
get_inner_map k = k.inner

pub record Request : Type 0 where
  pub method : String
  pub headers : Option Kv
  pub path : String
  pub host : String
  pub scheme : String
  pub query : Option Kv
  pub fragment : String
  pub size : ℕ
  pub protocol : String
  pub body : List ℕ
  pub raw_body : List ℕ

pub record Response : Type 0 where
  pub status : ℤ
  pub headers : Option Kv
  pub body : String

-- The parts of net/http's Request that the program reads; `body` is what io.ReadAll returns on it.
pub record ServerRequest : Type 0 where
  pub method : String
  pub header : GoMap (List String)
  pub url_path : String
  pub url_query : GoMap (List String)
  pub url_fragment : String
  pub url_scheme : String
  pub host : String
  pub proto : String
  pub body : Result (List ℕ)

-- NewRequest
unfoldable pub new_request : ServerRequest → Result Request
new_request r = do
  bytes ← r.body
  ok (record {
    method = r.method;
    headers = some (record { inner = some r.header });
    path = r.url_path;
    host = r.host;
    scheme = r.url_scheme;
    query = some (record { inner = some r.url_query });
    fragment = r.url_fragment;
    size = length bytes;
    protocol = r.proto;
    body = bytes;
    raw_body = bytes;
  })
