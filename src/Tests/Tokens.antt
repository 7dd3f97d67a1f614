-- ===== src/Tests/Tokens.antt =====
-- The theorem on jwt.Decode, at a token with two claims, one of them a time.
use kyverno_http_authorizer.Base.{
  ℕ, String, Option, none, some, List, [], ◌∷◌, ◌≡◌, refl, Result, ok, err, panic, ◌⊎◌, Error, ◌==◌,
  if◌then◌else◌,
}
use kyverno_http_authorizer.GoMap.{GoMap}
use kyverno_http_authorizer.Jwt.{Token, Jose, decode_string_set, decode_string_string}
use kyverno_http_authorizer.Jwt.Decoding.{Decodes, decode_string_set-decode_string_string}

-- The value of a claim.
pub data Claim : Type 0 where
  text_claim : String → Claim
  time_claim : ℕ → Claim
  seconds : ℕ → Claim

pub data TokenValue : Type 0 where
  text_value : String → TokenValue
  set_value : List String → TokenValue
  token_value : Token (GoMap Claim) → TokenValue
  error_value : Error → TokenValue

abbrev pub text_of : TokenValue → Result String
text_of (text_value t) = ok t
text_of _ = err "no string"

abbrev pub set_of : TokenValue → Result (List String)
set_of (set_value ks) = ok ks
set_of _ = err "no set"

abbrev pub time_of : Claim → Option ℕ
time_of (time_claim n) = some n
time_of (text_claim t) = none
time_of (seconds n) = none

abbrev pub claim : String → Claim
claim k = if k == "exp" then time_claim 1700000000 else text_claim "alice"

-- Keys are their text, and every token has the claims `exp` and `sub`, in this order, and is expired.
abbrev pub jose : Jose
jose = record {
  V = TokenValue;
  KeySet = List String;
  Struct = GoMap Claim;
  to_text = text_of;
  to_set = set_of;
  of_token = token_value;
  of_set = set_value;
  wrap_err = error_value;
  Key = String;
  import_key = λ k. ok k;
  new_set = [];
  add_key = λ set k. ok (k ∷ set);
  fetch_set = λ url. ok [];
  Parsed = Unit;
  Any = Claim;
  parse = λ text set. ok tt;
  keys = λ tok. "exp" ∷ "sub" ∷ [];
  get = λ tok k. ok (claim k);
  validate = λ tok. some "exp not satisfied";
  Time = ℕ;
  as_time = time_of;
  unix = seconds;
  new_struct = λ m. ok m;
}

decode_string_set-decode_string_string_example :
    let r = decode_string_set jose (text_value "token") (set_value ("key" ∷ [])) in
    (decode_string_string jose (text_value "token") (text_value "key") ≡ r)
    × (((tok : Unit {0}) × (jose.parse "token" ("key" ∷ []) ≡ ok tok) × Decodes jose tok r)
        ⊎ ((e : Error) × (jose.parse "token" ("key" ∷ []) ≡ err e) × (r ≡ ok (error_value e)))
        ⊎ ((jose.parse "token" ("key" ∷ []) ≡ panic) × (r ≡ panic)))
decode_string_set-decode_string_string_example =
    decode_string_set-decode_string_string jose (text_value "token") (set_value ("key" ∷ []))
      (text_value "key") "token" "key" "key" ("key" ∷ []) refl refl refl refl refl
