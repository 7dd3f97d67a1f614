-- ===== src/Jwt.antt =====
-- pkg/cel/libs/jwt/impl.go and pkg/cel/libs/jwk/impl.go: the CEL functions jwt.Decode and jwks.Fetch.
-- What they use of cel-go, of jwx and of structpb is the record `Jose`.
pub mod Claims
pub mod Decoding
pub mod Library
use kyverno_http_authorizer.Base.{
  String, Option, none, some, List, [], ◌∷◌, Bool, not, Result, ok, err, panic, Error, ◌>>=◌,
  is_some, is_empty, if◌then◌else◌,
}
use kyverno_http_authorizer.GoMap.{GoMap, insert}

-- Token
pub record Token (Struct : Type 0) : Type 0 where
  pub claims : Option Struct
  pub valid : Bool

pub record Jose : Type 1 where
  -- cel-go's values, with ConvertToNative for strings and for key sets, NativeToValue and WrapErr.
  pub V : Type 0
  pub KeySet : Type 0
  pub Struct : Type 0
  pub to_text : V → Result String
  pub to_set : V → Result KeySet
  pub of_token : Token Struct → V
  pub of_set : KeySet → V
  pub wrap_err : Error → V
  -- jwk.Import, jwk.NewSet, AddKey and jwk.Fetch.
  pub Key : Type 0
  pub import_key : String → Result Key
  pub new_set : KeySet
  pub add_key : KeySet → Key → Result KeySet
  pub fetch_set : String → Result KeySet
  -- jwt.Parse with a key set and without validation, Keys, Get and jwt.Validate.
  pub Parsed : Type 0
  pub Any : Type 0
  pub parse : String → KeySet → Result Parsed
  pub keys : Parsed → List String
  pub get : Parsed → String → Result Any
  pub validate : Parsed → Option Error
  -- The value as a time.Time, and the seconds of its Unix.
  pub Time : Type 0
  pub as_time : Any → Option Time
  pub unix : Time → Any
  -- structpb.NewStruct
  pub new_struct : GoMap Any → Result Struct

module _ (jose : Jose) where
  open jose use {
    V, KeySet, Struct, to_text, to_set, of_token, of_set, wrap_err, import_key, new_set, add_key,
    fetch_set, Parsed, Any, parse, keys, get, validate, as_time, unix, new_struct,
  }

  -- A result, or its error as a value of CEL.
  abbrev pub or_wrap : Result V → Result V
  or_wrap (ok v) = ok v
  or_wrap (err e) = ok (wrap_err e)
  or_wrap panic = panic

  -- A claim as it is encoded: a time as its seconds.
  abbrev pub encoded : Any → Any
  encoded value = elim (as_time value) [ some t ↦ unix t | none ↦ value ]

  -- The loop over the keys of a token.
  unfoldable collect_fields : Parsed → GoMap Any → List String → Result (GoMap Any)
  unfolding insert
  collect_fields tok fields [] = ok fields
  collect_fields tok fields (key ∷ rest) = do
    value ← get tok key
    collect_fields tok (insert key (encoded value) fields) rest

  -- The claims of a token: nil if it has no keys.
  unfoldable claims_of : Parsed → Result (Option Struct)
  unfolding collect_fields
  claims_of tok = if is_empty (keys tok) then ok none else do
    fields ← collect_fields tok [] (keys tok)
    claims ← new_struct fields
    ok (some claims)

  -- What both functions do with a key set; whether the token is valid is a field of the result.
  unfoldable decode_with : String → KeySet → Result V
  unfolding claims_of
  decode_with token set = do
    tok ← parse token set
    claims ← claims_of tok
    ok (of_token (record { claims = claims; valid = not (is_some (validate tok)) }))

  pub decode_string_string : V → V → Result V
  unfolding decode_with
  decode_string_string token key = or_wrap (do
    token ← to_text token
    key ← to_text key
    imported ← import_key key
    set ← add_key new_set imported
    decode_with token set)

  pub decode_string_set : V → V → Result V
  unfolding decode_with
  decode_string_set token set =
      or_wrap (do token ← to_text token; set ← to_set set; decode_with token set)

  -- fetch
  pub fetch : V → Result V
  fetch from = or_wrap (do from ← to_text from; set ← fetch_set from; ok (of_set set))
