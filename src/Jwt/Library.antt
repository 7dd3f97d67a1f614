-- ===== src/Jwt/Library.antt =====
-- pkg/cel/libs/jwt/lib.go and pkg/cel/libs/jwk/lib.go: the overloads of jwt.Decode and jwks.Fetch.
use kyverno_http_authorizer.Base.{List, [], ◌∷◌, false, Result, ok, ◌>>=◌}
use kyverno_http_authorizer.GoMap.{GoMap}
use kyverno_http_authorizer.Jwt.{Jose, decode_string_string, decode_string_set, fetch}
use kyverno_http_authorizer.Cel.Overloads.{
  token_type, set_type, string_type, unary_binding, binary_binding, Overload,
}

module _ (jose : Jose) where
  open jose use {V}

  -- These functions change nothing.
  abbrev stateless : (V → Result V) → V → Unit {0} → Result (Unit {0} × V)
  stateless f v s = do r ← f v; ok (s, r)

  abbrev stateless_binary : (V → V → Result V) → V → V → Unit {0} → Result (Unit {0} × V)
  stateless_binary f v w s = do r ← f v w; ok (s, r)

  -- libraryDecls of pkg/cel/libs/jwt
  abbrev pub jwt_library : GoMap (List (Overload V Unit))
  jwt_library =
      (
        "jwt.Decode",
        record {
          name = "decode_string_string";
          member = false;
          args = string_type ∷ string_type ∷ [];
          result = token_type;
          binding = binary_binding (stateless_binary (decode_string_string jose));
        }
            ∷ record {
              name = "decode_string_set";
              member = false;
              args = string_type ∷ set_type ∷ [];
              result = token_type;
              binding = binary_binding (stateless_binary (decode_string_set jose));
            }
            ∷ [],
      )
      ∷ []

  -- libraryDecls of pkg/cel/libs/jwk
  abbrev pub jwk_library : GoMap (List (Overload V Unit))
  jwk_library =
      (
        "jwks.Fetch",
        record {
          name = "fetch_string";
          member = false;
          args = string_type ∷ [];
          result = set_type;
          binding = unary_binding (stateless (fetch jose));
        }
            ∷ [],
      )
      ∷ []
