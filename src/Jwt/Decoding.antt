-- ===== src/Jwt/Decoding.antt =====
-- The claims that a token decodes to.
use kyverno_http_authorizer.Base.{
  ◌++◌, ◌⊎◌, subst, Error, String, Option, none, some, List, [], ◌∷◌, ◌≡◌, refl, Bool, true, false,
  not, Result, ok, err, panic, ◌>>=◌, is_some, is_empty, if◌then◌else◌, inl, inr,
}
use kyverno_http_authorizer.GoMap.{GoMap}
use kyverno_http_authorizer.Jwt.Claims.{HasFields, Behind, Stops, collect_fields_cases}
use kyverno_http_authorizer.Jwt.{
  Jose, or_wrap, collect_fields, claims_of, decode_with, decode_string_string, decode_string_set,
}

module _ (jose : Jose) where
  open jose use {
    V, KeySet, Key, Struct, Parsed, Any, to_text, to_set, of_token, wrap_err, import_key, new_set,
    add_key, parse, keys, get, validate, new_struct,
  }

  -- The token with the given claims.
  abbrev token_of : Parsed → Option Struct → V
  token_of tok claims = of_token (record { claims = claims; valid = not (is_some (validate tok)) })

  -- What the fields of a token encode to.
  abbrev encoding : Parsed → GoMap Any → Result V
  encoding tok m = if is_empty (keys tok) then ok (token_of tok none) else elim (new_struct m) [
    | ok claims ↦ ok (token_of tok (some claims))
    | err e ↦ ok (wrap_err e)
    | panic ↦ panic
  ]

  -- The results of decoding a token that parses.
  abbrev pub Decodes : Parsed → Result V → Type 0
  Decodes tok r =
      ((m : GoMap Any) × HasFields jose tok (keys tok) [] m × (r ≡ encoding tok m))
      ⊎ ((key : String) × Behind jose tok (keys tok) key
          × Stops jose (λ e. ok (wrap_err e)) tok key r)

  abbrev decoded : Parsed → Result V
  decoded tok = or_wrap jose (do claims ← claims_of jose tok; ok (token_of tok claims))

  nonempty :
      (ks before : List String) (key : String) (after : List String)
      → ks ≡ before ++ key ∷ after
      → is_empty ks ≡ false
  nonempty ks [] key after q = rw q
  nonempty ks (b ∷ before) key after q = rw q

  decoded-Decodes : (tok : Parsed) → Decodes tok (decoded tok)
  unfolding claims_of
  decoded-Decodes tok = elim (collect_fields_cases jose tok (keys tok) []) [
    | inl (m, e, h) ↦ inl (m, h, by_keys (is_empty (keys tok)) m e)
    | inr (key, (front, after, q, vs), inl (e, x, r)) ↦
        inr (key, (front, after, q, vs), inl (e, x, rw (nonempty _ front key after q, r)))
    | inr (key, (front, after, q, vs), inr (x, r)) ↦
        inr (key, (front, after, q, vs), inr (x, rw (nonempty _ front key after q, r)))
  ]
    where
      by_struct :
          (r : Result Struct)
          → or_wrap jose (do claims ← (do claims ← r; ok (some claims)); ok (token_of tok claims))
            ≡ elim r [
              | ok claims ↦ ok (token_of tok (some claims))
              | err e ↦ ok (wrap_err e)
              | panic ↦ panic
            ]
      by_struct (ok claims) = refl
      by_struct (err e) = refl
      by_struct panic = refl

      by_keys :
          (b : Bool) (m : GoMap Any)
          → collect_fields jose tok [] (keys tok) ≡ ok m
          → or_wrap jose (do
            claims ← if b then ok none else (do
              fields ← collect_fields jose tok [] (keys tok)
              claims ← new_struct fields
              ok (some claims))
            ok (token_of tok claims))
            ≡ (if b then ok (token_of tok none) else elim (new_struct m) [
              | ok claims ↦ ok (token_of tok (some claims))
              | err e ↦ ok (wrap_err e)
              | panic ↦ panic
            ])
      by_keys true m e = refl
      by_keys false m e = rw e (by_struct (new_struct m))

  -- A token that is text decodes with a key set, and with the text of a key whose set is that set, to the same result.
  -- If the token does not parse, the result is the error of parsing as a value, or its panic. If it does, the keys of
  -- the token are read in their order. If one has no value, the first such, the result is its error as a
  -- value, or its panic. Else there is a map that has, under every key of the token and under no other, the value of the
  -- key, a time being its seconds, and with it the result is: for a token without keys, a token without claims;
  -- else the token whose claims are the map's struct, the error of making that struct as a value, or its
  -- panic. In every token the result holds, the field valid is whether the validation finds no error: an invalid token
  -- is still decoded.
  pub decode_string_set-decode_string_string :
      (token sv key : V) (text secret : String) (imported : Key) (set : KeySet)
      → to_text token ≡ ok text
      → to_set sv ≡ ok set
      → to_text key ≡ ok secret
      → import_key secret ≡ ok imported
      → add_key new_set imported ≡ ok set
      → (decode_string_string jose token key ≡ decode_string_set jose token sv)
        × (((tok : Parsed) × (parse text set ≡ ok tok)
              × Decodes tok (decode_string_set jose token sv))
            ⊎ ((e : Error) × (parse text set ≡ err e)
                × (decode_string_set jose token sv ≡ ok (wrap_err e)))
            ⊎ ((parse text set ≡ panic) × (decode_string_set jose token sv ≡ panic)))
  unfolding decode_string_set decode_string_string decode_with
  decode_string_set-decode_string_string token sv key text secret imported set t s k i a =
      (rw (t, s, k, i, a), parsing (parse text set) refl)
    where
      parsing :
          (o : Result Parsed)
          → parse text set ≡ o
          → ((tok : Parsed) × (parse text set ≡ ok tok)
              × Decodes tok (decode_string_set jose token sv))
            ⊎ ((e : Error) × (parse text set ≡ err e)
                × (decode_string_set jose token sv ≡ ok (wrap_err e)))
            ⊎ ((parse text set ≡ panic) × (decode_string_set jose token sv ≡ panic))
      parsing (ok tok) p =
          let same : decoded tok ≡ decode_string_set jose token sv = rw (t, s, p) in
          inl (tok, p, subst (Decodes tok) same (decoded-Decodes tok))
      parsing (err e) p = inr (inl (e, p, rw (t, s, p)))
      parsing panic p = inr (inr (p, rw (t, s, p)))
