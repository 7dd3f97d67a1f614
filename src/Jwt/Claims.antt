-- ===== src/Jwt/Claims.antt =====
-- The loop over the keys of a token in jwt.Decode: the fields that it makes, and the key that stops it.
use kyverno_http_authorizer.Base.{
  ◌++◌, All, ◌⊎◌, sym, Error, String, Option, none, some, List, [], ◌∷◌, ◌≡◌, refl, ap, ◌∙◌, Bool,
  true, false, Result, ok, err, panic, if◌then◌else◌, ◌==◌, eq_iff, Bool-cases, inl, inr,
}
use kyverno_http_authorizer.GoMap.{GoMap, lookup, insert}
use kyverno_http_authorizer.GoMap.Laws.{lookup-insert}
use kyverno_http_authorizer.Stream.Sorted.{contains}
use kyverno_http_authorizer.Jwt.{Jose, encoded, collect_fields}

module _ (jose : Jose) where
  open jose use {
    V, KeySet, Key, Struct, Parsed, Any, to_text, to_set, of_token, wrap_err, import_key, new_set,
    add_key, parse, keys, get, validate, as_time, unix, new_struct,
  }

  -- A claim as a field of the token: a time is its Unix seconds, and every other value itself.
  abbrev claim_of : Result Any → Option Any
  claim_of (ok value) = some (elim (as_time value) [ some t ↦ unix t | none ↦ value ])
  claim_of (err e) = none
  claim_of panic = none

  -- The fields of a token for the given keys, added to those of `before`.
  abbrev pub HasFields : Parsed → List String → GoMap Any → GoMap Any → Type 0
  HasFields tok ks before m =
      (k : String) → lookup k m ≡ (if contains k ks then claim_of (get tok k) else lookup k before)

  abbrev HasValue : Parsed → String → Type 0
  HasValue tok key = (value : Any) × (get tok key ≡ ok value)

  -- A key, all keys in front of which have a value.
  abbrev pub Behind : Parsed → List String → String → Type 0
  Behind tok ks key =
      (before after : List String) × (ks ≡ before ++ key ∷ after) × All (HasValue tok) before

  -- A result is the error, or the panic, of the value of a key.
  abbrev pub Stops : {A : Type 0} → (Error → Result A) → Parsed → String → Result A → Type 0
  Stops with_error tok key r =
      ((e : Error) × (get tok key ≡ err e) × (r ≡ with_error e))
      ⊎ ((get tok key ≡ panic) × (r ≡ panic))

  abbrev pub Collected : Parsed → List String → GoMap Any → Type 0
  Collected tok ks before =
      ((m : GoMap Any) × (collect_fields jose tok before ks ≡ ok m) × HasFields tok ks before m)
      ⊎ ((key : String) × Behind tok ks key
          × Stops (λ e. err e) tok key (collect_fields jose tok before ks))

  -- The first of the fields in front of the others.
  fields_step :
      (tok : Parsed) (j : String) (value : Any)
      → get tok j ≡ ok value
      → (ks : List String) (before : GoMap Any) (k : String)
      → (if contains k ks
          then claim_of (get tok k)
          else lookup k (insert j (encoded jose value) before))
        ≡ (if (if j == k then true else contains k ks)
            then claim_of (get tok k)
            else lookup k before)
  fields_step tok j value g ks before k =
      rw (lookup-insert j k (encoded jose value) before) (elim (Bool-cases (j == k)) [
        | inl hit ↦ rw hit (same hit (contains k ks))
        | inr miss ↦ rw miss
      ])
    where
      same :
          (j == k) ≡ true
          → (b : Bool)
          → (if b then claim_of (get tok k) else some (encoded jose value)) ≡ claim_of (get tok k)
      same hit true = refl
      same hit false = sym (ap claim_of (ap (get tok) (sym ((eq_iff j k).0 hit)) ∙ g))

  pub collect_fields_cases :
      (tok : Parsed) (ks : List String) (before : GoMap Any) → Collected tok ks before
  unfolding collect_fields
  collect_fields_cases tok [] before = inl (before, refl, λ k. refl)
  collect_fields_cases tok (j ∷ ks) before =
      reading (get tok j)
        (λ value. collect_fields_cases tok ks (insert j (encoded jose value) before)) refl
    where
      reading :
          (o : Result Any)
          → ((value : Any) → Collected tok ks (insert j (encoded jose value) before))
          → get tok j ≡ o
          → Collected tok (j ∷ ks) before
      reading (err e) rest g = inr (j, ([], ks, refl, tt), inl (e, g, rw g))
      reading panic rest g = inr (j, ([], ks, refl, tt), inr (g, rw g))
      reading (ok value) rest g = elim (rest value) [
        | inl (m, e, h) ↦ inl (m, rw g e, λ k. h k ∙ fields_step tok j value g ks before k)
        | inr (key, (front, after, q, vs), inl (e, x, r)) ↦
            inr (key, (j ∷ front, after, ap (λ l. j ∷ l) q, ((value, g), vs)), inl (e, x, rw g r))
        | inr (key, (front, after, q, vs), inr (x, r)) ↦
            inr (key, (j ∷ front, after, ap (λ l. j ∷ l) q, ((value, g), vs)), inr (x, rw g r))
      ]
