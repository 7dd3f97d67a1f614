-- ===== src/Authorizer/Headers.antt =====
-- The header fields that a response is sent with: one value for each key, the last that was added.
use kyverno_http_authorizer.Base.{
  String, some, List, [], ◌∷◌, ◌≡◌, refl, ap, ◌∙◌, ◌≢◌, arith, ◌==◌, eq_iff, eq_refl, is_some,
  Bool-cases, inl, inr, true,
}
use kyverno_http_authorizer.GoMap.{GoMap, lookup, insert, Distinct}
use kyverno_http_authorizer.GoMap.Laws.{lookup-insert}
use kyverno_http_authorizer.Writer.{Writer, set_header}
use kyverno_http_authorizer.Authorizer.{set_values, set_headers}

insert-insert {ℓ} :
    {V : Type ℓ} (k : String) (u v : V) (m : GoMap V) → insert k v (insert k u m) ≡ insert k v m
unfolding insert
insert-insert k u v [] = ground (arith, eq_refl k)
insert-insert k u v ((j, w) ∷ m) = ground (arith, eq_refl k, insert-insert k u v m)

-- The last element of a list that begins with `v`.
abbrev pub last_of : String → List String → String
last_of v [] = v
last_of v (u ∷ us) = last_of u us

module _ (canonical : String → String) where
  abbrev pub sent_field : String → List String → GoMap (List String) → GoMap (List String)
  sent_field k [] h = h
  sent_field k (v ∷ vs) h = insert (canonical k) (last_of v vs ∷ []) h

  -- The header map after a response's headers have been set on `h`.
  abbrev pub sent_fields : GoMap (List String) → GoMap (List String) → GoMap (List String)
  sent_fields [] h = h
  sent_fields ((k, vs) ∷ m) h = sent_fields m (sent_field k vs h)

  set_values-last :
      (k v : String) (vs : List String) (w : Writer)
      → set_values canonical k (v ∷ vs) w
        ≡ record w { header = insert (canonical k) (last_of v vs ∷ []) w.header }
  unfolding set_values
  set_values-last k v [] w = refl
  set_values-last k v (u ∷ us) w =
      set_values-last k u us (set_header canonical k v w)
      ∙ ap (λ h. record w { header = h })
          (insert-insert (canonical k) (v ∷ []) (last_of u us ∷ []) w.header)

  pub set_headers-sent_fields :
      (m : GoMap (List String)) (w : Writer)
      → set_headers canonical m w ≡ record w { header = sent_fields m w.header }
  unfolding set_headers
  set_headers-sent_fields [] w = refl
  set_headers-sent_fields ((k, []) ∷ m) w = set_headers-sent_fields m w
  set_headers-sent_fields ((k, v ∷ vs) ∷ m) w =
      ap (set_headers canonical m) (set_values-last k v vs w)
      ∙ set_headers-sent_fields m
          (record w { header = insert (canonical k) (last_of v vs ∷ []) w.header })

  -- A key that no header of `m` has in its canonical form keeps its value.
  lookup-sent_fields_ne :
      (j : String) (m h : GoMap (List String))
      → Distinct m
      → ((k : String) → is_some (lookup k m) ≡ true → canonical k ≢ j)
      → lookup j (sent_fields m h) ≡ lookup j h
  unfolding lookup
  lookup-sent_fields_ne j [] h d ne = refl
  lookup-sent_fields_ne j ((k, []) ∷ m) h d ne =
      lookup-sent_fields_ne j m h d.1 (λ i b. ne i (ground (arith, eq_iff k i)))
  lookup-sent_fields_ne j ((k, v ∷ vs) ∷ m) h d ne =
      lookup-sent_fields_ne j m (insert (canonical k) (last_of v vs ∷ []) h) d.1
        (λ i b. ne i (ground (arith, eq_iff k i)))
      ∙ ground (
        arith,
        lookup-insert (canonical k) j (last_of v vs ∷ []) h,
        eq_iff (canonical k) j,
        ne k (ground (arith, eq_refl k)),
      )

  -- A header with values is sent with the last of them, if no other header of the response has the
  -- same canonical key.
  lookup-sent_fields :
      (k v : String) (vs : List String) (m h : GoMap (List String))
      → Distinct m
      → ((j : String) → is_some (lookup j m) ≡ true → canonical j ≡ canonical k → j ≡ k)
      → lookup k m ≡ some (v ∷ vs)
      → lookup (canonical k) (sent_fields m h) ≡ some (last_of v vs ∷ [])
  unfolding lookup
  lookup-sent_fields k v vs [] h d inj e = cc
  lookup-sent_fields k v vs ((i, us) ∷ m) h d inj e = elim (Bool-cases (i == k)) [
    | inl hit ↦ rw (values hit) (
        lookup-sent_fields_ne (canonical k) m (sent_field i (v ∷ vs) h) d.1
          (λ j b c. absurd (unbound j b c hit))
        ∙ sent hit)
    | inr miss ↦
        lookup-sent_fields k v vs m (sent_field i us h) d.1
          (λ j b c. inj j (ground (arith, eq_iff i j)) c) (ground arith)
  ]
    where
      key : (i == k) ≡ true → i ≡ k
      key hit = (eq_iff i k).0 hit

      unbound :
          (j : String)
          → is_some (lookup j m) ≡ true
          → canonical j ≡ canonical k
          → (i == k) ≡ true
          → ⊥
      unbound j b c hit = ground (arith, key hit, inj j (ground arith) c)

      values : (i == k) ≡ true → us ≡ v ∷ vs
      values hit = ground arith

      sent :
          (i == k) ≡ true
          → lookup (canonical k) (sent_field i (v ∷ vs) h) ≡ some (last_of v vs ∷ [])
      sent hit = rw (
        lookup-insert (canonical i) (canonical k) (last_of v vs ∷ []) h,
        key hit,
        eq_refl (canonical k),
      )

  -- A header with values is sent with the last of them only, if no other header of the response has
  -- the same canonical key: the values that `withHeader` added before it are not sent.
  pub lookup-set_headers :
      (k v : String) (vs : List String) (m : GoMap (List String)) (w : Writer)
      → Distinct m
      → ((j : String) → is_some (lookup j m) ≡ true → canonical j ≡ canonical k → j ≡ k)
      → lookup k m ≡ some (v ∷ vs)
      → lookup (canonical k) (set_headers canonical m w).header ≡ some (last_of v vs ∷ [])
  lookup-set_headers k v vs m w d inj e =
      rw (set_headers-sent_fields m w) (lookup-sent_fields k v vs m w.header d inj e)
