-- ===== src/GoMap/Laws.antt =====
-- The laws of a map's operations.
use kyverno_http_authorizer.Base.{
  String, none, some, [], ◌∷◌, ◌≡◌, refl, arith, ◌==◌, if◌then◌else◌, eq_iff,
}
use kyverno_http_authorizer.GoMap.{GoMap, lookup, insert, delete, Distinct}

module _ {ℓ} {V : Type ℓ} where
  pub lookup-delete :
      (k j : String) (m : GoMap V) → lookup j (delete k m) ≡ (if k == j then none else lookup j m)
  unfolding lookup delete
  lookup-delete k j [] = ground arith
  lookup-delete k j ((i, v) ∷ m) =
      ground (arith, lookup-delete k j m, eq_iff i k, eq_iff i j, eq_iff k j)

  pub lookup-insert :
      (key k : String) (v : V) (m : GoMap V)
      → lookup k (insert key v m) ≡ (if key == k then some v else lookup k m)
  unfolding insert lookup
  lookup-insert key k v [] = refl
  lookup-insert key k v ((j, old) ∷ entries) =
      ground (arith, lookup-insert key k v entries, eq_iff j key, eq_iff j k, eq_iff key k)

  pub insert-Distinct : (k : String) (v : V) (m : GoMap V) → Distinct m → Distinct (insert k v m)
  unfolding insert lookup
  insert-Distinct k v [] d = ground arith
  insert-Distinct k v ((j, w) ∷ m) d =
      ground (arith, insert-Distinct k v m d.1, lookup-insert k j v m, eq_iff j k, eq_iff k j)

  pub delete-Distinct : (k : String) (m : GoMap V) → Distinct m → Distinct (delete k m)
  unfolding delete lookup
  delete-Distinct k [] d = tt
  delete-Distinct k ((j, w) ∷ m) d =
      ground (arith, delete-Distinct k m d.1, lookup-delete k j m, eq_iff j k, eq_iff k j)

pub ruleset map_laws = (lookup-insert, lookup-delete)
