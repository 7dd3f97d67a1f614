-- ===== src/GoMap.antt =====
-- Go's `map[string]V`: an association list whose order stands for the order of iteration, which Go
-- leaves open. A map that is nil reads as one that is empty. The laws are in the child module.
pub mod Laws
use kyverno_http_authorizer.Base.{
  String, Option, none, some, List, [], ◌∷◌, ◌≡◌, Bool, true, false, map, ◌==◌, if◌then◌else◌,
  is_some,
}

abbrev pub GoMap {ℓ} : Type ℓ → Type ℓ
GoMap V = List (String × V)

module _ {ℓ} {V : Type ℓ} where
  -- v, ok := m[key]
  unfoldable pub lookup : String → GoMap V → Option V
  lookup key [] = none
  lookup key ((k, found) ∷ entries) = if k == key then some found else lookup key entries

  -- delete(m, k)
  unfoldable pub delete : String → GoMap V → GoMap V
  delete k [] = []
  delete k ((j, v) ∷ m) = let rest = delete k m in if j == k then rest else (j, v) ∷ rest

  -- m[key] = v
  unfoldable pub insert : String → V → GoMap V → GoMap V
  insert key v [] = (key, v) ∷ []
  insert key v ((k, old) ∷ entries) =
      let rest = insert key v entries in if k == key then (key, v) ∷ entries else (k, old) ∷ rest

  -- maps.Keys(m)
  unfoldable pub keys : GoMap V → List String
  keys [] = []
  keys ((k, v) ∷ m) = k ∷ keys m

  -- A key has one entry, which is what makes an association list a map.
  abbrev pub Distinct : GoMap V → Type 0
  Distinct [] = Unit
  Distinct ((k, v) ∷ m) = (is_some (lookup k m) ≡ false) × Distinct m
