-- ===== src/Stream.antt =====
-- pkg/stream/common.go, and the same function as pkg/engine/vpol/provider/standalone.go has it.
pub mod Sorted
pub mod Unordered
use kyverno_http_authorizer.Base.{
  String, Option, none, some, List, [], ◌∷◌, Bool, if◌then◌else◌, text_leb,
}
use kyverno_http_authorizer.GoMap.{GoMap, lookup, keys}

-- slices.Sort on strings, by insertion. Keys differ, so any sort has this result.
unfoldable pub insert_key : String → List String → List String
insert_key k [] = k ∷ []
insert_key k (x ∷ xs) = if text_leb k x then k ∷ x ∷ xs else x ∷ insert_key k xs

unfoldable pub sort_keys : List String → List String
unfolding insert_key
sort_keys [] = []
sort_keys (k ∷ ks) = insert_key k (sort_keys ks)

module _ {ℓ} {V : Type ℓ} where
  -- The loop that appends `in[key]`. The keys are the map's own, so each is found.
  unfoldable pub values_of : GoMap V → List String → List V
  values_of m [] = []
  values_of m (k ∷ ks) =
      let rest = values_of m ks in elim (lookup k m) [ none ↦ rest | some v ↦ v ∷ rest ]

  -- MapToSortedSlice
  unfoldable pub map_to_sorted_slice : GoMap V → List V
  unfolding values_of sort_keys keys lookup
  map_to_sorted_slice m = values_of m (sort_keys (keys m))
