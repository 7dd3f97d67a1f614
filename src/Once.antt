-- ===== src/Once.antt =====
-- The field `sortPolicies` that the sender, the listener and the standalone reconciler keep: a
-- function made by sync.OnceValue that sorts the policies of the map beside it.
use kyverno_http_authorizer.Base.{List, [], ◌≡◌}
use kyverno_http_authorizer.GoMap.{GoMap}
use kyverno_http_authorizer.Stream.{map_to_sorted_slice}

-- Such a function: nil, not yet called, or called with the value that it keeps.
pub data Once (A : Type 0) : Type 0 where
  nil : Once A
  fresh : Once A
  called : A → Once A

-- It is not stale: it is nil only while there are no policies, and the slice that it keeps is the
-- sorted slice of the policies.
abbrev pub IsFresh : {V : Type 0} → Once (List V) → GoMap V → Type 0
IsFresh nil policies = policies ≡ []
IsFresh fresh policies = Unit
IsFresh (called v) policies = v ≡ map_to_sorted_slice policies
