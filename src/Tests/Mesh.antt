-- ===== src/Tests/Mesh.antt =====
-- The theorems on sidecars, at concrete messages and steps.
use kyverno_http_authorizer.Base.{ℕ, none, List, [], ◌∷◌, ◌≡◌, ◌↔◌, refl, ok, panic}
use kyverno_http_authorizer.Policy
use kyverno_http_authorizer.Stream.{map_to_sorted_slice}
use kyverno_http_authorizer.PolicyStore.{
  PolicyStore, new_store, put, compiled_policies, sorted_store,
}
use kyverno_http_authorizer.Sender.{new_policy_sender}
use kyverno_http_authorizer.Reconcile.{found, reconcile_mesh}
use kyverno_http_authorizer.Listener.Interleaving.{Shared, Reach, stores, Reach-reads, stale_read}
use kyverno_http_authorizer.Listener.Interleaving
use kyverno_http_authorizer.Reconcile.Mesh.{reconcile_mesh-panics}
use kyverno_http_authorizer.Tests.Data.{deny_all}

abbrev unconfigured : Policy.ValidatingPolicy
unconfigured = record deny_all { spec = record (deny_all.spec) { evaluation_configuration = none } }

reconcile_mesh-panics_example :
    (reconcile_mesh "deny-all" (found unconfigured) (new_policy_sender {S = ℕ} [] 10) ≡ panic) ↔ (
      (p : Policy.ValidatingPolicy) × (found unconfigured ≡ found p)
      × (p.spec.evaluation_configuration ≡ none))
reconcile_mesh-panics_example =
    reconcile_mesh-panics "deny-all" (found unconfigured) (new_policy_sender {S = ℕ} [] 10)

abbrev stored : Shared ℕ
stored = record { store = put "a" 1 new_store; pending = 0 }

Reach-reads_example :
    ((pols : List ℕ) × (u : PolicyStore ℕ) × (compiled_policies stored.store ≡ ok (pols, u)))
    × (stored.pending ≡ 0
        → compiled_policies stored.store
          ≡ ok (map_to_sorted_slice (stored.store).policies, sorted_store stored.store))
Reach-reads_example = Reach-reads (Interleaving.then Interleaving.start (stores "a" 1 refl))

stale_read_example :
    (s : Shared ℕ) × (u : PolicyStore ℕ) × Reach s
    × ((s.store).policies ≡ [])
    × (compiled_policies s.store ≡ ok (1 ∷ [], u))
stale_read_example = stale_read "a" 1
