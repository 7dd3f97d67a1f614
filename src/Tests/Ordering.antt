-- ===== src/Tests/Ordering.antt =====
-- The theorems on the order of a sidecar's messages, at concrete histories.
use kyverno_http_authorizer.Base.{
  length, ◌>>=◌, map, ℕ, String, none, some, is_some, List, [], ◌∷◌, ◌≡◌, refl, ok, eq_iff, ◌==◌,
  inl, inr, Bool-cases, sym,
}
use mathlib.Core.Option
use kyverno_http_authorizer.Stream.Sorted.{Ascending, contains}
use kyverno_http_authorizer.Policy
use kyverno_http_authorizer.Proto
use kyverno_http_authorizer.Api.{to_proto}
use kyverno_http_authorizer.PolicyStore.{
  PolicyStore, new_store, compiled_policies, new_store-IsCurrent,
}
use kyverno_http_authorizer.Sender.{PolicySender, new_policy_sender}
use kyverno_http_authorizer.Reconcile.{Fetched, found, not_found, deletion}
use kyverno_http_authorizer.Reconcile.Standalone.{reconcile_all}
use kyverno_http_authorizer.Reconcile.Mesh.{mesh_all}
use kyverno_http_authorizer.Reconcile.Calls.{announced}
use kyverno_http_authorizer.Listener.Converting.{of_name}
use kyverno_http_authorizer.Listener.Order.{provided, provided_congr}
use kyverno_http_authorizer.Listener.Agreement.{provided-reconcile_all}
use kyverno_http_authorizer.Stream.Unordered.{nothing, sorted}
use native.Mathlib.Nat.{ℕ_set}
use kyverno_http_authorizer.Listener.Abstract.{
  reconciled_all, processed_all, provided-processed_all,
}
use kyverno_http_authorizer.Listener.Admitted.{latest, arrived, provided-Admitted}
use kyverno_http_authorizer.Validator.{validate_create}
use kyverno_http_authorizer.Vpol.Policy.{CompiledVpol}
use kyverno_http_authorizer.Vpol.Compiler.{Checked, compile_policy, accepted}
use kyverno_http_authorizer.Tests.Data.{Script, script_env, deny_all}

abbrev strict : Policy.ValidatingPolicy
strict = record deny_all { spec = record (deny_all.spec) { failure_policy = some "Fail" } }

abbrev history : List (String × Fetched)
history = ("deny-all", found strict) ∷ ("other", not_found) ∷ []

-- The messages of the history, the deletion first.
abbrev overtaken : List Proto.ValidatingPolicy
overtaken = deletion "other" ∷ to_proto strict ∷ []

same_order : (k : String) → of_name k overtaken ≡ of_name k (announced history)
unfolding to_proto
same_order k = elim (Bool-cases ("other" == k)) [
  | inl e ↦ simp (sym ((eq_iff "other" k).0 e))
  | inr e ↦ simp e
]

provided_congr_example :
    provided (compile_policy script_env) overtaken new_store
    ≡ provided (compile_policy script_env) (announced history) new_store
provided_congr_example =
    provided_congr (compile_policy script_env) overtaken (announced history) new_store same_order
      new_store-IsCurrent

provided-reconcile_all_example :
    (s' : PolicySender ℕ) × (mesh_all history (new_policy_sender [] 10)
      ≡ ok (announced history, s'))
    × (pols : List (CompiledVpol Script)) × (u : PolicyStore (CompiledVpol Script))
    × (compiled_policies (reconcile_all (compile_policy script_env) history new_store)
        ≡ ok (pols, u))
    × (provided (compile_policy script_env) overtaken new_store ≡ ok pols)
provided-reconcile_all_example =
    provided-reconcile_all script_env (λ q fp h. rw h) history (new_policy_sender [] 10) overtaken
      ((refl, record { mode = "HTTP" }, refl, refl), (tt, tt)) (("Fail", refl), (tt, tt)) same_order

provided-Admitted_example :
    (s' : PolicySender ℕ) × (mesh_all history (new_policy_sender [] 10)
      ≡ ok (announced history, s'))
    × (pols : List (CompiledVpol Script)) × (ks : List String) × (provided
          (compile_policy script_env)
          overtaken
          new_store
        ≡ ok pols)
    × Ascending ks
    × ((k : String) → contains k ks ≡ is_some (latest k history none))
    × (map (λ c. some (accepted c)) pols
        ≡ map (λ k. Option.map (arrived script_env) (latest k history none)) ks)
unfolding validate_create compile_policy
provided-Admitted_example =
    provided-Admitted script_env (λ q fp h. rw h) history (new_policy_sender [] 10) overtaken
      ((refl, record { mode = "HTTP" }, refl, refl), (tt, tt)) (refl, (tt, tt)) same_order

abbrev lenient : Policy.ValidatingPolicy
lenient = record strict { spec = record (strict.spec) { failure_policy = some "Ignore" } }

-- What happens after the sidecar has connected.
abbrev since : List (String × Fetched)
since = ("deny-all", found lenient) ∷ ("other", not_found) ∷ []

abbrev hello : Proto.ValidatingPolicyStreamRequest
hello = record { client_address = "sidecar" }

-- A policy that is stored while the sidecar connects.
abbrev unseen : List (String × Fetched)
unseen = ("unseen", found (record strict { name = "unseen" })) ∷ []

-- Numbers in place of compiled policies: a policy compiles to the number of its rules.
abbrev count_rules : Policy.ValidatingPolicy → Checked ℕ
count_rules p = accepted (length p.spec.validations)

provided-processed_all_example :
    ((compiled_policies (reconcile_all count_rules history new_store) >>= λ r. ok r.0)
      ≡ ok (sorted ℕ_set (reconciled_all count_rules history nothing)))
    × (provided count_rules overtaken new_store
        ≡ (processed_all count_rules overtaken nothing >>= λ c. ok (sorted ℕ_set c)))
provided-processed_all_example = provided-processed_all count_rules ℕ_set history overtaken
