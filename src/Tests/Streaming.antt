-- ===== src/Tests/Streaming.antt =====
-- The theorems on the policy stream and on reconciliation, at concrete calls.
use kyverno_http_authorizer.Base.{ℕ, String, none, some, List, [], ◌∷◌, map, ◌≡◌, refl, ok, is_some}
use kyverno_http_authorizer.GoMap.{GoMap}
use kyverno_http_authorizer.Proto
use kyverno_http_authorizer.Api.{to_proto}
use kyverno_http_authorizer.Stream.{map_to_sorted_slice}
use kyverno_http_authorizer.Stream.Sorted.{Ascending, contains}
use kyverno_http_authorizer.PolicyStore.{PolicyStore, new_store, compiled_policies}
use kyverno_http_authorizer.Sender.{PolicySender, new_policy_sender, stream_request}
use kyverno_http_authorizer.Sender.Invariant.{Call, store, check, request, run}
use kyverno_http_authorizer.Sender.{Round, requested, failed}
use kyverno_http_authorizer.Sender.Streams.{current, stream_request-run}
use kyverno_http_authorizer.Sender.SendPolicy.{
  Sending, SendReach, start_sending, waiting, blocked, all_in, onto, send_policy_hangs,
}
use kyverno_http_authorizer.Reconcile.{Fetched, found, not_found}
use kyverno_http_authorizer.Reconcile.Standalone.{
  reconcile_all, enforced, compiled_policies-reconcile_all,
}
use kyverno_http_authorizer.Vpol.Policy.{CompiledVpol}
use kyverno_http_authorizer.Vpol.Compiler.{compile_policy}
use kyverno_http_authorizer.Tests.Data.{Script, script_env, deny_all}

abbrev numbers : GoMap ℕ
numbers = ("b", 2) ∷ ("a", 1) ∷ []

in_order : map_to_sorted_slice numbers ≡ 1 ∷ 2 ∷ []
unfolding map_to_sorted_slice
in_order = refl

abbrev start : PolicySender ℕ
start = new_policy_sender [] 10

abbrev hello : Proto.ValidatingPolicyStreamRequest
hello = record { client_address = "sidecar" }

abbrev alive : Proto.HealthCheckRequest
alive = record { client_address = "sidecar"; time = some 100 }

abbrev calls : List (Call ℕ)
calls = store (to_proto deny_all) ∷ request 7 hello ∷ check alive ∷ []

stream_request-run_example :
    (pols : List Proto.ValidatingPolicy) × (t : PolicySender ℕ) × (ks : List String)
    × (stream_request 7 hello (run (new_policy_sender (deny_all ∷ []) 10) calls)
        ≡ ok (map (λ pol. (7, pol)) pols, t))
    × Ascending ks
    × ((k : String) → contains k ks ≡ is_some (current k calls none))
    × (map some pols ≡ map (λ k. current k calls none) ks)
stream_request-run_example = stream_request-run (deny_all ∷ []) 10 calls 7 hello

abbrev rounds : List Round
rounds = requested hello ∷ requested hello ∷ failed "reset by peer" ∷ requested hello ∷ []

send_policy_hangs_example :
    ((t : Sending ℕ) → SendReach (start_sending {S = ℕ} (7 ∷ 8 ∷ [])) t → t.caller ≡ waiting)
    × SendReach (start_sending {S = ℕ} (7 ∷ 8 ∷ [])) (record {
      workers = all_in blocked (7 ∷ 8 ∷ []);
      caller = waiting;
      attempted = onto (7 ∷ 8 ∷ []) [];
    })
send_policy_hangs_example = send_policy_hangs 7 (8 ∷ [])

abbrev history : List (String × Fetched)
history = ("deny-all", found deny_all) ∷ ("other", found deny_all) ∷ ("other", not_found) ∷ []

compiled_policies-reconcile_all_example :
    (pols : List (CompiledVpol Script)) × (t : PolicyStore (CompiledVpol Script)) × (ks : List
      String)
    × (compiled_policies (reconcile_all (compile_policy script_env) history new_store)
        ≡ ok (pols, t))
    × Ascending ks
    × ((k : String) → contains k ks ≡ is_some (enforced (compile_policy script_env) k history none))
    × (map some pols ≡ map (λ k. enforced (compile_policy script_env) k history none) ks)
compiled_policies-reconcile_all_example =
    compiled_policies-reconcile_all (compile_policy script_env) history
