-- ===== src/Tests/Joining.antt =====
-- The theorems on a sidecar that joins late, on the monitor, and on health checks, at concrete calls.
use kyverno_http_authorizer.Base.{
  ℕ, ◌+◌, ◌≤◌, ◌<◌, String, none, some, List, true, is_some, [], ◌∷◌, ◌++◌, map, ◌≡◌, refl, ok, inl,
  inr, arith,
}
use kyverno_http_authorizer.GoMap.{lookup, insert}
use kyverno_http_authorizer.Policy
use kyverno_http_authorizer.Proto
use kyverno_http_authorizer.Api.{to_proto}
use kyverno_http_authorizer.Api.RoundTrip.{sent}
use kyverno_http_authorizer.PolicyStore.{PolicyStore, new_store, compiled_policies}
use kyverno_http_authorizer.Stream.Sorted.{Ascending, contains}
use kyverno_http_authorizer.Sender.{PolicySender, new_policy_sender, stream_request, health_check}
use kyverno_http_authorizer.Sender.Invariant.{
  Call, Consistent, flush, store, remove, check, request, step, run, new-Consistent,
  step-Consistent,
}
use kyverno_http_authorizer.Sender.Streams.{current}
use kyverno_http_authorizer.Sender.Monitor.{elapsed, monitor, monitor_evicts}
use kyverno_http_authorizer.Listener.{PolicyListener, process_all}
use kyverno_http_authorizer.Listener.Alive.{Event, beat, other, calls_of, run-calls_of}
use kyverno_http_authorizer.Listener.Joining.{compiled_of, process_all-stream_request}
use kyverno_http_authorizer.Vpol.Policy.{CompiledVpol}
use kyverno_http_authorizer.Vpol.Compiler.{compile_policy}
use kyverno_http_authorizer.Tests.Data.{Script, script_env, deny_all}

abbrev hello : Proto.ValidatingPolicyStreamRequest
hello = record { client_address = "sidecar" }

abbrev calls : List (Call ℕ)
calls = store (to_proto deny_all) ∷ request 7 hello ∷ remove "other" ∷ []

process_all-stream_request_example :
    (pols : List Proto.ValidatingPolicy) × (s' : PolicySender ℕ) × (t : PolicyStore
      (CompiledVpol Script))
    × (stream_request 8 hello (run (new_policy_sender [] 10) calls)
        ≡ ok (map (λ pol. (8, pol)) pols, s'))
    × (process_all (compile_policy script_env) pols new_store ≡ ok t)
    × ((k : String)
        → (current k calls none ≡ none → lookup k t.policies ≡ none)
          × ((p : Policy.ValidatingPolicy)
              → current k calls none ≡ some (to_proto p)
              → lookup k t.policies
                ≡ compiled_of (compile_policy script_env) (compile_policy script_env (sent p))))
    × (vs : List (CompiledVpol Script)) × (u : PolicyStore (CompiledVpol Script)) × (ks : List
        String)
    × (compiled_policies t ≡ ok (vs, u))
    × Ascending ks
    × ((k : String) → contains k ks ≡ is_some (lookup k t.policies))
    × (map some vs ≡ map (λ k. lookup k t.policies) ks)
process_all-stream_request_example =
    process_all-stream_request (compile_policy script_env) [] 10 calls 8 hello
      ((deny_all, refl), (tt, (tt, tt)))

abbrev alive : Proto.HealthCheckRequest
alive = record { client_address = "sidecar"; time = some 100 }

abbrev checked : PolicySender ℕ
checked = run (new_policy_sender [] 240) (request 7 hello ∷ check alive ∷ [])

checked-Consistent : Consistent checked
unfolding run
checked-Consistent =
    step-Consistent _ (check alive) (step-Consistent _ (request 7 hello) (new-Consistent [] 240))

checked_max : checked.max_client_inactive_duration ≡ 240
unfolding run step health_check stream_request new_policy_sender lookup
checked_max = refl

checked_time : lookup "sidecar" checked.health_check_map ≡ some 100
unfolding run lookup step health_check stream_request new_policy_sender
checked_time = refl

abbrev scans : List ℕ
scans = 180 ∷ 360 ∷ 540 ∷ []

monitor_evicts_example :
    (before : List ℕ) × (now : ℕ) × (after : List ℕ) × (scans ≡ before ++ now ∷ after)
    × (100 + 240 < now)
    × (now ≤ 100 + 240 + 180)
    × (lookup "sidecar" (monitor (map elapsed before) checked).0.cxns_map
        ≡ lookup "sidecar" checked.cxns_map)
    × (lookup "sidecar" (monitor (map elapsed (before ++ now ∷ [])) checked).0.cxns_map ≡ none)
monitor_evicts_example =
    monitor_evicts 180 0 100 240 "sidecar" scans checked checked-Consistent checked_max checked_time
      (omega arith) (omega arith, (omega arith, (omega arith, tt))) (inr (inl (omega arith)))

abbrev listener : PolicyListener ℕ
listener = record { client_addr = "sidecar"; conn_established = true; store = new_store }

abbrev events : List (Event ℕ)
events =
    beat 130
    ∷ other (flush 150)
    ∷ beat 160
    ∷ other (store (to_proto deny_all))
    ∷ other (flush 185)
    ∷ []

checked_stream : is_some (lookup "sidecar" checked.cxns_map) ≡ true
unfolding run lookup step health_check stream_request new_policy_sender insert
checked_stream = refl

run-calls_of_example :
    is_some (lookup "sidecar" (run checked (calls_of listener events)).cxns_map) ≡ true
run-calls_of_example =
    run-calls_of listener 30 100 events checked refl checked-Consistent
      (rw checked_max (omega arith)) checked_time checked_stream
      (omega arith, (omega arith, (omega arith, (omega arith, tt))))
