-- ===== src/Sender.antt =====
-- pkg/stream/sender/sender.go: the control plane's side of the policy stream. `S` is a client's
-- stream, and a time or a duration is a number of nanoseconds. Each operation that holds a lock is
-- one step, and a request on a stream, which does not, is two, `snapshot` and `register`; what a goroutine sends is listed in the order in which the goroutines start.
pub mod Invariant
pub mod Inactive
pub mod Streams
pub mod SendPolicy
pub mod Rounds
pub mod Stored
pub mod Monitor
use kyverno_http_authorizer.Base.{
  ℕ, ◌-◌, String, Option, none, some, List, [], ◌∷◌, ◌++◌, map, Bool, true, false, ◌||◌, Result, ok,
  err, panic, Error, ◌>>=◌, ltb, ◌==◌, is_empty, if◌then◌else◌,
}
use kyverno_http_authorizer.GoMap.{GoMap, lookup, insert, delete}
use kyverno_http_authorizer.Policy
use kyverno_http_authorizer.Proto
use kyverno_http_authorizer.Api.{to_proto}
use kyverno_http_authorizer.Stream.{map_to_sorted_slice}
use kyverno_http_authorizer.Once.{Once, nil, fresh, called}

pub record PolicySender (S : Type 0) : Type 0 where
  pub policies : GoMap Proto.ValidatingPolicy
  pub health_check_map : GoMap ℕ
  pub cxns_map : GoMap S
  pub max_client_inactive_duration : ℕ
  pub sort_policies : Once (List Proto.ValidatingPolicy)

-- The loop of NewPolicySender over the external policies.
unfoldable pub policy_map :
    GoMap Proto.ValidatingPolicy → List Policy.ValidatingPolicy → GoMap Proto.ValidatingPolicy
unfolding insert to_proto
policy_map m [] = m
policy_map m (p ∷ ps) = policy_map (insert p.name (to_proto p) m) ps

-- getInactiveClients: the loop over the health check map at time `now`.
unfoldable pub inactive_clients : ℕ → ℕ → GoMap ℕ → List String
inactive_clients max_inactive now [] = []
inactive_clients max_inactive now ((c, t) ∷ m) =
    let rest = inactive_clients max_inactive now m in
    if ltb max_inactive (now - t) then c ∷ rest else rest

module _ {S : Type 0} where
  -- NewPolicySender: it builds a map of the external policies, and starts with an empty one.
  unfoldable pub new_policy_sender : List Policy.ValidatingPolicy → ℕ → PolicySender S
  unfolding policy_map
  new_policy_sender external_policies max_client_inactive_duration =
      let unused = policy_map [] external_policies in
      record {
        policies = [];
        health_check_map = [];
        cxns_map = [];
        max_client_inactive_duration = max_client_inactive_duration;
        sort_policies = nil;
      }

  -- StorePolicy
  unfoldable pub store_policy : Proto.ValidatingPolicy → PolicySender S → PolicySender S
  store_policy pol s = record s { policies = insert pol.name pol s.policies; sort_policies = fresh }

  -- DeletePolicy
  unfoldable pub delete_policy : String → PolicySender S → PolicySender S
  delete_policy name s = record s { policies = delete name s.policies; sort_policies = fresh }

  -- A call of s.sortPolicies.
  unfoldable pub sorted_policies :
      PolicySender S → Result (List Proto.ValidatingPolicy × PolicySender S)
  sorted_policies s = elim s.sort_policies [
    | nil ↦ panic
    | fresh ↦
        let v = map_to_sorted_slice s.policies in ok (v, record s { sort_policies = called v })
    | called v ↦ ok (v, s)
  ]

  -- HealthCheck; the flag says whether there is a response.
  unfoldable pub record_time : String → ℕ → PolicySender S → PolicySender S
  record_time c time s = elim (lookup c s.health_check_map) [
    | none ↦ record s { health_check_map = insert c time s.health_check_map }
    | some t ↦
        if ltb t time then record s { health_check_map = insert c time s.health_check_map } else s
  ]

  unfoldable pub health_check : Proto.HealthCheckRequest → PolicySender S → PolicySender S × Bool
  unfolding record_time
  health_check r s = if r.client_address == "" then (s, false) else elim r.time [
    | none ↦ (s, false)
    | some time ↦ (record_time r.client_address time s, true)
  ]

  -- The loop of deleteInactive.
  unfoldable pub delete_clients : List String → PolicySender S → PolicySender S
  delete_clients [] s = s
  delete_clients (c ∷ cs) s =
      delete_clients cs (record s {
        cxns_map = delete c s.cxns_map;
        health_check_map = delete c s.health_check_map;
      })

  -- deleteInactive
  unfoldable pub delete_inactive : ℕ → PolicySender S → PolicySender S
  unfolding delete_clients inactive_clients
  delete_inactive now s =
      delete_clients (inactive_clients s.max_client_inactive_duration now s.health_check_map) s

  -- What a request on a stream is answered with: the policies are read, and sorted, without a lock, so another
  -- goroutine can change them at the same time; here the reading is one step.
  abbrev pub snapshot : PolicySender S → Result (List Proto.ValidatingPolicy × PolicySender S)
  snapshot s = if is_empty s.policies then ok ([], s) else sorted_policies s

  -- The second step of a request, under the lock of the streams: only from here on SendPolicy sends to the client.
  abbrev pub register : S → Proto.ValidatingPolicyStreamRequest → PolicySender S → PolicySender S
  register stream req s = record s { cxns_map = insert req.client_address stream s.cxns_map }

  -- One request on a stream, with no other step between its two: the policies that are sent to it, and the new
  -- state.
  unfoldable pub stream_request :
      S
      → Proto.ValidatingPolicyStreamRequest
      → PolicySender S
      → Result (List (S × Proto.ValidatingPolicy) × PolicySender S)
  unfolding sorted_policies
  stream_request stream req s = do
    sent ← snapshot s
    ok (map (λ pol. (stream, pol)) sent.0, register stream req sent.1)

-- sendWithBackoff: `retry` is backoff.Retry with the two intervals of its back-off, on an operation by what
-- its calls return, and `send` is what the calls of the stream's Send return.
abbrev send_with_backoff :
    {E : Type 0}
    → (retry : ℕ → ℕ → (ℕ → Option E) → Option E)
    → (initial_send_policy_wait max_send_policy_interval : ℕ) → (send : ℕ → Option E) → Option E
send_with_backoff retry initial_send_policy_wait max_send_policy_interval send =
    retry initial_send_policy_wait max_send_policy_interval
      (λ n. elim (send n) [ some e ↦ some e | none ↦ none ])

-- One round of the loop of ValidatingPoliciesStream: the context is done, or what Recv returns.
pub data Round : Type 0 where
  cancelled : Round
  requested : Proto.ValidatingPolicyStreamRequest → Round
  closed : Round
  failed : Error → Round

-- How the handler returned: nil or an error; `waiting` if the rounds are used up.
pub data Returned : Type 0 where
  returned_nil : Returned
  returned_err : Error → Returned
  waiting : Returned

module _ {S : Type 0} where
  -- ValidatingPoliciesStream over the rounds that happen on one stream.
  unfoldable pub validating_policies_stream :
      S
      → List Round
      → PolicySender S
      → Result (Returned × List (S × Proto.ValidatingPolicy) × PolicySender S)
  unfolding stream_request
  validating_policies_stream stream [] s = ok (waiting, [], s)
  validating_policies_stream stream (cancelled ∷ rounds) s = ok (returned_nil, [], s)
  validating_policies_stream stream (closed ∷ rounds) s = ok (returned_nil, [], s)
  validating_policies_stream stream (failed e ∷ rounds) s = ok (returned_err e, [], s)
  validating_policies_stream stream (requested req ∷ rounds) s = do
    step ← stream_request stream req s
    rest ← validating_policies_stream stream rounds step.1
    ok (rest.0, step.0 ++ rest.1, rest.2)
