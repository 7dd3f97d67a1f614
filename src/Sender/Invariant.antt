-- ===== src/Sender/Invariant.antt =====
-- What holds of a sender after any calls: its maps are maps, and the cached slice is never stale.
use kyverno_http_authorizer.Base.{
  ℕ, String, List, [], ◌∷◌, map, ◌≡◌, refl, ap, ◌∙◌, ◌≢◌, true, false, Result, ok, err, panic,
  arith, is_empty, if◌then◌else◌, Option-cases, Bool-cases, inl, inr,
}
use kyverno_http_authorizer.GoMap.{GoMap, insert, Distinct}
use kyverno_http_authorizer.GoMap.Laws.{insert-Distinct, delete-Distinct}
use kyverno_http_authorizer.Policy
use kyverno_http_authorizer.Proto
use kyverno_http_authorizer.Stream.{map_to_sorted_slice}
use kyverno_http_authorizer.Once.{Once, nil, fresh, called, IsFresh}
use kyverno_http_authorizer.Sender.{
  PolicySender, new_policy_sender, store_policy, delete_policy, sorted_policies, health_check,
  record_time, delete_inactive, delete_clients, inactive_clients, stream_request, snapshot,
}

pub record Consistent {S : Type 0} (s : PolicySender S) : Type 0 where
  pub policies_distinct : Distinct s.policies
  pub clients_distinct : Distinct s.health_check_map
  pub streams_distinct : Distinct s.cxns_map
  pub cache : IsFresh s.sort_policies s.policies

-- A call on the sender: from the reconciler, from a client, or from the monitor.
pub data Call (S : Type 0) : Type 0 where
  store : Proto.ValidatingPolicy → Call S
  remove : String → Call S
  check : Proto.HealthCheckRequest → Call S
  flush : ℕ → Call S
  request : S → Proto.ValidatingPolicyStreamRequest → Call S

not_empty : (m : GoMap Proto.ValidatingPolicy) → is_empty m ≡ false → m ≢ []
not_empty m h e = ground arith

slice_of_empty : (m : GoMap Proto.ValidatingPolicy) → is_empty m ≡ true → map_to_sorted_slice m ≡ []
unfolding map_to_sorted_slice
slice_of_empty [] h = refl
slice_of_empty (x ∷ m) h = cc

module _ {S : Type 0} where
  abbrev pub after :
      PolicySender S → Result (List (S × Proto.ValidatingPolicy) × PolicySender S) → PolicySender S
  after s (ok (sent, t)) = t
  after s (err e) = s
  after s panic = s

  unfoldable pub step : PolicySender S → Call S → PolicySender S
  step s (store pol) = store_policy pol s
  step s (remove name) = delete_policy name s
  step s (check r) = (health_check r s).0
  step s (flush now) = delete_inactive now s
  step s (request stream req) = after s (stream_request stream req s)

  unfoldable pub run : PolicySender S → List (Call S) → PolicySender S
  run s [] = s
  run s (c ∷ cs) = run (step s c) cs

  pub new-Consistent :
      (ext : List Policy.ValidatingPolicy) (max : ℕ)
      → Consistent (new_policy_sender {S = S} ext max)
  unfolding new_policy_sender
  new-Consistent ext max = record {
    policies_distinct = tt;
    clients_distinct = tt;
    streams_distinct = tt;
    cache = refl;
  }

  store-Consistent :
      (pol : Proto.ValidatingPolicy) (s : PolicySender S)
      → Consistent s
      → Consistent (store_policy pol s)
  unfolding store_policy
  store-Consistent pol s c = record {
    policies_distinct = insert-Distinct pol.name pol s.policies c.policies_distinct;
    clients_distinct = c.clients_distinct;
    streams_distinct = c.streams_distinct;
    cache = tt;
  }

  delete-Consistent :
      (name : String) (s : PolicySender S) → Consistent s → Consistent (delete_policy name s)
  unfolding delete_policy
  delete-Consistent name s c = record {
    policies_distinct = delete-Distinct name s.policies c.policies_distinct;
    clients_distinct = c.clients_distinct;
    streams_distinct = c.streams_distinct;
    cache = tt;
  }

  record_time-Consistent :
      (a : String) (time : ℕ) (s : PolicySender S)
      → Consistent s
      → Consistent (record_time a time s)
  unfolding record_time
  record_time-Consistent a time s c =
      ground (arith, insert-Distinct a time s.health_check_map c.clients_distinct)

  pub check-Consistent :
      (r : Proto.HealthCheckRequest) (s : PolicySender S)
      → Consistent s
      → Consistent (health_check r s).0
  unfolding health_check
  check-Consistent r s c = elim (Option-cases r.time) [
    | inl e ↦ ground (arith, c)
    | inr (t, e) ↦ ground (arith, c, record_time-Consistent r.client_address t s c)
  ]

  clients-Consistent :
      (cs : List String) (s : PolicySender S) → Consistent s → Consistent (delete_clients cs s)
  unfolding delete_clients
  clients-Consistent [] s c = c
  clients-Consistent (a ∷ cs) s c = clients-Consistent cs _ (record {
    policies_distinct = c.policies_distinct;
    clients_distinct = delete-Distinct a s.health_check_map c.clients_distinct;
    streams_distinct = delete-Distinct a s.cxns_map c.streams_distinct;
    cache = c.cache;
  })

  -- The cache after a call of sortPolicies.
  abbrev pub cached : PolicySender S → PolicySender S
  cached s = record s { sort_policies = called (map_to_sorted_slice s.policies) }

  sorted-cached :
      (s : PolicySender S) (o : Once (List Proto.ValidatingPolicy))
      → s.sort_policies ≡ o
      → IsFresh o s.policies
      → s.policies ≢ []
      → sorted_policies s ≡ ok (map_to_sorted_slice s.policies, cached s)
  unfolding sorted_policies
  sorted-cached s nil e f n = absurd (n f)
  sorted-cached s fresh e f n = rw (e, sorted_policies)
  sorted-cached s (called v) e f n =
      let e' : s.sort_policies ≡ called (map_to_sorted_slice s.policies) = e ∙ ap called f in
      rw (e', sorted_policies)
        (λ i. ok (map_to_sorted_slice s.policies, record s { sort_policies = e' i }))

  -- The state after a snapshot.
  abbrev pub read_state : PolicySender S → PolicySender S
  read_state s = if is_empty s.policies then s else cached s

  pub snapshot-sorted :
      (s : PolicySender S)
      → Consistent s
      → snapshot s ≡ ok (map_to_sorted_slice s.policies, read_state s)
  snapshot-sorted s c = elim (Bool-cases (is_empty s.policies)) [
    | inl e ↦ rw (e, slice_of_empty s.policies e)
    | inr n ↦ rw (n, sorted-cached s s.sort_policies refl c.cache (not_empty s.policies n))
  ]

  pub cxns_map-read_state : (s : PolicySender S) → (read_state s).cxns_map ≡ s.cxns_map
  cxns_map-read_state s = ground arith

  -- The state after a request: the client's stream is known, and the sorted slice cached.
  abbrev pub requested_state :
      S → Proto.ValidatingPolicyStreamRequest → PolicySender S → PolicySender S
  requested_state stream req s =
      let t = if is_empty s.policies then s else cached s in
      record t { cxns_map = insert req.client_address stream s.cxns_map }

  -- A request never panics: the client is sent the sorted slice of the policies.
  pub stream_request-sorted :
      (stream : S) (req : Proto.ValidatingPolicyStreamRequest) (s : PolicySender S)
      → Consistent s
      → stream_request stream req s
        ≡ ok (
          map (λ pol. (stream, pol)) (map_to_sorted_slice s.policies),
          requested_state stream req s,
        )
  unfolding stream_request
  stream_request-sorted stream req s c = elim (Bool-cases (is_empty s.policies)) [
    | inl e ↦ rw (e, slice_of_empty s.policies e)
    | inr n ↦ rw (n, sorted-cached s s.sort_policies refl c.cache (not_empty s.policies n))
  ]

  pub policies-requested_state :
      (stream : S) (req : Proto.ValidatingPolicyStreamRequest) (s : PolicySender S)
      → (requested_state stream req s).policies ≡ s.policies
  policies-requested_state stream req s = ground arith

  pub requested_state-Consistent :
      (stream : S) (req : Proto.ValidatingPolicyStreamRequest) (s : PolicySender S)
      → Consistent s
      → Consistent (requested_state stream req s)
  requested_state-Consistent stream req s c =
      ground (arith, c, insert-Distinct req.client_address stream s.cxns_map c.streams_distinct)

  -- Every call keeps the maps' keys distinct, and the cached slice equal to the sorted slice of the
  -- policies that are stored.
  pub step-Consistent : (s : PolicySender S) (c : Call S) → Consistent s → Consistent (step s c)
  unfolding step delete_inactive
  step-Consistent s (store pol) k = store-Consistent pol s k
  step-Consistent s (remove name) k = delete-Consistent name s k
  step-Consistent s (check r) k = check-Consistent r s k
  step-Consistent s (flush now) k =
      clients-Consistent (inactive_clients s.max_client_inactive_duration now s.health_check_map) s
        k
  step-Consistent s (request stream req) k =
      rw (stream_request-sorted stream req s k) (requested_state-Consistent stream req s k)

  pub run-Consistent :
      (s : PolicySender S) (cs : List (Call S)) → Consistent s → Consistent (run s cs)
  unfolding run
  run-Consistent s [] k = k
  run-Consistent s (c ∷ cs) k = run-Consistent (step s c) cs (step-Consistent s c k)
