-- ===== src/Sender/Streams.antt =====
-- What clients are sent: exactly the policies that the reconciler has stored and not deleted.
use kyverno_http_authorizer.Base.{
  ℕ, String, Option, none, some, List, [], ◌∷◌, map, ◌≡◌, refl, ap, ◌∙◌, ok, arith, ◌==◌,
  if◌then◌else◌, is_some,
}
use kyverno_http_authorizer.GoMap.{lookup}
use kyverno_http_authorizer.GoMap.Laws.{lookup-insert, lookup-delete}
use kyverno_http_authorizer.Policy
use kyverno_http_authorizer.Proto
use kyverno_http_authorizer.Stream.{map_to_sorted_slice}
use kyverno_http_authorizer.Stream.Sorted.{Ascending, contains, map_to_sorted_slice-IsSorted}
use kyverno_http_authorizer.Sender.{
  PolicySender, new_policy_sender, store_policy, delete_policy, health_check, delete_inactive,
  delete_clients, inactive_clients, stream_request,
}
use kyverno_http_authorizer.Sender.Invariant.{
  Consistent, Call, store, remove, check, flush, request, step, run, new-Consistent,
  step-Consistent, run-Consistent, stream_request-sorted, requested_state, policies-requested_state,
}

module _ {S : Type 0} where
  -- What a call makes of the policy of a name.
  abbrev pub change :
      String → Call S → Option Proto.ValidatingPolicy → Option Proto.ValidatingPolicy
  change k (store pol) d = if pol.name == k then some pol else d
  change k (remove name) d = if name == k then none else d
  change k (check r) d = d
  change k (flush now) d = d
  change k (request stream req) d = d

  -- The policy of a name after a series of calls.
  abbrev pub current :
      String → List (Call S) → Option Proto.ValidatingPolicy → Option Proto.ValidatingPolicy
  current k [] d = d
  current k (c ∷ cs) d = current k cs (change k c d)

  policies-check :
      (r : Proto.HealthCheckRequest) (s : PolicySender S)
      → (health_check r s).0.policies ≡ s.policies
  unfolding health_check
  policies-check r s = ground arith

  policies-delete_clients :
      (cs : List String) (s : PolicySender S) → (delete_clients cs s).policies ≡ s.policies
  unfolding delete_clients
  policies-delete_clients [] s = refl
  policies-delete_clients (c ∷ cs) s = policies-delete_clients cs _

  lookup-step :
      (k : String) (s : PolicySender S) (c : Call S)
      → Consistent s
      → lookup k (step s c).policies ≡ change k c (lookup k s.policies)
  unfolding step store_policy delete_policy delete_inactive
  lookup-step k s (store pol) v = lookup-insert pol.name k pol s.policies
  lookup-step k s (remove name) v = lookup-delete name k s.policies
  lookup-step k s (check r) v = ap (lookup k) (policies-check r s)
  lookup-step k s (flush now) v = ap (lookup k) (
      policies-delete_clients
        (inactive_clients s.max_client_inactive_duration now s.health_check_map) s)
  lookup-step k s (request stream req) v =
      rw (stream_request-sorted stream req s v)
        (ap (lookup k) (policies-requested_state stream req s))

  lookup-run :
      (k : String) (s : PolicySender S) (cs : List (Call S))
      → Consistent s
      → lookup k (run s cs).policies ≡ current k cs (lookup k s.policies)
  unfolding run
  lookup-run k s [] v = refl
  lookup-run k s (c ∷ cs) v =
      lookup-run k (step s c) cs (step-Consistent s c v) ∙ ap (current k cs) (lookup-step k s c v)

  -- After any calls on a new sender, a request never panics, and it sends to the client, in the
  -- ascending order of their names and each once, the policies that were stored and not deleted
  -- since. The external policies that the sender was made with are not among them, unless they were
  -- stored as well.
  pub stream_request-run :
      (ext : List Policy.ValidatingPolicy) (max : ℕ) (cs : List (Call S)) (stream : S)
      (req : Proto.ValidatingPolicyStreamRequest)
      → (pols : List Proto.ValidatingPolicy) × (t : PolicySender S) × (ks : List String)
        × (stream_request stream req (run (new_policy_sender ext max) cs)
            ≡ ok (map (λ pol. (stream, pol)) pols, t))
        × Ascending ks
        × ((k : String) → contains k ks ≡ is_some (current k cs none))
        × (map some pols ≡ map (λ k. current k cs none) ks)
  unfolding new_policy_sender lookup
  stream_request-run ext max cs stream req =
      let s = run (new_policy_sender ext max) cs in
      let v = run-Consistent (new_policy_sender ext max) cs (new-Consistent ext max) in
      let found =
        λ (k : String). lookup-run k (new_policy_sender ext max) cs (new-Consistent ext max) in
      let (ks, asc, has, vals) = map_to_sorted_slice-IsSorted s.policies v.policies_distinct in
      (
        map_to_sorted_slice s.policies,
        requested_state stream req s,
        ks,
        stream_request-sorted stream req s v,
        asc,
        λ k. has k ∙ ap is_some (found k),
        vals ∙ ap (λ (f : String → Option Proto.ValidatingPolicy). map f ks) (λ i k. found k i),
      )
