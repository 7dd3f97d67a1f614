-- ===== src/Listener/Joining.antt =====
-- A sidecar that joins late: what it makes of the policies that the control plane sends on its request.
use kyverno_http_authorizer.Base.{
  ℕ, String, Option, none, some, List, map, ◌≡◌, refl, ◌∙◌, Bool, ok, if◌then◌else◌, All, is_some,
}
use kyverno_http_authorizer.GoMap.{lookup}
use kyverno_http_authorizer.Policy
use kyverno_http_authorizer.Proto
use kyverno_http_authorizer.Api.{to_proto}
use kyverno_http_authorizer.Api.RoundTrip.{sent, from_proto-to_proto}
use kyverno_http_authorizer.Stream.Sorted.{Ascending, contains, map_to_sorted_slice-IsSorted}
use kyverno_http_authorizer.Stream.{map_to_sorted_slice}
use kyverno_http_authorizer.PolicyStore.{
  PolicyStore, new_store, compiled_policies, new_store-IsCurrent, IsCurrent, sorted_store,
  compiled_policies-sorted,
}
use kyverno_http_authorizer.Sender.{PolicySender, new_policy_sender, stream_request}
use kyverno_http_authorizer.Sender.Invariant.{Call, run}
use kyverno_http_authorizer.Sender.Streams.{current, stream_request-run}
use kyverno_http_authorizer.Sender.Stored.{FromApi, current-IsPolicy}
use kyverno_http_authorizer.Listener.{process_all}
use kyverno_http_authorizer.Vpol.Compiler.{Checked, accepted, rejected}
use kyverno_http_authorizer.Listener.Slices.{taken, over, process_slice}

module _ {V : Type 0} (compile : Policy.ValidatingPolicy → Checked V) where
  abbrev pub compiled_of : Checked V → Option V
  compiled_of (accepted c) = some c
  compiled_of (rejected es) = none

  taken-none : (r : Checked V) → taken compile r none ≡ compiled_of r
  taken-none (accepted c) = refl
  taken-none (rejected es) = refl

  over-held :
      (o : Option Proto.ValidatingPolicy) (b : Bool)
      → b ≡ is_some o
      → (if b then over compile o none else none) ≡ over compile o none
  over-held none b h = rw h
  over-held (some pol) b h = rw h

  over-cases :
      (o : Option Proto.ValidatingPolicy) (v : Option V)
      → v ≡ over compile o none
      → (o ≡ none → v ≡ none)
        × ((p : Policy.ValidatingPolicy)
            → o ≡ some (to_proto p)
            → v ≡ compiled_of (compile (sent p)))
  over-cases o v e =
      (λ n. e ∙ rw n, λ p q. e ∙ rw (q, from_proto-to_proto p) (taken-none (compile (sent p))))

  module _ {S : Type 0} where
    -- What a sidecar has that connects after the calls `cs` and processes what it is sent.
    pub record Caught (cs : List (Call S)) (stream : S) (req : Proto.ValidatingPolicyStreamRequest)
        (s : PolicySender S) : Type 0 where
      pub messages : List Proto.ValidatingPolicy
      pub sender : PolicySender S
      pub store : PolicyStore V
      pub sends : stream_request stream req s ≡ ok (map (λ pol. (stream, pol)) messages, sender)
      pub processes : process_all compile messages new_store ≡ ok store
      pub current_store : IsCurrent store
      pub contents : (k : String) → lookup k store.policies ≡ over compile (current k cs none) none

    pub catches :
        (ext : List Policy.ValidatingPolicy) (max : ℕ) (cs : List (Call S)) (stream : S)
        (req : Proto.ValidatingPolicyStreamRequest)
        → All FromApi cs
        → Caught cs stream req (run (new_policy_sender ext max) cs)
    unfolding lookup
    catches ext max cs stream req a =
        let (pols, s', js, sends, order, has, vals) = stream_request-run ext max cs stream req in
        let (t, runs, u, look) =
          process_slice compile (λ k. current k cs none) js pols new_store
            (λ k. current-IsPolicy k cs none a tt) vals new_store-IsCurrent in
        record {
          messages = pols;
          sender = s';
          store = t;
          sends = sends;
          processes = runs;
          current_store = u;
          contents = λ k. look k ∙ over-held (current k cs none) (contains k js) (has k);
        }

    -- A sidecar that connects after any calls on a new sender, and processes what it is sent on its
    -- request, never panics, and catches up: it has no policy of a name that is not stored or was deleted
    -- since, and of every other it has what the last policy stored compiles to in its sent form, or none
    -- if that does not compile. These it provides to its handler, each once and in the ascending order of
    -- their names. Here what is stored are messages of policies, as the control plane's reconciler stores them.
    pub process_all-stream_request :
        (ext : List Policy.ValidatingPolicy) (max : ℕ) (cs : List (Call S)) (stream : S)
        (req : Proto.ValidatingPolicyStreamRequest)
        → All FromApi cs
        → (pols : List Proto.ValidatingPolicy) × (s' : PolicySender S) × (t : PolicyStore V)
          × (stream_request stream req (run (new_policy_sender ext max) cs)
              ≡ ok (map (λ pol. (stream, pol)) pols, s'))
          × (process_all compile pols new_store ≡ ok t)
          × ((k : String)
              → (current k cs none ≡ none → lookup k t.policies ≡ none)
                × ((p : Policy.ValidatingPolicy)
                    → current k cs none ≡ some (to_proto p)
                    → lookup k t.policies ≡ compiled_of (compile (sent p))))
          × (vs : List V) × (u : PolicyStore V) × (ks : List String) × (compiled_policies t
              ≡ ok (vs, u))
          × Ascending ks
          × ((k : String) → contains k ks ≡ is_some (lookup k t.policies))
          × (map some vs ≡ map (λ k. lookup k t.policies) ks)
    unfolding lookup
    process_all-stream_request ext max cs stream req a =
        let c = catches ext max cs stream req a in
        let (ks, asc, held, values) =
          map_to_sorted_slice-IsSorted c.store.policies c.current_store.distinct in
        (
          c.messages,
          c.sender,
          c.store,
          c.sends,
          c.processes,
          λ k. over-cases (current k cs none) (lookup k c.store.policies) (c.contents k),
          map_to_sorted_slice c.store.policies,
          sorted_store c.store,
          ks,
          compiled_policies-sorted c.store c.current_store,
          asc,
          held,
          values,
        )
