-- ===== src/Listener/Mesh.antt =====
-- From the control plane to a sidecar: the control plane's reconciler, the messages that it sends, and
-- a listener that processes them in their order.
use kyverno_http_authorizer.Base.{
  String, Option, none, some, List, [], ◌∷◌, map, ◌≡◌, refl, ap, ◌∙◌, ok, ◌==◌, if◌then◌else◌, All,
  is_some,
}
use kyverno_http_authorizer.GoMap.{lookup}
use kyverno_http_authorizer.GoMap.Laws.{lookup-delete}
use kyverno_http_authorizer.Policy
use kyverno_http_authorizer.Proto
use kyverno_http_authorizer.Api.{to_proto}
use kyverno_http_authorizer.Api.RoundTrip.{sent, from_proto-to_proto}
use kyverno_http_authorizer.Stream.{map_to_sorted_slice}
use kyverno_http_authorizer.Stream.Sorted.{Ascending, contains, map_to_sorted_slice-IsSorted}
use kyverno_http_authorizer.PolicyStore.{
  PolicyStore, new_store, drop, compiled_policies, IsCurrent, new_store-IsCurrent, drop-IsCurrent,
  compiled_policies-sorted, sorted_store,
}
use kyverno_http_authorizer.Sender.{PolicySender, store_policy, delete_policy}
use kyverno_http_authorizer.Reconcile.{
  Fetched, found, not_found, fetch_error, keep_compiled, deletion, reconcile_mesh,
}
use kyverno_http_authorizer.Reconcile.Standalone.{enforced, keep-IsCurrent, lookup-keep}
use kyverno_http_authorizer.Reconcile.Mesh.{IsHttp, mesh_all, reconcile_mesh-http}
use kyverno_http_authorizer.Listener.{process_policy, process_all}
use kyverno_http_authorizer.Vpol.Compiler.{Checked}

pub lookup-drop :
    {V : Type 0} (key k : String) (t : PolicyStore V)
    → lookup k (drop key t).policies ≡ (if key == k then none else lookup k t.policies)
unfolding drop
lookup-drop key k t = lookup-delete key k t.policies

module _ {V : Type 0} (compile : Policy.ValidatingPolicy → Checked V) where
  pub process-found :
      (p : Policy.ValidatingPolicy) (t : PolicyStore V)
      → process_policy compile (to_proto p) t ≡ ok (keep_compiled p.name (compile (sent p)) t)
  unfolding process_policy to_proto
  process-found p t = rw (from_proto-to_proto p)

  module _ {S : Type 0} where
    -- What a sidecar with the policies of `t` becomes, which processes what is sent for `fs`.
    pub record Follows (fs : List (String × Fetched)) (s : PolicySender S) (t : PolicyStore V)
        : Type 0 where
      pub messages : List Proto.ValidatingPolicy
      pub sender : PolicySender S
      pub store : PolicyStore V
      pub sends : mesh_all fs s ≡ ok (messages, sender)
      pub processes : process_all compile messages t ≡ ok store
      pub current : IsCurrent store
      pub contents :
          (k : String)
          → lookup k store.policies ≡ enforced (λ p. compile (sent p)) k fs (lookup k t.policies)

    -- One reconciliation and the messages that it sends, ahead of the others.
    follow_found :
        (key : String) (p : Policy.ValidatingPolicy) (fs : List (String × Fetched))
        (s : PolicySender S) (t : PolicyStore V)
        → IsHttp (key, found p)
        → Follows fs (store_policy (to_proto p) s) (keep_compiled p.name (compile (sent p)) t)
        → Follows ((key, found p) ∷ fs) s t
    unfolding mesh_all process_all
    follow_found key p fs s t h rest = record {
      messages = to_proto p ∷ rest.messages;
      sender = rest.sender;
      store = rest.store;
      sends = rw (reconcile_mesh-http key p s h, rest.sends);
      processes = rw (process-found p t) rest.processes;
      current = rest.current;
      contents = λ k.
          rest.contents k
          ∙ ap (enforced (λ q. compile (sent q)) k fs)
              (lookup-keep compile p.name k (compile (sent p)) t)
          ∙ rw h.0;
    }

    follow_deletion :
        (key : String) (fs : List (String × Fetched)) (s : PolicySender S) (t : PolicyStore V)
        → Follows fs (delete_policy key s) (drop key t)
        → Follows ((key, not_found) ∷ fs) s t
    unfolding mesh_all process_all reconcile_mesh process_policy
    follow_deletion key fs s t rest = record {
      messages = deletion key ∷ rest.messages;
      sender = rest.sender;
      store = rest.store;
      sends = rw rest.sends;
      processes = rest.processes;
      current = rest.current;
      contents =
          λ k. rest.contents k ∙ ap (enforced (λ q. compile (sent q)) k fs) (lookup-drop key k t);
    }

    follow_error :
        (key : String) (e : String) (fs : List (String × Fetched)) (s : PolicySender S)
        (t : PolicyStore V)
        → Follows fs s t
        → Follows ((key, fetch_error e) ∷ fs) s t
    unfolding mesh_all process_all reconcile_mesh
    follow_error key e fs s t rest = record {
      messages = rest.messages;
      sender = rest.sender;
      store = rest.store;
      sends = rw rest.sends;
      processes = rest.processes;
      current = rest.current;
      contents = rest.contents;
    }

    pub follow :
        (fs : List (String × Fetched)) (s : PolicySender S) (t : PolicyStore V)
        → All IsHttp fs
        → IsCurrent t
        → Follows fs s t
    unfolding mesh_all process_all
    follow [] s t h c = record {
      messages = [];
      sender = s;
      store = t;
      sends = refl;
      processes = refl;
      current = c;
      contents = λ k. refl;
    }
    follow ((key, found p) ∷ fs) s t h c =
        follow_found key p fs s t h.0
          (follow fs _ _ h.1 (keep-IsCurrent compile p.name (compile (sent p)) t c))
    follow ((key, not_found) ∷ fs) s t h c =
        follow_deletion key fs s t (follow fs _ _ h.1 (drop-IsCurrent key t c))
    follow ((key, fetch_error e) ∷ fs) s t h c = follow_error key e fs s t (follow fs s t h.1 c)

    -- A sidecar that processes, in their order, the messages that the control plane sends for a history
    -- of reconciliations never panics. It then provides, in the ascending order of their names and each
    -- once, exactly what a standalone server with the same history and with the sent form of each
    -- policy enforces: the policies found and not deleted since, each in the last version that compiled.
    -- Here every policy found has the name asked for and an evaluation configuration of mode HTTP.
    pub process_all-mesh :
        (fs : List (String × Fetched)) (s : PolicySender S)
        → All IsHttp fs
        → (ms : List Proto.ValidatingPolicy) × (s' : PolicySender S) × (t : PolicyStore V)
          × (mesh_all fs s ≡ ok (ms, s'))
          × (process_all compile ms new_store ≡ ok t)
          × (pols : List V) × (u : PolicyStore V) × (ks : List String) × (compiled_policies t
              ≡ ok (pols, u))
          × Ascending ks
          × ((k : String) → contains k ks ≡ is_some (enforced (λ p. compile (sent p)) k fs none))
          × (map some pols ≡ map (λ k. enforced (λ p. compile (sent p)) k fs none) ks)
    unfolding lookup
    process_all-mesh fs s h =
        let f = follow fs s new_store h new_store-IsCurrent in
        let t : PolicyStore V = f.store in
        let (ks, asc, has, vals) = map_to_sorted_slice-IsSorted t.policies (f.current).distinct in
        (
          f.messages,
          f.sender,
          t,
          f.sends,
          f.processes,
          map_to_sorted_slice t.policies,
          sorted_store t,
          ks,
          compiled_policies-sorted t f.current,
          asc,
          λ k. has k ∙ ap is_some (f.contents k),
          vals ∙ ap (λ (g : String → Option V). map g ks) (λ i k. f.contents k i),
        )
