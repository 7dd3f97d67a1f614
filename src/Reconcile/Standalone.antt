-- ===== src/Reconcile/Standalone.antt =====
-- What the standalone server enforces after any history of reconciliations.
use kyverno_http_authorizer.Base.{
  String, Option, none, some, List, [], ◌∷◌, map, ◌≡◌, refl, ap, ◌∙◌, Bool, ok, ◌==◌, if◌then◌else◌,
  is_some,
}
use kyverno_http_authorizer.GoMap.{lookup}
use kyverno_http_authorizer.GoMap.Laws.{lookup-insert, lookup-delete}
use kyverno_http_authorizer.Policy
use kyverno_http_authorizer.Stream.{map_to_sorted_slice}
use kyverno_http_authorizer.Stream.Sorted.{Ascending, contains, map_to_sorted_slice-IsSorted}
use kyverno_http_authorizer.PolicyStore.{
  PolicyStore, new_store, drop, compiled_policies, IsCurrent, new_store-IsCurrent, put-IsCurrent,
  drop-IsCurrent, compiled_policies-sorted, sorted_store,
}
use kyverno_http_authorizer.Reconcile.{
  Fetched, found, not_found, fetch_error, keep_compiled, reconcile_standalone,
}
use kyverno_http_authorizer.Vpol.Compiler.{Checked, accepted, rejected}

module _ {V : Type 0} (compile : Policy.ValidatingPolicy → Checked V) where
  unfoldable pub reconcile_all : List (String × Fetched) → PolicyStore V → PolicyStore V
  reconcile_all [] s = s
  reconcile_all ((key, f) ∷ fs) s = reconcile_all fs (reconcile_standalone compile key f s).0

  abbrev pub replaced : Bool → Checked V → Option V → Option V
  replaced same (rejected es) d = d
  replaced same (accepted c) d = if same then some c else d

  -- The last version of the policy `k` that compiled, unless it was deleted since: a version that
  -- does not compile and a failed fetch change nothing.
  abbrev pub enforced : String → List (String × Fetched) → Option V → Option V
  enforced k [] d = d
  enforced k ((key, not_found) ∷ fs) d = enforced k fs (if key == k then none else d)
  enforced k ((key, fetch_error e) ∷ fs) d = enforced k fs d
  enforced k ((key, found p) ∷ fs) d = enforced k fs (replaced (key == k) (compile p) d)

  pub keep-IsCurrent :
      (key : String) (r : Checked V) (s : PolicyStore V)
      → IsCurrent s
      → IsCurrent (keep_compiled key r s)
  unfolding keep_compiled
  keep-IsCurrent key (rejected es) s c = c
  keep-IsCurrent key (accepted v) s c = put-IsCurrent key v s c

  pub lookup-keep :
      (key k : String) (r : Checked V) (s : PolicyStore V)
      → lookup k (keep_compiled key r s).policies ≡ replaced (key == k) r (lookup k s.policies)
  unfolding keep_compiled
  lookup-keep key k (rejected es) s = refl
  lookup-keep key k (accepted v) s = lookup-insert key k v s.policies

  reconcile-IsCurrent :
      (key : String) (f : Fetched) (s : PolicyStore V)
      → IsCurrent s
      → IsCurrent (reconcile_standalone compile key f s).0
  unfolding reconcile_standalone
  reconcile-IsCurrent key not_found s c = drop-IsCurrent key s c
  reconcile-IsCurrent key (fetch_error e) s c = c
  reconcile-IsCurrent key (found p) s c = keep-IsCurrent key (compile p) s c

  pub reconcile_all-IsCurrent :
      (fs : List (String × Fetched)) (s : PolicyStore V)
      → IsCurrent s
      → IsCurrent (reconcile_all fs s)
  unfolding reconcile_all
  reconcile_all-IsCurrent [] s c = c
  reconcile_all-IsCurrent ((key, f) ∷ fs) s c =
      reconcile_all-IsCurrent fs _ (reconcile-IsCurrent key f s c)

  pub lookup-reconcile_all :
      (k : String) (fs : List (String × Fetched)) (s : PolicyStore V)
      → lookup k (reconcile_all fs s).policies ≡ enforced k fs (lookup k s.policies)
  unfolding reconcile_all reconcile_standalone
  lookup-reconcile_all k [] s = refl
  lookup-reconcile_all k ((key, not_found) ∷ fs) s =
      lookup-reconcile_all k fs (drop key s) ∙ ap (enforced k fs) (lookup-delete key k s.policies)
  lookup-reconcile_all k ((key, fetch_error e) ∷ fs) s = lookup-reconcile_all k fs s
  lookup-reconcile_all k ((key, found p) ∷ fs) s =
      lookup-reconcile_all k fs (keep_compiled key (compile p) s)
      ∙ ap (enforced k fs) (lookup-keep key k (compile p) s)

  -- After any history of reconciliations from the start, the provider returns, in the ascending order
  -- of their names and each once, the policies that were found and not deleted since, each in the
  -- last version that compiled.
  pub compiled_policies-reconcile_all :
      (fs : List (String × Fetched))
      → (pols : List V) × (t : PolicyStore V) × (ks : List String) × (compiled_policies
            (reconcile_all fs new_store)
          ≡ ok (pols, t))
        × Ascending ks
        × ((k : String) → contains k ks ≡ is_some (enforced k fs none))
        × (map some pols ≡ map (λ k. enforced k fs none) ks)
  unfolding lookup
  compiled_policies-reconcile_all fs =
      let s : PolicyStore V = reconcile_all fs new_store in
      let c = reconcile_all-IsCurrent fs new_store new_store-IsCurrent in
      let (ks, asc, has, vals) = map_to_sorted_slice-IsSorted s.policies c.distinct in
      (
        map_to_sorted_slice s.policies,
        sorted_store s,
        ks,
        compiled_policies-sorted s c,
        asc,
        λ k. has k ∙ ap is_some (lookup-reconcile_all k fs new_store),
        vals
            ∙ ap (λ (f : String → Option V). map f ks)
                (λ i k. lookup-reconcile_all k fs new_store i),
      )
