-- ===== src/Listener/Agreement.antt =====
-- A sidecar behind a control plane, and a standalone server: what both provide after one history of
-- reconciliations.
use kyverno_http_authorizer.Base.{
  String, Option, none, some, List, [], ◌∷◌, ◌≡◌, refl, sym, ap, ◌∙◌, Result, ok, All, ◌==◌,
  if◌then◌else◌,
}
use kyverno_http_authorizer.GoMap.{lookup}
use kyverno_http_authorizer.Policy
use kyverno_http_authorizer.Proto
use kyverno_http_authorizer.Api.RoundTrip.{sent}
use kyverno_http_authorizer.Stream.{map_to_sorted_slice}
use kyverno_http_authorizer.Stream.Sorted.{map_to_sorted_slice_congr}
use kyverno_http_authorizer.PolicyStore.{
  PolicyStore, new_store, compiled_policies, new_store-IsCurrent, sorted_store,
  compiled_policies-sorted,
}
use kyverno_http_authorizer.Sender.{PolicySender}
use kyverno_http_authorizer.Reconcile.{Fetched, found, not_found, fetch_error}
use kyverno_http_authorizer.Reconcile.Standalone.{
  enforced, replaced, reconcile_all, reconcile_all-IsCurrent, lookup-reconcile_all,
}
use kyverno_http_authorizer.Reconcile.Mesh.{IsHttp, mesh_all}
use kyverno_http_authorizer.Reconcile.Calls.{announced, calls_of, mesh_all-calls_of}
use kyverno_http_authorizer.Sender.Invariant.{run}
use kyverno_http_authorizer.Listener.Mesh.{follow}
use kyverno_http_authorizer.Listener.Converting.{of_name}
use kyverno_http_authorizer.Listener.Order.{provided, provided_congr}
use kyverno_http_authorizer.Vpol.Compiler.{CelEnv, Checked, compile_policy}
use kyverno_http_authorizer.Vpol.Compiler.Sent.{compile_policy-sent_set}
use kyverno_http_authorizer.Vpol.Policy.{CompiledVpol}

-- A policy that was found sets its failure policy.
abbrev pub SetsFailurePolicy : String × Fetched → Type 0
SetsFailurePolicy (key, found p) = (fp : String) × (p.spec.failure_policy ≡ some fp)
SetsFailurePolicy (key, not_found) = Unit
SetsFailurePolicy (key, fetch_error e) = Unit

pub enforced_congr :
    {V : Type 0} (f g : Policy.ValidatingPolicy → Checked V) (k : String)
    (fs : List (String × Fetched)) (d : Option V)
    → All SetsFailurePolicy fs
    → ((p : Policy.ValidatingPolicy) (fp : String) → p.spec.failure_policy ≡ some fp → f p ≡ g p)
    → enforced f k fs d ≡ enforced g k fs d
enforced_congr f g k [] d a h = refl
enforced_congr f g k ((key, not_found) ∷ fs) d a h =
    enforced_congr f g k fs (if key == k then none else d) a.1 h
enforced_congr f g k ((key, fetch_error e) ∷ fs) d a h = enforced_congr f g k fs d a.1 h
enforced_congr {V} f g k ((key, found p) ∷ fs) d a h =
    ap (λ (r : Checked V). enforced f k fs (replaced f (key == k) r d)) (h p a.0.0 a.0.1)
    ∙ enforced_congr f g k fs (replaced g (key == k) (g p) d) a.1 h

pub messages_of :
    {A B : Type 0} {a b : A} {x y : B} → ◌≡◌ {A = Result (A × B)} (ok (a, x)) (ok (b, y)) → a ≡ b
messages_of e = cc

module _ (cel : CelEnv) where
  open cel use {Program, get_failure_policy}

  abbrev compile : Policy.ValidatingPolicy → Checked (CompiledVpol Program)
  compile = compile_policy cel

  -- A sidecar enforces what a standalone server does. For a history of reconciliations, the control
  -- plane sends the messages of the policies found and the deletions; a sidecar that processes them, in
  -- any order that keeps the messages of each name in theirs, provides exactly the compiled policies,
  -- in the same order, that the standalone server provides after that history. Here every policy
  -- found has the name asked for, an evaluation configuration of mode HTTP, and a failure policy,
  -- which the API returns.
  pub provided-reconcile_all :
      {S : Type 0}
      → ((q : Policy.ValidatingPolicy) (fp : String)
          → q.spec.failure_policy ≡ some fp
          → get_failure_policy q ≡ fp)
      → (fs : List (String × Fetched)) (s : PolicySender S) (ms : List Proto.ValidatingPolicy)
      → All IsHttp fs
      → All SetsFailurePolicy fs
      → ((k : String) → of_name k ms ≡ of_name k (announced fs))
      → (s' : PolicySender S) × (mesh_all fs s ≡ ok (announced fs, s'))
        × (pols : List (CompiledVpol Program)) × (u : PolicyStore (CompiledVpol Program))
        × (compiled_policies (reconcile_all (compile_policy cel) fs new_store) ≡ ok (pols, u))
        × (provided (compile_policy cel) ms new_store ≡ ok pols)
  unfolding lookup
  provided-reconcile_all api fs s ms h a o =
      let f = follow compile fs s new_store h new_store-IsCurrent in
      let r = reconcile_all compile fs new_store in
      let c = reconcile_all-IsCurrent compile fs new_store new_store-IsCurrent in
      let same : (k : String) → lookup k (f.store).policies ≡ lookup k r.policies = λ k.
        f.contents k
        ∙ enforced_congr (λ p. compile (sent p)) compile k fs none a
            (compile_policy-sent_set cel api)
        ∙ sym (lookup-reconcile_all compile k fs new_store) in
      let e = mesh_all-calls_of fs s h in
      let m : f.messages ≡ announced fs = messages_of (sym f.sends ∙ e) in
      (
        run s (calls_of fs),
        e,
        map_to_sorted_slice r.policies,
        sorted_store r,
        compiled_policies-sorted r c,
        provided_congr compile ms f.messages new_store (λ k. o k ∙ ap (of_name k) (sym m))
              new_store-IsCurrent
            ∙ rw (
              f.processes,
              compiled_policies-sorted f.store f.current,
              map_to_sorted_slice_congr (f.store).policies r.policies (f.current).distinct
                  c.distinct same,
            ),
      )
