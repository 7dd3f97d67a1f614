-- ===== src/Reconcile/Mesh.antt =====
-- The control plane's reconciler over a history of requests: when it panics, and what it sends.
use kyverno_http_authorizer.Base.{
  String, Option, none, some, List, [], ◌∷◌, ◌++◌, ◌≡◌, ◌↔◌, refl, ap, ◌∙◌, true, Result, ok, panic,
  ◌>>=◌, deref, arith, ◌==◌,
}
use kyverno_http_authorizer.Policy
use kyverno_http_authorizer.Proto
use kyverno_http_authorizer.Api.{to_proto, evaluation_mode_http}
use kyverno_http_authorizer.Sender.{PolicySender, store_policy}
use kyverno_http_authorizer.Reconcile.{
  Fetched, found, not_found, fetch_error, Reconciled, reconcile_mesh,
}

-- A policy that was found has the name that was asked for, and an evaluation configuration of mode
-- HTTP.
abbrev pub IsHttp : String × Fetched → Type 0
IsHttp (key, found p) =
    (p.name ≡ key)
    × (c : Policy.EvaluationConfiguration) × (p.spec.evaluation_configuration ≡ some c)
    × ((c.mode == evaluation_mode_http) ≡ true)
IsHttp (key, not_found) = Unit
IsHttp (key, fetch_error e) = Unit

module _ {S : Type 0} where
  -- The control plane's reconciler, call after call: the messages that it sends and the sender.
  unfoldable pub mesh_all :
      List (String × Fetched)
      → PolicySender S
      → Result (List Proto.ValidatingPolicy × PolicySender S)
  mesh_all [] s = ok ([], s)
  mesh_all ((name, f) ∷ fs) s = do
    r ← reconcile_mesh name f s
    rest ← mesh_all fs r.sender
    ok (r.sent ++ rest.0, rest.1)

  no_configuration :
      (o : Option Policy.EvaluationConfiguration)
      (k : Policy.EvaluationConfiguration → Result (Reconciled S))
      → ((c : Policy.EvaluationConfiguration) → (k c ≡ panic) → ⊥)
      → ((deref o >>= k) ≡ panic) ↔ (o ≡ none)
  no_configuration none k h = (λ e. refl, λ e. refl)
  no_configuration (some c) k h = (λ e. absurd (h c e), λ e. cc)

  -- The control plane's reconciler panics exactly on a policy that was found without an evaluation
  -- configuration.
  pub reconcile_mesh-panics :
      (name : String) (f : Fetched) (s : PolicySender S)
      → (reconcile_mesh name f s ≡ panic)
        ↔ ((p : Policy.ValidatingPolicy) × (f ≡ found p) × (p.spec.evaluation_configuration ≡ none))
  unfolding reconcile_mesh
  reconcile_mesh-panics name not_found s = (λ e. cc, λ (p, e, n). cc)
  reconcile_mesh-panics name (fetch_error m) s = (λ e. cc, λ (p, e, n). cc)
  reconcile_mesh-panics name (found p) s =
      let iff = no_configuration p.spec.evaluation_configuration _ (λ c e. ground (arith, e)) in
      (
        λ e. (p, refl, iff.0 e),
        λ (q, e, n). iff.1 (
            ap (λ (x : Policy.ValidatingPolicy). x.spec.evaluation_configuration)
              (found-injective e)
            ∙ n),
      )
    where
      found-injective : {a b : Policy.ValidatingPolicy} → found a ≡ found b → a ≡ b
      found-injective e = cc

  pub reconcile_mesh-http :
      (name : String) (p : Policy.ValidatingPolicy) (s : PolicySender S)
      → IsHttp (name, found p)
      → reconcile_mesh name (found p) s
        ≡ ok (record { sender = store_policy (to_proto p) s; sent = to_proto p ∷ []; error = none })
  unfolding reconcile_mesh
  reconcile_mesh-http name p s (n, c, e, m) = rw (e, m)
