-- ===== src/Listener/Admitted.antt =====
-- Policies that the validation webhook has admitted, from the control plane to a sidecar.
use mathlib.Core.List.{map-map}
use mathlib.Core.Option
use kyverno_http_authorizer.Base.{
  String, Option, none, some, List, [], ◌∷◌, map, ◌≡◌, refl, sym, ap, ◌∙◌, ok, All, ◌==◌, Bool,
  true, false, if◌then◌else◌, is_some, ok-injective,
}
use kyverno_http_authorizer.Policy
use kyverno_http_authorizer.Proto
use kyverno_http_authorizer.Api.RoundTrip.{sent, from_proto-to_proto}
use kyverno_http_authorizer.Stream.Sorted.{Ascending, contains}
use kyverno_http_authorizer.PolicyStore.{new_store, new_store-IsCurrent}
use kyverno_http_authorizer.Reconcile.{Fetched, found, not_found, fetch_error}
use kyverno_http_authorizer.Reconcile.Standalone.{enforced, replaced}
use kyverno_http_authorizer.Reconcile.Mesh.{IsHttp, mesh_all}
use kyverno_http_authorizer.Reconcile.Calls.{announced, mesh_all-calls_of}
use kyverno_http_authorizer.Sender.{PolicySender}
use kyverno_http_authorizer.Listener.Agreement.{messages_of}
use kyverno_http_authorizer.Listener.Mesh.{process_all-mesh}
use kyverno_http_authorizer.Listener.Converting.{of_name}
use kyverno_http_authorizer.Listener.Order.{provided, provided_congr}
use kyverno_http_authorizer.Validator.{validating_policy, compile_errors, validate_create}
use kyverno_http_authorizer.Validator.Admits.{validate_create-compiles}
use kyverno_http_authorizer.Vpol.Compiler.{CelEnv, Checked, accepted, compile_policy}
use kyverno_http_authorizer.Vpol.Compiler.Sent.{with_failure_policy, compile_policy-sent}
use kyverno_http_authorizer.Vpol.Policy.{CompiledVpol}

-- The last version of the policy `k`, unless it was deleted since.
abbrev pub latest :
    String
    → List (String × Fetched)
    → Option Policy.ValidatingPolicy
    → Option Policy.ValidatingPolicy
latest k [] d = d
latest k ((key, not_found) ∷ fs) d = latest k fs (if key == k then none else d)
latest k ((key, fetch_error e) ∷ fs) d = latest k fs d
latest k ((key, found p) ∷ fs) d = latest k fs (if key == k then some p else d)

module _ {V : Type 0} (f : Policy.ValidatingPolicy → Checked V) where
  abbrev Compiles : String × Fetched → Type 0
  Compiles (key, found p) = (c : V) × (f p ≡ accepted c)
  Compiles (key, not_found) = Unit
  Compiles (key, fetch_error e) = Unit

  deleted :
      (b : Bool) (d : Option V) (e : Option Policy.ValidatingPolicy)
      → Option.map (λ c. accepted c) d ≡ Option.map f e
      → Option.map (λ c. accepted c) (if b then none else d) ≡ Option.map f (if b then none else e)
  deleted true d e h = refl
  deleted false d e h = h

  stored :
      (b : Bool) (p : Policy.ValidatingPolicy) (c : V)
      → f p ≡ accepted c
      → (d : Option V) (e : Option Policy.ValidatingPolicy)
      → Option.map (λ c. accepted c) d ≡ Option.map f e
      → Option.map (λ c. accepted c) (replaced f b (f p) d) ≡ Option.map f (if b then some p else e)
  stored true p c q d e h = rw q
  stored false p c q d e h = rw q h

  -- Where every version compiles, the last version is enforced.
  enforced-latest :
      (k : String) (fs : List (String × Fetched)) (d : Option V)
      (e : Option Policy.ValidatingPolicy)
      → All Compiles fs
      → Option.map (λ c. accepted c) d ≡ Option.map f e
      → Option.map (λ c. accepted c) (enforced f k fs d) ≡ Option.map f (latest k fs e)
  enforced-latest k [] d e a h = h
  enforced-latest k ((key, not_found) ∷ fs) d e a h =
      enforced-latest k fs _ _ a.1 (deleted (key == k) d e h)
  enforced-latest k ((key, fetch_error m) ∷ fs) d e a h = enforced-latest k fs d e a.1 h
  enforced-latest k ((key, found p) ∷ fs) d e a h =
      enforced-latest k fs _ _ a.1 (stored (key == k) p a.0.0 a.0.1 d e h)

module _ (cel : CelEnv) where
  open cel use {Program, get_failure_policy}

  -- The validation webhook admits a policy that was found.
  abbrev pub Admitted : String × Fetched → Type 0
  Admitted (key, found p) =
      validate_create (λ q. compile_errors (compile_policy cel q)) (validating_policy p) ≡ none
  Admitted (key, not_found) = Unit
  Admitted (key, fetch_error e) = Unit

  -- What a policy compiles to under the failure policy that it sets, and under Ignore if it sets none.
  abbrev pub arrived : Policy.ValidatingPolicy → Checked (CompiledVpol Program)
  arrived p =
      with_failure_policy cel (Option.get_or p.spec.failure_policy "Ignore") (compile_policy cel p)

  module _
      (api : (q : Policy.ValidatingPolicy) (fp : String)
        → q.spec.failure_policy ≡ some fp
        → get_failure_policy q ≡ fp) where
    compile_policy-arrived : (p : Policy.ValidatingPolicy) → compile_policy cel (sent p) ≡ arrived p
    compile_policy-arrived p =
        let (q, converted, same) = compile_policy-sent cel api p in
        let q_sent : q ≡ sent p = ok-injective (sym converted ∙ from_proto-to_proto p) in
        ap (compile_policy cel) (sym q_sent) ∙ same

    Admitted-Compiles :
        (fs : List (String × Fetched))
        → All IsHttp fs
        → All Admitted fs
        → All (Compiles (λ p. compile_policy cel (sent p))) fs
    Admitted-Compiles [] h a = tt
    Admitted-Compiles ((key, not_found) ∷ fs) h a = (tt, Admitted-Compiles fs h.1 a.1)
    Admitted-Compiles ((key, fetch_error e) ∷ fs) h a = (tt, Admitted-Compiles fs h.1 a.1)
    Admitted-Compiles ((key, found p) ∷ fs) h a =
        let (named, c, e, m) = h.0 in
        let (v, accepts) = validate_create-compiles cel p (c, e, m) a.0 in
        (
          (_, compile_policy-arrived p ∙ ap (with_failure_policy cel _) accepts),
          Admitted-Compiles fs h.1 a.1,
        )

    -- Each policy that is enforced, and the last version.
    enforced-arrived :
        (fs : List (String × Fetched))
        → All IsHttp fs
        → All Admitted fs
        → (k : String)
        → Option.map (λ c. accepted c) (enforced (λ p. compile_policy cel (sent p)) k fs none)
          ≡ Option.map arrived (latest k fs none)
    enforced-arrived fs h a k =
        enforced-latest (λ p. compile_policy cel (sent p)) k fs none none (Admitted-Compiles fs h a)
          refl
        ∙ (λ i. Option.map (λ p. compile_policy-arrived p i) (latest k fs none))

    is_some-map : {A B : Type 0} (g : A → B) (o : Option A) → is_some (Option.map g o) ≡ is_some o
    is_some-map g none = refl
    is_some-map g (some x) = refl

    -- Every policy that the webhook admits is enforced by the sidecars. For a history of
    -- reconciliations, the control plane sends the messages of the policies found and the deletions; a sidecar
    -- that processes them, in any order that keeps the messages of each name in theirs, provides, in the ascending
    -- order of their names and each once, exactly the policies found and not deleted since, each in
    -- its last version, compiled under the failure policy that it sets, and under Ignore if it sets none. Here every policy found has the name
    -- asked for and an evaluation configuration of mode HTTP, the webhook, which has the sidecar's
    -- compiler, admits it, and the API returns the failure policy that a policy sets.
    pub provided-Admitted :
        {S : Type 0} (fs : List (String × Fetched)) (s : PolicySender S)
        (ms : List Proto.ValidatingPolicy)
        → All IsHttp fs
        → All Admitted fs
        → ((k : String) → of_name k ms ≡ of_name k (announced fs))
        → (s' : PolicySender S) × (mesh_all fs s ≡ ok (announced fs, s'))
          × (pols : List (CompiledVpol Program)) × (ks : List String) × (provided
                (compile_policy cel)
                ms
                new_store
              ≡ ok pols)
          × Ascending ks
          × ((k : String) → contains k ks ≡ is_some (latest k fs none))
          × (map (λ c. some (accepted c)) pols
              ≡ map (λ k. Option.map arrived (latest k fs none)) ks)
    provided-Admitted fs s ms h a o =
        let (ns, s', t, sends, ran, pols, u, ks, read, asc, has, vals) =
          process_all-mesh (compile_policy cel) fs s h in
        let announces = mesh_all-calls_of fs s h in
        let same : ns ≡ announced fs = messages_of (sym sends ∙ announces) in
        (
          _,
          announces,
          pols,
          ks,
          provided_congr (compile_policy cel) ms ns new_store (λ k. o k ∙ ap (of_name k) (sym same))
                new_store-IsCurrent
              ∙ rw (ran, read),
          asc,
          λ k.
              has k
              ∙ sym (is_some-map (λ c. accepted c) _)
              ∙ ap is_some (enforced-arrived fs h a k)
              ∙ is_some-map arrived (latest k fs none),
          sym (map-map (Option.map (λ c. accepted c)) (λ c. some c) pols)
              ∙ ap (map (Option.map (λ c. accepted c))) vals
              ∙ map-map (Option.map (λ c. accepted c)) _ ks
              ∙ (λ i. map (λ k. enforced-arrived fs h a k i) ks),
        )
