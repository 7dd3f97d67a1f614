-- ===== src/Vpol/Compiler/Sent.antt =====
-- A policy that reached a sidecar compiles as the policy itself does.
use kyverno_http_authorizer.Base.{
  ok-injective, sym, ℕ, suc, String, some, List, [], ◌∷◌, map, ◌≡◌, refl, ap, ◌∙◌, ok,
}
use kyverno_http_authorizer.Policy
use kyverno_http_authorizer.Cel.Variables.{VariablesProvider, new_variables_provider}
use mathlib.Core.Option
use kyverno_http_authorizer.Api.{to_proto, from_proto}
use kyverno_http_authorizer.Api.RoundTrip.{sent, sent_validation, from_proto-to_proto}
use kyverno_http_authorizer.Vpol.Policy.{CompiledVpol}
use kyverno_http_authorizer.Vpol.Compiler.{
  CelEnv, Checked, accepted, rejected, ◌>>=◌, compile_rules, compile_in, compile_policy,
  compile_authorization, compile_each, compile_conditions, compile_variables, or_reject,
  internal_error,
}

module _ (cel : CelEnv) where
  open cel use {Env, Ty, Val, Program, get_failure_policy, cel_type_provider, new_env, extend}

  compile_rules-sent :
      (env : Env) (vars : VariablesProvider Ty Val) (i : ℕ) (rules : List Policy.Validation)
      → compile_each (compile_authorization cel env vars) i (map sent_validation rules)
        ≡ compile_each (compile_authorization cel env vars) i rules
  unfolding compile_each compile_authorization
  compile_rules-sent env vars i [] = refl
  compile_rules-sent env vars i (rule ∷ rules) = rw (compile_rules-sent env vars (suc i) rules)

  -- A compiled policy under another failure policy.
  abbrev pub with_failure_policy :
      String → Checked (CompiledVpol Program) → Checked (CompiledVpol Program)
  with_failure_policy fp (accepted c) = accepted (record c { failure_policy = fp })
  with_failure_policy fp (rejected es) = rejected es

  bind-with :
      {A : Type 0} (fp : String) (m : Checked A) (f g : A → Checked (CompiledVpol Program))
      → ((a : A) → f a ≡ with_failure_policy fp (g a))
      → (m >>= f) ≡ with_failure_policy fp (m >>= g)
  bind-with fp (accepted a) f g h = h a
  bind-with fp (rejected es) f g h = refl

  compile_in-sent :
      (base env : Env) (p : Policy.ValidatingPolicy)
      → compile_in cel base env (sent p)
        ≡ with_failure_policy (get_failure_policy (sent p)) (compile_in cel base env p)
  unfolding compile_in
  compile_in-sent base env p =
      let fp = get_failure_policy (sent p) in
      let vars : VariablesProvider Ty Val = new_variables_provider (cel_type_provider base) in
      bind-with fp (compile_conditions cel env vars p.spec.match_conditions) _ _ λ conditions.
        bind-with fp (compile_variables cel env vars 0 [] p.spec.variables) _ _ λ declared.
          rw (compile_rules-sent env declared.0 0 p.spec.validations)
            (bind-with fp (compile_rules cel env declared.0 p.spec.validations) _ _ λ rules. refl)

  -- A policy that the control plane sends to a sidecar compiles there to what the policy itself
  -- compiles to, or is rejected with the same errors, under the policy's own failure policy and under
  -- Ignore if it sets none. Here the API returns the failure policy that a policy sets.
  pub compile_policy-sent :
      ((q : Policy.ValidatingPolicy) (fp : String)
        → q.spec.failure_policy ≡ some fp
        → get_failure_policy q ≡ fp)
      → (p : Policy.ValidatingPolicy)
      → (q : Policy.ValidatingPolicy) × (from_proto (to_proto p) ≡ ok q)
        × (compile_policy cel q
            ≡ with_failure_policy
                (Option.get_or p.spec.failure_policy "Ignore")
                (compile_policy cel p))
  unfolding compile_policy
  compile_policy-sent api p =
      let fp = Option.get_or p.spec.failure_policy "Ignore" in
      (
        sent p,
        from_proto-to_proto p,
        bind-with fp (or_reject internal_error new_env) _ _ λ base.
            bind-with fp (or_reject internal_error (extend base)) _ _ λ env.
              compile_in-sent base env p
              ∙ ap (λ f. with_failure_policy f (compile_in cel base env p)) (api (sent p) fp refl),
      )

  compile_in-own :
      (base env : Env) (p : Policy.ValidatingPolicy)
      → compile_in cel base env p
        ≡ with_failure_policy (get_failure_policy p) (compile_in cel base env p)
  unfolding compile_in
  compile_in-own base env p =
      let fp = get_failure_policy p in
      let vars : VariablesProvider Ty Val = new_variables_provider (cel_type_provider base) in
      bind-with fp (compile_conditions cel env vars p.spec.match_conditions) _ _ λ conditions.
        bind-with fp (compile_variables cel env vars 0 [] p.spec.variables) _ _ λ declared.
          bind-with fp (compile_rules cel env declared.0 p.spec.validations) _ _ λ rules. refl

  compile_policy-own :
      (p : Policy.ValidatingPolicy)
      → compile_policy cel p ≡ with_failure_policy (get_failure_policy p) (compile_policy cel p)
  unfolding compile_policy
  compile_policy-own p =
      let fp = get_failure_policy p in
      bind-with fp (or_reject internal_error new_env) _ _ λ base.
        bind-with fp (or_reject internal_error (extend base)) _ _ λ env. compile_in-own base env p

  -- A policy that sets its failure policy compiles at a sidecar to just what it compiles to itself.
  pub compile_policy-sent_set :
      ((q : Policy.ValidatingPolicy) (fp : String)
        → q.spec.failure_policy ≡ some fp
        → get_failure_policy q ≡ fp)
      → (p : Policy.ValidatingPolicy) (fp : String) → p.spec.failure_policy ≡ some fp
      → compile_policy cel (sent p) ≡ compile_policy cel p
  compile_policy-sent_set api p fp e =
      let (q, converted, compiled) = compile_policy-sent api p in
      let q_sent : q ≡ sent p = ok-injective (sym converted ∙ from_proto-to_proto p) in
      ap (compile_policy cel) (sym q_sent)
      ∙ compiled
      ∙ ap (λ f. with_failure_policy f (compile_policy cel p))
          (ap (λ o. Option.get_or o "Ignore") e ∙ sym (api p fp e))
      ∙ sym (compile_policy-own p)
