-- ===== src/Validator/Admits.antt =====
-- What the webhook lets through, and that the servers can enforce it.
use kyverno_http_authorizer.Base.{
  Option, none, some, List, [], ◌∷◌, ◌≡◌, ◌↔◌, refl, sym, ap, subst, true, ◌==◌, Bool-cases, inl,
  inr, is_empty,
}
use kyverno_http_authorizer.Policy
use kyverno_http_authorizer.Api.{evaluation_mode_http}
use kyverno_http_authorizer.Validator.{
  Object, validating_policy, other_object, compile_errors, reject_errors, validate_mode,
  validate_vpol, validate_create, validate_update,
}
use kyverno_http_authorizer.Vpol.Compiler.{
  CelEnv, FieldError, Checked, accepted, rejected, compile_policy,
}
use kyverno_http_authorizer.Vpol.Compiler.Located.{compile_policy-Located}
use kyverno_http_authorizer.Vpol.Policy.{CompiledVpol}

-- A policy whose evaluation configuration has the mode HTTP.
abbrev pub HasHttpMode : Policy.ValidatingPolicy → Type 0
HasHttpMode p =
    (c : Policy.EvaluationConfiguration) × (p.spec.evaluation_configuration ≡ some c)
    × ((c.mode == evaluation_mode_http) ≡ true)

empty_of : {A : Type 0} (xs : List A) → is_empty xs ≡ true → xs ≡ []
empty_of [] h = refl
empty_of (x ∷ xs) h = cc

some_injective : {A : Type 0} {a b : A} → some a ≡ some b → a ≡ b
some_injective h = cc

module _ (compile_vpol : Policy.ValidatingPolicy → List FieldError) where
  reject_errors-none :
      (p : Policy.ValidatingPolicy) → reject_errors compile_vpol p ≡ none → compile_vpol p ≡ []
  reject_errors-none p h = elim (Bool-cases (is_empty (compile_vpol p))) [
    | inl b ↦ empty_of (compile_vpol p) b
    | inr b ↦ cc (rw b at h)
  ]

  validate_mode-none :
      (o : Option Policy.EvaluationConfiguration) (p : Policy.ValidatingPolicy)
      → (validate_mode compile_vpol o p ≡ none) ↔ (
          (c : Policy.EvaluationConfiguration)
          → o ≡ some c
          → (c.mode == evaluation_mode_http) ≡ true
          → compile_vpol p ≡ [])
  validate_mode-none none p = (λ h c e m. cc, λ h. refl)
  validate_mode-none (some d) p = (
    λ h c e m. reject_errors-none p (rw (ap (λ x. x.mode) (some_injective e), m) at h),
    λ h. elim (Bool-cases (d.mode == evaluation_mode_http)) [
      | inl m ↦ rw (m, h d refl m)
      | inr m ↦ rw m
    ],
  )

  validate_vpol-none :
      (p : Policy.ValidatingPolicy)
      → (validate_vpol compile_vpol p ≡ none) ↔ (HasHttpMode p → compile_vpol p ≡ [])
  unfolding validate_vpol
  validate_vpol-none p =
      let iff = validate_mode-none p.spec.evaluation_configuration p in
      (λ h (c, e, m). iff.0 h c e m, λ h. iff.1 (λ c e m. h (c, e, m)))

  -- The webhook admits the creation of an object, and the update to it from any other, exactly when
  -- the object is a policy, and if its mode is HTTP it compiles without errors.
  pub validate_create_iff :
      (old obj : Object)
      → ((validate_create compile_vpol obj ≡ none) ↔ (
          (p : Policy.ValidatingPolicy) × (obj ≡ validating_policy p)
          × (HasHttpMode p → compile_vpol p ≡ [])))
        × (validate_update compile_vpol old obj ≡ validate_create compile_vpol obj)
  unfolding validate_create validate_update
  validate_create_iff old (validating_policy p) = (
    (
      λ h. (p, refl, (validate_vpol-none p).0 h),
      λ (q, e, h).
          (validate_vpol-none p).1
            (subst (λ x. HasHttpMode x → compile_vpol x ≡ []) (sym (policy-injective e)) h),
    ),
    refl,
  )
    where
      policy-injective :
          {a b : Policy.ValidatingPolicy} → validating_policy a ≡ validating_policy b → a ≡ b
      policy-injective e = cc
  validate_create_iff old (other_object t) = ((λ h. cc, λ (q, e, h). cc), refl)

module _ (cel : CelEnv) where
  open cel use {Program}

  accepted_of :
      (p : Policy.ValidatingPolicy) (r : Checked (CompiledVpol Program))
      → compile_policy cel p ≡ r
      → compile_errors r ≡ []
      → (c : CompiledVpol Program) × (compile_policy cel p ≡ accepted c)
  accepted_of p (accepted c) e h = (c, e)
  accepted_of p (rejected es) e h =
      let (f, q, l) = compile_policy-Located cel p es e in absurd (cc (h, q))

  -- A policy of mode HTTP whose creation the webhook admits compiles, so a server that has the same
  -- compiler enforces it.
  pub validate_create-compiles :
      (p : Policy.ValidatingPolicy)
      → HasHttpMode p
      → validate_create (λ q. compile_errors (compile_policy cel q)) (validating_policy p) ≡ none
      → (c : CompiledVpol Program) × (compile_policy cel p ≡ accepted c)
  unfolding validate_create
  validate_create-compiles p m h =
      accepted_of p (compile_policy cel p) refl
        ((validate_vpol-none (λ q. compile_errors (compile_policy cel q)) p).0 h m)
