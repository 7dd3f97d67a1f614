-- ===== src/Vpol/Compiler/Located.antt =====
-- What a rejection says: one error, at the expression that is wrong.
use kyverno_http_authorizer.Base.{
  ℕ, suc, List, [], ◌∷◌, ◌≡◌, refl, Bool, true, false, ◌⊎◌, inl, inr, Error,
}
use kyverno_http_authorizer.GoMap.{GoMap, insert}
use kyverno_http_authorizer.Policy
use kyverno_http_authorizer.Cel.Variables.{
  VariablesProvider, new_variables_provider, register_field,
}
use kyverno_http_authorizer.Vpol.Compiler.{
  CelEnv, Checked, accepted, rejected, ◌>>=◌, or_reject, require, FieldError, internal_error,
  invalid, compile_each, compile_condition, compile_conditions, compile_variables,
  compile_authorization, compile_rules, compile_in, compile_policy,
}

-- `a` stands at place `k` of a list whose places are counted from `i`.
abbrev pub StandsAt : {A : Type 0} → ℕ → ℕ → List A → A → Type 0
StandsAt i k [] a = ⊥
StandsAt i k (x ∷ xs) a = ((k ≡ i) × (x ≡ a)) ⊎ StandsAt (suc i) k xs a

bind-rejected :
    {A B : Type 0} (m : Checked A) (f : A → Checked B) {es : List FieldError}
    → (m >>= f) ≡ rejected es
    → (m ≡ rejected es) ⊎ ((a : A) × (m ≡ accepted a) × (f a ≡ rejected es))
bind-rejected (accepted a) f h = inr (a, refl, h)
bind-rejected (rejected fs) f h = inl (cc h)

or_reject-rejected :
    {A : Type 0} (at : Error → FieldError) (r : Error ⊎ A) {es : List FieldError}
    → or_reject at r ≡ rejected es
    → (e : Error) × (es ≡ at e ∷ [])
or_reject-rejected at (inl e) h = (e, cc h)
or_reject-rejected at (inr a) h = cc

require-rejected :
    (b : Bool) (e : FieldError) {es : List FieldError} → require b e ≡ rejected es → es ≡ e ∷ []
require-rejected true e h = cc
require-rejected false e h = cc h

compile_each-rejected :
    {A B : Type 0} (f : ℕ → A → Checked B) (i : ℕ) (xs : List A) {es : List FieldError}
    → compile_each f i xs ≡ rejected es
    → (k : ℕ) × (a : A) × StandsAt i k xs a × (f k a ≡ rejected es)
unfolding compile_each
compile_each-rejected f i [] h = cc
compile_each-rejected f i (a ∷ xs) h = elim (bind-rejected (f i a) _ h) [
  | inl e ↦ (i, a, inl (refl, refl), e)
  | inr (b, e, h1) ↦ elim (bind-rejected (compile_each f (suc i) xs) _ h1) [
    | inl e1 ↦ let (k, c, s, r) = compile_each-rejected f (suc i) xs e1 in (k, c, inr s, r)
    | inr (bs, e1, h2) ↦ cc
  ]
]

-- An error of the compiler for the policy `p`: an internal one, or the place of an expression in its
-- list, that expression and a message.
pub data Located (p : Policy.ValidatingPolicy) : FieldError → Type 0 where
  internal : (e : Error) → Located p (internal_error e)
  condition :
      (k : ℕ) (m : Policy.MatchCondition) (e : Error)
      → StandsAt 0 k p.spec.match_conditions m
      → Located p (invalid "matchConditions" k m.expression e)
  variable :
      (k : ℕ) (v : Policy.Variable) (e : Error)
      → StandsAt 0 k p.spec.variables v
      → Located p (invalid "variables" k v.expression e)
  validation :
      (k : ℕ) (r : Policy.Validation) (e : Error)
      → StandsAt 0 k p.spec.validations r
      → Located p (invalid "validations" k r.expression e)

module _ (cel : CelEnv) where
  open cel use {
    Env, Ast, Ty, Val, Program, compile, output_type, program, new_env, extend, cel_type_provider,
  }

  check_rejected :
      {es : List FieldError} (at : Error → FieldError) (compiled : Error ⊎ Ast) (test : Ast → Bool)
      (message : Error) (env : Env)
      → (or_reject at compiled >>= λ ast.
          require (test ast) (at message) >>= λ _. or_reject at (program env ast))
        ≡ rejected es
      → (e : Error) × (es ≡ at e ∷ [])
  check_rejected at compiled test message env h = elim (bind-rejected (or_reject at compiled) _ h) [
    | inl e ↦ or_reject-rejected at compiled e
    | inr (ast, e, h1) ↦ elim (bind-rejected (require (test ast) (at message)) _ h1) [
      | inl e1 ↦ (message, require-rejected (test ast) (at message) e1)
      | inr (u, e1, h2) ↦ or_reject-rejected at (program env ast) h2
    ]
  ]

  condition_rejected :
      {es : List FieldError} (env : Env) (vars : VariablesProvider Ty Val) (i : ℕ)
      (m : Policy.MatchCondition)
      → compile_condition cel env vars i m ≡ rejected es
      → (e : Error) × (es ≡ invalid "matchConditions" i m.expression e ∷ [])
  unfolding compile_condition
  condition_rejected env vars i m h = check_rejected _ (compile env vars m.expression) _ _ env h

  rule_rejected :
      {es : List FieldError} (env : Env) (vars : VariablesProvider Ty Val) (i : ℕ)
      (r : Policy.Validation)
      → compile_authorization cel env vars i r ≡ rejected es
      → (e : Error) × (es ≡ invalid "validations" i r.expression e ∷ [])
  unfolding compile_authorization
  rule_rejected env vars i r h = check_rejected _ (compile env vars r.expression) _ _ env h

  variables_rejected :
      {es : List FieldError} (env : Env) (vars : VariablesProvider Ty Val) (i : ℕ)
      (progs : GoMap Program) (vs : List Policy.Variable)
      → compile_variables cel env vars i progs vs ≡ rejected es
      → (k : ℕ) × (v : Policy.Variable) × (e : Error) × StandsAt i k vs v
        × (es ≡ invalid "variables" k v.expression e ∷ [])
  unfolding compile_variables
  variables_rejected env vars i progs [] h = cc
  variables_rejected env vars i progs (v ∷ vs) h =
      let at : Error → FieldError = invalid "variables" i v.expression in
      elim (bind-rejected (or_reject at (compile env vars v.expression)) _ h) [
        | inl e ↦
            let (m, q) = or_reject-rejected at (compile env vars v.expression) e in
            (i, v, m, inl (refl, refl), q)
        | inr (ast, e, h1) ↦ elim (bind-rejected (or_reject at (program env ast)) _ h1) [
          | inl e1 ↦
              let (m, q) = or_reject-rejected at (program env ast) e1 in
              (i, v, m, inl (refl, refl), q)
          | inr (prog, e1, h2) ↦
              let (k, w, m, s, q) =
                variables_rejected env (register_field vars v.name (output_type ast)) (suc i)
                  (insert v.name prog progs) vs h2 in
              (k, w, m, inr s, q)
        ]
      ]

  abbrev OneLocated : Policy.ValidatingPolicy → List FieldError → Type 0
  OneLocated p es = (e : FieldError) × (es ≡ e ∷ []) × Located p e

  rules_located :
      {es : List FieldError} (env : Env) (vars : VariablesProvider Ty Val)
      (p : Policy.ValidatingPolicy)
      → compile_rules cel env vars p.spec.validations ≡ rejected es
      → OneLocated p es
  rules_located env vars p h =
      let (k, r, s, f) =
        compile_each-rejected (compile_authorization cel env vars) 0 p.spec.validations h in
      let (e, q) = rule_rejected env vars k r f in (_, q, validation k r e s)

  conditions_located :
      {es : List FieldError} (env : Env) (vars : VariablesProvider Ty Val)
      (p : Policy.ValidatingPolicy)
      → compile_conditions cel env vars p.spec.match_conditions ≡ rejected es
      → OneLocated p es
  conditions_located env vars p h =
      let (k, m, s, f) =
        compile_each-rejected (compile_condition cel env vars) 0 p.spec.match_conditions h in
      let (e, q) = condition_rejected env vars k m f in (_, q, condition k m e s)

  in_located :
      {es : List FieldError} (base env : Env) (p : Policy.ValidatingPolicy)
      → compile_in cel base env p ≡ rejected es
      → OneLocated p es
  unfolding compile_in
  in_located base env p h =
      let vars : VariablesProvider Ty Val = new_variables_provider (cel_type_provider base) in
      elim (bind-rejected (compile_conditions cel env vars p.spec.match_conditions) _ h) [
        | inl e ↦ conditions_located env vars p e
        | inr (ms, e, h1) ↦
            elim (bind-rejected (compile_variables cel env vars 0 [] p.spec.variables) _ h1) [
              | inl e1 ↦
                  let (k, v, m, s, q) = variables_rejected env vars 0 [] p.spec.variables e1 in
                  (_, q, variable k v m s)
              | inr (d, e1, h2) ↦
                  elim (bind-rejected (compile_rules cel env d.0 p.spec.validations) _ h2) [
                    | inl e2 ↦ rules_located env d.0 p e2
                    | inr (rs, e2, h3) ↦ cc
                  ]
            ]
      ]

  -- A rejected policy comes with exactly one error: an internal one, or one at a match condition, a variable or a validation of the policy, with its place in
  -- its list and its expression.
  pub compile_policy-Located :
      (p : Policy.ValidatingPolicy) (es : List FieldError)
      → compile_policy cel p ≡ rejected es
      → (e : FieldError) × (es ≡ e ∷ []) × Located p e
  unfolding compile_policy
  compile_policy-Located p es h = elim (bind-rejected (or_reject internal_error new_env) _ h) [
    | inl e ↦ let (m, q) = or_reject-rejected internal_error new_env e in (_, q, internal m)
    | inr (base, e, h1) ↦ elim (bind-rejected (or_reject internal_error (extend base)) _ h1) [
      | inl e1 ↦
          let (m, q) = or_reject-rejected internal_error (extend base) e1 in (_, q, internal m)
      | inr (env, e1, h2) ↦ in_located base env p h2
    ]
  ]
