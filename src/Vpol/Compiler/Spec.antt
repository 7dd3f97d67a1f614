-- ===== src/Vpol/Compiler/Spec.antt =====
-- What a policy must satisfy to compile, and to what it compiles: typing judgements for its
-- expressions, and the compiler accepts exactly what they derive.
use kyverno_http_authorizer.Base.{
  ℕ, suc, String, List, [], ◌∷◌, ◌≡◌, refl, subst, ◌↔◌, Bool, true, ◌||◌, inr, Error,
}
use kyverno_http_authorizer.GoMap.{GoMap, insert}
use kyverno_http_authorizer.Policy
use kyverno_http_authorizer.Cel.Variables.{
  VariablesProvider, new_variables_provider, register_field,
}
use kyverno_http_authorizer.Vpol.Policy.{CompiledVpol}
use kyverno_http_authorizer.Vpol.Compiler.{
  CelEnv, accepted, ◌>>=◌, or_reject, require, FieldError, invalid, compile_condition,
  compile_conditions, compile_variables, compile_authorization, compile_rules, compile_in,
}
use kyverno_http_authorizer.Vpol.Compiler.Inversion.{
  bind-accepted, accepted-injective, or_reject-accepted, require-accepted, All₂, compile_each_sound,
  compile_each_complete,
}

module _ (cel : CelEnv) where
  open cel use {
    Env, Ast, Ty, Val, Program, compile, output_type, is_exact_type, bool_type, response_type,
    null_type, program, cel_type_provider, get_failure_policy,
  }

  -- An expression compiles to a program, and its type passes the test.
  pub data Compiles (env : Env) (vars : VariablesProvider Ty Val) (test : Ty → Bool) (e : String)
      (p : Program) : Type 0 where
    compiles :
        (ast : Ast)
        → compile env vars e ≡ inr ast
        → test (output_type ast) ≡ true
        → program env ast ≡ inr p
        → Compiles env vars test e p

  abbrev pub is_bool : Ty → Bool
  is_bool t = is_exact_type t bool_type

  abbrev pub is_answer : Ty → Bool
  is_answer t = is_exact_type t response_type || is_exact_type t null_type

  -- Each expression of a list compiles to the program at its place.
  abbrev pub AllCompile :
      {A : Type 0}
      → Env
      → VariablesProvider Ty Val
      → (Ty → Bool)
      → (A → String)
      → List A
      → List Program
      → Type 0
  AllCompile env vars test expression = All₂ (λ a p. Compiles env vars test (expression a) p)

  -- Variables are declared one after the other: each is compiled with those before it in scope.
  pub data Declares (env : Env)
      : VariablesProvider Ty Val
        → GoMap Program
        → List Policy.Variable
        → VariablesProvider Ty Val
        → GoMap Program
        → Type 0 where
    none_left :
        {vars : VariablesProvider Ty Val} {progs : GoMap Program}
        → Declares env vars progs [] vars progs
    declare :
        {vars vars' : VariablesProvider Ty Val} {progs progs' : GoMap Program} {v : Policy.Variable}
        {vs : List Policy.Variable} (ast : Ast) (p : Program)
        → compile env vars v.expression ≡ inr ast
        → program env ast ≡ inr p
        → Declares env
            (register_field vars v.name (output_type ast))
            (insert v.name p progs)
            vs
            vars'
            progs'
        → Declares env vars progs (v ∷ vs) vars' progs'

  module _ (env : Env) where
    check_sound :
        (vars : VariablesProvider Ty Val) (test : Ty → Bool) (expression : String)
        (at : Error → FieldError) (refused : FieldError) (p : Program)
        → (or_reject at (compile env vars expression) >>= λ ast.
            require (test (output_type ast)) refused >>= λ _. or_reject at (program env ast))
          ≡ accepted p
        → Compiles env vars test expression p
    check_sound vars test expression at refused p h =
        let (ast, c, h1) = bind-accepted (or_reject at (compile env vars expression)) _ h in
        let (u, t, h2) = bind-accepted (require (test (output_type ast)) refused) _ h1 in
        compiles ast (or_reject-accepted at (compile env vars expression) c)
          (require-accepted (test (output_type ast)) refused t)
          (or_reject-accepted at (program env ast) h2)

    condition_sound :
        (vars : VariablesProvider Ty Val) (i : ℕ) (m : Policy.MatchCondition) (p : Program)
        → compile_condition cel env vars i m ≡ accepted p
        → Compiles env vars is_bool m.expression p
    unfolding compile_condition
    condition_sound vars i m p h = check_sound vars is_bool m.expression _ _ p h

    condition_complete :
        (vars : VariablesProvider Ty Val) (i : ℕ) (m : Policy.MatchCondition) (p : Program)
        → Compiles env vars is_bool m.expression p
        → compile_condition cel env vars i m ≡ accepted p
    unfolding compile_condition
    condition_complete vars i m p (compiles ast c t q) = rw c (rw t (rw q))

    rule_sound :
        (vars : VariablesProvider Ty Val) (i : ℕ) (r : Policy.Validation) (p : Program)
        → compile_authorization cel env vars i r ≡ accepted p
        → Compiles env vars is_answer r.expression p
    unfolding compile_authorization
    rule_sound vars i r p h = check_sound vars is_answer r.expression _ _ p h

    rule_complete :
        (vars : VariablesProvider Ty Val) (i : ℕ) (r : Policy.Validation) (p : Program)
        → Compiles env vars is_answer r.expression p
        → compile_authorization cel env vars i r ≡ accepted p
    unfolding compile_authorization
    rule_complete vars i r p (compiles ast c t q) = rw c (rw t (rw q))

    variables_sound :
        (vars : VariablesProvider Ty Val) (i : ℕ) (progs : GoMap Program)
        (vs : List Policy.Variable) (r : VariablesProvider Ty Val × GoMap Program)
        → compile_variables cel env vars i progs vs ≡ accepted r
        → Declares env vars progs vs r.0 r.1
    unfolding compile_variables
    variables_sound vars i progs [] r h =
        subst (λ r. Declares env vars progs [] r.0 r.1) (accepted-injective h) none_left
    variables_sound vars i progs (v ∷ vs) r h =
        let (ast, c, h1) =
          bind-accepted
            (or_reject (invalid "variables" i v.expression) (compile env vars v.expression)) _ h in
        let (p, q, h2) =
          bind-accepted (or_reject (invalid "variables" i v.expression) (program env ast)) _ h1 in
        declare ast p (or_reject-accepted _ (compile env vars v.expression) c)
          (or_reject-accepted _ (program env ast) q)
          (variables_sound (register_field vars v.name (output_type ast)) (suc i)
            (insert v.name p progs) vs r h2)

    variables_complete :
        (i : ℕ) {vars vars' : VariablesProvider Ty Val} {progs progs' : GoMap Program}
        {vs : List Policy.Variable}
        → Declares env vars progs vs vars' progs'
        → compile_variables cel env vars i progs vs ≡ accepted (vars', progs')
    unfolding compile_variables
    variables_complete i none_left = refl
    variables_complete i (declare ast p c q d) = rw c (rw q (variables_complete (suc i) d))

  -- The judgement for a whole policy: match conditions are compiled with no variable in scope and
  -- have type bool; rules see all the variables and have the response type or the null type.
  pub record PolicyCompiles (base env : Env) (policy : Policy.ValidatingPolicy)
      (c : CompiledVpol Program) : Type 0 where
    pub failure_policy : c.failure_policy ≡ get_failure_policy policy
    pub conditions :
        AllCompile env
          (new_variables_provider (cel_type_provider base))
          is_bool
          (λ m. m.expression)
          policy.spec.match_conditions
          c.match_conditions
    pub scope : VariablesProvider Ty Val
    pub variables :
        Declares env
          (new_variables_provider (cel_type_provider base))
          []
          policy.spec.variables
          scope
          c.variables
    pub rules : AllCompile env scope is_answer (λ r. r.expression) policy.spec.validations c.rules

  -- In a given environment the compiler accepts a policy with a result exactly when that result is
  -- derived by the typing rules: each match condition compiles to its program with no variable in
  -- scope and has type bool; each variable compiles with those before it in scope; each validation
  -- compiles with all of them in scope and has the response type or the null type.
  pub compile_in_iff :
      (base env : Env) (policy : Policy.ValidatingPolicy) (c : CompiledVpol Program)
      → (compile_in cel base env policy ≡ accepted c) ↔ PolicyCompiles base env policy c
  unfolding compile_in
  compile_in_iff base env policy c = (sound, complete)
    where
      vars : VariablesProvider Ty Val
      vars = new_variables_provider (cel_type_provider base)

      sound : compile_in cel base env policy ≡ accepted c → PolicyCompiles base env policy c
      sound h =
          let (ms, a, h1) =
            bind-accepted (compile_conditions cel env vars policy.spec.match_conditions) _ h in
          let (d, b, h2) =
            bind-accepted (compile_variables cel env vars 0 [] policy.spec.variables) _ h1 in
          let (rs, e, h3) =
            bind-accepted (compile_rules cel env d.0 policy.spec.validations) _ h2 in
          subst (PolicyCompiles base env policy) (accepted-injective h3) (record {
            failure_policy = refl;
            conditions =
                compile_each_sound _ _ (condition_sound env vars) 0 policy.spec.match_conditions ms
                  a;
            scope = d.0;
            variables = variables_sound env vars 0 [] policy.spec.variables d b;
            rules = compile_each_sound _ _ (rule_sound env d.0) 0 policy.spec.validations rs e;
          })

      complete : PolicyCompiles base env policy c → compile_in cel base env policy ≡ accepted c
      complete k =
          rw
            (compile_each_complete _ _ (condition_complete env vars) 0 policy.spec.match_conditions
              c.match_conditions k.conditions)
            (rw (variables_complete env 0 k.variables) (
              rw
                (compile_each_complete _ _ (rule_complete env k.scope) 0 policy.spec.validations
                  c.rules k.rules)
                (rw k.failure_policy)))
