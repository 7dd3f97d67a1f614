-- ===== src/Vpol/Compiler.antt =====
-- pkg/engine/vpol/compiler/compiler.go: from a policy's expressions to programs. What it uses of
-- cel-go and of the policy's API is the record `CelEnv`: a result `inl e` is an error.
pub mod Inversion
pub mod Spec
pub mod Sent
pub mod Located
use kyverno_http_authorizer.Base.{
  ℕ, suc, String, Option, none, some, List, [], ◌∷◌, Bool, true, false, ◌||◌, not, ◌&&◌, Error, ◌⊎◌,
  inl, inr,
}
use kyverno_http_authorizer.GoMap.{GoMap, insert}
use kyverno_http_authorizer.Policy
use kyverno_http_authorizer.Cel.Variables.{
  InnerProvider, VariablesProvider, new_variables_provider, register_field,
}
use kyverno_http_authorizer.Vpol.Policy.{CompiledVpol}

pub record CelEnv : Type 1 where
  pub Env : Type 0
  pub Ast : Type 0
  pub Ty : Type 0
  pub Val : Type 0
  pub Program : Type 0
  -- NewEnv of pkg/cel/env.go, its type provider, and Extend with the variables of a policy.
  pub new_env : Error ⊎ Env
  pub cel_type_provider : Env → InnerProvider Ty Val
  pub extend : Env → Error ⊎ Env
  -- Compile, which asks the provider for the types of the variables, and OutputType.
  pub compile : Env → VariablesProvider Ty Val → String → Error ⊎ Ast
  pub output_type : Ast → Ty
  pub is_exact_type : Ty → Ty → Bool
  pub bool_type : Ty
  pub response_type : Ty
  pub null_type : Ty
  -- env.Program
  pub program : Env → Ast → Error ⊎ Program
  -- The policy's GetFailurePolicy.
  pub get_failure_policy : Policy.ValidatingPolicy → String

-- An error of field.ErrorList: an internal one, or the list of the spec, the index in it, the
-- expression that stands there and the message.
pub data FieldError : Type 0 where
  internal_error : Error → FieldError
  invalid : String → ℕ → String → Error → FieldError

pub data Checked (A : Type 0) : Type 0 where
  accepted : A → Checked A
  rejected : List FieldError → Checked A

infixl 5 ◌>>=◌ ◌>>◌
abbrev pub ◌>>=◌ : {A B : Type 0} → Checked A → (A → Checked B) → Checked B
accepted a >>= f = f a
rejected es >>= f = rejected es

abbrev pub ◌>>◌ : {B : Type 0} → Checked (Unit {0}) → Checked B → Checked B
m >> k = m >>= λ _. k

-- An early return on an error, and on a test that fails.
abbrev pub or_reject : {A : Type 0} → (Error → FieldError) → Error ⊎ A → Checked A
or_reject f (inl e) = rejected (f e ∷ [])
or_reject f (inr a) = accepted a

abbrev pub require : Bool → FieldError → Checked (Unit {0})
require true e = accepted tt
require false e = rejected (e ∷ [])

abbrev pub condition_message : Error
condition_message = "matchCondition output is expected to be of type bool"

abbrev pub rule_message : Error
rule_message = "rule response output is expected to be of type http.Response"

-- A loop that compiles each element of a list, with its index, and returns at the first rejection.
unfoldable pub compile_each : {A B : Type 0} → (ℕ → A → Checked B) → ℕ → List A → Checked (List B)
compile_each f i [] = accepted []
compile_each f i (a ∷ rest) = do b ← f i a; bs ← compile_each f (suc i) rest; accepted (b ∷ bs)

module _ (cel : CelEnv) where
  open cel use {
    Env, Ty, Val, Program, new_env, cel_type_provider, extend, compile, output_type, is_exact_type,
    bool_type, response_type, null_type, program, get_failure_policy,
  }

  -- One round of the loop over the match conditions.
  unfoldable pub compile_condition :
      Env → VariablesProvider Ty Val → ℕ → Policy.MatchCondition → Checked Program
  compile_condition env vars i m = do
    ast ← or_reject (invalid "matchConditions" i m.expression) (compile env vars m.expression)
    require (is_exact_type (output_type ast) bool_type)
        (invalid "matchConditions" i m.expression condition_message)
    or_reject (invalid "matchConditions" i m.expression) (program env ast)

  abbrev pub compile_conditions :
      Env → VariablesProvider Ty Val → List Policy.MatchCondition → Checked (List Program)
  compile_conditions env vars = compile_each (compile_condition env vars) 0

  -- The loop over the variables: each one is registered before the next is compiled.
  unfoldable pub compile_variables :
      Env
      → VariablesProvider Ty Val
      → ℕ
      → GoMap Program
      → List Policy.Variable
      → Checked (VariablesProvider Ty Val × GoMap Program)
  unfolding register_field insert
  compile_variables env vars i variables [] = accepted (vars, variables)
  compile_variables env vars i variables (v ∷ vs) = do
    ast ← or_reject (invalid "variables" i v.expression) (compile env vars v.expression)
    prog ← or_reject (invalid "variables" i v.expression) (program env ast)
    compile_variables env (register_field vars v.name (output_type ast)) (suc i)
        (insert v.name prog variables) vs

  -- compileAuthorization
  unfoldable pub compile_authorization :
      Env → VariablesProvider Ty Val → ℕ → Policy.Validation → Checked Program
  compile_authorization env vars i rule = do
    ast ← or_reject (invalid "validations" i rule.expression) (compile env vars rule.expression)
    require
        (is_exact_type (output_type ast) response_type || is_exact_type (output_type ast) null_type)
        (invalid "validations" i rule.expression rule_message)
    or_reject (invalid "validations" i rule.expression) (program env ast)

  abbrev pub compile_rules :
      Env → VariablesProvider Ty Val → List Policy.Validation → Checked (List Program)
  compile_rules env vars = compile_each (compile_authorization env vars) 0

  -- Compile, from the environment on.
  unfoldable pub compile_in : Env → Env → Policy.ValidatingPolicy → Checked (CompiledVpol Program)
  unfolding compile_each compile_condition compile_variables compile_authorization
      new_variables_provider
  compile_in base env policy = do
    let vars = new_variables_provider (cel_type_provider base)
    match_conditions ← compile_conditions env vars policy.spec.match_conditions
    declared ← compile_variables env vars 0 [] policy.spec.variables
    rules ← compile_rules env declared.0 policy.spec.validations
    accepted (record {
      failure_policy = get_failure_policy policy;
      match_conditions = match_conditions;
      variables = declared.1;
      rules = rules;
    })

  -- Compile
  unfoldable pub compile_policy : Policy.ValidatingPolicy → Checked (CompiledVpol Program)
  unfolding compile_in
  compile_policy policy = do
    base ← or_reject internal_error new_env
    env ← or_reject internal_error (extend base)
    compile_in base env policy
