-- ===== src/Vpol/Rules.antt =====
-- Rules: the first one that returns a response or an error decides, and the failure policy says what
-- an error becomes.
use kyverno_http_authorizer.Base.{
  String, none, some, List, [], ◌∷◌, ◌≡◌, refl, ◌≢◌, Bool, true, false, Result, ok, err, panic,
  Error, ◌==◌, if◌then◌else◌,
}
use kyverno_http_authorizer.Http.{Request}
use kyverno_http_authorizer.Engine.{RequestFunc}
use kyverno_http_authorizer.Vpol.Runtime.{Activation, Runtime}
use kyverno_http_authorizer.Vpol.Policy.{
  CompiledVpol, fail, match_all, evaluate_http, rules_loop, run_rules, rule_data,
  apply_failure_policy, for_http,
}

module _ {R : Type 0} (rt : Runtime R) where
  open rt use {Program}

  -- `Settled act rules o`: `o` is what the rules, evaluated in order, settle on.
  pub data Settled (act : Activation R Program) : List Program → RequestFunc → Type 0 where
    exhausted : Settled act [] (ok none)
    passed :
        {rule : Program} {rules : List Program} {o : RequestFunc}
        → evaluate_http rt rule act ≡ ok none
        → Settled act rules o
        → Settled act (rule ∷ rules) o
    settled :
        {rule : Program} {rules : List Program} {o : RequestFunc}
        → evaluate_http rt rule act ≡ o
        → o ≢ ok none
        → Settled act (rule ∷ rules) o

  -- What a policy makes of an outcome: under the failure policy Fail an error stays one, and under
  -- any other it reads as no response.
  abbrev pub under_failure_policy : String → RequestFunc → RequestFunc
  under_failure_policy fp (ok r) = ok r
  under_failure_policy fp panic = panic
  under_failure_policy fp (err e) = if fp == fail then err e else ok none

  -- `Answer p ctx req o`: the answer that the policy `p` gives to a request.
  pub data Answer (p : CompiledVpol Program) (ctx : R) (req : Request) : RequestFunc → Type 0 where
    does_not_apply : match_all rt p req ≡ ok false → Answer p ctx req (ok none)
    match_fails :
        (e : Error) {o : RequestFunc}
        → match_all rt p req ≡ err e
        → o ≡ under_failure_policy p.failure_policy (err e)
        → Answer p ctx req o
    match_panics : match_all rt p req ≡ panic → Answer p ctx req panic
    applies :
        {o r : RequestFunc}
        → match_all rt p req ≡ ok true
        → Settled (rule_data rt p ctx req) p.rules r
        → o ≡ under_failure_policy p.failure_policy r
        → Answer p ctx req o

  stop_rules :
      (act : Activation R Program) (rule : Program) (rules : List Program) (o : RequestFunc)
      → evaluate_http rt rule act ≡ o
      → o ≢ ok none
      → rules_loop rt act (rule ∷ rules) ≡ o
  unfolding rules_loop
  stop_rules act rule rules (ok none) e n = absurd (n refl)
  stop_rules act rule rules (ok (some r)) e n = rw (e, rules_loop)
  stop_rules act rule rules (err m) e n = rw (e, rules_loop)
  stop_rules act rule rules panic e n = rw (e, rules_loop)

  step_rules :
      (act : Activation R Program) (rule : Program) (rules : List Program) (o : RequestFunc)
      → evaluate_http rt rule act ≡ o
      → Settled act rules (rules_loop rt act rules)
      → Settled act (rule ∷ rules) (rules_loop rt act (rule ∷ rules))
  unfolding rules_loop
  step_rules act rule rules (ok none) e s = rw (e, rules_loop) (passed e s)
  step_rules act rule rules (ok (some r)) e s = rw (e, rules_loop) (settled e (λ c. cc))
  step_rules act rule rules (err m) e s = rw (e, rules_loop) (settled e (λ c. cc))
  step_rules act rule rules panic e s = rw (e, rules_loop) (settled e (λ c. cc))

  pub rules_loop-Settled :
      (act : Activation R Program) (rules : List Program)
      → Settled act rules (rules_loop rt act rules)
  unfolding rules_loop
  rules_loop-Settled act [] = exhausted
  rules_loop-Settled act (rule ∷ rules) =
      step_rules act rule rules (evaluate_http rt rule act) refl (rules_loop-Settled act rules)

  apply-under :
      (p : CompiledVpol Program) (o : RequestFunc)
      → apply_failure_policy rt p o ≡ under_failure_policy p.failure_policy o
  unfolding apply_failure_policy
  apply-under p (ok r) = refl
  apply-under p (err e) = refl
  apply-under p panic = refl

  Answer-of_match :
      (p : CompiledVpol Program) (ctx : R) (req : Request) (m : Result Bool)
      → match_all rt p req ≡ m
      → Answer p ctx req (for_http rt p ctx req)
  unfolding for_http
  Answer-of_match p ctx req (ok true) e =
      applies e (rules_loop-Settled (rule_data rt p ctx req) p.rules)
        (rw (e, run_rules) (apply-under p (rules_loop rt (rule_data rt p ctx req) p.rules)))
  Answer-of_match p ctx req (ok false) e = rw (e, run_rules) (does_not_apply e)
  Answer-of_match p ctx req (err m) e = match_fails m e (rw (e, run_rules))
  Answer-of_match p ctx req panic e = rw (e, run_rules) (match_panics e)

  -- A policy answers a request as follows. It has no response to a request that its match conditions
  -- exclude. When matching fails with an error, and when the first rule that does not return nil
  -- returns an error, the answer is that error under the failure policy Fail, and no response under
  -- any other. When it applies, the answer is the response of the first rule that returns one, or
  -- no response if every rule returns nil. A panic in matching or in that rule is one of the policy.
  pub for_http-Answer :
      (p : CompiledVpol Program) (ctx : R) (req : Request)
      → Answer p ctx req (for_http rt p ctx req)
  for_http-Answer p ctx req = Answer-of_match p ctx req (match_all rt p req) refl
