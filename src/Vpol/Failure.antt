-- ===== src/Vpol/Failure.antt =====
-- The failure policy from end to end: what errors of policies can reach a client.
use kyverno_http_authorizer.Base.{
  ℕ, String, List, [], ◌∷◌, map, ◌≡◌, ◌∙◌, sym, ◌≢◌, Bool, false, Result, ok, err, panic, Error,
  arith, ◌==◌, All,
}
use kyverno_http_authorizer.Http.{Request, ServerRequest, new_request}
use kyverno_http_authorizer.Engine.{RequestFunc}
use kyverno_http_authorizer.Authorizer.{handle}
use kyverno_http_authorizer.Authorizer.Decision.{
  Decided, undecided, skipped, decided, handle-Decided, finished, received, respond,
}
use kyverno_http_authorizer.Writer.{fresh}
use kyverno_http_authorizer.Vpol.Runtime.{Runtime}
use kyverno_http_authorizer.Vpol.Policy.{CompiledVpol, fail, as_compiled_policy}
use kyverno_http_authorizer.Vpol.Rules.{
  Answer, does_not_apply, match_fails, match_panics, applies, under_failure_policy, for_http-Answer,
}

module _ {R : Type 0} (rt : Runtime R) where
  open rt use {Program}

  under-not_err :
      (fp : String) (r : RequestFunc) (e : Error)
      → (fp == fail) ≡ false
      → under_failure_policy rt fp r ≢ err e
  under-not_err fp (ok r) e h c = cc
  under-not_err fp (err m) e h c = ground arith
  under-not_err fp panic e h c = cc

  Answer-not_err :
      (p : CompiledVpol Program) (ctx : R) (req : Request) (e : Error) {o : RequestFunc}
      → (p.failure_policy == fail) ≡ false
      → Answer rt p ctx req o
      → o ≢ err e
  Answer-not_err p ctx req e h (does_not_apply m) c = cc
  Answer-not_err p ctx req e h (match_fails m x y) c =
      under-not_err p.failure_policy (err m) e h (sym y ∙ c)
  Answer-not_err p ctx req e h (match_panics m) c = cc
  Answer-not_err p ctx req e h (applies {r = r} m s y) c =
      under-not_err p.failure_policy r e h (sym y ∙ c)

  Decided-not_err :
      (ctx : R) (req : Request) (e : Error) (ps : List (CompiledVpol Program))
      → All (λ p. (p.failure_policy == fail) ≡ false) ps
      → {o : RequestFunc} → Decided ctx req (map (as_compiled_policy rt) ps) o
      → o ≢ err e
  Decided-not_err ctx req e [] a undecided c = cc
  Decided-not_err ctx req e (p ∷ ps) a (skipped h d) c = Decided-not_err ctx req e ps a.1 d c
  Decided-not_err ctx req e (p ∷ ps) a (decided h n) c =
      Answer-not_err p ctx req e a.0 (for_http-Answer rt p ctx req) (h ∙ c)

  -- When no policy has the failure policy Fail, no error of a policy reaches the client: for a
  -- request and a body that could be read, the handler answers with the reply to what the policies, asked in
  -- their order, decide, and that decision is no error.
  pub handle-ignores_errors :
      (canonical : String → String) (ctx : R) (read : Result (List ℕ) → Result ServerRequest)
      (ps : List (CompiledVpol Program)) (nested : Bool) (r s : ServerRequest) (req : Request)
      → All (λ p. (p.failure_policy == "Fail") ≡ false) ps
      → received read nested r ≡ ok s
      → new_request s ≡ ok req
      → (o : RequestFunc) × Decided ctx req (map (as_compiled_policy rt) ps) o
        × ((e : Error) → o ≢ err e)
        × (finished (handle canonical ctx (ok (map (as_compiled_policy rt) ps)) read nested r fresh)
            ≡ respond canonical o)
  handle-ignores_errors canonical ctx read ps nested r s req a h b =
      let (o, d, reply) =
        handle-Decided canonical ctx read (map (as_compiled_policy rt) ps) nested r s req h b in
      (o, d, λ e. Decided-not_err ctx req e ps a d, reply)
