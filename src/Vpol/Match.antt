-- ===== src/Vpol/Match.antt =====
-- Match conditions: when a policy applies to a request.
use kyverno_http_authorizer.Base.{
  some, List, [], ◌∷◌, ◌++◌, map, ◌≡◌, refl, ap, ◌∙◌, ◌≢◌, Bool, true, false, Result, ok, err,
  panic, Error, if◌then◌else◌, All, is_some, append_assoc, append-nil, Option-cases, inl, inr,
}
use kyverno_http_authorizer.Http.{Request}
use kyverno_http_authorizer.Vpol.Runtime.{Activation, Runtime, IsCombine}
use kyverno_http_authorizer.Vpol.Policy.{
  CompiledVpol, eval_condition, combined, match_loop, match_all, match_data,
}

-- Whether some outcome is false, and the errors among the outcomes, in order.
abbrev pub any_false : List (Result Bool) → Bool
any_false [] = false
any_false (ok true ∷ os) = any_false os
any_false (ok false ∷ os) = true
any_false (err e ∷ os) = any_false os
any_false (panic ∷ os) = any_false os

abbrev pub errors : List (Result Bool) → List Error
errors [] = []
errors (ok b ∷ os) = errors os
errors (err e ∷ os) = e ∷ errors os
errors (panic ∷ os) = errors os

module _ {R : Type 0} (rt : Runtime R) where
  open rt use {Program, combine}

  module _ (act : Activation R Program) where
    abbrev pub outcomes : List Program → List (Result Bool)
    outcomes = map (λ c. eval_condition rt c act)

    abbrev Outcome : List Error → List Program → Type 0
    Outcome errs cs =
        match_loop rt act errs cs
        ≡ (if any_false (outcomes cs) then ok false else combined rt (errs ++ errors (outcomes cs)))

    match_step :
        (errs : List Error) (c : Program) (cs : List Program) (o : Result Bool)
        → eval_condition rt c act ≡ o
        → o ≢ panic
        → ((es : List Error) → Outcome es cs)
        → Outcome errs (c ∷ cs)
    unfolding match_loop
    match_step errs c cs (ok true) e n ih = rw (e, match_loop) (ih errs)
    match_step errs c cs (ok false) e n ih = rw (e, match_loop)
    match_step errs c cs (err m) e n ih =
        rw (e, match_loop)
          (ih (errs ++ m ∷ []) ∙ rw (append_assoc errs (m ∷ []) (errors (outcomes cs))))
    match_step errs c cs panic e n ih = absurd (n refl)

    -- The loop returns false if some condition is false, whatever errors stand before or after it,
    -- and else the errors combined.
    match_loop-outcomes :
        (cs : List Program) (errs : List Error)
        → All (λ o. o ≢ panic) (outcomes cs)
        → Outcome errs cs
    unfolding match_loop
    match_loop-outcomes [] errs n = rw (append-nil errs)
    match_loop-outcomes (c ∷ cs) errs n =
        match_step errs c cs (eval_condition rt c act) refl n.0
          (λ es. match_loop-outcomes cs es n.1)

  combined_cons :
      IsCombine combine
      → (e : Error) (es : List Error)
      → (m : Error) × (combine (e ∷ es) ≡ some m) × (combined rt (e ∷ es) ≡ err m)
  combined_cons law e es = elim (Option-cases (combine (e ∷ es))) [
    | inl h ↦ absurd (cc (law.combine_cons e es, ap is_some h))
    | inr (m, h) ↦ (m, h, rw (h, combined))
  ]

  -- What a policy's match conditions say of a request, when none of them panics. If one is false, the
  -- policy does not apply, whatever errors stand before or after it. If none is false, the policy
  -- applies when none failed, and matching fails with the combined errors when some did.
  pub match_all_cases :
      IsCombine combine
      → (p : CompiledVpol Program) (req : Request)
      → let os = outcomes (match_data rt req) p.match_conditions in
        All (λ o. o ≢ panic) os
        → (any_false os ≡ true → match_all rt p req ≡ ok false)
          × (any_false os ≡ false → errors os ≡ [] → match_all rt p req ≡ ok true)
          × ((e : Error) (es : List Error)
              → any_false os ≡ false
              → errors os ≡ e ∷ es
              → (m : Error) × (combine (e ∷ es) ≡ some m) × (match_all rt p req ≡ err m))
  unfolding match_all
  match_all_cases law p req n =
      let run = match_loop-outcomes (match_data rt req) p.match_conditions [] n in
      (
        λ f. run ∙ rw f,
        λ f h. run ∙ rw (f, h, law.combine_nil, combined),
        λ e es f h. let (m, c, r) = combined_cons law e es in (m, c, run ∙ rw (f, h) r),
      )
