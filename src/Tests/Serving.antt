-- ===== src/Tests/Serving.antt =====
-- The theorems on the handler, at concrete requests.
use kyverno_http_authorizer.Base.{
  String, some, List, [], ◌∷◌, map, ◌≡◌, refl, ◌≢◌, inl, true, false, ok, err, Error,
}
use kyverno_http_authorizer.GoMap.{lookup}
use kyverno_http_authorizer.Http.{new_request}
use kyverno_http_authorizer.Engine.{RequestFunc, CompiledPolicy}
use kyverno_http_authorizer.Writer.{fresh, finish}
use kyverno_http_authorizer.Authorizer.{handle, set_headers, write_response}
use kyverno_http_authorizer.Authorizer.Headers.{lookup-set_headers}
use kyverno_http_authorizer.Authorizer.Decision.{
  Decided, finished, respond, handle-Decided, handle-err,
}
use kyverno_http_authorizer.Vpol.Policy.{
  as_compiled_policy, for_http, match_all, rules_loop, evaluate_http, eval_condition,
}
use kyverno_http_authorizer.Vpol.Failure.{handle-ignores_errors}
use kyverno_http_authorizer.Tests.Data.{
  scripts, compiled_deny_all, failing, get_request, checked_request, no_nested,
}

abbrev pub no_change : String → String
no_change k = k

abbrev policies : List (CompiledPolicy Unit)
policies =
    as_compiled_policy scripts (failing "Ignore")
    ∷ as_compiled_policy scripts compiled_deny_all
    ∷ as_compiled_policy scripts (failing "Fail")
    ∷ []

-- The policy that fails under Ignore is passed over, and the one behind it denies.
denied :
    finished (handle no_change tt (ok policies) no_nested false get_request fresh)
    ≡ ok (record { code = 403; fields = []; text = "denied" })
unfolding handle for_http finish new_request match_all rules_loop evaluate_http eval_condition
    write_response
denied = refl

handle-Decided_example :
    (o : RequestFunc) × Decided tt checked_request policies o
    × (finished (handle no_change tt (ok policies) no_nested false get_request fresh)
        ≡ respond no_change o)
unfolding new_request
handle-Decided_example =
    handle-Decided no_change tt no_nested policies false get_request get_request checked_request
      refl refl

handle-err_example :
    finished (handle no_change tt (ok policies) no_nested true get_request fresh)
    ≡ respond no_change (err "malformed HTTP request")
handle-err_example =
    handle-err no_change tt no_nested (ok policies) true get_request "malformed HTTP request"
      (inl refl)

handle-ignores_errors_example :
    let ps = map (as_compiled_policy scripts) (failing "Ignore" ∷ failing "Ignore" ∷ []) in
    (o : RequestFunc) × Decided tt checked_request ps o
    × ((e : Error) → o ≢ err e)
    × (finished (handle no_change tt (ok ps) no_nested false get_request fresh)
        ≡ respond no_change o)
unfolding new_request
handle-ignores_errors_example =
    handle-ignores_errors scripts no_change tt no_nested (failing "Ignore" ∷ failing "Ignore" ∷ [])
      false get_request get_request checked_request (refl, (refl, tt)) refl refl

-- Of two values of a header only the last is sent.
lookup-set_headers_example :
    lookup "Set-Cookie"
      (set_headers no_change (("Set-Cookie", "a=1" ∷ "b=2" ∷ []) ∷ []) fresh).header
    ≡ some ("b=2" ∷ [])
unfolding lookup
lookup-set_headers_example =
    lookup-set_headers no_change "Set-Cookie" "a=1" ("b=2" ∷ [])
      (("Set-Cookie", "a=1" ∷ "b=2" ∷ []) ∷ []) fresh (refl, tt) (λ j b c. c) refl
