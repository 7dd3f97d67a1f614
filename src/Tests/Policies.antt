-- ===== src/Tests/Policies.antt =====
-- The theorems on compiling policies and on what they answer, at concrete policies.
use kyverno_http_authorizer.Base.{some, List, [], ◌∷◌, ◌≡◌, refl, ◌↔◌, true, false, ok, err, Error}
use kyverno_http_authorizer.Policy
use kyverno_http_authorizer.Api.{to_proto, from_proto}
use kyverno_http_authorizer.Api.RoundTrip.{sent, from_proto-to_proto}
use kyverno_http_authorizer.Vpol.Policy.{
  CompiledVpol, for_http, match_all, match_data, eval_condition, rules_loop, evaluate_http,
}
use kyverno_http_authorizer.Vpol.Match.{outcomes, any_false, errors, match_all_cases}
use kyverno_http_authorizer.Vpol.Rules.{Answer, for_http-Answer}
use kyverno_http_authorizer.Vpol.Compiler.{compile_in, compile_policy, accepted}
use kyverno_http_authorizer.Vpol.Compiler.Spec.{PolicyCompiles, compile_in_iff}
use kyverno_http_authorizer.Vpol.Compiler.Sent.{with_failure_policy, compile_policy-sent}
use kyverno_http_authorizer.Tests.Data.{
  Script, says, fails, scripts, script_env, deny_all, compiled_deny_all, failing, checked_request,
  first_error, first_error-IsCombine, denial,
}

-- The denying policy compiles, and denies.
deny_all_compiles : compile_policy script_env deny_all ≡ accepted compiled_deny_all
unfolding compile_policy
deny_all_compiles = refl

deny_all_denies : for_http scripts compiled_deny_all tt checked_request ≡ ok (some denial)
unfolding for_http match_all eval_condition rules_loop evaluate_http
deny_all_denies = refl

for_http-Answer_example :
    Answer scripts compiled_deny_all tt checked_request
      (for_http scripts compiled_deny_all tt checked_request)
for_http-Answer_example = for_http-Answer scripts compiled_deny_all tt checked_request

compile_in_iff_example :
    (compile_in script_env tt tt deny_all ≡ accepted compiled_deny_all)
    ↔ PolicyCompiles script_env tt tt deny_all compiled_deny_all
compile_in_iff_example = compile_in_iff script_env tt tt deny_all compiled_deny_all

abbrev mixed : CompiledVpol Script
mixed = record (failing "Ignore") {
  match_conditions = says true ∷ fails "no such key" ∷ says true ∷ [];
}

match_all_cases_example :
    let os = outcomes scripts (match_data scripts checked_request) mixed.match_conditions in
    (any_false os ≡ true → match_all scripts mixed checked_request ≡ ok false)
    × (any_false os ≡ false → errors os ≡ [] → match_all scripts mixed checked_request ≡ ok true)
    × ((e : Error) (es : List Error)
        → any_false os ≡ false
        → errors os ≡ e ∷ es
        → (m : Error) × (first_error (e ∷ es) ≡ some m)
          × (match_all scripts mixed checked_request ≡ err m))
unfolding eval_condition
match_all_cases_example =
    match_all_cases scripts first_error-IsCombine mixed checked_request
      (λ h. cc, (λ h. cc, (λ h. cc, tt)))

from_proto-to_proto_example : from_proto (to_proto deny_all) ≡ ok (sent deny_all)
from_proto-to_proto_example = from_proto-to_proto deny_all

compile_policy-sent_example :
    (q : Policy.ValidatingPolicy) × (from_proto (to_proto deny_all) ≡ ok q)
    × (compile_policy script_env q
        ≡ with_failure_policy script_env "Ignore" (compile_policy script_env deny_all))
compile_policy-sent_example = compile_policy-sent script_env (λ q fp h. rw h) deny_all
