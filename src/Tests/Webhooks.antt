-- ===== src/Tests/Webhooks.antt =====
-- The theorems on the webhooks and on rejected policies, at concrete policies and pods.
use kyverno_http_authorizer.Base.{
  ℕ, String, Option, none, some, List, [], ◌∷◌, ◌≡◌, ◌↔◌, refl, ◌⊎◌, inl, inr, Error,
}
use kyverno_http_authorizer.Policy
use kyverno_http_authorizer.Sidecar.{Container, Pod, sidecar, inject}
use kyverno_http_authorizer.Sidecar.Injection.{Injected, inject_lem}
use kyverno_http_authorizer.Validator.{
  validating_policy, compile_errors, validate_create, validate_update,
}
use kyverno_http_authorizer.Validator.Admits.{HasHttpMode, validate_create_iff}
use kyverno_http_authorizer.Admission.{
  AdmissionRequest, AdmissionResponse, mutate, mutate_nilable, admission_review, reviewed, panicked,
}
use kyverno_http_authorizer.Admission.Mutation.{Patched, answer, mutate-Patched}
use kyverno_http_authorizer.Admission.Review.{Reviews, Panics, admission_review_iff}
use kyverno_http_authorizer.Vpol.Compiler.{FieldError, invalid, rejected, compile_policy}
use kyverno_http_authorizer.Vpol.Compiler.Located.{Located, compile_policy-Located}
use kyverno_http_authorizer.Tests.Data.{script_env, deny_all, rule}

-- A policy whose second validation is no expression.
abbrev misspelt : Policy.ValidatingPolicy
misspelt = record deny_all {
  spec = record (deny_all.spec) { validations = rule "deny" ∷ rule "dney" ∷ [] };
}

abbrev misspelt_error : FieldError
misspelt_error = invalid "validations" 1 "dney" "syntax error"

misspelt_rejected : compile_policy script_env misspelt ≡ rejected (misspelt_error ∷ [])
unfolding compile_policy
misspelt_rejected = refl

compile_policy-Located_example :
    (e : FieldError) × (misspelt_error ∷ [] ≡ e ∷ []) × Located misspelt e
compile_policy-Located_example =
    compile_policy-Located script_env misspelt (misspelt_error ∷ []) misspelt_rejected

abbrev compile_vpol : Policy.ValidatingPolicy → List FieldError
compile_vpol p = compile_errors (compile_policy script_env p)

validate_create_iff_example :
    ((validate_create compile_vpol (validating_policy misspelt) ≡ none) ↔ (
      (p : Policy.ValidatingPolicy) × (validating_policy misspelt ≡ validating_policy p)
      × (HasHttpMode p → compile_vpol p ≡ [])))
    × (validate_update compile_vpol (validating_policy deny_all) (validating_policy misspelt)
        ≡ validate_create compile_vpol (validating_policy misspelt))
validate_create_iff_example =
    validate_create_iff compile_vpol (validating_policy deny_all) (validating_policy misspelt)

abbrev injected : Container
injected = sidecar "authz:1" "control-plane:9081" "3s" "8s" "30s"

abbrev application : Container
application = record {
  name = "app";
  image_pull_policy = "Always";
  image = "app:1";
  ports = [];
  args = [];
  env = [];
}

abbrev pod : Pod ℕ
pod = record { containers = application ∷ []; others = 0 }

injected_last : (inject pod injected).containers ≡ application ∷ injected ∷ []
unfolding inject sidecar
injected_last = refl

inject_lem_example :
    Injected injected pod.containers (inject pod injected).containers
    × ((inject pod injected).others ≡ 0)
    × (inject (inject pod injected) injected ≡ inject pod injected)
inject_lem_example = inject_lem pod injected

-- Documents in place of JSON: a pod, a patch, and the review of a request by its UID.
data Document : Type 0 where
  pod_document : Pod ℕ → Document
  patch_document : List String → Document
  review_document : String → Document

abbrev read_pod : Document → Error ⊎ Pod ℕ
read_pod (pod_document p) = inr p
read_pod (patch_document ops) = inl "no pod"
read_pod (review_document r) = inl "no pod"

abbrev write_pod : Pod ℕ → Error ⊎ Document
write_pod p = inr (pod_document p)

abbrev write_patch : List String → Error ⊎ Document
write_patch ops = inr (patch_document ops)

abbrev one_patch : Document → Document → Error ⊎ List String
one_patch old new = inr ("replace" ∷ [])

abbrev asked : AdmissionRequest Document
asked = record { uid = "42"; object = pod_document pod }

mutate-Patched_example :
    (o : Error ⊎ Option Document) × Patched write_patch read_pod write_pod one_patch injected
      asked.object o
    × (mutate write_patch read_pod write_pod one_patch injected asked
        ≡ answer write_patch read_pod write_pod one_patch asked.uid o)
mutate-Patched_example = mutate-Patched write_patch read_pod write_pod one_patch injected asked

-- A review holds a pod; a document of another kind is a review without a request.
abbrev read_request : Document → Error ⊎ Option (AdmissionRequest Document)
read_request (pod_document p) = inr (some (record { uid = "42"; object = pod_document p }))
read_request (patch_document ops) = inr none
read_request (review_document r) = inr none

abbrev write_review :
    Option (AdmissionRequest Document) → AdmissionResponse Document → Error ⊎ Document
write_review r a = inr (review_document a.uid)

abbrev respond_to : Option (AdmissionRequest Document) → Option (AdmissionResponse Document)
respond_to = mutate_nilable write_patch read_pod write_pod one_patch injected

abbrev admitted : Document
admitted = review_document "42"

-- Every write succeeds.
abbrev written : Document → Option Error
written json = none

admitted_review :
    admission_review read_request write_review respond_to written
      (some (inr (pod_document pod)))
      "application/json"
    ≡ reviewed admitted
unfolding admission_review mutate inject
admitted_review = refl

no_request :
    admission_review read_request write_review respond_to written
      (some (inr admitted))
      "application/json"
    ≡ panicked
unfolding admission_review
no_request = refl

admission_review_iff_example :
    ((admission_review read_request write_review respond_to written
          (some (inr (pod_document pod)))
          "application/json"
        ≡ reviewed admitted)
      ↔ Reviews read_request write_review respond_to written
          (some (inr (pod_document pod)))
          "application/json"
          admitted)
    × ((admission_review read_request write_review respond_to written
            (some (inr (pod_document pod)))
            "application/json"
          ≡ panicked)
        ↔ Panics read_request write_review respond_to written
            (some (inr (pod_document pod)))
            "application/json")
admission_review_iff_example =
    admission_review_iff read_request write_review respond_to written
      (some (inr (pod_document pod))) "application/json" admitted
