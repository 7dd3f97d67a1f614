-- ===== src/Admission/Mutation.antt =====
-- What the mutation webhook answers.
use kyverno_http_authorizer.Base.{
  String, Option, none, some, List, [], ◌∷◌, ◌≡◌, refl, Error, ◌⊎◌, inl, inr, true, false,
}
use kyverno_http_authorizer.Sidecar.{Container, Pod, inject}
use kyverno_http_authorizer.Admission.{AdmissionRequest, AdmissionResponse, mutate}

module _ {Bytes Op X : Type 0} (marshal_patch : List Op → Error ⊎ Bytes)
    (unmarshal_pod : Bytes → Error ⊎ Pod X) (marshal_pod : Pod X → Error ⊎ Bytes)
    (create_patch : Bytes → Bytes → Error ⊎ List Op) where
  -- `Patched container raw o`: the outcome `o` of patching the document `raw`: the first error, or the
  -- patch from the document to that of its pod with the container injected, if it has an operation.
  pub data Patched (container : Container) (raw : Bytes) : Error ⊎ Option Bytes → Type 0 where
    no_pod : (e : Error) → unmarshal_pod raw ≡ inl e → Patched container raw (inl e)
    no_document :
        (e : Error) (pod : Pod X)
        → unmarshal_pod raw ≡ inr pod
        → marshal_pod (inject pod container) ≡ inl e
        → Patched container raw (inl e)
    no_patch :
        (e : Error) (pod : Pod X) (bytes : Bytes)
        → unmarshal_pod raw ≡ inr pod
        → marshal_pod (inject pod container) ≡ inr bytes
        → create_patch raw bytes ≡ inl e
        → Patched container raw (inl e)
    unchanged :
        (pod : Pod X) (bytes : Bytes)
        → unmarshal_pod raw ≡ inr pod
        → marshal_pod (inject pod container) ≡ inr bytes
        → create_patch raw bytes ≡ inr []
        → Patched container raw (inr none)
    no_json :
        (e : Error) (pod : Pod X) (bytes : Bytes) (op : Op) (ops : List Op)
        → unmarshal_pod raw ≡ inr pod
        → marshal_pod (inject pod container) ≡ inr bytes
        → create_patch raw bytes ≡ inr (op ∷ ops)
        → marshal_patch (op ∷ ops) ≡ inl e
        → Patched container raw (inl e)
    patched :
        (json : Bytes) (pod : Pod X) (bytes : Bytes) (op : Op) (ops : List Op)
        → unmarshal_pod raw ≡ inr pod
        → marshal_pod (inject pod container) ≡ inr bytes
        → create_patch raw bytes ≡ inr (op ∷ ops)
        → marshal_patch (op ∷ ops) ≡ inr json
        → Patched container raw (inr (some json))

  -- The answer to an outcome.
  abbrev pub answer : String → Error ⊎ Option Bytes → AdmissionResponse Bytes
  answer uid (inl e) = record {
    uid = uid;
    allowed = false;
    status = "Failure";
    message = e;
    patch_type = none;
    patch = none;
  }
  answer uid (inr none) = record {
    uid = uid;
    allowed = true;
    status = "Success";
    message = "";
    patch_type = none;
    patch = none;
  }
  answer uid (inr (some json)) = record {
    uid = uid;
    allowed = true;
    status = "Success";
    message = "";
    patch_type = some "JSONPatch";
    patch = some json;
  }

  abbrev Answered : Container → AdmissionRequest Bytes → Type 0
  Answered c r =
      (o : Error ⊎ Option Bytes) × Patched c r.object o
      × (mutate marshal_patch unmarshal_pod marshal_pod create_patch c r ≡ answer r.uid o)

  module _ (c : Container) (r : AdmissionRequest Bytes) where
    of_json :
        (pod : Pod X) (bytes : Bytes) (op : Op) (ops : List Op) (o : Error ⊎ Bytes)
        → unmarshal_pod r.object ≡ inr pod
        → marshal_pod (inject pod c) ≡ inr bytes
        → create_patch r.object bytes ≡ inr (op ∷ ops)
        → marshal_patch (op ∷ ops) ≡ o
        → Answered c r
    unfolding mutate
    of_json pod bytes op ops (inl e) u m p j =
        (inl e, no_json e pod bytes op ops u m p j, rw (u, m, p, j, mutate))
    of_json pod bytes op ops (inr json) u m p j =
        (inr (some json), patched json pod bytes op ops u m p j, rw (u, m, p, j, mutate))

    of_patch :
        (pod : Pod X) (bytes : Bytes) (o : Error ⊎ List Op)
        → unmarshal_pod r.object ≡ inr pod
        → marshal_pod (inject pod c) ≡ inr bytes
        → create_patch r.object bytes ≡ o
        → Answered c r
    unfolding mutate
    of_patch pod bytes (inl e) u m p = (inl e, no_patch e pod bytes u m p, rw (u, m, p, mutate))
    of_patch pod bytes (inr []) u m p = (inr none, unchanged pod bytes u m p, rw (u, m, p, mutate))
    of_patch pod bytes (inr (op ∷ ops)) u m p =
        of_json pod bytes op ops (marshal_patch (op ∷ ops)) u m p refl

    of_document :
        (pod : Pod X) (o : Error ⊎ Bytes)
        → unmarshal_pod r.object ≡ inr pod
        → marshal_pod (inject pod c) ≡ o
        → Answered c r
    unfolding mutate
    of_document pod (inl e) u m = (inl e, no_document e pod u m, rw (u, m, mutate))
    of_document pod (inr bytes) u m = of_patch pod bytes (create_patch r.object bytes) u m refl

    of_pod : (o : Error ⊎ Pod X) → unmarshal_pod r.object ≡ o → Answered c r
    unfolding mutate
    of_pod (inl e) u = (inl e, no_pod e u, rw (u, mutate))
    of_pod (inr pod) u = of_document pod (marshal_pod (inject pod c)) u refl

  -- The mutation webhook answers each request with its own UID. If a step fails, the admission is
  -- denied, with status Failure and the text of the first error; else the pod is admitted, with status Success and the patch that injects the sidecar, or without a patch
  -- if there is nothing to change.
  pub mutate-Patched :
      (c : Container) (r : AdmissionRequest Bytes)
      → (o : Error ⊎ Option Bytes) × Patched c r.object o
        × (mutate marshal_patch unmarshal_pod marshal_pod create_patch c r ≡ answer r.uid o)
  mutate-Patched c r = of_pod c r (unmarshal_pod r.object) refl
