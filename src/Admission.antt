-- ===== src/Admission.antt =====
-- pkg/server/handlers/admission.go, and the handler of pkg/webhook/mutation/sidecar-injector.go. JSON
-- and its patches are parameters; `Bytes` and `Op` are a document and an operation of a patch.
pub mod Mutation
pub mod Review
use kyverno_http_authorizer.Base.{
  ℕ, String, Option, none, some, List, [], ◌∷◌, Bool, true, false, not, Error, ◌⊎◌, inl, inr, ◌==◌,
  is_empty, if◌then◌else◌,
}
use kyverno_http_authorizer.Sidecar.{Container, Pod, inject}

pub record AdmissionRequest (Bytes : Type 0) : Type 0 where
  pub uid : String
  pub object : Bytes

pub record AdmissionResponse (Bytes : Type 0) : Type 0 where
  pub uid : String
  pub allowed : Bool
  pub status : String
  pub message : String
  pub patch_type : Option String
  pub patch : Option Bytes

module _ {Bytes Op : Type 0} (marshal_patch : List Op → Error ⊎ Bytes) where
  abbrev pub denied : String → Error → AdmissionResponse Bytes
  denied uid e = record {
    uid = uid;
    allowed = false;
    status = "Failure";
    message = e;
    patch_type = none;
    patch = none;
  }

  abbrev pub allowed_with : String → Option Bytes → AdmissionResponse Bytes
  allowed_with uid none = record {
    uid = uid;
    allowed = true;
    status = "Success";
    message = "";
    patch_type = none;
    patch = none;
  }
  allowed_with uid (some bytes) = record {
    uid = uid;
    allowed = true;
    status = "Success";
    message = "";
    patch_type = some "JSONPatch";
    patch = some bytes;
  }

  abbrev marshalled : String → Error ⊎ Bytes → AdmissionResponse Bytes
  marshalled uid (inl e) = denied uid e
  marshalled uid (inr bytes) = allowed_with uid (some bytes)

  -- AdmissionResponse
  unfoldable pub admission_response :
      AdmissionRequest Bytes → Option Error → List Op → AdmissionResponse Bytes
  admission_response r (some e) patch = denied r.uid e
  admission_response r none [] = allowed_with r.uid none
  admission_response r none (op ∷ ops) = marshalled r.uid (marshal_patch (op ∷ ops))

  module _ {X : Type 0} (unmarshal_pod : Bytes → Error ⊎ Pod X)
      (marshal_pod : Pod X → Error ⊎ Bytes) (create_patch : Bytes → Bytes → Error ⊎ List Op) where
    -- The handler of "/mutate".
    unfoldable pub mutate : Container → AdmissionRequest Bytes → AdmissionResponse Bytes
    unfolding admission_response inject
    mutate container r = elim (unmarshal_pod r.object) [
      | inl e ↦ admission_response r (some e) []
      | inr pod ↦ elim (marshal_pod (inject pod container)) [
        | inl e ↦ admission_response r (some e) []
        | inr bytes ↦ elim (create_patch r.object bytes) [
          | inl e ↦ admission_response r (some e) []
          | inr patch ↦ admission_response r none patch
        ]
      ]
    ]

    -- The same on the request of a review, which may be nil: none if it panics, as it reads the request's object.
    abbrev pub mutate_nilable :
        Container → Option (AdmissionRequest Bytes) → Option (AdmissionResponse Bytes)
    mutate_nilable container none = none
    mutate_nilable container (some r) = some (mutate container r)

-- What AdmissionReview's handler writes: an error with its code, or a review, or, where the write of the review
-- fails, an error with its code behind it; or it panics.
pub data Reviewed (Bytes : Type 0) : Type 0 where
  http_error : Error → ℕ → Reviewed Bytes
  reviewed : Bytes → Reviewed Bytes
  write_error : Bytes → Error → ℕ → Reviewed Bytes
  panicked : Reviewed Bytes

-- AdmissionReview: `body` is the request's body, and what io.ReadAll returns on it; `content_type` is
-- its header. A review may hold no request, and `inner` is none where it panics. `write` is
-- the error of the response writer on a review.
unfoldable pub admission_review :
    {Bytes : Type 0}
    → (Bytes → Error ⊎ Option (AdmissionRequest Bytes))
    → (Option (AdmissionRequest Bytes) → AdmissionResponse Bytes → Error ⊎ Bytes)
    → (Option (AdmissionRequest Bytes) → Option (AdmissionResponse Bytes))
    → (Bytes → Option Error)
    → Option (Error ⊎ Bytes)
    → String
    → Reviewed Bytes
admission_review unmarshal marshal inner write body content_type = elim body [
  | none ↦ http_error "empty body" 400
  | some read ↦ elim read [
    | inl e ↦ http_error e 400
    | inr bytes ↦
        if not (content_type == "application/json")
        then http_error "invalid Content-Type" 415
        else elim (unmarshal bytes) [
          | inl e ↦ http_error e 417
          | inr r ↦ elim (inner r) [
            | none ↦ panicked
            | some response ↦ elim (marshal r response) [
              | inl e ↦ http_error e 500
              | inr json ↦ elim (write json) [
                | some e ↦ write_error json e 500
                | none ↦ reviewed json
              ]
            ]
          ]
        ]
  ]
]
