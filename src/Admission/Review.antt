-- ===== src/Admission/Review.antt =====
-- When AdmissionReview's handler answers with a review, and when it panics.
use kyverno_http_authorizer.Base.{
  String, Option, none, some, ◌≡◌, ◌↔◌, refl, sym, ap, ◌∙◌, true, Error, ◌⊎◌, inl, inr, ◌==◌,
  Bool-cases, Option-cases,
}
use kyverno_http_authorizer.Admission.{
  AdmissionRequest, AdmissionResponse, Reviewed, reviewed, panicked, admission_review,
}

module _ {Bytes : Type 0} (unmarshal : Bytes → Error ⊎ Option (AdmissionRequest Bytes))
    (marshal : Option (AdmissionRequest Bytes) → AdmissionResponse Bytes → Error ⊎ Bytes)
    (inner : Option (AdmissionRequest Bytes) → Option (AdmissionResponse Bytes))
    (write : Bytes → Option Error) where
  -- The body was read, is declared to be JSON and is a review of `request`.
  pub record Holds (body : Option (Error ⊎ Bytes)) (content_type : String)
      (request : Option (AdmissionRequest Bytes)) : Type 0 where
    pub bytes : Bytes
    pub was_read : body ≡ some (inr bytes)
    pub is_json : (content_type == "application/json") ≡ true
    pub was_review : unmarshal bytes ≡ inr request

  -- And `json` is the review with the answer of `inner`.
  pub record Reviews (body : Option (Error ⊎ Bytes)) (content_type : String) (json : Bytes)
      : Type 0 where
    pub request : Option (AdmissionRequest Bytes)
    pub response : AdmissionResponse Bytes
    pub holds : Holds body content_type request
    pub was_answered : inner request ≡ some response
    pub was_marshalled : marshal request response ≡ inr json
    pub was_written : write json ≡ none

  -- Or `inner` panics.
  abbrev pub Panics : Option (Error ⊎ Bytes) → String → Type 0
  Panics body t =
      (request : Option (AdmissionRequest Bytes)) × Holds body t request × (inner request ≡ none)

  abbrev review : Option (Error ⊎ Bytes) → String → Reviewed Bytes
  review = admission_review unmarshal marshal inner write

  -- What an outcome says about the request.
  abbrev Says : Option (Error ⊎ Bytes) → String → Reviewed Bytes → Type 0
  Says body t o =
      ((json : Bytes) → o ≡ reviewed json → Reviews body t json) × (o ≡ panicked → Panics body t)

  of_write :
      (bytes : Bytes) (t : String) (r : Option (AdmissionRequest Bytes))
      (a : AdmissionResponse Bytes) (j : Bytes) (w : Option Error)
      → Holds (some (inr bytes)) t r
      → unmarshal bytes ≡ inr r
      → inner r ≡ some a
      → marshal r a ≡ inr j
      → write j ≡ w
      → Says (some (inr bytes)) t (review (some (inr bytes)) t)
  unfolding admission_review
  of_write bytes t r a j (some e) k u i m w = rw (k.is_json, u, i, m, w) (λ json h. cc, λ h. cc)
  of_write bytes t r a j none k u i m w =
      rw (k.is_json, u, i, m, w)
        (
          λ json h.
              let same : j ≡ json = cc in
              record {
                request = r;
                response = a;
                holds = k;
                was_answered = i;
                was_marshalled = cc (m, same);
                was_written = ap write (sym same) ∙ w;
              },
          λ h. cc,
        )

  of_response :
      (bytes : Bytes) (t : String) (r : Option (AdmissionRequest Bytes))
      (a : AdmissionResponse Bytes) (o : Error ⊎ Bytes)
      → Holds (some (inr bytes)) t r
      → unmarshal bytes ≡ inr r
      → inner r ≡ some a
      → marshal r a ≡ o
      → Says (some (inr bytes)) t (review (some (inr bytes)) t)
  unfolding admission_review
  of_response bytes t r a (inl e) k u i m = rw (k.is_json, u, i, m) (λ json h. cc, λ h. cc)
  of_response bytes t r a (inr j) k u i m = of_write bytes t r a j (write j) k u i m refl

  of_review :
      (bytes : Bytes) (t : String) (o : Error ⊎ Option (AdmissionRequest Bytes))
      → (t == "application/json") ≡ true
      → unmarshal bytes ≡ o
      → Says (some (inr bytes)) t (review (some (inr bytes)) t)
  unfolding admission_review
  of_review bytes t (inl e) c u = rw (c, u) (λ json h. cc, λ h. cc)
  of_review bytes t (inr r) c u =
      let k : Holds (some (inr bytes)) t r = record {
        bytes = bytes;
        was_read = refl;
        is_json = c;
        was_review = u;
      } in
      elim (Option-cases (inner r)) [
        | inl n ↦ rw (c, u, n) (λ json h. cc, λ h. (r, k, n))
        | inr (a, i) ↦ of_response bytes t r a (marshal r a) k u i refl
      ]

  sound : (body : Option (Error ⊎ Bytes)) (t : String) → Says body t (review body t)
  unfolding admission_review
  sound none t = (λ json h. cc, λ h. cc)
  sound (some (inl e)) t = (λ json h. cc, λ h. cc)
  sound (some (inr bytes)) t = elim (Bool-cases (t == "application/json")) [
    | inl c ↦ of_review bytes t (unmarshal bytes) c refl
    | inr c ↦ rw c (λ json h. cc, λ h. cc)
  ]

  complete :
      (body : Option (Error ⊎ Bytes)) (t : String) (json : Bytes)
      → Reviews body t json
      → review body t ≡ reviewed json
  unfolding admission_review
  complete body t json k = rw (
    k.holds.was_read, k.holds.is_json, k.holds.was_review, k.was_answered, k.was_marshalled,
    k.was_written, admission_review,
  )

  panics : (body : Option (Error ⊎ Bytes)) (t : String) → Panics body t → review body t ≡ panicked
  unfolding admission_review
  panics body t (r, k, n) = rw (k.was_read, k.is_json, k.was_review, n, admission_review)

  -- The handler answers with a review exactly when the request has a body that can be read, is declared
  -- to be JSON and is a review, the inner handler answers its request, and the review with that answer
  -- can be marshalled and written; that review is the answer. It panics exactly when the body is such a review,
  -- and the inner handler panics on its request.
  pub admission_review_iff :
      (body : Option (Error ⊎ Bytes)) (content_type : String) (json : Bytes)
      → ((admission_review unmarshal marshal inner write body content_type ≡ reviewed json)
          ↔ Reviews body content_type json)
        × ((admission_review unmarshal marshal inner write body content_type ≡ panicked)
            ↔ Panics body content_type)
  admission_review_iff body t json =
      (((sound body t).0 json, complete body t json), ((sound body t).1, panics body t))
