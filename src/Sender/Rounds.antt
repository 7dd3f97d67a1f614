-- ===== src/Sender/Rounds.antt =====
-- The rounds of one stream: what is sent on it, and how its handler returns.
use kyverno_http_authorizer.Base.{List, [], ◌∷◌, ◌++◌, map, ◌≡◌, refl, subst, ◌∙◌, ok}
use kyverno_http_authorizer.Proto
use kyverno_http_authorizer.Stream.{map_to_sorted_slice}
use kyverno_http_authorizer.Sender.{
  PolicySender, Round, cancelled, requested, closed, failed, Returned, returned_nil, returned_err,
  waiting, validating_policies_stream,
}
use kyverno_http_authorizer.Sender.Invariant.{
  Consistent, requested_state, requested_state-Consistent, stream_request-sorted,
  policies-requested_state,
}

-- How the handler returns.
abbrev pub ending : List Round → Returned
ending [] = waiting
ending (cancelled ∷ rounds) = returned_nil
ending (closed ∷ rounds) = returned_nil
ending (failed e ∷ rounds) = returned_err e
ending (requested req ∷ rounds) = ending rounds

module _ {S : Type 0} (stream : S) where
  -- The policies, once for each request before the first round that is none.
  abbrev pub answers : List Proto.ValidatingPolicy → List Round → List (S × Proto.ValidatingPolicy)
  answers pols [] = []
  answers pols (cancelled ∷ rounds) = []
  answers pols (closed ∷ rounds) = []
  answers pols (failed e ∷ rounds) = []
  answers pols (requested req ∷ rounds) = map (λ pol. (stream, pol)) pols ++ answers pols rounds

  abbrev Serves : List Round → PolicySender S → List Proto.ValidatingPolicy → Type 0
  Serves rounds s pols =
      (t : PolicySender S) × (validating_policies_stream stream rounds s
        ≡ ok (ending rounds, answers pols rounds, t))
      × Consistent t
      × (t.policies ≡ s.policies)

  serve_request :
      (req : Proto.ValidatingPolicyStreamRequest) (rounds : List Round) (s : PolicySender S)
      → Consistent s
      → Serves rounds (requested_state stream req s) (map_to_sorted_slice s.policies)
      → Serves (requested req ∷ rounds) s (map_to_sorted_slice s.policies)
  unfolding validating_policies_stream
  serve_request req rounds s k (t, e, c, p) = (
    t,
    rw (stream_request-sorted stream req s k, e),
    c,
    p ∙ policies-requested_state stream req s,
  )

  -- On a stream each request is answered with the sorted slice of all the policies, until the context
  -- is done, the client closes the stream, or Recv fails: then the handler returns nil, nil and that
  -- error. It never panics, and it leaves the policies as they are and the sender consistent.
  pub validating_policies_stream_lem :
      (rounds : List Round) (s : PolicySender S)
      → Consistent s
      → (t : PolicySender S) × (validating_policies_stream stream rounds s
          ≡ ok (ending rounds, answers (map_to_sorted_slice s.policies) rounds, t))
        × Consistent t
        × (t.policies ≡ s.policies)
  unfolding validating_policies_stream
  validating_policies_stream_lem [] s k = (s, refl, k, refl)
  validating_policies_stream_lem (cancelled ∷ rounds) s k = (s, refl, k, refl)
  validating_policies_stream_lem (closed ∷ rounds) s k = (s, refl, k, refl)
  validating_policies_stream_lem (failed e ∷ rounds) s k = (s, refl, k, refl)
  validating_policies_stream_lem (requested req ∷ rounds) s k =
      let u : PolicySender S = requested_state stream req s in
      serve_request req rounds s k (
        subst (λ ps. Serves rounds u (map_to_sorted_slice ps))
          (policies-requested_state stream req s)
          (validating_policies_stream_lem rounds u (requested_state-Consistent stream req s k)))
