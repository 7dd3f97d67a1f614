-- ===== src/Engine/Composite.antt =====
-- The composite provider concatenates its providers and stops at the first that fails.
use kyverno_http_authorizer.Base.{
  List, [], ◌∷◌, ◌++◌, ◌≡◌, refl, sym, ap, ◌∙◌, Result, ok, err, panic, ◌>>=◌, append_assoc,
  append-nil,
}
use kyverno_http_authorizer.Engine.{CompiledPolicy, Provider, collect, composite}

module _ {A : Type 0} where
  prepend_twice :
      (out c : List A) (r : Result (List A))
      → (r >>= λ d. ok ((out ++ c) ++ d)) ≡ (r >>= (λ d. ok (c ++ d)) >>= λ x. ok (out ++ x))
  prepend_twice out c (ok d) = rw (append_assoc out c d)
  prepend_twice out c (err e) = refl
  prepend_twice out c panic = refl

  join_results :
      (c : List A) (r s : Result (List A))
      → (r >>= (λ xs. s >>= λ ys. ok (xs ++ ys)) >>= λ d. ok (c ++ d))
        ≡ (r >>= (λ d. ok (c ++ d)) >>= λ xs. s >>= λ ys. ok (xs ++ ys))
  join_results c (ok xs) (ok ys) = rw (append_assoc c xs ys)
  join_results c (ok xs) (err e) = refl
  join_results c (ok xs) panic = refl
  join_results c (err e) s = refl
  join_results c panic s = refl

  append_nothing : (r : Result (List A)) → r ≡ (r >>= λ ys. ok ([] ++ ys))
  append_nothing (ok ys) = refl
  append_nothing (err e) = refl
  append_nothing panic = refl

module _ {R : Type 0} where
  collect-composite :
      (out : List (CompiledPolicy R)) (ps : List (Provider R))
      → collect out ps ≡ (collect [] ps >>= λ c. ok (out ++ c))
  unfolding collect
  collect-composite out [] = rw (append-nil out)
  collect-composite out (err e ∷ ps) = refl
  collect-composite out (panic ∷ ps) = refl
  collect-composite out (ok c ∷ ps) =
      collect-composite (out ++ c) ps
      ∙ prepend_twice out c (collect [] ps)
      ∙ ap (λ r. r >>= λ x. ok (out ++ x)) (sym (collect-composite c ps))

  -- The composite of two lists of providers asks the first list, then the second, and joins what
  -- they return; the first error or panic is the result. So a composite inside a composite, as the
  -- standalone server builds it, is the composite of all.
  pub composite-append :
      (ps qs : List (Provider R))
      → composite (ps ++ qs) ≡ (composite ps >>= λ xs. composite qs >>= λ ys. ok (xs ++ ys))
  unfolding composite
  composite-append [] qs = append_nothing (composite qs)
  composite-append (err e ∷ ps) qs = refl
  composite-append (panic ∷ ps) qs = refl
  composite-append (ok c ∷ ps) qs =
      collect-composite c (ps ++ qs)
      ∙ ap (λ r. r >>= λ x. ok (c ++ x)) (composite-append ps qs)
      ∙ join_results c (composite ps) (composite qs)
      ∙ ap (λ r. r >>= λ xs. composite qs >>= λ ys. ok (xs ++ ys)) (sym (collect-composite c ps))
