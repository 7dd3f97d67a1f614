-- ===== src/Http/Library/Returns.antt =====
-- What the bindings of the library return on arguments of the types that it declares.
use kyverno_http_authorizer.Base.{
  ℕ, String, Option, none, some, List, [], ◌∷◌, ◌++◌, ◌≡◌, ◌≢◌, refl, ap, ◌∙◌, ℤ, Result, ok,
  length,
}
use kyverno_http_authorizer.GoMap.{lookup}
use kyverno_http_authorizer.Http.{Kv, Response}
use kyverno_http_authorizer.Cel.Overloads.{
  CelType, binary_binding, string_list_type, response_type, string_type, int_type, kv_type, call,
}
use kyverno_http_authorizer.Http.Functions.{
  Heap, load, modify, Adapter, entries_of, add_header, empty_response, or_wrap, update,
  value_or_error, first_value, new_response, get_header_value, get_header_all, with_status,
  with_header, with_body,
}
use kyverno_http_authorizer.Http.Functions.Heap.{load-modify, load-append}
use kyverno_http_authorizer.Http.Library.{reading, with_header_args}
use kyverno_http_authorizer.Http.Library.Typing.{
  FilledHeaders, WellFormed, HasType, IsInt32, Grows, add_value-FilledHeaders, WellFormed-modify,
  WellFormed-append, Grows-modify, Grows-append,
}

module _ {V : Type 0} (a : Adapter V) where
  open a use {
    of_kv, of_int, to_kv, to_text, to_int, to_pointer, of_text, of_texts, of_pointer, title,
  }

  -- The values made of a KV, a pointer, a string and an int of 32 bits convert back.
  pub record ConvertsBack : Type 0 where
    pub text_back : (t : String) → to_text (of_text t) ≡ ok t
    pub pointer_back : (p : ℕ) → to_pointer (of_pointer p) ≡ ok p
    pub kv_back : (kv : Kv) → to_kv (of_kv kv) ≡ ok kv
    pub int_back : (n : ℤ) → IsInt32 n → to_int (of_int n) ≡ ok n

  abbrev pub HasTypes : List CelType → Heap → List V → Type 0
  HasTypes [] heap [] = Unit
  HasTypes [] heap (v ∷ vs) = ⊥
  HasTypes (τ ∷ τs) heap [] = ⊥
  HasTypes (τ ∷ τs) heap (v ∷ vs) = HasType a τ heap v × HasTypes τs heap vs

  -- The result is a value of a type, in a well-formed heap in which all values keep their types.
  abbrev pub Returns : CelType → Heap → Option (Result (Heap × V)) → Type 0
  Returns τ heap o =
      (heap' : Heap) × (v : V) × (o ≡ some (ok (heap', v)))
      × HasType a τ heap' v
      × WellFormed heap'
      × Grows a heap heap'

  module _ (law : ConvertsBack) where
    update-Returns :
        (p : ℕ) (f : Response → Result Response) (heap : Heap) (x y : Response)
        → load p heap ≡ some x
        → f x ≡ ok y
        → FilledHeaders y.headers
        → WellFormed heap
        → Returns response_type heap (some (or_wrap a heap (update a p f heap)))
    update-Returns p f heap x y l e h w = (
      modify (λ r. y) p heap,
      of_pointer p,
      rw (l, update, e),
      (p, y, refl, load-modify (λ r. y) p heap x l),
      WellFormed-modify p y heap h w,
      Grows-modify a y p heap,
    )

    value_of :
        (o : Option (List String))
        → ((vs : List String) → o ≡ some vs → vs ≢ [])
        → (t : String) × (value_or_error a
              (elim o [ none ↦ ok (of_text "") | some vs ↦ first_value a vs ])
            ≡ ok (of_text t))
    value_of none f = ("", refl)
    value_of (some []) f = absurd (f [] refl refl)
    value_of (some (t ∷ vs)) f = (t, refl)

    values_of :
        (o : Option (List String))
        → (ts : List String) × (value_or_error a
              (elim o [ none ↦ ok (of_texts []) | some vs ↦ ok (of_texts vs) ])
            ≡ ok (of_texts ts))
    values_of none = ([], refl)
    values_of (some vs) = (vs, refl)

    reading-Returns :
        (τ : CelType) (f : V → V → Result V) (v w r : V) (heap : Heap)
        → f v w ≡ ok r
        → HasType a τ heap r
        → WellFormed heap
        → Returns τ heap (some (reading a f v w heap))
    reading-Returns τ f v w r heap e h k = (heap, r, rw e, h, k, λ q x l. (x, l))

    -- What a function of two arguments does with arguments of the types that an overload declares.
    abbrev Maps : CelType → CelType → CelType → (V → V → Heap → Result (Heap × V)) → Type 0
    Maps τ σ ρ f =
        (v w : V) (heap : Heap)
        → HasType a τ heap v
        → HasType a σ heap w
        → WellFormed heap
        → Returns ρ heap (some (f v w heap))

    pub binary_binding-Returns :
        (τ σ ρ : CelType) (f : V → V → Heap → Result (Heap × V))
        → Maps τ σ ρ f
        → (vs : List V) (heap : Heap) → HasTypes (τ ∷ σ ∷ []) heap vs
        → WellFormed heap
        → Returns ρ heap (call (binary_binding f) vs heap)
    unfolding call
    binary_binding-Returns τ σ ρ f m [] heap h k = absurd h
    binary_binding-Returns τ σ ρ f m (v ∷ []) heap h k = absurd h.1
    binary_binding-Returns τ σ ρ f m (v ∷ w ∷ []) heap h k = m v w heap h.0 h.1.0 k
    binary_binding-Returns τ σ ρ f m (v ∷ w ∷ x ∷ vs) heap h k = absurd h.1.1

    pub get_header_value-Maps :
        Maps kv_type string_type string_type (reading a (get_header_value a))
    unfolding get_header_value
    get_header_value-Maps v w heap (kv, ve, f) (t, we) k =
        let e : to_kv v ≡ ok kv = ap to_kv ve ∙ law.kv_back kv in
        let n : to_text w ≡ ok t = ap to_text we ∙ law.text_back t in
        let (u, q) = value_of (lookup (title t) (entries_of kv)) (f (title t)) in
        reading-Returns string_type (get_header_value a) v w (of_text u) heap (rw (e, n) q)
          (u, refl) k

    pub get_header_all-Maps :
        Maps kv_type string_type string_list_type (reading a (get_header_all a))
    unfolding get_header_all
    get_header_all-Maps v w heap (kv, ve, f) (t, we) k =
        let e : to_kv v ≡ ok kv = ap to_kv ve ∙ law.kv_back kv in
        let n : to_text w ≡ ok t = ap to_text we ∙ law.text_back t in
        let (ts, q) = values_of (lookup (title t) (entries_of kv)) in
        reading-Returns string_list_type (get_header_all a) v w (of_texts ts) heap (rw (e, n) q)
          (ts, refl) k

    pub with_status-Maps : Maps response_type int_type response_type (with_status a)
    unfolding with_status
    with_status-Maps v w heap (p, x, ve, l) (code, we, small) k =
        let e : to_pointer v ≡ ok p = ap to_pointer ve ∙ law.pointer_back p in
        let n : to_int w ≡ ok code = ap to_int we ∙ law.int_back code small in
        rw (e, n)
          (update-Returns p (λ r. ok (record r { status = code })) heap x
            (record x { status = code }) l refl (k p x l) k)

    pub with_body-Maps : Maps response_type string_type response_type (with_body a)
    unfolding with_body
    with_body-Maps v w heap (p, x, ve, l) (text, we) k =
        let e : to_pointer v ≡ ok p = ap to_pointer ve ∙ law.pointer_back p in
        let n : to_text w ≡ ok text = ap to_text we ∙ law.text_back text in
        rw (e, n)
          (update-Returns p (λ r. ok (record r { body = text })) heap x (record x { body = text }) l
            refl (k p x l) k)

    with_header-Returns :
        (r key value : V) (heap : Heap)
        → HasTypes (response_type ∷ string_type ∷ string_type ∷ []) heap (r ∷ key ∷ value ∷ [])
        → WellFormed heap
        → Returns response_type heap (some (with_header a r key value heap))
    unfolding with_header
    with_header-Returns r key value heap ((p, x, ve, l), ((n, we), ((t, ze), _))) k =
        let e : to_pointer r ≡ ok p = ap to_pointer ve ∙ law.pointer_back p in
        let i : to_text key ≡ ok n = ap to_text we ∙ law.text_back n in
        let j : to_text value ≡ ok t = ap to_text ze ∙ law.text_back t in
        let (kv, q, f) = add_value-FilledHeaders n t x.headers (k p x l) in
        rw (e, i, j)
          (update-Returns p (add_header n t) heap x (record x { headers = some kv }) l (rw q) f k)

    pub with_header_args-Returns :
        (vs : List V) (heap : Heap)
        → HasTypes (response_type ∷ string_type ∷ string_type ∷ []) heap vs
        → WellFormed heap
        → Returns response_type heap (some (with_header_args a vs heap))
    with_header_args-Returns [] heap h k = absurd h
    with_header_args-Returns (r ∷ []) heap h k = absurd h.1
    with_header_args-Returns (r ∷ key ∷ []) heap h k = absurd h.1.1
    with_header_args-Returns (r ∷ key ∷ value ∷ []) heap h k =
        with_header-Returns r key value heap h k
    with_header_args-Returns (r ∷ key ∷ value ∷ x ∷ vs) heap h k = absurd h.1.1.1

    pub new_response-Returns :
        (heap : Heap) → WellFormed heap → Returns response_type heap (some (new_response a heap))
    unfolding new_response
    new_response-Returns heap k = (
      heap ++ empty_response ∷ [],
      of_pointer (length heap),
      refl,
      (length heap, empty_response, refl, load-append heap empty_response),
      WellFormed-append empty_response heap tt k,
      Grows-append a empty_response heap,
    )
