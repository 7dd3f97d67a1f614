-- ===== src/Http/Functions/Building.antt =====
-- What a chain of calls in a rule builds, and what it leaves alone.
use kyverno_http_authorizer.Base.{
  ℕ, ℤ, String, Option, none, some, List, [], ◌∷◌, ◌++◌, ◌≡◌, ◌≢◌, refl, ap, ◌∙◌, Result, ok, ◌>>=◌,
  length, ◌==◌, if◌then◌else◌, eq_iff, Bool-cases, inl, inr,
}
use kyverno_http_authorizer.GoMap.{GoMap, lookup, insert}
use kyverno_http_authorizer.GoMap.Laws.{lookup-insert}
use kyverno_http_authorizer.Http.{Kv, Response}
use kyverno_http_authorizer.Http.Functions.Heap.{
  load-modify, load-modify_ne, load-append, modify-append,
}
use kyverno_http_authorizer.Http.Functions.{
  Heap, load, modify, Adapter, append_value, add_value, add_header, empty_response, new_response,
  with_status, with_header, with_body, or_wrap, update,
}

abbrev pub listed : Option (List String) → List String
listed none = []
listed (some vs) = vs

-- The values of a header of a response.
abbrev pub values_in : String → Option Kv → List String
values_in k none = []
values_in k (some kv) = elim kv.inner [ none ↦ [] | some m ↦ listed (lookup k m) ]

abbrev pub values : String → Response → List String
values k x = values_in k x.headers

-- The headers, if there are any, are a map that is not nil.
abbrev pub HasMap : Option Kv → Type 0
HasMap none = Unit
HasMap (some kv) = (m : GoMap (List String)) × (kv.inner ≡ some m)

listed-append_value :
    (k j v : String) (m : GoMap (List String))
    → listed (lookup j (append_value k v m))
      ≡ (if k == j then listed (lookup j m) ++ v ∷ [] else listed (lookup j m))
listed-append_value k j v m = elim (Bool-cases (k == j)) [
  | inl e ↦
      rw (lookup-insert k j (elim (lookup k m) [ none ↦ [] | some vs ↦ vs ] ++ v ∷ []) m, e)
        (same (lookup k m) ∙ ap (λ i. listed (lookup i m) ++ v ∷ []) ((eq_iff k j).0 e))
  | inr e ↦ rw (lookup-insert k j (elim (lookup k m) [ none ↦ [] | some vs ↦ vs ] ++ v ∷ []) m, e)
]
  where
    same :
        (o : Option (List String))
        → elim o [ none ↦ [] | some vs ↦ vs ] ++ v ∷ [] ≡ listed o ++ v ∷ []
    same none = refl
    same (some vs) = refl

add_value-values :
    (k v : String) (h : Option Kv)
    → HasMap h
    → (kv : Kv) × (add_value k v h ≡ ok kv)
      × HasMap (some kv)
      × ((j : String)
          → values_in j (some kv) ≡ (if k == j then values_in j h ++ v ∷ [] else values_in j h))
unfolding lookup
add_value-values k v none h = (_, refl, (_, refl), λ j. listed-append_value k j v [])
add_value-values k v (some kv) (m, e) = (
  record { inner = some (append_value k v m) },
  rw e,
  (_, refl),
  λ j. rw e (listed-append_value k j v m),
)

module _ {V : Type 0} (a : Adapter V) where
  open a use {to_text, to_int, to_pointer, of_pointer}

  update-loaded :
      (p : ℕ) (f : Response → Result Response) (heap : Heap) (x y : Response)
      → load p heap ≡ some x
      → f x ≡ ok y
      → update a p f heap ≡ ok (modify (λ z. y) p heap, of_pointer p)
  update-loaded p f heap x y h e = rw (h, update, e)

  -- `withHeader` on a response in the heap appends the value to those of its header, keeps the other
  -- headers, the status and the body, changes no other response, and returns the same pointer. Here
  -- the arguments convert, and the headers of the response, if it has any, are a map that is not nil,
  -- which remains so.
  pub with_header_lem :
      (r key value : V) (heap : Heap) (p : ℕ) (k v : String) (x : Response)
      → to_pointer r ≡ ok p
      → to_text key ≡ ok k
      → to_text value ≡ ok v
      → load p heap ≡ some x
      → HasMap x.headers
      → (heap' : Heap) × (y : Response) × (with_header a r key value heap
          ≡ ok (heap', of_pointer p))
        × (load p heap' ≡ some y)
        × ((j : String) → values j y ≡ (if k == j then values j x ++ v ∷ [] else values j x))
        × HasMap y.headers
        × (y.status ≡ x.status)
        × (y.body ≡ x.body)
        × ((q : ℕ) → q ≢ p → load q heap' ≡ load q heap)
  unfolding with_header
  with_header_lem r key value heap p k v x hr hk hv hx hm =
      let (kv, e, m, vals) = add_value-values k v x.headers hm in
      let y : Response = record x { headers = some kv } in
      (
        modify (λ z. y) p heap,
        y,
        rw (hr, hk, hv) (ap (or_wrap a heap) (update-loaded p (add_header k v) heap x y hx (rw e))),
        load-modify (λ z. y) p heap x hx,
        vals,
        m,
        refl,
        refl,
        λ q n. load-modify_ne (λ z. y) p q heap n,
      )

  update-last :
      (f : Response → Result Response) (heap : Heap) (x y : Response)
      → f x ≡ ok y
      → update a (length heap) f (heap ++ x ∷ []) ≡ ok (heap ++ y ∷ [], of_pointer (length heap))
  update-last f heap x y e =
      update-loaded (length heap) f (heap ++ x ∷ []) x y (load-append heap x) e
      ∙ ap (λ h. ok (h, of_pointer (length heap))) (modify-append (λ z. y) heap x)

  module _ (law : (p : ℕ) → to_pointer (of_pointer p) ≡ ok p) (heap : Heap) (x : Response) where
    abbrev last : Response → Result (Heap × V)
    last y = ok (heap ++ y ∷ [], of_pointer (length heap))

    with_status-last :
        (status : V) (code : ℤ)
        → to_int status ≡ ok code
        → with_status a (of_pointer (length heap)) status (heap ++ x ∷ [])
          ≡ last (record x { status = code })
    unfolding with_status
    with_status-last status code h =
        rw (law (length heap), h)
          (ap (or_wrap a (heap ++ x ∷ [])) (
            update-last (λ z. ok (record z { status = code })) heap x (record x { status = code })
              refl))

    with_header-last :
        (key value : V) (k v : String) (kv : Kv)
        → to_text key ≡ ok k
        → to_text value ≡ ok v
        → add_value k v x.headers ≡ ok kv
        → with_header a (of_pointer (length heap)) key value (heap ++ x ∷ [])
          ≡ last (record x { headers = some kv })
    unfolding with_header
    with_header-last key value k v kv hk hv e =
        rw (law (length heap), hk, hv)
          (ap (or_wrap a (heap ++ x ∷ []))
            (update-last (add_header k v) heap x (record x { headers = some kv }) (rw e)))

    with_body-last :
        (text : V) (t : String)
        → to_text text ≡ ok t
        → with_body a (of_pointer (length heap)) text (heap ++ x ∷ [])
          ≡ last (record x { body = t })
    unfolding with_body
    with_body-last text t h =
        rw (law (length heap), h)
          (ap (or_wrap a (heap ++ x ∷ []))
            (update-last (λ z. ok (record z { body = t })) heap x (record x { body = t }) refl))

  -- A rule that makes a response, gives it a status, adds a header and sets a body has as its value a
  -- pointer to that response, at the end of the heap, and every response that was there before is what
  -- it was. Here the arguments convert, and a pointer that was made a value converts back.
  pub response-chain :
      ((p : ℕ) → to_pointer (of_pointer p) ≡ ok p)
      → (status key value text : V) (heap : Heap) (code : ℤ) (k v t : String)
      → to_int status ≡ ok code
      → to_text key ≡ ok k
      → to_text value ≡ ok v
      → to_text text ≡ ok t
      → (do
        made ← new_response a heap
        coded ← with_status a made.1 status made.0
        headed ← with_header a coded.1 key value coded.0
        with_body a headed.1 text headed.0)
        ≡ ok (
          heap
              ++ record {
                status = code;
                headers = some (record { inner = some ((k, v ∷ []) ∷ []) });
                body = t;
              }
                ∷ [],
          of_pointer (length heap),
        )
  unfolding new_response insert lookup
  response-chain law status key value text heap code k v t hs hk hv ht =
      let coded : Response = record empty_response { status = code } in
      let kv : Kv = record { inner = some ((k, v ∷ []) ∷ []) } in
      let headed : Response = record coded { headers = some kv } in
      rw (
        with_status-last law heap empty_response status code hs,
        with_header-last law heap coded key value k v kv hk hv refl,
        with_body-last law heap headed text t ht,
      )
