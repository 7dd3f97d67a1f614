-- ===== src/Http/Library/Typing.antt =====
-- Which values have the types of the overloads, and when a heap of responses is well formed.
use kyverno_http_authorizer.Base.{
  ℕ, ℤ, pos, negsuc, ◌<◌, ◌^◌, String, Option, none, some, List, [], ◌∷◌, ◌++◌, ◌≡◌, ◌≢◌, refl, sym,
  ◌∙◌, subst, ok, ◌==◌, if◌then◌else◌, inl, inr, Bool, true, false,
}
use kyverno_http_authorizer.GoMap.{GoMap, lookup}
use kyverno_http_authorizer.GoMap.Laws.{lookup-insert}
use kyverno_http_authorizer.Http.{Kv, Response}
use kyverno_http_authorizer.Cel.Overloads.{
  CelType, kv_type, response_type, token_type, set_type, string_type, int_type, string_list_type,
}
use kyverno_http_authorizer.Http.Functions.{
  Heap, load, modify, Adapter, entries_of, append_value, add_value,
}
use kyverno_http_authorizer.Http.Functions.Heap.{
  modify_loaded, loaded_modify, append_loaded, loaded_append,
}

-- Every header of the map has a value.
abbrev pub Filled : GoMap (List String) → Type 0
Filled m = (k : String) (vs : List String) → lookup k m ≡ some vs → vs ≢ []

-- The headers of a response, if it has any, are a map that is not nil and in which every header has a value.
abbrev pub FilledHeaders : Option Kv → Type 0
FilledHeaders none = Unit
FilledHeaders (some kv) = (m : GoMap (List String)) × (kv.inner ≡ some m) × Filled m

abbrev pub WellFormed : Heap → Type 0
WellFormed heap = (p : ℕ) (x : Response) → load p heap ≡ some x → FilledHeaders x.headers

append-ne : (vs : List String) (v : String) → vs ++ v ∷ [] ≢ []
append-ne [] v e = cc
append-ne (w ∷ vs) v e = cc

Filled-append_value :
    (k v : String) (m : GoMap (List String)) → Filled m → Filled (append_value k v m)
Filled-append_value k v m f j vs h =
    by_key (k == j)
      (sym (lookup-insert k j (elim (lookup k m) [ none ↦ [] | some ws ↦ ws ] ++ v ∷ []) m) ∙ h)
  where
    by_key :
        (b : Bool)
        → (if b
            then some (elim (lookup k m) [ none ↦ [] | some ws ↦ ws ] ++ v ∷ [])
            else lookup j m)
          ≡ some vs
        → vs ≢ []
    by_key true e n = append-ne (elim (lookup k m) [ none ↦ [] | some ws ↦ ws ]) v (cc)
    by_key false e n = f j vs e n

pub add_value-FilledHeaders :
    (k v : String) (h : Option Kv)
    → FilledHeaders h
    → (kv : Kv) × (add_value k v h ≡ ok kv) × FilledHeaders (some kv)
unfolding lookup
add_value-FilledHeaders k v none f =
    (_, refl, (append_value k v [], refl, Filled-append_value k v [] (λ j vs h. cc)))
add_value-FilledHeaders k v (some kv) (m, e, f) = (
  record { inner = some (append_value k v m) },
  rw e,
  (append_value k v m, refl, Filled-append_value k v m f),
)

pub WellFormed-modify :
    (p : ℕ) (y : Response) (heap : Heap)
    → FilledHeaders y.headers
    → WellFormed heap
    → WellFormed (modify (λ r. y) p heap)
WellFormed-modify p y heap f w q z h = elim (loaded_modify y p q heap z h) [
  | inl before ↦ w q z before
  | inr same ↦ let e : y ≡ z = cc in subst (λ (x : Response). FilledHeaders x.headers) e f
]

pub WellFormed-append :
    (y : Response) (heap : Heap)
    → FilledHeaders y.headers
    → WellFormed heap
    → WellFormed (heap ++ y ∷ [])
WellFormed-append y heap f w q z h = elim (loaded_append y q heap z h) [
  | inl before ↦ w q z before
  | inr same ↦ let e : y ≡ z = cc in subst (λ (x : Response). FilledHeaders x.headers) e f
]

-- An int of 32 bits: cel-go converts no other to Go's int.
abbrev pub IsInt32 : ℤ → Type 0
IsInt32 (pos n) = n < 2 ^ 31
IsInt32 (negsuc n) = n < 2 ^ 31

module _ {V : Type 0} (a : Adapter V) where
  open a use {of_kv, of_int, of_text, of_pointer, of_texts}

  -- A value of a type: a KV in which every header has a value, a pointer to a response of the heap, a string, an
  -- int of 32 bits, or a list of strings.
  abbrev pub HasType : CelType → Heap → V → Type 0
  HasType kv_type heap v = (kv : Kv) × (v ≡ of_kv kv) × Filled (entries_of kv)
  HasType response_type heap v =
      (p : ℕ) × (x : Response) × (v ≡ of_pointer p) × (load p heap ≡ some x)
  HasType token_type heap v = ⊥
  HasType set_type heap v = ⊥
  HasType string_type heap v = (t : String) × (v ≡ of_text t)
  HasType int_type heap v = (n : ℤ) × (v ≡ of_int n) × IsInt32 n
  HasType string_list_type heap v = (ts : List String) × (v ≡ of_texts ts)

  -- A value keeps its type in a heap that holds a response wherever the first does.
  abbrev pub Grows : Heap → Heap → Type 0
  Grows heap heap' =
      (q : ℕ) (x : Response) → load q heap ≡ some x → (z : Response) × (load q heap' ≡ some z)

  pub HasType-Grows :
      (τ : CelType) (heap heap' : Heap) (v : V)
      → Grows heap heap'
      → HasType τ heap v
      → HasType τ heap' v
  HasType-Grows kv_type heap heap' v g h = h
  HasType-Grows response_type heap heap' v g (p, x, e, l) = let (z, l') = g p x l in (p, z, e, l')
  HasType-Grows token_type heap heap' v g h = h
  HasType-Grows set_type heap heap' v g h = h
  HasType-Grows string_type heap heap' v g h = h
  HasType-Grows int_type heap heap' v g h = h
  HasType-Grows string_list_type heap heap' v g h = h

  pub Grows-modify : (y : Response) (p : ℕ) (heap : Heap) → Grows heap (modify (λ r. y) p heap)
  Grows-modify y p heap q x h = modify_loaded y p q heap x h

  pub Grows-append : (y : Response) (heap : Heap) → Grows heap (heap ++ y ∷ [])
  Grows-append y heap q x h = (x, append_loaded y q heap x h)
