-- ===== src/Http/Functions.antt =====
-- pkg/cel/libs/http/impl.go: the CEL functions on headers and on responses. A response is a pointer, so
-- the functions work on a heap, and a pointer is an index in it. `V` is cel-go's type of values.
pub mod Heap
pub mod Building
use kyverno_http_authorizer.Base.{
  ℕ, zero, suc, ℤ, pos, String, Option, none, some, List, [], ◌∷◌, ◌++◌, Result, ok, err, panic,
  Error, ◌>>=◌, length, deref,
}
use kyverno_http_authorizer.GoMap.{GoMap, lookup, insert}
use kyverno_http_authorizer.Http.{Kv, Response}

abbrev pub Heap : Type 0
Heap = List Response

-- The response at a pointer, and the heap with another one there.
unfoldable pub load : ℕ → Heap → Option Response
load a [] = none
load zero (r ∷ heap) = some r
load (suc a) (r ∷ heap) = load a heap

unfoldable pub modify : (Response → Response) → ℕ → Heap → Heap
modify f a [] = []
modify f zero (r ∷ heap) = f r ∷ heap
modify f (suc a) (r ∷ heap) = r ∷ modify f a heap

-- ConvertToNative at the types used, the values of CEL that NativeToValue makes of native ones, WrapErr, and the caser of golang.org/x/text.
pub record Adapter (V : Type 0) : Type 0 where
  pub to_kv : V → Result Kv
  pub to_text : V → Result String
  pub to_int : V → Result ℤ
  pub to_pointer : V → Result ℕ
  pub of_kv : Kv → V
  pub of_int : ℤ → V
  pub of_text : String → V
  pub of_texts : List String → V
  pub of_pointer : ℕ → V
  pub wrap_err : Error → V
  pub title : String → String

-- The entries of a KV; a nil map has none.
abbrev pub entries_of : Kv → GoMap (List String)
entries_of kv = elim kv.inner [ none ↦ [] | some m ↦ m ]

-- append(inner[k], v)
abbrev pub append_value : String → String → GoMap (List String) → GoMap (List String)
append_value k v m = insert k ((elim (lookup k m) [ none ↦ [] | some vs ↦ vs ]) ++ v ∷ []) m

-- The header map of a response with a value added; an assignment to a nil map panics.
abbrev pub add_value : String → String → Option Kv → Result Kv
add_value k v none = ok (record { inner = some (append_value k v []) })
add_value k v (some kv) = do m ← deref kv.inner; ok (record { inner = some (append_value k v m) })

abbrev pub add_header : String → String → Response → Result Response
add_header k v x = do kv ← add_value k v x.headers; ok (record x { headers = some kv })

abbrev pub empty_response : Response
empty_response = record { status = pos 0; headers = none; body = "" }

module _ {V : Type 0} (a : Adapter V) where
  open a use {to_kv, to_text, to_int, to_pointer, of_text, of_texts, of_pointer, wrap_err, title}

  -- A result, or the error as a value of CEL.
  abbrev pub or_wrap : Heap → Result (Heap × V) → Result (Heap × V)
  or_wrap heap (ok r) = ok r
  or_wrap heap (err e) = ok (heap, wrap_err e)
  or_wrap heap panic = panic

  -- response
  unfoldable pub new_response : Heap → Result (Heap × V)
  new_response heap = ok (heap ++ empty_response ∷ [], of_pointer (length heap))

  -- v[0] panics on a header without values.
  abbrev pub first_value : List String → Result V
  first_value [] = panic
  first_value (v ∷ vs) = ok (of_text v)

  abbrev pub value_or_error : Result V → Result V
  value_or_error (ok v) = ok v
  value_or_error (err e) = ok (wrap_err e)
  value_or_error panic = panic

  -- get_header_value
  unfoldable pub get_header_value : V → V → Result V
  unfolding lookup
  get_header_value all_headers header = value_or_error (do
    kv ← to_kv all_headers
    name ← to_text header
    elim (lookup (title name) (entries_of kv)) [
      | none ↦ ok (of_text "")
      | some vs ↦ first_value vs
    ])

  -- get_header_all
  unfoldable pub get_header_all : V → V → Result V
  unfolding lookup
  get_header_all all_headers header = value_or_error (do
    kv ← to_kv all_headers
    name ← to_text header
    elim (lookup (title name) (entries_of kv)) [
      | none ↦ ok (of_texts [])
      | some vs ↦ ok (of_texts vs)
    ])

  -- with_status: a nil pointer panics.
  abbrev pub update : ℕ → (Response → Result Response) → Heap → Result (Heap × V)
  update r f heap = elim (load r heap) [
    | none ↦ panic
    | some old ↦ do new ← f old; ok (modify (λ x. new) r heap, of_pointer r)
  ]

  unfoldable pub with_status : V → V → Heap → Result (Heap × V)
  unfolding load modify
  with_status r status heap = or_wrap heap (do
    p ← to_pointer r
    code ← to_int status
    update p (λ x. ok (record x { status = code })) heap)

  -- with_header
  unfoldable pub with_header : V → V → V → Heap → Result (Heap × V)
  unfolding load modify insert lookup
  with_header r key value heap =
      or_wrap heap
        (do p ← to_pointer r; k ← to_text key; v ← to_text value; update p (add_header k v) heap)

  -- with_body
  unfoldable pub with_body : V → V → Heap → Result (Heap × V)
  unfolding load modify
  with_body r b heap =
      or_wrap heap
        (do p ← to_pointer r; text ← to_text b; update p (λ x. ok (record x { body = text })) heap)
