-- ===== src/Tests/Functions.antt =====
-- The theorems on the functions for responses, at concrete values.
use kyverno_http_authorizer.Base.{
  ℕ, ℤ, pos, String, some, List, [], ◌∷◌, ◌≡◌, refl, Result, ok, err, Error, ◌>>=◌, ◌==◌,
  if◌then◌else◌, zero, suc, true, inl, inr, subst,
}
use kyverno_http_authorizer.Http.{Kv, Response}
use kyverno_http_authorizer.Http.Functions.{
  Heap, Adapter, load, empty_response, new_response, with_status, with_header, with_body,
  get_header_value, get_header_all,
}
use kyverno_http_authorizer.Http.Functions.Building.{response-chain}
use kyverno_http_authorizer.Cel.Overloads.{
  CelType, Overload, response_type, string_type, function_binding, call,
}
use kyverno_http_authorizer.Http.Library.{with_header_args}
use kyverno_http_authorizer.Http.Library.Typing.{FilledHeaders, WellFormed, HasType}
use kyverno_http_authorizer.Http.Library.Returns.{ConvertsBack}
use kyverno_http_authorizer.Http.Library.Sound.{http_library-Returns}

pub data CelValue : Type 0 where
  text_value : String → CelValue
  texts_value : List String → CelValue
  int_value : ℤ → CelValue
  kv_value : Kv → CelValue
  pointer_value : ℕ → CelValue
  error_value : Error → CelValue

abbrev pub text_of : CelValue → Result String
text_of (text_value t) = ok t
text_of _ = err "no string"

abbrev pub int_of : CelValue → Result ℤ
int_of (int_value n) = ok n
int_of _ = err "no int"

abbrev pub kv_of : CelValue → Result Kv
kv_of (kv_value kv) = ok kv
kv_of _ = err "no KV"

abbrev pub pointer_of : CelValue → Result ℕ
pointer_of (pointer_value p) = ok p
pointer_of _ = err "no response"

abbrev pub adapter : Adapter CelValue
adapter = record {
  to_kv = kv_of;
  to_text = text_of;
  to_int = int_of;
  to_pointer = pointer_of;
  of_kv = kv_value;
  of_int = int_value;
  of_text = text_value;
  of_texts = texts_value;
  of_pointer = pointer_value;
  wrap_err = error_value;
  title = λ t. if t == "accept" then "Accept" else t;
}

abbrev accept : CelValue
accept = kv_value (record { inner = some (("Accept", "text/html" ∷ "text/plain" ∷ []) ∷ []) })

first_of_accept :
    get_header_value adapter accept (text_value "accept") ≡ ok (text_value "text/html")
unfolding get_header_value
first_of_accept = refl

all_of_accept :
    get_header_all adapter accept (text_value "accept")
    ≡ ok (texts_value ("text/html" ∷ "text/plain" ∷ []))
unfolding get_header_all
all_of_accept = refl

response-chain_example :
    (do
      made ← new_response adapter (empty_response ∷ [])
      coded ← with_status adapter made.1 (int_value (pos 403)) made.0
      headed ← with_header adapter coded.1 (text_value "Vary") (text_value "Accept") coded.0
      with_body adapter headed.1 (text_value "denied") headed.0)
    ≡ ok (
      empty_response
          ∷ record {
            status = pos 403;
            headers = some (record { inner = some (("Vary", "Accept" ∷ []) ∷ []) });
            body = "denied";
          }
          ∷ [],
      pointer_value 1,
    )
response-chain_example =
    response-chain adapter (λ p. refl) (int_value (pos 403)) (text_value "Vary")
      (text_value "Accept") (text_value "denied") (empty_response ∷ []) (pos 403) "Vary" "Accept"
      "denied" refl refl refl refl

adapter-ConvertsBack : ConvertsBack adapter
adapter-ConvertsBack = record {
  text_back = λ t. refl;
  pointer_back = λ p. refl;
  kv_back = λ kv. refl;
  int_back = λ n small. refl;
}

one_response-WellFormed : WellFormed (empty_response ∷ [])
unfolding load
one_response-WellFormed zero x h =
    let e : empty_response ≡ x = cc in subst (λ (r : Response). FilledHeaders r.headers) e tt
one_response-WellFormed (suc p) x h = cc

abbrev header_overload : Overload CelValue Heap
header_overload = record {
  name = "with_header";
  member = true;
  args = response_type ∷ string_type ∷ string_type ∷ [];
  result = response_type;
  binding = function_binding (with_header_args adapter);
}

http_library-Returns_example :
    (heap' : Heap) × (v : CelValue) × (call header_overload.binding
        (pointer_value 0 ∷ text_value "Vary" ∷ text_value "Accept" ∷ [])
        (empty_response ∷ [])
      ≡ some (ok (heap', v)))
    × HasType adapter response_type heap' v
    × WellFormed heap'
    × ((τ : CelType) (w : CelValue)
        → HasType adapter τ (empty_response ∷ []) w
        → HasType adapter τ heap' w)
unfolding load
http_library-Returns_example =
    http_library-Returns adapter adapter-ConvertsBack header_overload
      (pointer_value 0 ∷ text_value "Vary" ∷ text_value "Accept" ∷ []) (empty_response ∷ [])
      (inr (inr (inr (inr (inl (inl refl))))))
      ((0, empty_response, refl, refl), (("Vary", refl), (("Accept", refl), tt)))
      one_response-WellFormed
