-- ===== src/Http/Library/Sound.antt =====
-- The soundness of the overloads that the library declares.
use kyverno_http_authorizer.Base.{String, some, List, ◌≡◌, ok, All}
use kyverno_http_authorizer.Cel.Overloads.{
  CelType, string_list_type, response_type, string_type, int_type, kv_type, Overload, call,
  Declared, All-Declared,
}
use kyverno_http_authorizer.Http.Functions.{
  Heap, Adapter, get_header_value, get_header_all, with_status, with_body,
}
use kyverno_http_authorizer.Http.Library.{reading, http_library}
use kyverno_http_authorizer.Http.Library.Typing.{WellFormed, HasType, HasType-Grows}
use kyverno_http_authorizer.Http.Library.Returns.{
  ConvertsBack, HasTypes, Returns, binary_binding-Returns, with_header_args-Returns,
  new_response-Returns, get_header_value-Maps, get_header_all-Maps, with_status-Maps,
  with_body-Maps,
}

module _ {V : Type 0} (a : Adapter V) where
  module _ (law : ConvertsBack a) where
    -- A binding returns a value of the declared type.
    abbrev IsSound : Overload V Heap → Type 0
    IsSound o =
        (vs : List V) (heap : Heap)
        → HasTypes a o.args heap vs
        → WellFormed heap
        → Returns a o.result heap (call o.binding vs heap)

    library-IsSound :
        All (λ (e : String × List (Overload V Heap)). All IsSound e.1) (http_library a)
    unfolding call
    library-IsSound = (
      (
        binary_binding-Returns a law kv_type string_type string_type
            (reading a (get_header_value a)) (get_header_value-Maps a law),
        tt,
      ),
      (
        (
          binary_binding-Returns a law kv_type string_type string_list_type
              (reading a (get_header_all a)) (get_header_all-Maps a law),
          tt,
        ),
        (
          (
            binary_binding-Returns a law response_type int_type response_type (with_status a)
                (with_status-Maps a law),
            tt,
          ),
          (
            (λ vs heap h k. new_response-Returns a law heap k, tt),
            (
              (with_header_args-Returns a law, tt),
              (
                (
                  binary_binding-Returns a law response_type string_type response_type (with_body a)
                      (with_body-Maps a law),
                  tt,
                ),
                tt,
              ),
            ),
          ),
        ),
      ),
    )

  -- Every function of the HTTP library, called with arguments of the types that its overload declares, neither
  -- panics nor returns an error: it returns a value of the declared type. It keeps the heap of responses well
  -- formed, which is that no response has a nil map of headers or a header without values, and every value keeps
  -- its type. Here the heap is well formed before, a KV that is an argument has no header without values, an
  -- int is one of 32 bits, and the value that cel-go makes of a KV, a pointer, a string or such an int converts back.
  pub http_library-Returns :
      ConvertsBack a
      → (o : Overload V Heap) (vs : List V) (heap : Heap) → Declared o (http_library a)
      → HasTypes a o.args heap vs
      → WellFormed heap
      → (heap' : Heap) × (v : V) × (call o.binding vs heap ≡ some (ok (heap', v)))
        × HasType a o.result heap' v
        × WellFormed heap'
        × ((τ : CelType) (w : V) → HasType a τ heap w → HasType a τ heap' w)
  http_library-Returns law o vs heap d h k =
      let (heap', v, e, t, k', g) =
        All-Declared (IsSound law) o (http_library a) (library-IsSound law) d vs heap h k in
      (heap', v, e, t, k', λ τ w. HasType-Grows a τ heap heap' w g)
