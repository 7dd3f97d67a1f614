-- ===== src/Http/Library.antt =====
-- pkg/cel/libs/http/lib.go: the overloads of the functions on headers and responses.
pub mod Typing
pub mod Returns
pub mod Sound
use kyverno_http_authorizer.Base.{String, List, [], ◌∷◌, true, false, Result, ok, panic, ◌>>=◌}
use kyverno_http_authorizer.GoMap.{GoMap}
use kyverno_http_authorizer.Http.Functions.{
  Heap, Adapter, or_wrap, new_response, get_header_value, get_header_all, with_status, with_header,
  with_body,
}
use kyverno_http_authorizer.Cel.Overloads.{
  kv_type, response_type, string_type, int_type, string_list_type, binary_binding, function_binding,
  Overload,
}

module _ {V : Type 0} (a : Adapter V) where
  open a use {to_text, to_pointer}

  -- A function that does not use the heap.
  abbrev pub reading : (V → V → Result V) → V → V → Heap → Result (Heap × V)
  reading f v w heap = do r ← f v w; ok (heap, r)

  -- impl.with_header on the slice of its arguments, which it indexes after each conversion.
  abbrev pub with_header_args : List V → Heap → Result (Heap × V)
  with_header_args [] heap = panic
  with_header_args (r ∷ []) heap = or_wrap a heap (do p ← to_pointer r; panic)
  with_header_args (r ∷ key ∷ []) heap =
      or_wrap a heap (do p ← to_pointer r; k ← to_text key; panic)
  with_header_args (r ∷ key ∷ value ∷ rest) heap = with_header a r key value heap

  -- libraryDecls
  abbrev pub http_library : GoMap (List (Overload V Heap))
  http_library =
      (
        "get",
        record {
          name = "get_header_value";
          member = true;
          args = kv_type ∷ string_type ∷ [];
          result = string_type;
          binding = binary_binding (reading (get_header_value a));
        }
            ∷ [],
      )
      ∷ (
        "getAll",
        record {
          name = "get_header_all";
          member = true;
          args = kv_type ∷ string_type ∷ [];
          result = string_list_type;
          binding = binary_binding (reading (get_header_all a));
        }
            ∷ [],
      )
      ∷ (
        "status",
        record {
          name = "with_status";
          member = true;
          args = response_type ∷ int_type ∷ [];
          result = response_type;
          binding = binary_binding (with_status a);
        }
            ∷ [],
      )
      ∷ (
        "http.response",
        record {
          name = "http_response";
          member = false;
          args = [];
          result = response_type;
          binding = function_binding (λ values. new_response a);
        }
            ∷ [],
      )
      ∷ (
        "withHeader",
        record {
          name = "with_header";
          member = true;
          args = response_type ∷ string_type ∷ string_type ∷ [];
          result = response_type;
          binding = function_binding with_header_args;
        }
            ∷ [],
      )
      ∷ (
        "withBody",
        record {
          name = "with_body";
          member = true;
          args = response_type ∷ string_type ∷ [];
          result = response_type;
          binding = binary_binding (with_body a);
        }
            ∷ [],
      )
      ∷ []
