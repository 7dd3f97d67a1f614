-- ===== src/Cel/Overloads.antt =====
-- Overloads of CEL functions, as the libraries of pkg/cel/libs declare them to cel-go: names, types and the
-- Go function behind each.
use kyverno_http_authorizer.Base.{
  String, Option, none, some, List, [], ◌∷◌, Result, Bool, ◌≡◌, ◌⊎◌, inl, inr, subst, All,
}
use kyverno_http_authorizer.GoMap.{GoMap}

-- The types that the declarations use: KVType, ResponseType, TokenType, SetType, and cel-go's types of strings,
-- of integers and of lists of strings.
pub data CelType : Type 0 where
  kv_type response_type token_type set_type string_type int_type string_list_type : CelType

-- cel.UnaryBinding, cel.BinaryBinding and cel.FunctionBinding, of functions that also change a state.
pub data Binding (V S : Type 0) : Type 0 where
  unary_binding : (V → S → Result (S × V)) → Binding V S
  binary_binding : (V → V → S → Result (S × V)) → Binding V S
  function_binding : (List V → S → Result (S × V)) → Binding V S

-- cel.Overload or cel.MemberOverload
pub record Overload (V S : Type 0) : Type 0 where
  pub name : String
  pub member : Bool
  pub args : List CelType
  pub result : CelType
  pub binding : Binding V S

module _ {V S : Type 0} where
  -- A binding at arguments; none if it does not take so many.
  unfoldable pub call : Binding V S → List V → S → Option (Result (S × V))
  call (unary_binding f) (v ∷ []) s = some (f v s)
  call (unary_binding f) _ s = none
  call (binary_binding f) (v ∷ w ∷ []) s = some (f v w s)
  call (binary_binding f) _ s = none
  call (function_binding f) vs s = some (f vs s)

  abbrev pub Among : Overload V S → List (Overload V S) → Type 0
  Among o [] = ⊥
  Among o (x ∷ xs) = (x ≡ o) ⊎ Among o xs

  -- A library declares an overload, under some name.
  abbrev pub Declared : Overload V S → GoMap (List (Overload V S)) → Type 0
  Declared o [] = ⊥
  Declared o ((function, os) ∷ library) = Among o os ⊎ Declared o library

  All-Among :
      (P : Overload V S → Type 0) (o : Overload V S) (os : List (Overload V S))
      → All P os
      → Among o os
      → P o
  All-Among P o [] all d = absurd d
  All-Among P o (x ∷ xs) all (inl e) = subst P e all.0
  All-Among P o (x ∷ xs) all (inr d) = All-Among P o xs all.1 d

  pub All-Declared :
      (P : Overload V S → Type 0) (o : Overload V S) (library : GoMap (List (Overload V S)))
      → All (λ (e : String × List (Overload V S)). All P e.1) library
      → Declared o library
      → P o
  All-Declared P o [] all d = absurd d
  All-Declared P o ((function, os) ∷ library) all (inl d) = All-Among P o os all.0 d
  All-Declared P o ((function, os) ∷ library) all (inr d) = All-Declared P o library all.1 d
