-- ===== src/Cel/Variables.antt =====
-- pkg/cel/variables.go: the type provider that knows the fields of `variables`. `Ty` is cel-go's type
-- of types and `Val` its type of values.
use kyverno_http_authorizer.Base.{
  String, Option, none, some, List, [], ◌∷◌, ◌++◌, ◌≡◌, refl, ap, sym, ◌∙◌, append-nil, ◌==◌,
  if◌then◌else◌, append_assoc,
}
use kyverno_http_authorizer.GoMap.{GoMap, lookup, insert}
use kyverno_http_authorizer.GoMap.Laws.{lookup-insert}

-- types.Provider
pub record InnerProvider (Ty Val : Type 0) : Type 0 where
  pub find_struct_type : String → Option Ty
  pub find_struct_field_names : String → Option (List String)
  pub find_struct_field_type : String → String → Option Ty
  pub enum_value : String → Val
  pub find_ident : String → Option Val
  pub new_value : String → GoMap Val → Val

pub record VariablesProvider (Ty Val : Type 0) : Type 0 where
  pub inner : InnerProvider Ty Val
  pub fields : GoMap Ty
  pub names : List String

-- VariablesType.DeclaredTypeName()
abbrev pub variables_type_name : String
variables_type_name = "kyverno.variables"

module _ {Ty : Type 0} where
  -- The type registered last under a name.
  abbrev pub last_type : String → List (String × Ty) → Option Ty → Option Ty
  last_type k [] d = d
  last_type k ((name, t) ∷ fs) d = last_type k fs (if name == k then some t else d)

  abbrev pub names_of : List (String × Ty) → List String
  names_of [] = []
  names_of ((name, t) ∷ fs) = name ∷ names_of fs

module _ {Ty Val : Type 0} where
  unfoldable pub new_variables_provider : InnerProvider Ty Val → VariablesProvider Ty Val
  new_variables_provider inner = record { inner = inner; fields = []; names = [] }

  unfoldable pub register_field : VariablesProvider Ty Val → String → Ty → VariablesProvider Ty Val
  unfolding insert
  register_field p name t = record p {
    fields = insert name t p.fields;
    names = p.names ++ name ∷ [];
  }

  -- `variables_type_type` is the type of the type of `variables`.
  unfoldable pub find_struct_type : VariablesProvider Ty Val → Ty → String → Option Ty
  find_struct_type p variables_type_type struct_type =
      if struct_type == variables_type_name
      then some variables_type_type
      else p.inner.find_struct_type struct_type

  unfoldable pub find_struct_field_names : VariablesProvider Ty Val → String → Option (List String)
  find_struct_field_names p struct_type =
      if struct_type == variables_type_name
      then some p.names
      else p.inner.find_struct_field_names struct_type

  unfoldable pub find_struct_field_type : VariablesProvider Ty Val → String → String → Option Ty
  unfolding lookup
  find_struct_field_type p struct_type field_name =
      if struct_type == variables_type_name
      then lookup field_name p.fields
      else p.inner.find_struct_field_type struct_type field_name

  -- EnumValue, FindIdent and NewValue ask the inner provider.
  abbrev pub enum_value : VariablesProvider Ty Val → String → Val
  enum_value p enum_name = p.inner.enum_value enum_name

  abbrev pub find_ident : VariablesProvider Ty Val → String → Option Val
  find_ident p ident_name = p.inner.find_ident ident_name

  abbrev pub new_value : VariablesProvider Ty Val → String → GoMap Val → Val
  new_value p struct_type fields = p.inner.new_value struct_type fields

  -- Fields registered one after the other.
  abbrev pub register_all : VariablesProvider Ty Val → List (String × Ty) → VariablesProvider Ty Val
  register_all p [] = p
  register_all p ((name, t) ∷ fs) = register_all (register_field p name t) fs

  fields-register_all :
      (p : VariablesProvider Ty Val) (fs : List (String × Ty)) (k : String)
      → lookup k (register_all p fs).fields ≡ last_type k fs (lookup k p.fields)
  unfolding register_field
  fields-register_all p [] k = refl
  fields-register_all p ((name, t) ∷ fs) k =
      rw (fields-register_all (register_field p name t) fs k, lookup-insert name k t p.fields)

  inner-register_all :
      (p : VariablesProvider Ty Val) (fs : List (String × Ty)) → (register_all p fs).inner ≡ p.inner
  unfolding register_field
  inner-register_all p [] = refl
  inner-register_all p ((name, t) ∷ fs) = inner-register_all (register_field p name t) fs

  names-register_all :
      (p : VariablesProvider Ty Val) (fs : List (String × Ty))
      → (register_all p fs).names ≡ p.names ++ names_of fs
  unfolding register_field
  names-register_all p [] = sym (append-nil p.names)
  names-register_all p ((name, t) ∷ fs) =
      names-register_all (register_field p name t) fs
      ∙ append_assoc p.names (name ∷ []) (names_of fs)

  -- After a series of registrations on a new provider, a field of `variables` has the type registered
  -- last under its name, and a name that was not registered is no field; the names are listed in the
  -- order of registration, once for each registration; the type of `variables` itself is known; and any
  -- other struct type, and the enumerations, identifiers and new values, are the inner provider's.
  register_all_lem :
      (inner : InnerProvider Ty Val) (fs : List (String × Ty)) (struct_type field_name : String)
      (t : Ty) (values : GoMap Val)
      → let p = register_all (new_variables_provider inner) fs in
        (find_struct_field_type p struct_type field_name ≡ (
          if struct_type == variables_type_name
          then last_type field_name fs none
          else inner.find_struct_field_type struct_type field_name))
        × (find_struct_field_names p struct_type ≡ (
            if struct_type == variables_type_name
            then some (names_of fs)
            else inner.find_struct_field_names struct_type))
        × (find_struct_type p t struct_type ≡ (
            if struct_type == variables_type_name
            then some t
            else inner.find_struct_type struct_type))
        × (enum_value p struct_type ≡ inner.enum_value struct_type)
        × (find_ident p struct_type ≡ inner.find_ident struct_type)
        × (new_value p struct_type values ≡ inner.new_value struct_type values)
  unfolding new_variables_provider find_struct_field_type find_struct_field_names find_struct_type
  register_all_lem inner fs struct_type field_name t values =
      let same : (register_all (new_variables_provider inner) fs).inner ≡ inner =
        inner-register_all (new_variables_provider inner) fs in
      (
        rw (
          inner-register_all (new_variables_provider inner) fs,
          fields-register_all (new_variables_provider inner) fs field_name,
        ),
        rw (
          inner-register_all (new_variables_provider inner) fs,
          names-register_all (new_variables_provider inner) fs,
        ),
        rw same,
        ap (λ (i : InnerProvider Ty Val). i.enum_value struct_type) same,
        ap (λ (i : InnerProvider Ty Val). i.find_ident struct_type) same,
        ap (λ (i : InnerProvider Ty Val). i.new_value struct_type values) same,
      )
