-- ===== src/Cel/Environment/Declares.antt =====
-- What an environment declares: the functions of our libraries and the variables of a policy.
use kyverno_http_authorizer.Base.{
  String, List, [], ◌∷◌, ◌++◌, map, ◌≡◌, refl, Error, ◌⊎◌, inl, inr, All, Bool, subst, sym, none,
  some, ◌≢◌,
}
use kyverno_http_authorizer.GoMap.{GoMap}
use kyverno_http_authorizer.Cel.Overloads.{CelType, Overload}
use kyverno_http_authorizer.Cel.Environment.{
  jwk_library_name, jwt_library_name, CelGo, EnvOption, options_of, common_options,
}

-- A declaration: of an overload of a function, by its name, whether it is a member, and its types; or of a variable.
pub data Declaration : Type 0 where
  overload : String → String → Bool → List CelType → CelType → Declaration
  variable : String → String → Declaration

module _ {V S : Type 0} where
  abbrev pub overload_of : String → Overload V S → Declaration
  overload_of function o = overload function o.name o.member o.args o.result

  -- The declarations of a library.
  abbrev pub declarations : GoMap (List (Overload V S)) → List Declaration
  declarations [] = []
  declarations ((function, os) ∷ decls) = map (overload_of function) os ++ declarations decls

pub All-append :
    {A : Type 0} (P : A → Type 0) (xs ys : List A) → All P xs → All P ys → All P (xs ++ ys)
All-append P [] ys a b = b
All-append P (x ∷ xs) ys a b = (a.0, All-append P xs ys a.1 b)

pub All-mono :
    {A : Type 0} (P Q : A → Type 0) (xs : List A) → ((x : A) → P x → Q x) → All P xs → All Q xs
All-mono P Q [] h a = tt
All-mono P Q (x ∷ xs) h a = (h x a.0, All-mono P Q xs h a.1)

-- The options of a list one after the other, up to the first that fails.
abbrev pub apply_all : {Env : Type 0} → List (Env → Error ⊎ Env) → Env → Error ⊎ Env
apply_all [] env = inr env
apply_all (o ∷ os) env = elim (o env) [ inl e ↦ inl e | inr env' ↦ apply_all os env' ]

module _ (go : CelGo) where
  open go use {Env}

  abbrev pub Keeps : (Env → Declaration → Type 0) → EnvOption go → Type 0
  Keeps Declares o = (e env : Env) (d : Declaration) → o e ≡ inr env → Declares e d → Declares env d

  abbrev pub Marks :
      (Env → Declaration → Type 0) → (Env → String → Type 0) → String → Env → Env → Type 0
  Marks Declares Loaded name e e' =
      ((d : Declaration) → Declares e d → Declares e' d)
      × ((n : String) → n ≢ name → Loaded e' n → Loaded e n)

  -- The option loads none of our libraries.
  abbrev pub LoadsOthers : (Env → String → Type 0) → EnvOption go → Type 0
  LoadsOthers Loaded o =
      (e env : Env) (name : String)
      → (name ≡ jwk_library_name) ⊎ (name ≡ jwt_library_name)
      → o e ≡ inr env
      → Loaded env name
      → Loaded e name

  -- What cel-go documents: NewEnv, Extend and Lib apply options in their order, Lib a library with a name only
  -- where it is not loaded yet, Function and Variable declare what they are given, and no option takes a
  -- declaration back. No option in front of our libraries loads one of them.
  pub record IsCel (Declares : Env → Declaration → Type 0) (Loaded : Env → String → Type 0)
      : Type 1 where
    pub new_applies :
        (os : List (EnvOption go)) (env : Env)
        → go.new_env os ≡ inr env
        → (e : Env) × (Loaded e jwk_library_name → ⊥)
          × (Loaded e jwt_library_name → ⊥)
          × (apply_all os e ≡ inr env)
    pub extend_applies :
        (os : List (EnvOption go)) (e env : Env)
        → go.extend e os ≡ inr env
        → apply_all os e ≡ inr env
    pub lib_applies :
        (os : List (EnvOption go)) (e env : Env)
        → go.lib none os e ≡ inr env
        → apply_all os e ≡ inr env
    pub singleton_applies :
        (name : String) (os : List (EnvOption go)) (e env : Env)
        → (Loaded e name → ⊥)
        → go.lib (some name) os e ≡ inr env
        → (e' : Env) × Marks Declares Loaded name e e' × (apply_all os e' ≡ inr env)
    pub common_loads : All (LoadsOthers Loaded) (common_options go)
    pub function_declares :
        {V S : Type 0} (name : String) (os : List (Overload V S)) (e env : Env)
        → go.function name os e ≡ inr env
        → All (Declares env) (map (overload_of name) os)
    pub variable_declares :
        (name type_name : String) (e env : Env)
        → go.variable name type_name e ≡ inr env
        → Declares env (variable name type_name)
    pub function_keeps :
        {V S : Type 0} (name : String) (os : List (Overload V S))
        → Keeps Declares (go.function name os)
    pub variable_keeps : (name type_name : String) → Keeps Declares (go.variable name type_name)
    pub native_types_keeps :
        (names : List String) (tags : Bool) → Keeps Declares (go.native_types names tags)
    pub type_provider_keeps : Keeps Declares go.custom_type_provider
    pub common_keeps : All (Keeps Declares) (common_options go)
    pub http_keeps : Keeps Declares go.kyverno_http
    pub resource_keeps : Keeps Declares go.kyverno_resource

  module _ {Declares : Env → Declaration → Type 0} {Loaded : Env → String → Type 0}
      (cel : IsCel Declares Loaded) where
    -- An option declares the declarations of a list.
    abbrev pub Gives : EnvOption go → List Declaration → Type 0
    Gives o ds = (e env : Env) → o e ≡ inr env → All (Declares env) ds

    pub split :
        (o : EnvOption go) (os : List (EnvOption go)) (e env : Env)
        → apply_all (o ∷ os) e ≡ inr env
        → (e' : Env) × (o e ≡ inr e') × (apply_all os e' ≡ inr env)
    split o os e env h = by_result (o e) refl h
      where
        by_result :
            (r : Error ⊎ Env)
            → o e ≡ r
            → (elim r [ inl x ↦ inl x | inr env' ↦ apply_all os env' ]) ≡ inr env
            → (e' : Env) × (o e ≡ inr e') × (apply_all os e' ≡ inr env)
        by_result (inl x) q h = cc
        by_result (inr e') q h = (e', q, h)

    pub Keeps-apply_all :
        (os : List (EnvOption go)) → All (Keeps Declares) os → Keeps Declares (apply_all os)
    Keeps-apply_all [] a e env d h k = let same : e ≡ env = cc in subst (λ x. Declares x d) same k
    Keeps-apply_all (o ∷ os) a e env d h k =
        let (e', q, r) = split o os e env h in Keeps-apply_all os a.1 e' env d r (a.0 e e' d q k)

    pub Gives-cons :
        (o : EnvOption go) (os : List (EnvOption go)) (ds es : List Declaration)
        → Gives o ds
        → All (Keeps Declares) os
        → Gives (apply_all os) es
        → Gives (apply_all (o ∷ os)) (ds ++ es)
    Gives-cons o os ds es g a h e env q =
        let (e', q', r) = split o os e env q in
        All-append (Declares env) ds es
          (All-mono (Declares e') (Declares env) ds (λ d. Keeps-apply_all os a e' env d r)
            (g e e' q'))
          (h e' env r)

    pub Gives-first :
        (o : EnvOption go) (os : List (EnvOption go)) (ds : List Declaration)
        → Gives o ds
        → All (Keeps Declares) os
        → Gives (apply_all (o ∷ os)) ds
    Gives-first o os ds g a e env q =
        let (e', q', r) = split o os e env q in
        All-mono (Declares e') (Declares env) ds (λ d. Keeps-apply_all os a e' env d r) (g e e' q')

    -- What a list of options makes, in two steps.
    pub split-append :
        (os ps : List (EnvOption go)) (e env : Env)
        → apply_all (os ++ ps) e ≡ inr env
        → (e' : Env) × (apply_all os e ≡ inr e') × (apply_all ps e' ≡ inr env)
    split-append [] ps e env h = (e, refl, h)
    split-append (o ∷ os) ps e env h =
        let (e', q, r) = split o (os ++ ps) e env h in
        let (e'', q', r') = split-append os ps e' env r in (e'', rw q q', r')

    pub Loaded-apply_all :
        (os : List (EnvOption go)) (e env : Env) (name : String)
        → All (LoadsOthers Loaded) os
        → (name ≡ jwk_library_name) ⊎ (name ≡ jwt_library_name)
        → apply_all os e ≡ inr env
        → Loaded env name
        → Loaded e name
    Loaded-apply_all [] e env name a n h l =
        let same : e ≡ env = cc in subst (λ x. Loaded x name) (sym same) l
    Loaded-apply_all (o ∷ os) e env name a n h l =
        let (e', q, r) = split o os e env h in
        a.0 e e' name n q (Loaded-apply_all os e' env name a.1 n r l)

    Gives-function :
        {V S : Type 0} (name : String) (os : List (Overload V S))
        → Gives (go.function name os) (map (overload_of name) os)
    Gives-function name os e env h = cel.function_declares name os e env h

    Keeps-options_of :
        {V S : Type 0} (decls : GoMap (List (Overload V S)))
        → All (Keeps Declares) (options_of go decls)
    unfolding options_of
    Keeps-options_of [] = tt
    Keeps-options_of ((name, os) ∷ decls) = (cel.function_keeps name os, Keeps-options_of decls)

    Gives-options_of :
        {V S : Type 0} (decls : GoMap (List (Overload V S)))
        → Gives (apply_all (options_of go decls)) (declarations decls)
    unfolding options_of
    Gives-options_of [] e env h = tt
    Gives-options_of ((name, os) ∷ decls) e env h =
        Gives-cons (go.function name os) (options_of go decls) _ _ (Gives-function name os)
          (Keeps-options_of decls) (Gives-options_of decls) e env h

    -- The extension of an environment by the functions of a library.
    pub Gives-extend :
        {V S : Type 0} (decls : GoMap (List (Overload V S))) (e env : Env)
        → go.extend e (options_of go decls) ≡ inr env
        → All (Declares env) (declarations decls)
    Gives-extend decls e env h =
        Gives-options_of decls e env (cel.extend_applies (options_of go decls) e env h)

    pub Keeps-extend :
        {V S : Type 0} (decls : GoMap (List (Overload V S))) (e env : Env) (d : Declaration)
        → go.extend e (options_of go decls) ≡ inr env
        → Declares e d
        → Declares env d
    Keeps-extend decls e env d h =
        Keeps-apply_all (options_of go decls) (Keeps-options_of decls) e env d
          (cel.extend_applies (options_of go decls) e env h)

    pub Gives-lib :
        (os : List (EnvOption go)) (ds : List Declaration)
        → Gives (apply_all os) ds
        → Gives (go.lib none os) ds
    Gives-lib os ds g e env h = g e env (cel.lib_applies os e env h)

    pub Keeps-lib :
        (os : List (EnvOption go)) → All (Keeps Declares) os → Keeps Declares (go.lib none os)
    Keeps-lib os a e env d h = Keeps-apply_all os a e env d (cel.lib_applies os e env h)
