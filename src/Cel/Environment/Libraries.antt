-- ===== src/Cel/Environment/Libraries.antt =====
-- The environment of a policy: the functions of our three libraries, and the variables.
use kyverno_http_authorizer.Base.{
  Bool, true, false, String, inl, refl, ◌≢◌, ◌⊎◌, eq_iff, ◌==◌, List, [], ◌∷◌, ◌++◌, map, ◌≡◌, inr,
  All,
}
use kyverno_http_authorizer.Http.Functions.{Adapter}
use kyverno_http_authorizer.Http.Library.{http_library}
use kyverno_http_authorizer.Jwt.{Jose}
use kyverno_http_authorizer.Jwt.Library.{jwt_library, jwk_library}
use kyverno_http_authorizer.Cel.Environment.{
  jwk_library_name, jwt_library_name, CelGo, EnvOption, http_extend_env, jwk_extend_env,
  jwt_extend_env, common_options, http_lib, jwk_lib, jwt_lib, http_compile_options,
  jwk_compile_options, jwt_compile_options, new_env, policy_env,
}
use kyverno_http_authorizer.Cel.Environment.Declares.{
  Declaration, variable, declarations, apply_all, Keeps, IsCel, Gives, Keeps-apply_all, Gives-cons,
  Gives-first, split, split-append, Loaded-apply_all, Gives-extend, Keeps-extend, Gives-lib,
  Keeps-lib, All-append, All-mono,
}

-- The variables that the expressions of a policy may use, with their types.
abbrev pub variables_of_policy : List Declaration
variables_of_policy =
    variable "object" "http.Request"
    ∷ variable "http" "http.Context"
    ∷ variable "image" "imagedata.Context"
    ∷ variable "variables" "kyverno.variables"
    ∷ variable "resource" "resource.Context"
    ∷ []

-- The declarations of the libraries of pkg/cel/libs, which do not depend on what their functions use.
abbrev pub library_declarations : {V : Type 0} → Adapter V → Jose → List Declaration
library_declarations a j =
    (declarations (jwk_library j) ++ declarations (jwt_library j)) ++ declarations (http_library a)

names_differ : jwk_library_name ≢ jwt_library_name
names_differ h =
    let same : ("kyverno.jwk" == "kyverno.jwt") ≡ true = (eq_iff "kyverno.jwk" "kyverno.jwt").1 h in
    cc

module _ (go : CelGo) {Declares : go.Env → Declaration → Type 0} {Loaded : go.Env → String → Type 0}
    (cel : IsCel go Declares Loaded) (a : Adapter go.Val) (j : Jose) where
  open go use {Env, native_types}

  -- A library of native types and functions.
  library-Gives :
      (names : List String) (tags : Bool) (o : EnvOption go) (ds : List Declaration)
      → Gives go cel o ds
      → Gives go cel (apply_all (native_types names tags ∷ o ∷ [])) ds
  library-Gives names tags o ds g e env h =
      let (e', q, r) = split go cel (native_types names tags) (o ∷ []) e env h in
      Gives-first go cel o [] ds g tt e' env r

  http_extends : Gives go cel (http_extend_env go) (declarations (http_library a))
  unfolding http_extend_env
  http_extends e env h = Gives-extend go cel (http_library (go.http_adapter e)) e env h

  http-Keeps : Keeps go Declares (http_extend_env go)
  unfolding http_extend_env
  http-Keeps e env d h = Keeps-extend go cel (http_library (go.http_adapter e)) e env d h

  jwk_extends : Gives go cel (jwk_extend_env go) (declarations (jwk_library j))
  unfolding jwk_extend_env
  jwk_extends e env h = Gives-extend go cel (jwk_library (go.jose e)) e env h

  jwk-Keeps : Keeps go Declares (jwk_extend_env go)
  unfolding jwk_extend_env
  jwk-Keeps e env d h = Keeps-extend go cel (jwk_library (go.jose e)) e env d h

  jwt_extends : Gives go cel (jwt_extend_env go) (declarations (jwt_library j))
  unfolding jwt_extend_env
  jwt_extends e env h = Gives-extend go cel (jwt_library (go.jose e)) e env h

  jwt-Keeps : Keeps go Declares (jwt_extend_env go)
  unfolding jwt_extend_env
  jwt-Keeps e env d h = Keeps-extend go cel (jwt_library (go.jose e)) e env d h

  http_lib-Gives : Gives go cel (http_lib go) (declarations (http_library a))
  http_lib-Gives = Gives-lib go cel (http_compile_options go) (declarations (http_library a)) (
      library-Gives ("http.Request" ∷ "http.Response" ∷ "http.KV" ∷ []) true (http_extend_env go)
        (declarations (http_library a)) http_extends)

  http_lib-Keeps : Keeps go Declares (http_lib go)
  http_lib-Keeps = Keeps-lib go cel (http_compile_options go) (
    cel.native_types_keeps ("http.Request" ∷ "http.Response" ∷ "http.KV" ∷ []) true,
    (http-Keeps, tt),
  )

  jwk_lib-Gives :
      (e env : Env)
      → (Loaded e jwk_library_name → ⊥)
      → jwk_lib go e ≡ inr env
      → All (Declares env) (declarations (jwk_library j))
  jwk_lib-Gives e env new h =
      let (e', m, r) =
        cel.singleton_applies jwk_library_name (jwk_compile_options go) e env new h in
      library-Gives ("jwk.Set" ∷ []) false (jwk_extend_env go) (declarations (jwk_library j))
        jwk_extends e' env r

  jwt_lib-Gives :
      (e env : Env)
      → (Loaded e jwk_library_name → ⊥)
      → (Loaded e jwt_library_name → ⊥)
      → jwt_lib go e ≡ inr env
      → All (Declares env) (declarations (jwk_library j) ++ declarations (jwt_library j))
  jwt_lib-Gives e env new_jwk new_jwt h =
      let rest : List (EnvOption go) =
        native_types ("jwt.Token" ∷ []) false ∷ jwt_extend_env go ∷ [] in
      let (e', m, r) =
        cel.singleton_applies jwt_library_name (jwt_compile_options go) e env new_jwt h in
      let (e'', q, r') = split go cel (jwk_lib go) rest e' env r in
      All-append (Declares env) (declarations (jwk_library j)) (declarations (jwt_library j))
        (All-mono (Declares e'') (Declares env) (declarations (jwk_library j))
          (λ d.
            Keeps-apply_all go cel rest
              (cel.native_types_keeps ("jwt.Token" ∷ []) false, (jwt-Keeps, tt)) e'' env d r')
          (jwk_lib-Gives e' e'' (λ l. new_jwk (m.1 jwk_library_name names_differ l)) q))
        (library-Gives ("jwt.Token" ∷ []) false (jwt_extend_env go) (declarations (jwt_library j))
          jwt_extends e'' env r')

  -- The libraries behind jwt.Lib in NewEnv.
  behind_jwt-Gives :
      Gives go cel
        (apply_all (go.kyverno_http ∷ http_lib go ∷ go.kyverno_resource ∷ []))
        (declarations (http_library a))
  behind_jwt-Gives e env h =
      let (e', q, r) =
        split go cel go.kyverno_http (http_lib go ∷ go.kyverno_resource ∷ []) e env h in
      Gives-first go cel (http_lib go) (go.kyverno_resource ∷ []) (declarations (http_library a))
        http_lib-Gives (cel.resource_keeps, tt) e' env r

  absent :
      (e e' : Env) (name : String)
      → (name ≡ jwk_library_name) ⊎ (name ≡ jwt_library_name)
      → apply_all (common_options go) e ≡ inr e'
      → Loaded e' name
      → Loaded e name
  absent e e' name n common l =
      Loaded-apply_all go cel (common_options go) e e' name cel.common_loads n common l

  new_env-Gives :
      (base : Env) → new_env go ≡ inr base → All (Declares base) (library_declarations a j)
  unfolding new_env
  new_env-Gives base h =
      let rest : List (EnvOption go) = go.kyverno_http ∷ http_lib go ∷ go.kyverno_resource ∷ [] in
      let (e, new_jwk, new_jwt, q) = cel.new_applies _ base h in
      let (e', common, r) = split-append go cel (common_options go) (jwt_lib go ∷ rest) e base q in
      let (e'', q', r') = split go cel (jwt_lib go) rest e' base r in
      All-append (Declares base) (declarations (jwk_library j) ++ declarations (jwt_library j))
        (declarations (http_library a))
        (All-mono (Declares e'') (Declares base)
          (declarations (jwk_library j) ++ declarations (jwt_library j))
          (λ d.
            Keeps-apply_all go cel rest (cel.http_keeps, (http_lib-Keeps, (cel.resource_keeps, tt)))
              e'' base d r')
          (jwt_lib-Gives e' e'' (λ l. new_jwk (absent e e' jwk_library_name (inl refl) common l))
            (λ l. new_jwt (absent e e' jwt_library_name (inr refl) common l)) q'))
        (behind_jwt-Gives e'' base r')

  abbrev variable_options : List (String × String) → List (EnvOption go)
  variable_options vs =
      map (λ (v : String × String). go.variable v.0 v.1) vs ++ go.custom_type_provider ∷ []

  variables-Keep : (vs : List (String × String)) → All (Keeps go Declares) (variable_options vs)
  variables-Keep [] = (cel.type_provider_keeps, tt)
  variables-Keep ((name, t) ∷ vs) = (cel.variable_keeps name t, variables-Keep vs)

  variables-Give :
      (vs : List (String × String))
      → Gives go cel
          (apply_all (variable_options vs))
          (map (λ (v : String × String). variable v.0 v.1) vs)
  variables-Give [] e env h = tt
  variables-Give ((name, t) ∷ vs) e env h =
      Gives-cons go cel (go.variable name t) (variable_options vs) (variable name t ∷ [])
        (map (λ (v : String × String). variable v.0 v.1) vs)
        (λ e env h. (cel.variable_declares name t e env h, tt)) (variables-Keep vs)
        (variables-Give vs) e env h

  abbrev variables : List (String × String)
  variables =
      ("object", "http.Request")
      ∷ ("http", "http.Context")
      ∷ ("image", "imagedata.Context")
      ∷ ("variables", "kyverno.variables")
      ∷ ("resource", "resource.Context")
      ∷ []

  -- An environment that NewEnv makes declares every overload of the libraries of pkg/cel/libs, under its
  -- name and with its types; and the environment that Compile makes of it, if it makes one, declares them as
  -- well, and the five variables of a policy with their types. Here cel-go applies options in their order, and none
  -- takes a declaration back.
  pub policy_env-new_env :
      (base env : Env)
      → new_env go ≡ inr base
      → policy_env go base ≡ inr env
      → All (Declares base) (library_declarations a j)
        × All (Declares env) (library_declarations a j ++ variables_of_policy)
  unfolding policy_env
  policy_env-new_env base env h q =
      let r = cel.extend_applies (variable_options variables) base env q in
      (
        new_env-Gives base h,
        All-append (Declares env) (library_declarations a j) variables_of_policy
            (All-mono (Declares base) (Declares env) (library_declarations a j)
              (λ d.
                Keeps-apply_all go cel (variable_options variables) (variables-Keep variables) base
                  env d r)
              (new_env-Gives base h))
            (variables-Give variables base env r),
      )
