-- ===== src/Cel/Environment.antt =====
-- pkg/cel/env.go, the CompileOptions and extendEnv of the libraries of pkg/cel/libs, and the environment of a
-- policy (compiler.go). What these use of cel-go and of the libraries of Kubernetes and Kyverno is the
-- record `CelGo`; an option is a function on environments that may fail.
pub mod Declares
pub mod Libraries
use kyverno_http_authorizer.Base.{
  Bool, true, false, Option, none, some, String, List, [], ◌∷◌, ◌++◌, Error, ◌⊎◌,
}
use kyverno_http_authorizer.GoMap.{GoMap}
use kyverno_http_authorizer.Cel.Overloads.{Overload}
use kyverno_http_authorizer.Http.Functions.{Adapter}
use kyverno_http_authorizer.Http.Library.{http_library}
use kyverno_http_authorizer.Jwt.{Jose}
use kyverno_http_authorizer.Jwt.Library.{jwt_library, jwk_library}

pub record CelGo : Type 1 where
  pub Env : Type 0
  pub Val : Type 0
  -- cel.NewEnv and Extend.
  pub new_env : List (Env → Error ⊎ Env) → Error ⊎ Env
  pub extend : Env → List (Env → Error ⊎ Env) → Error ⊎ Env
  -- cel.Lib, of a library with this LibraryName, if it has the method, with these CompileOptions and
  -- without ProgramOptions.
  pub lib : Option String → List (Env → Error ⊎ Env) → Env → Error ⊎ Env
  pub function : {V S : Type 0} → String → List (Overload V S) → Env → Error ⊎ Env
  pub variable : String → String → Env → Error ⊎ Env
  pub custom_type_provider : Env → Error ⊎ Env
  -- ext.NativeTypes, of the Go types with these names, with ext.ParseStructTags or without.
  pub native_types : List String → (parse_struct_tags : Bool) → Env → Error ⊎ Env
  -- What the implementations of the functions take from CELTypeAdapter.
  pub http_adapter : Env → Adapter Val
  pub jose : Env → Jose
  -- The other options of NewEnv, before and behind our libraries.
  pub homogeneous_aggregate_literals : Env → Error ⊎ Env
  pub eagerly_validate_declarations : Env → Error ⊎ Env
  pub default_utc_time_zone : Env → Error ⊎ Env
  pub cross_type_numeric_comparisons : Env → Error ⊎ Env
  pub optional_types : Env → Error ⊎ Env
  pub ext_bindings : Env → Error ⊎ Env
  pub ext_encoders : Env → Error ⊎ Env
  pub ext_lists : Env → Error ⊎ Env
  pub ext_math : Env → Error ⊎ Env
  pub ext_protos : Env → Error ⊎ Env
  pub ext_sets : Env → Error ⊎ Env
  pub ext_strings : Env → Error ⊎ Env
  pub library_cidr : Env → Error ⊎ Env
  pub library_format : Env → Error ⊎ Env
  pub library_ip : Env → Error ⊎ Env
  pub library_lists : Env → Error ⊎ Env
  pub library_regex : Env → Error ⊎ Env
  pub library_urls : Env → Error ⊎ Env
  pub kyverno_http : Env → Error ⊎ Env
  pub kyverno_resource : Env → Error ⊎ Env

-- LibraryName of pkg/cel/libs/jwk and of pkg/cel/libs/jwt.
abbrev pub jwk_library_name : String
jwk_library_name = "kyverno.jwk"

abbrev pub jwt_library_name : String
jwt_library_name = "kyverno.jwt"

module _ (go : CelGo) where
  open go use {Env, extend, lib, function, variable, native_types, http_adapter, jose}

  abbrev pub EnvOption : Type 0
  EnvOption = Env → Error ⊎ Env

  -- The loop over libraryDecls.
  unfoldable pub options_of : {V S : Type 0} → GoMap (List (Overload V S)) → List EnvOption
  options_of [] = []
  options_of ((name, overloads) ∷ decls) = function name overloads ∷ options_of decls

  -- pkg/cel/libs/http
  unfoldable pub http_extend_env : EnvOption
  unfolding options_of
  http_extend_env env = extend env (options_of (http_library (http_adapter env)))

  abbrev pub http_compile_options : List EnvOption
  http_compile_options =
      native_types ("http.Request" ∷ "http.Response" ∷ "http.KV" ∷ []) true ∷ http_extend_env ∷ []

  abbrev pub http_lib : EnvOption
  http_lib = lib none http_compile_options

  -- pkg/cel/libs/jwk
  unfoldable pub jwk_extend_env : EnvOption
  unfolding options_of
  jwk_extend_env env = extend env (options_of (jwk_library (jose env)))

  abbrev pub jwk_compile_options : List EnvOption
  jwk_compile_options = native_types ("jwk.Set" ∷ []) false ∷ jwk_extend_env ∷ []

  abbrev pub jwk_lib : EnvOption
  jwk_lib = lib (some jwk_library_name) jwk_compile_options

  -- pkg/cel/libs/jwt, which registers the library of pkg/cel/libs/jwk.
  unfoldable pub jwt_extend_env : EnvOption
  unfolding options_of
  jwt_extend_env env = extend env (options_of (jwt_library (jose env)))

  abbrev pub jwt_compile_options : List EnvOption
  jwt_compile_options = jwk_lib ∷ native_types ("jwt.Token" ∷ []) false ∷ jwt_extend_env ∷ []

  abbrev pub jwt_lib : EnvOption
  jwt_lib = lib (some jwt_library_name) jwt_compile_options

  -- The options of NewEnv that stand before our libraries.
  abbrev pub common_options : List EnvOption
  common_options =
      go.homogeneous_aggregate_literals ∷ go.eagerly_validate_declarations
      ∷ go.default_utc_time_zone ∷ go.cross_type_numeric_comparisons ∷ go.optional_types
      ∷ go.ext_bindings ∷ go.ext_encoders ∷ go.ext_lists ∷ go.ext_math ∷ go.ext_protos ∷ go.ext_sets
      ∷ go.ext_strings ∷ go.library_cidr ∷ go.library_format ∷ go.library_ip ∷ go.library_lists
      ∷ go.library_regex ∷ go.library_urls ∷ []

  -- NewEnv
  unfoldable pub new_env : Error ⊎ Env
  new_env =
      go.new_env (common_options ++ jwt_lib ∷ go.kyverno_http ∷ http_lib ∷ go.kyverno_resource ∷ [])

  -- The environment in which Compile compiles the expressions of a policy.
  unfoldable pub policy_env : Env → Error ⊎ Env
  policy_env base = extend base (
      variable "object" "http.Request"
      ∷ variable "http" "http.Context"
      ∷ variable "image" "imagedata.Context"
      ∷ variable "variables" "kyverno.variables"
      ∷ variable "resource" "resource.Context"
      ∷ go.custom_type_provider
      ∷ [])
