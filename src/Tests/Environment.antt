-- ===== src/Tests/Environment.antt =====
-- The theorem on the environment of a policy, at an environment that is the list of its declarations.
use kyverno_http_authorizer.Base.{
  String, List, [], ◌∷◌, ◌++◌, map, ◌≡◌, refl, Error, ◌⊎◌, inl, inr, All, subst, true, false,
}
use kyverno_http_authorizer.Cel.Overloads.{
  Overload, response_type, string_type, int_type, kv_type, string_list_type, token_type, set_type,
}
use kyverno_http_authorizer.Cel.Environment.{
  CelGo, new_env, policy_env, http_extend_env, jwk_extend_env, jwt_extend_env, options_of,
}
use kyverno_http_authorizer.Cel.Environment.Declares.{
  Declaration, overload, variable, overload_of, apply_all, IsCel, Keeps, LoadsOthers,
}
use kyverno_http_authorizer.Cel.Environment.Libraries.{
  library_declarations, variables_of_policy, policy_env-new_env,
}
use kyverno_http_authorizer.Tests.Functions.{CelValue, adapter}
use kyverno_http_authorizer.Tests.Tokens.{jose}

abbrev Declared : List Declaration → Declaration → Type 0
Declared [] d = ⊥
Declared (x ∷ xs) d = (x ≡ d) ⊎ Declared xs d

abbrev unchanged : List Declaration → Error ⊎ List Declaration
unchanged env = inr env

abbrev declare :
    {V S : Type 0} → String → List (Overload V S) → List Declaration → Error ⊎ List Declaration
declare name os env = inr (map (overload_of name) os ++ env)

abbrev go : CelGo
go = record {
  Env = List Declaration;
  Val = CelValue;
  new_env = λ os. apply_all os [];
  extend = λ env os. apply_all os env;
  lib = λ name. apply_all;
  function = declare;
  variable = λ name t env. inr (variable name t ∷ env);
  custom_type_provider = unchanged;
  native_types = λ names tags. unchanged;
  http_adapter = λ env. adapter;
  jose = λ env. jose;
  homogeneous_aggregate_literals = unchanged;
  eagerly_validate_declarations = unchanged;
  default_utc_time_zone = unchanged;
  cross_type_numeric_comparisons = unchanged;
  optional_types = unchanged;
  ext_bindings = unchanged;
  ext_encoders = unchanged;
  ext_lists = unchanged;
  ext_math = unchanged;
  ext_protos = unchanged;
  ext_sets = unchanged;
  ext_strings = unchanged;
  library_cidr = unchanged;
  library_format = unchanged;
  library_ip = unchanged;
  library_lists = unchanged;
  library_regex = unchanged;
  library_urls = unchanged;
  kyverno_http = unchanged;
  kyverno_resource = unchanged;
}

behind : (ds env : List Declaration) (d : Declaration) → Declared env d → Declared (ds ++ env) d
behind [] env d h = h
behind (x ∷ ds) env d h = inr (behind ds env d h)

among :
    (before ds env : List Declaration)
    → ((d : Declaration) → Declared (ds ++ env) d → Declared before d)
    → All (Declared before) ds
among before [] env h = tt
among before (x ∷ ds) env h = (h x (inl refl), among before ds env (λ d m. h d (inr m)))

unchanged-Keeps : Keeps go Declared unchanged
unchanged-Keeps e env d h k = let same : e ≡ env = cc in subst (λ x. Declared x d) same k

-- No library is ever marked as loaded.
abbrev NoneLoaded : List Declaration → String → Type 0
NoneLoaded env name = ⊥

loads_others : LoadsOthers go NoneLoaded unchanged
loads_others e env name ours h l = l

go-IsCel : IsCel go Declared NoneLoaded
go-IsCel = record {
  new_applies = λ os env h. ([], λ l. l, λ l. l, h);
  extend_applies = λ os e env h. h;
  lib_applies = λ os e env h. h;
  singleton_applies = λ name os e env new h. (e, (λ d k. k, λ n other l. l), h);
  common_loads = (
    loads_others,
    (
      loads_others,
      (
        loads_others,
        (
          loads_others,
          (
            loads_others,
            (
              loads_others,
              (
                loads_others,
                (
                  loads_others,
                  (
                    loads_others,
                    (
                      loads_others,
                      (
                        loads_others,
                        (
                          loads_others,
                          (
                            loads_others,
                            (
                              loads_others,
                              (loads_others, (loads_others, (loads_others, (loads_others, tt)))),
                            ),
                          ),
                        ),
                      ),
                    ),
                  ),
                ),
              ),
            ),
          ),
        ),
      ),
    ),
  );
  function_declares = λ name os e env h.
      let same : map (overload_of name) os ++ e ≡ env = cc in
      subst (λ x. All (Declared x) (map (overload_of name) os)) same
        (among (map (overload_of name) os ++ e) (map (overload_of name) os) e (λ d m. m));
  variable_declares = λ name t e env h.
      let same : (variable name t ∷ e) ≡ env = cc in
      subst (λ x. Declared x (variable name t)) same (inl refl);
  function_keeps = λ name os e env d h k.
      let same : map (overload_of name) os ++ e ≡ env = cc in
      subst (λ x. Declared x d) same (behind (map (overload_of name) os) e d k);
  variable_keeps = λ name t e env d h k.
      let same : (variable name t ∷ e) ≡ env = cc in subst (λ x. Declared x d) same (inr k);
  native_types_keeps = λ names tags. unchanged-Keeps;
  type_provider_keeps = unchanged-Keeps;
  common_keeps = (
    unchanged-Keeps,
    (
      unchanged-Keeps,
      (
        unchanged-Keeps,
        (
          unchanged-Keeps,
          (
            unchanged-Keeps,
            (
              unchanged-Keeps,
              (
                unchanged-Keeps,
                (
                  unchanged-Keeps,
                  (
                    unchanged-Keeps,
                    (
                      unchanged-Keeps,
                      (
                        unchanged-Keeps,
                        (
                          unchanged-Keeps,
                          (
                            unchanged-Keeps,
                            (
                              unchanged-Keeps,
                              (
                                unchanged-Keeps,
                                (unchanged-Keeps, (unchanged-Keeps, (unchanged-Keeps, tt))),
                              ),
                            ),
                          ),
                        ),
                      ),
                    ),
                  ),
                ),
              ),
            ),
          ),
        ),
      ),
    ),
  );
  http_keeps = unchanged-Keeps;
  resource_keeps = unchanged-Keeps;
}

-- The declarations, the last first.
abbrev base : List Declaration
base =
    overload "withBody" "with_body" true (response_type ∷ string_type ∷ []) response_type
    ∷ overload "withHeader" "with_header" true (response_type ∷ string_type ∷ string_type ∷ [])
        response_type
    ∷ overload "http.response" "http_response" false [] response_type
    ∷ overload "status" "with_status" true (response_type ∷ int_type ∷ []) response_type
    ∷ overload "getAll" "get_header_all" true (kv_type ∷ string_type ∷ []) string_list_type
    ∷ overload "get" "get_header_value" true (kv_type ∷ string_type ∷ []) string_type
    ∷ overload "jwt.Decode" "decode_string_string" false (string_type ∷ string_type ∷ []) token_type
    ∷ overload "jwt.Decode" "decode_string_set" false (string_type ∷ set_type ∷ []) token_type
    ∷ overload "jwks.Fetch" "fetch_string" false (string_type ∷ []) set_type
    ∷ []

abbrev extended : List Declaration
extended =
    variable "resource" "resource.Context"
    ∷ variable "variables" "kyverno.variables"
    ∷ variable "image" "imagedata.Context"
    ∷ variable "http" "http.Context"
    ∷ variable "object" "http.Request"
    ∷ base

policy_env-new_env_example :
    All (Declared base) (library_declarations adapter jose)
    × All (Declared extended) (library_declarations adapter jose ++ variables_of_policy)
unfolding new_env policy_env http_extend_env jwk_extend_env jwt_extend_env options_of
policy_env-new_env_example = policy_env-new_env go go-IsCel adapter jose base extended refl refl
