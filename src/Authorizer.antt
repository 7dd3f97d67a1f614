-- ===== src/Authorizer.antt =====
-- pkg/httpauth/handlers.go: the handler that asks each policy in turn. `canonical` is the canonical
-- form of a header's key, and `read_request` is http.ReadRequest on a request's body.
pub mod Headers
pub mod Decision
use kyverno_http_authorizer.Base.{
  ℕ, pos, String, Option, none, some, List, [], ◌∷◌, map, Bool, Result, ok, err, panic, ◌>>=◌,
  Error, if◌then◌else◌,
}
use kyverno_http_authorizer.GoMap.{GoMap}
use kyverno_http_authorizer.Http.{Kv, Request, Response, ServerRequest, new_request, get_inner_map}
use kyverno_http_authorizer.Writer.{Writer, set_header, write_header, write}
use kyverno_http_authorizer.Engine.{CompiledPolicy, Provider, RequestFunc}

-- writeErrResp
unfoldable pub write_err_resp : Error → Writer → Result Writer
unfolding write_header write
write_err_resp e w = do w ← write_header (pos 500) w; ok (write e w)

module _ (canonical : String → String) where
  -- The loop over the values of one header.
  unfoldable pub set_values : String → List String → Writer → Writer
  unfolding set_header
  set_values k [] w = w
  set_values k (val ∷ v) w = set_values k v (set_header canonical k val w)

  -- The loop over the headers of the response.
  unfoldable pub set_headers : GoMap (List String) → Writer → Writer
  unfolding set_values
  set_headers [] w = w
  set_headers ((k, v) ∷ m) w = set_headers m (set_values k v w)

  unfoldable pub set_kv : Option Kv → Writer → Writer
  unfolding set_headers
  set_kv none w = w
  set_kv (some kv) w = elim (get_inner_map kv) [ none ↦ w | some m ↦ set_headers m w ]

  -- writeResponse
  unfoldable pub write_response : Response → Writer → Result Writer
  unfolding set_kv write_header write
  write_response resp w = do
    w ← write_header resp.status (set_kv resp.headers w)
    ok (write resp.body w)

  -- The loop over the request functions: the first response or error is written.
  unfoldable pub run_funcs : List RequestFunc → Writer → Result Writer
  run_funcs [] w = ok w
  run_funcs (r ∷ rest) w = elim r [
    | err e ↦ write_err_resp e w
    | panic ↦ panic
    | ok resp ↦ elim resp [ some resp ↦ write_response resp w | none ↦ run_funcs rest w ]
  ]

  module _ {R : Type 0} (resource_ctx : R) (provider : Provider R) where
    -- The handler once it has the request to decide on.
    unfoldable pub authorize : ServerRequest → Writer → Result Writer
    unfolding run_funcs
    authorize r w = elim provider [
      | err e ↦ write_err_resp e w
      | panic ↦ panic
      | ok pols ↦ elim (new_request r) [
        | err e ↦ write_err_resp e w
        | panic ↦ panic
        | ok http_req ↦ run_funcs (map (λ pol. pol.for_http resource_ctx http_req) pols) w
      ]
    ]

    -- NewHandler
    unfoldable pub handle :
        (Result (List ℕ) → Result ServerRequest) → Bool → ServerRequest → Writer → Result Writer
    unfolding authorize
    handle read_request nested_request r w =
        if nested_request
        then elim (read_request r.body) [
          | err e ↦ write_err_resp e w
          | panic ↦ panic
          | ok req ↦ authorize req w
        ]
        else authorize r w
