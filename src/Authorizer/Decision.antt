-- ===== src/Authorizer/Decision.antt =====
-- What a client receives: the first policy in order that returns a response or an error decides, and
-- the policies behind it do not matter.
use text.Mathlib.TextLemmas.{nil-append}
use kyverno_http_authorizer.Base.{
  Option-cases, ℕ, ℤ, pos, negsuc, String, Option, none, some, List, [], ◌∷◌, map, ◌≡◌, refl, ◌≢◌,
  Result, ok, err, panic, Error, arith, if◌then◌else◌, Bool, true, false, ◌>>=◌, inl, inr, ◌⊎◌,
}
use kyverno_http_authorizer.GoMap.{GoMap}
use kyverno_http_authorizer.Http.{Kv, Request, Response, ServerRequest, new_request}
use kyverno_http_authorizer.Writer.{
  Writer, Reply, fresh, is_code, is_informational, body_allowed, write_header, write, finish,
}
use kyverno_http_authorizer.Engine.{CompiledPolicy, Provider, RequestFunc}
use kyverno_http_authorizer.Authorizer.{
  write_err_resp, set_kv, write_response, run_funcs, authorize, handle,
}
use kyverno_http_authorizer.Authorizer.Headers.{sent_fields, set_headers-sent_fields}

-- `Decided ctx req pols o`: `o` is what the policies `pols`, asked in order, decide on `req`.
pub data Decided {R : Type 0} (ctx : R) (req : Request)
    : List (CompiledPolicy R) → RequestFunc → Type 0 where
  undecided : Decided ctx req [] (ok none)
  skipped :
      {p : CompiledPolicy R} {ps : List (CompiledPolicy R)} {o : RequestFunc}
      → p.for_http ctx req ≡ ok none
      → Decided ctx req ps o
      → Decided ctx req (p ∷ ps) o
  decided :
      {p : CompiledPolicy R} {ps : List (CompiledPolicy R)} {o : RequestFunc}
      → p.for_http ctx req ≡ o
      → o ≢ ok none
      → Decided ctx req (p ∷ ps) o

-- The reply once the handler has returned.
abbrev pub finished : Result Writer → Result Reply
finished r = r >>= λ w. ok (finish w)

-- The request to decide on: the one that was sent, or the one in its body.
abbrev pub received :
    (Result (List ℕ) → Result ServerRequest) → Bool → ServerRequest → Result ServerRequest
received read nested r = if nested then read r.body else ok r

module _ (canonical : String → String) where
  abbrev pub fields_of : Option Kv → GoMap (List String)
  fields_of none = []
  fields_of (some kv) = elim kv.inner [ none ↦ [] | some m ↦ sent_fields canonical m [] ]

  abbrev reply_with : ℕ → Response → Reply
  reply_with code r = record {
    code = code;
    fields = fields_of r.headers;
    text = if body_allowed code then r.body else "";
  }

  abbrev respond_code : ℤ → Response → Result Reply
  respond_code (negsuc n) r = panic
  respond_code (pos code) r =
      if is_code code
      then (if is_informational code then ok (reply_with 200 r) else ok (reply_with code r))
      else panic

  -- The reply to a decision. With no decision it is an empty 200, with an error a 500 with its text,
  -- and with a response that response, unless its status is one that net/http panics on.
  abbrev pub respond : RequestFunc → Result Reply
  respond (ok none) = ok (record { code = 200; fields = []; text = "" })
  respond (ok (some r)) = respond_code r.status r
  respond (err e) = ok (record { code = 500; fields = []; text = e })
  respond panic = panic

  write_err_resp-respond : (e : Error) → finished (write_err_resp e fresh) ≡ respond (err e)
  unfolding write_err_resp finish
  write_err_resp-respond e = rw (nil-append e)

  set_kv-fields_of :
      (kv : Option Kv) → set_kv canonical kv fresh ≡ record fresh { header = fields_of kv }
  unfolding set_kv
  set_kv-fields_of none = refl
  set_kv-fields_of (some kv) = elim (Option-cases kv.inner) [
    | inl e ↦ rw (e, set_kv)
    | inr (m, e) ↦ rw (e, set_kv) (set_headers-sent_fields canonical m fresh)
  ]

  status_reply :
      (status : ℤ) (r : Response)
      → finished (
          write_header status (record fresh { header = fields_of r.headers }) >>= λ w.
          ok (write r.body w))
        ≡ respond_code status r
  unfolding write_header write finish
  status_reply (negsuc n) r = refl
  status_reply (pos code) r = ground (arith, nil-append r.body)

  write_response-respond :
      (r : Response) → finished (write_response canonical r fresh) ≡ respond (ok (some r))
  unfolding write_response
  write_response-respond r = rw (set_kv-fields_of r.headers) (status_reply r.status r)

  -- The first function that does not return a nil response without an error is the one that is answered.
  run_funcs-stop :
      (o : RequestFunc) (rest : List RequestFunc)
      → o ≢ ok none
      → finished (run_funcs canonical (o ∷ rest) fresh) ≡ respond o
  unfolding run_funcs
  run_funcs-stop (ok none) rest ne = absurd (ne refl)
  run_funcs-stop (ok (some r)) rest ne = write_response-respond r
  run_funcs-stop (err e) rest ne = write_err_resp-respond e
  run_funcs-stop panic rest ne = refl

  module _ {R : Type 0} (ctx : R) (req : Request) where
    abbrev funcs : List (CompiledPolicy R) → List RequestFunc
    funcs = map (λ pol. pol.for_http ctx req)

    run_funcs-respond :
        {pols : List (CompiledPolicy R)} {o : RequestFunc}
        → Decided ctx req pols o
        → finished (run_funcs canonical (funcs pols) fresh) ≡ respond o
    unfolding run_funcs finish
    run_funcs-respond undecided = refl
    run_funcs-respond (skipped e d) = rw (e, run_funcs) (run_funcs-respond d)
    run_funcs-respond (decided {p = p} {ps = ps} {o = o} e ne) =
        rw e (run_funcs-stop o (funcs ps) ne)

    head_decision :
        (p : CompiledPolicy R) (ps : List (CompiledPolicy R)) (o : RequestFunc)
        → p.for_http ctx req ≡ o
        → (r : RequestFunc) × Decided ctx req ps r
        → (r : RequestFunc) × Decided ctx req (p ∷ ps) r
    head_decision p ps (ok none) e (r, d) = (r, skipped e d)
    head_decision p ps (ok (some s)) e d = (ok (some s), decided e (λ c. cc))
    head_decision p ps (err m) e d = (err m, decided e (λ c. cc))
    head_decision p ps panic e d = (panic, decided e (λ c. cc))

    pub decision : (pols : List (CompiledPolicy R)) → (o : RequestFunc) × Decided ctx req pols o
    decision [] = (ok none, undecided)
    decision (p ∷ ps) = head_decision p ps (p.for_http ctx req) refl (decision ps)

  module _ {R : Type 0} (ctx : R) (read : Result (List ℕ) → Result ServerRequest) where
    abbrev at_received : Provider R → Result ServerRequest → Result Writer
    at_received provider (ok s) = authorize canonical ctx provider s fresh
    at_received provider (err e) = write_err_resp e fresh
    at_received provider panic = panic

    handle-received :
        (provider : Provider R) (nested : Bool) (r : ServerRequest)
        → handle canonical ctx provider read nested r fresh
          ≡ at_received provider (received read nested r)
    unfolding handle
    handle-received provider true r = ground arith
    handle-received provider false r = refl

    authorize-respond :
        (pols : List (CompiledPolicy R)) (s : ServerRequest) (req : Request) (o : RequestFunc)
        → new_request s ≡ ok req
        → Decided ctx req pols o
        → finished (authorize canonical ctx (ok pols) s fresh) ≡ respond o
    unfolding authorize
    authorize-respond pols s req o h d = rw (h, authorize) (run_funcs-respond ctx req d)

    -- For every list of policies there is a decision, and the client receives the reply to it: the
    -- first policy in order that does not return nil without an error decides, whatever follows it,
    -- and with none the reply is an empty 200. An error is answered with a 500, and a response whose
    -- status net/http does not take makes the handler panic. Here the request, nested or not, and its
    -- body could be read.
    pub handle-Decided :
        (pols : List (CompiledPolicy R)) (nested : Bool) (r s : ServerRequest) (req : Request)
        → received read nested r ≡ ok s
        → new_request s ≡ ok req
        → (o : RequestFunc) × Decided ctx req pols o
          × (finished (handle canonical ctx (ok pols) read nested r fresh) ≡ respond o)
    handle-Decided pols nested r s req e h =
        let (o, d) = decision ctx req pols in
        (o, d, rw (handle-received (ok pols) nested r, e) (authorize-respond pols s req o h d))

    -- A nested request that cannot be read, a provider that fails and a body that cannot be read are
    -- each answered with a 500 and the text of the error.
    pub handle-err :
        (provider : Provider R) (nested : Bool) (r : ServerRequest) (e : Error)
        → (received read nested r ≡ err e)
          ⊎ ((s : ServerRequest) × (received read nested r ≡ ok s) × (provider ≡ err e))
          ⊎ ((s : ServerRequest) × (pols : List (CompiledPolicy R)) × (received read nested r
                ≡ ok s)
              × (provider ≡ ok pols)
              × (new_request s ≡ err e))
        → finished (handle canonical ctx provider read nested r fresh) ≡ respond (err e)
    unfolding authorize
    handle-err provider nested r e (inl h) =
        rw (handle-received provider nested r, h) (write_err_resp-respond e)
    handle-err provider nested r e (inr (inl (s, h, p))) =
        rw (handle-received provider nested r, h, p) (write_err_resp-respond e)
    handle-err provider nested r e (inr (inr (s, pols, h, p, b))) =
        rw (handle-received provider nested r, h, p, b, authorize) (write_err_resp-respond e)
