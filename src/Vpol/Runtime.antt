-- ===== src/Vpol/Runtime.antt =====
-- What pkg/engine/vpol/compiler/policy.go uses of cel-go and multierr, as parameters: programs, their
-- evaluation, and the values that it returns.
use kyverno_http_authorizer.Base.{
  Option, none, List, [], ◌∷◌, ◌≡◌, Bool, true, Result, Error, is_some,
}
use kyverno_http_authorizer.GoMap.{GoMap}
use kyverno_http_authorizer.Http.{Request, Response}

-- The `data` that a program is evaluated on. A key that is not set is `none`; of the http library's
-- context only its presence is kept, and `variables` holds the programs of the lazy map's callbacks.
pub record Activation (R Program : Type 0) : Type 0 where
  pub object : Request
  pub http : Bool
  pub resource : Option R
  pub variables : Option (GoMap Program)

pub record Runtime (R : Type 0) : Type 1 where
  pub Program : Type 0
  pub Val : Type 0
  pub Any : Type 0
  -- Program.Eval: the value and the error that it returns.
  pub eval : Program → Activation R Program → Option Val × Option Error
  -- ref.Val's ConvertToNative for bool, and the assertion that its result is one.
  pub to_bool : Val → Result Any
  pub as_bool : Any → Option Bool
  -- Whether a value is types.NullValue.
  pub is_null : Val → Bool
  -- ref.Val's Value.
  pub value : Val → Option Any
  -- The assertion that a value is a *http.Response, and the response if the pointer is not nil.
  pub as_response : Any → Option (Option Response)
  pub wrap_err : Error → Val
  -- multierr.Combine
  pub combine : List Error → Option Error

-- multierr.Combine returns nil exactly on no errors.
pub record IsCombine (combine : List Error → Option Error) : Type 0 where
  pub combine_nil : combine [] ≡ none
  pub combine_cons : (e : Error) (es : List Error) → is_some (combine (e ∷ es)) ≡ true
