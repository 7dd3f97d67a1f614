-- ===== src/Writer.antt =====
-- What net/http's ResponseWriter does for a handler: the header map, the status line, the body.
-- `canonical` is the canonical form of a header's key (textproto.CanonicalMIMEHeaderKey).
use kyverno_http_authorizer.Base.{
  ℕ, ℤ, pos, negsuc, String, Option, none, some, List, [], ◌∷◌, ◌++◌, Bool, ◌&&◌, Result, ok, panic,
  leb, eqb, not, if◌then◌else◌,
}
use kyverno_http_authorizer.GoMap.{GoMap, insert}
use Prim.Native.String

-- `status` is set by the first WriteHeader that is not informational.
pub record Writer : Type 0 where
  pub header : GoMap (List String)
  pub status : Option ℕ
  pub informational : List ℕ
  pub body : String

-- What a client receives.
pub record Reply : Type 0 where
  pub code : ℕ
  pub fields : GoMap (List String)
  pub text : String

abbrev pub fresh : Writer
fresh = record { header = []; status = none; informational = []; body = "" }

-- w.Header().Set(k, v)
unfoldable pub set_header : (String → String) → String → String → Writer → Writer
unfolding insert
set_header canonical k v w = record w { header = insert (canonical k) (v ∷ []) w.header }

abbrev pub is_informational : ℕ → Bool
is_informational code = leb 100 code && (leb code 199 && not (eqb code 101))

abbrev pub is_code : ℕ → Bool
is_code code = leb 100 code && leb code 999

-- WriteHeader before a status is written: a code outside 100 to 999 panics.
first_header : ℤ → Writer → Result Writer
first_header (negsuc n) w = panic
first_header (pos code) w =
    if is_code code
    then if is_informational code
      then ok (record w { informational = w.informational ++ code ∷ [] })
      else ok (record w { status = some code })
    else panic

-- WriteHeader: once a status is written, the call changes nothing.
unfoldable pub write_header : ℤ → Writer → Result Writer
unfolding first_header
write_header code w = elim w.status [ some old ↦ ok w | none ↦ first_header code w ]

-- bodyAllowedForStatus
abbrev pub body_allowed : ℕ → Bool
body_allowed code = not (leb 100 code && leb code 199) && (not (eqb code 204) && not (eqb code 304))

-- Write once a status is written: a body that the status does not allow is dropped.
append_body : ℕ → String → Writer → Writer
append_body code text w =
    if body_allowed code then record w { body = String.◌++◌ w.body text } else w

-- Write: it writes a status of 200 if none was written.
unfoldable pub write : String → Writer → Writer
unfolding append_body
write text w = elim w.status [
  | some code ↦ append_body code text w
  | none ↦ append_body 200 text (record w { status = some 200 })
]

-- What is sent when the handler has returned: a status of 200 if none was written.
unfoldable pub finish : Writer → Reply
finish w = elim w.status [
  | some code ↦ record { code = code; fields = w.header; text = w.body }
  | none ↦ record { code = 200; fields = w.header; text = w.body }
]
