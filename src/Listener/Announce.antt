-- ===== src/Listener/Announce.antt =====
-- A listener announces itself once on each connection, before it receives.
use kyverno_http_authorizer.Base.{
  String, none, some, List, [], ◌∷◌, ◌≡◌, refl, ap, Bool, true, false, arith,
}
use kyverno_http_authorizer.Proto
use kyverno_http_authorizer.Listener.{
  PolicyListener, Incoming, cancelled, message, eof, recv_error, announce, listen_loop, start,
}

-- The messages before the first round that is none.
abbrev pub leading : List Incoming → List Proto.ValidatingPolicy
leading [] = []
leading (cancelled ∷ rounds) = []
leading (eof ∷ rounds) = []
leading (recv_error e ∷ rounds) = []
leading (message pol ∷ rounds) = pol ∷ leading rounds

-- Whether the loop gets past the test of the context.
abbrev pub begins : List Incoming → Bool
begins [] = false
begins (cancelled ∷ rounds) = false
begins (eof ∷ rounds) = true
begins (recv_error e ∷ rounds) = true
begins (message pol ∷ rounds) = true

abbrev pub greeting : Bool → String → List Proto.ValidatingPolicyStreamRequest
greeting true addr = record { client_address = addr } ∷ []
greeting false addr = []

module _ {V : Type 0} where
  abbrev Heard : List Incoming → PolicyListener V → Type 0
  Heard rounds l =
      l.conn_established ≡ true
      → ((listen_loop none rounds l).requests ≡ [])
        × ((listen_loop none rounds l).messages ≡ leading rounds)
        × ((listen_loop none rounds l).listener ≡ l)

  announce-established :
      (l : PolicyListener V) → l.conn_established ≡ true → announce none l ≡ some ([], l)
  unfolding announce
  announce-established l e = ground (arith, e)

  listen_loop-established : (rounds : List Incoming) (l : PolicyListener V) → Heard rounds l
  unfolding listen_loop
  listen_loop-established [] l e = (refl, refl, refl)
  listen_loop-established (cancelled ∷ rounds) l e = (refl, refl, refl)
  listen_loop-established (eof ∷ rounds) l e =
      rw (announce-established l e, listen_loop) (refl, refl, refl)
  listen_loop-established (recv_error m ∷ rounds) l e =
      rw (announce-established l e, listen_loop) (refl, refl, refl)
  listen_loop-established (message pol ∷ rounds) l e =
      let rest = listen_loop-established rounds l e in
      rw (announce-established l e, listen_loop) (rest.0, ap (λ ms. pol ∷ ms) rest.1, rest.2)

  -- After a dial that succeeds, and on a stream that opens and takes a request, the listener sends its
  -- address once, before the first message, unless the context is done at once; it hands on, in their
  -- order, the messages before the first round that brings none; and it returns no error.
  pub start-announces :
      (rounds : List Incoming) (l : PolicyListener V)
      → let r = start none none none rounds l in
        (r.0 ≡ none)
        × (r.1.requests ≡ greeting (begins rounds) l.client_addr)
        × (r.1.messages ≡ leading rounds)
        × (r.1.listener ≡ record l { conn_established = begins rounds })
  unfolding start
  start-announces [] l = (refl, refl, refl, refl)
  start-announces (cancelled ∷ rounds) l = (refl, refl, refl, refl)
  start-announces (eof ∷ rounds) l = (refl, refl, refl, refl)
  start-announces (recv_error e ∷ rounds) l = (refl, refl, refl, refl)
  start-announces (message pol ∷ rounds) l =
      let rest = listen_loop-established rounds (record l { conn_established = true }) refl in
      (
        refl,
        ap (λ rs. record { client_address = l.client_addr } ∷ rs) rest.0,
        ap (λ ms. pol ∷ ms) rest.1,
        rest.2,
      )
