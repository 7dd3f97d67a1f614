-- ===== src/Listener.antt =====
-- pkg/stream/listener/listener.go: a sidecar's side of the policy stream. `V` is a compiled policy.
-- The fields that only hold addresses of other parts, durations and the logger are left out.
pub mod Announce
pub mod Interleaving
pub mod Mesh
pub mod Slices
pub mod Converting
pub mod Order
pub mod Abstract
pub mod Agreement
pub mod Admitted
pub mod Histories
pub mod Late
pub mod Joining
pub mod HealthChecks
pub mod Alive
use kyverno_http_authorizer.Base.{
  ℕ, String, Option, none, some, List, [], ◌∷◌, ◌++◌, Bool, true, false, Result, ok, err, panic,
  Error, ◌>>=◌, if◌then◌else◌,
}
use kyverno_http_authorizer.Policy
use kyverno_http_authorizer.Proto
use kyverno_http_authorizer.Api.{from_proto}
use kyverno_http_authorizer.PolicyStore.{PolicyStore, new_store, drop, compiled_policies}
use kyverno_http_authorizer.Reconcile.{keep_compiled}
use kyverno_http_authorizer.Vpol.Compiler.{Checked}

pub record PolicyListener (V : Type 0) : Type 0 where
  pub client_addr : String
  pub conn_established : Bool
  pub store : PolicyStore V

-- What one round of the loop in `listen` meets: the context is done, or what Recv returns.
pub data Incoming : Type 0 where
  cancelled : Incoming
  message : Proto.ValidatingPolicy → Incoming
  eof : Incoming
  recv_error : Error → Incoming

-- What the loop leaves: the requests sent, the messages handed to processPolicy in the order in which
-- their goroutines start, and the listener.
pub record Listened (V : Type 0) : Type 0 where
  pub requests : List Proto.ValidatingPolicyStreamRequest
  pub messages : List Proto.ValidatingPolicy
  pub listener : PolicyListener V

module _ {V : Type 0} where
  -- NewPolicyListener
  unfoldable pub new_policy_listener : String → PolicyListener V
  new_policy_listener client_addr = record {
    client_addr = client_addr;
    conn_established = false;
    store = new_store;
  }

  -- dial: `connected` is the error of grpc.NewClient.
  unfoldable pub dial : Option Error → PolicyListener V → Option Error × PolicyListener V
  dial connected l = (connected, record l { conn_established = false })

  abbrev stopped : PolicyListener V → Listened V
  stopped l = record { requests = []; messages = []; listener = l }

  -- The request at the head of a round, unless it was sent before; none if Send fails.
  unfoldable pub announce :
      Option Error
      → PolicyListener V
      → Option (List Proto.ValidatingPolicyStreamRequest × PolicyListener V)
  announce send l = if l.conn_established then some ([], l) else elim send [
    | some e ↦ none
    | none ↦
        some (record { client_address = l.client_addr } ∷ [], record l { conn_established = true })
  ]

  -- The loop in `listen`, over what its rounds meet; `send` is the error of stream.Send.
  unfoldable pub listen_loop : Option Error → List Incoming → PolicyListener V → Listened V
  unfolding announce
  listen_loop send [] l = stopped l
  listen_loop send (cancelled ∷ rounds) l = stopped l
  listen_loop send (eof ∷ rounds) l = elim (announce send l) [
    | none ↦ stopped l
    | some a ↦ record (stopped a.1) { requests = a.0 }
  ]
  listen_loop send (recv_error e ∷ rounds) l = elim (announce send l) [
    | none ↦ stopped l
    | some a ↦ record (stopped a.1) { requests = a.0 }
  ]
  listen_loop send (message pol ∷ rounds) l = elim (announce send l) [
    | none ↦ stopped l
    | some a ↦
        let rest = listen_loop send rounds a.1 in
        record rest { requests = a.0 ++ rest.requests; messages = pol ∷ rest.messages }
  ]

  -- listen: `opened` is the error of opening the stream; the loop's end is no error.
  unfoldable pub listen :
      Option Error → Option Error → List Incoming → PolicyListener V → Option Error × Listened V
  unfolding listen_loop
  listen opened send rounds l = elim opened [
    | some e ↦ (some e, stopped l)
    | none ↦ (none, listen_loop send rounds l)
  ]

  -- What backoff.Retry on dial ends with: `dials` is what the calls of grpc.NewClient return. Both intervals
  -- are controlPlaneReconnectWait.
  abbrev connect :
      (retry : ℕ → ℕ → (ℕ → Option Error) → Option Error)
      → ℕ
      → (ℕ → Option Error)
      → PolicyListener V
      → Option Error
  connect retry control_plane_reconnect_wait dials l =
      retry control_plane_reconnect_wait control_plane_reconnect_wait (λ n. (dial (dials n) l).0)

  -- Start, once backoff.Retry has ended with the error `connected` of its last dial.
  unfoldable pub start :
      Option Error
      → Option Error
      → Option Error
      → List Incoming
      → PolicyListener V
      → Option Error × Listened V
  unfolding dial listen
  start connected opened send rounds l = elim connected [
    | some e ↦ (some e, stopped (dial (some e) l).1)
    | none ↦ listen opened send rounds (dial none l).1
  ]

  module _ (compile : Policy.ValidatingPolicy → Checked V) where
    -- processPolicy
    unfoldable pub process_policy : Proto.ValidatingPolicy → PolicyStore V → Result (PolicyStore V)
    unfolding drop from_proto keep_compiled
    process_policy req s =
        if req.deleted
        then ok (drop req.name s)
        else do vpol ← from_proto req; ok (keep_compiled req.name (compile vpol) s)

    -- Messages processed one after the other.
    unfoldable pub process_all :
        List Proto.ValidatingPolicy → PolicyStore V → Result (PolicyStore V)
    unfolding process_policy
    process_all [] s = ok s
    process_all (req ∷ reqs) s = do t ← process_policy req s; process_all reqs t

  -- CompiledPolicies
  unfoldable pub listener_policies : PolicyListener V → Result (List V × PolicyListener V)
  unfolding compiled_policies
  listener_policies l = do r ← compiled_policies l.store; ok (r.0, record l { store = r.1 })
