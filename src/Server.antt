-- ===== src/Server.antt =====
-- pkg/server/http.go, pkg/server/grpc.go and pkg/authz/server.go: how a server is run and what its run
-- returns; and the loops of pkg/commands/serve that run servers again.
pub mod Loops
pub mod Routes
use kyverno_http_authorizer.Base.{
  ℕ, zero, suc, String, Option, none, some, List, [], ◌∷◌, Bool, true, false, ◌&&◌, not, ◌==◌, ◌⊎◌,
  inl, inr, if◌then◌else◌,
}

-- Errors, as the packages errors, net/http and multierr see them.
pub record Errors : Type 1 where
  pub E : Type 0
  -- errors.Is(err, http.ErrServerClosed)
  pub is_closed : E → Bool
  -- multierr.Combine
  pub combine : List (Option E) → Option E

abbrev pub any_closed : {E : Type 0} → (E → Bool) → List (Option E) → Bool
any_closed is_closed [] = false
any_closed is_closed (none ∷ es) = any_closed is_closed es
any_closed is_closed (some e ∷ es) = if is_closed e then true else any_closed is_closed es

-- How ListenAndServe is called.
pub data Transport : Type 0 where
  https : String → String → Transport
  http : Transport

abbrev transport : String → String → Transport
transport cert_file key_file =
    if not (cert_file == "") && not (key_file == "") then https cert_file key_file else http

module _ (errors : Errors) where
  open errors use {E, is_closed, combine}

  -- errors.Is on an error that may be nil.
  abbrev pub closed : Option E → Bool
  closed none = false
  closed (some e) = is_closed e

  -- serveErr: a closed server is not an error.
  abbrev serve_err : Option E → Option E
  serve_err err = if not (closed err) then err else none

  -- RunHttp: `cancelled` is whether its context is done before the server has returned. Its goroutine calls Shutdown
  -- once that context is done or `cancel` has been called, which RunHttp defers, so before the server has
  -- returned it does so only if `cancelled`. `serve` is what ListenAndServe or ListenAndServeTLS returns, by
  -- whether Shutdown can have been called, and `shutdown` what Shutdown returns.
  unfoldable pub run_http :
      String → String → (cancelled : Bool) → (Bool → Transport → Option E) → Option E → Option E
  run_http cert_file key_file cancelled serve shutdown =
      combine (serve_err (serve cancelled (transport cert_file key_file)) ∷ shutdown ∷ [])

  -- RunGrpc: GracefulStop returns nothing.
  unfoldable run_grpc : Option E → Option E
  run_grpc serve = serve

  -- NewServer of pkg/authz: `listen` is the result of net.Listen.
  pub authz_server : {L : Type 0} → E ⊎ L → (L → Option E) → Option E
  unfolding run_grpc
  authz_server (inl e) serve = some e
  authz_server (inr listener) serve = run_grpc (serve listener)

  -- What one round of a loop meets: whether the context is done, the result of the call of Run or
  -- Start, and the value of the shared variable httpAuthErr after it.
  pub record Round : Type 0 where
    pub ctx_done : Bool
    pub result : Option E
    pub http_auth_err : Option E

  -- A loop that has returned: how often it has called, and the last result.
  pub record LoopEnd : Type 0 where
    pub calls : ℕ
    pub error : Option E

  -- The loop of the sidecar and standalone commands around a server's Run, with fuel: after an error
  -- it goes on only if the error `tested` is ErrServerClosed.
  pub serve_loop : ℕ → (Round → Option E) → (ℕ → Round) → ℕ → Option E → Option LoopEnd
  serve_loop zero tested env n last = none
  serve_loop (suc fuel) tested env n last = elim (env n).ctx_done [
    | true ↦ some (record { calls = n; error = last })
    | false ↦ elim (env n).result [
      | none ↦ serve_loop fuel tested env (suc n) none
      | some e ↦ elim (closed (tested (env n))) [
        | true ↦ serve_loop fuel tested env (suc n) (some e)
        | false ↦ some (record { calls = suc n; error = some e })
      ]
    ]
  ]

  -- The loop around httpAuth.Run tests its own error, and the one around the probes' Run the same
  -- variable httpAuthErr.
  abbrev pub auth_loop : ℕ → (ℕ → Round) → Option LoopEnd
  auth_loop fuel env = serve_loop fuel (λ r. r.result) env 0 none

  abbrev pub probes_loop : ℕ → (ℕ → Round) → Option LoopEnd
  probes_loop fuel env = serve_loop fuel (λ r. r.http_auth_err) env 0 none

  -- The sidecar's loop around provider.Start, with fuel: it ends with the context only.
  pub connect_loop : ℕ → (ℕ → Round) → ℕ → Option E → Option LoopEnd
  connect_loop zero env n last = none
  connect_loop (suc fuel) env n last = elim (env n).ctx_done [
    | true ↦ some (record { calls = n; error = last })
    | false ↦ connect_loop fuel env (suc n) (env n).result
  ]
