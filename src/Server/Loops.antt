-- ===== src/Server/Loops.antt =====
-- The termination of the loops around the servers.
use kyverno_http_authorizer.Base.{
  ℕ, zero, suc, ◌+◌, ◌<◌, String, Option, none, some, List, [], ◌∷◌, ◌≡◌, refl, ap, ◌∙◌, true,
  false, not, arith, Bool-cases, Option-cases, inl, inr, ◌⊎◌, ◌≢◌, sym, Bool, if◌then◌else◌,
}
use kyverno_http_authorizer.Server.{
  Errors, any_closed, Transport, transport, closed, run_http, Round, LoopEnd, serve_loop, auth_loop,
  probes_loop, connect_loop,
}

module _ (errors : Errors) where
  open errors use {E, is_closed, combine}

  -- multierr.Combine returns nil or an error that is ErrServerClosed exactly if one of them is; and it does not drop
  -- an error.
  pub record IsCombine : Type 0 where
    pub combined :
        (es : List (Option E)) (e : E) → combine es ≡ some e → is_closed e ≡ any_closed is_closed es
    pub kept : (e : E) (es : List (Option E)) → combine (some e ∷ es) ≢ none

  closed_combine :
      IsCombine
      → (es : List (Option E)) → any_closed is_closed es ≡ false
      → closed errors (combine es) ≡ false
  closed_combine law es h = elim (Option-cases (combine es)) [
    | inl n ↦ rw n
    | inr (e, s) ↦ rw s (law.combined es e s ∙ h)
  ]

  not-any_closed :
      (err shutdown : Option E)
      → closed errors shutdown ≡ false
      → any_closed is_closed ((if not (closed errors err) then err else none) ∷ shutdown ∷ [])
        ≡ false
  not-any_closed none none h = refl
  not-any_closed none (some e) h = rw h
  not-any_closed (some e) none h = elim (Bool-cases (is_closed e)) [
    | inl c ↦ rw c
    | inr c ↦ rw (c, c)
  ]
  not-any_closed (some e) (some f) h = elim (Bool-cases (is_closed e)) [
    | inl c ↦ rw (c, h)
    | inr c ↦ rw (c, c, h)
  ]

  -- What net/http documents: ListenAndServe returns an error, which is ErrServerClosed only if Shutdown was called (Close
  -- is not); and Shutdown returns the error of its context or of closing the listeners.
  pub record IsServer (serve : Bool → Transport → Option E) (shutdown : Option E) : Type 0 where
    pub returns : (b : Bool) (t : Transport) → (e : E) × (serve b t ≡ some e)
    pub not_closed : (t : Transport) (e : E) → serve false t ≡ some e → is_closed e ≡ false
    pub not_shut : closed errors shutdown ≡ false

  -- A run of RunHttp with this result.
  pub record RunOf (result : Option E) : Type 0 where
    pub cert_file : String
    pub key_file : String
    pub cancelled : Bool
    pub serve : Bool → Transport → Option E
    pub shutdown : Option E
    pub server : IsServer serve shutdown
    pub was_run : result ≡ run_http errors cert_file key_file cancelled serve shutdown

  -- The rounds of a loop around RunHttp: the results are those of runs of a server, httpAuthErr is nil or such a
  -- result, and a context that is done in a run is done in the next round.
  pub record Serves (env : ℕ → Round errors) : Type 0 where
    pub run_of : (n : ℕ) → RunOf (env n).result
    pub auth_of : (n : ℕ) → ((env n).http_auth_err ≡ none) ⊎ RunOf (env n).http_auth_err
    pub stays_done : (n : ℕ) → (run_of n).cancelled ≡ true → (env (suc n)).ctx_done ≡ true

  run_http-closed : IsCombine → (result : Option E) → RunOf result → closed errors result ≡ false
  unfolding run_http
  run_http-closed law result r =
      ap (closed errors) r.was_run
      ∙ closed_combine law _ (not-any_closed (r.serve r.cancelled _) r.shutdown (r.server).not_shut)

  auth-closed :
      IsCombine
      → (result : Option E) → (result ≡ none) ⊎ RunOf result
      → closed errors result ≡ false
  auth-closed law result (inl e) = rw e
  auth-closed law result (inr r) = run_http-closed law result r

  -- A server that is not shut down returns an error.
  not_cancelled :
      IsCombine
      → (cert key : String) (serve : Bool → Transport → Option E) (shutdown : Option E)
      → IsServer serve shutdown
      → run_http errors cert key false serve shutdown ≢ none
  unfolding run_http
  not_cancelled law cert key serve shutdown s n =
      let t = transport cert key in
      let (e, q) = s.returns false t in
      let result : run_http errors cert key false serve shutdown
          ≡ combine (some e ∷ shutdown ∷ []) =
        rw (run_http, q, s.not_closed t e q) in
      law.kept e (shutdown ∷ []) (sym result ∙ n)

  nil-cancelled :
      IsCombine → (result : Option E) → (r : RunOf result) → result ≡ none → r.cancelled ≡ true
  nil-cancelled law result r n = elim (Bool-cases r.cancelled) [
    | inl c ↦ c
    | inr c ↦ absurd (
        not_cancelled law r.cert_file r.key_file r.serve r.shutdown r.server (
          ap (λ b. run_http errors r.cert_file r.key_file b r.serve r.shutdown) (sym c)
          ∙ sym r.was_run
          ∙ n))
  ]

  -- A loop that has called once, unless the context was done before, and returns what that call did.
  abbrev pub after_one : (ℕ → Round errors) → LoopEnd errors
  after_one env =
      if (env 0).ctx_done
      then record { calls = 0; error = none }
      else record { calls = 1; error = (env 0).result }

  loop_done :
      (tested : Round errors → Option E) (env : ℕ → Round errors) (fuel n : ℕ) (last : Option E)
      → (env n).ctx_done ≡ true
      → serve_loop errors (suc fuel) tested env n last ≡ some (record { calls = n; error = last })
  unfolding serve_loop
  loop_done tested env fuel n last d = rw (d, serve_loop)

  serve_loop-after_one :
      (tested : Round errors → Option E) (env : ℕ → Round errors) (fuel : ℕ)
      → closed errors (tested (env 0)) ≡ false
      → ((env 0).result ≡ none → (env 1).ctx_done ≡ true)
      → serve_loop errors (suc (suc fuel)) tested env 0 none ≡ some (after_one env)
  unfolding serve_loop
  serve_loop-after_one tested env fuel t d = elim (Bool-cases (env 0).ctx_done) [
    | inl c ↦ rw c (loop_done tested env (suc fuel) 0 none c)
    | inr c ↦ elim (Option-cases (env 0).result) [
      | inl e ↦ rw (c, serve_loop, e) (loop_done tested env fuel 1 none (d e))
      | inr (x, e) ↦ rw (c, serve_loop, e, t)
    ]
  ]

  -- The context is done at round `i + k`, and not before.
  abbrev DoneAfter : (ℕ → Round errors) → ℕ → ℕ → Type 0
  DoneAfter env i zero = (env i).ctx_done ≡ true
  DoneAfter env i (suc k) = ((env i).ctx_done ≡ false) × DoneAfter env (suc i) k

  -- The result of the last call before round `n`.
  abbrev last_result : (ℕ → Round errors) → ℕ → Option E
  last_result env zero = none
  last_result env (suc n) = (env n).result

  abbrev end_at : (ℕ → Round errors) → ℕ → Option (LoopEnd errors)
  end_at env n = some (record { calls = n; error = last_result env n })

  connect_loop-end_at :
      (env : ℕ → Round errors) (k i fuel : ℕ)
      → DoneAfter env i k
      → k < fuel
      → connect_loop errors fuel env i (last_result env i) ≡ end_at env (i + k)
  unfolding connect_loop
  connect_loop-end_at env k i zero d h = absurd (omega arith)
  connect_loop-end_at env zero i (suc fuel) d h =
      let same : i ≡ i + 0 = omega arith in rw (d, connect_loop) (ap (end_at env) same)
  connect_loop-end_at env (suc k) i (suc fuel) d h =
      let same : suc i + k ≡ i + suc k = omega arith in
      rw (d.0, connect_loop)
        (connect_loop-end_at env k (suc i) fuel d.1 (omega arith) ∙ ap (end_at env) same)

  -- The sidecar's and the standalone server's loops around the auth server and around the probes end, with any fuel
  -- from 2 on: they call Run once, or not at all if the context is done before, and return what that call did.
  -- So their branch that retries is never taken. Here multierr.Combine keeps every error and makes none up;
  -- ListenAndServe returns an error, and ErrServerClosed only once Shutdown was called, which itself does not return
  -- ErrServerClosed; httpAuthErr is nil or the result of a run of a server; and a context stays done.
  pub loops_end :
      IsCombine
      → (auth probes : ℕ → Round errors) (fuel : ℕ) → Serves auth
      → Serves probes
      → (auth_loop errors (suc (suc fuel)) auth ≡ some (after_one auth))
        × (probes_loop errors (suc (suc fuel)) probes ≡ some (after_one probes))
  loops_end law auth probes fuel a p = (
    serve_loop-after_one (λ r. r.result) auth fuel (run_http-closed law _ (a.run_of 0))
        (λ n. a.stays_done 0 (nil-cancelled law _ (a.run_of 0) n)),
    serve_loop-after_one (λ r. r.http_auth_err) probes fuel (auth-closed law _ (p.auth_of 0))
        (λ n. p.stays_done 0 (nil-cancelled law _ (p.run_of 0) n)),
  )
