-- ===== src/Listener/Alive.antt =====
-- The health checks of a sidecar, with the calls of others on the sender and the runs of its monitor.
use kyverno_http_authorizer.Base.{
  ℕ, ◌+◌, ◌≤◌, String, some, List, [], ◌∷◌, ◌++◌, map, ◌≡◌, refl, sym, ap, ◌∙◌, subst, true, false,
  ◌==◌, arith, is_some,
}
use kyverno_http_authorizer.GoMap.{GoMap, lookup, insert}
use kyverno_http_authorizer.GoMap.Laws.{lookup-insert}
use kyverno_http_authorizer.Proto
use kyverno_http_authorizer.Sender.{
  PolicySender, store_policy, delete_policy, health_check, delete_inactive,
}
use kyverno_http_authorizer.Sender.Monitor.{elapsed, max-delete_inactive}
use kyverno_http_authorizer.Sender.Invariant.{
  Call, store, remove, check, flush, request, Consistent, step, run, requested_state,
  stream_request-sorted, step-Consistent,
}
use kyverno_http_authorizer.Sender.Inactive.{
  AtLeast, IsCheck, active, recorded_mono, recorded_check, health_check-lookup, health_check_frame,
  delete_inactive-lookup,
}
use kyverno_http_authorizer.Listener.{PolicyListener}
use kyverno_http_authorizer.Listener.HealthChecks.{health_check_request, send_health_checks}

-- The sidecar sends a health check, or there is another call on the sender.
pub data Event (S : Type 0) : Type 0 where
  beat : ℕ → Event S
  other : Call S → Event S

module _ {S : Type 0} where
  -- The health checks come in the order of time, and each run of the monitor at most `interval` after the last
  -- of them; `last` is the time of the one before the list.
  abbrev pub Timely : ℕ → ℕ → List (Event S) → Type 0
  Timely interval last [] = Unit
  Timely interval last (beat t ∷ es) = (last ≤ t) × Timely interval t es
  Timely interval last (other (flush now) ∷ es) = (now ≤ last + interval) × Timely interval last es
  Timely interval last (other c ∷ es) = Timely interval last es

  -- The client `c` has a stream, and a recorded health check that is no older than `last`.
  record Live (max : ℕ) (c : String) (last : ℕ) (s : PolicySender S) : Type 0 where
    consistent : Consistent s
    limit : s.max_client_inactive_duration ≡ max
    heard : AtLeast last (lookup c s.health_check_map)
    connected : is_some (lookup c s.cxns_map) ≡ true

  check-Live :
      (r : Proto.HealthCheckRequest) (max : ℕ) (c : String) (last : ℕ) (s : PolicySender S)
      → Live max c last s
      → Live max c last (health_check r s).0
  unfolding step
  check-Live r max c last s k = record {
    consistent = step-Consistent s (check r) k.consistent;
    limit = (health_check_frame r s).1 ∙ k.limit;
    heard =
        rw (health_check-lookup r c s)
          (recorded_mono r c last (lookup c s.health_check_map) k.heard);
    connected = rw (health_check_frame r s).0 k.connected;
  }

  beat-Live :
      (r : Proto.HealthCheckRequest) (max : ℕ) (c : String) (last t : ℕ) (s : PolicySender S)
      → IsCheck c t r
      → Live max c last s
      → Live max c t (health_check r s).0
  unfolding step
  beat-Live r max c last t s i k = record {
    consistent = step-Consistent s (check r) k.consistent;
    limit = (health_check_frame r s).1 ∙ k.limit;
    heard = rw (health_check-lookup r c s) (recorded_check r c t (lookup c s.health_check_map) i);
    connected = rw (health_check_frame r s).0 k.connected;
  }

  flush-Live :
      (now max : ℕ) (c : String) (last : ℕ) (s : PolicySender S)
      → now ≤ last + max
      → Live max c last s
      → Live max c last (delete_inactive now s)
  unfolding step
  flush-Live now max c last s h k =
      let still =
        active s.max_client_inactive_duration now last (lookup c s.health_check_map) k.heard
          (subst (λ (m : ℕ). now ≤ last + m) (sym k.limit) h) in
      let look = delete_inactive-lookup now s c k.consistent.clients_distinct in
      record {
        consistent = step-Consistent s (flush now) k.consistent;
        limit = max-delete_inactive now s ∙ k.limit;
        heard = subst (AtLeast last) (sym (look.1 ∙ rw still)) k.heard;
        connected = ap is_some (look.0 ∙ rw still) ∙ k.connected;
      }

  requested_state_frame :
      (stream : S) (req : Proto.ValidatingPolicyStreamRequest) (s : PolicySender S)
      → ((requested_state stream req s).max_client_inactive_duration
          ≡ s.max_client_inactive_duration)
        × ((requested_state stream req s).health_check_map ≡ s.health_check_map)
  requested_state_frame stream req s = ground arith

  still_connected :
      (stream : S) (a c : String) (m : GoMap S)
      → is_some (lookup c m) ≡ true
      → is_some (lookup c (insert a stream m)) ≡ true
  still_connected stream a c m h = ground (arith, lookup-insert a c stream m)

  request-Live :
      (stream : S) (req : Proto.ValidatingPolicyStreamRequest) (max : ℕ) (c : String) (last : ℕ)
      (s : PolicySender S)
      → Live max c last s
      → Live max c last (step s (request stream req))
  unfolding step
  request-Live stream req max c last s k =
      let frame = requested_state_frame stream req s in
      record {
        consistent = step-Consistent s (request stream req) k.consistent;
        limit = rw (stream_request-sorted stream req s k.consistent) (frame.0 ∙ k.limit);
        heard =
            rw (stream_request-sorted stream req s k.consistent)
              (subst (λ m. AtLeast last (lookup c m)) (sym frame.1) k.heard);
        connected =
            rw (stream_request-sorted stream req s k.consistent)
              (still_connected stream req.client_address c s.cxns_map k.connected);
      }

  -- Every other call, with the monitor in time.
  step-Live :
      (call : Call S) (interval max : ℕ) (c : String) (last : ℕ) (es : List (Event S))
      (s : PolicySender S)
      → interval ≤ max
      → Timely interval last (other call ∷ es)
      → Live max c last s
      → Live max c last (step s call) × Timely interval last es
  unfolding step store_policy delete_policy
  step-Live (store pol) interval max c last es s i t k = (
    record {
      consistent = step-Consistent s (store pol) k.consistent;
      limit = k.limit;
      heard = k.heard;
      connected = k.connected;
    },
    t,
  )
  step-Live (remove name) interval max c last es s i t k = (
    record {
      consistent = step-Consistent s (remove name) k.consistent;
      limit = k.limit;
      heard = k.heard;
      connected = k.connected;
    },
    t,
  )
  step-Live (check r) interval max c last es s i t k = (check-Live r max c last s k, t)
  step-Live (flush now) interval max c last es s i t k =
      (flush-Live now max c last s (omega arith) k, t.1)
  step-Live (request stream req) interval max c last es s i t k =
      (request-Live stream req max c last s k, t)

  module _ {V : Type 0} (l : PolicyListener V) where
    -- The calls on the sender: a health check of the sidecar arrives as it is sent.
    pub calls_of : List (Event S) → List (Call S)
    unfolding send_health_checks
    calls_of [] = []
    calls_of (beat t ∷ es) = map check (send_health_checks l (elapsed t ∷ [])) ++ calls_of es
    calls_of (other c ∷ es) = c ∷ calls_of es

    run-Live :
        (interval max last : ℕ) (es : List (Event S)) (s : PolicySender S)
        → (l.client_addr == "") ≡ false
        → interval ≤ max
        → Timely interval last es
        → Live max l.client_addr last s
        → is_some (lookup l.client_addr (run s (calls_of es)).cxns_map) ≡ true
    unfolding run calls_of send_health_checks step
    run-Live interval max last [] s a i t k = k.connected
    run-Live interval max last (beat now ∷ es) s a i t k =
        run-Live interval max now es (health_check (health_check_request l now) s).0 a i t.1
          (beat-Live (health_check_request l now) max l.client_addr last now s (refl, refl, a) k)
    run-Live interval max last (other c ∷ es) s a i t k =
        let (k', t') = step-Live c interval max l.client_addr last es s i t k in
        run-Live interval max last es (step s c) a i t' k'

    -- A sidecar that sends its health checks in the order of time keeps a stream through any further calls of the
    -- reconciler, of clients and of the monitor, as long as the monitor runs at most `interval` after the last
    -- of them, and `interval` is no more than the control plane's limit for inactivity. Here the sidecar has an
    -- address and a stream, and the sender has a health check of it from time `first`.
    pub run-calls_of :
        (interval first : ℕ) (es : List (Event S)) (s : PolicySender S)
        → (l.client_addr == "") ≡ false
        → Consistent s
        → interval ≤ s.max_client_inactive_duration
        → lookup l.client_addr s.health_check_map ≡ some first
        → is_some (lookup l.client_addr s.cxns_map) ≡ true
        → Timely interval first es
        → is_some (lookup l.client_addr (run s (calls_of es)).cxns_map) ≡ true
    run-calls_of interval first es s a k i h c timely =
        run-Live interval s.max_client_inactive_duration first es s a i timely (record {
          consistent = k;
          limit = refl;
          heard = subst (AtLeast first) (sym h) (omega arith);
          connected = c;
        })
