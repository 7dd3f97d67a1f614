-- ===== src/Sender/SendPolicy.antt =====
-- SendPolicy of pkg/stream/sender/sender.go: one goroutine for each stream sends the policy and then
-- its error on an unbuffered channel; the caller waits for all of them before it receives from the
-- channel. A step of any of them is a step of the relation.
use kyverno_http_authorizer.Base.{
  List, [], ◌∷◌, ◌++◌, map, ◌≡◌, refl, sym, subst, ◌≢◌, All, append_assoc,
}

-- A goroutine: in sendWithBackoff, at the send on the channel, or done with `wg.Done()`.
pub data Phase : Type 0 where
  sending blocked finished : Phase

pub record Worker (S : Type 0) : Type 0 where
  pub stream : S
  pub phase : Phase

-- The caller: in `wg.Wait()`, in the loop over the closed channel, or returned.
pub data Caller : Type 0 where
  waiting draining returned : Caller

pub record Sending (S : Type 0) : Type 0 where
  pub workers : List (Worker S)
  pub caller : Caller
  pub attempted : List S

module _ {S : Type 0} where
  abbrev worker : S → Phase → Worker S
  worker stream phase = record { stream = stream; phase = phase }

  unfoldable pub start_sending : List S → Sending S
  start_sending streams = record {
    workers = map (λ stream. record { stream = stream; phase = sending }) streams;
    caller = waiting;
    attempted = [];
  }

  abbrev pub IsFinished : Worker S → Type 0
  IsFinished w = w.phase ≡ finished

  -- One step of a goroutine or of the caller.
  pub data SendStep (s t : Sending S) : Type 0 where
    -- sendWithBackoff returns.
    attempt :
        (before after : List (Worker S)) (stream : S)
        → s.workers ≡ before ++ record { stream = stream; phase = sending } ∷ after
        → t ≡ record s {
          workers = before ++ record { stream = stream; phase = blocked } ∷ after;
          attempted = stream ∷ s.attempted;
        }
        → SendStep s t
    -- A goroutine's send meets the caller's receive.
    hand_over :
        (before after : List (Worker S)) (stream : S)
        → s.caller ≡ draining
        → s.workers ≡ before ++ record { stream = stream; phase = blocked } ∷ after
        → t ≡ record s { workers = before ++ record { stream = stream; phase = finished } ∷ after }
        → SendStep s t
    -- wg.Wait() returns once every goroutine has called wg.Done(), and the channel is closed.
    all_done :
        s.caller ≡ waiting
        → All IsFinished s.workers
        → t ≡ record s { caller = draining }
        → SendStep s t
    -- The loop over the closed channel ends.
    drained : s.caller ≡ draining → t ≡ record s { caller = returned } → SendStep s t

  pub data SendReach (s : Sending S) : Sending S → Type 0 where
    here : SendReach s s
    next : {t u : Sending S} → SendReach s t → SendStep t u → SendReach s u

  -- The caller waits, there is a goroutine, and none of them is done.
  record Hangs (s : Sending S) : Type 0 where
    is_waiting : s.caller ≡ waiting
    some_worker : s.workers ≢ []
    none_finished : All (λ (w : Worker S). w.phase ≢ finished) s.workers

  All-replace :
      (P : Worker S → Type 0) (before after : List (Worker S)) (v w : Worker S)
      → P w
      → All P (before ++ v ∷ after)
      → All P (before ++ w ∷ after)
  All-replace P [] after v w h a = (h, a.1)
  All-replace P (b ∷ before) after v w h a = (a.0, All-replace P before after v w h a.1)

  not_nil : (before after : List (Worker S)) (w : Worker S) → before ++ w ∷ after ≢ []
  not_nil [] after w e = cc
  not_nil (b ∷ before) after w e = cc

  not-All-finished :
      (ws : List (Worker S))
      → ws ≢ []
      → All (λ (w : Worker S). w.phase ≢ finished) ws
      → All IsFinished ws
      → ⊥
  not-All-finished [] n a f = n refl
  not-All-finished (w ∷ ws) n a f = a.0 f.0

  step-Hangs : {s t : Sending S} → SendStep s t → Hangs s → Hangs t
  step-Hangs {s} {t} (attempt before after stream e u) h = subst Hangs (sym u) (record {
    is_waiting = h.is_waiting;
    some_worker = not_nil before after _;
    none_finished =
        All-replace _ before after (worker stream sending) (worker stream blocked) (λ c. cc)
          (subst (All (λ (w : Worker S). w.phase ≢ finished)) e h.none_finished);
  })
  step-Hangs {s} {t} (hand_over before after stream d e u) h = absurd (cc (h.is_waiting, d))
  step-Hangs {s} {t} (all_done c a u) h =
      absurd (not-All-finished s.workers h.some_worker h.none_finished a)
  step-Hangs {s} {t} (drained d u) h = absurd (cc (h.is_waiting, d))

  unfinished :
      (streams : List S)
      → All (λ (w : Worker S). w.phase ≢ finished) (map (λ stream. worker stream sending) streams)
  unfinished [] = tt
  unfinished (stream ∷ streams) = (λ e. cc, unfinished streams)

  start-Hangs : (stream : S) (streams : List S) → Hangs (start_sending (stream ∷ streams))
  unfolding start_sending
  start-Hangs stream streams = record {
    is_waiting = refl;
    some_worker = λ e. cc;
    none_finished = unfinished (stream ∷ streams);
  }

  Reach-Hangs : {s t : Sending S} → Hangs s → SendReach s t → Hangs t
  Reach-Hangs h here = h
  Reach-Hangs h (next r st) = step-Hangs st (Reach-Hangs h r)

  -- The streams that were attempted, the last one first.
  abbrev pub onto : List S → List S → List S
  onto [] done = done
  onto (stream ∷ rest) done = onto rest (stream ∷ done)

  abbrev pub all_in : Phase → List S → List (Worker S)
  all_in phase = map (λ stream. worker stream phase)

  attempt_all :
      (s : Sending S) (before : List (Worker S)) (todo done : List S)
      → SendReach s
          (record { workers = before ++ all_in sending todo; caller = waiting; attempted = done })
      → SendReach s (record {
        workers = before ++ all_in blocked todo;
        caller = waiting;
        attempted = onto todo done;
      })
  attempt_all s before [] done r = r
  attempt_all s before (stream ∷ rest) done r =
      let moved =
        λ (phase : Phase). append_assoc before (worker stream blocked ∷ []) (all_in phase rest) in
      subst
        (λ ws.
          SendReach s
            (record { workers = ws; caller = waiting; attempted = onto rest (stream ∷ done) }))
        (moved blocked)
        (attempt_all s (before ++ worker stream blocked ∷ []) rest (stream ∷ done) (
          subst
            (λ ws.
              SendReach s (record { workers = ws; caller = waiting; attempted = stream ∷ done }))
            (sym (moved sending)) (next r (attempt before (all_in sending rest) stream refl refl))))

  -- With a client connected, SendPolicy never returns: whatever the goroutines do, the caller stays
  -- in `wg.Wait()`, since a goroutine is done only after its send on the channel, and the channel is
  -- received from only after the wait. Nevertheless there is a run in which the policy has been sent
  -- on every stream.
  pub send_policy_hangs :
      (stream : S) (streams : List S)
      → ((t : Sending S) → SendReach (start_sending (stream ∷ streams)) t → t.caller ≡ waiting)
        × SendReach (start_sending (stream ∷ streams)) (record {
          workers = all_in blocked (stream ∷ streams);
          caller = waiting;
          attempted = onto (stream ∷ streams) [];
        })
  unfolding start_sending
  send_policy_hangs stream streams = (
    λ t r. (Reach-Hangs (start-Hangs stream streams) r).is_waiting,
    attempt_all _ [] (stream ∷ streams) [] here,
  )

  -- Without clients it returns.
  send_policy_returns :
      SendReach (start_sending []) (record { workers = []; caller = returned; attempted = [] })
  unfolding start_sending
  send_policy_returns = next (next here (all_done refl tt refl)) (drained refl refl)
