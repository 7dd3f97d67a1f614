-- ===== src/Sender/Monitor.antt =====
-- StartHealthCheckMonitor: how long a silent client stays connected.
use kyverno_http_authorizer.Base.{
  ℕ, ◌+◌, ◌≤◌, ◌<◌, String, Option, none, some, List, [], ◌∷◌, ◌++◌, map, ◌≡◌, refl, ap, ap₂, ◌∙◌,
  Bool, true, false, arith, ltb, Bool-cases, inl, inr, ◌⊎◌, if◌then◌else◌,
}
use kyverno_http_authorizer.GoMap.{lookup}
use kyverno_http_authorizer.Sender.{PolicySender, delete_inactive, delete_clients, inactive_clients}
use kyverno_http_authorizer.Sender.Invariant.{Consistent, flush, step-Consistent, step}
use kyverno_http_authorizer.Sender.Inactive.{is_inactive, delete_inactive-lookup}

-- What ends a wait of the monitor: the context is done, or the interval has elapsed; the time is then
-- that of deleteInactive's scan.
pub data Wakeup : Type 0 where
  done : Wakeup
  elapsed : ℕ → Wakeup

-- Each time is at most `interval` after the one before it, the first after `start`.
abbrev pub Spaced : ℕ → ℕ → List ℕ → Type 0
Spaced interval start [] = Unit
Spaced interval start (now ∷ times) = (now ≤ start + interval) × Spaced interval now times

-- Some time of the list is past the limit.
abbrev pub Passes : ℕ → List ℕ → Type 0
Passes limit [] = ⊥
Passes limit (now ∷ times) = (limit < now) ⊎ Passes limit times

late : (max now t : ℕ) → t + max < now → is_inactive max now (some t) ≡ true
late max now t h = ground arith

early : (max now t : ℕ) → ltb (t + max) now ≡ false → is_inactive max now (some t) ≡ false
early max now t h = ground arith

module _ {S : Type 0} where
  -- StartHealthCheckMonitor over what ends its waits; the flag says whether it has returned.
  pub monitor : List Wakeup → PolicySender S → PolicySender S × Bool
  monitor [] s = (s, false)
  monitor (done ∷ ws) s = (s, true)
  monitor (elapsed now ∷ ws) s = monitor ws (delete_inactive now s)

  max-delete_clients :
      (cs : List String) (s : PolicySender S)
      → (delete_clients cs s).max_client_inactive_duration ≡ s.max_client_inactive_duration
  unfolding delete_clients
  max-delete_clients [] s = refl
  max-delete_clients (c ∷ cs) s = max-delete_clients cs _

  pub max-delete_inactive :
      (now : ℕ) (s : PolicySender S)
      → (delete_inactive now s).max_client_inactive_duration ≡ s.max_client_inactive_duration
  unfolding delete_inactive
  max-delete_inactive now s =
      max-delete_clients (inactive_clients s.max_client_inactive_duration now s.health_check_map) s

  delete_inactive-Consistent :
      (now : ℕ) (s : PolicySender S) → Consistent s → Consistent (delete_inactive now s)
  unfolding step
  delete_inactive-Consistent now s k = step-Consistent s (flush now) k

  -- A client whose last health check the sender has at time `t` keeps its stream through every wakeup
  -- up to `t` and the limit for inactivity, and loses it at the first wakeup after that, at most one
  -- interval later. Here wakeups are at most one interval apart, one of them is past the limit, and the
  -- client sends no further health check.
  pub monitor_evicts :
      (interval start t max : ℕ) (c : String) (times : List ℕ) (s : PolicySender S)
      → Consistent s
      → s.max_client_inactive_duration ≡ max
      → lookup c s.health_check_map ≡ some t
      → start ≤ t + max
      → Spaced interval start times
      → Passes (t + max) times
      → (before : List ℕ) × (now : ℕ) × (after : List ℕ) × (times ≡ before ++ now ∷ after)
        × (t + max < now)
        × (now ≤ t + max + interval)
        × (lookup c (monitor (map elapsed before) s).0.cxns_map ≡ lookup c s.cxns_map)
        × (lookup c (monitor (map elapsed (before ++ now ∷ [])) s).0.cxns_map ≡ none)
  unfolding monitor
  monitor_evicts interval start t max c [] s k m h b sp p = absurd p
  monitor_evicts interval start t max c (now ∷ times) s k m h b sp p =
      let look = delete_inactive-lookup now s c k.clients_distinct in
      let test = ap₂ (λ (x : ℕ) (o : Option ℕ). is_inactive x now o) m h in
      elim (Bool-cases (ltb (t + max) now)) [
        | inl past ↦
            let lt : t + max < now = ground arith in
            (
              [],
              now,
              times,
              refl,
              lt,
              omega arith,
              refl,
              look.0 ∙ ap (λ b. if b then none else lookup c s.cxns_map) (test ∙ late max now t lt),
            )
        | inr not_yet ↦
            let stays = test ∙ early max now t not_yet in
            let kept = look.1 ∙ ap (λ b. if b then none else lookup c s.health_check_map) stays in
            let (before, at, after, e, lt, le, keeps, gone) =
              monitor_evicts interval now t max c times (delete_inactive now s)
                (delete_inactive-Consistent now s k) (max-delete_inactive now s ∙ m) (kept ∙ h)
                (ground arith) sp.1 (elim p [ inl x ↦ absurd (ground arith) | inr q ↦ q ]) in
            (
              now ∷ before,
              at,
              after,
              ap (λ r. now ∷ r) e,
              lt,
              le,
              keeps ∙ look.0 ∙ ap (λ b. if b then none else lookup c s.cxns_map) stays,
              gone,
            )
      ]
