-- ===== src/Sender/Inactive.antt =====
-- Health checks and the removal of inactive clients.
use kyverno_http_authorizer.Base.{
  ℕ, ◌-◌, ◌+◌, ◌≤◌, String, Option, none, some, List, [], ◌∷◌, ◌++◌, ◌≡◌, refl, ap, ◌∙◌, Bool,
  false, eq_refl, arith, ◌==◌, ltb, if◌then◌else◌, eq_iff, Option-cases, inl, inr,
}
use kyverno_http_authorizer.GoMap.{GoMap, lookup, delete, Distinct}
use kyverno_http_authorizer.GoMap.Laws.{lookup-insert, lookup-delete}
use kyverno_http_authorizer.Proto
use kyverno_http_authorizer.Sender.{
  PolicySender, health_check, record_time, delete_inactive, delete_clients, inactive_clients,
}
use kyverno_http_authorizer.Stream.Sorted.{contains}
use kyverno_http_authorizer.Sender.Invariant.{Consistent, check-Consistent}

-- Whether a client whose last health check is `last` counts as inactive at time `now`.
abbrev pub is_inactive : ℕ → ℕ → Option ℕ → Bool
is_inactive max now none = false
is_inactive max now (some t) = ltb max (now - t)

contains-inactive_clients :
    (max now : ℕ) (c : String) (m : GoMap ℕ)
    → Distinct m
    → contains c (inactive_clients max now m) ≡ is_inactive max now (lookup c m)
unfolding inactive_clients lookup
contains-inactive_clients max now c [] d = refl
contains-inactive_clients max now c ((j, t) ∷ m) d =
    ground (arith, contains-inactive_clients max now c m d.1, eq_iff j c)

-- The later of a time and the one recorded.
abbrev pub latest : ℕ → Option ℕ → ℕ
latest t none = t
latest t (some u) = if ltb u t then t else u

-- What a health check makes of the time recorded for the client `c`: one without an address or a
-- time changes nothing.
abbrev pub recorded : Proto.HealthCheckRequest → String → Option ℕ → Option ℕ
recorded r c d =
    if r.client_address == ""
    then d
    else elim r.time [ none ↦ d | some t ↦ if r.client_address == c then some (latest t d) else d ]

-- A health check of client `c` at time `t`.
abbrev pub IsCheck : String → ℕ → Proto.HealthCheckRequest → Type 0
IsCheck c t r = (r.client_address ≡ c) × (r.time ≡ some t) × ((c == "") ≡ false)

-- A recorded time that is there and at least `t`.
abbrev pub AtLeast : ℕ → Option ℕ → Type 0
AtLeast t none = ⊥
AtLeast t (some u) = t ≤ u

pub recorded_mono :
    (r : Proto.HealthCheckRequest) (c : String) (t : ℕ) (d : Option ℕ)
    → AtLeast t d
    → AtLeast t (recorded r c d)
recorded_mono r c t none h = absurd h
recorded_mono r c t (some u) h = elim (Option-cases r.time) [
  | inl e ↦ ground arith
  | inr (v, e) ↦ ground arith
]

pub recorded_check :
    (r : Proto.HealthCheckRequest) (c : String) (t : ℕ) (d : Option ℕ)
    → IsCheck c t r
    → AtLeast t (recorded r c d)
recorded_check r c t none h = ground (arith, eq_refl c)
recorded_check r c t (some u) h = ground (arith, eq_refl c)

pub active :
    (max now t : ℕ) (d : Option ℕ) → AtLeast t d → now ≤ t + max → is_inactive max now d ≡ false
active max now t none a h = absurd a
active max now t (some u) a h = ground arith

module _ {S : Type 0} where
  delete_clients-lookup :
      (c : String) (cs : List String) (s : PolicySender S)
      → (lookup c (delete_clients cs s).cxns_map
          ≡ (if contains c cs then none else lookup c s.cxns_map))
        × (lookup c (delete_clients cs s).health_check_map
            ≡ (if contains c cs then none else lookup c s.health_check_map))
  unfolding delete_clients
  delete_clients-lookup c [] s = (refl, refl)
  delete_clients-lookup c (j ∷ cs) s =
      let rest = delete_clients-lookup c cs (record s {
        cxns_map = delete j s.cxns_map;
        health_check_map = delete j s.health_check_map;
      }) in
      ground
        (arith, rest.0, rest.1, lookup-delete j c s.cxns_map, lookup-delete j c s.health_check_map)

  -- The monitor removes the stream and the health check of exactly the clients whose last health
  -- check is more than the limit ago; a client that never sent one keeps its stream.
  pub delete_inactive-lookup :
      (now : ℕ) (s : PolicySender S) (c : String)
      → Distinct s.health_check_map
      → let gone = is_inactive s.max_client_inactive_duration now (lookup c s.health_check_map) in
        (lookup c (delete_inactive now s).cxns_map ≡ (if gone then none else lookup c s.cxns_map))
        × (lookup c (delete_inactive now s).health_check_map
            ≡ (if gone then none else lookup c s.health_check_map))
  unfolding delete_inactive
  delete_inactive-lookup now s c d =
      let max = s.max_client_inactive_duration in
      rw (← contains-inactive_clients max now c s.health_check_map d)
        (delete_clients-lookup c (inactive_clients max now s.health_check_map) s)

  record_time-lookup :
      (a c : String) (t : ℕ) (s : PolicySender S)
      → lookup c (record_time a t s).health_check_map ≡ (
          if a == c
          then some (latest t (lookup c s.health_check_map))
          else lookup c s.health_check_map)
  unfolding record_time
  record_time-lookup a c t s = elim (Option-cases (lookup a s.health_check_map)) [
    | inl e ↦ ground (arith, e, eq_iff a c, lookup-insert a c t s.health_check_map)
    | inr (u, e) ↦ ground (arith, e, eq_iff a c, lookup-insert a c t s.health_check_map)
  ]

  pub health_check-lookup :
      (r : Proto.HealthCheckRequest) (c : String) (s : PolicySender S)
      → lookup c (health_check r s).0.health_check_map ≡ recorded r c (lookup c s.health_check_map)
  unfolding health_check
  health_check-lookup r c s = elim (Option-cases r.time) [
    | inl e ↦ ground (arith, e)
    | inr (t, e) ↦ ground (arith, e, record_time-lookup r.client_address c t s)
  ]

  -- Health checks as they arrive.
  unfoldable pub health_checks : List Proto.HealthCheckRequest → PolicySender S → PolicySender S
  health_checks [] s = s
  health_checks (r ∷ rs) s = health_checks rs (health_check r s).0

  health_checks_mono :
      (rs : List Proto.HealthCheckRequest) (c : String) (t : ℕ) (s : PolicySender S)
      → AtLeast t (lookup c s.health_check_map)
      → AtLeast t (lookup c (health_checks rs s).health_check_map)
  unfolding health_checks
  health_checks_mono [] c t s h = h
  health_checks_mono (r ∷ rs) c t s h =
      health_checks_mono rs c t (health_check r s).0
        (rw (health_check-lookup r c s) (recorded_mono r c t (lookup c s.health_check_map) h))

  health_checks_Recorded :
      (before after : List Proto.HealthCheckRequest) (r : Proto.HealthCheckRequest) (c : String)
      (t : ℕ) (s : PolicySender S)
      → IsCheck c t r
      → AtLeast t (lookup c (health_checks (before ++ r ∷ after) s).health_check_map)
  unfolding health_checks
  health_checks_Recorded [] after r c t s h =
      health_checks_mono after c t (health_check r s).0
        (rw (health_check-lookup r c s) (recorded_check r c t (lookup c s.health_check_map) h))
  health_checks_Recorded (b ∷ before) after r c t s h =
      health_checks_Recorded before after r c t (health_check b s).0 h

  pub health_check_frame :
      (r : Proto.HealthCheckRequest) (s : PolicySender S)
      → ((health_check r s).0.cxns_map ≡ s.cxns_map)
        × ((health_check r s).0.max_client_inactive_duration ≡ s.max_client_inactive_duration)
  unfolding health_check
  health_check_frame r s = ground arith

  health_checks_frame :
      (rs : List Proto.HealthCheckRequest) (s : PolicySender S)
      → ((health_checks rs s).cxns_map ≡ s.cxns_map)
        × ((health_checks rs s).max_client_inactive_duration ≡ s.max_client_inactive_duration)
  unfolding health_checks
  health_checks_frame [] s = (refl, refl)
  health_checks_frame (r ∷ rs) s = (
    (health_checks_frame rs (health_check r s).0).0 ∙ (health_check_frame r s).0,
    (health_checks_frame rs (health_check r s).0).1 ∙ (health_check_frame r s).1,
  )

  health_checks-Consistent :
      (rs : List Proto.HealthCheckRequest) (s : PolicySender S)
      → Consistent s
      → Consistent (health_checks rs s)
  unfolding health_checks
  health_checks-Consistent [] s k = k
  health_checks-Consistent (r ∷ rs) s k =
      health_checks-Consistent rs (health_check r s).0 (check-Consistent r s k)

  -- A client that has sent a health check with a time no more than the limit ago keeps its stream
  -- when the monitor runs, in whatever order its and the other clients' health checks arrived.
  pub delete_inactive_keeps :
      (before after : List Proto.HealthCheckRequest) (r : Proto.HealthCheckRequest) (c : String)
      (t now : ℕ) (s : PolicySender S)
      → Consistent s
      → IsCheck c t r
      → now ≤ t + s.max_client_inactive_duration
      → lookup c (delete_inactive now (health_checks (before ++ r ∷ after) s)).cxns_map
        ≡ lookup c s.cxns_map
  delete_inactive_keeps before after r c t now s k v h =
      let checks : List Proto.HealthCheckRequest = before ++ r ∷ after in
      let u : PolicySender S = health_checks checks s in
      let frame = health_checks_frame checks s in
      let kept =
        active u.max_client_inactive_duration now t (lookup c u.health_check_map)
          (health_checks_Recorded before after r c t s v) (rw frame.1 h) in
      (delete_inactive-lookup now u c (health_checks-Consistent checks s k).clients_distinct).0
      ∙ rw kept (ap (lookup c) frame.0)
