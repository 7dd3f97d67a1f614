-- ===== src/Commands/Webhook.antt =====
-- What the set-up of the validation webhook ends with.
use kyverno_http_authorizer.Base.{[], ◌∷◌, ◌≡◌, ◌⊎◌, inl, inr, refl, false}
use kyverno_http_authorizer.Commands.{
  Cluster, probes_task, manager_task, Setup, or_fail, serving, also, webhook_setup,
}
use kyverno_http_authorizer.Commands.Managing.{
  ManagerReady, Fails, with_manager_ready, with_manager_cases,
}

module _ {E W : Type 0} (cluster : Cluster E) (validator : W) where
  open cluster use {Config, Manager, client_config}

  -- All calls of the set-up succeed.
  abbrev pub Ready : Type 0
  Ready =
      (config : Config) × (client_config ≡ inr config)
      × (mgr : Manager) × ManagerReady cluster config mgr

  abbrev pub setup_of : Setup E W
  setup_of = webhook_setup cluster validator

  abbrev pub success : Setup E W
  success = also manager_task (serving (probes_task ∷ []) validator)

  pub setup-Ready : Ready → setup_of ≡ success
  unfolding webhook_setup
  setup-Ready (config, c, mgr, r) =
      rw (c, or_fail)
        (with_manager_ready cluster "failed to create webhook: " config
          (λ mgr. serving (probes_task ∷ []) validator) mgr r)

  pub setup_cases : Ready ⊎ Fails setup_of
  unfolding webhook_setup
  setup_cases = configuring client_config refl
    where
      configuring : (o : E ⊎ Config) → client_config ≡ o → Ready ⊎ Fails setup_of
      configuring (inl e) c = inr (e, false, rw c)
      configuring (inr config) c =
          elim (with_manager_cases cluster "failed to create webhook: " config
            (λ mgr. serving (probes_task ∷ []) validator)) [
              | inl (mgr, r) ↦ inl (config, c, mgr, r)
              | inr (e, m, q) ↦ inr (e, m, rw (c, or_fail) q)
            ]
