-- ===== src/Commands/Standalone.antt =====
-- What the set-up of the standalone server ends with, and what the command returns.
use kyverno_http_authorizer.Base.{
  String, Option, none, some, List, [], ◌∷◌, ◌++◌, map, ◌≡◌, ◌↔◌, ◌⊎◌, inl, inr, refl, sym, ap, ◌∙◌,
  Bool, true, false, if◌then◌else◌, append-nil,
}
use kyverno_http_authorizer.Engine.{Provider, composite}
use kyverno_http_authorizer.Commands.{
  register_controller, Cluster, Task, manager_task, probes_task, auth_task, grpc_task, Setup,
  get_external_providers, or_fail, also, serving, standalone_setup, authz_result,
}
use kyverno_http_authorizer.Commands.Managing.{
  composite-snoc, get_external_providers_cases, get_external_providers_found, some_ne, ManagerReady,
  failure, Fails, with_manager_ready, with_manager_cases,
}

module _ {E : Type 0} (cluster : Cluster E) where
  open cluster use {Config, Dynamic, Manager, client_config, new_dynamic}

  module _ {R F : Type 0} (lookup : String → E ⊎ F) (fs_provider : F → Provider R)
      (reconciler : Manager → Provider R) where
    -- What the manager adds to the providers: its reconciler if Kubernetes is a source of policies.
    abbrev pub KubeReady : Bool → Config → List (Provider R) → Type 0
    KubeReady true config ps =
        (mgr : Manager) × ManagerReady cluster config mgr × (ps ≡ reconciler mgr ∷ [])
    KubeReady false config ps = ps ≡ []

    -- All calls of the set-up succeed, with the file systems `fss` and the providers `ps` of the manager.
    abbrev pub Ready : Bool → List String → List F → List (Provider R) → Type 0
    Ready kube urls fss ps =
        (config : Config) × (dyn : Dynamic) × (client_config ≡ inr config)
        × (new_dynamic config ≡ inr dyn)
        × (map lookup urls ≡ map inr fss)
        × KubeReady kube config ps

    abbrev pub setup_of : Bool → List String → Setup E (Provider R)
    setup_of kube urls = standalone_setup cluster lookup fs_provider reconciler kube urls

    -- The set-up of a server that asks the given providers.
    abbrev pub success : Bool → List (Provider R) → Setup E (Provider R)
    success kube ps = record {
      error = none;
      tasks = (if kube then manager_task ∷ [] else []) ++ probes_task ∷ auth_task ∷ [];
      served = some (composite ps);
    }

    pub setup-Ready :
        (kube : Bool) (urls : List String) (fss : List F) (ps : List (Provider R))
        → Ready kube urls fss ps
        → setup_of kube urls ≡ success kube (map fs_provider fss ++ ps)
    unfolding standalone_setup
    setup-Ready true urls fss ps (config, dyn, c, d, m, (mgr, r, e)) =
        rw (c, or_fail, d, get_external_providers_found lookup urls fss m, e)
          (with_manager_ready cluster register_controller config _ mgr r
            ∙ ap (λ p. also manager_task (serving (probes_task ∷ auth_task ∷ []) p))
                (composite-snoc (map fs_provider fss) (reconciler mgr)))
    setup-Ready false urls fss ps (config, dyn, c, d, m, e) = rw (
      c,
      or_fail,
      d,
      get_external_providers_found lookup urls fss m,
      e,
      append-nil (map fs_provider fss),
    )

    pub setup_cases :
        (kube : Bool) (urls : List String)
        → ((fss : List F) × (ps : List (Provider R)) × Ready kube urls fss ps)
          ⊎ Fails (setup_of kube urls)
    unfolding standalone_setup
    setup_cases kube urls = configuring client_config refl
      where
        sourcing :
            (k : Bool)
            → kube ≡ k
            → (config : Config) → client_config ≡ inr config
            → (dyn : Dynamic) → new_dynamic config ≡ inr dyn
            → ((fss : List F) × (get_external_providers lookup urls ≡ inr fss)
                × (map lookup urls ≡ map inr fss))
              ⊎ ((e : E) × (get_external_providers lookup urls ≡ inl e))
            → ((fss : List F) × (ps : List (Provider R)) × Ready kube urls fss ps)
              ⊎ Fails (setup_of kube urls)
        sourcing k b config c dyn d (inr (e, h)) = inr (e, false, rw (c, or_fail, d, h))
        sourcing false b config c dyn d (inl (fss, h, m)) =
            inl (fss, [], rw b (config, dyn, c, d, m, refl))
        sourcing true b config c dyn d (inl (fss, h, m)) =
            elim (with_manager_cases cluster register_controller config (λ mgr.
              serving (probes_task ∷ auth_task ∷ [])
                (composite (composite (map fs_provider fss) ∷ reconciler mgr ∷ [])))) [
                  | inl (mgr, r) ↦
                      inl (fss, reconciler mgr ∷ [], rw b (config, dyn, c, d, m, (mgr, r, refl)))
                  | inr (e, m', q) ↦ inr (e, m', rw (b, c, or_fail, d, h) q)
                ]

        connecting :
            (config : Config)
            → client_config ≡ inr config
            → (o : E ⊎ Dynamic) → new_dynamic config ≡ o
            → ((fss : List F) × (ps : List (Provider R)) × Ready kube urls fss ps)
              ⊎ Fails (setup_of kube urls)
        connecting config c (inl e) d = inr (e, false, rw (c, or_fail, d))
        connecting config c (inr dyn) d =
            sourcing kube refl config c dyn d (get_external_providers_cases lookup urls)

        configuring :
            (o : E ⊎ Config)
            → client_config ≡ o
            → ((fss : List F) × (ps : List (Provider R)) × Ready kube urls fss ps)
              ⊎ Fails (setup_of kube urls)
        configuring (inl e) c = inr (e, false, rw c)
        configuring (inr config) c = connecting config c (new_dynamic config) refl

    module _ (combine : List (Option E) → Option E) (returns : Task → Option E) where
      result-success :
          (kube : Bool) (ps : List (Provider R))
          → authz_result combine returns grpc_task (success kube ps)
            ≡ combine (
                none
                ∷ returns probes_task
                ∷ none
                ∷ (if kube then returns manager_task else none)
                ∷ returns auth_task
                ∷ [])
      unfolding authz_result
      result-success true ps = refl
      result-success false ps = refl

      result-failure :
          (e : E) (m : Bool)
          → authz_result combine returns grpc_task (failure {S = Provider R} e m)
            ≡ combine
                (some e ∷ none ∷ none ∷ (if m then returns manager_task else none) ∷ none ∷ [])
      unfolding authz_result
      result-failure e true = refl
      result-failure e false = refl

      -- The set-up of the standalone server has no error exactly if all its calls succeed. Then it starts the probes
      -- and the auth server, and the manager if Kubernetes is a source of policies; what it serves is one composite
      -- of the external providers, in the order of their URLs, and after them the reconciler of the manager; and the
      -- command returns the combination of what its goroutines leave. Else it serves nothing and starts no
      -- server, at most the manager, and the command returns the combination of the error and of what the manager
      -- leaves.
      pub standalone_setup_lem :
          (kube : Bool) (urls : List String)
          → (((setup_of kube urls).error ≡ none)
              ↔ ((fss : List F) × (ps : List (Provider R)) × Ready kube urls fss ps))
            × (((fss : List F) × (ps : List (Provider R)) × Ready kube urls fss ps
                  × (setup_of kube urls ≡ success kube (map fs_provider fss ++ ps))
                  × (authz_result combine returns grpc_task (setup_of kube urls)
                      ≡ combine (
                          none
                          ∷ returns probes_task
                          ∷ none
                          ∷ (if kube then returns manager_task else none)
                          ∷ returns auth_task
                          ∷ [])))
                ⊎ ((e : E) × (m : Bool) × (setup_of kube urls ≡ failure e m)
                    × (authz_result combine returns grpc_task (setup_of kube urls)
                        ≡ combine (
                            some e
                            ∷ none
                            ∷ none
                            ∷ (if m then returns manager_task else none)
                            ∷ none
                            ∷ []))))
      standalone_setup_lem kube urls = elim (setup_cases kube urls) [
        | inl (fss, ps, r) ↦
            let e = setup-Ready kube urls fss ps r in
            (
              (λ h. (fss, ps, r), λ h. ap (λ (s : Setup E (Provider R)). s.error) e),
              inl (
                fss,
                ps,
                r,
                e,
                ap (authz_result combine returns grpc_task) e
                    ∙ result-success kube (map fs_provider fss ++ ps),
              ),
            )
        | inr (x, m, e) ↦
            let failed_error = ap (λ (s : Setup E (Provider R)). s.error) e in
            (
              (
                λ h. absurd (some_ne x (sym failed_error ∙ h)),
                λ (fss, ps, r). absurd (
                    some_ne x (
                      sym failed_error
                      ∙ ap (λ (s : Setup E (Provider R)). s.error)
                          (setup-Ready kube urls fss ps r))),
              ),
              inr (x, m, e, ap (authz_result combine returns grpc_task) e ∙ result-failure x m),
            )
      ]
