-- ===== src/Commands/ControlPlane.antt =====
-- What the set-up of the control plane ends with, and what a first client is sent.
use kyverno_http_authorizer.Base.{
  ℕ, String, Option, none, some, List, [], ◌∷◌, ◌++◌, map, ◌≡◌, ◌↔◌, ◌⊎◌, inl, inr, refl, sym, ap,
  ◌∙◌, Bool, true, false, if◌then◌else◌, ok,
}
use kyverno_http_authorizer.Policy
use kyverno_http_authorizer.Proto
use kyverno_http_authorizer.Sender.{PolicySender, new_policy_sender, stream_request}
use kyverno_http_authorizer.Commands.{
  register_controller, Cluster, Task, manager_task, probes_task, grpc_task, monitor_task, Setup,
  get_external_providers, external_policies, or_fail, serving, control_plane_setup, manager_result,
}
use kyverno_http_authorizer.Commands.Managing.{
  get_external_providers_cases, get_external_providers_found, some_ne, ManagerReady, failure, Fails,
  with_manager_ready, with_manager_cases,
}

module _ {E : Type 0} (cluster : Cluster E) where
  open cluster use {Config, Manager, client_config}

  module _ {F : Type 0} (C : Type 0) (lookup : String → E ⊎ F)
      (policies_of : F → E ⊎ List Policy.ValidatingPolicy) (max : ℕ) where
    abbrev pub KubeReady : Bool → Config → Type 0
    KubeReady true config = (mgr : Manager) × ManagerReady cluster config mgr
    KubeReady false config = Unit

    -- All calls of the set-up succeed, with the file systems `fss`.
    abbrev pub Ready : Bool → List String → List F → Type 0
    Ready kube urls fss =
        (config : Config) × (client_config ≡ inr config)
        × (map lookup urls ≡ map inr fss)
        × KubeReady kube config

    abbrev pub setup_of : Bool → List String → Setup E (PolicySender C)
    setup_of kube urls = control_plane_setup cluster lookup policies_of max kube urls

    abbrev servers : List Task
    servers = probes_task ∷ grpc_task ∷ monitor_task ∷ []

    -- The sender that is made of the file systems.
    abbrev pub sender_of : List F → PolicySender C
    sender_of fss = new_policy_sender (external_policies (map policies_of fss)) max

    abbrev pub success : Bool → List F → Setup E (PolicySender C)
    success kube fss = record {
      error = none;
      tasks = (if kube then manager_task ∷ [] else []) ++ servers;
      served = some (sender_of fss);
    }

    pub setup-Ready :
        (kube : Bool) (urls : List String) (fss : List F)
        → Ready kube urls fss
        → setup_of kube urls ≡ success kube fss
    unfolding control_plane_setup
    setup-Ready true urls fss (config, c, m, (mgr, r)) =
        rw (c, or_fail, get_external_providers_found lookup urls fss m)
          (with_manager_ready cluster register_controller config
            (λ mgr. serving servers (sender_of fss)) mgr r)
    setup-Ready false urls fss (config, c, m, r) =
        rw (c, or_fail, get_external_providers_found lookup urls fss m)

    pub setup_cases :
        (kube : Bool) (urls : List String)
        → ((fss : List F) × Ready kube urls fss) ⊎ Fails (setup_of kube urls)
    unfolding control_plane_setup
    setup_cases kube urls = configuring client_config refl
      where
        sourcing :
            (k : Bool)
            → kube ≡ k
            → (config : Config) → client_config ≡ inr config
            → ((fss : List F) × (get_external_providers lookup urls ≡ inr fss)
                × (map lookup urls ≡ map inr fss))
              ⊎ ((e : E) × (get_external_providers lookup urls ≡ inl e))
            → ((fss : List F) × Ready kube urls fss) ⊎ Fails (setup_of kube urls)
        sourcing k b config c (inr (e, h)) = inr (e, false, rw (c, or_fail, h))
        sourcing false b config c (inl (fss, h, m)) = inl (fss, rw b (config, c, m, tt))
        sourcing true b config c (inl (fss, h, m)) =
            elim (with_manager_cases cluster register_controller config
              (λ mgr. serving servers (sender_of fss))) [
                | inl (mgr, r) ↦ inl (fss, rw b (config, c, m, (mgr, r)))
                | inr (e, m', q) ↦ inr (e, m', rw (b, c, or_fail, h) q)
              ]

        configuring :
            (o : E ⊎ Config)
            → client_config ≡ o
            → ((fss : List F) × Ready kube urls fss) ⊎ Fails (setup_of kube urls)
        configuring (inl e) c = inr (e, false, rw c)
        configuring (inr config) c =
            sourcing kube refl config c (get_external_providers_cases lookup urls)

    module _ (combine : List (Option E) → Option E) (returns : Task → Option E) where
      result-success :
          (kube : Bool) (fss : List F)
          → manager_result combine returns (success kube fss)
            ≡ combine (
                none
                ∷ returns probes_task
                ∷ returns grpc_task
                ∷ (if kube then returns manager_task else none)
                ∷ [])
      unfolding manager_result
      result-success true fss = refl
      result-success false fss = refl

      result-failure :
          (e : E) (m : Bool)
          → manager_result combine returns (failure {S = PolicySender C} e m)
            ≡ combine (some e ∷ none ∷ none ∷ (if m then returns manager_task else none) ∷ [])
      unfolding manager_result
      result-failure e true = refl
      result-failure e false = refl

      -- The set-up of the control plane has no error exactly if all its calls succeed; a source whose policies cannot
      -- be read is no error. Then it starts the probes, the gRPC server and the monitor, and the manager if
      -- Kubernetes is a source of policies, the command returns the combination of what its goroutines leave, and
      -- a client that opens a stream before any policy is stored is sent nothing, whatever policies the
      -- external sources have. Else it serves nothing and starts no server, at most the manager, and the command
      -- returns the combination of the error and of what the manager leaves.
      pub control_plane_setup_lem :
          (kube : Bool) (urls : List String) (stream : C)
          (req : Proto.ValidatingPolicyStreamRequest)
          → (((setup_of kube urls).error ≡ none) ↔ ((fss : List F) × Ready kube urls fss))
            × (((fss : List F) × Ready kube urls fss
                  × (setup_of kube urls ≡ success kube fss)
                  × (manager_result combine returns (setup_of kube urls)
                      ≡ combine (
                          none
                          ∷ returns probes_task
                          ∷ returns grpc_task
                          ∷ (if kube then returns manager_task else none)
                          ∷ []))
                  × (t : PolicySender C) × (stream_request stream req (sender_of fss) ≡ ok ([], t)))
                ⊎ ((e : E) × (m : Bool) × (setup_of kube urls ≡ failure e m)
                    × (manager_result combine returns (setup_of kube urls)
                        ≡ combine (
                            some e
                            ∷ none
                            ∷ none
                            ∷ (if m then returns manager_task else none)
                            ∷ []))))
      unfolding stream_request new_policy_sender
      control_plane_setup_lem kube urls stream req = elim (setup_cases kube urls) [
        | inl (fss, r) ↦
            let e = setup-Ready kube urls fss r in
            (
              (λ h. (fss, r), λ h. ap (λ (s : Setup E (PolicySender C)). s.error) e),
              inl (
                fss,
                r,
                e,
                ap (manager_result combine returns) e ∙ result-success kube fss,
                _,
                refl,
              ),
            )
        | inr (x, m, e) ↦
            let failed_error = ap (λ (s : Setup E (PolicySender C)). s.error) e in
            (
              (
                λ h. absurd (some_ne x (sym failed_error ∙ h)),
                λ (fss, r). absurd (
                    some_ne x (
                      sym failed_error
                      ∙ ap (λ (s : Setup E (PolicySender C)). s.error)
                          (setup-Ready kube urls fss r))),
              ),
              inr (x, m, e, ap (manager_result combine returns) e ∙ result-failure x m),
            )
      ]
