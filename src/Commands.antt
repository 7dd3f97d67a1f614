-- ===== src/Commands.antt =====
-- pkg/commands/serve: how the commands are set up, and what they return. What they use of client-go and of
-- controller-runtime is the record `Cluster`; their flags are arguments.
pub mod Managing
pub mod Standalone
pub mod Directories
pub mod Replies
pub mod ControlPlane
pub mod Webhook
pub mod Flags
use kyverno_http_authorizer.Base.{
  ℕ, String, Option, none, some, List, [], ◌∷◌, ◌++◌, Bool, true, false, map, ◌⊎◌, inl, inr,
  if◌then◌else◌, eqb,
}
use kyverno_http_authorizer.Policy
use kyverno_http_authorizer.Engine.{Provider, composite}
use kyverno_http_authorizer.Sender.{PolicySender, new_policy_sender}
use kyverno_http_authorizer.Listener.{PolicyListener, new_policy_listener}

pub record Cluster (E : Type 0) : Type 1 where
  pub Config : Type 0
  pub Dynamic : Type 0
  pub Manager : Type 0
  -- ClientConfig, dynamic.NewForConfig, v1alpha1.Install, ctrl.NewManager, and the Complete of a builder.
  pub client_config : E ⊎ Config
  pub new_dynamic : Config → E ⊎ Dynamic
  pub install : Option E
  pub new_manager : Config → E ⊎ Manager
  pub complete : Manager → Option E
  pub wait_for_cache_sync : Manager → Bool
  -- fmt.Errorf with a cause and without one.
  pub wrap : String → E → E
  pub new_error : String → E

-- The goroutines that a command starts.
pub data Task : Type 0 where
  manager_task probes_task auth_task connection_task grpc_task monitor_task : Task

-- What the set-up of a command ends with: its error, the goroutines it has started, and what they serve.
pub record Setup (E S : Type 0) : Type 0 where
  pub error : Option E
  pub tasks : List Task
  pub served : Option S

module _ {E S : Type 0} where
  abbrev pub failed : E → Setup E S
  failed e = record { error = some e; tasks = []; served = none }

  abbrev pub serving : List Task → S → Setup E S
  serving tasks s = record { error = none; tasks = tasks; served = some s }

  -- if err != nil { return err }
  abbrev pub or_fail : {A : Type 0} → E ⊎ A → (A → Setup E S) → Setup E S
  or_fail (inl e) next = failed e
  or_fail (inr a) next = next a

  abbrev pub check : Option E → Setup E S → Setup E S
  check (some e) next = failed e
  check none next = next

  abbrev pub also : Task → Setup E S → Setup E S
  also task s = record s { tasks = task ∷ s.tasks }

abbrev pub wrapped : {E A : Type 0} → (E → E) → E ⊎ A → E ⊎ A
wrapped f (inl e) = inl (f e)
wrapped f (inr a) = inr a

abbrev pub wrapped_error : {E : Type 0} → (E → E) → Option E → Option E
wrapped_error f none = none
wrapped_error f (some e) = some (f e)

-- GetExternalProviders: the file systems that the URLs name.
unfoldable get_external_providers : {E F : Type 0} → (String → E ⊎ F) → List String → E ⊎ List F
get_external_providers lookup [] = inr []
get_external_providers lookup (url ∷ urls) =
    let rest = get_external_providers lookup urls in
    elim (lookup url) [
      | inl e ↦ inl e
      | inr fsys ↦ elim rest [ inl e ↦ inl e | inr fs ↦ inr (fsys ∷ fs) ]
    ]

-- The control plane's loop over the providers: the policies of a provider that fails are skipped.
pub external_policies :
    {E : Type 0} → List (E ⊎ List Policy.ValidatingPolicy) → List Policy.ValidatingPolicy
external_policies [] = []
external_policies (inl e ∷ extern) = external_policies extern
external_policies (inr policies ∷ extern) = policies ++ external_policies extern

abbrev pub register_controller : String
register_controller = "failed to register controller to manager: "

module _ {E : Type 0} (cluster : Cluster E) where
  open cluster use {
    Config, Dynamic, Manager, client_config, new_dynamic, install, new_manager, complete,
    wait_for_cache_sync, wrap, new_error,
  }

  -- A manager with a controller or a webhook: once it is registered the manager is started, and `next` waits for
  -- its cache. The error of the registration has a prefix.
  abbrev pub with_manager : {S : Type 0} → String → Config → (Manager → Setup E S) → Setup E S
  with_manager prefix config next = check install (
      or_fail (wrapped (wrap "failed to construct manager: ") (new_manager config)) (λ mgr.
        check (wrapped_error (wrap prefix) (complete mgr)) (
          also manager_task (
            if wait_for_cache_sync mgr
            then next mgr
            else failed (new_error "failed to wait for cache sync")))))

  module _ {F : Type 0} (lookup : String → E ⊎ F) where
    -- The standalone server: `fs_provider` is the provider of a file system, and `reconciler` that of a manager.
    unfoldable standalone_setup :
        {R : Type 0}
        → (F → Provider R)
        → (Manager → Provider R)
        → Bool
        → List String
        → Setup E (Provider R)
    unfolding get_external_providers
    standalone_setup fs_provider reconciler kube_policy_source external_sources =
        or_fail client_config (λ cfg. or_fail (new_dynamic cfg) (λ dyn.
          or_fail (get_external_providers lookup external_sources) (λ extern.
            let provider = composite (map fs_provider extern) in
            let servers = probes_task ∷ auth_task ∷ [] in
            if kube_policy_source
            then with_manager register_controller cfg
                (λ mgr. serving servers (composite (provider ∷ reconciler mgr ∷ [])))
            else serving servers provider)))

    -- The control plane: `policies_of` is what Policies of a provider returns.
    unfoldable control_plane_setup :
        {C : Type 0}
        → (F → E ⊎ List Policy.ValidatingPolicy)
        → ℕ
        → Bool
        → List String
        → Setup E (PolicySender C)
    unfolding get_external_providers external_policies
    control_plane_setup policies_of max_client_inactive_duration kube_policy_source
          external_sources =
        or_fail client_config (λ config.
          or_fail (get_external_providers lookup external_sources) (λ extern.
            let s =
              new_policy_sender (external_policies (map policies_of extern))
                max_client_inactive_duration in
            let servers = probes_task ∷ grpc_task ∷ monitor_task ∷ [] in
            if kube_policy_source
            then with_manager register_controller config (λ mgr. serving servers s)
            else serving servers s))

  -- The sidecar: `cfg` is what BuildConfigFromFlags returns besides its error, which is not read.
  unfoldable pub sidecar_setup : {V : Type 0} → Config → String → Setup E (PolicyListener V)
  sidecar_setup cfg client_addr = or_fail (new_dynamic cfg) (λ dyn.
      serving (probes_task ∷ auth_task ∷ connection_task ∷ []) (new_policy_listener client_addr))

  -- The validation webhook: `validator` is what the manager is given.
  unfoldable webhook_setup : {S : Type 0} → S → Setup E S
  webhook_setup validator = or_fail client_config (λ config.
      with_manager "failed to create webhook: " config
        (λ mgr. serving (probes_task ∷ []) validator))

abbrev number : Task → ℕ
number manager_task = 0
number probes_task = 1
number auth_task = 2
number connection_task = 3
number grpc_task = 4
number monitor_task = 5

abbrev pub started : Task → List Task → Bool
started task [] = false
started task (t ∷ tasks) = if eqb (number t) (number task) then true else started task tasks

module _ {E S : Type 0} (combine : List (Option E) → Option E) (returns : Task → Option E) where
  -- The error that a goroutine leaves: nil if it was not started.
  abbrev pub left_by : Setup E S → Task → Option E
  left_by s task = if started task s.tasks then returns task else none

  -- What RunE returns, once all goroutines have ended: for the standalone server and the sidecar, and for the
  -- control plane and the webhook. An error that no goroutine of a command sets is nil.
  pub authz_result : (grpc : Task) → Setup E S → Option E
  authz_result grpc s = combine (
      s.error
      ∷ left_by s probes_task
      ∷ left_by s grpc
      ∷ left_by s manager_task
      ∷ left_by s auth_task
      ∷ [])

  pub manager_result : Setup E S → Option E
  manager_result s =
      combine (s.error ∷ left_by s probes_task ∷ left_by s grpc_task ∷ left_by s manager_task ∷ [])
