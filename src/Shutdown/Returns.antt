-- ===== src/Shutdown/Returns.antt =====
-- That functions return once their bodies have: the deferred calls do not block for ever.
use kyverno_http_authorizer.Base.{
  ℕ, ◌≤◌, String, none, some, List, [], ◌≡◌, refl, sym, ap, ◌∙◌, Bool, true, false, ◌⊎◌, inl, inr,
  arith, subst,
}
use kyverno_http_authorizer.Engine.{Provider}
use kyverno_http_authorizer.Policy
use kyverno_http_authorizer.Sender.{PolicySender}
use kyverno_http_authorizer.Listener.{PolicyListener}
use kyverno_http_authorizer.Commands.{Cluster, Setup, sidecar_setup, or_fail}
use kyverno_http_authorizer.Commands.Managing.{Fails, some_ne}
use kyverno_http_authorizer.Commands.Standalone
use kyverno_http_authorizer.Commands.ControlPlane
use kyverno_http_authorizer.Commands.Webhook
use kyverno_http_authorizer.Shutdown.{
  Exit, ExitStep, signals_do_exit, run_http_exit, setup_exit, control_plane_exit, webhook_exit,
  configured,
}
use kyverno_http_authorizer.Shutdown.Runs.{
  Run, steps_left, Safe, Safe-Proceeds, Run-Safe, Run-steps_left,
}

-- A set-up that ends with an error, if it ends with none where all calls succeed.
fails :
    {E S Ready : Type 0} {s : Setup E S} {e : E}
    → s.error ≡ some e
    → (Ready → s.error ≡ none)
    → Ready ⊎ Fails s
    → Fails s
fails {e = e} h ready (inl r) = absurd (some_ne e (sym h ∙ ready r))
fails h ready (inr f) = f

Fails-Safe : {E S : Type 0} {s : Setup E S} → Fails s → Safe (setup_exit s)
Fails-Safe (e, true, q) = subst (λ s. Safe (setup_exit s)) (sym q) (inr (inr (_, refl)))
Fails-Safe (e, false, q) = subst (λ s. Safe (setup_exit s)) (sym q) (inr (inl refl))

module _ {E : Type 0} (cluster : Cluster E) where
  open cluster use {Config, Dynamic, Manager, client_config, new_dynamic}

  configured-Safe : {x : Exit} → Safe x → (o : E ⊎ Config) → Safe (configured o x)
  configured-Safe safe (inl e) = inr (inl refl)
  configured-Safe safe (inr config) = safe

  Fails-Safe_webhook : {S : Type 0} {s : Setup E S} → Fails s → Safe (webhook_exit cluster s)
  Fails-Safe_webhook (e, true, q) =
      subst (λ s. Safe (webhook_exit cluster s)) (sym q)
        (configured-Safe (inr (inr (_, refl))) client_config)
  Fails-Safe_webhook (e, false, q) =
      subst (λ s. Safe (webhook_exit cluster s)) (sym q)
        (configured-Safe (inr (inl refl)) client_config)

  module _ {F R W : Type 0} (V C : Type 0) (lookup : String → E ⊎ F) (fs_provider : F → Provider R)
      (reconciler : Manager → Provider R) (policies_of : F → E ⊎ List Policy.ValidatingPolicy)
      (max : ℕ) (cfg : Config) (client_addr : String) (validator : W) where
    abbrev standalone : Bool → List String → Setup E (Provider R)
    standalone kube urls = Standalone.setup_of cluster lookup fs_provider reconciler kube urls

    abbrev control_plane : Bool → List String → Setup E (PolicySender C)
    control_plane kube urls = ControlPlane.setup_of cluster C lookup policies_of max kube urls

    abbrev sidecar : Setup E (PolicyListener V)
    sidecar = sidecar_setup cluster cfg client_addr

    -- The functions that have returned from their bodies: Do and RunHttp, and with an error the set-up of each command.
    pub data Leaves (kube : Bool) (urls : List String) : Exit → Type 0 where
      leaves_do : Leaves kube urls signals_do_exit
      leaves_http : Leaves kube urls run_http_exit
      leaves_standalone :
          (e : E)
          → (standalone kube urls).error ≡ some e
          → Leaves kube urls (setup_exit (standalone kube urls))
      leaves_sidecar : (e : E) → sidecar.error ≡ some e → Leaves kube urls (setup_exit sidecar)
      leaves_control_plane :
          (e : E)
          → (control_plane kube urls).error ≡ some e
          → Leaves kube urls (control_plane_exit cluster (control_plane kube urls))
      leaves_webhook :
          (e : E)
          → (Webhook.setup_of cluster validator).error ≡ some e
          → Leaves kube urls (webhook_exit cluster (Webhook.setup_of cluster validator))

    standalone-Fails :
        (kube : Bool) (urls : List String) (e : E)
        → (standalone kube urls).error ≡ some e
        → Fails (standalone kube urls)
    standalone-Fails kube urls e h =
        fails h
          (λ (fss, ps, r).
            ap (λ (s : Setup E (Provider R)). s.error)
              (Standalone.setup-Ready cluster lookup fs_provider reconciler kube urls fss ps r))
          (Standalone.setup_cases cluster lookup fs_provider reconciler kube urls)

    control_plane-Fails :
        (kube : Bool) (urls : List String) (e : E)
        → (control_plane kube urls).error ≡ some e
        → Fails (control_plane kube urls)
    control_plane-Fails kube urls e h =
        fails h
          (λ (fss, r).
            ap (λ (s : Setup E (PolicySender C)). s.error)
              (ControlPlane.setup-Ready cluster C lookup policies_of max kube urls fss r))
          (ControlPlane.setup_cases cluster C lookup policies_of max kube urls)

    webhook-Fails :
        (e : E)
        → (Webhook.setup_of cluster validator).error ≡ some e
        → Fails (Webhook.setup_of cluster validator)
    webhook-Fails e h =
        fails h (λ r. ap (λ (s : Setup E W). s.error) (Webhook.setup-Ready cluster validator r))
          (Webhook.setup_cases cluster validator)

    sidecar-Fails : (e : E) → sidecar.error ≡ some e → Fails sidecar
    unfolding sidecar_setup
    sidecar-Fails e h = dialling (new_dynamic cfg) refl
      where
        served : (dyn : Dynamic) → new_dynamic cfg ≡ inr dyn → sidecar.error ≡ none
        served dyn d = rw (d, or_fail)

        dialling : (o : E ⊎ Dynamic) → new_dynamic cfg ≡ o → Fails sidecar
        dialling (inl f) d = (f, false, rw d)
        dialling (inr dyn) d = absurd (some_ne e (sym h ∙ served dyn d))

    Leaves-Safe : {kube : Bool} {urls : List String} {x : Exit} → Leaves kube urls x → Safe x
    Leaves-Safe leaves_do = inr (inr (_, refl))
    Leaves-Safe leaves_http = inr (inr (_, refl))
    Leaves-Safe {kube} {urls} (leaves_standalone e h) = Fails-Safe (standalone-Fails kube urls e h)
    Leaves-Safe (leaves_sidecar e h) = Fails-Safe (sidecar-Fails e h)
    Leaves-Safe {kube} {urls} (leaves_control_plane e h) =
        configured-Safe (Fails-Safe (control_plane-Fails kube urls e h)) client_config
    Leaves-Safe (leaves_webhook e h) = Fails-Safe_webhook (webhook-Fails e h)

    -- Do and RunHttp return once their bodies have, and so does the set-up of each of the four commands when it ends
    -- with an error: in every state that a run of the deferred calls and of the ends of the goroutines
    -- reaches, the function has returned or there is a next step, and no run is longer than the deferred calls and
    -- the goroutines together. So the wait for the group never blocks for ever.
    pub Leaves-returns :
        {kube : Bool} {urls : List String} {x t : Exit} {n : ℕ}
        → Leaves kube urls x
        → Run x n t
        → (n ≤ steps_left x) × ((t.deferred ≡ []) ⊎ ((u : Exit) × ExitStep t u))
    Leaves-returns {t = t} l r = (
      omega (arith, Run-steps_left r),
      Safe-Proceeds t t.deferred refl (Run-Safe (Leaves-Safe l) r),
    )
