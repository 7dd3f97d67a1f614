-- ===== src/Tests/Setups.antt =====
-- The theorems on the commands, at a cluster that answers, one source of policies, and one sidecar.
use kyverno_http_authorizer.Base.{
  ℕ, String, Option, none, some, List, [], ◌∷◌, ◌++◌, map, ◌≡◌, ◌↔◌, ◌⊎◌, inr, Bool, true, false,
  All, ok,
}
use kyverno_http_authorizer.Policy
use kyverno_http_authorizer.Proto
use kyverno_http_authorizer.Sender.{PolicySender, stream_request}
use kyverno_http_authorizer.Engine.{Provider}
use kyverno_http_authorizer.Commands.{
  Cluster, Task, manager_task, probes_task, auth_task, connection_task, grpc_task, monitor_task,
  authz_result, manager_result,
}
use kyverno_http_authorizer.Commands.ControlPlane
use kyverno_http_authorizer.Commands.ControlPlane.{control_plane_setup_lem}
use kyverno_http_authorizer.Sidecar.{sidecar}
use kyverno_http_authorizer.Commands.Flags.{declares, authz_server, sidecar_authz_server}
use kyverno_http_authorizer.Commands.Flags.Injected.{control_plane_values, sidecar-declares}
use kyverno_http_authorizer.Commands.Managing.{failure}
use kyverno_http_authorizer.Commands.Standalone.{Ready, setup_of, success, standalone_setup_lem}
use kyverno_http_authorizer.Tests.Data.{deny_all}

abbrev pub cluster : Cluster String
cluster = record {
  Config = Unit;
  Dynamic = Unit;
  Manager = Unit;
  client_config = inr tt;
  new_dynamic = λ config. inr tt;
  install = none;
  new_manager = λ config. inr tt;
  complete = λ mgr. none;
  wait_for_cache_sync = λ mgr. true;
  wrap = λ prefix e. e;
  new_error = λ text. text;
}

abbrev first_of : List (Option String) → Option String
first_of [] = none
first_of (none ∷ es) = first_of es
first_of (some e ∷ es) = some e

-- The manager loses its lease; the servers then end with the context.
abbrev left : Task → Option String
left manager_task = some "lease lost"
left probes_task = none
left auth_task = none
left connection_task = none
left grpc_task = none
left monitor_task = none

-- A file system is its URL, and no provider has policies.
abbrev pub look : String → String ⊎ String
look url = inr url

abbrev pub from_files : String → Provider Unit
from_files fsys = ok []

abbrev pub from_cluster : Unit {0} → Provider Unit
from_cluster mgr = ok []

abbrev pub sources : List String
sources = "file:///policies" ∷ []

standalone_setup_lem_example :
    (((setup_of cluster look from_files from_cluster true sources).error ≡ none) ↔ (
      (fss : List String) × (ps : List (Provider Unit)) × Ready cluster look from_files from_cluster
        true sources fss ps))
    × (((fss : List String) × (ps : List (Provider Unit)) × Ready cluster look from_files
            from_cluster true sources fss ps
          × (setup_of cluster look from_files from_cluster true sources
              ≡ success cluster look from_files from_cluster true (map from_files fss ++ ps))
          × (authz_result first_of left grpc_task
                (setup_of cluster look from_files from_cluster true sources)
              ≡ some "lease lost"))
        ⊎ ((e : String) × (m : Bool) × (setup_of cluster look from_files from_cluster true sources
              ≡ failure e m)
            × (authz_result first_of left grpc_task
                  (setup_of cluster look from_files from_cluster true sources)
                ≡ some e)))
standalone_setup_lem_example =
    standalone_setup_lem cluster look from_files from_cluster first_of left true sources

-- A source with a policy.
abbrev pub policies_of : String → String ⊎ List Policy.ValidatingPolicy
policies_of fsys = inr (deny_all ∷ [])

abbrev hello : Proto.ValidatingPolicyStreamRequest
hello = record { client_address = "sidecar" }

control_plane_setup_lem_example :
    (((ControlPlane.setup_of cluster ℕ look policies_of 240 true sources).error ≡ none)
      ↔ ((fss : List String) × ControlPlane.Ready cluster ℕ look policies_of 240 true sources fss))
    × (((fss : List String) × ControlPlane.Ready cluster ℕ look policies_of 240 true sources fss
          × (ControlPlane.setup_of cluster ℕ look policies_of 240 true sources
              ≡ ControlPlane.success cluster ℕ look policies_of 240 true fss)
          × (manager_result first_of left
                (ControlPlane.setup_of cluster ℕ look policies_of 240 true sources)
              ≡ some "lease lost")
          × (t : PolicySender ℕ) × (stream_request 7 hello
                (ControlPlane.sender_of cluster ℕ look policies_of 240 fss)
              ≡ ok ([], t)))
        ⊎ ((e : String) × (m : Bool) × (ControlPlane.setup_of cluster ℕ look policies_of 240 true
                sources
              ≡ failure e m)
            × (manager_result first_of left
                  (ControlPlane.setup_of cluster ℕ look policies_of 240 true sources)
                ≡ some e)))
control_plane_setup_lem_example =
    control_plane_setup_lem cluster ℕ look policies_of 240 first_of left true sources 7 hello

sidecar-declares_example :
    ((sidecar "image" "cp:9081" "3s" "8s" "30s").args
      ≡ "serve" ∷ "authz-server" ∷ "--probes-address=:9080" ∷ "--control-plane-address=cp:9081"
        ∷ "--control-plane-reconnect-wait=3s" ∷ "--control-plane-max-dial-interval=8s"
        ∷ "--health-check-interval=30s" ∷ [])
    × (declares (authz_server ("context" ∷ [])) "probes-address" ≡ true)
    × (declares sidecar_authz_server "probes-address" ≡ true)
    × All
        (λ (f : String × String).
          (declares (authz_server ("context" ∷ [])) f.0 ≡ false)
          × (declares sidecar_authz_server f.0 ≡ true))
        (control_plane_values "cp:9081" "3s" "8s" "30s")
    × ((authz_server ("context" ∷ [])).required ≡ "control-plane-address" ∷ [])
sidecar-declares_example = sidecar-declares "image" "cp:9081" "3s" "8s" "30s" ("context" ∷ [])
