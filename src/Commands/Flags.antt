-- ===== src/Commands/Flags.antt =====
-- The flags of the commands of pkg/commands/serve.
pub mod Injected
use Prim.Native.String
use kyverno_http_authorizer.Base.{
  ℕ, String, List, [], ◌∷◌, ◌++◌, map, ◌≡◌, refl, Bool, true, false, All,
}
use kyverno_http_authorizer.Stream.Sorted.{contains}
use kyverno_http_authorizer.Sidecar.{sidecar}

-- The default value of a flag, which gives its type; durations are in seconds.
pub data Default : Type 0 where
  text : String → Default
  boolean : Bool → Default
  seconds : ℕ → Default
  no_texts : Default

pub record Flag : Type 0 where
  pub name : String
  pub default : Default

-- A command: its name, its own flags, the flags of clientcmd, and the names that it marks as required.
pub record Command : Type 0 where
  pub use_name : String
  pub flags : List Flag
  pub kube_flags : List String
  pub required : List String

abbrev flag_names : List Flag → List String
flag_names [] = []
flag_names (f ∷ fs) = f.name ∷ flag_names fs

-- BindOverrideFlags with the prefix "kube-"; `override_flags` are the names that clientcmd recommends.
abbrev bind_override_flags : List String → List String
bind_override_flags override_flags = map (λ name. String.◌++◌ "kube-" name) override_flags

abbrev pub sidecar_authz_server : Command
sidecar_authz_server = record {
  use_name = "sidecar-authz-server";
  flags =
      record { name = "control-plane-reconnect-wait"; default = seconds 3 }
      ∷ record { name = "control-plane-max-dial-interval"; default = seconds 8 }
      ∷ record { name = "health-check-interval"; default = seconds 30 }
      ∷ record { name = "probes-address"; default = text ":9080" }
      ∷ record { name = "http-auth-server-address"; default = text ":9083" }
      ∷ record { name = "control-plane-address"; default = text "" }
      ∷ record { name = "client-address"; default = text "" }
      ∷ record { name = "nested-request"; default = boolean false }
      ∷ [];
  kube_flags = [];
  required = "control-plane-address" ∷ [];
}

abbrev sidecar_injector : Command
sidecar_injector = record {
  use_name = "sidecar-injector";
  flags =
      record { name = "address"; default = text ":9443" }
      ∷ record { name = "cert-file"; default = text "" }
      ∷ record { name = "key-file"; default = text "" }
      ∷ record { name = "sidecar-image"; default = text "" }
      ∷ record { name = "control-plane-address"; default = text "" }
      ∷ record { name = "control-plane-reconnect-wait"; default = text "3s" }
      ∷ record { name = "control-plane-max-dial-interval"; default = text "8s" }
      ∷ record { name = "health-check-interval"; default = text "30s" }
      ∷ [];
  kube_flags = [];
  required = "control-plane-address" ∷ [];
}

abbrev validation_webhook : List String → Command
validation_webhook override_flags = record {
  use_name = "validation-webhook";
  flags =
      record { name = "probes-address"; default = text ":9080" }
      ∷ record { name = "metrics-address"; default = text ":9082" }
      ∷ [];
  kube_flags = bind_override_flags override_flags;
  required = [];
}

abbrev control_plane : List String → Command
control_plane override_flags = record {
  use_name = "control-plane";
  flags =
      record { name = "initial-send-wait"; default = seconds 5 }
      ∷ record { name = "max-send-interval"; default = seconds 10 }
      ∷ record { name = "client-flush-interval"; default = seconds 180 }
      ∷ record { name = "max-client-inactive-duration"; default = seconds 240 }
      ∷ record { name = "probes-address"; default = text ":9080" }
      ∷ record { name = "grpc-address"; default = text ":9081" }
      ∷ record { name = "grpc-network"; default = text "tcp" }
      ∷ record { name = "metrics-address"; default = text ":9082" }
      ∷ record { name = "external-policy-source"; default = no_texts }
      ∷ record { name = "kube-policy-source"; default = boolean true }
      ∷ [];
  kube_flags = bind_override_flags override_flags;
  required = [];
}

abbrev pub authz_server : List String → Command
authz_server override_flags = record {
  use_name = "authz-server";
  flags =
      record { name = "probes-address"; default = text ":9088" }
      ∷ record { name = "http-auth-server-address"; default = text ":9083" }
      ∷ record { name = "metrics-address"; default = text ":9082" }
      ∷ record { name = "external-policy-source"; default = no_texts }
      ∷ record { name = "kube-policy-source"; default = boolean true }
      ∷ record { name = "nested-request"; default = boolean false }
      ∷ [];
  kube_flags = bind_override_flags override_flags;
  required = "control-plane-address" ∷ [];
}

-- Command of pkg/commands/serve: its subcommands, in the order in which they are added.
abbrev serve_commands : List String → List Command
serve_commands override_flags =
    sidecar_authz_server
    ∷ sidecar_injector
    ∷ validation_webhook override_flags
    ∷ control_plane override_flags
    ∷ authz_server override_flags
    ∷ []

-- The names of all flags of a command.
abbrev pub names : Command → List String
names c = flag_names c.flags ++ c.kube_flags

abbrev pub declares : Command → String → Bool
declares c name = contains name (names c)
