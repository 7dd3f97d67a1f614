-- ===== src/Sidecar.antt =====
-- pkg/sidecar/sidecar.go: the container that the mutation webhook injects into a pod, and its
-- injection. `X` stands for the parts of a pod that the program does not touch.
pub mod Injection
use Prim.Native.String
use kyverno_http_authorizer.Base.{
  ℕ, String, Option, none, some, List, [], ◌∷◌, ◌++◌, ◌==◌, if◌then◌else◌,
}

pub record ContainerPort : Type 0 where
  pub name : String
  pub protocol : String
  pub container_port : ℕ

-- An environment variable that takes its value from a field of the pod.
pub record EnvVar : Type 0 where
  pub name : String
  pub field_path : String

pub record Container : Type 0 where
  pub name : String
  pub image_pull_policy : String
  pub image : String
  pub ports : List ContainerPort
  pub args : List String
  pub env : List EnvVar

pub record Pod (X : Type 0) : Type 0 where
  pub containers : List Container
  pub others : X

abbrev flag : String → String → String
flag name value = String.◌++◌ name value

-- Sidecar
unfoldable pub sidecar : String → String → String → String → String → Container
sidecar image control_plane_addr reconnect_wait max_dial_interval health_check_interval = record {
  name = "kyverno-authz-server";
  image_pull_policy = "IfNotPresent";
  image = image;
  ports =
      record { name = "http"; protocol = "TCP"; container_port = 9080 }
      ∷ record { name = "grpc"; protocol = "TCP"; container_port = 9081 }
      ∷ [];
  args =
      "serve"
      ∷ "authz-server"
      ∷ "--probes-address=:9080"
      ∷ flag "--control-plane-address=" control_plane_addr
      ∷ flag "--control-plane-reconnect-wait=" reconnect_wait
      ∷ flag "--control-plane-max-dial-interval=" max_dial_interval
      ∷ flag "--health-check-interval=" health_check_interval
      ∷ [];
  env = record { name = "POD_IP"; field_path = "status.podIP" } ∷ [];
}

-- The loop of Inject: the containers with the first one of the same name replaced, if there is one.
unfoldable pub replace_first : Container → List Container → Option (List Container)
replace_first container [] = none
replace_first container (c ∷ cs) =
    if c.name == container.name
    then some (container ∷ cs)
    else elim (replace_first container cs) [ none ↦ none | some rest ↦ some (c ∷ rest) ]

-- Inject
unfoldable pub inject : {X : Type 0} → Pod X → Container → Pod X
unfolding replace_first
inject pod container = elim (replace_first container pod.containers) [
  | some containers ↦ record pod { containers = containers }
  | none ↦ record pod { containers = pod.containers ++ container ∷ [] }
]
