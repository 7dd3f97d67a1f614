-- ===== src/Shutdown.antt =====
-- How functions return that defer calls: a context's cancel function, and the Wait of a group of goroutines. Deferred
-- calls run when the body has returned, the last one first (pkg/signals/context.go, pkg/server/http.go,
-- and the set-up functions of pkg/commands/serve).
pub mod Runs
pub mod Returns
use kyverno_http_authorizer.Base.{
  ◌⊎◌, inl, inr, ℕ, Option, none, some, List, [], ◌∷◌, ◌≡◌, Bool, true, false, length, is_empty,
  is_some, ◌&&◌, not, if◌then◌else◌, suc,
}
use kyverno_http_authorizer.Commands.{Cluster, Setup}

pub data Deferred : Type 0 where
  cancel wait : Deferred

-- A function whose body has returned: whether the context is cancelled, how many goroutines of the group are
-- running, and the deferred calls that are left, in the order in which they run.
pub record Exit : Type 0 where
  pub cancelled : Bool
  pub running : ℕ
  pub deferred : List Deferred

-- A deferred call, or the end of a goroutine: the goroutines that are modelled wait for their context and end once
-- it is cancelled. Shutdown, which RunHttp's goroutine calls then, has a timeout.
pub data ExitStep (s t : Exit) : Type 0 where
  cancels :
      (rest : List Deferred)
      → s.deferred ≡ cancel ∷ rest
      → t ≡ record s { cancelled = true; deferred = rest }
      → ExitStep s t
  waits :
      (rest : List Deferred)
      → s.deferred ≡ wait ∷ rest
      → s.running ≡ 0
      → t ≡ record s { deferred = rest }
      → ExitStep s t
  ends :
      (n : ℕ) → s.running ≡ suc n → s.cancelled ≡ true → t ≡ record s { running = n } → ExitStep s t

-- Do: the wait is deferred before stop, and one goroutine waits for the context.
abbrev pub signals_do_exit : Exit
signals_do_exit = record { cancelled = false; running = 1; deferred = cancel ∷ wait ∷ [] }

-- RunHttp, once serve has returned; the goroutine shuts the server down.
abbrev pub run_http_exit : Exit
run_http_exit = record { cancelled = false; running = 1; deferred = cancel ∷ wait ∷ [] }

-- An error after a goroutine has been started, which is that the cache does not synchronize: cancel is deferred then.
abbrev late : {E S : Type 0} → Setup E S → Bool
late s = is_some s.error && not (is_empty s.tasks)

-- The set-up of the standalone server and of the sidecar, once it has returned: cancel is deferred before the wait.
abbrev pub setup_exit : {E S : Type 0} → Setup E S → Exit
setup_exit s = record {
  cancelled = false;
  running = length s.tasks;
  deferred = if late s then cancel ∷ wait ∷ cancel ∷ [] else wait ∷ cancel ∷ [];
}

-- The return in front of the deferred calls, where there is no configuration.
abbrev pub configured : {E C : Type 0} → E ⊎ C → Exit → Exit
configured (inl e) x = record { cancelled = false; running = 0; deferred = [] }
configured (inr config) x = x

-- The set-up of the control plane.
abbrev pub control_plane_exit : {E S : Type 0} → Cluster E → Setup E S → Exit
control_plane_exit cluster s = configured cluster.client_config (setup_exit s)

-- The set-up of the validation webhook, which does not defer cancel before the wait.
abbrev pub webhook_exit : {E S : Type 0} → Cluster E → Setup E S → Exit
webhook_exit cluster s = configured cluster.client_config (record {
  cancelled = false;
  running = length s.tasks;
  deferred = if late s then cancel ∷ wait ∷ [] else wait ∷ [];
})
