-- ===== src/Tests/Servers.antt =====
-- The theorems on the loops around the servers and on the deferred calls, at concrete runs.
use kyverno_http_authorizer.Base.{
  sym, ap, inr, ◌≢◌, ℕ, ◌≤◌, Option, none, some, List, [], ◌∷◌, ◌≡◌, refl, Bool, true, false, arith,
  if◌then◌else◌, ltb, ◌⊎◌, inl, String,
}
use kyverno_http_authorizer.Server.{
  Errors, any_closed, Transport, run_http, Round, auth_loop, probes_loop,
}
use kyverno_http_authorizer.Server.Loops.{IsCombine, IsServer, RunOf, Serves, after_one, loops_end}
use kyverno_http_authorizer.Commands.{Cluster, sidecar_setup}
use kyverno_http_authorizer.Shutdown.{Exit, ExitStep, waits, cancel}
use kyverno_http_authorizer.Shutdown.Returns.{leaves_sidecar, Leaves-returns}
use kyverno_http_authorizer.Shutdown.Runs.{next, start}
use kyverno_http_authorizer.Tests.Setups.{
  cluster, look, from_files, from_cluster, sources, policies_of,
}

data Failure : Type 0 where
  server_closed address_in_use refused : Failure

abbrev is_server_closed : Failure → Bool
is_server_closed server_closed = true
is_server_closed address_in_use = false
is_server_closed refused = false

-- ErrServerClosed if it is among the errors, else the first of them.
abbrev merge : List (Option Failure) → Option Failure
merge [] = none
merge (none ∷ es) = merge es
merge (some server_closed ∷ es) = some server_closed
merge (some address_in_use ∷ es) =
    if any_closed is_server_closed es then some server_closed else some address_in_use
merge (some refused ∷ es) =
    if any_closed is_server_closed es then some server_closed else some refused

abbrev failures : Errors
failures = record { E = Failure; is_closed = is_server_closed; combine = merge }

either :
    (b : Bool) (x e : Failure)
    → is_server_closed x ≡ false
    → (if b then some server_closed else some x) ≡ some e
    → is_server_closed e ≡ b
either true x e c h = cc
either false x e c h = cc

combined :
    (es : List (Option Failure)) (e : Failure)
    → merge es ≡ some e
    → is_server_closed e ≡ any_closed is_server_closed es
combined [] e h = cc
combined (none ∷ es) e h = combined es e h
combined (some server_closed ∷ es) e h = cc
combined (some address_in_use ∷ es) e h =
    either (any_closed is_server_closed es) address_in_use e refl h
combined (some refused ∷ es) e h = either (any_closed is_server_closed es) refused e refl h

some_error : (b : Bool) (x : Failure) → (if b then some server_closed else some x) ≢ none
some_error true x h = cc
some_error false x h = cc

kept : (e : Failure) (es : List (Option Failure)) → merge (some e ∷ es) ≢ none
kept server_closed es h = cc
kept address_in_use es h = some_error (any_closed is_server_closed es) address_in_use h
kept refused es h = some_error (any_closed is_server_closed es) refused h

merge-IsCombine : IsCombine failures
merge-IsCombine = record { combined = combined; kept = kept }

-- A server that is stopped with the context, and one that finds its address in use.
abbrev stopped : Bool → Transport → Option Failure
stopped shut_down t = if shut_down then some server_closed else some refused

abbrev in_use : Bool → Transport → Option Failure
in_use shut_down t = some address_in_use

stopped-IsServer : IsServer failures stopped none
stopped-IsServer = record {
  returns = stopped_returns;
  not_closed = λ t e h. let q : refused ≡ e = cc in ap is_server_closed (sym q);
  not_shut = refl;
}
  where
    stopped_returns : (b : Bool) (t : Transport) → (e : Failure) × (stopped b t ≡ some e)
    stopped_returns true t = (server_closed, refl)
    stopped_returns false t = (refused, refl)

in_use-IsServer : IsServer failures in_use none
in_use-IsServer = record {
  returns = λ b t. (address_in_use, refl);
  not_closed = λ t e h. let q : address_in_use ≡ e = cc in ap is_server_closed (sym q);
  not_shut = refl;
}

abbrev stopping : ℕ → Round failures
stopping n = record {
  ctx_done = ltb 0 n;
  result = run_http failures "" "" true stopped none;
  http_auth_err = run_http failures "" "" false in_use none;
}

abbrev failing : ℕ → Round failures
failing n = record {
  ctx_done = false;
  result = run_http failures "" "" false in_use none;
  http_auth_err = none;
}

abbrev in_use_run : RunOf failures (run_http failures "" "" false in_use none)
in_use_run = record {
  cert_file = "";
  key_file = "";
  cancelled = false;
  serve = in_use;
  shutdown = none;
  server = in_use-IsServer;
  was_run = refl;
}

stopping-Serves : Serves failures stopping
stopping-Serves = record {
  run_of = λ n. record {
    cert_file = "";
    key_file = "";
    cancelled = true;
    serve = stopped;
    shutdown = none;
    server = stopped-IsServer;
    was_run = refl;
  };
  auth_of = λ n. inr in_use_run;
  stays_done = λ n h. ground arith;
}

failing-Serves : Serves failures failing
failing-Serves = record {
  run_of = λ n. in_use_run;
  auth_of = λ n. inl refl;
  stays_done = λ n h. cc;
}

loops_end_example :
    (auth_loop failures 3 stopping ≡ some (after_one failures stopping))
    × (probes_loop failures 3 failing ≡ some (after_one failures failing))
loops_end_example =
    loops_end failures merge-IsCombine stopping failing 1 stopping-Serves failing-Serves

-- A cluster whose dynamic client is refused: the set-up of a sidecar ends with an error, and the wait is over.
abbrev refusing : Cluster String
refusing = record cluster { new_dynamic = λ config. inl "refused" }

abbrev waited : Exit
waited = record { cancelled = false; running = 0; deferred = cancel ∷ [] }

Leaves-returns_example : (1 ≤ 2) × ((waited.deferred ≡ []) ⊎ ((u : Exit) × ExitStep waited u))
unfolding sidecar_setup
Leaves-returns_example =
    Leaves-returns refusing ℕ ℕ look from_files from_cluster policies_of 240 tt "sidecar" tt
      {kube = true} {urls = sources} (leaves_sidecar "refused" refl)
      (next start (waits (cancel ∷ []) refl refl refl))
