-- ===== src/Reconcile.antt =====
-- pkg/engine/vpol/provider: the reconcilers of the standalone server (standalone.go) and of the
-- control plane (mesh.go). `Fetched` is what the Kubernetes client returns for the request.
pub mod Standalone
pub mod Mesh
pub mod Calls
use kyverno_http_authorizer.Base.{
  String, Option, none, some, List, [], ◌∷◌, Bool, true, false, Result, ok, Error, ◌>>=◌, deref,
  ◌==◌, if◌then◌else◌,
}
use kyverno_http_authorizer.Policy
use kyverno_http_authorizer.Proto
use kyverno_http_authorizer.Api.{to_proto, evaluation_mode_http}
use kyverno_http_authorizer.PolicyStore.{PolicyStore, put, drop}
use kyverno_http_authorizer.Sender.{PolicySender, store_policy, delete_policy}
use kyverno_http_authorizer.Vpol.Compiler.{Checked, accepted, rejected}

pub data Fetched : Type 0 where
  found : Policy.ValidatingPolicy → Fetched
  not_found : Fetched
  fetch_error : Error → Fetched

-- What becomes of a compiled policy: one with errors is dropped, and the version before it stays.
unfoldable pub keep_compiled : {V : Type 0} → String → Checked V → PolicyStore V → PolicyStore V
unfolding put
keep_compiled key (rejected errs) s = s
keep_compiled key (accepted compiled) s = put key compiled s

-- standaloneReconciler.Reconcile: the result is the error returned. `key` stands for req.String(), which for a
-- policy, a resource without a namespace, is its name behind a slash; names and these keys have one order.
unfoldable pub reconcile_standalone :
    {V : Type 0}
    → (Policy.ValidatingPolicy → Checked V)
    → String
    → Fetched
    → PolicyStore V
    → PolicyStore V × Option Error
unfolding keep_compiled drop
reconcile_standalone compile key not_found s = (drop key s, none)
reconcile_standalone compile key (fetch_error e) s = (s, some e)
reconcile_standalone compile key (found policy) s = (keep_compiled key (compile policy) s, none)

-- What meshReconciler.Reconcile leaves: the sender, the policies that it starts to send, and the
-- error returned.
pub record Reconciled (S : Type 0) : Type 0 where
  pub sender : PolicySender S
  pub sent : List Proto.ValidatingPolicy
  pub error : Option Error

abbrev pub deletion : String → Proto.ValidatingPolicy
deletion name = record { name = name; deleted = true; spec = none }

-- meshReconciler.Reconcile: it reads the mode without a test for a nil evaluation configuration.
unfoldable pub reconcile_mesh :
    {S : Type 0} → String → Fetched → PolicySender S → Result (Reconciled S)
unfolding store_policy delete_policy to_proto
reconcile_mesh name not_found s =
    ok (record { sender = delete_policy name s; sent = deletion name ∷ []; error = none })
reconcile_mesh name (fetch_error e) s = ok (record { sender = s; sent = []; error = some e })
reconcile_mesh name (found policy) s = do
  configuration ← deref policy.spec.evaluation_configuration
  if configuration.mode == evaluation_mode_http
      then ok (record {
        sender = store_policy (to_proto policy) s;
        sent = to_proto policy ∷ [];
        error = none;
      })
      else ok (record { sender = s; sent = []; error = none })
