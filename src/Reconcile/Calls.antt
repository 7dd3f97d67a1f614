-- ===== src/Reconcile/Calls.antt =====
-- What a history of the control plane's reconciler calls and sends.
use kyverno_http_authorizer.Base.{All, String, List, [], ◌∷◌, ◌≡◌, refl, ok}
use kyverno_http_authorizer.Proto
use kyverno_http_authorizer.Api.{to_proto}
use kyverno_http_authorizer.Sender.{PolicySender, store_policy, delete_policy}
use kyverno_http_authorizer.Reconcile.{
  Fetched, found, not_found, fetch_error, reconcile_mesh, deletion,
}
use kyverno_http_authorizer.Sender.Invariant.{Call, store, remove, step, run}
use kyverno_http_authorizer.Sender.Stored.{FromApi}
use kyverno_http_authorizer.Reconcile.Mesh.{IsHttp, mesh_all, reconcile_mesh-http}

-- The messages of a history: those of the policies found, and the deletions.
abbrev pub announced : List (String × Fetched) → List Proto.ValidatingPolicy
announced [] = []
announced ((key, found p) ∷ fs) = to_proto p ∷ announced fs
announced ((key, not_found) ∷ fs) = deletion key ∷ announced fs
announced ((key, fetch_error e) ∷ fs) = announced fs

-- The calls on the sender that a history of reconciliations makes.
abbrev pub calls_of : {S : Type 0} → List (String × Fetched) → List (Call S)
calls_of [] = []
calls_of ((key, found p) ∷ fs) = store (to_proto p) ∷ calls_of fs
calls_of ((key, not_found) ∷ fs) = remove key ∷ calls_of fs
calls_of ((key, fetch_error e) ∷ fs) = calls_of fs

pub calls_of-FromApi :
    (S : Type 0) (fs : List (String × Fetched)) → All FromApi (calls_of {S = S} fs)
calls_of-FromApi S [] = tt
calls_of-FromApi S ((key, found p) ∷ fs) = ((p, refl), calls_of-FromApi S fs)
calls_of-FromApi S ((key, not_found) ∷ fs) = (tt, calls_of-FromApi S fs)
calls_of-FromApi S ((key, fetch_error e) ∷ fs) = calls_of-FromApi S fs

module _ {S : Type 0} where
  pub mesh_all-calls_of :
      (fs : List (String × Fetched)) (s : PolicySender S)
      → All IsHttp fs
      → mesh_all fs s ≡ ok (announced fs, run s (calls_of fs))
  unfolding mesh_all reconcile_mesh run step store_policy delete_policy
  mesh_all-calls_of [] s h = refl
  mesh_all-calls_of ((key, found p) ∷ fs) s h =
      rw (reconcile_mesh-http key p s h.0, mesh_all-calls_of fs (store_policy (to_proto p) s) h.1)
  mesh_all-calls_of ((key, not_found) ∷ fs) s h =
      rw (mesh_all-calls_of fs (delete_policy key s) h.1)
  mesh_all-calls_of ((key, fetch_error m) ∷ fs) s h = rw (mesh_all-calls_of fs s h.1)
