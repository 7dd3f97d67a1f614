-- ===== src/Listener/Histories.antt =====
-- Histories of reconciliations at the sender, at a standalone server and at a sidecar.
use kyverno_http_authorizer.Base.{
  String, Option, none, some, List, [], ◌∷◌, ◌++◌, ◌≡◌, refl, sym, ap, ◌∙◌, Bool, true, false, ok,
  err, panic, ◌>>=◌, All, ◌==◌, if◌then◌else◌,
}
use kyverno_http_authorizer.Policy
use kyverno_http_authorizer.Proto
use kyverno_http_authorizer.Api.{to_proto}
use kyverno_http_authorizer.Api.RoundTrip.{sent, from_proto-to_proto}
use kyverno_http_authorizer.PolicyStore.{PolicyStore}
use kyverno_http_authorizer.Sender.Invariant.{store}
use kyverno_http_authorizer.Sender.Streams.{current, change}
use kyverno_http_authorizer.Reconcile.{Fetched, found, not_found, fetch_error}
use kyverno_http_authorizer.Reconcile.Standalone.{enforced, replaced}
use kyverno_http_authorizer.Reconcile.Mesh.{IsHttp}
use kyverno_http_authorizer.Reconcile.Calls.{calls_of}
use kyverno_http_authorizer.Listener.{process_policy, process_all}
use kyverno_http_authorizer.Listener.Slices.{over}
use kyverno_http_authorizer.Vpol.Compiler.{Checked, accepted}

module _ {V : Type 0} (compile : Policy.ValidatingPolicy → Checked V) where
  -- What was found compiles.
  abbrev pub Compiles : String × Fetched → Type 0
  Compiles (key, found p) = (v : V) × (compile p ≡ accepted v)
  Compiles (key, not_found) = Unit
  Compiles (key, fetch_error e) = Unit

module _ {V : Type 0} (compile : Policy.ValidatingPolicy → Checked V) where
  abbrev pub at_sidecar : Policy.ValidatingPolicy → Checked V
  at_sidecar p = compile (sent p)

  name-to_proto : (p : Policy.ValidatingPolicy) → (to_proto p).name ≡ p.name
  unfolding to_proto
  name-to_proto p = refl

  over-stored :
      (p : Policy.ValidatingPolicy) (v : V)
      → at_sidecar p ≡ accepted v
      → over compile (some (to_proto p)) none ≡ some v
  over-stored p v e = rw (from_proto-to_proto p, e)

  found_step :
      (b : Bool) (p : Policy.ValidatingPolicy) (o : Option Proto.ValidatingPolicy) (v : V)
      → at_sidecar p ≡ accepted v
      → replaced at_sidecar b (at_sidecar p) (over compile o none)
        ≡ over compile (if b then some (to_proto p) else o) none
  found_step true p o v e = rw e (sym (over-stored p v e))
  found_step false p o v e = rw e

  deletion_step :
      (b : Bool) (o : Option Proto.ValidatingPolicy)
      → (if b then none else over compile o none) ≡ over compile (if b then none else o) none
  deletion_step true o = refl
  deletion_step false o = refl

  -- What a standalone server has of a name after a history is what the sender's last policy of the
  -- name compiles to.
  pub over-current :
      (S : Type 0) (k : String) (fs : List (String × Fetched)) (o : Option Proto.ValidatingPolicy)
      → All IsHttp fs
      → All (Compiles at_sidecar) fs
      → enforced at_sidecar k fs (over compile o none)
        ≡ over compile (current {S = S} k (calls_of fs) o) none
  over-current S k [] o h a = refl
  over-current S k ((key, found p) ∷ fs) o h a =
      ap
        (λ j.
          enforced at_sidecar k fs
            (replaced at_sidecar (j == k) (at_sidecar p) (over compile o none)))
        (sym h.0.0 ∙ sym (name-to_proto p))
      ∙ ap (enforced at_sidecar k fs) (found_step ((to_proto p).name == k) p o a.0.0 a.0.1)
      ∙ over-current S k fs (change {S = S} k (store (to_proto p)) o) h.1 a.1
  over-current S k ((key, not_found) ∷ fs) o h a =
      ap (enforced at_sidecar k fs) (deletion_step (key == k) o)
      ∙ over-current S k fs (if key == k then none else o) h.1 a.1
  over-current S k ((key, fetch_error e) ∷ fs) o h a = over-current S k fs o h.1 a.1

  pub enforced-append :
      (k : String) (fs gs : List (String × Fetched)) (d : Option V)
      → enforced compile k (fs ++ gs) d ≡ enforced compile k gs (enforced compile k fs d)
  enforced-append k [] gs d = refl
  enforced-append k ((key, not_found) ∷ fs) gs d =
      enforced-append k fs gs (if key == k then none else d)
  enforced-append k ((key, fetch_error e) ∷ fs) gs d = enforced-append k fs gs d
  enforced-append k ((key, found p) ∷ fs) gs d =
      enforced-append k fs gs (replaced compile (key == k) (compile p) d)

  pub process_all-append :
      (xs ys : List Proto.ValidatingPolicy) (s : PolicyStore V)
      → process_all compile (xs ++ ys) s
        ≡ (process_all compile xs s >>= λ t. process_all compile ys t)
  unfolding process_all
  process_all-append [] ys s = refl
  process_all-append (x ∷ xs) ys s =
      elim (process_policy compile x s)
        as (λ r.
          (r >>= λ t. process_all compile (xs ++ ys) t)
          ≡ ((r >>= λ t. process_all compile xs t) >>= λ t. process_all compile ys t)) [
            | ok t ↦ process_all-append xs ys t
            | err e ↦ refl
            | panic ↦ refl
          ]
