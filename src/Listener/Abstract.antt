-- ===== src/Listener/Abstract.antt =====
-- The policies of a standalone server and of a sidecar as a map without an order, which the provider reads
-- sorted: what reconciler and listener implement with a map, a cached slice and its resets.
use kyverno_http_authorizer.Base.{
  String, List, [], ◌∷◌, ◌≡◌, refl, sym, ap, ◌∙◌, Bool, true, false, Result, ok, err, panic, ◌>>=◌,
  if◌then◌else◌,
}
use kyverno_http_authorizer.Policy
use kyverno_http_authorizer.Proto
use kyverno_http_authorizer.Api.{from_proto}
use kyverno_http_authorizer.Stream.Unordered.{
  Contents, contents, contents_congr, nothing, bind, unbind, sorted,
}
use kyverno_http_authorizer.PolicyStore.{
  PolicyStore, new_store, put, drop, compiled_policies, IsCurrent, new_store-IsCurrent,
  drop-IsCurrent, compiled_policies-sorted,
}
use kyverno_http_authorizer.Reconcile.{
  Fetched, found, not_found, fetch_error, keep_compiled, reconcile_standalone,
}
use kyverno_http_authorizer.Reconcile.Standalone.{reconcile_all, keep-IsCurrent}
use kyverno_http_authorizer.Listener.{process_policy, process_all}
use kyverno_http_authorizer.Listener.Order.{provided}
use kyverno_http_authorizer.Vpol.Compiler.{Checked, accepted, rejected}

-- A run in three parts.
in_parts :
    {State Next View : Type 0} (step : Result State) (rest : State → Result Next)
    (read : Next → Result View)
    → ((do next ← (do state ← step; rest state); read next)
        ≡ (do state ← step; next ← rest state; read next))
in_parts panic rest read = refl
in_parts (err failure) rest read = refl
in_parts (ok state) rest read = refl

module _ {V : Type 0} (compile : Policy.ValidatingPolicy → Checked V) where
  abbrev pub kept : String → Checked V → Contents V → Contents V
  kept key (accepted v) c = bind key v c
  kept key (rejected es) c = c

  -- A reconciliation, and a history of them.
  abbrev pub reconciled : String → Fetched → Contents V → Contents V
  reconciled key not_found c = unbind key c
  reconciled key (fetch_error e) c = c
  reconciled key (found p) c = kept key (compile p) c

  abbrev pub reconciled_all : List (String × Fetched) → Contents V → Contents V
  reconciled_all [] c = c
  reconciled_all ((key, f) ∷ fs) c = reconciled_all fs (reconciled key f c)

  -- A message, and several of them.
  abbrev pub processed : Proto.ValidatingPolicy → Contents V → Result (Contents V)
  processed m c =
      if m.deleted
      then ok (unbind m.name c)
      else do q ← from_proto m; ok (kept m.name (compile q) c)

  abbrev pub processed_all : List Proto.ValidatingPolicy → Contents V → Result (Contents V)
  processed_all [] c = ok c
  processed_all (m ∷ ms) c = do d ← processed m c; processed_all ms d

  abbrev view : (s : PolicyStore V) → IsCurrent s → Contents V
  view s u = contents s.policies u.distinct

  view-keep :
      (key : String) (r : Checked V) (s : PolicyStore V) (u : IsCurrent s)
      → view (keep_compiled key r s) (keep-IsCurrent compile key r s u) ≡ kept key r (view s u)
  unfolding keep_compiled bind put
  view-keep key (accepted v) s u = contents_congr _ _ _
  view-keep key (rejected es) s u = contents_congr _ _ _

  view-drop :
      (key : String) (s : PolicyStore V) (u : IsCurrent s)
      → view (drop key s) (drop-IsCurrent key s u) ≡ unbind key (view s u)
  unfolding drop unbind
  view-drop key s u = contents_congr _ _ _

  module _ (set : IsSet V) where
    -- What a store provides is what its contents provide.
    compiled_policies-view :
        (s : PolicyStore V) (u : IsCurrent s)
        → (compiled_policies s >>= λ r. ok r.0) ≡ ok (sorted set (view s u))
    unfolding sorted
    compiled_policies-view s u = rw (compiled_policies-sorted s u)

    -- The first message, by whether it is a deletion and by what it converts to.
    provided_step :
        (deleted : Bool) (r : Result Policy.ValidatingPolicy) (key : String)
        (ms : List Proto.ValidatingPolicy) (s : PolicyStore V) (u : IsCurrent s)
        → ((t : PolicyStore V) (v : IsCurrent t)
            → provided compile ms t ≡ (processed_all ms (view t v) >>= λ c. ok (sorted set c)))
        → ((if deleted then ok (drop key s) else (r >>= λ q. ok (keep_compiled key (compile q) s)))
            >>= λ t. provided compile ms t)
          ≡ ((if deleted
                then ok (unbind key (view s u))
                else (r >>= λ q. ok (kept key (compile q) (view s u))))
              >>= λ c. processed_all ms c >>= λ d. ok (sorted set d))
    provided_step true r key ms s u h =
        h (drop key s) (drop-IsCurrent key s u)
        ∙ ap (λ c. processed_all ms c >>= λ d. ok (sorted set d)) (view-drop key s u)
    provided_step false (ok q) key ms s u h =
        h (keep_compiled key (compile q) s) (keep-IsCurrent compile key (compile q) s u)
        ∙ ap (λ c. processed_all ms c >>= λ d. ok (sorted set d)) (view-keep key (compile q) s u)
    provided_step false (err e) key ms s u h = refl
    provided_step false panic key ms s u h = refl

    provided-view :
        (ms : List Proto.ValidatingPolicy) (s : PolicyStore V) (u : IsCurrent s)
        → provided compile ms s ≡ (processed_all ms (view s u) >>= λ c. ok (sorted set c))
    unfolding process_all process_policy
    provided-view [] s u = compiled_policies-view s u
    provided-view (m ∷ ms) s u =
        in_parts (process_policy compile m s) (process_all compile ms) _
        ∙ provided_step m.deleted (from_proto m) m.name ms s u (provided-view ms)
        ∙ sym (in_parts (processed m (view s u)) (processed_all ms) (λ c. ok (sorted set c)))

    reconcile_all-view :
        (fs : List (String × Fetched)) (s : PolicyStore V) (u : IsCurrent s)
        → (compiled_policies (reconcile_all compile fs s) >>= λ r. ok r.0)
          ≡ ok (sorted set (reconciled_all fs (view s u)))
    unfolding reconcile_all reconcile_standalone
    reconcile_all-view [] s u = compiled_policies-view s u
    reconcile_all-view ((key, not_found) ∷ fs) s u =
        reconcile_all-view fs (drop key s) (drop-IsCurrent key s u)
        ∙ ap (λ c. ok (sorted set (reconciled_all fs c))) (view-drop key s u)
    reconcile_all-view ((key, fetch_error e) ∷ fs) s u = reconcile_all-view fs s u
    reconcile_all-view ((key, found p) ∷ fs) s u =
        reconcile_all-view fs (keep_compiled key (compile p) s)
          (keep-IsCurrent compile key (compile p) s u)
        ∙ ap (λ c. ok (sorted set (reconciled_all fs c))) (view-keep key (compile p) s u)

    -- The policies of a standalone server after any history of reconciliations, and of a sidecar after any
    -- messages, are a map without an order: a reconciliation or a message binds a name to what was compiled, unbinds
    -- a deleted name, or changes nothing, and CompiledPolicies returns the sorted slice of the map's
    -- contents. A sidecar panics where the conversion of a message does. Here the compiled policies are a
    -- set, so that the slice is a function of the contents.
    pub provided-processed_all :
        (fs : List (String × Fetched)) (ms : List Proto.ValidatingPolicy)
        → ((compiled_policies (reconcile_all compile fs new_store) >>= λ r. ok r.0)
            ≡ ok (sorted set (reconciled_all fs nothing)))
          × (provided compile ms new_store ≡ (processed_all ms nothing >>= λ c. ok (sorted set c)))
    provided-processed_all fs ms = (
      reconcile_all-view fs new_store new_store-IsCurrent
          ∙ ap (λ c. ok (sorted set (reconciled_all fs c))) (contents_congr _ _ _),
      provided-view ms new_store new_store-IsCurrent
          ∙ ap (λ c. processed_all ms c >>= λ d. ok (sorted set d)) (contents_congr _ _ _),
    )
