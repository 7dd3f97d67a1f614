-- ===== src/PolicyStore.antt =====
-- The compiled policies that pkg/stream/listener/listener.go and
-- pkg/engine/vpol/provider/standalone.go keep in the same way: a map and a cached sorted slice.
use kyverno_http_authorizer.Base.{String, List, [], Result, ok, panic, ◌≡◌, ◌≢◌, refl, ap, ◌∙◌}
use kyverno_http_authorizer.GoMap.{GoMap, insert, delete, Distinct}
use kyverno_http_authorizer.GoMap.Laws.{insert-Distinct, delete-Distinct}
use kyverno_http_authorizer.Stream.{map_to_sorted_slice}
use kyverno_http_authorizer.Once.{Once, nil, fresh, called, IsFresh}

pub record PolicyStore (V : Type 0) : Type 0 where
  pub policies : GoMap V
  pub sort_policies : Once (List V)

module _ {V : Type 0} where
  -- The state that NewPolicyListener and NewStandaloneReconciler make: the sorting function returns
  -- a nil slice.
  abbrev pub new_store : PolicyStore V
  new_store = record { policies = []; sort_policies = called [] }

  -- policies[k] = v, and the sorting function is reset.
  unfoldable pub put : String → V → PolicyStore V → PolicyStore V
  unfolding insert
  put k v s = record { policies = insert k v s.policies; sort_policies = fresh }

  -- delete(policies, k), and the sorting function is reset.
  unfoldable pub drop : String → PolicyStore V → PolicyStore V
  unfolding delete
  drop k s = record { policies = delete k s.policies; sort_policies = fresh }

  -- A call of sortPolicies, which is all that CompiledPolicies does.
  unfoldable pub compiled_policies : PolicyStore V → Result (List V × PolicyStore V)
  compiled_policies s = elim s.sort_policies [
    | nil ↦ panic
    | fresh ↦
        let v = map_to_sorted_slice s.policies in ok (v, record s { sort_policies = called v })
    | called v ↦ ok (v, s)
  ]

  -- The keys are distinct, and a call of sortPolicies returns the sorted slice of the policies.
  pub record IsCurrent (s : PolicyStore V) : Type 0 where
    pub distinct : Distinct s.policies
    pub cache : IsFresh s.sort_policies s.policies
    pub is_set : s.sort_policies ≢ nil

  pub new_store-IsCurrent : IsCurrent new_store
  unfolding map_to_sorted_slice
  new_store-IsCurrent = record { distinct = tt; cache = refl; is_set = λ e. cc }

  pub put-IsCurrent : (k : String) (v : V) (s : PolicyStore V) → IsCurrent s → IsCurrent (put k v s)
  unfolding put
  put-IsCurrent k v s c = record {
    distinct = insert-Distinct k v s.policies c.distinct;
    cache = tt;
    is_set = λ e. cc;
  }

  pub drop-IsCurrent : (k : String) (s : PolicyStore V) → IsCurrent s → IsCurrent (drop k s)
  unfolding drop
  drop-IsCurrent k s c = record {
    distinct = delete-Distinct k s.policies c.distinct;
    cache = tt;
    is_set = λ e. cc;
  }

  -- The store after a call of sortPolicies.
  abbrev pub sorted_store : PolicyStore V → PolicyStore V
  sorted_store s = record s { sort_policies = called (map_to_sorted_slice s.policies) }

  cases :
      (s : PolicyStore V) (o : Once (List V))
      → s.sort_policies ≡ o
      → o ≢ nil
      → IsFresh o s.policies
      → compiled_policies s ≡ ok (map_to_sorted_slice s.policies, sorted_store s)
  unfolding compiled_policies
  cases s nil e n f = absurd (n refl)
  cases s fresh e n f = rw (e, compiled_policies)
  cases s (called v) e n f =
      let e' : s.sort_policies ≡ called (map_to_sorted_slice s.policies) = e ∙ ap called f in
      rw (e', compiled_policies)
        (λ i. ok (map_to_sorted_slice s.policies, record s { sort_policies = e' i }))

  pub compiled_policies-sorted :
      (s : PolicyStore V)
      → IsCurrent s
      → compiled_policies s ≡ ok (map_to_sorted_slice s.policies, sorted_store s)
  compiled_policies-sorted s c = cases s s.sort_policies refl c.is_set c.cache
