-- ===== src/Listener/Interleaving.antt =====
-- The goroutines of processPolicy and the handler's reads, step by step. A deletion unlocks the mutex
-- before it resets the sorting function; an insertion resets it under the lock.
use kyverno_http_authorizer.Base.{
  ok-injective, ℕ, suc, String, List, [], ◌∷◌, ◌≡◌, ◌≢◌, refl, sym, ap, ◌∙◌, subst, ok, arith,
  eq_refl,
}
use kyverno_http_authorizer.GoMap.{insert, delete, Distinct}
use kyverno_http_authorizer.GoMap.Laws.{delete-Distinct, insert-Distinct}
use kyverno_http_authorizer.Stream.{map_to_sorted_slice}
use kyverno_http_authorizer.Once.{Once, nil, fresh, called, IsFresh}
use kyverno_http_authorizer.PolicyStore.{
  PolicyStore, new_store, put, compiled_policies, compiled_policies-sorted, sorted_store,
}

-- The store, and how many deletions have unlocked the mutex and not yet reset the function.
pub record Shared (V : Type 0) : Type 0 where
  pub store : PolicyStore V
  pub pending : ℕ

module _ {V : Type 0} where
  -- delete(l.policies, name), under the lock.
  unfoldable pub deleted : String → Shared V → Shared V
  deleted name s = record {
    store = record (s.store) { policies = delete name (s.store).policies };
    pending = suc s.pending;
  }

  -- resetSortPolicies after it.
  unfoldable pub reset : ℕ → Shared V → Shared V
  reset rest s = record { store = record (s.store) { sort_policies = fresh }; pending = rest }

  pub data Step (s t : Shared V) : Type 0 where
    stores : (name : String) (v : V) → t ≡ record s { store = put name v s.store } → Step s t
    deletes : (name : String) → t ≡ deleted name s → Step s t
    resets : (rest : ℕ) → s.pending ≡ suc rest → t ≡ reset rest s → Step s t
    reads :
        (pols : List V) (u : PolicyStore V)
        → compiled_policies s.store ≡ ok (pols, u)
        → t ≡ record s { store = u }
        → Step s t

  pub data Reach : Shared V → Type 0 where
    start : Reach (record { store = new_store; pending = 0 })
    then : {s t : Shared V} → Reach s → Step s t → Reach t

  record Sound (s : Shared V) : Type 0 where
    distinct : Distinct (s.store).policies
    is_set : (s.store).sort_policies ≢ nil
    cache : s.pending ≡ 0 → IsFresh (s.store).sort_policies (s.store).policies

  deleted-Sound : (name : String) (s : Shared V) → Sound s → Sound (deleted name s)
  unfolding deleted
  deleted-Sound name s k = record {
    distinct = delete-Distinct name (s.store).policies k.distinct;
    is_set = k.is_set;
    cache = λ e. absurd (ground (arith, e));
  }

  reset-Sound : (rest : ℕ) (s : Shared V) → Sound s → Sound (reset rest s)
  unfolding reset
  reset-Sound rest s k = record { distinct = k.distinct; is_set = λ e. cc; cache = λ e. tt }

  put-Sound :
      (name : String) (v : V) (s : Shared V)
      → Sound s
      → Sound (record s { store = put name v s.store })
  unfolding put
  put-Sound name v s k = record {
    distinct = insert-Distinct name v (s.store).policies k.distinct;
    is_set = λ e. cc;
    cache = λ e. tt;
  }

  -- A read: what it returns, and the store that it leaves.
  read_cases :
      (p : PolicyStore V) (o : Once (List V))
      → p.sort_policies ≡ o
      → o ≢ nil
      → (pols : List V) × (u : PolicyStore V) × (compiled_policies p ≡ ok (pols, u))
        × (u.policies ≡ p.policies)
        × (u.sort_policies ≢ nil)
        × (IsFresh p.sort_policies p.policies → IsFresh u.sort_policies u.policies)
  unfolding compiled_policies
  read_cases p nil e n = absurd (n refl)
  read_cases p fresh e n = (
    map_to_sorted_slice p.policies,
    sorted_store p,
    rw (e, compiled_policies),
    refl,
    λ c. cc,
    λ f. refl,
  )
  read_cases p (called v) e n = (
    v,
    record p { sort_policies = called v },
    rw (e, compiled_policies) (λ i. ok (v, record p { sort_policies = e i })),
    refl,
    n,
    subst (λ x. IsFresh x p.policies) e,
  )

  read-Sound :
      (s : Shared V) (pols : List V) (u : PolicyStore V)
      → compiled_policies s.store ≡ ok (pols, u)
      → Sound s
      → Sound (record s { store = u })
  read-Sound s pols u h k =
      let (vs, w, e, same, set, keep) = read_cases s.store (s.store).sort_policies refl k.is_set in
      subst (λ (x : List V × PolicyStore V). Sound (record s { store = x.1 }))
        (ok-injective (sym e ∙ h))
        (record {
          distinct = subst Distinct (sym same) k.distinct;
          is_set = set;
          cache = λ z. keep (k.cache z);
        })

  Step-Sound : {s t : Shared V} → Step s t → Sound s → Sound t
  Step-Sound {s} {t} (stores name v e) k = subst Sound (sym e) (put-Sound name v s k)
  Step-Sound {s} {t} (deletes name e) k = subst Sound (sym e) (deleted-Sound name s k)
  Step-Sound {s} {t} (resets rest p e) k = subst Sound (sym e) (reset-Sound rest s k)
  Step-Sound {s} {t} (reads pols u h e) k = subst Sound (sym e) (read-Sound s pols u h k)

  Reach-Sound : {s : Shared V} → Reach s → Sound s
  unfolding map_to_sorted_slice
  Reach-Sound start = record { distinct = tt; is_set = λ e. cc; cache = λ e. refl }
  Reach-Sound (then r st) = Step-Sound st (Reach-Sound r)

  -- However the steps of goroutines interleave, a read never panics, and it returns the sorted slice of
  -- the policies that are stored unless some deletion has not yet reset the sorting function.
  pub Reach-reads :
      {s : Shared V}
      → Reach s
      → ((pols : List V) × (u : PolicyStore V) × (compiled_policies s.store ≡ ok (pols, u)))
        × (s.pending ≡ 0
            → compiled_policies s.store
              ≡ ok (map_to_sorted_slice (s.store).policies, sorted_store s.store))
  Reach-reads {s} r =
      let k = Reach-Sound r in
      let (vs, w, e, same, set, keep) = read_cases s.store (s.store).sort_policies refl k.is_set in
      (
        (vs, w, e),
        λ z.
            compiled_policies-sorted s.store
              (record { distinct = k.distinct; cache = k.cache z; is_set = k.is_set }),
      )

  abbrev one_policy : String → V → Once (List V) → PolicyStore V
  one_policy name v o = record { policies = (name, v) ∷ []; sort_policies = o }

  slice_of_one : (name : String) (v : V) → map_to_sorted_slice ((name, v) ∷ []) ≡ v ∷ []
  unfolding map_to_sorted_slice
  slice_of_one name v = ground (arith, eq_refl name)

  read_one :
      (name : String) (v : V)
      → compiled_policies (one_policy name v fresh)
        ≡ ok (v ∷ [], one_policy name v (called (v ∷ [])))
  unfolding compiled_policies
  read_one name v = ap (λ vs. ok (vs, one_policy name v (called vs))) (slice_of_one name v)

  -- A policy can be enforced after it was deleted: between the deletion and the reset a read returns
  -- it, although no policy is stored.
  pub stale_read :
      (name : String) (v : V)
      → (s : Shared V) × (u : PolicyStore V) × Reach s
        × ((s.store).policies ≡ [])
        × (compiled_policies s.store ≡ ok (v ∷ [], u))
  unfolding compiled_policies put deleted insert delete
  stale_read name v = (
    deleted name (record { store = one_policy name v (called (v ∷ [])); pending = 0 }),
    _,
    then (then (then start (stores name v refl)) (reads (v ∷ []) _ (read_one name v) refl))
        (deletes name refl),
    rw (eq_refl name),
    refl,
  )
