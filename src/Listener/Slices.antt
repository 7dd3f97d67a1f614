-- ===== src/Listener/Slices.antt =====
-- What a sidecar makes of the messages of a slice of policies.
use kyverno_http_authorizer.Base.{
  String, Option, none, some, List, [], ◌∷◌, map, ◌≡◌, refl, sym, ap, ◌∙◌, subst, Bool, true, false,
  Result, ok, err, panic, ◌==◌, if◌then◌else◌, eq_iff, Bool-cases, inl, inr,
}
use kyverno_http_authorizer.GoMap.{lookup}
use kyverno_http_authorizer.Policy
use kyverno_http_authorizer.Proto
use kyverno_http_authorizer.Api.{to_proto, from_proto}
use kyverno_http_authorizer.Api.RoundTrip.{sent, from_proto-to_proto}
use kyverno_http_authorizer.Stream.Sorted.{contains}
use kyverno_http_authorizer.PolicyStore.{PolicyStore, IsCurrent}
use kyverno_http_authorizer.Sender.Stored.{IsPolicy, IsPolicyOrNone}
use kyverno_http_authorizer.Reconcile.{keep_compiled}
use kyverno_http_authorizer.Reconcile.Standalone.{replaced, keep-IsCurrent, lookup-keep}
use kyverno_http_authorizer.Listener.{process_policy, process_all}
use kyverno_http_authorizer.Listener.Mesh.{process-found}
use kyverno_http_authorizer.Vpol.Compiler.{Checked, accepted, rejected}

module _ {V : Type 0} (compile : Policy.ValidatingPolicy → Checked V) where
  abbrev pub taken : Checked V → Option V → Option V
  taken (accepted c) d = some c
  taken (rejected es) d = d

  abbrev pub outcome : Result Policy.ValidatingPolicy → Checked V
  outcome (ok p) = compile p
  outcome (err e) = rejected []
  outcome panic = rejected []

  -- What a message makes of the policy that a sidecar has under its name.
  abbrev pub over : Option Proto.ValidatingPolicy → Option V → Option V
  over none d = d
  over (some pol) d = taken (outcome (from_proto pol)) d

  taken_idem : (r : Checked V) (d : Option V) → taken r (taken r d) ≡ taken r d
  taken_idem (accepted c) d = refl
  taken_idem (rejected es) d = refl

  over_idem : (o : Option Proto.ValidatingPolicy) (d : Option V) → over o (over o d) ≡ over o d
  over_idem none d = refl
  over_idem (some pol) d = taken_idem (outcome (from_proto pol)) d

  pub replaced-taken :
      (b : Bool) (r : Checked V) (d : Option V)
      → replaced compile b r d ≡ (if b then taken r d else d)
  replaced-taken b (accepted c) d = refl
  replaced-taken true (rejected es) d = refl
  replaced-taken false (rejected es) d = refl

  -- A message of a policy is processed, and acts on the policy of its name only.
  record Processes (j : String) (pol : Proto.ValidatingPolicy) (s : PolicyStore V) : Type 0 where
    after : PolicyStore V
    runs : process_policy compile pol s ≡ ok after
    current_after : IsCurrent s → IsCurrent after
    contents :
        (k : String)
        → lookup k after.policies
          ≡ (if j == k then over (some pol) (lookup k s.policies) else lookup k s.policies)

  process-IsPolicy :
      (j : String) (p : Policy.ValidatingPolicy) (s : PolicyStore V)
      → p.name ≡ j
      → Processes j (to_proto p) s
  process-IsPolicy j p s n = record {
    after = keep_compiled p.name (compile (sent p)) s;
    runs = process-found compile p s;
    current_after = keep-IsCurrent compile p.name (compile (sent p)) s;
    contents = λ k.
        lookup-keep compile p.name k (compile (sent p)) s
        ∙ replaced-taken (p.name == k) (compile (sent p)) (lookup k s.policies)
        ∙ rw (from_proto-to_proto p, n);
  }

  name-to_proto : (p : Policy.ValidatingPolicy) → (to_proto p).name ≡ p.name
  unfolding to_proto
  name-to_proto p = refl

  process-message :
      (j : String) (pol : Proto.ValidatingPolicy) (s : PolicyStore V)
      → IsPolicy j pol
      → Processes j pol s
  process-message j pol s (p, e, n) =
      subst (λ q. Processes j q s) (sym e)
        (process-IsPolicy j p s
          (sym (name-to_proto p) ∙ ap (λ (q : Proto.ValidatingPolicy). q.name) (sym e) ∙ n))

  slice_step :
      (b c : Bool) (o : Option Proto.ValidatingPolicy) (d : Option V)
      → (if c then over o (if b then over o d else d) else (if b then over o d else d))
        ≡ (if (if b then true else c) then over o d else d)
  slice_step true true o d = over_idem o d
  slice_step true false o d = refl
  slice_step false true o d = refl
  slice_step false false o d = refl

  module _ (cur : String → Option Proto.ValidatingPolicy) where
    abbrev pub Ends : List String → List Proto.ValidatingPolicy → PolicyStore V → Type 0
    Ends ks pols s =
        (t : PolicyStore V) × (process_all compile pols s ≡ ok t)
        × IsCurrent t
        × ((k : String)
            → lookup k t.policies
              ≡ (if contains k ks then over (cur k) (lookup k s.policies) else lookup k s.policies))

    Ends-cons :
        (j : String) (ks : List String) (pol : Proto.ValidatingPolicy)
        (pols : List Proto.ValidatingPolicy) (s : PolicyStore V)
        → cur j ≡ some pol
        → (r : Processes j pol s) → Ends ks pols r.after
        → Ends (j ∷ ks) (pol ∷ pols) s
    unfolding process_all
    Ends-cons j ks pol pols s c r (t, e, u, look) = (
      t,
      rw r.runs e,
      u,
      λ k.
          look k
          ∙ rw (r.contents k) (here k)
          ∙ slice_step (j == k) (contains k ks) (cur k) (lookup k s.policies),
    )
      where
        here :
            (k : String)
            → (if contains k ks
                then over
                    (cur k)
                    (if j == k then over (some pol) (lookup k s.policies) else lookup k s.policies)
                else (if j == k
                    then over (some pol) (lookup k s.policies)
                    else lookup k s.policies))
              ≡ (if contains k ks
                  then over
                      (cur k)
                      (if j == k then over (cur k) (lookup k s.policies) else lookup k s.policies)
                  else (if j == k then over (cur k) (lookup k s.policies) else lookup k s.policies))
        here k = elim (Bool-cases (j == k)) [
          | inl hit ↦ rw hit (
              ap
                (λ o.
                  if contains k ks
                  then over (cur k) (over o (lookup k s.policies))
                  else over o (lookup k s.policies))
                (sym c ∙ ap cur ((eq_iff j k).0 hit)))
          | inr miss ↦ rw miss
        ]

    pub process_slice :
        (ks : List String) (pols : List Proto.ValidatingPolicy) (s : PolicyStore V)
        → ((k : String) → IsPolicyOrNone k (cur k))
        → map some pols ≡ map cur ks
        → IsCurrent s
        → Ends ks pols s
    unfolding process_all
    process_slice [] [] s a h u = (s, refl, u, λ k. refl)
    process_slice [] (pol ∷ pols) s a h u = cc
    process_slice (j ∷ ks) [] s a h u = cc
    process_slice (j ∷ ks) (pol ∷ pols) s a h u =
        let c : cur j ≡ some pol = cc in
        let r = process-message j pol s (subst (IsPolicyOrNone j) c (a j)) in
        Ends-cons j ks pol pols s c r (process_slice ks pols r.after a (cc) (r.current_after u))
