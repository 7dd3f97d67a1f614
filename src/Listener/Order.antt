-- ===== src/Listener/Order.antt =====
-- The messages of a sidecar in the order in which their goroutines get the lock (listener.go:134).
use kyverno_http_authorizer.Base.{
  String, Option, none, List, [], ◌∷◌, ◌≡◌, refl, sym, ap, ◌∙◌, true, false, Result, ok, panic,
  ◌>>=◌, ◌==◌, if◌then◌else◌, Bool-cases, inl, inr, arith,
}
use kyverno_http_authorizer.GoMap.{lookup}
use kyverno_http_authorizer.Policy
use kyverno_http_authorizer.Proto
use kyverno_http_authorizer.Api.{from_proto}
use kyverno_http_authorizer.Stream.Sorted.{map_to_sorted_slice_congr}
use kyverno_http_authorizer.PolicyStore.{
  PolicyStore, drop, compiled_policies, IsCurrent, drop-IsCurrent, compiled_policies-sorted,
}
use kyverno_http_authorizer.Reconcile.{keep_compiled}
use kyverno_http_authorizer.Reconcile.Standalone.{keep-IsCurrent, lookup-keep}
use kyverno_http_authorizer.Listener.{process_policy, process_all}
use kyverno_http_authorizer.Listener.Mesh.{lookup-drop}
use kyverno_http_authorizer.Listener.Slices.{taken, replaced-taken}
use kyverno_http_authorizer.Vpol.Compiler.{Checked}
use kyverno_http_authorizer.Listener.Converting.{
  of_name, converts, all_convert, all_convert-by_name, not_err-from_proto, ok_or_panic,
}

module _ {V : Type 0} (compile : Policy.ValidatingPolicy → Checked V) where
  -- What one message makes of the policy of its name.
  abbrev pub applied : Proto.ValidatingPolicy → Option V → Option V
  applied m d =
      if m.deleted then none else elim (from_proto m) [ ok q ↦ taken compile (compile q) d | _ ↦ d ]

  -- What the messages of a name, in their order, make of its policy.
  abbrev pub replayed : List Proto.ValidatingPolicy → Option V → Option V
  replayed [] d = d
  replayed (m ∷ ms) d = replayed ms (applied m d)

  record Ran (m : Proto.ValidatingPolicy) (s : PolicyStore V) : Type 0 where
    after : PolicyStore V
    runs : process_policy compile m s ≡ ok after
    current : IsCurrent after
    contents :
        (k : String)
        → lookup k after.policies
          ≡ (if m.name == k then applied m (lookup k s.policies) else lookup k s.policies)

  Ran-deletion :
      (m : Proto.ValidatingPolicy) (s : PolicyStore V) → m.deleted ≡ true → IsCurrent s → Ran m s
  unfolding process_policy
  Ran-deletion m s d c = record {
    after = drop m.name s;
    runs = rw d;
    current = drop-IsCurrent m.name s c;
    contents = λ k. lookup-drop m.name k s ∙ simp d;
  }

  Ran-update :
      (m : Proto.ValidatingPolicy) (s : PolicyStore V) (q : Policy.ValidatingPolicy)
      → m.deleted ≡ false
      → from_proto m ≡ ok q
      → IsCurrent s
      → Ran m s
  unfolding process_policy
  Ran-update m s q d e c = record {
    after = keep_compiled m.name (compile q) s;
    runs = rw (d, e);
    current = keep-IsCurrent compile m.name (compile q) s c;
    contents = λ k.
        lookup-keep compile m.name k (compile q) s
        ∙ replaced-taken compile (m.name == k) (compile q) (lookup k s.policies)
        ∙ simp (d, e);
  }

  ran : (m : Proto.ValidatingPolicy) (s : PolicyStore V) → converts m ≡ true → IsCurrent s → Ran m s
  ran m s h c = elim (Bool-cases m.deleted) [
    | inl d ↦ Ran-deletion m s d c
    | inr d ↦ elim (ok_or_panic (from_proto m) (not_err-from_proto m)) [
      | inl p ↦ absurd (ground (arith, d, p, h))
      | inr (q, e) ↦ Ran-update m s q d e c
    ]
  ]

  record RanAll (ms : List Proto.ValidatingPolicy) (s : PolicyStore V) : Type 0 where
    after : PolicyStore V
    runs : process_all compile ms s ≡ ok after
    current : IsCurrent after
    contents :
        (k : String) → lookup k after.policies ≡ replayed (of_name k ms) (lookup k s.policies)

  replayed-cons :
      (m : Proto.ValidatingPolicy) (ms : List Proto.ValidatingPolicy) (k : String) (d : Option V)
      → replayed (of_name k ms) (if m.name == k then applied m d else d)
        ≡ replayed (of_name k (m ∷ ms)) d
  replayed-cons m ms k d = ground arith

  RanAll-cons :
      (m : Proto.ValidatingPolicy) (ms : List Proto.ValidatingPolicy) (s : PolicyStore V)
      (r : Ran m s)
      → RanAll ms r.after
      → RanAll (m ∷ ms) s
  unfolding process_all
  RanAll-cons m ms s r rest = record {
    after = rest.after;
    runs = rw r.runs rest.runs;
    current = rest.current;
    contents = λ k.
        rest.contents k
        ∙ ap (replayed (of_name k ms)) (r.contents k)
        ∙ replayed-cons m ms k (lookup k s.policies);
  }

  ran_all :
      (ms : List Proto.ValidatingPolicy) (s : PolicyStore V)
      → all_convert ms ≡ true
      → IsCurrent s
      → RanAll ms s
  unfolding process_all
  ran_all [] s h c = record { after = s; runs = refl; current = c; contents = λ k. refl }
  ran_all (m ∷ ms) s h c =
      let r = ran m s (ground (arith, h)) c in
      RanAll-cons m ms s r (ran_all ms r.after (ground (arith, h)) r.current)

  -- A message that does not convert makes the whole run panic.
  panicked :
      (ms : List Proto.ValidatingPolicy) (s : PolicyStore V)
      → all_convert ms ≡ false
      → IsCurrent s
      → process_all compile ms s ≡ panic
  unfolding process_all
  panicked [] s h c = cc
  panicked (m ∷ ms) s h c = elim (Bool-cases (converts m)) [
    | inl good ↦
        let r = ran m s good c in
        rw r.runs (panicked ms r.after (ground (arith, good, h)) r.current)
    | inr bad ↦ elim (Bool-cases m.deleted) [
      | inl d ↦ absurd (ground (arith, d, bad))
      | inr d ↦ elim (ok_or_panic (from_proto m) (not_err-from_proto m)) [
        | inl p ↦ rw (d, p, process_policy)
        | inr (q, e) ↦ absurd (ground (arith, d, e, bad))
      ]
    ]
  ]

  -- What the handler is given once the messages are processed.
  abbrev pub provided : List Proto.ValidatingPolicy → PolicyStore V → Result (List V)
  provided ms s = do t ← process_all compile ms s; r ← compiled_policies t; ok r.0

  -- The goroutines of a sidecar's messages can get the lock in any order. Two orders in which the
  -- messages of each name follow each other alike leave the sidecar with the same policies, in the
  -- same order, for its handler; and if a message makes processPolicy panic in one, so it does in the
  -- other. Here the sidecar starts from a store whose cached slice is not stale.
  pub provided_congr :
      (ms ns : List Proto.ValidatingPolicy) (s : PolicyStore V)
      → ((k : String) → of_name k ms ≡ of_name k ns)
      → IsCurrent s
      → provided ms s ≡ provided ns s
  provided_congr ms ns s h c = elim (Bool-cases (all_convert ms)) [
    | inl good ↦
        let a = ran_all ms s good c in
        let b = ran_all ns s (sym (all_convert-by_name ms ns h) ∙ good) c in
        rw (
          a.runs,
          b.runs,
          compiled_policies-sorted a.after a.current,
          compiled_policies-sorted b.after b.current,
          map_to_sorted_slice_congr a.after.policies b.after.policies a.current.distinct
              b.current.distinct
              (λ k.
                a.contents k
                ∙ ap (λ l. replayed l (lookup k s.policies)) (h k)
                ∙ sym (b.contents k)),
        )
    | inr bad ↦ rw (panicked ms s bad c, panicked ns s (sym (all_convert-by_name ms ns h) ∙ bad) c)
  ]
