-- ===== src/Sender/Stored.antt =====
-- What is stored when all that is stored are messages of policies.
use kyverno_http_authorizer.Base.{
  String, Option, none, some, List, [], ◌∷◌, ◌≡◌, ◌==◌, All, eq_iff, Bool-cases, inl, inr,
}
use kyverno_http_authorizer.Policy
use kyverno_http_authorizer.Proto
use kyverno_http_authorizer.Api.{to_proto}
use kyverno_http_authorizer.Sender.Invariant.{Call, store, remove, check, flush, request}
use kyverno_http_authorizer.Sender.Streams.{change, current}

-- The policy `p` stands behind the message of a name.
abbrev pub IsPolicy : String → Proto.ValidatingPolicy → Type 0
IsPolicy k pol = (p : Policy.ValidatingPolicy) × (pol ≡ to_proto p) × (pol.name ≡ k)

abbrev pub IsPolicyOrNone : String → Option Proto.ValidatingPolicy → Type 0
IsPolicyOrNone k none = Unit
IsPolicyOrNone k (some pol) = IsPolicy k pol

-- A call that stores stores the message of a policy, as the control plane's reconciler does.
abbrev pub FromApi : {S : Type 0} → Call S → Type 0
FromApi (store pol) = (p : Policy.ValidatingPolicy) × (pol ≡ to_proto p)
FromApi (remove name) = Unit
FromApi (check r) = Unit
FromApi (flush now) = Unit
FromApi (request stream req) = Unit

module _ {S : Type 0} where
  change-IsPolicy :
      (k : String) (c : Call S) (d : Option Proto.ValidatingPolicy)
      → FromApi c
      → IsPolicyOrNone k d
      → IsPolicyOrNone k (change k c d)
  change-IsPolicy k (store pol) d (p, e) h = elim (Bool-cases (pol.name == k)) [
    | inl hit ↦ rw hit (p, e, (eq_iff pol.name k).0 hit)
    | inr miss ↦ rw miss h
  ]
  change-IsPolicy k (remove name) d f h = elim (Bool-cases (name == k)) [
    | inl hit ↦ rw hit tt
    | inr miss ↦ rw miss h
  ]
  change-IsPolicy k (check r) d f h = h
  change-IsPolicy k (flush now) d f h = h
  change-IsPolicy k (request stream req) d f h = h

  pub current-IsPolicy :
      (k : String) (cs : List (Call S)) (d : Option Proto.ValidatingPolicy)
      → All FromApi cs
      → IsPolicyOrNone k d
      → IsPolicyOrNone k (current k cs d)
  current-IsPolicy k [] d a h = h
  current-IsPolicy k (c ∷ cs) d a h =
      current-IsPolicy k cs (change k c d) a.1 (change-IsPolicy k c d a.0 h)
