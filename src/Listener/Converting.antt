-- ===== src/Listener/Converting.antt =====
-- The messages that processPolicy can convert: FromProto dereferences what a message may leave out.
use kyverno_http_authorizer.Base.{
  String, Option, none, some, List, [], ◌∷◌, ◌≡◌, refl, sym, ap, ◌∙◌, Bool, true, false, ◌&&◌,
  Result, ok, err, panic, ◌>>=◌, ◌==◌, if◌then◌else◌, eq_refl, Bool-cases, inl, inr, ◌⊎◌, arith,
  traverse, deref,
}
use kyverno_http_authorizer.Proto
use kyverno_http_authorizer.Api.{from_proto, validation_from_proto}

-- The messages of one name, in their order.
abbrev pub of_name : String → List Proto.ValidatingPolicy → List Proto.ValidatingPolicy
of_name k [] = []
of_name k (m ∷ ms) = let rest = of_name k ms in if m.name == k then m ∷ rest else rest

-- A message that processPolicy does not panic on.
abbrev pub converts : Proto.ValidatingPolicy → Bool
converts m = if m.deleted then true else elim (from_proto m) [ ok q ↦ true | _ ↦ false ]

abbrev pub all_convert : List Proto.ValidatingPolicy → Bool
all_convert [] = true
all_convert (m ∷ ms) = converts m && all_convert ms

abbrev not_err {ℓ} : {A : Type ℓ} → Result A → Bool
not_err (err e) = false
not_err _ = true

not_err-bind {ℓ κ} :
    {A : Type ℓ} {B : Type κ} (r : Result A) (f : A → Result B)
    → not_err r ≡ true
    → ((a : A) → not_err (f a) ≡ true)
    → not_err (r >>= f) ≡ true
not_err-bind (ok a) f h k = k a
not_err-bind (err e) f h k = cc
not_err-bind panic f h k = refl

not_err-traverse {ℓ κ} :
    {A : Type ℓ} {B : Type κ} (f : A → Result B) (xs : List A)
    → ((a : A) → not_err (f a) ≡ true)
    → not_err (traverse f xs) ≡ true
unfolding traverse
not_err-traverse f [] h = refl
not_err-traverse f (x ∷ xs) h =
    not_err-bind (f x) _ (h x)
      λ y. not_err-bind (traverse f xs) _ (not_err-traverse f xs h) λ ys. refl

not_err-deref {ℓ} : {A : Type ℓ} (o : Option A) → not_err (deref o) ≡ true
not_err-deref none = refl
not_err-deref (some a) = refl

pub not_err-from_proto : (m : Proto.ValidatingPolicy) → not_err (from_proto m) ≡ true
unfolding from_proto
not_err-from_proto m = not_err-bind (deref m.spec) _ (not_err-deref m.spec) λ spec.
    not_err-bind (traverse validation_from_proto spec.validations) _
      (not_err-traverse validation_from_proto spec.validations
        λ v. not_err-bind (deref v.message) _ (not_err-deref v.message) λ msg. refl)
      λ vs.
        not_err-bind (deref spec.failure_policy) _ (not_err-deref spec.failure_policy) λ fp. refl

-- What a Result that is not an error is.
pub ok_or_panic {ℓ} :
    {A : Type ℓ} (r : Result A) → not_err r ≡ true → (r ≡ panic) ⊎ ((a : A) × (r ≡ ok a))
ok_or_panic (ok a) h = inr (a, refl)
ok_or_panic (err e) h = cc
ok_or_panic panic h = inl refl

all_convert-of_name :
    (k : String) (ms : List Proto.ValidatingPolicy)
    → all_convert ms ≡ true
    → all_convert (of_name k ms) ≡ true
all_convert-of_name k [] h = refl
all_convert-of_name k (m ∷ ms) h = ground (arith, all_convert-of_name k ms)

-- A message that does not convert is among the messages of its name.
unconverted :
    (ms : List Proto.ValidatingPolicy)
    → all_convert ms ≡ false
    → (k : String) × (all_convert (of_name k ms) ≡ false)
unconverted [] h = cc
unconverted (m ∷ ms) h = elim (Bool-cases (converts m)) [
  | inl good ↦ let (k, e) = unconverted ms (ground (arith, good, h)) in (k, ground (arith, good, e))
  | inr bad ↦ (m.name, ground (arith, bad, eq_refl m.name))
]

implied :
    (ms ns : List Proto.ValidatingPolicy)
    → ((k : String) → of_name k ms ≡ of_name k ns)
    → all_convert ms ≡ true
    → all_convert ns ≡ true
implied ms ns h a = elim (Bool-cases (all_convert ns)) [
  | inl e ↦ e
  | inr e ↦
      let (k, f) = unconverted ns e in
      absurd (cc (all_convert-of_name k ms a, ap all_convert (h k), f))
]

pub all_convert-by_name :
    (ms ns : List Proto.ValidatingPolicy)
    → ((k : String) → of_name k ms ≡ of_name k ns)
    → all_convert ms ≡ all_convert ns
all_convert-by_name ms ns h = elim (Bool-cases (all_convert ms)) [
  | inl good ↦ good ∙ sym (implied ms ns h good)
  | inr bad ↦ elim (Bool-cases (all_convert ns)) [
    | inl good ↦ absurd (cc (bad, implied ns ms (λ k. sym (h k)) good))
    | inr e ↦ bad ∙ sym e
  ]
]
