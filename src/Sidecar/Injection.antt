-- ===== src/Sidecar/Injection.antt =====
-- What an injection makes of a pod's containers.
use kyverno_http_authorizer.Base.{
  String, none, some, List, [], ◌∷◌, ◌++◌, ◌≡◌, refl, ap, true, false, ◌==◌, inl, inr, arith, All,
  Bool-cases, Option-cases, eq_refl,
}
use kyverno_http_authorizer.Sidecar.{Container, Pod, replace_first, inject}

-- None of the containers has the name.
abbrev pub Free : String → List Container → Type 0
Free name = All (λ (c : Container). (c.name == name) ≡ false)

-- `Injected c before after`: `after` is `before` with the first container of the name of `c` replaced by
-- `c`, or with `c` at the end if no container has that name.
pub data Injected (c : Container) (xs ys : List Container) : Type 0 where
  replaced :
      (before after : List Container) (old : Container)
      → xs ≡ before ++ old ∷ after
      → (old.name == c.name) ≡ true
      → Free c.name before
      → ys ≡ before ++ c ∷ after
      → Injected c xs ys
  appended : Free c.name xs → ys ≡ xs ++ c ∷ [] → Injected c xs ys

replace_first-none :
    (c : Container) (xs : List Container) → replace_first c xs ≡ none → Free c.name xs
unfolding replace_first
replace_first-none c [] h = tt
replace_first-none c (x ∷ xs) h = elim (Bool-cases (x.name == c.name)) [
  | inl e ↦ cc (rw e at h)
  | inr e ↦ elim (Option-cases (replace_first c xs)) [
    | inl n ↦ (e, replace_first-none c xs n)
    | inr (ys, s) ↦ cc (rw (e, s) at h)
  ]
]

abbrev Replaces : Container → List Container → List Container → Type 0
Replaces c xs ys =
    (before : List Container) × (after : List Container) × (old : Container) × (xs
      ≡ before ++ old ∷ after)
    × ((old.name == c.name) ≡ true)
    × Free c.name before
    × (ys ≡ before ++ c ∷ after)

replace_first-some :
    (c : Container) (xs ys : List Container) → replace_first c xs ≡ some ys → Replaces c xs ys
unfolding replace_first
replace_first-some c [] ys h = cc
replace_first-some c (x ∷ xs) ys h = elim (Bool-cases (x.name == c.name)) [
  | inl e ↦ ([], xs, x, refl, e, tt, cc (rw e at h))
  | inr e ↦ elim (Option-cases (replace_first c xs)) [
    | inl n ↦ cc (rw (e, n) at h)
    | inr (zs, s) ↦
        let (before, after, old, a, n, f, b) = replace_first-some c xs zs s in
        (x ∷ before, after, old, ap (λ r. x ∷ r) a, n, (e, f), cc (rw (e, s) at h, b))
  ]
]

replace_first-again :
    (c : Container) (before after : List Container)
    → Free c.name before
    → replace_first c (before ++ c ∷ after) ≡ some (before ++ c ∷ after)
unfolding replace_first
replace_first-again c [] after f = rw (eq_refl c.name)
replace_first-again c (b ∷ before) after f = rw (f.0, replace_first-again c before after f.1)

replace_first-absent :
    (c : Container) (xs : List Container)
    → Free c.name xs
    → replace_first c (xs ++ c ∷ []) ≡ some (xs ++ c ∷ [])
replace_first-absent c xs f = replace_first-again c xs [] f

-- The containers after an injection are found again by the next one.
found_again :
    (c : Container) {xs ys : List Container} → Injected c xs ys → replace_first c ys ≡ some ys
found_again c (replaced before after old a n f b) = rw b (replace_first-again c before after f)
found_again c (appended f b) = rw b (replace_first-absent c _ f)

module _ {X : Type 0} where
  inject-Injected :
      (pod : Pod X) (c : Container) → Injected c pod.containers (inject pod c).containers
  unfolding inject
  inject-Injected pod c = elim (Option-cases (replace_first c pod.containers)) [
    | inl n ↦ rw (n, inject) (appended (replace_first-none c pod.containers n) refl)
    | inr (ys, s) ↦
        let (before, after, old, a, n, f, b) = replace_first-some c pod.containers ys s in
        rw (s, inject) (replaced before after old a n f b)
  ]

  inject_found :
      (pod : Pod X) (c : Container) (ys : List Container)
      → replace_first c pod.containers ≡ some ys
      → inject pod c ≡ record pod { containers = ys }
  unfolding inject
  inject_found pod c ys h = rw (h, inject)

  -- An injection replaces the first container of the injected one's name, keeping its place, or adds
  -- the container at the end if there is none of that name. All other containers, and all other parts
  -- of the pod, stay as they are; and to inject the container once more changes nothing.
  pub inject_lem :
      (pod : Pod X) (c : Container)
      → Injected c pod.containers (inject pod c).containers
        × ((inject pod c).others ≡ pod.others)
        × (inject (inject pod c) c ≡ inject pod c)
  unfolding inject
  inject_lem pod c = (
    inject-Injected pod c,
    ground arith,
    inject_found (inject pod c) c (inject pod c).containers (found_again c (inject-Injected pod c)),
  )
