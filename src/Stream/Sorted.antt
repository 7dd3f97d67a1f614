-- ===== src/Stream/Sorted.antt =====
-- MapToSortedSlice: the slice lists the values in the ascending order of their keys, whatever the
-- order of iteration.
use kyverno_http_authorizer.Base.{
  String, some, List, [], ◌∷◌, map, ◌≡◌, refl, ap, ap₂, Bool, true, false, inl, inr, arith, ◌==◌,
  if◌then◌else◌, eq_iff, eq_refl, text_leb, text_leb_trans, text_leb_total, text_leb_antisymm,
  text_leb_refl, is_some, All, Bool-cases, sym, ◌∙◌,
}
use kyverno_http_authorizer.GoMap.{GoMap, lookup, keys, Distinct}
use kyverno_http_authorizer.Stream.{insert_key, sort_keys, values_of, map_to_sorted_slice}

abbrev pub contains : String → List String → Bool
contains k [] = false
contains k (x ∷ xs) = if x == k then true else contains k xs

-- Each element is strictly below all that follow it.
abbrev pub Ascending : List String → Type 0
Ascending [] = Unit
Ascending (x ∷ xs) = All (λ y. text_leb y x ≡ false) xs × Ascending xs

contains-insert_key :
    (k j : String) (xs : List String)
    → contains j (insert_key k xs) ≡ (if k == j then true else contains j xs)
unfolding insert_key
contains-insert_key k j [] = refl
contains-insert_key k j (x ∷ xs) = ground (arith, contains-insert_key k j xs)

contains-sort_keys : (j : String) (xs : List String) → contains j (sort_keys xs) ≡ contains j xs
unfolding sort_keys
contains-sort_keys j [] = refl
contains-sort_keys j (x ∷ xs) = rw (contains-insert_key x j (sort_keys xs), contains-sort_keys j xs)

contains-keys {ℓ} :
    {V : Type ℓ} (j : String) (m : GoMap V) → contains j (keys m) ≡ is_some (lookup j m)
unfolding keys lookup
contains-keys j [] = refl
contains-keys j ((k, v) ∷ m) = ground (arith, contains-keys j m)

All-insert_key :
    (x k : String) (xs : List String)
    → text_leb k x ≡ false
    → All (λ y. text_leb y x ≡ false) xs
    → All (λ y. text_leb y x ≡ false) (insert_key k xs)
unfolding insert_key
All-insert_key x k [] h a = (h, tt)
All-insert_key x k (y ∷ ys) h a = ground (arith, All-insert_key x k ys h a.1)

-- What is above `x` is above all that is at most `x`.
All-mono :
    (k x : String) (xs : List String)
    → text_leb k x ≡ true
    → All (λ y. text_leb y x ≡ false) xs
    → All (λ y. text_leb y k ≡ false) xs
All-mono k x [] h a = tt
All-mono k x (y ∷ ys) h a = (ground (arith, text_leb_trans y k x), All-mono k x ys h a.1)

insert_key-Ascending :
    (k : String) (xs : List String)
    → contains k xs ≡ false
    → Ascending xs
    → Ascending (insert_key k xs)
unfolding insert_key
insert_key-Ascending k [] h a = (tt, tt)
insert_key-Ascending k (x ∷ xs) h a = elim (Bool-cases (text_leb k x)) [
  | inl le ↦ rw le ((ground (arith, text_leb_antisymm k x, eq_iff x k), All-mono k x xs le a.0), a)
  | inr gt ↦ rw gt (All-insert_key x k xs gt a.0, insert_key-Ascending k xs (ground arith) a.1)
]

sort_keys-Ascending {ℓ} : {V : Type ℓ} (m : GoMap V) → Distinct m → Ascending (sort_keys (keys m))
unfolding sort_keys keys
sort_keys-Ascending [] d = tt
sort_keys-Ascending ((k, v) ∷ m) d =
    insert_key-Ascending k (sort_keys (keys m))
      (contains-sort_keys k (keys m) ∙ contains-keys k m ∙ d.0) (sort_keys-Ascending m d.1)

-- A key below all of a list is not in it.
contains_below :
    (k : String) (xs : List String) → All (λ y. text_leb y k ≡ false) xs → contains k xs ≡ false
contains_below k [] a = refl
contains_below k (x ∷ xs) a = ground (arith, contains_below k xs a.1, eq_iff x k, text_leb_refl k)

-- What is in a list above `x` is above `x`.
contained_above :
    (k x : String) (ys : List String)
    → All (λ y. text_leb y x ≡ false) ys
    → contains k ys ≡ true
    → text_leb k x ≡ false
contained_above k x [] a h = cc
contained_above k x (y ∷ ys) a h = ground (arith, eq_iff y k, contained_above k x ys a.1)

-- Two ascending lists with the same elements have the same head.
heads_equal :
    (x y : String) (xs ys : List String)
    → Ascending (x ∷ xs)
    → Ascending (y ∷ ys)
    → contains x (x ∷ xs) ≡ contains x (y ∷ ys)
    → contains y (x ∷ xs) ≡ contains y (y ∷ ys)
    → x ≡ y
heads_equal x y xs ys a b hx hy = ground (
  arith,
  eq_refl x,
  eq_refl y,
  eq_iff x y,
  eq_iff y x,
  contained_above x y ys b.0,
  contained_above y x xs a.0,
  text_leb_total x y,
)

tails_agree :
    (x y k : String) (xs ys : List String)
    → x ≡ y
    → Ascending (x ∷ xs)
    → Ascending (y ∷ ys)
    → contains k (x ∷ xs) ≡ contains k (y ∷ ys)
    → contains k xs ≡ contains k ys
tails_agree x y k xs ys e a b h =
    ground (arith, eq_iff x k, contains_below x xs a.0, contains_below y ys b.0)

Ascending-unique :
    (xs ys : List String)
    → Ascending xs
    → Ascending ys
    → ((k : String) → contains k xs ≡ contains k ys)
    → xs ≡ ys
Ascending-unique [] [] a b h = refl
Ascending-unique [] (y ∷ ys) a b h = ground (arith, h y, eq_refl y)
Ascending-unique (x ∷ xs) [] a b h = ground (arith, h x, eq_refl x)
Ascending-unique (x ∷ xs) (y ∷ ys) a b h =
    let e : x ≡ y = heads_equal x y xs ys a b (h x) (h y) in
    ap₂ ◌∷◌ e (Ascending-unique xs ys a.1 b.1 (λ k. tails_agree x y k xs ys e a b (h k)))

All-of_contains {κ} :
    {P : String → Type κ} (ks : List String)
    → ((k : String) → contains k ks ≡ true → P k)
    → All P ks
All-of_contains [] h = tt
All-of_contains (k ∷ ks) h =
    (h k (ground (arith, eq_refl k)), All-of_contains ks (λ j c. h j (ground arith)))

module _ {ℓ} {V : Type ℓ} where
  values_of_congr :
      (m n : GoMap V) (ks : List String)
      → ((k : String) → lookup k m ≡ lookup k n)
      → values_of m ks ≡ values_of n ks
  unfolding values_of
  values_of_congr m n [] h = refl
  values_of_congr m n (k ∷ ks) h = ground (arith, h k, values_of_congr m n ks h)

  map-values_of :
      (m : GoMap V) (ks : List String)
      → All (λ k. is_some (lookup k m) ≡ true) ks
      → map some (values_of m ks) ≡ map (λ k. lookup k m) ks
  unfolding values_of
  map-values_of m [] a = refl
  map-values_of m (k ∷ ks) a = ground (arith, map-values_of m ks a.1)

  -- The keys of a map in ascending order: exactly the keys that are bound, each once.
  pub sort_keys-keys :
      (m : GoMap V) (k : String) → contains k (sort_keys (keys m)) ≡ is_some (lookup k m)
  sort_keys-keys m k = contains-sort_keys k (keys m) ∙ contains-keys k m

  -- The slice lists the values of a map's keys, each key once, in the ascending order of the keys.
  pub map_to_sorted_slice-IsSorted :
      (m : GoMap V)
      → Distinct m
      → (ks : List String) × Ascending ks
        × ((k : String) → contains k ks ≡ is_some (lookup k m))
        × (map some (map_to_sorted_slice m) ≡ map (λ k. lookup k m) ks)
  unfolding map_to_sorted_slice
  map_to_sorted_slice-IsSorted m d = (
    sort_keys (keys m),
    sort_keys-Ascending m d,
    sort_keys-keys m,
    map-values_of m (sort_keys (keys m))
        (All-of_contains (sort_keys (keys m)) (λ k h. sym (sort_keys-keys m k) ∙ h)),
  )

  -- Two maps with the same contents give the same slice, in whatever order Go iterates over them.
  pub map_to_sorted_slice_congr :
      (m n : GoMap V)
      → Distinct m
      → Distinct n
      → ((k : String) → lookup k m ≡ lookup k n)
      → map_to_sorted_slice m ≡ map_to_sorted_slice n
  unfolding map_to_sorted_slice
  map_to_sorted_slice_congr m n d e h =
      rw
        (Ascending-unique (sort_keys (keys m)) (sort_keys (keys n)) (sort_keys-Ascending m d)
          (sort_keys-Ascending n e)
          (λ k. sort_keys-keys m k ∙ ap is_some (h k) ∙ sym (sort_keys-keys n k)))
        (values_of_congr m n (sort_keys (keys n)) h)
