-- ===== src/Stream/Unordered.antt =====
-- What a Go map is to the code that sorts it: its contents, whatever the order of iteration. Maps with
-- the same contents are equal in a quotient, and the sorted slice is a function on it.
use mathlib.Core.Quot
use mathlib.Core.Quot.{Quot, Quot-set}
use mathlib.Core.List
use kyverno_http_authorizer.Base.{String, List, [], ◌≡◌, refl, sym, ◌∙◌}
use kyverno_http_authorizer.GoMap.{GoMap, lookup, insert, delete, Distinct}
use kyverno_http_authorizer.GoMap.Laws.{
  lookup-insert, lookup-delete, insert-Distinct, delete-Distinct,
}
use kyverno_http_authorizer.Stream.{map_to_sorted_slice}
use kyverno_http_authorizer.Stream.Sorted.{map_to_sorted_slice_congr}

-- An association list whose keys are distinct.
abbrev pub Entries : Type 0 → Type 0
Entries V = (m : GoMap V) × Distinct m

abbrev pub SameContents : {V : Type 0} → Entries V → Entries V → Type 0
SameContents m n = (k : String) → lookup k m.0 ≡ lookup k n.0

abbrev pub Contents : Type 0 → Type 0
Contents V = Quot (SameContents {V = V})

module _ {V : Type 0} where
  abbrev pub contents : (m : GoMap V) → Distinct m → Contents V
  contents m d = Quot.mk (m, d)

  -- That the keys are distinct is no part of the contents.
  pub contents_congr : (m : GoMap V) (d e : Distinct m) → contents m d ≡ contents m e
  contents_congr m d e = Quot.sound (λ k. refl)

  abbrev pub nothing : Contents V
  nothing = contents [] tt

  unfoldable pub bind : String → V → Contents V → Contents V
  bind k v =
      Quot.lift Quot-set
        (λ (m : Entries V). contents (insert k v m.0) (insert-Distinct k v m.0 m.1))
        (λ m n h.
          Quot.sound (λ j. lookup-insert k j v m.0 ∙ rw (h j) (sym (lookup-insert k j v n.0))))

  unfoldable pub unbind : String → Contents V → Contents V
  unbind k =
      Quot.lift Quot-set (λ (m : Entries V). contents (delete k m.0) (delete-Distinct k m.0 m.1))
        (λ m n h. Quot.sound (λ j. lookup-delete k j m.0 ∙ rw (h j) (sym (lookup-delete k j n.0))))

  unfoldable pub sorted : IsSet V → Contents V → List V
  sorted set =
      Quot.lift (List.is_set set) (λ (m : Entries V). map_to_sorted_slice m.0)
        (λ m n h. map_to_sorted_slice_congr m.0 n.0 m.1 n.1 h)
