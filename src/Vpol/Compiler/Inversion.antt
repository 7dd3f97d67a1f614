-- ===== src/Vpol/Compiler/Inversion.antt =====
-- What an accepted result says of the steps that made it, for the compiler's loops and tests.
use kyverno_http_authorizer.Base.{
  ℕ, suc, List, [], ◌∷◌, ◌≡◌, refl, subst, Bool, true, false, ◌⊎◌, inl, inr, Error,
}
use kyverno_http_authorizer.Vpol.Compiler.{
  Checked, accepted, rejected, ◌>>=◌, or_reject, require, FieldError, compile_each,
}

pub bind-accepted :
    {A B : Type 0} (m : Checked A) (f : A → Checked B) {b : B}
    → (m >>= f) ≡ accepted b
    → (a : A) × (m ≡ accepted a) × (f a ≡ accepted b)
bind-accepted (accepted a) f h = (a, refl, h)
bind-accepted (rejected es) f h = cc

pub accepted-injective : {A : Type 0} {a b : A} → accepted a ≡ accepted b → a ≡ b
accepted-injective h = cc

pub or_reject-accepted :
    {A : Type 0} (at : Error → FieldError) (r : Error ⊎ A) {a : A}
    → or_reject at r ≡ accepted a
    → r ≡ inr a
or_reject-accepted at (inl e) h = cc
or_reject-accepted at (inr b) h = cc

pub require-accepted :
    (b : Bool) (e : FieldError) {u : Unit {0}} → require b e ≡ accepted u → b ≡ true
require-accepted true e h = refl
require-accepted false e h = cc

-- Two lists of the same length, related place by place.
abbrev pub All₂ : {A B : Type 0} → (A → B → Type 0) → List A → List B → Type 0
All₂ P [] [] = Unit
All₂ P [] (b ∷ bs) = ⊥
All₂ P (a ∷ rest) [] = ⊥
All₂ P (a ∷ rest) (b ∷ bs) = P a b × All₂ P rest bs

module _ {A B : Type 0} (f : ℕ → A → Checked B) (P : A → B → Type 0) where
  pub compile_each_sound :
      ((i : ℕ) (a : A) (b : B) → f i a ≡ accepted b → P a b)
      → (i : ℕ) (xs : List A) (bs : List B) → compile_each f i xs ≡ accepted bs
      → All₂ P xs bs
  unfolding compile_each
  compile_each_sound sound i [] [] h = tt
  compile_each_sound sound i [] (b ∷ bs) h = cc
  compile_each_sound sound i (a ∷ xs) bs h =
      let (b, c, h1) = bind-accepted (f i a) _ h in
      let (cs, d, h2) = bind-accepted (compile_each f (suc i) xs) _ h1 in
      subst (All₂ P (a ∷ xs)) (accepted-injective h2)
        (sound i a b c, compile_each_sound sound (suc i) xs cs d)

  pub compile_each_complete :
      ((i : ℕ) (a : A) (b : B) → P a b → f i a ≡ accepted b)
      → (i : ℕ) (xs : List A) (bs : List B) → All₂ P xs bs
      → compile_each f i xs ≡ accepted bs
  unfolding compile_each
  compile_each_complete complete i [] [] a = refl
  compile_each_complete complete i [] (b ∷ bs) a = absurd a
  compile_each_complete complete i (x ∷ xs) [] a = absurd a
  compile_each_complete complete i (x ∷ xs) (b ∷ bs) a =
      rw (complete i x b a.0) (rw (compile_each_complete complete (suc i) xs bs a.1))
