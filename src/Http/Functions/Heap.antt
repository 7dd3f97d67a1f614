-- ===== src/Http/Functions/Heap.antt =====
-- Loads from a heap that was changed or that has grown.
use kyverno_http_authorizer.Base.{
  ℕ, zero, suc, none, some, [], ◌∷◌, ◌++◌, ◌≡◌, ◌≢◌, refl, ap, length, sym, ◌⊎◌, inl, inr,
}
use kyverno_http_authorizer.Http.{Response}
use kyverno_http_authorizer.Http.Functions.{Heap, load, modify}

pub load-modify :
    (f : Response → Response) (p : ℕ) (heap : Heap) (x : Response)
    → load p heap ≡ some x
    → load p (modify f p heap) ≡ some (f x)
unfolding load modify
load-modify f p [] x h = cc
load-modify f zero (r ∷ heap) x h = ap (λ o. elim o [ none ↦ none | some y ↦ some (f y) ]) h
load-modify f (suc p) (r ∷ heap) x h = load-modify f p heap x h

pub load-modify_ne :
    (f : Response → Response) (p q : ℕ) (heap : Heap)
    → q ≢ p
    → load q (modify f p heap) ≡ load q heap
unfolding load modify
load-modify_ne f p q [] n = refl
load-modify_ne f zero zero (r ∷ heap) n = absurd (n refl)
load-modify_ne f zero (suc q) (r ∷ heap) n = refl
load-modify_ne f (suc p) zero (r ∷ heap) n = refl
load-modify_ne f (suc p) (suc q) (r ∷ heap) n = load-modify_ne f p q heap (λ e. n (ap suc e))

pub load-append : (heap : Heap) (x : Response) → load (length heap) (heap ++ x ∷ []) ≡ some x
unfolding load
load-append [] x = refl
load-append (r ∷ heap) x = load-append heap x

pub modify-append :
    (f : Response → Response) (heap : Heap) (x : Response)
    → modify f (length heap) (heap ++ x ∷ []) ≡ heap ++ f x ∷ []
unfolding modify
modify-append f [] x = refl
modify-append f (r ∷ heap) x = ap (λ rest. r ∷ rest) (modify-append f heap x)

module _ (y : Response) where
  pub modify_loaded :
      (p q : ℕ) (heap : Heap) (x : Response)
      → load q heap ≡ some x
      → (z : Response) × (load q (modify (λ r. y) p heap) ≡ some z)
  unfolding load modify
  modify_loaded p q [] x h = (x, h)
  modify_loaded zero zero (r ∷ heap) x h = (y, refl)
  modify_loaded zero (suc q) (r ∷ heap) x h = (x, h)
  modify_loaded (suc p) zero (r ∷ heap) x h = (x, h)
  modify_loaded (suc p) (suc q) (r ∷ heap) x h = modify_loaded p q heap x h

  pub loaded_modify :
      (p q : ℕ) (heap : Heap) (z : Response)
      → load q (modify (λ r. y) p heap) ≡ some z
      → (load q heap ≡ some z) ⊎ (some z ≡ some y)
  unfolding load modify
  loaded_modify p q [] z h = inl h
  loaded_modify zero zero (r ∷ heap) z h = inr (sym h)
  loaded_modify zero (suc q) (r ∷ heap) z h = inl h
  loaded_modify (suc p) zero (r ∷ heap) z h = inl h
  loaded_modify (suc p) (suc q) (r ∷ heap) z h = loaded_modify p q heap z h

  pub append_loaded :
      (q : ℕ) (heap : Heap) (x : Response) → load q heap ≡ some x → load q (heap ++ y ∷ []) ≡ some x
  unfolding load
  append_loaded q [] x h = cc
  append_loaded zero (r ∷ heap) x h = h
  append_loaded (suc q) (r ∷ heap) x h = append_loaded q heap x h

  pub loaded_append :
      (q : ℕ) (heap : Heap) (z : Response)
      → load q (heap ++ y ∷ []) ≡ some z
      → (load q heap ≡ some z) ⊎ (some z ≡ some y)
  unfolding load
  loaded_append zero [] z h = inr (sym h)
  loaded_append (suc q) [] z h = inl h
  loaded_append zero (r ∷ heap) z h = inl h
  loaded_append (suc q) (r ∷ heap) z h = loaded_append q heap z h
