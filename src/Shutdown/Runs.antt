-- ===== src/Shutdown/Runs.antt =====
-- The runs of deferred calls and of goroutines that end: how long they are, and when none of them is stuck.
use kyverno_http_authorizer.Base.{
  ℕ, suc, ◌+◌, List, [], ◌∷◌, ◌≡◌, refl, sym, ap, ◌∙◌, true, length, ◌⊎◌, inl, inr, arith, zero,
}
use kyverno_http_authorizer.Shutdown.{Deferred, cancel, wait, Exit, ExitStep, cancels, waits, ends}

-- The steps of a run.
pub data Run (s : Exit) : ℕ → Exit → Type 0 where
  start : Run s 0 s
  next : {n : ℕ} {t u : Exit} → Run s n t → ExitStep t u → Run s (suc n) u

abbrev pub steps_left : Exit → ℕ
steps_left s = length s.deferred + s.running

-- No wait can block: the context is cancelled, or is so next, or no goroutine is running.
abbrev pub Safe : Exit → Type 0
Safe s =
    (s.cancelled ≡ true) ⊎ (s.running ≡ 0) ⊎ ((rest : List Deferred) × (s.deferred ≡ cancel ∷ rest))

abbrev pub Proceeds : Exit → Type 0
Proceeds s = (s.deferred ≡ []) ⊎ ((t : Exit) × ExitStep s t)

ExitStep-Safe : {s t : Exit} → ExitStep s t → Safe t
ExitStep-Safe (cancels rest d e) = inl (ap (λ (x : Exit). x.cancelled) e)
ExitStep-Safe (waits rest d r e) = inr (inl (ap (λ (x : Exit). x.running) e ∙ r))
ExitStep-Safe (ends n r c e) = inl (ap (λ (x : Exit). x.cancelled) e ∙ c)

steps_left-ExitStep : {s t : Exit} → ExitStep s t → steps_left s ≡ suc (steps_left t)
steps_left-ExitStep {s} {t} (cancels rest d e) =
    let r : t.running ≡ s.running = ap (λ (x : Exit). x.running) e in
    let l : length t.deferred ≡ length rest = ap (λ (x : Exit). length x.deferred) e in
    omega (arith, ap length d, l, r)
steps_left-ExitStep {s} {t} (waits rest d z e) =
    let r : t.running ≡ s.running = ap (λ (x : Exit). x.running) e in
    let l : length t.deferred ≡ length rest = ap (λ (x : Exit). length x.deferred) e in
    omega (arith, ap length d, l, r)
steps_left-ExitStep {s} {t} (ends n r c e) =
    let m : t.running ≡ n = ap (λ (x : Exit). x.running) e in
    let l : length t.deferred ≡ length s.deferred = ap (λ (x : Exit). length x.deferred) e in
    omega (arith, l, m, r)

running_cases : (n : ℕ) → (n ≡ 0) ⊎ ((m : ℕ) × (n ≡ suc m))
running_cases zero = inl refl
running_cases (suc m) = inr (m, refl)

no_cancel : (rest others : List Deferred) → wait ∷ rest ≡ cancel ∷ others → ⊥
no_cancel rest others e = cc

cancelled_first :
    (s : Exit) (rest : List Deferred) (m : ℕ)
    → s.deferred ≡ wait ∷ rest
    → s.running ≡ suc m
    → Safe s
    → s.cancelled ≡ true
cancelled_first s rest m d r (inl c) = c
cancelled_first s rest m d r (inr (inl z)) = absurd (ground (arith, r, z))
cancelled_first s rest m d r (inr (inr (others, q))) = absurd (no_cancel rest others (sym d ∙ q))

pub Safe-Proceeds : (s : Exit) (ds : List Deferred) → s.deferred ≡ ds → Safe s → Proceeds s
Safe-Proceeds s [] d safe = inl d
Safe-Proceeds s (cancel ∷ rest) d safe = inr (_, cancels rest d refl)
Safe-Proceeds s (wait ∷ rest) d safe = elim (running_cases s.running) [
  | inl r ↦ inr (_, waits rest d r refl)
  | inr (m, r) ↦ inr (_, ends m r (cancelled_first s rest m d r safe) refl)
]

pub Run-Safe : {s t : Exit} {n : ℕ} → Safe s → Run s n t → Safe t
Run-Safe safe start = safe
Run-Safe safe (next r e) = ExitStep-Safe e

pub Run-steps_left : {s t : Exit} {n : ℕ} → Run s n t → n + steps_left t ≡ steps_left s
Run-steps_left start = omega arith
Run-steps_left (next r e) = omega (arith, Run-steps_left r, steps_left-ExitStep e)
