-- ===== src/Engine.antt =====
-- pkg/engine: what a compiled policy and a provider of policies are, and the composite provider.
-- `R` is the context through which policies read Kubernetes resources.
pub mod Composite
use kyverno_http_authorizer.Base.{Option, List, [], ◌∷◌, ◌++◌, Result, ok, err, panic, ◌>>=◌}
use kyverno_http_authorizer.Http.{Request, Response}

-- RequestFunc: what the call returns. The program calls each one once.
abbrev pub RequestFunc : Type 0
RequestFunc = Result (Option Response)

pub record CompiledPolicy (R : Type 0) : Type 0 where
  pub for_http : R → Request → RequestFunc

-- A provider, by what its CompiledPolicies returns.
abbrev pub Provider : Type 0 → Type 0
Provider R = Result (List (CompiledPolicy R))

-- The loop of composite.CompiledPolicies; `out` holds the policies of the providers before.
unfoldable pub collect : {R : Type 0} → List (CompiledPolicy R) → List (Provider R) → Provider R
collect out [] = ok out
collect out (provider ∷ rest) = do c ← provider; collect (out ++ c) rest

unfoldable pub composite : {R : Type 0} → List (Provider R) → Provider R
unfolding collect
composite p = collect [] p
