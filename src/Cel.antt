-- ===== src/Cel.antt =====
-- pkg/cel/utils/convert.go, and pkg/cel/variables.go in the child module.
pub mod Variables
pub mod Overloads
pub mod Environment
use kyverno_http_authorizer.Base.{Option, Result, ok, ◌>>=◌, deref}

-- ConvertToNative: `converted` is what value.ConvertToNative returns for the type, and `assert` the
-- type assertion on it, which panics where it fails.
abbrev pub convert_to_native : {A T : Type 0} → Result A → (A → Option T) → Result T
convert_to_native converted assert = do response ← converted; deref (assert response)
