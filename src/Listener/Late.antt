-- ===== src/Listener/Late.antt =====
-- A sidecar that connects between two reconciliations, and a standalone server that had both histories.
use kyverno_http_authorizer.Policy
use kyverno_http_authorizer.Proto
use kyverno_http_authorizer.PolicyStore.{PolicyStore}
use kyverno_http_authorizer.Vpol.Compiler.{CelEnv, Checked, compile_policy}
use kyverno_http_authorizer.Vpol.Policy.{CompiledVpol}

module _ (cel : CelEnv) where
  open cel use {Program, get_failure_policy}

  abbrev compile_vpol : Policy.ValidatingPolicy → Checked (CompiledVpol Program)
  compile_vpol = compile_policy cel
