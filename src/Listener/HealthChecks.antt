-- ===== src/Listener/HealthChecks.antt =====
-- pkg/stream/listener/listener.go: the goroutine that sends health checks.
use kyverno_http_authorizer.Base.{ℕ, some, List, [], ◌∷◌}
use kyverno_http_authorizer.Proto
use kyverno_http_authorizer.Sender.Monitor.{Wakeup, done, elapsed}
use kyverno_http_authorizer.Listener.{PolicyListener}

-- The request of a health check at a time.
abbrev pub health_check_request : {V : Type 0} → PolicyListener V → ℕ → Proto.HealthCheckRequest
health_check_request l now = record { client_address = l.client_addr; time = some now }

-- sendHealthChecks over what ends its waits: what it sends. The result of a call is not read.
unfoldable pub send_health_checks :
    {V : Type 0} → PolicyListener V → List Wakeup → List Proto.HealthCheckRequest
send_health_checks l [] = []
send_health_checks l (done ∷ ws) = []
send_health_checks l (elapsed now ∷ ws) = health_check_request l now ∷ send_health_checks l ws
