-- ===== src/Server/Routes.antt =====
-- The HTTP servers of the program, with the handlers that they register: pkg/probes/server.go,
-- pkg/httpauth/server.go and pkg/webhook/mutation/sidecar-injector.go; and pkg/server/handlers for the probes.
use kyverno_http_authorizer.Base.{
  ℕ, pos, String, Option, List, [], ◌∷◌, ◌≡◌, refl, Bool, true, not, Result, ok, Error, ◌⊎◌,
  if◌then◌else◌, All,
}
use kyverno_http_authorizer.Http.{ServerRequest}
use kyverno_http_authorizer.Writer.{Writer, fresh, finish, write_header}
use kyverno_http_authorizer.Sidecar.{Pod, sidecar}
use kyverno_http_authorizer.Admission.{AdmissionRequest, AdmissionResponse, mutate_nilable}
use kyverno_http_authorizer.Server.{Errors, Transport, run_http}

-- http.HandlerFunc
abbrev pub Handler : Type 0
Handler = ServerRequest → Writer → Result Writer

-- True of pkg/probes.
abbrev always : Unit {0} → Bool
always u = true

-- Healthy
unfoldable healthy : (Unit {0} → Bool) → Handler
unfolding write_header
healthy f r w = write_header (if not (f tt) then pos 500 else pos 200) w

-- Ready
unfoldable ready : (Unit {0} → Bool) → Handler
unfolding write_header
ready f r w = write_header (if not (f tt) then pos 500 else pos 200) w

-- A server: its address, the patterns of its mux with their handlers, and the files of its certificate; the
-- timeouts of reading a request, of reading its header, of writing and of idling are in seconds, 0 for none.
pub record HttpServer : Type 0 where
  pub addr : String
  pub mux : List (String × Handler)
  pub cert_file : String
  pub key_file : String
  pub read_timeout : ℕ
  pub read_header_timeout : ℕ
  pub write_timeout : ℕ
  pub idle_timeout : ℕ

abbrev plain_server : String → List (String × Handler) → HttpServer
plain_server addr mux = record {
  addr = addr;
  mux = mux;
  cert_file = "";
  key_file = "";
  read_timeout = 0;
  read_header_timeout = 0;
  write_timeout = 0;
  idle_timeout = 0;
}

abbrev probe_routes : List (String × Handler)
probe_routes = ("GET /livez", healthy always) ∷ ("GET /readyz", ready always) ∷ []

-- NewServer of pkg/probes
unfoldable probes_server : String → HttpServer
unfolding healthy ready
probes_server addr = plain_server addr probe_routes

-- NewServer of pkg/httpauth
unfoldable auth_server : String → Handler → HttpServer
auth_server addr handler = plain_server addr (("POST /", handler) ∷ [])

module _ {Bytes Op X : Type 0} (marshal_patch : List Op → Error ⊎ Bytes)
    (unmarshal_pod : Bytes → Error ⊎ Pod X) (marshal_pod : Pod X → Error ⊎ Bytes)
    (create_patch : Bytes → Bytes → Error ⊎ List Op) where
  -- NewSidecarInjectorServer: `admission` is AdmissionReview, as a handler.
  unfoldable sidecar_injector_server :
      ((Option (AdmissionRequest Bytes) → Option (AdmissionResponse Bytes)) → Handler)
      → (addr image control_plane_addr cert_file key_file reconnect_wait max_dial_interval
          health_check_interval : String)
      → HttpServer
  unfolding healthy ready
  sidecar_injector_server admission addr image control_plane_addr cert_file key_file reconnect_wait
        max_dial_interval health_check_interval =
      record {
        addr = addr;
        mux =
            ("GET /livez", healthy always)
            ∷ ("GET /readyz", ready always)
            ∷ (
              "/mutate",
              admission (
                  mutate_nilable marshal_patch unmarshal_pod marshal_pod create_patch (
                    sidecar image control_plane_addr reconnect_wait max_dial_interval
                      health_check_interval)),
            )
            ∷ [];
        cert_file = cert_file;
        key_file = key_file;
        read_timeout = 30;
        read_header_timeout = 30;
        write_timeout = 30;
        idle_timeout = 300;
      }

-- What the run of a server returns.
unfoldable run_server :
    (errors : Errors)
    → HttpServer
    → (cancelled : Bool) → (Bool → Transport → Option (errors.E))
    → Option (errors.E)
    → Option (errors.E)
unfolding run_http
run_server errors s cancelled serve shutdown =
    run_http errors s.cert_file s.key_file cancelled serve shutdown

-- Each probe answers 200, whatever the request.
probes_server-replies :
    (addr : String) (r : ServerRequest)
    → All
        (λ (route : String × Handler).
          (w : Writer) × (route.1 r fresh ≡ ok w) × ((finish w).code ≡ 200))
        (probes_server addr).mux
unfolding probes_server finish
probes_server-replies addr r = ((_, refl, refl), ((_, refl, refl), tt))
