-- ===== src/Lib.antt =====
-- kyverno-http-authorizer: an authorization service for HTTP. A ValidatingPolicy of mode HTTP holds CEL
-- expressions; the service compiles them, asks the compiled policies about each request, and answers
-- with the first response that one of them gives.
--
-- The parts and the files that model them:
-- - Policy, Proto: the resource and the messages on the wire (pkg/data/crds,
--   proto/validatingpolicy/v1alpha1/validatingpolicy.pb.go). Api: ToProto and FromProto
--   (apis/v1alpha1/validating_policy.go).
-- - Vpol.Compiler: Compile (pkg/engine/vpol/compiler/compiler.go), with the type provider of
--   Cel.Variables (pkg/cel/variables.go). Its children Inversion, Spec, Sent and Located hold the proofs.
--   Cel.Environment: the environment that policies are compiled in (pkg/cel/env.go, the extensions of the
--   compiler, and the CompileOptions of the libraries); its children Declares and Libraries hold the proofs.
-- - Vpol.Policy: ForHTTP and evaluateHTTP (pkg/engine/vpol/compiler/policy.go); the proofs are in
--   Vpol.Match, Vpol.Rules and Vpol.Failure. What these use of cel-go is in Vpol.Runtime.
-- - Engine: the interfaces of pkg/engine and the composite provider (pkg/engine/providers/composite.go).
-- - FsProvider: policies from files (pkg/engine/providers/fs.go), with its default loader and the embedded
--   definitions (pkg/data).
-- - Authorizer: NewHandler (pkg/httpauth/handlers.go), over the types of Http
--   (pkg/cel/libs/http/types.go) and the response writer of Writer.
-- - Stream: MapToSortedSlice (pkg/stream/common.go), and in Stream.Unordered the maps of policies up to the
--   order of iteration, as a quotient. Once, PolicyStore: the map of policies with its
--   cached sorted slice, as the standalone reconciler and the listener keep it.
-- - Sender: PolicySender (pkg/stream/sender/sender.go), the control plane's side of the policy stream;
--   Sender.Monitor is the monitor that drops silent clients.
-- - Reconcile: the reconcilers of the standalone server and of the control plane
--   (pkg/engine/vpol/provider/standalone.go and mesh.go). Reconcile.Calls has what a sequence of changes
--   announces.
-- - Listener: PolicyListener (pkg/stream/listener/listener.go), a sidecar's side of the stream.
--   Listener.Announce has its loop, Listener.Interleaving its goroutines, Listener.Mesh the way of a
--   policy from the control plane's reconciler to a sidecar, Listener.Joining and its helper
--   Listener.Slices a sidecar that connects late, Listener.Converting, Listener.Order and
--   Listener.Abstract what a sidecar provides after a sequence of messages, Listener.Agreement,
--   Listener.Histories and Listener.Late a sidecar beside a standalone server, Listener.Admitted the
--   webhook, the control plane and a sidecar, and Listener.HealthChecks and Listener.Alive its health
--   checks and the sender's monitor.
-- - Validator: the validation webhook (pkg/webhook/validation/validator.go). Sidecar: the container that
--   is injected into pods, and its injection (pkg/sidecar/sidecar.go).
-- - Http.Functions: the CEL functions on headers and responses (pkg/cel/libs/http/impl.go), over a heap.
--   Http.Library: their table of overloads (pkg/cel/libs/http/lib.go), in the words of Cel.Overloads.
-- - Jwt: jwt.Decode and jwks.Fetch (pkg/cel/libs/jwt/impl.go, pkg/cel/libs/jwk/impl.go), with the proofs
--   in Jwt.Claims and Jwt.Decoding, and in Jwt.Library the overloads of both.
-- - Server: what the servers return (pkg/server, pkg/authz) and the loops of the commands around them.
-- - Commands: the set-up of the commands (pkg/commands/serve), the goroutines that they start, and the error
--   that they return. Commands.Flags has their flags, and those that the injected sidecar is given,
--   Commands.Directories the policies of the external sources, and Commands.Replies the standalone
--   server from its set-up to its replies. Commands.Webhook has the set-up of the validation webhook.
-- - Shutdown: the deferred calls of the functions that wait for goroutines (pkg/signals, RunHttp, and the
--   set-up of the commands).
-- - Server.Routes: the HTTP servers with the handlers they register (pkg/probes, pkg/httpauth/server.go,
--   pkg/webhook/mutation). ResourceContext: pkg/cel/ctxprovider, and pkg/engine/variables,
--   which nothing uses.
-- - Admission: the admission handlers (pkg/server/handlers/admission.go) and the mutation webhook's
--   handler (pkg/webhook/mutation/sidecar-injector.go).
-- - Base, GoMap: shared names, results that may panic, and Go's maps. Tests: data and examples.
--
-- How they interact: the control plane's reconciler stores and deletes policies in the sender, which
-- sends them to the sidecars that have opened a stream; a sidecar converts and compiles what it
-- receives. The standalone server compiles what its own reconciler fetches. Either way the handler asks
-- the compiled policies through a provider.
--
-- Conventions: a Go map is an association list whose order stands for the order of iteration; a
-- pointer is an Option; a call that may return an error or panic has a Result with both outcomes. A
-- goroutine that holds a lock for the whole of an operation is one step. SendPolicy and the listener's
-- deletions, which do not, have step relations, and so have the deferred calls. A request on a stream of
-- the control plane is two steps: it reads the policies without a lock, which is taken to be one step,
-- and then registers the stream under one. Loops are structural recursion, but for the loops of the
-- commands around their servers: these run on fuel over the rounds that they meet. Around a server two
-- units are enough, for its loop calls it at most once, and around the connection to the control plane
-- one more than the rounds before the context is done (Server.Loops).
--
-- Parameters: cel-go (Vpol.Runtime.Runtime, Vpol.Compiler.CelEnv and Cel.Environment.CelGo) and the
-- conversions of its values (an int converts to Go's if it has 32 bits), what ListenAndServe and Shutdown of
-- net/http return (Server.Loops.IsServer), the retries of the back-off library, multierr.Combine, the
-- canonical form of a header's key, http.ReadRequest, the file system and the loader of resources, JSON
-- and its patches, jwx and structpb (Jwt.Jose), client-go and controller-runtime (Commands.Cluster), and
-- what the Kubernetes client returns. Times are numbers of nanoseconds, and keys of maps are strings
-- ordered by their code points, which is the order of their bytes in UTF-8.
--
-- Not modelled: sockets, TLS settings and which signals cancel the context; the parsing of flags by
-- cobra, and the routing of requests by net/http's mux; generated code; the waits of the back-off
-- library, and those of the commands' loops.
pub mod Base
pub mod GoMap
pub mod Policy
pub mod Proto
pub mod Api
pub mod Http
pub mod Writer
pub mod Engine
pub mod Authorizer
pub mod Cel
pub mod Vpol
pub mod Sender
pub mod Reconcile
pub mod Stream
pub mod Once
pub mod PolicyStore
pub mod Tests
pub mod Listener
pub mod Validator
pub mod Sidecar
pub mod Admission
pub mod FsProvider
pub mod Server
pub mod Jwt
pub mod Commands
pub mod ResourceContext
pub mod Shutdown
