-- ===== src/Tests/Replies.antt =====
-- The theorems on the standalone server as a whole, at a directory with one policy.
use mathlib.Core.List.{flatten}
use kyverno_http_authorizer.Base.{
  String, some, none, List, [], ◌∷◌, ◌++◌, map, ◌≡◌, refl, false, Result, ok, err, is_some,
  traverse,
}
use kyverno_http_authorizer.Http.{new_request}
use kyverno_http_authorizer.Engine.{CompiledPolicy, Provider, RequestFunc}
use kyverno_http_authorizer.Writer.{fresh}
use kyverno_http_authorizer.Authorizer.{handle}
use kyverno_http_authorizer.Authorizer.Decision.{Decided, finished, respond}
use kyverno_http_authorizer.FsProvider.{Entry, compile_all, load_all}
use kyverno_http_authorizer.Reconcile.{Fetched, found}
use kyverno_http_authorizer.Reconcile.Standalone.{enforced}
use kyverno_http_authorizer.Stream.Sorted.{Ascending, contains}
use kyverno_http_authorizer.Vpol.Policy.{CompiledVpol, as_compiled_policy}
use kyverno_http_authorizer.Vpol.Compiler.{compile_policy}
use kyverno_http_authorizer.Commands.Replies.{
  reconciler, setup, standalone_setup-Decided, standalone_setup-err,
}
use kyverno_http_authorizer.Commands.Directories.{files}
use kyverno_http_authorizer.Commands.Standalone.{setup_of}
use kyverno_http_authorizer.Tests.Data.{
  Script, scripts, script_env, deny_all, get_request, checked_request, no_nested,
}
use kyverno_http_authorizer.Tests.Files.{formats, directory}
use kyverno_http_authorizer.Tests.Setups.{cluster, look, sources}
use kyverno_http_authorizer.Tests.Serving.{no_change}

abbrev as_policy : CompiledVpol Script → CompiledPolicy Unit
as_policy = as_compiled_policy scripts

abbrev read_dir : String → Result (List (Entry String))
read_dir fsys = ok directory

abbrev unreadable : String → Result (List (Entry String))
unreadable fsys = err "no such directory"

abbrev history : Unit {0} → List (String × Fetched)
history mgr = ("deny-all", found deny_all) ∷ []

abbrev provided : List (CompiledVpol Script) → List (CompiledPolicy Unit)
provided pols =
    map as_policy (compile_all formats (compile_policy script_env) (deny_all ∷ []) ++ pols)

standalone_setup-Decided_example :
    (provider : Provider Unit) × ((setup as_policy formats
        (compile_policy script_env)
        read_dir
        cluster
        look
        history
        sources).served
      ≡ some provider)
    × (pols : List (CompiledVpol Script)) × (ks : List String) × Ascending ks
    × ((k : String)
        → contains k ks ≡ is_some (enforced (compile_policy script_env) k (history tt) none))
    × (map some pols ≡ map (λ k. enforced (compile_policy script_env) k (history tt) none) ks)
    × (o : RequestFunc) × Decided tt checked_request (provided pols) o
    × (finished (handle no_change tt provider no_nested false get_request fresh)
        ≡ respond no_change o)
unfolding new_request load_all traverse flatten
standalone_setup-Decided_example =
    standalone_setup-Decided as_policy formats (compile_policy script_env) read_dir cluster look
      history no_change tt no_nested sources ("file:///policies" ∷ []) tt ((deny_all ∷ []) ∷ [])
      false get_request get_request checked_request
      (
        tt,
        tt,
        refl,
        refl,
        refl,
        (tt, record { installed = refl; made = refl; completed = refl; synced = refl }, refl),
      )
      refl refl refl

standalone_setup-err_example :
    (provider : Provider Unit) × ((setup_of cluster look
        (files as_policy formats (compile_policy script_env) unreadable)
        (reconciler as_policy (compile_policy script_env) history)
        false
        sources).served
      ≡ some provider)
    × (finished (handle no_change tt provider no_nested false get_request fresh)
        ≡ ok (record { code = 500; fields = []; text = "no such directory" }))
unfolding load_all traverse
standalone_setup-err_example =
    standalone_setup-err as_policy formats (compile_policy script_env) unreadable cluster look
      history no_change tt no_nested false sources ("file:///policies" ∷ []) [] "no such directory"
      false get_request get_request (tt, tt, refl, refl, refl, refl) refl refl
