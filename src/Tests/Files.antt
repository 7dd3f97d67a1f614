-- ===== src/Tests/Files.antt =====
-- The theorem on the file provider, at a concrete directory.
use kyverno_http_authorizer.Base.{
  String, List, [], ◌∷◌, ◌≡◌, ◌↔◌, refl, Bool, true, false, Result, ok, err, ◌==◌, if◌then◌else◌,
}
use kyverno_http_authorizer.FsProvider.{Entry, Formats, load_all, fs_policies}
use kyverno_http_authorizer.FsProvider.Loading.{Loaded, load_all_iff}
use kyverno_http_authorizer.Vpol.Compiler.{compile_policy}
use kyverno_http_authorizer.Tests.Data.{script_env, deny_all, compiled_deny_all}

-- A document is a name: a policy, another resource, or text that does not load.
abbrev pub load_name : Unit {0} → String → Result (Bool × String)
load_name ldr name =
    if name == "garbage"
    then err "not YAML"
    else (if name == "service" then ok (false, "service") else ok (true, name))

abbrev pub formats : Formats
formats = record {
  Bytes = String;
  Loader = Unit;
  Kind = Bool;
  Untyped = String;
  is_yaml = λ name. name == "policies.yaml";
  split_documents = λ bytes. ok ("garbage" ∷ bytes ∷ "service" ∷ []);
  Dir = Unit;
  crds_fs = tt;
  sub = λ fs dir. ok tt;
  new_loader = λ fs. ok tt;
  load = load_name;
  is_vpol = λ kind. kind;
  convert = λ untyped. ok deny_all;
}

abbrev pub directory : List (Entry String)
directory =
    record { name = "README.md"; is_dir = false; content = err "permission denied" }
    ∷ record { name = "policies.yaml"; is_dir = false; content = ok "deny-all" }
    ∷ []

one_policy :
    fs_policies formats (compile_policy script_env) (ok directory) ≡ ok (compiled_deny_all ∷ [])
unfolding fs_policies compile_policy
one_policy = refl

load_all_iff_example :
    (load_all formats (ok directory) ≡ ok (deny_all ∷ []))
    ↔ ((es : List (Entry String)) × (ok directory ≡ ok es) × Loaded formats es (deny_all ∷ []))
load_all_iff_example = load_all_iff formats (ok directory) (deny_all ∷ [])
