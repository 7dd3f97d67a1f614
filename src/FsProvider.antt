-- ===== src/FsProvider.antt =====
-- pkg/engine/providers/fs.go: policies from the files of a directory. The file system, the splitting of
-- YAML, the loader of resources and their conversion are parameters.
pub mod Loading
use Prim.Native.String
use kyverno_http_authorizer.Base.{
  String, Option, none, some, List, [], ◌∷◌, ◌++◌, Bool, not, ◌||◌, Error, Result, ok, err, panic,
  ◌>>=◌, if◌then◌else◌,
}
use kyverno_http_authorizer.Policy
use kyverno_http_authorizer.Vpol.Compiler.{Checked, accepted, rejected}

-- An entry of the directory, and what fs.ReadFile returns on it.
pub record Entry (Bytes : Type 0) : Type 0 where
  pub name : String
  pub is_dir : Bool
  pub content : Result Bytes

pub record Formats : Type 1 where
  pub Bytes : Type 0
  pub Loader : Type 0
  pub Kind : Type 0
  pub Untyped : Type 0
  pub is_yaml : String → Bool
  pub split_documents : Bytes → Result (List Bytes)
  -- The folder that pkg/data embeds, fs.Sub, and loader.New on the local CRD files of a file system.
  pub Dir : Type 0
  pub crds_fs : Dir
  pub sub : Dir → String → Result Dir
  pub new_loader : Dir → Result Loader
  pub load : Loader → Bytes → Result (Kind × Untyped)
  -- Whether a kind is that of a ValidatingPolicy.
  pub is_vpol : Kind → Bool
  pub convert : Untyped → Result Policy.ValidatingPolicy

-- fmt.Errorf with a prefix.
abbrev pub wrapped : {A : Type 0} → String → Result A → Result A
wrapped prefix (ok a) = ok a
wrapped prefix (err e) = err (String.◌++◌ prefix e)
wrapped prefix panic = panic

-- crdsFolder
abbrev pub crds_folder : String
crds_folder = "crds"

module _ (f : Formats) where
  open f use {
    Bytes, Loader, Dir, crds_fs, sub, new_loader, is_yaml, split_documents, load, is_vpol, convert,
  }

  -- Crds of pkg/data; each OnceValues function returns what its first call does.
  abbrev pub crds : Result Dir
  crds = sub crds_fs crds_folder

  -- defaultLoader: `fs` is what the function that it is given returns, or none if that is nil.
  abbrev pub default_loader_of : Option (Result Dir) → Result Loader
  default_loader_of none = crds >>= new_loader
  default_loader_of (some fs) = fs >>= new_loader

  -- DefaultLoader
  abbrev pub default_loader : Result Loader
  default_loader = default_loader_of none

  -- The loop over the documents of a file: one that does not load or is no policy is skipped.
  unfoldable pub load_documents : Loader → List Bytes → Result (List Policy.ValidatingPolicy)
  load_documents ldr [] = ok []
  load_documents ldr (document ∷ documents) =
      let rest = load_documents ldr documents in
      elim (load ldr document) [
        | err e ↦ rest
        | panic ↦ panic
        | ok loaded ↦ if not (is_vpol loaded.0) then rest else do
          typed ← wrapped "failed to convert to ValidatingPolicy: " (convert loaded.1)
          policies ← rest
          ok (typed ∷ policies)
      ]

  abbrev pub file_error : String → String
  file_error name = String.◌++◌ (String.◌++◌ "failed to read file " name) ": "

  -- The loop over the entries: directories and files that are no YAML are skipped.
  unfoldable pub load_entries : List (Entry Bytes) → Result (List Policy.ValidatingPolicy)
  unfolding load_documents
  load_entries [] = ok []
  load_entries (entry ∷ entries) =
      let rest = load_entries entries in
      if entry.is_dir || not (is_yaml entry.name) then rest else do
        bytes ← wrapped (file_error entry.name) entry.content
        documents ← wrapped "failed to split documents: " (split_documents bytes)
        ldr ← wrapped "failed to load CRDs: " default_loader
        policies ← load_documents ldr documents
        others ← rest
        ok (policies ++ others)

  -- loadAll: `entries` is what fs.ReadDir returns.
  unfoldable pub load_all : Result (List (Entry Bytes)) → Result (List Policy.ValidatingPolicy)
  unfolding load_entries
  load_all entries = entries >>= load_entries

  -- Policies
  abbrev policies : Result (List (Entry Bytes)) → Result (List Policy.ValidatingPolicy)
  policies entries = load_all entries

  module _ {V : Type 0} (compile : Policy.ValidatingPolicy → Checked V) where
    abbrev pub keep : Checked V → List V → List V
    keep (accepted compiled) policies = compiled ∷ policies
    keep (rejected errs) policies = policies

    -- The loop of CompiledPolicies: a policy that does not compile is skipped.
    unfoldable pub compile_all : List Policy.ValidatingPolicy → List V
    compile_all [] = []
    compile_all (pol ∷ raw) = keep (compile pol) (compile_all raw)

    -- CompiledPolicies
    unfoldable pub fs_policies : Result (List (Entry Bytes)) → Result (List V)
    unfolding load_all compile_all
    fs_policies entries = do raw ← load_all entries; ok (compile_all raw)
