-- ===== src/Commands/Replies.antt =====
-- The standalone server as a whole: its set-up, its directories, its reconciler, the composite of
-- them, and its handler.
use mathlib.Core.List.{flatten, map-append}
use kyverno_http_authorizer.Base.{
  ℕ, String, none, some, List, [], ◌∷◌, ◌++◌, map, ◌≡◌, sym, ap, subst, ◌∙◌, Bool, true, Result, ok,
  err, ◌>>=◌, Error, traverse, ◌⊎◌, inl, inr, is_some,
}
use kyverno_http_authorizer.Policy
use kyverno_http_authorizer.Http.{Request, ServerRequest, new_request}
use kyverno_http_authorizer.Writer.{fresh}
use kyverno_http_authorizer.Engine.{CompiledPolicy, Provider, RequestFunc, collect, composite}
use kyverno_http_authorizer.Engine.Composite.{composite-append}
use kyverno_http_authorizer.FsProvider.{Entry, Formats, load_all, compile_all}
use kyverno_http_authorizer.PolicyStore.{new_store, compiled_policies}
use kyverno_http_authorizer.Reconcile.{Fetched}
use kyverno_http_authorizer.Reconcile.Standalone.{
  enforced, reconcile_all, compiled_policies-reconcile_all,
}
use kyverno_http_authorizer.Stream.Sorted.{Ascending, contains}
use kyverno_http_authorizer.Authorizer.{handle}
use kyverno_http_authorizer.Authorizer.Decision.{
  Decided, finished, received, respond, handle-Decided, handle-err,
}
use kyverno_http_authorizer.Commands.{Cluster, Setup}
use kyverno_http_authorizer.Commands.Standalone.{Ready, setup_of, setup-Ready}
use kyverno_http_authorizer.Vpol.Compiler.{Checked}
use kyverno_http_authorizer.Commands.Directories.{
  provider_of, files, policies_of, files-loaded, files-err,
}

-- The policies of the reconciler that runs on a manager.
abbrev pub reconciler :
    {V R M : Type 0}
    → (V → CompiledPolicy R)
    → (Policy.ValidatingPolicy → Checked V)
    → (M → List (String × Fetched))
    → M
    → Provider R
reconciler as_policy compile history mgr =
    provider_of as_policy
      (do r ← compiled_policies (reconcile_all compile (history mgr) new_store); ok r.0)

module _ {V R F E : Type 0} (as_policy : V → CompiledPolicy R) (f : Formats)
    (compile : Policy.ValidatingPolicy → Checked V) (read_dir : F → Result (List (Entry f.Bytes)))
    (cluster : Cluster E) (lookup : String → E ⊎ F)
    (history : cluster.Manager → List (String × Fetched)) where
  abbrev directories : F → Provider R
  directories = files as_policy f compile read_dir

  abbrev loading : F → Result (List Policy.ValidatingPolicy)
  loading fsys = load_all f (read_dir fsys)

  abbrev reconciled : cluster.Manager → Provider R
  reconciled = reconciler as_policy compile history

  abbrev pub setup : List String → Setup E (Provider R)
  setup = setup_of cluster lookup directories reconciled true

  module _ (canonical : String → String) (ctx : R)
      (read : Result (List ℕ) → Result ServerRequest) where
    -- What the standalone server replies once all calls of its set-up have succeeded and the manager has
    -- reconciled a history. Its policies are those of the directories, in the order of their URLs and of their
    -- files, that compile, and after them, in the ascending order of their names, those that were found in the
    -- history and not deleted since, in the last version that compiled. The client receives the reply to
    -- what these decide in this order. Here Kubernetes is a source of policies, each directory loads, and the
    -- request, nested or not, and its body can be read.
    pub standalone_setup-Decided :
        (urls : List String) (fss : List F) (mgr : cluster.Manager)
        (raws : List (List Policy.ValidatingPolicy)) (nested : Bool) (r s : ServerRequest)
        (req : Request)
        → Ready cluster lookup directories reconciled true urls fss (reconciled mgr ∷ [])
        → traverse loading fss ≡ ok raws
        → received read nested r ≡ ok s
        → new_request s ≡ ok req
        → (provider : Provider R) × ((setup urls).served ≡ some provider)
          × (pols : List V) × (ks : List String) × Ascending ks
          × ((k : String) → contains k ks ≡ is_some (enforced compile k (history mgr) none))
          × (map some pols ≡ map (λ k. enforced compile k (history mgr) none) ks)
          × (o : RequestFunc) × Decided ctx req
              (map as_policy (compile_all f compile (flatten raws) ++ pols))
              o
          × (finished (handle canonical ctx provider read nested r fresh) ≡ respond canonical o)
    unfolding composite collect
    standalone_setup-Decided urls fss mgr raws nested r s req ready loads e h =
        let (pols, t, ks, provides, asc, has, vals) =
          compiled_policies-reconcile_all compile (history mgr) in
        let ps : List (Provider R) = map directories fss ++ reconciled mgr ∷ [] in
        let all : List (CompiledPolicy R) =
          policies_of as_policy f compile read_dir (flatten raws) ++ map as_policy pols in
        let asks : composite ps ≡ ok all =
          composite-append (map directories fss) (reconciled mgr ∷ [])
          ∙ rw (files-loaded as_policy f compile read_dir fss raws loads, provides) in
        let (o, d, replies) = handle-Decided canonical ctx read all nested r s req e h in
        (
          composite ps,
          ap (λ (x : Setup E (Provider R)). x.served)
              (setup-Ready cluster lookup directories reconciled true urls fss (reconciled mgr ∷ [])
                ready),
          pols,
          ks,
          asc,
          has,
          vals,
          o,
          subst (λ l. Decided ctx req l o)
              (sym (map-append as_policy (compile_all f compile (flatten raws)) pols)) d,
          rw asks replies,
        )

    -- If a directory does not load, and the directories before it do, then the standalone server, once all calls of
    -- its set-up have succeeded, answers each request that can be read with a 500 and the text of that
    -- error, whatever the other directories and the reconciler provide.
    pub standalone_setup-err :
        (kube : Bool) (urls : List String) (fss : List F) (ps : List (Provider R)) (e : Error)
        (nested : Bool) (r s : ServerRequest)
        → Ready cluster lookup directories reconciled kube urls fss ps
        → traverse loading fss ≡ err e
        → received read nested r ≡ ok s
        → (provider : Provider R) × ((setup_of cluster lookup directories reconciled kube
              urls).served
            ≡ some provider)
          × (finished (handle canonical ctx provider read nested r fresh)
              ≡ ok (record { code = 500; fields = []; text = e }))
    standalone_setup-err kube urls fss ps e nested r s ready loads h = (
      composite (map directories fss ++ ps),
      ap (λ (x : Setup E (Provider R)). x.served)
          (setup-Ready cluster lookup directories reconciled kube urls fss ps ready),
      handle-err canonical ctx read (composite (map directories fss ++ ps)) nested r e
          (inr (inl (s, h, files-err as_policy f compile read_dir fss ps e loads))),
    )
