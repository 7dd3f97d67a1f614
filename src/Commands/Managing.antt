-- ===== src/Commands/Managing.antt =====
-- What the parts of a set-up end with: the external providers, and the manager.
use kyverno_http_authorizer.Base.{
  String, Option, none, some, List, [], ◌∷◌, ◌++◌, map, ◌≡◌, ◌⊎◌, inl, inr, refl, sym, ◌∙◌, Bool,
  true, false, if◌then◌else◌, ok, err, panic, ◌>>=◌,
}
use kyverno_http_authorizer.Engine.{Provider, composite, collect}
use kyverno_http_authorizer.Engine.Composite.{composite-append}
use kyverno_http_authorizer.Commands.{
  Cluster, manager_task, Setup, get_external_providers, with_manager, or_fail, also,
}

module _ {R : Type 0} where
  -- A composite in front of a provider is the composite of all of them.
  pub composite-snoc :
      (ps : List (Provider R)) (r : Provider R)
      → composite (composite ps ∷ r ∷ []) ≡ composite (ps ++ r ∷ [])
  unfolding composite collect
  composite-snoc ps r = last (composite ps) r ∙ sym (composite-append ps (r ∷ []))
    where
      last :
          (p r : Provider R)
          → (p >>= λ c. r >>= λ d. ok (c ++ d))
            ≡ (p >>= λ xs. (r >>= λ c. ok c) >>= λ ys. ok (xs ++ ys))
      last (ok c) (ok d) = refl
      last (ok c) (err e) = refl
      last (ok c) panic = refl
      last (err e) r = refl
      last panic r = refl

module _ {E F : Type 0} (lookup : String → E ⊎ F) where
  -- The file systems of all the URLs, or the first error.
  pub get_external_providers_cases :
      (urls : List String)
      → ((fs : List F) × (get_external_providers lookup urls ≡ inr fs)
          × (map lookup urls ≡ map inr fs))
        ⊎ ((e : E) × (get_external_providers lookup urls ≡ inl e))
  unfolding get_external_providers
  get_external_providers_cases [] = inl ([], refl, refl)
  get_external_providers_cases (url ∷ urls) =
      by_url (lookup url) refl (get_external_providers_cases urls)
    where
      by_url :
          (o : E ⊎ F)
          → lookup url ≡ o
          → ((fs : List F) × (get_external_providers lookup urls ≡ inr fs)
              × (map lookup urls ≡ map inr fs))
            ⊎ ((e : E) × (get_external_providers lookup urls ≡ inl e))
          → ((fs : List F) × (get_external_providers lookup (url ∷ urls) ≡ inr fs)
              × (map lookup (url ∷ urls) ≡ map inr fs))
            ⊎ ((e : E) × (get_external_providers lookup (url ∷ urls) ≡ inl e))
      by_url (inl e) h rest = inr (e, rw (get_external_providers, h))
      by_url (inr f) h (inl (fs, q, m)) = inl (f ∷ fs, rw (get_external_providers, h, q), rw (h, m))
      by_url (inr f) h (inr (e, q)) = inr (e, rw (get_external_providers, h, q))

  pub get_external_providers_found :
      (urls : List String) (fs : List F)
      → map lookup urls ≡ map inr fs
      → get_external_providers lookup urls ≡ inr fs
  unfolding get_external_providers
  get_external_providers_found [] [] h = refl
  get_external_providers_found [] (f ∷ fs) h = cc
  get_external_providers_found (url ∷ urls) [] h = cc
  get_external_providers_found (url ∷ urls) (f ∷ fs) h =
      let here : lookup url ≡ inr f = cc in
      rw (get_external_providers, here, get_external_providers_found urls fs (cc))

module _ {E : Type 0} where
  pub some_ne : (e : E) → some e ≡ none → ⊥
  some_ne e h = cc

  -- A set-up that failed, with the manager started or not.
  abbrev pub failure : {S : Type 0} → E → Bool → Setup E S
  failure e m = record {
    error = some e;
    tasks = if m then manager_task ∷ [] else [];
    served = none;
  }

  abbrev pub Fails : {S : Type 0} → Setup E S → Type 0
  Fails s = (e : E) × (m : Bool) × (s ≡ failure e m)

module _ {E : Type 0} (cluster : Cluster E) where
  open cluster use {
    Config, Dynamic, Manager, client_config, new_dynamic, install, new_manager, complete,
    wait_for_cache_sync, wrap, new_error,
  }

  -- The manager is made, the controller registered, and the cache synchronized.
  pub record ManagerReady (config : Config) (mgr : Manager) : Type 0 where
    pub installed : install ≡ none
    pub made : new_manager config ≡ inr mgr
    pub completed : complete mgr ≡ none
    pub synced : wait_for_cache_sync mgr ≡ true

  module _ {S : Type 0} (prefix : String) (config : Config) (next : Manager → Setup E S) where
    pub with_manager_ready :
        (mgr : Manager)
        → ManagerReady config mgr
        → with_manager cluster prefix config next ≡ also manager_task (next mgr)
    with_manager_ready mgr r = rw (r.installed, r.made, or_fail, r.completed, r.synced)

    abbrev Managed : Type 0
    Managed =
        ((mgr : Manager) × ManagerReady config mgr)
        ⊎ Fails (with_manager cluster prefix config next)

    pub with_manager_cases : Managed
    with_manager_cases = installing install refl
      where
        syncing :
            (mgr : Manager)
            → install ≡ none
            → new_manager config ≡ inr mgr
            → (o : Option E) → complete mgr ≡ o
            → (b : Bool) → wait_for_cache_sync mgr ≡ b
            → Managed
        syncing mgr i n (some e) c b y = inr (wrap prefix e, false, rw (i, n, or_fail, c))
        syncing mgr i n none c false y =
            inr (new_error "failed to wait for cache sync", true, rw (i, n, or_fail, c, y))
        syncing mgr i n none c true y =
            inl (mgr, record { installed = i; made = n; completed = c; synced = y })

        making : install ≡ none → (o : E ⊎ Manager) → new_manager config ≡ o → Managed
        making i (inl e) n = inr (wrap "failed to construct manager: " e, false, rw (i, n))
        making i (inr mgr) n = syncing mgr i n (complete mgr) refl (wait_for_cache_sync mgr) refl

        installing : (o : Option E) → install ≡ o → Managed
        installing (some e) i = inr (e, false, rw i)
        installing none i = making i (new_manager config) refl
