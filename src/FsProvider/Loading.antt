-- ===== src/FsProvider/Loading.antt =====
-- Which policies a directory yields, by rules for its files and their documents.
use kyverno_http_authorizer.Base.{
  ok-injective, String, List, [], ◌∷◌, ◌++◌, ◌≡◌, ◌↔◌, refl, sym, ap, ap₂, subst, ◌∙◌, true, false,
  not, ◌||◌, Error, Result, ok, err, panic, ◌>>=◌, Bool-cases, inl, inr,
}
use kyverno_http_authorizer.Policy
use kyverno_http_authorizer.FsProvider.{
  default_loader, Entry, Formats, wrapped, file_error, load_documents, load_entries, load_all,
}

bind-ok :
    {A B : Type 0} (m : Result A) (g : A → Result B) {b : B}
    → (m >>= g) ≡ ok b
    → (a : A) × (m ≡ ok a) × (g a ≡ ok b)
bind-ok (ok a) g h = (a, refl, h)
bind-ok (err e) g h = cc
bind-ok panic g h = cc

wrapped-ok :
    {A : Type 0} (prefix : String) (r : Result A) {a : A} → wrapped prefix r ≡ ok a → r ≡ ok a
wrapped-ok prefix (ok a) h = h
wrapped-ok prefix (err e) h = cc
wrapped-ok prefix panic h = cc

module _ (f : Formats) where
  open f use {Bytes, Loader, Kind, Untyped, is_yaml, split_documents, load, is_vpol, convert}

  -- The policies of a file's documents, in order.
  pub data Documents (ldr : Loader) : List Bytes → List Policy.ValidatingPolicy → Type 0 where
    no_documents : Documents ldr [] []
    unreadable :
        {d : Bytes} {ds : List Bytes} {ps : List Policy.ValidatingPolicy} (e : Error)
        → load ldr d ≡ err e
        → Documents ldr ds ps
        → Documents ldr (d ∷ ds) ps
    other_kind :
        {d : Bytes} {ds : List Bytes} {ps : List Policy.ValidatingPolicy} (l : Kind × Untyped)
        → load ldr d ≡ ok l
        → is_vpol l.0 ≡ false
        → Documents ldr ds ps
        → Documents ldr (d ∷ ds) ps
    policy :
        {d : Bytes} {ds : List Bytes} {ps : List Policy.ValidatingPolicy} (l : Kind × Untyped)
        (p : Policy.ValidatingPolicy)
        → load ldr d ≡ ok l
        → is_vpol l.0 ≡ true
        → convert l.1 ≡ ok p
        → Documents ldr ds ps
        → Documents ldr (d ∷ ds) (p ∷ ps)

  -- The policies of a directory's entries, in order.
  pub data Loaded : List (Entry Bytes) → List Policy.ValidatingPolicy → Type 0 where
    no_entries : Loaded [] []
    skipped :
        {e : Entry Bytes} {es : List (Entry Bytes)} {ps : List Policy.ValidatingPolicy}
        → (e.is_dir || not (is_yaml e.name)) ≡ true
        → Loaded es ps
        → Loaded (e ∷ es) ps
    file :
        {e : Entry Bytes} {es : List (Entry Bytes)} {ps qs : List Policy.ValidatingPolicy}
        (bytes : Bytes) (documents : List Bytes) (ldr : Loader)
        → (e.is_dir || not (is_yaml e.name)) ≡ false
        → e.content ≡ ok bytes
        → split_documents bytes ≡ ok documents
        → default_loader f ≡ ok ldr
        → Documents ldr documents ps
        → Loaded es qs
        → Loaded (e ∷ es) (ps ++ qs)

  of_loaded :
      (ldr : Loader) (d : Bytes) (ds : List Bytes) (ps : List Policy.ValidatingPolicy)
      (r : Result (Kind × Untyped))
      → load ldr d ≡ r
      → ((qs : List Policy.ValidatingPolicy)
          → load_documents f ldr ds ≡ ok qs
          → Documents ldr ds qs)
      → load_documents f ldr (d ∷ ds) ≡ ok ps
      → Documents ldr (d ∷ ds) ps
  unfolding load_documents
  of_loaded ldr d ds ps (err e) r ih h = unreadable e r (ih ps (rw (r, load_documents) at h))
  of_loaded ldr d ds ps panic r ih h = cc (rw (r, load_documents) at h)
  of_loaded ldr d ds ps (ok l) r ih h = elim (Bool-cases (is_vpol l.0)) [
    | inl b ↦
        let (p, c, h1) = bind-ok (wrapped _ (convert l.1)) _ (rw (r, load_documents, b) at h) in
        let (qs, d1, h2) = bind-ok (load_documents f ldr ds) _ h1 in
        subst (Documents ldr (d ∷ ds)) (ok-injective h2)
          (policy l p r b (wrapped-ok _ (convert l.1) c) (ih qs d1))
    | inr b ↦ other_kind l r b (ih ps (rw (r, load_documents, b) at h))
  ]

  Documents-sound :
      (ldr : Loader) (ds : List Bytes) (ps : List Policy.ValidatingPolicy)
      → load_documents f ldr ds ≡ ok ps
      → Documents ldr ds ps
  unfolding load_documents
  Documents-sound ldr [] ps h = subst (Documents ldr []) (ok-injective h) no_documents
  Documents-sound ldr (d ∷ ds) ps h =
      of_loaded ldr d ds ps (load ldr d) refl (Documents-sound ldr ds) h

  Documents-complete :
      (ldr : Loader) {ds : List Bytes} {ps : List Policy.ValidatingPolicy}
      → Documents ldr ds ps
      → load_documents f ldr ds ≡ ok ps
  unfolding load_documents
  Documents-complete ldr no_documents = refl
  Documents-complete ldr (unreadable e r k) = rw (r, load_documents) (Documents-complete ldr k)
  Documents-complete ldr (other_kind l r b k) = rw (r, load_documents, b) (Documents-complete ldr k)
  Documents-complete ldr (policy l p r b c k) =
      rw (r, load_documents, b, c, Documents-complete ldr k)

  entries_sound :
      (es : List (Entry Bytes)) (ps : List Policy.ValidatingPolicy)
      → load_entries f es ≡ ok ps
      → Loaded es ps
  unfolding load_entries
  entries_sound [] ps h = subst (Loaded []) (ok-injective h) no_entries
  entries_sound (e ∷ es) ps h = elim (Bool-cases (e.is_dir || not (is_yaml e.name))) [
    | inl b ↦ skipped b (entries_sound es ps (rw b at h))
    | inr b ↦
        let (bytes, c, h1) = bind-ok (wrapped _ e.content) _ (rw b at h) in
        let (documents, d, h2) = bind-ok (wrapped _ (split_documents bytes)) _ h1 in
        let (ldr, l, h3) = bind-ok (wrapped _ (default_loader f)) _ h2 in
        let (qs, k, h4) = bind-ok (load_documents f ldr documents) _ h3 in
        let (rs, m, h5) = bind-ok (load_entries f es) _ h4 in
        subst (Loaded (e ∷ es)) (ok-injective h5) (
          file bytes documents ldr b (wrapped-ok _ e.content c)
            (wrapped-ok _ (split_documents bytes) d) (wrapped-ok _ (default_loader f) l)
            (Documents-sound ldr documents qs k) (entries_sound es rs m))
  ]

  -- The steps on a file, once it is read, and once there is a loader.
  abbrev from_file :
      List (Entry Bytes) → Result Bytes → Result Loader → Result (List Policy.ValidatingPolicy)
  from_file es content loader = do
    bytes ← content
    documents ← wrapped "failed to split documents: " (split_documents bytes)
    ldr ← loader
    policies ← load_documents f ldr documents
    others ← load_entries f es
    ok (policies ++ others)

  load_file :
      (e : Entry Bytes) (es : List (Entry Bytes)) (bytes : Bytes) (ldr : Loader)
      → e.content ≡ ok bytes
      → default_loader f ≡ ok ldr
      → (e.is_dir || not (is_yaml e.name)) ≡ false
      → load_entries f (e ∷ es) ≡ from_file es (ok bytes) (ok ldr)
  unfolding load_entries
  load_file e es bytes ldr c l b = rw b (
      ap₂ (from_file es) (ap (wrapped (file_error f e.name)) c)
        (ap (wrapped "failed to load CRDs: ") l))

  entries_complete :
      {es : List (Entry Bytes)} {ps : List Policy.ValidatingPolicy}
      → Loaded es ps
      → load_entries f es ≡ ok ps
  unfolding load_entries
  entries_complete no_entries = refl
  entries_complete (skipped b k) = rw b (entries_complete k)
  entries_complete (file {e} {es} bytes documents ldr b c s l d k) =
      load_file e es bytes ldr c l b ∙ rw (s, Documents-complete ldr d, entries_complete k)

  -- The directory yields a list of policies exactly when the rules derive it: the policies of its YAML
  -- files, in the order of the files and of their documents. A document that does not load and one of
  -- another kind are skipped; a directory that cannot be listed, and a file that cannot be read or
  -- split or that holds a policy that does not convert, leave no policies at all.
  pub load_all_iff :
      (entries : Result (List (Entry Bytes))) (ps : List Policy.ValidatingPolicy)
      → (load_all f entries ≡ ok ps)
        ↔ ((es : List (Entry Bytes)) × (entries ≡ ok es) × Loaded es ps)
  unfolding load_all
  load_all_iff (ok es) ps = (
    λ h. (es, refl, entries_sound es ps h),
    λ (es', e, k). entries_complete (subst (λ x. Loaded x ps) (sym (ok-injective e)) k),
  )
  load_all_iff (err m) ps = (λ h. cc, λ (es, e, k). cc)
  load_all_iff panic ps = (λ h. cc, λ (es, e, k). cc)
