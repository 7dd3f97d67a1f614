-- ===== src/Commands/Directories.antt =====
-- The external directories of policies as the providers of the standalone server (standalone-authz/command.go:76-80).
use mathlib.Core.List.{flatten, map-append}
use kyverno_http_authorizer.Base.{
  ok-injective, err-injective, List, [], ◌∷◌, ◌++◌, map, ◌≡◌, refl, sym, ap, ◌∙◌, Result, ok, err,
  panic, ◌>>=◌, Error, traverse,
}
use kyverno_http_authorizer.Policy
use kyverno_http_authorizer.Engine.{CompiledPolicy, Provider, collect, composite}
use kyverno_http_authorizer.Engine.Composite.{composite-append}
use kyverno_http_authorizer.FsProvider.{Entry, Formats, load_all, compile_all, keep, fs_policies}
use kyverno_http_authorizer.Vpol.Compiler.{Checked, accepted, rejected}

module _ {V R : Type 0} (as_policy : V → CompiledPolicy R) where
  -- A provider of the policies that `r` returns.
  abbrev pub provider_of : Result (List V) → Provider R
  provider_of r = do policies ← r; ok (map as_policy policies)

  module _ {F : Type 0} (f : Formats) (compile : Policy.ValidatingPolicy → Checked V)
      (read_dir : F → Result (List (Entry f.Bytes))) where
    abbrev pub files : F → Provider R
    files fsys = provider_of (fs_policies f compile (read_dir fsys))

    abbrev pub load : F → Result (List Policy.ValidatingPolicy)
    load fsys = load_all f (read_dir fsys)

    keep-append :
        (r : Checked V) (xs ys : List V) → keep f compile r (xs ++ ys) ≡ keep f compile r xs ++ ys
    keep-append (accepted c) xs ys = refl
    keep-append (rejected es) xs ys = refl

    compile_all-append :
        (xs ys : List Policy.ValidatingPolicy)
        → compile_all f compile (xs ++ ys) ≡ compile_all f compile xs ++ compile_all f compile ys
    unfolding compile_all
    compile_all-append [] ys = refl
    compile_all-append (x ∷ xs) ys =
        ap (keep f compile (compile x)) (compile_all-append xs ys)
        ∙ keep-append (compile x) (compile_all f compile xs) (compile_all f compile ys)

    abbrev pub policies_of : List Policy.ValidatingPolicy → List (CompiledPolicy R)
    policies_of raw = map as_policy (compile_all f compile raw)

    policies_of-append :
        (xs ys : List Policy.ValidatingPolicy)
        → policies_of (xs ++ ys) ≡ policies_of xs ++ policies_of ys
    policies_of-append xs ys =
        ap (map as_policy) (compile_all-append xs ys)
        ∙ map-append as_policy (compile_all f compile xs) (compile_all f compile ys)

    composite-loaded :
        (fsys : F) (ps : List (Provider R)) (raw : List Policy.ValidatingPolicy)
        (cs : List (CompiledPolicy R))
        → load fsys ≡ ok raw
        → composite ps ≡ ok cs
        → composite (files fsys ∷ ps) ≡ ok (policies_of raw ++ cs)
    unfolding composite collect fs_policies
    composite-loaded fsys ps raw cs h k = composite-append (files fsys ∷ []) ps ∙ rw (h, k)

    pub files-loaded :
        (fss : List F) (raws : List (List Policy.ValidatingPolicy))
        → traverse load fss ≡ ok raws
        → composite (map files fss) ≡ ok (policies_of (flatten raws))
    unfolding traverse composite collect compile_all flatten
    files-loaded [] raws h = rw (sym (ok-injective h))
    files-loaded (fsys ∷ fss) raws h =
        by_cases (load fsys) (traverse load fss) refl (files-loaded fss) h
      where
        by_cases :
            (r : Result (List Policy.ValidatingPolicy))
            (rs : Result (List (List Policy.ValidatingPolicy)))
            → load fsys ≡ r
            → ((rest : List (List Policy.ValidatingPolicy))
                → rs ≡ ok rest
                → composite (map files fss) ≡ ok (policies_of (flatten rest)))
            → (r >>= λ y. rs >>= λ ys. ok (y ∷ ys)) ≡ ok raws
            → composite (files fsys ∷ map files fss) ≡ ok (policies_of (flatten raws))
        by_cases (ok raw) (ok rest) e k h =
            composite-loaded fsys (map files fss) raw _ e (k rest refl)
            ∙ ap ok (sym (policies_of-append raw (flatten rest)))
            ∙ ap (λ l. ok (policies_of (flatten l))) (ok-injective h)
        by_cases (ok raw) (err m) e k h = cc
        by_cases (ok raw) panic e k h = cc
        by_cases (err m) rs e k h = cc
        by_cases panic rs e k h = cc

    pub files-err :
        (fss : List F) (qs : List (Provider R)) (e : Error)
        → traverse load fss ≡ err e
        → composite (map files fss ++ qs) ≡ err e
    unfolding traverse composite collect fs_policies
    files-err [] qs e h = cc
    files-err (fsys ∷ fss) qs e h =
        by_cases (load fsys) (traverse load fss) refl (files-err fss qs e) h
      where
        by_cases :
            (r : Result (List Policy.ValidatingPolicy))
            (rs : Result (List (List Policy.ValidatingPolicy)))
            → load fsys ≡ r
            → (rs ≡ err e → composite (map files fss ++ qs) ≡ err e)
            → (r >>= λ y. rs >>= λ ys. ok (y ∷ ys)) ≡ err e
            → composite (files fsys ∷ map files fss ++ qs) ≡ err e
        by_cases (ok raw) (ok rest) l k h = cc
        by_cases (ok raw) (err m) l k h =
            composite-append (files fsys ∷ []) (map files fss ++ qs) ∙ rw (l, k h)
        by_cases (ok raw) panic l k h = cc
        by_cases (err m) rs l k h = rw (l, composite, collect) (ap err (err-injective h))
        by_cases panic rs l k h = cc
