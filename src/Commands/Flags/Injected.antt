-- ===== src/Commands/Flags/Injected.antt =====
-- The flags that the injected sidecar is given, against those of the commands.
use Prim.Native.String
use text.Mathlib.Text.{starts_with}
use text.Mathlib.TextPositions.{starts_with-append}
use kyverno_http_authorizer.Base.{
  String, List, [], ◌∷◌, map, ◌≡◌, refl, sym, ap, ◌∙◌, true, false, All, ◌==◌, eq_iff, Bool-cases,
  inl, inr,
}
use kyverno_http_authorizer.Stream.Sorted.{contains}
use kyverno_http_authorizer.Sidecar.{sidecar}
use kyverno_http_authorizer.Commands.Flags.{
  bind_override_flags, sidecar_authz_server, authz_server, declares,
}

-- A name without the prefix is none of the flags of clientcmd.
kube_flag-ne :
    (x name : String) → starts_with name "kube-" ≡ false → (String.◌++◌ "kube-" x == name) ≡ false
kube_flag-ne x name h = elim (Bool-cases (String.◌++◌ "kube-" x == name)) [
  | inl hit ↦
      let e : starts_with name "kube-" ≡ true =
        ap (λ t. starts_with t "kube-") (sym ((eq_iff (String.◌++◌ "kube-" x) name).0 hit))
        ∙ starts_with-append "kube-" x in
      absurd (cc)
  | inr miss ↦ miss
]

contains-bind_override_flags :
    (name : String) (override_flags : List String)
    → starts_with name "kube-" ≡ false
    → contains name (bind_override_flags override_flags) ≡ false
contains-bind_override_flags name [] h = refl
contains-bind_override_flags name (x ∷ xs) h =
    rw (kube_flag-ne x name h) (contains-bind_override_flags name xs h)

-- The argument that gives a flag a value.
abbrev pub given : String × String → String
given (name, value) = String.◌++◌ (String.◌++◌ (String.◌++◌ "--" name) "=") value

-- The flags about the control plane.
abbrev pub control_plane_values : String → String → String → String → List (String × String)
control_plane_values addr wait interval health =
    ("control-plane-address", addr)
    ∷ ("control-plane-reconnect-wait", wait)
    ∷ ("control-plane-max-dial-interval", interval)
    ∷ ("health-check-interval", health)
    ∷ []

-- The injected container runs the command authz-server, and gives it a flag that it declares, and the flags about
-- the control plane, of which it declares none, whatever flags clientcmd adds under its prefix. The command
-- sidecar-authz-server declares every one of these flags. And authz-server requires a flag that it does not
-- declare, which is one of those.
pub sidecar-declares :
    (image addr wait interval health : String) (override_flags : List String)
    → ((sidecar image addr wait interval health).args
        ≡ "serve"
          ∷ (authz_server override_flags).use_name
          ∷ given ("probes-address", ":9080")
          ∷ map given (control_plane_values addr wait interval health))
      × (declares (authz_server override_flags) "probes-address" ≡ true)
      × (declares sidecar_authz_server "probes-address" ≡ true)
      × All
          (λ (f : String × String).
            (declares (authz_server override_flags) f.0 ≡ false)
            × (declares sidecar_authz_server f.0 ≡ true))
          (control_plane_values addr wait interval health)
      × ((authz_server override_flags).required ≡ "control-plane-address" ∷ [])
unfolding sidecar
sidecar-declares image addr wait interval health override_flags = (
  refl,
  refl,
  refl,
  (
    (contains-bind_override_flags "control-plane-address" override_flags refl, refl),
    (
      (contains-bind_override_flags "control-plane-reconnect-wait" override_flags refl, refl),
      (
        (contains-bind_override_flags "control-plane-max-dial-interval" override_flags refl, refl),
        ((contains-bind_override_flags "health-check-interval" override_flags refl, refl), tt),
      ),
    ),
  ),
  refl,
)
