-- ===== src/Protocol/Registered.antt =====
-- Which registries `validate_registry` of src/protocol.rs accepts.
use anasemble.Prelude.{
  ◌≤◌, ◌≡◌, ◌↔◌, refl, true, false, not, ◌||◌, Option, none, some, List, [], ◌∷◌, arith, ok,
  refuse_if, >>=-eq-ok, refuse_if-eq-ok, refuse_if-passes, >>-passes, any, is_empty, All, length,
  ◌==◌,
}
use anasemble.Text.{Text}
use anasemble.Text.Order.{text_eq}
use anasemble.BTreeMap.{BTreeMap}
use anasemble.Fragments.{Crypto, IssuerPolicy}
use anasemble.Fragments.Keys.{validate_issuer_policy}
use anasemble.Service.{ServiceManifest}
use anasemble.Service.Valid.{IsValid, validate_service_iff}
use anasemble.Service
use anasemble.Protocol.{
  Registry, is_absolute, is_hex, some_bound_is_zero, some_bound_is_too_large, experiment_is_missing,
  oracle_is_missing, validate_manifest, validate_issuers, validate_registry,
}

module _ (c : Crypto) where
  -- The manifest, where there is one, is valid and of the component.
  abbrev pub IsManifest : Registry → Option ServiceManifest → Type 0
  IsManifest r none = Unit {0}
  IsManifest r (some m) =
      IsValid c.hex_decode m
      × (text_eq m.component r.component ≡ true)
      × (text_eq m.interface_version r.interface_version ≡ true)

  pub record IsLimited (r : Registry) : Type 0 where
    pub domains : (1 ≤ r.required_domains) × (r.required_domains ≤ length r.trusted_issuers)
    pub fragments :
        (1 ≤ r.resource_limits.max_fragments) × (r.resource_limits.max_fragments ≤ 10_000)
    pub fragment_bytes :
        (1 ≤ r.resource_limits.max_fragment_bytes)
        × (r.resource_limits.max_fragment_bytes ≤ 1_048_576)
    pub files :
        (1 ≤ r.resource_limits.max_workspace_files)
        × (r.resource_limits.max_workspace_files ≤ 100_000)
    pub bytes :
        (1 ≤ r.resource_limits.max_workspace_bytes)
        × (r.resource_limits.max_workspace_bytes ≤ 1_073_741_824)

  pub record IsRegistered (r : Registry) : Type 0 where
    pub named : (is_empty r.component ≡ false) × (is_empty r.interface_version ≡ false)
    pub manifest : IsManifest r r.service_manifest
    pub limited : IsLimited r
    pub experiment :
        (is_empty r.experiment.baselines ≡ false)
        × (is_empty r.experiment.primary_metrics ≡ false)
        × (is_empty r.experiment.secondary_metrics ≡ false)
    pub oracle :
        (is_empty r.loss_oracle.forbidden_paths ≡ false)
        × (is_empty r.loss_oracle.forbidden_sha256 ≡ false)
    pub absolute : All (λ path. is_absolute path ≡ true) r.loss_oracle.forbidden_paths
    pub digests :
        All (λ value. (length value ≡ 64) × (is_hex c value ≡ true)) r.loss_oracle.forbidden_sha256
    pub issuers :
        All (λ (issuer, policy). validate_issuer_policy c policy ≡ ok tt) r.trusted_issuers

  validate_manifest_iff :
      (r : Registry) (m : Option ServiceManifest)
      → (validate_manifest c r m ≡ ok tt) ↔ IsManifest r m
  unfolding validate_manifest
  validate_manifest_iff r none = (λ h. tt, λ h. refl)
  validate_manifest_iff r (some m) = (
    λ h.
        let (_, v, h1) = >>=-eq-ok (Service.validate c.hex_decode m) _ h in
        let s = refuse_if-eq-ok _ _ h1 in
        ((validate_service_iff c.hex_decode m).0 v, ground (arith, s), ground (arith, s)),
    λ (v, p, q).
        >>-passes ((validate_service_iff c.hex_decode m).1 v)
          (refuse_if-passes _ _ (ground (arith, p, q))),
  )

  validate_issuers_iff :
      (m : BTreeMap Text IssuerPolicy)
      → (validate_issuers c m ≡ ok tt)
        ↔ All (λ (issuer, policy). validate_issuer_policy c policy ≡ ok tt) m
  unfolding validate_issuers
  validate_issuers_iff [] = (λ h. tt, λ h. refl)
  validate_issuers_iff ((issuer, policy) ∷ m) = (
    λ h.
        let (_, v, h1) = >>=-eq-ok (validate_issuer_policy c policy) _ h in
        (v, (validate_issuers_iff m).0 h1),
    λ (v, vs). >>-passes v ((validate_issuers_iff m).1 vs),
  )

  absolute_iff :
      (paths : List Text)
      → (any (λ path. not (is_absolute path)) paths ≡ false)
        ↔ All (λ path. is_absolute path ≡ true) paths
  absolute_iff [] = (λ h. tt, λ h. refl)
  absolute_iff (p ∷ ps) = ground (arith, absolute_iff ps)

  digests_iff :
      (values : List Text)
      → (any (λ value. not (length value == 64) || not (is_hex c value)) values ≡ false)
        ↔ All (λ value. (length value ≡ 64) × (is_hex c value ≡ true)) values
  digests_iff [] = (λ h. tt, λ h. refl)
  digests_iff (v ∷ vs) = ground (arith, digests_iff vs)

  validate_registry-IsRegistered : (r : Registry) → validate_registry c r ≡ ok tt → IsRegistered r
  unfolding validate_registry
  validate_registry-IsRegistered r h0 =
      let (_, n, h1) =
        >>=-eq-ok (refuse_if (is_empty r.component || is_empty r.interface_version) _) _ h0 in
      let (_, m, h2) = >>=-eq-ok (validate_manifest c r r.service_manifest) _ h1 in
      let (_, p, h3) = >>=-eq-ok (refuse_if (some_bound_is_zero r) _) _ h2 in
      let (_, b, h4) = >>=-eq-ok (refuse_if (some_bound_is_too_large r) _) _ h3 in
      let (_, e, h5) = >>=-eq-ok (refuse_if (experiment_is_missing r) _) _ h4 in
      let (_, o, h6) = >>=-eq-ok (refuse_if (oracle_is_missing r) _) _ h5 in
      let (_, d, i) = >>=-eq-ok (refuse_if (any _ r.loss_oracle.forbidden_sha256) _) _ h6 in
      let ns = refuse_if-eq-ok _ _ n in
      let ps = refuse_if-eq-ok _ _ p in
      let bs = refuse_if-eq-ok _ _ b in
      let es = refuse_if-eq-ok _ _ e in
      let os = refuse_if-eq-ok _ _ o in
      record {
        named = (ground (arith, ns), ground (arith, ns));
        manifest = (validate_manifest_iff r r.service_manifest).0 m;
        limited = record {
          domains = (ground (arith, ps), ground (arith, bs));
          fragments = (ground (arith, ps), ground (arith, bs));
          fragment_bytes = (ground (arith, ps), ground (arith, bs));
          files = (ground (arith, ps), ground (arith, bs));
          bytes = (ground (arith, ps), ground (arith, bs));
        };
        experiment = (ground (arith, es), ground (arith, es), ground (arith, es));
        oracle = (ground (arith, os), ground (arith, os));
        absolute = (absolute_iff r.loss_oracle.forbidden_paths).0 (ground (arith, os));
        digests = (digests_iff r.loss_oracle.forbidden_sha256).0 (refuse_if-eq-ok _ _ d);
        issuers = (validate_issuers_iff r.trusted_issuers).0 i;
      }

  validate_registry_of_IsRegistered :
      (r : Registry) → IsRegistered r → validate_registry c r ≡ ok tt
  unfolding validate_registry
  validate_registry_of_IsRegistered r v =
      >>-passes
        (refuse_if-passes (is_empty r.component || is_empty r.interface_version) _
          (ground (arith, v.named)))
        (>>-passes ((validate_manifest_iff r r.service_manifest).1 v.manifest) (
          >>-passes
            (refuse_if-passes (some_bound_is_zero r) _ (
              ground (
                arith, v.limited.domains, v.limited.fragments, v.limited.fragment_bytes,
                v.limited.files, v.limited.bytes,
              )))
            (>>-passes
              (refuse_if-passes (some_bound_is_too_large r) _ (
                ground (
                  arith, v.limited.domains, v.limited.fragments, v.limited.fragment_bytes,
                  v.limited.files, v.limited.bytes,
                )))
              (>>-passes
                (refuse_if-passes (experiment_is_missing r) _ (ground (arith, v.experiment)))
                (>>-passes
                  (refuse_if-passes (oracle_is_missing r) _ (
                    ground
                      (arith, v.oracle, (absolute_iff r.loss_oracle.forbidden_paths).1 v.absolute)))
                  (>>-passes
                    (refuse_if-passes _ _
                      ((digests_iff r.loss_oracle.forbidden_sha256).1 v.digests))
                    ((validate_issuers_iff r.trusted_issuers).1 v.issuers)))))))

  -- A registry is accepted exactly where it names a component and a version, its service
  -- manifest, if any, is valid and of them, its bounds are positive and within the maxima, there
  -- are as many issuers as domains are required, its experiment and its loss oracle are filled
  -- in, the forbidden paths are absolute, the forbidden digests are 64 digits of hexadecimal, and
  -- the policy of each issuer is accepted.
  pub validate_registry_iff : (r : Registry) → (validate_registry c r ≡ ok tt) ↔ IsRegistered r
  validate_registry_iff r = (validate_registry-IsRegistered r, validate_registry_of_IsRegistered r)
