-- ===== src/Service/Valid.antt =====
-- Which manifests `ServiceManifest::validate` of src/service.rs accepts.
use anasemble.Prelude.{
  ℕ, ◌≤◌, ◌≡◌, ◌↔◌, refl, true, false, not, ◌||◌, ◌&&◌, Option, some, List, [], ◌∷◌, arith, String,
  ok, refuse_if, >>=-eq-ok, refuse_if-eq-ok, refuse_if-passes, >>-passes, any, any-eq-false,
  any_of_All, is_empty, All, length, ltb, ◌==◌, Option-cases, inl, inr,
}
use anasemble.Prelude.Unique.{each_unique, each_unique_iff, Apart}
use anasemble.Text.{Text, text}
use anasemble.Text.Order.{text_eq}
use anasemble.Text.Ascii.{all, is_graphic, has_byte, split}
use anasemble.Model.{invalid_registry}
use anasemble.Service.{
  HttpEndpoint, Effect, StateDependency, ServiceLimits, ServiceManifest, route_eq, effect_eq,
  is_state, is_identifier_byte, validate_identifier, starts_with_slash, has_double_slash,
  is_traversal, validate_path, names_dependency, has_effect, validate_digest, validate_endpoint,
  validate, not_in,
}

-- 1 to 128 safe bytes.
pub record IsIdentifier (t : Text) : Type 0 where
  pub nonempty : is_empty t ≡ false
  pub short : length t ≤ 128
  pub safe : all is_identifier_byte t ≡ true

-- A bounded absolute path of graphic bytes, without a query, a fragment, an empty interior segment
-- or a traversal.
pub record IsPath (t : Text) : Type 0 where
  pub absolute : starts_with_slash t ≡ true
  pub bounded : length t ≤ 1024
  pub graphic : all (λ b. is_graphic b && not (b == b'\\')) t ≡ true
  pub no_query : has_byte t b'?' ≡ false
  pub no_fragment : has_byte t b'#' ≡ false
  pub no_empty : has_double_slash t ≡ false
  pub no_traversal : All (λ segment. is_traversal segment ≡ false) (split b'/' t)

validate_identifier_iff :
    (label : String) (t : Text) → (validate_identifier label t ≡ ok tt) ↔ IsIdentifier t
unfolding validate_identifier
validate_identifier_iff label t = (λ h. ground arith, λ h. ground arith)

validate_path_iff : (t : Text) → (validate_path t ≡ ok tt) ↔ IsPath t
unfolding validate_path
validate_path_iff t = (
  λ h. record {
    absolute = ground arith;
    bounded = ground arith;
    graphic = ground arith;
    no_query = ground arith;
    no_fragment = ground arith;
    no_empty = ground arith;
    no_traversal = any-eq-false is_traversal (split b'/' t) (ground arith);
  },
  λ h. ground (arith, any_of_All is_traversal (split b'/' t) h.no_traversal),
)

module _ (hex_decode : Text → Option (List ℕ)) where
  -- 64 digits of 32 bytes.
  pub record IsDigest (t : Text) : Type 0 where
    pub sized : length t ≡ 64
    pub bytes : List ℕ
    pub decoded : hex_decode t ≡ some bytes
    pub bytes_sized : length bytes ≡ 32

  validate_digest_iff :
      (label : String) (t : Text) → (validate_digest hex_decode label t ≡ ok tt) ↔ IsDigest t
  unfolding validate_digest
  validate_digest_iff label t = elim (Option-cases (hex_decode t)) [
    | inl e ↦ ((λ h. absurd (ground (arith, e))), λ h. ground (arith, e, h.decoded))
    | inr (bytes, e) ↦ (
      (λ h. record {
        sized = ground (arith, e);
        bytes = bytes;
        decoded = e;
        bytes_sized = ground (arith, e);
      }),
      λ h. ground (arith, h.decoded),
    )
  ]

  pub record IsEndpoint (e : HttpEndpoint) : Type 0 where
    pub path : IsPath e.path
    pub request : IsDigest e.request_schema_sha256
    pub response : IsDigest e.response_schema_sha256

  validate_endpoint_iff :
      (e : HttpEndpoint) → (validate_endpoint hex_decode e ≡ ok tt) ↔ IsEndpoint e
  unfolding validate_endpoint
  validate_endpoint_iff e = (
    λ h. ground (
      arith,
      validate_path_iff e.path,
      validate_digest_iff "request schema" e.request_schema_sha256,
      validate_digest_iff "response schema" e.response_schema_sha256,
    ),
    λ h. ground (
      arith,
      (validate_path_iff e.path).1 h.path,
      (validate_digest_iff "request schema" e.request_schema_sha256).1 h.request,
      (validate_digest_iff "response schema" e.response_schema_sha256).1 h.response,
    ),
  )

All_iff :
    {A : Type 0} {P Q : A → Type 0} → ((x : A) → P x ↔ Q x) → (xs : List A) → All P xs ↔ All Q xs
All_iff h [] = (λ _. tt, λ _. tt)
All_iff h (x ∷ xs) =
    (λ (p, ps). ((h x).0 p, (All_iff h xs).0 ps), λ (q, qs). ((h x).1 q, (All_iff h xs).1 qs))

module _ (hex_decode : Text → Option (List ℕ)) where
  -- The limits are positive and within the safety maxima.
  pub record IsBounded (l : ServiceLimits) : Type 0 where
    pub request : (1 ≤ l.request_bytes) × (l.request_bytes ≤ 67_108_864)
    pub response : (1 ≤ l.response_bytes) × (l.response_bytes ≤ 67_108_864)
    pub time : (1 ≤ l.wall_time_ms) × (l.wall_time_ms ≤ 300_000)
    pub concurrent : (1 ≤ l.concurrent_requests) × (l.concurrent_requests ≤ 10_000)

  pub record IsValid (m : ServiceManifest) : Type 0 where
    pub version : text_eq m.version (text "service-v1") ≡ true
    pub component : IsIdentifier m.component
    pub interface : IsIdentifier m.interface_version
    pub some_endpoints : is_empty m.endpoints ≡ false
    pub few_endpoints : length m.endpoints ≤ 256
    pub endpoints : All (IsEndpoint hex_decode) m.endpoints
    pub routes_apart : Apart route_eq (λ e. e) m.endpoints
    pub few_effects : length m.effects ≤ 64
    pub few_dependencies : length m.state_dependencies ≤ 64
    pub targets : All (λ (e : Effect). IsIdentifier e.target) m.effects
    pub names : All (λ (d : StateDependency). IsIdentifier d.name) m.state_dependencies
    pub effects_apart : Apart effect_eq (λ e. e) m.effects
    pub names_apart : Apart text_eq (λ (d : StateDependency). d.name) m.state_dependencies
    pub effects_known :
        All
          (λ (e : Effect).
            (is_state e.kind && not (names_dependency m.state_dependencies e)) ≡ false)
          m.effects
    pub dependencies_used : All (λ d. has_effect m.effects d ≡ true) m.state_dependencies
    pub limits : IsBounded m.limits

  endpoints_iff :
      (xs : List HttpEndpoint)
      → (each_unique route_eq
            (λ e. e)
            (validate_endpoint hex_decode)
            (invalid_registry "HTTP method and path pairs must be unique")
            xs
            []
          ≡ ok tt)
        ↔ (All (IsEndpoint hex_decode) xs × Apart route_eq (λ e. e) xs)
  endpoints_iff xs = ground (
    arith,
    each_unique_iff route_eq (λ (e : HttpEndpoint). e) (validate_endpoint hex_decode)
        (invalid_registry "HTTP method and path pairs must be unique") xs,
    All_iff (validate_endpoint_iff hex_decode) xs,
  )

  effects_iff :
      (xs : List Effect)
      → (each_unique effect_eq
            (λ e. e)
            (λ (e : Effect). validate_identifier "effect target" e.target)
            (invalid_registry "effect declarations must be unique")
            xs
            []
          ≡ ok tt)
        ↔ (All (λ (e : Effect). IsIdentifier e.target) xs × Apart effect_eq (λ e. e) xs)
  effects_iff xs = ground (
    arith,
    each_unique_iff effect_eq (λ (e : Effect). e)
        (λ (e : Effect). validate_identifier "effect target" e.target)
        (invalid_registry "effect declarations must be unique") xs,
    All_iff {P = λ (e : Effect). validate_identifier "effect target" e.target ≡ ok tt}
        (λ e. validate_identifier_iff "effect target" e.target) xs,
  )

  names_iff :
      (xs : List StateDependency)
      → (each_unique text_eq
            (λ (d : StateDependency). d.name)
            (λ (d : StateDependency). validate_identifier "state dependency name" d.name)
            (invalid_registry "state dependency names must be unique")
            xs
            []
          ≡ ok tt)
        ↔ (All (λ (d : StateDependency). IsIdentifier d.name) xs
            × Apart text_eq (λ (d : StateDependency). d.name) xs)
  names_iff xs = ground (
    arith,
    each_unique_iff text_eq (λ (d : StateDependency). d.name)
        (λ (d : StateDependency). validate_identifier "state dependency name" d.name)
        (invalid_registry "state dependency names must be unique") xs,
    All_iff
        {P = λ (d : StateDependency). validate_identifier "state dependency name" d.name ≡ ok tt}
        (λ d. validate_identifier_iff "state dependency name" d.name) xs,
  )

  limits_iff :
      (l : ServiceLimits)
      → ((not_in 1 67_108_864 l.request_bytes
            || not_in 1 67_108_864 l.response_bytes
            || not_in 1 300_000 l.wall_time_ms
            || not_in 1 10_000 l.concurrent_requests)
          ≡ false)
        ↔ IsBounded l
  limits_iff l = (
    λ h. record {
      request = ground arith;
      response = ground arith;
      time = ground arith;
      concurrent = ground arith;
    },
    λ h. ground (arith, h.request, h.response, h.time, h.concurrent),
  )

  dependencies_iff :
      (effects : List Effect) (xs : List StateDependency)
      → (any (λ d. not (has_effect effects d)) xs ≡ false)
        ↔ All (λ d. has_effect effects d ≡ true) xs
  dependencies_iff effects [] = (λ h. tt, λ h. refl)
  dependencies_iff effects (x ∷ xs) = ground (arith, dependencies_iff effects xs)

  validate-IsValid : (m : ServiceManifest) → validate hex_decode m ≡ ok tt → IsValid m
  unfolding validate
  validate-IsValid m h0 =
      let (_, v, h1) = >>=-eq-ok (refuse_if (not (text_eq m.version (text "service-v1"))) _) _ h0 in
      let (_, c, h2) = >>=-eq-ok (validate_identifier "component" m.component) _ h1 in
      let (_, i, h3) =
        >>=-eq-ok (validate_identifier "interface_version" m.interface_version) _ h2 in
      let (_, n, h4) =
        >>=-eq-ok (refuse_if (is_empty m.endpoints || ltb 256 (length m.endpoints)) _) _ h3 in
      let (_, e, h5) =
        >>=-eq-ok
          (each_unique route_eq (λ (x : HttpEndpoint). x) (validate_endpoint hex_decode) _
            m.endpoints [])
          _ h4 in
      let (_, k, h6) =
        >>=-eq-ok (refuse_if (ltb 64 (length m.effects) || ltb 64 (length m.state_dependencies)) _)
          _ h5 in
      let (_, f, h7) =
        >>=-eq-ok (each_unique effect_eq (λ (x : Effect). x) _ _ m.effects []) _ h6 in
      let (_, d, h8) = >>=-eq-ok (each_unique text_eq _ _ _ m.state_dependencies []) _ h7 in
      let (_, r, h9) =
        >>=-eq-ok (refuse_if (any _ m.effects || any _ m.state_dependencies) _) _ h8 in
      let vs = refuse_if-eq-ok _ _ v in
      let ns = refuse_if-eq-ok _ _ n in
      let ks = refuse_if-eq-ok _ _ k in
      let rs = refuse_if-eq-ok _ _ r in
      let ls = refuse_if-eq-ok _ _ h9 in
      let (es, ea) = (endpoints_iff m.endpoints).0 e in
      let (fs, fa) = (effects_iff m.effects).0 f in
      let (ds, da) = (names_iff m.state_dependencies).0 d in
      record {
        version = ground arith;
        component = (validate_identifier_iff _ m.component).0 c;
        interface = (validate_identifier_iff _ m.interface_version).0 i;
        some_endpoints = ground arith;
        few_endpoints = ground arith;
        endpoints = es;
        routes_apart = ea;
        few_effects = ground arith;
        few_dependencies = ground arith;
        targets = fs;
        names = ds;
        effects_apart = fa;
        names_apart = da;
        effects_known = any-eq-false _ m.effects (ground arith);
        dependencies_used = (dependencies_iff m.effects m.state_dependencies).0 (ground arith);
        limits = (limits_iff m.limits).0 ls;
      }

  validate_of_IsValid : (m : ServiceManifest) → IsValid m → validate hex_decode m ≡ ok tt
  unfolding validate
  validate_of_IsValid m v = >>-passes (refuse_if-passes _ _ (ground (arith, v.version))) (
      >>-passes ((validate_identifier_iff "component" m.component).1 v.component) (
        >>-passes ((validate_identifier_iff "interface_version" m.interface_version).1 v.interface)
          (>>-passes (refuse_if-passes _ _ (ground (arith, v.some_endpoints, v.few_endpoints))) (
            >>-passes ((endpoints_iff m.endpoints).1 (v.endpoints, v.routes_apart)) (
              >>-passes (refuse_if-passes _ _ (ground (arith, v.few_effects, v.few_dependencies))) (
                >>-passes ((effects_iff m.effects).1 (v.targets, v.effects_apart)) (
                  >>-passes ((names_iff m.state_dependencies).1 (v.names, v.names_apart)) (
                    >>-passes
                      (refuse_if-passes _ _ (
                        ground (
                          arith,
                          any_of_All _ m.effects v.effects_known,
                          (dependencies_iff m.effects m.state_dependencies).1 v.dependencies_used,
                        )))
                      (refuse_if-passes _ _ ((limits_iff m.limits).1 v.limits))))))))))

  -- A manifest is accepted exactly where it is valid: its version, safe identifiers, 1 to 256
  -- endpoints of bounded absolute paths and SHA-256 digests, at most 64 effects and dependencies,
  -- no route, effect or name twice, state effects and dependencies that name each other, and
  -- limits within the maxima.
  pub validate_service_iff : (m : ServiceManifest) → (validate hex_decode m ≡ ok tt) ↔ IsValid m
  validate_service_iff m = (validate-IsValid m, validate_of_IsValid m)
