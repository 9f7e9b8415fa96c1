-- ===== src/Service.antt =====
-- src/service.rs: the manifest of a service and its validation. Hexadecimal is a parameter.
pub mod Valid
use Prim.Native.String
use anasemble.Prelude.{
  ℕ, String, Bool, true, false, not, ◌||◌, ◌&&◌, Option, none, some, List, [], ◌∷◌, Result, ok, err,
  ◌>>=◌, ◌>>◌, refuse_if, any, is_empty, ltb, leb, ◌==◌, length, if◌then◌else◌,
}
use anasemble.Prelude.Unique.{each_unique}
use anasemble.Text.{Text, text}
use anasemble.Text.Order.{text_eq}
use anasemble.Text.Ascii.{all, is_alphanumeric, is_graphic, has_byte, split}
use anasemble.Model.{Error, invalid_registry}

pub data HttpMethod : Type 0 where
  delete get head patch post put : HttpMethod

pub data EffectKind : Type 0 where
  clock filesystem network randomness state : EffectKind

pub data EffectAccess : Type 0 where
  read read_write write : EffectAccess

pub data StateAdapter : Type 0 where
  filesystem object_store postgres queue : StateAdapter

pub data Consistency : Type 0 where
  eventual snapshot transactional : Consistency

pub record HttpEndpoint : Type 0 where
  pub method : HttpMethod
  pub path : Text
  pub request_schema_sha256 : Text
  pub response_schema_sha256 : Text

pub record Effect : Type 0 where
  pub kind : EffectKind
  pub target : Text
  pub access : EffectAccess

pub record StateDependency : Type 0 where
  pub name : Text
  pub adapter : StateAdapter
  pub consistency : Consistency
  pub required : Bool

pub record ServiceLimits : Type 0 where
  pub request_bytes : ℕ  -- u64
  pub response_bytes : ℕ  -- u64
  pub wall_time_ms : ℕ  -- u64
  pub concurrent_requests : ℕ  -- u32

-- `http` holds nothing but the endpoints.
pub record ServiceManifest : Type 0 where
  pub version : Text
  pub component : Text
  pub interface_version : Text
  pub endpoints : List HttpEndpoint
  pub effects : List Effect
  pub state_dependencies : List StateDependency
  pub limits : ServiceLimits

abbrev pub method_rank : HttpMethod → ℕ
method_rank delete = 0
method_rank get = 1
method_rank head = 2
method_rank patch = 3
method_rank post = 4
method_rank put = 5

abbrev pub kind_rank : EffectKind → ℕ
kind_rank clock = 0
kind_rank EffectKind.filesystem = 1
kind_rank network = 2
kind_rank randomness = 3
kind_rank state = 4

abbrev pub access_rank : EffectAccess → ℕ
access_rank read = 0
access_rank read_write = 1
access_rank write = 2

-- Equality of the pairs in `routes`, and of effects.
abbrev pub route_eq : HttpEndpoint → HttpEndpoint → Bool
route_eq a b = method_rank a.method == method_rank b.method && text_eq a.path b.path

abbrev pub effect_eq : Effect → Effect → Bool
effect_eq a b =
    kind_rank a.kind == kind_rank b.kind
    && text_eq a.target b.target
    && access_rank a.access == access_rank b.access

abbrev pub is_state : EffectKind → Bool
is_state state = true
is_state _ = false

-- `byte.is_ascii_alphanumeric() || b"._:/-".contains(&byte)`
abbrev pub is_identifier_byte : ℕ → Bool
is_identifier_byte b =
    is_alphanumeric b || b == b'.' || b == b'_' || b == b':' || b == b'/' || b == b'-'

unfoldable pub validate_identifier : String → Text → Result Error (Unit {0})
validate_identifier label value =
    refuse_if (is_empty value || ltb 128 (length value) || not (all is_identifier_byte value))
      (invalid_registry (String.◌++◌ label " is empty, too long, or contains unsafe characters"))

abbrev pub starts_with_slash : Text → Bool
starts_with_slash [] = false
starts_with_slash (c ∷ cs) = c == b'/'

-- `contains("//")`
unfoldable pub has_double_slash : Text → Bool
has_double_slash [] = false
has_double_slash (a ∷ rest) = a == b'/' && starts_with_slash rest || has_double_slash rest

abbrev pub is_traversal : Text → Bool
is_traversal segment = text_eq segment (text ".") || text_eq segment (text "..")

unfoldable pub validate_path : Text → Result Error (Unit {0})
validate_path path =
    refuse_if
      (not (starts_with_slash path)
        || ltb 1024 (length path)
        || not (all (λ b. is_graphic b && not (b == b'\\')) path)
        || has_byte path b'?'
        || has_byte path b'#'
        || has_double_slash path
        || any is_traversal (split b'/' path))
      (invalid_registry
        "HTTP paths must be bounded absolute paths without query, fragment, empty interior, or traversal segments")

abbrev pub not_in : ℕ → ℕ → ℕ → Bool
not_in low high n = not (leb low n && leb n high)

-- A state effect names a dependency, and a dependency is named by a state effect.
abbrev pub names_dependency : List StateDependency → Effect → Bool
names_dependency dependencies e =
    any (λ (d : StateDependency). text_eq d.name e.target) dependencies

abbrev pub has_effect : List Effect → StateDependency → Bool
has_effect effects d = any (λ (e : Effect). is_state e.kind && text_eq e.target d.name) effects

module _ (hex_decode : Text → Option (List ℕ)) where
  abbrev pub not_32_bytes : Option (List ℕ) → Bool
  not_32_bytes none = true
  not_32_bytes (some bytes) = not (length bytes == 32)

  unfoldable pub validate_digest : String → Text → Result Error (Unit {0})
  validate_digest label digest =
      refuse_if (not (length digest == 64) || not_32_bytes (hex_decode digest))
        (invalid_registry (String.◌++◌ label " digest must be SHA-256 hex"))

  unfoldable pub validate_endpoint : HttpEndpoint → Result Error (Unit {0})
  validate_endpoint endpoint = do
    validate_path endpoint.path
    validate_digest "request schema" endpoint.request_schema_sha256
    validate_digest "response schema" endpoint.response_schema_sha256

  -- `ServiceManifest::validate`
  unfoldable pub validate : ServiceManifest → Result Error (Unit {0})
  validate m = do
    refuse_if (not (text_eq m.version (text "service-v1")))
        (invalid_registry "service manifest version must be service-v1")
    validate_identifier "component" m.component
    validate_identifier "interface_version" m.interface_version
    refuse_if (is_empty m.endpoints || ltb 256 (length m.endpoints))
        (invalid_registry "HTTP endpoints must contain between 1 and 256 entries")
    each_unique route_eq (λ e. e) validate_endpoint
        (invalid_registry "HTTP method and path pairs must be unique") m.endpoints []
    refuse_if (ltb 64 (length m.effects) || ltb 64 (length m.state_dependencies))
        (invalid_registry "effect or state dependency count exceeds 64")
    each_unique effect_eq (λ e. e) (λ (e : Effect). validate_identifier "effect target" e.target)
        (invalid_registry "effect declarations must be unique") m.effects []
    each_unique text_eq (λ (d : StateDependency). d.name)
        (λ (d : StateDependency). validate_identifier "state dependency name" d.name)
        (invalid_registry "state dependency names must be unique") m.state_dependencies []
    refuse_if
        (any (λ (e : Effect). is_state e.kind && not (names_dependency m.state_dependencies e))
            m.effects
          || any (λ d. not (has_effect m.effects d)) m.state_dependencies)
        (invalid_registry "state effects and state dependencies must reference each other exactly")
    refuse_if
        (not_in 1 67_108_864 m.limits.request_bytes
          || not_in 1 67_108_864 m.limits.response_bytes
          || not_in 1 300_000 m.limits.wall_time_ms
          || not_in 1 10_000 m.limits.concurrent_requests)
        (invalid_registry "service resource limits are zero or exceed safety maxima")
