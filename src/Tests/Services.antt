-- ===== src/Tests/Services.antt =====
-- The manifest of the tests of src/service.rs, with a decoder of hexadecimal.
use anasemble.Prelude.{
  ℕ, ◌≡◌, ◌↔◌, refl, ◌+◌, ◌*◌, ◌-◌, true, Option, none, some, List, [], ◌∷◌, ok, leb, ◌&&◌,
  if◌then◌else◌,
}
use anasemble.Text.{Text, text}
use anasemble.Service.{
  post, state, read_write, postgres, transactional, ServiceManifest, validate_identifier,
  has_double_slash, validate_path, validate_digest, validate_endpoint, validate,
}
use anasemble.Prelude.Unique.{each_unique}
use anasemble.Text.Order.{text_eq}
use anasemble.Text.Ascii.{split}
use anasemble.Service.Valid.{IsValid, validate_service_iff}

abbrev digit : ℕ → Option ℕ
digit c =
    if leb b'0' c && leb c b'9'
    then some (c - b'0')
    else (if leb b'a' c && leb c b'f' then some (c - 87) else none)

abbrev both : Option ℕ → Option ℕ → Option (List ℕ) → Option (List ℕ)
both (some high) (some low) (some rest) = some ((16 * high + low) ∷ rest)
both _ _ _ = none

abbrev pub hex_decode : Text → Option (List ℕ)
hex_decode [] = some []
hex_decode (a ∷ []) = none
hex_decode (a ∷ b ∷ rest) = both (digit a) (digit b) (hex_decode rest)

abbrev pub ones : Text
ones = text "1111111111111111111111111111111111111111111111111111111111111111"

abbrev pub orders : ServiceManifest
orders = record {
  version = text "service-v1";
  component = text "orders";
  interface_version = text "1";
  endpoints =
      record {
        method = post;
        path = text "/orders";
        request_schema_sha256 = ones;
        response_schema_sha256 = ones;
      }
      ∷ [];
  effects = record { kind = state; target = text "orders-db"; access = read_write } ∷ [];
  state_dependencies =
      record {
        name = text "orders-db";
        adapter = postgres;
        consistency = transactional;
        required = true;
      }
      ∷ [];
  limits = record {
    request_bytes = 1_048_576;
    response_bytes = 1_048_576;
    wall_time_ms = 5_000;
    concurrent_requests = 64;
  };
}

accepted : validate hex_decode orders ≡ ok tt
unfolding validate validate_identifier has_double_slash validate_path validate_digest
    validate_endpoint each_unique split text_eq
accepted = refl

validate_service_iff_example : (validate hex_decode orders ≡ ok tt) ↔ IsValid hex_decode orders
validate_service_iff_example = validate_service_iff hex_decode orders
