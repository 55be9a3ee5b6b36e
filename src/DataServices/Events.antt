-- ===== src/DataServices/Events.antt =====
-- Events of services/data_service_common.py: `deterministic_id`, `PlatformEvent`, `platform_event`.
-- The keys of the attributes that are accepted are lower case, so `key.lower()` is the key.
use Prim.Native.String.{◌++◌}
use uwo_shared_platform.Prelude.{
  String, Bool, true, none, not, ◌&&◌, List, [], ◌∷◌, all, any, length, leb,
}
use uwo_shared_platform.Prelude.Keys.{Eq, Eq-discrete, derived_eq, ◌==◌, string_eq, int_eq}
use uwo_shared_platform.Contracts.Text.{is_substring, codes, take_chars}
use uwo_shared_platform.Env.{Env, Json, Part, is_utc}
use uwo_shared_platform.ControlPlane.Authorization.{is_in}
use uwo_shared_platform.DataServices.Outbox.{OutboxRecord, OutboxStatus, stable}

pub record PlatformEvent : Type 0 where
  pub event_id : String
  pub event_type : String
  pub tenant_id : String
  pub occurred_at : String
  pub request_id : String
  pub attributes : List (String × Json)

unfoldable pub Json-discrete : Discrete Json
Json-discrete = hlevel (Eq-discrete string_eq, Eq-discrete int_eq)

unfoldable pub PlatformEvent-discrete : Discrete PlatformEvent
PlatformEvent-discrete = hlevel (Eq-discrete string_eq, Json-discrete)

instance abbrev pub event_eq : Eq PlatformEvent
event_eq = derived_eq PlatformEvent-discrete

-- `EVENT_ATTRIBUTE_ALLOWLIST`
abbrev pub event_attribute_allowlist : List String
event_attribute_allowlist =
    "resource_id" ∷ "reason_code" ∷ "provider_id" ∷ "region" ∷ "product" ∷ "permission"
    ∷ "pseudonymous_subject_id" ∷ "status" ∷ "model" ∷ "channel" ∷ "outcome" ∷ []

-- `FORBIDDEN_EVENT_TERMS`
abbrev pub forbidden_event_terms : List String
forbidden_event_terms =
    "prompt" ∷ "output" ∷ "body" ∷ "message" ∷ "token" ∷ "secret" ∷ "password" ∷ "credential"
    ∷ "authorization" ∷ "api_key" ∷ "storage_key" ∷ "download_token" ∷ "exception" ∷ "stack" ∷ []

abbrev is_sensitive : String → Bool
is_sensitive key = any (λ term. is_substring term key) forbidden_event_terms

abbrev fits : Json → Bool
fits (Json.text s) = leb (length (codes s)) 256
fits _ = true

-- the tests of the attributes
unfoldable pub attributes_valid : List (String × Json) → Bool
attributes_valid attributes =
    all (λ (item : String × Json). is_in item.0 event_attribute_allowlist) attributes
    && all (λ (item : String × Json). not (is_sensitive item.0) && fits item.1) attributes

module _ ⦃env : Env⦄ where
  -- `deterministic_id`
  unfoldable pub deterministic_id : String → List Part → String
  deterministic_id namespace parts =
      namespace
      ++ "-"
      ++ take_chars 32
          (env.sha256_hex (env.json_dumps_list (Part.scalar (Json.text namespace) ∷ parts)))

  -- `_event_id`
  unfoldable pub event_id_of : String → String → String → List (String × Json) → String
  event_id_of event_type tenant_id request_id attributes = deterministic_id "evt" (
      Part.scalar (Json.text event_type)
      ∷ Part.scalar (Json.text tenant_id)
      ∷ Part.scalar (Json.text request_id)
      ∷ Part.object attributes
      ∷ [])

  -- `PlatformEvent.__post_init__`; every event has the schema version "1"
  unfoldable pub event_valid : PlatformEvent → Bool
  event_valid e =
      stable env.is_alnum e.event_type
      && stable env.is_alnum e.tenant_id
      && stable env.is_alnum e.request_id
      && is_utc e.occurred_at
      && attributes_valid e.attributes
      && e.event_id == event_id_of e.event_type e.tenant_id e.request_id e.attributes

  -- `platform_event`, with what `utc_now()` reads, before the tests
  unfoldable pub platform_event :
      String → String → String → List (String × Json) → String → PlatformEvent
  platform_event event_type tenant_id request_id attributes timestamp = record {
    event_id = event_id_of event_type tenant_id request_id attributes;
    event_type = event_type;
    tenant_id = tenant_id;
    occurred_at = timestamp;
    request_id = request_id;
    attributes = attributes;
  }

  -- the name of an event's record
  abbrev pub record_id_of : String → String
  record_id_of event_id = deterministic_id "outbox" (Part.scalar (Json.text event_id) ∷ [])

  abbrev pub pending_record : PlatformEvent → OutboxRecord PlatformEvent
  pending_record event = record {
    record_id = record_id_of event.event_id;
    event = event;
    status = OutboxStatus.pending;
    attempts = 0;
    next_attempt_at = none;
    version = 1;
    lease_owner = none;
    lease_expires_at = none;
    max_attempts = 5;
  }
