-- ===== src/Tests/World.antt =====
-- An environment and a world with one tenant, an administrator and a trusted executor.
use Prim.Native.String.{◌++◌, count}
use uwo_shared_platform.Prelude.{String, true, false, none, some, List, [], ◌∷◌}
use uwo_shared_platform.Prelude.Int.{pos}
use uwo_shared_platform.Env.{Env, Json, Part}
use uwo_shared_platform.Contracts.Domain.{
  Product, MembershipStatus, Role, Tenant, TenantMembership, TenantStatus, VerifiedSubjectIdentity,
}
use uwo_shared_platform.Contracts.Billing.{ModelPrice, RateCard}
use uwo_shared_platform.ControlPlane.{Directory}
use uwo_shared_platform.ControlPlane.Authorization.{Permission, permission_value}
use uwo_shared_platform.Billing.World.{World, Db}
use uwo_shared_platform.Billing.Service.Reserve.{ReservationRequest}
use uwo_shared_platform.Billing.Service.Capture.{UsageReport}

abbrev pub dump : List (String × Json) → String
dump [] = ""
dump ((k, Json.text s) ∷ r) = k ++ s ++ dump r
dump ((k, _) ∷ r) = k ++ dump r

abbrev pub dump_list : List Part → String
dump_list [] = ""
dump_list (Part.scalar (Json.text s) ∷ r) = s ++ dump_list r
dump_list (Part.scalar _ ∷ r) = dump_list r
dump_list (Part.object o ∷ r) = dump o ++ dump_list r

-- A time is as late as its text is long, and every time is in UTC.
instance abbrev pub test_env : Env
test_env = record {
  from_iso_format = λ s. some (record { instant = pos (count s); utc_offset = some (pos 0) });
  plus_seconds = λ m n. some "TTTTTTTT";
  clock = λ n. "TT";
  utc_now = λ n. "TT";
  sha256_hex = λ s. s;
  json_dumps = dump;
  json_dumps_list = dump_list;
  is_alnum = λ c. true;
}

abbrev pub admin : VerifiedSubjectIdentity
admin = record { subject = "admin"; tenant_id = "ops"; verified_at = "T" }

abbrev pub executor : VerifiedSubjectIdentity
executor = record { subject = "gw"; tenant_id = "ops"; verified_at = "T" }

abbrev pub tenant : Tenant
tenant = record {
  tenant_id = "t1";
  name = "Tenant";
  status = TenantStatus.active;
  region = "eu";
  created_at = "T";
  updated_at = "T";
  version = pos 1;
}

abbrev pub reader : VerifiedSubjectIdentity
reader = record { subject = "reader"; tenant_id = "t1"; verified_at = "T" }

abbrev pub membership : TenantMembership
membership = record {
  membership_id = "m1";
  tenant_id = "t1";
  subject = "reader";
  status = MembershipStatus.active;
  role_ids = "role" ∷ [];
  created_at = "T";
  updated_at = "T";
  version = pos 1;
}

abbrev pub role : Role
role = record {
  role_id = "role";
  name = "Reader";
  permission_ids = permission_value Permission.billing_read ∷ [];
  created_at = "T";
  version = pos 1;
}

abbrev pub directory : Directory
directory = record {
  tenants = ("t1", tenant) ∷ ("t2", record tenant { tenant_id = "t2" }) ∷ [];
  memberships = (("t1", "reader"), membership) ∷ [];
  roles = ("role", role) ∷ [];
  subjects = "admin" ∷ "gw" ∷ "reader" ∷ [];
  platform_admin_subjects = "admin" ∷ [];
  trusted_executor_subjects = "gw" ∷ [];
}

abbrev pub price : ModelPrice
price = record {
  product = Product.aisa;
  model = "m";
  provider_id = "p";
  region = "eu";
  input_token_rate_microunits = pos 3;
  output_token_rate_microunits = pos 5;
  fixed_request_microunits = pos 7;
}

abbrev pub card : RateCard
card = record {
  rate_card_id = "rc";
  version = pos 1;
  effective_at = "T";
  prices = price ∷ [];
  created_at = "T";
}

abbrev pub empty_db : Db
empty_db = record {
  accounts = record { items = []; tenant_index = [] };
  ledger = record { items = []; account_entries = [] };
  reservations = [];
  usage = [];
  rate_cards = (("rc", pos 1), card) ∷ [];
  idempotency = [];
}

abbrev pub start : World
start = record {
  db = empty_db;
  failing = none;
  committed = false;
  mutation_started = false;
  ticks = 0;
  audit = [];
  balance_low_events = [];
  directory = directory;
}

abbrev pub request : ReservationRequest
request = record {
  product = Product.aisa;
  model = "m";
  request_id = "r1";
  amount_microunits = pos 100;
}

abbrev pub report : UsageReport
report = record {
  usage_event_id = "u1";
  provider_id = "p";
  provider_model_id = none;
  region = "eu";
  provider_request_id = some "x1";
  dimensions = record { input_tokens = pos 1001; output_tokens = pos 10; total_tokens = pos 1011 };
}
