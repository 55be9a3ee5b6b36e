-- ===== src/Tests/Runs.antt =====
-- Worlds with an account, with credit and with a reservation, and what the operations return in them.
use uwo_shared_platform.Prelude.{true, none, some, [], ◌∷◌}
use uwo_shared_platform.Prelude.Int.{pos, negsuc}
use uwo_shared_platform.Contracts.Domain.{Product}
use uwo_shared_platform.Contracts.Billing.{
  BillingAccount, BillingAccountStatus, LedgerEntryType, ReservationStatus,
}
use uwo_shared_platform.Billing.World.{
  World, ReservationMutationResult, CaptureMutationResult, ReleaseMutationResult,
  CreditMutationResult,
}
use uwo_shared_platform.Tests.World.{empty_db, start}

abbrev pub account : BillingAccount
account = record {
  account_id = "billing:t1";
  tenant_id = "t1";
  status = BillingAccountStatus.active;
  created_at = "TT";
  updated_at = "TT";
  version = pos 1;
}

abbrev pub other_account : BillingAccount
other_account = record account { account_id = "billing:t2"; tenant_id = "t2" }

-- what the grant returns
abbrev pub granted : CreditMutationResult
granted = record {
  balance = record {
    account_id = "billing:t1";
    tenant_id = "t1";
    available_microunits = pos 1000;
    reserved_microunits = pos 0;
    version = pos 2;
    as_of = "TT";
  };
  ledger_entry = record {
    entry_id = "ledger:billing.credit.grant:t1:admin:k2";
    account_id = "billing:t1";
    tenant_id = "t1";
    entry_type = LedgerEntryType.credit_grant;
    amount_microunits = pos 1000;
    available_delta_microunits = pos 1000;
    reserved_delta_microunits = pos 0;
    reference_id = "credit:k2";
    created_at = "TT";
    created_by = "admin";
    version = pos 2;
  };
  created = true;
}

-- what the reservation returns
abbrev pub reserved : ReservationMutationResult
reserved = record {
  reservation = record {
    reservation_id = "reservation:t1:r1";
    account_id = "billing:t1";
    tenant_id = "t1";
    product = Product.aisa;
    model = "m";
    request_id = "r1";
    estimated_microunits = pos 100;
    captured_microunits = pos 0;
    released_microunits = pos 0;
    status = ReservationStatus.active;
    created_at = "TT";
    expires_at = "TTTTTTTT";
    updated_at = "TT";
    version = pos 1;
  };
  balance = record {
    account_id = "billing:t1";
    tenant_id = "t1";
    available_microunits = pos 900;
    reserved_microunits = pos 100;
    version = pos 3;
    as_of = "TT";
  };
  ledger_entry = record {
    entry_id = "ledger:reserve:reservation:t1:r1";
    account_id = "billing:t1";
    tenant_id = "t1";
    entry_type = LedgerEntryType.usage_reservation;
    amount_microunits = pos 100;
    available_delta_microunits = negsuc 99;
    reserved_delta_microunits = pos 100;
    reference_id = "reservation:t1:r1";
    created_at = "TT";
    created_by = "gw";
    version = pos 3;
  };
  created = true;
}

-- what the settlement returns: 1001 tokens at 3 and 10 at 5 microunits a thousand, each rounded up,
-- and 7 for the request make 12 of the 100 reserved; the other 88 are released
abbrev pub settled : CaptureMutationResult
settled = record {
  reservation = record {
    reservation_id = "reservation:t1:r1";
    account_id = "billing:t1";
    tenant_id = "t1";
    product = Product.aisa;
    model = "m";
    request_id = "r1";
    estimated_microunits = pos 100;
    captured_microunits = pos 12;
    released_microunits = pos 88;
    status = ReservationStatus.released;
    created_at = "TT";
    expires_at = "TTTTTTTT";
    updated_at = "TT";
    version = pos 2;
  };
  balance = record {
    account_id = "billing:t1";
    tenant_id = "t1";
    available_microunits = pos 988;
    reserved_microunits = pos 0;
    version = pos 5;
    as_of = "TT";
  };
  usage_event = record {
    usage_event_id = "u1";
    reservation_id = "reservation:t1:r1";
    tenant_id = "t1";
    product = Product.aisa;
    model = "m";
    provider_id = "p";
    provider_model_id = none;
    region = "eu";
    request_id = "r1";
    provider_request_id = some "x1";
    dimensions = record {
      input_tokens = pos 1001;
      output_tokens = pos 10;
      total_tokens = pos 1011;
    };
    occurred_at = "TT";
    rate_card_id = "rc";
    rate_card_version = pos 1;
    calculated_charge_microunits = pos 12;
  };
  charge = record {
    rate_card_id = "rc";
    rate_card_version = pos 1;
    input_charge_microunits = pos 4;
    output_charge_microunits = pos 1;
    fixed_charge_microunits = pos 7;
    total_charge_microunits = pos 12;
    calculated_at = "TT";
  };
  ledger_entry = record {
    entry_id = "ledger:capture:u1";
    account_id = "billing:t1";
    tenant_id = "t1";
    entry_type = LedgerEntryType.usage_capture;
    amount_microunits = pos 12;
    available_delta_microunits = pos 0;
    reserved_delta_microunits = negsuc 11;
    reference_id = "reservation:t1:r1";
    created_at = "TT";
    created_by = "gw";
    version = pos 4;
  };
  created = true;
}

-- what the release returns
abbrev pub released : ReleaseMutationResult
released = record {
  reservation = record {
    reservation_id = "reservation:t1:r1";
    account_id = "billing:t1";
    tenant_id = "t1";
    product = Product.aisa;
    model = "m";
    request_id = "r1";
    estimated_microunits = pos 100;
    captured_microunits = pos 0;
    released_microunits = pos 100;
    status = ReservationStatus.released;
    created_at = "TT";
    expires_at = "TTTTTTTT";
    updated_at = "TT";
    version = pos 2;
  };
  balance = record {
    account_id = "billing:t1";
    tenant_id = "t1";
    available_microunits = pos 1000;
    reserved_microunits = pos 0;
    version = pos 4;
    as_of = "TT";
  };
  ledger_entry = record {
    entry_id = "ledger:gateway-release:reservation:t1:r";
    account_id = "billing:t1";
    tenant_id = "t1";
    entry_type = LedgerEntryType.reservation_release;
    amount_microunits = pos 100;
    available_delta_microunits = pos 100;
    reserved_delta_microunits = negsuc 99;
    reference_id = "reservation:t1:r1";
    created_at = "TT";
    created_by = "gw";
    version = pos 4;
  };
  created = true;
}

abbrev pub with_account : World
with_account = record start {
  db = record empty_db {
    accounts = record {
      items = ("billing:t1", account) ∷ ("billing:t2", other_account) ∷ [];
      tenant_index = ("t1", "billing:t1") ∷ ("t2", "billing:t2") ∷ [];
    };
  };
}

abbrev pub with_credit : World
with_credit = record with_account {
  db = record with_account.db {
    ledger = record {
      items = (granted.ledger_entry.entry_id, granted.ledger_entry) ∷ [];
      account_entries = ("billing:t1", granted.ledger_entry.entry_id ∷ []) ∷ [];
    };
  };
}

abbrev pub with_reservation : World
with_reservation = record with_credit {
  db = record with_credit.db {
    ledger = record {
      items =
          (granted.ledger_entry.entry_id, granted.ledger_entry)
          ∷ (reserved.ledger_entry.entry_id, reserved.ledger_entry)
          ∷ [];
      account_entries =
          ("billing:t1", granted.ledger_entry.entry_id ∷ reserved.ledger_entry.entry_id ∷ []) ∷ [];
    };
    reservations = ("reservation:t1:r1", reserved.reservation) ∷ [];
  };
}
