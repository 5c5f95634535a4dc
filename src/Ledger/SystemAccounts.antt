-- ===== src/Ledger/SystemAccounts.antt =====
-- system-accounts.ts: the platform's own accounts, one for each currency.
use finstack.Base.{◌++◌, some, true, false}
use finstack.Base.Text.{Text, codes}
use finstack.Ledger.Types.{asset, revenue}
use finstack.Ledger.Service.{CreateLedgerAccountInput}

-- A definition has its code beside the input that it gives the ledger.
pub record SystemAccountDefinition : Type 0 where
  pub code : Text
  pub input : CreateLedgerAccountInput

unfoldable pub external_clearing : Text → SystemAccountDefinition
external_clearing currency = record {
  code = codes "system:external-clearing:" ++ currency;
  input = record {
    name = codes "External clearing (" ++ (currency ++ codes ")");
    type = asset;
    currency = currency;
    code = some (codes "system:external-clearing:" ++ currency);
    allow_negative_balance = true;
  };
}

unfoldable pub fx_position : Text → SystemAccountDefinition
fx_position currency = record {
  code = codes "system:fx-position:" ++ currency;
  input = record {
    name = codes "FX position (" ++ (currency ++ codes ")");
    type = asset;
    currency = currency;
    code = some (codes "system:fx-position:" ++ currency);
    allow_negative_balance = true;
  };
}

unfoldable pub fee_revenue : Text → SystemAccountDefinition
fee_revenue currency = record {
  code = codes "system:fee-revenue:" ++ currency;
  input = record {
    name = codes "Fee revenue (" ++ (currency ++ codes ")");
    type = revenue;
    currency = currency;
    code = some (codes "system:fee-revenue:" ++ currency);
    allow_negative_balance = false;
  };
}

unfoldable pub fx_revenue : Text → SystemAccountDefinition
fx_revenue currency = record {
  code = codes "system:fx-revenue:" ++ currency;
  input = record {
    name = codes "FX revenue (" ++ (currency ++ codes ")");
    type = revenue;
    currency = currency;
    code = some (codes "system:fx-revenue:" ++ currency);
    allow_negative_balance = false;
  };
}
