-- ===== src/Wallets/Manage.antt =====
-- wallets.service.ts: the methods that open wallets, choose the primary one, and find the wallet that
-- a payment lands in.
use finstack.Base.{
  ℕ, suc, Bool, true, false, ◌&&◌, not, Option, none, some, List, [], ◌∷◌, ◌++◌, map, if◌then◌else◌,
}
use finstack.Base.Lists.{find_by, any_by, filter_by}
use finstack.Base.Text.{Text, codes, text_eq}
use finstack.Base.Result.{Result, ok, err, Error}
use finstack.Base.Action.{Action, ◌>>=◌, ◌>>◌, pure, gets, throw, throw_when}
use finstack.Owners.{Owner, same_owner}
use finstack.Ledger.Types.{LedgerAccount, liability}
use finstack.Ledger.Service.{CreateLedgerAccountInput, create_account}
use finstack.Wallets.Wallet.{
  Wallet, WalletStatus, active, is_active_status, CreditTarget, WalletBalances, Bank, on_ledger,
  transaction,
}
use finstack.Wallets.Access.{has_wallet_id, find_owned, wallet_balances}

-- `WalletsConfig`: `single` is one wallet per owner.
pub record WalletsConfig : Type 0 where
  pub single : Bool
  pub allowed_currencies : List Text

-- `boolean | 'if-first'`
pub data Primacy : Type 0 where
  fixed : Bool → Primacy
  if_first : Primacy

abbrev pub owned_by : Owner → Wallet → Bool
owned_by owner w = same_owner w.owner owner

-- uq_wallets_user_currency and uq_wallets_org_currency
abbrev pub same_currency_slot : Wallet → Wallet → Bool
same_currency_slot v w = same_owner v.owner w.owner && text_eq v.currency w.currency

-- uq_wallets_user_primary and uq_wallets_org_primary
abbrev pub same_primary_slot : Wallet → Wallet → Bool
same_primary_slot v w = same_owner v.owner w.owner && (v.is_primary && w.is_primary)

-- INSERT INTO wallets. No row holds the accounts that were just created, so the unique indexes on
-- the three accounts never refuse it.
unfoldable pub save_wallet : Wallet → Action Bank Wallet
unfolding text_eq
save_wallet w b =
    if any_by (λ v. same_currency_slot v w) b.wallets
    then (err Error.unique_wallet_currency, b)
    else if any_by (λ v. same_primary_slot v w) b.wallets
    then (err Error.unique_wallet_primary, b)
    else (
      ok w,
      record b {
        wallets = b.wallets ++ w ∷ [];
        ledger = record b.ledger { next_id = suc b.ledger.next_id };
      },
    )

unfoldable pub purpose_account : Text → Text → CreateLedgerAccountInput
purpose_account purpose currency = record {
  name = codes "Wallet " ++ (purpose ++ (codes " (" ++ (currency ++ codes ")")));
  type = liability;
  currency = currency;
  code = none;
  allow_negative_balance = false;
}

abbrev pub primary_flag : Owner → Primacy → Bank → Bool
primary_flag owner (fixed flag) b = flag
primary_flag owner if_first b = not (any_by (λ w. owned_by owner w && w.is_primary) b.wallets)

abbrev pub new_wallet :
    ℕ → Owner → Text → Bool → LedgerAccount → LedgerAccount → LedgerAccount → Wallet
new_wallet id owner currency primary available pending reserved = record {
  id = id;
  owner = owner;
  currency = currency;
  status = active;
  is_primary = primary;
  available_account_id = available.id;
  pending_account_id = pending.id;
  reserved_account_id = reserved.id;
}

-- The body of the database transaction of `insertWallet`.
unfoldable pub insert_rows : Owner → Text → Primacy → Action Bank Wallet
unfolding create_account purpose_account save_wallet
insert_rows owner currency primacy = do
  is_primary ← gets (primary_flag owner primacy)
  available ← on_ledger (create_account (purpose_account (codes "available") currency))
  pending ← on_ledger (create_account (purpose_account (codes "pending") currency))
  reserved ← on_ledger (create_account (purpose_account (codes "reserved") currency))
  id ← gets (λ b. b.ledger.next_id)
  save_wallet (new_wallet id owner currency is_primary available pending reserved)

unfoldable pub insert_wallet : Owner → Text → Primacy → Action Bank Wallet
unfolding insert_rows
insert_wallet owner currency primacy = transaction (insert_rows owner currency primacy)

-- isUniqueViolation(error, CURRENCY_CONSTRAINTS)
abbrev pub clashes_on_currency : Error → Bool
clashes_on_currency Error.unique_wallet_currency = true
clashes_on_currency x = false

-- isUniqueViolation(error, PRIMARY_CONSTRAINTS)
abbrev pub clashes_on_primary : Error → Bool
clashes_on_primary Error.unique_wallet_primary = true
clashes_on_primary x = false

-- The catch clause of the retry.
abbrev pub on_retry : Result Wallet × Bank → Result Wallet × Bank
on_retry (ok w, b) = (ok w, b)
on_retry (err x, b) =
    if clashes_on_currency x then (err Error.wallet_already_exists, b) else (err x, b)

-- The catch clause of `create`.
abbrev pub on_clash : Bool → Owner → Text → Result Wallet × Bank → Result Wallet × Bank
on_clash single owner currency (ok w, b) = (ok w, b)
on_clash single owner currency (err x, b) =
    if clashes_on_currency x
    then (err Error.wallet_already_exists, b)
    else if clashes_on_primary x
    then if single
      then (err Error.wallet_already_exists, b)
      else on_retry (insert_wallet owner currency (fixed false) b)
    else (err x, b)

unfoldable pub create : WalletsConfig → Owner → Text → Action Bank Wallet
unfolding insert_wallet text_eq
create config owner currency = do
  throw_when (not (any_by (λ c. text_eq c currency) config.allowed_currencies))
      Error.wallet_currency_not_allowed
  λ b.
      on_clash config.single owner currency
        (insert_wallet owner currency (if config.single then fixed true else if_first) b)

-- The statement that clears the owner's primary flags.
abbrev pub cleared : Owner → Wallet → Wallet
cleared owner w = if owned_by owner w then record w { is_primary = false } else w

abbrev pub raised : ℕ → Wallet → Wallet
raised id w = if has_wallet_id id w then record w { is_primary = true } else w

-- The two updates of `setPrimary`, in their order.
abbrev pub switch_primary : Owner → ℕ → Action Bank (Unit {0})
switch_primary owner id b =
    (ok tt, record b { wallets = map (raised id) (map (cleared owner) b.wallets) })

abbrev pub make_primary : Owner → ℕ → Wallet → Action Bank (Unit {0})
make_primary owner id target =
    if target.is_primary
    then pure tt
    else if not (is_active_status target.status)
    then throw Error.wallet_not_active
    else switch_primary owner id

-- The body of the database transaction of `setPrimary`.
abbrev pub change_primary : Owner → ℕ → Action Bank (Unit {0})
change_primary owner id = find_owned owner id >>= make_primary owner id

unfoldable pub set_primary : Owner → ℕ → Action Bank Wallet
set_primary owner id = do transaction (change_primary owner id); find_owned owner id

unfoldable pub set_status : ℕ → WalletStatus → Action Bank (Unit {0})
set_status id status b = (
  ok tt,
  record b {
    wallets = map (λ w. if has_wallet_id id w then record w { status = status } else w) b.wallets;
  },
)

abbrev pub or_not_found : Option Wallet → Action Bank Wallet
or_not_found none = throw Error.wallet_not_found
or_not_found (some w) = pure w

-- `findPrimaryWallet`
abbrev pub find_primary_wallet : Owner → Bank → Option Wallet
find_primary_wallet owner b = find_by (λ w. owned_by owner w && w.is_primary) b.wallets

abbrev pub find_wallet : Owner → Text → Bank → Option Wallet
find_wallet owner currency b =
    find_by (λ w. owned_by owner w && text_eq w.currency currency) b.wallets

unfoldable pub get_primary : Owner → Action Bank Wallet
get_primary owner b = or_not_found (find_primary_wallet owner b) b

-- Primary wallet first, then by age.
unfoldable pub list_for : Owner → Bank → List (Wallet × WalletBalances)
unfolding wallet_balances
list_for owner b =
    let own = filter_by (owned_by owner) b.wallets in
    map (λ w. (w, wallet_balances w b.ledger))
      (filter_by (λ w. w.is_primary) own ++ filter_by (λ w. not w.is_primary) own)

-- The crediting rule.
unfoldable pub resolve_credit_target : Owner → Text → Bank → Result CreditTarget
unfolding text_eq
resolve_credit_target owner currency b =
    let own = filter_by (owned_by owner) b.wallets in
    elim (find_by (λ w. text_eq w.currency currency) own) [
      | some exact ↦ ok (record { wallet = exact; requires_conversion = false })
      | none ↦ elim (find_by (λ w. w.is_primary) own) [
        | none ↦ err Error.wallet_not_found
        | some primary ↦ ok (record { wallet = primary; requires_conversion = true })
      ]
    ]
