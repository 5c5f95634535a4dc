-- ===== src/Wallets/OpenedBank.antt =====
-- A wallet that `create` of wallets.service.ts opens has three new accounts of its own.
use finstack.Base.{ℕ, suc, ◌≡◌, refl, ◌∙◌, ◌<◌, Bool, none, List, [], ◌∷◌, ◌==◌, arith}
use finstack.Base.Lists.{All, All-map, All-snoc, find_by-append_new}
use finstack.Base.Text.{Text, codes}
use finstack.Owners.{Owner}
use finstack.Ledger.Types.{LedgerAccount, normal_balance_for}
use finstack.Ledger.Store.{Ledger, insert_account, find_account, has_id}
use finstack.Ledger.Accounts.{with_account}
use finstack.Ledger.Consistency.{IsSound}
use finstack.Ledger.Trial.{Distinct}
use finstack.Wallets.Wallet.{
  Wallet, Bank, Balance, available_balance, pending_balance, reserved_balance,
}
use finstack.Wallets.Access.{account_of}
use finstack.Wallets.Spec.{same_balance}
use finstack.Wallets.Manage.{purpose_account}
use finstack.Wallets.Sound.{IsBank, IsOwn, IsWallet, Later, insert_account-Later}
use finstack.Wallets.Opened.{purpose_row, opened_wallet, opened}
use finstack.Wallets.Balances.{Later-IsWallet}

find_account-fresh :
    (rows : List LedgerAccount) (n : ℕ) → All (λ a. a.id < n) rows → find_account n rows ≡ none
find_account-fresh [] n h = refl
find_account-fresh (a ∷ rows) n h = ground (arith, h.0, find_account-fresh rows n h.1)

-- An account that `insertWallet` creates.
with_row : Text → Text → Ledger → Ledger
with_row purpose currency l = with_account (purpose_row purpose currency l.next_id) l

with_row-Later :
    (purpose currency : Text) (l : Ledger)
    → IsSound l
    → Distinct l.accounts
    → Later l (with_row purpose currency l)
unfolding with_row insert_account purpose_account
with_row-Later purpose currency l s d =
    insert_account-Later (purpose_row purpose currency l.next_id) l refl s d

with_row-IsOwn :
    (purpose currency : Text) (l : Ledger)
    → IsSound l
    → IsOwn (with_row purpose currency l) l.next_id
unfolding with_row purpose_account normal_balance_for
with_row-IsOwn purpose currency l s = record {
  row = purpose_row purpose currency l.next_id;
  found =
      find_by-append_new (has_id l.next_id) l.accounts _
        (find_account-fresh l.accounts l.next_id s.fresh_accounts)
      ∙ ground arith;
  uncoded = refl;
  liability_side = refl;
  never_negative = refl;
}

-- The id of the wallet's own row is drawn after those of its accounts.
bumped : Ledger → Ledger
bumped l = record l { next_id = suc l.next_id }

bumped-Later : (l : Ledger) → IsSound l → Distinct l.accounts → Later l (bumped l)
unfolding bumped
bumped-Later l s d = record {
  sound = record {
    cached = s.cached;
    covered = s.covered;
    matched = s.matched;
    fresh_accounts = All-map _ _ l.accounts (λ a h. omega (arith, h)) s.fresh_accounts;
    fresh_transactions = All-map _ _ l.transactions (λ t h. omega (arith, h)) s.fresh_transactions;
    known = All-map _ _ l.entries (λ e h. omega (arith, h)) s.known;
    indexed = s.indexed;
  };
  distinct = d;
  own = λ id own. record {
    row = own.row;
    found = own.found;
    uncoded = own.uncoded;
    liability_side = own.liability_side;
    never_negative = own.never_negative;
  };
  grows = omega arith;
}

Later-trans : (k l m : Ledger) → Later k l → Later l m → Later k m
Later-trans k l m f g = record {
  sound = g.sound;
  distinct = g.distinct;
  own = λ id own. g.own id (f.own id own);
  grows = omega (arith, f.grows, g.grows);
}

module _ (owner : Owner) (currency : Text) (primary : Bool) (b : Bank) (bank : IsBank b) where
  one : Ledger
  one = with_row (codes "available") currency b.ledger

  two : Ledger
  two = with_row (codes "pending") currency one

  three : Ledger
  three = with_row (codes "reserved") currency two

  four : Ledger
  four = bumped three

  first_step : Later b.ledger one
  unfolding one with_row
  first_step = with_row-Later (codes "available") currency b.ledger bank.sound bank.distinct

  second_step : Later one two
  unfolding two with_row
  second_step = with_row-Later (codes "pending") currency one first_step.sound first_step.distinct

  third_step : Later two three
  unfolding three with_row
  third_step = with_row-Later (codes "reserved") currency two second_step.sound second_step.distinct

  fourth_step : Later three four
  unfolding four bumped
  fourth_step = bumped-Later three third_step.sound third_step.distinct

  w : Wallet
  w = opened_wallet owner currency primary b.ledger.next_id

  w-IsOwn : (k : Balance) → IsOwn four (account_of w k)
  unfolding w four three two one with_row
  w-IsOwn available_balance = fourth_step.own _ (
      third_step.own _
        (second_step.own _ (with_row-IsOwn (codes "available") currency b.ledger bank.sound)))
  w-IsOwn pending_balance =
      fourth_step.own _
        (third_step.own _ (with_row-IsOwn (codes "pending") currency one first_step.sound))
  w-IsOwn reserved_balance =
      fourth_step.own _ (with_row-IsOwn (codes "reserved") currency two second_step.sound)

  w-apart : (i k : Balance) → (account_of w i == account_of w k) ≡ same_balance i k
  unfolding w
  w-apart available_balance available_balance = ground arith
  w-apart available_balance pending_balance = ground arith
  w-apart available_balance reserved_balance = ground arith
  w-apart pending_balance available_balance = ground arith
  w-apart pending_balance pending_balance = ground arith
  w-apart pending_balance reserved_balance = ground arith
  w-apart reserved_balance available_balance = ground arith
  w-apart reserved_balance pending_balance = ground arith
  w-apart reserved_balance reserved_balance = ground arith

  every_step : Later b.ledger four
  every_step =
      Later-trans b.ledger one four first_step
        (Later-trans one two four second_step (Later-trans two three four third_step fourth_step))

  pub opened-IsBank : IsBank (opened owner currency primary b)
  unfolding w four three two one with_row bumped
  opened-IsBank = record {
    sound = every_step.sound;
    distinct = every_step.distinct;
    wallets =
        All-snoc (IsWallet four) b.wallets w
          (All-map _ _ b.wallets (λ v h. Later-IsWallet b.ledger four v every_step h) bank.wallets)
          (record { own = w-IsOwn; apart = w-apart });
    fresh =
        All-snoc _ b.wallets w (All-map _ _ b.wallets (λ v h. omega (arith, h)) bank.fresh)
          (omega arith);
  }
