-- ===== src/Tests/Wallets.antt =====
-- The theorems of the wallets (src/wallets) on two users with a wallet each and a deposit.
use finstack.Base.{◌≡◌, refl, sym, ap, true, false, not, List, [], ◌∷◌, arith}
use mathlib.Core.Path.{subst}
use finstack.Base.Int.{pos, ◌+ℤ◌, ◌-ℤ◌, leb_ℤ}
use finstack.Base.Lists.{All}
use finstack.Base.Text.{Text, codes, text_eq}
use finstack.Base.Result.{ok, err, Error}
use finstack.Owners.{user}
use finstack.Ledger.Types.{normal_balance_for}
use finstack.Ledger.Posting.{PostingInput}
use finstack.Ledger.Store.{Ledger, commit_ok}
use finstack.Ledger.Accounts.{with_account}
use finstack.Ledger.Service.{PostedTransaction, new_account}
use finstack.Ledger.SystemAccounts.{external_clearing}
use finstack.Ledger.Outcome.{posted, posted_result}
use finstack.Wallets.Wallet.{
  Wallet, MoneyMovement, Balance, to_available, available_balance, pending_balance, frozen,
  CreditTarget, Bank,
}
use finstack.Wallets.Access.{movement_posting, wallet_balances, balance_at, account_of}
use finstack.Base.Action.{Throws}
use finstack.Wallets.Movements.{moved, release, transfer_within}
use finstack.Wallets.Spec.{deposits_into, reserves, releases, run, changed}
use finstack.Wallets.Sound.{IsBank}
use finstack.Wallets.Manage.{
  WalletsConfig, set_status, owned_by, purpose_account, resolve_credit_target,
}
use finstack.Wallets.Opened.{opened, opened_wallet}
use finstack.Wallets.Rows.{IsRegister}
use finstack.Wallets.Balances.{run-changed}
use finstack.Wallets.History.{run-IsBank}
use finstack.Wallets.Events.{
  Event, moves, opens, makes_primary, sets_status, serve_all, empty_bank, serve_all-never_negative,
  serve_all-IsRegister, serve_all-IsPlatform, empty_bank-IsPlatform,
}
use finstack.Wallets.Frozen.{all_available, holds, gives_back, holds-blocked, gives_back-set_status}
use finstack.Wallets.Holds.{gives_back-holds}
use finstack.Wallets.Stopped.{release-set_status}
use finstack.Wallets.Own.{deposit_method, counterpart, run_method, run_method-run}
use finstack.Wallets.Transfer.{transfer_within-balance_at}
use finstack.Wallets.Credit.{resolve_credit_target-finds}
use finstack.Tests.Ledger.{unary_uuids}

abbrev naira : WalletsConfig
naira = record { single = false; allowed_currencies = codes "NGN" ∷ [] }

abbrev one_wallet : Bank
one_wallet = opened (user 1) (codes "NGN") true empty_bank

-- Wallets 3 and 7.
abbrev two_wallets : Bank
two_wallets = opened (user 2) (codes "NGN") true one_wallet

abbrev openings : List Event
openings = opens (user 1) (codes "NGN") ∷ opens (user 2) (codes "NGN") ∷ []

openings-serve_all : serve_all naira openings empty_bank ≡ two_wallets
unfolding serve_all commit_ok
openings-serve_all = refl

two_wallets-IsBank : IsBank two_wallets
two_wallets-IsBank =
    subst IsBank openings-serve_all
      (serve_all-IsPlatform naira openings empty_bank empty_bank-IsPlatform).bank

abbrev first_wallet : Wallet
first_wallet = opened_wallet (user 1) (codes "NGN") true 0

abbrev second_wallet : Wallet
second_wallet = opened_wallet (user 2) (codes "NGN") true 4

abbrev paid_in : MoneyMovement
paid_in = record { amount = pos 500; reference = codes "dep"; description = codes "deposit" }

abbrev with_clearing : Ledger
with_clearing =
    with_account (new_account (external_clearing (codes "NGN")).input 8) two_wallets.ledger

abbrev paid_in_posting : PostingInput
paid_in_posting = movement_posting (codes "NGN") paid_in (moved 8 0 (pos 500))

abbrev paid_in_result : PostedTransaction
paid_in_result = posted_result (pos 500) paid_in_posting with_clearing

abbrev funded : Bank
funded = record {
  ledger = posted (pos 500) paid_in_posting with_clearing;
  wallets = two_wallets.wallets;
}

deposit-runs : run (deposits_into to_available) 3 paid_in two_wallets ≡ (ok paid_in_result, funded)
unfolding run ◌+ℤ◌ purpose_account
deposit-runs = refl

abbrev naira_text : Text
naira_text = codes "NGN"

run-changed_example :
    wallet_balances first_wallet (run (deposits_into to_available) 3 paid_in two_wallets).1.ledger
    ≡ changed
        (deposits_into to_available)
        (pos 500)
        (wallet_balances first_wallet two_wallets.ledger)
run-changed_example =
    run-changed (deposits_into to_available) 3 first_wallet paid_in two_wallets paid_in_result
      two_wallets-IsBank refl (ap (λ r. r.0) deposit-runs) refl

funded-IsBank : IsBank funded
funded-IsBank =
    subst IsBank (ap (λ r. r.1) deposit-runs)
      (run-IsBank (deposits_into to_available) 3 paid_in two_wallets paid_in_result
        two_wallets-IsBank (ap (λ r. r.0) deposit-runs)).0

abbrev held : MoneyMovement
held = record { amount = pos 200; reference = codes "hold"; description = codes "hold" }

abbrev held_result : PostedTransaction
held_result =
    posted_result (pos 200) (movement_posting naira_text held (moved 0 2 (pos 200))) funded.ledger

abbrev pub held_bank : Bank
held_bank = record {
  ledger = posted (pos 200) (movement_posting naira_text held (moved 0 2 (pos 200))) funded.ledger;
  wallets = two_wallets.wallets;
}

holds-runs : run (holds all_available) 3 held funded ≡ (ok held_result, held_bank)
unfolding run ◌+ℤ◌ ◌-ℤ◌ purpose_account
holds-runs = refl

abbrev let_go : MoneyMovement
let_go = record { amount = pos 200; reference = codes "free"; description = codes "release" }

abbrev let_go_result : PostedTransaction
let_go_result =
    posted_result (pos 200) (movement_posting naira_text let_go (moved 2 0 (pos 200)))
      held_bank.ledger

gives_back-runs : (run (gives_back all_available) 3 let_go held_bank).0 ≡ ok let_go_result
unfolding run ◌+ℤ◌ ◌-ℤ◌ purpose_account
gives_back-runs = refl

gives_back-holds_example :
    wallet_balances first_wallet
      (run (gives_back all_available) 3 let_go (run (holds all_available) 3 held funded).1).1.ledger
    ≡ wallet_balances first_wallet funded.ledger
gives_back-holds_example =
    gives_back-holds all_available 3 first_wallet held let_go funded held_result let_go_result
      funded-IsBank refl (ap (λ r. r.0) holds-runs) refl
      (subst (λ b. (run (gives_back all_available) 3 let_go b).0 ≡ ok let_go_result)
        (sym (ap (λ r. r.1) holds-runs)) gives_back-runs)
      refl refl

abbrev frozen_bank : Bank
frozen_bank = record funded {
  wallets = record first_wallet { status = frozen } ∷ second_wallet ∷ [];
}

holds-blocked_example :
    run (holds all_available) 3 held frozen_bank ≡ (err Error.wallet_not_active, frozen_bank)
holds-blocked_example =
    holds-blocked all_available 3 held frozen_bank (record first_wallet { status = frozen }) refl
      refl

gives_back-set_status_example :
    run (gives_back all_available) 3 let_go (set_status 3 frozen held_bank).1 ≡ (
      (run (gives_back all_available) 3 let_go held_bank).0,
      record (run (gives_back all_available) 3 let_go held_bank).1 {
        wallets = (set_status 3 frozen held_bank).1.wallets;
      },
    )
gives_back-set_status_example = gives_back-set_status all_available 3 3 frozen let_go held_bank

release-set_status_example :
    Throws (release 3 let_go (set_status 3 frozen held_bank).1)
    × ((run releases 3 let_go (set_status 3 frozen held_bank).1).0
        ≡ (run releases 3 let_go held_bank).0)
    × ((run releases 3 let_go (set_status 3 frozen held_bank).1).1.ledger
        ≡ (run releases 3 let_go held_bank).1.ledger)
release-set_status_example = release-set_status 3 frozen let_go held_bank first_wallet refl refl

method-runs : (run_method deposit_method 3 paid_in two_wallets).0 ≡ ok paid_in_result
unfolding run_method ◌+ℤ◌ purpose_account
method-runs = refl

run_method-run_example :
    run_method deposit_method 3 paid_in two_wallets
    ≡ run (counterpart deposit_method) 3 paid_in two_wallets
run_method-run_example =
    run_method-run 3 paid_in paid_in_result refl deposit_method two_wallets method-runs

abbrev sent_result : PostedTransaction
sent_result =
    posted_result (pos 200) (movement_posting naira_text held (moved 0 4 (pos 200))) funded.ledger

transfer-runs : (transfer_within first_wallet second_wallet held funded).0 ≡ ok sent_result
unfolding transfer_within ◌+ℤ◌ ◌-ℤ◌ purpose_account normal_balance_for
transfer-runs = refl

transfer_within-balance_at_example :
    (text_eq naira_text naira_text ≡ true)
    × (balance_at 0 (transfer_within first_wallet second_wallet held funded).1.ledger
        ≡ balance_at 0 funded.ledger -ℤ pos 200)
    × (balance_at 4 (transfer_within first_wallet second_wallet held funded).1.ledger
        ≡ balance_at 4 funded.ledger +ℤ pos 200)
    × (balance_at 1 (transfer_within first_wallet second_wallet held funded).1.ledger
        ≡ balance_at 1 funded.ledger)
transfer_within-balance_at_example =
    transfer_within-balance_at first_wallet second_wallet held funded sent_result 1
      (funded-IsBank.wallets.0.own available_balance)
      (funded-IsBank.wallets.1.0.own available_balance)
      (funded-IsBank.wallets.0.own pending_balance) (ground arith) (ground arith) (ground arith)
      transfer-runs refl

abbrev days_work : List Event
days_work =
    opens (user 1) naira_text
    ∷ opens (user 2) naira_text
    ∷ moves (deposits_into to_available) 3 paid_in
    ∷ sets_status 3 frozen
    ∷ makes_primary (user 2) 7
    ∷ moves reserves 3 held
    ∷ []

serve_all-never_negative_example :
    All
      (λ w.
        (k : Balance)
        → leb_ℤ (pos 0) (balance_at (account_of w k) (serve_all naira days_work empty_bank).ledger)
          ≡ true)
      (serve_all naira days_work empty_bank).wallets
serve_all-never_negative_example = serve_all-never_negative naira days_work

serve_all-IsRegister_example : IsRegister (serve_all naira days_work empty_bank).wallets
serve_all-IsRegister_example = serve_all-IsRegister naira days_work

two_wallets-IsRegister : IsRegister two_wallets.wallets
two_wallets-IsRegister =
    subst IsRegister (ap (λ b. b.wallets) openings-serve_all) (serve_all-IsRegister naira openings)

resolve_credit_target-finds_example :
    (t : CreditTarget) × (resolve_credit_target (user 2) (codes "USD") two_wallets ≡ ok t)
    × (owned_by (user 2) t.wallet ≡ true)
    × (t.requires_conversion ≡ not (text_eq t.wallet.currency (codes "USD")))
    × (t.requires_conversion ≡ true → t.wallet.is_primary ≡ true)
resolve_credit_target-finds_example =
    resolve_credit_target-finds (user 2) (codes "USD") two_wallets two_wallets-IsRegister refl
