-- ===== src/Wallets/Refines.antt =====
-- The movements of wallets.service.ts against their specification (Wallets/Spec.antt).
use finstack.Base.{ℕ, ◌≡◌, ◌≢◌, refl, sym, ◌∙◌, ap, some, List, [], ◌∷◌, arith}
use mathlib.Core.Path.{subst}
use finstack.Base.Lists.{find_by, find_by-All, find_by-passes}
use finstack.Base.Result.{Result, ok}
use finstack.Base.Action.{Action, after, after-eq-ok, after-ok}
use finstack.Ledger.Types.{LedgerAccount}
use finstack.Ledger.Posting.{Uuids}
use finstack.Ledger.Store.{has_id}
use finstack.Ledger.Service.{PostedTransaction}
use finstack.Ledger.SystemAccounts.{SystemAccountDefinition, external_clearing, fee_revenue}
use finstack.Wallets.Wallet.{Wallet, MoneyMovement, Bank}
use finstack.Wallets.Access.{
  balance_at, has_wallet_id, get_wallet, lock_active_wallets, system_account, clearing_account,
  post_movement_within,
}
use finstack.Wallets.Movements.{
  deposit_within, reserve_within, release_within, make_available_within, reserve_split_within,
  release_split_within, collect_fee_within, refund_fee_within,
}
use finstack.Wallets.Spec.{
  Operation, deposits_into, collects_fee_from, reserves, releases, makes_available, refunds_fee,
  reserves_split, releases_split, run, legs,
}
use finstack.Wallets.Sound.{IsBank, IsOwn, Later, Later-refl}
use finstack.Wallets.Platform.{ensure_system_account-IsApart}

-- The tables before a movement posts: the account of the platform, if it takes part, is there.
pub record IsReady (b start : Bank) (platform : ℕ) : Type 0 where
  pub later : Later b.ledger start.ledger
  pub kept : (id : ℕ) → IsOwn b.ledger id → balance_at id start.ledger ≡ balance_at id b.ledger
  pub apart : (id : ℕ) → IsOwn start.ledger id → platform ≢ id
  pub same_wallets : start.wallets ≡ b.wallets

system_account-IsReady :
    (d : SystemAccountDefinition) (b : Bank) (a : LedgerAccount)
    → IsBank b
    → (system_account d b).0 ≡ ok a
    → IsReady b (system_account d b).1 a.id
unfolding system_account
system_account-IsReady d b a bank h =
    let step = ensure_system_account-IsApart d.input d.code b.ledger a bank.sound bank.distinct h in
    record { later = step.later; kept = step.kept; apart = step.apart; same_wallets = refl }

-- No account has the id that comes next.
here-IsReady : (b : Bank) → IsBank b → IsReady b b b.ledger.next_id
here-IsReady b bank = record {
  later = Later-refl b.ledger bank.sound bank.distinct;
  kept = λ id own. refl;
  apart = λ id own.
      let below =
        find_by-All _ (has_id id) b.ledger.accounts own.row bank.sound.fresh_accounts own.found in
      let named = find_by-passes (has_id id) b.ledger.accounts own.row own.found in
      ground (arith, below, named);
  same_wallets = refl;
}

module _ ⦃u : Uuids⦄ where
  -- What a movement that returns has done.
  pub record Posts (op : Operation) (w : Wallet) (m : MoneyMovement) (b : Bank)
      (r : Result PostedTransaction × Bank) : Type 0 where
    pub start : Bank
    pub platform : ℕ
    pub ready : IsReady b start platform
    pub posts : r ≡ post_movement_within w.currency m (legs op w platform m.amount) start

  -- The end of a movement in which an account of the platform takes part.
  with_platform :
      (op : Operation) (w : Wallet) (m : MoneyMovement) (b : Bank) (d : SystemAccountDefinition)
      (rest : LedgerAccount → Action Bank PostedTransaction) (p : PostedTransaction)
      → IsBank b
      → ((a : LedgerAccount) (c : Bank)
          → (rest a c).0 ≡ ok p
          → rest a c ≡ post_movement_within w.currency m (legs op w a.id m.amount) c)
      → (after (system_account d b) rest).0 ≡ ok p
      → Posts op w m b (after (system_account d b) rest)
  with_platform op w m b d rest p bank ends done =
      let (a, found, rest_done) = after-eq-ok (system_account d b) rest done in
      record {
        start = (system_account d b).1;
        platform = a.id;
        ready = system_account-IsReady d b a bank (ap (λ r. r.0) found);
        posts = after-ok (system_account d b) rest found ∙ ends a (system_account d b).1 rest_done;
      }

  -- The wallets are locked first, which changes nothing.
  pub locked :
      (ids : List ℕ) (b : Bank) (rest : Action Bank PostedTransaction) (p : PostedTransaction)
      → (after (lock_active_wallets ids b) (λ _. rest)).0 ≡ ok p
      → after (lock_active_wallets ids b) (λ _. rest) ≡ rest b
  unfolding lock_active_wallets
  locked ids b rest p done =
      let (_, passed, _) = after-eq-ok (lock_active_wallets ids b) (λ _. rest) done in
      after-ok (lock_active_wallets ids b) (λ _. rest) passed

  module _ (id : ℕ) (w : Wallet) (m : MoneyMovement) (b : Bank) (p : PostedTransaction)
      (bank : IsBank b) (found : find_by (has_wallet_id id) b.wallets ≡ some w) where
    -- The wallet is read first.
    reads :
        (op : Operation) (rest : Wallet → Action Bank PostedTransaction)
        → ((rest w b).0 ≡ ok p → Posts op w m b (rest w b))
        → (after (get_wallet id b) rest).0 ≡ ok p
        → Posts op w m b (after (get_wallet id b) rest)
    reads op rest h done =
        let read : after (get_wallet id b) rest ≡ rest w b =
          after-ok (get_wallet id b) rest (rw (found, get_wallet) refl) in
        subst (Posts op w m b) (sym read) (h (subst (λ r. r.0 ≡ ok p) read done))

    -- The movement posts with no account of the platform.
    ends_now :
        (op : Operation) (r : Result PostedTransaction × Bank)
        → r ≡ post_movement_within w.currency m (legs op w b.ledger.next_id m.amount) b
        → Posts op w m b r
    ends_now op r e = record {
      start = b;
      platform = b.ledger.next_id;
      ready = here-IsReady b bank;
      posts = e;
    }

    locks :
        (op : Operation) (ids : List ℕ) (rest : Action Bank PostedTransaction)
        → ((rest b).0 ≡ ok p → Posts op w m b (rest b))
        → (after (lock_active_wallets ids b) (λ _. rest)).0 ≡ ok p
        → Posts op w m b (after (lock_active_wallets ids b) (λ _. rest))
    locks op ids rest h done =
        let read = locked ids b rest p done in
        subst (Posts op w m b) (sym read) (h (subst (λ r. r.0 ≡ ok p) read done))

    pub run-Posts : (op : Operation) → (run op id m b).0 ≡ ok p → Posts op w m b (run op id m b)
    unfolding run deposit_within reserve_within release_within make_available_within
        reserve_split_within release_split_within collect_fee_within refund_fee_within
        clearing_account
    run-Posts (deposits_into k) done =
        reads (deposits_into k) _
          (with_platform (deposits_into k) w m b (external_clearing w.currency) _ p bank
            (λ a c h. locked (id ∷ []) c _ p h))
          done
    run-Posts (collects_fee_from k) done =
        reads (collects_fee_from k) _
          (with_platform (collects_fee_from k) w m b (fee_revenue w.currency) _ p bank
            (λ a c h. refl))
          done
    run-Posts refunds_fee done =
        reads refunds_fee _
          (with_platform refunds_fee w m b (fee_revenue w.currency) _ p bank (λ a c h. refl)) done
    run-Posts reserves done =
        locks reserves (id ∷ []) _ (reads reserves _ (λ h. ends_now reserves _ refl)) done
    run-Posts releases done = reads releases _ (λ h. ends_now releases _ refl) done
    run-Posts makes_available done =
        reads makes_available _ (λ h. ends_now makes_available _ refl) done
    run-Posts (reserves_split x) done =
        locks (reserves_split x) (id ∷ []) _
          (reads (reserves_split x) _ (λ h. ends_now (reserves_split x) _ refl)) done
    run-Posts (releases_split x) done =
        reads (releases_split x) _ (λ h. ends_now (releases_split x) _ refl) done
