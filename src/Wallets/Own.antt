-- ===== src/Wallets/Own.antt =====
-- The methods of wallets.service.ts that open a database transaction of their own do what those do
-- that run in the caller's.
use finstack.Base.{ℕ, ◌≡◌, refl, sym, ◌∙◌, ap, false, ◌⊎◌, inl, inr, List, [], ◌∷◌, arith}
use mathlib.Core.Path.{subst}
use finstack.Base.Int.{ℤ}
use finstack.Base.Text.{Text}
use finstack.Base.Result.{Result, ok, err, Error}
use finstack.Base.Action.{Action, after, after-ok, after-err, Throws, lift, ◌>>=◌, ◌>>◌}
use finstack.Ledger.Posting.{PostingEntry, PostingInput, Uuids, validate_posting}
use finstack.Ledger.Store.{Ledger, finish}
use finstack.Ledger.Service.{PostedTransaction}
use finstack.Ledger.Post.{post, on_unique_violation}
use finstack.Ledger.Reversal.{post-posted}
use finstack.Wallets.Wallet.{Wallet, MoneyMovement, to_available, Bank}
use finstack.Wallets.Access.{
  check_active, get_wallet, lock_active_wallets, clearing_account, movement_posting, post_movement,
  post_movement_within,
}
use finstack.Wallets.Movements.{
  moved, deposit, reserve, release, deposit_within, reserve_within, release_within,
}
use finstack.Wallets.Spec.{Operation, deposits_into, reserves, releases, run}
use finstack.Wallets.History.{get_wallet-found}

-- The methods with a counterpart in a transaction of the caller.
pub data Method : Type 0 where
  deposit_method reserve_method release_method : Method

abbrev pub counterpart : Method → Operation
counterpart deposit_method = deposits_into to_available
counterpart reserve_method = reserves
counterpart release_method = releases

check_active-cases :
    (ids : List ℕ) (ws : List Wallet)
    → (check_active ids ws ≡ ok tt) ⊎ (check_active ids ws ≡ err Error.wallet_not_active)
check_active-cases ids ws = ground arith

after-same :
    {A : Type 0}
    → (r : Result A × Bank) (f g : A → Action Bank PostedTransaction) (p : PostedTransaction)
    → ((a : A) (b : Bank) → (f a b).0 ≡ ok p → f a b ≡ g a b)
    → (after r f).0 ≡ ok p
    → after r f ≡ after r g
after-same (ok a, b) f g p h e = h a b e
after-same (err x, b) f g p h e = refl

module _ ⦃u : Uuids⦄ where
  unfoldable pub run_method : Method → ℕ → MoneyMovement → Action Bank PostedTransaction
  unfolding deposit reserve release
  run_method deposit_method = deposit
  run_method reserve_method = reserve
  run_method release_method = release

  -- A throw of the wallets' check ends the posting.
  pub post-Throws :
      (input : PostingInput) (l : Ledger)
      → Throws (post (lift (err Error.wallet_not_active)) input l)
  unfolding post finish
  post-Throws input l = with_amount (validate_posting input) refl
    where
      rest : ℤ → Action Ledger PostedTransaction
      rest amount k = on_unique_violation input (finish k (err Error.wallet_not_active, k))

      with_amount :
          (r : Result ℤ)
          → validate_posting input ≡ r
          → Throws (after (validate_posting input, l) rest)
      with_amount (err x) e = (x, after-err (validate_posting input, l) rest e)
      with_amount (ok amount) e = (
        Error.wallet_not_active,
        ap (λ r. r.0) (after-ok (validate_posting input, l) rest (ap (λ r. (r, l)) e)),
      )

  -- A posting in a transaction of its own that is new: the wallets were active, and the tables are
  -- those of the posting alone.
  post_movement-within :
      (ids : List ℕ) (c : Text) (m : MoneyMovement) (es : List PostingEntry) (b : Bank)
      (p : PostedTransaction)
      → (post_movement ids c m es b).0 ≡ ok p
      → p.replayed ≡ false
      → (check_active ids b.wallets ≡ ok tt)
        × (post_movement ids c m es b ≡ post_movement_within c m es b)
  unfolding post_movement post_movement_within
  post_movement-within ids c m es b p done fresh =
      let input = movement_posting c m es in
      elim (check_active-cases ids b.wallets) [
        | inl passed ↦
            let (_, same) = post-posted input b.ledger p (rw passed at done) fresh in
            (passed, rw (passed, same) refl)
        | inr blocked ↦
            let (x, thrown) = post-Throws input b.ledger in
            let other : (post (lift (err Error.wallet_not_active)) input b.ledger).0 ≡ ok p =
              rw blocked at done in
            absurd (ground (arith, thrown, other))
      ]

  lock_active_wallets-passed :
      (ids : List ℕ) (b : Bank) (rest : Action Bank PostedTransaction)
      → check_active ids b.wallets ≡ ok tt
      → after (lock_active_wallets ids b) (λ _. rest) ≡ rest b
  unfolding lock_active_wallets
  lock_active_wallets-passed ids b rest passed =
      after-ok (lock_active_wallets ids b) (λ _. rest) (ap (λ r. (r, b)) passed)

  module _ (id : ℕ) (m : MoneyMovement) (p : PostedTransaction) (fresh : p.replayed ≡ false) where
    -- The same posting, with the wallets locked first.
    locked_posting :
        (c : Text) (es : List PostingEntry) (b : Bank)
        → (post_movement (id ∷ []) c m es b).0 ≡ ok p
        → post_movement (id ∷ []) c m es b
          ≡ (lock_active_wallets (id ∷ []) >> post_movement_within c m es) b
    locked_posting c es b done =
        let (passed, same) = post_movement-within (id ∷ []) c m es b p done fresh in
        same ∙ sym (lock_active_wallets-passed (id ∷ []) b (post_movement_within c m es) passed)

    deposit-same :
        (b : Bank) → (deposit id m b).0 ≡ ok p → deposit id m b ≡ deposit_within id m to_available b
    unfolding deposit deposit_within
    deposit-same b done =
        after-same (get_wallet id b) _ _ p
          (λ w c.
            after-same (clearing_account w.currency c) _ _ p
              (λ a k. locked_posting w.currency (moved a.id w.available_account_id m.amount) k))
          done

    release-same : (b : Bank) → (release id m b).0 ≡ ok p → release id m b ≡ release_within id m b
    unfolding release release_within
    release-same b done =
        after-same (get_wallet id b) _ _ p
          (λ w c h.
            (post_movement-within (id ∷ []) w.currency m
              (moved w.reserved_account_id w.available_account_id m.amount) c p h fresh).1)
          done

    reserve-same : (b : Bank) → (reserve id m b).0 ≡ ok p → reserve id m b ≡ reserve_within id m b
    unfolding reserve reserve_within
    reserve-same b done =
        let own = λ (w : Wallet).
          post_movement (id ∷ []) w.currency m
            (moved w.available_account_id w.reserved_account_id m.amount) in
        let within = λ (w : Wallet).
          post_movement_within w.currency m
            (moved w.available_account_id w.reserved_account_id m.amount) in
        let (w, found) = get_wallet-found id b own p done in
        let read : get_wallet id b ≡ (ok w, b) = rw (found, get_wallet) refl in
        let first : after (get_wallet id b) own ≡ own w b = after-ok (get_wallet id b) own read in
        let second : after (get_wallet id b) within ≡ within w b =
          after-ok (get_wallet id b) within read in
        let (passed, same) =
          post_movement-within (id ∷ []) w.currency m
            (moved w.available_account_id w.reserved_account_id m.amount) b p
            (subst (λ r. r.0 ≡ ok p) first done) fresh in
        first
        ∙ same
        ∙ sym second
        ∙ sym (lock_active_wallets-passed (id ∷ []) b (get_wallet id >>= within) passed)

    -- A deposit, a reservation or a release that returns and is no replay gives the result and leaves
    -- the tables that the movement in a transaction of the caller does.
    pub run_method-run :
        (method : Method) (b : Bank)
        → (run_method method id m b).0 ≡ ok p
        → run_method method id m b ≡ run (counterpart method) id m b
    unfolding run_method run
    run_method-run deposit_method b done = deposit-same b done
    run_method-run reserve_method b done = reserve-same b done
    run_method-run release_method b done = release-same b done
