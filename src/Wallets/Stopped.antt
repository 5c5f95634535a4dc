-- ===== src/Wallets/Stopped.antt =====
-- `release` of wallets.service.ts, which opens a database transaction of its own, on a wallet that is
-- frozen or closed.
use finstack.Base.{ℕ, ◌≡◌, refl, ◌∙◌, ap, false, some, [], ◌∷◌, arith}
use mathlib.Core.Option.{map as map_option}
use finstack.Base.Lists.{find_by, find_by-map, find_by-passes}
use finstack.Base.Result.{ok, err, Error}
use finstack.Base.Action.{after-ok, Throws}
use finstack.Ledger.Posting.{Uuids}
use finstack.Wallets.Wallet.{Wallet, WalletStatus, is_active_status, MoneyMovement, Bank}
use finstack.Wallets.Access.{
  has_wallet_id, check_active, get_wallet, movement_posting, post_movement,
}
use finstack.Wallets.Spec.{releases, run}
use finstack.Wallets.Movements.{moved, release}
use finstack.Wallets.Manage.{set_status}
use finstack.Wallets.Frozen.{
  all_available, with_status, check_active-blocked, gives_back-set_status,
}
use finstack.Wallets.Own.{post-Throws}

module _ ⦃u : Uuids⦄ where
  release-Throws :
      (id : ℕ) (m : MoneyMovement) (b : Bank) (w : Wallet)
      → find_by (has_wallet_id id) b.wallets ≡ some w
      → is_active_status w.status ≡ false
      → Throws (release id m b)
  unfolding release post_movement
  release-Throws id m b w found stopped =
      let input =
        movement_posting w.currency m
          (moved w.reserved_account_id w.available_account_id m.amount) in
      let blocked : check_active (id ∷ []) b.wallets ≡ err Error.wallet_not_active =
        rw (check_active-blocked id w b.wallets found stopped, check_active) refl in
      let (x, thrown) = post-Throws input b.ledger in
      let posted : (post_movement (id ∷ []) w.currency m
            (moved w.reserved_account_id w.available_account_id m.amount) b).0
          ≡ err x =
        rw blocked thrown in
      let read : get_wallet id b ≡ (ok w, b) = rw (found, get_wallet) refl in
      (x, ap (λ r. r.0) (after-ok (get_wallet id b) _ read) ∙ posted)

  -- Where a wallet that is there is given a status that is not active (frozen or closed): `release`
  -- of a hold on it throws, whatever is held, while `releaseWithin` returns or throws the same as
  -- before, and leaves the same ledger.
  pub release-set_status :
      (id : ℕ) (status : WalletStatus) (m : MoneyMovement) (b : Bank) (w : Wallet)
      → find_by (has_wallet_id id) b.wallets ≡ some w
      → is_active_status status ≡ false
      → Throws (release id m (set_status id status b).1)
        × ((run releases id m (set_status id status b).1).0 ≡ (run releases id m b).0)
        × ((run releases id m (set_status id status b).1).1.ledger ≡ (run releases id m b).1.ledger)
  unfolding set_status
  release-set_status id status m b w found stopped =
      let hit = find_by-passes (has_wallet_id id) b.wallets w found in
      let moved_row : with_status id status w ≡ record w { status = status } = rw hit refl in
      let there : find_by (has_wallet_id id) (set_status id status b).1.wallets
          ≡ some (record w { status = status }) =
        find_by-map (has_wallet_id id) (with_status id status) b.wallets (λ v. ground arith)
        ∙ ap (map_option (with_status id status)) found
        ∙ ap some moved_row in
      let same = gives_back-set_status all_available id id status m b in
      (
        release-Throws id m (set_status id status b).1 (record w { status = status }) there stopped,
        ap (λ r. r.0) same,
        ap (λ r. r.1.ledger) same,
      )
