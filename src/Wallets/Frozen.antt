-- ===== src/Wallets/Frozen.antt =====
-- A frozen or closed wallet (`lockActiveWallets` of wallets.service.ts) sends nothing, and what is held
-- on it can still be released in a transaction of the caller.
use finstack.Base.{
  ℕ, ◌≡◌, refl, ◌∙◌, ap, true, false, some, List, [], ◌∷◌, ◌++◌, if◌then◌else◌, arith, Bool-cases,
  inl, inr, Option-cases,
}
use finstack.Base.Int.{ℤ, ◌-ℤ◌}
use finstack.Base.Text.{Text}
use finstack.Ledger.Types.{debit, credit}
use finstack.Base.Lists.{find_by, any_by, find_by-map}
use finstack.Base.Result.{Result, err, Error}
use finstack.Base.Action.{Action, after}
use finstack.Ledger.Posting.{PostingEntry, Uuids}
use finstack.Ledger.Service.{PostedTransaction}
use finstack.Wallets.Wallet.{Wallet, WalletStatus, is_active_status, MoneyMovement, Bank}
use finstack.Wallets.Access.{
  has_wallet_id, check_active, blocks, get_wallet, lock_active_wallets, post_movement_within,
}
use finstack.Wallets.Spec.{Operation, reserves, releases, reserves_split, releases_split, run}
use finstack.Wallets.Movements.{
  moved, posting_leg, leg_if_positive, reserve_within, reserve_split_within, release_within,
  release_split_within, split_entries,
}
use finstack.Wallets.Manage.{set_status}

pub check_active-blocked :
    (id : ℕ) (w : Wallet) (ws : List Wallet)
    → find_by (has_wallet_id id) ws ≡ some w
    → is_active_status w.status ≡ false
    → any_by (blocks (id ∷ [])) ws ≡ true
check_active-blocked id w [] found stopped = absurd (ground arith)
check_active-blocked id w (v ∷ ws) found stopped = elim (Bool-cases (has_wallet_id id v)) [
  | inl hit ↦
      let same : v ≡ w = ground (arith, hit, found) in
      let stops : is_active_status v.status ≡ false =
        ap (λ u. is_active_status u.status) same ∙ stopped in
      ground (arith, hit, stops)
  | inr miss ↦ ground (arith, check_active-blocked id w ws (ground (arith, found, miss)) stopped)
]

lock_active_wallets-blocked :
    (id : ℕ) (w : Wallet) (b : Bank)
    → find_by (has_wallet_id id) b.wallets ≡ some w
    → is_active_status w.status ≡ false
    → lock_active_wallets (id ∷ []) b ≡ (err Error.wallet_not_active, b)
unfolding lock_active_wallets
lock_active_wallets-blocked id w b found stopped =
    rw (check_active-blocked id w b.wallets found stopped, check_active) refl

-- The movements that hold an amount of a wallet.
pub data Hold : Type 0 where
  all_available : Hold
  from_pending : ℤ → Hold

abbrev pub holds : Hold → Operation
holds all_available = reserves
holds (from_pending x) = reserves_split x

abbrev pub gives_back : Hold → Operation
gives_back all_available = releases
gives_back (from_pending x) = releases_split x

after-throws :
    {A B : Type 0}
    → (r : Result A × Bank) (f : A → Action Bank B) (x : Error) (b : Bank) → r ≡ (err x, b)
    → after r f ≡ (err x, b)
after-throws r f x b h = rw h refl

abbrev pub with_status : ℕ → WalletStatus → Wallet → Wallet
with_status id status w = if has_wallet_id id w then record w { status = status } else w

module _ ⦃u : Uuids⦄ where
  -- A hold on a wallet that is frozen or closed throws, and changes nothing.
  pub holds-blocked :
      (h : Hold) (id : ℕ) (m : MoneyMovement) (b : Bank) (w : Wallet)
      → find_by (has_wallet_id id) b.wallets ≡ some w
      → is_active_status w.status ≡ false
      → run (holds h) id m b ≡ (err Error.wallet_not_active, b)
  unfolding run reserve_within reserve_split_within
  holds-blocked all_available id m b w found stopped =
      after-throws (lock_active_wallets (id ∷ []) b) _ Error.wallet_not_active b
        (lock_active_wallets-blocked id w b found stopped)
  holds-blocked (from_pending x) id m b w found stopped =
      after-throws (lock_active_wallets (id ∷ []) b) _ Error.wallet_not_active b
        (lock_active_wallets-blocked id w b found stopped)

  -- What a posting does goes by the wallet's currency and accounts.
  module _ (other : ℕ) (status : WalletStatus) (b : Bank)
      (body : Text → ℕ → ℕ → ℕ → Action Bank PostedTransaction) where
    of_wallet : Wallet → Action Bank PostedTransaction
    of_wallet w = body w.currency w.available_account_id w.pending_account_id w.reserved_account_id

    of_wallet-with_status :
        (w : Wallet) (c : Bank) → of_wallet (with_status other status w) c ≡ of_wallet w c
    unfolding of_wallet
    of_wallet-with_status w c = elim (Bool-cases (has_wallet_id other w)) [
      | inl hit ↦ rw hit refl
      | inr miss ↦ rw miss refl
    ]

    reads-status :
        (id : ℕ)
        → ((c : Text) (x y z : ℕ)
            → body c x y z (set_status other status b).1 ≡ (
              (body c x y z b).0,
              record (body c x y z b).1 { wallets = (set_status other status b).1.wallets },
            ))
        → after (get_wallet id (set_status other status b).1) of_wallet ≡ (
          (after (get_wallet id b) of_wallet).0,
          record (after (get_wallet id b) of_wallet).1 {
            wallets = (set_status other status b).1.wallets;
          },
        )
    unfolding set_status
    reads-status id same =
        let moved =
          find_by-map (has_wallet_id id) (with_status other status) b.wallets (λ w. ground arith) in
        elim (Option-cases (find_by (has_wallet_id id) b.wallets)) [
          | inl missing ↦ rw (moved, missing, get_wallet) refl
          | inr (w, found) ↦
              rw (moved, found, get_wallet)
                (of_wallet-with_status w _ ∙ unfold of_wallet in same _ _ _ _)
        ]

  post_movement_within-set_status :
      (other : ℕ) (status : WalletStatus) (b : Bank) (c : Text) (m : MoneyMovement)
      (es : List PostingEntry)
      → post_movement_within c m es (set_status other status b).1 ≡ (
        (post_movement_within c m es b).0,
        record (post_movement_within c m es b).1 {
          wallets = (set_status other status b).1.wallets;
        },
      )
  unfolding post_movement_within set_status
  post_movement_within-set_status other status b c m es = refl

  abbrev release_body : Hold → MoneyMovement → Text → ℕ → ℕ → ℕ → Action Bank PostedTransaction
  release_body all_available m c available pending reserved =
      post_movement_within c m (moved reserved available m.amount)
  release_body (from_pending x) m c available pending reserved = post_movement_within c m (
      leg_if_positive pending credit x
      ++ (leg_if_positive available credit (m.amount -ℤ x)
          ++ posting_leg reserved debit m.amount ∷ []))

  release_run :
      (h : Hold) (id other : ℕ) (status : WalletStatus) (m : MoneyMovement) (b c : Bank)
      → run (gives_back h) id m c
        ≡ after (get_wallet id c) (of_wallet other status b (release_body h m))
  unfolding run release_within release_split_within split_entries of_wallet
  release_run all_available id other status m b c = refl
  release_run (from_pending x) id other status m b c = refl

  release_body-set_status :
      (h : Hold) (other : ℕ) (status : WalletStatus) (m : MoneyMovement) (b : Bank) (c : Text)
      (x y z : ℕ)
      → release_body h m c x y z (set_status other status b).1 ≡ (
        (release_body h m c x y z b).0,
        record (release_body h m c x y z b).1 { wallets = (set_status other status b).1.wallets },
      )
  release_body-set_status all_available other status m b c x y z =
      post_movement_within-set_status other status b c m _
  release_body-set_status (from_pending _) other status m b c x y z =
      post_movement_within-set_status other status b c m _

  -- Whatever status any wallet is given, a release of a hold in a transaction of the caller
  -- (releaseWithin, or releaseSplitWithin with any part from pending) goes on as it would have: it
  -- returns or throws the same, and leaves the same ledger.
  pub gives_back-set_status :
      (h : Hold) (id other : ℕ) (status : WalletStatus) (m : MoneyMovement) (b : Bank)
      → run (gives_back h) id m (set_status other status b).1 ≡ (
        (run (gives_back h) id m b).0,
        record (run (gives_back h) id m b).1 { wallets = (set_status other status b).1.wallets },
      )
  gives_back-set_status h id other status m b =
      rw
        (
          release_run h id other status m b b,
          release_run h id other status m b (set_status other status b).1,
        )
        (reads-status other status b (release_body h m) id
          (release_body-set_status h other status m b))
