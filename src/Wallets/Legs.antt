-- ===== src/Wallets/Legs.antt =====
-- What the entries of a movement (wallets.service.ts) put on each of the wallet's accounts.
use finstack.Base.{ℕ, true, false, ◌≡◌, ◌≢◌, refl, sym, ◌∙◌, ◌==◌, arith}
use finstack.Base.Int.{ℤ, pos, ◌+ℤ◌, ◌-ℤ◌, int_laws}
use finstack.Ledger.Types.{EntryDirection, debit, credit, opposite}
use finstack.Ledger.Effect.{posting_sum}
use finstack.Wallets.Wallet.{
  Wallet, Balance, available_balance, balance_of, pending_balance, reserved_balance,
}
use finstack.Wallets.Access.{account_of}
use finstack.Wallets.Movements.{moved, split_entries}
use finstack.Wallets.Sound.{IsWallet}
use finstack.Wallets.Spec.{
  Operation, deposits_into, collects_fee_from, reserves, releases, makes_available, refunds_fee,
  reserves_split, releases_split, change, only, if_positive, legs, same_balance,
}
use finstack.Ledger.Store.{Ledger}
use finstack.Wallets.Sums.{
  share_of, moved-sum, split_entries-sum, credited, debited, share_of_none, share_of_no_split,
}

-- Within a wallet, from the balance `i` to the balance `j`.
shifted : Balance → Balance → Balance → ℤ → ℤ
shifted i j k amount =
    share_of (same_balance k i) debit amount +ℤ share_of (same_balance k j) credit amount

split : Balance → EntryDirection → ℤ → ℤ → ℤ
split k side amount x =
    share_of (same_balance k pending_balance) side (if_positive x)
    +ℤ share_of (same_balance k available_balance) side (if_positive (amount -ℤ x))
    +ℤ share_of (same_balance k reserved_balance) (opposite side) amount

reserves-change :
    (k : Balance) (amount : ℤ)
    → shifted available_balance reserved_balance k amount ≡ change reserves k amount
unfolding share_of shifted
reserves-change available_balance amount = omega int_laws
reserves-change pending_balance amount = omega int_laws
reserves-change reserved_balance amount = omega int_laws

releases-change :
    (k : Balance) (amount : ℤ)
    → shifted reserved_balance available_balance k amount ≡ change releases k amount
unfolding share_of shifted
releases-change available_balance amount = omega int_laws
releases-change pending_balance amount = omega int_laws
releases-change reserved_balance amount = omega int_laws

makes_available-change :
    (k : Balance) (amount : ℤ)
    → shifted pending_balance available_balance k amount ≡ change makes_available k amount
unfolding share_of shifted
makes_available-change available_balance amount = omega int_laws
makes_available-change pending_balance amount = omega int_laws
makes_available-change reserved_balance amount = omega int_laws

reserves_split-change :
    (k : Balance) (amount x : ℤ) → split k debit amount x ≡ change (reserves_split x) k amount
unfolding share_of split
reserves_split-change available_balance amount x = omega int_laws
reserves_split-change pending_balance amount x = omega int_laws
reserves_split-change reserved_balance amount x = omega int_laws

releases_split-change :
    (k : Balance) (amount x : ℤ) → split k credit amount x ≡ change (releases_split x) k amount
unfolding share_of split
releases_split-change available_balance amount x = omega int_laws
releases_split-change pending_balance amount x = omega int_laws
releases_split-change reserved_balance amount x = omega int_laws

module _ (l : Ledger) (w : Wallet) (wallet : IsWallet l w) (k : Balance) where
  shifted-sum :
      (i j : Balance) (amount : ℤ)
      → posting_sum (account_of w k) credit (moved (account_of w i) (account_of w j) amount)
        ≡ shifted i j k amount
  unfolding shifted
  shifted-sum i j amount =
      rw
        (
          moved-sum (account_of w k) (account_of w i) (account_of w j) amount,
          wallet.apart k i,
          wallet.apart k j,
        )
        refl

  split-sum :
      (side : EntryDirection) (amount x : ℤ)
      → posting_sum (account_of w k) credit (split_entries w amount x side) ≡ split k side amount x
  unfolding split
  split-sum side amount x =
      rw
        (
          split_entries-sum (account_of w k) w amount x side,
          wallet.apart k pending_balance,
          wallet.apart k available_balance,
          wallet.apart k reserved_balance,
        )
        refl

  -- The change that the specification gives is the one that the entries make.
  pub legs-change :
      (op : Operation) (platform : ℕ) (amount : ℤ)
      → platform ≢ account_of w k
      → posting_sum (account_of w k) credit (legs op w platform amount) ≡ change op k amount
  legs-change op platform amount p = go op
    where
      apart : (account_of w k == platform) ≡ false
      apart = ground arith

      from_platform :
          (j : Balance)
          → posting_sum (account_of w k) credit (moved platform (account_of w j) amount)
            ≡ only k j amount
      from_platform j =
          rw (moved-sum (account_of w k) platform (account_of w j) amount, apart, wallet.apart k j)
            (credited (same_balance k j) amount)

      go :
          (op : Operation)
          → posting_sum (account_of w k) credit (legs op w platform amount) ≡ change op k amount
      go (deposits_into j) = from_platform (balance_of j)
      go refunds_fee = from_platform available_balance
      go (collects_fee_from j) =
          rw (moved-sum (account_of w k) (account_of w j) platform amount, apart, wallet.apart k j)
            (debited (same_balance k j) amount)
      go reserves = shifted-sum available_balance reserved_balance amount ∙ reserves-change k amount
      go releases = shifted-sum reserved_balance available_balance amount ∙ releases-change k amount
      go makes_available =
          shifted-sum pending_balance available_balance amount ∙ makes_available-change k amount
      go (reserves_split x) = split-sum debit amount x ∙ reserves_split-change k amount x
      go (releases_split x) = split-sum credit amount x ∙ releases_split-change k amount x

-- An account that is neither the wallet's nor the platform's gets nothing.
pub legs-other :
    (op : Operation) (w : Wallet) (id platform : ℕ) (amount : ℤ)
    → platform ≢ id
    → ((k : Balance) → (id == account_of w k) ≡ false)
    → posting_sum id credit (legs op w platform amount) ≡ pos 0
legs-other op w id platform amount p other = go op
  where
    apart : (id == platform) ≡ false
    apart = ground arith

    moved_zero :
        (from to : ℕ)
        → (id == from) ≡ false
        → (id == to) ≡ false
        → posting_sum id credit (moved from to amount) ≡ pos 0
    moved_zero from to f t =
        rw (moved-sum id from to amount, f, t) (share_of_none debit credit amount)

    split_zero :
        (side : EntryDirection) (x : ℤ)
        → posting_sum id credit (split_entries w amount x side) ≡ pos 0
    split_zero side x =
        rw
          (
            split_entries-sum id w amount x side,
            other pending_balance,
            other available_balance,
            other reserved_balance,
          )
          (share_of_no_split side amount x)

    go : (op : Operation) → posting_sum id credit (legs op w platform amount) ≡ pos 0
    go (deposits_into j) =
        moved_zero platform (account_of w (balance_of j)) apart (other (balance_of j))
    go refunds_fee = moved_zero platform w.available_account_id apart (other available_balance)
    go (collects_fee_from j) = moved_zero (account_of w j) platform (other j) apart
    go reserves =
        moved_zero w.available_account_id w.reserved_account_id (other available_balance)
          (other reserved_balance)
    go releases =
        moved_zero w.reserved_account_id w.available_account_id (other reserved_balance)
          (other available_balance)
    go makes_available =
        moved_zero w.pending_account_id w.available_account_id (other pending_balance)
          (other available_balance)
    go (reserves_split x) = split_zero debit x
    go (releases_split x) = split_zero credit x

-- What the two entries of `moved` put on an account: less, more, or nothing.
pub moved-between :
    (id from to : ℕ) (amount : ℤ)
    → from ≢ to
    → (id ≡ from → posting_sum id credit (moved from to amount) ≡ pos 0 -ℤ amount)
      × (id ≡ to → posting_sum id credit (moved from to amount) ≡ amount)
      × (id ≢ from → id ≢ to → posting_sum id credit (moved from to amount) ≡ pos 0)
moved-between id from to amount apart = (
  λ e.
      rw (moved-sum id from to amount, yes_eq e, no_eq (λ f. apart (sym e ∙ f)))
        (debited true amount),
  λ e.
      rw (moved-sum id from to amount, no_eq (λ f. apart (sym f ∙ e)), yes_eq e)
        (credited true amount),
  λ f t. rw (moved-sum id from to amount, no_eq f, no_eq t) (share_of_none debit credit amount),
)
  where
    yes_eq : {a b : ℕ} → a ≡ b → (a == b) ≡ true
    yes_eq {a} {b} e = ground arith

    no_eq : {a b : ℕ} → a ≢ b → (a == b) ≡ false
    no_eq {a} {b} e = ground arith
