-- ===== src/Wallets/Sums.antt =====
-- What one or two entries put on an account (wallets.service.ts).
use finstack.Base.{
  ℕ, Bool, true, false, ◌≡◌, refl, List, [], ◌∷◌, ◌++◌, ◌==◌, arith, Bool-cases, inl, inr,
  if◌then◌else◌,
}
use finstack.Base.Int.{ℤ, pos, ◌+ℤ◌, ◌-ℤ◌, int_laws, ltb_ℤ}
use finstack.Ledger.Types.{EntryDirection, debit, credit, opposite, signed}
use finstack.Ledger.Posting.{PostingEntry}
use finstack.Ledger.Effect.{posting_sum, posting_share}
use finstack.Wallets.Wallet.{Wallet}
use finstack.Wallets.Movements.{moved, posting_leg, leg_if_positive, split_entries}
use finstack.Wallets.Spec.{if_positive}

-- What one entry puts on an account: the amount, where the account is the entry's.
unfoldable pub share_of : Bool → EntryDirection → ℤ → ℤ
share_of true side amount = signed credit side amount
share_of false side amount = pos 0

pub leg_share :
    (id account : ℕ) (side : EntryDirection) (amount : ℤ)
    → posting_share id credit (posting_leg account side amount)
      ≡ share_of (id == account) side amount
unfolding share_of
leg_share id account side amount = ground arith

posting_sum-append :
    (id : ℕ) (xs ys : List PostingEntry)
    → posting_sum id credit (xs ++ ys) ≡ posting_sum id credit xs +ℤ posting_sum id credit ys
posting_sum-append id [] ys = omega int_laws
posting_sum-append id (x ∷ xs) ys = grind (int_laws, posting_sum-append id xs ys)

pub moved-sum :
    (id from to : ℕ) (amount : ℤ)
    → posting_sum id credit (moved from to amount)
      ≡ share_of (id == from) debit amount +ℤ share_of (id == to) credit amount
moved-sum id from to amount =
    rw (leg_share id from debit amount, leg_share id to credit amount) (omega int_laws)

share_of_zero : (hit : Bool) (side : EntryDirection) → share_of hit side (pos 0) ≡ pos 0
unfolding share_of ◌-ℤ◌
share_of_zero true debit = refl
share_of_zero true credit = refl
share_of_zero false side = refl

leg_if_positive-sum :
    (id account : ℕ) (side : EntryDirection) (amount : ℤ)
    → posting_sum id credit (leg_if_positive account side amount)
      ≡ share_of (id == account) side (if_positive amount)
leg_if_positive-sum id account side amount = elim (Bool-cases (ltb_ℤ (pos 0) amount)) [
  | inl positive ↦ rw (positive, leg_share id account side amount) (omega int_laws)
  | inr none_left ↦ rw (none_left, share_of_zero (id == account) side) refl
]

pub split_entries-sum :
    (id : ℕ) (w : Wallet) (amount x : ℤ) (side : EntryDirection)
    → posting_sum id credit (split_entries w amount x side)
      ≡ share_of (id == w.pending_account_id) side (if_positive x)
        +ℤ share_of (id == w.available_account_id) side (if_positive (amount -ℤ x))
        +ℤ share_of (id == w.reserved_account_id) (opposite side) amount
unfolding split_entries
split_entries-sum id w amount x side =
    let pending = leg_if_positive w.pending_account_id side x in
    let available = leg_if_positive w.available_account_id side (amount -ℤ x) in
    let reserved = posting_leg w.reserved_account_id (opposite side) amount ∷ [] in
    rw
      (
        posting_sum-append id pending (available ++ reserved),
        posting_sum-append id available reserved,
        leg_if_positive-sum id w.pending_account_id side x,
        leg_if_positive-sum id w.available_account_id side (amount -ℤ x),
        leg_share id w.reserved_account_id (opposite side) amount,
      )
      (omega int_laws)

pub credited :
    (hit : Bool) (amount : ℤ)
    → share_of false debit amount +ℤ share_of hit credit amount ≡ (if hit then amount else pos 0)
unfolding share_of
credited true amount = omega int_laws
credited false amount = omega int_laws

pub debited :
    (hit : Bool) (amount : ℤ)
    → share_of hit debit amount +ℤ share_of false credit amount
      ≡ pos 0 -ℤ (if hit then amount else pos 0)
unfolding share_of
debited true amount = omega int_laws
debited false amount = omega int_laws

pub share_of_none :
    (s t : EntryDirection) (amount : ℤ) → share_of false s amount +ℤ share_of false t amount ≡ pos 0
unfolding share_of
share_of_none s t amount = omega int_laws

pub share_of_no_split :
    (s : EntryDirection) (amount x : ℤ)
    → share_of false s (if_positive x)
        +ℤ share_of false s (if_positive (amount -ℤ x))
        +ℤ share_of false (opposite s) amount
      ≡ pos 0
unfolding share_of
share_of_no_split s amount x = omega int_laws
