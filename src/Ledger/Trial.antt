-- ===== src/Ledger/Trial.antt =====
-- The trial balance (`trialBalance` of ledger.service.ts) under a posting: in every currency the
-- debit-normal balances and the credit-normal ones stay equal.
use finstack.Base.{
  ◌≡◌, refl, ◌≢◌, inl, inr, true, List, [], ◌∷◌, map, ◌==◌, if◌then◌else◌, arith, Bool-cases,
  ==_iff,
}
use mathlib.Core.Path.{subst}
use finstack.Base.Int.{ℤ, pos, ◌+ℤ◌, int_laws}
use finstack.Base.Lists.{All}
use finstack.Base.Text.{Text, text_eq, text_eq_iff}
use finstack.Ledger.Types.{LedgerAccount, LedgerEntry, EntryDirection, debit, credit, signed}
use finstack.Ledger.Store.{apply_balance, account_has_currency}
use finstack.Ledger.PostWithin.{side_balance}

-- What an account adds to the debit side, less the credit side, of the trial balance of `c`.
abbrev net_share : Text → LedgerAccount → ℤ
net_share c a = if text_eq a.currency c then signed debit a.normal_balance a.balance else pos 0

abbrev pub net : Text → List LedgerAccount → ℤ
net c [] = pos 0
net c (a ∷ rows) = net_share c a +ℤ net c rows

abbrev pub Distinct : List LedgerAccount → Type 0
Distinct [] = Unit
Distinct (a ∷ rows) = All (λ b. b.id ≢ a.id) rows × Distinct rows

pub net-side_balance :
    (c : Text) (rows : List LedgerAccount)
    → net c rows +ℤ side_balance credit c rows ≡ side_balance debit c rows
unfolding side_balance
net-side_balance c [] = omega int_laws
net-side_balance c (a ∷ rows) = grind (int_laws, net-side_balance c rows)

-- An account's own signed change is the entry's change of the debit side.
net_share-signed :
    (n d : EntryDirection) (balance amount : ℤ)
    → signed debit n (balance +ℤ signed n d amount)
      ≡ signed debit n balance +ℤ signed debit d amount
net_share-signed debit debit b x = omega int_laws
net_share-signed debit credit b x = omega int_laws
net_share-signed credit debit b x = omega int_laws
net_share-signed credit credit b x = omega int_laws

-- No other account has the id, so none is updated.
map-others :
    (e : LedgerEntry) (rows : List LedgerAccount)
    → All (λ b. b.id ≢ e.ledger_account_id) rows
    → map (apply_balance e) rows ≡ rows
map-others e [] h = refl
map-others e (a ∷ rows) h = ground (arith, map-others e rows h.1)

abbrev pub entry_net : Text → LedgerEntry → ℤ
entry_net c e = if text_eq e.currency c then signed debit e.direction e.amount else pos 0

net-hit :
    (c : Text) (e : LedgerEntry) (a : LedgerAccount)
    → (a.id == e.ledger_account_id) ≡ true
    → e.currency ≡ a.currency
    → net_share c (apply_balance e a) ≡ net_share c a +ℤ entry_net c e
net-hit c e a hit same = elim (Bool-cases (text_eq a.currency c)) [
  | inl counted ↦
      rw (hit, same, counted) (net_share-signed a.normal_balance e.direction a.balance e.amount)
  | inr other ↦ rw (hit, same, other) (omega int_laws)
]

pub net-apply_balance :
    (c : Text) (e : LedgerEntry) (rows : List LedgerAccount)
    → Distinct rows
    → account_has_currency e.currency e.ledger_account_id rows ≡ true
    → net c (map (apply_balance e) rows) ≡ net c rows +ℤ entry_net c e
unfolding account_has_currency
net-apply_balance c e [] d h = absurd (ground arith)
net-apply_balance c e (a ∷ rows) d h = elim (Bool-cases (a.id == e.ledger_account_id)) [
  | inl hit ↦
      let same : e.currency ≡ a.currency = (text_eq_iff e.currency a.currency).0 (ground arith) in
      let here : a.id ≡ e.ledger_account_id = (==_iff a.id e.ledger_account_id).0 hit in
      let others : map (apply_balance e) rows ≡ rows =
        map-others e rows (subst (λ i. All (λ (b : LedgerAccount). b.id ≢ i) rows) here d.0) in
      let step = net-hit c e a hit same in rw (others, step) (omega int_laws)
  | inr miss ↦
      let rest = net-apply_balance c e rows d.1 (ground arith) in
      let kept : net_share c (apply_balance e a) ≡ net_share c a = rw miss refl in
      rw (rest, kept) (omega int_laws)
]
