-- ===== src/Ledger/Balance.antt =====
-- The double-entry rules of posting.ts at work: a valid posting has no net effect on the trial
-- balance of any currency.
use finstack.Base.{
  ℕ, suc, ◌≡◌, refl, sym, ◌∙◌, ◌≢◌, inl, inr, Bool, true, false, List, [], ◌∷◌, map, if◌then◌else◌,
  arith, Bool-cases, not, ◌||◌, ltb,
}
use finstack.Base.Int.{ℤ, pos, ◌+ℤ◌, int_laws, +ℤ_zero, eqb_ℤ_iff, leb_ℤ}
use finstack.Base.Lists.{All, All-map, All-drop, length, is_empty}
use finstack.Base.Text.{Text, text_eq, trim}
use finstack.Base.Result.{
  Result, ok, err, throw_if, Error, bad_reference, unsupported_currency, too_few_entries,
}
use finstack.Money.Currency.{is_supported_currency}
use finstack.Base.Result.{◌>>=◌, ◌>>◌}
use finstack.Ledger.Types.{LedgerAccount, LedgerEntry, EntryDirection, debit, credit, signed}
use finstack.Ledger.Posting.{PostingEntry, PostingInput, sum_sides, check_sides, validate_posting}
use finstack.Ledger.Store.{Ledger, apply_balance, account_has_currency}
use finstack.Ledger.Consistency.{IsSound, map-account_has_currency}
use finstack.Ledger.Effect.{apply_posting, map-apply_posting, map-apply_posting_nil, entry_rows}
use finstack.Ledger.Service.{entry_row}
use finstack.Ledger.Outcome.{posted}
use finstack.Ledger.Trial.{Distinct, net, net-apply_balance}

-- Debits less credits.
abbrev pub debits_less_credits : List PostingEntry → ℤ
debits_less_credits [] = pos 0
debits_less_credits (e ∷ es) = signed debit e.direction e.amount +ℤ debits_less_credits es

add_debit :
    (p q d k x s : ℤ) → p +ℤ k ≡ q +ℤ (d +ℤ x) +ℤ s → p +ℤ k ≡ q +ℤ d +ℤ (signed debit debit x +ℤ s)
add_debit p q d k x s h = grind int_laws

add_credit :
    (p q d k x s : ℤ)
    → p +ℤ (k +ℤ x) ≡ q +ℤ d +ℤ s
    → p +ℤ k ≡ q +ℤ d +ℤ (signed debit credit x +ℤ s)
add_credit p q d k x s h = grind int_laws

sum_sides-eq-ok :
    (es : List PostingEntry) (d k : ℤ) (r : ℤ × ℤ)
    → sum_sides es d k ≡ ok r
    → r.0 +ℤ k ≡ r.1 +ℤ d +ℤ debits_less_credits es
unfolding sum_sides
sum_sides-eq-ok [] d k r h = let same : (d, k) ≡ r = ground arith in rw (← same) (omega int_laws)
sum_sides-eq-ok (e ∷ es) d k r h = elim (Bool-cases (leb_ℤ e.amount (pos 0))) [
  | inl bad ↦ absurd (ground arith)
  | inr good ↦
      sided e.direction refl good h (λ h'. sum_sides-eq-ok es (d +ℤ e.amount) k r h')
        (λ h'. sum_sides-eq-ok es d (k +ℤ e.amount) r h')
]
  where
    sided :
        (dir : EntryDirection)
        → e.direction ≡ dir
        → leb_ℤ e.amount (pos 0) ≡ false
        → sum_sides (e ∷ es) d k ≡ ok r
        → (sum_sides es (d +ℤ e.amount) k ≡ ok r
            → r.0 +ℤ k ≡ r.1 +ℤ (d +ℤ e.amount) +ℤ debits_less_credits es)
        → (sum_sides es d (k +ℤ e.amount) ≡ ok r
            → r.0 +ℤ (k +ℤ e.amount) ≡ r.1 +ℤ d +ℤ debits_less_credits es)
        → r.0 +ℤ k ≡ r.1 +ℤ d +ℤ (signed debit e.direction e.amount +ℤ debits_less_credits es)
    sided debit is good h as_debit as_credit =
        let rest = as_debit (ground arith) in
        rw is (add_debit r.0 r.1 d k e.amount (debits_less_credits es) rest)
    sided credit is good h as_debit as_credit =
        let rest = as_credit (ground arith) in
        rw is (add_credit r.0 r.1 d k e.amount (debits_less_credits es) rest)

check_sides-eq-ok : (d k x : ℤ) → check_sides (d, k) ≡ ok x → (d ≡ k) × (x ≡ d)
unfolding check_sides
check_sides-eq-ok d k x h = ground (arith, eqb_ℤ_iff d k)

guarded-eq-ok :
    (a b c : Bool) (x y z : Error) (sides : Result (ℤ × ℤ)) (amount : ℤ)
    → (do throw_if a x; throw_if b y; throw_if c z; r ← sides; check_sides r) ≡ ok amount
    → (r : ℤ × ℤ) × (sides ≡ ok r) × (check_sides r ≡ ok amount)
guarded-eq-ok true b c x y z sides amount h = cc
guarded-eq-ok false true c x y z sides amount h = cc
guarded-eq-ok false false true x y z sides amount h = cc
guarded-eq-ok false false false x y z (err e) amount h = cc
guarded-eq-ok false false false x y z (ok r) amount h = (r, refl, h)

pub validate_posting-sides :
    (input : PostingInput) (amount : ℤ)
    → validate_posting input ≡ ok amount
    → (r : ℤ × ℤ) × (sum_sides input.entries (pos 0) (pos 0) ≡ ok r) × (check_sides r ≡ ok amount)
unfolding validate_posting
validate_posting-sides input amount h =
    guarded-eq-ok (is_empty (trim input.reference) || ltb 255 (length input.reference))
      (not (is_supported_currency input.currency)) (ltb (length input.entries) 2)
      (Error.invalid_posting bad_reference) (Error.invalid_posting unsupported_currency)
      (Error.invalid_posting too_few_entries) (sum_sides input.entries (pos 0) (pos 0)) amount h

-- A valid posting has as much on its debit side as on its credit side.
pub validate_posting-balanced :
    (input : PostingInput) (amount : ℤ)
    → validate_posting input ≡ ok amount
    → debits_less_credits input.entries ≡ pos 0
validate_posting-balanced input amount h =
    let (sides, summed, checked) = validate_posting-sides input amount h in
    let same : sides.0 ≡ sides.1 = (check_sides-eq-ok sides.0 sides.1 amount checked).0 in
    rest sides.0 sides.1 (debits_less_credits input.entries) same
      (sum_sides-eq-ok input.entries (pos 0) (pos 0) sides summed)
  where
    rest : (a b c : ℤ) → a ≡ b → a +ℤ pos 0 ≡ b +ℤ pos 0 +ℤ c → c ≡ pos 0
    rest a b c same all = grind int_laws

abbrev pub posting_net : Text → Text → List PostingEntry → ℤ
posting_net c currency es = if text_eq currency c then debits_less_credits es else pos 0

abbrev pub Named : Text → List LedgerAccount → List PostingEntry → Type 0
Named currency rows = All (λ e. account_has_currency currency e.account_id rows ≡ true)

map-Distinct :
    (e : LedgerEntry) (rows : List LedgerAccount)
    → Distinct rows
    → Distinct (map (apply_balance e) rows)
map-Distinct e [] d = tt
map-Distinct e (a ∷ rows) (new, d) = (others rows new, map-Distinct e rows d)
  where
    others :
        (bs : List LedgerAccount)
        → All (λ b. b.id ≢ a.id) bs
        → All (λ b. b.id ≢ (apply_balance e a).id) (map (apply_balance e) bs)
    others [] h = tt
    others (b ∷ bs) h = (ground (arith, h.0), others bs h.1)

pub net-apply_posting :
    (c currency : Text) (txn id clock : ℕ) (es : List PostingEntry) (rows : List LedgerAccount)
    → Distinct rows
    → Named currency rows es
    → net c (map (apply_posting es) rows) ≡ net c rows +ℤ posting_net c currency es
net-apply_posting c currency txn id clock [] rows d h =
    rw (map-apply_posting_nil rows) (grind (int_laws, +ℤ_zero (net c rows)))
net-apply_posting c currency txn id clock (e ∷ es) rows d h =
    let row = entry_row txn currency e id clock in
    let rest =
      net-apply_posting c currency txn id clock es (map (apply_balance row) rows)
        (map-Distinct row rows d)
        (All-map _ _ es (λ x k. map-account_has_currency currency x.account_id row rows ∙ k) h.1) in
    let here = net-apply_balance c row rows d h.0 in
    rw (← map-apply_posting txn id clock currency e es rows, rest, here) (grind (int_laws))

Named-rows :
    (txn clock : ℕ) (currency : Text) (es : List PostingEntry) (id : ℕ) (rows : List LedgerAccount)
    → All
        (λ e. account_has_currency e.currency e.ledger_account_id rows ≡ true)
        (entry_rows txn currency es id clock)
    → Named currency rows es
Named-rows txn clock currency [] id rows h = tt
Named-rows txn clock currency (e ∷ es) id rows h =
    (h.0, Named-rows txn clock currency es (suc id) rows h.1)

map-apply_posting-account_has_currency :
    (c : Text) (id : ℕ) (es : List PostingEntry) (rows : List LedgerAccount)
    → account_has_currency c id (map (apply_posting es) rows) ≡ account_has_currency c id rows
unfolding account_has_currency
map-apply_posting-account_has_currency c id es [] = refl
map-apply_posting-account_has_currency c id es (a ∷ rest) =
    ground (arith, map-apply_posting-account_has_currency c id es rest)

-- Every entry that was posted names an account of its currency.
pub posted-Named :
    (amount : ℤ) (input : PostingInput) (l : Ledger)
    → IsSound (posted amount input l)
    → Named input.currency l.accounts input.entries
posted-Named amount input l s =
    All-map _ _ input.entries
      (λ e h.
        sym (
          map-apply_posting-account_has_currency input.currency e.account_id input.entries
            l.accounts)
        ∙ h)
      (Named-rows l.next_id l.clock input.currency input.entries (suc l.next_id) _
        (All-map _ _ rows (λ e h. ground arith) (All-drop _ l.entries rows s.matched)))
  where
    rows : List LedgerEntry
    rows = entry_rows l.next_id input.currency input.entries (suc l.next_id) l.clock
