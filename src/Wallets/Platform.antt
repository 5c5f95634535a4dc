-- ===== src/Wallets/Platform.antt =====
-- The platform's accounts (`ensureSystemAccount` of ledger.service.ts): none belongs to a wallet.
use finstack.Base.{
  ℕ, Bool, ◌≡◌, refl, sym, ◌∙◌, ap, ◌≢◌, ◌⊎◌, inl, inr, none, some, List, [], ◌∷◌, arith,
  Bool-cases,
}
use mathlib.Core.Path.{subst}
use finstack.Base.Lists.{find_by, find_by-passes, find_by-All, any_by}
use finstack.Base.Text.{Text}
use finstack.Base.Result.{ok}
use finstack.Base.Action.{after, after-eq-ok, after-ok}
use finstack.Ledger.Types.{LedgerAccount}
use finstack.Ledger.Store.{Ledger, find_account, insert_account, has_code}
use finstack.Ledger.Consistency.{IsSound}
use finstack.Ledger.Trial.{Distinct}
use finstack.Ledger.Service.{
  CreateLedgerAccountInput, ensure_system_account, new_account, account_by_code,
}
use finstack.Wallets.Access.{balance_at}
use finstack.Wallets.Sound.{
  IsOwn, Later, Later-refl, insert_account-Later, insert_account-balance_at,
}

-- Ids are distinct: a row that some test finds is the row of its id.
find_by-find_account :
    (test : LedgerAccount → Bool) (rows : List LedgerAccount) (a : LedgerAccount)
    → Distinct rows
    → find_by test rows ≡ some a
    → find_account a.id rows ≡ some a
find_by-find_account test [] a d h = absurd (ground arith)
find_by-find_account test (b ∷ rows) a (new, d) h = elim (Bool-cases (test b)) [
  | inl hit ↦
      let same : b ≡ a = ground arith in
      subst (λ c. find_account c.id (b ∷ rows) ≡ some c) same (ground arith)
  | inr miss ↦
      let later : find_by test rows ≡ some a = ground arith in
      let other : a.id ≢ b.id = find_by-All _ test rows a new later in
      ground (arith, find_by-find_account test rows a d later)
]

-- An account with a code is no wallet's.
coded_apart :
    (code : Text) (l : Ledger) (a : LedgerAccount)
    → Distinct l.accounts
    → find_by (has_code code) l.accounts ≡ some a
    → (id : ℕ) → IsOwn l id
    → a.id ≢ id
coded_apart code l a d found id own e =
    let by_id = find_by-find_account (has_code code) l.accounts a d found in
    let coded = find_by-passes (has_code code) l.accounts a found in
    let same : a ≡ own.row =
      some_injective (sym by_id ∙ ap (λ k. find_account k l.accounts) e ∙ own.found) in
    let uncoded : a.code ≡ none = ap (λ b. b.code) same ∙ own.uncoded in
    ground (arith, coded, uncoded)
  where
    some_injective : {x y : LedgerAccount} → some x ≡ some y → x ≡ y
    some_injective {x} {y} h = ground arith

-- A system account leaves the balances of the wallets as they are, and is none of theirs.
pub record IsApart (l m : Ledger) (a : LedgerAccount) : Type 0 where
  pub later : Later l m
  pub kept : (id : ℕ) → IsOwn l id → balance_at id m ≡ balance_at id l
  pub apart : (id : ℕ) → IsOwn m id → a.id ≢ id

account_by_code-eq-ok :
    (code : Text) (l : Ledger) (a : LedgerAccount)
    → (account_by_code code l).0 ≡ ok a
    → (find_by (has_code code) l.accounts ≡ some a) × ((account_by_code code l).1 ≡ l)
account_by_code-eq-ok code l a h = ground arith

coded_row : CreateLedgerAccountInput → Text → Ledger → LedgerAccount
coded_row input code l = new_account (record input { code = some code }) l.next_id

ensure_system_account-cases :
    (input : CreateLedgerAccountInput) (code : Text) (l : Ledger)
    → (ensure_system_account input code l ≡ account_by_code code l)
      ⊎ (ensure_system_account input code l
          ≡ after (insert_account (coded_row input code l) l) (λ _. account_by_code code))
unfolding ensure_system_account coded_row
ensure_system_account-cases input code l = elim (Bool-cases (any_by (has_code code) l.accounts)) [
  | inl there ↦ inl (rw there refl)
  | inr absent ↦ inr (rw absent refl)
]

-- Both ways to the account: the tables before its code is looked up are a later state.
account_by_code-IsApart :
    (code : Text) (l m : Ledger) (a : LedgerAccount)
    → Later l m
    → ((id : ℕ) → IsOwn l id → balance_at id m ≡ balance_at id l)
    → (account_by_code code m).0 ≡ ok a
    → IsApart l (account_by_code code m).1 a
account_by_code-IsApart code l m a later kept h =
    let (found, same) = account_by_code-eq-ok code m a h in
    rw same
      (record { later = later; kept = kept; apart = coded_apart code m a later.distinct found })

pub ensure_system_account-IsApart :
    (input : CreateLedgerAccountInput) (code : Text) (l : Ledger) (a : LedgerAccount)
    → IsSound l
    → Distinct l.accounts
    → (ensure_system_account input code l).0 ≡ ok a
    → IsApart l (ensure_system_account input code l).1 a
ensure_system_account-IsApart input code l a s d h =
    elim (ensure_system_account-cases input code l) [
      | inl there ↦
          rw there
            (account_by_code-IsApart code l l a (Later-refl l s d) (λ id own. refl) (rw there at h))
      | inr added ↦
          let row = coded_row input code l in
          let (_, inserted, found) =
            after-eq-ok (insert_account row l) (λ _. account_by_code code) (rw added at h) in
          rw (added, after-ok (insert_account row l) (λ _. account_by_code code) inserted)
            (account_by_code-IsApart code l (insert_account row l).1 a
              (insert_account-Later row l (unfold coded_row in refl) s d)
              (insert_account-balance_at row l) found)
    ]
