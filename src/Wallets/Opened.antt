-- ===== src/Wallets/Opened.antt =====
-- What `insertWallet` and `create` of wallets.service.ts leave in the tables.
use finstack.Base.{
  ℕ, suc, ◌≡◌, refl, ◌∙◌, ap, ◌⊎◌, inl, inr, Bool, true, false, ◌||◌, List, [], ◌∷◌, ◌++◌,
  if◌then◌else◌, arith, Bool-cases,
}
use finstack.Base.Lists.{any_by}
use finstack.Base.Text.{Text, codes, text_eq}
use finstack.Base.Result.{Result, ok, err, Error}
use finstack.Owners.{Owner, same_owner}
use finstack.Ledger.Types.{LedgerAccount}
use finstack.Ledger.Unposted.{commit_ok-same}
use finstack.Ledger.Store.{Ledger, insert_account, commit_ok}
use finstack.Ledger.Accounts.{with_account}
use finstack.Ledger.Service.{create_account, new_account}
use finstack.Wallets.Wallet.{Wallet, Bank, rolled_back}
use finstack.Wallets.Manage.{
  WalletsConfig, Primacy, fixed, if_first, purpose_account, new_wallet, primary_flag, save_wallet,
  insert_rows, insert_wallet, create, same_currency_slot, same_primary_slot, on_clash, on_retry,
}
use finstack.Wallets.Rows.{primary_of}

abbrev pub purpose_row : Text → Text → ℕ → LedgerAccount
purpose_row purpose currency = new_account (purpose_account purpose currency)

abbrev pub with_accounts : Text → Ledger → Ledger
with_accounts currency l =
    with_account (purpose_row (codes "reserved") currency (suc (suc l.next_id))) (
      with_account (purpose_row (codes "pending") currency (suc l.next_id))
        (with_account (purpose_row (codes "available") currency l.next_id) l))

abbrev pub opened_wallet : Owner → Text → Bool → ℕ → Wallet
opened_wallet owner currency primary n =
    new_wallet (suc (suc (suc n))) owner currency primary
      (purpose_row (codes "available") currency n) (purpose_row (codes "pending") currency (suc n))
      (purpose_row (codes "reserved") currency (suc (suc n)))

abbrev pub opened : Owner → Text → Bool → Bank → Bank
opened owner currency primary b = record {
  wallets = b.wallets ++ opened_wallet owner currency primary b.ledger.next_id ∷ [];
  ledger = record (with_accounts currency b.ledger) {
    next_id = suc (with_accounts currency b.ledger).next_id;
  };
}

insert_rows-save :
    (owner : Owner) (currency : Text) (p : Primacy) (b : Bank)
    → insert_rows owner currency p b
      ≡ save_wallet
          (opened_wallet owner currency (primary_flag owner p b) b.ledger.next_id)
          (record b { ledger = with_accounts currency b.ledger })
unfolding insert_rows create_account insert_account purpose_account
insert_rows-save owner currency p b = refl

-- The wallet that an insert makes, and what the indexes have let through.
pub record IsOpened (owner : Owner) (currency : Text) (b : Bank) (primary : Bool) : Type 0 where
  pub no_currency :
      any_by
        (λ v. same_currency_slot v (opened_wallet owner currency primary b.ledger.next_id))
        b.wallets
      ≡ false
  pub no_primary :
      any_by
        (λ v. same_primary_slot v (opened_wallet owner currency primary b.ledger.next_id))
        b.wallets
      ≡ false

abbrev opened_run : Owner → Text → Bool → Bank → Result Wallet × Bank
opened_run owner currency primary b =
    (ok (opened_wallet owner currency primary b.ledger.next_id), opened owner currency primary b)

insert_wallet-cases :
    (owner : Owner) (currency : Text) (p : Primacy) (b : Bank)
    → (insert_wallet owner currency p b ≡ (err Error.unique_wallet_currency, b))
      ⊎ ((insert_wallet owner currency p b ≡ (err Error.unique_wallet_primary, b))
          × (any_by
                (λ v.
                  same_primary_slot v
                    (opened_wallet owner currency (primary_flag owner p b) b.ledger.next_id))
                b.wallets
              ≡ true))
      ⊎ ((insert_wallet owner currency p b ≡ opened_run owner currency (primary_flag owner p b) b)
          × IsOpened owner currency b (primary_flag owner p b))
unfolding insert_wallet commit_ok
insert_wallet-cases owner currency p b =
    elim (Bool-cases (any_by (λ v. same_currency_slot v w) b.wallets)) [
      | inl taken ↦ inl (by_rows (rw (taken, save_wallet) refl))
      | inr free ↦ elim (Bool-cases (any_by (λ v. same_primary_slot v w) b.wallets)) [
        | inl second ↦ inr (inl (by_rows (rw (free, second, save_wallet) refl), second))
        | inr first ↦ inr (
            inr (
              by_rows (rw (free, first, save_wallet, commit) refl),
              record { no_currency = free; no_primary = first },
            ))
      ]
    ]
  where
    commit : commit_ok b.ledger (with_accounts currency b.ledger) ≡ true
    commit = commit_ok-same b.ledger (with_accounts currency b.ledger) refl refl

    w : Wallet
    w = opened_wallet owner currency (primary_flag owner p b) b.ledger.next_id

    by_rows :
        {r : Result Wallet × Bank}
        → rolled_back b (save_wallet w (record b { ledger = with_accounts currency b.ledger })) ≡ r
        → insert_wallet owner currency p b ≡ r
    by_rows h = ap (rolled_back b) (insert_rows-save owner currency p b) ∙ h

-- The primary flag is clear only where the owner has a primary wallet.
if_first-primary :
    (owner : Owner) (b : Bank)
    → (primary_flag owner if_first b || any_by (primary_of owner) b.wallets) ≡ true
if_first-primary owner b = elim (Bool-cases (any_by (primary_of owner) b.wallets)) [
  | inl some_one ↦ ground (arith, some_one)
  | inr no_one ↦ rw no_one refl
]

slot-primary :
    (owner : Owner) (ws : List Wallet) (w : Wallet)
    → w.owner ≡ owner
    → any_by (λ v. same_primary_slot v w) ws ≡ true
    → any_by (primary_of owner) ws ≡ true
slot-primary owner [] w e h = h
slot-primary owner (v ∷ ws) w e h =
    let owners : same_owner v.owner w.owner ≡ same_owner v.owner owner =
      ap (same_owner v.owner) e in
    ground (arith, h, owners, slot-primary owner ws w e)

-- What a call of `create` has done: nothing, and then it throws; or it has opened a wallet.
abbrev pub Created : WalletsConfig → Owner → Text → Bank → Result Wallet × Bank → Type 0
Created config owner currency b r =
    ((x : Error) × (r ≡ (err x, b)))
    ⊎ ((primary : Bool) × (r ≡ opened_run owner currency primary b)
        × IsOpened owner currency b primary
        × ((primary || any_by (primary_of owner) b.wallets) ≡ true))

single-Created :
    (config : WalletsConfig) (owner : Owner) (currency : Text) (b : Bank)
    → Created config owner currency b
        (on_clash true owner currency (insert_wallet owner currency (fixed true) b))
single-Created config owner currency b = elim (insert_wallet-cases owner currency (fixed true) b) [
  | inl h ↦ inl (Error.wallet_already_exists, rw h refl)
  | inr (inl (h, _)) ↦ inl (Error.wallet_already_exists, rw h refl)
  | inr (inr (h, free)) ↦ inr (true, rw h refl, free, refl)
]

retry-Created :
    (config : WalletsConfig) (owner : Owner) (currency : Text) (b : Bank)
    → any_by (primary_of owner) b.wallets ≡ true
    → Created config owner currency b (on_retry (insert_wallet owner currency (fixed false) b))
retry-Created config owner currency b there =
    elim (insert_wallet-cases owner currency (fixed false) b) [
      | inl h ↦ inl (Error.wallet_already_exists, rw h refl)
      | inr (inl (h, _)) ↦ inl (Error.unique_wallet_primary, rw h refl)
      | inr (inr (h, free)) ↦ inr (false, rw h refl, free, there)
    ]

multiple-Created :
    (config : WalletsConfig) (owner : Owner) (currency : Text) (b : Bank)
    → Created config owner currency b
        (on_clash false owner currency (insert_wallet owner currency if_first b))
multiple-Created config owner currency b = elim (insert_wallet-cases owner currency if_first b) [
  | inl h ↦ inl (Error.wallet_already_exists, rw h refl)
  | inr (inl (h, clashes)) ↦ rw h (
      retry-Created config owner currency b (
        slot-primary owner b.wallets
          (opened_wallet owner currency (primary_flag owner if_first b) b.ledger.next_id) refl
          clashes))
  | inr (inr (h, free)) ↦
      inr (primary_flag owner if_first b, rw h refl, free, if_first-primary owner b)
]

on_clash-Created :
    (config : WalletsConfig) (owner : Owner) (currency : Text) (b : Bank)
    → Created config owner currency b (
        on_clash config.single owner currency
          (insert_wallet owner currency (if config.single then fixed true else if_first) b))
on_clash-Created config owner currency b = elim (Bool-cases config.single) [
  | inl single ↦ rw single (single-Created config owner currency b)
  | inr multiple ↦ rw multiple (multiple-Created config owner currency b)
]

create-cases :
    (config : WalletsConfig) (owner : Owner) (currency : Text) (b : Bank)
    → (create config owner currency b ≡ (err Error.wallet_currency_not_allowed, b))
      ⊎ (create config owner currency b
          ≡ on_clash config.single owner currency
              (insert_wallet owner currency (if config.single then fixed true else if_first) b))
unfolding create
create-cases config owner currency b =
    elim (Bool-cases (any_by (λ c. text_eq c currency) config.allowed_currencies)) [
      | inl allowed ↦ inr (rw allowed refl)
      | inr refused ↦ inl (rw refused refl)
    ]

pub create-Created :
    (config : WalletsConfig) (owner : Owner) (currency : Text) (b : Bank)
    → Created config owner currency b (create config owner currency b)
create-Created config owner currency b = elim (create-cases config owner currency b) [
  | inl refused ↦ inl (Error.wallet_currency_not_allowed, refused)
  | inr went ↦ rw went (on_clash-Created config owner currency b)
]
