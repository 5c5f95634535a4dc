-- ===== src/Wallets/Events.antt =====
-- The wallets of the platform from its start: wallets are opened, made primary, frozen, and money is
-- moved (wallets.service.ts).
use finstack.Base.{
  ℕ, ◌≡◌, refl, sym, inl, inr, Bool, true, ◌&&◌, ◌||◌, ◌⊎◌, some, List, [], ◌∷◌, if◌then◌else◌,
  arith, Bool-cases, Option-cases,
}
use mathlib.Core.Path.{subst}
use finstack.Base.Int.{pos, leb_ℤ}
use finstack.Base.Lists.{All, All-map, find_by, any_by}
use finstack.Base.Text.{Text}
use finstack.Base.Result.{Result, ok, err}
use finstack.Base.Action.{after}
use finstack.Owners.{Owner, same_owner}
use finstack.Ledger.Unposted.{commit_ok-same}
use finstack.Ledger.Store.{no_rows, commit_ok}
use finstack.Ledger.Posting.{Uuids}
use finstack.Ledger.Commit.{no_rows-IsConsistent}
use finstack.Wallets.Wallet.{
  Wallet, WalletStatus, MoneyMovement, Balance, Bank, transaction, rolled_back, is_active_status,
}
use finstack.Wallets.Access.{has_wallet_id, account_of, balance_at, find_owned}
use finstack.Wallets.Spec.{Operation, run}
use finstack.Wallets.Sound.{IsBank}
use finstack.Wallets.Manage.{
  WalletsConfig, create, set_primary, change_primary, set_status, make_primary,
}
use finstack.Wallets.Opened.{create-Created, opened, opened_wallet, IsOpened}
use finstack.Wallets.OpenedBank.{opened-IsBank}
use finstack.Wallets.Rows.{IsRegister, snoc-IsRegister, primary_of}
use finstack.Wallets.Register.{switched-IsRegister, same_slots-IsRegister}
use finstack.Wallets.History.{transaction-IsBank, own-covered}
use finstack.Wallets.Flags.{flag_change, switched_bank, switched_bank-IsBank}

pub data Event : Type 0 where
  moves : Operation → ℕ → MoneyMovement → Event
  opens : Owner → Text → Event
  makes_primary : Owner → ℕ → Event
  sets_status : ℕ → WalletStatus → Event

-- The platform before its first wallet.
abbrev pub empty_bank : Bank
empty_bank = record { ledger = no_rows; wallets = [] }

module _ ⦃u : Uuids⦄ where
  -- Each in a database transaction of its own.
  unfoldable pub serve : WalletsConfig → Event → Bank → Bank
  unfolding run create set_primary set_status
  serve config (moves op id m) b = (transaction (run op id m) b).1
  serve config (opens owner currency) b = (create config owner currency b).1
  serve config (makes_primary owner id) b = (set_primary owner id b).1
  serve config (sets_status id status) b = (set_status id status b).1

  unfoldable pub serve_all : WalletsConfig → List Event → Bank → Bank
  unfolding serve
  serve_all config [] b = b
  serve_all config (e ∷ es) b = serve_all config es (serve config e b)

-- Both invariants.
pub record IsPlatform (b : Bank) : Type 0 where
  pub bank : IsBank b
  pub register : IsRegister b.wallets

opened-IsPlatform :
    (owner : Owner) (currency : Text) (primary : Bool) (b : Bank)
    → IsPlatform b
    → IsOpened owner currency b primary
    → (primary || any_by (primary_of owner) b.wallets) ≡ true
    → IsPlatform (opened owner currency primary b)
opened-IsPlatform owner currency primary b h new first = record {
  bank = opened-IsBank owner currency primary b h.bank;
  register =
      snoc-IsRegister b.wallets (opened_wallet owner currency primary b.ledger.next_id) h.register
        (All-map _ _ b.wallets (λ v k. ground (arith, k)) h.bank.fresh) new.no_currency
        new.no_primary first;
}

create-IsPlatform :
    (config : WalletsConfig) (owner : Owner) (currency : Text) (b : Bank)
    → IsPlatform b
    → IsPlatform (create config owner currency b).1
create-IsPlatform config owner currency b h = elim (create-Created config owner currency b) [
  | inl (x, refused) ↦ rw refused h
  | inr (primary, done, new, first) ↦
      rw done (opened-IsPlatform owner currency primary b h new first)
]

find_owned-reads : (owner : Owner) (id : ℕ) (b : Bank) → (find_owned owner id b).1 ≡ b
find_owned-reads owner id b = ground arith

then_reads :
    (r : Result (Unit {0}) × Bank) (owner : Owner) (id : ℕ)
    → (after r (λ _. find_owned owner id)).1 ≡ r.1
then_reads (ok tt, b) owner id = find_owned-reads owner id b
then_reads (err x, b) owner id = refl

change_primary-cases :
    (owner : Owner) (id : ℕ) (b : Bank)
    → ((transaction (change_primary owner id) b).1 ≡ b)
      ⊎ ((target : Wallet) × (find_by
              (λ w. has_wallet_id id w && same_owner w.owner owner)
              b.wallets
            ≡ some target)
          × ((transaction (change_primary owner id) b).1 ≡ switched_bank owner id b))
change_primary-cases owner id b =
    elim (Option-cases (find_by (λ w. has_wallet_id id w && same_owner w.owner owner) b.wallets)) [
      | inl missing ↦ inl (rw (missing, find_owned) refl)
      | inr (target, found) ↦
          let read : transaction (change_primary owner id) b
              ≡ rolled_back b (make_primary owner id target b) =
            rw (found, find_owned) refl in
          elim (Bool-cases target.is_primary) [
            | inl already ↦
                inl (rw (read, already, commit_ok-same b.ledger b.ledger refl refl) refl)
            | inr other ↦ elim (Bool-cases (is_active_status target.status)) [
              | inl live ↦
                  elim (Bool-cases (commit_ok b.ledger (switched_bank owner id b).ledger)) [
                    | inl balanced ↦ inr (target, found, rw (read, other, live, balanced) refl)
                    | inr refused ↦ inl (rw (read, other, live, refused) refl)
                  ]
              | inr blocked ↦ inl (rw (read, other, blocked) refl)
            ]
          ]
    ]

set_primary-IsPlatform :
    (owner : Owner) (id : ℕ) (b : Bank) → IsPlatform b → IsPlatform (set_primary owner id b).1
unfolding set_primary
set_primary-IsPlatform owner id b h =
    subst IsPlatform (sym (then_reads (transaction (change_primary owner id) b) owner id))
      (elim (change_primary-cases owner id b) [
        | inl same ↦ subst IsPlatform (sym same) h
        | inr (target, found, switched) ↦ subst IsPlatform (sym switched) (record {
          bank = switched_bank-IsBank owner id b h.bank;
          register = switched-IsRegister owner id b.wallets target h.register found;
        })
      ])

abbrev with_status : ℕ → WalletStatus → Wallet → Wallet
with_status id status w = if has_wallet_id id w then record w { status = status } else w

set_status-IsPlatform :
    (id : ℕ) (status : WalletStatus) (b : Bank)
    → IsPlatform b
    → IsPlatform (set_status id status b).1
unfolding set_status
set_status-IsPlatform id status b h = record {
  bank =
      flag_change (with_status id status) b
        (λ w. (ground arith, ground arith, ground arith, ground arith)) h.bank;
  register =
      same_slots-IsRegister (with_status id status)
        (λ w. (ground arith, ground arith, ground arith, ground arith)) b.wallets h.register;
}

module _ ⦃u : Uuids⦄ where
  moves-IsPlatform :
      (op : Operation) (id : ℕ) (m : MoneyMovement) (b : Bank)
      → IsPlatform b
      → IsPlatform (transaction (run op id m) b).1
  moves-IsPlatform op id m b h =
      let (bank, same) = transaction-IsBank op id m b h.bank in
      record { bank = bank; register = subst IsRegister (sym same) h.register }

  serve-IsPlatform :
      (config : WalletsConfig) (e : Event) (b : Bank) → IsPlatform b → IsPlatform (serve config e b)
  unfolding serve
  serve-IsPlatform config (moves op id m) b h = moves-IsPlatform op id m b h
  serve-IsPlatform config (opens owner currency) b h = create-IsPlatform config owner currency b h
  serve-IsPlatform config (makes_primary owner id) b h = set_primary-IsPlatform owner id b h
  serve-IsPlatform config (sets_status id status) b h = set_status-IsPlatform id status b h

  pub serve_all-IsPlatform :
      (config : WalletsConfig) (es : List Event) (b : Bank)
      → IsPlatform b
      → IsPlatform (serve_all config es b)
  unfolding serve_all
  serve_all-IsPlatform config [] b h = h
  serve_all-IsPlatform config (e ∷ es) b h =
      serve_all-IsPlatform config es (serve config e b) (serve-IsPlatform config e b h)

  pub empty_bank-IsPlatform : IsPlatform empty_bank
  empty_bank-IsPlatform = record {
    bank = record { sound = no_rows-IsConsistent.sound; distinct = tt; wallets = tt; fresh = tt };
    register = record { apart = tt; has_primary = λ owner h. h };
  }

  -- From the platform without wallets, whatever wallets are opened, made primary, frozen, unfrozen
  -- and closed, and whichever of the eight movements that run in a transaction of the caller
  -- (depositWithin, reserveWithin, releaseWithin, makeAvailableWithin, reserveSplitWithin,
  -- releaseSplitWithin, collectFeeWithin, refundFeeWithin) run on them, in any order: no balance of
  -- a wallet is negative.
  pub serve_all-never_negative :
      (config : WalletsConfig) (es : List Event)
      → All
          (λ w.
            (k : Balance)
            → leb_ℤ (pos 0) (balance_at (account_of w k) (serve_all config es empty_bank).ledger)
              ≡ true)
          (serve_all config es empty_bank).wallets
  serve_all-never_negative config es =
      let end = (serve_all-IsPlatform config es empty_bank empty_bank-IsPlatform).bank in
      All-map _ _ _ (λ w h k. own-covered _ (account_of w k) end.sound (h.own k)) end.wallets

  -- From the platform without wallets, after wallets are opened, made primary, given a status, and
  -- moved money by the eight movements that run in a transaction of the caller, in any order: no two wallets of an owner are
  -- in one currency or are both primary, no two wallets have one id, and an owner that has a wallet
  -- has a primary one.
  pub serve_all-IsRegister :
      (config : WalletsConfig) (es : List Event)
      → IsRegister (serve_all config es empty_bank).wallets
  serve_all-IsRegister config es =
      (serve_all-IsPlatform config es empty_bank empty_bank-IsPlatform).register
