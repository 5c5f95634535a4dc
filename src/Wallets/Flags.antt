-- ===== src/Wallets/Flags.antt =====
-- The flags and statuses of wallet rows: their updates leave each wallet its accounts.
use finstack.Base.{ℕ, ◌≡◌, sym, ◌<◌, List, [], ◌∷◌, map, arith}
use mathlib.Core.Path.{subst}
use finstack.Base.Lists.{All}
use finstack.Owners.{Owner}
use finstack.Ledger.Store.{Ledger}
use finstack.Wallets.Wallet.{
  Wallet, Balance, available_balance, pending_balance, reserved_balance, Bank,
}
use finstack.Wallets.Access.{account_of}
use finstack.Wallets.Sound.{IsBank, IsOwn, IsWallet}
use finstack.Wallets.Manage.{cleared, raised}

account_of-same :
    (v w : Wallet)
    → v.available_account_id ≡ w.available_account_id
    → v.pending_account_id ≡ w.pending_account_id
    → v.reserved_account_id ≡ w.reserved_account_id
    → (k : Balance) → account_of w k ≡ account_of v k
account_of-same v w a p r available_balance = sym a
account_of-same v w a p r pending_balance = sym p
account_of-same v w a p r reserved_balance = sym r

-- A wallet is told by its accounts.
same_accounts :
    (l : Ledger) (v w : Wallet)
    → v.available_account_id ≡ w.available_account_id
    → v.pending_account_id ≡ w.pending_account_id
    → v.reserved_account_id ≡ w.reserved_account_id
    → IsWallet l w
    → IsWallet l v
same_accounts l v w a p r h =
    let same = account_of-same v w a p r in
    record {
      own = λ k. subst (IsOwn l) (same k) (h.own k);
      apart = λ i k. rw (← same i, ← same k) (h.apart i k);
    }

-- A change of the rows' flags leaves their ids and accounts.
flags-IsBank :
    (f : Wallet → Wallet) (b : Bank)
    → ((w : Wallet) → IsWallet b.ledger w → IsWallet b.ledger (f w))
    → ((w : Wallet) → (f w).id ≡ w.id)
    → IsBank b
    → IsBank (record b { wallets = map f b.wallets })
flags-IsBank f b keeps ids h = record {
  sound = h.sound;
  distinct = h.distinct;
  wallets = mapped b.wallets h.wallets;
  fresh = below b.wallets h.fresh;
}
  where
    mapped : (ws : List Wallet) → All (IsWallet b.ledger) ws → All (IsWallet b.ledger) (map f ws)
    mapped [] k = tt
    mapped (w ∷ ws) k = (keeps w k.0, mapped ws k.1)

    below :
        (ws : List Wallet)
        → All (λ w. w.id < b.ledger.next_id) ws
        → All (λ w. w.id < b.ledger.next_id) (map f ws)
    below [] k = tt
    below (w ∷ ws) k = (rw (ids w) k.0, below ws k.1)

pub flag_change :
    (f : Wallet → Wallet) (b : Bank)
    → ((w : Wallet)
        → ((f w).id ≡ w.id)
          × ((f w).available_account_id ≡ w.available_account_id)
          × ((f w).pending_account_id ≡ w.pending_account_id)
          × ((f w).reserved_account_id ≡ w.reserved_account_id))
    → IsBank b
    → IsBank (record b { wallets = map f b.wallets })
flag_change f b same =
    flags-IsBank f b (λ w h. same_accounts b.ledger (f w) w (same w).1 (same w).2 (same w).3 h)
      (λ w. (same w).0)

abbrev pub switched_bank : Owner → ℕ → Bank → Bank
switched_bank owner id b = record b { wallets = map (raised id) (map (cleared owner) b.wallets) }

pub switched_bank-IsBank :
    (owner : Owner) (id : ℕ) (b : Bank) → IsBank b → IsBank (switched_bank owner id b)
switched_bank-IsBank owner id b h =
    flag_change (raised id) (record b { wallets = map (cleared owner) b.wallets })
      (λ w. (ground arith, ground arith, ground arith, ground arith))
      (flag_change (cleared owner) b (λ w. (ground arith, ground arith, ground arith, ground arith))
        h)
