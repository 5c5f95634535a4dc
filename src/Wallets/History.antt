-- ===== src/Wallets/History.antt =====
-- A movement of wallets.service.ts in a database transaction of its own keeps each wallet's accounts.
use finstack.Base.{
  ℕ, ◌≡◌, ◌<◌, ◌≤◌, refl, sym, ◌∙◌, ap, some, Option-cases, true, List, [], ◌∷◌, arith, Bool-cases,
  inl, inr,
}
use mathlib.Core.Path.{subst}
use finstack.Base.Int.{pos, leb_ℤ}
use finstack.Base.Lists.{All, All-map, find_by, find_by-All}
use finstack.Base.Result.{Result, ok, err, Error}
use finstack.Base.Action.{Action, after, ◌>>=◌}
use finstack.Ledger.Posting.{Uuids}
use finstack.Ledger.Store.{Ledger, has_id, commit_ok}
use finstack.Ledger.Consistency.{IsSound}
use finstack.Ledger.Service.{PostedTransaction}
use finstack.Wallets.Wallet.{Wallet, MoneyMovement, Bank, transaction, rolled_back}
use finstack.Wallets.Access.{
  balance_at, has_wallet_id, get_wallet, lock_active_wallets, movement_posting,
  post_movement_within,
}
use finstack.Wallets.Spec.{
  Operation, run, legs, deposits_into, collects_fee_from, reserves, releases, makes_available,
  refunds_fee, reserves_split, releases_split,
}
use finstack.Wallets.Movements.{
  deposit_within, reserve_within, release_within, make_available_within, reserve_split_within,
  release_split_within, collect_fee_within, refund_fee_within,
}
use finstack.Wallets.Sound.{
  IsBank, IsOwn, IsWallet, post_within-Later, post_within-replayed, balance_at-found,
}
use finstack.Wallets.Refines.{Posts, run-Posts, locked}
use finstack.Wallets.Balances.{Later-IsWallet}

below : (ws : List Wallet) (m n : ℕ) → m ≤ n → All (λ w. w.id < m) ws → All (λ w. w.id < n) ws
below ws m n le h = All-map _ _ ws (λ w k. omega (arith, k, le)) h

pub own-covered :
    (l : Ledger) (id : ℕ) → IsSound l → IsOwn l id → leb_ℤ (pos 0) (balance_at id l) ≡ true
own-covered l id s own =
    let within = find_by-All _ (has_id id) l.accounts own.row s.covered own.found in
    let limited = own.never_negative in
    rw (balance_at-found id l own.row own.found) (ground (arith, within, limited))

module _ ⦃u : Uuids⦄ where
  Posts-IsBank :
      (op : Operation) (w : Wallet) (m : MoneyMovement) (b : Bank)
      (r : Result PostedTransaction × Bank) (p : PostedTransaction)
      → IsBank b
      → Posts op w m b r
      → r.0 ≡ ok p
      → IsBank r.1
  unfolding post_movement_within
  Posts-IsBank op w m b r p bank ps done =
      let input = movement_posting w.currency m (legs op w ps.platform m.amount) in
      let end : r ≡ post_movement_within w.currency m (legs op w ps.platform m.amount) ps.start =
        ps.posts in
      let returned = sym (ap (λ s. s.0) end) ∙ done in
      let ready = ps.ready.later in
      let start_bank : IsBank ps.start = record {
        sound = ready.sound;
        distinct = ready.distinct;
        wallets = subst (All (IsWallet ps.start.ledger)) (sym ps.ready.same_wallets) (
            All-map _ _ b.wallets (λ v h. Later-IsWallet b.ledger ps.start.ledger v ready h)
              bank.wallets);
        fresh =
            subst (All (λ v. v.id < ps.start.ledger.next_id)) (sym ps.ready.same_wallets)
              (below b.wallets b.ledger.next_id ps.start.ledger.next_id ready.grows bank.fresh);
      } in
      elim (Bool-cases p.replayed) [
        | inl again ↦
            rw (end, post_within-replayed input ps.start.ledger p returned again) start_bank
        | inr fresh ↦
            let later =
              post_within-Later input ps.start.ledger p ready.sound ready.distinct returned fresh in
            rw end (record {
              sound = later.sound;
              distinct = later.distinct;
              wallets =
                  All-map _ _ ps.start.wallets (λ v h. Later-IsWallet ps.start.ledger _ v later h)
                    start_bank.wallets;
              fresh = below ps.start.wallets ps.start.ledger.next_id _ later.grows start_bank.fresh;
            })
      ]

  Posts-wallets :
      (op : Operation) (w : Wallet) (m : MoneyMovement) (b : Bank)
      (r : Result PostedTransaction × Bank)
      → Posts op w m b r
      → r.1.wallets ≡ b.wallets
  unfolding post_movement_within
  Posts-wallets op w m b r ps =
      let end : r ≡ post_movement_within w.currency m (legs op w ps.platform m.amount) ps.start =
        ps.posts in
      rw end ps.ready.same_wallets

  -- A movement that returns has found its wallet.
  pub get_wallet-found :
      (id : ℕ) (b : Bank) (rest : Wallet → Action Bank PostedTransaction) (p : PostedTransaction)
      → (after (get_wallet id b) rest).0 ≡ ok p
      → (w : Wallet) × (find_by (has_wallet_id id) b.wallets ≡ some w)
  get_wallet-found id b rest p h = elim (Option-cases (find_by (has_wallet_id id) b.wallets)) [
    | inl missing ↦
        let read : after (get_wallet id b) rest ≡ (err Error.wallet_not_found, b) =
          rw (missing, get_wallet) refl in
        absurd (ground (arith, read, h))
    | inr there ↦ there
  ]

  locked_first :
      (ids : List ℕ) (id : ℕ) (b : Bank) (rest : Wallet → Action Bank PostedTransaction)
      (p : PostedTransaction)
      → (after (lock_active_wallets ids b) (λ _. get_wallet id >>= rest)).0 ≡ ok p
      → (w : Wallet) × (find_by (has_wallet_id id) b.wallets ≡ some w)
  locked_first ids id b rest p h =
      get_wallet-found id b rest p
        (subst (λ r. r.0 ≡ ok p) (locked ids b (get_wallet id >>= rest) p h) h)

  run-found :
      (op : Operation) (id : ℕ) (m : MoneyMovement) (b : Bank) (p : PostedTransaction)
      → (run op id m b).0 ≡ ok p
      → (w : Wallet) × (find_by (has_wallet_id id) b.wallets ≡ some w)
  unfolding run deposit_within reserve_within release_within make_available_within
      reserve_split_within release_split_within collect_fee_within refund_fee_within
  run-found (deposits_into k) id m b p h = get_wallet-found id b _ p h
  run-found (collects_fee_from k) id m b p h = get_wallet-found id b _ p h
  run-found reserves id m b p h = locked_first (id ∷ []) id b _ p h
  run-found releases id m b p h = get_wallet-found id b _ p h
  run-found makes_available id m b p h = get_wallet-found id b _ p h
  run-found refunds_fee id m b p h = get_wallet-found id b _ p h
  run-found (reserves_split x) id m b p h = locked_first (id ∷ []) id b _ p h
  run-found (releases_split x) id m b p h = get_wallet-found id b _ p h

  pub run-IsBank :
      (op : Operation) (id : ℕ) (m : MoneyMovement) (b : Bank) (p : PostedTransaction)
      → IsBank b
      → (run op id m b).0 ≡ ok p
      → IsBank (run op id m b).1 × ((run op id m b).1.wallets ≡ b.wallets)
  run-IsBank op id m b p bank done =
      let (w, found) = run-found op id m b p done in
      let ps = run-Posts id w m b p bank found op done in
      (
        Posts-IsBank op w m b (run op id m b) p bank ps done,
        Posts-wallets op w m b (run op id m b) ps,
      )

  pub transaction-IsBank :
      (op : Operation) (id : ℕ) (m : MoneyMovement) (b : Bank)
      → IsBank b
      → IsBank (transaction (run op id m) b).1
        × ((transaction (run op id m) b).1.wallets ≡ b.wallets)
  transaction-IsBank op id m b bank = returned (run op id m b) refl
    where
      returned :
          (r : Result PostedTransaction × Bank)
          → run op id m b ≡ r
          → IsBank (rolled_back b r).1 × ((rolled_back b r).1.wallets ≡ b.wallets)
      returned (err x, after_it) e = (bank, refl)
      returned (ok p, after_it) e =
          let done : (run op id m b).0 ≡ ok p = ap (λ r. r.0) e in
          let state : (run op id m b).1 ≡ after_it = ap (λ r. r.1) e in
          let kept =
            subst (λ c. IsBank c × (c.wallets ≡ b.wallets)) state
              (run-IsBank op id m b p bank done) in
          elim (Bool-cases (commit_ok b.ledger after_it.ledger)) [
            | inl balanced ↦ rw balanced kept
            | inr refused ↦ rw refused (bank, refl)
          ]
