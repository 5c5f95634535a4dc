-- ===== src/Wallets/Register.antt =====
-- The unique indexes of wallet.entity.ts and the primary flag: what the methods that open wallets and
-- choose the primary one (wallets.service.ts) keep true of the rows.
use finstack.Base.{
  ℕ, ◌≡◌, refl, sym, ◌∙◌, ap, inl, inr, Bool, true, false, ◌&&◌, ◌||◌, not, some, List, [], ◌∷◌,
  map, arith, Bool-cases,
}
use mathlib.Core.Path.{subst}
use finstack.Base.Lists.{All, All-map, any_by, find_by, find_by-passes, find_by-All}
use finstack.Owners.{Owner, same_owner}
use finstack.Wallets.Wallet.{Wallet}
use finstack.Wallets.Access.{has_wallet_id}
use finstack.Wallets.Manage.{owned_by, cleared, raised}
use finstack.Wallets.Rows.{clash, Apart, primary_of, IsRegister, same_owner_iff}

find_by-any_by :
    {A : Type 0} → (t : A → Bool) (xs : List A) (a : A) → find_by t xs ≡ some a → any_by t xs ≡ true
find_by-any_by t [] a h = absurd (ground arith)
find_by-any_by t (x ∷ xs) a h = ground (arith, find_by-any_by t xs a)

module _ (owner : Owner) (id : ℕ) where
  -- One row under the two updates of `setPrimary`.
  unfoldable pub switched : Wallet → Wallet
  switched w = raised id (cleared owner w)

  switched-id : (w : Wallet) → (switched w).id ≡ w.id
  unfolding switched
  switched-id w = ground arith

  switched-owner : (w : Wallet) → (switched w).owner ≡ w.owner
  unfolding switched
  switched-owner w = ground arith

  switched-currency : (w : Wallet) → (switched w).currency ≡ w.currency
  unfolding switched
  switched-currency w = ground arith

  switched-primary :
      (w : Wallet)
      → (switched w).is_primary ≡ (has_wallet_id id w || (not (owned_by owner w) && w.is_primary))
  unfolding switched
  switched-primary w = ground arith

  -- The wallet with the id is the owner's.
  abbrev Mine : Wallet → Type 0
  Mine w = has_wallet_id id w ≡ true → owned_by owner w ≡ true

  switched-clash :
      (v w : Wallet) → Mine v → Mine w → clash v w ≡ false → clash (switched v) (switched w) ≡ false
  switched-clash v w mv mw h =
      rw
        (
          switched-id v,
          switched-id w,
          switched-owner v,
          switched-owner w,
          switched-currency v,
          switched-currency w,
          switched-primary v,
          switched-primary w,
        )
        (elim (Bool-cases (same_owner v.owner w.owner)) [
          | inl same ↦
              let owners : v.owner ≡ w.owner = (same_owner_iff v.owner w.owner).0 same in
              let alike : owned_by owner v ≡ owned_by owner w =
                ap (λ o. same_owner o owner) owners in
              ground (arith, h, alike, mv, mw)
          | inr other ↦ ground (arith, h, other)
        ])

  map-switched : (ws : List Wallet) → map (raised id) (map (cleared owner) ws) ≡ map switched ws
  unfolding switched
  map-switched [] = refl
  map-switched (w ∷ ws) = ap (λ vs. raised id (cleared owner w) ∷ vs) (map-switched ws)

  switched-Apart : (ws : List Wallet) → All Mine ws → Apart ws → Apart (map switched ws)
  switched-Apart [] mine h = tt
  switched-Apart (w ∷ ws) (mw, mine) (here, rest) =
      (others ws mine here, switched-Apart ws mine rest)
    where
      others :
          (vs : List Wallet)
          → All Mine vs
          → All (λ v. clash w v ≡ false) vs
          → All (λ v. clash (switched w) v ≡ false) (map switched vs)
      others [] ms h = tt
      others (v ∷ vs) ms h = (switched-clash w v mw ms.0 h.0, others vs ms.1 h.1)

  switched-owned :
      (o : Owner) (ws : List Wallet)
      → any_by (owned_by o) (map switched ws) ≡ any_by (owned_by o) ws
  switched-owned o [] = refl
  switched-owned o (w ∷ ws) = rw (switched-owner w, switched-owned o ws) refl

  -- The owner's wallet with the id is primary.
  switched-mine :
      (ws : List Wallet)
      → any_by (λ w. has_wallet_id id w && owned_by owner w) ws ≡ true
      → any_by (primary_of owner) (map switched ws) ≡ true
  switched-mine [] h = h
  switched-mine (w ∷ ws) h =
      rw (switched-owner w, switched-primary w) (ground (arith, h, switched-mine ws))

  -- The wallets of other owners are as they were.
  switched-others :
      (o : Owner) (ws : List Wallet)
      → same_owner owner o ≡ false
      → All Mine ws
      → any_by (primary_of o) (map switched ws) ≡ any_by (primary_of o) ws
  switched-others o [] other mine = refl
  switched-others o (w ∷ ws) other (mw, mine) =
      rw (switched-owner w, switched-primary w, switched-others o ws other mine)
        (ap (λ t. t || any_by (primary_of o) ws) here)
    where
      here :
          (same_owner w.owner o && (has_wallet_id id w || (not (owned_by owner w) && w.is_primary)))
          ≡ primary_of o w
      here = elim (Bool-cases (owned_by owner w)) [
        | inl mine_too ↦
            let owners : w.owner ≡ owner = (same_owner_iff w.owner owner).0 mine_too in
            let elsewhere : same_owner w.owner o ≡ false = rw owners other in
            ground (arith, elsewhere)
        | inr not_mine ↦ ground (arith, not_mine, mw)
      ]

  -- In a register, only one wallet has the id.
  found-Mine :
      (ws : List Wallet) (w : Wallet)
      → Apart ws
      → find_by (λ v. has_wallet_id id v && owned_by owner v) ws ≡ some w
      → All Mine ws
  found-Mine [] w a h = tt
  found-Mine (v ∷ ws) w (here, rest) h =
      elim (Bool-cases (has_wallet_id id v && owned_by owner v)) [
        | inl hit ↦ (
          λ _. ground (arith, hit),
          All-map _ _ ws (λ u k same. absurd (ground (arith, hit, k, same))) here,
        )
        | inr miss ↦
            let later : find_by (λ u. has_wallet_id id u && owned_by owner u) ws ≡ some w =
              ground (arith, h, miss) in
            let there = find_by-passes _ ws w later in
            let apart = find_by-All _ _ ws w here later in
            (λ same. absurd (ground (arith, there, apart, same)), found-Mine ws w rest later)
      ]

  pub switched-IsRegister :
      (ws : List Wallet) (w : Wallet)
      → IsRegister ws
      → find_by (λ v. has_wallet_id id v && owned_by owner v) ws ≡ some w
      → IsRegister (map (raised id) (map (cleared owner) ws))
  switched-IsRegister ws w r found =
      let mine = found-Mine ws w r.apart found in
      rw (map-switched ws) (record {
        apart = switched-Apart ws mine r.apart;
        has_primary = λ o h. elim (Bool-cases (same_owner owner o)) [
          | inl same ↦
              let owners : owner ≡ o = (same_owner_iff owner o).0 same in
              subst (λ x. any_by (primary_of x) (map switched ws) ≡ true) owners
                (switched-mine ws (find_by-any_by _ ws w found))
          | inr other ↦
              rw (switched-others o ws other mine) (r.has_primary o (sym (switched-owned o ws) ∙ h))
        ];
      })

-- Rows changed in nothing that the indexes read.
module _ (f : Wallet → Wallet)
    (same : (w : Wallet)
      → ((f w).id ≡ w.id)
        × ((f w).owner ≡ w.owner)
        × ((f w).currency ≡ w.currency)
        × ((f w).is_primary ≡ w.is_primary)) where
  same-clash : (v w : Wallet) → clash (f v) (f w) ≡ clash v w
  same-clash v w =
      rw
        (
          (same v).0,
          (same w).0,
          (same v).1,
          (same w).1,
          (same v).2,
          (same w).2,
          (same v).3,
          (same w).3,
        )
        refl

  same-Apart : (ws : List Wallet) → Apart ws → Apart (map f ws)
  same-Apart [] h = tt
  same-Apart (w ∷ ws) (here, rest) = (others ws here, same-Apart ws rest)
    where
      others :
          (vs : List Wallet)
          → All (λ v. clash w v ≡ false) vs
          → All (λ v. clash (f w) v ≡ false) (map f vs)
      others [] h = tt
      others (v ∷ vs) h = (same-clash w v ∙ h.0, others vs h.1)

  same-owned :
      (o : Owner) (ws : List Wallet) → any_by (owned_by o) (map f ws) ≡ any_by (owned_by o) ws
  same-owned o [] = refl
  same-owned o (w ∷ ws) = rw ((same w).1, same-owned o ws) refl

  same-primary :
      (o : Owner) (ws : List Wallet) → any_by (primary_of o) (map f ws) ≡ any_by (primary_of o) ws
  same-primary o [] = refl
  same-primary o (w ∷ ws) = rw ((same w).1, (same w).3, same-primary o ws) refl

  pub same_slots-IsRegister : (ws : List Wallet) → IsRegister ws → IsRegister (map f ws)
  same_slots-IsRegister ws r = record {
    apart = same-Apart ws r.apart;
    has_primary = λ o h. same-primary o ws ∙ r.has_primary o (sym (same-owned o ws) ∙ h);
  }
