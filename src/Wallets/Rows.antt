-- ===== src/Wallets/Rows.antt =====
-- The unique indexes of wallet.entity.ts: what a new row keeps true.
use finstack.Base.{
  ◌≡◌, sym, ◌∙◌, inl, inr, Bool, true, false, ◌&&◌, ◌||◌, List, [], ◌∷◌, ◌++◌, ◌==◌, arith,
  Bool-cases, ◌↔◌,
}
use mathlib.Core.Path.{subst}
use finstack.Base.Lists.{All, All-snoc, All-zip, any_by}
use finstack.Owners.{Owner, user, organization, same_owner}
use finstack.Wallets.Wallet.{Wallet}
use finstack.Wallets.Manage.{owned_by, same_currency_slot, same_primary_slot}

abbrev pub clash : Wallet → Wallet → Bool
clash v w = (v.id == w.id) || (same_currency_slot v w || same_primary_slot v w)

abbrev pub Apart : List Wallet → Type 0
Apart [] = Unit
Apart (w ∷ ws) = All (λ v. clash w v ≡ false) ws × Apart ws

abbrev pub primary_of : Owner → Wallet → Bool
primary_of owner w = owned_by owner w && w.is_primary

-- No two wallets of an owner have one currency or are both primary, and an owner with a wallet has
-- a primary one.
pub record IsRegister (ws : List Wallet) : Type 0 where
  pub apart : Apart ws
  pub has_primary :
      (owner : Owner) → any_by (owned_by owner) ws ≡ true → any_by (primary_of owner) ws ≡ true

pub same_owner_iff : (a b : Owner) → (same_owner a b ≡ true) ↔ (a ≡ b)
same_owner_iff (user a) (user b) = ground (arith)
same_owner_iff (organization a) (organization b) = ground (arith)
same_owner_iff (user a) (organization b) = ground (arith)
same_owner_iff (organization a) (user b) = ground (arith)

Apart-snoc :
    (ws : List Wallet) (w : Wallet)
    → Apart ws
    → All (λ v. clash v w ≡ false) ws
    → Apart (ws ++ w ∷ [])
Apart-snoc [] w a h = (tt, tt)
Apart-snoc (v ∷ ws) w (here, rest) h = (All-snoc _ ws w here h.0, Apart-snoc ws w rest h.1)

pub any_by-none :
    {A : Type 0} → (t : A → Bool) (xs : List A) → any_by t xs ≡ false → All (λ x. t x ≡ false) xs
any_by-none t [] h = tt
any_by-none t (x ∷ xs) h = (ground arith, any_by-none t xs (ground arith))

any_by-snoc :
    {A : Type 0}
    → (t : A → Bool) (xs : List A) (y : A) → any_by t (xs ++ y ∷ []) ≡ (any_by t xs || t y)
any_by-snoc t [] y = ground arith
any_by-snoc t (x ∷ xs) y = ground (arith, any_by-snoc t xs y)

-- A new row that no index refuses, and that is primary or has a primary one beside it.
pub snoc-IsRegister :
    (ws : List Wallet) (w : Wallet)
    → IsRegister ws
    → All (λ v. (v.id == w.id) ≡ false) ws
    → any_by (λ v. same_currency_slot v w) ws ≡ false
    → any_by (λ v. same_primary_slot v w) ws ≡ false
    → (w.is_primary || any_by (primary_of w.owner) ws) ≡ true
    → IsRegister (ws ++ w ∷ [])
snoc-IsRegister ws w r ids currency primary first = record {
  apart = Apart-snoc ws w r.apart (
      All-zip _ _ _ ws (λ v h k. ground (arith, h, k)) ids
        (All-zip _ _ (λ v. (same_currency_slot v w || same_primary_slot v w) ≡ false) ws
          (λ v h k. ground (arith, h, k)) (any_by-none _ ws currency) (any_by-none _ ws primary)));
  has_primary = λ owner h.
      let old = r.has_primary owner in
      rw any_by-snoc (elim (Bool-cases (same_owner w.owner owner)) [
        | inl mine ↦
            let same : w.owner ≡ owner = (same_owner_iff w.owner owner).0 mine in
            let beside : (w.is_primary || any_by (primary_of owner) ws) ≡ true =
              subst (λ o. (w.is_primary || any_by (primary_of o) ws) ≡ true) same first in
            ground (arith, beside, mine)
        | inr other ↦
            let had : any_by (owned_by owner) ws ≡ true =
              ground (arith, sym (any_by-snoc (owned_by owner) ws w) ∙ h, other) in
            ground (arith, old had)
      ]);
}
