-- ===== src/Wallets/Credit.antt =====
-- `resolveCreditTarget` of wallets.service.ts, and the statuses that stop money.
use finstack.Base.{
  ◌≡◌, refl, ◌∙◌, inl, inr, Bool, true, false, ◌&&◌, not, none, some, List, [], ◌∷◌, arith,
  Bool-cases, Option-cases,
}
use mathlib.Core.Path.{subst}
use finstack.Base.Lists.{find_by, filter_by, any_by, find_by-passes}
use finstack.Base.Text.{Text, text_eq}
use finstack.Base.Result.{ok}
use finstack.Owners.{Owner}
use finstack.Wallets.Wallet.{Wallet, CreditTarget, Bank}
use finstack.Wallets.Manage.{owned_by, resolve_credit_target}
use finstack.Wallets.Rows.{IsRegister, primary_of}

find_by-filter_by :
    {A : Type 0}
    → (t s : A → Bool) (xs : List A) → find_by t (filter_by s xs) ≡ find_by (λ x. s x && t x) xs
find_by-filter_by t s [] = refl
find_by-filter_by t s (x ∷ xs) = ground (arith, find_by-filter_by t s xs)

any_by-find_by :
    {A : Type 0}
    → (t : A → Bool) (xs : List A) → any_by t xs ≡ true
    → (x : A) × (find_by t xs ≡ some x)
any_by-find_by t [] h = absurd (ground arith)
any_by-find_by t (x ∷ xs) h = elim (Bool-cases (t x)) [
  | inl hit ↦ (x, rw hit refl)
  | inr miss ↦ let (y, found) = any_by-find_by t xs (ground (arith, h, miss)) in (y, rw miss found)
]

-- What no element passes, a found one does not.
missing_fails :
    {A : Type 0}
    → (t s : A → Bool) (xs : List A) (a : A) → find_by t xs ≡ none
    → find_by s xs ≡ some a
    → t a ≡ false
missing_fails t s [] a h k = absurd (ground arith)
missing_fails t s (x ∷ xs) a h k = elim (Bool-cases (s x)) [
  | inl hit ↦
      let same : x ≡ a = ground (arith, hit, k) in
      let fails : t x ≡ false = ground (arith, h) in subst (λ y. t y ≡ false) same fails
  | inr miss ↦ missing_fails t s xs a (ground (arith, h)) (ground (arith, k, miss))
]

resolve_exact :
    (owner : Owner) (currency : Text) (b : Bank) (exact : Wallet)
    → find_by (λ w. owned_by owner w && text_eq w.currency currency) b.wallets ≡ some exact
    → resolve_credit_target owner currency b
      ≡ ok (record { wallet = exact; requires_conversion = false })
unfolding resolve_credit_target
resolve_exact owner currency b exact found =
    rw
      (
        find_by-filter_by (λ w. text_eq w.currency currency) (owned_by owner) b.wallets ∙ found,
        resolve_credit_target,
      )
      refl

resolve_primary :
    (owner : Owner) (currency : Text) (b : Bank) (primary : Wallet)
    → find_by (λ w. owned_by owner w && text_eq w.currency currency) b.wallets ≡ none
    → find_by (primary_of owner) b.wallets ≡ some primary
    → resolve_credit_target owner currency b
      ≡ ok (record { wallet = primary; requires_conversion = true })
unfolding resolve_credit_target
resolve_primary owner currency b primary missing found =
    rw
      (
        find_by-filter_by (λ w. text_eq w.currency currency) (owned_by owner) b.wallets ∙ missing,
        find_by-filter_by (λ w. w.is_primary) (owned_by owner) b.wallets ∙ found,
        resolve_credit_target,
      )
      refl

-- Where no two wallets of an owner share a currency and an owner with a wallet has a primary one, and
-- the owner has a wallet: a payment in any currency has a wallet of the owner to land in. It is in
-- the payment's currency if and only if no conversion is needed, and is the primary one otherwise.
pub resolve_credit_target-finds :
    (owner : Owner) (currency : Text) (b : Bank)
    → IsRegister b.wallets
    → any_by (owned_by owner) b.wallets ≡ true
    → (t : CreditTarget) × (resolve_credit_target owner currency b ≡ ok t)
      × (owned_by owner t.wallet ≡ true)
      × (t.requires_conversion ≡ not (text_eq t.wallet.currency currency))
      × (t.requires_conversion ≡ true → t.wallet.is_primary ≡ true)
resolve_credit_target-finds owner currency b r has =
    elim (Option-cases (find_by (λ w. owned_by owner w && text_eq w.currency currency) b.wallets)) [
      | inr (exact, found) ↦
          let fits = find_by-passes _ b.wallets exact found in
          (
            record { wallet = exact; requires_conversion = false },
            resolve_exact owner currency b exact found,
            ground (arith, fits),
            ground (arith, fits),
            λ e. absurd cc,
          )
      | inl missing ↦
          let (primary, found) =
            any_by-find_by (primary_of owner) b.wallets (r.has_primary owner has) in
          let fits = find_by-passes _ b.wallets primary found in
          let fails = missing_fails _ _ b.wallets primary missing found in
          (
            record { wallet = primary; requires_conversion = true },
            resolve_primary owner currency b primary missing found,
            and_left _ _ fits,
            other_currency _ _ _ fits fails,
            λ e. and_right _ _ fits,
          )
    ]
  where
    and_left : (p q : Bool) → (p && q) ≡ true → p ≡ true
    and_left p q h = ground arith

    and_right : (p q : Bool) → (p && q) ≡ true → q ≡ true
    and_right p q h = ground arith

    other_currency : (p q e : Bool) → (p && q) ≡ true → (p && e) ≡ false → true ≡ not e
    other_currency p q e h k = ground arith
