-- ===== src/Fees/Changes.antt =====
-- The table of fee rules after any changes (fees.service.ts).
use finstack.Base.{
  ℕ, ◌≡◌, ◌≢◌, ◌<◌, sym, inl, inr, Bool, true, false, Option, List, [], ◌∷◌, ◌++◌, map, arith,
  Bool-cases,
}
use mathlib.Core.Path.{subst}
use finstack.Base.Lists.{All, All-snoc, any_by}
use finstack.Base.Text.{Text}
use finstack.Fees.Rules.{FeeOperation, FeeRule, FeeTable, is_active_in}
use finstack.Fees.Active.{in_scope-eq, UniqueIds, Apart, OnePerScope}

pub record IsSound (t : FeeTable) : Type 0 where
  pub unique : UniqueIds t.rules
  pub one : OnePerScope t.rules
  pub bounded : All (λ r. r.id < t.next_id) t.rules

-- An update that keeps ids and puts no rule in force.
module _ (f : FeeRule → FeeRule) (same_id : (r : FeeRule) → (f r).id ≡ r.id)
    (ends : (o : FeeOperation) (c : Text) (g : Option ℕ) (r : FeeRule)
      → is_active_in o c g r ≡ false
      → is_active_in o c g (f r) ≡ false) where
  pub All-ids :
      (P : ℕ → Type 0) (rs : List FeeRule) → All (λ r. P r.id) rs → All (λ r. P r.id) (map f rs)
  All-ids P [] h = tt
  All-ids P (r ∷ rs) (h, hs) = (subst P (sym (same_id r)) h, All-ids P rs hs)

  pub UniqueIds-map : (rs : List FeeRule) → UniqueIds rs → UniqueIds (map f rs)
  UniqueIds-map [] h = tt
  UniqueIds-map (r ∷ rs) (h, hs) = (
    subst (λ id. All (λ s. s.id ≢ id) (map f rs)) (sym (same_id r)) (All-ids (λ i. i ≢ r.id) rs h),
    UniqueIds-map rs hs,
  )

  Apart-map : (r s : FeeRule) → Apart r s → Apart (f r) (f s)
  Apart-map r s h o c g active = ends o c g s (h o c g was)
    where
      was : is_active_in o c g r ≡ true
      was = elim (Bool-cases (is_active_in o c g r)) [
        | inl active_r ↦ active_r
        | inr inactive ↦ let gone = ends o c g r inactive in absurd (cc)
      ]

  All-Apart :
      (r : FeeRule) (rs : List FeeRule)
      → All (λ s. Apart r s) rs
      → All (λ s. Apart (f r) s) (map f rs)
  All-Apart r [] h = tt
  All-Apart r (s ∷ rs) (h, hs) = (Apart-map r s h, All-Apart r rs hs)

  pub OnePerScope-map : (rs : List FeeRule) → OnePerScope rs → OnePerScope (map f rs)
  OnePerScope-map [] h = tt
  OnePerScope-map (r ∷ rs) (h, hs) = (All-Apart r rs h, OnePerScope-map rs hs)

-- A rule with a new id, in a scope where none is active.
pub All-none :
    (t : FeeRule → Bool) (rs : List FeeRule) → any_by t rs ≡ false → All (λ r. t r ≡ false) rs
All-none t [] h = tt
All-none t (r ∷ rs) h = (ground arith, All-none t rs (ground arith))

Apart-new :
    (r q : FeeRule) → is_active_in q.operation q.currency q.organization_id r ≡ false → Apart r q
Apart-new r q h o c g active = elim (Bool-cases (is_active_in o c g q)) [
  | inr off ↦ off
  | inl on ↦
      let (a, b, d) = in_scope-eq o c g q (ground arith) in
      let off : is_active_in o c g r ≡ false = rw (sym a, sym b, sym d) h in absurd (cc)
]

pub UniqueIds-snoc :
    (rs : List FeeRule) (q : FeeRule)
    → UniqueIds rs
    → All (λ r. r.id ≢ q.id) rs
    → UniqueIds (rs ++ q ∷ [])
UniqueIds-snoc [] q h k = (tt, tt)
UniqueIds-snoc (r ∷ rs) q (h, hs) (k, ks) =
    (All-snoc (λ s. s.id ≢ r.id) rs q h (λ e. k (sym e)), UniqueIds-snoc rs q hs ks)

pub OnePerScope-snoc :
    (rs : List FeeRule) (q : FeeRule)
    → OnePerScope rs
    → All (λ r. is_active_in q.operation q.currency q.organization_id r ≡ false) rs
    → OnePerScope (rs ++ q ∷ [])
OnePerScope-snoc [] q h k = (tt, tt)
OnePerScope-snoc (r ∷ rs) q (h, hs) (k, ks) =
    (All-snoc (λ s. Apart r s) rs q h (Apart-new r q k), OnePerScope-snoc rs q hs ks)
