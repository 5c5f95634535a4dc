-- ===== src/Base/Lists.antt =====
-- Lists: lengths, Boolean tests over a list, first match, and sums.
use mathlib.Core.List.{map}
use mathlib.Core.Option.{map as map_option}
use finstack.Base.{
  ℕ, zero, suc, ◌+◌, ◌≤◌, ◌≡◌, refl, Bool, true, false, ◌&&◌, ◌||◌, Option, none, some, List, [],
  ◌∷◌, ◌++◌, arith, if◌then◌else◌, Bool-cases, inl, inr,
}
use mathlib.Core.Path.{subst}

module _ {ℓ} {A : Type ℓ} where
  abbrev pub length : List A → ℕ
  length [] = 0
  length (x ∷ xs) = suc (length xs)

  abbrev pub take : ℕ → List A → List A
  take zero xs = []
  take (suc n) [] = []
  take (suc n) (x ∷ xs) = x ∷ take n xs

  abbrev pub drop : ℕ → List A → List A
  drop zero xs = xs
  drop (suc n) [] = []
  drop (suc n) (x ∷ xs) = drop n xs

  -- `xs.filter(test)`
  abbrev pub filter_by : (A → Bool) → List A → List A
  filter_by test [] = []
  filter_by test (x ∷ xs) = if test x then x ∷ filter_by test xs else filter_by test xs

  -- `xs.find(test)`, and the database's `findOneBy`.
  abbrev pub find_by : (A → Bool) → List A → Option A
  find_by test [] = none
  find_by test (x ∷ xs) = if test x then some x else find_by test xs

  -- `xs.some(test)`
  abbrev pub any_by : (A → Bool) → List A → Bool
  any_by test [] = false
  any_by test (x ∷ xs) = test x || any_by test xs

  -- `xs.every(test)`
  abbrev pub all_by : (A → Bool) → List A → Bool
  all_by test [] = true
  all_by test (x ∷ xs) = test x && all_by test xs

  -- Changes the first element that passes the test.
  abbrev pub update_first : (A → Bool) → (A → A) → List A → List A
  update_first test f [] = []
  update_first test f (x ∷ xs) = if test x then f x ∷ xs else x ∷ update_first test f xs

  abbrev pub is_empty : List A → Bool
  is_empty [] = true
  is_empty (x ∷ xs) = false

  abbrev pub is_some : Option A → Bool
  is_some none = false
  is_some (some a) = true

  abbrev pub All {κ} : (A → Type κ) → List A → Type κ
  All P [] = Unit
  All P (x ∷ xs) = P x × All P xs

  pub length-append : (xs ys : List A) → length (xs ++ ys) ≡ length xs + length ys
  length-append [] ys = omega arith
  length-append (x ∷ xs) ys = omega (arith, length-append xs ys)

  pub length-filter_by-le : (t : A → Bool) (xs : List A) → length (filter_by t xs) ≤ length xs
  length-filter_by-le t [] = omega arith
  length-filter_by-le t (x ∷ xs) = ground (arith, length-filter_by-le t xs)

  pub find_by-passes : (t : A → Bool) (xs : List A) (a : A) → find_by t xs ≡ some a → t a ≡ true
  find_by-passes t [] a h = cc
  find_by-passes t (y ∷ xs) a h = elim (Bool-cases (t y)) [
    | inl e ↦ let same : y ≡ a = ground arith in subst (λ z. t z ≡ true) same e
    | inr e ↦ find_by-passes t xs a (ground arith)
  ]

  pub find_by-All {κ} :
      (P : A → Type κ) (t : A → Bool) (xs : List A) (a : A) → All P xs → find_by t xs ≡ some a → P a
  find_by-All P t [] a h e = absurd (ground arith)
  find_by-All P t (y ∷ xs) a h e = elim (Bool-cases (t y)) [
    | inl p ↦ let same : y ≡ a = ground arith in subst P same h.0
    | inr p ↦ find_by-All P t xs a h.1 (ground arith)
  ]

  pub All-map {κ μ} :
      (P : A → Type κ) (Q : A → Type μ) (xs : List A) → ((x : A) → P x → Q x) → All P xs → All Q xs
  All-map P Q [] f h = tt
  All-map P Q (x ∷ xs) f h = (f x h.0, All-map P Q xs f h.1)

  pub All-zip {κ μ ν} :
      (P : A → Type κ) (Q : A → Type μ) (R : A → Type ν) (xs : List A)
      → ((x : A) → P x → Q x → R x)
      → All P xs
      → All Q xs
      → All R xs
  All-zip P Q R [] f h k = tt
  All-zip P Q R (x ∷ xs) f h k = (f x h.0 k.0, All-zip P Q R xs f h.1 k.1)

  pub All-snoc {κ} : (P : A → Type κ) (xs : List A) (y : A) → All P xs → P y → All P (xs ++ y ∷ [])
  All-snoc P [] y h p = (p, tt)
  All-snoc P (x ∷ xs) y h p = (h.0, All-snoc P xs y h.1 p)

  pub All-append {κ} : (P : A → Type κ) (xs ys : List A) → All P xs → All P ys → All P (xs ++ ys)
  All-append P [] ys h k = k
  All-append P (x ∷ xs) ys h k = (h.0, All-append P xs ys h.1 k)

  pub All-drop {κ} : (P : A → Type κ) (xs ys : List A) → All P (xs ++ ys) → All P ys
  All-drop P [] ys h = h
  All-drop P (x ∷ xs) ys h = All-drop P xs ys h.1

  pub all_by-All : (t : A → Bool) (xs : List A) → all_by t xs ≡ true → All (λ x. t x ≡ true) xs
  all_by-All t [] h = tt
  all_by-All t (x ∷ xs) h = (ground arith, all_by-All t xs (ground arith))

  pub All-all_by : (t : A → Bool) (xs : List A) → All (λ x. t x ≡ true) xs → all_by t xs ≡ true
  All-all_by t [] h = refl
  All-all_by t (x ∷ xs) h = ground (arith, All-all_by t xs h.1)

  pub drop-append : (xs ys : List A) → drop (length xs) (xs ++ ys) ≡ ys
  drop-append [] ys = refl
  drop-append (x ∷ xs) ys = drop-append xs ys

  pub filter_by-append :
      (t : A → Bool) (xs ys : List A) → filter_by t (xs ++ ys) ≡ filter_by t xs ++ filter_by t ys
  filter_by-append t [] ys = refl
  filter_by-append t (x ∷ xs) ys = ground (arith, filter_by-append t xs ys)

  pub filter_by_none : (t : A → Bool) (xs : List A) → any_by t xs ≡ false → filter_by t xs ≡ []
  filter_by_none t [] h = refl
  filter_by_none t (x ∷ xs) h = ground (arith, filter_by_none t xs)

  -- What is found in a table is found in any extension of it.
  pub find_by-append :
      (t : A → Bool) (xs ys : List A) (a : A)
      → find_by t xs ≡ some a
      → find_by t (xs ++ ys) ≡ some a
  find_by-append t [] ys a h = cc
  find_by-append t (x ∷ xs) ys a h = ground (arith, find_by-append t xs ys a)

  pub find_by-append_new :
      (t : A → Bool) (xs ys : List A) → find_by t xs ≡ none → find_by t (xs ++ ys) ≡ find_by t ys
  find_by-append_new t [] ys h = refl
  find_by-append_new t (x ∷ xs) ys h = ground (arith, find_by-append_new t xs ys)

  pub find_by-map :
      (t : A → Bool) (f : A → A) (xs : List A)
      → ((x : A) → t (f x) ≡ t x)
      → find_by t (map f xs) ≡ map_option f (find_by t xs)
  find_by-map t f [] h = refl
  find_by-map t f (x ∷ xs) h = ground (arith, find_by-map t f xs h, h x)

  -- Some element that passes the test, or none does.
  pub any_by-found {κ} :
      (P : A → Type κ) (t : A → Bool) (xs : List A)
      → All P xs
      → any_by t xs ≡ true
      → (a : A) × P a × (t a ≡ true)
  any_by-found P t [] h e = absurd (ground arith)
  any_by-found P t (x ∷ xs) h e = elim (Bool-cases (t x)) [
    | inl hit ↦ (x, h.0, hit)
    | inr miss ↦ any_by-found P t xs h.1 (ground arith)
  ]
