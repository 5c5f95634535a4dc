-- ===== src/Base/Result.antt =====
-- Errors as values, and actions: methods that read and write a state and may throw. What was
-- written before a throw is still there after it; only a database transaction takes it back.
mod Errors
pub use Errors.{PostingFault, Error}
pub use Errors.{
  bad_reference, unsupported_currency, too_few_entries, non_positive_amount, one_sided, unbalanced,
  no_entries,
}
use finstack.Base.{◌≡◌, refl, Bool, true, false, Option, none, some, arith, if◌then◌else◌}

-- What a call gives back, or the exception it ends with.
pub data Result {ℓ} (A : Type ℓ) : Type ℓ where
  ok : A → Result A
  err : Error → Result A

module _ {ℓ κ} {A : Type ℓ} {B : Type κ} where
  -- The rest of a method, which an exception skips.
  infixl 5 ◌>>=◌
  abbrev pub ◌>>=◌ : Result A → (A → Result B) → Result B
  err x >>= rest = err x
  ok value >>= rest = rest value

  pub >>=-eq-ok :
      (first : Result A) (rest : A → Result B) {end : B}
      → (first >>= rest) ≡ ok end
      → (value : A) × (first ≡ ok value) × (rest value ≡ ok end)
  >>=-eq-ok (err x) rest same = cc
  >>=-eq-ok (ok value) rest same = (value, refl, same)

module _ {ℓ} {A : Type ℓ} where
  abbrev pub is_ok : Result A → Bool
  is_ok (ok a) = true
  is_ok (err e) = false

  abbrev pub or_throw : Option A → Error → Result A
  or_throw none e = err e
  or_throw (some a) e = ok a

  infixl 5 ◌>>◌
  abbrev pub ◌>>◌ : Result (Unit {0}) → Result A → Result A
  check >> rest = check >>= λ done. rest

-- Throws `e` if the test holds.
abbrev pub throw_if : Bool → Error → Result (Unit {0})
throw_if true e = err e
throw_if false e = ok tt
