-- ===== src/Base/Action.antt =====
-- The monad of the services: a state is read and written, and a method may throw.
use finstack.Base.{◌≡◌, refl, ◌⊎◌, inl, Bool, true, false, List, [], ◌∷◌}
use finstack.Base.Result.{Result, ok, err, Error}

abbrev pub Action : Type 0 → Type 0 → Type 0
Action S A = S → Result A × S

module _ {S : Type 0} {A : Type 0} where
  abbrev pub pure : A → Action S A
  pure a s = (ok a, s)

  abbrev pub throw : Error → Action S A
  throw e s = (err e, s)

  abbrev pub gets : (S → A) → Action S A
  gets f s = (ok (f s), s)

  abbrev pub lift : Result A → Action S A
  lift r s = (r, s)

abbrev pub modify : {S : Type 0} → (S → S) → Action S (Unit {0})
modify f s = (ok tt, f s)

abbrev pub throw_when : {S : Type 0} → Bool → Error → Action S (Unit {0})
throw_when true e s = (err e, s)
throw_when false e s = (ok tt, s)

abbrev pub after : {S A B : Type 0} → Result A × S → (A → Action S B) → Result B × S
after (ok a, s) f = f a s
after (err e, s) f = (err e, s)

infixl 5 ◌>>=◌ ◌>>◌
abbrev pub ◌>>=◌ : {S A B : Type 0} → Action S A → (A → Action S B) → Action S B
◌>>=◌ m f s = after (m s) f

abbrev pub ◌>>◌ : {S A B : Type 0} → Action S A → Action S B → Action S B
m >> k = m >>= λ _. k

module _ {S A B : Type 0} where
  -- A throw ends the block, with what was written until then.
  pub after-err :
      (r : Result A × S) (f : A → Action S B) {x : Error} → r.0 ≡ err x → (after r f).0 ≡ err x
  after-err (ok a, s) f h = cc
  after-err (err y, s) f h = cc

  pub after-ok :
      (r : Result A × S) (f : A → Action S B) {a : A} {s : S} → r ≡ (ok a, s) → after r f ≡ f a s
  after-ok r f h = rw h refl

  -- A block that ends well: so did its first step.
  pub after-eq-ok :
      (r : Result A × S) (f : A → Action S B) {b : B}
      → (after r f).0 ≡ ok b
      → (a : A) × (r ≡ (ok a, r.1)) × ((f a r.1).0 ≡ ok b)
  after-eq-ok (ok a, s) f h = (a, refl, h)
  after-eq-ok (err x, s) f h = cc

-- A run throws.
abbrev pub Throws : {S A : Type 0} → Result A × S → Type 0
Throws r = (x : Error) × (r.0 ≡ err x)

-- A run throws, or ends as the second one.
abbrev pub Outcome : {S A : Type 0} → Result A × S → Result A × S → Type 0
Outcome r end = Throws r ⊎ (r ≡ end)

module _ {S A B : Type 0} where
  -- The outcome of a block, from that of its rest once the first step has returned.
  pub Outcome-after :
      (r : Result A × S) (f : A → Action S B) {end : Result B × S}
      → ((a : A) (s : S) → r ≡ (ok a, s) → Outcome (f a s) end)
      → Outcome (after r f) end
  Outcome-after (ok a, s) f h = h a s refl
  Outcome-after (err x, s) f h = inl (x, refl)

  -- The same where the first step writes nothing.
  pub Outcome-reads :
      (r : Result A × S) (s : S) (f : A → Action S B) {end : Result B × S}
      → r.1 ≡ s
      → ((a : A) → r.0 ≡ ok a → Outcome (f a s) end)
      → Outcome (after r f) end
  Outcome-reads (ok a, t) s f e h = rw e (h a refl)
  Outcome-reads (err x, t) s f e h = inl (x, refl)

-- `for (const x of xs) await body(x)`
pub for_each : {S A : Type 0} → (A → Action S (Unit {0})) → List A → Action S (Unit {0})
for_each body [] = pure tt
for_each body (x ∷ xs) = body x >> for_each body xs
