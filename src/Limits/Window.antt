-- ===== src/Limits/Window.antt =====
-- limits/limits.service.ts: operations that are checked before they are recorded never exceed the
-- caps of a rolling day.
use finstack.Base.{
  ℕ, ◌⊎◌, ◌+◌, ◌-◌, ◌≤◌, ◌≡◌, refl, sym, ◌∙◌, inl, inr, Bool, true, false, some, List, [], ◌∷◌, ltb,
  arith, Bool-cases,
}
use finstack.Base.Result.{Result, ok, err, Error, ◌>>◌, throw_if}
use finstack.Owners.{Owner}
use finstack.Limits.Rules.{
  LimitRule, TransactionRow, day_ms, month_ms, transaction_types, usage_within, exceeds,
  assert_usage, assert_within_rule,
}
use finstack.Limits.Accepted.{
  Operation, operation_row, accepted, accepted_passed, accepted_refused, amount_since, total_since,
  InOrder, last_time, usage-recorded,
}

-- What the rule counts in the day before `now`.
abbrev pub daily_usage : LimitRule → Owner → ℕ → List TransactionRow → ℕ × ℕ
daily_usage rule owner now rows =
    usage_within owner (transaction_types rule.operation) rule.currency (now - day_ms) rows

second_throws :
    (a b c : Bool) (x : Error)
    → b ≡ true
    → (do throw_if a x; throw_if b x; throw_if c x) ≡ ok tt
    → ⊥
second_throws true b c x e h = cc
second_throws false true c x e h = cc
second_throws false false c x e h = cc

assert_usage-over :
    (rule : LimitRule) (owner : Owner) (amount now : ℕ) (rows : List TransactionRow)
    → exceeds ((daily_usage rule owner now rows).0 + amount) rule.max_daily_amount ≡ true
    → assert_usage rule owner amount now rows ≡ ok tt
    → ⊥
unfolding assert_usage
assert_usage-over rule owner amount now rows over h =
    second_throws (exceeds ((daily_usage rule owner now rows).1 + 1) rule.max_daily_count)
      (exceeds ((daily_usage rule owner now rows).0 + amount) rule.max_daily_amount)
      (exceeds
        ((usage_within owner (transaction_types rule.operation) rule.currency (now - month_ms)
            rows).0
          + amount)
        rule.max_monthly_amount)
      Error.limit_exceeded over h

assert_within_rule-usage :
    (rule : LimitRule) (owner : Owner) (amount now cap : ℕ) (rows : List TransactionRow)
    → rule.max_daily_amount ≡ some cap
    → exceeds amount rule.max_per_transaction ≡ false
    → assert_within_rule rule owner amount now rows ≡ assert_usage rule owner amount now rows
unfolding assert_within_rule
assert_within_rule-usage rule owner amount now cap rows capped small = rw (small, capped) refl

assert_within_rule-big :
    (rule : LimitRule) (owner : Owner) (amount now : ℕ) (rows : List TransactionRow)
    → exceeds amount rule.max_per_transaction ≡ true
    → assert_within_rule rule owner amount now rows ≡ err Error.limit_exceeded
unfolding assert_within_rule
assert_within_rule-big rule owner amount now rows big = rw big refl

refused_over :
    (rule : LimitRule) (owner : Owner) (o : Operation) (rows : List TransactionRow) (cap : ℕ)
    → rule.max_daily_amount ≡ some cap
    → ltb cap ((daily_usage rule owner o.time rows).0 + o.amount) ≡ true
    → assert_within_rule rule owner o.amount o.time rows ≡ ok tt
    → ⊥
refused_over rule owner o rows cap capped over h =
    elim (Bool-cases (exceeds o.amount rule.max_per_transaction)) [
      | inl big ↦ ground (arith, assert_within_rule-big rule owner o.amount o.time rows big)
      | inr small ↦
          assert_usage-over rule owner o.amount o.time rows (rw capped over)
            (sym (assert_within_rule-usage rule owner o.amount o.time cap rows capped small) ∙ h)
    ]

-- The checks of a rule that caps the day.
checked :
    (rule : LimitRule) (owner : Owner) (o : Operation) (rows : List TransactionRow) (cap : ℕ)
    → rule.max_daily_amount ≡ some cap
    → assert_within_rule rule owner o.amount o.time rows ≡ ok tt
    → (daily_usage rule owner o.time rows).0 + o.amount ≤ cap
unfolding assert_within_rule assert_usage
checked rule owner o rows cap capped h =
    elim (Bool-cases (ltb cap ((daily_usage rule owner o.time rows).0 + o.amount))) [
      | inr within ↦ ground arith
      | inl over ↦ absurd (refused_over rule owner o rows cap capped over h)
    ]

-- `done` is what earlier operations amount to from a time on: it is counted in `rows`.
module _ (rule : LimitRule) (owner : Owner) (cap : ℕ)
    (capped : rule.max_daily_amount ≡ some cap) where
  abbrev Counted : (ℕ → ℕ) → List TransactionRow → Type 0
  Counted done rows =
      (since : ℕ)
      → done since
        ≤ (usage_within owner (transaction_types rule.operation) rule.currency since rows).0

  abbrev Shrinks : (ℕ → ℕ) → Type 0
  Shrinks done = (a b : ℕ) → a ≤ b → done b ≤ done a

  outcome : (r : Result (Unit {0})) → (r ≡ ok tt) ⊎ ((x : Error) × (r ≡ err x))
  outcome (ok tt) = inl refl
  outcome (err x) = inr (x, refl)

  amount_since-Shrinks : (o : Operation) → Shrinks (λ since. amount_since since o)
  amount_since-Shrinks o a b h = ground arith

  within_cap :
      (os : List Operation) (rows : List TransactionRow) (now : ℕ) (done : ℕ → ℕ)
      → InOrder now os
      → Counted done rows
      → Shrinks done
      → done (now - day_ms) ≤ cap
      → done (last_time now os - day_ms)
          + total_since (last_time now os - day_ms) (accepted rule owner os rows)
        ≤ cap
  unfolding accepted
  within_cap [] rows now done ordered counts shrinks h = omega (arith, h)
  within_cap (o ∷ os) rows now done (first, ordered) counts shrinks h =
      elim (outcome (assert_within_rule rule owner o.amount o.time rows)) [
        | inr (x, refused) ↦
            let fewer = shrinks (now - day_ms) (o.time - day_ms) (omega (arith, first)) in
            rw (accepted_refused rule owner o os rows x refused)
              (within_cap os rows o.time done ordered counts shrinks (omega (arith, fewer, h)))
        | inl passed ↦
            let rest =
              within_cap os (operation_row rule owner o ∷ rows) o.time
                (λ t. done t + amount_since t o) ordered
                (λ since.
                  let before = counts since in
                  rw (usage-recorded rule owner o since rows) (omega (arith, before)))
                (λ a b le.
                  let x = shrinks a b le in
                  let y = amount_since-Shrinks o a b le in omega (arith, x, y))
                (let before = counts (o.time - day_ms) in
                  let within = checked rule owner o rows cap capped passed in
                  let today : amount_since (o.time - day_ms) o ≡ o.amount = ground arith in
                  omega (arith, before, within, today)) in
            rw (accepted_passed rule owner o os rows passed) (omega (arith, rest))
      ]

-- Operations of one owner come in the order of their times, and each is recorded, as pending, exactly
-- if the check of a rule that caps the amount of a day lets it pass. Then those that passed within
-- the last 24 hours before the last of them amount to no more than the cap, whatever transactions
-- the table had before.
pub accepted-within_cap :
    (rule : LimitRule) (owner : Owner) (os : List Operation) (rows : List TransactionRow)
    (now cap : ℕ)
    → rule.max_daily_amount ≡ some cap
    → InOrder now os
    → total_since (last_time now os - day_ms) (accepted rule owner os rows) ≤ cap
accepted-within_cap rule owner os rows now cap capped ordered =
    let total =
      within_cap rule owner cap capped os rows now (λ since. 0) ordered (λ since. omega arith)
        (λ a b h. omega arith) (omega arith) in
    omega (arith, total)
