-- ===== src/Transactions/Status.antt =====
-- transactions/transaction.types.ts: the statuses of a transaction and its allowed changes.
use finstack.Base.{
  ℕ, suc, ◌≡◌, refl, sym, ◌∙◌, ◌⊎◌, inl, inr, Bool, true, false, List, [], ◌∷◌, if◌then◌else◌,
}
use mathlib.Core.Path.{subst}
use finstack.Base.Lists.{any_by, is_empty}
use finstack.Base.Result.{Result, ok, err, Error}

pub data TransactionStatus : Type 0 where
  pending processing successful failed reversed cancelled expired : TransactionStatus

abbrev pub same_status : TransactionStatus → TransactionStatus → Bool
same_status pending pending = true
same_status processing processing = true
same_status successful successful = true
same_status failed failed = true
same_status reversed reversed = true
same_status cancelled cancelled = true
same_status expired expired = true
same_status a b = false

unfoldable pub transaction_transitions : TransactionStatus → List TransactionStatus
transaction_transitions pending = processing ∷ successful ∷ failed ∷ cancelled ∷ expired ∷ []
transaction_transitions processing = successful ∷ failed ∷ []
transaction_transitions successful = reversed ∷ []
transaction_transitions failed = []
transaction_transitions reversed = []
transaction_transitions cancelled = []
transaction_transitions expired = []

unfoldable pub can_transition : TransactionStatus → TransactionStatus → Bool
unfolding transaction_transitions
can_transition from to = any_by (same_status to) (transaction_transitions from)

unfoldable pub is_terminal : TransactionStatus → Bool
unfolding transaction_transitions
is_terminal status = is_empty (transaction_transitions status)

unfoldable pub assert_transition : TransactionStatus → TransactionStatus → Result (Unit {0})
unfolding can_transition
assert_transition from to =
    if can_transition from to then ok tt else err Error.invalid_transaction_state

-- A history of statuses: each was asserted before it was written.
pub data Reaches : TransactionStatus → TransactionStatus → Type 0 where
  here : {a : TransactionStatus} → Reaches a a
  change :
      {a c : TransactionStatus} (b : TransactionStatus)
      → assert_transition a b ≡ ok tt
      → Reaches b c
      → Reaches a c

-- Money has moved for good or not at all.
abbrev pub is_settled : TransactionStatus → Bool
is_settled successful = true
is_settled reversed = true
is_settled other = false

settled_step :
    (a b : TransactionStatus) → assert_transition a b ≡ ok tt → is_settled a ≡ true → b ≡ reversed
unfolding assert_transition can_transition transaction_transitions
settled_step pending b h k = cc
settled_step processing b h k = cc
settled_step failed b h k = cc
settled_step cancelled b h k = cc
settled_step expired b h k = cc
settled_step reversed b h k = absurd cc
settled_step successful reversed h k = refl
settled_step successful pending h k = absurd cc
settled_step successful processing h k = absurd cc
settled_step successful successful h k = absurd cc
settled_step successful failed h k = absurd cc
settled_step successful cancelled h k = absurd cc
settled_step successful expired h k = absurd cc

terminal_step : (a b : TransactionStatus) → assert_transition a b ≡ ok tt → is_terminal a ≡ true → ⊥
unfolding assert_transition can_transition transaction_transitions is_terminal
terminal_step pending b h k = cc
terminal_step processing b h k = cc
terminal_step successful b h k = cc
terminal_step failed b h k = cc
terminal_step reversed b h k = cc
terminal_step cancelled b h k = cc
terminal_step expired b h k = cc

is_terminal-end : (a b : TransactionStatus) → is_terminal a ≡ true → Reaches a b → a ≡ b
is_terminal-end a b h here = refl
is_terminal-end a b h (change c step rest) = absurd (terminal_step a c step h)

-- Nothing happens to the money any more.
abbrev pub is_over : TransactionStatus → Bool
is_over failed = true
is_over reversed = true
is_over cancelled = true
is_over expired = true
is_over other = false

-- The changes of a history.
abbrev pub changes : {a b : TransactionStatus} → Reaches a b → ℕ
changes here = 0
changes (change c step rest) = suc (changes rest)

is_terminal-is_over : (a : TransactionStatus) → is_terminal a ≡ is_over a
unfolding is_terminal transaction_transitions
is_terminal-is_over pending = refl
is_terminal-is_over processing = refl
is_terminal-is_over successful = refl
is_terminal-is_over failed = refl
is_terminal-is_over reversed = refl
is_terminal-is_over cancelled = refl
is_terminal-is_over expired = refl

no_changes : (a b : TransactionStatus) (h : Reaches a b) → is_terminal a ≡ true → changes h ≡ 0
no_changes a b here k = refl
no_changes a b (change c step rest) k = absurd (terminal_step a c step k)

-- A transaction that is failed, reversed, cancelled or expired is so for good: its status is terminal
-- for the code, and any history of allowed changes from it ends where it began and has no changes.
pub is_over-Reaches :
    (a b : TransactionStatus) (h : Reaches a b)
    → is_over a ≡ true
    → (is_terminal a ≡ true) × (b ≡ a) × (changes h ≡ 0)
is_over-Reaches a b h over =
    let terminal : is_terminal a ≡ true = is_terminal-is_over a ∙ over in
    (terminal, sym (is_terminal-end a b terminal h), no_changes a b h terminal)

-- Once a transaction is successful, its status is successful or reversed ever after, so that it never
-- becomes failed, cancelled, expired or open again.
pub successful-Reaches :
    (b : TransactionStatus) → Reaches successful b → (b ≡ successful) ⊎ (b ≡ reversed)
unfolding is_terminal
successful-Reaches b here = inl refl
successful-Reaches b (change c step rest) =
    inr (stays c b (settled_step successful c step refl) rest)
  where
    stays : (c b : TransactionStatus) → c ≡ reversed → Reaches c b → b ≡ reversed
    stays c b e h = sym (is_terminal-end c b (subst (λ x. is_terminal x ≡ true) (sym e) refl) h) ∙ e
