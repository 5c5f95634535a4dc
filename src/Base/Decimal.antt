-- ===== src/Base/Decimal.antt =====
-- The decimal text of a number, `n.toString()` for a bigint and in a template literal.
use finstack.Base.{ℕ, zero, suc, ◌+◌, ◌/◌, ◌%◌, ◌*◌, ◌-◌, [], ◌∷◌, ◌++◌, ltb, if◌then◌else◌}
use finstack.Base.Int.{ℤ, pos, negsuc}
use finstack.Base.Text.{Text}

-- One digit for each unit of fuel; `n` digits are enough for `n`.
unfoldable pub show_digits : ℕ → ℕ → Text
show_digits zero n = []
show_digits (suc fuel) n =
    let more = show_digits fuel (n / 10) ++ (48 + n % 10) ∷ [] in
    if ltb n 10 then (48 + n) ∷ [] else more

unfoldable pub show_ℕ : ℕ → Text
unfolding show_digits
show_ℕ n = show_digits (suc n) n

unfoldable pub show_ℤ : ℤ → Text
unfolding show_ℕ
show_ℤ (pos n) = show_ℕ n
show_ℤ (negsuc n) = b'-' ∷ show_ℕ (suc n)

-- The number that a text of digits writes, on top of `acc`.
unfoldable pub read_digits : ℕ → Text → ℕ
read_digits acc [] = acc
read_digits acc (c ∷ s) = read_digits (acc * 10 + (c - 48)) s
