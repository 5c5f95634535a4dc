-- ===== src/Auth/Spent.antt =====
-- auth/tokens/refresh-token.service.ts: the row of a token that was exchanged, under what the service
-- does afterwards.
use finstack.Base.{
  ℕ, ◌+◌, ◌*◌, ◌≤◌, ◌≡◌, refl, sym, ap, ◌∙◌, inl, inr, Bool, true, false, ◌&&◌, not, some, List, [],
  ◌∷◌, ◌++◌, map, ◌==◌, if◌then◌else◌, arith, Bool-cases,
}
use mathlib.Core.Path.{subst}
use mathlib.Core.Option.{map as map_option}
use finstack.Base.Lists.{find_by, filter_by, find_by-append, find_by-map, is_some}
use finstack.Base.Text.{Text, text_eq}
use finstack.Auth.Tokens.{
  RefreshToken, Tokens, end_family, revoke_all_for_user, replace_row, is_finished, delete_finished,
  has_hash,
}

find_by-filter_by :
    (t keep : RefreshToken → Bool) (rows : List RefreshToken) (row : RefreshToken)
    → find_by t rows ≡ some row
    → keep row ≡ true
    → find_by t (filter_by keep rows) ≡ some row
find_by-filter_by t keep [] row h k = h
find_by-filter_by t keep (r ∷ rows) row h k = elim (Bool-cases (t r)) [
  | inl hit ↦
      let same : r ≡ row = ground arith in
      let kept : keep r ≡ true = subst (λ x. keep x ≡ true) (sym same) k in
      rw (kept, hit) (ap some same)
  | inr miss ↦
      let later = find_by-filter_by t keep rows row (ground arith) k in
      elim (Bool-cases (keep r)) [ inl kept ↦ rw (kept, miss) later | inr gone ↦ rw gone later ]
]

-- Exchanged at `since` or later.
pub record IsSpent (family expires since : ℕ) (row : RefreshToken) : Type 0 where
  pub of_family : row.family_id ≡ family
  pub expiring : row.expires_at ≡ expires
  pub revoked : ℕ
  pub is_revoked : row.revoked_at ≡ some revoked
  pub late : since ≤ revoked
  pub replaced : ℕ
  pub is_replaced : row.replaced_by_id ≡ some replaced

-- A cleanup at `now` leaves the row: neither its expiry nor its exchange is `days` days ago.
abbrev pub IsKept : ℕ → ℕ → ℕ → ℕ → Type 0
IsKept expires since days now = (now ≤ expires + days * 86400000) × (now ≤ since + days * 86400000)

module _ (hash_token : Text → Text) (ttl_ms : ℕ) (token : Text) (family expires since : ℕ) where
  -- The token's row is there, spent.
  abbrev pub Spent : List RefreshToken → Type 0
  Spent rows =
      (row : RefreshToken) × (find_by (has_hash hash_token ttl_ms token) rows ≡ some row)
      × IsSpent family expires since row

  Spent-map :
      (f : RefreshToken → RefreshToken) (rows : List RefreshToken)
      → ((r : RefreshToken) → (f r).token_hash ≡ r.token_hash)
      → ((r : RefreshToken) → IsSpent family expires since r → IsSpent family expires since (f r))
      → Spent rows
      → Spent (map f rows)
  Spent-map f rows same keeps (row, found, spent) = (
    f row,
    find_by-map (has_hash hash_token ttl_ms token) f rows
          (λ r. ap (λ h. text_eq h (hash_token token)) (same r))
        ∙ ap (map_option f) found,
    keeps row spent,
  )

  pub Spent-append : (rows more : List RefreshToken) → Spent rows → Spent (rows ++ more)
  Spent-append rows more (row, found, spent) =
      (row, find_by-append (has_hash hash_token ttl_ms token) rows more row found, spent)

  pub end_family-Spent :
      (f now : ℕ) (rows : List RefreshToken) → Spent rows → Spent (map (end_family f now) rows)
  end_family-Spent f now rows = Spent-map (end_family f now) rows (λ r. ground arith) keeps
    where
      keeps :
          (r : RefreshToken)
          → IsSpent family expires since r
          → IsSpent family expires since (end_family f now r)
      keeps r h =
          let ended : (r.family_id == f && not (is_some r.revoked_at)) ≡ false =
            rw h.is_revoked (ground arith) in
          rw ended h

  pub replace_row-Spent :
      (id next now : ℕ) (rows : List RefreshToken)
      → since ≤ now
      → Spent rows
      → Spent (map (replace_row id next now) rows)
  replace_row-Spent id next now rows le =
      Spent-map (replace_row id next now) rows (λ r. ground arith) (keeps le)
    where
      keeps :
          since ≤ now
          → (r : RefreshToken) → IsSpent family expires since r
          → IsSpent family expires since (replace_row id next now r)
      keeps le r h = elim (Bool-cases (r.id == id)) [
        | inl hit ↦ rw hit (record {
          of_family = h.of_family;
          expiring = h.expiring;
          revoked = now;
          is_revoked = refl;
          late = le;
          replaced = next;
          is_replaced = refl;
        })
        | inr miss ↦ rw miss h
      ]

  pub revoke_all_for_user-Spent :
      (user : ℕ) (t : Tokens) → Spent t.rows → Spent (revoke_all_for_user user t).1.rows
  unfolding revoke_all_for_user
  revoke_all_for_user-Spent user t = Spent-map _ t.rows (λ r. ground arith) keeps
    where
      keeps :
          (r : RefreshToken)
          → IsSpent family expires since r
          → IsSpent family expires since (
              if r.user_id == user && not (is_some r.revoked_at)
              then record r { revoked_at = some t.now }
              else r)
      keeps r h =
          let ended : (r.user_id == user && not (is_some r.revoked_at)) ≡ false =
            rw h.is_revoked (ground arith) in
          rw ended h

  pub delete_finished-Spent :
      (days : ℕ) (t : Tokens)
      → IsKept expires since days t.now
      → Spent t.rows
      → Spent (delete_finished days t).1.rows
  unfolding delete_finished
  delete_finished-Spent days t (early, soon) (row, found, spent) =
      let expiring = spent.expiring in
      let late = spent.late in
      let unfinished : is_finished days t.now row ≡ false =
        rw (spent.is_revoked, expiring) (ground (arith, early, soon, late)) in
      (
        row,
        find_by-filter_by (has_hash hash_token ttl_ms token) (λ r. not (is_finished days t.now r))
            t.rows row found (ap not unfinished),
        spent,
      )
