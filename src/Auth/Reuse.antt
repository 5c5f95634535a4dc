-- ===== src/Auth/Reuse.antt =====
-- auth/tokens/refresh-token.service.ts: a token that comes back after its rotation.
use finstack.Base.{
  ℕ, ◌≡◌, refl, sym, ap, ◌∙◌, inl, inr, true, ◌||◌, not, Option, none, some, List, [], ◌∷◌, ◌++◌,
  map, leb, ◌==◌, ==_iff, arith, Bool-cases,
}
use mathlib.Core.Option.{map as map_option}
use finstack.Base.Lists.{find_by, find_by-append, find_by-map, All, is_some}
use finstack.Base.Text.{Text}
use finstack.Base.Result.{Result, ok, err, Error}
use finstack.Base.Action.{after}
use finstack.Auth.Tokens.{
  RefreshToken, Tokens, RotatedRefreshToken, RotationOutcome, rotated, invalid, reused, end_family,
  revoke_family, replace_row, token_row, has_hash, create, rotate_row, rotation_result, rotate,
}

-- No token of the family can be used any more.
abbrev pub FamilyEnded : ℕ → List RefreshToken → Type 0
FamilyEnded family = All (λ row. (not (row.family_id == family) || is_some row.revoked_at) ≡ true)

end_family-ends :
    (family now : ℕ) (rows : List RefreshToken)
    → FamilyEnded family (map (end_family family now) rows)
end_family-ends family now [] = tt
end_family-ends family now (row ∷ rows) = (here, end_family-ends family now rows)
  where
    here :
        (not ((end_family family now row).family_id == family)
          || is_some (end_family family now row).revoked_at)
        ≡ true
    here = ground arith

module _ (hash_token : Text → Text) (ttl_ms : ℕ) where
  pub rotate_row-rotates :
      (row : RefreshToken) (next : Text) (t t' : Tokens) (r : RotatedRefreshToken)
      → rotate_row hash_token ttl_ms row next t ≡ (ok (rotated r), t')
      → (map
            (replace_row row.id t.next_id t.now)
            (t.rows ++ token_row hash_token ttl_ms row.user_id row.family_id next t ∷ [])
          ≡ t'.rows)
        × (r.family_id ≡ row.family_id)
  unfolding rotate_row create
  rotate_row-rotates row next t t' r h = elim (Bool-cases (is_some row.revoked_at)) [
    | inl ended ↦ absurd (ground arith)
    | inr live ↦ elim (Bool-cases (leb row.expires_at t.now)) [
      | inl over ↦ absurd (ground arith)
      | inr valid ↦ (ground arith, ground arith)
    ]
  ]

  rotate_unknown :
      (token next : Text) (t : Tokens) (r : RotatedRefreshToken) (t' : Tokens)
      → find_by (has_hash hash_token ttl_ms token) t.rows ≡ none
      → rotate hash_token ttl_ms token next t ≡ (ok r, t')
      → ⊥
  unfolding rotate
  rotate_unknown token next t r t' missing h = ground arith

  rotate_known :
      (token next : Text) (t : Tokens) (row : RefreshToken)
      → find_by (has_hash hash_token ttl_ms token) t.rows ≡ some row
      → rotate hash_token ttl_ms token next t
        ≡ after (rotate_row hash_token ttl_ms row next t) rotation_result
  unfolding rotate
  rotate_known token next t row found = rw found refl

  pub rotate-rotates :
      (token next : Text) (t t' : Tokens) (r : RotatedRefreshToken)
      → rotate hash_token ttl_ms token next t ≡ (ok r, t')
      → (row : RefreshToken) × (find_by (has_hash hash_token ttl_ms token) t.rows ≡ some row)
        × (rotate_row hash_token ttl_ms row next t ≡ (ok (rotated r), t'))
  unfolding rotate
  rotate-rotates token next t t' r h =
      by_row (find_by (has_hash hash_token ttl_ms token) t.rows) refl
    where
      by_outcome :
          (row : RefreshToken) (x : Result RotationOutcome × Tokens)
          → after x rotation_result ≡ (ok r, t')
          → x ≡ (ok (rotated r), t')
      by_outcome row (ok (rotated q), k) e = ground arith
      by_outcome row (ok invalid, k) e = absurd (ground arith)
      by_outcome row (ok (reused u f), k) e = absurd (ground arith)
      by_outcome row (err x, k) e = absurd (ground arith)

      by_row :
          (o : Option RefreshToken)
          → find_by (has_hash hash_token ttl_ms token) t.rows ≡ o
          → (row : RefreshToken) × (find_by (has_hash hash_token ttl_ms token) t.rows ≡ some row)
            × (rotate_row hash_token ttl_ms row next t ≡ (ok (rotated r), t'))
      by_row none e = absurd (rotate_unknown token next t r t' e h)
      by_row (some row) e = (
        row,
        e,
        by_outcome row (rotate_row hash_token ttl_ms row next t)
            (sym (rotate_known token next t row e) ∙ h),
      )

  pub reuse_ends :
      (token next : Text) (row : RefreshToken) (t : Tokens) (a b : ℕ)
      → find_by (has_hash hash_token ttl_ms token) t.rows ≡ some row
      → row.revoked_at ≡ some a
      → row.replaced_by_id ≡ some b
      → ((rotate hash_token ttl_ms token next t).0 ≡ err Error.invalid_refresh_token)
        × FamilyEnded row.family_id (rotate hash_token ttl_ms token next t).1.rows
  unfolding rotate rotate_row revoke_family
  reuse_ends token next row t a b found revoked replaced =
      rw (found, revoked, replaced) (refl, end_family-ends row.family_id t.now t.rows)

  pub replaced_row :
      (token next : Text) (row : RefreshToken) (t : Tokens)
      → find_by (has_hash hash_token ttl_ms token) t.rows ≡ some row
      → find_by (has_hash hash_token ttl_ms token) (
          map
            (replace_row row.id t.next_id t.now)
            (t.rows ++ token_row hash_token ttl_ms row.user_id row.family_id next t ∷ []))
        ≡ some (record row { revoked_at = some t.now; replaced_by_id = some t.next_id })
  replaced_row token next row t found =
      find_by-map (has_hash hash_token ttl_ms token) (replace_row row.id t.next_id t.now)
        (t.rows ++ token_row hash_token ttl_ms row.user_id row.family_id next t ∷ [])
        (λ r. ground arith)
      ∙ ap (map_option (replace_row row.id t.next_id t.now)) (
          find_by-append (has_hash hash_token ttl_ms token) t.rows
            (token_row hash_token ttl_ms row.user_id row.family_id next t ∷ []) row found)
      ∙ rw ((==_iff row.id row.id).1 refl) refl
