-- ===== src/Auth/Stays.antt =====
-- auth/tokens/refresh-token.service.ts: `rotate` and `revoke`, of whatever token, keep the row of an
-- exchanged one.
use finstack.Base.{ℕ, ◌≤◌, inl, inr, leb, Bool-cases, Option-cases}
use finstack.Base.Lists.{find_by, is_some}
use finstack.Base.Text.{Text}
use finstack.Base.Result.{Result, ok, err}
use finstack.Base.Action.{after}
use finstack.Auth.Tokens.{
  RefreshToken, Tokens, RotationOutcome, rotated, invalid, reused, revoke_family, has_hash, create,
  rotate_row, rotation_result, rotate, revoke,
}
use finstack.Auth.Spent.{Spent, Spent-append, end_family-Spent, replace_row-Spent}

module _ (hash_token : Text → Text) (ttl_ms : ℕ) (token : Text) (family expires since : ℕ) where
  -- A state in which the row is there, not before it was exchanged.
  pub record Stays (t : Tokens) : Type 0 where
    pub row : Spent hash_token ttl_ms token family expires since t.rows
    pub past : since ≤ t.now

  after_result :
      (r : Result RotationOutcome × Tokens) → Stays r.1 → Stays (after r rotation_result).1
  after_result (ok (rotated q), t) h = h
  after_result (ok invalid, t) h = h
  after_result (ok (reused a b), t) h = h
  after_result (err x, t) h = h

  rotate_row-Stays :
      (current : RefreshToken) (next : Text) (t : Tokens)
      → Stays t
      → Stays (rotate_row hash_token ttl_ms current next t).1
  unfolding rotate_row revoke_family create
  rotate_row-Stays current next t h = elim (Bool-cases (is_some current.revoked_at)) [
    | inl ended ↦ elim (Bool-cases (is_some current.replaced_by_id)) [
      | inl replaced ↦
          rw (ended, replaced)
            (record {
              row =
                  end_family-Spent hash_token ttl_ms token family expires since current.family_id
                    t.now t.rows h.row;
              past = h.past;
            })
      | inr bare ↦ rw (ended, bare) h
    ]
    | inr live ↦ elim (Bool-cases (leb current.expires_at t.now)) [
      | inl over ↦ rw (live, over) h
      | inr valid ↦
          rw (live, valid)
            (record {
              row =
                  replace_row-Spent hash_token ttl_ms token family expires since current.id
                    t.next_id t.now _ h.past
                    (Spent-append hash_token ttl_ms token family expires since t.rows _ h.row);
              past = h.past;
            })
    ]
  ]

  pub rotate-Stays :
      (presented next : Text) (t : Tokens)
      → Stays t
      → Stays (rotate hash_token ttl_ms presented next t).1
  unfolding rotate
  rotate-Stays presented next t h =
      elim (Option-cases (find_by (has_hash hash_token ttl_ms presented) t.rows)) [
        | inl unknown ↦ rw unknown h
        | inr (row, found) ↦
            rw found (
              after_result (rotate_row hash_token ttl_ms row next t)
                (rotate_row-Stays row next t h))
      ]

  pub revoke-Stays :
      (presented : Text) (t : Tokens) → Stays t → Stays (revoke hash_token ttl_ms presented t).1
  unfolding revoke revoke_family
  revoke-Stays presented t h =
      elim (Option-cases (find_by (has_hash hash_token ttl_ms presented) t.rows)) [
        | inl unknown ↦ rw unknown h
        | inr (row, found) ↦ rw found (record {
          row =
              end_family-Spent hash_token ttl_ms token family expires since row.family_id t.now
                t.rows h.row;
          past = h.past;
        })
      ]
