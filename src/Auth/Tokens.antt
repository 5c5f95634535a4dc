-- ===== src/Auth/Tokens.antt =====
-- auth/tokens/refresh-token.service.ts: `RefreshTokenService`. The hash of a token is the one of
-- node:crypto, and the random token of a call is an argument of it.
use finstack.Base.{
  ℕ, suc, ◌+◌, ◌-◌, ◌*◌, Bool, false, ◌&&◌, ◌||◌, not, Option, none, some, List, [], ◌∷◌, ◌++◌, map,
  ltb, leb, ◌==◌, if◌then◌else◌,
}
use finstack.Base.Lists.{find_by, filter_by, length, is_some}
use finstack.Base.Text.{Text, text_eq}
use finstack.Base.Result.{ok, Error}
use finstack.Base.Action.{Action, ◌>>=◌, ◌>>◌, pure, throw, gets, modify}

pub record RefreshToken : Type 0 where
  pub id : ℕ
  pub user_id : ℕ
  pub family_id : ℕ
  pub token_hash : Text
  pub expires_at : ℕ
  pub revoked_at : Option ℕ
  pub replaced_by_id : Option ℕ

-- The reuses that the audit log records: the user and the family.
pub record Tokens : Type 0 where
  pub rows : List RefreshToken
  pub reuse_events : List (ℕ × ℕ)
  pub next_id : ℕ
  pub now : ℕ

pub record IssuedRefreshToken : Type 0 where
  pub id : ℕ
  pub token : Text
  pub expires_at : ℕ

pub record RotatedRefreshToken : Type 0 where
  pub token : Text
  pub expires_at : ℕ
  pub user_id : ℕ
  pub family_id : ℕ

pub data RotationOutcome : Type 0 where
  rotated : RotatedRefreshToken → RotationOutcome
  invalid : RotationOutcome
  reused : ℕ → ℕ → RotationOutcome

-- `revokeFamilyWith`, on one row.
abbrev pub end_family : ℕ → ℕ → RefreshToken → RefreshToken
end_family family now row =
    if row.family_id == family && not (is_some row.revoked_at)
    then record row { revoked_at = some now }
    else row

unfoldable pub revoke_family : ℕ → Action Tokens (Unit {0})
revoke_family family t = (ok tt, record t { rows = map (end_family family t.now) t.rows })

unfoldable pub revoke_all_for_user : ℕ → Action Tokens (Unit {0})
revoke_all_for_user user t = (
  ok tt,
  record t {
    rows =
        map
          (λ row.
            if row.user_id == user && not (is_some row.revoked_at)
            then record row { revoked_at = some t.now }
            else row)
          t.rows;
  },
)

abbrev pub replace_row : ℕ → ℕ → ℕ → RefreshToken → RefreshToken
replace_row id next now row =
    if row.id == id then record row { revoked_at = some now; replaced_by_id = some next } else row

-- Expired or revoked more than `days` ago.
abbrev pub is_finished : ℕ → ℕ → RefreshToken → Bool
is_finished days now row =
    ltb (row.expires_at + days * 86400000) now
    || elim row.revoked_at [ none ↦ false | some at ↦ ltb (at + days * 86400000) now ]

unfoldable pub delete_finished : ℕ → Action Tokens ℕ
delete_finished days t =
    let kept = filter_by (λ row. not (is_finished days t.now row)) t.rows in
    (ok (length t.rows - length kept), record t { rows = kept })

-- What is thrown, once the transaction has been committed.
abbrev pub rotation_result : RotationOutcome → Action Tokens RotatedRefreshToken
rotation_result (rotated r) = pure r
rotation_result invalid = throw Error.invalid_refresh_token
rotation_result (reused user family) = throw Error.invalid_refresh_token

module _ (hash_token : Text → Text) (ttl_ms : ℕ) where
  abbrev pub token_row : ℕ → ℕ → Text → Tokens → RefreshToken
  token_row user family token t = record {
    id = t.next_id;
    user_id = user;
    family_id = family;
    token_hash = hash_token token;
    expires_at = t.now + ttl_ms;
    revoked_at = none;
    replaced_by_id = none;
  }

  -- `create`, with the random token.
  unfoldable pub create : ℕ → ℕ → Text → Action Tokens IssuedRefreshToken
  create user family token t = (
    ok (record { id = t.next_id; token = token; expires_at = t.now + ttl_ms }),
    record t { rows = t.rows ++ token_row user family token t ∷ []; next_id = suc t.next_id },
  )

  -- A new family has an id of its own.
  unfoldable pub issue : ℕ → Text → Action Tokens IssuedRefreshToken
  unfolding create
  issue user token t = create user t.next_id token (record t { next_id = suc t.next_id })

  abbrev pub has_hash : Text → RefreshToken → Bool
  has_hash token row = text_eq row.token_hash (hash_token token)

  -- The transaction of `rotate`, on the row that was found.
  unfoldable pub rotate_row : RefreshToken → Text → Action Tokens RotationOutcome
  unfolding create revoke_family
  rotate_row current next_token =
      if is_some current.revoked_at && not (is_some current.replaced_by_id)
      then pure invalid
      else if is_some current.revoked_at
      then (do
        revoke_family current.family_id
        modify (λ t. record t {
          reuse_events = t.reuse_events ++ (current.user_id, current.family_id) ∷ [];
        })
        pure (reused current.user_id current.family_id))
      else do
        now ← gets (λ t. t.now)
        if leb current.expires_at now then pure invalid else (do
          next ← create current.user_id current.family_id next_token
          modify (λ t. record t { rows = map (replace_row current.id next.id now) t.rows })
          pure (
              rotated (record {
                token = next.token;
                expires_at = next.expires_at;
                user_id = current.user_id;
                family_id = current.family_id;
              })))

  unfoldable pub rotate : Text → Text → Action Tokens RotatedRefreshToken
  unfolding text_eq rotate_row
  rotate token next_token = do
    current ← gets (λ t. find_by (has_hash token) t.rows)
    outcome ← elim current [ none ↦ pure invalid | some row ↦ rotate_row row next_token ]
    rotation_result outcome

  unfoldable pub revoke : Text → Action Tokens (Unit {0})
  unfolding text_eq revoke_family
  revoke token = do
    found ← gets (λ t. find_by (has_hash token) t.rows)
    elim found [ none ↦ pure tt | some row ↦ revoke_family row.family_id ]
