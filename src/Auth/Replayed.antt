-- ===== src/Auth/Replayed.antt =====
-- auth/tokens/refresh-token.service.ts: a token that comes back long after it was exchanged.
use finstack.Base.{ℕ, ◌+◌, ◌≤◌, ◌≡◌, refl, sym, ap, some, List, [], ◌∷◌, arith}
use mathlib.Core.Path.{subst}
use finstack.Base.Lists.{find_by}
use finstack.Base.Text.{Text}
use finstack.Base.Result.{ok, err, Error}
use finstack.Auth.Tokens.{
  RefreshToken, Tokens, RotatedRefreshToken, revoke_all_for_user, delete_finished, has_hash, create,
  issue, rotate, revoke,
}
use finstack.Auth.Reuse.{FamilyEnded, rotate-rotates, rotate_row-rotates, replaced_row, reuse_ends}
use finstack.Auth.Spent.{
  Spent, IsSpent, IsKept, Spent-append, revoke_all_for_user-Spent, delete_finished-Spent,
}
use finstack.Auth.Stays.{rotate-Stays, revoke-Stays}

-- What the service is asked for: the random token of a call is its argument.
pub data TokenEvent : Type 0 where
  issues : ℕ → Text → TokenEvent
  rotates : Text → Text → TokenEvent
  revokes : Text → TokenEvent
  revokes_all : ℕ → TokenEvent
  cleans : ℕ → TokenEvent

-- Each event comes some time after the one before; no cleanup comes so late that it may delete the row.
abbrev pub Early : ℕ → ℕ → ℕ → TokenEvent → Type 0
Early expires since now (cleans days) = IsKept expires since days now
Early expires since now other = Unit

abbrev pub AllEarly : ℕ → ℕ → ℕ → List (ℕ × TokenEvent) → Type 0
AllEarly expires since now [] = Unit
AllEarly expires since now ((ms, e) ∷ es) =
    Early expires since (now + ms) e × AllEarly expires since (now + ms) es

module _ (hash_token : Text → Text) (ttl_ms : ℕ) where
  unfoldable pub happen : TokenEvent → Tokens → Tokens
  unfolding issue rotate revoke revoke_all_for_user delete_finished
  happen (issues user token) t = (issue hash_token ttl_ms user token t).1
  happen (rotates token next) t = (rotate hash_token ttl_ms token next t).1
  happen (revokes token) t = (revoke hash_token ttl_ms token t).1
  happen (revokes_all user) t = (revoke_all_for_user user t).1
  happen (cleans days) t = (delete_finished days t).1

  -- The clock is set by the times of the events alone.
  unfoldable pub happen_all : ℕ → List (ℕ × TokenEvent) → Tokens → Tokens
  unfolding happen
  happen_all now [] t = record t { now = now }
  happen_all now ((ms, e) ∷ es) t =
      happen_all (now + ms) es (happen e (record t { now = now + ms }))

  module _ (token : Text) (family expires since : ℕ) where
    happen-Spent :
        (e : TokenEvent) (t : Tokens)
        → Early expires since t.now e
        → since ≤ t.now
        → Spent hash_token ttl_ms token family expires since t.rows
        → Spent hash_token ttl_ms token family expires since (happen e t).rows
    unfolding happen issue create
    happen-Spent (issues user fresh) t early past h =
        Spent-append hash_token ttl_ms token family expires since t.rows _ h
    happen-Spent (rotates presented next) t early past h =
        (rotate-Stays hash_token ttl_ms token family expires since presented next t
          (record { row = h; past = past })).row
    happen-Spent (revokes presented) t early past h =
        (revoke-Stays hash_token ttl_ms token family expires since presented t
          (record { row = h; past = past })).row
    happen-Spent (revokes_all user) t early past h =
        revoke_all_for_user-Spent hash_token ttl_ms token family expires since user t h
    happen-Spent (cleans days) t early past h =
        delete_finished-Spent hash_token ttl_ms token family expires since days t early h

    happen_all-Spent :
        (es : List (ℕ × TokenEvent)) (now : ℕ) (t : Tokens)
        → AllEarly expires since now es
        → since ≤ now
        → Spent hash_token ttl_ms token family expires since t.rows
        → Spent hash_token ttl_ms token family expires since (happen_all now es t).rows
    unfolding happen_all
    happen_all-Spent [] now t early past h = h
    happen_all-Spent ((ms, e) ∷ es) now t (first, early) past h =
        let later : Tokens = record t { now = now + ms } in
        happen_all-Spent es (now + ms) (happen e later) early (omega (arith, past))
          (happen-Spent e later first (omega (arith, past)) h)

    presented_again :
        (other : Text) (t : Tokens)
        → Spent hash_token ttl_ms token family expires since t.rows
        → ((rotate hash_token ttl_ms token other t).0 ≡ err Error.invalid_refresh_token)
          × FamilyEnded family (rotate hash_token ttl_ms token other t).1.rows
    presented_again other t (row, found, spent) =
        let both =
          reuse_ends hash_token ttl_ms token other row t spent.revoked spent.replaced found
            spent.is_revoked spent.is_replaced in
        (
          both.0,
          subst (λ f. FamilyEnded f (rotate hash_token ttl_ms token other t).1.rows) spent.of_family
              both.1,
        )

  -- A refresh token was exchanged for a new one. Then come any calls, at any later times: tokens are
  -- issued, rotated and revoked, a user's are revoked, and finished ones are deleted, but no
  -- cleanup more than its days after the exchange or the expiry of the token. When the token is
  -- presented again, it is refused as invalid, and the refusal leaves every token of its family
  -- revoked, the new ones too.
  pub rotate_later :
      (token next other : Text) (t t' : Tokens) (r : RotatedRefreshToken) (row : RefreshToken)
      (es : List (ℕ × TokenEvent))
      → rotate hash_token ttl_ms token next t ≡ (ok r, t')
      → find_by (has_hash hash_token ttl_ms token) t.rows ≡ some row
      → AllEarly row.expires_at t.now t.now es
      → ((rotate hash_token ttl_ms token other (happen_all t.now es t')).0
          ≡ err Error.invalid_refresh_token)
        × FamilyEnded r.family_id
            (rotate hash_token ttl_ms token other (happen_all t.now es t')).1.rows
  rotate_later token next other t t' r row es h known early =
      let (row', found, run) = rotate-rotates hash_token ttl_ms token next t t' r h in
      let same : row' ≡ row = cc in
      let (rows, family) = rotate_row-rotates hash_token ttl_ms row' next t t' r run in
      let replaced : RefreshToken = record row' {
        revoked_at = some t.now;
        replaced_by_id = some t.next_id;
      } in
      let now_found =
        subst (λ rs. find_by (has_hash hash_token ttl_ms token) rs ≡ some replaced) rows
          (replaced_row hash_token ttl_ms token next row' t found) in
      let spent : IsSpent r.family_id row.expires_at t.now replaced = record {
        of_family = sym family;
        expiring = ap (λ x. x.expires_at) same;
        revoked = t.now;
        is_revoked = refl;
        late = omega arith;
        replaced = t.next_id;
        is_replaced = refl;
      } in
      presented_again token r.family_id row.expires_at t.now other (happen_all t.now es t') (
        happen_all-Spent token r.family_id row.expires_at t.now es t.now t' early (omega arith)
          (replaced, now_found, spent))
