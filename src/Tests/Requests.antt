-- ===== src/Tests/Requests.antt =====
-- The theorems of idempotency keys, refresh tokens, transaction statuses and roles on short runs.
use finstack.Base.{◌≡◌, refl, ◌⊎◌, true, none, some, List, [], ◌∷◌, map, ℕ, arith}
use finstack.Base.Lists.{find_by}
use finstack.Base.Text.{Text, codes, text_eq}
use finstack.Base.Result.{ok, err, Error}
use finstack.Idempotency.Keys.{
  RequestFingerprint, IdempotencyKey, Keys, execute, replayed, has_key, key_row, begin, complete,
}
use finstack.Owners.{user}
use finstack.Idempotency.Replay.{at}
use finstack.Idempotency.Once.{begin-complete, begin_all, refusal, begin_all-claimed}
use finstack.Auth.Tokens.{RefreshToken, Tokens, RotatedRefreshToken, has_hash, rotate}
use finstack.Auth.Reuse.{FamilyEnded}
use finstack.Auth.Replayed.{TokenEvent, rotates, cleans, happen_all, rotate_later}
use finstack.Organizations.Permissions.{
  viewer, admin, read_wallets, role_has_permission, role_has_permission_mono,
}
use finstack.Transactions.Status.{
  successful, reversed, cancelled, here, change, assert_transition, is_terminal, successful-Reaches,
  is_over-Reaches, Reaches, changes,
}

abbrev pay : RequestFingerprint
pay = record {
  owner = user 1;
  key = codes "k";
  method = codes "POST";
  path = codes "/payouts";
  request_hash = codes "h";
}

abbrev no_keys : Keys
no_keys = record { rows = []; next_id = 0; now = 10 }

abbrev pay_row : IdempotencyKey
pay_row = key_row 1000 pay no_keys

abbrev pay_claimed : Keys
pay_claimed = record { rows = pay_row ∷ []; next_id = 1; now = 10 }

pay-executes : begin 1000 60 pay no_keys ≡ (ok (execute 0), pay_claimed)
unfolding begin
pay-executes = refl

pay_row-found : find_by (has_key pay) pay_claimed.rows ≡ some pay_row
unfolding text_eq
pay_row-found = refl

begin-complete_example :
    begin 1000 60 pay (at 30 (complete 0 201 (some (codes "done")) (at 20 pay_claimed)).1) ≡ (
      ok (replayed 201 (some (codes "done"))),
      at 30 (complete 0 201 (some (codes "done")) (at 20 pay_claimed)).1,
    )
begin-complete_example =
    begin-complete 1000 60 pay 0 201 20 30 (some (codes "done")) no_keys pay_claimed pay_row
      pay-executes pay_row-found (omega arith)

abbrev refund_request : RequestFingerprint
refund_request = record pay { path = codes "/refunds" }

abbrev resent : List (ℕ × RequestFingerprint)
resent = (30, pay) ∷ (40, refund_request) ∷ (60, pay) ∷ []

begin_all-claimed_example :
    ((begin_all 1000 60 resent pay_claimed).0 ≡ map (λ sent. err (refusal pay_row sent.1)) resent)
    × ((begin_all 1000 60 resent pay_claimed).1.rows ≡ pay_claimed.rows)
begin_all-claimed_example =
    begin_all-claimed 1000 60 pay 0 no_keys pay_claimed pay_row resent pay-executes pay_row-found (
      (refl, refl, omega arith, refl),
      ((refl, refl, omega arith, refl), ((refl, refl, omega arith, refl), tt)),
    )

-- A hash that keeps tokens apart.
abbrev plain_hash : Text → Text
plain_hash token = 35 ∷ token

abbrev first_row : RefreshToken
first_row = record {
  id = 0;
  user_id = 7;
  family_id = 3;
  token_hash = plain_hash (codes "a");
  expires_at = 500;
  revoked_at = none;
  replaced_by_id = none;
}

abbrev one_session : Tokens
one_session = record { rows = first_row ∷ []; reuse_events = []; next_id = 4; now = 100 }

first_row-found : find_by (has_hash plain_hash 500 (codes "a")) one_session.rows ≡ some first_row
unfolding text_eq
first_row-found = refl

abbrev after_rotation : Tokens
after_rotation = record {
  rows =
      record {
        id = 0;
        user_id = 7;
        family_id = 3;
        token_hash = plain_hash (codes "a");
        expires_at = 500;
        revoked_at = some 100;
        replaced_by_id = some 4;
      }
      ∷ record {
        id = 4;
        user_id = 7;
        family_id = 3;
        token_hash = plain_hash (codes "b");
        expires_at = 600;
        revoked_at = none;
        replaced_by_id = none;
      }
      ∷ [];
  reuse_events = [];
  next_id = 5;
  now = 100;
}

abbrev second_token : RotatedRefreshToken
second_token = record { token = codes "b"; expires_at = 600; user_id = 7; family_id = 3 }

first-rotates :
    rotate plain_hash 500 (codes "a") (codes "b") one_session ≡ (ok second_token, after_rotation)
unfolding rotate
first-rotates = refl

-- The new token is exchanged too, and a cleanup of a day runs.
abbrev next_day : List (ℕ × TokenEvent)
next_day = (50, rotates (codes "b") (codes "c")) ∷ (1000, cleans 1) ∷ []

rotate_later_example :
    ((rotate plain_hash 500
        (codes "a")
        (codes "d")
        (happen_all plain_hash 500 100 next_day after_rotation)).0
      ≡ err Error.invalid_refresh_token)
    × FamilyEnded 3
        (rotate plain_hash 500
          (codes "a")
          (codes "d")
          (happen_all plain_hash 500 100 next_day after_rotation)).1.rows
rotate_later_example =
    rotate_later plain_hash 500 (codes "a") (codes "b") (codes "d") one_session after_rotation
      second_token first_row next_day first-rotates first_row-found
      (tt, ((omega arith, omega arith), tt))

reversal-allowed : assert_transition successful reversed ≡ ok tt
unfolding assert_transition
reversal-allowed = refl

successful-Reaches_example : (reversed ≡ successful) ⊎ (reversed ≡ reversed)
successful-Reaches_example = successful-Reaches reversed (change reversed reversal-allowed here)

abbrev cancelled_history : Reaches cancelled cancelled
cancelled_history = here

is_over-Reaches_example :
    (is_terminal cancelled ≡ true) × (cancelled ≡ cancelled) × (changes cancelled_history ≡ 0)
is_over-Reaches_example = is_over-Reaches cancelled cancelled cancelled_history refl

viewer-reads : role_has_permission viewer read_wallets ≡ true
unfolding role_has_permission
viewer-reads = refl

role_has_permission_mono_example : role_has_permission admin read_wallets ≡ true
role_has_permission_mono_example =
    role_has_permission_mono viewer admin read_wallets (omega arith) viewer-reads
