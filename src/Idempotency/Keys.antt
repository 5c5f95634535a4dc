-- ===== src/Idempotency/Keys.antt =====
-- idempotency/idempotency.service.ts: `IdempotencyService`. The clock stands still during a call;
-- each statement on the table is atomic, and the loop of `begin` is run with its two attempts.
use finstack.Base.{
  ℕ, zero, suc, ◌+◌, ◌-◌, Bool, true, false, ◌&&◌, not, Option, none, some, List, [], ◌∷◌, ◌++◌,
  map, ltb, leb, ◌==◌, if◌then◌else◌,
}
use finstack.Base.Lists.{find_by, any_by, filter_by, length}
use finstack.Base.Text.{Text, text_eq}
use finstack.Base.Result.{ok, Error}
use finstack.Owners.{Owner, same_owner}
use finstack.Base.Action.{Action, ◌>>=◌, ◌>>◌, pure, throw, gets, modify}

pub data KeyStatus : Type 0 where
  processing completed : KeyStatus

abbrev pub is_processing : KeyStatus → Bool
is_processing processing = true
is_processing completed = false

pub record RequestFingerprint : Type 0 where
  pub owner : Owner
  pub key : Text
  pub method : Text
  pub path : Text
  pub request_hash : Text

pub record IdempotencyKey : Type 0 where
  pub id : ℕ
  pub owner : Owner
  pub key : Text
  pub method : Text
  pub path : Text
  pub request_hash : Text
  pub status : KeyStatus
  pub response_status : Option ℕ
  pub response_body : Option Text
  pub locked_at : ℕ
  pub expires_at : ℕ
  pub completed_at : Option ℕ

pub record Keys : Type 0 where
  pub rows : List IdempotencyKey
  pub next_id : ℕ
  pub now : ℕ

pub data BeginOutcome : Type 0 where
  execute : ℕ → BeginOutcome
  replayed : ℕ → Option Text → BeginOutcome

-- The unique index on the owner and the key.
abbrev pub has_key : RequestFingerprint → IdempotencyKey → Bool
has_key request row = same_owner row.owner request.owner && text_eq row.key request.key

abbrev pub key_row : ℕ → RequestFingerprint → Keys → IdempotencyKey
key_row ttl_ms request t = record {
  id = t.next_id;
  owner = request.owner;
  key = request.key;
  method = request.method;
  path = request.path;
  request_hash = request.request_hash;
  status = processing;
  response_status = none;
  response_body = none;
  locked_at = t.now;
  expires_at = t.now + ttl_ms;
  completed_at = none;
}

-- INSERT … ON CONFLICT DO NOTHING RETURNING id
unfoldable pub try_insert : ℕ → RequestFingerprint → Action Keys (Option ℕ)
unfolding text_eq
try_insert ttl_ms request t = if any_by (has_key request) t.rows then (ok none, t) else (
  ok (some t.next_id),
  record t { rows = t.rows ++ key_row ttl_ms request t ∷ []; next_id = suc t.next_id },
)

abbrev pub is_stale : ℕ → ℕ → ℕ → IdempotencyKey → Bool
is_stale lock_timeout_ms now id row =
    row.id == id && is_processing row.status && ltb (row.locked_at + lock_timeout_ms) now

unfoldable pub take_over_stale : ℕ → ℕ → Action Keys Bool
take_over_stale lock_timeout_ms id t =
    let stale = is_stale lock_timeout_ms t.now id in
    (
      ok (any_by stale t.rows),
      record t {
        rows = map (λ row. if stale row then record row { locked_at = t.now } else row) t.rows;
      },
    )

abbrev pub delete_rows : (IdempotencyKey → Bool) → Keys → Keys
delete_rows test t = record t { rows = filter_by (λ row. not (test row)) t.rows }

abbrev pub same_request : RequestFingerprint → IdempotencyKey → Bool
same_request request row =
    text_eq row.request_hash request.request_hash
    && text_eq row.method request.method
    && text_eq row.path request.path

abbrev pub response_code : Option ℕ → ℕ
response_code none = 200
response_code (some code) = code

module _ (ttl_ms lock_timeout_ms : ℕ) where
  -- The rest of an attempt, on the row that has the key and has not expired.
  unfoldable pub answer : RequestFingerprint → IdempotencyKey → Action Keys BeginOutcome
  unfolding text_eq take_over_stale
  answer request row =
      if not (same_request request row)
      then throw Error.idempotency_key_reused
      else elim row.status [
        | completed ↦ pure (replayed (response_code row.response_status) row.response_body)
        | processing ↦ do
          taken ← take_over_stale lock_timeout_ms row.id
          if taken then pure (execute row.id) else throw Error.idempotency_request_in_progress
      ]

  -- The loop of `begin`, with the attempts that are left.
  unfoldable pub attempts : ℕ → RequestFingerprint → Action Keys BeginOutcome
  unfolding text_eq try_insert answer
  attempts zero request = throw Error.idempotency_request_in_progress
  attempts (suc n) request =
      let again = attempts n request in
      do
        record_id ← try_insert ttl_ms request
        elim record_id [
          | some id ↦ pure (execute id)
          | none ↦ do
            existing ← gets (λ t. find_by (has_key request) t.rows)
            now ← gets (λ t. t.now)
            elim existing [
              | none ↦ again
              | some row ↦
                  if leb row.expires_at now
                  then modify (delete_rows (λ r. r.id == row.id && ltb r.expires_at now)) >> again
                  else answer request row
            ]
        ]

  unfoldable pub begin : RequestFingerprint → Action Keys BeginOutcome
  unfolding attempts
  begin request = attempts 2 request

abbrev pub completes : ℕ → IdempotencyKey → Bool
completes id row = row.id == id && is_processing row.status

unfoldable pub complete : ℕ → ℕ → Option Text → Action Keys (Unit {0})
complete id status body t = (
  ok tt,
  record t {
    rows =
        map
          (λ row.
            if completes id row
            then record row {
              status = completed;
              response_status = some status;
              response_body = body;
              completed_at = some t.now;
            }
            else row)
          t.rows;
  },
)

unfoldable pub release : ℕ → Action Keys (Unit {0})
release id = modify (delete_rows (completes id))

unfoldable pub delete_expired : Action Keys ℕ
delete_expired t =
    let kept = filter_by (λ row. not (ltb row.expires_at t.now)) t.rows in
    (ok (length t.rows - length kept), record t { rows = kept })
