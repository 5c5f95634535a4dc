-- ===== src/Idempotency/Replay.antt =====
-- idempotency/idempotency.service.ts: a key that was claimed is executed once, and replayed after
-- that.
use finstack.Base.{
  ℕ, zero, suc, ◌≡◌, refl, sym, ◌∙◌, inl, inr, Bool, true, false, ◌&&◌, Option, none, some, List,
  [], ◌∷◌, ◌++◌, map, ltb, leb, ◌==◌, if◌then◌else◌, arith, Bool-cases,
}
use mathlib.Core.Path.{subst}
use finstack.Base.Lists.{find_by, any_by, find_by-append_new, find_by-map}
use finstack.Base.Text.{text_eq_refl}
use finstack.Base.Result.{ok}
use finstack.Owners.{same_owner_refl}
use finstack.Idempotency.Keys.{
  KeyStatus, processing, completed, RequestFingerprint, IdempotencyKey, Keys, execute, has_key,
  key_row, try_insert, is_stale, take_over_stale, delete_rows, same_request, answer, attempts,
}

module _ {A : Type 0} where
  any_by_missing : (t : A → Bool) (xs : List A) → find_by t xs ≡ none → any_by t xs ≡ false
  any_by_missing t [] h = refl
  any_by_missing t (x ∷ xs) h = ground (arith, any_by_missing t xs)

  find_by-none : (t : A → Bool) (xs : List A) → any_by t xs ≡ false → find_by t xs ≡ none
  find_by-none t [] h = refl
  find_by-none t (x ∷ xs) h = ground (arith, find_by-none t xs)

  any_by-of-find_by :
      (t : A → Bool) (xs : List A) (a : A) → find_by t xs ≡ some a → any_by t xs ≡ true
  any_by-of-find_by t [] a h = cc
  any_by-of-find_by t (x ∷ xs) a h = ground (arith, any_by-of-find_by t xs a)

-- The table when the clock shows `now`.
abbrev pub at : ℕ → Keys → Keys
at now t = record t { now = now }

-- The request has claimed the row.
pub record Claimed (request : RequestFingerprint) (id : ℕ) (row : IdempotencyKey) : Type 0 where
  pub same_id : row.id ≡ id
  pub unfinished : row.status ≡ processing
  pub agrees : same_request request row ≡ true

module _ (ttl_ms lock_timeout_ms : ℕ) where
  claimed_by_insert :
      (request : RequestFingerprint) (t : Keys)
      → any_by (has_key request) t.rows ≡ false
      → find_by (has_key request) (t.rows ++ key_row ttl_ms request t ∷ [])
        ≡ some (key_row ttl_ms request t)
  claimed_by_insert request t free =
      find_by-append_new (has_key request) t.rows (key_row ttl_ms request t ∷ [])
        (find_by-none (has_key request) t.rows free)
      ∙ rw (text_eq_refl request.key, same_owner_refl request.owner) refl

  refreshed : ℕ → Keys → IdempotencyKey → IdempotencyKey
  refreshed id t r =
      if is_stale lock_timeout_ms t.now id r then record r { locked_at = t.now } else r

  refreshed-Claimed :
      (request : RequestFingerprint) (row : IdempotencyKey) (t : Keys)
      → row.status ≡ processing
      → same_request request row ≡ true
      → Claimed request row.id (refreshed row.id t row)
  unfolding refreshed
  refreshed-Claimed request row t fresh agrees =
      elim (Bool-cases (is_stale lock_timeout_ms t.now row.id row)) [
        | inl old ↦ rw old (record { same_id = refl; unfinished = fresh; agrees = agrees })
        | inr young ↦ rw young (record { same_id = refl; unfinished = fresh; agrees = agrees })
      ]

  find_by-refreshed :
      (request : RequestFingerprint) (id : ℕ) (t : Keys) (row : IdempotencyKey)
      → find_by (has_key request) t.rows ≡ some row
      → find_by (has_key request) (map (refreshed id t) t.rows) ≡ some (refreshed id t row)
  unfolding refreshed
  find_by-refreshed request id t row found =
      find_by-map (has_key request) (refreshed id t) t.rows (λ r. ground arith) ∙ rw found refl

  -- An answer that executes has taken over the row.
  answer-execute :
      (request : RequestFingerprint) (row : IdempotencyKey) (id : ℕ) (t t' : Keys)
      → find_by (has_key request) t.rows ≡ some row
      → answer ttl_ms lock_timeout_ms request row t ≡ (ok (execute id), t')
      → (r : IdempotencyKey) × (find_by (has_key request) t'.rows ≡ some r) × Claimed request id r
  unfolding answer take_over_stale refreshed
  answer-execute request row id t t' found h = elim (Bool-cases (same_request request row)) [
    | inr differ ↦ absurd (ground arith)
    | inl agree ↦ by_status row.status refl agree
  ]
    where
      by_status :
          (s : KeyStatus)
          → row.status ≡ s
          → same_request request row ≡ true
          → (r : IdempotencyKey) × (find_by (has_key request) t'.rows ≡ some r)
            × Claimed request id r
      by_status completed is agree = absurd (ground arith)
      by_status processing is agree =
          elim (Bool-cases (any_by (is_stale lock_timeout_ms t.now row.id) t.rows)) [
            | inr none_stale ↦ absurd (ground arith)
            | inl taken ↦
                let same : row.id ≡ id = ground arith in
                let left : map (refreshed row.id t) t.rows ≡ t'.rows = ground arith in
                (
                  refreshed row.id t row,
                  subst (λ rows. find_by (has_key request) rows ≡ some (refreshed row.id t row))
                      left (find_by-refreshed request row.id t row found),
                  subst (λ i. Claimed request i (refreshed row.id t row)) same
                      (refreshed-Claimed request row t is agree),
                )
          ]

  attempts_free :
      (n : ℕ) (request : RequestFingerprint) (t : Keys)
      → any_by (has_key request) t.rows ≡ false
      → attempts ttl_ms lock_timeout_ms (suc n) request t ≡ (
        ok (execute t.next_id),
        record t { rows = t.rows ++ key_row ttl_ms request t ∷ []; next_id = suc t.next_id },
      )
  unfolding attempts try_insert
  attempts_free n request t free = rw free refl

  pub attempts_taken :
      (n : ℕ) (request : RequestFingerprint) (t : Keys) (row : IdempotencyKey)
      → find_by (has_key request) t.rows ≡ some row
      → attempts ttl_ms lock_timeout_ms (suc n) request t ≡ (
          if leb row.expires_at t.now
          then attempts ttl_ms lock_timeout_ms n request
              (delete_rows (λ r. r.id == row.id && ltb r.expires_at t.now) t)
          else answer ttl_ms lock_timeout_ms request row t)
  unfolding attempts try_insert
  attempts_taken n request t row found =
      let taken = any_by-of-find_by (has_key request) t.rows row found in
      elim (Bool-cases (leb row.expires_at t.now)) [
        | inl over ↦ rw (taken, found, over) refl
        | inr live ↦ rw (taken, found, live) refl
      ]

  pub attempts-execute :
      (n : ℕ) (request : RequestFingerprint) (id : ℕ) (t t' : Keys)
      → attempts ttl_ms lock_timeout_ms n request t ≡ (ok (execute id), t')
      → (r : IdempotencyKey) × (find_by (has_key request) t'.rows ≡ some r) × Claimed request id r
  unfolding attempts
  attempts-execute zero request id t t' h = absurd cc
  attempts-execute (suc n) request id t t' h =
      by_row (find_by (has_key request) t.rows) refl (attempts-execute n request id)
    where
      by_row :
          (o : Option IdempotencyKey)
          → find_by (has_key request) t.rows ≡ o
          → ((k k' : Keys)
              → attempts ttl_ms lock_timeout_ms n request k ≡ (ok (execute id), k')
              → (r : IdempotencyKey) × (find_by (has_key request) k'.rows ≡ some r)
                × Claimed request id r)
          → (r : IdempotencyKey) × (find_by (has_key request) t'.rows ≡ some r)
            × Claimed request id r
      by_row none missing again =
          let free = any_by_missing (has_key request) t.rows missing in
          let run = sym (attempts_free n request t free) ∙ h in
          let same : t.next_id ≡ id = ground arith in
          let left : t.rows ++ key_row ttl_ms request t ∷ [] ≡ t'.rows = ground arith in
          (
            key_row ttl_ms request t,
            subst (λ rows. find_by (has_key request) rows ≡ some (key_row ttl_ms request t)) left
                (claimed_by_insert request t free),
            record {
              same_id = same;
              unfinished = refl;
              agrees =
                  rw
                    (
                      text_eq_refl request.request_hash,
                      text_eq_refl request.method,
                      text_eq_refl request.path,
                    )
                    refl;
            },
          )
      by_row (some row) found again =
          let step = sym (attempts_taken n request t row found) ∙ h in
          elim (Bool-cases (leb row.expires_at t.now)) [
            | inl over ↦
                again (delete_rows (λ r. r.id == row.id && ltb r.expires_at t.now) t) t'
                  (ground arith)
            | inr live ↦ answer-execute request row id t t' found (ground arith)
          ]
