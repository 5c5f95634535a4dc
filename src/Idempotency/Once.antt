-- ===== src/Idempotency/Once.antt =====
-- idempotency/idempotency.service.ts: what `begin` answers to a request that is sent again.
use finstack.Base.{
  ℕ, ◌<◌, ◌≡◌, refl, sym, ap, ◌∙◌, inl, inr, Bool, true, false, Option, some, List, [], ◌∷◌, map,
  leb, ==_iff, if◌then◌else◌, arith, Bool-cases,
}
use mathlib.Core.Path.{subst}
use finstack.Base.Lists.{All, find_by, any_by, find_by-map}
use finstack.Base.Text.{Text}
use finstack.Base.Result.{Result, ok, err, Error}
use finstack.Idempotency.Keys.{
  processing, completed, RequestFingerprint, IdempotencyKey, Keys, BeginOutcome, execute, replayed,
  has_key, is_stale, take_over_stale, same_request, answer, begin, completes, complete,
}
use finstack.Idempotency.Replay.{Claimed, at, attempts_taken, attempts-execute}

-- How a request is refused under a key that is claimed.
abbrev pub refusal : IdempotencyKey → RequestFingerprint → Error
refusal row other =
    if same_request other row
    then Error.idempotency_request_in_progress
    else Error.idempotency_key_reused

module _ (ttl_ms lock_timeout_ms : ℕ) where
  -- The row of a claim that was executed.
  claimed :
      (request : RequestFingerprint) (id : ℕ) (t t' : Keys) (row : IdempotencyKey)
      → begin ttl_ms lock_timeout_ms request t ≡ (ok (execute id), t')
      → find_by (has_key request) t'.rows ≡ some row
      → Claimed request id row
  unfolding begin
  claimed request id t t' row h found =
      let (r, found', is) = attempts-execute ttl_ms lock_timeout_ms 2 request id t t' h in
      let same : r ≡ row = cc in subst (Claimed request id) same is

  begin_live :
      (request : RequestFingerprint) (t : Keys) (row : IdempotencyKey)
      → find_by (has_key request) t.rows ≡ some row
      → t.now < row.expires_at
      → begin ttl_ms lock_timeout_ms request t ≡ answer ttl_ms lock_timeout_ms request row t
  unfolding begin
  begin_live request t row found live =
      let later : leb row.expires_at t.now ≡ false = ground arith in
      attempts_taken ttl_ms lock_timeout_ms 1 request t row found ∙ rw later refl

  done_row : ℕ → Option Text → ℕ → IdempotencyKey → IdempotencyKey
  done_row status body now row = record row {
    status = completed;
    response_status = some status;
    response_body = body;
    completed_at = some now;
  }

  find_by-complete :
      (request : RequestFingerprint) (id status : ℕ) (body : Option Text) (t : Keys)
      (row : IdempotencyKey)
      → find_by (has_key request) t.rows ≡ some row
      → Claimed request id row
      → find_by (has_key request) (complete id status body t).1.rows
        ≡ some (done_row status body t.now row)
  unfolding complete done_row
  find_by-complete request id status body t row found c =
      let mine : completes id row ≡ true = rw (c.unfinished, (==_iff row.id id).1 c.same_id) refl in
      find_by-map (has_key request) _ t.rows (λ r. ground arith) ∙ rw (found, mine) refl

  answer-completed :
      (request : RequestFingerprint) (status : ℕ) (body : Option Text) (now : ℕ)
      (row : IdempotencyKey) (t : Keys)
      → same_request request row ≡ true
      → answer ttl_ms lock_timeout_ms request (done_row status body now row) t
        ≡ (ok (replayed status body), t)
  unfolding answer done_row
  answer-completed request status body now row t agrees = rw agrees refl

  -- A request whose key was claimed, and whose execution was completed with a response, is answered
  -- with that response when it is sent again before the key expires, and the table of keys is left
  -- as it is.
  pub begin-complete :
      (request : RequestFingerprint) (id status now later : ℕ) (body : Option Text) (t t' : Keys)
      (row : IdempotencyKey)
      → begin ttl_ms lock_timeout_ms request t ≡ (ok (execute id), t')
      → find_by (has_key request) t'.rows ≡ some row
      → later < row.expires_at
      → begin ttl_ms lock_timeout_ms request (at later (complete id status body (at now t')).1)
        ≡ (ok (replayed status body), at later (complete id status body (at now t')).1)
  unfolding done_row
  begin-complete request id status now later body t t' row h found live =
      let c = claimed request id t t' row h found in
      let after_it = at later (complete id status body (at now t')).1 in
      begin_live request after_it (done_row status body now row)
        (find_by-complete request id status body (at now t') row found c) live
      ∙ answer-completed request status body now row after_it c.agrees

  untouched :
      (test : IdempotencyKey → Bool) (f : IdempotencyKey → IdempotencyKey)
      (rows : List IdempotencyKey)
      → any_by test rows ≡ false
      → map (λ row. if test row then f row else row) rows ≡ rows
  untouched test f [] h = refl
  untouched test f (row ∷ rows) h = elim (Bool-cases (test row)) [
    | inl hit ↦ absurd (ground arith)
    | inr miss ↦ rw miss (ap (λ rs. row ∷ rs) (untouched test f rows (ground arith)))
  ]

  refused :
      (other : RequestFingerprint) (row : IdempotencyKey) (t : Keys)
      → row.status ≡ processing
      → any_by (is_stale lock_timeout_ms t.now row.id) t.rows ≡ false
      → answer ttl_ms lock_timeout_ms other row t ≡ (err (refusal row other), t)
  unfolding answer take_over_stale
  refused other row t unfinished busy = elim (Bool-cases (same_request other row)) [
    | inl agree ↦
        let same =
          untouched (is_stale lock_timeout_ms t.now row.id) (λ r. record r { locked_at = t.now })
            t.rows busy in
        rw (agree, unfinished, busy, same) refl
    | inr differ ↦ rw differ refl
  ]

  -- Requests that are sent one after another, each at its time.
  pub begin_all : List (ℕ × RequestFingerprint) → Keys → List (Result BeginOutcome) × Keys
  begin_all [] t = ([], t)
  begin_all ((now, request) ∷ requests) t =
      let (answer, next) = begin ttl_ms lock_timeout_ms request (at now t) in
      let (answers, end) = begin_all requests next in (answer ∷ answers, end)

  -- Under the owner and the key of the request, before the row expires, while its execution is not
  -- silent for longer than the lock timeout.
  abbrev pub WhileClaimed :
      RequestFingerprint → ℕ → IdempotencyKey → Keys → ℕ × RequestFingerprint → Type 0
  WhileClaimed request id row t (now, other) =
      (other.owner ≡ request.owner)
      × (other.key ≡ request.key)
      × (now < row.expires_at)
      × (any_by (is_stale lock_timeout_ms now id) t.rows ≡ false)

  begin_claimed :
      (request other : RequestFingerprint) (id later : ℕ) (t : Keys) (row : IdempotencyKey)
      → Claimed request id row
      → find_by (has_key request) t.rows ≡ some row
      → WhileClaimed request id row t (later, other)
      → begin ttl_ms lock_timeout_ms other (at later t) ≡ (err (refusal row other), at later t)
  begin_claimed request other id later t row c found (same_owner_as, same_key_as, live, busy) =
      let found' : find_by (has_key other) t.rows ≡ some row =
        rw (same_owner_as, same_key_as) found in
      begin_live other (at later t) row found' live
      ∙ refused other row (at later t) c.unfinished (
          subst (λ i. any_by (is_stale lock_timeout_ms later i) t.rows ≡ false) (sym c.same_id)
            busy)

  begin_refuses :
      (request : RequestFingerprint) (id now : ℕ) (t : Keys) (row : IdempotencyKey)
      (others : List (ℕ × RequestFingerprint))
      → Claimed request id row
      → find_by (has_key request) t.rows ≡ some row
      → All (WhileClaimed request id row t) others
      → ((begin_all others (at now t)).0 ≡ map (λ sent. err (refusal row sent.1)) others)
        × ((begin_all others (at now t)).1.rows ≡ t.rows)
  unfolding begin_all
  begin_refuses request id now t row [] c found h = (refl, refl)
  begin_refuses request id now t row ((later, other) ∷ others) c found (here, rest) =
      let first = begin_claimed request other id later t row c found here in
      let (answers, rows) = begin_refuses request id later t row others c found rest in
      rw first (ap (λ rs. err (refusal row other) ∷ rs) answers, rows)

  -- Once a request has claimed its key, however many requests are sent under that owner and key, the
  -- same one or others, none is executed before the key expires and while the claimed row is not
  -- stale (unfinished for longer than the lock timeout): each is refused, as in progress where it
  -- agrees with the claimed request and as a reuse of the key where it does not, and the rows of the
  -- table are left as they are. No completion or release of the key comes between them.
  pub begin_all-claimed :
      (request : RequestFingerprint) (id : ℕ) (t t' : Keys) (row : IdempotencyKey)
      (others : List (ℕ × RequestFingerprint))
      → begin ttl_ms lock_timeout_ms request t ≡ (ok (execute id), t')
      → find_by (has_key request) t'.rows ≡ some row
      → All (WhileClaimed request id row t') others
      → ((begin_all others t').0 ≡ map (λ sent. err (refusal row sent.1)) others)
        × ((begin_all others t').1.rows ≡ t'.rows)
  begin_all-claimed request id t t' row others h found waiting =
      begin_refuses request id t'.now t' row others (claimed request id t t' row h found) found
        waiting
