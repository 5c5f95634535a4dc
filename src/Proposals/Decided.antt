-- ===== src/Proposals/Decided.antt =====
-- A decision on a proposal is final (proposals.service.ts).
use finstack.Base.{
  ℕ, ◌≡◌, ◌≢◌, refl, sym, ◌∙◌, ap, ◌⊎◌, inl, inr, Bool, true, false, ◌&&◌, Option, some, List, [],
  ◌∷◌, ◌++◌, map, ◌==◌, ◌+◌, if◌then◌else◌, arith, Bool-cases, Option-cases, ==_iff,
}
use mathlib.Core.Path.{subst}
use finstack.Base.Lists.{All, find_by, any_by, find_by-All}
use finstack.Base.Text.{Text}
use finstack.Base.Result.{Result, ok, err, Error}
use finstack.Base.Action.{Action, after}
use finstack.Proposals.Board.{
  ActionProposal, is_pending, Board, RequestOutcome, created, refused, outage, is_proposal, get,
  is_due, expired_row, expire_if_due, lock_pending, save_proposal, request_made, conclude, approve,
  reject,
}

pub data Decision : Type 0 where
  approves : RequestOutcome → ℕ → ℕ → ℕ → Option Text → Decision
  rejects : ℕ → ℕ → ℕ → Option Text → Decision

-- Each at some time after the one before.
unfoldable pub decide : Decision → Board → Board
unfolding approve reject
decide (approves outcome organization_id id user_id remark) b =
    (approve outcome organization_id id user_id remark b).1
decide (rejects organization_id id user_id remark) b =
    (reject organization_id id user_id remark b).1

unfoldable pub decide_all : List (ℕ × Decision) → Board → Board
unfolding decide
decide_all [] b = b
decide_all ((ms, d) ∷ ds) b = decide_all ds (decide d (record b { clock = b.clock + ms }))

-- The proposal is in the table as this row, and no other row has its id.
abbrev pub IsRow : ActionProposal → List ActionProposal → Type 0
IsRow p [] = ⊥
IsRow p (q ∷ qs) = ((q ≡ p) × All (λ r. r.id ≢ p.id) qs) ⊎ ((q.id ≢ p.id) × IsRow p qs)

-- How often the payout of a proposal was requested.
abbrev pub requests : ℕ → List ℕ → ℕ
requests id [] = 0
requests id (i ∷ is) = (if i == id then 1 else 0) + requests id is

-- What a step leaves of a proposal.
pub record Stands (p : ActionProposal) (b c : Board) : Type 0 where
  pub row : IsRow p c.proposals
  pub asked : requests p.id c.requested ≡ requests p.id b.requested

Stands-refl : (p : ActionProposal) (b : Board) → IsRow p b.proposals → Stands p b b
Stands-refl p b h = record { row = h; asked = refl }

-- An update that leaves the row, and gives no other row its id.
module _ (p : ActionProposal) (f : ActionProposal → ActionProposal) (same : f p ≡ p)
    (others : (q : ActionProposal) → q.id ≢ p.id → (f q).id ≢ p.id) where
  All-map_others :
      (qs : List ActionProposal) → All (λ r. r.id ≢ p.id) qs → All (λ r. r.id ≢ p.id) (map f qs)
  All-map_others [] k = tt
  All-map_others (q ∷ qs) (k, ks) = (others q k, All-map_others qs ks)

  IsRow-map : (qs : List ActionProposal) → IsRow p qs → IsRow p (map f qs)
  IsRow-map [] k = k
  IsRow-map (q ∷ qs) (inl (e, k)) = inl (ap f e ∙ same, All-map_others qs k)
  IsRow-map (q ∷ qs) (inr (e, k)) = inr (others q e, IsRow-map qs k)

find_by-IsRow :
    (p : ActionProposal) (t : ActionProposal → Bool) (qs : List ActionProposal) (q : ActionProposal)
    → IsRow p qs
    → find_by t qs ≡ some q
    → (q ≡ p) ⊎ (q.id ≢ p.id)
find_by-IsRow p t [] q k found = absurd k
find_by-IsRow p t (r ∷ rs) q k found = elim (Bool-cases (t r)) [
  | inl hit ↦
      let same : r ≡ q = ground arith in
      elim k [
        | inl (e, _) ↦ inl (sym same ∙ e)
        | inr (e, _) ↦ inr (subst (λ x. x.id ≢ p.id) same e)
      ]
  | inr miss ↦
      let later : find_by t rs ≡ some q = ground arith in
      elim k [
        | inl (_, others) ↦ inr (find_by-All (λ x. x.id ≢ p.id) t rs q others later)
        | inr (_, row) ↦ find_by-IsRow p t rs q row later
      ]
]

-- Once it is decided.
module _ (p : ActionProposal) (is_decided : is_pending p.status ≡ false) where
  expire_if_due-Stands :
      (o i : ℕ) (b : Board) → IsRow p b.proposals → Stands p b (expire_if_due o i b).1
  unfolding expire_if_due
  expire_if_due-Stands o i b h =
      elim (Bool-cases (any_by (λ q. is_proposal o i q && is_due b.clock q) b.proposals)) [
        | inl due ↦
            rw due (record { row = IsRow-map p expire kept others b.proposals h; asked = refl })
        | inr none_due ↦ rw none_due (Stands-refl p b h)
      ]
    where
      expire : ActionProposal → ActionProposal
      expire q = if is_proposal o i q && is_due b.clock q then expired_row b.clock q else q

      kept : expire p ≡ p
      kept = rw is_decided (ground (arith))

      others : (q : ActionProposal) → q.id ≢ p.id → (expire q).id ≢ p.id
      others q k = elim (Bool-cases (is_proposal o i q && is_due b.clock q)) [
        | inl hit ↦ rw hit k
        | inr miss ↦ rw miss k
      ]

  -- Another proposal is written.
  save_proposal-Stands :
      (q : ActionProposal) (b : Board)
      → q.id ≢ p.id
      → IsRow p b.proposals
      → Stands p b (save_proposal q b).1
  save_proposal-Stands q b k h = record {
    row = IsRow-map p save saved others b.proposals h;
    asked = refl;
  }
    where
      save : ActionProposal → ActionProposal
      save r = if r.id == q.id then q else r

      saved : save p ≡ p
      saved = elim (Bool-cases (p.id == q.id)) [
        | inl hit ↦ absurd (k (sym ((==_iff p.id q.id).0 hit)))
        | inr miss ↦ rw miss refl
      ]

      others : (r : ActionProposal) → r.id ≢ p.id → (save r).id ≢ p.id
      others r e = elim (Bool-cases (r.id == q.id)) [ inl hit ↦ rw hit k | inr miss ↦ rw miss e ]

  -- A pending proposal is another one.
  lock_pending-cases :
      (o i : ℕ) (b : Board)
      → IsRow p b.proposals
      → ((x : Error) × (lock_pending o i b ≡ (err x, b)))
        ⊎ ((q : ActionProposal) × (q.id ≢ p.id) × (lock_pending o i b ≡ (ok q, b)))
  unfolding lock_pending get
  lock_pending-cases o i b h = elim (Option-cases (find_by (is_proposal o i) b.proposals)) [
    | inl missing ↦ inl (Error.proposal_not_found, rw (lock_pending, get, missing) refl)
    | inr (q, found) ↦ elim (Bool-cases (is_pending q.status)) [
      | inl waits ↦ inr (q, another q found waits, rw (lock_pending, get, found, waits) refl)
      | inr done ↦ inl (Error.proposal_already_decided, rw (lock_pending, get, found, done) refl)
    ]
  ]
    where
      another :
          (q : ActionProposal)
          → find_by (is_proposal o i) b.proposals ≡ some q
          → is_pending q.status ≡ true
          → q.id ≢ p.id
      another q found waits = elim (find_by-IsRow p (is_proposal o i) b.proposals q h found) [
        | inl same ↦
            let both : is_pending p.status ≡ true =
              subst (λ x. is_pending x.status ≡ true) same waits in
            absurd (cc)
        | inr other ↦ other
      ]

  conclude-Stands :
      (outcome : RequestOutcome) (user_id : ℕ) (remark : Option Text) (q : ActionProposal)
      (b : Board)
      → q.id ≢ p.id
      → IsRow p b.proposals
      → Stands p b (conclude outcome user_id remark q b).1
  conclude-Stands (created payout_id reference) user_id remark q b k h =
      save_proposal-Stands _ b k h
  conclude-Stands (refused detail) user_id remark q b k h = save_proposal-Stands _ b k h
  conclude-Stands (outage e) user_id remark q b k h = Stands-refl p b h

  request_made-Stands :
      (id : ℕ) (b : Board) → id ≢ p.id → IsRow p b.proposals → Stands p b (request_made id b).1
  request_made-Stands id b k h = record { row = h; asked = not_asked b.requested }
    where
      not_asked : (is : List ℕ) → requests p.id (is ++ id ∷ []) ≡ requests p.id is
      not_asked [] = elim (Bool-cases (id == p.id)) [
        | inl hit ↦ absurd (k ((==_iff id p.id).0 hit))
        | inr miss ↦ rw miss refl
      ]
      not_asked (i ∷ is) = ap (λ n. (if i == p.id then 1 else 0) + n) (not_asked is)

  Stands-then : (b c d : Board) → Stands p b c → Stands p c d → Stands p b d
  Stands-then b c d h k = record { row = k.row; asked = k.asked ∙ h.asked }

  Stands-after :
      {A B : Type 0} (b : Board) (r : Result A × Board) (f : A → Action Board B)
      → Stands p b r.1
      → ((a : A) (c : Board) → r ≡ (ok a, c) → Stands p c (f a c).1)
      → Stands p b (after r f).1
  Stands-after b (ok a, c) f h k = Stands-then b c _ h (k a c refl)
  Stands-after b (err x, c) f h k = h

  -- A pending proposal is locked, and what follows writes only that.
  Stands-locked :
      {B : Type 0} (o i : ℕ) (b : Board) (f : ActionProposal → Action Board B)
      → IsRow p b.proposals
      → ((q : ActionProposal) → q.id ≢ p.id → Stands p b (f q b).1)
      → Stands p b (after (lock_pending o i b) f).1
  Stands-locked o i b f h k = elim (lock_pending-cases o i b h) [
    | inl (x, e) ↦ rw e (Stands-refl p b h)
    | inr (q, other, e) ↦ rw e (k q other)
  ]

  decide-Stands : (d : Decision) (b : Board) → IsRow p b.proposals → Stands p b (decide d b)
  unfolding decide approve reject
  decide-Stands (approves outcome o i user_id remark) b h =
      Stands-after b (expire_if_due o i b) _ first (λ u c e.
        Stands-locked o i c _ (rest c e) (λ q other.
          let asked = request_made-Stands q.id c other (rest c e) in
          Stands-then c (request_made q.id c).1 _ asked
            (conclude-Stands outcome user_id remark q (request_made q.id c).1 other asked.row)))
    where
      first : Stands p b (expire_if_due o i b).1
      first = expire_if_due-Stands o i b h

      rest : (c : Board) {u : Unit {0}} → expire_if_due o i b ≡ (ok u, c) → IsRow p c.proposals
      rest c e = subst (λ r. IsRow p r.1.proposals) e first.row
  decide-Stands (rejects o i user_id remark) b h =
      Stands-locked o i b _ h (λ q other. save_proposal-Stands _ b other h)

  -- After any list of approvals and rejections, at any later times, of any proposals and however the
  -- payouts end: a proposal whose status is not pending, and whose id no other row has, is in the
  -- table as it was, and no further payout was requested for it.
  pub decide_all-Stands :
      (ds : List (ℕ × Decision)) (b : Board) → IsRow p b.proposals → Stands p b (decide_all ds b)
  unfolding decide_all
  decide_all-Stands [] b h = Stands-refl p b h
  decide_all-Stands ((ms, d) ∷ ds) b h =
      let later : Board = record b { clock = b.clock + ms } in
      let here = decide-Stands d later h in
      Stands-then b (decide d later) _ (record { row = here.row; asked = here.asked })
        (decide_all-Stands ds (decide d later) here.row)
