-- ===== src/Owners.antt =====
-- common/owner/owner.ts: who money belongs to.
use finstack.Base.{ℕ, ◌≡◌, refl, Bool, true, false, Option, none, some, ◌==◌, ==_iff}

pub data Owner : Type 0 where
  user organization : ℕ → Owner

abbrev pub same_owner : Owner → Owner → Bool
same_owner (user a) (user b) = a == b
same_owner (organization a) (organization b) = a == b
same_owner a b = false

-- `ownerUserId`
abbrev pub owner_user_id : Owner → Option ℕ
owner_user_id (user id) = some id
owner_user_id (organization id) = none

pub same_owner_refl : (o : Owner) → same_owner o o ≡ true
same_owner_refl (user a) = (==_iff a a).1 refl
same_owner_refl (organization a) = (==_iff a a).1 refl
