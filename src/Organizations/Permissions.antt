-- ===== src/Organizations/Permissions.antt =====
-- organizations/organization-permissions.ts: the roles as bundles of permissions.
use finstack.Base.{ℕ, ◌≤◌, ◌≡◌, refl, Bool, true, List, [], ◌∷◌, ◌++◌, ◌==◌, arith}
use finstack.Base.Lists.{any_by}

pub data OrgPermission : Type 0 where
  read_organization manage_organization manage_members read_wallets manage_wallets : OrgPermission
  create_payments read_transactions manage_api_keys read_audit_logs create_payouts : OrgPermission
  manage_payout_destinations manage_webhooks propose_actions decide_proposals : OrgPermission

pub data OrgRole : Type 0 where
  owner admin member viewer : OrgRole

-- The place of a permission among the values of the enum.
abbrev pub permission_index : OrgPermission → ℕ
permission_index read_organization = 0
permission_index manage_organization = 1
permission_index manage_members = 2
permission_index read_wallets = 3
permission_index manage_wallets = 4
permission_index create_payments = 5
permission_index read_transactions = 6
permission_index manage_api_keys = 7
permission_index read_audit_logs = 8
permission_index create_payouts = 9
permission_index manage_payout_destinations = 10
permission_index manage_webhooks = 11
permission_index propose_actions = 12
permission_index decide_proposals = 13

abbrev pub read : List OrgPermission
read = read_organization ∷ read_wallets ∷ read_transactions ∷ []

unfoldable pub role_permissions : OrgRole → List OrgPermission
role_permissions owner =
    read_organization ∷ manage_organization ∷ manage_members ∷ read_wallets ∷ manage_wallets
    ∷ create_payments ∷ read_transactions ∷ manage_api_keys ∷ read_audit_logs ∷ create_payouts
    ∷ manage_payout_destinations ∷ manage_webhooks ∷ propose_actions ∷ decide_proposals ∷ []
role_permissions admin =
    read
    ++ manage_members ∷ manage_wallets ∷ create_payments ∷ manage_api_keys ∷ read_audit_logs
      ∷ create_payouts ∷ manage_payout_destinations ∷ manage_webhooks ∷ propose_actions
      ∷ decide_proposals ∷ []
role_permissions member = read ++ create_payments ∷ propose_actions ∷ []
role_permissions viewer = read

unfoldable pub role_has_permission : OrgRole → OrgPermission → Bool
unfolding role_permissions
role_has_permission role permission =
    any_by (λ p. permission_index p == permission_index permission) (role_permissions role)

-- From the least to the most a role may do.
abbrev pub seniority : OrgRole → ℕ
seniority viewer = 0
seniority member = 1
seniority admin = 2
seniority owner = 3

owner-may : (p : OrgPermission) → role_has_permission owner p ≡ true
unfolding role_has_permission
owner-may read_organization = refl
owner-may manage_organization = refl
owner-may manage_members = refl
owner-may read_wallets = refl
owner-may manage_wallets = refl
owner-may create_payments = refl
owner-may read_transactions = refl
owner-may manage_api_keys = refl
owner-may read_audit_logs = refl
owner-may create_payouts = refl
owner-may manage_payout_destinations = refl
owner-may manage_webhooks = refl
owner-may propose_actions = refl
owner-may decide_proposals = refl

-- A role may do everything that a role below it may do, in the order viewer, member, admin, owner.
pub role_has_permission_mono :
    (r s : OrgRole) (p : OrgPermission)
    → seniority r ≤ seniority s
    → role_has_permission r p ≡ true
    → role_has_permission s p ≡ true
unfolding role_has_permission
role_has_permission_mono r owner p le h = owner-may p
role_has_permission_mono viewer viewer p le h = h
role_has_permission_mono viewer member p le h = ground arith
role_has_permission_mono viewer admin p le h = ground arith
role_has_permission_mono member viewer p le h = absurd (omega arith)
role_has_permission_mono member member p le h = h
role_has_permission_mono member admin p le h = ground arith
role_has_permission_mono admin viewer p le h = absurd (omega arith)
role_has_permission_mono admin member p le h = absurd (omega arith)
role_has_permission_mono admin admin p le h = h
role_has_permission_mono owner viewer p le h = absurd (omega arith)
role_has_permission_mono owner member p le h = absurd (omega arith)
role_has_permission_mono owner admin p le h = absurd (omega arith)
