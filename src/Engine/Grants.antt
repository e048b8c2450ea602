-- ===== src/Engine/Grants.antt =====
-- `handle_grant` and `handle_revoke` of crates/engine/src/lib.rs, on the words that they take out of
-- the statement: the privilege in upper case, the table and the target.
use potatodb.Prelude.{subst, String, ◌≡◌, ◌≢◌, refl, inl, inr, Bool, true, not, ◌&&◌, arith}
use potatodb.Prelude.{
  none, some, Option-cases, List, [], ◌∷◌, ◌++◌, any, filter, str_eq, str_eq_iff, Bool-cases,
  if◌then◌else◌,
}
use potatodb.Prelude.Member.{Member, Member-append_right, any-Member}
use potatodb.Prelude.HashMap.{HashMap, get, insert, get-insert}
use potatodb.Catalog.Types.{Privilege, RoleDef}
use potatodb.Catalog.State.{Catalog, save}
use potatodb.Engine.Access.{Session, same_table, covers, user_has_privilege, user_has_privilege_iff}
use Prim.Native.String.{◌++◌ as append}

-- `#[derive(PartialEq)]` of `Privilege`
abbrev pub privilege_eq : Privilege → Privilege → Bool
privilege_eq a b = str_eq a.kind b.kind && same_table a.table b.table

-- `if !role_def.privileges.contains(&priv_entry) { push }`
unfoldable pub add_privilege : Privilege → RoleDef → RoleDef
add_privilege p role =
    if any (λ q. privilege_eq q p) role.privileges
    then role
    else record role { privileges = role.privileges ++ p ∷ [] }

-- `entry(name).or_insert_with(..)`, then the privilege is added to the role.
unfoldable pub grant_role : String → Privilege → HashMap RoleDef → HashMap RoleDef
unfolding add_privilege
grant_role name p roles =
    let role : RoleDef = elim (get roles name) [
      | none ↦ record { name = name; privileges = [] }
      | some role ↦ role
    ] in
    insert roles name (add_privilege p role)

-- `entry(target).or_default()`, and the role is added to the user's list if it is not there.
unfoldable pub assign_role : String → String → HashMap (List String) → HashMap (List String)
assign_role user role user_roles =
    let names : List String = elim (get user_roles user) [ none ↦ [] | some names ↦ names ] in
    insert user_roles user (if any (λ n. str_eq n role) names then names else names ++ role ∷ [])

-- `format!("__user_{target}")`
abbrev pub user_role_name : String → String
user_role_name target = append "__user_" target

unfoldable pub handle_grant : (privilege table_name target : String) → Catalog → Catalog
unfolding grant_role assign_role
handle_grant privilege table_name target c =
    let p : Privilege = record { kind = privilege; table = some table_name } in
    elim (get c.users target) [
      | some user ↦ save (record c {
        roles = grant_role (user_role_name target) p c.roles;
        user_roles = assign_role target (user_role_name target) c.user_roles;
      })
      | none ↦ save (record c { roles = grant_role target p c.roles })
    ]

unfoldable pub revoke_role : String → Privilege → HashMap RoleDef → HashMap RoleDef
revoke_role name p roles = elim (get roles name) [
  | none ↦ roles
  | some role ↦
      insert roles name
        (record role { privileges = filter (λ q. not (privilege_eq q p)) role.privileges })
]

unfoldable pub handle_revoke : (privilege table_name target : String) → Catalog → Catalog
unfolding revoke_role
handle_revoke privilege table_name target c =
    let p : Privilege = record { kind = privilege; table = some table_name } in
    let name : String = elim (get c.users target) [
      | some user ↦ user_role_name target
      | none ↦ target
    ] in
    save (record c { roles = revoke_role name p c.roles })

-- The checks as the user `user` meets them.
abbrev pub session_of : String → Catalog → Session
session_of user c = record { current_user = user; user_roles = c.user_roles; roles = c.roles }

-- A role that holds a privilege equal to `p`.
abbrev Holding : Privilege → RoleDef → Type 0
Holding p role = (q : Privilege) × Member q role.privileges × (privilege_eq q p ≡ true)

privilege_eq_refl :
    (kind table : String)
    → privilege_eq
        (record { kind = kind; table = some table })
        (record { kind = kind; table = some table })
      ≡ true
privilege_eq_refl kind table = ground (arith, str_eq_iff kind kind, str_eq_iff table table)

add_privilege_lem :
    (p : Privilege) (role : RoleDef) → privilege_eq p p ≡ true → Holding p (add_privilege p role)
unfolding add_privilege
add_privilege_lem p role same = elim (Bool-cases (any (λ q. privilege_eq q p) role.privileges)) [
  | inl there ↦
      let (q, m, e) = any-Member (λ q. privilege_eq q p) role.privileges there in rw there (q, m, e)
  | inr new ↦ rw new (p, Member-append_right p role.privileges (p ∷ []) (inl refl), same)
]

grant_role_lem :
    (name : String) (p : Privilege) (roles : HashMap RoleDef)
    → privilege_eq p p ≡ true
    → (role : RoleDef) × (get (grant_role name p roles) name ≡ some role) × Holding p role
unfolding grant_role
grant_role_lem name p roles same =
    let role : RoleDef = elim (get roles name) [
      | none ↦ record { name = name; privileges = [] }
      | some role ↦ role
    ] in
    (
      add_privilege p role,
      ground (arith, get-insert roles name name (add_privilege p role), str_eq_iff name name),
      add_privilege_lem p role same,
    )

listed :
    (role : String) (names : List String)
    → Member role (if any (λ n. str_eq n role) names then names else names ++ role ∷ [])
listed role names = elim (Bool-cases (any (λ n. str_eq n role) names)) [
  | inl there ↦
      let (n, m, e) = any-Member (λ n. str_eq n role) names there in
      rw there (subst (λ x. Member x names) ((str_eq_iff n role).0 e) m)
  | inr new ↦ rw new (Member-append_right role names (role ∷ []) (inl refl))
]

assign_role_lem :
    (user role : String) (m : HashMap (List String))
    → (names : List String) × (get (assign_role user role m) user ≡ some names) × Member role names
unfolding assign_role
assign_role_lem user role m =
    let names : List String = elim (get m user) [ none ↦ [] | some names ↦ names ] in
    let all : List String = if any (λ n. str_eq n role) names then names else names ++ role ∷ [] in
    (all, ground (arith, get-insert m user user all, str_eq_iff user user), listed role names)

covers_equal :
    (kind table : String) (q : Privilege)
    → privilege_eq q (record { kind = kind; table = some table }) ≡ true
    → covers kind (some table) q ≡ true
covers_equal kind table q h = ground (arith, h)

save_access : (user : String) (c : Catalog) → session_of user (save c) ≡ session_of user c
unfolding save
save_access user c = ground arith

-- After GRANT privilege ON table TO user, for a user that exists, the user has the privilege on the
-- table.
pub handle_grant_allows :
    (privilege table target : String) (c : Catalog)
    → get c.users target ≢ none
    → user_has_privilege
        (session_of target (handle_grant privilege table target c))
        privilege
        (some table)
      ≡ true
handle_grant_allows privilege table target c known = elim (Option-cases (get c.users target)) [
  | inl missing ↦ absurd (known missing)
  | inr (user, found) ↦
      let p : Privilege = record { kind = privilege; table = some table } in
      let r = user_role_name target in
      let (names, at, mr) = assign_role_lem target r c.user_roles in
      let (role, er, held) = grant_role_lem r p c.roles (privilege_eq_refl privilege table) in
      let (q, mq, eq) = held in
      let after : Session = record {
        current_user = target;
        user_roles = assign_role target r c.user_roles;
        roles = grant_role r p c.roles;
      } in
      let step : session_of target (handle_grant privilege table target c) ≡ after =
        unfold handle_grant in rw (found, handle_grant) (save_access target _) in
      rw step (
        (user_has_privilege_iff after privilege (some table)).1
          (inr (names, r, role, q, at, mr, er, mq, covers_equal privilege table q eq)))
]
