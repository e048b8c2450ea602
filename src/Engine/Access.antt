-- ===== src/Engine/Access.antt =====
-- Users, roles and privileges: `current_user_is_admin`, `user_has_privilege`, `enforce_access` of
-- crates/engine/src/lib.rs.
use potatodb.Prelude.{
  String, str_eq_iff, refl, ◌≡◌, ◌⊎◌, ◌↔◌, inl, inr, Bool, true, false, ◌&&◌, ◌||◌, arith,
}
use potatodb.Prelude.{
  Option, none, some, Option-cases, List, any, str_eq, Bool-cases, if◌then◌else◌,
}
use potatodb.Prelude.Member.{Member, any-Member, any-Member_intro}
use potatodb.Prelude.HashMap.{HashMap, get}
use potatodb.Catalog.Types.{Privilege, RoleDef}

-- What the checks read: the user, and the catalog's `user_roles` and `roles`.
pub record Session : Type 0 where
  pub current_user : String
  pub user_roles : HashMap (List String)
  pub roles : HashMap RoleDef

-- `self.catalog.roles.get(r).is_some_and(|role| role.privileges.iter().any(test))`
abbrev pub role_grants : Session → (Privilege → Bool) → String → Bool
role_grants s test r = elim (get s.roles r) [ none ↦ false | some role ↦ any test role.privileges ]

-- The roles of the current user, if it has an entry, tested one after another.
abbrev pub user_grants : Session → (Privilege → Bool) → Bool
user_grants s test = elim (get s.user_roles s.current_user) [
  | none ↦ false
  | some names ↦ any (role_grants s test) names
]

abbrev pub is_admin_privilege : Privilege → Bool
is_admin_privilege p = str_eq p.kind "ALL" || str_eq p.kind "*"

unfoldable pub current_user_is_admin : Session → Bool
current_user_is_admin s = user_grants s is_admin_privilege

-- `priv_entry.table.as_deref() == table`
abbrev pub same_table : Option String → Option String → Bool
same_table none none = true
same_table (some a) (some b) = str_eq a b
same_table _ _ = false

abbrev pub is_none : Option String → Bool
is_none none = true
is_none (some a) = false

abbrev pub covers : String → Option String → Privilege → Bool
covers action table p =
    (str_eq p.kind "ALL" || str_eq p.kind action) && (is_none p.table || same_table p.table table)

unfoldable pub user_has_privilege : Session → String → Option String → Bool
user_has_privilege s action table = current_user_is_admin s || user_grants s (covers action table)

-- `action` is the statement's first word in upper case.
abbrev pub is_query : String → Bool
is_query a =
    str_eq a "SELECT"
    || (str_eq a "WITH" || (str_eq a "SHOW" || (str_eq a "DESCRIBE" || str_eq a "EXPLAIN")))

-- `true` is `Ok(())`, `false` the `permission denied` error.
unfoldable pub enforce_access : Session → String → Bool
enforce_access s action =
    if current_user_is_admin s
    then true
    else if is_query action
    then user_has_privilege s "SELECT" none
    else user_has_privilege s action none

-- The current user holds a privilege that passes the test, through one of its roles.
abbrev pub Grant : Session → (Privilege → Bool) → Type 0
Grant s test =
    (names : List String) × (r : String) × (role : RoleDef) × (p : Privilege) × (get s.user_roles
        s.current_user
      ≡ some names)
    × Member r names
    × (get s.roles r ≡ some role)
    × Member p role.privileges
    × (test p ≡ true)

role_grants_lem :
    (s : Session) (test : Privilege → Bool) (r : String)
    → role_grants s test r ≡ true
    → (role : RoleDef) × (p : Privilege) × (get s.roles r ≡ some role)
      × Member p role.privileges
      × (test p ≡ true)
role_grants_lem s test r h = elim (Option-cases (get s.roles r)) [
  | inl e ↦ ground (arith, e)
  | inr (role, e) ↦
      let (p, m, t) = any-Member test role.privileges (ground (arith, e)) in (role, p, e, m, t)
]

user_grants-Grant :
    (s : Session) (test : Privilege → Bool) → user_grants s test ≡ true → Grant s test
user_grants-Grant s test h = elim (Option-cases (get s.user_roles s.current_user)) [
  | inl e ↦ ground (arith, e)
  | inr (names, e) ↦
      let (r, mr, t) = any-Member (role_grants s test) names (ground (arith, e)) in
      let (role, p, er, mp, tp) = role_grants_lem s test r t in
      (names, r, role, p, e, mr, er, mp, tp)
]

Grant-user_grants :
    (s : Session) (test : Privilege → Bool) → Grant s test → user_grants s test ≡ true
Grant-user_grants s test (names, r, role, p, e, mr, er, mp, tp) =
    let hit : role_grants s test r ≡ true =
      ground (arith, er, any-Member_intro test p role.privileges mp tp) in
    ground (arith, e, any-Member_intro (role_grants s test) r names mr hit)

-- A user has a privilege on an action and a table exactly if one of its roles holds an administrator
-- privilege, or one for the action (or all actions) on that table (or all tables).
pub user_has_privilege_iff :
    (s : Session) (action : String) (table : Option String)
    → (user_has_privilege s action table ≡ true)
      ↔ (Grant s is_admin_privilege ⊎ Grant s (covers action table))
unfolding user_has_privilege current_user_is_admin
user_has_privilege_iff s action table = (
  λ h. elim (Bool-cases (user_grants s is_admin_privilege)) [
    | inl admin ↦ inl (user_grants-Grant s is_admin_privilege admin)
    | inr plain ↦
        inr (
          user_grants-Grant s (covers action table) (unfold current_user_is_admin in rw plain at h))
  ],
  λ h. elim h [
    | inl g ↦ ground (arith, Grant-user_grants s is_admin_privilege g)
    | inr g ↦ ground (arith, Grant-user_grants s (covers action table) g)
  ],
)

-- The current user holds, through one of its roles, a privilege with a property.
abbrev pub Holds : Session → (Privilege → Type 0) → Type 0
Holds s P =
    (names : List String) × (r : String) × (role : RoleDef) × (p : Privilege) × (get s.user_roles
        s.current_user
      ≡ some names)
    × Member r names
    × (get s.roles r ≡ some role)
    × Member p role.privileges
    × P p

abbrev pub IsAdmin : Privilege → Type 0
IsAdmin p = (p.kind ≡ "ALL") ⊎ (p.kind ≡ "*")

-- A privilege for an action on all tables.
abbrev pub IsGlobal : String → Privilege → Type 0
IsGlobal action p = ((p.kind ≡ "ALL") ⊎ (p.kind ≡ action)) × (p.table ≡ none)

abbrev pub IsQuery : String → Type 0
IsQuery a = (a ≡ "SELECT") ⊎ ((a ≡ "WITH") ⊎ ((a ≡ "SHOW") ⊎ ((a ≡ "DESCRIBE") ⊎ (a ≡ "EXPLAIN"))))

Grant-Holds :
    (s : Session) (test : Privilege → Bool) (P : Privilege → Type 0)
    → ((p : Privilege) → (test p ≡ true) ↔ P p)
    → Grant s test ↔ Holds s P
Grant-Holds s test P same = (
  λ (names, r, role, p, e, mr, er, mp, t). (names, r, role, p, e, mr, er, mp, (same p).0 t),
  λ (names, r, role, p, e, mr, er, mp, t). (names, r, role, p, e, mr, er, mp, (same p).1 t),
)

or_iff : {A B : Type 0} (a b : Bool) → (a ≡ true) ↔ A → (b ≡ true) ↔ B → ((a || b) ≡ true) ↔ (A ⊎ B)
or_iff true b f g = (λ h. inl (f.0 h), λ h. refl)
or_iff false b f g = (λ h. inr (g.0 h), λ h. elim h [ inl x ↦ absurd (cc (f.1 x)) | inr y ↦ g.1 y ])

and_iff :
    {A B : Type 0} (a b : Bool) → (a ≡ true) ↔ A → (b ≡ true) ↔ B → ((a && b) ≡ true) ↔ (A × B)
and_iff true b f g = (λ h. (f.0 refl, g.0 h), λ (x, y). g.1 y)
and_iff false b f g = (λ h. cc, λ (x, y). f.1 x)

is_either : (k a b : String) → ((str_eq k a || str_eq k b) ≡ true) ↔ ((k ≡ a) ⊎ (k ≡ b))
is_either k a b = or_iff (str_eq k a) (str_eq k b) (str_eq_iff k a) (str_eq_iff k b)

is_admin_lem : (p : Privilege) → (is_admin_privilege p ≡ true) ↔ IsAdmin p
is_admin_lem p = is_either p.kind "ALL" "*"

no_table : (t : Option String) → ((is_none t || same_table t none) ≡ true) ↔ (t ≡ none)
no_table none = (λ h. refl, λ h. refl)
no_table (some t) = (λ h. cc, λ h. cc)

covers_lem : (action : String) (p : Privilege) → (covers action none p ≡ true) ↔ IsGlobal action p
covers_lem action p =
    and_iff (str_eq p.kind "ALL" || str_eq p.kind action)
      (is_none p.table || same_table p.table none) (is_either p.kind "ALL" action)
      (no_table p.table)

is_query_lem : (a : String) → (is_query a ≡ true) ↔ IsQuery a
is_query_lem a = or_iff (str_eq a "SELECT") _ (str_eq_iff a "SELECT") (
    or_iff (str_eq a "WITH") _ (str_eq_iff a "WITH")
      (or_iff (str_eq a "SHOW") _ (str_eq_iff a "SHOW") (is_either a "DESCRIBE" "EXPLAIN")))

enforce_access_cases :
    (s : Session) (action : String)
    → (enforce_access s action ≡ true) ↔ (
        Grant s is_admin_privilege
        ⊎ Grant s (covers (if is_query action then "SELECT" else action) none))
enforce_access_cases s action =
    let wanted = if is_query action then "SELECT" else action in
    let step : enforce_access s action ≡ user_has_privilege s wanted none =
      unfold enforce_access user_has_privilege in ground arith in
    rw step (user_has_privilege_iff s wanted none)

-- The check of a statement passes exactly if one of the user's roles holds a privilege of kind ALL
-- or *, whatever its table; or, for SELECT, WITH, SHOW, DESCRIBE and EXPLAIN, one of kind ALL or
-- SELECT without a table; or, for other statements, one of kind ALL or of the kind of its first word
-- without a table.
pub enforce_access_iff :
    (s : Session) (action : String)
    → (enforce_access s action ≡ true) ↔ (
        Holds s IsAdmin
        ⊎ ((IsQuery action × Holds s (IsGlobal "SELECT"))
            ⊎ ((¬ (IsQuery action)) × Holds s (IsGlobal action))))
enforce_access_iff s action = elim (Bool-cases (is_query action)) [
  | inl q ↦
      let query = (is_query_lem action).0 q in
      let (there, back) = rw q at (enforce_access_cases s action) in
      (
        λ h. elim (there h) [
          | inl g ↦ inl ((Grant-Holds s is_admin_privilege IsAdmin is_admin_lem).0 g)
          | inr g ↦ inr (
              inl (
                query,
                (Grant-Holds s (covers "SELECT" none) (IsGlobal "SELECT") (covers_lem "SELECT")).0
                    g,
              ))
        ],
        λ h. elim h [
          | inl g ↦ back (inl ((Grant-Holds s is_admin_privilege IsAdmin is_admin_lem).1 g))
          | inr (inl (m, g)) ↦ back (
              inr (
                (Grant-Holds s (covers "SELECT" none) (IsGlobal "SELECT") (covers_lem "SELECT")).1
                  g))
          | inr (inr (m, g)) ↦ absurd (m query)
        ],
      )
  | inr q ↦
      let (there, back) = rw q at (enforce_access_cases s action) in
      (
        λ h. elim (there h) [
          | inl g ↦ inl ((Grant-Holds s is_admin_privilege IsAdmin is_admin_lem).0 g)
          | inr g ↦ inr (
              inr (
                λ m. cc (q, (is_query_lem action).1 m),
                (Grant-Holds s (covers action none) (IsGlobal action) (covers_lem action)).0 g,
              ))
        ],
        λ h. elim h [
          | inl g ↦ back (inl ((Grant-Holds s is_admin_privilege IsAdmin is_admin_lem).1 g))
          | inr (inl (m, g)) ↦ absurd (cc (q, (is_query_lem action).1 m))
          | inr (inr (m, g)) ↦
              back (
                inr
                  ((Grant-Holds s (covers action none) (IsGlobal action) (covers_lem action)).1 g))
        ],
      )
]
