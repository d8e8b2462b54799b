-- ===== src/Auth/Identities/Owners.antt =====
-- A workspace that has an owner keeps one, whatever is asked of its membership rows.
use claude_at_work_project.Prelude.{
  ◌≤◌, ◌<◌, ◌≡◌, refl, inl, inr, Bool, true, false, not, ◌&&◌, some, List, [], ◌∷◌, arith, ◌==◌,
  is_some, find, find-holds, select, count, count-find, count-without, update_where, Unique,
  Unique-select, Unique-update_where, Apart-any, Option-cases, Bool-cases,
}
use claude_at_work_project.Auth.Rows.{
  Uuid, Time, Role, is_owner_role, WorkspaceMember, Db, is_member_row, same_member,
}
use claude_at_work_project.Auth.Identities.{
  Membership, membership, is_owner_of, count_owners, is_last_owner, with_role, add_member, set_role,
  remove_member, is_insertable,
}

-- The membership rows have their primary key, and the workspace has an owner.
pub record IsOwned (workspace : Uuid) (db : Db) : Type 0 where
  pub one_role : Unique same_member db.members
  pub owned : 1 ≤ count (is_owner_of workspace) db.members

member_key :
    (user workspace : Uuid) (x y : WorkspaceMember)
    → is_member_row user workspace x ≡ true
    → is_member_row user workspace y ≡ true
    → same_member x y ≡ true
member_key user workspace x y h k = ground arith

-- A membership is read off its row.
membership-row :
    (db : Db) (user workspace : Uuid) (m : Membership)
    → membership db user workspace ≡ some m
    → (row : WorkspaceMember) × (find (is_member_row user workspace) db.members ≡ some row)
      × (m.role ≡ row.role)
unfolding membership
membership-row db user workspace m e =
    elim (Option-cases (find (is_member_row user workspace) db.members)) [
      | inl no_row ↦ absurd (cc (rw (no_row, membership) at e))
      | inr (row, found) ↦
          elim (Option-cases (find (λ w. w.id == row.workspace_id) db.workspaces)) [
            | inl no_workspace ↦ absurd (cc (rw (found, membership, no_workspace) at e))
            | inr (w, there) ↦ (row, found, cc (rw (found, membership, there) at e))
          ]
    ]

-- The rows of the others, when the row is not that of the last owner, have an owner.
count-others :
    (db : Db) (user workspace id : Uuid) (m : Membership)
    → IsOwned id db
    → membership db user workspace ≡ some m
    → is_last_owner db workspace user ≡ false
    → 1 ≤ count (is_owner_of id) (select (λ x. not (is_member_row user workspace x)) db.members)
unfolding is_last_owner count_owners
count-others db user workspace id m g here many =
    let (row, found, role) = membership-row db user workspace m here in
    let held = find-holds (is_member_row user workspace) db.members found in
    let gone =
      count-find same_member (is_owner_of id) (is_member_row user workspace) db.members row
        (member_key user workspace) g.one_role found in
    let total = count-without (is_owner_of id) (is_member_row user workspace) db.members in
    let owned = g.owned in
    elim (Bool-cases (is_owner_of id row)) [
      | inr other ↦ omega (arith, (rw other at gone), total)
      | inl owner_row ↦
          let same : id ≡ workspace = ground arith in
          let owns : is_owner_role m.role ≡ true = rw role (ground arith) in
          let several : 1 < count (is_owner_of id) db.members =
            rw same (ground (arith, rw (here, is_last_owner, owns) at many)) in
          omega (arith, (rw owner_row at gone), total)
    ]

-- A write to the rows of one member leaves the rows of the others.
count-update_where :
    (p q : WorkspaceMember → Bool) (f : WorkspaceMember → WorkspaceMember)
    (ms : List WorkspaceMember)
    → count p (select (λ x. not (q x)) ms) ≤ count p (update_where q f ms)
count-update_where p q f [] = omega arith
count-update_where p q f (m ∷ ms) = ground (arith, count-update_where p q f ms)

-- Making owners takes no owner away.
count-promoted :
    (id : Uuid) (q : WorkspaceMember → Bool) (role : Role) (ms : List WorkspaceMember)
    → is_owner_role role ≡ true
    → count (is_owner_of id) ms ≤ count (is_owner_of id) (update_where q (with_role role) ms)
count-promoted id q role [] owns = omega arith
count-promoted id q role (m ∷ ms) owns = ground (arith, count-promoted id q role ms owns)

module _ (id : Uuid) where
  add_member-IsOwned :
      (workspace user : Uuid) (role : Role) (now : Time) (db : Db)
      → IsOwned id db
      → IsOwned id (add_member workspace user role now db).1
  unfolding add_member
  add_member-IsOwned workspace user role now db g =
      let row : WorkspaceMember = record {
        workspace_id = workspace;
        user_id = user;
        role = role;
        joined_at = now;
      } in
      let db' = record db { members = row ∷ db.members } in
      elim (Bool-cases (is_some (membership db user workspace))) [
        | inl member ↦ rw (member, add_member) g
        | inr new ↦ elim (Bool-cases (is_insertable db row)) [
          | inr clash ↦ rw (new, clash, add_member) g
          | inl free ↦
              let owned = g.owned in
              let g' : IsOwned id db' = record {
                one_role = (Apart-any same_member row db.members (ground arith), g.one_role);
                owned = ground arith;
              } in
              elim (Option-cases (membership db' user workspace)) [
                | inl gone ↦ rw (new, free, gone, add_member) g'
                | inr (m, here) ↦ rw (new, free, here, add_member) g'
              ]
        ]
      ]

  set_role_owned :
      (workspace user : Uuid) (role : Role) (db : Db) (m : Membership)
      → IsOwned id db
      → membership db user workspace ≡ some m
      → not (is_owner_role role) && is_last_owner db workspace user ≡ false
      → 1
        ≤ count
            (is_owner_of id)
            (update_where (is_member_row user workspace) (with_role role) db.members)
  set_role_owned workspace user role db m g here allowed =
      let key = is_member_row user workspace in
      let owned = g.owned in
      elim (Bool-cases (is_owner_role role)) [
        | inl owns ↦ omega (arith, count-promoted id key role db.members owns)
        | inr other ↦ omega (
          arith,
          count-others db user workspace id m g here (ground arith),
          count-update_where (is_owner_of id) key (with_role role) db.members,
        )
      ]

  set_role-IsOwned :
      (workspace user : Uuid) (role : Role) (db : Db)
      → IsOwned id db
      → IsOwned id (set_role workspace user role db).1
  unfolding set_role
  set_role-IsOwned workspace user role db g =
      let key = is_member_row user workspace in
      let one =
        Unique-update_where same_member key (with_role role) db.members (λ x y. refl) (λ x y. refl)
          g.one_role in
      elim (Option-cases (membership db user workspace)) [
        | inl none_there ↦ rw (none_there, set_role) g
        | inr (m, here) ↦
            elim (Bool-cases (not (is_owner_role role) && is_last_owner db workspace user)) [
              | inl refused ↦ rw (here, refused, set_role) g
              | inr allowed ↦
                  rw (here, allowed, set_role)
                    (record {
                      one_role = one;
                      owned = set_role_owned workspace user role db m g here allowed;
                    })
            ]
      ]

  remove_member-IsOwned :
      (workspace user : Uuid) (db : Db)
      → IsOwned id db
      → IsOwned id (remove_member workspace user db).1
  unfolding remove_member
  remove_member-IsOwned workspace user db g = elim (Option-cases (membership db user workspace)) [
    | inl none_there ↦ rw (none_there, remove_member) g
    | inr (m, here) ↦ elim (Bool-cases (is_last_owner db workspace user)) [
      | inl refused ↦ rw (here, refused, remove_member) g
      | inr allowed ↦
          rw (here, allowed, remove_member)
            (record {
              one_role =
                  Unique-select same_member (λ x. not (is_member_row user workspace x)) db.members
                    g.one_role;
              owned = count-others db user workspace id m g here allowed;
            })
    ]
  ]

-- The requests that change the members of workspaces; those of sign-in aside, which make a new
-- workspace.
pub data Step (db : Db) : Db → Type 0 where
  adds :
      (workspace user : Uuid) (role : Role) (now : Time)
      → Step db (add_member workspace user role now db).1
  sets : (workspace user : Uuid) (role : Role) → Step db (set_role workspace user role db).1
  removes : (workspace user : Uuid) → Step db (remove_member workspace user db).1

pub data Run (s : Db) : Db → Type 0 where
  here : Run s s
  next : {t u : Db} → Run s t → Step t u → Run s u

Step-IsOwned : (id : Uuid) {s t : Db} → Step s t → IsOwned id s → IsOwned id t
Step-IsOwned id {s} (adds workspace user role now) g =
    add_member-IsOwned id workspace user role now s g
Step-IsOwned id {s} (sets workspace user role) g = set_role-IsOwned id workspace user role s g
Step-IsOwned id {s} (removes workspace user) g = remove_member-IsOwned id workspace user s g

-- A workspace that has an owner, among rows with their primary key, has an owner after any run of
-- adding members, setting their roles and removing them, for whatever workspaces, one request at a
-- time.
pub Run-IsOwned : (id : Uuid) (s t : Db) → Run s t → IsOwned id s → IsOwned id t
Run-IsOwned id s t here g = g
Run-IsOwned id s t (next {t = m} before step) g = Step-IsOwned id step (Run-IsOwned id s m before g)
