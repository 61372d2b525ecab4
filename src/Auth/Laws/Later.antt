-- ===== src/Auth/Laws/Later.antt =====
-- How an account may change: its id and address stay, its version does not fall, a ban stays.
use finance_app.Base.{
  ℕ, ◌≤◌, ◌<◌, ◌≡◌, refl, true, false, some, if◌then◌else◌, ◌==◌, ==_iff, arith, Option-cases,
  Bool-cases, inl, inr,
}
use finance_app.Base.Text.{Text, text_eq}
use finance_app.Base.Assoc.{lookup, lookup-insert}
use finance_app.Auth.Defs.{User, is_banned}
use finance_app.Auth.Repository.Defs.{Repository, write_at, update_user}
use finance_app.Auth.Repository.Accounts.{store_user}

pub record Later (u v : User) : Type 0 where
  pub id : v.id ≡ u.id
  pub email : v.email ≡ u.email
  pub version : u.auth_version ≤ v.auth_version
  pub banned : (if is_banned u then is_banned v else true) ≡ true

pub Later-refl : (u : User) → Later u u
unfolding is_banned
Later-refl u = record { id = refl; email = refl; version = omega arith; banned = ground arith }

pub Later-trans : (u v w : User) → Later u v → Later v w → Later u w
Later-trans u v w a b = ground arith

-- Every address in use is below the next one.
abbrev pub IsBounded : Repository → Type 0
IsBounded r = (id : Text) (p : ℕ) → lookup id r.by_id ≡ some p → p < r.next

-- The user at an address of `r`, if it still has an id after `r'`, has had it before.
abbrev pub Ages : Text → Repository → Repository → Type 0
Ages id r r' =
    (p : ℕ)
    → lookup id r'.by_id ≡ some p
    → (lookup id r.by_id ≡ some p) × Later (r.heap p) (r'.heap p)

pub write_at-Later :
    (heap : ℕ → User) (p q : ℕ) (u : User) → Later (heap p) u → Later (heap q) (write_at heap p u q)
write_at-Later heap p q u l = elim (Bool-cases (q == p)) [
  | inl e ↦ rw e (subst_address q (ground (arith, ==_iff q p)))
  | inr e ↦ rw e (Later-refl (heap q))
]
  where
    subst_address : (q : ℕ) → q ≡ p → Later (heap q) u
    subst_address q e = rw e l

pub update_user-Ages :
    (f : User → User)
    → ((u : User) → Later u (f u))
    → (id user : Text) (r : Repository) → Ages id r (update_user f user r).1
update_user-Ages f keeps id user r p h = elim (Option-cases (lookup user r.by_id)) [
  | inl e ↦ ground (arith, Later-refl (r.heap p))
  | inr (a, e) ↦ ground (arith, write_at-Later r.heap a p (f (r.heap a)) (keeps (r.heap a)))
]

pub store_user-Ages :
    (id : Text) (u : User) (r : Repository)
    → IsBounded r
    → text_eq u.id id ≡ false
    → Ages id r (store_user u r)
unfolding store_user
store_user-Ages id u r bounded other p h =
    let found = lookup-insert u.id id r.next r.by_id in
    let old = Later-refl (r.heap p) in ground (arith, found, old, bounded id p)

pub store_user-IsBounded : (u : User) (r : Repository) → IsBounded r → IsBounded (store_user u r)
unfolding store_user
store_user-IsBounded u r bounded id p h =
    ground (arith, lookup-insert u.id id r.next r.by_id, bounded id p)

-- What does not write `banned_at` only has to keep the version up.
pub edit-Later :
    (u v : User)
    → v.id ≡ u.id
    → v.email ≡ u.email
    → u.auth_version ≤ v.auth_version
    → v.banned_at ≡ u.banned_at
    → Later u v
unfolding is_banned
edit-Later u v i e w b = record { id = i; email = e; version = w; banned = ground arith }
