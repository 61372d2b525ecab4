-- ===== src/Auth/Repository/Defs.antt =====
-- The state of `InMemoryUserRepository`. `byID` and `byEmail` hold pointers to one stored user,
-- which both show when a method writes through either: `heap` gives the user at an address, and
-- `next` is the first address that was never used.
use finance_app.Base.{ℕ, false, none, some, List, [], ◌++◌, if◌then◌else◌, ◌==◌}
use finance_app.Base.Text.{Text, codes, trim_space, to_lower}
use finance_app.Base.Assoc.{Map, lookup}
use finance_app.Base.Result.{Result, ok, err}
use finance_app.Auth.Defs.{User, AuthIdentity, MemoryToken, EmailOutboxMessage, AuthError}

pub record Repository : Type 0 where
  pub heap : ℕ → User
  pub next : ℕ
  pub by_id : Map ℕ
  pub by_email : Map ℕ
  pub identities : Map AuthIdentity
  pub email_tokens : List MemoryToken
  pub reset_tokens : List MemoryToken
  pub reauth_tokens : List MemoryToken
  pub email_outbox : List EmailOutboxMessage

-- Go's zero value of `User`, at the addresses that are not used.
abbrev pub zero_user : User
zero_user = record {
  id = [];
  email = [];
  display_name = [];
  avatar_key = [];
  password_hash = [];
  has_password = false;
  email_verified_at = none;
  auth_version = 0;
  role = [];
  suspended_until = none;
  suspension_reason = [];
  banned_at = none;
  ban_reason = [];
  signup_ip_hash = [];
}

abbrev pub new_in_memory_user_repository : Repository
new_in_memory_user_repository = record {
  heap = λ _. zero_user;
  next = 0;
  by_id = [];
  by_email = [];
  identities = [];
  email_tokens = [];
  reset_tokens = [];
  reauth_tokens = [];
  email_outbox = [];
}

unfoldable pub normalize_email : Text → Text
normalize_email email = to_lower (trim_space email)

unfoldable pub identity_key : Text → Text → Text
identity_key provider subject = provider ++ (codes ":" ++ trim_space subject)

-- `*p = u`
abbrev pub write_at : (ℕ → User) → ℕ → User → ℕ → User
write_at heap p u i = if i == p then u else heap i

unfoldable pub find_by_email : Text → Repository → Result AuthError User
find_by_email email r = elim (lookup (normalize_email email) r.by_email) [
  | none ↦ err AuthError.user_not_found
  | some p ↦ ok (r.heap p)
]

unfoldable pub find_by_id : Text → Repository → Result AuthError User
find_by_id id r = elim (lookup id r.by_id) [
  | none ↦ err AuthError.user_not_found
  | some p ↦ ok (r.heap p)
]

-- A method that writes fields of the user with an id, and returns a copy of it.
abbrev pub update_user : (User → User) → Text → Repository → Result AuthError User × Repository
update_user f id r = elim (lookup id r.by_id) [
  | none ↦ (err AuthError.user_not_found, r)
  | some p ↦ (ok (f (r.heap p)), record r { heap = write_at r.heap p (f (r.heap p)) })
]
