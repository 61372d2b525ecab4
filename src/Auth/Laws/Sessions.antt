-- ===== src/Auth/Laws/Sessions.antt =====
-- Which tokens the middleware admits, and what revokes them.
use finance_app.Base.{
  ℕ, ◌+◌, ◌≤◌, ◌<◌, ◌≡◌, sym, ◌≢◌, some, List, ==_iff, arith, Option-cases, inl, inr,
}
use finance_app.Base.Text.{Text}
use finance_app.Base.Assoc.{lookup}
use finance_app.Base.Result.{ok, Result-cases}
use finance_app.Auth.Defs.{User, is_banned}
use finance_app.Auth.Repository.Defs.{Repository, update_user, find_by_id}
use finance_app.Auth.Repository.Accounts.{
  with_password, with_next_version, with_ban, increment_auth_version, update_password_and_revoke,
  ban,
}
use finance_app.Auth.Repository.Run.{Call, run}
use finance_app.Auth.Service.Defs.{Service, Claims, parse, generate, hash_password}
use finance_app.Auth.Service.Passwords.{revoke_sessions, changed_hash, change_password_and_revoke}
use finance_app.Auth.Middleware.{Request, Access, session_token, require_auth_with_user}
use finance_app.Auth.Laws.Later.{Later, IsBounded}
use finance_app.Auth.Laws.Ages.{run-Ages, Keeps}

-- The address of a user that the calls have kept is the one it had, with an older account there.
found_before :
    (id : Text) (cs : List Call) (r : Repository) (v : User)
    → IsBounded r
    → Keeps id cs
    → find_by_id id (run cs r) ≡ ok v
    → (u : User) × (find_by_id id r ≡ ok u) × Later u v
unfolding find_by_id
found_before id cs r v b k h = elim (Option-cases (lookup id (run cs r).by_id)) [
  | inl e ↦ absurd (ground arith)
  | inr (p, e) ↦
      let (old, late) = run-Ages id cs r b k p e in (r.heap p, ground arith, ground arith)
]

module _ {X : Type 0} (s : Service X) (now : ℕ) (q : Request) (token : Text) (claims : Claims) where
  -- A request whose token was issued for an older version of the account.
  refused_if_older :
      (r : Repository)
      → session_token q ≡ some token
      → parse s now token ≡ ok claims
      → ((v : User) → find_by_id claims.user_id r ≡ ok v → claims.auth_version < v.auth_version)
      → require_auth_with_user s now q r ≡ Access.unauthorized
  unfolding require_auth_with_user
  refused_if_older r t c newer = elim (Result-cases (find_by_id claims.user_id r)) [
    | inl (v, e) ↦ ground (arith, newer v e)
    | inr (e, f) ↦ ground arith
  ]

  -- The version of the account was above that of the token, and only rises.
  refused_after :
      (id : Text) (cs : List Call) (r : Repository) (u : User)
      → IsBounded r
      → Keeps id cs
      → find_by_id id r ≡ ok u
      → claims.auth_version < u.auth_version
      → claims.user_id ≡ id
      → session_token q ≡ some token
      → parse s now token ≡ ok claims
      → require_auth_with_user s now q (run cs r) ≡ Access.unauthorized
  refused_after id cs r u b k found lower owner t c = refused_if_older (run cs r) t c λ v h.
      let (w, e, later) = found_before id cs r v b k (rw (sym owner) h) in
      let version = later.version in ground arith

-- What one update of a user leaves to be found.
find-update_user :
    (f : User → User) (id : Text) (r : Repository) (u : User)
    → find_by_id id r ≡ ok u
    → (find_by_id id (update_user f id r).1 ≡ ok (f u)) × ((update_user f id r).0 ≡ ok (f u))
unfolding find_by_id
find-update_user f id r u h = elim (Option-cases (lookup id r.by_id)) [
  | inl e ↦ absurd (ground arith)
  | inr (p, e) ↦ ground (arith, ==_iff p p)
]

update_user-IsBounded :
    (f : User → User) (id : Text) (r : Repository) → IsBounded r → IsBounded (update_user f id r).1
update_user-IsBounded f id r b j p h = ground (arith, b j p)

-- Once the sessions of a user are revoked, the middleware refuses every token of the user that was
-- issued at or before the version of that time, after any later calls of the repository that do not
-- create an account under the same id.
pub revoked_token_refused :
    {X : Type 0} (s : Service X) (cs : List Call) (r : Repository) (u : User) (now : ℕ)
    (q : Request) (token : Text) (claims : Claims)
    → IsBounded r
    → find_by_id u.id r ≡ ok u
    → Keeps u.id cs
    → session_token q ≡ some token
    → parse s now token ≡ ok claims
    → claims.user_id ≡ u.id
    → claims.auth_version ≤ u.auth_version
    → require_auth_with_user s now q (run cs (revoke_sessions s u.id r).1) ≡ Access.unauthorized
unfolding revoke_sessions increment_auth_version
revoked_token_refused s cs r u now q token claims b found k t c owner old =
    let f = with_next_version in
    refused_after s now q token claims u.id cs (update_user f u.id r).1 (f u)
      (update_user-IsBounded f u.id r b) k (find-update_user f u.id r u found).0 (omega arith) owner
      t c

-- What a change of password writes.
abbrev pub revoked_with : Text → User → User
revoked_with hash u = with_next_version (with_password hash u)

-- A change of password that answers a token has passed the checks and written the new hash.
pub change_password-ok :
    {X : Type 0} (s : Service X) (r : Repository) (u : User) (at salt : ℕ)
    (current new fresh : Text)
    → find_by_id u.id r ≡ ok u
    → (change_password_and_revoke s at salt u.id current new r).0 ≡ ok fresh
    → (hash : Text) × (hash_password s salt new ≡ ok hash)
      × (generate s at u.id u.email (u.auth_version + 1) ≡ ok fresh)
      × ((change_password_and_revoke s at salt u.id current new r).1
          ≡ (update_user (revoked_with hash) u.id r).1)
unfolding change_password_and_revoke update_password_and_revoke
change_password-ok s r u at salt current new fresh found done =
    elim (Result-cases (changed_hash s salt u.id current new r)) [
      | inl (h, e) ↦
          let written = find-update_user (revoked_with h) u.id r u found in
          (h, ground arith, ground (arith, written), ground arith)
      | inr (bad, e) ↦ absurd (ground arith)
    ]

-- Once a user has changed the password, every token of the user from before is refused, after any
-- later calls of the repository that do not create an account under the same id.
pub changed_password_refuses :
    {X : Type 0} (s : Service X) (cs : List Call) (r : Repository) (u : User) (at salt : ℕ)
    (current new fresh : Text) (now : ℕ) (q : Request) (token : Text) (claims : Claims)
    → IsBounded r
    → find_by_id u.id r ≡ ok u
    → (change_password_and_revoke s at salt u.id current new r).0 ≡ ok fresh
    → Keeps u.id cs
    → session_token q ≡ some token
    → parse s now token ≡ ok claims
    → claims.user_id ≡ u.id
    → claims.auth_version ≤ u.auth_version
    → require_auth_with_user s now q
        (run cs (change_password_and_revoke s at salt u.id current new r).1)
      ≡ Access.unauthorized
unfolding change_password_and_revoke update_password_and_revoke
changed_password_refuses s cs r u at salt current new fresh now q token claims b found done k t c
      owner old =
    let (h, _, _, e) = change_password-ok s r u at salt current new fresh found done in
    rw e (
      refused_after s now q token claims u.id cs (update_user (revoked_with h) u.id r).1
        (revoked_with h u) (update_user-IsBounded (revoked_with h) u.id r b) k
        (find-update_user (revoked_with h) u.id r u found).0 (omega arith) owner t c)

-- Once an account is banned, the middleware admits no request as its user, after any later calls of
-- the repository that do not create an account under the same id.
pub banned_never_admitted :
    {X : Type 0} (s : Service X) (cs : List Call) (r : Repository) (u : User) (at : ℕ)
    (reason : Text) (now : ℕ) (q : Request)
    → IsBounded r
    → find_by_id u.id r ≡ ok u
    → Keeps u.id cs
    → require_auth_with_user s now q (run cs (ban at u.id reason r).1) ≢ Access.admitted u.id
unfolding ban require_auth_with_user is_banned
banned_never_admitted s cs r u at reason now q b found k h =
    let f = with_ban at reason in
    let r' = (update_user f u.id r).1 in
    let written = (find-update_user f u.id r u found).0 in
    elim (Result-cases (find_by_id u.id (run cs r'))) [
      | inl (v, e) ↦
          let (w, is, later) = found_before u.id cs r' v (update_user-IsBounded f u.id r b) k e in
          let banned = later.banned in ground (arith, written)
      | inr (e, f) ↦ ground arith
    ]
