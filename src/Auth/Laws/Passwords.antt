-- ===== src/Auth/Laws/Passwords.antt =====
-- A changed password logs in; a registration that is verified logs in.
use finance_app.Base.{ℕ, ◌≡◌, sym, true, some, ==_iff, arith, Option-cases, inl, inr, is_some}
use finance_app.Base.Text.{Text}
use finance_app.Base.Assoc.{lookup}
use finance_app.Base.Result.{ok}
use finance_app.Auth.Defs.{User}
use finance_app.Auth.Repository.Defs.{
  Repository, update_user, normalize_email, find_by_id, find_by_email,
}
use finance_app.Auth.Service.Defs.{Service, issue, hash_password}
use finance_app.Auth.Service.Login.{login}
use finance_app.Auth.Service.Passwords.{change_password_and_revoke}
use finance_app.Auth.Laws.Index.{IsIndexed}
use finance_app.Auth.Laws.Sessions.{revoked_with, change_password-ok}

-- After an update by id, the address of the user shows the updated user.
find_by_email-update_user :
    (f : User → User) (r : Repository) (u : User)
    → IsIndexed r
    → find_by_id u.id r ≡ ok u
    → find_by_email u.email (update_user f u.id r).1 ≡ ok (f u)
unfolding find_by_id find_by_email
find_by_email-update_user f r u x h = elim (Option-cases (lookup u.id r.by_id)) [
  | inl e ↦ absurd (ground arith)
  | inr (p, e) ↦
      let (_, key) = x.ids u.id p e in
      let same : r.heap p ≡ u = ground arith in
      let at : lookup (normalize_email u.email) r.by_email ≡ some p = rw (sym same) key in
      ground (arith, ==_iff p p)
]

-- A user who has changed the password logs in with the new one, if bcrypt matches a password with a
-- hash of it, the email is verified, the account is not banned and the token is signed; the token
-- carries the new version.
changed_password_logs_in :
    {X : Type 0} (s : Service X) (r : Repository) (u : User) (at salt now : ℕ)
    (current new fresh : Text)
    → IsIndexed r
    → find_by_id u.id r ≡ ok u
    → ((salt : ℕ) (p hash : Text)
        → s.crypto.hash_password salt p ≡ some hash
        → s.crypto.password_matches hash p ≡ true)
    → (change_password_and_revoke s at salt u.id current new r).0 ≡ ok fresh
    → is_some u.email_verified_at ≡ true
    → (hash : Text) × (hash_password s salt new ≡ ok hash)
      × (login s now u.email new (change_password_and_revoke s at salt u.id current new r).1
          ≡ issue s now (revoked_with hash u))
unfolding login hash_password
changed_password_logs_in s r u at salt now current new fresh x found matches done verified =
    let (hash, hashed, _, e) = change_password-ok s r u at salt current new fresh found done in
    let shown = find_by_email-update_user (revoked_with hash) r u x found in
    let good : s.crypto.password_matches hash new ≡ true =
      elim (Option-cases (s.crypto.hash_password salt new)) [
        | inl n ↦ absurd (ground arith)
        | inr (h, n) ↦ ground (arith, matches salt new h n)
      ] in
    (hash, hashed, ground arith)
