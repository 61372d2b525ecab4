-- ===== src/Auth/Laws/Verifying.antt =====
-- The link of a registration's email verifies the account, and the first login follows.
use finance_app.Base.{
  ℕ, ◌+◌, ◌<◌, ◌≡◌, refl, ap, ◌∙◌, true, none, some, List, [], ◌∷◌, ◌++◌, ==_iff, arith,
  Option-cases, inl, inr, is_some, count_if,
}
use finance_app.Base.Text.{Text, text_eq, text_eq_iff, trim_space}
use finance_app.Base.Assoc.{lookup, lookup-insert}
use finance_app.Base.Result.{ok, err}
use finance_app.Auth.Defs.{User, RegisterInput, LifecycleToken, MemoryToken, AuthError}
use finance_app.Auth.Repository.Defs.{Repository, normalize_email, find_by_email}
use finance_app.Auth.Repository.Accounts.{stored_user}
use finance_app.Auth.Repository.Tokens.{take_token, has_hash, verify_email_token, fresh_token}
use finance_app.Auth.Service.Defs.{Service, issue, hash_password, hash_lifecycle_token}
use finance_app.Auth.Service.Registration.{Draws, register_context, new_user, verify_email}
use finance_app.Auth.Service.Login.{login}
use finance_app.Auth.Laws.Registering.{IsRegistered, register-IsRegistered}

take_token-append :
    (hash : Text) (now : ℕ) (t : LifecycleToken) (ts : List MemoryToken)
    → count_if (has_hash hash) ts ≡ 0
    → text_eq t.token_hash hash ≡ true
    → now < t.expires_at
    → (take_token (has_hash hash) now (ts ++ (fresh_token t ∷ []))).0 ≡ some t.user_id
unfolding take_token
take_token-append hash now t [] c h l = ground arith
take_token-append hash now t (u ∷ ts) c h l = ground (arith, take_token-append hash now t ts)

abbrev pub verified_at : ℕ → User → User
verified_at now u = record u { email_verified_at = some now }

module _ {X : Type 0} (s : Service X) where
  stored-new_user :
      (draws : Draws) (input : RegisterInput) (hash : Text)
      → stored_user (new_user s draws input hash) ≡ new_user s draws input hash
  unfolding stored_user new_user
  stored-new_user draws input [] = refl
  stored-new_user draws input (c ∷ hash) = refl

  module _ (draws : Draws) (input : RegisterInput) (token : LifecycleToken) (hash : Text)
      (r r' : Repository) (g : IsRegistered s draws input token hash r r') where
    open g use {heap, by_id, by_email}

    stored_at_next : r'.heap r.next ≡ new_user s draws input hash
    stored_at_next =
        ap (λ h. h r.next) heap
        ∙ ground (arith, ==_iff r.next r.next, stored-new_user draws input hash)

    shown_by_email :
        lookup (normalize_email (normalize_email input.email)) r'.by_email ≡ some r.next
    shown_by_email =
        let k = normalize_email (normalize_email input.email) in
        ground (arith, by_email, lookup-insert k k r.next r.by_email, text_eq_iff k k)

    shown_by_id : lookup draws.user_id r'.by_id ≡ some r.next
    shown_by_id =
        let k = draws.user_id in
        ground (arith, by_id, lookup-insert k k r.next r.by_id, text_eq_iff k k)

  -- The two answers of a login with the right password.
  login_unverified :
      (now : ℕ) (email password : Text) (r : Repository) (u : User)
      → find_by_email email r ≡ ok u
      → s.crypto.password_matches u.password_hash password ≡ true
      → u.has_password ≡ true
      → u.email_verified_at ≡ none
      → login s now email password r ≡ err AuthError.email_verification_required
  unfolding login
  login_unverified now email password r u e m p v = ground arith

  login_verified :
      (now : ℕ) (email password : Text) (r : Repository) (u : User)
      → find_by_email email r ≡ ok u
      → s.crypto.password_matches u.password_hash password ≡ true
      → u.has_password ≡ true
      → is_some u.email_verified_at ≡ true
      → login s now email password r ≡ issue s now u
  unfolding login
  login_verified now email password r u e m p v = ground arith

  verify_email_token-ok :
      (now : ℕ) (hash id : Text) (p : ℕ) (u : User) (r : Repository)
      → (take_token (has_hash hash) now r.email_tokens).0 ≡ some id
      → lookup id r.by_id ≡ some p
      → r.heap p ≡ u
      → ((verify_email_token now hash r).0 ≡ ok (verified_at now u))
        × ((verify_email_token now hash r).1.heap p ≡ verified_at now u)
        × ((verify_email_token now hash r).1.by_email ≡ r.by_email)
  unfolding verify_email_token
  verify_email_token-ok now hash id p u r taken e h = ground (arith, ==_iff p p)

  verify_email-token :
      (now : ℕ) (raw key : Text) (r : Repository) (u : User)
      → hash_lifecycle_token s raw ≡ key
      → (verify_email_token now key r).0 ≡ ok u
      → ((verify_email s now raw r).0 ≡ issue s now u)
        × ((verify_email s now raw r).1 ≡ (verify_email_token now key r).1)
  unfolding verify_email
  verify_email-token now raw key r u e h =
      let same = ap (λ k. verify_email_token now k r) e in ground arith

  find_by_email-ok :
      (email : Text) (p : ℕ) (u : User) (r : Repository)
      → lookup (normalize_email email) r.by_email ≡ some p
      → r.heap p ≡ u
      → find_by_email email r ≡ ok u
  unfolding find_by_email
  find_by_email-ok email p u r e h = ground arith

  -- A registration with a raw token whose hash is new: a login with its password asks for the email
  -- to be verified; within the time of the link, the link signs the account in as verified; and then
  -- a login with the password signs the account in, if bcrypt matches a password with a hash of it.
  pub register_verify_login :
      (now later at : ℕ) (draws : Draws) (input : RegisterInput) (raw : Text) (u : User)
      (r : Repository) (x : X)
      → ((salt : ℕ) (p hash : Text)
          → s.crypto.hash_password salt p ≡ some hash
          → s.crypto.password_matches hash p ≡ true)
      → draws.raw ≡ some raw
      → trim_space raw ≡ raw
      → count_if (has_hash (s.crypto.sha256_hex raw)) r.email_tokens ≡ 0
      → (register_context s now draws input r x).0 ≡ ok u
      → later < now + s.verification_ttl
      → let r' = (register_context s now draws input r x).1 in
        (login s at u.email input.password r' ≡ err AuthError.email_verification_required)
        × ((verify_email s later raw r').0 ≡ issue s later (verified_at later u))
        × (login s at u.email input.password (verify_email s later raw r').1
            ≡ issue s at (verified_at later u))
  unfolding hash_lifecycle_token hash_password new_user
  register_verify_login now later at draws input raw u r x matches drawn trimmed new done before =
      let (hash, token, it, same, g) =
        register-IsRegistered s now draws input raw u r x drawn done in
      let r' = (register_context s now draws input r x).1 in
      let here = stored_at_next draws input token hash r r' g in
      let mail = shown_by_email draws input token hash r r' g in
      let id = shown_by_id draws input token hash r r' g in
      let key = s.crypto.sha256_hex raw in
      let new_one = new_user s draws input hash in
      let tokens = g.tokens in
      let taken : (take_token (has_hash key) later r'.email_tokens).0 ≡ some draws.user_id =
        ground (arith, take_token-append key later token r.email_tokens new, text_eq_iff key key) in
      let good : s.crypto.password_matches hash input.password ≡ true =
        elim (Option-cases (s.crypto.hash_password draws.salt input.password)) [
          | inl e ↦ absurd (ground (arith, g.hashed))
          | inr (h, e) ↦ ground (arith, g.hashed, matches draws.salt input.password h e)
        ] in
      let (out, written, kept) =
        verify_email_token-ok later key draws.user_id r.next new_one r' taken id here in
      let r'' = (verify_email_token later key r').1 in
      let address : u.email ≡ normalize_email input.email = ground arith in
      let verified = verified_at later new_one in
      let first = find_by_email-ok (normalize_email input.email) r.next new_one r' mail here in
      let second =
        find_by_email-ok (normalize_email input.email) r.next verified r''
          (ground (arith, kept, mail)) written in
      let hashed : hash_lifecycle_token s raw ≡ key = ap s.crypto.sha256_hex trimmed in
      let signed = verify_email-token later raw key r' verified hashed out in
      (
        rw address (
            login_unverified at (normalize_email input.email) input.password r' new_one first good
              refl refl),
        rw same signed.0,
        rw (same, signed.1)
            (login_verified at (normalize_email input.email) input.password r'' verified second good
              refl refl),
      )
