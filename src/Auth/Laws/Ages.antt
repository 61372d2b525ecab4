-- ===== src/Auth/Laws/Ages.antt =====
-- An account only gets older: no call lowers its version, lifts its ban, or gives it another id or
-- address.
use finance_app.Base.{
  ℕ, ◌+◌, ◌≡◌, refl, false, some, List, [], ◌∷◌, arith, All, Option-cases, inl, inr,
}
use finance_app.Base.Text.{Text, text_eq}
use finance_app.Base.Assoc.{lookup, lookup-erase}
use finance_app.Auth.Defs.{User, LifecycleToken, EmailOutboxMessage, AuthIdentity, is_banned}
use finance_app.Auth.Repository.Defs.{Repository, normalize_email}
use finance_app.Auth.Repository.Accounts
use finance_app.Auth.Repository.Accounts.{
  with_password, with_next_version, with_role, with_suspension, with_ban, store_user,
}
use finance_app.Auth.Repository.Tokens
use finance_app.Auth.Repository.Tokens.{take_token, has_hash}
use finance_app.Auth.Repository.Outbox
use finance_app.Auth.Repository.Outbox.{write_first}
use finance_app.Auth.Repository.Run.{Call, step, run, creates}
use finance_app.Auth.Laws.Later.{
  Later-refl, Later-trans, IsBounded, Ages, write_at-Later, update_user-Ages, store_user-Ages,
  store_user-IsBounded, edit-Later,
}

verify_email_token-Ages :
    (id : Text) (now : ℕ) (hash : Text) (r : Repository)
    → Ages id r (Tokens.verify_email_token now hash r).1
unfolding Tokens.verify_email_token
verify_email_token-Ages id now hash r p h =
    elim (Option-cases (take_token (has_hash hash) now r.email_tokens).0) [
      | inl e ↦ ground (arith, Later-refl (r.heap p))
      | inr (user, e) ↦ elim (Option-cases (lookup user r.by_id)) [
        | inl f ↦ ground (arith, Later-refl (r.heap p))
        | inr (a, f) ↦
            let u = record (r.heap a) { email_verified_at = some now } in
            let l = edit-Later (r.heap a) u refl refl (omega arith) refl in
            ground (arith, write_at-Later r.heap a p u l)
      ]
    ]

reset_password_token-Ages :
    (id : Text) (now : ℕ) (hash password : Text) (r : Repository)
    → Ages id r (Tokens.reset_password_token now hash password r).1
unfolding Tokens.reset_password_token
reset_password_token-Ages id now hash password r p h =
    elim (Option-cases (take_token (has_hash hash) now r.reset_tokens).0) [
      | inl e ↦ ground (arith, Later-refl (r.heap p))
      | inr (user, e) ↦ elim (Option-cases (lookup user r.by_id)) [
        | inl f ↦ ground (arith, Later-refl (r.heap p))
        | inr (a, f) ↦
            let u = record (r.heap a) {
              password_hash = password;
              auth_version = (r.heap a).auth_version + 1;
            } in
            let l = edit-Later (r.heap a) u refl refl (omega arith) refl in
            ground (arith, Later-refl (r.heap p), write_at-Later r.heap a p u l)
      ]
    ]

create-Ages :
    (id : Text) (u : User) (r : Repository)
    → IsBounded r
    → text_eq u.id id ≡ false
    → Ages id r (Accounts.create u r).1
unfolding Accounts.create
create-Ages id u r bounded other p h =
    elim (Option-cases (lookup (normalize_email u.email) r.by_email)) [
      | inl e ↦ ground (arith, store_user-Ages id u r bounded other p)
      | inr (a, e) ↦ ground (arith, Later-refl (r.heap p))
    ]

create_with_verification-Ages :
    (id : Text) (u : User) (token : LifecycleToken) (email : EmailOutboxMessage) (r : Repository)
    → IsBounded r
    → text_eq u.id id ≡ false
    → Ages id r (step (Call.create_with_verification u token email) r)
unfolding step Accounts.create_with_verification Accounts.run_hooks
create_with_verification-Ages id u token email r bounded other p h =
    elim (Option-cases (lookup (normalize_email u.email) r.by_email)) [
      | inl e ↦ ground (arith, store_user-Ages id u r bounded other p)
      | inr (a, e) ↦ ground (arith, Later-refl (r.heap p))
    ]

create_provider_user-Ages :
    (id : Text) (u : User) (identity : AuthIdentity) (r : Repository)
    → IsBounded r
    → text_eq u.id id ≡ false
    → Ages id r (step (Call.create_provider_user u identity) r)
unfolding step Accounts.create_provider_user Accounts.run_hooks
create_provider_user-Ages id u identity r bounded other p h =
    ground (arith, store_user-Ages id u r bounded other p, Later-refl (r.heap p))

soft_delete-Ages : (id user : Text) (r : Repository) → Ages id r (Accounts.soft_delete user r).1
unfolding Accounts.soft_delete
soft_delete-Ages id user r p h = elim (Option-cases (lookup user r.by_id)) [
  | inl e ↦ ground (arith, Later-refl (r.heap p))
  | inr (a, e) ↦
      let u = record (r.heap a) { auth_version = (r.heap a).auth_version + 1 } in
      let l = edit-Later (r.heap a) u refl refl (omega arith) refl in
      ground (arith, lookup-erase user id r.by_id, write_at-Later r.heap a p u l)
]

delete_account-Ages :
    (id user : Text) (r : Repository) → Ages id r (Accounts.delete_account user r).1
unfolding Accounts.delete_account
delete_account-Ages id user r p h = elim (Option-cases (lookup user r.by_id)) [
  | inl e ↦ ground (arith, Later-refl (r.heap p))
  | inr (a, e) ↦ ground (arith, lookup-erase user id r.by_id, Later-refl (r.heap p))
]

ban-Ages :
    (id : Text) (now : ℕ) (user reason : Text) (r : Repository)
    → Ages id r (Accounts.ban now user reason r).1
unfolding Accounts.ban is_banned
ban-Ages id now user reason r =
    update_user-Ages (with_ban now reason)
      (λ u. record { id = refl; email = refl; version = omega arith; banned = ground arith }) id
      user r

-- One call.
pub step-Ages :
    (id : Text) (c : Call) (r : Repository)
    → IsBounded r
    → creates id c ≡ false
    → Ages id r (step c r)
unfolding step Accounts.create Accounts.create_with_verification Accounts.create_provider_user
    Accounts.create_identity Accounts.update_password Accounts.update_password_and_revoke
    Accounts.increment_auth_version Accounts.set_role Accounts.suspend Accounts.ban
    Tokens.save_email_verification_token Tokens.save_password_reset_token
    Tokens.save_reauthentication_token Tokens.consume_reauthentication_token
    Outbox.claim_email_outbox Outbox.claim_email_outbox_by_id Outbox.mark_email_outbox_delivered
    Outbox.mark_email_outbox_failed
step-Ages id (Call.create u) r b o = create-Ages id u r b o
step-Ages id (Call.create_with_verification u token email) r b o =
    create_with_verification-Ages id u token email r b o
step-Ages id (Call.create_provider_user u identity) r b o =
    create_provider_user-Ages id u identity r b o
step-Ages id (Call.create_identity identity) r b o = λ p h. ground (arith, Later-refl (r.heap p))
step-Ages id (Call.update_password user hash) r b o =
    update_user-Ages (with_password hash)
      (λ u. edit-Later u (with_password hash u) refl refl (omega arith) refl) id user r
step-Ages id (Call.update_password_and_revoke user hash) r b o =
    update_user-Ages (λ v. with_next_version (with_password hash v))
      (λ u. edit-Later u (with_next_version (with_password hash u)) refl refl (omega arith) refl) id
      user r
step-Ages id (Call.increment_auth_version user) r b o =
    update_user-Ages with_next_version
      (λ u. edit-Later u (with_next_version u) refl refl (omega arith) refl) id user r
step-Ages id (Call.set_role user role) r b o =
    update_user-Ages (with_role role)
      (λ u. edit-Later u (with_role role u) refl refl (omega arith) refl) id user r
step-Ages id (Call.suspend user until reason) r b o =
    update_user-Ages (with_suspension until reason)
      (λ u. edit-Later u (with_suspension until reason u) refl refl (omega arith) refl) id user r
step-Ages id (Call.ban now user reason) r b o = ban-Ages id now user reason r
step-Ages id (Call.soft_delete user) r b o = soft_delete-Ages id user r
step-Ages id (Call.delete_account user) r b o = delete_account-Ages id user r
step-Ages id (Call.verify_email_token now hash) r b o = verify_email_token-Ages id now hash r
step-Ages id (Call.reset_password_token now hash password) r b o =
    reset_password_token-Ages id now hash password r
step-Ages id _ r b o = λ p h. ground (arith, Later-refl (r.heap p))

-- Every call keeps the addresses in use below the next one.
pub step-IsBounded : (c : Call) (r : Repository) → IsBounded r → IsBounded (step c r)
unfolding step Accounts.create Accounts.create_with_verification Accounts.create_provider_user
    Accounts.create_identity Accounts.update_password Accounts.update_password_and_revoke
    Accounts.increment_auth_version Accounts.set_role Accounts.suspend Accounts.ban
    Accounts.soft_delete Accounts.delete_account Accounts.run_hooks Tokens.verify_email_token
    Tokens.reset_password_token Tokens.save_email_verification_token
    Tokens.save_password_reset_token Tokens.save_reauthentication_token
    Tokens.consume_reauthentication_token Outbox.claim_email_outbox Outbox.claim_email_outbox_by_id
    Outbox.mark_email_outbox_delivered Outbox.mark_email_outbox_failed
step-IsBounded (Call.create u) r b id p h = ground (arith, b id p, store_user-IsBounded u r b id p)
step-IsBounded (Call.create_with_verification u token email) r b id p h =
    ground (arith, b id p, store_user-IsBounded u r b id p)
step-IsBounded (Call.create_provider_user u identity) r b id p h =
    ground (arith, b id p, store_user-IsBounded u r b id p)
step-IsBounded (Call.soft_delete user) r b id p h =
    ground (arith, b id p, lookup-erase user id r.by_id)
step-IsBounded (Call.delete_account user) r b id p h =
    ground (arith, b id p, lookup-erase user id r.by_id)
step-IsBounded _ r b id p h = ground (arith, b id p)

pub run-IsBounded : (cs : List Call) (r : Repository) → IsBounded r → IsBounded (run cs r)
unfolding run
run-IsBounded [] r b = b
run-IsBounded (c ∷ cs) r b = run-IsBounded cs (step c r) (step-IsBounded c r b)

abbrev pub Keeps : Text → List Call → Type 0
Keeps id cs = All (λ c. creates id c ≡ false) cs

-- Any calls but the creation of an account under the same id.
pub run-Ages :
    (id : Text) (cs : List Call) (r : Repository) → IsBounded r → Keeps id cs → Ages id r (run cs r)
unfolding run
run-Ages id [] r b k p h = (h, Later-refl (r.heap p))
run-Ages id (c ∷ cs) r b k p h =
    let (mid, late) = run-Ages id cs (step c r) (step-IsBounded c r b) k.1 p h in
    let (old, soon) = step-Ages id c r b k.0 p mid in
    (old, Later-trans (r.heap p) ((step c r).heap p) ((run cs (step c r)).heap p) soon late)
