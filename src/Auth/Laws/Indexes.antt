-- ===== src/Auth/Laws/Indexes.antt =====
-- Every call of the repository keeps its two indexes in step.
use finance_app.Base.{
  ℕ, ◌+◌, ◌≡◌, refl, ap, ◌∙◌, Bool, true, not, none, some, List, [], ◌∷◌, arith, Option-cases,
  Bool-cases, inl, inr, is_some,
}
use finance_app.Base.Text.{Text}
use finance_app.Base.Assoc.{lookup}
use finance_app.Auth.Defs.{User, LifecycleToken, EmailOutboxMessage, AuthIdentity}
use finance_app.Auth.Repository.Defs.{
  Repository, write_at, normalize_email, identity_key, new_in_memory_user_repository,
}
use finance_app.Auth.Repository.Accounts
use finance_app.Auth.Repository.Accounts.{
  with_password, with_next_version, with_role, with_suspension, with_ban, store_user, stored_user,
}
use finance_app.Auth.Repository.Tokens
use finance_app.Auth.Repository.Tokens.{take_token, has_hash}
use finance_app.Auth.Repository.Outbox
use finance_app.Auth.Repository.Run.{Call, step, run}
use finance_app.Auth.Laws.Index.{
  IsIndexed, same-IsIndexed, write_at-id, write_at-email, write-IsIndexed, update_user-IsIndexed,
  store_user-IsIndexed, erase-IsIndexed,
}

-- A call that creates an account does so under an id that is not in use.
abbrev pub is_fresh : Call → Repository → Bool
is_fresh (Call.create u) r = not (is_some (lookup u.id r.by_id))
is_fresh (Call.create_with_verification u _ _) r = not (is_some (lookup u.id r.by_id))
is_fresh (Call.create_provider_user u _) r = not (is_some (lookup u.id r.by_id))
is_fresh _ r = true

create-IsIndexed :
    (u : User) (r : Repository)
    → lookup u.id r.by_id ≡ none
    → IsIndexed r
    → IsIndexed (Accounts.create u r).1
unfolding Accounts.create
create-IsIndexed u r new x = elim (Option-cases (lookup (normalize_email u.email) r.by_email)) [
  | inl unused ↦ rw (unused, Accounts.create) (store_user-IsIndexed u r new unused x)
  | inr (p, used) ↦ rw (used, Accounts.create) x
]

-- The tokens, the outbox and the identities are no part of the indexes.
kept-IsIndexed :
    (r r' : Repository)
    → r'.next ≡ r.next
    → r'.by_id ≡ r.by_id
    → r'.by_email ≡ r.by_email
    → r'.heap ≡ r.heap
    → IsIndexed r
    → IsIndexed r'
kept-IsIndexed r r' n i e h =
    same-IsIndexed r r' n i e (λ p. ap (λ f. (f p).id) h) (λ p. ap (λ f. (f p).email) h)

create_with_verification-IsIndexed :
    (u : User) (token : LifecycleToken) (email : EmailOutboxMessage) (r : Repository)
    → lookup u.id r.by_id ≡ none
    → IsIndexed r
    → IsIndexed (step (Call.create_with_verification u token email) r)
unfolding step Accounts.create_with_verification Accounts.create Accounts.run_hooks
create_with_verification-IsIndexed u token email r new x =
    kept-IsIndexed (Accounts.create u r).1 (step (Call.create_with_verification u token email) r)
      (ground arith) (ground arith) (ground arith) (ground arith) (create-IsIndexed u r new x)

create_provider_user-IsIndexed :
    (u : User) (identity : AuthIdentity) (r : Repository)
    → lookup u.id r.by_id ≡ none
    → IsIndexed r
    → IsIndexed (step (Call.create_provider_user u identity) r)
unfolding step Accounts.create Accounts.create_provider_user Accounts.run_hooks
create_provider_user-IsIndexed u identity r new x =
    let r' = step (Call.create_provider_user u identity) r in
    elim (Option-cases
      (lookup (identity_key identity.provider identity.provider_subject) r.identities)) [
        | inl e ↦
            kept-IsIndexed (Accounts.create u r).1 r' (ground arith) (ground arith) (ground arith)
              (ground arith) (create-IsIndexed u r new x)
        | inr (i, e) ↦
            kept-IsIndexed r r' (ground arith) (ground arith) (ground arith) (ground arith) x
      ]

verify_email_token-IsIndexed :
    (now : ℕ) (hash : Text) (r : Repository)
    → IsIndexed r
    → IsIndexed (Tokens.verify_email_token now hash r).1
unfolding Tokens.verify_email_token
verify_email_token-IsIndexed now hash r x =
    let r' = (Tokens.verify_email_token now hash r).1 in
    elim (Option-cases (take_token (has_hash hash) now r.email_tokens).0) [
      | inl e ↦ kept-IsIndexed r r' (ground arith) (ground arith) (ground arith) (ground arith) x
      | inr (user, e) ↦ elim (Option-cases (lookup user r.by_id)) [
        | inl f ↦ kept-IsIndexed r r' (ground arith) (ground arith) (ground arith) (ground arith) x
        | inr (p, f) ↦
            write-IsIndexed r r' p (record (r.heap p) { email_verified_at = some now })
              (ground arith) (ground arith) (ground arith) (ground arith) refl refl x
      ]
    ]

reset_password_token-IsIndexed :
    (now : ℕ) (hash password : Text) (r : Repository)
    → IsIndexed r
    → IsIndexed (Tokens.reset_password_token now hash password r).1
unfolding Tokens.reset_password_token
reset_password_token-IsIndexed now hash password r x =
    let r' = (Tokens.reset_password_token now hash password r).1 in
    elim (Option-cases (take_token (has_hash hash) now r.reset_tokens).0) [
      | inl e ↦ kept-IsIndexed r r' (ground arith) (ground arith) (ground arith) (ground arith) x
      | inr (user, e) ↦ elim (Option-cases (lookup user r.by_id)) [
        | inl f ↦ kept-IsIndexed r r' (ground arith) (ground arith) (ground arith) (ground arith) x
        | inr (p, f) ↦ elim (Bool-cases (r.heap p).has_password) [
          | inl g ↦
              write-IsIndexed r r' p
                (record (r.heap p) {
                  password_hash = password;
                  auth_version = (r.heap p).auth_version + 1;
                })
                (ground arith) (ground arith) (ground arith) (ground arith) refl refl x
          | inr g ↦
              kept-IsIndexed r r' (ground arith) (ground arith) (ground arith) (ground arith) x
        ]
      ]
    ]

soft_delete-IsIndexed :
    (id : Text) (r : Repository) → IsIndexed r → IsIndexed (Accounts.soft_delete id r).1
unfolding Accounts.soft_delete
soft_delete-IsIndexed id r x =
    let r' = (Accounts.soft_delete id r).1 in
    elim (Option-cases (lookup id r.by_id)) [
      | inl e ↦ kept-IsIndexed r r' (ground arith) (ground arith) (ground arith) (ground arith) x
      | inr (p, e) ↦
          let u = record (r.heap p) { auth_version = (r.heap p).auth_version + 1 } in
          let h : r'.heap ≡ write_at r.heap p u = ground arith in
          erase-IsIndexed r r' id p e (ground arith) (ground arith) (ground arith)
            (λ q. ap (λ f. (f q).id) h ∙ write_at-id r.heap p q u refl)
            (λ q. ap (λ f. (f q).email) h ∙ write_at-email r.heap p q u refl) x
    ]

delete_account-IsIndexed :
    (id : Text) (r : Repository) → IsIndexed r → IsIndexed (Accounts.delete_account id r).1
unfolding Accounts.delete_account
delete_account-IsIndexed id r x =
    let r' = (Accounts.delete_account id r).1 in
    elim (Option-cases (lookup id r.by_id)) [
      | inl e ↦ kept-IsIndexed r r' (ground arith) (ground arith) (ground arith) (ground arith) x
      | inr (p, e) ↦
          let h : r'.heap ≡ r.heap = ground arith in
          erase-IsIndexed r r' id p e (ground arith) (ground arith) (ground arith)
            (λ q. ap (λ f. (f q).id) h) (λ q. ap (λ f. (f q).email) h) x
    ]

-- Every call keeps the indexes in step, if it creates no account under an id in use.
pub step-IsIndexed :
    (c : Call) (r : Repository) → is_fresh c r ≡ true → IsIndexed r → IsIndexed (step c r)
unfolding step Accounts.create_identity Accounts.update_password Accounts.update_password_and_revoke
    Accounts.increment_auth_version Accounts.set_role Accounts.suspend Accounts.ban
    Tokens.save_email_verification_token Tokens.save_password_reset_token
    Tokens.save_reauthentication_token Tokens.consume_reauthentication_token
    Outbox.claim_email_outbox Outbox.claim_email_outbox_by_id Outbox.mark_email_outbox_delivered
    Outbox.mark_email_outbox_failed
step-IsIndexed (Call.create u) r f x = create-IsIndexed u r (ground arith) x
step-IsIndexed (Call.create_with_verification u token email) r f x =
    create_with_verification-IsIndexed u token email r (ground arith) x
step-IsIndexed (Call.create_provider_user u identity) r f x =
    create_provider_user-IsIndexed u identity r (ground arith) x
step-IsIndexed (Call.update_password id hash) r f x =
    update_user-IsIndexed (with_password hash) (λ u. refl) (λ u. refl) id r x
step-IsIndexed (Call.update_password_and_revoke id hash) r f x =
    update_user-IsIndexed (λ v. with_next_version (with_password hash v)) (λ u. refl) (λ u. refl) id
      r x
step-IsIndexed (Call.increment_auth_version id) r f x =
    update_user-IsIndexed with_next_version (λ u. refl) (λ u. refl) id r x
step-IsIndexed (Call.set_role id role) r f x =
    update_user-IsIndexed (with_role role) (λ u. refl) (λ u. refl) id r x
step-IsIndexed (Call.suspend id until reason) r f x =
    update_user-IsIndexed (with_suspension until reason) (λ u. refl) (λ u. refl) id r x
step-IsIndexed (Call.ban now id reason) r f x =
    update_user-IsIndexed (with_ban now reason) (λ u. refl) (λ u. refl) id r x
step-IsIndexed (Call.soft_delete id) r f x = soft_delete-IsIndexed id r x
step-IsIndexed (Call.delete_account id) r f x = delete_account-IsIndexed id r x
step-IsIndexed (Call.verify_email_token now hash) r f x = verify_email_token-IsIndexed now hash r x
step-IsIndexed (Call.reset_password_token now hash password) r f x =
    reset_password_token-IsIndexed now hash password r x
step-IsIndexed c r f x =
    kept-IsIndexed r (step c r) (ground arith) (ground arith) (ground arith) (ground arith) x

abbrev pub AllFresh : List Call → Repository → Type 0
AllFresh [] r = Unit {0}
AllFresh (c ∷ cs) r = (is_fresh c r ≡ true) × AllFresh cs (step c r)

run-IsIndexed :
    (cs : List Call) (r : Repository) → AllFresh cs r → IsIndexed r → IsIndexed (run cs r)
unfolding run
run-IsIndexed [] r f x = x
run-IsIndexed (c ∷ cs) r f x = run-IsIndexed cs (step c r) f.1 (step-IsIndexed c r f.0 x)

empty-IsIndexed : IsIndexed new_in_memory_user_repository
unfolding lookup
empty-IsIndexed = record { bounded = λ id p h. cc; ids = λ id p h. cc; emails = λ k p h. cc }

-- After any calls from the empty repository that create accounts under new ids only, the user under
-- an id has that id and stands under its normalized address, and the user under an address has that
-- normalized address and stands under its id.
pub indexes_agree :
    (cs : List Call)
    → AllFresh cs new_in_memory_user_repository
    → IsIndexed (run cs new_in_memory_user_repository)
indexes_agree cs f = run-IsIndexed cs new_in_memory_user_repository f empty-IsIndexed
