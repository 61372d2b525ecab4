-- ===== src/Auth/Laws/SingleUse.antt =====
-- A one-time token that was used is never taken again.
use finance_app.Base.{
  ℕ, ◌≤◌, ◌≡◌, refl, Bool, true, false, not, none, some, List, [], ◌∷◌, ◌++◌, if◌then◌else◌, arith,
  Option-cases, inl, inr, is_some, all_of, count_if, keep_if, All,
}
use finance_app.Base.Text.{Text, text_eq}
use finance_app.Base.Assoc.{lookup}
use finance_app.Base.Result.{ok, err}
use finance_app.Auth.Defs.{User, AuthError, MemoryToken}
use finance_app.Auth.Repository.Defs.{Repository}
use finance_app.Auth.Repository.Accounts
use finance_app.Auth.Repository.Tokens
use finance_app.Auth.Repository.Tokens.{
  take_token, has_hash, consume_all, reset_password_token, verify_email_token,
}
use finance_app.Auth.Repository.Outbox
use finance_app.Auth.Repository.Run.{Call, step, run}

-- Every token with this hash has been used.
abbrev pub is_spent : Text → List MemoryToken → Bool
is_spent hash = all_of λ t. if has_hash hash t then is_some t.consumed_at else true

is_spent-consume_all :
    (hash : Text) (now : ℕ) (user : Text) (ts : List MemoryToken)
    → is_spent hash ts ≡ true
    → is_spent hash (consume_all now user ts) ≡ true
unfolding consume_all
is_spent-consume_all hash now user [] h = refl
is_spent-consume_all hash now user (t ∷ ts) h =
    ground (arith, is_spent-consume_all hash now user ts)

is_spent-append :
    (hash : Text) (t : MemoryToken) (ts : List MemoryToken)
    → has_hash hash t ≡ false
    → is_spent hash ts ≡ true
    → is_spent hash (ts ++ (t ∷ [])) ≡ true
is_spent-append hash t [] o h = ground arith
is_spent-append hash t (u ∷ ts) o h = ground (arith, is_spent-append hash t ts)

is_spent-keep_if :
    (hash : Text) (p : MemoryToken → Bool) (ts : List MemoryToken)
    → is_spent hash ts ≡ true
    → is_spent hash (keep_if p ts) ≡ true
is_spent-keep_if hash p [] h = refl
is_spent-keep_if hash p (t ∷ ts) h = ground (arith, is_spent-keep_if hash p ts)

is_spent-take_token :
    (hash : Text) (p : MemoryToken → Bool) (now : ℕ) (ts : List MemoryToken)
    → is_spent hash ts ≡ true
    → is_spent hash (take_token p now ts).1 ≡ true
unfolding take_token
is_spent-take_token hash p now [] h = refl
is_spent-take_token hash p now (t ∷ ts) h = ground (arith, is_spent-take_token hash p now ts)

take_token-spent :
    (hash : Text) (now : ℕ) (ts : List MemoryToken)
    → is_spent hash ts ≡ true
    → (take_token (has_hash hash) now ts).0 ≡ none
unfolding take_token
take_token-spent hash now [] h = refl
take_token-spent hash now (t ∷ ts) h = ground (arith, take_token-spent hash now ts)

none_with-spent :
    (hash : Text) (ts : List MemoryToken)
    → count_if (has_hash hash) ts ≡ 0
    → is_spent hash ts ≡ true
none_with-spent hash [] h = refl
none_with-spent hash (t ∷ ts) h = ground (arith, none_with-spent hash ts)

-- A taken token that is alone with its hash is spent.
take_token-spends :
    (hash : Text) (now : ℕ) (user : Text) (ts : List MemoryToken)
    → count_if (has_hash hash) ts ≤ 1
    → (take_token (has_hash hash) now ts).0 ≡ some user
    → is_spent hash (take_token (has_hash hash) now ts).1 ≡ true
unfolding take_token
take_token-spends hash now user [] c h = refl
take_token-spends hash now user (t ∷ ts) c h =
    ground (arith, none_with-spent hash ts, take_token-spends hash now user ts)

-- A call that stores a reset token with this hash.
abbrev pub saves_reset : Text → Call → Bool
saves_reset hash (Call.save_password_reset_token _ token) = text_eq token.token_hash hash
saves_reset hash _ = false

reset_password_token-spent :
    (hash h : Text) (now : ℕ) (password : Text) (r : Repository)
    → is_spent hash r.reset_tokens ≡ true
    → is_spent hash (reset_password_token now h password r).1.reset_tokens ≡ true
unfolding reset_password_token
reset_password_token-spent hash h now password r spent =
    let taken = take_token (has_hash h) now r.reset_tokens in
    let kept = is_spent-take_token hash (has_hash h) now r.reset_tokens spent in
    elim (Option-cases taken.0) [
      | inl e ↦ ground arith
      | inr (user, e) ↦ elim (Option-cases (lookup user r.by_id)) [
        | inl f ↦ ground arith
        | inr (p, f) ↦ ground (arith, is_spent-consume_all hash now (r.heap p).id taken.1)
      ]
    ]

step-spent :
    (hash : Text) (c : Call) (r : Repository)
    → saves_reset hash c ≡ false
    → is_spent hash r.reset_tokens ≡ true
    → is_spent hash (step c r).reset_tokens ≡ true
unfolding step Accounts.create Accounts.create_with_verification Accounts.create_provider_user
    Accounts.run_hooks Accounts.store_user Accounts.create_identity Accounts.update_password
    Accounts.update_password_and_revoke Accounts.increment_auth_version Accounts.set_role
    Accounts.suspend Accounts.ban Accounts.soft_delete Accounts.delete_account
    Accounts.filter_memory_tokens Tokens.verify_email_token Tokens.save_email_verification_token
    Tokens.save_password_reset_token Tokens.save_reauthentication_token
    Tokens.consume_reauthentication_token Outbox.claim_email_outbox Outbox.claim_email_outbox_by_id
    Outbox.mark_email_outbox_delivered Outbox.mark_email_outbox_failed
step-spent hash (Call.delete_account user) r o spent =
    ground
      (arith, is_spent-keep_if hash (λ t. not (text_eq t.token.user_id user)) r.reset_tokens spent)
step-spent hash (Call.save_password_reset_token now token) r o spent =
    is_spent-append hash (record { token = token; consumed_at = none })
      (consume_all now token.user_id r.reset_tokens) o
      (is_spent-consume_all hash now token.user_id r.reset_tokens spent)
step-spent hash (Call.reset_password_token now h password) r o spent =
    reset_password_token-spent hash h now password r spent
step-spent hash _ r o spent = ground arith

run-spent :
    (hash : Text) (cs : List Call) (r : Repository)
    → All (λ c. saves_reset hash c ≡ false) cs
    → is_spent hash r.reset_tokens ≡ true
    → is_spent hash (run cs r).reset_tokens ≡ true
unfolding run
run-spent hash [] r o spent = spent
run-spent hash (c ∷ cs) r o spent = run-spent hash cs (step c r) o.1 (step-spent hash c r o.0 spent)

-- A reset token that has reset a password resets no other: whatever calls of the repository follow,
-- as long as no new token with the same hash is saved, the hash is refused.
pub reset_token_single_use :
    (hash : Text) (now later : ℕ) (password again : Text) (u : User) (cs : List Call)
    (r : Repository)
    → count_if (has_hash hash) r.reset_tokens ≤ 1
    → (reset_password_token now hash password r).0 ≡ ok u
    → All (λ c. saves_reset hash c ≡ false) cs
    → (reset_password_token later hash again
        (run cs (reset_password_token now hash password r).1)).0
      ≡ err AuthError.invalid_lifecycle_token
unfolding reset_password_token
reset_token_single_use hash now later password again u cs r alone done o =
    let taken = take_token (has_hash hash) now r.reset_tokens in
    let r' = (reset_password_token now hash password r).1 in
    let spent : is_spent hash r'.reset_tokens ≡ true = elim (Option-cases taken.0) [
      | inl e ↦ absurd (ground arith)
      | inr (user, e) ↦
          let first = take_token-spends hash now user r.reset_tokens alone e in
          elim (Option-cases (lookup user r.by_id)) [
            | inl f ↦ absurd (ground arith)
            | inr (p, f) ↦ ground (arith, is_spent-consume_all hash now (r.heap p).id taken.1)
          ]
    ] in
    let refused =
      take_token-spent hash later (run cs r').reset_tokens (run-spent hash cs r' o spent) in
    ground arith
