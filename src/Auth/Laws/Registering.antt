-- ===== src/Auth/Laws/Registering.antt =====
-- A registration, the link of its email, and the first login.
use finance_app.Base.{ℕ, ◌+◌, ◌≡◌, ◌∙◌, some, [], ◌∷◌, ◌++◌, arith, Option-cases, inl, inr}
use finance_app.Base.Text.{Text}
use finance_app.Base.Assoc.{lookup, insert}
use finance_app.Base.Result.{ok, Result-cases}
use finance_app.Auth.Defs.{User, RegisterInput, LifecycleToken, EmailOutboxMessage}
use finance_app.Auth.Repository.Defs.{Repository, write_at, normalize_email}
use finance_app.Auth.Repository.Accounts.{
  create_with_verification, store_user, stored_user, run_hooks,
}
use finance_app.Auth.Repository.Tokens.{fresh_token}
use finance_app.Auth.Repository.Outbox.{
  claim_email_outbox_by_id, mark_email_outbox_delivered, mark_email_outbox_failed,
}
use finance_app.Auth.Service.Defs.{Service, hash_password, new_lifecycle_token}
use finance_app.Auth.Service.Registration.{
  Draws, register_context, prepared, registration_checks, new_user, verification_message,
  deliver_email_outbox_by_id, deliver_claimed_email,
}

-- The part of the repository that delivery leaves alone.
abbrev SameAccounts : Repository → Repository → Type 0
SameAccounts r r' =
    (r'.heap ≡ r.heap)
    × (r'.by_id ≡ r.by_id)
    × (r'.by_email ≡ r.by_email)
    × (r'.email_tokens ≡ r.email_tokens)

module _ {X : Type 0} (s : Service X) where
  deliver_claimed-SameAccounts :
      (now : ℕ) (m : EmailOutboxMessage) (r : Repository) (x : X)
      → SameAccounts r (deliver_claimed_email s now m r x).1
  unfolding deliver_claimed_email mark_email_outbox_delivered mark_email_outbox_failed
  deliver_claimed-SameAccounts now m r x = ground arith

  deliver_by_id-SameAccounts :
      (now : ℕ) (id : Text) (r : Repository) (x : X)
      → SameAccounts r (deliver_email_outbox_by_id s now id r x).1
  unfolding deliver_email_outbox_by_id claim_email_outbox_by_id
  deliver_by_id-SameAccounts now id r x =
      elim (Option-cases (claim_email_outbox_by_id id now r).0) [
        | inl e ↦ ground arith
        | inr (m, e) ↦
            ground
              (arith, deliver_claimed-SameAccounts now m (claim_email_outbox_by_id id now r).1 x)
      ]

  -- The token of a registration.
  abbrev pub token_of : ℕ → Draws → Text → LifecycleToken
  token_of now draws raw = record {
    id = draws.token_id;
    user_id = draws.user_id;
    token_hash = s.crypto.sha256_hex raw;
    expires_at = now + s.verification_ttl;
    created_at = now;
  }

  -- What a registration that succeeds has written.
  pub record IsRegistered (draws : Draws) (input : RegisterInput) (token : LifecycleToken)
      (hash : Text) (r r' : Repository) : Type 0 where
    pub hashed : hash_password s draws.salt input.password ≡ ok hash
    pub heap : r'.heap ≡ write_at r.heap r.next (stored_user (new_user s draws input hash))
    pub by_id : r'.by_id ≡ insert draws.user_id r.next r.by_id
    pub by_email :
        r'.by_email ≡ insert (normalize_email (normalize_email input.email)) r.next r.by_email
    pub tokens : r'.email_tokens ≡ r.email_tokens ++ (fresh_token token ∷ [])

  prepared-ok :
      (now : ℕ) (draws : Draws) (input : RegisterInput) (raw : Text)
      (p : Text × Text × LifecycleToken)
      → draws.raw ≡ some raw
      → prepared s now draws input ≡ ok p
      → (hash_password s draws.salt input.password ≡ ok p.0)
        × (p.1 ≡ raw)
        × (p.2 ≡ token_of now draws raw)
  unfolding new_lifecycle_token
  prepared-ok now draws input raw p drawn h = elim (Result-cases (registration_checks s input)) [
    | inl (c, e) ↦ elim (Result-cases (hash_password s draws.salt input.password)) [
      | inl (k, f) ↦ ground arith
      | inr (bad, f) ↦ absurd (ground arith)
    ]
    | inr (bad, e) ↦ absurd (ground arith)
  ]

  created-IsRegistered :
      (draws : Draws) (input : RegisterInput) (token : LifecycleToken) (hash : Text)
      (m : EmailOutboxMessage) (r : Repository) (x : X)
      → hash_password s draws.salt input.password ≡ ok hash
      → (create_with_verification (new_user s draws input hash) token m s.tx_creation_hooks r x).0
        ≡ ok tt
      → IsRegistered draws input token hash r
          (create_with_verification (new_user s draws input hash) token m s.tx_creation_hooks r x).1
  unfolding create_with_verification store_user new_user
  created-IsRegistered draws input token hash m r x k h =
      elim (Option-cases (lookup (normalize_email (normalize_email input.email)) r.by_email)) [
        | inl e ↦ record {
          hashed = k;
          heap = ground arith;
          by_id = ground arith;
          by_email = ground arith;
          tokens = ground arith;
        }
        | inr (p, e) ↦ absurd (ground arith)
      ]

  same-IsRegistered :
      (draws : Draws) (input : RegisterInput) (token : LifecycleToken) (hash : Text)
      (r a b : Repository)
      → SameAccounts a b
      → IsRegistered draws input token hash r a
      → IsRegistered draws input token hash r b
  same-IsRegistered draws input token hash r a b (h, i, e, t) g = record {
    hashed = g.hashed;
    heap = h ∙ g.heap;
    by_id = i ∙ g.by_id;
    by_email = e ∙ g.by_email;
    tokens = t ∙ g.tokens;
  }

  pub register-IsRegistered :
      (now : ℕ) (draws : Draws) (input : RegisterInput) (raw : Text) (u : User) (r : Repository)
      (x : X)
      → draws.raw ≡ some raw
      → (register_context s now draws input r x).0 ≡ ok u
      → (hash : Text) × (token : LifecycleToken) × (token ≡ token_of now draws raw)
        × (u ≡ new_user s draws input hash)
        × IsRegistered draws input token hash r (register_context s now draws input r x).1
  unfolding register_context
  register-IsRegistered now draws input raw u r x drawn h =
      elim (Result-cases (prepared s now draws input)) [
        | inr (bad, e) ↦ absurd (ground arith)
        | inl ((hash, value, token), e) ↦
            let (k, same, it) = prepared-ok now draws input raw (hash, value, token) drawn e in
            let new = new_user s draws input hash in
            let m = verification_message s now draws new value in
            let c = create_with_verification new token m s.tx_creation_hooks r x in
            let ready = run_hooks s.creation_hooks new.id c.2 in
            elim (Result-cases c.0) [
              | inr (bad, f) ↦ absurd (ground arith)
              | inl (one, f) ↦ elim (Result-cases ready.0) [
                | inr (bad, g) ↦ absurd (ground arith)
                | inl (two, g) ↦ (
                  hash,
                  token,
                  it,
                  ground arith,
                  same-IsRegistered draws input token hash r c.1
                      (register_context s now draws input r x).1
                      (ground (arith, deliver_by_id-SameAccounts now m.id c.1 ready.1))
                      (created-IsRegistered draws input token hash m r x k (ground arith)),
                )
              ]
            ]
      ]
