-- ===== src/Auth/Repository/Tokens.antt =====
-- The methods on the one-time tokens: verification of an email, reset of a password,
-- reauthentication. `subtle.ConstantTimeCompare` of two texts is their equality.
use finance_app.Base.{
  ℕ, ◌+◌, Bool, ◌&&◌, Option, none, some, List, [], ◌∷◌, ◌++◌, if◌then◌else◌, ltb, map, is_some,
}
use finance_app.Base.Text.{Text, text_eq}
use finance_app.Base.Assoc.{lookup}
use finance_app.Base.Result.{Result, ok, err}
use finance_app.Auth.Defs.{User, LifecycleToken, MemoryToken, AuthError}
use finance_app.Auth.Repository.Defs.{Repository, write_at}

-- The loop that marks the unused tokens of a user as used.
unfoldable pub consume_all : ℕ → Text → List MemoryToken → List MemoryToken
consume_all now user = map λ t.
    if text_eq t.token.user_id user
    then (elim t.consumed_at [ none ↦ record t { consumed_at = some now } | some _ ↦ t ])
    else t

abbrev pub fresh_token : LifecycleToken → MemoryToken
fresh_token token = record { token = token; consumed_at = none }

unfoldable pub save_email_verification_token : ℕ → LifecycleToken → Repository → Repository
unfolding consume_all
save_email_verification_token now token r = record r {
  email_tokens = consume_all now token.user_id r.email_tokens ++ (fresh_token token ∷ []);
}

unfoldable pub save_password_reset_token : ℕ → LifecycleToken → Repository → Repository
unfolding consume_all
save_password_reset_token now token r = record r {
  reset_tokens = consume_all now token.user_id r.reset_tokens ++ (fresh_token token ∷ []);
}

unfoldable pub save_reauthentication_token : LifecycleToken → Repository → Repository
save_reauthentication_token token r = record r {
  reauth_tokens = r.reauth_tokens ++ (fresh_token token ∷ []);
}

-- The loops that look for a token: the first one that passes the test decides. It is used up, and
-- its user is given, if it was not used before and has not expired.
unfoldable pub take_token :
    (MemoryToken → Bool) → ℕ → List MemoryToken → Option Text × List MemoryToken
take_token p now [] = (none, [])
take_token p now (t ∷ ts) =
    let rest = take_token p now ts in
    if p t
    then (if is_some t.consumed_at
        then (none, t ∷ ts)
        else if ltb now t.token.expires_at
        then (some t.token.user_id, record t { consumed_at = some now } ∷ ts)
        else (none, t ∷ ts))
    else (rest.0, t ∷ rest.1)

abbrev pub has_hash : Text → MemoryToken → Bool
has_hash hash t = text_eq t.token.token_hash hash

unfoldable pub verify_email_token : ℕ → Text → Repository → Result AuthError User × Repository
verify_email_token now hash r =
    let (found, ts) = take_token (has_hash hash) now r.email_tokens in
    let r' = record r { email_tokens = ts } in
    elim found [
      | none ↦ (err AuthError.invalid_lifecycle_token, r')
      | some user ↦ elim (lookup user r.by_id) [
        | none ↦ (err AuthError.invalid_lifecycle_token, r')
        | some p ↦
            let u = record (r.heap p) { email_verified_at = some now } in
            (ok u, record r' { heap = write_at r.heap p u })
      ]
    ]

unfoldable pub reset_password_token :
    ℕ → Text → Text → Repository → Result AuthError User × Repository
unfolding consume_all
reset_password_token now hash password_hash r =
    let (found, ts) = take_token (has_hash hash) now r.reset_tokens in
    let r' = record r { reset_tokens = ts } in
    elim found [
      | none ↦ (err AuthError.invalid_lifecycle_token, r')
      | some user ↦ elim (lookup user r.by_id) [
        | none ↦ (err AuthError.invalid_lifecycle_token, r')
        | some p ↦
            let u = record (r.heap p) {
              password_hash = password_hash;
              auth_version = (r.heap p).auth_version + 1;
            } in
            if (r.heap p).has_password
            then (
              ok u,
              record r' { heap = write_at r.heap p u; reset_tokens = consume_all now u.id ts },
            )
            else (err AuthError.invalid_lifecycle_token, r')
      ]
    ]

unfoldable pub consume_reauthentication_token :
    ℕ → Text → Text → Repository → Result AuthError (Unit {0}) × Repository
consume_reauthentication_token now user hash r =
    let (found, ts) =
      take_token (λ t. text_eq t.token.user_id user && has_hash hash t) now r.reauth_tokens in
    (
      elim found [ none ↦ err AuthError.reauthentication_required | some _ ↦ ok tt ],
      record r { reauth_tokens = ts },
    )
