-- ===== src/Auth/Service/Passwords.antt =====
-- service.go: changes of passwords, reauthentication, removal of accounts, moderation fields,
-- listing for the leaderboard.
use finance_app.Base.{
  ℕ, not, ◌&&◌, Option, none, some, List, [], ◌∷◌, if◌then◌else◌, ltb, ◌==◌, map, take, keep_if,
}
use finance_app.Base.Text.{Text, trim_space, is_empty, text_eq, text_lt}
use finance_app.Base.Result.{Result, ok, err, ◌>>=◌, ◌>>◌, refuse_if}
use finance_app.Auth.Defs.{
  User, RankableUser, AuthError, role_admin, provider_google, provider_apple, is_admin,
}
use finance_app.Auth.Repository.Defs.{Repository, find_by_email, find_by_id}
use finance_app.Auth.Repository.Accounts
use finance_app.Auth.Repository.Accounts.{
  update_password_and_revoke, increment_auth_version, run_hooks, find_identity, set_role,
  list_users,
}
use finance_app.Auth.Repository.Tokens.{
  reset_password_token, save_reauthentication_token, consume_reauthentication_token,
}
use finance_app.Auth.Service.Defs.{
  Service, Verifier, byte_length, min_password_length, new_lifecycle_token, hash_password,
  hash_lifecycle_token, generate,
}

-- `sort.Slice` by user id.
unfoldable pub insert_by_id : RankableUser → List RankableUser → List RankableUser
insert_by_id u [] = u ∷ []
insert_by_id u (v ∷ vs) =
    let rest = insert_by_id u vs in if text_lt v.id u.id then v ∷ rest else u ∷ v ∷ vs

unfoldable pub sort_by_id : List RankableUser → List RankableUser
sort_by_id [] = []
sort_by_id (u ∷ us) = insert_by_id u (sort_by_id us)

abbrev pub rankable : User → RankableUser
rankable u = record { id = u.id; display_name = u.display_name; avatar_key = u.avatar_key }

unfoldable pub list_rankable_users : Repository → List RankableUser
list_rankable_users r = map rankable (list_users r)

-- The loop skips the ids up to `after` and stops at `limit` users.
unfoldable pub list_rankable_users_page : Text → ℕ → Repository → List RankableUser
unfolding sort_by_id insert_by_id
list_rankable_users_page after limit r =
    if limit == 0
    then []
    else take limit (keep_if (λ u. text_lt after u.id) (sort_by_id (list_rankable_users r)))

unfoldable pub ensure_bootstrap_admin : Text → Repository → Result AuthError (Unit {0}) × Repository
ensure_bootstrap_admin email r =
    if is_empty (trim_space email) then (ok tt, r) else elim (find_by_email (trim_space email) r) [
      | err _ ↦ (ok tt, r)
      | ok u ↦
          if is_admin u
          then (ok tt, r)
          else let (out, r') = set_role u.id role_admin r in
            (elim out [ err e ↦ err e | ok _ ↦ ok tt ], r')
    ]

module _ {X : Type 0} (s : Service X) where
  -- A new hash that revokes every token, and a token of the new version.
  abbrev replace_password :
      ℕ → Text → Result AuthError Text → Repository → Result AuthError Text × Repository
  replace_password now user hash r = elim hash [
    | err e ↦ (err e, r)
    | ok h ↦
        let (out, r') = update_password_and_revoke user h r in
        (elim out [ err e ↦ err e | ok u ↦ generate s now u.id u.email u.auth_version ], r')
  ]

  -- The checks of a change of password, and the new hash.
  abbrev pub changed_hash : ℕ → Text → Text → Text → Repository → Result AuthError Text
  changed_hash salt user current new r = do
    u ← find_by_id user r
    refuse_if (not u.has_password) AuthError.reauthentication_required
    refuse_if (not (s.crypto.password_matches u.password_hash current))
        AuthError.invalid_credentials
    refuse_if (ltb (byte_length new) min_password_length) AuthError.password_too_short
    hash_password s salt new

  unfoldable pub change_password_and_revoke :
      ℕ → ℕ → Text → Text → Text → Repository → Result AuthError Text × Repository
  change_password_and_revoke now salt user current new r =
      replace_password now user (changed_hash salt user current new r) r

  unfoldable pub reset_password :
      ℕ → ℕ → Text → Text → Repository → Result AuthError (Unit {0}) × Repository
  reset_password now salt raw new r =
      if ltb (byte_length new) min_password_length
      then (err AuthError.password_too_short, r)
      else elim (hash_password s salt new) [
        | err e ↦ (err e, r)
        | ok hash ↦
            let (out, r') = reset_password_token now (hash_lifecycle_token s raw) hash r in
            (elim out [ err e ↦ err e | ok _ ↦ ok tt ], r')
      ]

  unfoldable pub revoke_sessions : Text → Repository → Result AuthError (Unit {0}) × Repository
  revoke_sessions user r =
      let (out, r') = increment_auth_version user r in
      (elim out [ err e ↦ err e | ok _ ↦ ok tt ], r')

  unfoldable pub create_reauthentication :
      ℕ → Text → Option Text → Text → Repository → Result AuthError Text × Repository
  create_reauthentication now id raw user r =
      elim (new_lifecycle_token s now id raw user s.reauth_ttl) [
        | err e ↦ (err e, r)
        | ok (value, token) ↦ (ok value, save_reauthentication_token token r)
      ]

  unfoldable pub reauthenticate_password :
      ℕ → Text → Option Text → Text → Text → Repository → Result AuthError Text × Repository
  reauthenticate_password now id raw user password r = elim (find_by_id user r) [
    | err e ↦ (err e, r)
    | ok u ↦
        if u.has_password && s.crypto.password_matches u.password_hash password
        then create_reauthentication now id raw user r
        else (err AuthError.invalid_credentials, r)
  ]

  -- The switch on the provider: its verifier, or the error.
  abbrev provider_verifier : Text → Result AuthError Verifier
  provider_verifier provider =
      let picked =
        if text_eq provider provider_google
        then (if s.google_enabled then ok s.google_verifier else err AuthError.provider_disabled)
        else if text_eq provider provider_apple
        then (if s.apple_enabled then ok s.apple_verifier else err AuthError.provider_disabled)
        else err AuthError.invalid_provider_token in
      elim picked [
        | err e ↦ err e
        | ok none ↦ err AuthError.provider_not_configured
        | ok (some verify) ↦ ok verify
      ]

  -- What the calls to the verifier and to `FindIdentity` establish.
  unfoldable pub provider_owns : Text → Text → Text → Repository → Result AuthError (Unit {0})
  provider_owns user provider credential r = elim (provider_verifier provider) [
    | err e ↦ err e
    | ok verify ↦ elim (verify credential) [
      | err _ ↦ err AuthError.invalid_provider_token
      | ok claims ↦
          if is_empty (trim_space claims.subject)
          then err AuthError.invalid_provider_token
          else elim (find_identity provider claims.subject r) [
            | err _ ↦ err AuthError.invalid_provider_token
            | ok i ↦ refuse_if (not (text_eq i.user_id user)) AuthError.invalid_provider_token
          ]
    ]
  ]

  unfoldable pub reauthenticate_provider :
      ℕ → Text → Option Text → Text → Text → Text → Repository → Result AuthError Text × Repository
  reauthenticate_provider now id raw user provider credential r =
      elim (provider_owns user provider credential r) [
        | err e ↦ (err e, r)
        | ok _ ↦ create_reauthentication now id raw user r
      ]

  unfoldable pub consume_reauthentication :
      ℕ → Text → Text → Repository → Result AuthError (Unit {0}) × Repository
  consume_reauthentication now user raw r =
      if is_empty (trim_space raw)
      then (err AuthError.reauthentication_required, r)
      else consume_reauthentication_token now user (hash_lifecycle_token s raw) r

  abbrev first_password_checks : Text → Text → Repository → Result AuthError (Unit {0})
  first_password_checks user new r = do
    u ← find_by_id user r
    refuse_if u.has_password AuthError.password_already_set
    refuse_if (ltb (byte_length new) min_password_length) AuthError.password_too_short

  unfoldable pub set_first_password :
      ℕ → ℕ → Text → Text → Text → Repository → Result AuthError Text × Repository
  set_first_password now salt user raw new r = elim (first_password_checks user new r) [
    | err e ↦ (err e, r)
    | ok _ ↦
        let (out, r') = consume_reauthentication now user raw r in
        elim out [
          | err e ↦ (err e, r')
          | ok _ ↦ replace_password now user (hash_password s salt new) r'
        ]
  ]

  unfoldable pub delete_account :
      ℕ → Text → Text → Repository → X → Result AuthError (Unit {0}) × Repository × X
  delete_account now user raw r x =
      let (proof, r') = consume_reauthentication now user raw r in
      elim proof [
        | err e ↦ (err e, r', x)
        | ok _ ↦
            let (erased, x') = run_hooks s.deletion_hooks user x in
            elim erased [
              | err e ↦ (err e, r', x')
              | ok _ ↦ (let (out, r'') = Accounts.delete_account user r' in (out, r'', x'))
            ]
      ]
