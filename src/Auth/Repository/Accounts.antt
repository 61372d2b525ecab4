-- ===== src/Auth/Repository/Accounts.antt =====
-- The methods on accounts and provider identities: creation, the updates of one user, removal.
use finance_app.Base.{
  ℕ, ◌+◌, Bool, true, false, not, Option, none, some, List, [], ◌∷◌, ◌++◌, if◌then◌else◌, ◌==◌,
  keep_if, map,
}
use finance_app.Base.Text.{Text, text_eq, is_empty}
use finance_app.Base.Assoc.{lookup, insert, erase, keep_values, values}
use finance_app.Base.Result.{Result, ok, err}
use finance_app.Auth.Defs.{
  User, AuthIdentity, LifecycleToken, MemoryToken, EmailOutboxMessage, AuthError, role_user,
}
use finance_app.Auth.Repository.Defs.{
  Repository, normalize_email, identity_key, write_at, update_user,
}

-- The copy that is stored, with the defaults of the fields left empty.
unfoldable pub stored_user : User → User
stored_user u = record u {
  auth_version = if u.auth_version == 0 then 1 else u.auth_version;
  has_password = if is_empty u.password_hash then u.has_password else true;
  role = if is_empty u.role then role_user else u.role;
}

-- `r.byID[stored.ID] = &stored; r.byEmail[key] = &stored`
unfoldable pub store_user : User → Repository → Repository
unfolding stored_user
store_user u r = record r {
  heap = write_at r.heap r.next (stored_user u);
  next = r.next + 1;
  by_id = insert u.id r.next r.by_id;
  by_email = insert (normalize_email u.email) r.next r.by_email;
}

unfoldable pub create : User → Repository → Result AuthError (Unit {0}) × Repository
create u r = elim (lookup (normalize_email u.email) r.by_email) [
  | some _ ↦ (err AuthError.email_exists, r)
  | none ↦ (ok tt, store_user u r)
]

-- The hooks that act on other stores, whose state is an `X`: each answers whether it succeeded.
abbrev pub Hook : Type 0 → Type 0
Hook X = Text → X → Bool × X

-- The loop over a list of hooks, up to the first that fails.
unfoldable pub run_hooks : {X : Type 0} → List (Hook X) → Text → X → Result AuthError (Unit {0}) × X
run_hooks [] id x = (ok tt, x)
run_hooks (h ∷ hs) id x =
    let (done, x') = h id x in
    elim done [ true ↦ run_hooks hs id x' | false ↦ (err AuthError.hook, x') ]

unfoldable pub create_with_verification :
    {X : Type 0}
    → User
    → LifecycleToken
    → EmailOutboxMessage
    → List (Hook X)
    → Repository
    → X
    → Result AuthError (Unit {0}) × Repository × X
create_with_verification u token email hooks r x =
    elim (lookup (normalize_email u.email) r.by_email) [
      | some _ ↦ (err AuthError.email_exists, r, x)
      | none ↦
          let (out, x') = run_hooks hooks u.id x in
          (
            out,
            record (store_user u r) {
              email_tokens = r.email_tokens ++ (record { token = token; consumed_at = none } ∷ []);
              email_outbox = r.email_outbox ++ (email ∷ []);
            },
            x',
          )
    ]

unfoldable pub create_provider_user :
    {X : Type 0}
    → User
    → AuthIdentity
    → List (Hook X)
    → Repository
    → X
    → Result AuthError (Unit {0}) × Repository × X
create_provider_user u identity hooks r x = elim (lookup (normalize_email u.email) r.by_email) [
  | some _ ↦ (err AuthError.email_exists, r, x)
  | none ↦ elim (lookup (identity_key identity.provider identity.provider_subject) r.identities) [
    | some _ ↦ (err AuthError.email_exists, r, x)
    | none ↦
        let (out, x') = run_hooks hooks u.id x in
        (
          out,
          record (store_user u r) {
            identities =
                insert (identity_key identity.provider identity.provider_subject) identity
                  r.identities;
          },
          x',
        )
  ]
]

-- `ListUsers`: the order of a Go map is unspecified; here it is that of the list.
unfoldable pub list_users : Repository → List User
list_users r = map r.heap (values r.by_id)

-- What the methods on one account write.
abbrev pub with_password : Text → User → User
with_password hash u = record u { password_hash = hash; has_password = true }

abbrev pub with_next_version : User → User
with_next_version u = record u { auth_version = u.auth_version + 1 }

abbrev pub with_role : Text → User → User
with_role role u = record u { role = role }

abbrev pub with_suspension : Option ℕ → Text → User → User
with_suspension until reason u = record u {
  suspended_until = until;
  suspension_reason = elim until [ none ↦ [] | some _ ↦ reason ];
}

abbrev pub with_ban : ℕ → Text → User → User
with_ban now reason u = record u { banned_at = some now; ban_reason = reason }

unfoldable pub update_password : Text → Text → Repository → Result AuthError User × Repository
update_password id hash r = update_user (with_password hash) id r

unfoldable pub update_password_and_revoke :
    Text → Text → Repository → Result AuthError User × Repository
update_password_and_revoke id hash r =
    update_user (λ u. with_next_version (with_password hash u)) id r

unfoldable pub increment_auth_version : Text → Repository → Result AuthError User × Repository
increment_auth_version id r = update_user with_next_version id r

unfoldable pub set_role : Text → Text → Repository → Result AuthError User × Repository
set_role id role r = update_user (with_role role) id r

unfoldable pub suspend : Text → Option ℕ → Text → Repository → Result AuthError User × Repository
suspend id until reason r = update_user (with_suspension until reason) id r

unfoldable pub ban : ℕ → Text → Text → Repository → Result AuthError User × Repository
ban now id reason r = update_user (with_ban now reason) id r

unfoldable pub soft_delete : Text → Repository → Result AuthError (Unit {0}) × Repository
soft_delete id r = elim (lookup id r.by_id) [
  | none ↦ (err AuthError.user_not_found, r)
  | some p ↦ (
    ok tt,
    record r {
      heap = write_at r.heap p (with_next_version (r.heap p));
      by_id = erase id r.by_id;
      by_email = erase (normalize_email (r.heap p).email) r.by_email;
    },
  )
]

unfoldable pub filter_memory_tokens : Text → List MemoryToken → List MemoryToken
filter_memory_tokens user tokens = keep_if (λ t. not (text_eq t.token.user_id user)) tokens

unfoldable pub delete_account : Text → Repository → Result AuthError (Unit {0}) × Repository
unfolding filter_memory_tokens
delete_account id r = elim (lookup id r.by_id) [
  | none ↦ (err AuthError.user_not_found, r)
  | some p ↦ (
    ok tt,
    record r {
      by_id = erase id r.by_id;
      by_email = erase (normalize_email (r.heap p).email) r.by_email;
      identities = keep_values (λ i. not (text_eq i.user_id id)) r.identities;
      email_tokens = filter_memory_tokens id r.email_tokens;
      reset_tokens = filter_memory_tokens id r.reset_tokens;
      reauth_tokens = filter_memory_tokens id r.reauth_tokens;
    },
  )
]

unfoldable pub find_identity : Text → Text → Repository → Result AuthError AuthIdentity
find_identity provider subject r = elim (lookup (identity_key provider subject) r.identities) [
  | some i ↦ ok i
  | none ↦ err AuthError.identity_not_found
]

unfoldable pub create_identity :
    AuthIdentity → Repository → Result AuthError (Unit {0}) × Repository
create_identity identity r =
    let key = identity_key identity.provider identity.provider_subject in
    elim (lookup key r.identities) [
      | some _ ↦ (err AuthError.email_exists, r)
      | none ↦ (ok tt, record r { identities = insert key identity r.identities })
    ]
