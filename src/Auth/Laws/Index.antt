-- ===== src/Auth/Laws/Index.antt =====
-- The two indexes of the stored users, by id and by address, show the same users.
use finance_app.Base.{
  ℕ, ◌≡◌, refl, ap, ◌∙◌, false, none, some, ◌==◌, ==_iff, arith, Option-cases, Bool-cases, inl, inr,
}
use finance_app.Base.Text.{Text, text_eq, text_eq_iff}
use finance_app.Base.Assoc.{lookup, erase, lookup-insert, lookup-erase}
use finance_app.Auth.Defs.{User}
use finance_app.Auth.Repository.Defs.{Repository, write_at, update_user, normalize_email}
use finance_app.Auth.Repository.Accounts.{store_user, stored_user}
use finance_app.Auth.Laws.Later.{IsBounded}

-- Who stands under an id has that id, and stands under its address too; and the other way round.
pub record IsIndexed (r : Repository) : Type 0 where
  pub bounded : IsBounded r
  pub ids :
      (id : Text) (p : ℕ)
      → lookup id r.by_id ≡ some p
      → ((r.heap p).id ≡ id) × (lookup (normalize_email (r.heap p).email) r.by_email ≡ some p)
  pub emails :
      (key : Text) (p : ℕ)
      → lookup key r.by_email ≡ some p
      → (normalize_email (r.heap p).email ≡ key) × (lookup (r.heap p).id r.by_id ≡ some p)

-- What writes neither the indexes nor an id or address keeps them in step.
pub same-IsIndexed :
    (r r' : Repository)
    → r'.next ≡ r.next
    → r'.by_id ≡ r.by_id
    → r'.by_email ≡ r.by_email
    → ((p : ℕ) → (r'.heap p).id ≡ (r.heap p).id)
    → ((p : ℕ) → (r'.heap p).email ≡ (r.heap p).email)
    → IsIndexed r
    → IsIndexed r'
same-IsIndexed r r' n i e ids emails x = record {
  bounded = λ id p h. ground (arith, x.bounded id p);
  ids = λ id p h. ground (arith, x.ids id p, ids p, ap normalize_email (emails p));
  emails = λ k p h. ground (arith, x.emails k p, ids p, ap normalize_email (emails p));
}

pub write_at-id :
    (heap : ℕ → User) (p q : ℕ) (u : User)
    → u.id ≡ (heap p).id
    → (write_at heap p u q).id ≡ (heap q).id
write_at-id heap p q u h = elim (Bool-cases (q == p)) [
  | inl e ↦ rw e (h ∙ ap (λ i. (heap i).id) (ground (arith, ==_iff q p)))
  | inr e ↦ rw e refl
]

pub write_at-email :
    (heap : ℕ → User) (p q : ℕ) (u : User)
    → u.email ≡ (heap p).email
    → (write_at heap p u q).email ≡ (heap q).email
write_at-email heap p q u h = elim (Bool-cases (q == p)) [
  | inl e ↦ rw e (h ∙ ap (λ i. (heap i).email) (ground (arith, ==_iff q p)))
  | inr e ↦ rw e refl
]

-- One write to a stored user that keeps its id and address.
pub write-IsIndexed :
    (r r' : Repository) (p : ℕ) (u : User)
    → r'.next ≡ r.next
    → r'.by_id ≡ r.by_id
    → r'.by_email ≡ r.by_email
    → r'.heap ≡ write_at r.heap p u
    → u.id ≡ (r.heap p).id
    → u.email ≡ (r.heap p).email
    → IsIndexed r
    → IsIndexed r'
write-IsIndexed r r' p u n i e w id email =
    same-IsIndexed r r' n i e (λ q. ap (λ f. (f q).id) w ∙ write_at-id r.heap p q u id)
      (λ q. ap (λ f. (f q).email) w ∙ write_at-email r.heap p q u email)

pub update_user-IsIndexed :
    (f : User → User)
    → ((u : User) → (f u).id ≡ u.id)
    → ((u : User) → (f u).email ≡ u.email)
    → (id : Text) (r : Repository) → IsIndexed r
    → IsIndexed (update_user f id r).1
update_user-IsIndexed f i e id r x = elim (Option-cases (lookup id r.by_id)) [
  | inl n ↦ rw (n, update_user) x
  | inr (p, n) ↦
      rw (n, update_user)
        (write-IsIndexed r (record r { heap = write_at r.heap p (f (r.heap p)) }) p (f (r.heap p))
          refl refl refl refl (i (r.heap p)) (e (r.heap p)) x)
]

pub store_user-IsIndexed :
    (u : User) (r : Repository)
    → lookup u.id r.by_id ≡ none
    → lookup (normalize_email u.email) r.by_email ≡ none
    → IsIndexed r
    → IsIndexed (store_user u r)
unfolding store_user stored_user
store_user-IsIndexed u r new unused x = record {
  bounded = λ id p h. ground (arith, x.bounded id p, lookup-insert u.id id r.next r.by_id);
  ids = λ id p h. elim (Bool-cases (text_eq u.id id)) [
    | inl same ↦
        let at : p ≡ r.next = ground (arith, lookup-insert u.id id r.next r.by_id) in
        let key = normalize_email u.email in
        ground
          (arith, text_eq_iff u.id id, lookup-insert key key r.next r.by_email, text_eq_iff key key)
    | inr other ↦
        let old : lookup id r.by_id ≡ some p =
          ground (arith, lookup-insert u.id id r.next r.by_id) in
        let below = x.bounded id p old in
        let (i, e) = x.ids id p old in
        let k = normalize_email (r.heap p).email in
        let key = normalize_email u.email in
        ground (arith, text_eq_iff key k, lookup-insert key k r.next r.by_email)
  ];
  emails = λ k p h.
      let key = normalize_email u.email in
      elim (Bool-cases (text_eq key k)) [
        | inl same ↦
            let at : p ≡ r.next = ground (arith, lookup-insert key k r.next r.by_email) in
            ground (
              arith,
              text_eq_iff key k,
              lookup-insert u.id u.id r.next r.by_id,
              text_eq_iff u.id u.id,
            )
        | inr other ↦
            let old : lookup k r.by_email ≡ some p =
              ground (arith, lookup-insert key k r.next r.by_email) in
            let (e, i) = x.emails k p old in
            let id = (r.heap p).id in
            let below = x.bounded id p i in
            ground (arith, text_eq_iff u.id id, lookup-insert u.id id r.next r.by_id)
      ];
}

-- The indexes lose a user under its id and its address.
pub erase-IsIndexed :
    (r r' : Repository) (id : Text) (p : ℕ)
    → lookup id r.by_id ≡ some p
    → r'.next ≡ r.next
    → r'.by_id ≡ erase id r.by_id
    → r'.by_email ≡ erase (normalize_email (r.heap p).email) r.by_email
    → ((q : ℕ) → (r'.heap q).id ≡ (r.heap q).id)
    → ((q : ℕ) → (r'.heap q).email ≡ (r.heap q).email)
    → IsIndexed r
    → IsIndexed r'
erase-IsIndexed r r' id p found n i e ids emails x = record {
  bounded = λ j q h. ground (arith, x.bounded j q, lookup-erase id j r.by_id);
  ids = λ j q h.
      let old : (text_eq id j ≡ false) × (lookup j r.by_id ≡ some q) =
        ground (arith, lookup-erase id j r.by_id) in
      let (j', k) = x.ids j q old.1 in
      let (id', key) = x.ids id p found in
      let gone = normalize_email (r.heap p).email in
      let here = normalize_email (r.heap q).email in
      ground (
        arith,
        ids q,
        ap normalize_email (emails q),
        lookup-erase gone here r.by_email,
        text_eq_iff gone here,
        text_eq_iff id j,
      );
  emails = λ k q h.
      let gone = normalize_email (r.heap p).email in
      let old : (text_eq gone k ≡ false) × (lookup k r.by_email ≡ some q) =
        ground (arith, lookup-erase gone k r.by_email) in
      let (k', j) = x.emails k q old.1 in
      let (id', key) = x.ids id p found in
      let here = (r.heap q).id in
      ground (
        arith,
        ids q,
        ap normalize_email (emails q),
        lookup-erase id here r.by_id,
        text_eq_iff id here,
        text_eq_iff gone k,
      );
}
