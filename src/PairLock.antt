-- ===== src/PairLock.antt =====
-- backend/internal/pairlock: one mutex for each unordered pair of users. `Lock` first finds or makes
-- the mutex of the pair, under the mutex of the table, and then waits for it: two steps of a thread,
-- between which others may run.
pub mod Exclusion
mod Tests
use finance_app.Base.{
  ℕ, ◌+◌, ◌≡◌, Bool, true, false, Option, none, some, List, [], ◌∷◌, ◌++◌, if◌then◌else◌, ◌==◌,
}
use finance_app.Base.Text.{Text, codes, text_lt}
use finance_app.Base.Assoc.{Map, lookup, insert}

-- `if a > b { a, b = b, a }`
unfoldable pub key : Text → Text → Text
key a b = if text_lt b a then b ++ (codes "|" ++ a) else a ++ (codes "|" ++ b)

-- Where a thread stands: outside, waiting for a mutex, or holding it; with the pair.
pub data Place : Type 0 where
  outside : Place
  waiting inside : Text → Text → ℕ → Place

-- The table of mutexes, the address of the next one, who holds each, and where each thread stands.
pub record System : Type 0 where
  pub locks : Map ℕ
  pub next : ℕ
  pub holder : ℕ → Option ℕ
  pub place : ℕ → Place

abbrev pub start : System
start = record { locks = []; next = 0; holder = λ _. none; place = λ _. Place.outside }

abbrev pub at {ℓ} : {A : Type ℓ} → (ℕ → A) → ℕ → A → ℕ → A
at f i a j = if j == i then a else f j

-- The part of `Lock` under the mutex of the table.
unfoldable pub find_mutex : Text → System → ℕ × System
find_mutex k s = elim (lookup k s.locks) [
  | some m ↦ (m, s)
  | none ↦ (s.next, record s { locks = insert k s.next s.locks; next = s.next + 1 })
]

unfoldable pub ask : ℕ → Text → Text → System → System
ask i a b s =
    let (m, s') = find_mutex (key a b) s in
    record s' { place = at s'.place i (Place.waiting a b m) }

unfoldable pub acquire : ℕ → Text → Text → ℕ → System → System
acquire i a b m s = record s {
  holder = at s.holder m (some i);
  place = at s.place i (Place.inside a b m);
}

unfoldable pub release : ℕ → ℕ → System → System
release i m s = record s { holder = at s.holder m none; place = at s.place i Place.outside }

-- A thread outside asks for a pair; a thread that waits for a free mutex takes it; a thread inside
-- gives it back.
pub data Step (s : System) : System → Type 0 where
  asks : (i : ℕ) (a b : Text) → s.place i ≡ Place.outside → Step s (ask i a b s)
  acquires :
      (i : ℕ) (a b : Text) (m : ℕ)
      → s.place i ≡ Place.waiting a b m
      → s.holder m ≡ none
      → Step s (acquire i a b m s)
  releases : (i : ℕ) (a b : Text) (m : ℕ) → s.place i ≡ Place.inside a b m → Step s (release i m s)

pub data Reach : System → Type 0 where
  begin : Reach start
  later : {s t : System} → Reach s → Step s t → Reach t
