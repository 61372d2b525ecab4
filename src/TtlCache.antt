-- ===== src/TtlCache.antt =====
-- backend/internal/ttlcache: a cache whose entries live for a fixed time. The mutex makes each
-- method one step; the time is an argument.
pub mod Replay
mod Tests
use finance_app.Base.{ℕ, ◌+◌, Bool, Option, none, some, List, [], ◌∷◌, if◌then◌else◌, ltb}
use finance_app.Base.Text.{Text}
use finance_app.Base.Assoc.{Map, lookup, insert, erase}

pub record Entry (T : Type 0) : Type 0 where
  pub value : T
  pub expires_at : ℕ

pub record Cache (T : Type 0) : Type 0 where
  pub ttl : ℕ
  pub entries : Map (Entry T)

module _ {T : Type 0} where
  abbrev pub new : ℕ → Cache T
  new ttl = record { ttl = ttl; entries = [] }

  -- `none` for the zero value with `false`.
  unfoldable pub get : ℕ → Text → Cache T → Option T
  get now key c = elim (lookup key c.entries) [
    | none ↦ none
    | some e ↦ if ltb e.expires_at now then none else some e.value
  ]

  unfoldable pub set : ℕ → Text → T → Cache T → Cache T
  set now key value c = record c {
    entries = insert key (record { value = value; expires_at = now + c.ttl }) c.entries;
  }

  unfoldable pub invalidate : Text → Cache T → Cache T
  invalidate key c = record c { entries = erase key c.entries }
