-- ===== src/TtlCache/Replay.antt =====
-- The cache as the last write of each key.
use finance_app.Base.{
  ℕ, ◌+◌, ◌≡◌, refl, Option, none, some, List, [], ◌∷◌, if◌then◌else◌, ltb, arith,
}
use finance_app.Base.Text.{Text, text_eq}
use finance_app.Base.Assoc.{lookup, lookup-insert, lookup-erase}
use finance_app.TtlCache.{Entry, Cache, new, get, set, invalidate}

pub data Call (T : Type 0) : Type 0 where
  sets : ℕ → Text → T → Call T
  invalidates : Text → Call T

-- What was last written under each key, and when.
abbrev pub Writes : Type 0 → Type 0
Writes T = Text → Option (T × ℕ)

module _ {T : Type 0} where
  unfoldable pub run : List (Call T) → Cache T → Cache T
  run [] c = c
  run (Call.sets now key value ∷ calls) c = run calls (set now key value c)
  run (Call.invalidates key ∷ calls) c = run calls (invalidate key c)

  abbrev pub update : Text → Option (T × ℕ) → Writes T → Writes T
  update key w f k = if text_eq key k then w else f k

  unfoldable pub replay : List (Call T) → Writes T → Writes T
  replay [] f = f
  replay (Call.sets now key value ∷ calls) f = replay calls (update key (some (value, now)) f)
  replay (Call.invalidates key ∷ calls) f = replay calls (update key none f)

  -- What is still shown of a write, up to the time to live after it.
  unfoldable pub shown : ℕ → ℕ → Option (T × ℕ) → Option T
  shown ttl now none = none
  shown ttl now (some (value, at)) = if ltb (at + ttl) now then none else some value

  -- An entry of the cache and the write that it stands for.
  entry_of : ℕ → Option (T × ℕ) → Option (Entry T)
  entry_of ttl none = none
  entry_of ttl (some (value, at)) = some (record { value = value; expires_at = at + ttl })

  run-entries :
      (calls : List (Call T)) (c : Cache T) (f : Writes T)
      → ((k : Text) → lookup k c.entries ≡ entry_of c.ttl (f k))
      → (k : Text) → lookup k (run calls c).entries ≡ entry_of c.ttl (replay calls f k)
  unfolding run replay set invalidate entry_of
  run-entries [] c f h k = h k
  run-entries (Call.sets now key value ∷ calls) c f h k =
      run-entries calls (set now key value c) (update key (some (value, now)) f)
        (λ j. ground (
          arith,
          h j,
          lookup-insert key j (record { value = value; expires_at = now + c.ttl }) c.entries,
        ))
        k
  run-entries (Call.invalidates key ∷ calls) c f h k =
      run-entries calls (invalidate key c) (update key none f)
        (λ j. ground (arith, h j, lookup-erase key j c.entries)) k

  get-entry :
      (c : Cache T) (now ttl : ℕ) (key : Text) (w : Option (T × ℕ))
      → lookup key c.entries ≡ entry_of ttl w
      → get now key c ≡ shown ttl now w
  unfolding get shown entry_of
  get-entry c now ttl key none h = ground arith
  get-entry c now ttl key (some (value, at)) h = ground arith

  -- After any calls on a new cache, a read of a key gives the value of its last write, unless the key
  -- was invalidated after it or the time to live has passed since: the cache refines the function
  -- from keys to last writes.
  pub get-run_refines :
      (ttl now : ℕ) (calls : List (Call T)) (key : Text)
      → get now key (run calls (new ttl)) ≡ shown ttl now (replay calls (λ _. none) key)
  unfolding lookup entry_of
  get-run_refines ttl now calls key =
      get-entry (run calls (new ttl)) now ttl key (replay calls (λ _. none) key)
        (run-entries calls (new ttl) (λ _. none) (λ k. refl) key)
