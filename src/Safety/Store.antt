-- ===== src/Safety/Store.antt =====
-- safety/memory_repository.go. Each method holds the mutex for its whole body, and none of them
-- fails, so a method is a function of the store.
use finance_app.Base.{
  ℕ, Bool, true, not, ◌||◌, List, [], ◌∷◌, ◌++◌, ltb, if◌then◌else◌, keep_if, is_some,
}
use finance_app.Base.Text.{Text, codes, text_eq}
use finance_app.Base.Assoc.{Map, lookup, insert, erase, values, keep_values}
use finance_app.Safety.Defs.{Block, Blocks}

unfoldable pub block_key : Text → Text → Text
block_key a b = a ++ (codes "->" ++ b)

unfoldable pub block : ℕ → Text → Text → Blocks → Blocks
block now blocker blocked r =
    if is_some (lookup (block_key blocker blocked) r)
    then r
    else insert (block_key blocker blocked)
        (record { blocker_user_id = blocker; blocked_user_id = blocked; created_at = now }) r

unfoldable pub unblock : Text → Text → Blocks → Blocks
unblock blocker blocked r = erase (block_key blocker blocked) r

unfoldable pub is_blocked : Text → Text → Blocks → Bool
is_blocked blocker blocked r = is_some (lookup (block_key blocker blocked) r)

unfoldable pub is_blocked_either_direction : Text → Text → Blocks → Bool
is_blocked_either_direction a b r =
    is_some (lookup (block_key a b) r) || is_some (lookup (block_key b a) r)

-- `sort.Slice` by `CreatedAt.After`, newest first.
unfoldable pub insert_newest : Block → List Block → List Block
insert_newest b [] = b ∷ []
insert_newest b (c ∷ cs) =
    let rest = insert_newest b cs in if ltb b.created_at c.created_at then c ∷ rest else b ∷ c ∷ cs

unfoldable pub sort_newest : List Block → List Block
sort_newest [] = []
sort_newest (b ∷ bs) = insert_newest b (sort_newest bs)

unfoldable pub list_blocked : Text → Blocks → List Block
unfolding sort_newest insert_newest
list_blocked blocker r =
    sort_newest (keep_if (λ (b : Block). text_eq b.blocker_user_id blocker) (values r))

-- The set is a map from user ids to `true`.
unfoldable pub pair_ids_from : Text → List Block → Map Bool → Map Bool
pair_ids_from user [] out = out
pair_ids_from user (b ∷ bs) out =
    let out1 = if text_eq b.blocker_user_id user then insert b.blocked_user_id true out else out in
    let out2 =
      if text_eq b.blocked_user_id user then insert b.blocker_user_id true out1 else out1 in
    pair_ids_from user bs out2

unfoldable pub blocked_pair_user_ids : Text → Blocks → Map Bool
unfolding pair_ids_from
blocked_pair_user_ids user r = pair_ids_from user (values r) []

abbrev pub involves : Text → Block → Bool
involves user b = text_eq b.blocker_user_id user || text_eq b.blocked_user_id user

unfoldable pub on_account_deleted : Text → Blocks → Blocks
on_account_deleted user r = keep_values (λ b. not (involves user b)) r
