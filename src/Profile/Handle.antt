-- ===== src/Profile/Handle.antt =====
-- profile/validation.go: handles. The regular expressions are written out as loops over the code
-- points; `len` and slices count bytes, which are code points here, since only ASCII is left when
-- the source takes them.
use finance_app.Base.{
  ℕ, ◌-◌, ◌+◌, Bool, false, not, ◌&&◌, ◌||◌, List, [], ◌∷◌, ◌++◌, reverse, ltb, leb, ◌==◌,
  if◌then◌else◌, length, take, drop, all_of, any_of,
}
use finance_app.Base.Text.{Text, codes, text_eq, trim_space, to_lower, itoa}
use finance_app.Base.Result.{Result, ok, err}
use finance_app.Errors.{ProfileError}

-- `[a-z0-9_-]`
abbrev pub handle_char : ℕ → Bool
handle_char c = (leb b'a' c && leb c b'z') || (leb b'0' c && leb c b'9') || c == b'_' || c == b'-'

-- `handlePattern`: `^[a-z0-9_-]{3,30}$`
unfoldable pub matches_handle : Text → Bool
matches_handle s = all_of handle_char s && leb 3 (length s) && leb (length s) 30

abbrev pub reserved_handles : List Text
reserved_handles =
    codes "me"
    ∷ codes "admin"
    ∷ codes "api"
    ∷ codes "auth"
    ∷ codes "portfolio"
    ∷ codes "leaderboard"
    ∷ codes "competitions"
    ∷ codes "achievements"
    ∷ codes "profile"
    ∷ codes "profiles"
    ∷ codes "settings"
    ∷ codes "explore"
    ∷ codes "coach"
    ∷ codes "ai"
    ∷ []

unfoldable pub is_reserved : Text → Bool
is_reserved handle = any_of (text_eq handle) reserved_handles

unfoldable pub validate_handle : Text → Result ProfileError (Unit {0})
validate_handle handle =
    if not (text_eq handle (to_lower handle)) || not (matches_handle handle)
    then err (ProfileError.invalid (codes "handle must be 3-30 lower-case URL-safe characters"))
    else if is_reserved handle
    then err (ProfileError.invalid (codes "handle is reserved"))
    else ok tt

-- `invalidHandle.ReplaceAllString(value, by)`: each maximal run of other characters becomes `by`.
unfoldable pub replace_invalid : Text → Bool → Text → Text
replace_invalid by in_run [] = []
replace_invalid by in_run (c ∷ s) =
    let rest = replace_invalid by (not (handle_char c)) s in
    if handle_char c then c ∷ rest else if in_run then rest else by ++ rest

abbrev pub is_separator : ℕ → Bool
is_separator c = c == b'_' || c == b'-'

-- The run of separators that has just been read.
pub data Run : Type 0 where
  idle many : Run
  single : ℕ → Run

abbrev pub extend : Run → ℕ → Run
extend idle c = single c
extend (single _) c = many
extend many c = many

abbrev pub flush : Run → Text
flush idle = []
flush (single c) = c ∷ []
flush many = b'_' ∷ []

-- `repeatedSep.ReplaceAllString(value, "_")`: each run of two separators or more becomes one `_`.
unfoldable pub collapse_separators : Run → Text → Text
collapse_separators run [] = flush run
collapse_separators run (c ∷ s) =
    let rest = collapse_separators (if is_separator c then extend run c else idle) s in
    if is_separator c then rest else flush run ++ (c ∷ rest)

unfoldable pub trim_separators_left : Text → Text
trim_separators_left [] = []
trim_separators_left (c ∷ s) =
    let rest = trim_separators_left s in if is_separator c then rest else c ∷ s

-- `strings.Trim(value, "_-")`
unfoldable pub trim_separators : Text → Text
trim_separators s = reverse (trim_separators_left (reverse (trim_separators_left s)))

unfoldable pub short_identifier : Text → Text
short_identifier value =
    let v = replace_invalid [] false (to_lower value) in
    if ltb 8 (length v) then drop (length v - 8) v else if ltb (length v) 3 then codes "user" else v

-- The part of `HandleCandidate` before its fallback.
unfoldable pub normalized_candidate : Text → Text
normalized_candidate value =
    let v = trim_separators (
      collapse_separators idle (replace_invalid (codes "_") false (to_lower (trim_space value)))) in
    if ltb 24 (length v) then take 24 v else v

unfoldable pub handle_candidate : Text → Text → Text
handle_candidate value fallback =
    let v = normalized_candidate value in
    let w =
      if ltb (length v) 3 || is_reserved v
      then codes "investor_" ++ short_identifier fallback
      else v in
    if ltb 30 (length w) then take 30 w else w

-- A base shorter than the cut would make the source's slice panic; `take` then keeps it whole.
unfoldable pub handle_with_suffix : Text → ℕ → Text
handle_with_suffix base attempt =
    let suffix = codes "_" ++ itoa attempt in
    let b = if ltb 30 (length base + length suffix) then take (30 - length suffix) base else base in
    b ++ suffix
