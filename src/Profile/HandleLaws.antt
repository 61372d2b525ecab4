-- ===== src/Profile/HandleLaws.antt =====
-- Generated handles pass the validation of profile/validation.go.
use mathlib.Core.List.{reverse-append}
use finance_app.Base.{
  ℕ, ◌-◌, ◌≤◌, ◌≡◌, refl, Bool, true, false, not, ◌||◌, [], ◌∷◌, ◌++◌, reverse, arith, ltb,
  if◌then◌else◌, Bool-cases, inl, inr, length, take, drop, all_of, length-take, length-drop, zero,
  suc,
}
use finance_app.Base.Text.{Text, codes, text_eq, to_lower, trim_space}
use finance_app.Base.Result.{ok}
use finance_app.Profile.Handle.{
  handle_char, matches_handle, is_reserved, validate_handle, replace_invalid, is_separator, Run,
  idle, many, single, extend, flush, collapse_separators, trim_separators_left, trim_separators,
  short_identifier, normalized_candidate, handle_candidate,
}

module _ (p : ℕ → Bool) where
  all_of-append : (s t : Text) → all_of p s ≡ true → all_of p t ≡ true → all_of p (s ++ t) ≡ true
  all_of-append [] t h k = k
  all_of-append (c ∷ s) t h k = ground (arith, all_of-append s t)

  all_of-reverse : (s : Text) → all_of p s ≡ true → all_of p (reverse s) ≡ true
  all_of-reverse [] h = refl
  all_of-reverse (c ∷ s) h =
      rw (reverse-append (c ∷ []) s)
        (all_of-append (reverse s) (c ∷ []) (all_of-reverse s (ground arith)) (ground arith))

  all_of-take : (n : ℕ) (s : Text) → all_of p s ≡ true → all_of p (take n s) ≡ true
  all_of-take zero s h = refl
  all_of-take (suc n) [] h = refl
  all_of-take (suc n) (c ∷ s) h = ground (arith, all_of-take n s)

  all_of-drop : (n : ℕ) (s : Text) → all_of p s ≡ true → all_of p (drop n s) ≡ true
  all_of-drop zero s h = h
  all_of-drop (suc n) [] h = refl
  all_of-drop (suc n) (c ∷ s) h = ground (arith, all_of-drop n s)

IsHandleText : Text → Type 0
IsHandleText s = all_of handle_char s ≡ true

replace_invalid_chars :
    (by : Text) (r : Bool) (s : Text)
    → all_of handle_char by ≡ true
    → all_of handle_char (replace_invalid by r s) ≡ true
unfolding replace_invalid
replace_invalid_chars by r [] h = refl
replace_invalid_chars by r (c ∷ s) h = ground (
  arith,
  replace_invalid_chars by (not (handle_char c)) s h,
  all_of-append handle_char by (replace_invalid by (not (handle_char c)) s),
)

extend_chars :
    (r : Run) (c : ℕ)
    → all_of handle_char (flush r) ≡ true
    → handle_char c ≡ true
    → all_of handle_char (flush (extend r c)) ≡ true
extend_chars idle c h k = ground arith
extend_chars many c h k = refl
extend_chars (single d) c h k = refl

collapse_chars :
    (r : Run) (s : Text)
    → all_of handle_char (flush r) ≡ true
    → all_of handle_char s ≡ true
    → all_of handle_char (collapse_separators r s) ≡ true
unfolding collapse_separators
collapse_chars r [] h k = h
collapse_chars r (c ∷ s) h k = elim (Bool-cases (is_separator c)) [
  | inl e ↦ rw e (collapse_chars (extend r c) s (extend_chars r c h (ground arith)) (ground arith))
  | inr e ↦ rw e (
      all_of-append handle_char (flush r) (c ∷ collapse_separators idle s) h
        (ground (arith, collapse_chars idle s refl)))
]

trim_left_chars :
    (s : Text) → all_of handle_char s ≡ true → all_of handle_char (trim_separators_left s) ≡ true
unfolding trim_separators_left
trim_left_chars [] h = refl
trim_left_chars (c ∷ s) h = ground (arith, trim_left_chars s)

trim_chars :
    (s : Text) → all_of handle_char s ≡ true → all_of handle_char (trim_separators s) ≡ true
unfolding trim_separators
trim_chars s h =
    let front = trim_separators_left s in
    let back = trim_separators_left (reverse front) in
    all_of-reverse handle_char back
      (trim_left_chars (reverse front) (all_of-reverse handle_char front (trim_left_chars s h)))

-- A text of handle characters is its own lower case.
text_eq-to_lower : (s : Text) → all_of handle_char s ≡ true → text_eq s (to_lower s) ≡ true
unfolding to_lower text_eq
text_eq-to_lower [] h = refl
text_eq-to_lower (c ∷ s) h = ground (arith, text_eq-to_lower s)

-- Validation, by its parts.
validate_handle_of_parts :
    (s : Text)
    → all_of handle_char s ≡ true
    → 3 ≤ length s
    → length s ≤ 30
    → is_reserved s ≡ false
    → validate_handle s ≡ ok tt
unfolding validate_handle matches_handle
validate_handle_of_parts s h l u r = ground (arith, text_eq-to_lower s)

investor_not_reserved : (s : Text) → is_reserved (codes "investor_" ++ s) ≡ false
unfolding is_reserved text_eq
investor_not_reserved s = refl

short_identifier_chars : (s : Text) → all_of handle_char (short_identifier s) ≡ true
unfolding short_identifier
short_identifier_chars s = ground (
  arith,
  replace_invalid_chars [] false (to_lower s) refl,
  all_of-drop handle_char (length (replace_invalid [] false (to_lower s)) - 8)
      (replace_invalid [] false (to_lower s)),
)

length-short_identifier : (s : Text) → length (short_identifier s) ≤ 8
unfolding short_identifier
length-short_identifier s = ground (
  arith,
  length-drop (length (replace_invalid [] false (to_lower s)) - 8)
      (replace_invalid [] false (to_lower s)),
)

normalized_candidate_chars : (v : Text) → all_of handle_char (normalized_candidate v) ≡ true
unfolding normalized_candidate
normalized_candidate_chars v =
    let raw = replace_invalid (codes "_") false (to_lower (trim_space v)) in
    let cut = trim_separators (collapse_separators idle raw) in
    let chars : all_of handle_char cut ≡ true = trim_chars (collapse_separators idle raw) (
      collapse_chars idle raw refl
        (replace_invalid_chars (codes "_") false (to_lower (trim_space v)) refl)) in
    ground (arith, chars, all_of-take handle_char 24 cut)

length-normalized_candidate : (v : Text) → length (normalized_candidate v) ≤ 24
unfolding normalized_candidate
length-normalized_candidate v =
    let cut =
      trim_separators
        (collapse_separators idle (replace_invalid (codes "_") false (to_lower (trim_space v)))) in
    ground (arith, length-take 24 cut)

-- The fallback of a candidate is a valid handle, whatever the identifier.
investor_valid : (s : Text) → validate_handle (codes "investor_" ++ short_identifier s) ≡ ok tt
investor_valid s =
    validate_handle_of_parts (codes "investor_" ++ short_identifier s)
      (ground (arith, short_identifier_chars s)) (omega arith)
      (omega (arith, length-short_identifier s)) (investor_not_reserved (short_identifier s))

-- A text within the limit is not cut.
cut_within :
    (w : Text)
    → length w ≤ 30
    → validate_handle w ≡ ok tt
    → validate_handle (if ltb 30 (length w) then take 30 w else w) ≡ ok tt
cut_within w l v = ground arith

-- Every handle that `HandleCandidate` generates, from any two texts, passes `ValidateHandle`.
pub handle_candidate_valid :
    (value fallback : Text) → validate_handle (handle_candidate value fallback) ≡ ok tt
unfolding handle_candidate
handle_candidate_valid value fallback =
    let v = normalized_candidate value in
    elim (Bool-cases (ltb (length v) 3 || is_reserved v)) [
      | inl bad ↦ rw bad (
          cut_within (codes "investor_" ++ short_identifier fallback)
            (omega (arith, length-short_identifier fallback)) (investor_valid fallback))
      | inr good ↦ rw good (
          cut_within v (omega (arith, length-normalized_candidate value)) (
            validate_handle_of_parts v (normalized_candidate_chars value) (ground arith)
              (omega (arith, length-normalized_candidate value)) (ground arith)))
    ]
