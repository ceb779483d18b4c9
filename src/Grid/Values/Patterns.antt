-- ===== src/Grid/Values/Patterns.antt =====
-- The regular expressions of packages/webui/hooks/use-data-grid.ts: ISO_DATE_REGEX and
-- DOMAIN_REGEX, as tests on the whole text.
use mizumi.Prelude.{
  ℕ, zero, suc, Bool, true, false, not, ◌&&◌, ◌||◌, [], ◌∷◌, Option, none, some, all, leb, ◌==◌,
  if◌then◌else◌,
}
use mizumi.Text.{Text}
use mizumi.Text.Trim.{is_space}

abbrev between : ℕ → ℕ → ℕ → Bool
between lo hi c = leb lo c && leb c hi

abbrev is_digit : ℕ → Bool
is_digit = between b'0' b'9'

abbrev is_letter : ℕ → Bool
is_letter c = between b'a' b'z' c || between b'A' b'Z' c

-- What `.` does not match.
abbrev is_line_end : ℕ → Bool
is_line_end c = c == 10 || c == 13 || c == 8232 || c == 8233

-- The text behind `n` digits.
unfoldable pub after_digits : ℕ → Text → Option Text
after_digits zero s = some s
after_digits (suc n) [] = none
after_digits (suc n) (c ∷ s) = let rest = after_digits n s in if is_digit c then rest else none

abbrev after_char : ℕ → Text → Option Text
after_char d [] = none
after_char d (c ∷ s) = if c == d then some s else none

infixl 20 ◌then_read◌
abbrev ◌then_read◌ : Option Text → (Text → Option Text) → Option Text
none then_read f = none
some s then_read f = f s

-- `\d{4}-\d{2}-\d{2}`
unfoldable pub after_date : Text → Option Text
unfolding after_digits
after_date s =
    after_digits 4 s
    then_read after_char b'-'
    then_read after_digits 2
    then_read after_char b'-'
    then_read after_digits 2

-- `T\d{2}:\d{2}:\d{2}`
unfoldable pub after_time : Text → Option Text
unfolding after_digits
after_time s =
    after_char b'T' s
    then_read after_digits 2
    then_read after_char b':'
    then_read after_digits 2
    then_read after_char b':'
    then_read after_digits 2

abbrev is_rest_of_line : Option Text → Bool
is_rest_of_line none = false
is_rest_of_line (some s) = all (λ c. not (is_line_end c)) s

abbrev is_time_or_end : Option Text → Bool
is_time_or_end none = false
is_time_or_end (some []) = true
is_time_or_end (some (c ∷ s)) = is_rest_of_line (after_time (c ∷ s))

unfoldable pub is_iso_date : Text → Bool
unfolding after_date after_time
is_iso_date s = is_time_or_end (after_date s)

-- `[\w.-]`
abbrev is_host_char : ℕ → Bool
is_host_char c = is_letter c || is_digit c || c == b'_' || c == b'.' || c == b'-'

-- `[a-z]{2,}(\/\S*)?$` behind `n` letters.
unfoldable pub is_top_level : ℕ → Text → Bool
unfolding is_space
is_top_level n [] = leb 2 n
is_top_level n (c ∷ s) =
    let more = is_top_level (suc n) s in
    if is_letter c then more else leb 2 n && c == b'/' && all (λ d. not (is_space d)) s

-- `[\w.-]+\.` and what follows, where `seen` is that a character of the host was read.
unfoldable pub is_domain_from : Bool → Text → Bool
unfolding is_top_level
is_domain_from seen [] = false
is_domain_from seen (c ∷ s) =
    let longer = is_domain_from true s in
    (seen && c == b'.' && is_top_level 0 s) || (is_host_char c && longer)

unfoldable pub is_domain : Text → Bool
unfolding is_domain_from
is_domain s = is_domain_from false s
