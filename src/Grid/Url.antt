-- ===== src/Grid/Url.antt =====
-- The link behind a cell of the variant `url`: getUrlHref of packages/webui/lib/data-grid.ts.
pub mod Safe
mod Tests
use mizumi.Prelude.{ℕ, ◌+◌, Bool, true, false, ◌&&◌, ◌||◌, [], ◌++◌, map, leb, if◌then◌else◌}
use mizumi.Text.{Text, codes, is_empty, starts_with}
use mizumi.Text.Trim.{trim}

-- The flag `i` of a regular expression, which without `u` joins ASCII letters with ASCII letters only.
abbrev fold_case : ℕ → ℕ
fold_case c = if leb b'A' c && leb c b'Z' then c + 32 else c

-- `/^(javascript|data|vbscript|file):/i.test(s)`
unfoldable pub is_dangerous : Text → Bool
unfolding starts_with
is_dangerous s =
    let folded = map fold_case s in
    starts_with folded (codes "javascript:")
    || starts_with folded (codes "data:")
    || starts_with folded (codes "vbscript:")
    || starts_with folded (codes "file:")

abbrev http : Text
http = codes "http://"

abbrev https : Text
https = codes "https://"

abbrev pub is_web : Text → Bool
is_web s = starts_with s http || starts_with s https

abbrev href_of_trimmed : Text → Text
href_of_trimmed t = if is_dangerous t then [] else if is_web t then t else http ++ t

unfoldable pub get_url_href : Text → Text
unfolding trim is_dangerous starts_with
get_url_href url = if is_empty url || is_empty (trim url) then [] else href_of_trimmed (trim url)
