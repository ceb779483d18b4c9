-- ===== src/Grid/Url/Safe.antt =====
-- Where the link of a cell leads.
use mizumi.Prelude.{
  ◌≡◌, refl, sym, ap, subst, ◌∙◌, ◌⊎◌, inl, inr, true, false, ◌||◌, [], ◌∷◌, ◌++◌, arith, if_cases,
  if◌then◌else◌,
}
use mizumi.Text.{Text, is_empty, starts_with}
use mizumi.Text.Trim.{is_space, trim, trim_start, trim_end}
use mizumi.Text.Trimmed.{trim-again, trim_end-again}
use mizumi.Grid.Url.{is_dangerous, http, is_web, href_of_trimmed, get_url_href}

-- A link that a browser opens over HTTP, or none.
abbrev pub IsSafe : Text → Type 0
IsSafe s = (s ≡ []) ⊎ ((is_web s ≡ true) × (is_dangerous s ≡ false))

-- A trimmed text that is a link stays what it is.
abbrev IsLink : Text → Type 0
IsLink s = IsSafe s × (get_url_href s ≡ s)

web-IsSafe : (s : Text) → is_web s ≡ true → is_dangerous s ≡ false
unfolding is_dangerous starts_with
web-IsSafe [] h = refl
web-IsSafe (c ∷ s) h = ap (λ c. is_dangerous (c ∷ s)) (first h)
  where
    first : is_web (c ∷ s) ≡ true → c ≡ b'h'
    first h = ground arith

web-IsLink : (s : Text) → trim s ≡ s → is_web s ≡ true → IsLink s
unfolding get_url_href
web-IsLink [] t w = (inl refl, refl)
web-IsLink (c ∷ s) t w = (inr (w, web-IsSafe (c ∷ s) w), rw (t, web-IsSafe (c ∷ s) w, w) refl)

trim_end-trimmed : (t : Text) → trim t ≡ t → trim_end t ≡ t
unfolding trim
trim_end-trimmed t h = ap trim_end (sym h) ∙ trim_end-again (trim_start t) ∙ h

trim-http : (t : Text) → trim_end t ≡ t → is_empty t ≡ false → trim (http ++ t) ≡ http ++ t
unfolding trim trim_start trim_end is_space
trim-http [] h ne = cc
trim-http (c ∷ s) h ne = rw h refl

http-is_web : (t : Text) → is_web (http ++ t) ≡ true
unfolding starts_with
http-is_web t = refl

nil-IsLink : IsLink []
unfolding get_url_href
nil-IsLink = (inl refl, refl)

href_of_trimmed-IsLink : (t : Text) → trim t ≡ t → is_empty t ≡ false → IsLink (href_of_trimmed t)
href_of_trimmed-IsLink t again ne =
    if_cases IsLink (is_dangerous t) (λ _. nil-IsLink)
      (λ _.
        if_cases IsLink (is_web t) (web-IsLink t again)
          (λ _. web-IsLink (http ++ t) (trim-http t (trim_end-trimmed t again) ne) (http-is_web t)))

abbrev href : Text → Text
href url = if is_empty url || is_empty (trim url) then [] else href_of_trimmed (trim url)

href-IsLink : (url : Text) → IsLink (href url)
href-IsLink url =
    if_cases IsLink (is_empty url || is_empty (trim url)) (λ _. nil-IsLink)
      (λ e. href_of_trimmed-IsLink (trim url) (trim-again url) (ground (arith, e)))

get_url_href_lem : (url : Text) → get_url_href url ≡ href url
unfolding get_url_href
get_url_href_lem url = refl

-- The link of a cell is none or begins with http:// or https://, so that no text of a cell makes
-- a link that runs a script, and the link of a link is the link itself.
pub get_url_href-IsSafe :
    (url : Text) → IsSafe (get_url_href url) × (get_url_href (get_url_href url) ≡ get_url_href url)
get_url_href-IsSafe url = subst IsLink (sym (get_url_href_lem url)) (href-IsLink url)
