-- ===== src/Grid/Url/Tests.antt =====
-- Links of concrete cells.
use mizumi.Prelude.{◌≡◌, refl, []}
use mizumi.Text.{codes}
use mizumi.Grid.Url.{get_url_href}
use mizumi.Grid.Url.Safe.{IsSafe, get_url_href-IsSafe}

script_test : get_url_href (codes " JavaScript:alert(1)") ≡ []
unfolding get_url_href
script_test = refl

web_test : get_url_href (codes "https://a.b ") ≡ codes "https://a.b"
unfolding get_url_href
web_test = refl

upper_case_test : get_url_href (codes "HTTP://a.b") ≡ codes "http://HTTP://a.b"
unfolding get_url_href
upper_case_test = refl

get_url_href-IsSafe_example :
    IsSafe (codes "http://a.b") × (get_url_href (codes "http://a.b") ≡ codes "http://a.b")
unfolding get_url_href
get_url_href-IsSafe_example = get_url_href-IsSafe (codes " a.b ")
