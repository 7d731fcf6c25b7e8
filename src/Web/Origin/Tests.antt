-- ===== src/Web/Origin/Tests.antt =====
-- A run of `validateOrigin`.
use cosmic_swingset.Web.Origin.{Url, InvalidUrl, invalid_url, validate_origin}
use cosmic_swingset.Base.{
  if◌then◌else◌, Result, ok, err, ◌==◌, nat_eq, string_eq, list_eq, String, ◌≡◌, refl, false, some,
}

-- A parser that knows two origins.
abbrev parse : String → Result InvalidUrl Url
parse s =
    if s == "https://localhost:8000"
    then ok (record { hostname = "localhost"; protocol = "https:" })
    else if s == "http://example.com"
    then ok (record { hostname = "example.com"; protocol = "http:" })
    else err invalid_url

refused : validate_origin parse (some "http://example.com") ≡ ok false
unfolding validate_origin
refused = refl
