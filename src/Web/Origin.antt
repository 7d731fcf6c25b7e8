-- ===== src/Web/Origin.antt =====
-- `validateOrigin` of lib/ag-solo/web.js, with the platform's `URL` as a parameter.
mod Tests
use cosmic_swingset.Base.{
  if◌then◌else◌, Bool-cases, Result, ok, ◌>>=◌, Result-cases, ◌==◌, ==_iff, nat_eq, string_eq,
  list_eq, String, ◌≡◌, refl, ◌⊎◌, inl, inr, Bool, true, false, not, ◌&&◌, ◌||◌, Option, none, some,
  arith,
}

-- The parts of a `URL` that are read; `protocol` ends in a colon.
pub record Url : Type 0 where
  pub hostname : String
  pub protocol : String

-- `hostname.match(/^(localhost|127\.0\.0\.1)$/)`
abbrev pub is_localhost : String → Bool
is_localhost hostname = hostname == "localhost" || hostname == "127.0.0.1"

pub data InvalidUrl : Type 0 where
  invalid_url : InvalidUrl

-- `new URL(origin)` throws on what is no URL.
module _ (parse : String → Result InvalidUrl Url) where
  -- an `Origin` header that is missing or empty is no origin
  pub validate_origin : Option String → Result InvalidUrl Bool
  validate_origin none = ok false
  validate_origin (some origin) =
      if origin == ""
      then ok false
      else (parse origin >>= λ url. ok (
          if not (is_localhost url.hostname)
          then false
          else if not (url.protocol == "http:") && not (url.protocol == "https:")
          then false
          else true))

  -- An origin that is accepted parses to a URL of the local host, over http or https. So a request
  -- without an origin, or from another host, is refused.
  validate_origin-accepted :
      (header : Option String)
      → validate_origin header ≡ ok true
      → (origin : String) × (url : Url) × (header ≡ some origin)
        × (parse origin ≡ ok url)
        × ((url.hostname ≡ "localhost") ⊎ (url.hostname ≡ "127.0.0.1"))
        × ((url.protocol ≡ "http:") ⊎ (url.protocol ≡ "https:"))
  unfolding validate_origin
  validate_origin-accepted none h = cc
  validate_origin-accepted (some origin) h = elim (Bool-cases (origin == "")) [
    | inl e ↦ absurd (ground (arith, e, h))
    | inr given ↦ elim (Result-cases (parse origin)) [
      | inl (url, e) ↦
          let local = is_localhost url.hostname in
          (
            origin,
            url,
            refl,
            e,
            ground (
              arith,
              given,
              e,
              h,
              ==_iff url.hostname "localhost",
              ==_iff url.hostname "127.0.0.1",
            ),
            ground (arith, given, e, h, ==_iff url.protocol "http:", ==_iff url.protocol "https:"),
          )
      | inr (x, e) ↦ absurd (ground (arith, given, e, h))
    ]
  ]
