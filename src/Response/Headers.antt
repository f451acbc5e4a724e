-- ===== src/Response/Headers.antt =====
-- The response headers that `OnSendResponse` (src/ModSecurityIIS.cpp) copies into the transaction.
use Prim.Native.String.{String}
use mod_security_iis.Prelude.{List, [], ◌∷◌, none, some, ℕ, Option}
use mod_security_iis.System.{
  Bytes, KnownHeader, RawValue, UnknownHeader, Env, add_response_header, M, ⊤, ok, call, ◌>>◌,
  cache_control, connection, date, keep_alive, pragma, trailer, transfer_encoding, upgrade, via,
  warning, allow, content_length, content_type, content_encoding, content_language,
  content_location, content_md5, content_range, expires, last_modified, accept_ranges, age, etag,
  location, proxy_authenticate, retry_after, server, set_cookie, vary, www_authenticate,
}
use mod_security_iis.Text.{a_to_utf8, c_string, codes}

-- The order of the `_TRANSHEADER` lines.
abbrev pub response_headers_table : List (KnownHeader × String)
response_headers_table =
    (cache_control, "Cache-Control")
    ∷ (connection, "Connection")
    ∷ (date, "Date")
    ∷ (keep_alive, "Keep-Alive")
    ∷ (pragma, "Pragma")
    ∷ (trailer, "Trailer")
    ∷ (transfer_encoding, "Transfer-Encoding")
    ∷ (upgrade, "Upgrade")
    ∷ (via, "Via")
    ∷ (warning, "Warning")
    ∷ (allow, "Allow")
    ∷ (content_length, "Content-Length")
    ∷ (content_type, "Content-Type")
    ∷ (content_encoding, "Content-Encoding")
    ∷ (content_language, "Content-Language")
    ∷ (content_location, "Content-Location")
    ∷ (content_md5, "Content-Md5")
    ∷ (content_range, "Content-Range")
    ∷ (expires, "Expires")
    ∷ (last_modified, "Last-Modified")
    ∷ (accept_ranges, "Accept-Ranges")
    ∷ (age, "Age")
    ∷ (etag, "Etag")
    ∷ (location, "Location")
    ∷ (proxy_authenticate, "Proxy-Authenticate")
    ∷ (retry_after, "Retry-After")
    ∷ (server, "Server")
    ∷ (set_cookie, "Set-Cookie")
    ∷ (vary, "Vary")
    ∷ (www_authenticate, "Www-Authenticate")
    ∷ []

-- One known header, unless its pointer is null.
abbrev pub feed_header : Env → String → Option Bytes → ℕ → M ⊤
feed_header e name none n w = (ok tt, w)
feed_header e name (some s) n w =
    call e (add_response_header (codes name) (c_string (a_to_utf8 (some s) n))) w

unfoldable pub feed_known : Env → List (KnownHeader × String) → (KnownHeader → RawValue) → M ⊤
feed_known e [] headers w = (ok tt, w)
feed_known e ((id, name) ∷ table) headers w =
    (do
      feed_header e name (headers id).raw_value (headers id).raw_value_length
      feed_known e table headers)
      w

-- What the engine sees of a raw name or value.
abbrev pub copied : RawValue → Bytes
copied v = c_string (a_to_utf8 v.raw_value v.raw_value_length)

unfoldable pub feed_unknown : Env → List UnknownHeader → M ⊤
feed_unknown e [] w = (ok tt, w)
feed_unknown e (h ∷ headers) w =
    (do call e (add_response_header (copied h.name) (copied h.value)); feed_unknown e headers) w
