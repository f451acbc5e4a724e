-- ===== src/BeginRequest/Headers.antt =====
-- The request headers that `OnBeginRequest` (src/ModSecurityIIS.cpp) copies into the transaction.
use Prim.Native.String.{String}
use mod_security_iis.Prelude.{ℕ, Option, none, some, List, [], ◌∷◌}
use mod_security_iis.System.{
  Bytes, KnownHeader, RawValue, UnknownHeader, Env, add_request_header, M, ⊤, ok, call, ◌>>◌,
  cache_control, connection, date, keep_alive, pragma, trailer, transfer_encoding, upgrade, via,
  warning, allow, content_length, content_type, content_encoding, content_language,
  content_location, content_md5, content_range, expires, last_modified, accept, accept_charset,
  accept_encoding, accept_language, authorization, cookie, expect, from_header, host, if_match,
  if_modified_since, if_none_match, if_range, if_unmodified_since, max_forwards,
  proxy_authorization, referer, range, te, translate, user_agent,
}
use mod_security_iis.Text.{a_to_utf8, c_string, codes}

-- The order of the `_TRANSHEADER` lines.
abbrev pub request_headers_table : List (KnownHeader × String)
request_headers_table =
    (cache_control, "Cache-Control")
    ∷ (connection, "Connection")
    ∷ (date, "Date")
    ∷ (keep_alive, "Keep-Alive")
    ∷ (pragma, "Pragma")
    ∷ (trailer, "Trailer")
    ∷ (transfer_encoding, "Transfer-Encoding")
    ∷ (upgrade, "Upgrade")
    ∷ (via, "Via")
    ∷ (warning, "Warning")
    ∷ (allow, "Allow")
    ∷ (content_length, "Content-Length")
    ∷ (content_type, "Content-Type")
    ∷ (content_encoding, "Content-Encoding")
    ∷ (content_language, "Content-Language")
    ∷ (content_location, "Content-Location")
    ∷ (content_md5, "Content-Md5")
    ∷ (content_range, "Content-Range")
    ∷ (expires, "Expires")
    ∷ (last_modified, "Last-Modified")
    ∷ (accept, "Accept")
    ∷ (accept_charset, "Accept-Charset")
    ∷ (accept_encoding, "Accept-Encoding")
    ∷ (accept_language, "Accept-Language")
    ∷ (authorization, "Authorization")
    ∷ (cookie, "Cookie")
    ∷ (expect, "Expect")
    ∷ (from_header, "From")
    ∷ (host, "Host")
    ∷ (if_match, "If-Match")
    ∷ (if_modified_since, "If-Modified-Since")
    ∷ (if_none_match, "If-None-Match")
    ∷ (if_range, "If-Range")
    ∷ (if_unmodified_since, "If-Unmodified-Since")
    ∷ (max_forwards, "Max-Forwards")
    ∷ (proxy_authorization, "Proxy-Authorization")
    ∷ (referer, "Referer")
    ∷ (range, "Range")
    ∷ (te, "TE")
    ∷ (translate, "Translate")
    ∷ (user_agent, "User-Agent")
    ∷ []

-- One known header, unless its pointer is null.
abbrev pub feed_request_header : Env → String → Option Bytes → ℕ → M ⊤
feed_request_header e name none n w = (ok tt, w)
feed_request_header e name (some s) n w =
    call e (add_request_header (codes name) (c_string (a_to_utf8 (some s) n))) w

unfoldable pub feed_request_known :
    Env → List (KnownHeader × String) → (KnownHeader → RawValue) → M ⊤
feed_request_known e [] headers w = (ok tt, w)
feed_request_known e ((id, name) ∷ table) headers w =
    (do
      feed_request_header e name (headers id).raw_value (headers id).raw_value_length
      feed_request_known e table headers)
      w

-- What the engine sees of a raw name or value.
abbrev pub seen : RawValue → Bytes
seen v = c_string (a_to_utf8 v.raw_value v.raw_value_length)

unfoldable pub feed_request_unknown : Env → List UnknownHeader → M ⊤
feed_request_unknown e [] w = (ok tt, w)
feed_request_unknown e (h ∷ headers) w =
    (do call e (add_request_header (seen h.name) (seen h.value)); feed_request_unknown e headers) w
