-- ===== src/BeginRequest/Presented.antt =====
-- What the engine is told of a request before its headers are judged: the connection, the URI, and
-- each header in order, and then that the headers are complete.
use Prim.Native.String.{String}
use mod_security_iis.Prelude.{
  ◌≡◌, refl, inl, inr, Option, none, some, List, [], ◌∷◌, ◌++◌, arith, Option-cases,
}
use mod_security_iis.System.{
  Bytes, Env, World, Trace, KnownHeader, RawValue, UnknownHeader, HttpRequest, ok,
  process_connection, process_uri, add_request_header, process_request_headers,
}
use mod_security_iis.Text.{c_string, codes}
use mod_security_iis.BeginRequest.Headers.{
  request_headers_table, feed_request_header, feed_request_known, feed_request_unknown, seen,
}
use mod_security_iis.BeginRequest.Total.{connected, located}
use mod_security_iis.BeginRequest.{
  Arrival, feed_request, sock_addr_to_ip, sock_addr_to_port, request_uri, verb_to_string,
  version_to_string,
}

-- A known header that the request has.
abbrev pub given : String → Option Bytes → RawValue → List (Bytes × Bytes)
given name none v = []
given name (some s) v = (codes name, seen v) ∷ []

abbrev pub known_given :
    List (KnownHeader × String) → (KnownHeader → RawValue) → List (Bytes × Bytes)
known_given [] headers = []
known_given ((id, name) ∷ table) headers =
    given name (headers id).raw_value (headers id) ++ known_given table headers

abbrev pub unknown_given : List UnknownHeader → List (Bytes × Bytes)
unknown_given [] = []
unknown_given (h ∷ headers) = (seen h.name, seen h.value) ∷ unknown_given headers

-- The headers are told one after the other.
abbrev pub told : List (Bytes × Bytes) → Trace → Trace
told [] t = t
told ((name, value) ∷ headers) t = told headers (add_request_header name value ∷ t)

-- All that is told, the newest first.
abbrev pub presented : Arrival → HttpRequest → Trace → Trace
presented a req t =
    process_request_headers
    ∷ told (known_given request_headers_table req.known_headers ++ unknown_given a.unknown_headers)
        (process_uri (c_string (request_uri a)) (c_string (verb_to_string a.verb))
            (c_string (version_to_string a.version))
          ∷ process_connection (c_string (sock_addr_to_ip a.remote_address))
              (sock_addr_to_port a.remote_address) (c_string (sock_addr_to_ip a.local_address))
              (sock_addr_to_port a.local_address)
          ∷ t)

told-append : (hs ks : List (Bytes × Bytes)) (t : Trace) → told (hs ++ ks) t ≡ told ks (told hs t)
told-append [] ks t = refl
told-append ((name, value) ∷ hs) ks t = told-append hs ks (add_request_header name value ∷ t)

feed_request_header-told :
    (e : Env) (name : String) (v : RawValue) (w : World)
    → let x = feed_request_header e name v.raw_value v.raw_value_length w in
      x.0 ≡ ok tt → x.1 ≡ record w { trace = told (given name v.raw_value v) w.trace }
feed_request_header-told e name v w h = elim (Option-cases v.raw_value) [
  | inl absent ↦ rw absent refl
  | inr (s, present) ↦ ground (arith, present)
]

feed_request_known-told :
    (e : Env) (table : List (KnownHeader × String)) (headers : KnownHeader → RawValue) (w : World)
    → (feed_request_known e table headers w).0 ≡ ok tt
    → (feed_request_known e table headers w).1
      ≡ record w { trace = told (known_given table headers) w.trace }
unfolding feed_request_known
feed_request_known-told e [] headers w h = refl
feed_request_known-told e ((id, name) ∷ table) headers w h =
    let x = feed_request_header e name (headers id).raw_value (headers id).raw_value_length w in
    let now = feed_request_header-told e name (headers id) w in
    let w₁ = record w { trace = told (given name (headers id).raw_value (headers id)) w.trace } in
    let rest = feed_request_known-told e table headers w₁ in
    let split =
      told-append (given name (headers id).raw_value (headers id)) (known_given table headers)
        w.trace in
    ground (arith, now, rest, split)

feed_request_unknown-told :
    (e : Env) (headers : List UnknownHeader) (w : World)
    → (feed_request_unknown e headers w).0 ≡ ok tt
    → (feed_request_unknown e headers w).1
      ≡ record w { trace = told (unknown_given headers) w.trace }
unfolding feed_request_unknown
feed_request_unknown-told e [] w h = refl
feed_request_unknown-told e (h ∷ headers) w ran =
    let t = add_request_header (seen h.name) (seen h.value) ∷ w.trace in
    ground (arith, feed_request_unknown-told e headers (record w { trace = t }))

-- When the feeding returns, the engine was told all of it.
pub feed_request-presented :
    (e : Env) (a : Arrival) (req : HttpRequest) (w : World)
    → (feed_request e a req w).0 ≡ ok tt
    → (feed_request e a req w).1.trace ≡ presented a req w.trace
unfolding feed_request
feed_request-presented e a req w h =
    let w₂ = located a (connected a w) in
    let known = known_given request_headers_table req.known_headers in
    let w₃ = record w₂ { trace = told known w₂.trace } in
    ground (
      arith,
      feed_request_known-told e request_headers_table req.known_headers w₂,
      feed_request_unknown-told e a.unknown_headers w₃,
      told-append known (unknown_given a.unknown_headers) w₂.trace,
    )
