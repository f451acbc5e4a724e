-- ===== src/Settings.antt =====
-- The settings that src/ModSecurityIIS.cpp reads from environment variables.
pub mod Laws
use mod_security_iis.Prelude.{
  ℕ, ◌+◌, ◌*◌, Bool, true, false, not, ◌&&◌, ◌||◌, Option, none, some, ltb, ◌==◌, if◌then◌else◌,
  take,
}
use mod_security_iis.System.{Bytes, Variable, Env}
use mod_security_iis.Text.{byte_at, whole_number}

-- `GetEnvironmentVariableA` found a value that fits in a buffer of `size` bytes.
abbrev pub was_read : Variable → ℕ → Bool
was_read v size = ltb 0 v.n && ltb v.n size

abbrev pub default_inspect_bytes : ℕ
default_inspect_bytes = 1024 * 1024

abbrev pub dword_max : ℕ
dword_max = 0xFFFFFFFF

abbrev pub or_default : Option ℕ → ℕ
or_default none = default_inspect_bytes
or_default (some x) = x

unfoldable pub configured_inspect_bytes : Variable → ℕ
configured_inspect_bytes v =
    if was_read v 32 then or_default (whole_number (take v.n v.buf)) else default_inspect_bytes

-- `GetMaxInspectBodyBytes`, whose cached value never changes.
unfoldable pub max_inspect_body_bytes : Env → ℕ
unfolding configured_inspect_bytes
max_inspect_body_bytes e =
    let v = configured_inspect_bytes e.variables.max_inspect_body_bytes in
    if ltb dword_max v then dword_max else v

-- `ConfigFailClosed`
unfoldable pub config_fail_closed : Env → Bool
config_fail_closed e =
    not (was_read e.variables.fail_closed 8 && byte_at e.variables.fail_closed.buf 0 == b'0')

abbrev pub opts_for_sync : Variable → Bool
opts_for_sync v =
    was_read v 16 && (byte_at v.buf 0 == b'0' || byte_at v.buf 0 == b'f' || byte_at v.buf 0 == b'F')

-- `BodyReadsAsync` with the cached g_bodyAsyncState: 0 is unset, 1 synchronous, 2 asynchronous.
-- Returns the answer and the new cached state.
unfoldable pub body_reads_async_from : ℕ → Env → Bool × ℕ
body_reads_async_from st e =
    let st' = (if opts_for_sync e.variables.body_async then 1 else 2) in
    if st == 0 then (st' == 2, st') else (st == 2, st)

unfoldable pub body_reads_async : Env → Bool
unfolding body_reads_async_from
body_reads_async e = (body_reads_async_from 0 e).0
