-- ===== src/DebugTrace.antt =====
-- The debug trace of src/ModSecurityIIS.cpp: `IisTraceEnabled` and `IisTrace`, which appends a line
-- to the first of three files that opens.
pub mod Laws
use mod_security_iis.Prelude.{
  ℕ, zero, suc, ◌-◌, Bool, true, false, not, ◌&&◌, Option, none, some, List, [], ◌∷◌, ◌++◌, ◌==◌,
  if◌then◌else◌, length, is_empty,
}
use mod_security_iis.System.{Bytes, ok, ⊤, Stateful, pure, gets, when, ◌>>=◌, ◌>>◌}
use mod_security_iis.Text.{codes, to_string}

-- The calls of the C library, the newest first. A FILE is named by its number, `none` is NULL.
pub data FileCall : Type 0 where
  opens : Bytes → Option ℕ → FileCall
  writes : ℕ → Bytes → FileCall
  closes : ℕ → FileCall

-- What GetLocalTime gives.
pub record SystemTime : Type 0 where
  pub year : ℕ
  pub month : ℕ
  pub day : ℕ
  pub hour : ℕ
  pub minute : ℕ
  pub second : ℕ
  pub milliseconds : ℕ

-- MODSEC_IIS_TRACE as getenv gives it, `none` where it is not set, and what the calls so far make
-- of the next fopen and of the clock.
pub record TraceEnv : Type 0 where
  pub variable : Option Bytes
  pub fopen : List FileCall → Bytes → Option ℕ
  pub local_time : List FileCall → SystemTime

-- `enabled` is g_iisTraceEnabled, `none` for -1.
pub record Tracer : Type 0 where
  pub enabled : Option Bool
  pub calls : List FileCall

abbrev pub new_tracer : Tracer
new_tracer = record { enabled = none; calls = [] }

abbrev pub T : Type 0 → Type 0
T = Stateful Tracer

-- Not empty, and not "0".
abbrev pub is_on : Option Bytes → Bool
is_on none = false
is_on (some []) = false
is_on (some (c ∷ s)) = not (c == b'0' && is_empty s)

unfoldable pub iis_trace_enabled : TraceEnv → T Bool
iis_trace_enabled e t = elim t.enabled [
  | none ↦ (ok (is_on e.variable), record t { enabled = some (is_on e.variable) })
  | some b ↦ (ok b, t)
]

abbrev pub k_paths : List Bytes
k_paths =
    codes "C:/inetpub/logs/modsec-audit/modsecurityiis-trace.log"
    ∷ codes "C:/inetpub/logs/modsec-crs-audit/modsecurityiis-trace.log"
    ∷ codes "C:/inetpub/modsec/modsecurityiis-trace.log"
    ∷ []

abbrev pub does : FileCall → T ⊤
does c t = (ok tt, record t { calls = c ∷ t.calls })

abbrev pub try_open : TraceEnv → Bytes → T (Option ℕ)
try_open e path t =
    let f = e.fopen t.calls path in (ok f, record t { calls = opens path f ∷ t.calls })

-- The loop over the paths, until one opens.
unfoldable pub open_first : TraceEnv → List Bytes → T (Option ℕ)
open_first e [] = pure none
open_first e (path ∷ paths) = do
  f ← try_open e path
  elim f [ none ↦ open_first e paths | some n ↦ pure (some n) ]

-- `%0nd`
abbrev pub zeros : ℕ → Bytes
zeros zero = []
zeros (suc n) = b'0' ∷ zeros n

abbrev pub padded : ℕ → ℕ → Bytes
padded width n = zeros (width - length (to_string n)) ++ to_string n

-- "%04d-%02d-%02d %02d:%02d:%02d.%03d "
abbrev pub line_stamp : SystemTime → Bytes
line_stamp st =
    padded 4 st.year
    ++ codes "-"
    ++ padded 2 st.month
    ++ codes "-"
    ++ padded 2 st.day
    ++ codes " "
    ++ padded 2 st.hour
    ++ codes ":"
    ++ padded 2 st.minute
    ++ codes ":"
    ++ padded 2 st.second
    ++ codes "."
    ++ padded 3 st.milliseconds
    ++ codes " "

-- One line; `text` is the formatted message.
unfoldable pub write_line : TraceEnv → Bytes → Option ℕ → T ⊤
write_line e text none = pure tt
write_line e text (some f) = do
  time ← gets (λ t. e.local_time t.calls)
  does (writes f (line_stamp time))
  does (writes f text)
  does (writes f (b'\n' ∷ []))
  does (closes f)

unfoldable pub iis_trace : TraceEnv → Bytes → T ⊤
iis_trace e text = do
  on ← iis_trace_enabled e
  when on (do write_line e text (← open_first e k_paths))
