-- ===== src/Tests/Traces.antt =====
-- The debug trace, where the first of its files does not open.
use mod_security_iis.Prelude.{none, some, List, [], ◌∷◌, length, ◌==◌, if◌then◌else◌}
use mod_security_iis.System.{Bytes}
use mod_security_iis.Text.{codes}
use mod_security_iis.DebugTrace.{TraceEnv}

abbrev traced_env : TraceEnv
traced_env = record {
  variable = some (codes "1");
  fopen = λ t path. if length path == 53 then none else some (length t);
  local_time = λ t. record {
    year = 2026;
    month = 1;
    day = 2;
    hour = 3;
    minute = 4;
    second = 5;
    milliseconds = 6;
  };
}

abbrev texts : List Bytes
texts = codes "OnSendResponse: entry" ∷ codes "OnSendResponse: BREAK" ∷ []
