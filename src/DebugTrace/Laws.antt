-- ===== src/DebugTrace/Laws.antt =====
-- What a sequence of trace calls does to the files.
use mod_security_iis.Prelude.{
  ℕ, ◌≡◌, ◌++◌, ◌⊎◌, Option, none, some, List, [], ◌∷◌, ◌==◌, if◌then◌else◌,
}
use mod_security_iis.System.{Bytes}
use mod_security_iis.DebugTrace.{
  SystemTime, line_stamp, FileCall, opens, writes, closes, TraceEnv, Tracer, is_on, k_paths,
  iis_trace,
}

abbrev after_open : Option ℕ → Option (Option ℕ) → Option (Option ℕ)
after_open f (some none) = some f
after_open f _ = none

abbrev after_write : ℕ → Option (Option ℕ) → Option (Option ℕ)
after_write f (some (some g)) = if f == g then some (some g) else none
after_write f _ = none

abbrev after_close : ℕ → Option (Option ℕ) → Option (Option ℕ)
after_close f (some (some g)) = if f == g then some none else none
after_close f _ = none

-- The file that is open, where each write and each close was of the open file, and no file was
-- opened while another was open; else nothing.
abbrev pub open_file : List FileCall → Option (Option ℕ)
open_file [] = some none
open_file (opens path f ∷ t) = after_open f (open_file t)
open_file (writes f s ∷ t) = after_write f (open_file t)
open_file (closes f ∷ t) = after_close f (open_file t)

-- IisTrace of each text in turn, the oldest first.
abbrev pub trace_all : TraceEnv → List Bytes → Tracer → Tracer
trace_all e [] t = t
trace_all e (text ∷ texts) t = trace_all e texts (iis_trace e text t).1

-- What was written, the oldest first.
abbrev pub contents : List FileCall → Bytes
contents [] = []
contents (writes f s ∷ t) = contents t ++ s
contents (_ ∷ t) = contents t

-- Each of the files failed to open when it was tried.
abbrev pub AllFail : TraceEnv → List Bytes → Type 0
AllFail e [] = Unit
AllFail e (path ∷ paths) = ((calls : List FileCall) × (e.fopen calls path ≡ none)) × AllFail e paths

-- A line of the trace.
abbrev pub stamped : SystemTime → Bytes → Bytes
stamped st text = line_stamp st ++ (text ++ (b'\n' ∷ []))

-- The texts as lines, in their order, without those for which no file opened.
pub data Logged (e : TraceEnv) : List Bytes → Bytes → Type 0 where
  finished : Logged e [] []
  skipped :
      {text s : Bytes} {texts : List Bytes}
      → AllFail e k_paths
      → Logged e texts s
      → Logged e (text ∷ texts) s
  line :
      {text s : Bytes} {texts : List Bytes} (st : SystemTime)
      → Logged e texts s
      → Logged e (text ∷ texts) (stamped st text ++ s)

-- What one call appends to the files, and why it may append nothing.
abbrev Appends : TraceEnv → Bytes → Tracer → Tracer → Type 0
Appends e text t t' =
    ((contents t'.calls ≡ contents t.calls) × AllFail e k_paths)
    ⊎ ((st : SystemTime) × (contents t'.calls ≡ contents t.calls ++ stamped st text))

-- After calls of IisTrace that saw the environment.
record IsTidy (e : TraceEnv) (t : Tracer) : Type 0 where
  closed : open_file t.calls ≡ some none
  flag : (t.enabled ≡ none) ⊎ (t.enabled ≡ some (is_on e.variable))
