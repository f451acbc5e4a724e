-- ===== src/System/Monad.antt =====
-- The per-request state `REQUEST_STORED_CONTEXT` (src/ModSecurityIIS.h), and a monad of calls with
-- C++ exceptions.
use mod_security_iis.Prelude.{ℕ, Bool, true, false, Option, none, [], ◌∷◌, if◌then◌else◌}
use mod_security_iis.System.Calls.{Bytes, Call, Trace, Env}

pub data BodyReadState : Type 0 where
  brs_idle brs_read_pending brs_done : BodyReadState

-- `REQUEST_NOTIFICATION_STATUS`
pub data Status : Type 0 where
  rq_continue rq_pending rq_finish_request : Status

-- `tx` tells whether m_pTx is set, `rules` is the number of the rule set, and `read_buf` the size
-- of m_ReadBuf.
pub record RequestStoredContext : Type 0 where
  pub tx : Bool
  pub rules : Option ℕ
  pub response_headers_fed : Bool
  pub response_body_block : Bool
  pub response_body_evaluated : Bool
  pub protocol : Bytes
  pub body : Bytes
  pub read_buf : ℕ
  pub has_body : Bool
  pub declared_body_length : ℕ
  pub body_read_state : BodyReadState

-- The constructor.
abbrev pub new_context : RequestStoredContext
new_context = record {
  tx = false;
  rules = none;
  response_headers_fed = false;
  response_body_block = false;
  response_body_evaluated = false;
  protocol = [];
  body = [];
  read_buf = 0;
  has_body = false;
  declared_body_length = 0;
  body_read_state = brs_idle;
}

-- `stored` tells whether the IIS context container holds `rsc`, `reads` counts the calls of
-- ReadEntityBody, and the last three are the statics s_capLogged, s_configFailLogged and
-- s_rulesFailLogged.
pub record World : Type 0 where
  pub rsc : RequestStoredContext
  pub trace : Trace
  pub stored : Bool
  pub reads : ℕ
  pub cap_logged : Bool
  pub config_fail_logged : Bool
  pub rules_fail_logged : Bool

-- `stuck` is a loop whose fuel ran out.
pub data Result (A : Type 0) : Type 0 where
  ok : A → Result A
  raised stuck : Result A

-- A computation on a state of type W: what was written stays written when an exception passes.
abbrev pub Stateful : Type 0 → Type 0 → Type 0
Stateful W A = W → Result A × W

abbrev pub M : Type 0 → Type 0
M A = Stateful World A

abbrev pub ⊤ : Type 0
⊤ = Unit

module _ {W A : Type 0} where
  abbrev pub pure : A → Stateful W A
  pure a w = (ok a, w)

  abbrev pub gets : (W → A) → Stateful W A
  gets f w = (ok (f w), w)

  -- `try { m } catch (...) { handler }`
  abbrev pub catch : Stateful W A → Stateful W A → Stateful W A
  catch m handler w =
      let (r, w') = m w in elim r [ ok a ↦ (ok a, w') | raised ↦ handler w' | stuck ↦ (stuck, w') ]

infixl 5 ◌>>=◌ ◌>>◌
abbrev pub ◌>>=◌ : {W A B : Type 0} → Stateful W A → (A → Stateful W B) → Stateful W B
◌>>=◌ m f w =
    let (r, w') = m w in elim r [ ok a ↦ f a w' | raised ↦ (raised, w') | stuck ↦ (stuck, w') ]

abbrev pub ◌>>◌ : {W A B : Type 0} → Stateful W A → Stateful W B → Stateful W B
m >> k = m >>= λ _. k

abbrev pub modify : (RequestStoredContext → RequestStoredContext) → M ⊤
modify f w = (ok tt, record w { rsc = f w.rsc })

-- A call that cannot throw.
abbrev pub note : Call → M ⊤
note c w = (ok tt, record w { trace = c ∷ w.trace })

-- A call that throws when the environment says so.
abbrev pub call : Env → Call → M ⊤
call e c w = (if e.raises (c ∷ w.trace) then raised else ok tt, record w { trace = c ∷ w.trace })

abbrev pub when : {W : Type 0} → Bool → Stateful W ⊤ → Stateful W ⊤
when true m = m
when false m = pure tt

abbrev pub set_body_read_state : BodyReadState → M ⊤
set_body_read_state s = modify (λ r. record r { body_read_state = s })
