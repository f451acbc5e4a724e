-- ===== src/Host/Registration.antt =====
-- `RegisterModule`: who owns the factory.
use mod_security_iis.Prelude.{
  ℕ, suc, ◌+◌, ◌≡◌, ◌≢◌, ◌≤◌, refl, Bool, true, false, not, Option, none, some, ◌∷◌, arith,
  count_if, Bool-cases, inl, inr,
}
use mod_security_iis.Text.{codes}
use mod_security_iis.System.{Bytes, Result, ok, raised, stuck, pure, ◌>>=◌, ◌>>◌, catch}
use mod_security_iis.Host.{
  HostCall, HostTrace, Category, own, error_type, HostEnv, Host, H, unless_failed, answers,
  prioritize_begin_request, prioritize_send_response, e_unexpected, allocate_factory,
  delete_factory, set_request_notifications, failed, s_ok, register_module, register_factory,
  register_notifications, prioritize, announce, report_exception, write_event_viewer_log,
  delete_owned,
}

abbrev pub is_factory : HostCall → Bool
is_factory (allocate_factory granted) = granted
is_factory _ = false

abbrev pub is_deleted : HostCall → Bool
is_deleted delete_factory = true
is_deleted _ = false

abbrev pub is_handed : HostCall → Bool
is_handed (set_request_notifications hr) = not (failed hr)
is_handed _ = false

-- How many factories were created, how many deleted, and how many IIS accepted.
abbrev pub factories : HostTrace → ℕ
factories = count_if is_factory

abbrev pub deletions : HostTrace → ℕ
deletions = count_if is_deleted

abbrev pub handovers : HostTrace → ℕ
handovers = count_if is_handed

-- How many factories a unique_ptr has.
abbrev pub bit : Bool → ℕ
bit true = 1
bit false = 0

-- Nothing happened to a factory.
pub record Keeps (h : Host) (h' : Host) : Type 0 where
  pub owner : h'.owned ≡ h.owned
  pub created : factories h'.trace ≡ factories h.trace
  pub deleted : deletions h'.trace ≡ deletions h.trace
  pub handed : handovers h'.trace ≡ handovers h.trace

write_event_viewer_log-Keeps :
    (m : Option Bytes) (c : Category) (h : Host)
    → Keeps h (write_event_viewer_log m c h).1 × ((write_event_viewer_log m c h).0 ≡ ok tt)
unfolding write_event_viewer_log
write_event_viewer_log-Keeps none c h = ground arith
write_event_viewer_log-Keeps (some m) c h = ground arith

announce-Keeps : (e : HostEnv) (h : Host) → Keeps h (announce e h).1 × ((announce e h).0 ≡ ok tt)
unfolding announce
announce-Keeps e h = ground arith

Keeps-trans : {h v w : Host} → Keeps h v → Keeps v w → Keeps h w
Keeps-trans a b = ground arith

-- A step that keeps the books and ends, and then another.
unless_failed-Keeps :
    (m k : H ℕ) (h : Host)
    → Keeps h (m h).1 × ((m h).0 ≢ stuck)
    → ((v : Host) → Keeps v (k v).1 × ((k v).0 ≢ stuck))
    → Keeps h (unless_failed m k h).1 × ((unless_failed m k h).0 ≢ stuck)
unless_failed-Keeps m k h first rest = go (m h) first
  where
    go :
        (x : Result ℕ × Host)
        → Keeps h x.1 × (x.0 ≢ stuck)
        → let y = unless_failed (λ v. x) k h in Keeps h y.1 × (y.0 ≢ stuck)
    go (ok hr, v) a = elim (Bool-cases (failed hr)) [
      | inl bad ↦ rw bad (a.0, ground arith)
      | inr good ↦ rw good (Keeps-trans a.0 (rest v).0, (rest v).1)
    ]
    go (raised, v) a = a
    go (stuck, v) a = a

prioritize-Keeps :
    (e : HostEnv) (h : Host) → Keeps h (prioritize e h).1 × ((prioritize e h).0 ≢ stuck)
unfolding prioritize
prioritize-Keeps e h =
    let last : H ℕ = announce e >> pure s_ok in
    unless_failed-Keeps (answers e prioritize_begin_request)
      (unless_failed (answers e prioritize_send_response) last) h (ground arith)
      (λ v.
        unless_failed-Keeps (answers e prioritize_send_response) last v (ground arith)
          (λ u. ground (arith, announce-Keeps e u)))

-- How the try block ends: with an HRESULT or an exception, one factory more or none.
pub record Registers (r : Result ℕ) (h : Host) (h' : Host) : Type 0 where
  pub ends : r ≢ stuck
  pub deleted : deletions h'.trace ≡ deletions h.trace
  pub books :
      factories h'.trace + handovers h.trace ≡ factories h.trace + handovers h'.trace + bit h'.owned
  pub once : factories h'.trace ≤ suc (factories h.trace)
  pub success : r ≡ ok s_ok → handovers h'.trace ≡ suc (handovers h.trace)

-- SetRequestNotifications hands the factory over when it succeeds.
pub record Offers (x : Result ℕ × Host) (h : Host) : Type 0 where
  pub ends : x.0 ≢ stuck
  pub owner : x.1.owned ≡ h.owned
  pub created : factories x.1.trace ≡ factories h.trace
  pub deleted : deletions x.1.trace ≡ deletions h.trace
  pub accepted :
      (hr : ℕ) → x.0 ≡ ok hr → handovers x.1.trace + bit (failed hr) ≡ suc (handovers h.trace)
  pub threw : x.0 ≡ raised → handovers x.1.trace ≡ handovers h.trace

set_request_notifications-Offers :
    (e : HostEnv) (h : Host) → Offers (answers e set_request_notifications h) h
set_request_notifications-Offers e h = ground arith

-- The handover of an owned factory, by the answer.
pub record Hands (y : Result ℕ × Host) (h : Host) : Type 0 where
  pub ends : y.0 ≢ stuck
  pub created : factories y.1.trace ≡ factories h.trace
  pub deleted : deletions y.1.trace ≡ deletions h.trace
  pub handed : handovers y.1.trace + bit y.1.owned ≡ suc (handovers h.trace)
  pub success : y.0 ≡ ok s_ok → y.1.owned ≡ false

offered-Hands :
    (e : HostEnv) (x : Result ℕ × Host) (h : Host)
    → h.owned ≡ true
    → Offers x h
    → Hands (unless_failed (λ v. x) (own false >> prioritize e) h) h
offered-Hands e (ok hr, v) h mine a = elim (Bool-cases (failed hr)) [
  | inl bad ↦ let accepted = a.accepted hr refl in rw bad (ground (arith, a, bad, accepted))
  | inr good ↦
      let accepted = a.accepted hr refl in
      rw good (ground (arith, a, good, accepted, prioritize-Keeps e (record v { owned = false })))
]
offered-Hands e (raised, v) h mine a = ground (arith, a, a.threw refl)
offered-Hands e (stuck, v) h mine a = absurd (a.ends refl)

register_notifications-Hands :
    (e : HostEnv) (h : Host) → h.owned ≡ true → Hands (register_notifications e h) h
unfolding register_notifications
register_notifications-Hands e h mine =
    offered-Hands e (answers e set_request_notifications h) h mine
      (set_request_notifications-Offers e h)

register_factory-Registers :
    (e : HostEnv) (h : Host)
    → h.owned ≡ false
    → Registers (register_factory e h).0 h (register_factory e h).1
unfolding register_factory
register_factory-Registers e h free =
    let t = allocate_factory true ∷ h.trace in
    ground (arith, register_notifications-Hands e (record h { trace = t; owned = true }) refl)

-- What becomes of the factory of a call.
pub record Owns (r : Result ℕ) (h : Host) (h' : Host) : Type 0 where
  pub ends : (r ≢ raised) × (r ≢ stuck)
  pub released : h'.owned ≡ false
  pub books :
      factories h'.trace + (deletions h.trace + handovers h.trace)
      ≡ factories h.trace + (deletions h'.trace + handovers h'.trace)
  pub once : factories h'.trace ≤ suc (factories h.trace)
  pub success : r ≡ ok s_ok → handovers h'.trace ≡ suc (handovers h.trace)

report_exception-Keeps :
    (place what : Option Bytes) (h : Host)
    → Keeps h (report_exception place what h).1 × ((report_exception place what h).0 ≡ ok tt)
unfolding report_exception
report_exception-Keeps place what h = write_event_viewer_log-Keeps (some _) error_type h

-- The catch block leaves the books alone.
caught-Registers :
    (e : HostEnv) (x : Result ℕ × Host) (h : Host)
    → Registers x.0 h x.1
    → let y =
        catch
          (λ (v : Host). x)
          (λ v.
            (report_exception (some (codes "RegisterModule")) (e.what v.trace) >> pure e_unexpected)
              v)
          h in
      Registers y.0 h y.1 × (y.0 ≢ raised)
caught-Registers e (ok hr, v) h a = (a, λ p. cc)
caught-Registers e (raised, v) h a =
    ground (arith, a, report_exception-Keeps (some (codes "RegisterModule")) (e.what v.trace) v)
caught-Registers e (stuck, v) h a = absurd (a.ends refl)

-- The unique_ptr deletes what was not handed over.
returned-Owns :
    (y : Result ℕ × Host) (h : Host)
    → Registers y.0 h y.1 × (y.0 ≢ raised)
    → let z = ((λ (v : Host). y) >>= λ hr. delete_owned >> pure hr) h in Owns z.0 h z.1
unfolding delete_owned
returned-Owns (ok hr, v) h a = ground (arith, a.0, a.1)
returned-Owns (raised, v) h a = absurd (a.1 refl)
returned-Owns (stuck, v) h a = absurd (a.0.ends refl)

-- Every call of RegisterModule, whose unique_ptr is empty at first, returns an HRESULT: no
-- exception leaves it. The factory that it creates, if it creates one, is either deleted by the
-- time it returns or accepted by IIS, never both and never neither; it is accepted whenever S_OK
-- is returned.
pub register_module-Owns :
    (e : HostEnv) (info server : Option ℕ) (h : Host)
    → h.owned ≡ false
    → Owns (register_module e info server h).0 h (register_module e info server h).1
unfolding register_module
register_module-Owns e (some id) (some server) h free =
    let h₁ = record h { module_context = some id; http_server = some server } in
    let caught =
      caught-Registers e (register_factory e h₁) h₁ (register_factory-Registers e h₁ free) in
    let o = returned-Owns _ h₁ caught in
    record {
      ends = o.ends;
      released = o.released;
      books = o.books;
      once = o.once;
      success = o.success;
    }
register_module-Owns e none server h free = ground arith
register_module-Owns e (some id) none h free = ground arith
