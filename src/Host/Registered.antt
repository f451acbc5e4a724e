-- ===== src/Host/Registered.antt =====
-- The event sources while the module is registered.
use mod_security_iis.Prelude.{
  ℕ, ◌∙◌, sym, Bool, true, false, Option, none, some, arith, Bool-cases, inl, inr, if◌then◌else◌,
}
use mod_security_iis.Text.{codes}
use mod_security_iis.System.{Bytes, Result, ok, raised, stuck, pure, catch, ◌>>◌}
use mod_security_iis.Host.{
  HostEnv, Host, error_type, H, own, answers, grants, failed, unless_failed, s_ok, e_unexpected,
  not_enough_memory, report_exception, announce, prioritize, register_notifications,
  register_factory, delete_owned, register_module, allocate_factory, set_request_notifications,
  prioritize_begin_request, prioritize_send_response,
}
use mod_security_iis.Host.Orderly.{Orderly, pure-Orderly, Still-Orderly, Orderly-bind}
use mod_security_iis.Host.Sources.{
  Sound, Still-Sound, write_event_viewer_log-Still, write_event_viewer_log-Sound, announce-Sound,
  announce-opened, announce_fields,
}

announce-Orderly : (e : HostEnv) (h : Host) → Sound h → Orderly true (announce e h) h
announce-Orderly e h v =
    let (log, made) = announce_fields e h in
    record {
      sound = announce-Sound e h v;
      orderly = λ p (i, t).
          (λ q. log ∙ i (sym made ∙ q), λ k o. log ∙ t k (sym (announce-opened e h k v) ∙ o));
    }

unless_failed-Orderly :
    (m k : H ℕ) (h : Host)
    → Orderly true (m h) h
    → ((v : Host) → Sound v → Orderly true (k v) v)
    → Orderly true (unless_failed m k h) h
unless_failed-Orderly m k h o next =
    Orderly-bind true (m h) (λ hr v. if failed hr then (ok hr, v) else k v) h o
      (λ hr s. elim (Bool-cases (failed hr)) [
        | inl bad ↦ rw bad (pure-Orderly true _ _ s)
        | inr good ↦ rw good (next (m h).1 s)
      ])

then_done :
    {A B : Type 0} (m : H A) (b : B) (h : Host)
    → Orderly true (m h) h
    → Orderly true ((m >> pure b) h) h
then_done m b h o = Orderly-bind true (m h) (λ a. pure b) h o (λ a s. pure-Orderly true _ _ s)

prioritize-Orderly : (e : HostEnv) (h : Host) → Sound h → Orderly true (prioritize e h) h
unfolding prioritize
prioritize-Orderly e h v =
    let last : H ℕ = announce e >> pure s_ok in
    unless_failed-Orderly (answers e prioritize_begin_request)
      (unless_failed (answers e prioritize_send_response) last) h
      (Still-Orderly true _ h (ground arith) (ground arith) v)
      (λ g w.
        unless_failed-Orderly (answers e prioritize_send_response) last g
          (Still-Orderly true _ g (ground arith) (ground arith) w)
          (λ u z. then_done (announce e) s_ok u (announce-Orderly e u z)))

register_notifications-Orderly :
    (e : HostEnv) (h : Host) → Sound h → Orderly true (register_notifications e h) h
unfolding register_notifications
register_notifications-Orderly e h v =
    unless_failed-Orderly (answers e set_request_notifications) (own false >> prioritize e) h
      (Still-Orderly true _ h (ground arith) (ground arith) v)
      (λ g w.
        Orderly-bind true (own false g) (λ a. prioritize e) g
          (Still-Orderly true _ g (ground arith) (ground arith) w)
          (λ a z. prioritize-Orderly e (own false g).1 z))

register_factory-Orderly :
    (e : HostEnv) (h : Host) → Sound h → Orderly true (register_factory e h) h
unfolding register_factory
register_factory-Orderly e h v =
    Orderly-bind true (grants e allocate_factory h)
      (λ granted.
        if granted then (own true >> register_notifications e) else pure not_enough_memory)
      h (Still-Orderly true _ h (ground arith) (ground arith) v)
      (λ granted w. rest granted (grants e allocate_factory h).1 w)
  where
    rest :
        (b : Bool) (g : Host)
        → Sound g
        → Orderly true
            ((if b then (own true >> register_notifications e) else pure not_enough_memory) g)
            g
    rest true g w =
        Orderly-bind true (own true g) (λ a. register_notifications e) g
          (Still-Orderly true _ g (ground arith) (ground arith) w)
          (λ a z. register_notifications-Orderly e (own true g).1 z)
    rest false g w = pure-Orderly true _ _ w

report_exception-Orderly :
    (place what : Option Bytes) (h : Host)
    → Sound h
    → Orderly true (report_exception place what h) h
unfolding report_exception
report_exception-Orderly place what h v =
    Still-Orderly true _ h (write_event_viewer_log-Still (some _) error_type h)
      (λ safe. (write_event_viewer_log-Sound (some _) error_type h v).safe) v

caught-Orderly :
    (x : Result ℕ × Host) (k : H ℕ) (h : Host)
    → Orderly true x h
    → ((v : Host) → Sound v → Orderly true (k v) v)
    → Orderly true (catch (λ v. x) k h) h
caught-Orderly (ok r, u) k h o next = o
caught-Orderly (raised, u) k h o next =
    let o' = next u o.sound in
    record { sound = o'.sound; orderly = λ p t. o'.orderly tt (o.orderly tt t) }
caught-Orderly (stuck, u) k h o next = o

delete_owned-Orderly : (h : Host) → Sound h → Orderly true (delete_owned h) h
unfolding delete_owned
delete_owned-Orderly h v = Still-Orderly true _ h (ground arith) (ground arith) v

pub register_module-Orderly :
    (e : HostEnv) (info server : Option ℕ) (h : Host)
    → Sound h
    → Orderly true (register_module e info server h) h
unfolding register_module
register_module-Orderly e none server h v = pure-Orderly true _ h v
register_module-Orderly e (some id) none h v = pure-Orderly true _ h v
register_module-Orderly e (some id) (some server) h v =
    let h₁ = record h { module_context = some id; http_server = some server } in
    let v₁ : Sound h₁ = Still-Sound (ground arith) (λ s. s) v in
    let handler : H ℕ = λ u.
      (report_exception (some (codes "RegisterModule")) (e.what u.trace) >> pure e_unexpected) u in
    let caught =
      caught-Orderly (register_factory e h₁) handler h₁ (register_factory-Orderly e h₁ v₁) (λ u w.
        then_done (report_exception (some (codes "RegisterModule")) (e.what u.trace)) e_unexpected u
          (report_exception-Orderly _ _ u w)) in
    let o =
      Orderly-bind true (catch (register_factory e) handler h₁) (λ hr. delete_owned >> pure hr) h₁
        caught (λ hr w. then_done delete_owned hr _ (delete_owned-Orderly _ w)) in
    record { sound = o.sound; orderly = λ p t. o.orderly p t }
