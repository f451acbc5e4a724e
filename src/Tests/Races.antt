-- ===== src/Tests/Races.antt =====
-- Threads that race: a completion that arrives before the thread that issued the read has left,
-- and calls of GetConfig that all found the container empty.
use mathlib.Core.List.{Memᴰ}
use mod_security_iis.ModuleConfig.{
  Metadata, holds, section, taken, get_config, new_config, store_config, initialize, read_section,
  read_rest, get_boolean_property_value, get_string_property_value,
}
use mod_security_iis.Text.{c_string}
use mod_security_iis.Tests.Begins.{metadata, site_section, quiet_site}
use mod_security_iis.Prelude.{some, ℕ, ◌≡◌, refl, false, none}
use mod_security_iis.System.{rq_continue, ok}
use mod_security_iis.Text.{whole_number}
use mod_security_iis.Settings.{max_inspect_body_bytes, configured_inspect_bytes}
use mod_security_iis.Intervention.{apply_intervention}
use mod_security_iis.FinishBody.{restore_body, feed_body, restore_and_feed, finish_body_read}
use mod_security_iis.Body.{
  end_body, log_cap, append_chunk, judge_chunk, consume_body_chunk, pump_loop, pump_fuel,
}
use mod_security_iis.Body.Threads.{
  Machine, Reach, here, later, pick, complete, foreign, enter, publish, pend, inline, leave, reset,
  ask_more, end, claim, ignore,
}
use mod_security_iis.Body.Threads.Rounds.{Tracked}
use mod_security_iis.Body.Threads.Safety.{Reach-exclusive, Reach-pump_loop}
use mod_security_iis.Body.Threads.Liveness.{Settles, Reach-Settles}
use mod_security_iis.ModuleConfig.Threads.Agreement.{Reach-one_config}
use mod_security_iis.ModuleConfig.Threads
use mod_security_iis.Tests.{calm_env, opened}

-- The first read pends; its completion is claimed on thread 1, while thread 0 has not left.
unfoldable race : (m : Machine) × Reach calm_env opened m
unfolding max_inspect_body_bytes configured_inspect_bytes whole_number consume_body_chunk
    append_chunk judge_chunk
race = (
  _,
  later
      (later
        (later (later (later here (pick 0 (enter refl))) (pick 0 publish)) (pick 0 (pend refl)))
        (complete 1 refl refl))
      (pick 1 (claim refl)),
)

abbrev second : ℕ
second = 1

opened-Tracked : Tracked opened
opened-Tracked = record { idle = refl; stored = refl; tx = refl }

Reach-exclusive_example : (second ≡ second) × (race.0.shared.outstanding ≡ none)
unfolding race
Reach-exclusive_example = Reach-exclusive (λ t. refl) opened-Tracked second second race.1 tt tt

Reach-Settles_example : Settles calm_env race.0
Reach-Settles_example = Reach-Settles (λ t. refl) opened-Tracked race.1

-- The second read is answered inline, on thread 1; the last completion comes to thread 0 as soon as
-- it has left, and a foreign one comes after the end.
unfoldable raced : (m : Machine) × Reach calm_env opened m
unfolding race max_inspect_body_bytes configured_inspect_bytes whole_number consume_body_chunk
    append_chunk judge_chunk end_body log_cap finish_body_read restore_and_feed restore_body
    feed_body apply_intervention
raced = (
  _,
  later
      (later
        (later
          (later
            (later
              (later
                (later
                  (later
                    (later
                      (later
                        (later
                          (later
                            (later
                              (later (later race.1 (pick 1 (ask_more refl))) (pick 1 (enter refl)))
                              (pick 1 publish))
                            (pick 1 (inline refl)))
                          (pick 1 reset))
                        (pick 1 (ask_more refl)))
                      (pick 1 publish))
                    (pick 0 leave))
                  (pick 1 (pend refl)))
                (complete 0 refl refl))
              (pick 0 (claim refl)))
            (pick 1 leave))
          (pick 0 (end refl)))
        (foreign 1 (calm_env.read 0).chunk (ok rq_continue) refl refl))
      (pick 1 (ignore refl)),
)

Reach-pump_loop_example :
    pump_loop false (pump_fuel calm_env) calm_env opened ≡ (ok rq_continue, raced.0.shared.world)
unfolding raced race
Reach-pump_loop_example = Reach-pump_loop (λ t. refl) opened-Tracked (ok rq_continue) raced.1 refl

-- The section that another call reads is switched off.
abbrev other_metadata : Metadata
other_metadata = record metadata {
  admin = some (section (record site_section { enabled = holds 0 }));
  set_module_context = taken quiet_site;
}

-- Two calls find the container empty, and the first to store its configuration wins; a third finds it.
unfoldable three_calls : (k : Threads.Container) × Threads.Reach k
unfolding get_config new_config store_config initialize read_section read_rest
    get_boolean_property_value get_string_property_value c_string
three_calls = (
  _,
  Threads.later
      (Threads.later
        (Threads.later Threads.start (Threads.serve none metadata (Memᴰ.head refl) Threads.stores))
        (Threads.serve none other_metadata (Memᴰ.tail (Memᴰ.head refl)) Threads.assigned))
      (Threads.serve (some quiet_site) other_metadata (Memᴰ.head refl) Threads.assigned),
)

Reach-one_config_example :
    (quiet_site ≡ quiet_site)
    × (three_calls.0.held ≡ some quiet_site)
    × Threads.WasRead three_calls.0 quiet_site
unfolding three_calls
Reach-one_config_example =
    Reach-one_config quiet_site quiet_site three_calls.1 (Memᴰ.head refl)
      (Memᴰ.tail (Memᴰ.head refl))
