-- ===== src/Tests/Processes.antt =====
-- A worker process with two requests for one site, whose file changes between them.
use mathlib.Core.List.{Memᴰ}
use mod_security_iis.Prelude.{refl, none, some, []}
use mod_security_iis.Text.{c_string}
use mod_security_iis.ModuleConfig.{
  get_config, new_config, store_config, initialize, read_section, read_rest,
  get_boolean_property_value, get_string_property_value,
}
use mod_security_iis.ModuleConfig.Threads as Configs
use mod_security_iis.RulesCache.{
  get_rules, call_rules, ends, fast_path, store, find, same_path, loaded,
}
use mod_security_iis.BeginRequest.{w_to_utf8}
use mod_security_iis.Site.Process.{
  met_by, Begun, Process, Files, configure, begin, Reach, start, later,
}
use mod_security_iis.Tests.{opened}
use mod_security_iis.Tests.Begins.{arrival, sync_env, metadata, quiet_site}

abbrev files : Files
files = record {
  system = record {
    wide_length = λ file. 1;
    last_write_time = λ file. some (record { low_date_time = 1; high_date_time = 0 });
  };
  load = λ file. ends (loaded 7);
}

abbrev changed_files : Files
changed_files = record {
  system = record {
    wide_length = λ file. 1;
    last_write_time = λ file. some (record { low_date_time = 2; high_date_time = 0 });
  };
  load = λ file. ends (loaded 8);
}

-- The first request stored its rules.
unfoldable one_request : (p : Process) × Reach p
unfolding get_config new_config store_config initialize read_section read_rest
    get_boolean_property_value get_string_property_value c_string call_rules get_rules fast_path
    store find same_path w_to_utf8
one_request = (
  _,
  later (later start (configure 0 (Configs.serve none metadata (Memᴰ.head refl) Configs.stores))) (
      begin 0 sync_env arrival opened (some quiet_site) [] files (Memᴰ.head refl) (Memᴰ.head refl)),
)

-- The second one had found the cache empty before that.
unfoldable two_requests : (p : Process) × Reach p
unfolding one_request
two_requests = (
  _,
  later one_request.1 (
      begin 0 sync_env arrival opened (some quiet_site) [] changed_files (Memᴰ.head refl)
        (Memᴰ.tail (Memᴰ.head refl))),
)

-- The second request.
unfoldable second_request : Begun
second_request = record {
  generation = 0;
  env = sync_env;
  arrival = met_by one_request.0 arrival (some quiet_site) [] changed_files;
  world = opened;
}
