-- ===== src/Tests/Sites.antt =====
-- A site whose rules were loaded once, and whose file does not load any more.
use mod_security_iis.Prelude.{◌≡◌, refl, none, some, [], ◌∷◌}
use mod_security_iis.System.{
  rq_finish_request, catch, note, pure, ◌>>◌, log_event, exception_in, in_begin_request,
}
use mod_security_iis.Text.{codes, c_string}
use mod_security_iis.ModuleConfig.{
  get_config, new_config, store_config, initialize, read_section, read_rest,
  get_boolean_property_value, get_string_property_value,
}
use mod_security_iis.RulesCache.{CachedRules, Cache, ends, parse_error, find, same_path}
use mod_security_iis.BeginRequest.{open_context, w_to_utf8}
use mod_security_iis.Site.{Caches, config_of, met, begin_at_site}
use mod_security_iis.Site.Protection.{rules_file, begin_at_site-cached}
use mod_security_iis.Tests.{calm_env, opened}
use mod_security_iis.Tests.Begins.{arrival, metadata, quiet_site}

abbrev entry : CachedRules
entry = record { rules = 7; mtime = record { low_date_time = 1; high_date_time = 0 } }

abbrev cache : Cache
cache = (codes "a.conf", entry) ∷ []

abbrev caches : Caches
caches = record {
  metadata = metadata;
  held = none;
  first = cache;
  second = cache;
  time = λ file. some (record { low_date_time = 2; high_date_time = 0 });
  load = λ file. ends (parse_error (codes "line 1"));
}

is_configured : config_of caches ≡ some quiet_site
unfolding get_config new_config store_config initialize read_section read_rest
    get_boolean_property_value get_string_property_value c_string
is_configured = refl

is_cached : find (rules_file arrival quiet_site) cache ≡ some entry
unfolding find same_path w_to_utf8
is_cached = refl

begin_at_site-cached_example :
    begin_at_site calm_env caches arrival opened
    ≡ catch
        (open_context calm_env (met caches arrival) quiet_site 7)
        (note (log_event (exception_in in_begin_request)) >> pure rq_finish_request)
        opened
begin_at_site-cached_example =
    begin_at_site-cached calm_env caches arrival quiet_site entry (parse_error (codes "line 1"))
      opened (λ f e h. h) refl is_configured refl is_cached refl
