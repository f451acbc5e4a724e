-- ===== src/Tests/Begins.antt =====
-- Requests that begin.
use mod_security_iis.Prelude.{false, ◌≡◌, refl, inr, true, none, some, [], ◌∷◌}
use mod_security_iis.System.{Env, rq_finish_request, ok}
use mod_security_iis.System.Views.{wire_status}
use mod_security_iis.Text.{c_string, codes, to_string, print_digits}
use mod_security_iis.Settings.{config_fail_closed}
use mod_security_iis.ModuleConfig.{
  SiteConfig, Section, section, holds, done, kept, Metadata, get_config, new_config, store_config,
  initialize, read_section, read_rest, get_boolean_property_value, get_string_property_value,
}
use mod_security_iis.ModuleConfig.Laws.{Reads, get_config-Reads}
use mod_security_iis.BeginRequest.{
  Arrival, got, installed, af_inet, af_inet6, get, sock_addr_to_ip, on_begin_request,
}
use mod_security_iis.BeginRequest.Refusal.{on_begin_request-closed}
use mod_security_iis.Tests.{calm_env, opened}

-- A site with the module on; its rules load as the set 1.
abbrev pub site : SiteConfig
site = record { is_enabled = true; path = some (codes "a.conf"); response_body_block = true }

abbrev pub arrival : Arrival
arrival = record {
  utf8 = λ s. s;
  config = some site;
  rules_answer = λ file. got (some 1);
  transaction_allocated = true;
  context_allocated = true;
  set_module_context = installed;
  remote_address = some (af_inet 4000 (some (codes "10.0.0.1")));
  local_address = none;
  raw_url = record { raw_value = some (codes "/a?b"); raw_value_length = 4 };
  cooked_url = record {
    abs_path = none;
    abs_path_length = 0;
    query_string = [];
    query_string_length = 0;
  };
  verb = get;
  version = (1, 1);
  unknown_headers = [];
}

-- The rules file does not load.
abbrev broken_arrival : Arrival
broken_arrival = record arrival { rules_answer = λ file. got none }

-- The body reads are synchronous.
abbrev pub sync_env : Env
sync_env = record calm_env {
  variables = record (calm_env.variables) { body_async = record { n = 1; buf = codes "0" } };
}

fails_closed : config_fail_closed calm_env ≡ true
unfolding config_fail_closed
fails_closed = refl

on_begin_request-closed_example :
    ((on_begin_request calm_env (some broken_arrival) opened).0 ≡ ok rq_finish_request)
    × ((on_begin_request calm_env (some broken_arrival) opened).1.rsc ≡ opened.rsc)
    × ((on_begin_request calm_env (some broken_arrival) opened).1.stored ≡ opened.stored)
    × (calm_env.has_response ≡ true
        → wire_status (on_begin_request calm_env (some broken_arrival) opened).1.trace ≡ some 500)
on_begin_request-closed_example =
    on_begin_request-closed calm_env broken_arrival opened refl (inr (site, refl, refl, refl))
      fails_closed

-- A mapped address is printed as the IPv4 address in it.
mapped_address :
    sock_addr_to_ip (
      some (
        af_inet6
          (0 ∷ 0 ∷ 0 ∷ 0 ∷ 0 ∷ 0 ∷ 0 ∷ 0 ∷ 0 ∷ 0 ∷ 255 ∷ 255 ∷ 10 ∷ 0 ∷ 2 ∷ 255 ∷ [])
          80
          none))
    ≡ codes "10.0.2.255"
unfolding sock_addr_to_ip to_string print_digits
mapped_address = refl

-- A section that switches the module on, with a response body that is not to be blocked.
abbrev pub site_section : Section
site_section = record {
  enabled = holds 0xFFFF;
  response_body_block = holds 0;
  config_file = holds (codes "a.conf");
  string_allocated = true;
}

abbrev pub metadata : Metadata
metadata = record {
  has_container = true;
  object_allocated = true;
  admin = some (section site_section);
  set_module_context = kept;
}

abbrev pub quiet_site : SiteConfig
quiet_site = record site { response_body_block = false }

pub site_is_read : (get_config metadata none).0 ≡ done quiet_site
unfolding get_config new_config store_config initialize read_section read_rest
    get_boolean_property_value get_string_property_value c_string
site_is_read = refl

get_config-Reads_example : (s : Section) × (metadata.admin ≡ some (section s)) × Reads s quiet_site
get_config-Reads_example = get_config-Reads metadata quiet_site refl site_is_read
