-- ===== src/Tests/Responses.antt =====
-- Responses, and what the engine decides on them.
use mod_security_iis.Prelude.{
  ℕ, zero, suc, ◌≡◌, ◌≤◌, ◌-◌, refl, inr, ◌↔◌, true, false, none, some, List, [], ◌∷◌, arith,
  length-take, Option, ◌%◌, ◌^◌, ◌<◌,
}
use mod_security_iis.System.{World, Intervention, ok, read_intervention, HttpResponse}
use mod_security_iis.System.Views.{
  header_phases, response_phases, response_bytes, wire_status, told_status, handled, clearings,
}
use mod_security_iis.Settings.{max_inspect_body_bytes}
use mod_security_iis.Intervention.{apply_intervention, answer, disrupt, finish_request}
use mod_security_iis.Intervention.Apply.{apply_intervention-blocks, apply_intervention_iff}
use mod_security_iis.ResponseChunks.{inspect_chunks}
use mod_security_iis.ResponseChunks.Laws.{ReadsWithin, Reports}
use mod_security_iis.ResponseChunks.Cap.{AllSound, inspect_chunks_cap}
use mod_security_iis.Response.{mode_b}
use mod_security_iis.Response.Detection.{mode_b-detects}
use mod_security_iis.Response.Phases.{send_all, send_all_once}
use mod_security_iis.Life.Headers.{send_all-feeds_once}
use mod_security_iis.Tests.{
  calm_env, blocking_env, opened, file_data, small_file, page_chunks, page,
}

-- Two notifications of the page, and one without a raw response.
abbrev notifications : List (Option HttpResponse)
notifications = some page ∷ none ∷ some page ∷ []

send_all_once_example :
    (response_phases (send_all calm_env notifications opened).trace ≤ 1)
    × (opened.rsc.response_body_evaluated ≡ true
        → response_phases (send_all calm_env notifications opened).trace ≡ 0)
send_all_once_example = send_all_once calm_env notifications opened

send_all-feeds_once_example :
    (header_phases (send_all calm_env notifications opened).trace
      ≤ suc (header_phases opened.trace))
    × (opened.rsc.response_headers_fed ≡ true
        → header_phases (send_all calm_env notifications opened).trace ≡ header_phases opened.trace)
send_all-feeds_once_example = send_all-feeds_once calm_env notifications opened (λ t. refl)

small_file-ReadsWithin : ReadsWithin small_file
small_file-ReadsWithin zero n s h = ground (arith, length-take n file_data)
small_file-ReadsWithin (suc offset) n s h = ground arith

pub page-AllSound : AllSound page_chunks
page-AllSound = (tt, ((small_file-ReadsWithin, inr (omega arith)), (tt, tt)))

inspect_chunks_cap_example :
    Reports 0
      (max_inspect_body_bytes calm_env - 0)
      (response_bytes opened.trace)
      (response_bytes (inspect_chunks calm_env page_chunks 0 opened).1.trace)
      (inspect_chunks calm_env page_chunks 0 opened).0
inspect_chunks_cap_example =
    inspect_chunks_cap calm_env page_chunks 0 opened page-AllSound (omega arith)

-- A denial blocks, where blocking is allowed.
denial_blocks : (apply_intervention blocking_env true opened).0 ≡ ok true
unfolding apply_intervention disrupt answer finish_request
denial_blocks = refl

apply_intervention-blocks_example :
    let w' = (apply_intervention blocking_env true opened).1 in
    (w'.rsc ≡ record (opened.rsc) { tx = false; rules = none })
    × (handled w'.trace ≡ 1)
    × (clearings w'.trace ≡ 1)
    × ((s : ℕ) × (told_status w'.trace ≡ some s)
        × (wire_status w'.trace ≡ some (s % 2 ^ 16))
        × (0 < s))
apply_intervention-blocks_example =
    apply_intervention-blocks blocking_env true opened refl denial_blocks

apply_intervention_iff_example :
    ((apply_intervention blocking_env true opened).0 ≡ ok true)
    ↔ (opened.rsc.tx ≡ true)
      × ((it : Intervention) × (blocking_env.intervention (read_intervention ∷ opened.trace)
            ≡ some it)
          × (it.disruptive ≡ true))
      × (true ≡ true)
apply_intervention_iff_example = apply_intervention_iff blocking_env true opened (λ t. refl)

-- Response bodies are not to be blocked.
abbrev detecting : World
detecting = record opened { rsc = record (opened.rsc) { response_body_block = false } }

mode_b-detects_example :
    (wire_status (mode_b blocking_env page detecting).1.trace ≡ none)
    × (handled (mode_b blocking_env page detecting).1.trace ≡ 0)
    × ((mode_b blocking_env page detecting).1.rsc.tx ≡ true)
    × ((mode_b blocking_env page detecting).1.rsc.rules ≡ some 1)
mode_b-detects_example = mode_b-detects blocking_env page detecting
