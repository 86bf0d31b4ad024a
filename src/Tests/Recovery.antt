-- ===== src/Tests/Recovery.antt =====
-- Tests of the recovery of a gap.
use two_stream_recovery.Base.{
  ◌&&◌, if◌then◌else◌, arith, ◌%◌, ◌+◌, ◌<◌, [], refl, ◌==◌, some, false, ◌≡◌, true, ◌∷◌,
}
use mathlib.Core.Logic.{◌↔◌}
use two_stream_recovery.Engine.Recovery.NullRegion.{recover_null}
use two_stream_recovery.Engine.Recovery.NullRegion.Checks.{validate_null}
use two_stream_recovery.Engine.Recovery.NullRegion.Position.{recover_null-validate_null}
use two_stream_recovery.Tests.{
  short_history, history_of, packet_of, in_error, gap_engine, tei_engine, one_candidate,
}
use two_stream_recovery.Engine.State.{Engine, PacketRecord, ok}
use two_stream_recovery.Engine.Recovery.{
  Gap, gap_of, check_ends, prefix_matches, fit_all, insert_all,
}
use two_stream_recovery.Engine.Output.{inserted, previous_output_cc, send_ts_packet, output_record}
use two_stream_recovery.Engine.Recovery.Mixed.{position_gap, recover_mixed}
use two_stream_recovery.Engine.History.{find_index, find_record}
use two_stream_recovery.Engine.Match.{
  is_informative, exact_match, are_anchor, fits, infer_missing, observe_states,
}
use two_stream_recovery.Engine.Match.Counter.{infer_missing_iff}
use two_stream_recovery.Engine.Recovery.Account.{IsAccounted, recoveries-IsAccounted}
use two_stream_recovery.Engine.Alignment.{expected_index, aligned_secondary}
use two_stream_recovery.Engine.Boundary.{boundary_matches}
use two_stream_recovery.Engine.Boundary.Matches.{AreMatches, boundary_matches-AreMatches}
use two_stream_recovery.Engine.Recovery.Insert.{EmitsAll, insert_all-EmitsAll}
use two_stream_recovery.Engine.Recovery.Content.{
  missing_after, check_order, content_gap, content_missing, first_index, wanted, scan_counter,
  fallback, pick, pick_all, content_plan, recover_content,
}
use two_stream_recovery.Engine.Recovery.Content.Checks.{validate_content, content_checks}
use two_stream_recovery.Engine.Recovery.Content.Inserted.{IsFilled, recover_content-IsFilled}
use two_stream_recovery.Engine.Recovery.Content.Agree.{
  IsAnnounced, recover_content-validate_content,
}
use two_stream_recovery.Engine.Recovery.Unique.{choose, settle, recover_unique}
use two_stream_recovery.Engine.Recovery.Unique.Only.{IsOnly, recover_unique-IsOnly}
use two_stream_recovery.Engine.Recovery.Tei.{record_after, tei_plan, recover_tei}
use two_stream_recovery.Engine.Recovery.Tei.Replaced.{IsReplaced, recover_tei-IsReplaced}
use two_stream_recovery.Engine.Init.{init_with_config, limited}

-- The packet with the counter 7 that the primary has next.
abbrev late : PacketRecord
late = packet_of 11 7

abbrev missed : PacketRecord
missed = packet_of 11 6

recover_content_inserts : (recover_content gap_engine late (some (packet_of 12 7))).0 ≡ inserted
unfolding recover_content content_gap gap_of content_missing previous_output_cc missing_after
    infer_missing content_plan check_ends are_anchor exact_match find_record find_index pick_all
    pick scan_counter wanted fallback first_index prefix_matches check_order fit_all fits
    observe_states insert_all output_record send_ts_packet init_with_config limited
recover_content_inserts = refl

recover_content-IsFilled_example :
    IsFilled gap_engine (recover_content gap_engine late (some (packet_of 12 7))).1 late
recover_content-IsFilled_example =
    recover_content-IsFilled gap_engine late (some (packet_of 12 7)) recover_content_inserts

recover_content-validate_content_example :
    IsAnnounced
      (validate_content gap_engine late (some (packet_of 12 7))).valid
      (recover_content gap_engine late (some (packet_of 12 7)))
recover_content-validate_content_example =
    recover_content-validate_content gap_engine late (some (packet_of 12 7))

recover_unique_inserts :
    (recover_unique gap_engine late one_candidate validate_content recover_content true).0
    ≡ inserted
unfolding recover_unique choose settle recover_content validate_content content_gap gap_of
    content_missing previous_output_cc missing_after infer_missing content_plan check_ends
    are_anchor exact_match find_record find_index pick_all pick scan_counter wanted fallback
    first_index prefix_matches check_order fit_all fits observe_states insert_all output_record
    send_ts_packet init_with_config limited content_checks
recover_unique_inserts = refl

recover_unique-IsOnly_example :
    (one_candidate.truncated ≡ false)
    × ((w : PacketRecord) × IsOnly gap_engine late validate_content one_candidate.records w
        × (recover_unique gap_engine late one_candidate validate_content recover_content true
            ≡ recover_content gap_engine late (some w)))
recover_unique-IsOnly_example =
    recover_unique-IsOnly gap_engine late one_candidate validate_content recover_content true
      recover_unique_inserts

recover_tei_inserts : (recover_tei tei_engine in_error).0 ≡ inserted
unfolding recover_tei tei_plan record_after aligned_secondary expected_index are_anchor exact_match
    find_record find_index fits insert_all output_record send_ts_packet init_with_config limited
recover_tei_inserts = refl

recover_tei-IsReplaced_example :
    (in_error.transport_error ≡ true)
    × IsReplaced tei_engine (recover_tei tei_engine in_error).1 in_error
recover_tei-IsReplaced_example = recover_tei-IsReplaced tei_engine in_error recover_tei_inserts

missed_fits : fits gap_engine.output_pid_state missed ≡ true
unfolding fits init_with_config
missed_fits = refl

missed_goes : (output_record gap_engine missed).0 ≡ ok
unfolding output_record send_ts_packet init_with_config
missed_goes = refl

recoveries-IsAccounted_example :
    IsAccounted gap_engine late (recover_content gap_engine late (some (packet_of 12 7)))
    × IsAccounted gap_engine late (recover_mixed gap_engine late (some (packet_of 12 7)))
    × IsAccounted gap_engine late (recover_null gap_engine late (some (packet_of 12 7)))
    × IsAccounted gap_engine late (recover_tei gap_engine late)
recoveries-IsAccounted_example = recoveries-IsAccounted gap_engine late (some (packet_of 12 7))

boundary_matches-AreMatches_example : AreMatches gap_engine late (boundary_matches gap_engine late)
boundary_matches-AreMatches_example = boundary_matches-AreMatches gap_engine late

infer_missing_iff_example : (infer_missing 5 late ≡ some 1) ↔ (
    (1 < 15)
    × ((5 + 1 + 1) % 16 ≡ late.continuity_counter)
    × (late.has_payload ≡ true)
    × (late.is_null ≡ false))
infer_missing_iff_example = infer_missing_iff 5 1 late (omega arith) (omega arith)

missed_is_clean : is_informative missed ≡ true
unfolding is_informative
missed_is_clean = refl

late_is_clean : is_informative late ≡ true
unfolding is_informative
late_is_clean = refl

missed_rehearsed :
    fit_all gap_engine.output_pid_state (missed ∷ [])
    ≡ some (observe_states gap_engine.output_pid_state missed)
unfolding fit_all fits init_with_config
missed_rehearsed = refl

missed_inserted : (insert_all (λ c. false) gap_engine (missed ∷ [])).0 ≡ ok
unfolding insert_all output_record send_ts_packet init_with_config
missed_inserted = refl

insert_all-EmitsAll_example :
    EmitsAll gap_engine (insert_all (λ c. false) gap_engine (missed ∷ [])).1 (missed ∷ [])
    × ((insert_all (λ c. false) gap_engine (missed ∷ [])).1.output_pid_state
        ≡ observe_states gap_engine.output_pid_state missed)
insert_all-EmitsAll_example =
    insert_all-EmitsAll (λ c. false) gap_engine (missed ∷ [])
      (observe_states gap_engine.output_pid_state missed) missed_rehearsed missed_inserted

-- A null packet stands in the secondary stream before the packet that comes next.
abbrev null_engine : Engine (Unit {0})
null_engine = record gap_engine {
  history = λ i.
      if i == 0
      then short_history
      else history_of (packet_of 10 5) (record (packet_of 11 0) { is_null = true; pid = 0x1fff })
          (packet_of 12 7) 3;
}

abbrev null_gap : Gap
null_gap = record { after = packet_of 12 7; primary_between = 0; secondary_between = 1 }

null_gap_found : position_gap null_engine late (some (packet_of 12 7)) ≡ some null_gap
unfolding position_gap gap_of init_with_config
null_gap_found = refl

recover_null-validate_null_example :
    IsAnnounced
      ((validate_null null_engine late (some (packet_of 12 7))).valid
        && null_gap.primary_between == 0)
      (recover_null null_engine late (some (packet_of 12 7)))
recover_null-validate_null_example =
    recover_null-validate_null null_engine late (some (packet_of 12 7)) null_gap null_gap_found
