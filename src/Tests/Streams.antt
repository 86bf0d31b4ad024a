-- ===== src/Tests/Streams.antt =====
-- Tests of the histories, the queues, the alignment and the outage.
use two_stream_recovery.Base.{
  ◌+◌, ℕ, ◌+ℤ◌, ◌-◌, [], get_elem?, ◌∷◌, ltb, ◌≤◌, ◌++◌, some, tail, if◌then◌else◌, true, pos, none,
  refl, arith, ◌≡◌,
}
use two_stream_recovery.Engine.State.{Engine, PacketRecord, ok}
use two_stream_recovery.Engine.History.{write, find_record, find_index, prune_older_than}
use two_stream_recovery.Engine.History.Contents.{log_push, log_prune, push_refines, prune_refines}
use two_stream_recovery.Engine.History.Find.{AreNumbered, find_record-contents}
use two_stream_recovery.Engine.Queue.Refine.{
  list_front, front-pop_refines, delay_queue_push_refines,
}
use two_stream_recovery.Engine.Match.{records_match, is_informative}
use two_stream_recovery.Engine.Alignment.{match_at, confirmed, backward_run, match_near}
use two_stream_recovery.Engine.Alignment.Confirmed.{IsConfirmed, match_near-IsConfirmed}
use two_stream_recovery.Engine.Outage.{discard_through, primary_is_silent, return_holdoff_elapsed}
use two_stream_recovery.Engine.Outage.Order.{drop_through, discard_through_refines}
use two_stream_recovery.Engine.Outage.Holdoff.{
  IsWatched, IsHealthySince, return_holdoff_elapsed-IsHealthySince,
}
use two_stream_recovery.Engine.Push.{force_push}
use two_stream_recovery.Engine.Push.Enqueue.{force_push_refines}
use two_stream_recovery.Engine.Init.{default_config, init_with_config}
use two_stream_recovery.Tests.{packet_of, full_history, gap_engine, queue_of}
use two_stream_recovery.Engine.History
use two_stream_recovery.Engine.History.Inv
use two_stream_recovery.Engine.History.Contents
use two_stream_recovery.Engine.Queue.Refine

abbrev next : PacketRecord
next = packet_of 13 8

full_history-IsValid : Inv.IsValid full_history
full_history-IsValid = omega arith

full_history-AreNumbered : AreNumbered 10 (Contents.contents full_history)
full_history-AreNumbered = (refl, (refl, (refl, tt)))

push_refines_example :
    Contents.contents (write (History.push full_history).1 (History.push full_history).0 next)
    ≡ log_push 16 (Contents.contents full_history) next
push_refines_example = push_refines full_history next full_history-IsValid

find_record-contents_example :
    find_record full_history 11
    ≡ (if ltb 11 10 then none else get_elem? (Contents.contents full_history) (11 - 10))
find_record-contents_example =
    find_record-contents full_history 10 11 full_history-IsValid full_history-AreNumbered
      (omega arith) (omega arith)

queue-IsValid : Refine.IsValid (queue_of 3)
queue-IsValid = omega arith

force_push_refines_example :
    ((force_push (queue_of 3) next).0 ≡ ok)
    × Refine.IsValid (force_push (queue_of 3) next).1
    × (Refine.contents (force_push (queue_of 3) next).1
        ≡ (if ltb (queue_of 3).count (queue_of 3).capacity
            then Refine.contents (queue_of 3)
            else tail (Refine.contents (queue_of 3)))
          ++ (next ∷ []))
force_push_refines_example = force_push_refines (queue_of 3) next queue-IsValid

match_found :
    match_near full_history full_history (packet_of 12 7) 2 (pos 12) 1 ≡ some (packet_of 12 7)
unfolding match_near match_at confirmed backward_run ◌+ℤ◌ records_match is_informative find_record
    find_index
match_found = refl

match_near-IsConfirmed_example :
    IsConfirmed full_history full_history (packet_of 12 7) 2 (packet_of 12 7)
match_near-IsConfirmed_example =
    match_near-IsConfirmed full_history full_history (packet_of 12 7) 2 (pos 12) 1 (packet_of 12 7)
      match_found

-- The secondary stream has three packets waiting.
abbrev waiting : Engine (Unit {0})
waiting = record gap_engine { secondary_queue = queue_of 3 }

discard_through_refines_example :
    Refine.IsValid (discard_through 3 waiting 11).secondary_queue
    × (Refine.contents (discard_through 3 waiting 11).secondary_queue
        ≡ drop_through 11 (Refine.contents (queue_of 3)))
    × (record (discard_through 3 waiting 11) { secondary_queue = queue_of 3 } ≡ waiting)
discard_through_refines_example = discard_through_refines 3 waiting 11 queue-IsValid (omega arith)

-- Both streams were last heard of at 100 ns, and the secondary has the output.
abbrev heard : Engine (Unit {0})
heard = record waiting {
  last_input_arrival_ns = λ i. 100;
  active_output_stream_id = 1;
  config = default_config;
}

-- The primary is back at 100 s, and sends still at 400 s.
abbrev back : Engine (Unit {0})
back = record heard { last_input_arrival_ns = λ i. 100_000_000_000; primary_return_start_ns = 0 }

abbrev healthy : Engine (Unit {0})
healthy = record heard {
  last_input_arrival_ns = λ i. 400_000_000_000;
  primary_return_start_ns = 100_000_000_000;
}

healthy_returns : (return_holdoff_elapsed healthy 400_000_000_000).0 ≡ true
unfolding return_holdoff_elapsed primary_is_silent init_with_config
healthy_returns = refl

healthy-IsWatched :
    IsWatched ((healthy, 400_000_000_000) ∷ (back, 100_000_000_000) ∷ []) 100_000_000_000
unfolding return_holdoff_elapsed primary_is_silent init_with_config
healthy-IsWatched =
    ((refl, refl, omega arith, omega arith, refl), refl, omega arith, omega arith, refl)

return_holdoff_elapsed-IsHealthySince_example :
    (since : ℕ) × IsHealthySince since ((healthy, 400_000_000_000) ∷ (back, 100_000_000_000) ∷ [])
    × (since + healthy.config.primary_return_ns ≤ 400_000_000_000)
return_holdoff_elapsed-IsHealthySince_example =
    return_holdoff_elapsed-IsHealthySince healthy 400_000_000_000 ((back, 100_000_000_000) ∷ [])
      100_000_000_000 healthy-IsWatched healthy_returns
