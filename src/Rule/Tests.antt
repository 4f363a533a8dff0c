-- ===== src/Rule/Tests.antt =====
-- Tests of the handlers of a rule and of its pipes, and their theorems at concrete inputs.
use ctf_proxy_utils.Common.{◌≡◌, refl, inr, true, false, none, some, List, [], ◌∷◌, arith}
use ctf_proxy_utils.Common.Int.{pos}
use ctf_proxy_utils.Probe.{goes_on, ended}
use ctf_proxy_utils.Recorder.Tests.{blank}
use ctf_proxy_utils.Spec.{spec_defaults, health_defaults, dump_defaults}
use ctf_proxy_utils.Spec.Tests.{a_rule}
use ctf_proxy_utils.Failover.{
  note_outcome, decide, decide_failover, note_probe, note_endpoint_probe,
}
use ctf_proxy_utils.Rule.{
  Rule, Addresses, Ending, ignored, admit, allowed_by_acl, leave, leave_all, remove_conn,
  dial_failed, dial_done, open_writer, report_failure, start_locked, start_health, stop_locked,
  reset_stats, fresh_rule,
}
use ctf_proxy_utils.Rule.Handlers.{
  Move, arrive, fail, go_away, start, move, moves, IsCounted, moves-IsCounted, stop_closes,
}
use ctf_proxy_utils.Rule.Pipe.{
  Read, both_closed, joined, until_over, Carries, write_all, pipe, pipe_from, pipe-Carries,
  pipe_complete,
}

program : Unit {0}
unfolding spec_defaults health_defaults dump_defaults note_outcome decide decide_failover note_probe
    note_endpoint_probe admit allowed_by_acl leave leave_all remove_conn dial_failed dial_done
    open_writer report_failure start_locked start_health stop_locked reset_stats move moves
    fresh_rule write_all pipe pipe_from
program = tt

-- Two short writes carry the first read, and the end of the stream comes with the second.
abbrev two_reads : List Read
two_reads =
    record { content = 1 ∷ 2 ∷ 3 ∷ []; state = goes_on; writes = (2, false) ∷ (1, false) ∷ [] }
    ∷ record { content = 4 ∷ []; state = ended; writes = (1, false) ∷ [] }
    ∷ []

pipe-Carries_example : Carries (1 ∷ 2 ∷ 3 ∷ 4 ∷ []) (pipe two_reads)
pipe-Carries_example = pipe-Carries two_reads

pipe_complete_example : joined (pipe two_reads).pieces ≡ until_over two_reads
unfolding program
pipe_complete_example = pipe_complete two_reads refl

carried : (pipe two_reads).pieces ≡ (1 ∷ 2 ∷ []) ∷ (3 ∷ []) ∷ (4 ∷ []) ∷ []
unfolding program
carried = refl

-- A write of nothing closes both sockets.
stuck_write :
    (pipe (record { content = 1 ∷ []; state = goes_on; writes = (0, false) ∷ [] } ∷ [])).closing
    ≡ both_closed
unfolding program
stuck_write = refl

abbrev plain_net : Addresses
plain_net = record {
  split_host = λ s. some s;
  parse_host = λ s. none;
  contains = λ n ip. true;
  addr = λ e. e.host;
}

abbrev limited_rule : Rule
unfolding program
limited_rule = fresh_rule (λ _. blank) (spec_defaults (a_rule "r1" 8080 "10.0.0.2")) []

-- A handler that has no writer.
abbrev gone : Ending
gone = record { writer = none; now = 9; bytes_in = 0; bytes_out = 0 }

-- The rule allows two connections; one of three is denied, and one that fails leaves.
abbrev history : List Move
history =
    start false true
    ∷ arrive plain_net (1 ∷ []) false
    ∷ arrive plain_net (2 ∷ []) false
    ∷ arrive plain_net (3 ∷ []) false
    ∷ fail 7 false (record { host = "10.0.0.2"; port = pos 80 }) false
    ∷ go_away gone 1
    ∷ []

moves-IsCounted_example : IsCounted (moves limited_rule history)
unfolding program limited_rule
moves-IsCounted_example =
    moves-IsCounted history limited_rule (record { active = refl; limited = inr (omega arith) })

one_left : (moves limited_rule history).conns ≡ 2 ∷ []
unfolding program limited_rule
one_left = refl

one_denied : (moves limited_rule history).denied_conns ≡ 1
unfolding program limited_rule
one_denied = refl

abbrev busy_rule : Rule
unfolding program limited_rule
busy_rule = moves limited_rule (start false true ∷ arrive plain_net (1 ∷ []) false ∷ [])

stop_closes_example :
    ((stop_locked (λ _. gone) busy_rule).conns ≡ [])
    × ((stop_locked (λ _. gone) busy_rule).active_conns ≡ 0)
    × (admit plain_net [] false (stop_locked (λ _. gone) busy_rule)
        ≡ (ignored, stop_locked (λ _. gone) busy_rule))
unfolding program limited_rule busy_rule
stop_closes_example =
    stop_closes (λ _. gone) busy_rule plain_net [] refl
      (record { active = refl; limited = inr (omega arith) })
