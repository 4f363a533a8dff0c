-- ===== src/Udp/Tests.antt =====
-- Tests of the sessions of a UDP rule, and their theorems at concrete inputs.
use ctf_proxy_utils.Common.{◌≡◌, refl, true, false, none, some, List, [], ◌∷◌}
use ctf_proxy_utils.Common.Int.{pos}
use ctf_proxy_utils.Recorder.Tests.{blank}
use ctf_proxy_utils.Spec.{endpoint_eq, spec_defaults, health_defaults, dump_defaults}
use ctf_proxy_utils.Spec.Tests.{a_rule}
use ctf_proxy_utils.Failover.{
  new_router, note_outcome, decide, decide_failover, note_probe, note_endpoint_probe,
  current_target,
}
use ctf_proxy_utils.Rule.{
  Addresses, open_writer, allowed_by_acl, start_locked, start_health, fresh_rule,
}
use ctf_proxy_utils.Udp.Table.{bytes_eq, find_session, delete_session}
use ctf_proxy_utils.Udp.Loop.{
  between, Step, datagram, dial_ends, send, reply, start_udp, step, steps,
}
use ctf_proxy_utils.Udp.Counted.{IsTabled}
use ctf_proxy_utils.Udp.Steps.{steps-IsTabled, receive_datagram-known}
use ctf_proxy_utils.Udp.{
  UdpRule, close_session, remove_udp_session, ask_room, route_datagram, receive_datagram,
  udp_dial_failed, open_session, enter_session, count_in, count_out, end_send, send_datagram,
  broken, end_reply, reply_datagram, remove_all, close_all, stop_udp,
}

program : Unit {0}
unfolding spec_defaults health_defaults dump_defaults new_router note_outcome decide decide_failover
    note_probe note_endpoint_probe open_writer allowed_by_acl start_locked start_health fresh_rule
    bytes_eq find_session delete_session step steps close_session remove_udp_session ask_room
    route_datagram receive_datagram udp_dial_failed open_session enter_session count_in count_out
    current_target end_send send_datagram end_reply reply_datagram remove_all close_all stop_udp
program = tt

abbrev plain_net : Addresses
plain_net = record {
  split_host = λ s. some s;
  parse_host = λ s. none;
  contains = λ n ip. true;
  addr = λ e. e.host;
}

-- A rule that records nothing, without sessions.
abbrev quiet : UdpRule
unfolding program
quiet = record {
  rule =
      fresh_rule (λ _. blank)
        (record (spec_defaults (a_rule "r1" 8080 "10.0.0.2")) {
          dump = record { enabled = false; max_conns = pos 5; max_bytes_per = pos 5 };
        })
        [];
  sessions = [];
  store = λ _. record {
    key = [];
    id = 0;
    target = record { host = ""; port = pos 0 };
    writer = none;
    last = 0;
    bytes_in = 0;
    bytes_out = 0;
    closed = true;
  };
  allocated = 0;
}

-- Two clients get a session; the reader of the first one gives up.
abbrev history : List Step
history =
    start_udp true
    ∷ datagram plain_net 1 (1 ∷ []) (7 ∷ []) false
    ∷ dial_ends plain_net 2 false
    ∷ send 3 1 false
    ∷ datagram plain_net 4 (2 ∷ []) (8 ∷ []) false
    ∷ dial_ends plain_net 5 false
    ∷ send 6 1 false
    ∷ reply 7 0 [] false false broken
    ∷ []

steps-IsTabled_example : IsTabled (steps (quiet, between) history).0
unfolding program quiet
steps-IsTabled_example = steps-IsTabled history quiet refl refl

one_left : (steps (quiet, between) history).0.sessions ≡ (2 ∷ [], 1) ∷ []
unfolding program quiet
one_left = refl

abbrev after_history : UdpRule
unfolding program quiet
after_history = (steps (quiet, between) history).0

after_history-IsTabled : IsTabled after_history
unfolding program quiet after_history
after_history-IsTabled = steps-IsTabled history quiet refl refl

receive_datagram-known_example :
    (after_history ≡ after_history)
    × ((after_history.store 1).key ≡ 2 ∷ [])
    × ((after_history.store 1).closed ≡ false)
    × (endpoint_eq (after_history.store 1).target (current_target after_history.rule.router).0
        ≡ true)
unfolding program quiet after_history
receive_datagram-known_example =
    receive_datagram-known plain_net 9 1 (2 ∷ []) false after_history after_history
      after_history-IsTabled refl
