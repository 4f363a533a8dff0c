-- ===== src/Rule.antt =====
-- internal/proxy/rule.go: the state of a running rule, its life cycle, and the steps of one TCP
-- connection under the lock of the rule. Messages are left out of errors and events.
pub mod Pipe
pub mod Handlers
mod Tests
use ctf_proxy_utils.Common.{
  ℕ, zero, suc, ◌+◌, ◌-◌, ◌*◌, ◌/◌, ◌%◌, ◌^◌, ◌≤◌, ◌<◌, min, max, String, ◌≡◌, refl, sym, ap, subst,
  ◌∙◌, ◌≢◌, ◌↔◌, ◌⊎◌, inl, inr, Bool, true, false, not, ◌&&◌, ◌||◌, Option, none, some, List, [],
  ◌∷◌, ◌++◌, map, str_eq, eq_iff, arith, ltb, leb, ◌==◌, ==_iff, if◌then◌else◌, Bool-cases,
  Option-cases, length, take, drop, keep, All, get_elem?, is_empty, length-append, take-append-drop,
  length-take, length-drop, take_of_length-le, take-take, take-append, take-append_left,
  take-append_right, length-keep-le, All-append, All-map, All-both, All-keep, length-map, word64,
  add64, sub64, update, update_self, update_ne,
}
use ctf_proxy_utils.Common.Int.{pos_part}
use ctf_proxy_utils.Recorder.Record.{RecordedConn}
use ctf_proxy_utils.Recorder.{Recorder, ConnWriter, begin_protocol, new_recorder, finish}
use ctf_proxy_utils.Spec.{Endpoint, RuleSpec}
use ctf_proxy_utils.Spec.Validate.{Ip, IpNet}
use ctf_proxy_utils.Detect.{DetectionEvent, begin}
use ctf_proxy_utils.Failover.{Router, new_router, emit, current_target, note_endpoint_probe}

-- `conns` are the keys of the map of connections. The counters are the bits of 64-bit integers.
pub record Rule : Type 0 where
  pub router : Router
  pub acl : List IpNet
  pub running : Bool
  pub probing : Bool
  pub failed_last : Bool
  pub conns : List ℕ
  pub conn_seq : ℕ
  pub active_conns : ℕ
  pub total_conns : ℕ
  pub failed_conns : ℕ
  pub denied_conns : ℕ
  pub bytes_in : ℕ
  pub bytes_out : ℕ
  pub last_active : ℕ
  pub last_failure_event : ℕ
  pub suppressed_failures : ℕ
  pub has_detector : Bool
  pub rec : Recorder

abbrev pub spec_of : Rule → RuleSpec
spec_of r = r.router.spec

abbrev pub emit_event : String → Rule → Rule
emit_event kind r = record r { router = emit kind r.router }

-- The rule that `newRule` makes of a configuration that passes its checks.
unfoldable pub fresh_rule : (ℕ → RecordedConn) → RuleSpec → List IpNet → Rule
unfolding new_router
fresh_rule store spec acl = record {
  router = new_router spec;
  acl = acl;
  running = false;
  probing = false;
  failed_last = false;
  conns = [];
  conn_seq = 0;
  active_conns = 0;
  total_conns = 0;
  failed_conns = 0;
  denied_conns = 0;
  bytes_in = 0;
  bytes_out = 0;
  last_active = 0;
  last_failure_event = 0;
  suppressed_failures = 0;
  has_detector = false;
  rec = new_recorder store spec.dump.max_conns spec.dump.max_bytes_per;
}

-- `startHealthLocked` under its guard.
unfoldable pub start_health : Rule → Rule
start_health r =
    if not r.running || not (spec_of r).health.enabled then r else record r { probing = true }

abbrev pub stop_health : Rule → Rule
stop_health r = record r { probing = false }

-- `startLocked`: `bound` is a listener that is there already, `binds` whether a new one can be had.
-- The second part is false for an error.
unfoldable pub start_locked : Bool → Bool → Rule → Rule × Bool
unfolding start_health
start_locked bound binds r =
    if r.running
    then (r, true)
    else if not bound && not binds
    then (emit_event "start_failed" (record r { failed_last = true }), false)
    else (
      start_health (emit_event "started" (record r { running = true; failed_last = false })),
      true,
    )

-- `delete(r.conns, id)`
unfoldable pub remove_conn : ℕ → List ℕ → List ℕ
remove_conn id [] = []
remove_conn id (c ∷ cs) = if c == id then cs else c ∷ remove_conn id cs

-- What the goroutine of a handler still holds when it ends: its writer, the time, and the bytes that
-- it has carried. The writer is none where the handler ends before one is made.
pub record Ending : Type 0 where
  pub writer : Option ConnWriter
  pub now : ℕ
  pub bytes_in : ℕ
  pub bytes_out : ℕ

-- `if writer != nil { writer.Finish(in, out) }`
unfoldable pub end_writer : Ending → Recorder → Recorder
end_writer e rec' = elim e.writer [
  | none ↦ rec'
  | some w ↦ (finish w e.now e.bytes_in e.bytes_out rec').1
]

-- The end of `handle`: the writer is finished, then the connection is taken out of the map.
unfoldable pub leave : Ending → ℕ → Rule → Rule
leave e id r = record r {
  conns = remove_conn id r.conns;
  active_conns = sub64 r.active_conns 1;
  rec = end_writer e r.rec;
}

-- The handlers that `stopLocked` waits for; `ends` has what each of them holds.
unfoldable pub leave_all : (ℕ → Ending) → List ℕ → Rule → Rule
leave_all ends [] r = r
leave_all ends (id ∷ ids) r = leave_all ends ids (leave (ends id) id r)

unfoldable pub stop_locked : (ℕ → Ending) → Rule → Rule
stop_locked ends r =
    if r.running
    then emit_event "stopped" (stop_health (leave_all ends r.conns (record r { running = false })))
    else r

-- The functions of package net on addresses: the host of an address, its IP, and whether a network
-- contains it.
pub record Addresses : Type 0 where
  pub split_host : List ℕ → Option (List ℕ)
  pub parse_host : List ℕ → Option Ip
  pub contains : IpNet → Option Ip → Bool
  pub addr : Endpoint → String

abbrev any_contains : Addresses → Option Ip → List IpNet → Bool
any_contains net ip [] = false
any_contains net ip (n ∷ ns) = net.contains n ip || any_contains net ip ns

unfoldable pub allowed_by_acl : Addresses → List ℕ → List IpNet → Bool
allowed_by_acl net remote acl = if is_empty acl then true else elim (net.split_host remote) [
  | none ↦ false
  | some host ↦ any_contains net (net.parse_host host) acl
]

pub data Admitted : Type 0 where
  ignored denied : Admitted
  admitted : ℕ → RuleSpec → Endpoint → Bool → Admitted

abbrev pub is_full : Rule → Bool
is_full r =
    ltb 0 (pos_part (spec_of r).max_conns) && leb (pos_part (spec_of r).max_conns) (length r.conns)

-- The beginning of `handle`: a new connection is counted and entered, or turned away.
unfoldable pub admit : Addresses → List ℕ → Bool → Rule → Admitted × Rule
admit net remote cancelled r =
    if not r.running || cancelled
    then (ignored, r)
    else if not (allowed_by_acl net remote r.acl) || is_full r
    then (denied, record r { denied_conns = add64 r.denied_conns 1 })
    else let id = add64 r.conn_seq 1 in
      let (target, via_backup) = current_target r.router in
      (
        admitted id (spec_of r) target via_backup,
        record r {
          conn_seq = id;
          conns = r.conns ++ id ∷ [];
          active_conns = add64 r.active_conns 1;
        },
      )

-- Five seconds, in nanoseconds.
abbrev pub failure_span : ℕ
failure_span = 5 * 10 ^ 9

-- One event for the failures of five seconds.
unfoldable pub report_failure : ℕ → Rule → Rule
report_failure now r =
    if leb failure_span (now - r.last_failure_event)
    then emit_event "connection_failed"
        (record r { failed_last = true; last_failure_event = now; suppressed_failures = 0 })
    else record r { failed_last = true; suppressed_failures = r.suppressed_failures + 1 }

abbrev pub probed : Bool → Endpoint → Bool → Rule → Rule
probed primary e ok r = record r { router = note_endpoint_probe primary e ok r.router }

-- The branch for a dial that has failed; after `Stop` it is no failure.
unfoldable pub dial_failed : ℕ → Bool → Endpoint → Bool → Rule → Rule
unfolding report_failure
dial_failed now cancelled target via_backup r =
    if cancelled
    then r
    else probed (not via_backup) target false
        (report_failure now (record r { failed_conns = add64 r.failed_conns 1 }))

abbrev writer_or_new : Option ConnWriter → ConnWriter
writer_or_new none = record { recording = false; token = 0; observing = false; on_finish = false }
writer_or_new (some w) = w

-- The event for the detectors when a connection begins.
abbrev pub begin_event : Addresses → ℕ → List ℕ → Endpoint → String → RuleSpec → DetectionEvent
begin_event net id remote target protocol spec = record {
  kind = begin;
  rule_id = spec.id;
  rule_name = spec.name;
  remote = remote;
  target = net.addr target;
  protocol = protocol;
  direction = "";
  connection_id = id;
  content = [];
  auto_pin = spec.inspect.auto_pin;
}

-- The writer of a connection under the configuration that it was admitted with, and the event that the detectors get.
unfoldable pub open_writer :
    Addresses
    → ℕ
    → ℕ
    → RuleSpec
    → List ℕ
    → Endpoint
    → String
    → Rule
    → Rule × Option ConnWriter × Option DetectionEvent
open_writer net now id spec remote target protocol r =
    let (rec', writer) =
      if spec.dump.enabled || spec.inspect.enabled
      then begin_protocol now id remote (net.addr target) protocol r.rec
      else (r.rec, none) in
    if spec.inspect.enabled && r.has_detector
    then (
      record r { rec = rec' },
      some (record (writer_or_new writer) { observing = true; on_finish = true }),
      some (begin_event net id remote target protocol spec),
    )
    else (record r { rec = rec' }, writer, none)

-- The branch for a connection to the target.
unfoldable pub dial_done :
    Addresses
    → ℕ
    → Bool
    → ℕ
    → RuleSpec
    → List ℕ
    → Endpoint
    → Bool
    → Rule
    → Rule × Option ConnWriter × Option DetectionEvent
unfolding open_writer
dial_done net now cancelled id spec remote target via_backup r =
    if cancelled
    then (r, none, none)
    else let r' = probed (not via_backup) target true r in
      open_writer net now id spec remote target "tcp"
        (record r' { total_conns = add64 r'.total_conns 1 })

unfoldable pub reset_stats : Rule → Rule
reset_stats r = emit_event "stats_reset" (record r {
  total_conns = 0;
  failed_conns = 0;
  denied_conns = 0;
  bytes_in = 0;
  bytes_out = 0;
  last_active = 0;
})
