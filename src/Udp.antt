-- ===== src/Udp.antt =====
-- internal/proxy/udp.go: the sessions of a UDP rule and the steps of its loops.
pub mod Table
pub mod Loop
pub mod Counted
pub mod Removal
pub mod Opening
pub mod Stop
pub mod Steps
mod Tests
use ctf_proxy_utils.Common.{
  ℕ, zero, suc, ◌+◌, ◌-◌, ◌*◌, ◌/◌, ◌%◌, ◌^◌, ◌≤◌, ◌<◌, min, max, String, ◌≡◌, refl, sym, ap, subst,
  ◌∙◌, ◌≢◌, ◌↔◌, ◌⊎◌, inl, inr, Bool, true, false, not, ◌&&◌, ◌||◌, Option, none, some, List, [],
  ◌∷◌, ◌++◌, map, str_eq, eq_iff, arith, ltb, leb, ◌==◌, ==_iff, if◌then◌else◌, Bool-cases,
  Option-cases, length, take, drop, keep, All, get_elem?, is_empty, length-append, take-append-drop,
  length-take, length-drop, take_of_length-le, take-take, take-append, take-append_left,
  take-append_right, length-keep-le, All-append, All-map, All-both, All-keep, length-map, word64,
  add64, sub64, update, update_self, update_ne,
}
use ctf_proxy_utils.Common.Int.{pos_part}
use ctf_proxy_utils.Recorder.Record.{dir_in, dir_out}
use ctf_proxy_utils.Recorder.{Recorder, ConnWriter, Observed, write, finish}
use ctf_proxy_utils.Spec.{Endpoint, RuleSpec, endpoint_eq}
use ctf_proxy_utils.Detect.{DetectionEvent}
use ctf_proxy_utils.Failover.{Router, current_target}
use ctf_proxy_utils.Rule.{
  Rule, Addresses, spec_of, emit_event, probed, open_writer, allowed_by_acl, stop_health,
}
use Table.{Entries, find_session, delete_session}

-- The counters are the bits of 64-bit integers.
pub record UdpSession : Type 0 where
  pub key : List ℕ
  pub id : ℕ
  pub target : Endpoint
  pub writer : Option ConnWriter
  pub last : ℕ
  pub bytes_in : ℕ
  pub bytes_out : ℕ
  pub closed : Bool

-- The sessions are in a store; `sessions` are the entries of the map.
pub record UdpRule : Type 0 where
  pub rule : Rule
  pub sessions : Entries
  pub store : ℕ → UdpSession
  pub allocated : ℕ

abbrev pub set_session : ℕ → UdpSession → UdpRule → UdpRule
set_session p s u = record u { store = update u.store p s }

abbrev pub touch : ℕ → ℕ → UdpRule → UdpRule
touch now p u = set_session p (record (u.store p) { last = now }) u

abbrev pub finish_writer : ℕ → ℕ → ℕ → Rule → Option ConnWriter → Rule
finish_writer now bytes_in bytes_out r none = r
finish_writer now bytes_in bytes_out r (some w) = record r {
  rec = (finish w now bytes_in bytes_out r.rec).1;
}

-- `close`, behind its `sync.Once`.
unfoldable pub close_session : ℕ → ℕ → UdpRule → UdpRule
close_session now p u =
    let s = u.store p in
    if s.closed then u else record (set_session p (record s { closed = true }) u) {
      rule = finish_writer now s.bytes_in s.bytes_out u.rule s.writer;
    }

abbrev pub take_away : List ℕ → UdpRule → UdpRule
take_away k u = record u {
  sessions = delete_session k u.sessions;
  rule = record u.rule { active_conns = sub64 u.rule.active_conns 1 };
}

abbrev pub is_session : ℕ → Option ℕ → Bool
is_session p none = false
is_session p (some q) = q == p

-- `removeUDPSession`
unfoldable pub remove_udp_session : ℕ → ℕ → UdpRule → UdpRule
unfolding close_session
remove_udp_session now p u =
    let k = (u.store p).key in
    close_session now p (if is_session p (find_session k u.sessions) then take_away k u else u)

-- What comes of a datagram under the lock.
pub data Arrival : Type 0 where
  udp_ignored udp_denied : Arrival
  udp_known : ℕ → Arrival
  udp_new : RuleSpec → Endpoint → Bool → Arrival

abbrev pub is_udp_full : UdpRule → Bool
is_udp_full u =
    ltb 0 (pos_part (spec_of u.rule).max_conns)
    && leb (pos_part (spec_of u.rule).max_conns) (length u.sessions)

abbrev pub deny : UdpRule → UdpRule
deny u = record u { rule = record u.rule { denied_conns = add64 u.rule.denied_conns 1 } }

-- A client without a session, with the target for it.
unfoldable pub ask_room : Endpoint → Bool → UdpRule → Arrival × UdpRule
ask_room target via u =
    if is_udp_full u then (udp_denied, deny u) else (udp_new (spec_of u.rule) target via, u)

-- The first part of `handleUDPDatagram`. A session to another target than the current one is given up.
unfoldable pub route_datagram : ℕ → List ℕ → Bool → UdpRule → Arrival × UdpRule
unfolding ask_room close_session
route_datagram now key cancelled u =
    if not u.rule.running || cancelled
    then (udp_ignored, u)
    else let (target, via) = current_target u.rule.router in
      elim (find_session key u.sessions) [
        | none ↦ ask_room target via u
        | some p ↦
            if endpoint_eq (u.store p).target target
            then (udp_known p, u)
            else ask_room target via (close_session now p (take_away key u))
      ]

-- The step of `udpLoop` before it.
unfoldable pub receive_datagram : Addresses → ℕ → List ℕ → Bool → UdpRule → Arrival × UdpRule
unfolding route_datagram
receive_datagram net now remote cancelled u =
    if allowed_by_acl net remote u.rule.acl
    then route_datagram now remote cancelled u
    else (udp_denied, deny u)

-- The dial has failed.
unfoldable pub udp_dial_failed : Bool → Endpoint → Bool → UdpRule → UdpRule
udp_dial_failed cancelled target via u = if cancelled then u else record u {
  rule = probed (not via) target false (
      emit_event "connection_failed"
        (record u.rule { failed_conns = add64 u.rule.failed_conns 1; failed_last = true }));
}

-- A new session, which is not yet an entry, and what the detectors get.
unfoldable pub open_session :
    Addresses → ℕ → List ℕ → RuleSpec → Endpoint → UdpRule → UdpRule × Option DetectionEvent
unfolding open_writer
open_session net now remote spec target u =
    let id = add64 u.rule.conn_seq 1 in
    let (r, writer, event) =
      open_writer net now id spec remote target "udp" (record u.rule { conn_seq = id }) in
    (
      record u {
        rule = r;
        store = update u.store u.allocated (record {
          key = remote;
          id = id;
          target = target;
          writer = writer;
          last = now;
          bytes_in = 0;
          bytes_out = 0;
          closed = false;
        });
        allocated = u.allocated + 1;
      },
      event,
    )

-- The session becomes the entry of its client, unless the rule has stopped or there is one by now.
unfoldable pub enter_session : ℕ → ℕ → Bool → Endpoint → Bool → UdpRule → Option ℕ × UdpRule
unfolding close_session
enter_session now p cancelled target via u =
    if not u.rule.running || cancelled
    then (none, close_session now p u)
    else elim (find_session (u.store p).key u.sessions) [
      | some q ↦ (some q, close_session now p u)
      | none ↦ (
        some p,
        record u {
          sessions = ((u.store p).key, p) ∷ u.sessions;
          rule = probed (not via) target true (record u.rule {
            active_conns = add64 u.rule.active_conns 1;
            total_conns = add64 u.rule.total_conns 1;
          });
        },
      )
    ]

abbrev recorded : Option ConnWriter → ℕ → String → List ℕ → Rule → Rule × Observed
recorded w now dir b r =
    let (rec', seen) = write w now dir b true r.rec in (record r { rec = rec' }, seen)

-- The bytes that went to the target are recorded and counted.
unfoldable pub count_in : ℕ → ℕ → List ℕ → UdpRule → UdpRule × Observed
count_in now p b u =
    let s = u.store p in
    let (r, seen) = recorded s.writer now dir_in b u.rule in
    if is_empty b then (u, none) else (
      record (set_session p (record s { bytes_in = add64 s.bytes_in (length b) }) u) {
        rule = record r { bytes_in = add64 r.bytes_in (length b); last_active = now };
      },
      seen,
    )

unfoldable pub count_out : ℕ → ℕ → List ℕ → UdpRule → UdpRule × Observed
count_out now p b u =
    let s = u.store p in
    let (r, seen) = recorded s.writer now dir_out b u.rule in
    if is_empty b then (u, none) else (
      record (set_session p (record s { last = now; bytes_out = add64 s.bytes_out (length b) }) u) {
        rule = record r { bytes_out = add64 r.bytes_out (length b); last_active = now };
      },
      seen,
    )

-- After the write to the session.
unfoldable pub end_send : ℕ → ℕ → Bool → UdpRule → UdpRule
unfolding remove_udp_session
end_send now p failed u =
    if failed
    then remove_udp_session now p
        (record u { rule = record u.rule { failed_conns = add64 u.rule.failed_conns 1 } })
    else u

-- The end of `handleUDPDatagram`: `n` bytes of the payload were written, and maybe an error came.
unfoldable pub send_datagram : ℕ → ℕ → List ℕ → ℕ → Bool → UdpRule → UdpRule × Observed
unfolding count_in end_send
send_datagram now p payload n failed u =
    let (u', seen) = count_in now p (take n payload) (touch now p u) in
    (end_send now p failed u', seen)

-- How a read from the target ends.
pub data ReplyEnd : Type 0 where
  well timed_out broken : ReplyEnd

-- The end of a round.
unfoldable pub end_reply : ℕ → ℕ → Bool → ReplyEnd → UdpRule → UdpRule × Bool
unfolding remove_udp_session
end_reply now p cancelled well u = (u, true)
end_reply now p cancelled broken u = (remove_udp_session now p u, false)
end_reply now p cancelled timed_out u =
    if cancelled || leb (pos_part (spec_of u.rule).udp_idle_sec * 10 ^ 9) (now - (u.store p).last)
    then (remove_udp_session now p u, false)
    else (touch now p u, true)

-- One round of `readUDPReplies`; the last part is false when the loop is left.
unfoldable pub reply_datagram :
    ℕ → ℕ → List ℕ → Bool → Bool → ReplyEnd → UdpRule → UdpRule × Observed × Bool
unfolding count_out end_reply remove_udp_session
reply_datagram now p b write_failed cancelled ending u =
    if not (is_empty b) && write_failed
    then (remove_udp_session now p u, none, false)
    else let (u', seen) = count_out now p b u in
      let (u'', goes_on) = end_reply now p cancelled ending u' in (u'', seen, goes_on)

-- The readers that `stopLocked` waits for, each of which gives up its session.
unfoldable pub remove_all : ℕ → List ℕ → UdpRule → UdpRule
unfolding remove_udp_session
remove_all now [] u = u
remove_all now (p ∷ ps) u = remove_all now ps (remove_udp_session now p u)

unfoldable pub close_all : ℕ → List ℕ → UdpRule → UdpRule
unfolding close_session
close_all now [] u = u
close_all now (p ∷ ps) u = close_all now ps (close_session now p u)

abbrev pub pointers : Entries → List ℕ
pointers t = map (λ e. e.1) t

-- `stopLocked` of a UDP rule.
unfoldable pub stop_udp : ℕ → UdpRule → UdpRule
unfolding close_all remove_all
stop_udp now u =
    if u.rule.running
    then (let ps = pointers u.sessions in
        let u' = close_all now ps (record u { rule = record u.rule { running = false } }) in
        let u'' = remove_all now ps (record u' { rule = stop_health u'.rule }) in
        record u'' { rule = emit_event "stopped" u''.rule })
    else u
