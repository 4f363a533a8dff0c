-- ===== src/Udp/Loop.antt =====
-- internal/proxy/udp.go: the loop over the datagrams, step by step, with the readers of the sessions
-- in between.
use ctf_proxy_utils.Common.{ℕ, Bool, false, Option, none, some, List, [], ◌∷◌}
use ctf_proxy_utils.Spec.{Endpoint, RuleSpec}
use ctf_proxy_utils.Rule.{Addresses, start_locked}
use ctf_proxy_utils.Udp.{
  UdpRule, Arrival, udp_ignored, udp_denied, udp_known, udp_new, ReplyEnd, receive_datagram,
  udp_dial_failed, open_session, enter_session, send_datagram, reply_datagram, stop_udp,
}

-- Where the loop is: between datagrams, in a dial, or before the write to a session.
pub data Phase : Type 0 where
  between : Phase
  dialing : List ℕ → RuleSpec → Endpoint → Bool → List ℕ → Phase
  sending : ℕ → List ℕ → Phase

abbrev pub Loop : Type 0
Loop = UdpRule × Phase

-- A step of the loop, of the reader of a session, or a call of the manager. The flags say whether the
-- rule is being stopped.
pub data Step : Type 0 where
  datagram : Addresses → ℕ → List ℕ → List ℕ → Bool → Step
  dial_fails : Bool → Step
  dial_ends : Addresses → ℕ → Bool → Step
  send : ℕ → ℕ → Bool → Step
  reply : ℕ → ℕ → List ℕ → Bool → Bool → ReplyEnd → Step
  start_udp : Bool → Step
  stop_it : ℕ → Step

abbrev pub after_arrival : List ℕ → List ℕ → Arrival → Phase
after_arrival remote payload udp_ignored = between
after_arrival remote payload udp_denied = between
after_arrival remote payload (udp_known p) = sending p payload
after_arrival remote payload (udp_new spec target via) = dialing remote spec target via payload

abbrev pub after_entry : List ℕ → Option ℕ → Phase
after_entry payload none = between
after_entry payload (some p) = sending p payload

unfoldable pub step : Loop → Step → Loop
step l (datagram net now remote payload cancelled) = elim l.1 [
  | between ↦
      let (arrival, u) = receive_datagram net now remote cancelled l.0 in
      (u, after_arrival remote payload arrival)
  | dialing remote' spec target via payload' ↦ l
  | sending p payload' ↦ l
]
step l (dial_fails cancelled) = elim l.1 [
  | between ↦ l
  | dialing remote spec target via payload ↦ (udp_dial_failed cancelled target via l.0, between)
  | sending p payload ↦ l
]
step l (dial_ends net now cancelled) = elim l.1 [
  | between ↦ l
  | dialing remote spec target via payload ↦
      let (u, event) = open_session net now remote spec target l.0 in
      let (found, u') = enter_session now l.0.allocated cancelled target via u in
      (u', after_entry payload found)
  | sending p payload ↦ l
]
step l (send now n failed) = elim l.1 [
  | between ↦ l
  | dialing remote spec target via payload ↦ l
  | sending p payload ↦ ((send_datagram now p payload n failed l.0).0, between)
]
step l (reply now p b write_failed cancelled ending) =
    ((reply_datagram now p b write_failed cancelled ending l.0).0, l.1)
step l (start_udp binds) = (record l.0 { rule = (start_locked false binds l.0.rule).0 }, l.1)
step l (stop_it now) = (stop_udp now l.0, l.1)

unfoldable pub steps : Loop → List Step → Loop
steps l [] = l
steps l (s ∷ rest) = steps (step l s) rest
