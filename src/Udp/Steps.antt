-- ===== src/Udp/Steps.antt =====
-- Every step of a UDP rule keeps its sessions as they should be.
use ctf_proxy_utils.Udp.Counted.{Holds, IsTabled, Goes, rule-Goes}
use ctf_proxy_utils.Udp.Removal.{
  udp_dial_failed-Goes, send_datagram-Goes, reply_datagram-Goes, start-Alike, Roomy, Goes-Roomy,
}
use ctf_proxy_utils.Udp.Table.{find_session-All}
use ctf_proxy_utils.Common.{
  ℕ, ◌≡◌, refl, sym, ap, subst, ◌≢◌, inl, inr, Bool, true, false, not, ◌||◌, Option, none, some,
  List, [], ◌∷◌, arith, Bool-cases, Option-cases,
}
use ctf_proxy_utils.Spec.{Endpoint, RuleSpec, endpoint_eq}
use ctf_proxy_utils.Failover.{current_target}
use ctf_proxy_utils.Rule.{Addresses, spec_of, allowed_by_acl, start_locked}
use ctf_proxy_utils.Udp.Table.{find_session}
use ctf_proxy_utils.Udp.Loop.{
  between, dialing, sending, Loop, Step, datagram, dial_fails, dial_ends, send, reply, start_udp,
  stop_it, step, steps, after_arrival, after_entry,
}
use ctf_proxy_utils.Udp.{
  UdpRule, close_session, take_away, Arrival, udp_ignored, udp_denied, udp_known, udp_new,
  is_udp_full, deny, ask_room, route_datagram, receive_datagram, open_session, enter_session,
  reply_datagram, stop_udp,
}
use ctf_proxy_utils.Udp.Opening.{
  Arrived, receive_datagram-Arrived, open_session-IsOpened, enter_session-IsTabled,
}
use ctf_proxy_utils.Udp.Stop.{stop_udp-Goes}

-- A dial is under way only where there is room for its session.
abbrev pub IsReady : Loop → Type 0
IsReady l = elim l.1 [
  | between ↦ Unit {0}
  | dialing remote spec target via payload ↦ Roomy l.0
  | sending p payload ↦ Unit {0}
]

keeps_IsReady : (l : Loop) (u : UdpRule) → Goes l.0 u → IsReady l → IsReady (u, l.1)
keeps_IsReady (q, between) u g h = tt
keeps_IsReady (q, dialing remote spec target via payload) u g h = Goes-Roomy q u g h
keeps_IsReady (q, sending p payload) u g h = tt

dial_ends-IsTabled :
    (net : Addresses) (now : ℕ) (cancelled : Bool) (remote : List ℕ) (spec : RuleSpec)
    (target : Endpoint) (via : Bool) (u : UdpRule)
    → IsTabled u
    → Roomy u
    → IsTabled
        (enter_session now u.allocated cancelled target via
          (open_session net now remote spec target u).0).1
dial_ends-IsTabled net now cancelled remote spec target via u v room =
    let o = open_session-IsOpened net now remote spec target u v in
    enter_session-IsTabled now u.allocated cancelled target via
      (open_session net now remote spec target u).0 o.opened o.no_entry o.is_open o.stored
      (o.same_room room)

-- A step of the loop.
Sound : Loop → Type 0
Sound l = IsTabled l.0 × IsReady l

Arrived-Sound :
    (u : UdpRule) (remote payload : List ℕ) (x : Arrival × UdpRule)
    → Arrived u x
    → Sound ((x.1, after_arrival remote payload x.0))
unfolding Sound
Arrived-Sound u remote payload (udp_ignored, u') a = (a.0.tabled, tt)
Arrived-Sound u remote payload (udp_denied, u') a = (a.0.tabled, tt)
Arrived-Sound u remote payload (udp_known p, u') a = (a.0.tabled, tt)
Arrived-Sound u remote payload (udp_new spec target via, u') a = (a.0.tabled, a.1)

entered-Sound :
    (payload : List ℕ) (o : Option ℕ) (u : UdpRule)
    → IsTabled u
    → Sound ((u, after_entry payload o))
unfolding Sound
entered-Sound payload none u v = (v, tt)
entered-Sound payload (some p) u v = (v, tt)

step-Sound : (l : Loop) (s : Step) → Sound l → Sound (step l s)
unfolding step Sound
step-Sound (u, between) (datagram net now remote payload cancelled) (v, r) =
    Arrived-Sound u remote payload (receive_datagram net now remote cancelled u)
      (receive_datagram-Arrived net now remote cancelled u v)
step-Sound (u, dialing a b c d e) (datagram net now remote payload cancelled) (v, r) = (v, r)
step-Sound (u, sending a b) (datagram net now remote payload cancelled) (v, r) = (v, r)
step-Sound (u, between) (dial_fails cancelled) (v, r) = (v, r)
step-Sound (u, dialing remote spec target via payload) (dial_fails cancelled) (v, r) =
    ((udp_dial_failed-Goes cancelled target via u v).tabled, tt)
step-Sound (u, sending a b) (dial_fails cancelled) (v, r) = (v, r)
step-Sound (u, between) (dial_ends net now cancelled) (v, r) = (v, r)
step-Sound (u, dialing remote spec target via payload) (dial_ends net now cancelled) (v, r) =
    entered-Sound payload _ _ (dial_ends-IsTabled net now cancelled remote spec target via u v r)
step-Sound (u, sending a b) (dial_ends net now cancelled) (v, r) = (v, r)
step-Sound (u, between) (send now n failed) (v, r) = (v, r)
step-Sound (u, dialing a b c d e) (send now n failed) (v, r) = (v, r)
step-Sound (u, sending p payload) (send now n failed) (v, r) =
    ((send_datagram-Goes now p payload n failed u v).tabled, tt)
step-Sound l (reply now p b write_failed cancelled ending) (v, r) =
    let g = reply_datagram-Goes now p b write_failed cancelled ending l.0 v in
    (g.tabled, keeps_IsReady l (reply_datagram now p b write_failed cancelled ending l.0).0 g r)
step-Sound l (start_udp binds) (v, r) =
    let g = rule-Goes l.0 (start_locked false binds l.0.rule).0 (start-Alike binds l.0.rule) v in
    (g.tabled, keeps_IsReady l (record l.0 { rule = (start_locked false binds l.0.rule).0 }) g r)
step-Sound l (stop_it now) (v, r) =
    let g = stop_udp-Goes now l.0 v in (g.tabled, keeps_IsReady l (stop_udp now l.0) g r)

steps-Sound : (ss : List Step) (l : Loop) → Sound l → Sound (steps l ss)
unfolding steps
steps-Sound [] l h = h
steps-Sound (s ∷ rest) l h = steps-Sound rest (step l s) (step-Sound l s h)

-- From a rule without sessions, whatever comes in whatever order: each client has at most one
-- session, the sessions in the map are open and stand under their keys, the counter of active
-- connections is their number, and there are no more of them than the rule allows.
pub steps-IsTabled :
    (ss : List Step) (u : UdpRule)
    → u.sessions ≡ []
    → u.rule.active_conns ≡ 0
    → IsTabled (steps (u, between) ss).0
unfolding Sound
steps-IsTabled ss u none_yet idle =
    (steps-Sound ss (u, between)
      (
        record {
          distinct = rw none_yet tt;
          entries = rw none_yet tt;
          active = rw (none_yet, idle) refl;
          limited = rw none_yet (inr (omega arith));
        },
        tt,
      )).0

is_known : Arrival → Bool
is_known udp_ignored = false
is_known udp_denied = false
is_known (udp_known p) = true
is_known (udp_new spec target via) = false

never_known :
    (target : Endpoint) (via : Bool) (q : UdpRule) (p : ℕ) (u' : UdpRule)
    → ask_room target via q ≢ (udp_known p, u')
unfolding ask_room is_known
never_known target via q p u' h = elim (Bool-cases (is_udp_full q)) [
  | inl full ↦
      let same : (udp_denied, deny q) ≡ (udp_known p, u') = simp full at h in
      absurd (cc (ap (λ (x : Arrival × UdpRule). is_known x.0) same))
  | inr free ↦
      let same : (udp_new (spec_of q.rule) target via, q) ≡ (udp_known p, u') = simp free at h in
      absurd (cc (ap (λ (x : Arrival × UdpRule). is_known x.0) same))
]

-- A datagram that goes to a session goes to one that is open, belongs to the client, and leads to
-- the target that new connections have at that moment.
pub receive_datagram-known :
    (net : Addresses) (now p : ℕ) (remote : List ℕ) (cancelled : Bool) (u u' : UdpRule)
    → IsTabled u
    → receive_datagram net now remote cancelled u ≡ (udp_known p, u')
    → (u' ≡ u)
      × ((u.store p).key ≡ remote)
      × ((u.store p).closed ≡ false)
      × (endpoint_eq (u.store p).target (current_target u.rule.router).0 ≡ true)
unfolding receive_datagram route_datagram
receive_datagram-known net now p remote cancelled u u' v h =
    elim (Bool-cases (allowed_by_acl net remote u.rule.acl)) [
      | inr shut ↦ absurd (ground (arith, h, shut))
      | inl open_to ↦ elim (Bool-cases (not u.rule.running || cancelled)) [
        | inl idle ↦ absurd (ground (arith, h, open_to, idle))
        | inr live ↦ elim (Option-cases (find_session remote u.sessions)) [
          | inl missing ↦ absurd (
              never_known (current_target u.rule.router).0 (current_target u.rule.router).1 u p u'
                (ground (arith, h, open_to, live, missing)))
          | inr (q, found) ↦
              elim (Bool-cases (endpoint_eq (u.store q).target (current_target u.rule.router).0)) [
                | inr other ↦ absurd (
                    never_known (current_target u.rule.router).0 (current_target u.rule.router).1
                      (close_session now q (take_away remote u)) p u'
                      (ground (arith, h, open_to, live, found, other)))
                | inl same ↦
                    let one : q ≡ p = ground (arith, h, open_to, live, found, same) in
                    let back : u ≡ u' = ground (arith, h, open_to, live, found, same) in
                    let (key, is_open, there) =
                      find_session-All (Holds u.store u.allocated) remote u.sessions q v.entries
                        found in
                    (
                      sym back,
                      subst (λ (x : ℕ). (u.store x).key ≡ remote) one key,
                      subst (λ (x : ℕ). (u.store x).closed ≡ false) one is_open,
                      subst
                          (λ (x : ℕ).
                            endpoint_eq (u.store x).target (current_target u.rule.router).0 ≡ true)
                          one same,
                    )
              ]
        ]
      ]
    ]
