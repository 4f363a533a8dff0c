-- ===== src/Udp/Opening.antt =====
-- The arrival of a datagram and the entry of a new session keep the sessions as they should be.
use ctf_proxy_utils.Udp.Counted.{
  Holds, IsTabled, Alike, Goes, Goes-trans, stays, rule-Goes, other-Holds, close_session-Goes,
}
use ctf_proxy_utils.Udp.Removal.{
  drop_entry, Keyed-entries, probed-Alike, Roomy, Asked, ask_room-Goes,
}
use ctf_proxy_utils.Udp.Table.{find_session-key}
use ctf_proxy_utils.Common.{
  ℕ, ◌+◌, ◌<◌, String, ◌≡◌, refl, ◌∙◌, inl, inr, Bool, true, false, not, ◌&&◌, ◌||◌, List, [], ◌∷◌,
  arith, Bool-cases, Option-cases, All, All-map, add64,
}
use ctf_proxy_utils.Spec.{Endpoint, RuleSpec, endpoint_eq}
use ctf_proxy_utils.Failover.{current_target}
use ctf_proxy_utils.Rule.{Rule, Addresses, open_writer, allowed_by_acl}
use ctf_proxy_utils.Udp.Table.{Entries, find_session, find_session-Lacks, Without}
use ctf_proxy_utils.Udp.{
  UdpSession, UdpRule, close_session, take_away, Arrival, route_datagram, receive_datagram,
  open_session, enter_session,
}

abbrev pub Arrived : UdpRule → Arrival × UdpRule → Type 0
Arrived u x = Goes u x.1 × Asked x

route_datagram-Arrived :
    (now : ℕ) (k : List ℕ) (cancelled : Bool) (u : UdpRule)
    → IsTabled u
    → Arrived u (route_datagram now k cancelled u)
unfolding route_datagram
route_datagram-Arrived now k cancelled u v = elim (Bool-cases (not u.rule.running || cancelled)) [
  | inl idle ↦ simp idle (stays u v, tt)
  | inr live ↦ elim (Option-cases (find_session k u.sessions)) [
    | inl missing ↦
        simp (live, missing)
          (ask_room-Goes (current_target u.rule.router).0 (current_target u.rule.router).1 u v)
    | inr (p, found) ↦
        elim (Bool-cases (endpoint_eq (u.store p).target (current_target u.rule.router).0)) [
          | inl same ↦ simp (live, found, same) (stays u v, tt)
          | inr other ↦
              let keyed = Keyed-entries u.store u.allocated u.sessions v.entries in
              let g =
                drop_entry now p k u
                  (find_session-key (λ q. (u.store q).key) k u.sessions p keyed found) found v in
              let (h, asked) =
                ask_room-Goes (current_target u.rule.router).0 (current_target u.rule.router).1
                  (close_session now p (take_away k u)) g.tabled in
              simp (live, found, other)
                (Goes-trans u (close_session now p (take_away k u)) _ g h, asked)
        ]
  ]
]

pub receive_datagram-Arrived :
    (net : Addresses) (now : ℕ) (remote : List ℕ) (cancelled : Bool) (u : UdpRule)
    → IsTabled u
    → Arrived u (receive_datagram net now remote cancelled u)
unfolding receive_datagram
receive_datagram-Arrived net now remote cancelled u v =
    elim (Bool-cases (allowed_by_acl net remote u.rule.acl)) [
      | inl open_to ↦ simp open_to (route_datagram-Arrived now remote cancelled u v)
      | inr shut ↦
          simp shut (rule-Goes u _ (record { like_active = refl; like_limit = refl }) v, tt)
    ]

open_writer-Alike :
    (net : Addresses) (now id : ℕ) (spec : RuleSpec) (remote : List ℕ) (target : Endpoint)
    (protocol : String) (r : Rule)
    → Alike r (open_writer net now id spec remote target protocol r).0
unfolding open_writer
open_writer-Alike net now id spec remote target protocol r =
    elim (Bool-cases (spec.inspect.enabled && r.has_detector)) [
      | inl k ↦ simp k (record { like_active = refl; like_limit = refl })
      | inr k ↦ simp k (record { like_active = refl; like_limit = refl })
    ]

-- No entry is the next session of the store.
below-Without : (store : ℕ → UdpSession) (n : ℕ) (t : Entries) → All (Holds store n) t → Without n t
below-Without store n [] h = tt
below-Without store n (e ∷ t) h = (ground (arith, h.0.2), below-Without store n t h.1)

more_room :
    (store : ℕ → UdpSession) (n : ℕ) (t : Entries)
    → All (Holds store n) t
    → All (Holds store (n + 1)) t
more_room store n t h = All-map (λ e k. (k.0, k.1, omega (arith, k.2))) t h

-- A new session is open, in the store, and no entry.
pub record IsOpened (p : ℕ) (u u' : UdpRule) : Type 0 where
  pub opened : IsTabled u'
  pub same_room : Roomy u → Roomy u'
  pub no_entry : Without p u'.sessions
  pub is_open : (u'.store p).closed ≡ false
  pub stored : p < u'.allocated

pub open_session-IsOpened :
    (net : Addresses) (now : ℕ) (remote : List ℕ) (spec : RuleSpec) (target : Endpoint)
    (u : UdpRule)
    → IsTabled u
    → IsOpened u.allocated u (open_session net now remote spec target u).0
unfolding open_session
open_session-IsOpened net now remote spec target u v =
    let alike =
      open_writer-Alike net now (add64 u.rule.conn_seq 1) spec remote target "udp"
        (record u.rule { conn_seq = add64 u.rule.conn_seq 1 }) in
    let apart = below-Without u.store u.allocated u.sessions v.entries in
    record {
      opened = record {
        distinct = v.distinct;
        entries =
            other-Holds u.store (u.allocated + 1) u.allocated _ u.sessions apart
              (more_room u.store u.allocated u.sessions v.entries);
        active = alike.like_active ∙ v.active;
        limited = rw alike.like_limit v.limited;
      };
      same_room = λ room. rw alike.like_limit room;
      no_entry = apart;
      is_open = ground arith;
      stored = omega arith;
    }

pub enter_session-IsTabled :
    (now p : ℕ) (cancelled : Bool) (target : Endpoint) (via : Bool) (u : UdpRule)
    → IsTabled u
    → Without p u.sessions
    → (u.store p).closed ≡ false
    → p < u.allocated
    → Roomy u
    → IsTabled (enter_session now p cancelled target via u).1
unfolding enter_session
enter_session-IsTabled now p cancelled target via u v apart is_open stored room =
    let closing = close_session-Goes now p u apart v in
    elim (Bool-cases (not u.rule.running || cancelled)) [
      | inl idle ↦ simp idle closing.tabled
      | inr live ↦ elim (Option-cases (find_session (u.store p).key u.sessions)) [
        | inr (q, found) ↦ simp (live, found) closing.tabled
        | inl missing ↦
            let alike = probed-Alike (not via) target true (record u.rule {
              active_conns = add64 u.rule.active_conns 1;
              total_conns = add64 u.rule.total_conns 1;
            }) in
            simp (live, missing)
              (record {
                distinct = (find_session-Lacks (u.store p).key u.sessions missing, v.distinct);
                entries = ((refl, is_open, stored), v.entries);
                active = omega (arith, alike.like_active, v.active);
                limited =
                    rw alike.like_limit
                      (elim room [ inl free ↦ inl free | inr few ↦ inr (omega arith) ]);
              })
      ]
    ]
