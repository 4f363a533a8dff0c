-- ===== src/Udp/Removal.antt =====
-- Sessions are given up, used and refused.
use ctf_proxy_utils.Common.{
  ℕ, ◌-◌, ◌*◌, ◌^◌, ◌<◌, ◌≡◌, refl, sym, ap, subst, ◌∙◌, ◌⊎◌, inl, inr, Bool, true, false, not,
  ◌&&◌, ◌||◌, Option, none, some, List, arith, leb, Bool-cases, length, take, All, is_empty,
  All-map, add64,
}
use ctf_proxy_utils.Common.Int.{pos_part}
use ctf_proxy_utils.Spec.{Endpoint, RuleSpec}
use ctf_proxy_utils.Failover.{emit}
use ctf_proxy_utils.Rule.{Rule, spec_of, probed, start_locked, start_health}
use ctf_proxy_utils.Rule.Handlers.{spec-note_endpoint_probe}
use ctf_proxy_utils.Udp.Table.{
  Entries, find_session, delete_session, Lacks, delete_session-Lacks, Keyed, Without, Lacks-Without,
  absent-Without,
}
use ctf_proxy_utils.Udp.{
  UdpSession, UdpRule, set_session, touch, is_session, close_session, take_away, remove_udp_session,
  Arrival, udp_ignored, udp_denied, udp_known, udp_new, is_udp_full, ask_room, udp_dial_failed,
  count_in, count_out, end_send, send_datagram, ReplyEnd, end_reply, well, timed_out, broken,
  reply_datagram,
}
use ctf_proxy_utils.Udp.Counted.{
  Holds, IsTabled, Alike, same_table, set_session-IsTabled, Goes, Goes-trans, stays, rule-Goes,
  session-Goes, close_session-Goes, take_away-Goes,
}

-- Every entry stands under the key of its session.
pub Keyed-entries :
    (store : ℕ → UdpSession) (n : ℕ) (t : Entries)
    → All (Holds store n) t
    → Keyed (λ q. (store q).key) t
Keyed-entries store n t h = All-map (λ e k. k.0) t h

pub drop_entry :
    (now p : ℕ) (k : List ℕ) (u : UdpRule)
    → (u.store p).key ≡ k
    → find_session k u.sessions ≡ some p
    → IsTabled u
    → Goes u (close_session now p (take_away k u))
drop_entry now p k u same f v =
    let g = take_away-Goes k p u f v in
    let keyed = Keyed-entries u.store u.allocated (delete_session k u.sessions) g.tabled.entries in
    let lacks = delete_session-Lacks k u.sessions v.distinct in
    let lacks' : Lacks (u.store p).key (delete_session k u.sessions) =
      subst (λ (l : List ℕ). Lacks l (delete_session k u.sessions)) (sym same) lacks in
    let gone = Lacks-Without (λ q. (u.store q).key) p (delete_session k u.sessions) keyed lacks' in
    Goes-trans u (take_away k u) _ g (close_session-Goes now p (take_away k u) gone g.tabled)

remove_udp_session-Goes :
    (now p : ℕ) (u : UdpRule) → IsTabled u → Goes u (remove_udp_session now p u)
unfolding remove_udp_session
remove_udp_session-Goes now p u v =
    elim (Bool-cases (is_session p (find_session (u.store p).key u.sessions))) [
      | inl there ↦ simp there (
          drop_entry now p (u.store p).key u refl
            (entry_of p (find_session (u.store p).key u.sessions) there) v)
      | inr gone ↦ simp gone (close_session-Goes now p u (no_entry gone) v)
    ]
  where
    entry_of : (p : ℕ) (o : Option ℕ) → is_session p o ≡ true → o ≡ some p
    entry_of p none h = absurd (ground (arith, h))
    entry_of p (some q) h = let same : q ≡ p = ground (arith, h) in ap some same

    no_entry : is_session p (find_session (u.store p).key u.sessions) ≡ false → Without p u.sessions
    no_entry h =
        elim (absent-Without (λ q. (u.store q).key) p u.sessions
          (Keyed-entries u.store u.allocated u.sessions v.entries) v.distinct) [
            | inl there ↦ absurd (ground (arith, h, there))
            | inr gone ↦ gone
          ]

pub probed-Alike :
    (primary : Bool) (e : Endpoint) (ok : Bool) (r : Rule) → Alike r (probed primary e ok r)
probed-Alike primary e ok r = record {
  like_active = refl;
  like_limit = ap (λ (s : RuleSpec). s.max_conns) (spec-note_endpoint_probe primary e ok r.router);
}

pub udp_dial_failed-Goes :
    (cancelled : Bool) (target : Endpoint) (via : Bool) (u : UdpRule)
    → IsTabled u
    → Goes u (udp_dial_failed cancelled target via u)
unfolding udp_dial_failed
udp_dial_failed-Goes true target via u v = stays u v
udp_dial_failed-Goes false target via u v =
    rule-Goes u _
      (record {
        like_active = refl;
        like_limit =
            ap (λ (s : RuleSpec). s.max_conns)
              (spec-note_endpoint_probe (not via) target false
                (emit "connection_failed" u.rule.router));
      })
      v

-- A session and the counters of its rule.
both-Goes :
    (p : ℕ) (s : UdpSession) (r' : Rule) (u : UdpRule)
    → s.key ≡ (u.store p).key
    → s.closed ≡ (u.store p).closed
    → Alike u.rule r'
    → IsTabled u
    → Goes u (record (set_session p s u) { rule = r' })
both-Goes p s r' u k c a v = record {
  tabled = same_table (set_session p s u) r' a (set_session-IsTabled p s u k c v);
  fewer = omega arith;
  limit = a.like_limit;
}

count_in-Goes : (now p : ℕ) (b : List ℕ) (u : UdpRule) → IsTabled u → Goes u (count_in now p b u).0
unfolding count_in
count_in-Goes now p b u v = elim (Bool-cases (is_empty b)) [
  | inl k ↦ simp k (stays u v)
  | inr k ↦
      simp k (both-Goes p _ _ u refl refl (record { like_active = refl; like_limit = refl }) v)
]

count_out-Goes :
    (now p : ℕ) (b : List ℕ) (u : UdpRule) → IsTabled u → Goes u (count_out now p b u).0
unfolding count_out
count_out-Goes now p b u v = elim (Bool-cases (is_empty b)) [
  | inl k ↦ simp k (stays u v)
  | inr k ↦
      simp k (both-Goes p _ _ u refl refl (record { like_active = refl; like_limit = refl }) v)
]

end_send-Goes :
    (now p : ℕ) (failed : Bool) (u : UdpRule) → IsTabled u → Goes u (end_send now p failed u)
unfolding end_send
end_send-Goes now p false u v = stays u v
end_send-Goes now p true u v =
    let counted = record u {
      rule = record u.rule { failed_conns = add64 u.rule.failed_conns 1 };
    } in
    let c = rule-Goes u counted.rule (record { like_active = refl; like_limit = refl }) v in
    Goes-trans u counted _ c (remove_udp_session-Goes now p counted c.tabled)

pub send_datagram-Goes :
    (now p : ℕ) (payload : List ℕ) (n : ℕ) (failed : Bool) (u : UdpRule)
    → IsTabled u
    → Goes u (send_datagram now p payload n failed u).0
unfolding send_datagram
send_datagram-Goes now p payload n failed u v =
    let first = session-Goes p (record (u.store p) { last = now }) u refl refl v in
    let second = count_in-Goes now p (take n payload) (touch now p u) first.tabled in
    Goes-trans u (count_in now p (take n payload) (touch now p u)).0 _
      (Goes-trans u (touch now p u) (count_in now p (take n payload) (touch now p u)).0 first
        second)
      (end_send-Goes now p failed (count_in now p (take n payload) (touch now p u)).0 second.tabled)

end_reply-Goes :
    (now p : ℕ) (cancelled : Bool) (ending : ReplyEnd) (u : UdpRule)
    → IsTabled u
    → Goes u (end_reply now p cancelled ending u).0
unfolding end_reply
end_reply-Goes now p cancelled well u v = stays u v
end_reply-Goes now p cancelled broken u v = remove_udp_session-Goes now p u v
end_reply-Goes now p cancelled timed_out u v =
    elim (Bool-cases (
      cancelled
      || leb (pos_part (spec_of u.rule).udp_idle_sec * 10 ^ 9) (now - (u.store p).last))) [
        | inl k ↦ simp k (remove_udp_session-Goes now p u v)
        | inr k ↦ simp k (session-Goes p (record (u.store p) { last = now }) u refl refl v)
      ]

pub reply_datagram-Goes :
    (now p : ℕ) (b : List ℕ) (write_failed cancelled : Bool) (ending : ReplyEnd) (u : UdpRule)
    → IsTabled u
    → Goes u (reply_datagram now p b write_failed cancelled ending u).0
unfolding reply_datagram
reply_datagram-Goes now p b write_failed cancelled ending u v =
    let g = count_out-Goes now p b u v in
    elim (Bool-cases (not (is_empty b) && write_failed)) [
      | inl k ↦ simp k (remove_udp_session-Goes now p u v)
      | inr k ↦ simp k (
          Goes-trans u (count_out now p b u).0 _ g
            (end_reply-Goes now p cancelled ending (count_out now p b u).0 g.tabled))
    ]

pub start-Alike : (binds : Bool) (r : Rule) → Alike r (start_locked false binds r).0
unfolding start_locked start_health
start-Alike binds r = record { like_active = ground arith; like_limit = ground arith }

-- A rule that has room for one more session.
abbrev pub Roomy : UdpRule → Type 0
Roomy u =
    (pos_part (spec_of u.rule).max_conns ≡ 0)
    ⊎ (length u.sessions < pos_part (spec_of u.rule).max_conns)

pub Goes-Roomy : (u u' : UdpRule) → Goes u u' → Roomy u → Roomy u'
Goes-Roomy u u' g (inl free) = inl (ap pos_part g.limit ∙ free)
Goes-Roomy u u' g (inr room) =
    let same = ap pos_part g.limit in inr (omega (arith, g.fewer, room, same))

-- A new session is asked for only where there is room.
abbrev pub Asked : Arrival × UdpRule → Type 0
Asked x = elim x.0 [
  | udp_ignored ↦ Unit {0}
  | udp_denied ↦ Unit {0}
  | udp_known p ↦ Unit {0}
  | udp_new spec target via ↦ Roomy x.1
]

pub ask_room-Goes :
    (target : Endpoint) (via : Bool) (u : UdpRule)
    → IsTabled u
    → Goes u (ask_room target via u).1 × Asked (ask_room target via u)
unfolding ask_room
ask_room-Goes target via u v = elim (Bool-cases (is_udp_full u)) [
  | inl full ↦ simp full (rule-Goes u _ (record { like_active = refl; like_limit = refl }) v, tt)
  | inr free ↦ simp free (stays u v, ground arith)
]
