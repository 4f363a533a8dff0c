-- ===== src/Udp/Stop.antt =====
-- A stop of a UDP rule leaves no session.
use ctf_proxy_utils.Udp.Counted.{IsTabled, Alike, Goes, stays, finish_writer-Alike}
use ctf_proxy_utils.Udp.Removal.{Keyed-entries}
use ctf_proxy_utils.Udp.Table.{bytes_eq_refl}
use ctf_proxy_utils.Common.{
  ℕ, ◌%◌, ◌≡◌, refl, sym, ap, ◌∙◌, inl, inr, true, false, List, [], ◌∷◌, arith, ◌==◌, Bool-cases,
  length, All-map, word64,
}
use ctf_proxy_utils.Rule.{spec_of, stop_health}
use ctf_proxy_utils.Udp.Table.{Entries, bytes_eq, find_session, delete_session, Keyed}
use ctf_proxy_utils.Udp.{
  UdpRule, is_session, close_session, take_away, remove_udp_session, remove_all, close_all,
  pointers, stop_udp,
}

-- What a stop goes through: the entries are still there, though their sessions are closed.
record Stopping (u : UdpRule) (t : Entries) : Type 0 where
  left : u.sessions ≡ t
  keys : Keyed (λ q. (u.store q).key) t
  number : u.rule.active_conns ≡ length t % word64

close_session-keys :
    (now p : ℕ) (u : UdpRule) (q : ℕ) → ((close_session now p u).store q).key ≡ (u.store q).key
unfolding close_session
close_session-keys now p u q = elim (Bool-cases (u.store p).closed) [
  | inl k ↦ simp k refl
  | inr k ↦ elim (Bool-cases (q == p)) [
    | inl same ↦
        let eq : q ≡ p = ground (arith, same) in
        simp (k, same) (ap (λ (x : ℕ). (u.store x).key) (sym eq))
    | inr other ↦ simp (k, other) refl
  ]
]

close_session-same :
    (now p : ℕ) (u : UdpRule)
    → ((close_session now p u).sessions ≡ u.sessions) × Alike u.rule (close_session now p u).rule
unfolding close_session
close_session-same now p u = elim (Bool-cases (u.store p).closed) [
  | inl k ↦ simp k (refl, record { like_active = refl; like_limit = refl })
  | inr k ↦ simp k (
    refl,
    finish_writer-Alike now (u.store p).bytes_in (u.store p).bytes_out u.rule (u.store p).writer,
  )
]

close_session-Stopping :
    (now p : ℕ) (u : UdpRule) (t : Entries) → Stopping u t → Stopping (close_session now p u) t
close_session-Stopping now p u t c =
    let (same, alike) = close_session-same now p u in
    record {
      left = same ∙ c.left;
      keys = All-map (λ e k. close_session-keys now p u e.1 ∙ k) t c.keys;
      number = alike.like_active ∙ c.number;
    }

close_all-Stopping :
    (now : ℕ) (ps : List ℕ) (u : UdpRule) (t : Entries)
    → Stopping u t
    → Stopping (close_all now ps u) t
      × ((spec_of (close_all now ps u).rule).max_conns ≡ (spec_of u.rule).max_conns)
unfolding close_all
close_all-Stopping now [] u t c = (c, refl)
close_all-Stopping now (p ∷ ps) u t c =
    let (same, alike) = close_session-same now p u in
    let (d, limit) =
      close_all-Stopping now ps (close_session now p u) t (close_session-Stopping now p u t c) in
    (d, limit ∙ alike.like_limit)

-- The reader of the first entry gives it up.
first_gone :
    (now : ℕ) (e : List ℕ × ℕ) (t : Entries) (u : UdpRule)
    → Stopping u (e ∷ t)
    → Stopping (remove_udp_session now e.1 u) t
      × ((spec_of (remove_udp_session now e.1 u).rule).max_conns ≡ (spec_of u.rule).max_conns)
unfolding remove_udp_session find_session delete_session
first_gone now e t u c =
    let hit : bytes_eq (u.store e.1).key e.0 ≡ true = rw c.keys.0 (bytes_eq_refl e.0) in
    let found : is_session e.1 (find_session (u.store e.1).key u.sessions) ≡ true =
      rw (c.left, hit) (ground arith) in
    let away = take_away (u.store e.1).key u in
    let alike = close_session-same now e.1 (take_away (u.store e.1).key u) in
    simp found (
      close_session-Stopping now e.1 (take_away (u.store e.1).key u) t (record {
        left = rw (c.left, hit) refl;
        keys = c.keys.1;
        number = omega (arith, c.number);
      }),
      alike.1.like_limit,
    )

remove_all-Stopping :
    (now : ℕ) (t : Entries) (u : UdpRule)
    → Stopping u t
    → Stopping (remove_all now (pointers t) u) []
      × ((spec_of (remove_all now (pointers t) u).rule).max_conns ≡ (spec_of u.rule).max_conns)
unfolding remove_all
remove_all-Stopping now [] u c = (c, refl)
remove_all-Stopping now (e ∷ t) u c =
    let (first, limit) = first_gone now e t u c in
    let (rest, limit') = remove_all-Stopping now t (remove_udp_session now e.1 u) first in
    (rest, limit' ∙ limit)

-- A rule without entries.
empty-Goes :
    (u u' : UdpRule)
    → Stopping u' []
    → (spec_of u'.rule).max_conns ≡ (spec_of u.rule).max_conns
    → Goes u u'
empty-Goes u u' c limit = record {
  tabled = record {
    distinct = rw c.left tt;
    entries = rw c.left tt;
    active = rw c.left c.number;
    limited = rw c.left (inr (omega arith));
  };
  fewer = rw c.left (omega arith);
  limit = limit;
}

-- A stop leaves no session.
pub stop_udp-Goes : (now : ℕ) (u : UdpRule) → IsTabled u → Goes u (stop_udp now u)
unfolding stop_udp
stop_udp-Goes now u v =
    let quiet = record u { rule = record u.rule { running = false } } in
    let start : Stopping quiet u.sessions = record {
      left = refl;
      keys = Keyed-entries u.store u.allocated u.sessions v.entries;
      number = v.active;
    } in
    let (all_closed, limit) = close_all-Stopping now (pointers u.sessions) quiet u.sessions start in
    let q = close_all now (pointers u.sessions) quiet in
    let (gone, limit') =
      remove_all-Stopping now u.sessions (record q { rule = stop_health q.rule })
        (record { left = all_closed.left; keys = all_closed.keys; number = all_closed.number }) in
    elim (Bool-cases u.rule.running) [
      | inl on ↦ simp on (
          empty-Goes u _ (record { left = gone.left; keys = gone.keys; number = gone.number })
            (limit' ∙ limit))
      | inr off ↦ simp off (stays u v)
    ]
