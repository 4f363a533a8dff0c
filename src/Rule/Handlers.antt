-- ===== src/Rule/Handlers.antt =====
-- All handlers of a rule at once: each connection that is admitted is counted until it leaves.
use ctf_proxy_utils.Common.{
  ℕ, ◌+◌, ◌-◌, ◌%◌, ◌≤◌, ◌≡◌, refl, ap, ◌∙◌, ◌⊎◌, inl, inr, Bool, true, false, not, ◌&&◌, ◌||◌,
  List, [], ◌∷◌, ◌++◌, arith, leb, ◌==◌, if◌then◌else◌, Bool-cases, length, length-append, word64,
  add64,
}
use ctf_proxy_utils.Common.Int.{pos_part}
use ctf_proxy_utils.Spec.{Endpoint, RuleSpec}
use ctf_proxy_utils.Failover.{Router, emit, note_probe, decide_failover, note_endpoint_probe}
use ctf_proxy_utils.Rule.{
  Rule, Addresses, Ending, ignored, admit, allowed_by_acl, is_full, spec_of, leave, leave_all,
  remove_conn, dial_failed, dial_done, open_writer, report_failure, start_locked, start_health,
  stop_locked, reset_stats, probed, failure_span,
}

-- One step of one handler, or a call of the manager; the outcome of a dial is an argument.
pub data Move : Type 0 where
  arrive : Addresses → List ℕ → Bool → Move
  fail : ℕ → Bool → Endpoint → Bool → Move
  connect : Addresses → ℕ → Bool → ℕ → RuleSpec → List ℕ → Endpoint → Bool → Move
  go_away : Ending → ℕ → Move
  start : Bool → Bool → Move
  stop : (ℕ → Ending) → Move
  reset : Move

-- A handler leaves once, and only if it is there.
abbrev pub is_there : ℕ → List ℕ → Bool
is_there id [] = false
is_there id (c ∷ cs) = c == id || is_there id cs

unfoldable pub move : Rule → Move → Rule
move r (arrive net remote cancelled) = (admit net remote cancelled r).1
move r (fail now cancelled target via) = dial_failed now cancelled target via r
move r (connect net now cancelled id spec remote target via) =
    (dial_done net now cancelled id spec remote target via r).0
move r (go_away e id) = if is_there id r.conns then leave e id r else r
move r (start bound binds) = (start_locked bound binds r).0
move r (stop ends) = stop_locked ends r
move r reset = reset_stats r

unfoldable pub moves : Rule → List Move → Rule
moves r [] = r
moves r (m ∷ rest) = moves (move r m) rest

-- The counter of active connections is the number of entries, and no more are open than allowed.
pub record IsCounted (r : Rule) : Type 0 where
  pub active : r.active_conns ≡ length r.conns % word64
  pub limited :
      (pos_part (spec_of r).max_conns ≡ 0) ⊎ (length r.conns ≤ pos_part (spec_of r).max_conns)

length-remove_conn :
    (id : ℕ) (cs : List ℕ) → is_there id cs ≡ true → length (remove_conn id cs) + 1 ≡ length cs
unfolding remove_conn
length-remove_conn id [] h = absurd (cc)
length-remove_conn id (c ∷ cs) h = ground (arith, length-remove_conn id cs)

-- What a step of a connection leaves alone, unless it admits one or lets one go.
record Keeps (r r' : Rule) : Type 0 where
  same_conns : r'.conns ≡ r.conns
  same_active : r'.active_conns ≡ r.active_conns
  same_limit : (spec_of r').max_conns ≡ (spec_of r).max_conns

Keeps-IsCounted : (r r' : Rule) → Keeps r r' → IsCounted r → IsCounted r'
Keeps-IsCounted r r' k v = record {
  active = ground (arith, k.same_conns, k.same_active, v.active);
  limited = rw (k.same_conns, k.same_limit) v.limited;
}

has_room :
    (r : Rule) (id : ℕ)
    → is_full r ≡ false
    → (pos_part (spec_of r).max_conns ≡ 0)
      ⊎ (length (r.conns ++ id ∷ []) ≤ pos_part (spec_of r).max_conns)
has_room r id h = ground (arith, length-append r.conns (id ∷ []))

admit-IsCounted :
    (net : Addresses) (remote : List ℕ) (cancelled : Bool) (r : Rule)
    → IsCounted r
    → IsCounted (admit net remote cancelled r).1
unfolding admit
admit-IsCounted net remote cancelled r v = elim (Bool-cases (not r.running || cancelled)) [
  | inl idle ↦ simp idle v
  | inr live ↦ elim (Bool-cases (not (allowed_by_acl net remote r.acl) || is_full r)) [
    | inl refused ↦ simp (live, refused) (record { active = v.active; limited = v.limited })
    | inr allowed ↦
        simp (live, allowed)
          (record {
            active = omega (arith, v.active, length-append r.conns (add64 r.conn_seq 1 ∷ []));
            limited = has_room r (add64 r.conn_seq 1) (ground arith);
          })
  ]
]

leave-IsCounted :
    (e : Ending) (id : ℕ) (r : Rule)
    → is_there id r.conns ≡ true
    → IsCounted r
    → IsCounted (leave e id r)
unfolding leave
leave-IsCounted e id r there v =
    let shorter = length-remove_conn id r.conns there in
    record {
      active = omega (arith, v.active, shorter);
      limited = elim v.limited [ inl free ↦ inl free | inr few ↦ inr (omega arith) ];
    }

pub spec-note_endpoint_probe :
    (primary : Bool) (e : Endpoint) (ok : Bool) (r : Router)
    → (note_endpoint_probe primary e ok r).spec ≡ r.spec
unfolding note_endpoint_probe note_probe decide_failover
spec-note_endpoint_probe true e ok r = ground arith
spec-note_endpoint_probe false e ok r = ground arith

probed-Keeps :
    (primary : Bool) (e : Endpoint) (ok : Bool) (r : Rule) → Keeps r (probed primary e ok r)
probed-Keeps primary e ok r = record {
  same_conns = refl;
  same_active = refl;
  same_limit = ap (λ (s : RuleSpec). s.max_conns) (spec-note_endpoint_probe primary e ok r.router);
}

dial_failed-Keeps :
    (now : ℕ) (cancelled : Bool) (target : Endpoint) (via : Bool) (r : Rule)
    → Keeps r (dial_failed now cancelled target via r)
unfolding dial_failed report_failure
dial_failed-Keeps now true target via r = record {
  same_conns = refl;
  same_active = refl;
  same_limit = refl;
}
dial_failed-Keeps now false target via r =
    elim (Bool-cases (leb failure_span (now - r.last_failure_event))) [
      | inl due ↦ simp due (record {
        same_conns = refl;
        same_active = refl;
        same_limit = limit (emit "connection_failed" r.router);
      })
      | inr later ↦
          simp later (record { same_conns = refl; same_active = refl; same_limit = limit r.router })
    ]
  where
    limit :
        (q : Router)
        → (note_endpoint_probe (not via) target false q).spec.max_conns ≡ q.spec.max_conns
    limit q = ap (λ (s : RuleSpec). s.max_conns) (spec-note_endpoint_probe (not via) target false q)

dial_done-Keeps :
    (net : Addresses) (now : ℕ) (cancelled : Bool) (id : ℕ) (spec : RuleSpec) (remote : List ℕ)
    (target : Endpoint) (via : Bool) (r : Rule)
    → Keeps r (dial_done net now cancelled id spec remote target via r).0
unfolding dial_done open_writer
dial_done-Keeps net now true id spec remote target via r = record {
  same_conns = refl;
  same_active = refl;
  same_limit = refl;
}
dial_done-Keeps net now false id spec remote target via r =
    elim (Bool-cases (spec.inspect.enabled && r.has_detector)) [
      | inl k ↦ simp k (record { same_conns = refl; same_active = refl; same_limit = limit })
      | inr k ↦ simp k (record { same_conns = refl; same_active = refl; same_limit = limit })
    ]
  where
    limit :
        (note_endpoint_probe (not via) target true r.router).spec.max_conns ≡ (spec_of r).max_conns
    limit =
        ap (λ (s : RuleSpec). s.max_conns) (spec-note_endpoint_probe (not via) target true r.router)

start_locked-Keeps : (bound binds : Bool) (r : Rule) → Keeps r (start_locked bound binds r).0
unfolding start_locked start_health
start_locked-Keeps bound binds r = record {
  same_conns = ground arith;
  same_active = ground arith;
  same_limit = ground arith;
}

first_leaves :
    (e : Ending) (id : ℕ) (ids : List ℕ) (r : Rule)
    → r.conns ≡ id ∷ ids
    → (leave e id r).conns ≡ ids
unfolding leave remove_conn
first_leaves e id ids r same = rw (same, remove_conn) (ground arith)

-- When every handler leaves no connection is left.
leave_all-IsCounted :
    (ends : ℕ → Ending) (ids : List ℕ) (r : Rule)
    → r.conns ≡ ids
    → IsCounted r
    → IsCounted (leave_all ends ids r) × ((leave_all ends ids r).conns ≡ [])
unfolding leave_all
leave_all-IsCounted ends [] r same v = (v, same)
leave_all-IsCounted ends (id ∷ ids) r same v =
    leave_all-IsCounted ends ids (leave (ends id) id r) (first_leaves (ends id) id ids r same)
      (leave-IsCounted (ends id) id r (rw same (ground arith)) v)

-- A stop waits for every handler.
stop_locked-IsCounted :
    (ends : ℕ → Ending) (r : Rule) → IsCounted r → IsCounted (stop_locked ends r)
unfolding stop_locked
stop_locked-IsCounted ends r v = elim (Bool-cases r.running) [
  | inl on ↦
      let (left, gone) =
        leave_all-IsCounted ends r.conns (record r { running = false }) refl
          (record { active = v.active; limited = v.limited }) in
      simp on (record { active = left.active; limited = left.limited })
  | inr off ↦ simp off v
]

move-IsCounted : (r : Rule) (m : Move) → IsCounted r → IsCounted (move r m)
unfolding move reset_stats
move-IsCounted r (arrive net remote cancelled) v = admit-IsCounted net remote cancelled r v
move-IsCounted r (fail now cancelled target via) v =
    Keeps-IsCounted r _ (dial_failed-Keeps now cancelled target via r) v
move-IsCounted r (connect net now cancelled id spec remote target via) v =
    Keeps-IsCounted r _ (dial_done-Keeps net now cancelled id spec remote target via r) v
move-IsCounted r (go_away e id) v = elim (Bool-cases (is_there id r.conns)) [
  | inl there ↦ rw there (leave-IsCounted e id r there v)
  | inr gone ↦ rw gone v
]
move-IsCounted r (start bound binds) v = Keeps-IsCounted r _ (start_locked-Keeps bound binds r) v
move-IsCounted r (stop ends) v = stop_locked-IsCounted ends r v
move-IsCounted r reset v = record { active = v.active; limited = v.limited }

-- Whatever order the handlers of a rule and its starts, stops and resets come in, the counter of
-- active connections is the number of connections that are open, and there are never more of
-- these than the rule allows.
pub moves-IsCounted : (ms : List Move) (r : Rule) → IsCounted r → IsCounted (moves r ms)
unfolding moves
moves-IsCounted [] r v = v
moves-IsCounted (m ∷ rest) r v = moves-IsCounted rest (move r m) (move-IsCounted r m v)

pub running-leave_all :
    (ends : ℕ → Ending) (ids : List ℕ) (r : Rule) → (leave_all ends ids r).running ≡ r.running
unfolding leave_all leave
running-leave_all ends [] r = refl
running-leave_all ends (id ∷ ids) r = running-leave_all ends ids (leave (ends id) id r)

admit_idle :
    (net : Addresses) (remote : List ℕ) (r : Rule)
    → r.running ≡ false
    → admit net remote false r ≡ (ignored, r)
unfolding admit
admit_idle net remote r off = simp off

stopped :
    (ends : ℕ → Ending) (r : Rule)
    → r.running ≡ true
    → IsCounted r
    → ((stop_locked ends r).conns ≡ [])
      × ((stop_locked ends r).active_conns ≡ 0)
      × ((stop_locked ends r).running ≡ false)
unfolding stop_locked
stopped ends r on v =
    let (left, gone) =
      leave_all-IsCounted ends r.conns (record r { running = false }) refl
        (record { active = v.active; limited = v.limited }) in
    simp on (
      gone,
      left.active ∙ ap (λ (cs : List ℕ). length cs % word64) gone,
      running-leave_all ends r.conns (record r { running = false }),
    )

-- After a stop of a running rule no connection is open, the counter of active connections is 0, and
-- a connection that arrives later is ignored.
pub stop_closes :
    (ends : ℕ → Ending) (r : Rule) (net : Addresses) (remote : List ℕ)
    → r.running ≡ true
    → IsCounted r
    → ((stop_locked ends r).conns ≡ [])
      × ((stop_locked ends r).active_conns ≡ 0)
      × (admit net remote false (stop_locked ends r) ≡ (ignored, stop_locked ends r))
stop_closes ends r net remote on v =
    let (closed, none_active, off) = stopped ends r on v in
    (closed, none_active, admit_idle net remote (stop_locked ends r) off)
