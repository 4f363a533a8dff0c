-- ===== src/Failover.antt =====
-- internal/proxy/health.go and rule.go: the outcome of probes and connections, the streaks of an
-- endpoint, and the choice of the route for new connections. All of it happens under the lock of the
-- rule. Events are their kinds, since the messages are only shown.
pub mod Auto
pub mod Marks
pub mod Routes
mod Tests
use ctf_proxy_utils.Common.{
  ℕ, zero, suc, ◌+◌, ◌-◌, ◌*◌, ◌/◌, ◌%◌, ◌^◌, ◌≤◌, ◌<◌, min, max, String, ◌≡◌, refl, sym, ap, subst,
  ◌∙◌, ◌≢◌, ◌↔◌, ◌⊎◌, inl, inr, Bool, true, false, not, ◌&&◌, ◌||◌, Option, none, some, List, [],
  ◌∷◌, ◌++◌, map, str_eq, eq_iff, arith, ltb, leb, ◌==◌, ==_iff, if◌then◌else◌, Bool-cases,
  Option-cases, length, take, drop, keep, All, get_elem?, is_empty, length-append, take-append-drop,
  length-take, length-drop, take_of_length-le, take-take, take-append, take-append_left,
  take-append_right, length-keep-le, All-append, All-map, All-both, All-keep, length-map, word64,
  add64, sub64, update, update_self, update_ne,
}
use ctf_proxy_utils.Common.Int.{ℤ, pos, pos_part}
use ctf_proxy_utils.Spec.{
  Endpoint, HealthSpec, RuleSpec, endpoint_eq, has_backup, is_zero, live, same_endpoint,
}

-- The up mark and the two streaks of one endpoint.
pub record Streaks : Type 0 where
  pub up : Bool
  pub failed : ℕ
  pub risen : ℕ

-- The part of `Rule` that the choice of the route reads and writes.
pub record Router : Type 0 where
  pub spec : RuleSpec
  pub target : Streaks
  pub backup : Streaks
  pub using_backup : Bool
  pub events : List String

abbrev pub all_up : Streaks
all_up = record { up = true; failed = 0; risen = 0 }

-- The values of a new rule.
unfoldable pub new_router : RuleSpec → Router
new_router spec = record {
  spec = spec;
  target = all_up;
  backup = all_up;
  using_backup = str_eq spec.routing_mode "backup";
  events = [];
}

abbrev pub emit : String → Router → Router
emit kind r = record r { events = r.events ++ kind ∷ [] }

-- `if n <= 0 { n = 2 }`
abbrev pub threshold : ℤ → ℕ
threshold n = if pos_part n == 0 then 2 else pos_part n

-- The streaks after a probe.
unfoldable pub note_outcome : ℕ → ℕ → Bool → Streaks → Streaks
note_outcome fail_after rise_after ok s =
    if ok
    then (let risen = if ltb s.risen rise_after then s.risen + 1 else s.risen in
        record { up = s.up || leb rise_after risen; failed = 0; risen = risen })
    else (let failed = if ltb s.failed fail_after then s.failed + 1 else s.failed in
        record { up = s.up && not (leb fail_after failed); failed = failed; risen = 0 })

-- The switch of `decideFailoverLocked`.
unfoldable pub decide : RuleSpec → Bool → Bool → Bool → Bool
decide spec target_up backup_up using_backup =
    if not (has_backup spec) || str_eq spec.routing_mode "primary"
    then false
    else if str_eq spec.routing_mode "backup"
    then true
    else if not spec.health.enabled
    then using_backup
    else if not using_backup && not target_up && backup_up && spec.health.auto_fail
    then true
    else if using_backup && target_up && spec.health.auto_back
    then false
    else if using_backup && not backup_up && target_up
    then false
    else using_backup

abbrev pub same : Bool → Bool → Bool
same true b = b
same false b = not b

unfoldable pub decide_failover : Router → Router
decide_failover r =
    let choice = decide r.spec r.target.up r.backup.up r.using_backup in
    if same r.using_backup choice
    then r
    else emit "route_changed" (record r { using_backup = choice })

-- `if before != *up { emit }`
abbrev pub tell : Bool → Bool → Router → Router
tell before after r = if same before after then r else emit "health_changed" r

unfoldable pub note_probe : Bool → Bool → Router → Router
note_probe primary ok r =
    let fail_after = threshold r.spec.health.fail_after in
    let rise_after = threshold r.spec.health.rise_after in
    let target = note_outcome fail_after rise_after ok r.target in
    let backup = note_outcome fail_after rise_after ok r.backup in
    decide_failover (
      if primary
      then tell r.target.up target.up (record r { target = target })
      else tell r.backup.up backup.up (record r { backup = backup }))

-- `noteEndpointProbe`: an outcome for an endpoint that the rule no longer has is ignored.
unfoldable pub note_endpoint_probe : Bool → Endpoint → Bool → Router → Router
note_endpoint_probe true e ok r = if endpoint_eq r.spec.target e then note_probe true ok r else r
note_endpoint_probe false e ok r = elim r.spec.backup [
  | none ↦ r
  | some b ↦ if endpoint_eq b e then note_probe false ok r else r
]

abbrev pub unknown_mode : String → Bool
unknown_mode mode =
    not (str_eq mode "auto") && not (str_eq mode "primary") && not (str_eq mode "backup")

abbrev pub lacks_backup : String → Router → Bool
lacks_backup mode r = str_eq mode "backup" && not (has_backup r.spec)

unfoldable pub choose_mode : String → Router → Router
choose_mode mode r = decide_failover (
    if str_eq r.spec.routing_mode mode
    then r
    else emit "routing_mode" (record r { spec = record r.spec { routing_mode = mode } }))

-- `setRoutingModeLocked`: none is an error.
unfoldable pub set_routing_mode : String → Router → Option Router
set_routing_mode mode r =
    if unknown_mode mode
    then none
    else if lacks_backup mode r
    then none
    else some (choose_mode mode r)

-- The rule after a call that may have failed.
abbrev pub kept : Router → Option Router → Router
kept r none = r
kept r (some r') = r'

-- `SwitchTo`, which drops the error.
unfoldable pub switch_to : Bool → Router → Router
switch_to backup r = kept r (set_routing_mode (if backup then "backup" else "primary") r)

-- `currentTargetLocked`: the endpoint for a new connection, and whether it is the backup.
unfoldable pub current_target : Router → Endpoint × Bool
current_target r =
    if r.using_backup
    then elim (live r.spec.backup) [ none ↦ (r.spec.target, false) | some b ↦ (b, true) ]
    else (r.spec.target, false)

-- What `updateLocked` of manager.go does to the route when the new specification is stored.
unfoldable pub store_spec : RuleSpec → Router → Router
store_spec spec r =
    let target = if endpoint_eq r.spec.target spec.target then r.target else all_up in
    let backup = if same_endpoint r.spec.backup spec.backup then r.backup else all_up in
    emit "updated" (decide_failover (record r { spec = spec; target = target; backup = backup }))
