-- ===== src/Manager/Update.antt =====
-- internal/proxy/manager.go: `updateLocked`, which changes a rule and its listener in one go or not
-- at all. Whether a listener can be had is an argument for each of the three attempts: the first, the
-- one after the old listener has been closed, and the one that brings the old listener back. So is what
-- the handlers hold that end where the rule is stopped (`ends`). The handlers are those of TCP
-- connections; the sessions of a UDP rule and their stop are in Udp.
pub mod Laws
pub mod Commits
mod Tests
use ctf_proxy_utils.Common.{
  ℕ, zero, suc, ◌+◌, ◌-◌, ◌*◌, ◌/◌, ◌%◌, ◌^◌, ◌≤◌, ◌<◌, min, max, String, ◌≡◌, refl, sym, ap, subst,
  ◌∙◌, ◌≢◌, ◌↔◌, ◌⊎◌, inl, inr, Bool, true, false, not, ◌&&◌, ◌||◌, Option, none, some, List, [],
  ◌∷◌, ◌++◌, map, str_eq, eq_iff, arith, ltb, leb, ◌==◌, ==_iff, if◌then◌else◌, Bool-cases,
  Option-cases, length, take, drop, keep, All, get_elem?, is_empty, length-append, take-append-drop,
  length-take, length-drop, take_of_length-le, take-take, take-append, take-append_left,
  take-append_right, length-keep-le, All-append, All-map, All-both, All-keep, length-map, word64,
  add64, sub64, update, update_self, update_ne,
}
use ctf_proxy_utils.Bytes.{Text}
use ctf_proxy_utils.Common.Int.{ℤ}
use ctf_proxy_utils.Recorder.{Recorder}
use ctf_proxy_utils.Recorder.Resize.{Resized, not_positive, too_many_pins, stuck, resized, resize}
use ctf_proxy_utils.Spec.{RuleSpec, int_eq, spec_defaults}
use ctf_proxy_utils.Spec.Validate.{Net, IpNet, spec_validate, parse_acl}
use ctf_proxy_utils.Failover.{Router, store_spec}
use ctf_proxy_utils.Rule.{
  Rule, Ending, spec_of, emit_event, start_locked, stop_locked, start_health, stop_health,
}
use ctf_proxy_utils.Manager.{passes, check_port_conflict}

pub data UpdateError : Type 0 where
  invalid bad_acl port_taken cannot_bind resize_refused : UpdateError

-- The text of a listen address, from `net.JoinHostPort`.
abbrev pub ListenAddr : Type 0
ListenAddr = String → ℤ → String

abbrev pub addr_of : ListenAddr → RuleSpec → String
addr_of join s = join s.listen_host s.listen_port

abbrev pub needs_listener : ListenAddr → RuleSpec → Rule → Bool
needs_listener join s r =
    s.enabled
    && (not r.running
        || not (str_eq (addr_of join (spec_of r)) (addr_of join s))
        || not (str_eq (spec_of r).protocol s.protocol))

-- The rule after the attempts to bind, whether it was stopped for them, and whether they worked.
pub record Stage : Type 0 where
  pub rule : Rule
  pub stopped : Bool
  pub bound : Bool

unfoldable pub bind_stage : (ℕ → Ending) → Bool → Bool → Bool → RuleSpec → Rule → Stage
bind_stage ends first second need s r =
    if not need || first
    then record { rule = r; stopped = false; bound = true }
    else if r.running
        && int_eq (spec_of r).listen_port s.listen_port
        && str_eq (spec_of r).protocol s.protocol
    then record { rule = stop_locked ends r; stopped = true; bound = second }
    else record { rule = r; stopped = false; bound = false }

abbrev pub disable : Rule → Rule
disable r = record r { router = record r.router { spec = record (spec_of r) { enabled = false } } }

-- `restore`
unfoldable pub restore : Bool → Bool → Rule → Rule
restore again stopped r = emit_event "update_failed" (
    if stopped
    then (let (r', back) = start_locked false again r in if back then r' else disable r')
    else r)

-- The new configuration goes into the rule, and the rule goes on or stops.
unfoldable pub commit :
    (ℕ → Ending) → Bool → Bool → Bool → List IpNet → RuleSpec → Recorder → Rule → Rule
unfolding start_health
commit ends was_running need stopped acl s rec' r =
    let r₁ = record r { rec = rec' } in
    let r₂ =
      if was_running && (not s.enabled || need) && not stopped then stop_locked ends r₁ else r₁ in
    let r₃ = stop_health r₂ in
    let r₄ = record r₃ { router = store_spec s r₃.router; acl = acl } in
    if need then (start_locked true true r₄).0 else if s.enabled then start_health r₄ else r₄

abbrev pub Updated : Type 0
Updated = Option (Rule × Option UpdateError)

-- `Resize` and what follows it; none is a `Resize` that does not end.
unfoldable pub finish_update :
    (ℕ → Ending) → Bool → Bool → Bool → List IpNet → RuleSpec → Resized → Stage → Updated
finish_update ends again was_running need acl s stuck stage = none
finish_update ends again was_running need acl s not_positive stage =
    some (restore again stage.stopped stage.rule, some resize_refused)
finish_update ends again was_running need acl s (too_many_pins n) stage =
    some (restore again stage.stopped stage.rule, some resize_refused)
finish_update ends again was_running need acl s (resized rec') stage =
    some (commit ends was_running need stage.stopped acl s rec' stage.rule, none)

-- `updateLocked` behind its checks.
unfoldable pub replace_spec :
    ListenAddr → ℕ → (ℕ → Ending) → Bool → Bool → Bool → List IpNet → RuleSpec → Rule → Updated
replace_spec join capacity ends first second again acl s r =
    let need = needs_listener join s r in
    let stage = bind_stage ends first second need s r in
    if stage.bound
    then finish_update ends again r.running need acl s
        (resize capacity s.dump.max_conns s.dump.max_bytes_per stage.rule.rec) stage
    else some (restore again stage.stopped stage.rule, some cannot_bind)

unfoldable pub update_locked :
    Text
    → Net
    → ListenAddr
    → ℕ
    → (ℕ → Ending)
    → Bool
    → Bool
    → Bool
    → List (String × RuleSpec)
    → String
    → RuleSpec
    → Rule
    → Updated
update_locked text net join capacity ends first second again rules id spec r =
    let s = spec_defaults (record spec { id = id }) in
    if not (passes text net s) then some (r, some invalid) else elim (parse_acl net s.allow_cidr) [
      | none ↦ some (r, some bad_acl)
      | some acl ↦
          if check_port_conflict net s id rules
          then some (r, some port_taken)
          else replace_spec join capacity ends first second again acl s r
    ]
