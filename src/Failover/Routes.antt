-- ===== src/Failover/Routes.antt =====
-- The route of new connections over all histories of a rule, and the automatic failover.
use ctf_proxy_utils.Common.{
  String, ◌≡◌, refl, inl, inr, Bool, true, false, not, ◌&&◌, ◌||◌, List, [], ◌∷◌, str_eq, eq_iff,
  arith, if◌then◌else◌, Bool-cases,
}
use ctf_proxy_utils.Spec.{Endpoint, RuleSpec, has_backup}
use ctf_proxy_utils.Failover.{
  Router, new_router, decide, decide_failover, note_probe, note_endpoint_probe, set_routing_mode,
  switch_to, kept, unknown_mode, lacks_backup, choose_mode, store_spec,
}

-- What the mode of the rule allows.
abbrev pub allowed : RuleSpec → Bool → Bool
allowed spec using_backup =
    if not (has_backup spec) || str_eq spec.routing_mode "primary"
    then not using_backup
    else if str_eq spec.routing_mode "backup"
    then using_backup
    else true

abbrev pub IsRouted : Router → Type 0
IsRouted r = allowed r.spec r.using_backup ≡ true

pub data Action : Type 0 where
  outcome : Bool → Endpoint → Bool → Action
  choose : String → Action
  switch : Bool → Action
  put_spec : RuleSpec → Action

-- A refused choice of the mode changes nothing.
unfoldable pub act : Router → Action → Router
act r (outcome primary e ok) = note_endpoint_probe primary e ok r
act r (choose mode) = kept r (set_routing_mode mode r)
act r (switch backup) = switch_to backup r
act r (put_spec spec) = store_spec spec r

unfoldable pub act_all : Router → List Action → Router
act_all r [] = r
act_all r (a ∷ rest) = act_all (act r a) rest

decide-allowed : (spec : RuleSpec) (t b u : Bool) → allowed spec (decide spec t b u) ≡ true
unfolding decide
decide-allowed spec t b u = ground arith

decide_failover-IsRouted : (r : Router) → IsRouted (decide_failover r)
unfolding decide_failover
decide_failover-IsRouted r =
    ground (arith, decide-allowed r.spec r.target.up r.backup.up r.using_backup)

note_probe-IsRouted : (primary ok : Bool) (r : Router) → IsRouted (note_probe primary ok r)
unfolding note_probe
note_probe-IsRouted primary ok r = decide_failover-IsRouted _

note_endpoint_probe-IsRouted :
    (primary : Bool) (e : Endpoint) (ok : Bool) (r : Router)
    → IsRouted r
    → IsRouted (note_endpoint_probe primary e ok r)
unfolding note_endpoint_probe
note_endpoint_probe-IsRouted true e ok r h = ground (arith, note_probe-IsRouted true ok r)
note_endpoint_probe-IsRouted false e ok r h = ground (arith, note_probe-IsRouted false ok r)

choose_mode-IsRouted : (mode : String) (r : Router) → IsRouted (choose_mode mode r)
unfolding choose_mode
choose_mode-IsRouted mode r = decide_failover-IsRouted _

set_routing_mode-IsRouted :
    (mode : String) (r : Router) → IsRouted r → IsRouted (kept r (set_routing_mode mode r))
unfolding set_routing_mode
set_routing_mode-IsRouted mode r h = elim (Bool-cases (unknown_mode mode)) [
  | inl k ↦ simp k h
  | inr k ↦ elim (Bool-cases (lacks_backup mode r)) [
    | inl l ↦ simp (k, l) h
    | inr l ↦ simp (k, l) (choose_mode-IsRouted mode r)
  ]
]

store_spec-IsRouted : (spec : RuleSpec) (r : Router) → IsRouted (store_spec spec r)
unfolding store_spec
store_spec-IsRouted spec r = decide_failover-IsRouted _

act-IsRouted : (r : Router) (a : Action) → IsRouted r → IsRouted (act r a)
unfolding act switch_to
act-IsRouted r (outcome primary e ok) h = note_endpoint_probe-IsRouted primary e ok r h
act-IsRouted r (choose mode) h = set_routing_mode-IsRouted mode r h
act-IsRouted r (switch backup) h =
    set_routing_mode-IsRouted (if backup then "backup" else "primary") r h
act-IsRouted r (put_spec spec) h = store_spec-IsRouted spec r

act_all-IsRouted : (actions : List Action) (r : Router) → IsRouted r → IsRouted (act_all r actions)
unfolding act_all
act_all-IsRouted [] r h = h
act_all-IsRouted (a ∷ rest) r h = act_all-IsRouted rest (act r a) (act-IsRouted r a h)

one_mode : (m : String) → str_eq m "primary" ≡ true → str_eq m "backup" ≡ false
one_mode m k = let e : m ≡ "primary" = ground (arith, eq_iff m "primary") in rw e refl

-- After any sequence of outcomes, choices of the mode and new specifications, starting from a rule
-- whose backup mode has a backup, the route is one that the mode of the rule allows: the target
-- without a backup and in the mode primary, the backup in the mode backup.
pub routes_allowed :
    (spec : RuleSpec) (actions : List Action)
    → (str_eq spec.routing_mode "backup" && not (has_backup spec)) ≡ false
    → IsRouted (act_all (new_router spec) actions)
unfolding new_router
routes_allowed spec actions h =
    act_all-IsRouted actions (new_router spec) (ground (arith, one_mode spec.routing_mode))
