-- ===== src/Failover/Tests.antt =====
-- Tests of the failover, and its theorems at concrete inputs.
use ctf_proxy_utils.Common.{◌≡◌, refl, true, false, List, [], ◌∷◌, arith}
use ctf_proxy_utils.Spec.{
  Endpoint, RuleSpec, same_endpoint, spec_defaults, health_defaults, dump_defaults,
}
use ctf_proxy_utils.Common.Int.{pos}
use ctf_proxy_utils.Spec.Tests.{a_rule}
use ctf_proxy_utils.Failover.{
  new_router, note_outcome, decide, decide_failover, note_probe, note_endpoint_probe, choose_mode,
  set_routing_mode, switch_to, current_target, store_spec,
}
use ctf_proxy_utils.Failover.Marks.{Follows, after, after-Follows}
use ctf_proxy_utils.Failover.Routes.{
  IsRouted, Action, outcome, choose, switch, put_spec, act, act_all, routes_allowed,
}
use ctf_proxy_utils.Failover.Auto.{fails, fails_over}

program : Unit {0}
unfolding spec_defaults health_defaults dump_defaults new_router note_outcome decide decide_failover
    note_probe note_endpoint_probe choose_mode set_routing_mode switch_to current_target store_spec
    same_endpoint act act_all
program = tt

abbrev rule : RuleSpec
unfolding program
rule = spec_defaults (a_rule "r1" 8080 "10.0.0.2")

abbrev other : Endpoint
other = record { host = "backup"; port = pos 81 }

after-Follows_example :
    Follows 2 3 (true ∷ false ∷ false ∷ []) (after 2 3 (true ∷ false ∷ false ∷ []))
after-Follows_example = after-Follows 2 3 (true ∷ false ∷ false ∷ []) (omega arith) (omega arith)

abbrev actions : List Action
actions = outcome true rule.target false ∷ choose "backup" ∷ switch false ∷ put_spec rule ∷ []

routes_allowed_example : IsRouted (act_all (new_router rule) actions)
unfolding program rule
routes_allowed_example = routes_allowed rule actions refl

-- Two failed probes are enough for a new rule.
fails_over_example : current_target (fails 2 (new_router rule)) ≡ (other, true)
unfolding program rule
fails_over_example =
    fails_over 2 (new_router rule) other
      (record { automatic = refl; watched = refl; may_leave = refl; other = refl; other_up = refl })
      (omega arith)

one_failure_stays : current_target (fails 1 (new_router rule)) ≡ (rule.target, false)
unfolding program rule
one_failure_stays = refl
