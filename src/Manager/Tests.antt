-- ===== src/Manager/Tests.antt =====
-- Tests of rule sets, and their theorem at a concrete one.
use ctf_proxy_utils.Common.{ℕ, String, ◌≡◌, refl, none, some, List, [], ◌∷◌}
use ctf_proxy_utils.Spec.{RuleSpec, spec_defaults, health_defaults, dump_defaults}
use ctf_proxy_utils.Spec.Validate.{
  check, and_then, spec_validate, addresses_validate, backup_validate, allow_validate,
  loops_to_self, parse_acl, health_validate, header_bytes,
}
use ctf_proxy_utils.Spec.Tests.{bytes_text, small_net, a_rule}
use ctf_proxy_utils.Manager.{
  no_rules, clashes, check_port_conflict, lookup, new_rule, with_id, register, register_all,
  any_clash, normalize_loop, normalize_rule_set,
}
use ctf_proxy_utils.Manager.RuleSet.{registry_of, normalize_rule_set-register_all}

program : Unit {0}
unfolding spec_defaults health_defaults dump_defaults spec_validate check and_then health_validate
    header_bytes addresses_validate backup_validate loops_to_self allow_validate parse_acl clashes
    check_port_conflict lookup new_rule with_id register register_all any_clash normalize_loop
    normalize_rule_set
program = tt

abbrev new_id : ℕ → String
new_id i = "new"

abbrev settled : List RuleSpec
unfolding program
settled =
    spec_defaults (a_rule "r1" 8080 "10.0.0.2") ∷ spec_defaults (a_rule "r2" 8081 "10.0.0.2") ∷ []

normalize_rule_set-register_all_example :
    register_all bytes_text small_net "x" settled no_rules ≡ some (registry_of settled)
unfolding program settled
normalize_rule_set-register_all_example =
    normalize_rule_set-register_all bytes_text small_net new_id "x" settled settled (λ i. refl) refl

-- Two rules on one port are refused.
one_port :
    normalize_rule_set bytes_text small_net new_id
      (a_rule "r1" 8080 "10.0.0.2" ∷ a_rule "r2" 8080 "10.0.0.2" ∷ [])
    ≡ none
unfolding program
one_port = refl
