-- ===== src/Manager/Update/Tests.antt =====
-- Tests of an update, and its theorems at concrete inputs.
use ctf_proxy_utils.Common.{◌≡◌, refl, ◌⊎◌, Bool, true, false, Option, none, some, [], arith}
use ctf_proxy_utils.Common.Int.{pos}
use ctf_proxy_utils.Recorder.{new_recorder}
use ctf_proxy_utils.Recorder.Tests.{blank}
use ctf_proxy_utils.Recorder.Invariant.{IsValid}
use ctf_proxy_utils.Recorder.History.{run, run-new-IsValid}
use ctf_proxy_utils.Recorder.Resize.{
  resize, resize_to, evict_loop, trim_all, rebuild_active, count_pinned,
}
use ctf_proxy_utils.Spec.{RuleSpec, spec_defaults, health_defaults, dump_defaults, same_endpoint}
use ctf_proxy_utils.Spec.Validate.{
  check, and_then, spec_validate, addresses_validate, backup_validate, allow_validate,
  loops_to_self, parse_acl, health_validate, header_bytes,
}
use ctf_proxy_utils.Spec.Tests.{bytes_text, small_net, a_rule}
use ctf_proxy_utils.Failover.{store_spec, decide, decide_failover}
use ctf_proxy_utils.Rule.{
  Rule, Ending, spec_of, start_locked, start_health, stop_locked, leave, leave_all, fresh_rule,
}
use ctf_proxy_utils.Manager.{check_port_conflict, clashes}
use ctf_proxy_utils.Manager.Update.{
  UpdateError, ListenAddr, bind_stage, restore, commit, finish_update, replace_spec, update_locked,
  cannot_bind,
}
use ctf_proxy_utils.Manager.Update.Laws.{Undone, Lost, update_locked-Restored}
use ctf_proxy_utils.Manager.Update.Commits.{Committed, update_locked-Committed}

program : Unit {0}
unfolding spec_defaults health_defaults dump_defaults spec_validate check and_then health_validate
    header_bytes addresses_validate backup_validate loops_to_self allow_validate parse_acl clashes
    check_port_conflict store_spec decide decide_failover same_endpoint start_locked start_health
    stop_locked leave leave_all fresh_rule bind_stage restore commit finish_update replace_spec
    update_locked new_recorder resize resize_to evict_loop trim_all rebuild_active count_pinned
program = tt

abbrev gone : Ending
gone = record { writer = none; now = 9; bytes_in = 0; bytes_out = 0 }

abbrev host_only : ListenAddr
host_only host port = host

abbrev running_rule : Rule
unfolding program
running_rule =
    (start_locked false true
      (fresh_rule (λ _. blank) (spec_defaults (a_rule "r1" 8080 "10.0.0.2")) [])).0

-- Another address on the same port: the first attempt fails, the old listener is closed for the second.
abbrev moved : RuleSpec
moved = record (a_rule "r1" 8080 "10.0.0.2") { listen_host = "127.0.0.1" }

abbrev attempt : Bool → Bool → Option (Rule × Option UpdateError)
attempt second again =
    update_locked bytes_text small_net host_only 0 (λ _. gone) false second again [] "r1" moved
      running_rule

abbrev result_of : Bool → Bool → Rule
result_of second again = elim (attempt second again) [ none ↦ running_rule | some x ↦ x.0 ]

update_locked-Restored_example :
    Undone running_rule (result_of false true)
    ⊎ ((true ≡ false) × Lost running_rule (result_of false true))
unfolding program running_rule
update_locked-Restored_example =
    update_locked-Restored bytes_text small_net host_only 0 (λ _. gone) false false true [] "r1"
      moved running_rule (result_of false true) cannot_bind refl

-- When the old listener is lost too, the rule is off.
off : (spec_of (result_of false false)).enabled ≡ false
unfolding program running_rule
off = refl

running_rule-IsValid : IsValid running_rule.rec
unfolding program running_rule run
running_rule-IsValid = run-new-IsValid (λ _. blank) (pos 50) (pos 65536) [] (omega arith)

update_locked-Committed_example :
    Committed small_net
      (spec_defaults (record moved { id = "r1" }))
      running_rule
      (result_of true true)
unfolding program running_rule
update_locked-Committed_example =
    update_locked-Committed bytes_text small_net host_only 0 (λ _. gone) false true true [] "r1"
      moved running_rule (result_of true true) running_rule-IsValid refl
