-- ===== src/Spec/Tests.antt =====
-- Tests of the validation, and its theorem at a concrete rule.
use ctf_proxy_utils.Common.{
  ℕ, String, ◌≡◌, refl, true, false, none, some, [], ◌∷◌, str_eq, ◌==◌, if◌then◌else◌,
}
use ctf_proxy_utils.Common.Int.{pos, negsuc}
use ctf_proxy_utils.Bytes.{Text}
use ctf_proxy_utils.Spec.{RuleSpec, spec_defaults, health_defaults, dump_defaults, same_endpoint}
use ctf_proxy_utils.Spec.Validate.{
  Net, check, and_then, spec_validate, addresses_validate, backup_validate, allow_validate,
  loops_to_self, parse_acl, health_validate, header_bytes, target_loops,
}

abbrev pub bytes_text : Text
bytes_text = record {
  trim_space = λ s. s;
  to_lower = λ s. s;
  fields = λ s. s ∷ [];
  is_utf8 = λ s. true;
  query_unescape = λ s. some s;
  compile = λ s. none;
}

-- A host with two addresses, and the unspecified one.
abbrev pub small_net : Net
small_net = record {
  parse_ip = λ s.
      if str_eq s "0.0.0.0"
      then some (0 ∷ 0 ∷ 0 ∷ 0 ∷ [])
      else if str_eq s "127.0.0.1"
      then some (127 ∷ 0 ∷ 0 ∷ 1 ∷ [])
      else if str_eq s "10.0.0.2"
      then some (10 ∷ 0 ∷ 0 ∷ 2 ∷ [])
      else none;
  parse_cidr = λ s. none;
  is_unspecified = λ ip. elim ip [ [] ↦ false | a ∷ rest ↦ a == 0 ];
  is_loopback = λ ip. elim ip [ [] ↦ false | a ∷ rest ↦ a == 127 ];
  ip_equal = λ a b. elim a [ [] ↦ false | x ∷ xs ↦ elim b [ [] ↦ false | y ∷ ys ↦ x == y ] ];
  is_ip4 = λ ip. true;
  cidr_mask = λ ones bits. [];
  zero_ip4 = 0 ∷ 0 ∷ 0 ∷ 0 ∷ [];
  trim_suffix = λ s t. s;
  equal_fold = str_eq;
  trim_text = λ s. s;
  interface_addrs = [];
  is_method = λ m. true;
}

abbrev pub a_rule : String → ℕ → String → RuleSpec
a_rule id port target = record {
  id = id;
  name = id;
  enabled = true;
  listen_host = "";
  listen_port = pos port;
  target = record { host = target; port = pos 80 };
  backup = some (record { host = "backup"; port = pos 81 });
  health = record {
    enabled = true;
    interval_sec = pos 0;
    timeout_ms = pos 0;
    fail_after = pos 0;
    rise_after = pos 0;
    auto_fail = true;
    auto_back = false;
    mode = "";
    request = [];
    request_mode = "";
    expect = [];
    expect_mode = "";
    http_method = [];
    http_path = [];
    http_host = [];
    http_status = pos 0;
    http_headers = [];
  };
  dump = record { enabled = true; max_conns = pos 0; max_bytes_per = negsuc 3 };
  routing_mode = "";
  protocol = "";
  udp_idle_sec = pos 0;
  inspect = record { enabled = false; auto_pin = false };
  allow_cidr = "10.0.0.2" ∷ [];
  max_conns = pos 2;
  idle_timeout_sec = pos 0;
  dial_timeout_ms = pos 0;
}

program : Unit {0}
unfolding spec_defaults health_defaults dump_defaults spec_validate check and_then health_validate
    header_bytes addresses_validate backup_validate loops_to_self allow_validate parse_acl
    same_endpoint
program = tt

-- A rule that forwards to its own listener is refused.
own_listener :
    spec_validate bytes_text small_net (spec_defaults (a_rule "r1" 80 "127.0.0.1"))
    ≡ some target_loops
unfolding program
own_listener = refl
