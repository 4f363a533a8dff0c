-- ===== src/Spec.antt =====
-- internal/proxy/spec.go: the configuration of a rule and its defaults. `int` fields are integers,
-- since a file may hold any. A value model has no sharing, so that `Clone` is the identity.
pub mod Validate
pub mod Laws
pub mod Tests
use ctf_proxy_utils.Common.{
  ℕ, zero, suc, ◌+◌, ◌-◌, ◌*◌, ◌/◌, ◌%◌, ◌^◌, ◌≤◌, ◌<◌, min, max, String, ◌≡◌, refl, sym, ap, subst,
  ◌∙◌, ◌≢◌, ◌↔◌, ◌⊎◌, inl, inr, Bool, true, false, not, ◌&&◌, ◌||◌, Option, none, some, List, [],
  ◌∷◌, ◌++◌, map, str_eq, eq_iff, arith, ltb, leb, ◌==◌, ==_iff, if◌then◌else◌, Bool-cases,
  Option-cases, length, take, drop, keep, All, get_elem?, is_empty, length-append, take-append-drop,
  length-take, length-drop, take_of_length-le, take-take, take-append, take-append_left,
  take-append_right, length-keep-le, All-append, All-map, All-both, All-keep, length-map, word64,
  add64, sub64, update, update_self, update_ne,
}
use ctf_proxy_utils.Common.Int.{ℤ, pos, negsuc, pos_part}

pub record Endpoint : Type 0 where
  pub host : String
  pub port : ℤ

abbrev pub int_eq : ℤ → ℤ → Bool
int_eq (pos m) (pos n) = m == n
int_eq (negsuc m) (negsuc n) = m == n
int_eq (pos m) (negsuc n) = false
int_eq (negsuc m) (pos n) = false

abbrev pub is_zero : Endpoint → Bool
is_zero e = str_eq e.host "" || int_eq e.port (pos 0)

-- `==` of two endpoints.
abbrev pub endpoint_eq : Endpoint → Endpoint → Bool
endpoint_eq a b = str_eq a.host b.host && int_eq a.port b.port

-- The headers are the entries of the map in the order in which a loop visits them.
pub record HealthSpec : Type 0 where
  pub enabled : Bool
  pub interval_sec : ℤ
  pub timeout_ms : ℤ
  pub fail_after : ℤ
  pub rise_after : ℤ
  pub auto_fail : Bool
  pub auto_back : Bool
  pub mode : String
  pub request : List ℕ
  pub request_mode : String
  pub expect : List ℕ
  pub expect_mode : String
  pub http_method : List ℕ
  pub http_path : List ℕ
  pub http_host : List ℕ
  pub http_status : ℤ
  pub http_headers : List (List ℕ × List ℕ)

pub record InspectSpec : Type 0 where
  pub enabled : Bool
  pub auto_pin : Bool

pub record DumpSpec : Type 0 where
  pub enabled : Bool
  pub max_conns : ℤ
  pub max_bytes_per : ℤ

pub record RuleSpec : Type 0 where
  pub id : String
  pub name : String
  pub enabled : Bool
  pub listen_host : String
  pub listen_port : ℤ
  pub target : Endpoint
  pub backup : Option Endpoint
  pub health : HealthSpec
  pub dump : DumpSpec
  pub routing_mode : String
  pub protocol : String
  pub udp_idle_sec : ℤ
  pub inspect : InspectSpec
  pub allow_cidr : List String
  pub max_conns : ℤ
  pub idle_timeout_sec : ℤ
  pub dial_timeout_ms : ℤ

-- `if n <= 0 { n = d }`, `if s == "" { s = d }`
abbrev pub or_default : ℤ → ℕ → ℤ
or_default n d = if pos_part n == 0 then pos d else n

abbrev pub str_or : String → String → String
str_or s d = if str_eq s "" then d else s

abbrev pub bytes_or : List ℕ → List ℕ → List ℕ
bytes_or b d = if is_empty b then d else b

unfoldable pub health_defaults : HealthSpec → HealthSpec
health_defaults h = record h {
  interval_sec = or_default h.interval_sec 3;
  timeout_ms = or_default h.timeout_ms 1000;
  fail_after = or_default h.fail_after 2;
  rise_after = or_default h.rise_after 2;
  mode = str_or h.mode "tcp";
  request_mode = str_or h.request_mode "text";
  expect_mode = str_or h.expect_mode "text";
  http_method = bytes_or h.http_method (b'G' ∷ b'E' ∷ b'T' ∷ []);
  http_path = bytes_or h.http_path (b'/' ∷ []);
}

unfoldable pub dump_defaults : DumpSpec → DumpSpec
dump_defaults d = record d {
  max_conns = or_default d.max_conns 50;
  max_bytes_per = or_default d.max_bytes_per (64 * 1024);
}

unfoldable pub spec_defaults : RuleSpec → RuleSpec
spec_defaults s = record s {
  routing_mode = str_or s.routing_mode "auto";
  protocol = str_or s.protocol "tcp";
  udp_idle_sec = or_default s.udp_idle_sec 30;
  listen_host = str_or s.listen_host "0.0.0.0";
  dial_timeout_ms = or_default s.dial_timeout_ms 3000;
  health = health_defaults s.health;
  dump = dump_defaults s.dump;
}

-- `sameEndpoint` of manager.go.
unfoldable pub same_endpoint : Option Endpoint → Option Endpoint → Bool
same_endpoint none none = true
same_endpoint none (some b) = false
same_endpoint (some a) none = false
same_endpoint (some a) (some b) = endpoint_eq a b

-- The backup, if `s.Backup != nil && !s.Backup.IsZero()`.
abbrev pub live : Option Endpoint → Option Endpoint
live none = none
live (some b) = if is_zero b then none else some b

abbrev pub is_set : Option Endpoint → Bool
is_set none = false
is_set (some b) = true

abbrev pub has_backup : RuleSpec → Bool
has_backup s = is_set (live s.backup)
