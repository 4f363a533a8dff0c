-- ===== src/Spec/Validate.antt =====
-- internal/proxy/spec.go: the validation of a rule before it is started, and its access list.
-- What the standard library knows of addresses is a parameter.
use ctf_proxy_utils.Common.{
  ℕ, ◌+◌, ◌-◌, ◌*◌, ◌%◌, ◌^◌, String, Bool, true, false, not, ◌&&◌, ◌||◌, Option, none, some, List,
  [], ◌∷◌, str_eq, ltb, ◌==◌, if◌then◌else◌, length, is_empty, word64,
}
use ctf_proxy_utils.Common.Int.{ℤ, pos_part, neg_part}
use ctf_proxy_utils.Bytes.{Text, hex_decode, concat}
use ctf_proxy_utils.Spec.{
  Endpoint, HealthSpec, DumpSpec, RuleSpec, is_zero, int_eq, has_backup, live,
}

-- An address is the bytes of a `net.IP`, a network its address and its mask.
abbrev pub Ip : Type 0
Ip = List ℕ

pub record IpNet : Type 0 where
  pub ip : Ip
  pub mask : List ℕ

-- The functions of the packages net and strings; `interface_addrs` are the addresses of
-- `net.InterfaceAddrs`, and `is_method` is the regular expression of an HTTP method.
pub record Net : Type 0 where
  pub parse_ip : String → Option Ip
  pub parse_cidr : String → Option IpNet
  pub is_unspecified : Ip → Bool
  pub is_loopback : Ip → Bool
  pub ip_equal : Ip → Ip → Bool
  pub is_ip4 : Ip → Bool
  pub cidr_mask : ℕ → ℕ → List ℕ
  pub zero_ip4 : Ip
  pub trim_suffix : String → String → String
  pub equal_fold : String → String → Bool
  pub trim_text : String → String
  pub interface_addrs : List Ip
  pub is_method : List ℕ → Bool

pub data SpecError : Type 0 where
  bad_protocol bad_udp_idle bad_routing backup_needed bad_limits http_over_udp : SpecError
  udp_needs_payload dump_too_large bad_listen_port no_target bad_target_port bad_listen_host :
      SpecError
  empty_target_host target_loops backup_loops bad_backup_port bad_cidr : SpecError
  bad_health_mode bad_request_mode bad_expect_mode bad_status bad_method bad_path bad_header :
      SpecError
  health_too_large headers_too_large bad_request_hex bad_expect_hex bad_expect_regexp : SpecError

-- An `error`: `none` is `nil`.
abbrev pub Verdict : Type 0
Verdict = Option SpecError

-- `if b { return e }`, and what follows.
unfoldable pub check : Bool → SpecError → Verdict → Verdict
check true e rest = some e
check false e rest = rest

-- `if err := v; err != nil { return err }`, and what follows.
unfoldable pub and_then : Verdict → Verdict → Verdict
and_then none rest = rest
and_then (some e) rest = some e

abbrev pub int_gt : ℤ → ℕ → Bool
int_gt n k = ltb k (pos_part n)

abbrev pub is_negative : ℤ → Bool
is_negative n = ltb 0 (neg_part n)

-- `p < 1 || p > 65535`
abbrev pub outside_ports : ℤ → Bool
outside_ports p = ltb (pos_part p) 1 || int_gt p 65535

-- The 64 bits of an integer, and the test of a product of such with a limit.
abbrev pub bits_64 : ℤ → ℕ
bits_64 n = (pos_part n + (word64 - neg_part n % word64)) % word64

abbrev pub signed_gt : ℕ → ℕ → Bool
signed_gt bits limit = ltb bits (2 ^ 63) && ltb limit bits

abbrev pub has_byte : List ℕ → List ℕ → Bool
has_byte set [] = false
has_byte set (c ∷ cs) = mem set || has_byte set cs
  where
    mem : List ℕ → Bool
    mem [] = false
    mem (x ∷ xs) = x == c || mem xs

abbrev crlf : List ℕ
crlf = 13 ∷ 10 ∷ []

abbrev header_breaks : List ℕ
header_breaks = 32 ∷ 9 ∷ 13 ∷ 10 ∷ 58 ∷ []

-- The loop over the headers: their bytes, or none at a bad one.
unfoldable pub header_bytes : List (List ℕ × List ℕ) → Option ℕ
header_bytes [] = some 0
header_bytes ((key, value) ∷ rest) =
    if is_empty key || has_byte header_breaks key || has_byte crlf value
    then none
    else elim (header_bytes rest) [ none ↦ none | some n ↦ some (length key + length value + n) ]

abbrev hex_fails : Text → List ℕ → Bool
hex_fails text b = elim (hex_decode (concat (text.fields b))) [ none ↦ true | some _ ↦ false ]

abbrev regexp_fails : Text → List ℕ → Bool
regexp_fails text b = elim (text.compile b) [ none ↦ true | some _ ↦ false ]

abbrev one_of : String → List String → Bool
one_of s [] = false
one_of s (x ∷ xs) = str_eq s x || one_of s xs

unfoldable pub health_validate : Text → Net → HealthSpec → Verdict
health_validate text net h =
    check (not (one_of h.mode ("" ∷ "tcp" ∷ "payload" ∷ "http" ∷ []))) bad_health_mode (
      check (not (one_of h.request_mode ("" ∷ "text" ∷ "hex" ∷ []))) bad_request_mode (
        check (not (one_of h.expect_mode ("" ∷ "text" ∷ "hex" ∷ "regex" ∷ []))) bad_expect_mode (
          check (is_negative h.http_status || int_gt h.http_status 599) bad_status (
            check (not (is_empty h.http_method) && not (net.is_method h.http_method)) bad_method (
              check (has_byte crlf h.http_path || has_byte crlf h.http_host) bad_path
                (elim (header_bytes h.http_headers) [
                  | none ↦ some bad_header
                  | some n ↦
                      check
                        (ltb (64 * 1024) (length h.request)
                          || ltb 4096 (length h.expect)
                          || ltb 32 (length h.http_headers))
                        health_too_large
                        (check (ltb (16 * 1024) n) headers_too_large (
                          check (str_eq h.request_mode "hex" && hex_fails text h.request)
                            bad_request_hex
                            (check (str_eq h.expect_mode "hex" && hex_fails text h.expect)
                              bad_expect_hex
                              (check (str_eq h.expect_mode "regex" && regexp_fails text h.expect)
                                bad_expect_regexp none))))
                ]))))))

abbrev pub any_equal : Net → Ip → List Ip → Bool
any_equal net ip [] = false
any_equal net ip (a ∷ rest) = net.ip_equal a ip || any_equal net ip rest

unfoldable pub loops_to_self : Net → RuleSpec → Endpoint → Bool
loops_to_self net s e =
    let listen : Ip = elim (net.parse_ip s.listen_host) [ none ↦ net.zero_ip4 | some ip ↦ ip ] in
    if not (int_eq e.port s.listen_port)
    then false
    else if net.equal_fold (net.trim_suffix e.host ".") "localhost"
    then net.is_unspecified listen || net.is_loopback listen
    else elim (net.parse_ip e.host) [
      | none ↦ false
      | some target ↦
          net.ip_equal listen target
          || net.is_unspecified listen
            && (net.is_loopback target
                || net.is_unspecified target
                || any_equal net target net.interface_addrs)
    ]

abbrev pub cidr_fails : Net → String → Bool
cidr_fails net c = elim (net.parse_cidr c) [
  | some n ↦ false
  | none ↦ elim (net.parse_ip c) [ none ↦ true | some ip ↦ false ]
]

-- The loop of `Validate` over the access list.
unfoldable pub allow_validate : Net → List String → Verdict
allow_validate net [] = none
allow_validate net (c ∷ cs) =
    let t = net.trim_text c in
    let rest = allow_validate net cs in
    if str_eq t "" then rest else check (cidr_fails net t) bad_cidr rest

-- The two tests of a backup that is set.
unfoldable pub backup_validate : Net → RuleSpec → Option Endpoint → Verdict
backup_validate net s none = none
backup_validate net s (some b) =
    check (loops_to_self net s b) backup_loops (check (outside_ports b.port) bad_backup_port none)

abbrev pub dump_over : DumpSpec → Bool
dump_over d =
    int_gt d.max_conns 2000
    || int_gt d.max_bytes_per (4 * 1024 * 1024)
    || signed_gt (bits_64 d.max_conns * bits_64 d.max_bytes_per * 2 % word64) (256 * 1024 * 1024)

abbrev pub udp_unchecked : RuleSpec → Bool
udp_unchecked s =
    str_eq s.protocol "udp"
    && s.health.enabled
    && (not (str_eq s.health.mode "payload")
        || is_empty s.health.request
        || is_empty s.health.expect)

abbrev pub no_ip : Net → String → Bool
no_ip net host = elim (net.parse_ip host) [ none ↦ true | some ip ↦ false ]

-- The tests behind the ones of the dump.
unfoldable pub addresses_validate : Net → RuleSpec → Verdict
addresses_validate net s = check (outside_ports s.listen_port) bad_listen_port (
    check (is_zero s.target) no_target (
      check (outside_ports s.target.port) bad_target_port (
        check (not (str_eq s.listen_host "") && no_ip net s.listen_host) bad_listen_host (
          check (str_eq (net.trim_text s.target.host) "") empty_target_host (
            check (loops_to_self net s s.target) target_loops (
              and_then (backup_validate net s (live s.backup))
                (allow_validate net s.allow_cidr)))))))

unfoldable pub spec_validate : Text → Net → RuleSpec → Verdict
spec_validate text net s = check (not (one_of s.protocol ("" ∷ "tcp" ∷ "udp" ∷ []))) bad_protocol (
    check (is_negative s.udp_idle_sec || int_gt s.udp_idle_sec 3600) bad_udp_idle (
      check (not (one_of s.routing_mode ("" ∷ "auto" ∷ "primary" ∷ "backup" ∷ []))) bad_routing (
        check (str_eq s.routing_mode "backup" && not (has_backup s)) backup_needed (
          check (is_negative s.max_conns || is_negative s.idle_timeout_sec) bad_limits (
            and_then (health_validate text net s.health) (
              check (str_eq s.protocol "udp" && str_eq s.health.mode "http") http_over_udp (
                check (udp_unchecked s) udp_needs_payload
                  (check (dump_over s.dump) dump_too_large (addresses_validate net s)))))))))

-- `parseACL`: none is an error.
unfoldable pub parse_acl : Net → List String → Option (List IpNet)
parse_acl net [] = some []
parse_acl net (c ∷ cs) =
    let item = net.trim_text c in
    let rest = parse_acl net cs in
    if str_eq item "" then rest else elim (net.parse_cidr item) [
      | some n ↦ elim rest [ none ↦ none | some ns ↦ some (n ∷ ns) ]
      | none ↦ elim (net.parse_ip item) [
        | none ↦ none
        | some ip ↦
            let bits = if net.is_ip4 ip then 32 else 128 in
            elim rest [
              | none ↦ none
              | some ns ↦ some (record { ip = ip; mask = net.cidr_mask bits bits } ∷ ns)
            ]
      ]
    ]
