-- ===== src/Spec/Laws.antt =====
-- What the validation of a rule promises to the code that runs the rule.
use ctf_proxy_utils.Common.{
  ◌*◌, ◌≤◌, String, ◌≡◌, refl, ◌≢◌, Bool, true, false, not, ◌&&◌, Option, none, some, List, [], ◌∷◌,
  str_eq, arith, All,
}
use ctf_proxy_utils.Common.Int.{ℤ, pos_part}
use ctf_proxy_utils.Bytes.{Text}
use ctf_proxy_utils.Spec.{Endpoint, RuleSpec, has_backup, live}
use ctf_proxy_utils.Spec.Validate.{
  Net, IpNet, SpecError, Verdict, check, and_then, outside_ports, dump_over, spec_validate,
  addresses_validate, backup_validate, allow_validate, loops_to_self, parse_acl, Ip,
}

abbrev pub IsPort : ℤ → Type 0
IsPort p = (1 ≤ pos_part p) × (pos_part p ≤ 65535)

abbrev pub listen_ip : Net → RuleSpec → Ip
listen_ip net s = elim (net.parse_ip s.listen_host) [ none ↦ net.zero_ip4 | some ip ↦ ip ]

abbrev pub is_localhost : Net → Endpoint → Bool
is_localhost net e = net.equal_fold (net.trim_suffix e.host ".") "localhost"

-- Why connections to an endpoint do not come back to the listener: it has another port; or its host
-- is the name of the local host, and the listener is on an address of one interface; or its host is
-- another name, which is not resolved; or it is an address, and the listener is on one other address;
-- or it is an address, and the listener is on all those of this host, and it is none of them.
pub data IsApart (net : Net) (s : RuleSpec) (e : Endpoint) : Type 0 where
  other_port : e.port ≢ s.listen_port → IsApart net s e
  local_name :
      is_localhost net e ≡ true
      → net.is_unspecified (listen_ip net s) ≡ false
      → net.is_loopback (listen_ip net s) ≡ false
      → IsApart net s e
  other_name : is_localhost net e ≡ false → net.parse_ip e.host ≡ none → IsApart net s e
  other_address :
      (ip : Ip)
      → is_localhost net e ≡ false
      → net.parse_ip e.host ≡ some ip
      → net.ip_equal (listen_ip net s) ip ≡ false
      → net.is_unspecified (listen_ip net s) ≡ false
      → IsApart net s e
  foreign :
      (ip : Ip)
      → is_localhost net e ≡ false
      → net.parse_ip e.host ≡ some ip
      → net.ip_equal (listen_ip net s) ip ≡ false
      → net.is_loopback ip ≡ false
      → net.is_unspecified ip ≡ false
      → All (λ a. net.ip_equal a ip ≡ false) net.interface_addrs
      → IsApart net s e

-- A backup that is set is not the listener; the mode that needs one has one.
abbrev pub BackupFine : Net → RuleSpec → Option Endpoint → Type 0
BackupFine net s none = str_eq s.routing_mode "backup" ≡ false
BackupFine net s (some b) = IsApart net s b × IsPort b.port

pub record IsRunnable (net : Net) (s : RuleSpec) : Type 0 where
  pub listens : IsPort s.listen_port
  pub dials : IsPort s.target.port
  pub apart : IsApart net s s.target
  pub backed : BackupFine net s (live s.backup)
  pub conns : (1 ≤ pos_part s.dump.max_conns) × (pos_part s.dump.max_conns ≤ 2000)
  pub bytes :
      (1 ≤ pos_part s.dump.max_bytes_per) × (pos_part s.dump.max_bytes_per ≤ 4 * 1024 * 1024)
  pub total : pos_part s.dump.max_conns * pos_part s.dump.max_bytes_per * 2 ≤ 256 * 1024 * 1024
  pub acl : List IpNet
  pub acl_parsed : parse_acl net s.allow_cidr ≡ some acl

passed :
    (b : Bool) (e : SpecError) (rest : Verdict)
    → check b e rest ≡ none
    → (b ≡ false) × (rest ≡ none)
unfolding check
passed true e rest h = absurd (cc)
passed false e rest h = (refl, h)

both_passed : (v rest : Verdict) → and_then v rest ≡ none → (v ≡ none) × (rest ≡ none)
unfolding and_then
both_passed none rest h = (refl, h)
both_passed (some e) rest h = absurd (cc)

in_range : (p : ℤ) → outside_ports p ≡ false → IsPort p
in_range p h = ground arith

abbrev pub is_some : Option (List IpNet) → Bool
is_some none = false
is_some (some ns) = true

-- An access list that passes can be parsed.
pub allow_validate-parse_acl :
    (net : Net) (cs : List String)
    → allow_validate net cs ≡ none
    → is_some (parse_acl net cs) ≡ true
unfolding allow_validate parse_acl check
allow_validate-parse_acl net [] h = refl
allow_validate-parse_acl net (c ∷ cs) h = ground (arith, allow_validate-parse_acl net cs)

-- What the tests in front of the addresses leave.
pub tests_passed :
    (text : Text) (net : Net) (s : RuleSpec)
    → spec_validate text net s ≡ none
    → ((str_eq s.routing_mode "backup" && not (has_backup s)) ≡ false)
      × (dump_over s.dump ≡ false)
      × (addresses_validate net s ≡ none)
unfolding spec_validate
tests_passed text net s h₀ =
    let h₁ = (passed _ _ _ h₀).1 in
    let h₂ = (passed _ _ _ h₁).1 in
    let h₃ = (passed _ _ _ h₂).1 in
    let (routed, h₄) = passed _ _ _ h₃ in
    let h₅ = (passed _ _ _ h₄).1 in
    let h₆ = (both_passed _ _ h₅).1 in
    let h₇ = (passed _ _ _ h₆).1 in
    let h₈ = (passed _ _ _ h₇).1 in let (dumped, h₉) = passed _ _ _ h₈ in (routed, dumped, h₉)

pub addresses_passed :
    (net : Net) (s : RuleSpec)
    → addresses_validate net s ≡ none
    → IsPort s.listen_port
      × IsPort s.target.port
      × (loops_to_self net s s.target ≡ false)
      × (backup_validate net s (live s.backup) ≡ none)
      × (allow_validate net s.allow_cidr ≡ none)
unfolding addresses_validate
addresses_passed net s h₀ =
    let (listen, h₁) = passed _ _ _ h₀ in
    let h₂ = (passed _ _ _ h₁).1 in
    let (dial, h₃) = passed _ _ _ h₂ in
    let h₄ = (passed _ _ _ h₃).1 in
    let h₅ = (passed _ _ _ h₄).1 in
    let (apart, h₆) = passed _ _ _ h₅ in
    let (backup, allow) = both_passed _ _ h₆ in
    (in_range s.listen_port listen, in_range s.target.port dial, apart, backup, allow)
