-- ===== src/Manager.antt =====
-- internal/proxy/manager.go: the rules of a manager, their order, and complete rule sets.
-- Starting the listener of a registered rule is network I/O and not part of these steps.
pub mod RuleSet
pub mod Update
mod Tests
use ctf_proxy_utils.Common.{
  ℕ, zero, suc, ◌+◌, ◌-◌, ◌*◌, ◌/◌, ◌%◌, ◌^◌, ◌≤◌, ◌<◌, min, max, String, ◌≡◌, refl, sym, ap, subst,
  ◌∙◌, ◌≢◌, ◌↔◌, ◌⊎◌, inl, inr, Bool, true, false, not, ◌&&◌, ◌||◌, Option, none, some, List, [],
  ◌∷◌, ◌++◌, map, str_eq, eq_iff, arith, ltb, leb, ◌==◌, ==_iff, if◌then◌else◌, Bool-cases,
  Option-cases, length, take, drop, keep, All, get_elem?, is_empty, length-append, take-append-drop,
  length-take, length-drop, take_of_length-le, take-take, take-append, take-append_left,
  take-append_right, length-keep-le, All-append, All-map, All-both, All-keep, length-map, word64,
  add64, sub64, update, update_self, update_ne,
}
use ctf_proxy_utils.Bytes.{Text}
use ctf_proxy_utils.Detect.Config.{str_mem}
use ctf_proxy_utils.Spec.{RuleSpec, int_eq, spec_defaults}
use ctf_proxy_utils.Spec.Validate.{Ip, IpNet, Net, SpecError, Verdict, spec_validate, parse_acl}

-- The map of the rules, as its entries, and the order in which they were added.
pub record Registry : Type 0 where
  pub rules : List (String × RuleSpec)
  pub order : List String

abbrev pub no_rules : Registry
no_rules = record { rules = []; order = [] }

abbrev pub unspecified : Net → Option Ip → Bool
unspecified net none = false
unspecified net (some ip) = net.is_unspecified ip

abbrev pub equal_ips : Net → Option Ip → Option Ip → Bool
equal_ips net none b = false
equal_ips net (some a) none = false
equal_ips net (some a) (some b) = net.ip_equal a b

-- Whether two listeners would take the same port.
unfoldable pub clashes : Net → RuleSpec → RuleSpec → Bool
clashes net other spec =
    let left = net.parse_ip other.listen_host in
    let right = net.parse_ip spec.listen_host in
    int_eq other.listen_port spec.listen_port
    && str_eq other.protocol spec.protocol
    && (str_eq other.listen_host spec.listen_host
        || unspecified net left
        || unspecified net right
        || equal_ips net left right)

-- `checkPortConflictLocked`: a rule with the excluded id does not count.
unfoldable pub check_port_conflict : Net → RuleSpec → String → List (String × RuleSpec) → Bool
check_port_conflict net spec exclude [] = false
check_port_conflict net spec exclude ((id, other) ∷ rest) =
    not (str_eq id exclude) && clashes net other spec || check_port_conflict net spec exclude rest

unfoldable pub lookup : String → List (String × RuleSpec) → Option RuleSpec
lookup id [] = none
lookup id ((k, s) ∷ rest) = if str_eq k id then some s else lookup id rest

abbrev pub has_rule : String → List (String × RuleSpec) → Bool
has_rule id rules = elim (lookup id rules) [ none ↦ false | some s ↦ true ]

abbrev pub passes : Text → Net → RuleSpec → Bool
passes text net s = elim (spec_validate text net s) [ none ↦ true | some e ↦ false ]

abbrev pub parses : Net → List String → Bool
parses net cs = elim (parse_acl net cs) [ none ↦ false | some ns ↦ true ]

-- The checks of `newRule`.
unfoldable pub new_rule : Text → Net → RuleSpec → Option RuleSpec
new_rule text net spec =
    let s = spec_defaults spec in
    if not (passes text net s) then none else if not (parses net s.allow_cidr) then none else some s

-- `if spec.ID == "" { spec.ID = newID() }`
unfoldable pub with_id : String → RuleSpec → RuleSpec
with_id fresh s = if str_eq s.id "" then record s { id = fresh } else s

abbrev pub enter : Registry → RuleSpec → Registry
enter r s = record { rules = r.rules ++ (s.id, s) ∷ []; order = r.order ++ s.id ∷ [] }

-- `addLocked` up to the entry of the rule.
unfoldable pub register : Text → Net → String → RuleSpec → Registry → Option Registry
register text net fresh spec r =
    let s = spec_defaults (with_id fresh spec) in
    if not (passes text net s)
    then none
    else if has_rule s.id r.rules
    then none
    else if check_port_conflict net s "" r.rules
    then none
    else elim (new_rule text net s) [ none ↦ none | some rule ↦ some (enter r rule) ]

-- The loop of `replace` in `ReplaceSpecs`, from an empty manager.
unfoldable pub register_all : Text → Net → String → List RuleSpec → Registry → Option Registry
register_all text net fresh [] r = some r
register_all text net fresh (s ∷ rest) r = elim (register text net fresh s r) [
  | none ↦ none
  | some r' ↦ register_all text net fresh rest r'
]

unfoldable pub any_clash : Net → RuleSpec → List RuleSpec → Bool
any_clash net spec [] = false
any_clash net spec (other ∷ rest) = clashes net other spec || any_clash net spec rest

-- The loop of `NormalizeRuleSet`; `fresh i` is the new id for the i-th rule.
unfoldable pub normalize_loop :
    Text
    → Net
    → (ℕ → String)
    → ℕ
    → List String
    → List RuleSpec
    → List RuleSpec
    → Option (List RuleSpec)
normalize_loop text net fresh i ids done [] = some done
normalize_loop text net fresh i ids done (spec ∷ rest) =
    let s = spec_defaults (with_id (fresh i) spec) in
    let more = normalize_loop text net fresh (suc i) (s.id ∷ ids) (done ++ s ∷ []) rest in
    if str_mem s.id ids
    then none
    else if not (passes text net s)
    then none
    else if any_clash net s done
    then none
    else more

unfoldable pub normalize_rule_set :
    Text → Net → (ℕ → String) → List RuleSpec → Option (List RuleSpec)
normalize_rule_set text net fresh specs = normalize_loop text net fresh 0 [] [] specs
