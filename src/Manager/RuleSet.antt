-- ===== src/Manager/RuleSet.antt =====
-- A normalized rule set enters an empty manager without an error.
use ctf_proxy_utils.Common.{
  ℕ, suc, String, ◌≡◌, refl, sym, ap, subst, ◌∙◌, inl, inr, true, false, ◌||◌, none, some, List, [],
  ◌∷◌, ◌++◌, map, str_eq, arith, Bool-cases, Option-cases,
}
use ctf_proxy_utils.Bytes.{Text}
use ctf_proxy_utils.Detect.Config.{str_mem}
use ctf_proxy_utils.Common.Int.{ℤ}
use ctf_proxy_utils.Spec.{
  RuleSpec, HealthSpec, DumpSpec, or_default, str_or, bytes_or, spec_defaults, health_defaults,
  dump_defaults,
}
use ctf_proxy_utils.Spec.Validate.{Net, spec_validate}
use ctf_proxy_utils.Spec.Laws.{tests_passed, addresses_passed, allow_validate-parse_acl}
use ctf_proxy_utils.Manager.{
  Registry, no_rules, check_port_conflict, lookup, has_rule, passes, parses, new_rule, with_id,
  register, register_all, any_clash, normalize_loop, normalize_rule_set,
}

-- The manager that holds these rules in this order.
abbrev pub registry_of : List RuleSpec → Registry
registry_of specs = record { rules = map (λ s. (s.id, s)) specs; order = map (λ s. s.id) specs }

or_default_twice :
    (n : ℤ) (d : ℕ) → or_default (or_default n (suc d)) (suc d) ≡ or_default n (suc d)
or_default_twice n d = ground arith

str_or_twice : (s d : String) → str_or (str_or s d) d ≡ str_or s d
str_or_twice s d = ground arith

bytes_or_twice : (b d : List ℕ) → bytes_or (bytes_or b d) d ≡ bytes_or b d
bytes_or_twice [] d = ground arith
bytes_or_twice (x ∷ b) d = refl

health_defaults_twice : (h : HealthSpec) → health_defaults (health_defaults h) ≡ health_defaults h
unfolding health_defaults
health_defaults_twice h =
    rw
      (
        or_default_twice h.interval_sec 2,
        or_default_twice h.timeout_ms 999,
        or_default_twice h.fail_after 1,
        or_default_twice h.rise_after 1,
        str_or_twice h.mode "tcp",
        str_or_twice h.request_mode "text",
        str_or_twice h.expect_mode "text",
        bytes_or_twice h.http_method (71 ∷ 69 ∷ 84 ∷ []),
        bytes_or_twice h.http_path (47 ∷ []),
      )
      refl

dump_defaults_twice : (d : DumpSpec) → dump_defaults (dump_defaults d) ≡ dump_defaults d
unfolding dump_defaults
dump_defaults_twice d =
    rw (or_default_twice d.max_conns 49, or_default_twice d.max_bytes_per 65535) refl

spec_defaults_twice : (s : RuleSpec) → spec_defaults (spec_defaults s) ≡ spec_defaults s
unfolding spec_defaults
spec_defaults_twice s =
    rw
      (
        str_or_twice s.routing_mode "auto",
        str_or_twice s.protocol "tcp",
        or_default_twice s.udp_idle_sec 29,
        str_or_twice s.listen_host "0.0.0.0",
        or_default_twice s.dial_timeout_ms 2999,
        health_defaults_twice s.health,
        dump_defaults_twice s.dump,
      )
      refl

module _ (text : Text) (net : Net) (fresh : String) where
  -- A rule that `NormalizeRuleSet` has let through.
  record Settled (s : RuleSpec) : Type 0 where
    named : str_eq s.id "" ≡ false
    set : spec_defaults s ≡ s
    valid : spec_validate text net s ≡ none

  parses_valid : (s : RuleSpec) → spec_validate text net s ≡ none → parses net s.allow_cidr ≡ true
  parses_valid s h =
      let (routed, dumped, rest) = tests_passed text net s h in
      let (listen, dial, apart, backup, allow) = addresses_passed net s rest in
      ground (arith, allow_validate-parse_acl net s.allow_cidr allow)

  new_rule-Settled : (s : RuleSpec) → Settled s → new_rule text net s ≡ some s
  unfolding new_rule
  new_rule-Settled s v =
      let fine : passes text net s ≡ true = ground (arith, v.valid) in
      rw (v.set, fine, parses_valid s v.valid) refl

  no_conflict :
      (s : RuleSpec) (done : List RuleSpec)
      → any_clash net s done ≡ false
      → check_port_conflict net s "" (registry_of done).rules ≡ false
  unfolding any_clash check_port_conflict
  no_conflict s [] h = refl
  no_conflict s (other ∷ done) h = ground (arith, no_conflict s done)

  map_snoc {κ} :
      {B : Type κ} (f : RuleSpec → B) (xs : List RuleSpec) (x : RuleSpec)
      → map f (xs ++ x ∷ []) ≡ map f xs ++ f x ∷ []
  map_snoc f [] x = refl
  map_snoc f (y ∷ xs) x = ap (◌∷◌ (f y)) (map_snoc f xs x)

  register-Settled :
      (s : RuleSpec) (done : List RuleSpec)
      → Settled s
      → has_rule s.id (registry_of done).rules ≡ false
      → any_clash net s done ≡ false
      → register text net fresh s (registry_of done) ≡ some (registry_of (done ++ s ∷ []))
  unfolding register with_id
  register-Settled s done v new clear =
      let fine : passes text net s ≡ true = ground (arith, v.valid) in
      rw
        (
          v.named,
          v.set,
          fine,
          new,
          no_conflict s done clear,
          new_rule-Settled s v,
          map_snoc {B = String × RuleSpec} (λ x. (x.id, x)) done s,
          map_snoc (λ (x : RuleSpec). x.id) done s,
        )
        refl

  register_all_snoc :
      (xs : List RuleSpec) (s : RuleSpec) (r r' r'' : Registry)
      → register_all text net fresh xs r ≡ some r'
      → register text net fresh s r' ≡ some r''
      → register_all text net fresh (xs ++ s ∷ []) r ≡ some r''
  unfolding register_all
  register_all_snoc [] s r r' r'' h k = ground (arith, k)
  register_all_snoc (x ∷ xs) s r r' r'' h k = elim (Option-cases (register text net fresh x r)) [
    | inl n ↦ absurd (ground arith)
    | inr (q, n) ↦ rw (n, register_all) (register_all_snoc xs s q r' r'' (ground arith) k)
  ]

  has_rule_snoc :
      (x : String) (done : List RuleSpec) (s : RuleSpec)
      → has_rule x (registry_of (done ++ s ∷ [])).rules
        ≡ str_eq s.id x || has_rule x (registry_of done).rules
  unfolding lookup
  has_rule_snoc x [] s = ground arith
  has_rule_snoc x (y ∷ done) s = ground (arith, has_rule_snoc x done s)

  id_named :
      (s : RuleSpec) (f : String)
      → str_eq f "" ≡ false
      → str_eq (spec_defaults (with_id f s)).id "" ≡ false
  unfolding spec_defaults with_id
  id_named s f new = ground (arith, new)

  settle :
      (s : RuleSpec) (f : String)
      → str_eq f "" ≡ false
      → passes text net (spec_defaults (with_id f s)) ≡ true
      → Settled (spec_defaults (with_id f s))
  unfolding with_id
  settle s f new ok_spec = record {
    named = id_named s f new;
    set = spec_defaults_twice (with_id f s);
    valid = ground arith;
  }

  -- The state of the loop: its rules are settled in the manager, and their ids are the known ones.
  record Entered (ids : List String) (done : List RuleSpec) : Type 0 where
    held : register_all text net fresh done no_rules ≡ some (registry_of done)
    known : (x : String) → str_mem x ids ≡ has_rule x (registry_of done).rules

  enter_one :
      (ids : List String) (done : List RuleSpec) (t : RuleSpec)
      → Entered ids done
      → Settled t
      → str_mem t.id ids ≡ false
      → any_clash net t done ≡ false
      → Entered (t.id ∷ ids) (done ++ t ∷ [])
  enter_one ids done t e v new clear = record {
    held =
        register_all_snoc done t no_rules (registry_of done) (registry_of (done ++ t ∷ [])) e.held
          (register-Settled t done v (sym (e.known t.id) ∙ new) clear);
    known = λ x. ground (arith, e.known x, has_rule_snoc x done t);
  }

  loop_enters :
      (new_id : ℕ → String)
      → ((i : ℕ) → str_eq (new_id i) "" ≡ false)
      → (specs : List RuleSpec) (i : ℕ) (ids : List String) (done out : List RuleSpec)
      → Entered ids done
      → normalize_loop text net new_id i ids done specs ≡ some out
      → register_all text net fresh out no_rules ≡ some (registry_of out)
  unfolding normalize_loop
  loop_enters new_id named [] i ids done out e h =
      let same : done ≡ out = ground arith in
      subst (λ rules. register_all text net fresh rules no_rules ≡ some (registry_of rules)) same
        e.held
  loop_enters new_id named (s ∷ rest) i ids done out e h =
      let t = spec_defaults (with_id (new_id i) s) in
      elim (Bool-cases (str_mem t.id ids)) [
        | inl seen ↦ absurd (ground arith)
        | inr new ↦ elim (Bool-cases (passes text net t)) [
          | inr bad ↦ absurd (ground arith)
          | inl fine ↦ elim (Bool-cases (any_clash net t done)) [
            | inl taken ↦ absurd (ground arith)
            | inr clear ↦
                loop_enters new_id named rest (suc i) (t.id ∷ ids) (done ++ t ∷ []) out
                  (enter_one ids done t e (settle s (new_id i) (named i) fine) new clear)
                  (ground arith)
          ]
        ]
      ]

-- A rule set that passes enters an empty manager rule by rule without an error, unchanged and in
-- its order: no check that `Add` makes again can refuse it. New ids are not empty.
pub normalize_rule_set-register_all :
    (text : Text) (net : Net) (new_id : ℕ → String) (fresh : String) (specs out : List RuleSpec)
    → ((i : ℕ) → str_eq (new_id i) "" ≡ false)
    → normalize_rule_set text net new_id specs ≡ some out
    → register_all text net fresh out no_rules ≡ some (registry_of out)
unfolding normalize_rule_set register_all lookup
normalize_rule_set-register_all text net new_id fresh specs out named h =
    loop_enters text net fresh new_id named specs 0 [] [] out
      (record { held = refl; known = λ x. refl }) h
