-- ===== src/Manager/Update/Commits.antt =====
-- internal/proxy/manager.go: what an update that succeeds leaves.
use ctf_proxy_utils.Common.{
  ℕ, String, ◌≡◌, refl, sym, ap, subst, ◌∙◌, inl, inr, Bool, true, false, not, ◌&&◌, ◌||◌, none,
  some, List, str_eq, arith, if◌then◌else◌, Bool-cases, Option-cases,
}
use ctf_proxy_utils.Bytes.{Text}
use ctf_proxy_utils.Recorder.{Recorder}
use ctf_proxy_utils.Recorder.Invariant.{IsValid}
use ctf_proxy_utils.Recorder.Resize.{
  Resized, not_positive, too_many_pins, stuck, resized, resize, count_pinned,
}
use ctf_proxy_utils.Recorder.Resize.Laws.{
  Outcome, Resizes, refuses, holds_pins, resizes, resize-Outcome,
}
use ctf_proxy_utils.Spec.{RuleSpec, int_eq, spec_defaults}
use ctf_proxy_utils.Spec.Validate.{Net, IpNet, parse_acl}
use ctf_proxy_utils.Failover.{Router, store_spec, decide_failover}
use ctf_proxy_utils.Recorder.Finish.{Finished, Finished-refl, Finished-trans, count_pinned-Finished}
use ctf_proxy_utils.Rule.{
  Ending, Rule, spec_of, start_locked, stop_locked, start_health, stop_health,
}
use ctf_proxy_utils.Manager.{passes, check_port_conflict}
use ctf_proxy_utils.Manager.Update.{
  ListenAddr, needs_listener, Stage, bind_stage, commit, finish_update, replace_spec, update_locked,
}
use ctf_proxy_utils.Common.Int.{ℤ, pos_part}
use ctf_proxy_utils.Manager.Update.Laws.{
  Parts, stop_locked-Parts, running-stop_locked, start_locked-Starts,
}

-- The rule has the new configuration, its access list, and records within the new limits, and it
-- runs exactly if it is enabled.
pub record Committed (net : Net) (s : RuleSpec) (r r' : Rule) : Type 0 where
  pub new_spec : spec_of r' ≡ s
  pub new_acl : parse_acl net s.allow_cidr ≡ some r'.acl
  pub new_running : r'.running ≡ s.enabled
  pub valid_rec : IsValid r'.rec
  pub limits :
      (r'.rec.max_conns ≡ pos_part s.dump.max_conns)
      × (r'.rec.max_bytes_per ≡ pos_part s.dump.max_bytes_per)
  pub same_pins : count_pinned r'.rec.store r'.rec.dumps ≡ count_pinned r.rec.store r.rec.dumps

spec-store_spec : (s : RuleSpec) (q : Router) → (store_spec s q).spec ≡ s
unfolding store_spec decide_failover
spec-store_spec s q = ground arith

-- What `commit` makes of a rule.
record Commits (acl : List IpNet) (s : RuleSpec) (rec' : Recorder) (r' : Rule) : Type 0 where
  commit_spec : spec_of r' ≡ s
  commit_acl : r'.acl ≡ acl
  commit_rec : Finished rec' r'.rec
  commit_running : r'.running ≡ s.enabled

-- The rule with its new records, stopped where that is due.
abbrev settle : (ℕ → Ending) → Bool → RuleSpec → List IpNet → Recorder → Rule → Rule
settle ends halt s acl rec' r =
    let r₁ = record r { rec = rec' } in
    let r₃ = stop_health (if halt then stop_locked ends r₁ else r₁) in
    record r₃ { router = store_spec s r₃.router; acl = acl }

settle-Commits :
    (ends : ℕ → Ending) (halt : Bool) (s : RuleSpec) (acl : List IpNet) (rec' : Recorder) (r : Rule)
    → (spec_of (settle ends halt s acl rec' r) ≡ s)
      × Finished rec' (settle ends halt s acl rec' r).rec
      × ((settle ends halt s acl rec' r).running ≡ (not halt && r.running))
settle-Commits ends true s acl rec' r = (
  spec-store_spec s _,
  (stop_locked-Parts ends (record r { rec = rec' })).rec_part,
  running-stop_locked ends (record r { rec = rec' }),
)
settle-Commits ends false s acl rec' r = (spec-store_spec s _, Finished-refl rec', refl)

start_health-Parts : (q : Rule) → Parts q (start_health q) × ((start_health q).running ≡ q.running)
unfolding start_health
start_health-Parts q = elim (Bool-cases (not q.running || not (spec_of q).health.enabled)) [
  | inl k ↦
      simp k (record { spec_part = refl; rec_part = Finished-refl q.rec; acl_part = refl }, refl)
  | inr k ↦
      simp k (record { spec_part = refl; rec_part = Finished-refl q.rec; acl_part = refl }, refl)
]

-- A start, or only the health checks, or neither.
finish-Commits :
    (need on : Bool) (acl : List IpNet) (s : RuleSpec) (rec' : Recorder) (q : Rule)
    → s.enabled ≡ on
    → spec_of q ≡ s
    → q.acl ≡ acl
    → Finished rec' q.rec
    → (need ≡ true → (q.running ≡ false) × (on ≡ true))
    → (need ≡ false → q.running ≡ on)
    → Commits acl s rec'
        (if need then (start_locked true true q).0 else if s.enabled then start_health q else q)
finish-Commits true on acl s rec' q e sp ac re up idle =
    let (off, is_on) = up refl in
    let start = start_locked-Starts true true q off in
    record {
      commit_spec = start.parts.spec_part ∙ sp;
      commit_acl = start.parts.acl_part ∙ ac;
      commit_rec = Finished-trans _ _ _ re start.parts.rec_part;
      commit_running = start.runs ∙ sym is_on ∙ sym e;
    }
finish-Commits false true acl s rec' q e sp ac re up idle =
    let (parts, runs) = start_health-Parts q in
    simp e (record {
      commit_spec = parts.spec_part ∙ sp;
      commit_acl = parts.acl_part ∙ ac;
      commit_rec = Finished-trans _ _ _ re parts.rec_part;
      commit_running = runs ∙ idle refl ∙ sym e;
    })
finish-Commits false false acl s rec' q e sp ac re up idle = simp e (record {
  commit_spec = sp;
  commit_acl = ac;
  commit_rec = re;
  commit_running = idle refl ∙ sym e;
})

halted :
    (was on stopped : Bool)
    → (not (was && (not on || true) && not stopped) && (was && not stopped)) ≡ false
halted false on stopped = refl
halted true false false = refl
halted true false true = refl
halted true true false = refl
halted true true true = refl

goes_on :
    (was on stopped : Bool)
    → (on ≡ true → (was ≡ true) × (stopped ≡ false))
    → (not (was && (not on || false) && not stopped) && (was && not stopped)) ≡ on
goes_on false false stopped idle = refl
goes_on true false false idle = refl
goes_on true false true idle = refl
goes_on was true stopped idle = let (w, k) = idle refl in simp (w, k) refl

-- `commit` on a rule that was stopped for the new listener exactly if `stopped`.
commit_lem :
    (ends : ℕ → Ending) (was need stopped : Bool) (acl : List IpNet) (s : RuleSpec)
    (rec' : Recorder) (r : Rule)
    → r.running ≡ (was && not stopped)
    → (need ≡ false → s.enabled ≡ true → (was ≡ true) × (stopped ≡ false))
    → (need ≡ true → s.enabled ≡ true)
    → Commits acl s rec' (commit ends was need stopped acl s rec' r)
unfolding commit
commit_lem ends was true stopped acl s rec' r run idle on =
    let halt = was && (not s.enabled || true) && not stopped in
    let (sp, re, ru) = settle-Commits ends halt s acl rec' r in
    finish-Commits true s.enabled acl s rec' (settle ends halt s acl rec' r) refl sp refl re
      (λ k. (ru ∙ ap (λ z. not halt && z) run ∙ halted was s.enabled stopped, on refl))
      (λ k. absurd (ground (arith, k)))
commit_lem ends was false stopped acl s rec' r run idle on =
    let halt = was && (not s.enabled || false) && not stopped in
    let (sp, re, ru) = settle-Commits ends halt s acl rec' r in
    finish-Commits false s.enabled acl s rec' (settle ends halt s acl rec' r) refl sp refl re
      (λ k. absurd (ground (arith, k)))
      (λ k. ru ∙ ap (λ z. not halt && z) run ∙ goes_on was s.enabled stopped (idle refl))

-- The listener that is there is given up only where one is needed, and a rule that needs none and
-- is enabled is running.
idle_runs :
    (join : ListenAddr) (s : RuleSpec) (r : Rule)
    → needs_listener join s r ≡ false
    → s.enabled ≡ true
    → r.running ≡ true
idle_runs join s r idle on = ground (arith, idle, on)

needed :
    (join : ListenAddr) (s : RuleSpec) (r : Rule)
    → needs_listener join s r ≡ true
    → s.enabled ≡ true
needed join s r k = ground (arith, k)

stage-bound :
    (ends : ℕ → Ending) (first second need : Bool) (s : RuleSpec) (r : Rule)
    → ((bind_stage ends first second need s r).rule.running
        ≡ (r.running && not (bind_stage ends first second need s r).stopped))
      × Finished r.rec (bind_stage ends first second need s r).rule.rec
      × (need ≡ false → (bind_stage ends first second need s r).stopped ≡ false)
unfolding bind_stage
stage-bound ends first second need s r = elim (Bool-cases (not need || first)) [
  | inl k ↦ simp k (ground arith, Finished-refl r.rec, λ h. refl)
  | inr k ↦
      elim (Bool-cases (
        r.running
        && int_eq (spec_of r).listen_port s.listen_port
        && str_eq (spec_of r).protocol s.protocol)) [
          | inl again_here ↦
              simp (k, again_here)
                (
                  running-stop_locked ends r ∙ ground arith,
                  (stop_locked-Parts ends r).rec_part,
                  λ h. absurd (ground (arith, k, h)),
                )
          | inr elsewhere ↦ simp (k, elsewhere) (ground arith, Finished-refl r.rec, λ h. refl)
        ]
]

commit_of :
    (ends : ℕ → Ending) (was need again : Bool) (acl : List IpNet) (s : RuleSpec) (z : Resized)
    (stage : Stage) (r' : Rule)
    → finish_update ends again was need acl s z stage ≡ some (r', none)
    → (rec' : Recorder) × (z ≡ resized rec')
      × (commit ends was need stage.stopped acl s rec' stage.rule ≡ r')
unfolding finish_update
commit_of ends was need again acl s not_positive stage r' h = absurd (ground arith)
commit_of ends was need again acl s (too_many_pins n) stage r' h = absurd (ground arith)
commit_of ends was need again acl s stuck stage r' h = absurd (ground arith)
commit_of ends was need again acl s (resized rec') stage r' h = (rec', refl, ground arith)

-- A `Resize` that goes through.
resized-of :
    (capacity : ℕ) (max_conns max_bytes : ℤ) (q : Recorder) (rec' : Recorder)
    → IsValid q
    → resize capacity max_conns max_bytes q ≡ resized rec'
    → Resizes (pos_part max_conns) (pos_part max_bytes) q rec'
resized-of capacity max_conns max_bytes q rec' v e =
    of_outcome (resize capacity max_conns max_bytes q) e
      (resize-Outcome capacity max_conns max_bytes q v)
  where
    of_outcome :
        (z : Resized)
        → z ≡ resized rec'
        → Outcome (pos_part max_conns) (pos_part max_bytes) q z
        → Resizes (pos_part max_conns) (pos_part max_bytes) q rec'
    of_outcome z e (refuses k) = absurd (ground arith)
    of_outcome z e (holds_pins k l m) = absurd (ground arith)
    of_outcome z e (resizes r' k w) =
        let same : r' ≡ rec' = ground arith in
        subst (Resizes (pos_part max_conns) (pos_part max_bytes) q) same w

replace_spec-Committed :
    (net : Net) (join : ListenAddr) (capacity : ℕ) (ends : ℕ → Ending) (first second again : Bool)
    (acl : List IpNet) (s : RuleSpec) (r r' : Rule)
    → IsValid r.rec
    → parse_acl net s.allow_cidr ≡ some acl
    → replace_spec join capacity ends first second again acl s r ≡ some (r', none)
    → Committed net s r r'
unfolding replace_spec
replace_spec-Committed net join capacity ends first second again acl s r r' v parsed h =
    let need = needs_listener join s r in
    let stage = bind_stage ends first second (needs_listener join s r) s r in
    let (run, rec, idle) = stage-bound ends first second (needs_listener join s r) s r in
    elim (Bool-cases (bind_stage ends first second (needs_listener join s r) s r).bound) [
      | inr unbound ↦ absurd (ground (arith, unbound, h))
      | inl bound ↦
          let (rec', z, same) =
            commit_of ends r.running need again acl s
              (resize capacity s.dump.max_conns s.dump.max_bytes_per stage.rule.rec) stage r'
              (ground (arith, h, bound)) in
          let c =
            commit_lem ends r.running need stage.stopped acl s rec' stage.rule run
              (λ k on. (idle_runs join s r k on, idle k)) (needed join s r) in
          let w =
            resized-of capacity s.dump.max_conns s.dump.max_bytes_per stage.rule.rec rec'
              (rec.stays_valid v) z in
          subst (Committed net s r) same (record {
            new_spec = c.commit_spec;
            new_acl = rw c.commit_acl parsed;
            new_running = c.commit_running;
            valid_rec = c.commit_rec.stays_valid w.valid;
            limits = (c.commit_rec.same_conns ∙ w.conns, c.commit_rec.same_bytes ∙ w.bytes);
            same_pins =
                count_pinned-Finished rec' _ c.commit_rec
                ∙ w.pins
                ∙ count_pinned-Finished r.rec stage.rule.rec rec;
          })
    ]

-- An update that succeeds leaves the new configuration with its access list in the rule, which runs
-- exactly if it is enabled. The recorder has the new limits, is well formed within them, and holds as
-- many pins as before.
pub update_locked-Committed :
    (text : Text) (net : Net) (join : ListenAddr) (capacity : ℕ) (ends : ℕ → Ending)
    (first second again : Bool) (rules : List (String × RuleSpec)) (id : String) (spec : RuleSpec)
    (r r' : Rule)
    → IsValid r.rec
    → update_locked text net join capacity ends first second again rules id spec r ≡ some (r', none)
    → Committed net (spec_defaults (record spec { id = id })) r r'
unfolding update_locked
update_locked-Committed text net join capacity ends first second again rules id spec r r' v h =
    let new = spec_defaults (record spec { id = id }) in
    elim (Bool-cases (passes text net new)) [
      | inr bad ↦ absurd (ground (arith, bad, h))
      | inl fine ↦ elim (Option-cases (parse_acl net new.allow_cidr)) [
        | inl bad ↦ absurd (ground (arith, fine, bad, h))
        | inr (acl, parsed) ↦ elim (Bool-cases (check_port_conflict net new id rules)) [
          | inl taken ↦ absurd (ground (arith, fine, parsed, taken, h))
          | inr free ↦
              replace_spec-Committed net join capacity ends first second again acl new r r' v parsed
                (ground (arith, fine, parsed, free, h))
        ]
      ]
    ]
