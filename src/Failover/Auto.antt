-- ===== src/Failover/Auto.antt =====
-- The automatic failover: a target that does not answer loses its new connections.
use ctf_proxy_utils.Common.{
  ℕ, zero, suc, ◌≤◌, min, ◌≡◌, refl, sym, ap, subst, ◌∙◌, inl, inr, Bool, true, false, some, str_eq,
  arith, leb, Bool-cases,
}
use ctf_proxy_utils.Spec.{Endpoint, RuleSpec, live}
use ctf_proxy_utils.Failover.{
  same, Router, Streaks, note_outcome, threshold, decide, decide_failover, emit, note_probe,
  current_target,
}

-- As many failed probes of the target.
abbrev pub fails : ℕ → Router → Router
fails zero r = r
fails (suc n) r = note_probe true false (fails n r)

-- The rule watches the target, may leave it, and has another endpoint that is up.
pub record CanSwitch (r : Router) (b : Endpoint) : Type 0 where
  pub automatic : r.spec.routing_mode ≡ "auto"
  pub watched : r.spec.health.enabled ≡ true
  pub may_leave : r.spec.health.auto_fail ≡ true
  pub other : live r.spec.backup ≡ some b
  pub other_up : r.backup.up ≡ true

record Failing (r r' : Router) (n : ℕ) : Type 0 where
  same_spec : r'.spec ≡ r.spec
  same_backup : r'.backup ≡ r.backup
  counted : min n (threshold r.spec.health.fail_after) ≤ r'.target.failed
  left : leb (threshold r.spec.health.fail_after) n ≡ true → r'.using_backup ≡ true

agrees : (a b : Bool) → same a b ≡ true → a ≡ b
agrees a b h = ground arith

decide_failover-kept :
    (r : Router)
    → ((decide_failover r).spec ≡ r.spec)
      × ((decide_failover r).backup ≡ r.backup)
      × ((decide_failover r).target ≡ r.target)
      × ((decide_failover r).using_backup ≡ decide r.spec r.target.up r.backup.up r.using_backup)
unfolding decide_failover
decide_failover-kept r =
    elim (Bool-cases (same r.using_backup (decide r.spec r.target.up r.backup.up r.using_backup))) [
      | inl k ↦ simp k (refl, refl, refl, agrees r.using_backup _ k)
      | inr k ↦ simp k (refl, refl, refl, refl)
    ]

abbrev failed_target : Router → Streaks
failed_target r =
    note_outcome (threshold r.spec.health.fail_after) (threshold r.spec.health.rise_after) false
      r.target

note_probe-failed :
    (r : Router)
    → ((note_probe true false r).spec ≡ r.spec)
      × ((note_probe true false r).backup ≡ r.backup)
      × ((note_probe true false r).target ≡ failed_target r)
      × ((note_probe true false r).using_backup
          ≡ decide r.spec (failed_target r).up r.backup.up r.using_backup)
unfolding note_probe
note_probe-failed r = elim (Bool-cases (same r.target.up (failed_target r).up)) [
  | inl k ↦ simp k (decide_failover-kept (record r { target = failed_target r }))
  | inr k ↦
      simp k (decide_failover-kept (emit "health_changed" (record r { target = failed_target r })))
]

-- The automatic mode leaves a target that is down, and does not return to it.
down_leaves :
    (r : Router) (b : Endpoint) (u : Bool) → CanSwitch r b → decide r.spec false true u ≡ true
unfolding decide
down_leaves r b u c = ground (
  arith,
  c.automatic,
  c.watched,
  c.may_leave,
  c.other,
  ap (λ m. str_eq m "primary") c.automatic,
  ap (λ m. str_eq m "backup") c.automatic,
)

decide_at :
    (s s' : RuleSpec) (t b u : Bool)
    → s ≡ s'
    → t ≡ false
    → b ≡ true
    → decide s' false true u ≡ true
    → decide s t b u ≡ true
decide_at s s' t b u hs ht hb h = cc

-- One more failure counts up to the threshold, and there the endpoint is down.
failed_step :
    (n : ℕ) (q : Router) (f : ℕ)
    → threshold q.spec.health.fail_after ≡ f
    → min n f ≤ q.target.failed
    → (min (suc n) f ≤ (failed_target q).failed)
      × (leb f (suc n) ≡ true → (failed_target q).up ≡ false)
unfolding note_outcome
failed_step n q f same h = (ground (arith, same), λ enough. ground (arith, same))

current_at :
    (q : Router) (b : Endpoint)
    → q.using_backup ≡ true
    → live q.spec.backup ≡ some b
    → current_target q ≡ (b, true)
unfolding current_target
current_at q b u l = simp (u, l)

fails-Failing : (n : ℕ) (r : Router) (b : Endpoint) → CanSwitch r b → Failing r (fails n r) n
fails-Failing zero r b c = record {
  same_spec = refl;
  same_backup = refl;
  counted = omega arith;
  left = λ h. absurd (ground arith);
}
fails-Failing (suc n) r b c =
    let before = fails-Failing n r b c in
    let f = threshold r.spec.health.fail_after in
    let same_f = ap (λ (s : RuleSpec). threshold s.health.fail_after) before.same_spec in
    let next = failed_step n (fails n r) f same_f before.counted in
    let (spec, backup, target, choice) = note_probe-failed (fails n r) in
    record {
      same_spec = spec ∙ before.same_spec;
      same_backup = backup ∙ before.same_backup;
      counted = subst (λ (t : Streaks). min (suc n) f ≤ t.failed) (sym target) next.0;
      left = λ h.
          choice
          ∙ decide_at _ r.spec _ _ _ before.same_spec (next.1 h)
              (ap (λ (t : Streaks). t.up) before.same_backup ∙ c.other_up)
              (down_leaves r b (fails n r).using_backup c);
    }

-- A rule in the automatic mode that watches its target and may leave it sends new connections to
-- its backup, when that is up, after as many failed probes of the target as the threshold; it does
-- so whatever the marks were before.
pub fails_over :
    (n : ℕ) (r : Router) (b : Endpoint)
    → CanSwitch r b
    → threshold r.spec.health.fail_after ≤ n
    → current_target (fails n r) ≡ (b, true)
fails_over n r b c h =
    let state = fails-Failing n r b c in
    current_at (fails n r) b (state.left (ground arith))
      (ap (λ (s : RuleSpec). live s.backup) state.same_spec ∙ c.other)
