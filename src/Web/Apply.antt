-- ===== src/Web/Apply.antt =====
-- internal/web/api.go: a new configuration of the detectors goes into the engine, or the old one stays.
use ctf_proxy_utils.Common.{
  String, ◌≡◌, refl, sym, ap, ◌∙◌, inl, inr, true, false, ◌||◌, Option, none, some, List, [], ◌∷◌,
  str_eq, arith, ltb, Bool-cases, ◌++◌, if◌then◌else◌, length, take,
}
use ctf_proxy_utils.Common.Int.{pos_part}
use ctf_proxy_utils.Bytes.{Text}
use ctf_proxy_utils.Detect.Config.{
  DetectionConfig, DetectorSpec, apply_defaults, validate, validate_detectors, compile_detector,
  CompiledDetector, Checked, ok, err, ◌>>=◌, ◌>>◌, refuse, str_mem, bad_limits, bad_thresholds,
  empty_id, repeated_id,
}
use ctf_proxy_utils.Detect.{DetectorEngine, configure, compile_enabled}
use ctf_proxy_utils.Spec.{RuleSpec}
use ctf_proxy_utils.Config.Disk.{Files, Calls}
use ctf_proxy_utils.Config.Valid.{validate-apply_defaults, apply_defaults_idem}
use ctf_proxy_utils.Config.{Stored, Saved, keep_detection, set_detection}
use ctf_proxy_utils.Web.{
  Applied, Saves, notify, set_detection_config, take_back, end_apply, store_applied, apply_checked,
  apply_detection_config,
}

bind_ok :
    {A B : Type 0} (m : Checked A) (f : A → Checked B) (b : B)
    → (m >>= f) ≡ ok b
    → (a : A) × (m ≡ ok a) × (f a ≡ ok b)
bind_ok (err e) f b h = absurd (ground (arith, h))
bind_ok (ok a) f b h = (a, refl, h)

-- Detectors that pass the check can be compiled.
validate_detectors-compiles :
    (text : Text) (seen : List String) (ds : List DetectorSpec) (u : Unit {0})
    → validate_detectors text seen ds ≡ ok u
    → (cs : List CompiledDetector) × (compile_enabled text ds ≡ ok cs)
unfolding validate_detectors compile_enabled
validate_detectors-compiles text seen [] u h = ([], refl)
validate_detectors-compiles text seen (d ∷ ds) u h =
    let rest_of = λ (c : CompiledDetector). validate_detectors text (d.id ∷ seen) ds in
    let is_new = refuse (str_mem d.id seen) repeated_id in
    let (u₁, named, h₁) =
      bind_ok (refuse (str_eq d.id "") empty_id)
        (λ x. is_new >> (compile_detector text d >>= rest_of)) u h in
    let (u₂, fresh, h₂) = bind_ok is_new (λ x. compile_detector text d >>= rest_of) u h₁ in
    let (c, compiled, h₃) = bind_ok (compile_detector text d) rest_of u h₂ in
    let (cs, rest) = validate_detectors-compiles text (d.id ∷ seen) ds u h₃ in
    elim (Bool-cases d.enabled) [
      | inl on ↦ simp (on, compiled, rest) (c ∷ cs, refl)
      | inr off ↦ simp (off, rest) (cs, refl)
    ]

validate-compiles :
    (text : Text) (config : DetectionConfig) (u : Unit {0})
    → validate text config ≡ ok u
    → (cs : List CompiledDetector) × (compile_enabled text (apply_defaults config).detectors
        ≡ ok cs)
unfolding validate
validate-compiles text config u h =
    let c = apply_defaults config in
    let sizes =
      refuse
        (ltb (pos_part c.max_findings) 1
          || ltb 5000 (pos_part c.max_findings)
          || ltb (pos_part c.buffer_bytes) 4096
          || ltb 4194304 (pos_part c.buffer_bytes))
        bad_limits in
    let scores =
      refuse
        (ltb (pos_part c.threshold) 1
          || ltb 100 (pos_part c.threshold)
          || ltb (pos_part c.auto_pin_score) 1
          || ltb 100 (pos_part c.auto_pin_score))
        bad_thresholds in
    let (u₁, in_range, h₁) =
      bind_ok scores (λ x. sizes >> validate_detectors text [] c.detectors) u h in
    let (u₂, in_limits, h₂) = bind_ok sizes (λ x. validate_detectors text [] c.detectors) u h₁ in
    validate_detectors-compiles text [] (apply_defaults config).detectors u h₂

-- The engine has a configuration that is valid and has its defaults set, and searches with the
-- detectors that are compiled from it: the enabled ones, with the built-in ones where they are on.
pub record IsConfigured (text : Text) (builtins : List CompiledDetector) (e : DetectorEngine)
    : Type 0 where
  pub sound : validate text e.config ≡ ok tt
  pub complete : apply_defaults e.config ≡ e.config
  pub own : List CompiledDetector
  pub own_compiled : compile_enabled text e.config.detectors ≡ ok own
  pub all_compiled : e.compiled ≡ (if e.config.builtins then builtins ++ own else own)

-- What `Configure` makes of an engine.
record Takes (text : Text) (builtins : List CompiledDetector) (config : DetectionConfig)
    (e : DetectorEngine) : Type 0 where
  taken : DetectorEngine
  done : configure text builtins config e ≡ ok taken
  new_config : taken.config ≡ apply_defaults config
  configured : IsConfigured text builtins taken

-- The engine with a configuration and the detectors compiled from it.
abbrev configured_by :
    List CompiledDetector
    → DetectionConfig
    → List CompiledDetector
    → DetectorEngine
    → DetectorEngine
configured_by builtins c cs e = record e {
  config = c;
  compiled = if c.builtins then builtins ++ cs else cs;
  findings =
      if ltb (pos_part c.max_findings) (length e.findings)
      then take (pos_part c.max_findings) e.findings
      else e.findings;
}

-- `Configure` takes a configuration that is valid.
configure-valid :
    (text : Text) (builtins : List CompiledDetector) (config : DetectionConfig) (e : DetectorEngine)
    (u : Unit {0})
    → validate text config ≡ ok u
    → Takes text builtins config e
unfolding configure
configure-valid text builtins config e u h =
    let (cs, compiled) = validate-compiles text config u h in
    let same = validate-apply_defaults text config in
    record {
      taken = configured_by builtins (apply_defaults config) cs e;
      done = simp (same, h, compiled) refl;
      new_config = refl;
      configured = record {
        sound = same ∙ h;
        complete = apply_defaults_idem config;
        own = cs;
        own_compiled = compiled;
        all_compiled = refl;
      };
    }

-- The two engines have one configuration and search with the same detectors.
pub SameSetup : DetectorEngine → DetectorEngine → Type 0
SameSetup e e' = (e'.config ≡ e.config) × (e'.compiled ≡ e.compiled)

abbrev own_of : Checked (List CompiledDetector) → List CompiledDetector
own_of (err x) = []
own_of (ok cs) = cs

-- Two configured engines with one configuration search with the same detectors.
same_setup :
    (text : Text) (builtins : List CompiledDetector) (e e' : DetectorEngine)
    → IsConfigured text builtins e
    → IsConfigured text builtins e'
    → e'.config ≡ e.config
    → SameSetup e e'
unfolding SameSetup
same_setup text builtins e e' v w same =
    let one : v.own ≡ w.own = ap own_of (
      sym v.own_compiled
      ∙ ap (λ (c : DetectionConfig). compile_enabled text c.detectors) (sym same)
      ∙ w.own_compiled) in
    (
      same,
      w.all_compiled
          ∙ ap (λ (c : DetectionConfig). if c.builtins then builtins ++ w.own else w.own) same
          ∙ ap (λ (cs : List CompiledDetector). if e.config.builtins then builtins ++ cs else cs)
              (sym one)
          ∙ sym v.all_compiled,
    )

-- After a success the engine is configured with the new configuration and the stored configuration
-- has it; after an error the engine has the configuration and the detectors that it had.
pub record IsApplied (text : Text) (builtins : List CompiledDetector) (config : DetectionConfig)
    (e : DetectorEngine) (a : Applied) : Type 0 where
  pub on_success :
      a.fine ≡ true
      → IsConfigured text builtins a.engine
        × (a.engine.config ≡ apply_defaults config)
        × (a.stored.detection ≡ apply_defaults config)
  pub on_error : a.fine ≡ false → SameSetup e a.engine

-- Going back to a configuration that is valid works.
take_back-IsApplied :
    (text : Text) (builtins : List CompiledDetector) (calls : Stored → Calls)
    (specs : List RuleSpec) (config : DetectionConfig) (e e' : DetectorEngine) (c : Stored)
    (d : Files)
    → IsConfigured text builtins e
    → IsApplied text builtins config e (take_back text builtins calls specs e.config e' c d)
unfolding take_back set_detection_config notify
take_back-IsApplied text builtins calls specs config e e' c d v =
    let t = configure-valid text builtins e.config e' tt v.sound in
    simp t.done (record {
      on_success = λ k. absurd (cc);
      on_error = λ k. same_setup text builtins e t.taken v t.configured (t.new_config ∙ v.complete);
    })

end_apply-IsApplied :
    (text : Text) (builtins : List CompiledDetector) (calls : Saves) (specs : List RuleSpec)
    (config : DetectionConfig) (e : DetectorEngine) (a : Applied) (o : Option Saved)
    → IsConfigured text builtins e
    → IsConfigured text builtins a.engine
    → a.engine.config ≡ apply_defaults config
    → ((x : Saved) → o ≡ some x → x.0.detection ≡ apply_defaults config)
    → IsApplied text builtins config e (end_apply text builtins calls specs e.config a o)
unfolding end_apply
end_apply-IsApplied text builtins calls specs config e a none v w same saved =
    take_back-IsApplied text builtins calls.back specs config e a.engine a.stored a.disk v
end_apply-IsApplied text builtins calls specs config e a (some (c', trace, false)) v w same saved =
    take_back-IsApplied text builtins calls.back specs config e a.engine c' trace.now v
end_apply-IsApplied text builtins calls specs config e a (some (c', trace, true)) v w same saved =
    record {
      on_success = λ k. (w, same, saved (c', trace, true) refl);
      on_error = λ k. absurd (cc);
    }

detection_of : DetectionConfig → Option Saved → DetectionConfig
detection_of c none = c
detection_of c (some x) = x.0.detection

set_detection-detection :
    (text : Text) (calls : Stored → Calls) (d : Files) (new : DetectionConfig) (c : Stored)
    (x : Saved)
    → set_detection text calls d new c ≡ some x
    → x.0.detection ≡ apply_defaults new
unfolding set_detection detection_of
set_detection-detection text calls d new c x h = of_check (validate text new) h
  where
    of_check :
        (k : Checked (Unit {0}))
        → keep_detection calls d new c k ≡ some x
        → x.0.detection ≡ apply_defaults new
    of_check (err e) h = absurd (ground (arith, h))
    of_check (ok u) h = sym (ap (detection_of new) h)

-- A change of the detectors that succeeds leaves the engine and the stored configuration with the new
-- configuration, its defaults set, and the engine searches with the detectors compiled from it. When
-- it fails, at any step, the engine has the configuration and the detectors that it had before, which
-- were valid; nothing is said of the stored configuration then.
pub apply_detection_config-IsApplied :
    (text : Text) (builtins : List CompiledDetector) (calls : Saves) (specs : List RuleSpec)
    (d : Files) (config : DetectionConfig) (e : DetectorEngine) (c : Stored)
    → IsConfigured text builtins e
    → IsApplied text builtins config e
        (apply_detection_config text builtins calls specs d config e c)
unfolding apply_detection_config apply_checked store_applied set_detection_config notify SameSetup
apply_detection_config-IsApplied text builtins calls specs d config e c v =
    of_check (validate text (apply_defaults config)) refl
  where
    of_check :
        (x : Checked (Unit {0}))
        → validate text (apply_defaults config) ≡ x
        → IsApplied text builtins config e
            (apply_checked text builtins calls specs d (apply_defaults config) e c x)
    of_check (err x) h = record { on_success = λ k. absurd (cc); on_error = λ k. (refl, refl) }
    of_check (ok u) h =
        let t = configure-valid text builtins (apply_defaults config) e u h in
        let a = notify calls.first specs t.taken c d in
        simp t.done (
          end_apply-IsApplied text builtins calls specs config e a
            (set_detection text calls.own a.disk (apply_defaults config) a.stored) v t.configured
            (t.new_config ∙ apply_defaults_idem config)
            (λ x k.
              set_detection-detection text calls.own a.disk (apply_defaults config) a.stored x k
              ∙ apply_defaults_idem config))
