-- ===== src/Web.antt =====
-- internal/web/api.go, SetDetectionConfig of internal/proxy/manager.go and the function that
-- cmd/ctf-proxyutils/main.go sets for a change: a new configuration of the detectors goes into the
-- engine and into the stored configuration.
pub mod Apply
pub mod Profile
mod Tests
use ctf_proxy_utils.Common.{
  ℕ, zero, suc, ◌+◌, ◌-◌, ◌*◌, ◌/◌, ◌%◌, ◌^◌, ◌≤◌, ◌<◌, min, max, String, ◌≡◌, refl, sym, ap, subst,
  ◌∙◌, ◌≢◌, ◌↔◌, ◌⊎◌, inl, inr, Bool, true, false, not, ◌&&◌, ◌||◌, Option, none, some, List, [],
  ◌∷◌, ◌++◌, map, str_eq, eq_iff, arith, ltb, leb, ◌==◌, ==_iff, if◌then◌else◌, Bool-cases,
  Option-cases, length, take, drop, keep, All, get_elem?, is_empty, length-append, take-append-drop,
  length-take, length-drop, take_of_length-le, take-take, take-append, take-append_left,
  take-append_right, length-keep-le, All-append, All-map, All-both, All-keep, length-map, word64,
  add64, sub64, update, update_self, update_ne,
}
use ctf_proxy_utils.Bytes.{Text}
use ctf_proxy_utils.Detect.Config.{
  DetectionConfig, apply_defaults, validate, CompiledDetector, Checked, ok, err,
}
use ctf_proxy_utils.Detect.{DetectorEngine, configure}
use ctf_proxy_utils.Config.Disk.{Files, Calls, Trace}
use ctf_proxy_utils.Spec.{RuleSpec}
use ctf_proxy_utils.Config.{Stored, Saved, set_rules, set_detection}

-- The engine, the stored configuration and the disk after a call, and whether it succeeded.
pub record Applied : Type 0 where
  pub engine : DetectorEngine
  pub stored : Stored
  pub disk : Files
  pub fine : Bool

-- The calls of package os in each of the three saves that an application can come to: the one of the
-- first `notify`, the one of `SetDetection`, and the one of the `notify` when it goes back.
pub record Saves : Type 0 where
  pub first : Stored → Calls
  pub own : Stored → Calls
  pub back : Stored → Calls

-- The function that main hands to `SetOnChange`: it saves the rules that run, `specs`, with the rest of
-- the stored configuration. An error of the save is only logged.
abbrev pub on_change : (Stored → Calls) → List RuleSpec → Stored → Files → Stored × Files
on_change calls specs c d = let (c', trace, saved) = set_rules calls d specs c in (c', trace.now)

-- `notify`, which calls the function that is set.
unfoldable pub notify : (Stored → Calls) → List RuleSpec → DetectorEngine → Stored → Files → Applied
notify calls specs e c d =
    let (c', d') = on_change calls specs c d in
    record { engine = e; stored = c'; disk = d'; fine = true }

-- `SetDetectionConfig` behind `Configure`.
abbrev pub after_configure :
    (Stored → Calls)
    → List RuleSpec
    → DetectorEngine
    → Stored
    → Files
    → Checked DetectorEngine
    → Applied
after_configure calls specs e c d (err x) = record {
  engine = e;
  stored = c;
  disk = d;
  fine = false;
}
after_configure calls specs e c d (ok e') = notify calls specs e' c d

-- `Manager.SetDetectionConfig`
unfoldable pub set_detection_config :
    Text
    → List CompiledDetector
    → (Stored → Calls)
    → List RuleSpec
    → DetectionConfig
    → DetectorEngine
    → Stored
    → Files
    → Applied
set_detection_config text builtins calls specs config e c d =
    after_configure calls specs e c d (configure text builtins config e)

-- An error of `SetDetection`: the engine goes back to the previous configuration, and whether that
-- works is not looked at.
unfoldable pub take_back :
    Text
    → List CompiledDetector
    → (Stored → Calls)
    → List RuleSpec
    → DetectionConfig
    → DetectorEngine
    → Stored
    → Files
    → Applied
unfolding set_detection_config
take_back text builtins calls specs previous e c d =
    record (set_detection_config text builtins calls specs previous e c d) { fine = false }

-- After `SetDetection`, which returns none before it changes anything.
unfoldable pub end_apply :
    Text
    → List CompiledDetector
    → Saves
    → List RuleSpec
    → DetectionConfig
    → Applied
    → Option Saved
    → Applied
unfolding take_back
end_apply text builtins calls specs previous a none =
    take_back text builtins calls.back specs previous a.engine a.stored a.disk
end_apply text builtins calls specs previous a (some (c', trace, false)) =
    take_back text builtins calls.back specs previous a.engine c' trace.now
end_apply text builtins calls specs previous a (some (c', trace, true)) = record {
  engine = a.engine;
  stored = c';
  disk = trace.now;
  fine = true;
}

unfoldable pub store_applied :
    Text
    → List CompiledDetector
    → Saves
    → List RuleSpec
    → DetectionConfig
    → DetectionConfig
    → Applied
    → Applied
unfolding end_apply
store_applied text builtins calls specs new previous a =
    if a.fine
    then end_apply text builtins calls specs previous a
        (set_detection text calls.own a.disk new a.stored)
    else a

unfoldable pub apply_checked :
    Text
    → List CompiledDetector
    → Saves
    → List RuleSpec
    → Files
    → DetectionConfig
    → DetectorEngine
    → Stored
    → Checked (Unit {0})
    → Applied
unfolding store_applied
apply_checked text builtins calls specs d new e c (err x) = record {
  engine = e;
  stored = c;
  disk = d;
  fine = false;
}
apply_checked text builtins calls specs d new e c (ok u) =
    store_applied text builtins calls specs new e.config
      (set_detection_config text builtins calls.first specs new e c d)

-- `applyDetectionConfig`
unfoldable pub apply_detection_config :
    Text
    → List CompiledDetector
    → Saves
    → List RuleSpec
    → Files
    → DetectionConfig
    → DetectorEngine
    → Stored
    → Applied
unfolding apply_checked
apply_detection_config text builtins calls specs d config e c =
    let new = apply_defaults config in
    apply_checked text builtins calls specs d new e c (validate text new)
