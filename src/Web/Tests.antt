-- ===== src/Web/Tests.antt =====
-- Tests of the calls of the panel that change the configuration, and their theorems at concrete inputs.
use ctf_proxy_utils.Common.{◌≡◌, refl, true, false, none, some, [], ◌∷◌}
use ctf_proxy_utils.Common.Int.{pos, pos_part}
use ctf_proxy_utils.Detect.Config.{
  DetectionConfig, default_detection_config, apply_defaults, validate, validate_detectors,
}
use ctf_proxy_utils.Detect.{configure, compile_enabled}
use ctf_proxy_utils.Spec.Tests.{bytes_text, a_rule}
use ctf_proxy_utils.Detect.Tests.{engine}
use ctf_proxy_utils.Config.Disk.{
  Files, Calls, drop_temp, replace_file, fill_temp, write_temp, save_locked,
}
use ctf_proxy_utils.Config.{Stored, default_config, set_rules, set_detection}
use ctf_proxy_utils.Web.{
  Applied, Saves, notify, set_detection_config, take_back, end_apply, store_applied, apply_checked,
  apply_detection_config,
}
use ctf_proxy_utils.Web.Apply.{IsApplied, apply_detection_config-IsApplied}
use ctf_proxy_utils.Web.Profile.{
  position, set_at, merge_loop, merge_rules, replace_rules, count_updates, count_removed,
}
use ctf_proxy_utils.Web.Profile.Merge.{IsMerged, merge_rules-IsMerged}

program : Unit {0}
unfolding apply_defaults validate validate_detectors configure compile_enabled drop_temp
    replace_file fill_temp write_temp save_locked set_rules set_detection notify
    set_detection_config take_back end_apply store_applied apply_checked apply_detection_config
    position set_at merge_loop merge_rules replace_rules count_updates count_removed
program = tt

-- The threshold stands for the encoded configuration; the save adds the end of the line.
abbrev good_disk : Stored → Calls
good_disk c = record {
  encoded = some (pos_part c.detection.threshold ∷ []);
  mkdir_ok = true;
  temp = some "tmp";
  written = none;
  chmod_ok = true;
  sync_ok = true;
  close_ok = true;
  rename_ok = true;
  remove_ok = true;
}

-- The disk is full for the save of the detectors only.
abbrev saves : Saves
saves = record {
  first = good_disk;
  own = λ c. record (good_disk c) { written = some 0 };
  back = good_disk;
}

abbrev old_files : Files
old_files p = some (9 ∷ [])

abbrev stored : Stored
stored = record default_config { path = "config.json" }

abbrev stricter : DetectionConfig
stricter = record default_detection_config { threshold = pos 90 }

abbrev refused : Applied
unfolding program
refused = apply_detection_config bytes_text [] saves [] old_files stricter engine stored

apply_detection_config-IsApplied_example : IsApplied bytes_text [] stricter engine refused
unfolding program refused
apply_detection_config-IsApplied_example =
    apply_detection_config-IsApplied bytes_text [] saves [] old_files stricter engine stored
      (record { sound = refl; complete = refl; own = []; own_compiled = refl; all_compiled = refl })

-- After an error of the save the stored configuration keeps what the engine has given up, and the
-- `notify` of the way back writes it to the file.
kept_after_error :
    (refused.fine ≡ false)
    × (refused.stored.detection ≡ stricter)
    × (refused.disk "config.json" ≡ some (90 ∷ 10 ∷ []))
unfolding program refused
kept_after_error = (refl, refl, refl)

merge_rules-IsMerged_example :
    IsMerged
      (a_rule "r1" 8080 "a" ∷ [])
      (a_rule "r1" 8081 "b" ∷ a_rule "r2" 8082 "c" ∷ [])
      (merge_rules (a_rule "r1" 8080 "a" ∷ []) (a_rule "r1" 8081 "b" ∷ a_rule "r2" 8082 "c" ∷ []))
merge_rules-IsMerged_example =
    merge_rules-IsMerged (a_rule "r1" 8080 "a" ∷ [])
      (a_rule "r1" 8081 "b" ∷ a_rule "r2" 8082 "c" ∷ [])

replaced :
    (replace_rules (a_rule "r1" 8080 "a" ∷ []) (a_rule "r2" 8082 "c" ∷ [])).preview
    ≡ record { added = 1; updated = 0; removed = 1 }
unfolding program
replaced = refl
