-- ===== src/Config/Tests.antt =====
-- Tests of the stored configuration, and its theorems at concrete inputs.
use ctf_proxy_utils.Common.{
  ℕ, ◌≡◌, refl, Bool, true, false, Option, none, some, List, [], ◌∷◌, str_eq, eq_iff, arith,
  if◌then◌else◌,
}
use ctf_proxy_utils.Common.Int.{pos}
use ctf_proxy_utils.Detect.Config.{
  default_detection_config, apply_defaults, validate, validate_detectors,
}
use ctf_proxy_utils.Spec.Tests.{bytes_text, a_rule}
use ctf_proxy_utils.Config.Disk.{
  Files, Calls, drop_temp, replace_file, fill_temp, write_temp, save_locked,
}
use ctf_proxy_utils.Config.Atomic.{IsAtomic, save_locked-IsAtomic}
use ctf_proxy_utils.Config.Valid.{
  IsStartable, put_rules, put_detection, change, changes, load-changes-IsStartable,
}
use ctf_proxy_utils.Config.{
  Stored, default_config, content, check_loaded, load, set_rules, set_scan, set_detection,
}

program : Unit {0}
unfolding apply_defaults validate validate_detectors drop_temp replace_file fill_temp write_temp
    save_locked check_loaded load set_rules set_scan set_detection change changes
program = tt

abbrev calls : Bool → Stored → Calls
calls whole c = record {
  encoded = some (1 ∷ 2 ∷ []);
  mkdir_ok = true;
  temp = some "tmp";
  written = if whole then none else some 1;
  chmod_ok = true;
  sync_ok = true;
  close_ok = true;
  rename_ok = true;
  remove_ok = true;
}

abbrev old_files : Files
old_files p = if str_eq p "config.json" then some (9 ∷ []) else none

save_locked-IsAtomic_example :
    IsAtomic "config.json" "tmp"
      (1 ∷ 2 ∷ 10 ∷ [])
      old_files
      (save_locked (calls true default_config) "config.json" old_files)
save_locked-IsAtomic_example =
    save_locked-IsAtomic (calls true default_config) "config.json" "tmp" (1 ∷ 2 ∷ []) old_files
      (λ h. absurd (ground (arith, (eq_iff "config.json" "").1 h)))
      (λ h. absurd (ground (arith, (eq_iff "config.json" "tmp").1 h))) refl refl

saved :
    (save_locked (calls true default_config) "config.json" old_files).0.now "config.json"
    ≡ some (1 ∷ 2 ∷ 10 ∷ [])
unfolding program
saved = refl

not_saved :
    (save_locked (calls false default_config) "config.json" old_files).0.now "config.json"
    ≡ some (9 ∷ [])
unfolding program
not_saved = refl

-- A decoder that reads a file without an address and a version.
abbrev poor : List ℕ → Stored → Option Stored
poor b c = some (record c { schema_version = pos 0; web = record { addr = ""; token = "t" } })

abbrev loaded : Stored
loaded = record default_config {
  web = record { addr = "127.0.0.1:8420"; token = "t" };
  path = "config.json";
}

load-changes-IsStartable_example : IsStartable bytes_text (
    changes bytes_text
      (calls true)
      old_files
      loaded
      (put_rules (a_rule "r1" 8080 "a" ∷ []) ∷ put_detection default_detection_config ∷ []))
unfolding program
load-changes-IsStartable_example =
    load-changes-IsStartable bytes_text poor "config.json" (content (123 ∷ [])) (calls true)
      old_files
      (put_rules (a_rule "r1" 8080 "a" ∷ []) ∷ put_detection default_detection_config ∷ []) loaded
      refl
