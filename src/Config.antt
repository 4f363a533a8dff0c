-- ===== src/Config.antt =====
-- internal/config/config.go: the stored configuration. JSON is left to the library: a file is decoded
-- by an argument.
pub mod Disk
pub mod Atomic
pub mod Valid
mod Tests
use ctf_proxy_utils.Common.{
  ℕ, zero, suc, ◌+◌, ◌-◌, ◌*◌, ◌/◌, ◌%◌, ◌^◌, ◌≤◌, ◌<◌, min, max, String, ◌≡◌, refl, sym, ap, subst,
  ◌∙◌, ◌≢◌, ◌↔◌, ◌⊎◌, inl, inr, Bool, true, false, not, ◌&&◌, ◌||◌, Option, none, some, List, [],
  ◌∷◌, ◌++◌, map, str_eq, eq_iff, arith, ltb, leb, ◌==◌, ==_iff, if◌then◌else◌, Bool-cases,
  Option-cases, length, take, drop, keep, All, get_elem?, is_empty, length-append, take-append-drop,
  length-take, length-drop, take_of_length-le, take-take, take-append, take-append_left,
  take-append_right, length-keep-le, All-append, All-map, All-both, All-keep, length-map, word64,
  add64, sub64, update, update_self, update_ne,
}
use ctf_proxy_utils.Common.Int.{ℤ, pos, pos_part}
use ctf_proxy_utils.Bytes.{Text}
use ctf_proxy_utils.Detect.Config.{
  DetectionConfig, default_detection_config, apply_defaults, validate, Checked, ok, err,
}
use ctf_proxy_utils.Spec.{RuleSpec}
use Disk.{Files, Calls, Trace, save_locked}

pub record WebConfig : Type 0 where
  pub addr : String
  pub token : String

pub record ScanDefaults : Type 0 where
  pub cidr : String
  pub ports : String
  pub timeout_ms : ℤ
  pub concurrency : ℤ
  pub fingerprint : Bool

pub record Stored : Type 0 where
  pub schema_version : ℤ
  pub web : WebConfig
  pub scan : ScanDefaults
  pub detection : DetectionConfig
  pub rules : List RuleSpec
  pub path : String

abbrev pub default_config : Stored
default_config = record {
  schema_version = pos 1;
  web = record { addr = "127.0.0.1:8420"; token = "" };
  scan = record {
    cidr = "";
    ports = "";
    timeout_ms = pos 500;
    concurrency = pos 256;
    fingerprint = true;
  };
  detection = default_detection_config;
  rules = [];
  path = "";
}

-- What reading the file gives.
pub data ReadFile : Type 0 where
  missing unreadable : ReadFile
  content : List ℕ → ReadFile

-- The checks of `Load` on what the decoder made of the file.
unfoldable pub check_loaded : Text → String → Stored → Option Stored
check_loaded text path c =
    let web =
      if str_eq c.web.addr "" then record c.web { addr = default_config.web.addr } else c.web in
    let version = if pos_part c.schema_version == 0 then pos 1 else c.schema_version in
    elim (validate text c.detection) [
      | err e ↦ none
      | ok u ↦ some (record c { web = web; schema_version = version; path = path })
    ]

-- `Load`; the decoder writes into the default configuration.
unfoldable pub load : Text → (List ℕ → Stored → Option Stored) → String → ReadFile → Option Stored
unfolding check_loaded
load text decode path missing = some (record default_config { path = path })
load text decode path unreadable = none
load text decode path (content b) =
    let start = record default_config { path = path } in
    if is_empty b
    then some start
    else elim (decode b start) [ none ↦ none | some c ↦ check_loaded text path c ]

-- A change and its save; the calls of package os depend on what is saved.
abbrev pub Saved : Type 0
Saved = Stored × Trace × Bool

abbrev pub save_stored : (Stored → Calls) → Files → Stored → Saved
save_stored calls d c = let (trace, fine) = save_locked (calls c) c.path d in (c, trace, fine)

unfoldable pub set_rules : (Stored → Calls) → Files → List RuleSpec → Stored → Saved
set_rules calls d rules c = save_stored calls d (record c { rules = rules })

unfoldable pub set_scan : (Stored → Calls) → Files → ScanDefaults → Stored → Saved
set_scan calls d scan c = save_stored calls d (record c { scan = scan })

-- None is a configuration that is not valid; then nothing is changed and nothing saved.
abbrev pub keep_detection :
    (Stored → Calls) → Files → DetectionConfig → Stored → Checked (Unit {0}) → Option Saved
keep_detection calls d detection c (err e) = none
keep_detection calls d detection c (ok u) =
    some (save_stored calls d (record c { detection = apply_defaults detection }))

unfoldable pub set_detection :
    Text → (Stored → Calls) → Files → DetectionConfig → Stored → Option Saved
set_detection text calls d detection c =
    keep_detection calls d detection c (validate text detection)

pub record Profile : Type 0 where
  pub version : ℤ
  pub name : String
  pub profile_scan : ScanDefaults
  pub profile_detection : DetectionConfig
  pub profile_rules : List RuleSpec

abbrev pub profile_snapshot : String → Stored → Profile
profile_snapshot name c = record {
  version = c.schema_version;
  name = name;
  profile_scan = c.scan;
  profile_detection = c.detection;
  profile_rules = c.rules;
}
