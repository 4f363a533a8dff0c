-- ===== src/Config/Valid.antt =====
-- What is kept in the stored configuration can be loaded again.
use ctf_proxy_utils.Common.{
  ℕ, ◌+◌, ◌<◌, String, ◌≡◌, refl, subst, ◌∙◌, ◌⊎◌, inl, inr, Bool, true, false, Option, none, some,
  List, [], ◌∷◌, str_eq, arith, ◌==◌, if◌then◌else◌, Bool-cases, Option-cases, is_empty,
}
use ctf_proxy_utils.Common.Int.{ℤ, pos, pos_part}
use ctf_proxy_utils.Bytes.{Text}
use ctf_proxy_utils.Detect.Config.{
  DetectionConfig, default_detection_config, or_default, apply_defaults, validate,
  validate_detectors, Checked, ok, err,
}
use ctf_proxy_utils.Spec.{RuleSpec}
use ctf_proxy_utils.Config.Disk.{Files, Calls}
use ctf_proxy_utils.Config.{
  ScanDefaults, Stored, default_config, ReadFile, missing, unreadable, content, check_loaded, load,
  Saved, set_rules, set_scan, keep_detection, set_detection,
}

pub or_default_idem :
    (n : ℤ) (d : ℕ) → or_default (or_default n (d + 1)) (d + 1) ≡ or_default n (d + 1)
or_default_idem n d = elim (Bool-cases (pos_part n == 0)) [
  | inl zero_or_less ↦
      let set : (d + 1 == 0) ≡ false = ground arith in simp (zero_or_less, set) refl
  | inr kept ↦ simp kept refl
]

pub apply_defaults_idem :
    (c : DetectionConfig) → apply_defaults (apply_defaults c) ≡ apply_defaults c
unfolding apply_defaults
apply_defaults_idem c =
    rw
      (
        or_default_idem c.threshold 24,
        or_default_idem c.auto_pin_score 59,
        or_default_idem c.max_findings 499,
        or_default_idem c.buffer_bytes 131071,
      )
      refl

pub validate-apply_defaults :
    (text : Text) (c : DetectionConfig) → validate text (apply_defaults c) ≡ validate text c
unfolding validate
validate-apply_defaults text c = rw (apply_defaults_idem c) refl

-- A panel address, a version, and a valid configuration of the detectors.
pub record IsStartable (text : Text) (c : Stored) : Type 0 where
  pub addressed : str_eq c.web.addr "" ≡ false
  pub versioned : 0 < pos_part c.schema_version
  pub checked : validate text c.detection ≡ ok tt

default-valid : (text : Text) → validate text default_detection_config ≡ ok tt
unfolding validate apply_defaults validate_detectors
default-valid text = refl

from_default :
    (text : Text) (path : String) (c : Stored)
    → record default_config { path = path } ≡ c
    → IsStartable text c
from_default text path c same =
    subst (IsStartable text) same
      (record { addressed = refl; versioned = omega arith; checked = default-valid text })

pub Checked-cases : {A : Type 0} (x : Checked A) → ((e : _) × (x ≡ err e)) ⊎ ((a : A) × (x ≡ ok a))
Checked-cases (err e) = inl (e, refl)
Checked-cases (ok a) = inr (a, refl)

check_loaded-IsStartable :
    (text : Text) (path : String) (c c' : Stored)
    → check_loaded text path c ≡ some c'
    → IsStartable text c'
unfolding check_loaded
check_loaded-IsStartable text path c c' h =
    let web =
      if str_eq c.web.addr "" then record c.web { addr = default_config.web.addr } else c.web in
    let version = if pos_part c.schema_version == 0 then pos 1 else c.schema_version in
    elim (Checked-cases (validate text c.detection)) [
      | inl (e, bad) ↦ absurd (ground (arith, h, bad))
      | inr (u, fine) ↦
          let same : record c { web = web; schema_version = version; path = path } ≡ c' =
            ground (arith, h, fine) in
          subst (IsStartable text) same (record {
            addressed = addressed_web (str_eq c.web.addr "") refl;
            versioned = ground arith;
            checked = fine;
          })
    ]
  where
    addressed_web :
        (b : Bool)
        → str_eq c.web.addr "" ≡ b
        → str_eq (if b then record c.web { addr = default_config.web.addr } else c.web).addr ""
          ≡ false
    addressed_web true k = refl
    addressed_web false k = k

load-IsStartable :
    (text : Text) (decode : List ℕ → Stored → Option Stored) (path : String) (file : ReadFile)
    (c : Stored)
    → load text decode path file ≡ some c
    → IsStartable text c
unfolding load
load-IsStartable text decode path missing c h = from_default text path c (ground (arith, h))
load-IsStartable text decode path unreadable c h = absurd (ground (arith, h))
load-IsStartable text decode path (content b) c h = elim (Bool-cases (is_empty b)) [
  | inl nothing ↦ from_default text path c (ground (arith, h, nothing))
  | inr there ↦ elim (Option-cases (decode b (record default_config { path = path }))) [
    | inl broken ↦ absurd (ground (arith, h, there, broken))
    | inr (c', decoded) ↦
        check_loaded-IsStartable text path c' c (ground (arith, h, there, decoded))
  ]
]

-- One call of a setter, with what package os does.
pub data Change : Type 0 where
  put_rules : List RuleSpec → Change
  put_scan : ScanDefaults → Change
  put_detection : DetectionConfig → Change

abbrev pub or_before : Stored → Option Saved → Stored
or_before c none = c
or_before c (some x) = x.0

unfoldable pub change : Text → (Stored → Calls) → Files → Stored → Change → Stored
change text calls d c (put_rules rules) = (set_rules calls d rules c).0
change text calls d c (put_scan scan) = (set_scan calls d scan c).0
change text calls d c (put_detection detection) =
    or_before c (set_detection text calls d detection c)

unfoldable pub changes : Text → (Stored → Calls) → Files → Stored → List Change → Stored
changes text calls d c [] = c
changes text calls d c (x ∷ xs) = changes text calls d (change text calls d c x) xs

change-IsStartable :
    (text : Text) (calls : Stored → Calls) (d : Files) (c : Stored) (x : Change)
    → IsStartable text c
    → IsStartable text (change text calls d c x)
unfolding change set_rules set_scan set_detection
change-IsStartable text calls d c (put_rules rules) v = record {
  addressed = v.addressed;
  versioned = v.versioned;
  checked = v.checked;
}
change-IsStartable text calls d c (put_scan scan) v = record {
  addressed = v.addressed;
  versioned = v.versioned;
  checked = v.checked;
}
change-IsStartable text calls d c (put_detection detection) v =
    of_check (validate text detection) refl
  where
    of_check :
        (x : Checked (Unit {0}))
        → validate text detection ≡ x
        → IsStartable text (or_before c (keep_detection calls d detection c x))
    of_check (err e) k = v
    of_check (ok u) k = record {
      addressed = v.addressed;
      versioned = v.versioned;
      checked = validate-apply_defaults text detection ∙ k;
    }

changes-IsStartable :
    (text : Text) (calls : Stored → Calls) (d : Files) (xs : List Change) (c : Stored)
    → IsStartable text c
    → IsStartable text (changes text calls d c xs)
unfolding changes
changes-IsStartable text calls d [] c v = v
changes-IsStartable text calls d (x ∷ xs) c v =
    changes-IsStartable text calls d xs (change text calls d c x)
      (change-IsStartable text calls d c x v)

-- A configuration that was loaded, whatever the file was, has an address for the panel, a positive
-- version and valid detectors, and keeps them through all changes.
pub load-changes-IsStartable :
    (text : Text) (decode : List ℕ → Stored → Option Stored) (path : String) (file : ReadFile)
    (calls : Stored → Calls) (d : Files) (xs : List Change) (c : Stored)
    → load text decode path file ≡ some c
    → IsStartable text (changes text calls d c xs)
load-changes-IsStartable text decode path file calls d xs c h =
    changes-IsStartable text calls d xs c (load-IsStartable text decode path file c h)
