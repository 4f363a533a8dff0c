-- ===== src/Detect/Config.antt =====
-- internal/proxy/detect.go: the configuration of the detectors, and how one is compiled.
-- `int` fields are integers, since a file may hold any; error messages are named by what is wrong.
use ctf_proxy_utils.Common.{
  ℕ, String, Bool, true, false, not, ◌||◌, Option, none, some, List, [], ◌∷◌, ◌++◌, str_eq, ltb,
  ◌==◌, if◌then◌else◌, length, is_empty,
}
use ctf_proxy_utils.Common.Int.{ℤ, pos, pos_part}
use ctf_proxy_utils.Bytes.{Text, Regexp, codes, byte_length, decode_hex_pattern}
use ctf_proxy_utils.Recorder.Record.{dir_in, dir_out}

pub record DetectorSpec : Type 0 where
  pub id : String
  pub name : String
  pub enabled : Bool
  pub mode : String
  pub pattern : List ℕ
  pub direction : String
  pub scope : String
  pub score : ℤ
  pub case_insensitive : Bool
  pub sensitive : Bool
  pub rule_ids : List String

pub record DetectionConfig : Type 0 where
  pub enabled : Bool
  pub builtins : Bool
  pub threshold : ℤ
  pub auto_pin_score : ℤ
  pub max_findings : ℤ
  pub buffer_bytes : ℤ
  pub detectors : List DetectorSpec

abbrev pub default_detection_config : DetectionConfig
default_detection_config = record {
  enabled = true;
  builtins = true;
  threshold = pos 25;
  auto_pin_score = pos 60;
  max_findings = pos 500;
  buffer_bytes = pos 131072;
  detectors = [];
}

-- `if n <= 0 { n = d }`
abbrev pub or_default : ℤ → ℕ → ℤ
or_default n d = if pos_part n == 0 then pos d else n

unfoldable pub apply_defaults : DetectionConfig → DetectionConfig
apply_defaults c = record c {
  threshold = or_default c.threshold 25;
  auto_pin_score = or_default c.auto_pin_score 60;
  max_findings = or_default c.max_findings 500;
  buffer_bytes = or_default c.buffer_bytes 131072;
}

pub data DetectError : Type 0 where
  bad_name_or_pattern bad_score bad_direction bad_scope bad_hex bad_regexp bad_mode : DetectError
  bad_thresholds bad_limits empty_id repeated_id : DetectError

pub data Checked {ℓ} (A : Type ℓ) : Type ℓ where
  ok : A → Checked A
  err : DetectError → Checked A

infixl 5 ◌>>=◌ ◌>>◌
abbrev pub ◌>>=◌ {ℓ κ} : {A : Type ℓ} {B : Type κ} → Checked A → (A → Checked B) → Checked B
ok a >>= f = f a
err e >>= f = err e

abbrev pub ◌>>◌ {ℓ} : {B : Type ℓ} → Checked (Unit {0}) → Checked B → Checked B
m >> k = m >>= λ _. k

abbrev pub refuse : Bool → DetectError → Checked (Unit {0})
refuse true e = err e
refuse false e = ok tt

pub record CompiledDetector : Type 0 where
  pub spec : DetectorSpec
  pub needle : List ℕ
  pub re : Option Regexp

abbrev pub str_or : String → String → String
str_or s d = if str_eq s "" then d else s

-- The defaults that `compileDetector` sets on its copy.
unfoldable pub with_defaults : DetectorSpec → DetectorSpec
with_defaults s = record s {
  mode = str_or s.mode "text";
  direction = str_or s.direction "any";
  scope = str_or s.scope "stream";
  score = or_default s.score 25;
}

abbrev pub is_direction : String → Bool
is_direction d = str_eq d "any" || str_eq d dir_in || str_eq d dir_out

abbrev pub is_scope : String → Bool
is_scope s =
    str_eq s "stream" || str_eq s "http_headers" || str_eq s "http_path" || str_eq s "http_body"

abbrev pub compile_regexp : Text → DetectorSpec → Option Regexp
compile_regexp text s =
    text.compile (if s.case_insensitive then codes "(?i)" ++ s.pattern else s.pattern)

-- The switch over the mode.
unfoldable pub compile_pattern : Text → DetectorSpec → Checked CompiledDetector
compile_pattern text s =
    if str_eq s.mode "text"
    then ok (record {
      spec = s;
      needle = if s.case_insensitive then text.to_lower s.pattern else s.pattern;
      re = none;
    })
    else if str_eq s.mode "hex"
    then elim (decode_hex_pattern text s.pattern) [
      | none ↦ err bad_hex
      | some needle ↦
          if is_empty needle
          then err bad_hex
          else ok (record { spec = s; needle = needle; re = none })
    ]
    else if str_eq s.mode "regex"
    then elim (compile_regexp text s) [
      | none ↦ err bad_regexp
      | some re ↦ ok (record { spec = s; needle = []; re = some re })
    ]
    else err bad_mode

unfoldable pub compile_detector : Text → DetectorSpec → Checked CompiledDetector
compile_detector text spec = do
  refuse
      (str_eq spec.name ""
        || ltb 120 (byte_length spec.name)
        || is_empty spec.pattern
        || ltb 4096 (length spec.pattern))
      bad_name_or_pattern
  let s = with_defaults spec
  refuse (ltb 100 (pos_part s.score)) bad_score
  refuse (not (is_direction s.direction)) bad_direction
  refuse (not (is_scope s.scope)) bad_scope
  compile_pattern text s

abbrev pub str_mem : String → List String → Bool
str_mem s [] = false
str_mem s (x ∷ xs) = str_eq x s || str_mem s xs

-- The loop of `Validate`; `seen` is the map of identifiers.
unfoldable pub validate_detectors : Text → List String → List DetectorSpec → Checked (Unit {0})
validate_detectors text seen [] = ok tt
validate_detectors text seen (d ∷ ds) =
    refuse (str_eq d.id "") empty_id
    >> (refuse (str_mem d.id seen) repeated_id
        >> (compile_detector text d >>= λ _. validate_detectors text (d.id ∷ seen) ds))

-- `Validate` works on its own copy, with the defaults set.
unfoldable pub validate : Text → DetectionConfig → Checked (Unit {0})
validate text config = do
  let c = apply_defaults config
  refuse
      (ltb (pos_part c.threshold) 1
        || ltb 100 (pos_part c.threshold)
        || ltb (pos_part c.auto_pin_score) 1
        || ltb 100 (pos_part c.auto_pin_score))
      bad_thresholds
  refuse
      (ltb (pos_part c.max_findings) 1
        || ltb 5000 (pos_part c.max_findings)
        || ltb (pos_part c.buffer_bytes) 4096
        || ltb 4194304 (pos_part c.buffer_bytes))
      bad_limits
  validate_detectors text [] c.detectors
