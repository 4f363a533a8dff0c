-- ===== src/Detect.antt =====
-- internal/proxy/detect.go: the detector engine. Observers put events into a bounded queue and one
-- worker takes them out. A finding is shared by the session that builds it and the list that is
-- shown, so findings live in a store and both hold pointers.
pub mod Config
pub mod Scope
pub mod Worker
pub mod Findings
pub mod Stream
pub mod Signals
pub mod Tests
use ctf_proxy_utils.Common.{
  ℕ, zero, suc, ◌+◌, ◌-◌, ◌*◌, ◌/◌, ◌%◌, ◌^◌, ◌≤◌, ◌<◌, min, max, String, ◌≡◌, refl, sym, ap, subst,
  ◌∙◌, ◌≢◌, ◌↔◌, ◌⊎◌, inl, inr, Bool, true, false, not, ◌&&◌, ◌||◌, Option, none, some, List, [],
  ◌∷◌, ◌++◌, map, str_eq, eq_iff, arith, ltb, leb, ◌==◌, ==_iff, if◌then◌else◌, Bool-cases,
  Option-cases, length, take, drop, keep, All, get_elem?, is_empty, length-append, take-append-drop,
  length-take, length-drop, take_of_length-le, take-take, take-append, take-append_left,
  take-append_right, length-keep-le, All-append, All-map, All-both, All-keep, length-map, word64,
  add64, sub64, update, update_self, update_ne,
}
use ctf_proxy_utils.Common.Int.{ℤ, pos, negsuc, pos_part}
use ctf_proxy_utils.Bytes.{Text}
use Config.{
  DetectorSpec, DetectionConfig, CompiledDetector, Checked, ok, err, ◌>>=◌, ◌>>◌, apply_defaults,
  compile_detector, validate, str_mem,
}
use Scope.{
  detection_scope, detector_applies, detector_match, decode_inspection_data, finding_excerpt,
  finding_severity,
}

abbrev pub detection_queue_size : ℕ
detection_queue_size = 1024

-- `hidden` is the fixed text that stands for the excerpt of a sensitive detector.
pub data Excerpt : Type 0 where
  plain : List ℕ → Excerpt
  hidden : Excerpt

pub record DetectionSignal : Type 0 where
  pub detector_id : String
  pub detector_name : String
  pub direction : String
  pub score : ℕ
  pub reason : String
  pub excerpt : Excerpt

pub record Finding : Type 0 where
  pub id : ℕ
  pub at : ℕ
  pub updated_at : ℕ
  pub rule_id : String
  pub rule_name : String
  pub connection_id : ℕ
  pub remote_addr : List ℕ
  pub target : String
  pub protocol : String
  pub score : ℕ
  pub severity : String
  pub signals : List DetectionSignal
  pub auto_pinned : Bool

pub data EventKind : Type 0 where
  begin chunk end : EventKind

pub record DetectionEvent : Type 0 where
  pub kind : EventKind
  pub rule_id : String
  pub rule_name : String
  pub remote : List ℕ
  pub target : String
  pub protocol : String
  pub direction : String
  pub connection_id : ℕ
  pub content : List ℕ
  pub auto_pin : Bool

pub record DetectionSession : Type 0 where
  pub rule_id : String
  pub rule_name : String
  pub remote : List ℕ
  pub target : String
  pub protocol : String
  pub connection_id : ℕ
  pub auto_pin : Bool
  pub last_seen : ℕ
  pub buffers : String → List ℕ
  pub matched : List String
  pub finding : Option ℕ

pub record DetectorEngine : Type 0 where
  pub dropped : ℕ
  pub config : DetectionConfig
  pub compiled : List CompiledDetector
  pub store : ℕ → Finding
  pub allocated : ℕ
  pub findings : List ℕ
  pub sequence : ℕ
  pub events : List DetectionEvent
  pub has_hook : Bool

-- One call of the hook: the finding, whether it is new, and whether the record is to be pinned.
pub record HookCall : Type 0 where
  pub finding : Finding
  pub created : Bool
  pub auto_pin : Bool

-- The enabled detectors, compiled.
unfoldable pub compile_enabled : Text → List DetectorSpec → Checked (List CompiledDetector)
compile_enabled text [] = ok []
compile_enabled text (d ∷ ds) =
    if d.enabled
    then (compile_detector text d >>= λ c. compile_enabled text ds >>= λ cs. ok (c ∷ cs))
    else compile_enabled text ds

abbrev pub max_findings : DetectorEngine → ℕ
max_findings e = pos_part e.config.max_findings

-- `Configure`. The three built-in detectors are compiled from constants; they are an argument.
unfoldable pub configure :
    Text → List CompiledDetector → DetectionConfig → DetectorEngine → Checked DetectorEngine
unfolding compile_enabled
configure text builtins config e = do
  let c = apply_defaults config
  _ ← validate text c
  compiled ← compile_enabled text c.detectors
  ok (record e {
    config = c;
    compiled = if c.builtins then builtins ++ compiled else compiled;
    findings =
        if ltb (pos_part c.max_findings) (length e.findings)
        then take (pos_part c.max_findings) e.findings
        else e.findings;
  })

pub findings : DetectorEngine → List Finding
findings e = map e.store e.findings

pub clear_findings : DetectorEngine → DetectorEngine
clear_findings e = record e { findings = [] }

-- A full queue drops the event and counts it.
pub enqueue : DetectionEvent → DetectorEngine → DetectorEngine
enqueue event e =
    if e.config.enabled
    then if ltb (length e.events) detection_queue_size
      then record e { events = e.events ++ event ∷ [] }
      else record e { dropped = add64 e.dropped 1 }
    else e

-- `Observe`: nothing is sent for an empty chunk.
pub observe : DetectionEvent → DetectorEngine → DetectorEngine
unfolding enqueue
observe event e = if is_empty event.content then e else enqueue (record event { kind = chunk }) e

pub new_detection_session : ℕ → DetectionEvent → DetectionSession
new_detection_session now event = record {
  rule_id = event.rule_id;
  rule_name = event.rule_name;
  remote = event.remote;
  target = event.target;
  protocol = event.protocol;
  connection_id = event.connection_id;
  auto_pin = event.auto_pin;
  last_seen = now;
  buffers = λ _. [];
  matched = [];
  finding = none;
}

abbrev pub fresh_finding : ℕ → DetectionSession → Finding
fresh_finding now s = record {
  id = 0;
  at = now;
  updated_at = now;
  rule_id = s.rule_id;
  rule_name = s.rule_name;
  connection_id = s.connection_id;
  remote_addr = s.remote;
  target = s.target;
  protocol = s.protocol;
  score = 0;
  severity = "";
  signals = [];
  auto_pinned = false;
}

-- The signal joins the finding; the score stops at 100.
pub join_signal : ℕ → DetectionSignal → Finding → Finding
join_signal now signal f =
    let sum = f.score + signal.score in
    let capped = if ltb 100 sum then 100 else sum in
    record f {
      signals = f.signals ++ signal ∷ [];
      score = capped;
      severity = finding_severity capped;
      updated_at = now;
    }

-- The finding of the session, allocated at its first signal.
pub session_finding : ℕ → DetectionSession → DetectorEngine → ℕ × DetectorEngine
session_finding now s e = elim s.finding [
  | some p ↦ (p, e)
  | none ↦ (
    e.allocated,
    record e {
      store = update e.store e.allocated (fresh_finding now s);
      allocated = e.allocated + 1;
    },
  )
]

-- The test under which a finding is shown for the first time.
abbrev pub is_due : DetectorEngine → Finding → Bool
is_due e f = f.id == 0 && leb (pos_part e.config.threshold) f.score

pub publish : ℕ → DetectorEngine → DetectorEngine
publish p e =
    let id = add64 e.sequence 1 in
    let list = p ∷ e.findings in
    record e {
      sequence = id;
      store = update e.store p (record (e.store p) { id = id });
      findings = if ltb (max_findings e) (length list) then take (max_findings e) list else list;
    }

abbrev pub wants_pin : DetectionSession → DetectorEngine → Finding → Bool
wants_pin s e f =
    s.auto_pin
    && not (f.id == 0)
    && leb (pos_part e.config.auto_pin_score) f.score
    && not f.auto_pinned

pub mark_pinned : Bool → ℕ → DetectorEngine → DetectorEngine
mark_pinned false p e = e
mark_pinned true p e = record e {
  store = update e.store p (record (e.store p) { auto_pinned = true });
}

-- The part of `addSignal` under the lock, at a finding that is there: the engine and the hook call.
pub raise_signal :
    ℕ → DetectionSession → ℕ → DetectionSignal → DetectorEngine → DetectorEngine × Option HookCall
raise_signal now s p signal e =
    let e₁ = record e { store = update e.store p (join_signal now signal (e.store p)) } in
    let created = is_due e₁ (e₁.store p) in
    let e₂ = if created then publish p e₁ else e₁ in
    let pin = wants_pin s e₂ (e₂.store p) in
    let e₃ = mark_pinned pin p e₂ in
    let f = e₃.store p in
    (
      e₃,
      if not (f.id == 0) && e₃.has_hook
          then some (record { finding = f; created = created; auto_pin = pin })
          else none,
    )

pub add_signal :
    ℕ
    → DetectionSignal
    → DetectionSession
    → DetectorEngine
    → DetectionSession × DetectorEngine × Option HookCall
unfolding session_finding
add_signal now signal s e =
    if str_mem signal.detector_id s.matched
    then (s, e, none)
    else let (p, e') = session_finding now s e in
      let (e'', call) = raise_signal now s p signal e' in
      (record s { matched = signal.detector_id ∷ s.matched; finding = some p }, e'', call)
