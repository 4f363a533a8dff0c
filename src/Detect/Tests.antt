-- ===== src/Detect/Tests.antt =====
-- Tests of the detector engine, and its theorems at concrete inputs.
use ctf_proxy_utils.Common.{
  ℕ, ◌≤◌, String, ◌≡◌, refl, true, none, some, List, [], ◌∷◌, ◌++◌, map, arith, length,
}
use ctf_proxy_utils.Bytes.{codes, index, has_prefix}
use ctf_proxy_utils.Detect.Config.{default_detection_config}
use ctf_proxy_utils.Detect.Scope.{find_separator, headers_of, body_of, finding_severity}
use ctf_proxy_utils.Detect.Worker.{
  Worker, buffered, take_last, detect_burst, signal_burst, receive, handle_event, clean_up,
}
use ctf_proxy_utils.Detect.Findings.{IsValid, add_signal-IsValid}
use ctf_proxy_utils.Detect.Signals.{signals_of, add_signals, first_signals, add_signals-signals}
use ctf_proxy_utils.Detect.Stream.{
  IsSeparator, headers_body_split, buffered_suffix, Queued, enqueue_all, enqueue_all-Queued,
}
use ctf_proxy_utils.Detect.{
  DetectionSignal, plain, Finding, DetectionEvent, begin, DetectionSession, DetectorEngine,
  add_signal, clear_findings, compile_enabled, configure, enqueue, findings, fresh_finding,
  new_detection_session, observe, session_finding, raise_signal, publish, mark_pinned, join_signal,
}

program : Unit {0}
unfolding compile_enabled configure findings clear_findings enqueue observe new_detection_session
    session_finding raise_signal publish mark_pinned join_signal add_signal finding_severity
program = tt

worker_program : Unit {0}
unfolding receive handle_event clean_up
worker_program = tt

abbrev an_event : DetectionEvent
an_event = record {
  kind = begin;
  rule_id = "r1";
  rule_name = "rule";
  remote = 1 ∷ 2 ∷ [];
  target = "a:1";
  protocol = "tcp";
  direction = "in";
  connection_id = 7;
  content = [];
  auto_pin = true;
}

abbrev session : DetectionSession
session = new_detection_session 5 an_event

abbrev pub engine : DetectorEngine
engine = record {
  dropped = 0;
  config = default_detection_config;
  compiled = [];
  store = λ _. fresh_finding 5 session;
  allocated = 0;
  findings = [];
  sequence = 0;
  events = [];
  has_hook = true;
}

engine-IsValid : IsValid engine
engine-IsValid = record {
  bounded = omega arith;
  falling = tt;
  scored = λ p h. absurd (omega arith);
  listed = tt;
}

abbrev signal : String → ℕ → DetectionSignal
signal id score = record {
  detector_id = id;
  detector_name = id;
  direction = "in";
  score = score;
  reason = id;
  excerpt = plain [];
}

add_signal-IsValid_example : IsValid (add_signal 6 (signal "d1" 30) session engine).1
unfolding program
add_signal-IsValid_example =
    add_signal-IsValid 6 (signal "d1" 30) session engine (λ p h. absurd (ground arith))
      (omega arith) engine-IsValid

-- A signal over the threshold shows the finding.
shown_at_once :
    map (λ (f : Finding). f.id) (findings (add_signal 6 (signal "d1" 30) session engine).1) ≡ 1 ∷ []
unfolding program
shown_at_once = refl

add_signals-signals_example :
    signals_of
      (add_signals
        ((6, signal "a" 10) ∷ (7, signal "b" 20) ∷ (8, signal "a" 10) ∷ [])
        session
        engine).0
      (add_signals
        ((6, signal "a" 10) ∷ (7, signal "b" 20) ∷ (8, signal "a" 10) ∷ [])
        session
        engine).1
    ≡ signal "a" 10 ∷ signal "b" 20 ∷ []
unfolding program add_signals first_signals
add_signals-signals_example =
    add_signals-signals ((6, signal "a" 10) ∷ (7, signal "b" 20) ∷ (8, signal "a" 10) ∷ []) session
      engine

abbrev request : List ℕ
request = codes "GET / HTTP/1.1\r\n\r\nbody"

headers_body_split_example :
    (sep : List ℕ) × IsSeparator sep 4 × (request ≡ headers_of request ++ (sep ++ body_of request))
unfolding find_separator index has_prefix
headers_body_split_example = headers_body_split request 14 4 refl

buffered_suffix_example :
    (buffered 4 (take_last 4 (1 ∷ 2 ∷ 3 ∷ [])) (4 ∷ 5 ∷ 6 ∷ [])
      ≡ take_last 4 (1 ∷ 2 ∷ 3 ∷ 4 ∷ 5 ∷ 6 ∷ []))
    × (length (buffered 4 (take_last 4 (1 ∷ 2 ∷ 3 ∷ [])) (4 ∷ 5 ∷ 6 ∷ [])) ≤ 4)
buffered_suffix_example = buffered_suffix 4 (1 ∷ 2 ∷ 3 ∷ []) (4 ∷ 5 ∷ 6 ∷ [])

enqueue_all-Queued_example :
    Queued (an_event ∷ an_event ∷ []) engine (enqueue_all (an_event ∷ an_event ∷ []) engine)
enqueue_all-Queued_example =
    enqueue_all-Queued (an_event ∷ an_event ∷ []) engine refl (omega arith) (omega arith)

abbrev worker : Worker
worker = record { engine = engine; sessions = λ _ _. none; bursts = λ _. [] }

-- An event that has been received leaves the queue.
received :
    (receive
      (record {
        trim_space = λ s. s;
        to_lower = λ s. s;
        fields = λ s. s ∷ [];
        is_utf8 = λ s. true;
        query_unescape = λ s. some s;
        compile = λ s. none;
      })
      (λ _. none)
      9
      (record worker { engine = enqueue an_event engine })).0.engine.events
    ≡ []
unfolding program worker_program detect_burst signal_burst
received = refl
