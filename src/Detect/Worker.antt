-- ===== src/Detect/Worker.antt =====
-- internal/proxy/detect.go: the worker loop, which owns the sessions and the bursts of connections.
use mathlib.Core.Option
use ctf_proxy_utils.Common.{
  ℕ, ◌-◌, ◌*◌, ◌^◌, String, Bool, not, ◌&&◌, ◌||◌, Option, none, some, List, [], ◌∷◌, ◌++◌, str_eq,
  ltb, ◌==◌, if◌then◌else◌, length, drop,
}
use ctf_proxy_utils.Common.Int.{pos_part}
use ctf_proxy_utils.Bytes.{Text}
use ctf_proxy_utils.Detect.Config.{CompiledDetector, str_mem}
use ctf_proxy_utils.Detect.Scope.{
  detection_scope, detector_applies, detector_match, decode_inspection_data, finding_excerpt,
  bytes_eq,
}
use ctf_proxy_utils.Detect.{
  DetectionSignal, plain, hidden, begin, chunk, end, DetectionEvent, DetectionSession,
  DetectorEngine, HookCall, add_signal, new_detection_session,
}

-- Ten seconds and five minutes, in nanoseconds.
abbrev pub burst_span : ℕ
burst_span = 10 * 10 ^ 9

abbrev pub session_span : ℕ
session_span = 300 * 10 ^ 9

-- `sort.Search` for the first time that is not before the cutoff, on times that rise.
unfoldable pub drop_before : ℕ → List ℕ → List ℕ
drop_before cutoff [] = []
drop_before cutoff (t ∷ ts) = if ltb t cutoff then drop_before cutoff ts else t ∷ ts

-- The map from hosts to the times of their connections; the host is `net.SplitHostPort` of the
-- remote address, which is a parameter.
abbrev pub Bursts : Type 0
Bursts = List ℕ → List ℕ

abbrev pub burst_signal : DetectionSignal
burst_signal = record {
  detector_id = "builtin-burst";
  detector_name = "Всплеск соединений";
  direction = "any";
  score = 25;
  reason = "20 соединений от клиента за 10 секунд";
  excerpt = plain [];
}

abbrev pub set_host : Bursts → List ℕ → List ℕ → Bursts
set_host m host ts h = if bytes_eq h host then ts else m h

pub record Worker : Type 0 where
  pub engine : DetectorEngine
  pub sessions : String → ℕ → Option DetectionSession
  pub bursts : Bursts

abbrev pub Burst : Type 0
Burst = DetectionSession × Bursts × DetectorEngine × Option HookCall

-- The signal is raised at the twentieth connection, not at later ones.
unfoldable pub signal_burst : ℕ → List ℕ → DetectionSession → Bursts → DetectorEngine → Burst
signal_burst now times s bursts e =
    if length times == 20
    then (let (s', e', call) = add_signal now burst_signal s e in (s', bursts, e', call))
    else (s, bursts, e, none)

unfoldable pub host_of : (List ℕ → Option (List ℕ)) → List ℕ → List ℕ
host_of split_host remote = elim (split_host remote) [ none ↦ remote | some h ↦ h ]

unfoldable pub detect_burst :
    (List ℕ → Option (List ℕ)) → ℕ → DetectionSession → Bursts → DetectorEngine → Burst
unfolding host_of
detect_burst split_host now s bursts e =
    let host = host_of split_host s.remote in
    let times = drop_before (now - burst_span) (bursts host) ++ now ∷ [] in
    if e.config.builtins
    then signal_burst now times s (set_host bursts host times) e
    else (s, bursts, e, none)

-- The last `n` bytes.
unfoldable pub take_last : ℕ → List ℕ → List ℕ
take_last n b = drop (length b - n) b

unfoldable pub buffered : ℕ → List ℕ → List ℕ → List ℕ
unfolding take_last
buffered limit old b =
    let buffer = old ++ b in if ltb limit (length buffer) then take_last limit buffer else buffer

abbrev pub skips : CompiledDetector → String → DetectionSession → Bool
skips d direction s =
    str_mem d.spec.id s.matched
    || not (str_eq d.spec.direction "any") && not (str_eq d.spec.direction direction)
    || not (detector_applies d.spec s.rule_id)

-- A match in the raw bytes, or else in their URL-decoded form: the bytes and the place.
unfoldable pub match_scoped : Text → CompiledDetector → List ℕ → Option (List ℕ × ℕ × ℕ)
match_scoped text d scoped = elim (detector_match text d scoped) [
  | some (i, j) ↦ some (scoped, i, j)
  | none ↦ elim (decode_inspection_data text scoped) [
    | none ↦ none
    | some decoded ↦ Option.map (λ ij. (decoded, ij.0, ij.1)) (detector_match text d decoded)
  ]
]

-- The excerpt of a sensitive detector is replaced by a fixed text.
unfoldable pub signal_of : Text → CompiledDetector → String → List ℕ → ℕ → ℕ → DetectionSignal
signal_of text d direction b start finish = record {
  detector_id = d.spec.id;
  detector_name = d.spec.name;
  direction = direction;
  score = pos_part d.spec.score;
  reason = d.spec.name;
  excerpt = if d.spec.sensitive then hidden else plain (finding_excerpt text b start finish);
}

abbrev pub or_none : Option HookCall → List HookCall
or_none none = []
or_none (some c) = c ∷ []

-- One round of the loop over the detectors.
unfoldable pub inspect_with :
    Text
    → ℕ
    → String
    → List ℕ
    → CompiledDetector
    → DetectionSession
    → DetectorEngine
    → DetectionSession × DetectorEngine × Option HookCall
unfolding match_scoped signal_of
inspect_with text now direction buffer d s e =
    if skips d direction s
    then (s, e, none)
    else elim (match_scoped text d (detection_scope text buffer direction d.spec.scope)) [
      | none ↦ (s, e, none)
      | some (b, i, j) ↦ add_signal now (signal_of text d direction b i j) s e
    ]

unfoldable pub inspect_all :
    Text
    → ℕ
    → String
    → List ℕ
    → List CompiledDetector
    → DetectionSession
    → DetectorEngine
    → DetectionSession × DetectorEngine × List HookCall
inspect_all text now direction buffer [] s e = (s, e, [])
inspect_all text now direction buffer (d ∷ ds) s e =
    let (s', e', call) = inspect_with text now direction buffer d s e in
    let (s'', e'', calls) = inspect_all text now direction buffer ds s' e' in
    (s'', e'', or_none call ++ calls)

unfoldable pub inspect_chunk :
    Text
    → ℕ
    → String
    → List ℕ
    → DetectionSession
    → DetectorEngine
    → DetectionSession × DetectorEngine × List HookCall
unfolding buffered
inspect_chunk text now direction b s e =
    let buffer = buffered (pos_part e.config.buffer_bytes) (s.buffers direction) b in
    let s' = record s { buffers = λ d. if str_eq d direction then buffer else s.buffers d } in
    inspect_all text now direction buffer e.compiled s' e

abbrev pub set_session :
    (String → ℕ → Option DetectionSession)
    → String
    → ℕ
    → Option DetectionSession
    → String
    → ℕ
    → Option DetectionSession
set_session m rule_id connection_id s r c =
    if str_eq r rule_id && c == connection_id then s else m r c

unfoldable pub session_or_new : ℕ → DetectionEvent → Option DetectionSession → DetectionSession
session_or_new now event none = new_detection_session now event
session_or_new now event (some s) = s

-- The branch of the worker for one event that it has received.
unfoldable pub handle_event :
    Text → (List ℕ → Option (List ℕ)) → ℕ → DetectionEvent → Worker → Worker × List HookCall
unfolding inspect_chunk inspect_all detect_burst
handle_event text split_host now event w = elim event.kind [
  | begin ↦
      let (s, bursts, e, call) =
        detect_burst split_host now (new_detection_session now event) w.bursts w.engine in
      (
        record {
          engine = e;
          sessions = set_session w.sessions event.rule_id event.connection_id (some s);
          bursts = bursts;
        },
        or_none call,
      )
  | end ↦
      (record w { sessions = set_session w.sessions event.rule_id event.connection_id none }, [])
  | chunk ↦
      let s = session_or_new now event (w.sessions event.rule_id event.connection_id) in
      let (s', e, calls) =
        inspect_chunk text now event.direction event.content (record s { last_seen = now })
          w.engine in
      (
        record w {
          engine = e;
          sessions = set_session w.sessions event.rule_id event.connection_id (some s');
        },
        calls,
      )
]

-- The worker takes the oldest event out of the queue; with an empty queue it waits.
unfoldable pub receive : Text → (List ℕ → Option (List ℕ)) → ℕ → Worker → Worker × List HookCall
receive text split_host now w = elim w.engine.events [
  | [] ↦ (w, [])
  | event ∷ rest ↦
      handle_event text split_host now event
        (record w { engine = record w.engine { events = rest } })
]

-- The tick of the ticker: old sessions and old times go.
unfoldable pub clean_up : ℕ → Worker → Worker
unfolding drop_before
clean_up now w = record w {
  sessions = λ r c. elim (w.sessions r c) [
    | none ↦ none
    | some s ↦ if ltb session_span (now - s.last_seen) then none else some s
  ];
  bursts = λ h. drop_before (now - burst_span) (w.bursts h);
}
