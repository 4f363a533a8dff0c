-- ===== src/Recorder.antt =====
-- internal/proxy/dump.go: the recorder of captured traffic.
-- Records live in a store and are shared by pointer: `dumps` holds the pointers, oldest first, and
-- `active` maps the token of a writer to a pointer. The mutex makes each operation one step.
pub mod Record
pub mod Chunks
pub mod Capture
pub mod Limits
pub mod Trim
pub mod Pointers
pub mod Invariant
pub mod Begin
pub mod Update
pub mod Write
pub mod Pins
pub mod Resize
pub mod Finish
pub mod History
pub mod Search
pub mod Stream
pub mod Tests
use mathlib.Core.Option
use ctf_proxy_utils.Common.{
  ℕ, ◌+◌, String, Bool, true, false, not, ◌&&◌, ◌||◌, Option, none, some, List, [], ◌∷◌, ◌++◌, map,
  str_eq, ltb, leb, ◌==◌, if◌then◌else◌, length, is_empty, add64, update,
}
use ctf_proxy_utils.Common.Int.{ℤ, pos, negsuc, pos_part}
use Record.{ConnDump, RecordedConn, dir_in, dir_out, clone_dump, capture}

pub record Recorder : Type 0 where
  pub max_conns : ℕ
  pub max_bytes_per : ℕ
  pub sequence : ℕ
  pub store : ℕ → RecordedConn
  pub allocated : ℕ
  pub dumps : List ℕ
  pub active : ℕ → Option ℕ

-- `connWriter`: without a recorder it only serves the callbacks.
pub record ConnWriter : Type 0 where
  pub recording : Bool
  pub token : ℕ
  pub observing : Bool
  pub on_finish : Bool

-- A limit that is not positive gets its default.
pub positive_or : ℤ → ℕ → ℕ
positive_or n d = if pos_part n == 0 then d else pos_part n

unfoldable pub new_recorder : (ℕ → RecordedConn) → ℤ → ℤ → Recorder
unfolding positive_or
new_recorder store max_conns max_bytes_per = record {
  max_conns = positive_or max_conns 50;
  max_bytes_per = positive_or max_bytes_per 65536;
  sequence = 0;
  store = store;
  allocated = 0;
  dumps = [];
  active = λ _. none;
}

-- The loops `for i, d := range r.dumps { if test { ... remove(i) } }`: the first pointer whose
-- record passes, and the pointers without it.
pub take_out : (RecordedConn → Bool) → (ℕ → RecordedConn) → List ℕ → Option (ℕ × List ℕ)
take_out test store [] = none
take_out test store (p ∷ ps) =
    if test (store p)
    then some (p, ps)
    else Option.map (λ e. (e.0, p ∷ e.1)) (take_out test store ps)

-- `remove`, where `rest` are the pointers without `p`.
pub remove : Recorder → ℕ → List ℕ → Recorder
remove r p rest = record r { active = update r.active (r.store p).token none; dumps = rest }

abbrev pub is_unpinned : RecordedConn → Bool
is_unpinned d = not d.pinned

pub evict_oldest_unpinned : Recorder → Option Recorder
unfolding remove
evict_oldest_unpinned r = elim (take_out is_unpinned r.store r.dumps) [
  | none ↦ none
  | some (p, rest) ↦ some (remove r p rest)
]

-- The first loop of `BeginProtocol`: `none` if a pinned record has the id.
pub drop_same_id : ℕ → Recorder → Option Recorder
unfolding remove
drop_same_id id r = elim (take_out (λ d. d.id == id) r.store r.dumps) [
  | none ↦ some r
  | some (p, rest) ↦ if (r.store p).pinned then none else some (remove r p rest)
]

pub make_room : Recorder → Option Recorder
make_room r = if leb r.max_conns (length r.dumps) then evict_oldest_unpinned r else some r

abbrev pub fresh_record : ℕ → ℕ → ℕ → List ℕ → String → String → RecordedConn
fresh_record now token id remote target protocol = record {
  dump = record {
    id = id;
    remote_addr = remote;
    target = target;
    started_at = now;
    ended_at = 0;
    closed = false;
    bytes_in = 0;
    bytes_out = 0;
    chunks = [];
    truncated = false;
    pinned = false;
    risk_score = 0;
    findings = 0;
    protocol = protocol;
  };
  token = token;
  written_in = 0;
  written_out = 0;
  metadata_full = false;
  truncated_in = false;
  truncated_out = false;
}

abbrev pub writer_of : ℕ → ConnWriter
writer_of token = record { recording = true; token = token; observing = false; on_finish = false }

-- The end of `BeginProtocol`: a new record under the next token.
pub push_record : ℕ → ℕ → List ℕ → String → String → Recorder → Recorder × Option ConnWriter
push_record now id remote target protocol r =
    let token = add64 r.sequence 1 in
    (
      record r {
        sequence = token;
        store = update r.store r.allocated (fresh_record now token id remote target protocol);
        allocated = r.allocated + 1;
        dumps = r.dumps ++ r.allocated ∷ [];
        active = update r.active token (some r.allocated);
      },
      some (writer_of token),
    )

-- `BeginProtocol` behind its first loop.
pub begin_rest : ℕ → ℕ → List ℕ → String → String → Recorder → Recorder × Option ConnWriter
begin_rest now id remote target protocol r = elim (make_room r) [
  | none ↦ (r, none)
  | some r' ↦ push_record now id remote target protocol r'
]

-- What `drop_same_id` removed stays removed if no slot is found after it.
pub begin_protocol : ℕ → ℕ → List ℕ → String → String → Recorder → Recorder × Option ConnWriter
begin_protocol now id remote target protocol r = elim (drop_same_id id r) [
  | none ↦ (r, none)
  | some r' ↦ begin_rest now id remote target protocol r'
]

-- The first pointer whose record has the id.
pub find_id : ℕ → (ℕ → RecordedConn) → List ℕ → Option ℕ
find_id id store [] = none
find_id id store (p ∷ ps) = if (store p).id == id then some p else find_id id store ps

-- `d.Findings++` and the rest of `MarkFinding` on the record.
pub mark_record : ℕ → Bool → RecordedConn → RecordedConn
mark_record score pin d = record d {
  dump = record d.dump {
    findings = d.findings + 1;
    risk_score = if ltb d.risk_score score then score else d.risk_score;
    pinned = if pin then true else d.pinned;
  };
}

-- An update through a pointer.
abbrev pub modify : ℕ → (RecordedConn → RecordedConn) → Recorder → Recorder
modify p f r = record r { store = update r.store p (f (r.store p)) }

-- `none` is `ErrDumpNotFound`.
pub mark_finding : ℕ → ℕ → Bool → Recorder → Option Recorder
unfolding mark_record
mark_finding id score pin r =
    Option.map (λ p. modify p (mark_record score pin) r) (find_id id r.store r.dumps)

abbrev pub pin_record : Bool → RecordedConn → RecordedConn
pin_record pinned d = record d { dump = record d.dump { pinned = pinned } }

pub set_pinned : ℕ → Bool → Recorder → Option Recorder
set_pinned id pinned r =
    Option.map (λ p. modify p (pin_record pinned) r) (find_id id r.store r.dumps)

pub count : Recorder → ℕ
count r = length r.dumps

-- The loop from the last record to the first.
pub clones_from_end : (ℕ → RecordedConn) → List ℕ → List ConnDump
clones_from_end store [] = []
clones_from_end store (p ∷ ps) = clones_from_end store ps ++ clone_dump (store p).dump true ∷ []

pub list : Recorder → List ConnDump
list r = clones_from_end r.store r.dumps

pub get : ℕ → Recorder → Option ConnDump
get id r = Option.map (λ p. clone_dump (r.store p).dump true) (find_id id r.store r.dumps)

-- `Clear` walks from the newest record to the oldest.
pub clear_loop : (ℕ → RecordedConn) → (ℕ → Option ℕ) → List ℕ → (ℕ → Option ℕ) × List ℕ
clear_loop store active [] = (active, [])
clear_loop store active (p ∷ ps) =
    let (active', ps') = clear_loop store active ps in
    if (store p).pinned then (active', p ∷ ps') else (update active' (store p).token none, ps')

pub clear : Recorder → Recorder
unfolding clear_loop
clear r =
    let (active', dumps') = clear_loop r.store r.active r.dumps in
    record r { active = active'; dumps = dumps' }

pub clear_all : Recorder → Recorder
clear_all r = record r { dumps = []; active = λ _. none }

-- `writer.observe` is called first, whatever the recorder does: the second part is that call.
abbrev pub Observed : Type 0
Observed = Option (String × List ℕ)

abbrev pub observed : ConnWriter → String → List ℕ → Observed
observed w dir b = if w.observing then some (dir, b) else none

pub record_write : ConnWriter → ℕ → String → List ℕ → Bool → Recorder → Recorder
record_write w now dir b datagram r = elim (r.active w.token) [
  | none ↦ r
  | some p ↦
      if (r.store p).closed then r else modify p (capture r.max_bytes_per now dir b datagram) r
]

-- `Write` is `write` without `datagram`, and `WriteDatagram` is `write` with it.
pub write : Option ConnWriter → ℕ → String → List ℕ → Bool → Recorder → Recorder × Observed
unfolding record_write
write none now dir b datagram r = (r, none)
write (some w) now dir b datagram r =
    if is_empty b || not (str_eq dir dir_in || str_eq dir dir_out)
    then (r, none)
    else (if w.recording then record_write w now dir b datagram r else r, observed w dir b)

abbrev pub close_record : ℕ → ℕ → ℕ → RecordedConn → RecordedConn
close_record now bytes_in bytes_out d = record d {
  dump = record d.dump {
    closed = true;
    ended_at = now;
    bytes_in = bytes_in;
    bytes_out = bytes_out;
  };
}

pub record_finish : ConnWriter → ℕ → ℕ → ℕ → Recorder → Recorder
record_finish w now bytes_in bytes_out r = elim (r.active w.token) [
  | none ↦ r
  | some p ↦
      if (r.store p).closed
      then r
      else let r' = modify p (close_record now bytes_in bytes_out) r in
        record r' { active = update r'.active w.token none }
]

-- The writer loses its callback; the last part says whether it was called.
pub finish : ConnWriter → ℕ → ℕ → ℕ → Recorder → ConnWriter × Recorder × Bool
unfolding record_finish
finish w now bytes_in bytes_out r = (
  record w { on_finish = false },
  (if w.recording then record_finish w now bytes_in bytes_out r else r),
  w.on_finish,
)
