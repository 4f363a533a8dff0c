-- ===== src/Recorder/Record.antt =====
-- internal/proxy/dump.go: what is stored of one connection, and how a write is captured.
-- Texts that the code only compares are `String`, bytes are numbers in a list, and times are
-- nanoseconds, with 0 for the zero `time.Time`.
use mathlib.Core.Option
use ctf_proxy_utils.Common.{
  ℕ, ◌+◌, ◌-◌, String, Bool, true, ◌||◌, Option, none, some, List, [], ◌∷◌, ◌++◌, str_eq, ltb, leb,
  if◌then◌else◌, length, take, is_empty, add64,
}

abbrev pub dir_in : String
dir_in = "in"

abbrev pub dir_out : String
dir_out = "out"

abbrev pub max_dump_chunks : ℕ
max_dump_chunks = 256

pub record Chunk : Type 0 where
  pub at : ℕ
  pub dir : String
  pub content : List ℕ

pub record ConnDump : Type 0 where
  pub id : ℕ
  pub remote_addr : List ℕ
  pub target : String
  pub started_at : ℕ
  pub ended_at : ℕ
  pub closed : Bool
  pub bytes_in : ℕ
  pub bytes_out : ℕ
  pub chunks : List Chunk
  pub truncated : Bool
  pub pinned : Bool
  pub risk_score : ℕ
  pub findings : ℕ
  pub protocol : String

pub record RecordedConn : Type 0 where
  pub dump : ConnDump
  pub open dump use *
  pub token : ℕ
  pub written_in : ℕ
  pub written_out : ℕ
  pub metadata_full : Bool
  pub truncated_in : Bool
  pub truncated_out : Bool

-- The bytes captured in one direction, in their order.
abbrev pub stream : String → List Chunk → List ℕ
stream dir [] = []
stream dir (c ∷ cs) = if str_eq c.dir dir then c.content ++ stream dir cs else stream dir cs

-- `cloneDump`: without its chunks a record is a summary.
unfoldable pub clone_dump : ConnDump → Bool → ConnDump
clone_dump src with_chunks = if with_chunks then src else record src { chunks = [] }

abbrev pub written : String → RecordedConn → ℕ
written dir d = if str_eq dir dir_out then d.written_out else d.written_in

abbrev pub truncated_dir : String → RecordedConn → Bool
truncated_dir dir d = if str_eq dir dir_out then d.truncated_out else d.truncated_in

-- `*total += int64(len(b))`
unfoldable pub count_bytes : String → ℕ → RecordedConn → RecordedConn
count_bytes dir n d =
    if str_eq dir dir_out
    then record d { dump = record d.dump { bytes_out = add64 d.bytes_out n } }
    else record d { dump = record d.dump { bytes_in = add64 d.bytes_in n } }

-- `d.Truncated, *truncated = true, true`
unfoldable pub mark_truncated : String → RecordedConn → RecordedConn
mark_truncated dir d =
    if str_eq dir dir_out
    then record d { dump = record d.dump { truncated = true }; truncated_out = true }
    else record d { dump = record d.dump { truncated = true }; truncated_in = true }

-- `*written += len(b)`, with the new chunks.
unfoldable pub store_chunks : String → ℕ → List Chunk → RecordedConn → RecordedConn
store_chunks dir n cs d =
    if str_eq dir dir_out
    then record d { dump = record d.dump { chunks = cs }; written_out = d.written_out + n }
    else record d { dump = record d.dump { chunks = cs }; written_in = d.written_in + n }

-- The last chunk grows if it has the direction of the write.
unfoldable pub extend_last : String → List ℕ → List Chunk → Option (List Chunk)
extend_last dir b [] = none
extend_last dir b (c ∷ []) =
    if str_eq c.dir dir then some (record c { content = c.content ++ b } ∷ []) else none
extend_last dir b (c ∷ c' ∷ cs) = Option.map (◌∷◌ c) (extend_last dir b (c' ∷ cs))

-- A new chunk, or the mark that no more chunks are kept.
unfoldable pub add_chunk : ℕ → String → List ℕ → RecordedConn → RecordedConn
add_chunk now dir b d =
    if leb max_dump_chunks (length d.chunks)
    then record d { dump = record d.dump { truncated = true }; metadata_full = true }
    else store_chunks dir (length b) (d.chunks ++ record { at = now; dir = dir; content = b } ∷ [])
        d

unfoldable pub append_bytes : ℕ → String → List ℕ → Bool → RecordedConn → RecordedConn
append_bytes now dir b datagram d =
    if datagram then add_chunk now dir b d else elim (extend_last dir b d.chunks) [
      | none ↦ add_chunk now dir b d
      | some cs ↦ store_chunks dir (length b) cs d
    ]

-- What `write` does to the record of an open connection. The invariant of the recorder has
-- `written dir d ≤ max_bytes_per`, so that the subtraction is the one of the source.
unfoldable pub capture : ℕ → ℕ → String → List ℕ → Bool → RecordedConn → RecordedConn
capture max_bytes_per now dir b datagram d =
    let counted = count_bytes dir (length b) d in
    let room = max_bytes_per - written dir d in
    let cut = ltb room (length b) in
    let kept = if cut then take room b else b in
    let marked = if cut then mark_truncated dir counted else counted in
    if truncated_dir dir d || d.metadata_full
    then counted
    else if is_empty kept
    then marked
    else append_bytes now dir kept datagram marked
