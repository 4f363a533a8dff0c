-- ===== src/Recorder/Trim.antt =====
-- internal/proxy/dump.go, the last loop of `Resize`: one record cut down to a new byte limit.
use ctf_proxy_utils.Common.{
  ℕ, ◌+◌, ◌-◌, ◌≤◌, min, String, ◌≡◌, refl, sym, ap, subst, inl, inr, Bool, true, false, not, ◌&&◌,
  ◌||◌, List, [], ◌∷◌, ◌++◌, str_eq, eq_iff, arith, ltb, leb, if◌then◌else◌, Bool-cases, length,
  take, All, length-append, length-take, take_of_length-le, take-append, All-append,
}
use mathlib.Core.List.{append-nil, append_assoc}
use ctf_proxy_utils.Recorder.Record.{Chunk, RecordedConn, stream, dir_in, dir_out}
use ctf_proxy_utils.Recorder.Chunks.{stream-append}
use ctf_proxy_utils.Recorder.Limits.{Fits, IsKnown}

-- The variables of the loop over the chunks.
pub record Trim : Type 0 where
  pub chunks : List Chunk
  pub n_in : ℕ
  pub n_out : ℕ
  pub cut_in : Bool
  pub cut_out : Bool

abbrev pub n_dir : String → Trim → ℕ
n_dir dir t = if str_eq dir dir_out then t.n_out else t.n_in

-- One chunk; `n` is what is kept of it. The loop keeps `n_dir dir t ≤ max_bytes`.
unfoldable pub trim_chunk : ℕ → Trim → Chunk → Trim
trim_chunk max_bytes t c =
    let room = max_bytes - n_dir c.dir t in
    let cut = ltb room (length c.content) in
    let n = if cut then room else length c.content in
    let cs =
      if ltb 0 n then t.chunks ++ record c { content = take n c.content } ∷ [] else t.chunks in
    if str_eq c.dir dir_out
    then record t { chunks = cs; n_out = t.n_out + n; cut_out = t.cut_out || cut }
    else record t { chunks = cs; n_in = t.n_in + n; cut_in = t.cut_in || cut }

unfoldable pub trim_loop : ℕ → Trim → List Chunk → Trim
trim_loop max_bytes t [] = t
trim_loop max_bytes t (c ∷ cs) = trim_loop max_bytes (trim_chunk max_bytes t c) cs

abbrev pub no_chunks : Trim
no_chunks = record { chunks = []; n_in = 0; n_out = 0; cut_in = false; cut_out = false }

abbrev trimmed : RecordedConn → Trim → RecordedConn
trimmed d t = record d {
  dump = record d.dump { chunks = t.chunks; truncated = d.truncated || t.cut_in || t.cut_out };
  written_in = t.n_in;
  written_out = t.n_out;
  truncated_in = d.truncated_in || t.cut_in;
  truncated_out = d.truncated_out || t.cut_out;
}

unfoldable pub trim_record : ℕ → RecordedConn → RecordedConn
trim_record max_bytes d =
    if leb d.written_in max_bytes && leb d.written_out max_bytes
    then d
    else trimmed d (trim_loop max_bytes no_chunks d.chunks)

-- What the loop has kept of one direction, when `rest` is still to come.
record Kept (max_bytes : ℕ) (dir : String) (t t' : Trim) (rest : List ℕ) : Type 0 where
  kept_stream : stream dir t'.chunks ≡ stream dir t.chunks ++ take (max_bytes - n_dir dir t) rest
  kept_count : n_dir dir t' ≡ n_dir dir t + min (max_bytes - n_dir dir t) (length rest)

trim_chunk-Kept :
    (max_bytes : ℕ) (t : Trim) (c : Chunk)
    → Kept max_bytes c.dir t (trim_chunk max_bytes t c) c.content
unfolding trim_chunk
trim_chunk-Kept max_bytes t c =
    let n =
      if ltb (max_bytes - n_dir c.dir t) (length c.content)
      then max_bytes - n_dir c.dir t
      else length c.content in
    let piece : Chunk = record c { content = take n c.content } in
    let same : take n c.content ≡ take (max_bytes - n_dir c.dir t) c.content = ground (
      arith,
      take_of_length-le (max_bytes - n_dir c.dir t) c.content,
      take_of_length-le (length c.content) c.content,
    ) in
    record {
      kept_stream = ground (
        arith,
        same,
        stream-append c.dir t.chunks (piece ∷ []),
        append-nil (take n c.content),
        append-nil (stream c.dir t.chunks),
        eq_iff c.dir c.dir,
        length-take (max_bytes - n_dir c.dir t) c.content,
      );
      kept_count = ground arith;
    }

-- Nothing of another direction.
trim_chunk_other-Kept :
    (max_bytes : ℕ) (dir : String) (t : Trim) (c : Chunk)
    → str_eq dir dir_out ≡ not (str_eq c.dir dir_out)
    → Kept max_bytes dir t (trim_chunk max_bytes t c) []
unfolding trim_chunk
trim_chunk_other-Kept max_bytes dir t c other =
    let n =
      if ltb (max_bytes - n_dir c.dir t) (length c.content)
      then max_bytes - n_dir c.dir t
      else length c.content in
    let piece : Chunk = record c { content = take n c.content } in
    record {
      kept_stream = ground (
        arith,
        stream-append dir t.chunks (piece ∷ []),
        append-nil (stream dir t.chunks),
        eq_iff c.dir dir,
        take_of_length-le {A = ℕ} (max_bytes - n_dir dir t) [],
      );
      kept_count = ground arith;
    }

Kept-trans :
    (max_bytes : ℕ) (dir : String) (t t' t'' : Trim) (b bs : List ℕ)
    → Kept max_bytes dir t t' b
    → Kept max_bytes dir t' t'' bs
    → Kept max_bytes dir t t'' (b ++ bs)
Kept-trans max_bytes dir t t' t'' b bs v w =
    let room : max_bytes - n_dir dir t' ≡ max_bytes - n_dir dir t - length b =
      omega (arith, v.kept_count) in
    record {
      kept_stream = ground (
        arith,
        v.kept_stream,
        w.kept_stream,
        ap (λ k. take k bs) room,
        take-append (max_bytes - n_dir dir t) b bs,
        append_assoc (stream dir t.chunks) (take (max_bytes - n_dir dir t) b)
            (take (max_bytes - n_dir dir t - length b) bs),
      );
      kept_count = omega (arith, v.kept_count, w.kept_count, length-append b bs);
    }

opposite :
    (dir dir' : String)
    → IsKnown dir
    → IsKnown dir'
    → str_eq dir' dir ≡ false
    → str_eq dir dir_out ≡ not (str_eq dir' dir_out)
opposite dir dir' h k e = ground (
  arith,
  eq_iff dir' dir,
  eq_iff dir dir_in,
  eq_iff dir' dir_in,
  eq_iff dir dir_out,
  eq_iff dir' dir_out,
)

trim_loop-Kept :
    (max_bytes : ℕ) (dir : String) (t : Trim) (cs : List Chunk)
    → IsKnown dir
    → All (λ c. IsKnown c.dir) cs
    → Kept max_bytes dir t (trim_loop max_bytes t cs) (stream dir cs)
unfolding trim_loop
trim_loop-Kept max_bytes dir t [] known all = record {
  kept_stream = ground (
    arith,
    append-nil (stream dir t.chunks),
    take_of_length-le {A = ℕ} (max_bytes - n_dir dir t) [],
  );
  kept_count = omega arith;
}
trim_loop-Kept max_bytes dir t (c ∷ cs) known all =
    let t' = trim_chunk max_bytes t c in
    let later = trim_loop-Kept max_bytes dir t' cs known all.1 in
    elim (Bool-cases (str_eq c.dir dir)) [
      | inl e ↦
          let same : c.dir ≡ dir = ground (arith, eq_iff c.dir dir) in
          rw e (
            Kept-trans max_bytes dir t t' _ c.content (stream dir cs)
              (subst (λ x. Kept max_bytes x t t' c.content) same (trim_chunk-Kept max_bytes t c))
              later)
      | inr e ↦ rw e (
          Kept-trans max_bytes dir t t' _ [] (stream dir cs)
            (trim_chunk_other-Kept max_bytes dir t c (opposite dir c.dir known all.0 e)) later)
    ]

known-short :
    (old_max max_bytes : ℕ) (dir : String) (d : RecordedConn)
    → IsKnown dir
    → Fits old_max d
    → (leb d.written_in max_bytes && leb d.written_out max_bytes) ≡ true
    → length (stream dir d.chunks) ≤ max_bytes
known-short old_max max_bytes dir d (inl k) v e = rw k (ground (arith, v.counted_in.size))
known-short old_max max_bytes dir d (inr k) v e = rw k (ground (arith, v.counted_out.size))

-- A record cut down keeps the prefix of each stream that fits the new limit.
pub stream-trim_record :
    (old_max max_bytes : ℕ) (dir : String) (d : RecordedConn)
    → IsKnown dir
    → Fits old_max d
    → stream dir (trim_record max_bytes d).chunks ≡ take max_bytes (stream dir d.chunks)
unfolding trim_record
stream-trim_record old_max max_bytes dir d known v =
    elim (Bool-cases (leb d.written_in max_bytes && leb d.written_out max_bytes)) [
      | inl e ↦ simp e (
          sym (
            take_of_length-le max_bytes (stream dir d.chunks)
              (known-short old_max max_bytes dir d known v e)))
      | inr e ↦ simp e (
          ground
            (arith, (trim_loop-Kept max_bytes dir no_chunks d.chunks known v.known).kept_stream))
    ]

trim_loop-Counted :
    (max_bytes : ℕ) (dir : String) (cs : List Chunk)
    → IsKnown dir
    → All (λ c. IsKnown c.dir) cs
    → (n_dir dir (trim_loop max_bytes no_chunks cs)
        ≡ length (stream dir (trim_loop max_bytes no_chunks cs).chunks))
      × (n_dir dir (trim_loop max_bytes no_chunks cs) ≤ max_bytes)
trim_loop-Counted max_bytes dir cs known all =
    let k = trim_loop-Kept max_bytes dir no_chunks cs known all in
    ground (arith, k.kept_count, k.kept_stream, length-take max_bytes (stream dir cs))

-- The loop makes no more chunks than there were, with the same directions.
trim_chunk-few :
    (max_bytes : ℕ) (t : Trim) (c : Chunk)
    → length (trim_chunk max_bytes t c).chunks ≤ length t.chunks + 1
unfolding trim_chunk
trim_chunk-few max_bytes t c = ground (
  arith,
  length-append t.chunks (
      record c {
        content =
            take
              (if ltb (max_bytes - n_dir c.dir t) (length c.content)
                then max_bytes - n_dir c.dir t
                else length c.content)
              c.content;
      }
      ∷ []),
)

trim_loop-few :
    (max_bytes : ℕ) (t : Trim) (cs : List Chunk)
    → length (trim_loop max_bytes t cs).chunks ≤ length t.chunks + length cs
unfolding trim_loop
trim_loop-few max_bytes t [] = omega arith
trim_loop-few max_bytes t (c ∷ cs) =
    omega
      (arith, trim_loop-few max_bytes (trim_chunk max_bytes t c) cs, trim_chunk-few max_bytes t c)

trim_chunk-IsKnown :
    (max_bytes : ℕ) (t : Trim) (c : Chunk)
    → IsKnown c.dir
    → All (λ x. IsKnown x.dir) t.chunks
    → All (λ x. IsKnown x.dir) (trim_chunk max_bytes t c).chunks
unfolding trim_chunk
trim_chunk-IsKnown max_bytes t c h all =
    let n =
      if ltb (max_bytes - n_dir c.dir t) (length c.content)
      then max_bytes - n_dir c.dir t
      else length c.content in
    let more = t.chunks ++ record c { content = take n c.content } ∷ [] in
    let all_more =
      All-append (λ (x : Chunk). IsKnown x.dir) t.chunks
        (record c { content = take n c.content } ∷ []) all (h, tt) in
    let shape : (trim_chunk max_bytes t c).chunks ≡ (if ltb 0 n then more else t.chunks) =
      ground arith in
    rw shape (elim (Bool-cases (ltb 0 n)) [ inl e ↦ rw e all_more | inr e ↦ rw e all ])

trim_loop-IsKnown :
    (max_bytes : ℕ) (t : Trim) (cs : List Chunk)
    → All (λ x. IsKnown x.dir) cs
    → All (λ x. IsKnown x.dir) t.chunks
    → All (λ x. IsKnown x.dir) (trim_loop max_bytes t cs).chunks
unfolding trim_loop
trim_loop-IsKnown max_bytes t [] h all = all
trim_loop-IsKnown max_bytes t (c ∷ cs) h all =
    trim_loop-IsKnown max_bytes (trim_chunk max_bytes t c) cs h.1
      (trim_chunk-IsKnown max_bytes t c h.0 all)

pub trim_record-Fits :
    (old_max max_bytes : ℕ) (d : RecordedConn)
    → Fits old_max d
    → Fits max_bytes (trim_record max_bytes d)
unfolding trim_record
trim_record-Fits old_max max_bytes d v =
    elim (Bool-cases (leb d.written_in max_bytes && leb d.written_out max_bytes)) [
      | inl e ↦ simp e (record {
        counted_in = record { size = v.counted_in.size; within = ground arith };
        counted_out = record { size = v.counted_out.size; within = ground arith };
        few = v.few;
        known = v.known;
      })
      | inr e ↦
          let (size_in, within_in) =
            trim_loop-Counted max_bytes dir_in d.chunks (inl refl) v.known in
          let (size_out, within_out) =
            trim_loop-Counted max_bytes dir_out d.chunks (inr refl) v.known in
          simp e (record {
            counted_in = record { size = size_in; within = within_in };
            counted_out = record { size = size_out; within = within_out };
            few = omega (arith, trim_loop-few max_bytes no_chunks d.chunks, v.few);
            known = trim_loop-IsKnown max_bytes no_chunks d.chunks v.known tt;
          })
    ]

-- Its token, its pin and its state stay.
pub trim_record-same :
    (max_bytes : ℕ) (d : RecordedConn)
    → ((trim_record max_bytes d).token ≡ d.token)
      × ((trim_record max_bytes d).closed ≡ d.closed)
      × ((trim_record max_bytes d).pinned ≡ d.pinned)
      × ((trim_record max_bytes d).id ≡ d.id)
unfolding trim_record
trim_record-same max_bytes d = ground arith
