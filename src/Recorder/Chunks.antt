-- ===== src/Recorder/Chunks.antt =====
-- The chunk list of a record: how a write extends the stream of one direction.
use mathlib.Core.List.{append-nil, append_assoc}
use ctf_proxy_utils.Common.{
  ℕ, ◌≤◌, max, String, ◌≡◌, refl, sym, ap, ◌∙◌, inl, inr, Bool, true, false, some, List, [], ◌∷◌,
  ◌++◌, str_eq, eq_iff, arith, leb, Bool-cases, Option-cases, length, length-append,
}
use ctf_proxy_utils.Recorder.Record.{
  Chunk, RecordedConn, stream, store_chunks, extend_last, add_chunk, append_bytes, max_dump_chunks,
}

pub stream-append :
    (dir : String) (cs ds : List Chunk) → stream dir (cs ++ ds) ≡ stream dir cs ++ stream dir ds
stream-append dir [] ds = refl
stream-append dir (c ∷ cs) ds = elim (Bool-cases (str_eq c.dir dir)) [
  | inl e ↦ rw e (
      ap (◌++◌ c.content) (stream-append dir cs ds)
      ∙ sym (append_assoc c.content (stream dir cs) (stream dir ds)))
  | inr e ↦ rw e (stream-append dir cs ds)
]

-- `ds` is `cs` with `b` at the end of the stream of one direction.
pub record Extended (dir : String) (b : List ℕ) (cs ds : List Chunk) : Type 0 where
  pub grown : stream dir ds ≡ stream dir cs ++ b
  pub others : (dir' : String) → str_eq dir dir' ≡ false → stream dir' ds ≡ stream dir' cs

Extended-cons :
    (dir : String) (b : List ℕ) (c : Chunk) (cs ds : List Chunk)
    → Extended dir b cs ds
    → Extended dir b (c ∷ cs) (c ∷ ds)
Extended-cons dir b c cs ds v = record {
  grown = ground (arith, v.grown, append_assoc c.content (stream dir cs) b);
  others = λ dir' h. ground (arith, v.others dir' h);
}

extend_last-Extended :
    (dir : String) (b : List ℕ) (cs ds : List Chunk)
    → extend_last dir b cs ≡ some ds
    → Extended dir b cs ds
unfolding extend_last
extend_last-Extended dir b [] ds e = absurd (cc)
extend_last-Extended dir b (c ∷ []) ds e = record {
  grown = ground (arith, append-nil c.content, append-nil (c.content ++ b));
  others = λ dir' h. ground (arith, eq_iff c.dir dir, eq_iff c.dir dir', eq_iff dir dir');
}
extend_last-Extended dir b (c ∷ c' ∷ cs) ds e = elim (Option-cases (extend_last dir b (c' ∷ cs))) [
  | inl n ↦ absurd (ground arith)
  | inr (es, n) ↦
      let same : ds ≡ c ∷ es = ground arith in
      rw same (Extended-cons dir b c (c' ∷ cs) es (extend_last-Extended dir b (c' ∷ cs) es n))
]

length-extend_last :
    (dir : String) (b : List ℕ) (cs ds : List Chunk)
    → extend_last dir b cs ≡ some ds
    → length ds ≡ length cs
unfolding extend_last
length-extend_last dir b [] ds e = absurd (cc)
length-extend_last dir b (c ∷ []) ds e = ground arith
length-extend_last dir b (c ∷ c' ∷ cs) ds e = elim (Option-cases (extend_last dir b (c' ∷ cs))) [
  | inl n ↦ absurd (ground arith)
  | inr (es, n) ↦ ground (arith, length-extend_last dir b (c' ∷ cs) es n)
]

new_chunk-Extended :
    (dir : String) (cs : List Chunk) (c : Chunk)
    → c.dir ≡ dir
    → Extended dir c.content cs (cs ++ c ∷ [])
new_chunk-Extended dir cs c e = record {
  grown = ground (arith, stream-append dir cs (c ∷ []), append-nil c.content, eq_iff c.dir dir);
  others = λ dir' h. ground (
    arith,
    stream-append dir' cs (c ∷ []),
    append-nil (stream dir' cs),
    eq_iff c.dir dir',
    eq_iff dir dir',
  );
}

-- `append_bytes` either stores the bytes, or gives up on chunks and says so.
pub data Appended (dir : String) (b : List ℕ) (d d' : RecordedConn) : Type 0 where
  stored :
      (cs : List Chunk)
      → Extended dir b d.chunks cs
      → length cs ≤ max (length d.chunks) max_dump_chunks
      → d' ≡ store_chunks dir (length b) cs d
      → Appended dir b d d'
  full :
      max_dump_chunks ≤ length d.chunks
      → d' ≡ record d { dump = record d.dump { truncated = true }; metadata_full = true }
      → Appended dir b d d'

add_chunk-Appended :
    (now : ℕ) (dir : String) (b : List ℕ) (d : RecordedConn)
    → Appended dir b d (add_chunk now dir b d)
unfolding add_chunk
add_chunk-Appended now dir b d = elim (Bool-cases (leb max_dump_chunks (length d.chunks))) [
  | inl h ↦ full (ground arith) (rw h)
  | inr h ↦
      stored (d.chunks ++ c ∷ []) (new_chunk-Extended dir d.chunks c refl)
        (ground (arith, length-append d.chunks (c ∷ []))) (rw h)
]
  where
    c : Chunk
    c = record { at = now; dir = dir; content = b }

pub append_bytes-Appended :
    (now : ℕ) (dir : String) (b : List ℕ) (datagram : Bool) (d : RecordedConn)
    → Appended dir b d (append_bytes now dir b datagram d)
unfolding append_bytes
append_bytes-Appended now dir b true d = add_chunk-Appended now dir b d
append_bytes-Appended now dir b false d = elim (Option-cases (extend_last dir b d.chunks)) [
  | inl e ↦ rw (e, append_bytes) (add_chunk-Appended now dir b d)
  | inr (cs, e) ↦
      rw (e, append_bytes)
        (stored cs (extend_last-Extended dir b d.chunks cs e)
          (omega (arith, length-extend_last dir b d.chunks cs e)) refl)
]
