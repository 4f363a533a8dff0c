-- ===== src/Recorder/Limits.antt =====
-- The limits of one record: a write keeps the captured streams within them.
use ctf_proxy_utils.Common.{
  ℕ, ◌-◌, ◌≤◌, String, ◌≡◌, refl, subst, ◌⊎◌, inl, inr, Bool, true, false, not, ◌||◌, some, List,
  [], ◌∷◌, ◌++◌, str_eq, arith, leb, Bool-cases, Option-cases, length, All, is_empty, length-append,
  length-take, All-append,
}
use ctf_proxy_utils.Recorder.Chunks.{Appended, stored, full, append_bytes-Appended}
use ctf_proxy_utils.Recorder.Record.{
  Chunk, RecordedConn, stream, written, truncated_dir, count_bytes, mark_truncated, store_chunks,
  append_bytes, extend_last, add_chunk, capture, dir_in, dir_out, max_dump_chunks,
}
use ctf_proxy_utils.Recorder.Capture.{kept, marked, kept_lem, capture-Aside, marked-same}

-- The counters are the sizes of the streams, and stay within the limits.
pub record Counted (max_bytes : ℕ) (dir : String) (d : RecordedConn) : Type 0 where
  pub size : written dir d ≡ length (stream dir d.chunks)
  pub within : written dir d ≤ max_bytes

module _ (max_bytes : ℕ) (dir : String) (b : List ℕ) (d : RecordedConn) where
  Appended-Counted :
      (d' : RecordedConn)
      → Counted max_bytes dir d
      → Appended dir (kept max_bytes dir b d) (marked max_bytes dir b d) d'
      → Counted max_bytes dir d'
  unfolding count_bytes mark_truncated store_chunks
  Appended-Counted d' v (stored cs x few e) = rw e (record {
    size =
        ground
          (arith, x.grown, v.size, length-append (stream dir d.chunks) (kept max_bytes dir b d));
    within = ground (arith, v.within, length-take (max_bytes - written dir d) b);
  })
  Appended-Counted d' v (full h e) = rw e (ground arith)

  pub capture-Counted :
      (now : ℕ) (datagram : Bool)
      → Counted max_bytes dir d
      → Counted max_bytes dir (capture max_bytes now dir b datagram d)
  unfolding capture count_bytes mark_truncated
  capture-Counted now datagram v = elim (Bool-cases (truncated_dir dir d || d.metadata_full)) [
    | inl h ↦ rw h (ground arith)
    | inr h ↦
        rw (h, kept_lem (max_bytes - written dir d) b)
          (elim (Bool-cases (is_empty (kept max_bytes dir b d))) [
            | inl e ↦ rw e (ground arith)
            | inr e ↦ rw e (Appended-Counted _ v (append_bytes-Appended now dir _ datagram _))
          ])
  ]

  Appended-few :
      (d' : RecordedConn)
      → length d.chunks ≤ max_dump_chunks
      → Appended dir (kept max_bytes dir b d) (marked max_bytes dir b d) d'
      → length d'.chunks ≤ max_dump_chunks
  unfolding count_bytes mark_truncated store_chunks
  Appended-few d' v (stored cs x few e) = rw e (ground arith)
  Appended-few d' v (full h e) = rw e (ground arith)

  pub capture-few :
      (now : ℕ) (datagram : Bool)
      → length d.chunks ≤ max_dump_chunks
      → length (capture max_bytes now dir b datagram d).chunks ≤ max_dump_chunks
  unfolding capture count_bytes mark_truncated
  capture-few now datagram v = elim (Bool-cases (truncated_dir dir d || d.metadata_full)) [
    | inl h ↦ rw h (ground arith)
    | inr h ↦
        rw (h, kept_lem (max_bytes - written dir d) b)
          (elim (Bool-cases (is_empty (kept max_bytes dir b d))) [
            | inl e ↦ rw e (ground arith)
            | inr e ↦ rw e (Appended-few _ v (append_bytes-Appended now dir _ datagram _))
          ])
  ]

module _ (max_bytes : ℕ) (dir : String) (b : List ℕ) (d : RecordedConn) where
  Aside-Counted :
      (dir' : String)
      → str_eq dir' dir_out ≡ not (str_eq dir dir_out)
      → (now : ℕ) (datagram : Bool) → Counted max_bytes dir' d
      → Counted max_bytes dir' (capture max_bytes now dir b datagram d)
  Aside-Counted dir' other now datagram v =
      let a = capture-Aside max_bytes dir [] b d dir' other now datagram in
      record {
        size = rw (a.same_written, a.same_stream) v.size;
        within = rw (a.same_written) v.within;
      }

abbrev pub IsKnown : String → Type 0
IsKnown dir = (dir ≡ dir_in) ⊎ (dir ≡ dir_out)

extend_last-IsKnown :
    (dir : String) (b : List ℕ) (cs ds : List Chunk)
    → extend_last dir b cs ≡ some ds
    → All (λ c. IsKnown c.dir) cs
    → All (λ c. IsKnown c.dir) ds
unfolding extend_last
extend_last-IsKnown dir b [] ds e h = absurd (cc)
extend_last-IsKnown dir b (c ∷ []) ds e h = elim (Bool-cases (str_eq c.dir dir)) [
  | inl k ↦ let same : ds ≡ record c { content = c.content ++ b } ∷ [] = ground arith in rw same h
  | inr k ↦ absurd (ground arith)
]
extend_last-IsKnown dir b (c ∷ c' ∷ cs) ds e h = elim (Option-cases (extend_last dir b (c' ∷ cs))) [
  | inl n ↦ absurd (ground arith)
  | inr (es, n) ↦
      let same : ds ≡ c ∷ es = ground arith in
      rw same (h.0, extend_last-IsKnown dir b (c' ∷ cs) es n h.1)
]

module _ (max_bytes : ℕ) (dir : String) (b : List ℕ) (d : RecordedConn) (h : IsKnown dir) where
  add_chunk-IsKnown :
      (now : ℕ) (k : List ℕ) (d' : RecordedConn)
      → All (λ c. IsKnown c.dir) d'.chunks
      → All (λ c. IsKnown c.dir) (add_chunk now dir k d').chunks
  unfolding add_chunk store_chunks
  add_chunk-IsKnown now k d' v = elim (Bool-cases (leb max_dump_chunks (length d'.chunks))) [
    | inl e ↦ simp e v
    | inr e ↦ simp e (elim (Bool-cases (str_eq dir dir_out)) [
      | inl o ↦ rw o (All-append _ d'.chunks _ v (h, tt))
      | inr o ↦ rw o (All-append _ d'.chunks _ v (h, tt))
    ])
  ]

  append_bytes-IsKnown :
      (now : ℕ) (k : List ℕ) (datagram : Bool) (d' : RecordedConn)
      → All (λ c. IsKnown c.dir) d'.chunks
      → All (λ c. IsKnown c.dir) (append_bytes now dir k datagram d').chunks
  unfolding append_bytes store_chunks
  append_bytes-IsKnown now k true d' v = add_chunk-IsKnown now k d' v
  append_bytes-IsKnown now k false d' v = elim (Option-cases (extend_last dir k d'.chunks)) [
    | inl n ↦ rw (n, append_bytes) (add_chunk-IsKnown now k d' v)
    | inr (cs, n) ↦
        let fine = extend_last-IsKnown dir k d'.chunks cs n v in
        rw (n, append_bytes)
          (elim (Bool-cases (str_eq dir dir_out)) [ inl o ↦ rw o fine | inr o ↦ rw o fine ])
  ]

  pub capture-IsKnown :
      (now : ℕ) (datagram : Bool)
      → All (λ c. IsKnown c.dir) d.chunks
      → All (λ c. IsKnown c.dir) (capture max_bytes now dir b datagram d).chunks
  unfolding capture count_bytes
  capture-IsKnown now datagram v = elim (Bool-cases (truncated_dir dir d || d.metadata_full)) [
    | inl e ↦ simp e (subst (All _) (ground arith) v)
    | inr e ↦
        rw (e, kept_lem (max_bytes - written dir d) b)
          (elim (Bool-cases (is_empty (kept max_bytes dir b d))) [
            | inl k ↦ rw k (rw (marked-same max_bytes dir [] b d).0 v)
            | inr k ↦ rw k (
                append_bytes-IsKnown now (kept max_bytes dir b d) datagram
                  (marked max_bytes dir b d) (rw (marked-same max_bytes dir [] b d).0 v))
          ])
  ]

-- The counters are the sizes of the captured streams, and these stay within the limits.
pub record Fits (max_bytes : ℕ) (d : RecordedConn) : Type 0 where
  pub counted_in : Counted max_bytes dir_in d
  pub counted_out : Counted max_bytes dir_out d
  pub few : length d.chunks ≤ max_dump_chunks
  pub known : All (λ c. IsKnown c.dir) d.chunks

pub capture-Fits :
    (max_bytes now : ℕ) (dir : String) (b : List ℕ) (datagram : Bool) (d : RecordedConn)
    → (dir ≡ dir_in) ⊎ (dir ≡ dir_out)
    → Fits max_bytes d
    → Fits max_bytes (capture max_bytes now dir b datagram d)
capture-Fits max_bytes now dir b datagram d (inl e) v = rw e (record {
  counted_in = capture-Counted max_bytes dir_in b d now datagram v.counted_in;
  counted_out = Aside-Counted max_bytes dir_in b d dir_out refl now datagram v.counted_out;
  few = capture-few max_bytes dir_in b d now datagram v.few;
  known = capture-IsKnown max_bytes dir_in b d (inl refl) now datagram v.known;
})
capture-Fits max_bytes now dir b datagram d (inr e) v = rw e (record {
  counted_in = Aside-Counted max_bytes dir_out b d dir_in refl now datagram v.counted_in;
  counted_out = capture-Counted max_bytes dir_out b d now datagram v.counted_out;
  few = capture-few max_bytes dir_out b d now datagram v.few;
  known = capture-IsKnown max_bytes dir_out b d (inr refl) now datagram v.known;
})
