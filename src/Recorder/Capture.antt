-- ===== src/Recorder/Capture.antt =====
-- What `write` captures of a stream, against everything that was sent.
use mathlib.Core.List.{append-nil, append_assoc}
use ctf_proxy_utils.Common.{
  ℕ, ◌-◌, ◌≤◌, String, ◌≡◌, refl, sym, ap, ◌∙◌, ◌⊎◌, inl, inr, Bool, true, false, not, ◌||◌, List,
  [], ◌++◌, str_eq, eq_iff, arith, ltb, if◌then◌else◌, Bool-cases, length, take, drop, is_empty,
  length-append, take-append-drop, length-take, take_of_length-le, take-append_left,
  take-append_right,
}
use ctf_proxy_utils.Recorder.Chunks.{Extended, Appended, stored, full, append_bytes-Appended}
use ctf_proxy_utils.Recorder.Record.{
  Chunk, RecordedConn, stream, written, truncated_dir, count_bytes, mark_truncated, store_chunks,
  append_bytes, capture, dir_out,
}

-- The record against all bytes sent in one direction so far.
pub record Tracks (max_bytes : ℕ) (dir : String) (sent : List ℕ) (d : RecordedConn) : Type 0 where
  pub faithful : (rest : List ℕ) × (sent ≡ stream dir d.chunks ++ rest)
  pub counted : written dir d ≡ length (stream dir d.chunks)
  pub within : written dir d ≤ max_bytes
  pub exact : d.metadata_full ≡ false → stream dir d.chunks ≡ take max_bytes sent
  pub flagged : d.metadata_full ≡ false → truncated_dir dir d ≡ ltb max_bytes (length sent)
  pub reported : d.truncated ≡ false → (d.metadata_full ≡ false) × (truncated_dir dir d ≡ false)

module _ (max_bytes : ℕ) (dir : String) (sent b : List ℕ) (d : RecordedConn) where
  stopped-Tracks :
      Tracks max_bytes dir sent d
      → (truncated_dir dir d ≡ true) ⊎ (d.metadata_full ≡ true)
      → Tracks max_bytes dir (sent ++ b) (count_bytes dir (length b) d)
  unfolding count_bytes
  stopped-Tracks v h = record {
    faithful = (
      v.faithful.0 ++ b,
      ground (arith, v.faithful.1, append_assoc (stream dir d.chunks) v.faithful.0 b),
    );
    counted = ground (arith, v.counted);
    within = ground (arith, v.within);
    exact = λ m.
        ground
          (arith, h, v.exact, v.flagged, length-append sent b, take-append_left max_bytes sent b);
    flagged = λ m. ground (arith, h, v.exact, v.flagged, length-append sent b);
    reported = λ m. ground (arith, v.reported);
  }

-- The bytes that still fit.
abbrev pub kept : ℕ → String → List ℕ → RecordedConn → List ℕ
kept max_bytes dir b d = take (max_bytes - written dir d) b

abbrev pub marked : ℕ → String → List ℕ → RecordedConn → RecordedConn
marked max_bytes dir b d =
    let counted = count_bytes dir (length b) d in
    if ltb (max_bytes - written dir d) (length b) then mark_truncated dir counted else counted

pub kept_lem :
    (room : ℕ) (b : List ℕ) → (if ltb room (length b) then take room b else b) ≡ take room b
kept_lem room b = ground (arith, take_of_length-le room b)

module _ (max_bytes : ℕ) (dir : String) (sent b : List ℕ) (d : RecordedConn) where
  -- An open record has all bytes sent so far.
  open-Tracks :
      Tracks max_bytes dir sent d
      → truncated_dir dir d ≡ false
      → d.metadata_full ≡ false
      → (stream dir d.chunks ≡ sent) × (length sent ≤ max_bytes) × (written dir d ≡ length sent)
  open-Tracks v t m =
      let short : length sent ≤ max_bytes = ground (arith, v.flagged m) in
      let same : stream dir d.chunks ≡ sent = v.exact m ∙ take_of_length-le max_bytes sent short in
      (same, short, v.counted ∙ ap length same)

  take-sent :
      Tracks max_bytes dir sent d
      → truncated_dir dir d ≡ false
      → d.metadata_full ≡ false
      → take max_bytes (sent ++ b) ≡ stream dir d.chunks ++ kept max_bytes dir b d
  take-sent v t m =
      let (same, short, size) = open-Tracks v t m in
      rw (same, size) (take-append_right max_bytes sent b short)

  stored-Tracks :
      (cs : List Chunk)
      → Tracks max_bytes dir sent d
      → truncated_dir dir d ≡ false
      → d.metadata_full ≡ false
      → Extended dir (kept max_bytes dir b d) d.chunks cs
      → Tracks max_bytes dir
          (sent ++ b)
          (store_chunks dir (length (kept max_bytes dir b d)) cs (marked max_bytes dir b d))
  unfolding count_bytes mark_truncated store_chunks
  stored-Tracks cs v t m x =
      let (same, short, size) = open-Tracks v t m in
      let room = max_bytes - written dir d in
      record {
        faithful = (
          drop room b,
          ground (
            arith,
            x.grown,
            same,
            append_assoc sent (take room b) (drop room b),
            take-append-drop room b,
          ),
        );
        counted =
            ground (arith, x.grown, length-append (stream dir d.chunks) (take room b), v.counted);
        within = ground (arith, length-take room b, v.within);
        exact = λ _. ground (arith, x.grown, take-sent v t m);
        flagged = λ _. ground (arith, size, short, length-append sent b);
        reported = λ e. elim (Bool-cases (ltb (max_bytes - written dir d) (length b))) [
          | inl c ↦ absurd (ground arith)
          | inr c ↦ (ground arith, ground arith)
        ];
      }

  -- Of a record that takes no more chunks only the prefix is known.
  full-Tracks :
      (d' : RecordedConn)
      → Tracks max_bytes dir sent d
      → d'.chunks ≡ d.chunks
      → written dir d' ≡ written dir d
      → d'.metadata_full ≡ true
      → d'.truncated ≡ true
      → Tracks max_bytes dir (sent ++ b) d'
  full-Tracks d' v cs w m t = record {
    faithful = (
      v.faithful.0 ++ b,
      rw cs (ground (arith, v.faithful.1, append_assoc (stream dir d.chunks) v.faithful.0 b)),
    );
    counted = w ∙ v.counted ∙ ap (λ l. length (stream dir l)) (sym cs);
    within = rw w v.within;
    exact = λ e. cc;
    flagged = λ e. cc;
    reported = λ e. cc;
  }

  nothing_kept-Tracks :
      Tracks max_bytes dir sent d
      → truncated_dir dir d ≡ false
      → d.metadata_full ≡ false
      → kept max_bytes dir b d ≡ []
      → Tracks max_bytes dir (sent ++ b) (marked max_bytes dir b d)
  unfolding count_bytes mark_truncated
  nothing_kept-Tracks v t m none_left =
      let (same, short, size) = open-Tracks v t m in
      record {
        faithful = (b, ground (arith, same));
        counted = ground (arith, v.counted);
        within = ground (arith, v.within);
        exact = λ _. ground (arith, take-sent v t m, append-nil (stream dir d.chunks));
        flagged = λ _. ground (arith, size, short, length-append sent b);
        reported = λ e. elim (Bool-cases (ltb (max_bytes - written dir d) (length b))) [
          | inl c ↦ absurd (ground arith)
          | inr c ↦ (ground arith, ground arith)
        ];
      }

  pub marked-same :
      ((marked max_bytes dir b d).chunks ≡ d.chunks)
      × (written dir (marked max_bytes dir b d) ≡ written dir d)
  unfolding count_bytes mark_truncated
  marked-same = ground arith

  Appended-Tracks :
      (d' : RecordedConn)
      → Tracks max_bytes dir sent d
      → truncated_dir dir d ≡ false
      → d.metadata_full ≡ false
      → Appended dir (kept max_bytes dir b d) (marked max_bytes dir b d) d'
      → Tracks max_bytes dir (sent ++ b) d'
  Appended-Tracks d' v t m (stored cs x few e) =
      rw e (stored-Tracks cs v t m (rw (marked-same.0) at x))
  Appended-Tracks d' v t m (full h e) = rw e (
      full-Tracks
        (record (marked max_bytes dir b d) {
          dump = record (marked max_bytes dir b d).dump { truncated = true };
          metadata_full = true;
        })
        v (marked-same.0) (ground (arith, marked-same.1)) refl refl)

  open-capture-Tracks :
      (now : ℕ) (datagram : Bool)
      → Tracks max_bytes dir sent d
      → truncated_dir dir d ≡ false
      → d.metadata_full ≡ false
      → Tracks max_bytes dir (sent ++ b) (
          if is_empty (kept max_bytes dir b d)
          then marked max_bytes dir b d
          else append_bytes now dir (kept max_bytes dir b d) datagram (marked max_bytes dir b d))
  open-capture-Tracks now datagram v t m = elim (Bool-cases (is_empty (kept max_bytes dir b d))) [
    | inl e ↦ rw e (nothing_kept-Tracks v t m (ground arith))
    | inr e ↦ rw e (Appended-Tracks _ v t m (append_bytes-Appended now dir _ datagram _))
  ]

  -- A write in the direction that is tracked.
  pub capture-Tracks :
      (now : ℕ) (datagram : Bool)
      → Tracks max_bytes dir sent d
      → Tracks max_bytes dir (sent ++ b) (capture max_bytes now dir b datagram d)
  unfolding capture
  capture-Tracks now datagram v = elim (Bool-cases (truncated_dir dir d || d.metadata_full)) [
    | inl h ↦ rw h (stopped-Tracks max_bytes dir sent b d v (ground arith))
    | inr h ↦
        rw (h, kept_lem (max_bytes - written dir d) b)
          (open-capture-Tracks now datagram v (ground arith) (ground arith))
  ]

  module _ (dir' : String) (other : str_eq dir' dir_out ≡ not (str_eq dir dir_out)) where
    -- What a write leaves alone in the other direction.
    pub record Aside (d' : RecordedConn) : Type 0 where
      pub same_stream : stream dir' d'.chunks ≡ stream dir' d.chunks
      pub same_written : written dir' d' ≡ written dir' d
      pub same_truncated : truncated_dir dir' d' ≡ truncated_dir dir' d
      pub no_report :
          d'.truncated ≡ false → (d.truncated ≡ false) × (d'.metadata_full ≡ d.metadata_full)
      pub open_before : d'.metadata_full ≡ false → d.metadata_full ≡ false

    Aside-Tracks :
        (d' : RecordedConn)
        → Aside d'
        → Tracks max_bytes dir' sent d
        → Tracks max_bytes dir' sent d'
    Aside-Tracks d' a v = record {
      faithful = rw (a.same_stream) v.faithful;
      counted = rw (a.same_stream, a.same_written) v.counted;
      within = rw (a.same_written) v.within;
      exact = λ m. rw (a.same_stream) (v.exact (a.open_before m));
      flagged = λ m. rw (a.same_truncated) (v.flagged (a.open_before m));
      reported = λ t. ground (arith, a.no_report t, v.reported, a.same_truncated);
    }

    marked-Aside : Aside (marked max_bytes dir b d)
    unfolding count_bytes mark_truncated
    marked-Aside = ground arith

    counted-Aside : Aside (count_bytes dir (length b) d)
    unfolding count_bytes
    counted-Aside = ground arith

    Appended-Aside :
        (k : List ℕ) (d' : RecordedConn) → Appended dir k (marked max_bytes dir b d) d' → Aside d'
    unfolding count_bytes mark_truncated store_chunks
    Appended-Aside k d' (stored cs x few e) = rw e (record {
      same_stream =
          ground (arith, x.others dir' (ground (arith, eq_iff dir dir')), marked-Aside.same_stream);
      same_written = ground arith;
      same_truncated = ground arith;
      no_report = ground arith;
      open_before = ground arith;
    })
    Appended-Aside k d' (full h e) = rw e (record {
      same_stream = marked-Aside.same_stream;
      same_written = ground arith;
      same_truncated = ground arith;
      no_report = λ t. cc;
      open_before = λ t. cc;
    })

    pub capture-Aside : (now : ℕ) (datagram : Bool) → Aside (capture max_bytes now dir b datagram d)
    unfolding capture
    capture-Aside now datagram = elim (Bool-cases (truncated_dir dir d || d.metadata_full)) [
      | inl h ↦ rw h counted-Aside
      | inr h ↦
          rw (h, kept_lem (max_bytes - written dir d) b)
            (elim (Bool-cases (is_empty (kept max_bytes dir b d))) [
              | inl e ↦ rw e marked-Aside
              | inr e ↦ rw e (Appended-Aside _ _ (append_bytes-Appended now dir _ datagram _))
            ])
    ]

    -- A write in the other direction.
    pub capture-Tracks_other :
        (now : ℕ) (datagram : Bool)
        → Tracks max_bytes dir' sent d
        → Tracks max_bytes dir' sent (capture max_bytes now dir b datagram d)
    capture-Tracks_other now datagram v = Aside-Tracks _ (capture-Aside now datagram) v
