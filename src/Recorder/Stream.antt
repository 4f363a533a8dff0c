-- ===== src/Recorder/Stream.antt =====
-- The writes of one connection, from its first to its last, against the record that they leave.
use ctf_proxy_utils.Common.{
  ℕ, String, ◌≡◌, refl, sym, subst, inl, inr, Bool, false, not, List, [], ◌∷◌, ◌++◌, str_eq, eq_iff,
  arith, if◌then◌else◌, Bool-cases, All, take_of_length-le,
}
use mathlib.Core.List.{append-nil, append_assoc}
use ctf_proxy_utils.Recorder.Record.{RecordedConn, capture, dir_in, dir_out}
use ctf_proxy_utils.Recorder.Limits.{IsKnown}
use ctf_proxy_utils.Recorder.Capture.{Tracks, capture-Tracks, capture-Tracks_other}
use ctf_proxy_utils.Recorder.{fresh_record}

-- The arguments of one call of `write`.
pub record Sent : Type 0 where
  pub at : ℕ
  pub dir : String
  pub content : List ℕ
  pub datagram : Bool

unfoldable pub captures : ℕ → RecordedConn → List Sent → RecordedConn
captures max_bytes d [] = d
captures max_bytes d (s ∷ ss) =
    captures max_bytes (capture max_bytes s.at s.dir s.content s.datagram d) ss

-- Everything that was sent in one direction.
abbrev pub sent_in : String → List Sent → List ℕ
sent_in dir [] = []
sent_in dir (s ∷ ss) = if str_eq s.dir dir then s.content ++ sent_in dir ss else sent_in dir ss

opposite :
    (dir dir' : String)
    → IsKnown dir
    → IsKnown dir'
    → str_eq dir' dir ≡ false
    → str_eq dir dir_out ≡ not (str_eq dir' dir_out)
opposite dir dir' h k e = ground (
  arith,
  eq_iff dir' dir,
  eq_iff dir dir_in,
  eq_iff dir' dir_in,
  eq_iff dir dir_out,
  eq_iff dir' dir_out,
)

captures-Tracks_from :
    (max_bytes : ℕ) (dir : String) (sent : List ℕ) (d : RecordedConn) (ss : List Sent)
    → IsKnown dir
    → All (λ s. IsKnown s.dir) ss
    → Tracks max_bytes dir sent d
    → Tracks max_bytes dir (sent ++ sent_in dir ss) (captures max_bytes d ss)
unfolding captures
captures-Tracks_from max_bytes dir sent d [] h k v = rw (append-nil sent) v
captures-Tracks_from max_bytes dir sent d (s ∷ ss) h k v =
    let d' = capture max_bytes s.at s.dir s.content s.datagram d in
    elim (Bool-cases (str_eq s.dir dir)) [
      | inl e ↦
          let same : s.dir ≡ dir = ground (arith, eq_iff s.dir dir) in
          let v' : Tracks max_bytes dir (sent ++ s.content) d' =
            subst (λ x. Tracks max_bytes x (sent ++ s.content) d') same
              (capture-Tracks max_bytes s.dir sent s.content d s.at s.datagram
                (subst (λ x. Tracks max_bytes x sent d) (sym same) v)) in
          rw (e, ← append_assoc sent s.content (sent_in dir ss))
            (captures-Tracks_from max_bytes dir (sent ++ s.content) d' ss h k.1 v')
      | inr e ↦ rw e (
          captures-Tracks_from max_bytes dir sent d' ss h k.1 (
            capture-Tracks_other max_bytes s.dir sent s.content d dir (opposite dir s.dir h k.0 e)
              s.at s.datagram v))
    ]

-- After any writes to a new record each captured stream is a prefix of what was sent in its
-- direction, at most as long as the limit. While chunks are left it is exactly the first
-- `max_bytes` of it, and the mark of the direction says whether bytes are missing. A record that is
-- not marked as truncated has neither mark.
pub captures-Tracks :
    (max_bytes now token id : ℕ) (remote : List ℕ) (target protocol dir : String) (ss : List Sent)
    → IsKnown dir
    → All (λ s. IsKnown s.dir) ss
    → Tracks max_bytes dir
        (sent_in dir ss)
        (captures max_bytes (fresh_record now token id remote target protocol) ss)
captures-Tracks max_bytes now token id remote target protocol dir ss h k =
    captures-Tracks_from max_bytes dir [] (fresh_record now token id remote target protocol) ss h k
      (record {
        faithful = ([], refl);
        counted = ground arith;
        within = ground arith;
        exact = λ _. sym (take_of_length-le {A = ℕ} max_bytes [] (omega arith));
        flagged = λ _. ground arith;
        reported = λ _. ground arith;
      })
