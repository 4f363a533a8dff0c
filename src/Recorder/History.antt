-- ===== src/Recorder/History.antt =====
-- The recorder over any history of calls, in the order in which the mutex lets them in.
use ctf_proxy_utils.Common.{
  ℕ, ◌+◌, ◌≤◌, ◌<◌, String, ◌≡◌, refl, inl, inr, Bool, Option, none, some, List, [], ◌∷◌, arith,
  Option-cases, length, word64,
}
use ctf_proxy_utils.Common.Int.{ℤ}
use ctf_proxy_utils.Recorder.Record.{RecordedConn}
use ctf_proxy_utils.Recorder.Invariant.{IsValid, drop_same_id-same, make_room-same}
use ctf_proxy_utils.Recorder.Begin.{begin_protocol-IsValid}
use ctf_proxy_utils.Recorder.Update.{mark_finding-IsValid, set_pinned-IsValid}
use ctf_proxy_utils.Recorder.Write.{write-IsValid, finish-IsValid, clear-IsValid, clear_all-IsValid}
use ctf_proxy_utils.Recorder.Resize.{Resized, not_positive, too_many_pins, stuck, resized, resize}
use ctf_proxy_utils.Recorder.Resize.Laws.{resized-Resizes}
use ctf_proxy_utils.Recorder.{
  Recorder, ConnWriter, new_recorder, begin_protocol, begin_rest, make_room, drop_same_id,
  push_record, write, record_write, finish, record_finish, mark_finding, set_pinned, clear,
  clear_all,
}

pub data Call : Type 0 where
  begins : ℕ → ℕ → List ℕ → String → String → Call
  writes : Option ConnWriter → ℕ → String → List ℕ → Bool → Call
  finishes : ConnWriter → ℕ → ℕ → ℕ → Call
  marks : ℕ → ℕ → Bool → Call
  pins : ℕ → Bool → Call
  resizes : ℕ → ℤ → ℤ → Call
  clears clears_all : Call

-- A call that fails leaves the recorder as it was.
abbrev pub or_same : Recorder → Option Recorder → Recorder
or_same r none = r
or_same r (some r') = r'

abbrev pub after_resize : Recorder → Resized → Recorder
after_resize r not_positive = r
after_resize r (too_many_pins n) = r
after_resize r stuck = r
after_resize r (resized r') = r'

unfoldable pub step : Recorder → Call → Recorder
step r (begins now id remote target protocol) = (begin_protocol now id remote target protocol r).0
step r (writes w now dir b datagram) = (write w now dir b datagram r).0
step r (finishes w now bytes_in bytes_out) = (finish w now bytes_in bytes_out r).1
step r (marks id score pin) = or_same r (mark_finding id score pin r)
step r (pins id pinned) = or_same r (set_pinned id pinned r)
step r (resizes capacity max_conns max_bytes) =
    after_resize r (resize capacity max_conns max_bytes r)
step r clears = clear r
step r clears_all = clear_all r

unfoldable pub run : Recorder → List Call → Recorder
run r [] = r
run r (c ∷ cs) = run (step r c) cs

or_same-IsValid :
    (r : Recorder) (o : Option Recorder)
    → ((r' : Recorder) → o ≡ some r' → IsValid r')
    → IsValid r
    → IsValid (or_same r o)
or_same-IsValid r none h v = v
or_same-IsValid r (some r') h v = h r' refl

step-IsValid : (r : Recorder) (c : Call) → r.sequence + 1 < word64 → IsValid r → IsValid (step r c)
unfolding step
step-IsValid r (begins now id remote target protocol) h v =
    begin_protocol-IsValid now id remote target protocol r v h
step-IsValid r (writes w now dir b datagram) h v = write-IsValid w now dir b datagram r v
step-IsValid r (finishes w now bytes_in bytes_out) h v = finish-IsValid w now bytes_in bytes_out r v
step-IsValid r (marks id score pin) h v =
    or_same-IsValid r _ (λ r' e. mark_finding-IsValid id score pin r r' e v) v
step-IsValid r (pins id pinned) h v =
    or_same-IsValid r _ (λ r' e. set_pinned-IsValid id pinned r r' e v) v
step-IsValid r (resizes capacity max_conns max_bytes) h v =
    go (resize capacity max_conns max_bytes r) refl
  where
    go : (x : Resized) → resize capacity max_conns max_bytes r ≡ x → IsValid (after_resize r x)
    go not_positive e = v
    go (too_many_pins n) e = v
    go stuck e = v
    go (resized r') e = (resized-Resizes capacity max_conns max_bytes r r' e v).valid
step-IsValid r clears h v = clear-IsValid r v
step-IsValid r clears_all h v = clear_all-IsValid r v

begin_rest-sequence :
    (now id : ℕ) (remote : List ℕ) (target protocol : String) (r : Recorder)
    → (begin_rest now id remote target protocol r).0.sequence ≤ r.sequence + 1
unfolding begin_rest push_record
begin_rest-sequence now id remote target protocol r = elim (Option-cases (make_room r)) [
  | inl n ↦ rw (n, begin_rest) (omega arith)
  | inr (r', n) ↦ rw (n, begin_rest) (omega (arith, make_room-same r r' n))
]

begin_protocol-sequence :
    (now id : ℕ) (remote : List ℕ) (target protocol : String) (r : Recorder)
    → (begin_protocol now id remote target protocol r).0.sequence ≤ r.sequence + 1
unfolding begin_protocol
begin_protocol-sequence now id remote target protocol r = elim (Option-cases (drop_same_id id r)) [
  | inl n ↦ rw (n, begin_protocol) (omega arith)
  | inr (r', n) ↦
      rw (n, begin_protocol)
        (omega (
          arith,
          begin_rest-sequence now id remote target protocol r',
          drop_same_id-same id r r' n,
        ))
]

-- A call takes at most one token.
sequence-step : (r : Recorder) (c : Call) → IsValid r → (step r c).sequence ≤ r.sequence + 1
unfolding step write record_write finish record_finish mark_finding set_pinned clear clear_all
sequence-step r (begins now id remote target protocol) v =
    begin_protocol-sequence now id remote target protocol r
sequence-step r (writes none now dir b datagram) v = omega arith
sequence-step r (writes (some w) now dir b datagram) v = ground arith
sequence-step r (finishes w now bytes_in bytes_out) v = ground arith
sequence-step r (marks id score pin) v = ground arith
sequence-step r (pins id pinned) v = ground arith
sequence-step r (resizes capacity max_conns max_bytes) v =
    go (resize capacity max_conns max_bytes r) refl
  where
    go :
        (x : Resized)
        → resize capacity max_conns max_bytes r ≡ x
        → (after_resize r x).sequence ≤ r.sequence + 1
    go not_positive e = omega arith
    go (too_many_pins n) e = omega arith
    go stuck e = omega arith
    go (resized r') e =
        omega (arith, (resized-Resizes capacity max_conns max_bytes r r' e v).sequence)
sequence-step r clears v = omega arith
sequence-step r clears_all v = omega arith

run-IsValid :
    (r : Recorder) (cs : List Call)
    → r.sequence + length cs < word64
    → IsValid r
    → IsValid (run r cs)
unfolding run
run-IsValid r [] h v = v
run-IsValid r (c ∷ cs) h v =
    run-IsValid (step r c) cs (omega (arith, sequence-step r c v))
      (step-IsValid r c (omega arith) v)

-- After any history of fewer than 2 ^ 64 calls the recorder is within its limits.
pub run-new-IsValid :
    (store : ℕ → RecordedConn) (max_conns max_bytes : ℤ) (cs : List Call)
    → length cs < word64
    → IsValid (run (new_recorder store max_conns max_bytes) cs)
unfolding new_recorder
run-new-IsValid store max_conns max_bytes cs h = run-IsValid _ cs (omega arith) (record {
  bounded = omega arith;
  allocated = tt;
  fits = tt;
  rising = omega arith;
  writers = λ t p e. absurd (cc);
  reachable = tt;
})
