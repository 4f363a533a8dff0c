-- ===== src/Detect/Stream.antt =====
-- The bytes that the detectors see, the queue in front of them, and the buffer behind it.
use native.Mathlib.Nat.{zero-add, suc-add}
use ctf_proxy_utils.Common.{
  ℕ, zero, suc, ◌+◌, ◌-◌, ◌≤◌, ◌<◌, ◌≡◌, refl, sym, ap, subst, ◌∙◌, ◌⊎◌, inl, inr, true, false,
  some, List, [], ◌∷◌, ◌++◌, arith, ltb, Bool-cases, Option-cases, length, take, drop,
  length-append, length-drop, take_of_length-le, take-append_left, word64, add64,
}
use mathlib.Core.List.{append_assoc, append-nil}
use ctf_proxy_utils.Bytes.{index}
use ctf_proxy_utils.Bytes.Index.{index_split}
use ctf_proxy_utils.Detect.Scope.{find_separator, headers_of, body_of, crlf_crlf, lf_lf}
use ctf_proxy_utils.Detect.{DetectionEvent, DetectorEngine, enqueue, detection_queue_size}
use ctf_proxy_utils.Detect.Worker.{take_last, buffered}

-- The separators of an HTTP head by their sizes.
abbrev pub IsSeparator : List ℕ → ℕ → Type 0
IsSeparator sep size = ((sep ≡ crlf_crlf) ⊎ (sep ≡ lf_lf)) × (size ≡ length sep)

parts :
    (b : List ℕ) (i size : ℕ)
    → find_separator b ≡ some (i, size)
    → (headers_of b ≡ take i b) × (body_of b ≡ drop (i + size) b)
unfolding headers_of body_of
parts b i size e = (rw (e, headers_of) refl, rw (e, body_of) refl)

found_at :
    (b : List ℕ) (i size : ℕ)
    → find_separator b ≡ some (i, size)
    → ((index b crlf_crlf ≡ some i) × (size ≡ 4)) ⊎ ((index b lf_lf ≡ some i) × (size ≡ 2))
unfolding find_separator
found_at b i size e = elim (Option-cases (index b crlf_crlf)) [
  | inr (k, at) ↦
      let both : (k ≡ i) × (size ≡ 4) = ground arith in inl (at ∙ ap some both.0, both.1)
  | inl none_at ↦ elim (Option-cases (index b lf_lf)) [
    | inr (k, at) ↦
        let both : (k ≡ i) × (size ≡ 2) = ground arith in inr (at ∙ ap some both.0, both.1)
    | inl nowhere ↦ absurd (ground arith)
  ]
]

-- Headers and body are what stands before and behind one separator: no byte of the stream is lost
-- or seen twice. The separator is one of the two that the code looks for, and has the size that
-- the code takes for it.
pub headers_body_split :
    (b : List ℕ) (i size : ℕ)
    → find_separator b ≡ some (i, size)
    → (sep : List ℕ) × IsSeparator sep size × (b ≡ headers_of b ++ (sep ++ body_of b))
headers_body_split b i size e =
    let (head, tail) = parts b i size e in
    elim (found_at b i size e) [
      | inl (at, four) ↦
          (crlf_crlf, (inl refl, four), rw (head, tail, four) (index_split b crlf_crlf i at))
      | inr (at, two) ↦ (lf_lf, (inr refl, two), rw (head, tail, two) (index_split b lf_lf i at))
    ]

drop-append_left : (n : ℕ) (xs ys : List ℕ) → n ≤ length xs → drop n (xs ++ ys) ≡ drop n xs ++ ys
drop-append_left zero xs ys h = refl
drop-append_left (suc n) [] ys h = absurd (omega arith)
drop-append_left (suc n) (x ∷ xs) ys h = drop-append_left n xs ys (omega arith)

drop-drop : (m n : ℕ) (xs : List ℕ) → drop m (drop n xs) ≡ drop (n + m) xs
drop-drop m zero xs = rw (zero-add)
drop-drop m (suc n) [] = rw suc-add (nothing m)
  where
    nothing : (m : ℕ) → drop {A = ℕ} m [] ≡ []
    nothing zero = refl
    nothing (suc m) = refl
drop-drop m (suc n) (x ∷ xs) = rw suc-add (drop-drop m n xs)

-- The buffer never holds more than its limit, and what was cut off earlier makes no difference: it
-- is always the end of everything that was sent.
pub buffered_suffix :
    (limit : ℕ) (sent b : List ℕ)
    → (buffered limit (take_last limit sent) b ≡ take_last limit (sent ++ b))
      × (length (buffered limit (take_last limit sent) b) ≤ limit)
unfolding buffered take_last
buffered_suffix limit sent b = (
  whole,
  subst (λ (bytes : List ℕ). length bytes ≤ limit) (sym whole)
      (omega (arith, length-drop (length (sent ++ b) - limit) (sent ++ b))),
)
  where
    cut : ℕ
    cut = length sent - limit

    joined : drop cut sent ++ b ≡ drop cut (sent ++ b)
    joined = sym (drop-append_left cut sent b (omega arith))

    grown : length (drop cut sent ++ b) ≡ length (sent ++ b) - cut
    grown =
        omega (arith, length-append (drop cut sent) b, length-append sent b, length-drop cut sent)

    fits : ltb limit (length (drop cut sent ++ b)) ≡ false → length (drop cut sent ++ b) ≤ limit
    fits k = ground arith

    whole : buffered limit (drop cut sent) b ≡ drop (length (sent ++ b) - limit) (sent ++ b)
    whole = elim (Bool-cases (ltb limit (length (drop cut sent ++ b)))) [
      | inl k ↦
          rw (k, joined)
            (drop-drop (length (drop cut (sent ++ b)) - limit) cut (sent ++ b)
              ∙ ap (λ n. drop n (sent ++ b))
                  (omega
                    (arith, k, joined, grown, length-append sent b, length-drop cut (sent ++ b))))
      | inr k ↦
          rw (k, joined)
            (ap (λ n. drop n (sent ++ b)) (omega (arith, fits k, grown, length-append sent b)))
    ]

-- The events come one after another, and the worker takes none in between.
unfoldable pub enqueue_all : List DetectionEvent → DetectorEngine → DetectorEngine
enqueue_all [] e = e
enqueue_all (event ∷ rest) e = enqueue_all rest (enqueue event e)

-- What is in the queue and what is counted as dropped.
pub record Queued (es : List DetectionEvent) (e e' : DetectorEngine) : Type 0 where
  pub queue : e'.events ≡ take detection_queue_size (e.events ++ es)
  pub lost : e'.dropped ≡ e.dropped + (length (e.events ++ es) - detection_queue_size)

-- One event, by whether the queue has room.
record Enqueued (event : DetectionEvent) (e e' : DetectorEngine) : Type 0 where
  still_on : e'.config.enabled ≡ true
  joined :
      ltb (length e.events) detection_queue_size ≡ true
      → (e'.events ≡ e.events ++ event ∷ []) × (e'.dropped ≡ e.dropped)
  refused :
      ltb (length e.events) detection_queue_size ≡ false
      → (e'.events ≡ e.events) × (e'.dropped ≡ add64 e.dropped 1)

enqueue-Enqueued :
    (event : DetectionEvent) (e : DetectorEngine)
    → e.config.enabled ≡ true
    → Enqueued event e (enqueue event e)
unfolding enqueue
enqueue-Enqueued event e on = record {
  still_on = ground (arith, on);
  joined = λ room. simp (on, room) (refl, refl);
  refused = λ full. simp (on, full) (refl, refl);
}

-- Into a full queue nothing goes, whatever comes.
kept_full :
    (event : DetectionEvent) (rest : List DetectionEvent) (e : DetectorEngine)
    → detection_queue_size ≤ length e.events
    → take detection_queue_size (e.events ++ rest)
      ≡ take detection_queue_size (e.events ++ event ∷ rest)
kept_full event rest e full =
    take-append_left detection_queue_size e.events rest full
    ∙ sym (take-append_left detection_queue_size e.events (event ∷ rest) full)

-- While the detectors are on and the worker takes nothing, the queue is the beginning of all events,
-- those that were in it and those that come, in their order and as long as the queue may be; and the
-- counter of the dropped ones grows by the number of the others.
pub enqueue_all-Queued :
    (es : List DetectionEvent) (e : DetectorEngine)
    → e.config.enabled ≡ true
    → length e.events ≤ detection_queue_size
    → e.dropped + length es < word64
    → Queued es e (enqueue_all es e)
unfolding enqueue_all
enqueue_all-Queued [] e on small below =
    let same = append-nil e.events in
    let count = length-append e.events [] in
    record {
      queue = sym (
          ap (λ (l : List DetectionEvent). take detection_queue_size l) same
          ∙ take_of_length-le detection_queue_size e.events small);
      lost = omega (arith, small, count);
    }
enqueue_all-Queued (event ∷ rest) e on small below =
    let one = enqueue-Enqueued event e on in
    let all = length-append e.events (event ∷ rest) in
    elim (Bool-cases (ltb (length e.events) detection_queue_size)) [
      | inl room ↦
          let (events, dropped) = one.joined room in
          let more = length-append e.events (event ∷ []) in
          let longer = ap (λ (l : List DetectionEvent). length l) events in
          let next =
            enqueue_all-Queued rest (enqueue event e) one.still_on
              (ground (arith, room, longer, more)) (omega (arith, below, dropped)) in
          let whole : (enqueue event e).events ++ rest ≡ e.events ++ event ∷ rest =
            ap (λ (l : List DetectionEvent). l ++ rest) events
            ∙ append_assoc e.events (event ∷ []) rest in
          let size = ap (λ (l : List DetectionEvent). length l) whole in
          record {
            queue =
                next.queue ∙ ap (λ (l : List DetectionEvent). take detection_queue_size l) whole;
            lost = omega (arith, next.lost, dropped, size);
          }
      | inr full ↦
          let (events, dropped) = one.refused full in
          let there : detection_queue_size ≤ length e.events = ground (arith, full) in
          let longer = ap (λ (l : List DetectionEvent). length l) events in
          let counted : (enqueue event e).dropped ≡ e.dropped + 1 = omega (arith, dropped, below) in
          let next =
            enqueue_all-Queued rest (enqueue event e) one.still_on (omega (arith, small, longer))
              (omega (arith, below, counted)) in
          let size = length-append (enqueue event e).events rest in
          record {
            queue =
                next.queue
                ∙ ap (λ (l : List DetectionEvent). take detection_queue_size (l ++ rest)) events
                ∙ kept_full event rest e there;
            lost = omega (arith, next.lost, counted, size, longer, all, small, there);
          }
    ]
