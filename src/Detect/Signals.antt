-- ===== src/Detect/Signals.antt =====
-- All signals of one session.
use ctf_proxy_utils.Common.{
  ℕ, String, ◌≡◌, refl, sym, ap, ◌∙◌, inl, inr, Bool, true, false, none, some, List, [], ◌∷◌, ◌++◌,
  if◌then◌else◌, Bool-cases, Option-cases, update, update_self,
}
use mathlib.Core.List.{append-nil, append_assoc}
use ctf_proxy_utils.Detect.Config.{str_mem}
use ctf_proxy_utils.Detect.{
  DetectionSignal, Finding, DetectionSession, DetectorEngine, join_signal, session_finding, is_due,
  publish, wants_pin, mark_pinned, raise_signal, add_signal,
}

-- The signals of a session in the order in which they are found.
unfoldable pub add_signals :
    List (ℕ × DetectionSignal)
    → DetectionSession
    → DetectorEngine
    → DetectionSession × DetectorEngine
add_signals [] s e = (s, e)
add_signals ((now, signal) ∷ rest) s e =
    let (s', e', call) = add_signal now signal s e in add_signals rest s' e'

-- The first signal of each detector that has not matched yet.
unfoldable pub first_signals : List String → List (ℕ × DetectionSignal) → List DetectionSignal
first_signals seen [] = []
first_signals seen ((now, signal) ∷ rest) =
    if str_mem signal.detector_id seen
    then first_signals seen rest
    else signal ∷ first_signals (signal.detector_id ∷ seen) rest

mark_pinned-signals :
    (pin : Bool) (p : ℕ) (e : DetectorEngine)
    → ((mark_pinned pin p e).store p).signals ≡ (e.store p).signals
unfolding mark_pinned
mark_pinned-signals true p e = ap (λ (f : Finding). f.signals) (update_self e.store p _)
mark_pinned-signals false p e = refl

publish-signals :
    (p : ℕ) (e : DetectorEngine) → ((publish p e).store p).signals ≡ (e.store p).signals
unfolding publish
publish-signals p e = ap (λ (f : Finding). f.signals) (update_self e.store p _)

raise_signal-signals :
    (now p : ℕ) (s : DetectionSession) (signal : DetectionSignal) (e : DetectorEngine)
    → ((raise_signal now s p signal e).0.store p).signals ≡ (e.store p).signals ++ signal ∷ []
unfolding raise_signal join_signal
raise_signal-signals now p s signal e =
    mark_pinned-signals (wants_pin s e₂ (e₂.store p)) p e₂ ∙ shown ∙ joined
  where
    e₁ : DetectorEngine
    e₁ = record e { store = update e.store p (join_signal now signal (e.store p)) }

    e₂ : DetectorEngine
    e₂ = if is_due e₁ (e₁.store p) then publish p e₁ else e₁

    shown : (e₂.store p).signals ≡ (e₁.store p).signals
    shown = elim (Bool-cases (is_due e₁ (e₁.store p))) [
      | inl due ↦ simp due (publish-signals p e₁)
      | inr later ↦ simp later
    ]

    joined : (e₁.store p).signals ≡ (e.store p).signals ++ signal ∷ []
    joined = ap (λ (f : Finding). f.signals) (update_self e.store p _)

-- The signals of the session's finding; none before the first.
abbrev pub signals_of : DetectionSession → DetectorEngine → List DetectionSignal
signals_of s e = elim s.finding [ none ↦ [] | some p ↦ (e.store p).signals ]

session_finding-signals :
    (now : ℕ) (s : DetectionSession) (e : DetectorEngine)
    → ((session_finding now s e).1.store (session_finding now s e).0).signals ≡ signals_of s e
unfolding session_finding
session_finding-signals now s e = elim (Option-cases s.finding) [
  | inl n ↦
      rw (n, session_finding) (ap (λ (f : Finding). f.signals) (update_self e.store e.allocated _))
  | inr (p, n) ↦ rw (n, session_finding) refl
]

add_signal-signals :
    (now : ℕ) (signal : DetectionSignal) (s : DetectionSession) (e : DetectorEngine)
    → str_mem signal.detector_id s.matched ≡ false
    → (signals_of (add_signal now signal s e).0 (add_signal now signal s e).1
        ≡ signals_of s e ++ signal ∷ [])
      × ((add_signal now signal s e).0.matched ≡ signal.detector_id ∷ s.matched)
unfolding add_signal
add_signal-signals now signal s e new = simp new (
  raise_signal-signals now (session_finding now s e).0 s signal (session_finding now s e).1
      ∙ ap (λ ss. ss ++ signal ∷ []) (session_finding-signals now s e),
  refl,
)

add_signal-seen :
    (now : ℕ) (signal : DetectionSignal) (s : DetectionSession) (e : DetectorEngine)
    → str_mem signal.detector_id s.matched ≡ true
    → add_signal now signal s e ≡ (s, e, none)
unfolding add_signal
add_signal-seen now signal s e seen = simp seen

-- However a session's signals come, its finding gains the first signal of every detector that has
-- not matched before, in the order in which they come, and no signal twice; the signals that the
-- finding had stay in front.
pub add_signals-signals :
    (signals : List (ℕ × DetectionSignal)) (s : DetectionSession) (e : DetectorEngine)
    → signals_of (add_signals signals s e).0 (add_signals signals s e).1
      ≡ signals_of s e ++ first_signals s.matched signals
unfolding add_signals first_signals
add_signals-signals [] s e = sym (append-nil (signals_of s e))
add_signals-signals ((now, signal) ∷ rest) s e =
    elim (Bool-cases (str_mem signal.detector_id s.matched)) [
      | inl seen ↦ simp (add_signal-seen now signal s e seen, seen) (add_signals-signals rest s e)
      | inr new ↦
          let (s', e', call) = add_signal now signal s e in
          let (grown, matched) = add_signal-signals now signal s e new in
          rw new (
            add_signals-signals rest s' e'
            ∙ rw (grown, matched)
                (append_assoc (signals_of s e) (signal ∷ [])
                  (first_signals (signal.detector_id ∷ s.matched) rest)))
    ]
