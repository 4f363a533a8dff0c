-- ===== src/Detect/Findings.antt =====
-- The findings of the engine: scores, identifiers, and the list that is shown.
use ctf_proxy_utils.Common.{
  ℕ, zero, suc, ◌+◌, ◌-◌, ◌≤◌, ◌<◌, min, ◌≡◌, refl, ap, subst, inl, inr, Bool, true, false, some,
  List, [], ◌∷◌, ◌++◌, arith, ltb, ◌==◌, if◌then◌else◌, Bool-cases, Option-cases, length, take, All,
  length-take, All-map, word64, add64, update, update_ne,
}
use ctf_proxy_utils.Detect.Config.{str_mem}
use ctf_proxy_utils.Detect.{
  DetectionSignal, Finding, DetectionSession, DetectorEngine, max_findings, fresh_finding,
  join_signal, session_finding, is_due, publish, wants_pin, mark_pinned, raise_signal, add_signal,
}

abbrev pub sum_scores : List DetectionSignal → ℕ
sum_scores [] = 0
sum_scores (s ∷ ss) = s.score + sum_scores ss

-- The score is the sum of the signals, up to 100.
pub record IsScored (f : Finding) : Type 0 where
  pub total : f.score ≡ min 100 (sum_scores f.signals)

-- The identifiers fall along the list, from at most `hi`, and none is 0.
abbrev pub Falling : (ℕ → Finding) → ℕ → List ℕ → Type 0
Falling store hi [] = Unit {0}
Falling store hi (p ∷ ps) =
    (0 < (store p).id) × ((store p).id ≤ hi) × Falling store ((store p).id - 1) ps

pub record IsValid (e : DetectorEngine) : Type 0 where
  pub bounded : length e.findings ≤ max_findings e
  pub falling : Falling e.store e.sequence e.findings
  pub scored : (p : ℕ) → p < e.allocated → IsScored (e.store p)
  pub listed : All (λ p. p < e.allocated) e.findings

sum_scores-append :
    (ss ts : List DetectionSignal) → sum_scores (ss ++ ts) ≡ sum_scores ss + sum_scores ts
sum_scores-append [] ts = omega arith
sum_scores-append (s ∷ ss) ts = omega (arith, sum_scores-append ss ts)

join_signal-IsScored :
    (now : ℕ) (s : DetectionSignal) (f : Finding) → IsScored f → IsScored (join_signal now s f)
unfolding join_signal
join_signal-IsScored now s f v = record {
  total = ground (arith, v.total, sum_scores-append f.signals (s ∷ []));
}

Falling-same :
    (s s' : ℕ → Finding) (hi : ℕ) (ps : List ℕ)
    → All (λ p. (s' p).id ≡ (s p).id) ps
    → Falling s hi ps
    → Falling s' hi ps
Falling-same s s' hi [] e h = tt
Falling-same s s' hi (p ∷ ps) e h = (
  omega (arith, e.0),
  omega (arith, e.0),
  Falling-same s s' ((s' p).id - 1) ps e.1 (rw (e.0) h.2),
)

Falling-take :
    (s : ℕ → Finding) (hi n : ℕ) (ps : List ℕ) → Falling s hi ps → Falling s hi (take n ps)
Falling-take s hi zero ps h = tt
Falling-take s hi (suc n) [] h = tt
Falling-take s hi (suc n) (p ∷ ps) h = (h.0, h.1, Falling-take s ((s p).id - 1) n ps h.2)

All-take {κ} : (P : ℕ → Type κ) (n : ℕ) (ps : List ℕ) → All P ps → All P (take n ps)
All-take P zero ps h = tt
All-take P (suc n) [] h = tt
All-take P (suc n) (p ∷ ps) h = (h.0, All-take P n ps h.1)

-- No listed finding has the identifier 0.
Falling-pos :
    (s : ℕ → Finding) (hi : ℕ) (ps : List ℕ) → Falling s hi ps → All (λ p. 0 < (s p).id) ps
Falling-pos s hi [] h = tt
Falling-pos s hi (p ∷ ps) h = (h.0, Falling-pos s ((s p).id - 1) ps h.2)

module _ (e : DetectorEngine) (p : ℕ) (f : Finding) where
  abbrev replaced : DetectorEngine
  replaced = record e { store = update e.store p f }

  replaced-IsValid : f.id ≡ (e.store p).id → IsScored f → IsValid e → IsValid replaced
  replaced-IsValid same w v = record {
    bounded = v.bounded;
    falling =
        Falling-same e.store (update e.store p f) e.sequence e.findings (everywhere e.findings)
          v.falling;
    scored = λ q h. scored_at q h;
    listed = v.listed;
  }
    where
      at : (q : ℕ) → (update e.store p f q).id ≡ (e.store q).id
      at q = ground arith

      everywhere : (ps : List ℕ) → All (λ q. (update e.store p f q).id ≡ (e.store q).id) ps
      everywhere [] = tt
      everywhere (q ∷ ps) = (at q, everywhere ps)

      scored_at : (q : ℕ) → q < e.allocated → IsScored (update e.store p f q)
      scored_at q h = elim (Bool-cases (q == p)) [ inl k ↦ rw k w | inr k ↦ rw k (v.scored q h) ]

publish-IsValid :
    (p : ℕ) (e : DetectorEngine)
    → e.sequence + 1 < word64
    → p < e.allocated
    → (e.store p).id ≡ 0
    → IsValid e
    → IsValid (publish p e)
unfolding publish
publish-IsValid p e small below fresh v = record {
  bounded = ground (arith, length-take (max_findings e) (p ∷ e.findings));
  falling = elim (Bool-cases (ltb (max_findings e) (length (p ∷ e.findings)))) [
    | inl k ↦ rw k (
        Falling-take (update e.store p f) (add64 e.sequence 1) (max_findings e) (p ∷ e.findings)
          falls)
    | inr k ↦ rw k falls
  ];
  scored = λ q h. scored_at q h;
  listed = elim (Bool-cases (ltb (max_findings e) (length (p ∷ e.findings)))) [
    | inl k ↦ rw k (All-take _ (max_findings e) (p ∷ e.findings) (below, v.listed))
    | inr k ↦ rw k (below, v.listed)
  ];
}
  where
    f : Finding
    f = record (e.store p) { id = add64 e.sequence 1 }

    scored_at : (q : ℕ) → q < e.allocated → IsScored (update e.store p f q)
    scored_at q h = elim (Bool-cases (q == p)) [
      | inl k ↦ rw k (record { total = (v.scored p below).total })
      | inr k ↦ rw k (v.scored q h)
    ]

    others :
        (ps : List ℕ)
        → All (λ q. 0 < (e.store q).id) ps
        → All (λ q. (update e.store p f q).id ≡ (e.store q).id) ps
    others [] h = tt
    others (q ∷ ps) h = (
      ap (λ (x : Finding). x.id)
          (update_ne e.store p f q
            (λ k. absurd (omega (arith, h.0, fresh, ap (λ x. (e.store x).id) k)))),
      others ps h.1,
    )

    new_id : (update e.store p f p).id ≡ e.sequence + 1
    new_id = ground arith

    falls : Falling (update e.store p f) (add64 e.sequence 1) (p ∷ e.findings)
    falls = (
      omega (arith, new_id),
      omega (arith, new_id),
      subst (λ k. Falling (update e.store p f) k e.findings) (omega (arith, new_id))
          (Falling-same e.store (update e.store p f) e.sequence e.findings
            (others e.findings (Falling-pos e.store e.sequence e.findings v.falling)) v.falling),
    )

id-join_signal : (now : ℕ) (s : DetectionSignal) (f : Finding) → (join_signal now s f).id ≡ f.id
unfolding join_signal
id-join_signal now s f = refl

allocated-publish : (p : ℕ) (e : DetectorEngine) → (publish p e).allocated ≡ e.allocated
unfolding publish
allocated-publish p e = refl

mark_pinned-IsValid :
    (pin : Bool) (p : ℕ) (e : DetectorEngine)
    → p < e.allocated
    → IsValid e
    → IsValid (mark_pinned pin p e)
unfolding mark_pinned
mark_pinned-IsValid true p e below v =
    replaced-IsValid e p (record (e.store p) { auto_pinned = true }) refl
      (record { total = (v.scored p below).total }) v
mark_pinned-IsValid false p e below v = v

raise_signal-IsValid :
    (now p : ℕ) (s : DetectionSession) (signal : DetectionSignal) (e : DetectorEngine)
    → e.sequence + 1 < word64
    → p < e.allocated
    → IsValid e
    → IsValid (raise_signal now s p signal e).0
unfolding raise_signal
raise_signal-IsValid now p s signal e small below v =
    mark_pinned-IsValid (wants_pin s e₂ (e₂.store p)) p e₂ below₂
      (elim (Bool-cases (is_due e₁ (e₁.store p))) [
        | inl due ↦ simp due (publish-IsValid p e₁ small below (ground arith) v₁)
        | inr later ↦ simp later v₁
      ])
  where
    e₁ : DetectorEngine
    e₁ = record e { store = update e.store p (join_signal now signal (e.store p)) }

    v₁ : IsValid e₁
    v₁ =
        replaced-IsValid e p (join_signal now signal (e.store p))
          (id-join_signal now signal (e.store p))
          (join_signal-IsScored now signal (e.store p) (v.scored p below)) v

    e₂ : DetectorEngine
    e₂ = if is_due e₁ (e₁.store p) then publish p e₁ else e₁

    below₂ : p < e₂.allocated
    below₂ = elim (Bool-cases (is_due e₁ (e₁.store p))) [
      | inl due ↦ simp (due, allocated-publish p e₁) below
      | inr later ↦ simp later below
    ]

session_finding-IsValid :
    (now : ℕ) (s : DetectionSession) (e : DetectorEngine)
    → ((p : ℕ) → s.finding ≡ some p → p < e.allocated)
    → IsValid e
    → IsValid (session_finding now s e).1
      × ((session_finding now s e).0 < (session_finding now s e).1.allocated)
      × ((session_finding now s e).1.sequence ≡ e.sequence)
unfolding session_finding
session_finding-IsValid now s e own v = elim (Option-cases s.finding) [
  | inr (p, n) ↦ rw (n, session_finding) (v, own p n, refl)
  | inl n ↦ rw (n, session_finding) (fresh-IsValid, omega arith, refl)
]
  where
    e' : DetectorEngine
    e' = record e {
      store = update e.store e.allocated (fresh_finding now s);
      allocated = e.allocated + 1;
    }

    old :
        (ps : List ℕ)
        → All (λ q. q < e.allocated) ps
        → All (λ q. (e'.store q).id ≡ (e.store q).id) ps
    old [] h = tt
    old (q ∷ ps) h = (
      ap (λ (x : Finding). x.id)
          (update_ne e.store e.allocated (fresh_finding now s) q (omega (arith, h.0))),
      old ps h.1,
    )

    scored_at : (q : ℕ) → q < e.allocated + 1 → IsScored (e'.store q)
    scored_at q h = elim (Bool-cases (q == e.allocated)) [
      | inl k ↦ rw k (record { total = omega arith })
      | inr k ↦ rw k (v.scored q (ground arith))
    ]

    fresh-IsValid : IsValid e'
    fresh-IsValid = record {
      bounded = v.bounded;
      falling =
          Falling-same e.store e'.store e.sequence e.findings (old e.findings v.listed) v.falling;
      scored = scored_at;
      listed = All-map (λ q h. omega arith) e.findings v.listed;
    }

-- A signal keeps the engine valid: every score is the sum of the signals of its finding, up to 100;
-- the list that is shown stays within its limit, with identifiers that are not 0 and fall from the
-- newest finding to the oldest. The session may have a finding already.
pub add_signal-IsValid :
    (now : ℕ) (signal : DetectionSignal) (s : DetectionSession) (e : DetectorEngine)
    → ((p : ℕ) → s.finding ≡ some p → p < e.allocated)
    → e.sequence + 1 < word64
    → IsValid e
    → IsValid (add_signal now signal s e).1
unfolding add_signal
add_signal-IsValid now signal s e own small v =
    elim (Bool-cases (str_mem signal.detector_id s.matched)) [
      | inl seen ↦ simp seen v
      | inr new ↦
          let (v', below, same) = session_finding-IsValid now s e own v in
          simp new (
            raise_signal-IsValid now (session_finding now s e).0 s signal
              (session_finding now s e).1 (omega (arith, same)) below v')
    ]
