-- ===== src/Recorder/Pointers.antt =====
-- Lists of pointers into the store of the recorder.
use ctf_proxy_utils.Common.{
  ℕ, ◌≤◌, ◌<◌, ◌≡◌, refl, sym, subst, ◌≢◌, ◌⊎◌, inl, inr, List, [], ◌∷◌, ◌++◌, arith, All, All-map,
}
use ctf_proxy_utils.Recorder.Record.{RecordedConn}

-- The pointer is in the list.
abbrev pub Held : ℕ → List ℕ → Type 0
Held p [] = ⊥
Held p (q ∷ qs) = (p ≡ q) ⊎ Held p qs

-- The tokens rise strictly from above `lo` up to `hi`.
abbrev pub Rising : (ℕ → RecordedConn) → ℕ → List ℕ → ℕ → Type 0
Rising store lo [] hi = lo ≤ hi
Rising store lo (p ∷ ps) hi = (lo < (store p).token) × Rising store (store p).token ps hi

pub All-middle {κ} :
    (P : ℕ → Type κ) (pre : List ℕ) (q : ℕ) (post : List ℕ)
    → All P (pre ++ q ∷ post)
    → P q × All P (pre ++ post)
All-middle P [] q post h = h
All-middle P (p ∷ pre) q post h = let (hq, rest) = All-middle P pre q post h.1 in (hq, (h.0, rest))

pub Held-middle :
    (p : ℕ) (pre : List ℕ) (q : ℕ) (post : List ℕ)
    → Held p (pre ++ q ∷ post)
    → (p ≡ q) ⊎ Held p (pre ++ post)
Held-middle p [] q post h = h
Held-middle p (p' ∷ pre) q post (inl e) = inr (inl e)
Held-middle p (p' ∷ pre) q post (inr h) = elim (Held-middle p pre q post h) [
  | inl e ↦ inl e
  | inr k ↦ inr (inr k)
]

pub Held-middle_weaken :
    (p : ℕ) (pre : List ℕ) (q : ℕ) (post : List ℕ) → Held p (pre ++ post) → Held p (pre ++ q ∷ post)
Held-middle_weaken p [] q post h = inr h
Held-middle_weaken p (p' ∷ pre) q post (inl e) = inl e
Held-middle_weaken p (p' ∷ pre) q post (inr h) = inr (Held-middle_weaken p pre q post h)

pub Held-middle_self : (pre : List ℕ) (q : ℕ) (post : List ℕ) → Held q (pre ++ q ∷ post)
Held-middle_self [] q post = inl refl
Held-middle_self (p ∷ pre) q post = inr (Held-middle_self pre q post)

pub Held-append_left : (p : ℕ) (ps qs : List ℕ) → Held p ps → Held p (ps ++ qs)
Held-append_left p (q ∷ ps) qs (inl e) = inl e
Held-append_left p (q ∷ ps) qs (inr h) = inr (Held-append_left p ps qs h)
Held-append_left p [] qs h = absurd h

pub All-Held {κ} : (P : ℕ → Type κ) (p : ℕ) (ps : List ℕ) → All P ps → Held p ps → P p
All-Held P p [] h k = absurd k
All-Held P p (q ∷ ps) h (inl e) = subst P (sym e) h.0
All-Held P p (q ∷ ps) h (inr k) = All-Held P p ps h.1 k

pub Held-All {κ} : (P : ℕ → Type κ) (ps : List ℕ) → ((p : ℕ) → Held p ps → P p) → All P ps
Held-All P [] h = tt
Held-All P (p ∷ ps) h = (h p (inl refl), Held-All P ps (λ q k. h q (inr k)))

module _ (store : ℕ → RecordedConn) where
  pub Rising-le : (lo : ℕ) (ps : List ℕ) (hi : ℕ) → Rising store lo ps hi → lo ≤ hi
  Rising-le lo [] hi h = h
  Rising-le lo (p ∷ ps) hi h = omega (arith, Rising-le (store p).token ps hi h.1)

  pub Rising-mono :
      (lo lo' : ℕ) (ps : List ℕ) (hi : ℕ)
      → lo' ≤ lo
      → Rising store lo ps hi
      → Rising store lo' ps hi
  Rising-mono lo lo' [] hi h k = omega arith
  Rising-mono lo lo' (p ∷ ps) hi h k = (omega arith, k.1)

  pub Rising-above :
      (lo : ℕ) (ps : List ℕ) (hi : ℕ)
      → Rising store lo ps hi
      → All (λ p. (lo < (store p).token) × ((store p).token ≤ hi)) ps
  Rising-above lo [] hi h = tt
  Rising-above lo (p ∷ ps) hi h = (
    (h.0, Rising-le _ ps hi h.1),
    All-map (λ q k. omega arith) ps (Rising-above (store p).token ps hi h.1),
  )

  pub Rising-middle :
      (lo : ℕ) (pre : List ℕ) (q : ℕ) (post : List ℕ) (hi : ℕ)
      → Rising store lo (pre ++ q ∷ post) hi
      → Rising store lo (pre ++ post) hi
        × All (λ p. (store p).token ≢ (store q).token) (pre ++ post)
  Rising-middle lo [] q post hi h = (
    Rising-mono (store q).token lo post hi (omega arith) h.1,
    All-map (λ p k. omega arith) post (Rising-above (store q).token post hi h.1),
  )
  Rising-middle lo (p ∷ pre) q post hi h =
      let (rising, other) = Rising-middle (store p).token pre q post hi h.1 in
      let later =
        All-Held (λ p'. ((store p).token < (store p').token) × ((store p').token ≤ hi)) q
          (pre ++ q ∷ post) (Rising-above _ (pre ++ q ∷ post) hi h.1)
          (Held-middle_self pre q post) in
      ((h.0, rising), (omega arith, other))

  pub Rising-push :
      (lo : ℕ) (ps : List ℕ) (hi p : ℕ)
      → Rising store lo ps hi
      → hi < (store p).token
      → Rising store lo (ps ++ p ∷ []) (store p).token
  Rising-push lo [] hi p h k = omega arith
  Rising-push lo (q ∷ ps) hi p h k = (h.0, Rising-push (store q).token ps hi p h.1 k)

-- Only the tokens matter.
pub Rising-same :
    (s s' : ℕ → RecordedConn) (lo : ℕ) (ps : List ℕ) (hi : ℕ)
    → All (λ p. (s' p).token ≡ (s p).token) ps
    → Rising s lo ps hi
    → Rising s' lo ps hi
Rising-same s s' lo [] hi e h = h
Rising-same s s' lo (p ∷ ps) hi e h = rw (e.0) (h.0, Rising-same s s' (s p).token ps hi e.1 h.1)
