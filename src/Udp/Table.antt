-- ===== src/Udp/Table.antt =====
-- internal/proxy/udp.go: the map of the sessions of a rule, from the address of a client to its
-- session, as the list of its entries.
use ctf_proxy_utils.Common.{
  ℕ, ◌+◌, ◌≡◌, refl, sym, ap, subst, ◌∙◌, ◌⊎◌, inl, inr, Bool, true, false, ◌&&◌, Option, none,
  some, List, [], ◌∷◌, arith, ◌==◌, if◌then◌else◌, Bool-cases, length, All,
}

abbrev pub Entries : Type 0
Entries = List (List ℕ × ℕ)

unfoldable pub bytes_eq : List ℕ → List ℕ → Bool
bytes_eq [] [] = true
bytes_eq [] (y ∷ ys) = false
bytes_eq (x ∷ xs) [] = false
bytes_eq (x ∷ xs) (y ∷ ys) = x == y && bytes_eq xs ys

unfoldable pub find_session : List ℕ → Entries → Option ℕ
find_session k [] = none
find_session k (e ∷ t) = if bytes_eq k e.0 then some e.1 else find_session k t

unfoldable pub delete_session : List ℕ → Entries → Entries
delete_session k [] = []
delete_session k (e ∷ t) = if bytes_eq k e.0 then t else e ∷ delete_session k t

pub bytes_eq_refl : (k : List ℕ) → bytes_eq k k ≡ true
unfolding bytes_eq
bytes_eq_refl [] = refl
bytes_eq_refl (x ∷ xs) = ground (arith, bytes_eq_refl xs)

pub bytes_eq_sound : (k l : List ℕ) → bytes_eq k l ≡ true → k ≡ l
unfolding bytes_eq
bytes_eq_sound [] [] h = refl
bytes_eq_sound [] (y ∷ ys) h = absurd (ground arith)
bytes_eq_sound (x ∷ xs) [] h = absurd (ground arith)
bytes_eq_sound (x ∷ xs) (y ∷ ys) h =
    let rest = bytes_eq_sound xs ys (ground (arith, h)) in
    let head : x ≡ y = ground (arith, h) in rw (head, rest) refl

pub length-delete_session :
    (k : List ℕ) (t : Entries) (p : ℕ)
    → find_session k t ≡ some p
    → length (delete_session k t) + 1 ≡ length t
unfolding find_session delete_session
length-delete_session k [] p h = absurd (ground arith)
length-delete_session k (e ∷ t) p h = elim (Bool-cases (bytes_eq k e.0)) [
  | inl here ↦ simp here (omega arith)
  | inr later ↦ simp later (omega (arith, length-delete_session k t p (ground (arith, h, later))))
]

pub All-delete_session :
    (P : List ℕ × ℕ → Type 0) (k : List ℕ) (t : Entries) → All P t → All P (delete_session k t)
unfolding delete_session
All-delete_session P k [] h = tt
All-delete_session P k (e ∷ t) h = elim (Bool-cases (bytes_eq k e.0)) [
  | inl here ↦ simp here h.1
  | inr later ↦ simp later (h.0, All-delete_session P k t h.1)
]

-- No entry has the key.
abbrev pub Lacks : List ℕ → Entries → Type 0
Lacks k t = All (λ e. bytes_eq k e.0 ≡ false) t

pub find_session-Lacks : (k : List ℕ) (t : Entries) → find_session k t ≡ none → Lacks k t
unfolding find_session
find_session-Lacks k [] h = tt
find_session-Lacks k (e ∷ t) h = elim (Bool-cases (bytes_eq k e.0)) [
  | inl here ↦ absurd (ground (arith, h, here))
  | inr later ↦ (later, find_session-Lacks k t (ground (arith, h, later)))
]

-- No two entries have the same key.
abbrev pub AreDistinct : Entries → Type 0
AreDistinct [] = Unit
AreDistinct (e ∷ t) = Lacks e.0 t × AreDistinct t

pub delete_session-AreDistinct :
    (k : List ℕ) (t : Entries) → AreDistinct t → AreDistinct (delete_session k t)
unfolding delete_session
delete_session-AreDistinct k [] d = tt
delete_session-AreDistinct k (e ∷ t) d = elim (Bool-cases (bytes_eq k e.0)) [
  | inl here ↦ simp here d.1
  | inr later ↦ simp later (
    All-delete_session (λ e'. bytes_eq e.0 e'.0 ≡ false) k t d.0,
    delete_session-AreDistinct k t d.1,
  )
]

pub delete_session-Lacks : (k : List ℕ) (t : Entries) → AreDistinct t → Lacks k (delete_session k t)
unfolding delete_session
delete_session-Lacks k [] d = tt
delete_session-Lacks k (e ∷ t) d = elim (Bool-cases (bytes_eq k e.0)) [
  | inl here ↦ simp here (subst (λ (l : List ℕ). Lacks l t) (sym (bytes_eq_sound k e.0 here)) d.0)
  | inr later ↦ simp later (refl, delete_session-Lacks k t d.1)
]

-- Every entry stands under the key of its session.
abbrev pub Keyed : (ℕ → List ℕ) → Entries → Type 0
Keyed key t = All (λ e. key e.1 ≡ e.0) t

-- No entry is the session.
abbrev pub Without : ℕ → Entries → Type 0
Without p t = All (λ e. (e.1 == p) ≡ false) t

pub Lacks-Without :
    (key : ℕ → List ℕ) (p : ℕ) (t : Entries) → Keyed key t → Lacks (key p) t → Without p t
Lacks-Without key p [] h l = tt
Lacks-Without key p (e ∷ t) h l = (
  elim (Bool-cases (e.1 == p)) [
    | inr other ↦ other
    | inl same ↦
        let eq : e.1 ≡ p = ground (arith, same) in
        let one : key p ≡ e.0 = ap key (sym eq) ∙ h.0 in
        let both : bytes_eq (key p) (key p) ≡ false =
          subst (λ (l : List ℕ). bytes_eq (key p) l ≡ false) (sym one) l.0 in
        absurd (ground (arith, both, bytes_eq_refl (key p)))
  ],
  Lacks-Without key p t h.1 l.1,
)

-- A session that is not found under its key is no entry.
pub absent-Without :
    (key : ℕ → List ℕ) (p : ℕ) (t : Entries)
    → Keyed key t
    → AreDistinct t
    → (find_session (key p) t ≡ some p) ⊎ Without p t
unfolding find_session
absent-Without key p [] h d = inr tt
absent-Without key p (e ∷ t) h d = elim (Bool-cases (bytes_eq (key p) e.0)) [
  | inl here ↦ elim (Bool-cases (e.1 == p)) [
    | inl same ↦ let eq : e.1 ≡ p = ground (arith, same) in inl (simp here (ap some eq))
    | inr other ↦
        let lacks : Lacks (key p) t =
          subst (λ (l : List ℕ). Lacks l t) (sym (bytes_eq_sound (key p) e.0 here)) d.0 in
        inr (other, Lacks-Without key p t h.1 lacks)
  ]
  | inr later ↦ elim (absent-Without key p t h.1 d.1) [
    | inl there ↦ inl (simp later there)
    | inr gone ↦ elim (Bool-cases (e.1 == p)) [
      | inr other ↦ inr (other, gone)
      | inl same ↦
          let eq : e.1 ≡ p = ground (arith, same) in
          let one : key p ≡ e.0 = ap key (sym eq) ∙ h.0 in
          let both : bytes_eq (key p) (key p) ≡ false =
            subst (λ (l : List ℕ). bytes_eq (key p) l ≡ false) (sym one) later in
          absurd (ground (arith, both, bytes_eq_refl (key p)))
    ]
  ]
]

pub find_session-key :
    (key : ℕ → List ℕ) (k : List ℕ) (t : Entries) (p : ℕ)
    → Keyed key t
    → find_session k t ≡ some p
    → key p ≡ k
unfolding find_session
find_session-key key k [] p h f = absurd (ground arith)
find_session-key key k (e ∷ t) p h f = elim (Bool-cases (bytes_eq k e.0)) [
  | inl here ↦
      let eq : e.1 ≡ p = ground (arith, f, here) in
      ap key (sym eq) ∙ h.0 ∙ sym (bytes_eq_sound k e.0 here)
  | inr later ↦ find_session-key key k t p h.1 (ground (arith, f, later))
]

-- What is found is an entry under the key.
pub find_session-All :
    (P : List ℕ × ℕ → Type 0) (k : List ℕ) (t : Entries) (p : ℕ)
    → All P t
    → find_session k t ≡ some p
    → P (k, p)
unfolding find_session
find_session-All P k [] p h f = absurd (ground arith)
find_session-All P k (e ∷ t) p h f = elim (Bool-cases (bytes_eq k e.0)) [
  | inl here ↦
      let one : e.1 ≡ p = ground (arith, f, here) in
      subst (λ (x : ℕ). P (k, x)) one
        (subst (λ (l : List ℕ). P (l, e.1)) (sym (bytes_eq_sound k e.0 here)) h.0)
  | inr later ↦ find_session-All P k t p h.1 (ground (arith, f, later))
]
