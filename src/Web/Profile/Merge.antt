-- ===== src/Web/Profile/Merge.antt =====
-- What merging a profile makes of the rules.
use ctf_proxy_utils.Common.{
  ℕ, zero, suc, ◌+◌, ◌<◌, String, ◌≡◌, ◌⊎◌, ◌&&◌, ◌||◌, not, refl, sym, ap, ◌∙◌, inl, inr, Bool,
  true, false, Option, none, some, List, [], ◌∷◌, ◌++◌, str_eq, eq_iff, arith, if◌then◌else◌,
  Bool-cases, length, keep,
}
use mathlib.Core.List.{append_assoc, append-nil}
use ctf_proxy_utils.Spec.{RuleSpec}
use ctf_proxy_utils.Web.Profile.{
  position, has_id, set_at, Combination, place_of, merge_at, merge_loop, nothing_changed,
  merge_rules,
}

abbrev pub is_free : Option ℕ → Bool
is_free none = true
is_free (some i) = false

-- A rule that takes no place of another.
abbrev pub is_new : List RuleSpec → RuleSpec → Bool
is_new current r = is_free (place_of current r)

-- The last rule of a profile that has an id, or else the given one.
abbrev pub latest : String → List RuleSpec → RuleSpec → RuleSpec
latest id [] r = r
latest id (x ∷ xs) r = latest id xs (if str_eq x.id id then x else r)

-- The rules that were there with the settings of the profile: each becomes the last rule of the
-- profile that has its id. A rule without an id stays, and so does one whose id a later one has.
abbrev pub refreshed : List RuleSpec → List RuleSpec → List RuleSpec
refreshed [] imported = []
refreshed (r ∷ rs) imported =
    (if str_eq r.id "" || has_id r.id rs then r else latest r.id imported r) ∷ refreshed rs imported

-- The rules that were there come first, each in its place and with its new settings if it has some;
-- behind them are the imported rules that took no place, in their order; and the counts are those of the
-- imported rules of either kind.
pub record IsMerged (current imported : List RuleSpec) (m : Combination) : Type 0 where
  pub parts : m.combined ≡ refreshed current imported ++ keep (is_new current) imported
  pub added_count : m.preview.added ≡ length (keep (is_new current) imported)
  pub all_counted : m.preview.updated + m.preview.added ≡ length imported

set_at-append :
    {A : Type 0} (n : ℕ) (a : A) (xs ys : List A)
    → n < length xs
    → set_at n a (xs ++ ys) ≡ set_at n a xs ++ ys
unfolding set_at
set_at-append {A = A} n a [] ys h = absurd (omega (arith, h))
set_at-append {A = A} zero a (x ∷ xs) ys h = refl
set_at-append {A = A} (suc n) a (x ∷ xs) ys h =
    ap (λ (l : List A). x ∷ l) (set_at-append n a xs ys (omega (arith, h)))

-- A rule of the profile takes the last place of its id.
abbrev place_in : RuleSpec → List RuleSpec → List RuleSpec
place_in x [] = []
place_in x (r ∷ rs) = if str_eq r.id x.id && not (has_id x.id rs) then x ∷ rs else r ∷ place_in x rs

-- Either no rule has the id and there is no position, or the rule goes to the position.
data Placed (x : RuleSpec) (rs : List RuleSpec) : Type 0 where
  nowhere : position x.id rs ≡ none → has_id x.id rs ≡ false → Placed x rs
  at_place :
      (i : ℕ)
      → position x.id rs ≡ some i
      → i < length rs
      → has_id x.id rs ≡ true
      → set_at i x rs ≡ place_in x rs
      → Placed x rs

placed : (x : RuleSpec) (rs : List RuleSpec) → Placed x rs
unfolding position set_at
placed x [] = nowhere refl refl
placed x (r ∷ rs) = elim (placed x rs) [
  | at_place i found below named same ↦
      at_place (suc i) (simp found refl) (omega (arith, below)) (ground (arith, named))
        (simp named (ap (λ (l : List RuleSpec). r ∷ l) same ∙ ground arith))
  | nowhere lost unnamed ↦ elim (Bool-cases (str_eq r.id x.id)) [
    | inl here ↦
        at_place 0 (simp (lost, here) refl) (omega arith) (ground (arith, here))
          (simp (here, unnamed) refl)
    | inr other ↦ nowhere (simp (lost, other) refl) (ground (arith, other, unnamed))
  ]
]

-- Where a rule has taken its place the ids stand as they stood.
position-place_in :
    (id : String) (x : RuleSpec) (rs : List RuleSpec) → position id (place_in x rs) ≡ position id rs
unfolding position
position-place_in id x [] = refl
position-place_in id x (r ∷ rs) = elim (Bool-cases (str_eq r.id x.id && not (has_id x.id rs))) [
  | inl here ↦
      let same : r.id ≡ x.id = (eq_iff r.id x.id).0 (ground (arith, here)) in
      simp here (
        ap
          (λ (s : String). elim (position id rs) [
            | some n ↦ some (suc n)
            | none ↦ if str_eq s id then some 0 else none
          ])
          (sym same))
  | inr other ↦ simp (other, position-place_in id x rs) refl
]

has_id-place_in :
    (id : String) (x : RuleSpec) (rs : List RuleSpec) → has_id id (place_in x rs) ≡ has_id id rs
has_id-place_in id x [] = refl
has_id-place_in id x (r ∷ rs) = elim (Bool-cases (str_eq r.id x.id && not (has_id x.id rs))) [
  | inl here ↦
      let same : r.id ≡ x.id = (eq_iff r.id x.id).0 (ground (arith, here)) in
      simp here (ap (λ (s : String). str_eq s id || has_id id rs) (sym same))
  | inr other ↦ simp (other, has_id-place_in id x rs) refl
]

-- A rule whose id is not there changes nothing.
refreshed-new :
    (x : RuleSpec) (xs rs : List RuleSpec)
    → (str_eq x.id "" ≡ true) ⊎ (has_id x.id rs ≡ false)
    → refreshed rs (x ∷ xs) ≡ refreshed rs xs
refreshed-new x xs [] h = refl
refreshed-new x xs (r ∷ rs) h =
    let later =
      refreshed-new x xs rs
        (elim h [ inl unnamed ↦ inl unnamed | inr absent ↦ inr (ground (arith, absent)) ]) in
    elim (Bool-cases (str_eq r.id "" || has_id r.id rs)) [
      | inl kept ↦ simp kept (ap (λ (l : List RuleSpec). r ∷ l) later)
      | inr may ↦ elim (Bool-cases (str_eq x.id r.id)) [
        | inl same ↦ absurd (clash may ((eq_iff x.id r.id).0 same))
        | inr other ↦ simp (may, other) (ap (λ (l : List RuleSpec). latest r.id xs r ∷ l) later)
      ]
    ]
  where
    clash : (str_eq r.id "" || has_id r.id rs) ≡ false → x.id ≡ r.id → ⊥
    clash may same =
        ground
          (arith, may, h, ap (λ (s : String). str_eq s "") same, (eq_iff r.id x.id).1 (sym same))

refreshed-place_in :
    (x : RuleSpec) (xs rs : List RuleSpec)
    → str_eq x.id "" ≡ false
    → refreshed rs (x ∷ xs) ≡ refreshed (place_in x rs) xs
refreshed-place_in x xs [] h = refl
refreshed-place_in x xs (r ∷ rs) h = elim (Bool-cases (str_eq r.id x.id && not (has_id x.id rs))) [
  | inl here ↦
      let same : r.id ≡ x.id = (eq_iff r.id x.id).0 (ground (arith, here)) in
      let self = (eq_iff x.id x.id).1 refl in
      let unnamed : has_id x.id rs ≡ false = ground (arith, here) in
      simp (here, same, h, self, unnamed)
        (ap (λ (s : String). latest s xs x ∷ refreshed rs (x ∷ xs)) same
          ∙ ap (λ (l : List RuleSpec). latest x.id xs x ∷ l) (refreshed-new x xs rs (inr unnamed)))
  | inr other ↦
      let later = refreshed-place_in x xs rs h in
      elim (Bool-cases (str_eq r.id "" || has_id r.id rs)) [
        | inl kept ↦
            simp (other, has_id-place_in r.id x rs, kept) (ap (λ (l : List RuleSpec). r ∷ l) later)
        | inr may ↦ elim (Bool-cases (str_eq x.id r.id)) [
          | inl same ↦
              let e : x.id ≡ r.id = (eq_iff x.id r.id).0 same in
              absurd (
                ground (
                  arith,
                  may,
                  other,
                  ap (λ (s : String). has_id s rs) e,
                  (eq_iff r.id x.id).1 (sym e),
                ))
          | inr apart ↦
              simp (other, has_id-place_in r.id x rs, may, apart)
                (ap (λ (l : List RuleSpec). latest r.id xs r ∷ l) later)
        ]
      ]
]

-- What the loop adds to a list whose beginning has the positions of the rules that were there.
record Went (current rest front tail : List RuleSpec) (m m' : Combination) : Type 0 where
  halves : m'.combined ≡ refreshed front rest ++ (tail ++ keep (is_new current) rest)
  new_added : m'.preview.added ≡ m.preview.added + length (keep (is_new current) rest)
  all_in : m'.preview.updated + m'.preview.added ≡ m.preview.updated + m.preview.added + length rest

-- Whether a rule of the profile is new depends on its id.
place_of-placed :
    (current front : List RuleSpec) (x : RuleSpec)
    → position x.id front ≡ position x.id current
    → ((place_of current x ≡ none) × ((str_eq x.id "" ≡ true) ⊎ (has_id x.id front ≡ false)))
      ⊎ ((i : ℕ) × (place_of current x ≡ some i)
          × (i < length front)
          × (str_eq x.id "" ≡ false)
          × (set_at i x front ≡ place_in x front))
place_of-placed current front x same = elim (Bool-cases (str_eq x.id "")) [
  | inl unnamed ↦ inl (simp unnamed refl, inl unnamed)
  | inr named ↦ elim (placed x front) [
    | nowhere lost absent ↦ inl (simp (named, sym same ∙ lost) refl, inr absent)
    | at_place i found below has there ↦
        inr (i, simp (named, sym same ∙ found) refl, below, named, there)
  ]
]

refreshed-nothing : (rs : List RuleSpec) → refreshed rs [] ≡ rs
refreshed-nothing [] = refl
refreshed-nothing (r ∷ rs) =
    ground (arith, ap (λ (l : List RuleSpec). r ∷ l) (refreshed-nothing rs))

merge_loop-Went :
    (current rest front tail : List RuleSpec) (m : Combination)
    → m.combined ≡ front ++ tail
    → ((id : String) → position id front ≡ position id current)
    → Went current rest front tail m (merge_loop current rest m)
unfolding merge_loop
merge_loop-Went current [] front tail m split same = record {
  halves =
      split
      ∙ ap (λ (l : List RuleSpec). l ++ tail) (sym (refreshed-nothing front))
      ∙ ap (λ (l : List RuleSpec). refreshed front [] ++ l) (sym (append-nil tail));
  new_added = omega arith;
  all_in = omega arith;
}
merge_loop-Went current (r ∷ rest) front tail m split same =
    elim (place_of-placed current front r (same r.id)) [
      | inl (new, absent) ↦
          let m' = merge_at r m none in
          let kept : keep (is_new current) (r ∷ rest) ≡ r ∷ keep (is_new current) rest =
            ap
              (λ (b : Bool).
                if b then r ∷ keep (is_new current) rest else keep (is_new current) rest)
              (ap is_free new) in
          let longer = ap (λ (l : List RuleSpec). length l) kept in
          let next =
            merge_loop-Went current rest front (tail ++ r ∷ []) m'
              (ap (λ (l : List RuleSpec). l ++ r ∷ []) split ∙ append_assoc front tail (r ∷ []))
              same in
          simp new (record {
            halves =
                next.halves
                ∙ ap (λ (l : List RuleSpec). refreshed front rest ++ l)
                    (append_assoc tail (r ∷ []) (keep (is_new current) rest))
                ∙ ap (λ (l : List RuleSpec). refreshed front rest ++ (tail ++ l)) (sym kept)
                ∙ ap (λ (l : List RuleSpec). l ++ (tail ++ keep (is_new current) (r ∷ rest)))
                    (sym (refreshed-new r rest front absent));
            new_added = omega (arith, next.new_added, longer);
            all_in = omega (arith, next.all_in);
          })
      | inr (i, taken, below, named, there) ↦
          let m' = merge_at r m (some i) in
          let kept : keep (is_new current) (r ∷ rest) ≡ keep (is_new current) rest =
            ap
              (λ (b : Bool).
                if b then r ∷ keep (is_new current) rest else keep (is_new current) rest)
              (ap is_free taken) in
          let shorter = ap (λ (l : List RuleSpec). length l) kept in
          let next =
            merge_loop-Went current rest (place_in r front) tail m'
              (ap (λ (l : List RuleSpec). set_at i r l) split
                ∙ set_at-append i r front tail below
                ∙ ap (λ (l : List RuleSpec). l ++ tail) there)
              (λ id. position-place_in id r front ∙ same id) in
          simp taken (record {
            halves =
                next.halves
                ∙ ap (λ (l : List RuleSpec). l ++ (tail ++ keep (is_new current) rest))
                    (sym (refreshed-place_in r rest front named))
                ∙ ap (λ (l : List RuleSpec). refreshed front (r ∷ rest) ++ (tail ++ l)) (sym kept);
            new_added = omega (arith, next.new_added, shorter);
            all_in = omega (arith, next.all_in);
          })
    ]

-- Merging a profile keeps the rules that are there in their places. Each of them becomes the last rule
-- of the profile that has its id, and stays as it is where the profile has none, where it has no id, or
-- where a later rule that was there has the same id. The other rules of the profile come behind them in
-- their order, and the preview counts the rules of either kind.
pub merge_rules-IsMerged :
    (current imported : List RuleSpec) → IsMerged current imported (merge_rules current imported)
unfolding merge_rules
merge_rules-IsMerged current imported =
    let all =
      merge_loop-Went current imported current []
        (record { combined = current; preview = nothing_changed }) (sym (append-nil current))
        (λ id. refl) in
    record {
      parts = all.halves;
      added_count = omega (arith, all.new_added);
      all_counted = omega (arith, all.all_in);
    }
