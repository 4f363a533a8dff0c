-- ===== src/Scan/Ports/Parse.antt =====
-- The ports of a list are sorted, in range, and each there once.
use ctf_proxy_utils.Common.{
  ℕ, suc, ◌≤◌, ◌≡◌, refl, sym, ◌∙◌, inl, inr, Bool, false, ◌||◌, List, [], ◌∷◌, ◌++◌, arith, leb,
  ◌==◌, Bool-cases, All, All-append,
}
use ctf_proxy_utils.Scan.Ports.{insert, sort_ints, Found}

abbrev pub elem : ℕ → List ℕ → Bool
elem x [] = false
elem x (y ∷ ys) = y == x || elem x ys

-- Each number is at least `lo` and greater than the one before it.
abbrev pub Ascending : ℕ → List ℕ → Type 0
Ascending lo [] = Unit {0}
Ascending lo (x ∷ xs) = (lo ≤ x) × Ascending (suc x) xs

abbrev pub Distinct : List ℕ → Type 0
Distinct [] = Unit {0}
Distinct (x ∷ xs) = (elem x xs ≡ false) × Distinct xs

insert-Ascending :
    (lo x : ℕ) (xs : List ℕ)
    → lo ≤ x
    → elem x xs ≡ false
    → Ascending lo xs
    → Ascending lo (insert x xs)
unfolding insert
insert-Ascending lo x [] h new a = (h, tt)
insert-Ascending lo x (y ∷ ys) h new a = elim (Bool-cases (leb x y)) [
  | inl k ↦ rw k (h, (ground arith, a.1))
  | inr k ↦ rw k (a.0, insert-Ascending (suc y) x ys (ground arith) (ground arith) a.1)
]

pub elem-insert : (p x : ℕ) (xs : List ℕ) → elem p (insert x xs) ≡ x == p || elem p xs
unfolding insert
elem-insert p x [] = refl
elem-insert p x (y ∷ ys) = ground (arith, elem-insert p x ys)

pub elem-sort_ints : (p : ℕ) (xs : List ℕ) → elem p (sort_ints xs) ≡ elem p xs
unfolding sort_ints
elem-sort_ints p [] = refl
elem-sort_ints p (x ∷ xs) = elem-insert p x (sort_ints xs) ∙ ground (arith, elem-sort_ints p xs)

pub sort_ints-Ascending :
    (lo : ℕ) (xs : List ℕ) → All (λ x. lo ≤ x) xs → Distinct xs → Ascending lo (sort_ints xs)
unfolding sort_ints
sort_ints-Ascending lo [] h d = tt
sort_ints-Ascending lo (x ∷ xs) h d =
    insert-Ascending lo x (sort_ints xs) h.0 (elem-sort_ints x xs ∙ d.0)
      (sort_ints-Ascending lo xs h.1 d.1)

abbrev pub InRange : ℕ → Type 0
InRange p = (1 ≤ p) × (p ≤ 65535)

insert-All : (P : ℕ → Type 0) (x : ℕ) (xs : List ℕ) → P x → All P xs → All P (insert x xs)
unfolding insert
insert-All P x [] h a = (h, tt)
insert-All P x (y ∷ ys) h a = elim (Bool-cases (leb x y)) [
  | inl k ↦ rw k (h, a)
  | inr k ↦ rw k (a.0, insert-All P x ys h a.1)
]

pub sort_ints-All : (P : ℕ → Type 0) (xs : List ℕ) → All P xs → All P (sort_ints xs)
unfolding sort_ints
sort_ints-All P [] a = tt
sort_ints-All P (x ∷ xs) a = insert-All P x (sort_ints xs) a.0 (sort_ints-All P xs a.1)

-- The map says which ports are in the list, and the list has each once.
pub record IsFound (f : Found) : Type 0 where
  pub known : (p : ℕ) → f.seen p ≡ elem p f.out
  pub ranged : All InRange f.out
  pub once : Distinct f.out

pub elem-append : (p : ℕ) (xs ys : List ℕ) → elem p (xs ++ ys) ≡ elem p xs || elem p ys
elem-append p [] ys = refl
elem-append p (x ∷ xs) ys = ground (arith, elem-append p xs ys)

Distinct-snoc : (xs : List ℕ) (p : ℕ) → elem p xs ≡ false → Distinct xs → Distinct (xs ++ p ∷ [])
Distinct-snoc [] p h d = (refl, tt)
Distinct-snoc (x ∷ xs) p h d =
    (elem-append x xs (p ∷ []) ∙ ground (arith, d.0), Distinct-snoc xs p (ground arith) d.1)

-- One more port, after the test of its range.
abbrev pub added : ℕ → Found → Found
added p f = record { seen = λ q. q == p || f.seen q; out = f.out ++ p ∷ [] }

pub added-IsFound :
    (p : ℕ) (f : Found) → InRange p → f.seen p ≡ false → IsFound f → IsFound (added p f)
added-IsFound p f r new v = record {
  known = λ q. ground (arith, v.known q, elem-append q f.out (p ∷ []));
  ranged = All-append InRange f.out (p ∷ []) v.ranged (r, tt);
  once = Distinct-snoc f.out p (sym (v.known p) ∙ new) v.once;
}
