-- ===== src/Bytes/Index.antt =====
-- What `index` finds: a place where the needle stands.
use native.Mathlib.Nat.{zero-add, suc-add}
use ctf_proxy_utils.Common.{
  ℕ, suc, ◌+◌, ◌≡◌, refl, ap, inl, inr, true, some, List, [], ◌∷◌, ◌++◌, arith, Bool-cases,
  Option-cases, length, take, drop,
}
use ctf_proxy_utils.Bytes.{has_prefix, index}

has_prefix_split :
    (xs needle : List ℕ) → has_prefix xs needle ≡ true → xs ≡ needle ++ drop (length needle) xs
unfolding has_prefix
has_prefix_split xs [] h = refl
has_prefix_split [] (n ∷ ns) h = absurd (cc)
has_prefix_split (x ∷ xs) (n ∷ ns) h = ground (arith, has_prefix_split xs ns)

pub index_split :
    (xs needle : List ℕ) (i : ℕ)
    → index xs needle ≡ some i
    → xs ≡ take i xs ++ (needle ++ drop (i + length needle) xs)
unfolding index
index_split [] needle i h = elim (Bool-cases (has_prefix [] needle)) [
  | inl k ↦
      let zero_at : i ≡ 0 = ground arith in rw (zero_at, zero-add) (has_prefix_split [] needle k)
  | inr k ↦ absurd (ground arith)
]
index_split (x ∷ xs) needle i h = elim (Bool-cases (has_prefix (x ∷ xs) needle)) [
  | inl k ↦
      let zero_at : i ≡ 0 = ground arith in
      rw (zero_at, zero-add) (has_prefix_split (x ∷ xs) needle k)
  | inr k ↦ elim (Option-cases (index xs needle)) [
    | inl n ↦ absurd (ground arith)
    | inr (j, n) ↦
        let at : i ≡ suc j = ground arith in
        rw (at, suc-add) (ap (◌∷◌ x) (index_split xs needle j n))
  ]
]
