-- ===== src/Web/Profile.antt =====
-- internal/web/api.go: the rules of an imported profile and those that are there.
pub mod Merge
use ctf_proxy_utils.Common.{
  ℕ, zero, suc, ◌+◌, ◌-◌, ◌*◌, ◌/◌, ◌%◌, ◌^◌, ◌≤◌, ◌<◌, min, max, String, ◌≡◌, refl, sym, ap, subst,
  ◌∙◌, ◌≢◌, ◌↔◌, ◌⊎◌, inl, inr, Bool, true, false, not, ◌&&◌, ◌||◌, Option, none, some, List, [],
  ◌∷◌, ◌++◌, map, str_eq, eq_iff, arith, ltb, leb, ◌==◌, ==_iff, if◌then◌else◌, Bool-cases,
  Option-cases, length, take, drop, keep, All, get_elem?, is_empty, length-append, take-append-drop,
  length-take, length-drop, take_of_length-le, take-take, take-append, take-append_left,
  take-append_right, length-keep-le, All-append, All-map, All-both, All-keep, length-map, word64,
  add64, sub64, update, update_self, update_ne,
}
use ctf_proxy_utils.Bytes.{Text}
use ctf_proxy_utils.Spec.{RuleSpec}
use ctf_proxy_utils.Spec.Validate.{Net}
use ctf_proxy_utils.Manager.{normalize_rule_set}

pub record Preview : Type 0 where
  pub added : ℕ
  pub updated : ℕ
  pub removed : ℕ

-- The map of the positions: of two rules with one id the later one.
unfoldable pub position : String → List RuleSpec → Option ℕ
position id [] = none
position id (r ∷ rs) = elim (position id rs) [
  | some n ↦ some (suc n)
  | none ↦ if str_eq r.id id then some 0 else none
]

unfoldable pub set_at {ℓ} : {A : Type ℓ} → ℕ → A → List A → List A
set_at n a [] = []
set_at zero a (x ∷ xs) = a ∷ xs
set_at (suc n) a (x ∷ xs) = x ∷ set_at n a xs

pub record Combination : Type 0 where
  pub combined : List RuleSpec
  pub preview : Preview

-- The position of the rule that an imported one takes the place of.
abbrev pub place_of : List RuleSpec → RuleSpec → Option ℕ
place_of current r = if str_eq r.id "" then none else position r.id current

abbrev pub merge_at : RuleSpec → Combination → Option ℕ → Combination
merge_at r m none = record {
  combined = m.combined ++ r ∷ [];
  preview = record m.preview { added = m.preview.added + 1 };
}
merge_at r m (some i) = record {
  combined = set_at i r m.combined;
  preview = record m.preview { updated = m.preview.updated + 1 };
}

unfoldable pub merge_loop : List RuleSpec → List RuleSpec → Combination → Combination
merge_loop current [] m = m
merge_loop current (r ∷ rest) m = merge_loop current rest (merge_at r m (place_of current r))

abbrev pub nothing_changed : Preview
nothing_changed = record { added = 0; updated = 0; removed = 0 }

unfoldable pub merge_rules : List RuleSpec → List RuleSpec → Combination
unfolding merge_loop
merge_rules current imported =
    merge_loop current imported (record { combined = current; preview = nothing_changed })

abbrev pub has_id : String → List RuleSpec → Bool
has_id id [] = false
has_id id (r ∷ rs) = str_eq r.id id || has_id id rs

unfoldable pub count_updates : List RuleSpec → List RuleSpec → Preview → Preview
count_updates current [] p = p
count_updates current (r ∷ rest) p = count_updates current rest (
    if has_id r.id current && not (str_eq r.id "")
    then record p { updated = p.updated + 1 }
    else record p { added = p.added + 1 })

-- The keys of `currentIDs` that are no keys of `importedIDs`, each counted once.
unfoldable pub count_removed : List RuleSpec → List RuleSpec → ℕ
count_removed imported [] = 0
count_removed imported (r ∷ rest) =
    let others = count_removed imported rest in
    if has_id r.id rest || (has_id r.id imported && not (str_eq r.id ""))
    then others
    else others + 1

unfoldable pub replace_rules : List RuleSpec → List RuleSpec → Combination
unfolding count_updates count_removed
replace_rules current imported = record {
  combined = imported;
  preview = record (count_updates current imported nothing_changed) {
    removed = count_removed imported current;
  };
}

-- None is an error: a mode that there is not, or rules that cannot run side by side.
unfoldable pub merge_profile_rules :
    Text
    → Net
    → (ℕ → String)
    → List RuleSpec
    → List RuleSpec
    → String
    → Option (List RuleSpec × Preview)
unfolding merge_rules replace_rules
merge_profile_rules text net fresh current imported mode =
    let mode' = if str_eq mode "" then "merge" else mode in
    if not (str_eq mode' "merge") && not (str_eq mode' "replace")
    then none
    else let m =
        if str_eq mode' "replace"
        then replace_rules current imported
        else merge_rules current imported in
      elim (normalize_rule_set text net fresh m.combined) [
        | none ↦ none
        | some rules ↦ some (rules, m.preview)
      ]
