-- ===== src/Scan/Ports/Accepts.antt =====
-- Which port lists are accepted.
use ctf_proxy_utils.Common.{
  ℕ, zero, suc, ◌+◌, ◌≤◌, ◌≡◌, refl, sym, ap, ◌∙◌, ◌⊎◌, inl, inr, Bool, true, false, not, ◌&&◌,
  ◌||◌, Option, none, some, List, [], ◌∷◌, arith, ltb, leb, if◌then◌else◌, Bool-cases, Option-cases,
  is_empty,
}
use ctf_proxy_utils.Common.Int.{ℤ, pos, negsuc, pos_part, neg_part}
use ctf_proxy_utils.Bytes.{Text}
use ctf_proxy_utils.Scan.Ports.{
  Found, none_found, add, add_range, bounds, gap, add_item, add_items, split_at, parse_ports,
}
use ctf_proxy_utils.Scan.Ports.Parse.{IsFound}
use ctf_proxy_utils.Scan.Ports.Members.{
  add_range_step, bounds_ordered, add_item_lem, none_found-IsFound, add_item-Grows, add_items_step,
  item_bounds,
}

abbrev pub is_some : {A : Type 0} → Option A → Bool
is_some none = false
is_some (some x) = true

-- An item is one port or a range of at most 10001 ports, all within 1 to 65535.
abbrev pub item_fits : Option (ℤ × ℤ) → Bool
item_fits none = false
item_fits (some b) = leb 1 (pos_part b.0) && leb (pos_part b.1) 65535 && leb (gap b.0 b.1) 10000

abbrev pub items_fit : Text → List (List ℕ) → Bool
items_fit text [] = true
items_fit text (part ∷ parts) =
    (is_empty (text.trim_space part) || item_fits (bounds text (text.trim_space part)))
    && items_fit text parts

abbrev pub has_item : Text → List (List ℕ) → Bool
has_item text [] = false
has_item text (part ∷ parts) = not (is_empty (text.trim_space part)) || has_item text parts

add_accepts : (p : ℕ) (f : Found) → is_some (add (pos p) f) ≡ leb 1 p && leb p 65535
unfolding add
add_accepts p f = ground arith

add_range-none : (n p : ℕ) (f : Found) → add (pos p) f ≡ none → add_range (suc n) (pos p) f ≡ none
unfolding add_range
add_range-none n p f bad = rw (bad, add_range) refl

add_range_end : (p : ℕ) (f : Found) → is_some (add_range zero (pos p) f) ≡ true
unfolding add_range
add_range_end p f = refl

add_range_accepts :
    (n p : ℕ) (f : Found) → is_some (add_range (suc n) (pos p) f) ≡ leb 1 p && leb (p + n) 65535
add_range_accepts zero p f = elim (Option-cases (add (pos p) f)) [
  | inl bad ↦
      ap is_some (add_range-none zero p f bad) ∙ ground (arith, add_accepts p f, ap is_some bad)
  | inr (f₁, one) ↦
      ap is_some (add_range_step zero p f f₁ one)
      ∙ add_range_end (suc p) f₁
      ∙ ground (arith, add_accepts p f, ap is_some one)
]
add_range_accepts (suc n) p f = elim (Option-cases (add (pos p) f)) [
  | inl bad ↦
      ap is_some (add_range-none (suc n) p f bad) ∙ ground (arith, add_accepts p f, ap is_some bad)
  | inr (f₁, one) ↦
      ap is_some (add_range_step (suc n) p f f₁ one)
      ∙ add_range_accepts n (suc p) f₁
      ∙ ground (arith, add_accepts p f, ap is_some one)
]

add_range_negative : (n k : ℕ) (f : Found) → is_some (add_range (suc n) (negsuc k) f) ≡ false
unfolding add_range add
add_range_negative n k f = refl

sign : (z : ℤ) → (pos_part z ≡ 0) ⊎ (neg_part z ≡ 0)
sign z = ground arith

add_item_accepts :
    (text : Text) (part : List ℕ) (f : Found)
    → is_some (add_item text part f) ≡ item_fits (bounds text part)
unfolding add_item
add_item_accepts text part f = elim (Option-cases (bounds text part)) [
  | inl bad ↦ rw bad (ap is_some (add_item_unparsed text part f bad))
  | inr ((lo, hi), e) ↦ rw e (
      ap is_some (add_item_lem text part lo hi f e)
      ∙ fits lo hi f (bounds_ordered text part lo hi e))
]
  where
    add_item_unparsed :
        (text : Text) (part : List ℕ) (f : Found)
        → bounds text part ≡ none
        → add_item text part f ≡ none
    add_item_unparsed text part f bad = rw (bad, add_item) refl

    fits :
        (lo hi : ℤ) (f : Found)
        → pos_part lo + neg_part hi ≤ pos_part hi + neg_part lo
        → is_some (if ltb 10000 (gap lo hi) then none else add_range (suc (gap lo hi)) lo f)
          ≡ item_fits (some (lo, hi))
    fits (pos p) hi f order = ground (arith, add_range_accepts (gap (pos p) hi) p f, sign hi)
    fits (negsuc k) hi f order = ground (arith, add_range_negative (gap (negsuc k) hi) k f, sign hi)

add_items_accepts :
    (text : Text) (parts : List (List ℕ)) (f : Found)
    → is_some (add_items text parts f) ≡ items_fit text parts
unfolding add_items
add_items_accepts text [] f = refl
add_items_accepts text (part ∷ parts) f = elim (Bool-cases (is_empty (text.trim_space part))) [
  | inl skip ↦ rw skip (add_items_accepts text parts f)
  | inr here ↦ elim (Option-cases (add_item text (text.trim_space part) f)) [
    | inl bad ↦ ground (arith, here, ap is_some bad, add_item_accepts text (text.trim_space part) f)
    | inr (f₁, one) ↦ ground (
      arith,
      here,
      ap is_some one,
      add_item_accepts text (text.trim_space part) f,
      add_items_accepts text parts f₁,
    )
  ]
]

items_filled :
    (text : Text) (parts : List (List ℕ)) (f f' : Found)
    → add_items text parts f ≡ some f'
    → IsFound f
    → is_empty f'.out ≡ is_empty f.out && not (has_item text parts)
unfolding add_items
items_filled text [] f f' h v =
    let same : f ≡ f' = ground arith in ap (λ (g : Found). is_empty g.out) (sym same) ∙ ground arith
items_filled text (part ∷ parts) f f' h v = elim (Bool-cases (is_empty (text.trim_space part))) [
  | inl skip ↦ rw skip (items_filled text parts f f' (ground arith) v)
  | inr here ↦
      let (f₁, one, more) = add_items_step text part parts f f' here h in
      let ((lo, hi), e) = item_bounds text (text.trim_space part) f f₁ one in
      let grown = add_item-Grows text (text.trim_space part) lo hi f f₁ e one v in
      ground (arith, here, grown.filled, items_filled text parts f₁ f' more grown.fine)
]

-- `ParsePorts` accepts an empty text, and otherwise just the texts with an item in which every item
-- is a port or a range of at most 10001 ports, one more than the message of the code names, all
-- within 1 to 65535; any other text is an error.
pub parse_ports_accepts :
    (text : Text) (s : List ℕ)
    → is_some (parse_ports text s)
      ≡ is_empty (text.trim_space s)
        || items_fit text (split_at b',' (text.trim_space s))
          && has_item text (split_at b',' (text.trim_space s))
unfolding parse_ports
parse_ports_accepts text s =
    elim (Option-cases (add_items text (split_at b',' (text.trim_space s)) none_found)) [
      | inl bad ↦ ground (
        arith,
        bad,
        ap is_some bad,
        add_items_accepts text (split_at b',' (text.trim_space s)) none_found,
      )
      | inr (f, found) ↦ ground (
        arith,
        found,
        ap is_some found,
        add_items_accepts text (split_at b',' (text.trim_space s)) none_found,
        items_filled text (split_at b',' (text.trim_space s)) none_found f found none_found-IsFound,
      )
    ]
