-- ===== src/Scan/Ports.antt =====
-- internal/scan/ports.go: the parser of port lists. An error is `none`: what it says is only shown.
pub mod Parse
pub mod Members
pub mod Accepts
mod Tests
use ctf_proxy_utils.Common.{
  ℕ, zero, suc, ◌+◌, ◌-◌, ◌*◌, ◌/◌, ◌%◌, ◌^◌, ◌≤◌, ◌<◌, min, max, String, ◌≡◌, refl, sym, ap, subst,
  ◌∙◌, ◌≢◌, ◌↔◌, ◌⊎◌, inl, inr, Bool, true, false, not, ◌&&◌, ◌||◌, Option, none, some, List, [],
  ◌∷◌, ◌++◌, map, str_eq, eq_iff, arith, ltb, leb, ◌==◌, ==_iff, if◌then◌else◌, Bool-cases,
  Option-cases, length, take, drop, keep, All, get_elem?, is_empty, length-append, take-append-drop,
  length-take, length-drop, take_of_length-le, take-take, take-append, take-append_left,
  take-append_right, length-keep-le, All-append, All-map, All-both, All-keep, length-map, word64,
  add64, sub64, update, update_self, update_ne,
}
use ctf_proxy_utils.Common.Int.{ℤ, pos, negsuc, pos_part, neg_part, ◌+ℤ◌, ltb_ℤ}
use ctf_proxy_utils.Bytes.{Text, index}

abbrev pub default_ports : List ℕ
default_ports =
    22 ∷ 80 ∷ 443 ∷ 445 ∷ 3000 ∷ 3306 ∷ 5000 ∷ 5432 ∷ 6379 ∷ 8000 ∷ 8080 ∷ 8081 ∷ 8443 ∷ 9000 ∷ 5555
    ∷ 27017 ∷ []

-- `sort.Ints`
unfoldable pub insert : ℕ → List ℕ → List ℕ
insert x [] = x ∷ []
insert x (y ∷ ys) = if leb x y then x ∷ y ∷ ys else y ∷ insert x ys

unfoldable pub sort_ints : List ℕ → List ℕ
sort_ints [] = []
sort_ints (x ∷ xs) = insert x (sort_ints xs)

-- The map of the ports that have been seen, and the ports in the order in which they came.
pub record Found : Type 0 where
  pub seen : ℕ → Bool
  pub out : List ℕ

abbrev pub none_found : Found
none_found = record { seen = λ p. false; out = [] }

unfoldable pub add : ℤ → Found → Option Found
add p f =
    if ltb (pos_part p) 1 || ltb 65535 (pos_part p)
    then none
    else if f.seen (pos_part p)
    then some f
    else some (record { seen = λ q. q == pos_part p || f.seen q; out = f.out ++ pos_part p ∷ [] })

-- `n` ports from `p` on.
unfoldable pub add_range : ℕ → ℤ → Found → Option Found
add_range zero p f = some f
add_range (suc n) p f = elim (add p f) [ none ↦ none | some f' ↦ add_range n (p +ℤ pos 1) f' ]

-- `strings.Split` at one byte.
unfoldable pub split_at : ℕ → List ℕ → List (List ℕ)
split_at sep [] = [] ∷ []
split_at sep (c ∷ cs) =
    let rest = split_at sep cs in
    if c == sep
    then [] ∷ rest
    else elim rest [ [] ↦ (c ∷ []) ∷ [] | part ∷ parts ↦ (c ∷ part) ∷ parts ]

-- The digits of `strconv.Atoi`, most significant first.
unfoldable pub digits : ℕ → List ℕ → Option ℕ
digits acc [] = some acc
digits acc (c ∷ cs) =
    let rest = digits (acc * 10 + (c - b'0')) cs in if leb b'0' c && leb c b'9' then rest else none

unfoldable pub magnitude : List ℕ → Option ℕ
magnitude [] = none
magnitude (c ∷ cs) = digits 0 (c ∷ cs)

-- `-n`
abbrev pub negate : ℕ → ℤ
negate zero = pos 0
negate (suc n) = negsuc n

abbrev pub positive : List ℕ → Option ℤ
positive b = elim (magnitude b) [
  | none ↦ none
  | some n ↦ if ltb n (2 ^ 63) then some (pos n) else none
]

abbrev pub negative : List ℕ → Option ℤ
negative b = elim (magnitude b) [
  | none ↦ none
  | some n ↦ if leb n (2 ^ 63) then some (negate n) else none
]

-- `strconv.Atoi` with 64 bits.
unfoldable pub atoi : List ℕ → Option ℤ
atoi [] = none
atoi (c ∷ cs) =
    if c == b'-' then negative cs else if c == b'+' then positive cs else positive (c ∷ cs)

-- `hi - lo`, for `lo` up to `hi`
abbrev pub gap : ℤ → ℤ → ℕ
gap lo hi = pos_part hi + neg_part lo - (pos_part lo + neg_part hi)

-- Both ends of an item, in order: one port, or a range around a dash that is not in front.
unfoldable pub bounds : Text → List ℕ → Option (ℤ × ℤ)
bounds text part = elim (index part (b'-' ∷ [])) [
  | none ↦ elim (atoi part) [ none ↦ none | some p ↦ some (p, p) ]
  | some zero ↦ elim (atoi part) [ none ↦ none | some p ↦ some (p, p) ]
  | some (suc i) ↦ elim (atoi (text.trim_space (take (suc i) part))) [
    | none ↦ none
    | some lo ↦ elim (atoi (text.trim_space (drop (suc (suc i)) part))) [
      | none ↦ none
      | some hi ↦ some (if ltb_ℤ hi lo then (hi, lo) else (lo, hi))
    ]
  ]
]

-- A width over 10000 is an error. Where `hi - lo` does not fit into 64 bits the source goes on to
-- the first port, which is out of range: an error as well.
unfoldable pub add_item : Text → List ℕ → Found → Option Found
add_item text part f = elim (bounds text part) [
  | none ↦ none
  | some (lo, hi) ↦ if ltb 10000 (gap lo hi) then none else add_range (suc (gap lo hi)) lo f
]

unfoldable pub add_items : Text → List (List ℕ) → Found → Option Found
add_items text [] f = some f
add_items text (part ∷ parts) f =
    let item = text.trim_space part in
    if is_empty item
    then add_items text parts f
    else elim (add_item text item f) [ none ↦ none | some f' ↦ add_items text parts f' ]

unfoldable pub parse_ports : Text → List ℕ → Option (List ℕ)
parse_ports text s =
    let b = text.trim_space s in
    if is_empty b
    then some (sort_ints default_ports)
    else elim (add_items text (split_at b',' b) none_found) [
      | none ↦ none
      | some f ↦ if is_empty f.out then none else some (sort_ints f.out)
    ]
