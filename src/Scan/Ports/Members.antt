-- ===== src/Scan/Ports/Members.antt =====
-- The ports that a list denotes, item by item.
use ctf_proxy_utils.Common.{
  ℕ, zero, suc, ◌+◌, ◌≤◌, ◌≡◌, refl, sym, ap, subst, ◌∙◌, ◌⊎◌, inl, inr, Bool, true, false, ◌&&◌,
  ◌||◌, none, some, List, [], ◌∷◌, ◌++◌, arith, ltb, leb, ◌==◌, if◌then◌else◌, Bool-cases,
  Option-cases, All, is_empty, All-map,
}
use ctf_proxy_utils.Common.Int.{ℤ, pos, negsuc, pos_part, neg_part, ◌+ℤ◌}
use ctf_proxy_utils.Bytes.{Text}
use ctf_proxy_utils.Scan.Ports.{
  default_ports, insert, sort_ints, Found, none_found, add, add_range, bounds, gap, add_item,
  add_items, split_at, parse_ports,
}
use ctf_proxy_utils.Scan.Ports.Parse.{
  elem, Ascending, IsFound, added, added-IsFound, elem-append, elem-sort_ints, sort_ints-Ascending,
  sort_ints-All,
}

-- The map is right afterwards, and the list has grown by the ports of the test.
pub record Grows (test : ℕ → Bool) (f f' : Found) : Type 0 where
  pub fine : IsFound f'
  pub members : (q : ℕ) → elem q f'.out ≡ test q || elem q f.out
  pub filled : is_empty f'.out ≡ false

elem_filled : (p : ℕ) (xs : List ℕ) → elem p xs ≡ true → is_empty xs ≡ false
elem_filled p [] h = absurd (cc)
elem_filled p (x ∷ xs) h = refl

snoc_filled : (p : ℕ) (xs : List ℕ) → is_empty (xs ++ p ∷ []) ≡ false
snoc_filled p [] = refl
snoc_filled p (x ∷ xs) = refl

pub add-Grows :
    (p : ℕ) (f f' : Found) → add (pos p) f ≡ some f' → IsFound f → Grows (λ q. p == q) f f'
unfolding add
add-Grows p f f' h v = elim (Bool-cases (ltb p 1 || ltb 65535 p)) [
  | inl k ↦ absurd (ground arith)
  | inr k ↦ elim (Bool-cases (f.seen p)) [
    | inl old ↦
        let same : f ≡ f' = ground arith in
        let there : elem p f.out ≡ true = sym (v.known p) ∙ old in
        subst (Grows (λ q. p == q) f) same (record {
          fine = v;
          members = λ q. ground (arith, there);
          filled = elem_filled p f.out there;
        })
    | inr new ↦
        let same : added p f ≡ f' = ground arith in
        subst (Grows (λ q. p == q) f) same (record {
          fine = added-IsFound p f (ground arith) new v;
          members = λ q. elem-append q f.out (p ∷ []) ∙ ground arith;
          filled = snoc_filled p f.out;
        })
  ]
]

pub next : (p : ℕ) → pos p +ℤ pos 1 ≡ pos (suc p)
unfolding ◌+ℤ◌
next p = ground arith

Grows-Grows :
    (t u w : ℕ → Bool) (f g h : Found)
    → ((q : ℕ) → w q ≡ t q || u q)
    → Grows t f g
    → Grows u g h
    → Grows w f h
Grows-Grows t u w f g h both a b = record {
  fine = b.fine;
  members = λ q. ground (arith, both q, a.members q, b.members q);
  filled = b.filled;
}

pub add_range_step :
    (n p : ℕ) (f f₁ : Found)
    → add (pos p) f ≡ some f₁
    → add_range (suc n) (pos p) f ≡ add_range n (pos (suc p)) f₁
unfolding add_range
add_range_step n p f f₁ one = rw (one, add_range, next p) refl

add_range_first :
    (n p : ℕ) (f f' : Found)
    → add_range (suc n) (pos p) f ≡ some f'
    → (f₁ : Found) × (add (pos p) f ≡ some f₁)
unfolding add_range
add_range_first n p f f' h = elim (Option-cases (add (pos p) f)) [
  | inl bad ↦ absurd (ground arith)
  | inr found ↦ found
]

pub last_step : (p : ℕ) (g g' : Found) → add_range zero (pos p) g ≡ some g' → g ≡ g'
unfolding add_range
last_step p g g' e = ground arith

add_range-Grows :
    (n p : ℕ) (f f' : Found)
    → add_range (suc n) (pos p) f ≡ some f'
    → IsFound f
    → Grows (λ q. leb p q && leb q (p + n)) f f'
add_range-Grows zero p f f' h v =
    let (f₁, one) = add_range_first zero p f f' h in
    let same = last_step (suc p) f₁ f' (sym (add_range_step zero p f f₁ one) ∙ h) in
    let one' = add-Grows p f f₁ one v in
    subst (Grows (λ q. leb p q && leb q (p + 0)) f) same (record {
      fine = one'.fine;
      members = λ q. ground (arith, one'.members q);
      filled = one'.filled;
    })
add_range-Grows (suc n) p f f' h v =
    let (f₁, one) = add_range_first (suc n) p f f' h in
    let one' = add-Grows p f f₁ one v in
    let rest =
      add_range-Grows n (suc p) f₁ f' (sym (add_range_step (suc n) p f f₁ one) ∙ h) one'.fine in
    Grows-Grows (λ q. p == q) (λ q. leb (suc p) q && leb q (suc p + n))
      (λ q. leb p q && leb q (p + suc n)) f f₁ f' (λ q. ground arith) one' rest

-- The numbers of an item.
abbrev pub within : ℤ × ℤ → ℕ → Bool
within item q = leb (pos_part item.0) q && leb q (pos_part item.1)

pub bounds_ordered :
    (text : Text) (part : List ℕ) (lo hi : ℤ)
    → bounds text part ≡ some (lo, hi)
    → pos_part lo + neg_part hi ≤ pos_part hi + neg_part lo
unfolding bounds
bounds_ordered text part lo hi h = ground arith

add_range_positive :
    (n : ℕ) (lo : ℤ) (f f' : Found) → add_range (suc n) lo f ≡ some f' → lo ≡ pos (pos_part lo)
unfolding add_range add
add_range_positive n (pos p) f f' h = refl
add_range_positive n (negsuc p) f f' h = ground arith

pub add_item_lem :
    (text : Text) (part : List ℕ) (lo hi : ℤ) (f : Found)
    → bounds text part ≡ some (lo, hi)
    → add_item text part f
      ≡ (if ltb 10000 (gap lo hi) then none else add_range (suc (gap lo hi)) lo f)
unfolding add_item
add_item_lem text part lo hi f e = rw (e, add_item) refl

pub add_item-Grows :
    (text : Text) (part : List ℕ) (lo hi : ℤ) (f f' : Found)
    → bounds text part ≡ some (lo, hi)
    → add_item text part f ≡ some f'
    → IsFound f
    → Grows (within (lo, hi)) f f'
add_item-Grows text part lo hi f f' e h v =
    let range : add_range (suc (gap lo hi)) lo f ≡ some f' =
      ground (arith, add_item_lem text part lo hi f e) in
    let at = add_range_positive (gap lo hi) lo f f' range in
    let order = bounds_ordered text part lo hi e in
    let zero_below : neg_part lo ≡ 0 = ap neg_part at in
    let grown =
      add_range-Grows (gap lo hi) (pos_part lo) f f'
        (subst (λ (p : ℤ). add_range (suc (gap lo hi)) p f ≡ some f') at range) v in
    record {
      fine = grown.fine;
      members = λ q. ground (arith, grown.members q, sign hi);
      filled = grown.filled;
    }
  where
    sign : (z : ℤ) → (pos_part z ≡ 0) ⊎ (neg_part z ≡ 0)
    sign z = ground arith

-- The bounds of the items that are not empty.
abbrev pub intervals : Text → List (List ℕ) → List (ℤ × ℤ)
intervals text [] = []
intervals text (part ∷ parts) =
    if is_empty (text.trim_space part)
    then intervals text parts
    else elim (bounds text (text.trim_space part)) [
      | none ↦ intervals text parts
      | some b ↦ b ∷ intervals text parts
    ]

abbrev pub any_within : List (ℤ × ℤ) → ℕ → Bool
any_within [] q = false
any_within (b ∷ bs) q = within b q || any_within bs q

record Collects (test : ℕ → Bool) (f f' : Found) : Type 0 where
  sound : IsFound f'
  holds : (q : ℕ) → elem q f'.out ≡ test q || elem q f.out

pub add_items_step :
    (text : Text) (part : List ℕ) (parts : List (List ℕ)) (f f' : Found)
    → is_empty (text.trim_space part) ≡ false
    → add_items text (part ∷ parts) f ≡ some f'
    → (f₁ : Found) × (add_item text (text.trim_space part) f ≡ some f₁)
      × (add_items text parts f₁ ≡ some f')
unfolding add_items
add_items_step text part parts f f' here h =
    elim (Option-cases (add_item text (text.trim_space part) f)) [
      | inl bad ↦ absurd (ground arith)
      | inr (f₁, one) ↦ (f₁, one, ground arith)
    ]

pub item_bounds :
    (text : Text) (part : List ℕ) (f f' : Found)
    → add_item text part f ≡ some f'
    → (b : ℤ × ℤ) × (bounds text part ≡ some b)
unfolding add_item
item_bounds text part f f' h = elim (Option-cases (bounds text part)) [
  | inl bad ↦ absurd (ground arith)
  | inr found ↦ found
]

add_items-Collects :
    (text : Text) (parts : List (List ℕ)) (f f' : Found)
    → add_items text parts f ≡ some f'
    → IsFound f
    → Collects (any_within (intervals text parts)) f f'
unfolding add_items
add_items-Collects text [] f f' h v =
    let same : f ≡ f' = ground arith in
    subst (Collects (λ q. false) f) same (record { sound = v; holds = λ q. refl })
add_items-Collects text (part ∷ parts) f f' h v =
    elim (Bool-cases (is_empty (text.trim_space part))) [
      | inl skip ↦ rw skip (add_items-Collects text parts f f' (ground arith) v)
      | inr here ↦
          let (f₁, one, more) = add_items_step text part parts f f' here h in
          let ((lo, hi), e) = item_bounds text (text.trim_space part) f f₁ one in
          let grown = add_item-Grows text (text.trim_space part) lo hi f f₁ e one v in
          let rest = add_items-Collects text parts f₁ f' more grown.fine in
          rw (here, e)
            (record {
              sound = rest.sound;
              holds = λ q. ground (arith, rest.holds q, grown.members q);
            })
    ]

-- The numbers that a text denotes: the default ports, or what lies within the bounds of its items.
abbrev pub denotes : Text → List ℕ → ℕ → Bool
denotes text s q =
    if is_empty (text.trim_space s)
    then elem q default_ports
    else any_within (intervals text (split_at b',' (text.trim_space s))) q

pub record IsPortList (text : Text) (s ports : List ℕ) : Type 0 where
  pub ascending : Ascending 1 ports
  pub small : All (λ p. p ≤ 65535) ports
  pub members : (q : ℕ) → elem q ports ≡ denotes text s q

pub none_found-IsFound : IsFound none_found
none_found-IsFound = record { known = λ p. refl; ranged = tt; once = tt }

default-Ascending : Ascending 1 (sort_ints default_ports)
unfolding sort_ints insert
default-Ascending = omega arith

default_small : All (λ p. p ≤ 65535) (sort_ints default_ports)
unfolding sort_ints insert
default_small = omega arith

-- The ports that `ParsePorts` returns are exactly those that the text denotes, sorted, each once,
-- and all within 1 to 65535.
pub parse_ports-IsPortList :
    (text : Text) (s ports : List ℕ) → parse_ports text s ≡ some ports → IsPortList text s ports
unfolding parse_ports
parse_ports-IsPortList text s ports h = elim (Bool-cases (is_empty (text.trim_space s))) [
  | inl empty ↦
      let same : sort_ints default_ports ≡ ports = ground arith in
      subst (IsPortList text s) same (record {
        ascending = default-Ascending;
        small = default_small;
        members = λ q. elem-sort_ints q default_ports ∙ ground (arith, empty);
      })
  | inr full ↦ elim (Option-cases (add_items text (split_at b',' (text.trim_space s)) none_found)) [
    | inl bad ↦ absurd (ground arith)
    | inr (f, found) ↦
        let all =
          add_items-Collects text (split_at b',' (text.trim_space s)) none_found f found
            none_found-IsFound in
        let same : sort_ints f.out ≡ ports = ground arith in
        subst (IsPortList text s) same (record {
          ascending =
              sort_ints-Ascending 1 f.out (All-map (λ x r. r.0) f.out all.sound.ranged)
                all.sound.once;
          small =
              sort_ints-All (λ p. p ≤ 65535) f.out (All-map (λ x r. r.1) f.out all.sound.ranged);
          members = λ q. ground (arith, elem-sort_ints q f.out, all.holds q, full);
        })
  ]
]
