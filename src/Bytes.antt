-- ===== src/Bytes.antt =====
-- The byte functions of Go's standard library that the program relies on. Texts that the code walks
-- are lists of bytes. What depends on Unicode tables, and regular expressions, are parameters.
pub mod Index
use Prim.Native.Char.{code}
use mathlib.Core.Option
use ctf_proxy_utils.Common.{
  ℕ, zero, suc, ◌+◌, ◌-◌, ◌*◌, ◌/◌, ◌%◌, ◌^◌, ◌≤◌, ◌<◌, min, max, String, ◌≡◌, refl, sym, ap, subst,
  ◌∙◌, ◌≢◌, ◌↔◌, ◌⊎◌, inl, inr, Bool, true, false, not, ◌&&◌, ◌||◌, Option, none, some, List, [],
  ◌∷◌, ◌++◌, map, str_eq, eq_iff, arith, ltb, leb, ◌==◌, ==_iff, if◌then◌else◌, Bool-cases,
  Option-cases, length, take, drop, keep, All, get_elem?, is_empty, length-append, take-append-drop,
  length-take, length-drop, take_of_length-le, take-take, take-append, take-append_left,
  take-append_right, length-keep-le, All-append, All-map, All-both, All-keep, length-map, word64,
  add64, sub64, update, update_self, update_ne,
}

-- The code points of a text: its bytes, for ASCII.
abbrev pub codes : String → List ℕ
codes String.[] = []
codes (String.◌∷◌ c s) = code c ∷ codes s

-- `bytes.HasPrefix`.
unfoldable pub has_prefix : List ℕ → List ℕ → Bool
has_prefix xs [] = true
has_prefix [] (n ∷ ns) = false
has_prefix (x ∷ xs) (n ∷ ns) = x == n && has_prefix xs ns

-- `bytes.Index`: `none` is -1.
unfoldable pub index : List ℕ → List ℕ → Option ℕ
index [] needle = if has_prefix [] needle then some 0 else none
index (x ∷ xs) needle =
    if has_prefix (x ∷ xs) needle then some 0 else Option.map suc (index xs needle)

unfoldable pub contains : List ℕ → List ℕ → Bool
contains xs needle = elim (index xs needle) [ none ↦ false | some i ↦ true ]

-- The value of a hexadecimal digit.
unfoldable pub hex_digit : ℕ → Option ℕ
hex_digit c =
    if leb b'0' c && leb c b'9'
    then some (c - b'0')
    else if leb b'a' c && leb c b'f'
    then some (c - b'a' + 10)
    else if leb b'A' c && leb c b'F'
    then some (c - b'A' + 10)
    else none

-- `hex.DecodeString`: `none` is an error, an odd length included.
unfoldable pub hex_decode : List ℕ → Option (List ℕ)
hex_decode [] = some []
hex_decode (c ∷ []) = none
hex_decode (c ∷ d ∷ cs) = elim (hex_digit c) [
  | none ↦ none
  | some h ↦ elim (hex_digit d) [
    | none ↦ none
    | some l ↦ Option.map (◌∷◌ (16 * h + l)) (hex_decode cs)
  ]
]

unfoldable pub hex_char : ℕ → ℕ
hex_char n = if ltb n 10 then b'0' + n else b'a' + n - 10

-- `hex.EncodeToString`.
unfoldable pub hex_encode : List ℕ → List ℕ
hex_encode [] = []
hex_encode (b ∷ bs) = hex_char (b / 16) ∷ hex_char (b % 16) ∷ hex_encode bs

unfoldable pub concat : List (List ℕ) → List ℕ
concat [] = []
concat (xs ∷ xss) = xs ++ concat xss

-- A compiled regular expression: the first match, as its two ends.
abbrev pub Regexp : Type 0
Regexp = List ℕ → Option (ℕ × ℕ)

-- The functions that depend on Unicode tables, and `regexp.Compile`.
pub record Text : Type 0 where
  pub trim_space : List ℕ → List ℕ
  pub to_lower : List ℕ → List ℕ
  pub fields : List ℕ → List (List ℕ)
  pub is_utf8 : List ℕ → Bool
  pub query_unescape : List ℕ → Option (List ℕ)
  pub compile : List ℕ → Option Regexp

-- `hex.DecodeString(strings.Join(strings.Fields(s), ""))`.
unfoldable pub decode_hex_pattern : Text → List ℕ → Option (List ℕ)
decode_hex_pattern text s = hex_decode (concat (text.fields s))

hex_digit-hex_char : (n : ℕ) → n < 16 → hex_digit (hex_char n) ≡ some n
unfolding hex_digit hex_char
hex_digit-hex_char n h = ground arith

-- Every list of bytes comes back from its hexadecimal form.
pub hex_decode-hex_encode :
    (bs : List ℕ) → All (λ b. b < 256) bs → hex_decode (hex_encode bs) ≡ some bs
unfolding hex_decode hex_encode
hex_decode-hex_encode [] h = refl
hex_decode-hex_encode (b ∷ bs) h = ground (
  arith,
  hex_digit-hex_char (b / 16) (omega arith),
  hex_digit-hex_char (b % 16) (omega arith),
  hex_decode-hex_encode bs h.1,
)

-- The bytes that UTF-8 takes for a code point.
unfoldable pub utf8_size : ℕ → ℕ
utf8_size c = if ltb c 0x80 then 1 else if ltb c 0x800 then 2 else if ltb c 0x10000 then 3 else 4

unfoldable pub sum_sizes : List ℕ → ℕ
sum_sizes [] = 0
sum_sizes (c ∷ cs) = utf8_size c + sum_sizes cs

-- Go's `len` of a string of code points.
abbrev pub byte_length : String → ℕ
byte_length s = sum_sizes (codes s)
