-- ===== src/Detect/Scope.antt =====
-- internal/proxy/detect.go: what part of a stream a detector sees, the match, and its excerpt.
use mathlib.Core.Option
use ctf_proxy_utils.Common.{
  ℕ, ◌+◌, ◌-◌, String, Bool, true, false, not, ◌&&◌, ◌||◌, Option, none, some, List, [], ◌∷◌, map,
  str_eq, ltb, leb, ◌==◌, if◌then◌else◌, length, take, drop, is_empty,
}
use ctf_proxy_utils.Bytes.{Text, index, hex_encode}
use ctf_proxy_utils.Recorder.Record.{dir_in}
use ctf_proxy_utils.Detect.Config.{DetectorSpec, CompiledDetector, str_mem}

abbrev pub crlf_crlf : List ℕ
crlf_crlf = 13 ∷ 10 ∷ 13 ∷ 10 ∷ []

abbrev pub lf_lf : List ℕ
lf_lf = 10 ∷ 10 ∷ []

-- The place and the size of the separator of an HTTP head.
unfoldable pub find_separator : List ℕ → Option (ℕ × ℕ)
find_separator b = elim (index b crlf_crlf) [
  | some i ↦ some (i, 4)
  | none ↦ Option.map (λ i. (i, 2)) (index b lf_lf)
]

unfoldable pub headers_of : List ℕ → List ℕ
headers_of b = elim (find_separator b) [ none ↦ b | some (i, size) ↦ take i b ]

unfoldable pub body_of : List ℕ → List ℕ
body_of b = elim (find_separator b) [ none ↦ [] | some (i, size) ↦ drop (i + size) b ]

abbrev pub second_field : List (List ℕ) → List ℕ
second_field [] = []
second_field (x ∷ []) = []
second_field (x ∷ y ∷ xs) = y

unfoldable pub path_of : Text → String → List ℕ → List ℕ
path_of text direction b =
    if str_eq direction dir_in
    then elim (index b (10 ∷ [])) [ none ↦ [] | some i ↦ second_field (text.fields (take i b)) ]
    else []

-- `nil` is an empty list: the callers only look at the length.
unfoldable pub detection_scope : Text → List ℕ → String → String → List ℕ
detection_scope text b direction scope =
    if str_eq scope "stream"
    then b
    else if str_eq scope "http_headers"
    then headers_of b
    else if str_eq scope "http_body"
    then body_of b
    else if str_eq scope "http_path"
    then path_of text direction b
    else []

unfoldable pub detector_applies : DetectorSpec → String → Bool
detector_applies spec rule_id = elim spec.rule_ids [ [] ↦ true | x ∷ xs ↦ str_mem rule_id (x ∷ xs) ]

unfoldable pub find_needle : Text → CompiledDetector → List ℕ → Option (ℕ × ℕ)
find_needle text d b =
    let haystack =
      if d.spec.case_insensitive && str_eq d.spec.mode "text" then text.to_lower b else b in
    Option.map (λ i. (i, i + length d.needle)) (index haystack d.needle)

unfoldable pub detector_match : Text → CompiledDetector → List ℕ → Option (ℕ × ℕ)
detector_match text d [] = none
detector_match text d (x ∷ b) = elim d.re [
  | some re ↦ re (x ∷ b)
  | none ↦ find_needle text d (x ∷ b)
]

abbrev pub is_percent_or_plus : ℕ → Bool
is_percent_or_plus c = c == b'%' || c == b'+'

unfoldable pub any_byte : (ℕ → Bool) → List ℕ → Bool
any_byte test [] = false
any_byte test (c ∷ cs) = test c || any_byte test cs

unfoldable pub bytes_eq : List ℕ → List ℕ → Bool
bytes_eq [] [] = true
bytes_eq [] (d ∷ ds) = false
bytes_eq (c ∷ cs) [] = false
bytes_eq (c ∷ cs) (d ∷ ds) = c == d && bytes_eq cs ds

unfoldable pub decode_inspection_data : Text → List ℕ → Option (List ℕ)
decode_inspection_data text b =
    if is_empty b || not (any_byte is_percent_or_plus b) || not (text.is_utf8 b)
    then none
    else elim (text.query_unescape b) [
      | none ↦ none
      | some decoded ↦ if bytes_eq decoded b then none else some decoded
    ]

-- Control bytes other than tab, line feed and carriage return become dots.
unfoldable pub printable : ℕ → ℕ
printable c = if ltb c 0x20 && not (c == 9) && not (c == 10) && not (c == 13) then b'.' else c

-- 48 bytes on both sides of the match.
unfoldable pub excerpt_window : List ℕ → ℕ → ℕ → List ℕ
excerpt_window b start finish =
    let right = if ltb (length b) (finish + 48) then length b else finish + 48 in
    drop (start - 48) (take right b)

unfoldable pub finding_excerpt : Text → List ℕ → ℕ → ℕ → List ℕ
finding_excerpt text b start finish =
    let chunk = map printable (excerpt_window b start finish) in
    if text.is_utf8 chunk then text.trim_space chunk else hex_encode chunk

unfoldable pub finding_severity : ℕ → String
finding_severity score =
    if leb 80 score
    then "critical"
    else if leb 60 score
    then "high"
    else if leb 35 score
    then "medium"
    else "low"
