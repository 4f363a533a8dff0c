-- ===== src/Probe.antt =====
-- internal/proxy/health.go: the payload of a probe, and the reading of its response.
mod Tests
use ctf_proxy_utils.Common.{
  ℕ, zero, suc, ◌+◌, ◌-◌, ◌*◌, ◌/◌, ◌%◌, ◌^◌, ◌≤◌, ◌<◌, min, max, String, ◌≡◌, refl, sym, ap, subst,
  ◌∙◌, ◌≢◌, ◌↔◌, ◌⊎◌, inl, inr, Bool, true, false, not, ◌&&◌, ◌||◌, Option, none, some, List, [],
  ◌∷◌, ◌++◌, map, str_eq, eq_iff, arith, ltb, leb, ◌==◌, ==_iff, if◌then◌else◌, Bool-cases,
  Option-cases, length, take, drop, keep, All, get_elem?, is_empty, length-append, take-append-drop,
  length-take, length-drop, take_of_length-le, take-take, take-append, take-append_left,
  take-append_right, length-keep-le, All-append, All-map, All-both, All-keep, length-map, word64,
  add64, sub64, update, update_self, update_ne,
}
use mathlib.Core.List.{append_assoc}
use ctf_proxy_utils.Bytes.{Text, contains, hex_decode, concat}

-- `decodeHealthBytes`: none is an error.
unfoldable pub decode_health_bytes : Text → String → List ℕ → Option (List ℕ)
decode_health_bytes text mode value =
    if str_eq mode "hex" then hex_decode (concat (text.fields value)) else some value

unfoldable pub match_health_response : Text → String → List ℕ → List ℕ → Bool
match_health_response text mode pattern response =
    if str_eq mode "hex"
    then elim (hex_decode (concat (text.fields pattern))) [
      | none ↦ false
      | some value ↦ contains response value
    ]
    else if str_eq mode "regex"
    then elim (text.compile pattern) [
      | none ↦ false
      | some re ↦ elim (re response) [ none ↦ false | some at ↦ true ]
    ]
    else contains response pattern

-- What a read returns: its bytes, and no error, the end of the stream, or another error.
pub data ReadEnd : Type 0 where
  goes_on ended failed : ReadEnd

abbrev pub Read : Type 0
Read = List ℕ × ReadEnd

pub data Answer : Type 0 where
  matched no_match read_error waiting : Answer

abbrev pub response_limit : ℕ
response_limit = 64 * 1024

-- The loop of `readHealthResponse` over the reads of a connection; it waits where they stop.
unfoldable pub read_response : Text → String → List ℕ → List ℕ → List Read → Answer
read_response text mode pattern response [] =
    if ltb (length response) response_limit then waiting else no_match
read_response text mode pattern response ((b, state) ∷ rest) =
    let all = response ++ b in
    let more = read_response text mode pattern all rest in
    if not (ltb (length response) response_limit)
    then no_match
    else if not (is_empty b) && match_health_response text mode pattern all
    then matched
    else elim state [ goes_on ↦ more | ended ↦ no_match | failed ↦ read_error ]

abbrev pub received : List Read → List ℕ
received [] = []
received (r ∷ rest) = r.0 ++ received rest

-- A beginning of what came in matches the pattern; it is not longer than the limit and one buffer.
pub record Found (text : Text) (mode : String) (pattern sent : List ℕ) : Type 0 where
  pub seen : List ℕ
  pub later : List ℕ
  pub split : sent ≡ seen ++ later
  pub matches : match_health_response text mode pattern seen ≡ true
  pub bounded : length seen < response_limit + 4096

begun-Found :
    (text : Text) (mode : String) (pattern response : List ℕ) (reads : List Read)
    → All (λ (r : Read). length r.0 ≤ 4096) reads
    → read_response text mode pattern response reads ≡ matched
    → Found text mode pattern (response ++ received reads)
unfolding read_response
begun-Found text mode pattern response [] small h =
    elim (Bool-cases (ltb (length response) response_limit)) [
      | inl k ↦ absurd (ground arith)
      | inr k ↦ absurd (ground arith)
    ]
begun-Found text mode pattern response ((b, state) ∷ rest) small h =
    elim (Bool-cases (ltb (length response) response_limit)) [
      | inr full ↦ absurd (ground arith)
      | inl room ↦
          elim (Bool-cases
            (not (is_empty b) && match_health_response text mode pattern (response ++ b))) [
              | inl hit ↦ record {
                seen = response ++ b;
                later = received rest;
                split = sym (append_assoc response b (received rest));
                matches = ground arith;
                bounded = ground (arith, small.0, length-append response b);
              }
              | inr miss ↦
                  subst (Found text mode pattern) (append_assoc response b (received rest)) (
                    begun-Found text mode pattern (response ++ b) rest small.1
                      (go_on state (ground arith)))
            ]
    ]
  where
    go_on :
        (state : ReadEnd)
        → (elim state as (λ _. Answer) [
          | goes_on ↦ read_response text mode pattern (response ++ b) rest
          | ended ↦ no_match
          | failed ↦ read_error
        ])
          ≡ matched
        → read_response text mode pattern (response ++ b) rest ≡ matched
    go_on goes_on k = k
    go_on ended k = absurd (cc)
    go_on failed k = absurd (cc)

-- A probe accepts a response only if a beginning of what the endpoint sent matches the pattern; the
-- match is found within the limit of 64 KiB and one buffer, when a read returns at most 4096 bytes.
pub read_response-Found :
    (text : Text) (mode : String) (pattern : List ℕ) (reads : List Read)
    → All (λ (r : Read). length r.0 ≤ 4096) reads
    → read_response text mode pattern [] reads ≡ matched
    → Found text mode pattern (received reads)
read_response-Found text mode pattern reads small h = begun-Found text mode pattern [] reads small h
