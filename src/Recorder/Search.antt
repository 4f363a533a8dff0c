-- ===== src/Recorder/Search.antt =====
-- internal/proxy/dump.go: `Search`.
-- It holds the lock for the list of the candidates, and then anew for the summary and for the full copy
-- of each record, so each of these sees a record as it is by then: `summaries` has the records at the
-- copies without chunks, and `fulls` at those with chunks. No pointer stands twice in the list.
use ctf_proxy_utils.Common.{
  ℕ, ◌+◌, ◌≤◌, String, ◌≡◌, ◌≢◌, ◌↔◌, ◌⊎◌, refl, sym, ap, subst, eq_iff, ◌∙◌, inl, inr, Bool, true,
  false, not, ◌&&◌, ◌||◌, none, some, List, [], ◌∷◌, ◌++◌, map, str_eq, arith, ltb, ◌==◌,
  if◌then◌else◌, Bool-cases, length, take, drop, keep, is_empty, length-append, length-take,
}
use ctf_proxy_utils.Common.Int.{ℤ, pos_part, neg_part}
use mathlib.Core.List.{reverse, reverse-cons, map-append}
use ctf_proxy_utils.Bytes.{Text, contains, decode_hex_pattern}
use ctf_proxy_utils.Recorder.Record.{ConnDump, RecordedConn, stream, dir_in, dir_out, clone_dump}
use ctf_proxy_utils.Recorder.{Recorder}

pub record DumpQuery : Type 0 where
  pub query : List ℕ
  pub mode : String
  pub direction : String
  pub remote : List ℕ
  pub since : ℕ
  pub until : ℕ
  pub pinned_only : Bool
  pub offset : ℤ
  pub limit : ℤ

pub record DumpPage : Type 0 where
  pub items : List ConnDump
  pub total : ℕ

pub data SearchError : Type 0 where
  bad_window query_too_long bad_interval bad_direction bad_hex bad_regexp bad_mode : SearchError

pub data SearchResult {ℓ} (A : Type ℓ) : Type ℓ where
  ok : A → SearchResult A
  err : SearchError → SearchResult A

infixl 5 ◌>>=◌ ◌>>◌
abbrev pub ◌>>=◌ {ℓ κ} :
    {A : Type ℓ} {B : Type κ} → SearchResult A → (A → SearchResult B) → SearchResult B
ok a >>= f = f a
err e >>= f = err e

abbrev pub ◌>>◌ {ℓ} : {B : Type ℓ} → SearchResult (Unit {0}) → SearchResult B → SearchResult B
m >> k = m >>= λ _. k

abbrev pub refuse : Bool → SearchError → SearchResult (Unit {0})
refuse true e = err e
refuse false e = ok tt

abbrev is_negative : ℤ → Bool
is_negative n = ltb 0 (neg_part n)

-- The defaults of an empty limit and direction.
unfoldable pub page_limit : DumpQuery → ℕ
page_limit q = if pos_part q.limit == 0 then 100 else pos_part q.limit

unfoldable pub search_direction : DumpQuery → String
search_direction q = if str_eq q.direction "" then "any" else q.direction

unfoldable pub matcher : Text → DumpQuery → SearchResult (List ℕ → Bool)
matcher text q =
    if str_eq q.mode "" || str_eq q.mode "text"
    then ok (λ b. contains b q.query)
    else if str_eq q.mode "hex"
    then elim (decode_hex_pattern text q.query) [
      | none ↦ err bad_hex
      | some needle ↦ ok (λ b. contains b needle)
    ]
    else if str_eq q.mode "regex"
    then elim (text.compile q.query) [
      | none ↦ err bad_regexp
      | some re ↦ ok (λ b. elim (re b) [ none ↦ false | some _ ↦ true ])
    ]
    else err bad_mode

-- The checks before the loop, in order, and the matcher.
unfoldable pub check_query : Text → DumpQuery → SearchResult (List ℕ → Bool)
unfolding search_direction matcher
check_query text q = do
  refuse (is_negative q.offset || is_negative q.limit || ltb 500 (pos_part q.limit)) bad_window
  refuse (ltb 4096 (length q.query)) query_too_long
  refuse (not (q.since == 0) && not (q.until == 0) && ltb q.until q.since) bad_interval
  let dir = search_direction q
  refuse (not (str_eq dir "any" || str_eq dir dir_in || str_eq dir dir_out)) bad_direction
  matcher text q

-- The tests on the summary of a record.
unfoldable pub passes_filters : Text → DumpQuery → ConnDump → Bool
passes_filters text q d = not (
    q.pinned_only && not d.pinned
    || not (q.since == 0) && ltb d.started_at q.since
    || not (q.until == 0) && ltb q.until d.started_at
    || not (contains (text.to_lower d.remote_addr) (text.to_lower (text.trim_space q.remote))))

-- One direction at a time, each searched as one stream.
unfoldable pub stream_matches : String → (List ℕ → Bool) → ConnDump → String → Bool
stream_matches wanted match_bytes d dir =
    (str_eq wanted "any" || str_eq wanted dir) && match_bytes (stream dir d.chunks)

unfoldable pub dump_matches : DumpQuery → (List ℕ → Bool) → ConnDump → Bool
unfolding stream_matches search_direction
dump_matches q match_bytes d =
    is_empty q.query
    || stream_matches (search_direction q) match_bytes d dir_in
    || stream_matches (search_direction q) match_bytes d dir_out

-- The tests on the summary and, behind them, on the full copy.
abbrev pub selects : Text → DumpQuery → (List ℕ → Bool) → ConnDump → ConnDump → Bool
selects text q match_bytes d full = passes_filters text q d && dump_matches q match_bytes full

-- The loop from the newest record to the oldest: pins and the rest, each newest first.
unfoldable pub collect :
    (ConnDump → ConnDump → Bool)
    → (ℕ → RecordedConn)
    → (ℕ → RecordedConn)
    → List ℕ
    → List ConnDump × List ConnDump
collect select summaries fulls [] = ([], [])
collect select summaries fulls (p ∷ ps) =
    let (pinned, rest) = collect select summaries fulls ps in
    let summary = clone_dump (summaries p).dump false in
    let full = clone_dump (fulls p).dump true in
    if select summary full
    then (if summary.pinned then (pinned ++ summary ∷ [], rest) else (pinned, rest ++ summary ∷ []))
    else (pinned, rest)

unfoldable pub search :
    Text → DumpQuery → Recorder → (ℕ → RecordedConn) → (ℕ → RecordedConn) → SearchResult DumpPage
unfolding collect page_limit
search text q r summaries fulls = do
  match_bytes ← check_query text q
  let found = collect (selects text q match_bytes) summaries fulls r.dumps
  let matches = found.0 ++ found.1
  ok (record {
    items = take (page_limit q) (drop (pos_part q.offset) matches);
    total = length matches;
  })

-- A record that a query asks for, from its summary and its full copy: it is pinned where that is wanted,
-- began within the interval, its address contains the given text in lower case, and the pattern, if there
-- is one, is found in one of the wanted directions.
pub record Wanted (text : Text) (q : DumpQuery) (m : List ℕ → Bool) (d full : ConnDump)
    : Type 0 where
  pub pin : q.pinned_only ≡ true → d.pinned ≡ true
  pub after : q.since ≢ 0 → q.since ≤ d.started_at
  pub before : q.until ≢ 0 → d.started_at ≤ q.until
  pub from :
      contains (text.to_lower d.remote_addr) (text.to_lower (text.trim_space q.remote)) ≡ true
  pub found :
      (is_empty q.query ≡ true)
      ⊎ ((str_eq q.direction dir_out ≡ false) × (m (stream dir_in full.chunks) ≡ true))
      ⊎ ((str_eq q.direction dir_in ≡ false) × (m (stream dir_out full.chunks) ≡ true))

-- The summaries of the pointers that a test takes, newest first.
pub newest_first :
    (ConnDump → ConnDump → Bool) → (ℕ → RecordedConn) → (ℕ → RecordedConn) → List ℕ → List ConnDump
newest_first select summaries fulls ps =
    map (λ p. clone_dump (summaries p).dump false)
      (reverse (
        keep (λ p. select (clone_dump (summaries p).dump false) (clone_dump (fulls p).dump true))
          ps))

newest_first-cons :
    (select : ConnDump → ConnDump → Bool) (summaries fulls : ℕ → RecordedConn) (p : ℕ) (ps : List ℕ)
    → newest_first select summaries fulls (p ∷ ps) ≡ (
        if select (clone_dump (summaries p).dump false) (clone_dump (fulls p).dump true)
        then newest_first select summaries fulls ps ++ clone_dump (summaries p).dump false ∷ []
        else newest_first select summaries fulls ps)
unfolding newest_first
newest_first-cons select summaries fulls p ps =
    elim (Bool-cases
      (select (clone_dump (summaries p).dump false) (clone_dump (fulls p).dump true))) [
        | inl e ↦ rw e (
            ap (map (λ q. clone_dump (summaries q).dump false)) (reverse-cons p (keep test ps))
            ∙ map-append (λ q. clone_dump (summaries q).dump false) (reverse (keep test ps))
                (p ∷ []))
        | inr e ↦ rw e refl
      ]
  where
    test : ℕ → Bool
    test q = select (clone_dump (summaries q).dump false) (clone_dump (fulls q).dump true)

collect-newest_first :
    (select : ConnDump → ConnDump → Bool) (summaries fulls : ℕ → RecordedConn) (ps : List ℕ)
    → ((collect select summaries fulls ps).0
        ≡ newest_first (λ d full. select d full && d.pinned) summaries fulls ps)
      × ((collect select summaries fulls ps).1
          ≡ newest_first (λ d full. select d full && not d.pinned) summaries fulls ps)
unfolding collect
collect-newest_first select summaries fulls [] = unfold newest_first in (refl, refl)
collect-newest_first select summaries fulls (p ∷ ps) =
    let (pins, rest) = collect-newest_first select summaries fulls ps in
    ground (
      arith,
      pins,
      rest,
      newest_first-cons (λ d full. select d full && d.pinned) summaries fulls p ps,
      newest_first-cons (λ d full. select d full && not d.pinned) summaries fulls p ps,
    )

-- What the direction of a query excludes.
record Directed (s : String) : Type 0 where
  inwards :
      (str_eq (if str_eq s "" then "any" else s) "any"
        || str_eq (if str_eq s "" then "any" else s) dir_in)
      ≡ not (str_eq s dir_out)
  outwards :
      (str_eq (if str_eq s "" then "any" else s) "any"
        || str_eq (if str_eq s "" then "any" else s) dir_out)
      ≡ not (str_eq s dir_in)

known-Directed :
    (s : String)
    → (str_eq s "" || str_eq s "any" || str_eq s dir_in || str_eq s dir_out) ≡ true
    → Directed s
known-Directed s h = elim (Bool-cases (str_eq s "")) [
  | inl e ↦ subst Directed (sym ((eq_iff s "").0 e)) (record { inwards = refl; outwards = refl })
  | inr a ↦ elim (Bool-cases (str_eq s "any")) [
    | inl e ↦
        subst Directed (sym ((eq_iff s "any").0 e)) (record { inwards = refl; outwards = refl })
    | inr b ↦ elim (Bool-cases (str_eq s dir_in)) [
      | inl e ↦
          subst Directed (sym ((eq_iff s dir_in).0 e)) (record { inwards = refl; outwards = refl })
      | inr c ↦
          subst Directed (sym ((eq_iff s dir_out).0 (ground (arith, h, a, b, c))))
            (record { inwards = refl; outwards = refl })
    ]
  ]
]

check_query-Directed :
    (text : Text) (q : DumpQuery) (m : List ℕ → Bool)
    → check_query text q ≡ ok m
    → Directed q.direction
unfolding check_query search_direction
check_query-Directed text q m e = known-Directed q.direction (ground (arith, e))

dump_matches-found :
    (q : DumpQuery) (m : List ℕ → Bool) (full : ConnDump)
    → Directed q.direction
    → dump_matches q m full ≡ (
        is_empty q.query
        || not (str_eq q.direction dir_out) && m (stream dir_in full.chunks)
        || not (str_eq q.direction dir_in) && m (stream dir_out full.chunks))
unfolding dump_matches stream_matches search_direction
dump_matches-found q m full directed = rw (directed.inwards, directed.outwards) refl

or_cases :
    (a b c d e : Bool)
    → (a || not b && c || not d && e) ≡ true
    → (a ≡ true) ⊎ ((b ≡ false) × (c ≡ true)) ⊎ ((d ≡ false) × (e ≡ true))
or_cases true b c d e h = inl refl
or_cases false false true d e h = inr (inl (refl, refl))
or_cases false false false d e h = inr (inr (ground (arith, h), ground (arith, h)))
or_cases false true c d e h = inr (inr (ground (arith, h), ground (arith, h)))

-- The tests take just the records that the query asks for.
selects-Wanted :
    (text : Text) (q : DumpQuery) (m : List ℕ → Bool) (d full : ConnDump)
    → check_query text q ≡ ok m
    → selects text q m d full ≡ true ↔ Wanted text q m d full
unfolding passes_filters
selects-Wanted text q m d full checked = (
  λ h. record {
    pin = λ k. ground (arith, h, k);
    after = λ k. ground (arith, h, k);
    before = λ k. ground (arith, h, k);
    from = ground (arith, h);
    found = or_cases _ _ _ _ _ (
        sym (dump_matches-found q m full (check_query-Directed text q m checked))
        ∙ ground (arith, h));
  },
  λ w.
      let same = dump_matches-found q m full (check_query-Directed text q m checked) in
      elim (w.found) [
        | inl empty ↦ ground (arith, same, empty, w.from, w.pin, w.after, w.before)
        | inr (inl (way, hit)) ↦ ground (arith, same, way, hit, w.from, w.pin, w.after, w.before)
        | inr (inr (way, hit)) ↦ ground (arith, same, way, hit, w.from, w.pin, w.after, w.before)
      ],
)

check_query-limit :
    (text : Text) (q : DumpQuery) (match_bytes : List ℕ → Bool)
    → check_query text q ≡ ok match_bytes
    → pos_part q.limit ≤ 500
unfolding check_query
check_query-limit text q match_bytes e = ground arith

check_query-matcher :
    (text : Text) (q : DumpQuery) (m : List ℕ → Bool)
    → check_query text q ≡ ok m
    → matcher text q ≡ ok m
unfolding check_query
check_query-matcher text q m e = ground arith

matched_by : (List ℕ → Bool) → SearchResult (List ℕ → Bool) → List ℕ → Bool
matched_by m (err x) b = m b
matched_by m (ok m') b = m' b

matcher-literal :
    (text : Text) (q : DumpQuery) (m : List ℕ → Bool)
    → matcher text q ≡ ok m
    → (str_eq q.mode "" || str_eq q.mode "text") ≡ true
    → (b : List ℕ) → m b ≡ contains b q.query
unfolding matcher matched_by
matcher-literal text q m e literal b =
    let same : matcher text q ≡ ok (λ c. contains c q.query) = simp literal refl in
    ap (λ r. matched_by m r b) (sym e ∙ same)

-- The page of the summaries that a test takes.
pub record IsPage (text : Text) (q : DumpQuery) (r : Recorder) (summaries fulls : ℕ → RecordedConn)
    (page : DumpPage) : Type 0 where
  pub match_bytes : List ℕ → Bool
  pub checked : matcher text q ≡ ok match_bytes
  pub literal :
      (str_eq q.mode "" || str_eq q.mode "text") ≡ true
      → (b : List ℕ) → match_bytes b ≡ contains b q.query
  pub select : ConnDump → ConnDump → Bool
  pub wanted : (d full : ConnDump) → select d full ≡ true ↔ Wanted text q match_bytes d full
  pub pins : List ConnDump
  pub others : List ConnDump
  pub pins_first : pins ≡ newest_first (λ d full. select d full && d.pinned) summaries fulls r.dumps
  pub others_behind :
      others ≡ newest_first (λ d full. select d full && not d.pinned) summaries fulls r.dumps
  pub window : page.items ≡ take (page_limit q) (drop (pos_part q.offset) (pins ++ others))
  pub counted : page.total ≡ length pins + length others
  pub bounded : length page.items ≤ 500

-- A search that goes through takes just the records of the list that the query asks for, each as it is
-- when its copies are made; in the mode text a stream is found if it contains the pattern. The page is cut out of their summaries: the pinned ones first, then the
-- others, each group newest first. It counts all of them, and shows 500 at most.
pub search-IsPage :
    (text : Text) (q : DumpQuery) (r : Recorder) (summaries fulls : ℕ → RecordedConn)
    (page : DumpPage)
    → search text q r summaries fulls ≡ ok page
    → IsPage text q r summaries fulls page
unfolding search page_limit
search-IsPage text q r summaries fulls page e = found (check_query text q) refl e
  where
    found :
        (c : SearchResult (List ℕ → Bool))
        → check_query text q ≡ c
        → (c >>= λ m.
            (let f = collect (selects text q m) summaries fulls r.dumps in
              ok (record {
                items = take (page_limit q) (drop (pos_part q.offset) (f.0 ++ f.1));
                total = length (f.0 ++ f.1);
              })))
          ≡ ok page
        → IsPage text q r summaries fulls page
    found (err x) h k = absurd (cc)
    found (ok m) h k =
        let (pins, rest) = collect-newest_first (selects text q m) summaries fulls r.dumps in
        let f = collect (selects text q m) summaries fulls r.dumps in
        record {
          match_bytes = m;
          checked = check_query-matcher text q m h;
          literal = matcher-literal text q m (check_query-matcher text q m h);
          select = selects text q m;
          wanted = λ d full. selects-Wanted text q m d full h;
          pins = f.0;
          others = f.1;
          pins_first = pins;
          others_behind = rest;
          window = ground arith;
          counted = ground (arith, length-append f.0 f.1);
          bounded = ground (
            arith,
            length-take (page_limit q) (drop (pos_part q.offset) (f.0 ++ f.1)),
            check_query-limit text q m h,
          );
        }
