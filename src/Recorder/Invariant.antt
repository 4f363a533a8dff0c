-- ===== src/Recorder/Invariant.antt =====
-- The invariant of the recorder, and that every operation keeps it.
use ctf_proxy_utils.Common.{
  ℕ, ◌+◌, ◌≤◌, ◌<◌, ◌≡◌, refl, sym, ap, subst, ◌∙◌, ◌≢◌, inl, inr, Bool, true, false, none, some,
  List, [], ◌∷◌, ◌++◌, arith, leb, ◌==◌, Bool-cases, Option-cases, length, All, length-append,
  All-map, All-both, update,
}
use ctf_proxy_utils.Recorder.Record.{RecordedConn}
use ctf_proxy_utils.Recorder.Pointers.{Held, Rising, All-middle, Held-middle, Rising-middle}
use ctf_proxy_utils.Recorder.Limits.{Fits}
use ctf_proxy_utils.Recorder.{
  Recorder, remove, take_out, is_unpinned, evict_oldest_unpinned, drop_same_id, make_room,
}

-- A writer's token leads to an open record that is listed under that token.
pub record Reaches (r : Recorder) (t p : ℕ) : Type 0 where
  pub listed : Held p r.dumps
  pub own : (r.store p).token ≡ t
  pub is_open : (r.store p).closed ≡ false

pub record IsValid (r : Recorder) : Type 0 where
  pub bounded : length r.dumps ≤ r.max_conns
  pub allocated : All (λ p. p < r.allocated) r.dumps
  pub fits : All (λ p. Fits r.max_bytes_per (r.store p)) r.dumps
  pub rising : Rising r.store 0 r.dumps r.sequence
  pub writers : (t p : ℕ) → r.active t ≡ some p → Reaches r t p
  pub reachable :
      All (λ p. (r.store p).closed ≡ false → r.active (r.store p).token ≡ some p) r.dumps

-- What `take_out` finds: the first record that passes, with all before it failing.
pub record Split (test : RecordedConn → Bool) (store : ℕ → RecordedConn) (ps : List ℕ) (p : ℕ)
    (rest : List ℕ) : Type 0 where
  pub before : List ℕ
  pub after : List ℕ
  pub whole : ps ≡ before ++ p ∷ after
  pub remains : rest ≡ before ++ after
  pub passes : test (store p) ≡ true
  pub fails : All (λ q. test (store q) ≡ false) before

pub take_out-Split :
    (test : RecordedConn → Bool) (store : ℕ → RecordedConn) (ps : List ℕ) (p : ℕ) (rest : List ℕ)
    → take_out test store ps ≡ some (p, rest)
    → Split test store ps p rest
unfolding take_out
take_out-Split test store [] p rest e = absurd (cc)
take_out-Split test store (q ∷ ps) p rest e = elim (Bool-cases (test (store q))) [
  | inl h ↦ record {
    before = [];
    after = ps;
    whole = ground arith;
    remains = ground arith;
    passes = ground arith;
    fails = tt;
  }
  | inr h ↦ elim (Option-cases (take_out test store ps)) [
    | inl n ↦ absurd (ground arith)
    | inr ((p', rest'), n) ↦
        let same : p' ≡ p = ground arith in
        let s = take_out-Split test store ps p rest' (rw (← same) n) in
        record {
          before = q ∷ s.before;
          after = s.after;
          whole = ap (◌∷◌ q) s.whole;
          remains = ground (arith, s.remains);
          passes = s.passes;
          fails = (h, s.fails);
        }
  ]
]

pub take_out-none :
    (test : RecordedConn → Bool) (store : ℕ → RecordedConn) (ps : List ℕ)
    → take_out test store ps ≡ none
    → All (λ q. test (store q) ≡ false) ps
unfolding take_out
take_out-none test store [] e = tt
take_out-none test store (q ∷ ps) e = elim (Bool-cases (test (store q))) [
  | inl h ↦ absurd (ground arith)
  | inr h ↦ (h, take_out-none test store ps (ground arith))
]

module _ (r : Recorder) (before : List ℕ) (p : ℕ) (after : List ℕ) where
  removed-Reaches :
      (t q : ℕ)
      → r.dumps ≡ before ++ p ∷ after
      → t ≢ (r.store p).token
      → Reaches r t q
      → Reaches (remove r p (before ++ after)) t q
  unfolding remove
  removed-Reaches t q e other v = elim (Held-middle q before p after (subst (Held q) e v.listed)) [
    | inl same ↦ absurd (other (sym v.own ∙ ap (λ x. (r.store x).token) same))
    | inr held ↦ record { listed = held; own = v.own; is_open = v.is_open }
  ]

  pub remove-IsValid :
      r.dumps ≡ before ++ p ∷ after → IsValid r → IsValid (remove r p (before ++ after))
  unfolding remove
  remove-IsValid e v =
      let (rising, others) =
        Rising-middle r.store 0 before p after r.sequence
          (subst (λ l. Rising r.store 0 l r.sequence) e v.rising) in
      record {
        bounded = omega (
          arith,
          v.bounded,
          ap length e,
          length-append before (p ∷ after),
          length-append before after,
        );
        allocated = (All-middle _ before p after (subst (All _) e v.allocated)).1;
        fits = (All-middle _ before p after (subst (All _) e v.fits)).1;
        rising = rising;
        writers = λ t q w. removed-Reaches t q e (ground arith) (v.writers t q (ground arith));
        reachable =
            All-map (λ q k. still q k.0 k.1) (before ++ after)
              (All-both _ _ (before ++ after) others
                (All-middle _ before p after (subst (All _) e v.reachable)).1);
      }
    where
      still :
          (q : ℕ)
          → (r.store q).token ≢ (r.store p).token
          → ((r.store q).closed ≡ false → r.active (r.store q).token ≡ some q)
          → (r.store q).closed ≡ false
          → update r.active (r.store p).token none (r.store q).token ≡ some q
      still q other k c = ground (arith, k c)

pub removed-IsValid :
    (test : RecordedConn → Bool) (r : Recorder) (p : ℕ) (rest : List ℕ)
    → take_out test r.store r.dumps ≡ some (p, rest)
    → IsValid r
    → IsValid (remove r p rest)
removed-IsValid test r p rest e v =
    let s = take_out-Split test r.store r.dumps p rest e in
    rw (s.remains) (remove-IsValid r s.before p s.after s.whole v)

pub length-take_out :
    (test : RecordedConn → Bool) (store : ℕ → RecordedConn) (ps : List ℕ) (p : ℕ) (rest : List ℕ)
    → take_out test store ps ≡ some (p, rest)
    → length rest + 1 ≡ length ps
length-take_out test store ps p rest e =
    let s = take_out-Split test store ps p rest e in
    omega (
      arith,
      ap length s.whole,
      ap length s.remains,
      length-append s.before (p ∷ s.after),
      length-append s.before s.after,
    )

-- An eviction takes one record.
pub evict-IsValid :
    (r r' : Recorder)
    → evict_oldest_unpinned r ≡ some r'
    → IsValid r
    → IsValid r' × (length r'.dumps + 1 ≡ length r.dumps) × (r'.max_conns ≡ r.max_conns)
unfolding evict_oldest_unpinned remove
evict-IsValid r r' e v = elim (Option-cases (take_out is_unpinned r.store r.dumps)) [
  | inl n ↦ absurd (ground arith)
  | inr ((p, rest), n) ↦
      let same : r' ≡ remove r p rest = ground arith in
      rw same (
        removed-IsValid is_unpinned r p rest n v,
        length-take_out is_unpinned r.store r.dumps p rest n,
        refl,
      )
]

pub drop_same_id-IsValid :
    (id : ℕ) (r r' : Recorder) → drop_same_id id r ≡ some r' → IsValid r → IsValid r'
unfolding drop_same_id
drop_same_id-IsValid id r r' e v =
    elim (Option-cases (take_out (λ d. d.id == id) r.store r.dumps)) [
      | inl n ↦ let same : r' ≡ r = ground arith in rw same v
      | inr ((p, rest), n) ↦
          let same : r' ≡ remove r p rest = ground arith in
          rw same (removed-IsValid (λ d. d.id == id) r p rest n v)
    ]

-- After `make_room` there is a free slot.
pub make_room-IsValid :
    (r r' : Recorder)
    → make_room r ≡ some r'
    → IsValid r
    → IsValid r' × (length r'.dumps < r'.max_conns)
unfolding make_room
make_room-IsValid r r' e v = elim (Bool-cases (leb r.max_conns (length r.dumps))) [
  | inl h ↦
      let (v', less, same) = evict-IsValid r r' (ground arith) v in (v', omega (arith, v.bounded))
  | inr h ↦ let same : r' ≡ r = ground arith in rw same (v, ground arith)
]

pub drop_same_id-same :
    (id : ℕ) (r r' : Recorder)
    → drop_same_id id r ≡ some r'
    → (r'.sequence ≡ r.sequence) × (r'.allocated ≡ r.allocated)
unfolding drop_same_id remove
drop_same_id-same id r r' e = ground arith

pub make_room-same :
    (r r' : Recorder)
    → make_room r ≡ some r'
    → (r'.sequence ≡ r.sequence) × (r'.allocated ≡ r.allocated)
unfolding make_room evict_oldest_unpinned remove
make_room-same r r' e = ground arith
