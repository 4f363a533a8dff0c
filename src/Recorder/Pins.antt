-- ===== src/Recorder/Pins.antt =====
-- Pinned records, and writers whose record is gone.
use ctf_proxy_utils.Common.{
  ℕ, ◌≤◌, ◌<◌, String, ◌≡◌, refl, sym, ap, subst, ◌∙◌, ◌⊎◌, inl, inr, Bool, true, false, Option,
  some, List, [], ◌∷◌, arith, leb, ◌==◌, Bool-cases, Option-cases, length, keep, update_ne,
}
use ctf_proxy_utils.Recorder.Record.{RecordedConn}
use ctf_proxy_utils.Recorder.Pointers.{
  Held, Rising, Held-middle, Held-append_left, All-Held, Rising-above,
}
use ctf_proxy_utils.Recorder.Invariant.{
  IsValid, Reaches, take_out-Split, drop_same_id-same, make_room-same,
}
use ctf_proxy_utils.Recorder.Write.{clear-IsValid}
use ctf_proxy_utils.Recorder.{
  Recorder, ConnWriter, take_out, remove, evict_oldest_unpinned, drop_same_id, make_room,
  begin_rest, begin_protocol, push_record, is_unpinned, clear, clear_loop, record_write,
}

-- The pointer stays listed, with the record that it had.
pub record Stays (r r' : Recorder) (p : ℕ) : Type 0 where
  pub listed : Held p r'.dumps
  pub same : r'.store p ≡ r.store p

Stays-trans : (r r' r'' : Recorder) (p : ℕ) → Stays r r' p → Stays r' r'' p → Stays r r'' p
Stays-trans r r' r'' p a b = record { listed = b.listed; same = b.same ∙ a.same }

taken-Stays :
    (test : RecordedConn → Bool) (r : Recorder) (q : ℕ) (rest : List ℕ) (p : ℕ)
    → take_out test r.store r.dumps ≡ some (q, rest)
    → (r.store q).pinned ≡ false
    → Held p r.dumps
    → (r.store p).pinned ≡ true
    → Stays r (remove r q rest) p
unfolding remove
taken-Stays test r q rest p e loose h pin =
    let s = take_out-Split test r.store r.dumps q rest e in
    elim (Held-middle p s.before q s.after (subst (Held p) s.whole h)) [
      | inl same ↦ absurd (ground (arith, ap (λ x. (r.store x).pinned) same))
      | inr k ↦ record { listed = subst (Held p) (sym s.remains) k; same = refl }
    ]

evict-Stays :
    (r r' : Recorder) (p : ℕ)
    → evict_oldest_unpinned r ≡ some r'
    → Held p r.dumps
    → (r.store p).pinned ≡ true
    → Stays r r' p
unfolding evict_oldest_unpinned
evict-Stays r r' p e h pin = elim (Option-cases (take_out is_unpinned r.store r.dumps)) [
  | inl n ↦ absurd (ground arith)
  | inr ((q, rest), n) ↦
      let same : r' ≡ remove r q rest = ground arith in
      let loose = (take_out-Split is_unpinned r.store r.dumps q rest n).passes in
      rw same (taken-Stays is_unpinned r q rest p n (ground arith) h pin)
]

drop_same_id-Stays :
    (id : ℕ) (r r' : Recorder) (p : ℕ)
    → drop_same_id id r ≡ some r'
    → Held p r.dumps
    → (r.store p).pinned ≡ true
    → Stays r r' p
unfolding drop_same_id
drop_same_id-Stays id r r' p e h pin =
    elim (Option-cases (take_out (λ d. d.id == id) r.store r.dumps)) [
      | inl n ↦ let same : r' ≡ r = ground arith in rw same (record { listed = h; same = refl })
      | inr ((q, rest), n) ↦
          let same : r' ≡ remove r q rest = ground arith in
          rw same (taken-Stays (λ d. d.id == id) r q rest p n (ground arith) h pin)
    ]

make_room-Stays :
    (r r' : Recorder) (p : ℕ)
    → make_room r ≡ some r'
    → Held p r.dumps
    → (r.store p).pinned ≡ true
    → Stays r r' p
unfolding make_room
make_room-Stays r r' p e h pin = elim (Bool-cases (leb r.max_conns (length r.dumps))) [
  | inl full ↦ evict-Stays r r' p (ground arith) h pin
  | inr room ↦ let same : r' ≡ r = ground arith in rw same (record { listed = h; same = refl })
]

module _ (now id : ℕ) (remote : List ℕ) (target protocol : String) where
  push_record-Stays :
      (r : Recorder) (p : ℕ)
      → p < r.allocated
      → Held p r.dumps
      → Stays r (push_record now id remote target protocol r).0 p
  unfolding push_record
  push_record-Stays r p below h = record {
    listed = Held-append_left p r.dumps (r.allocated ∷ []) h;
    same = update_ne r.store r.allocated _ p (omega arith);
  }

  begin_rest-Stays :
      (r : Recorder) (p : ℕ)
      → p < r.allocated
      → Held p r.dumps
      → (r.store p).pinned ≡ true
      → Stays r (begin_rest now id remote target protocol r).0 p
  unfolding begin_rest
  begin_rest-Stays r p below h pin = elim (Option-cases (make_room r)) [
    | inl n ↦ rw (n, begin_rest) (record { listed = h; same = refl })
    | inr (r', n) ↦
        let a = make_room-Stays r r' p n h pin in
        rw (n, begin_rest)
          (Stays-trans r r' _ p a
            (push_record-Stays r' p (omega (arith, make_room-same r r' n)) a.listed))
  ]

  -- `BeginProtocol` never drops or changes a pinned record, whatever its id and however full the
  -- recorder is.
  pub begin_protocol-Stays :
      (r : Recorder) (p : ℕ)
      → IsValid r
      → Held p r.dumps
      → (r.store p).pinned ≡ true
      → Stays r (begin_protocol now id remote target protocol r).0 p
  unfolding begin_protocol
  begin_protocol-Stays r p v h pin = elim (Option-cases (drop_same_id id r)) [
    | inl n ↦ rw (n, begin_protocol) (record { listed = h; same = refl })
    | inr (r', n) ↦
        let a = drop_same_id-Stays id r r' p n h pin in
        let below : p < r.allocated = All-Held (λ q. q < r.allocated) p r.dumps v.allocated h in
        rw (n, begin_protocol)
          (Stays-trans r r' _ p a (
            begin_rest-Stays r' p (omega (arith, drop_same_id-same id r r' n)) a.listed
              (ap (λ (d : RecordedConn). d.pinned) a.same ∙ pin)))
  ]

-- Two listed records with one token are one.
token-injective :
    (store : ℕ → RecordedConn) (lo : ℕ) (ps : List ℕ) (hi p q : ℕ)
    → Rising store lo ps hi
    → Held p ps
    → Held q ps
    → (store p).token ≡ (store q).token
    → p ≡ q
token-injective store lo [] hi p q h a b e = absurd a
token-injective store lo (x ∷ ps) hi p q h (inl a) (inl b) e = a ∙ sym b
token-injective store lo (x ∷ ps) hi p q h (inr a) (inr b) e =
    token-injective store (store x).token ps hi p q h.1 a b e
token-injective store lo (x ∷ ps) hi p q h (inl a) (inr b) e = absurd (
    omega (
      arith,
      e,
      ap (λ y. (store y).token) a,
      (All-Held (λ y. ((store x).token < (store y).token) × ((store y).token ≤ hi)) q ps
          (Rising-above store (store x).token ps hi h.1) b).0,
    ))
token-injective store lo (x ∷ ps) hi p q h (inr a) (inl b) e = absurd (
    omega (
      arith,
      e,
      ap (λ y. (store y).token) b,
      (All-Held (λ y. ((store x).token < (store y).token) × ((store y).token ≤ hi)) p ps
          (Rising-above store (store x).token ps hi h.1) a).0,
    ))

clear_loop-keep :
    (store : ℕ → RecordedConn) (active : ℕ → Option ℕ) (ps : List ℕ)
    → (clear_loop store active ps).1 ≡ keep (λ p. (store p).pinned) ps
unfolding clear_loop
clear_loop-keep store active [] = refl
clear_loop-keep store active (p ∷ ps) = ground (arith, clear_loop-keep store active ps)

Held-keep :
    (test : ℕ → Bool) (ps : List ℕ) (p : ℕ) → Held p (keep test ps) → Held p ps × (test p ≡ true)
Held-keep test [] p h = absurd h
Held-keep test (q ∷ ps) p h = elim (Bool-cases (test q)) [
  | inl e ↦ first (Held-keep test ps p) (rw e at h) e
  | inr e ↦ let (k, t) = Held-keep test ps p (rw e at h) in (inr k, t)
]
  where
    first :
        (Held p (keep test ps) → Held p ps × (test p ≡ true))
        → (p ≡ q) ⊎ Held p (keep test ps)
        → test q ≡ true
        → Held p (q ∷ ps) × (test p ≡ true)
    first later (inl e) t = (inl e, ap test e ∙ t)
    first later (inr k) t = (inr (later k).0, (later k).1)

-- `Clear` keeps exactly the pinned records, in order and as they are. The writer of a record that
-- it drops finds nothing any more: its writes change nothing.
pub clear_releases :
    (r : Recorder) (p now : ℕ) (dir : String) (b : List ℕ) (datagram : Bool) (w : ConnWriter)
    → IsValid r
    → Held p r.dumps
    → (r.store p).pinned ≡ false
    → w.token ≡ (r.store p).token
    → ((clear r).dumps ≡ keep (λ q. (r.store q).pinned) r.dumps)
      × ((clear r).store ≡ r.store)
      × (record_write w now dir b datagram (clear r) ≡ clear r)
unfolding clear record_write
clear_releases r p now dir b datagram w v h loose token = (
  clear_loop-keep r.store r.active r.dumps,
  refl,
  elim (Option-cases ((clear r).active w.token)) [
    | inl n ↦ rw (n, record_write) refl
    | inr (q, n) ↦ absurd (gone q ((clear-IsValid r v).writers w.token q n))
  ],
)
  where
    gone : (q : ℕ) → Reaches (clear r) w.token q → ⊥
    gone q reach =
        let (held, pin) =
          Held-keep (λ x. (r.store x).pinned) r.dumps q
            (subst (Held q) (clear_loop-keep r.store r.active r.dumps) reach.listed) in
        let same : p ≡ q =
          token-injective r.store 0 r.dumps r.sequence p q v.rising h held
            (sym token ∙ sym reach.own) in
        cc (ap (λ x. (r.store x).pinned) same)
