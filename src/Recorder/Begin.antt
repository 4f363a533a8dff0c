-- ===== src/Recorder/Begin.antt =====
-- `BeginProtocol` keeps the invariant of the recorder.
use ctf_proxy_utils.Common.{
  ℕ, ◌+◌, ◌≤◌, ◌<◌, String, ◌≡◌, refl, ap, subst, ◌∙◌, inl, inr, false, some, List, [], ◌∷◌, ◌++◌,
  arith, ◌==◌, Bool-cases, Option-cases, length, All, length-append, All-append, All-map, word64,
  add64, update, update_self, update_ne,
}
use ctf_proxy_utils.Recorder.Record.{RecordedConn}
use ctf_proxy_utils.Recorder.Pointers.{
  Held, Rising, Held-middle_self, Held-append_left, All-Held, Held-All, Rising-above, Rising-push,
  Rising-same,
}
use ctf_proxy_utils.Recorder.Limits.{Fits}
use ctf_proxy_utils.Recorder.{
  Recorder, fresh_record, push_record, drop_same_id, make_room, begin_protocol, begin_rest,
}
use ctf_proxy_utils.Recorder.Invariant.{
  IsValid, drop_same_id-IsValid, make_room-IsValid, drop_same_id-same, make_room-same,
}

fresh-Fits :
    (max_bytes now token id : ℕ) (remote : List ℕ) (target protocol : String)
    → Fits max_bytes (fresh_record now token id remote target protocol)
fresh-Fits max_bytes now token id remote target protocol = omega arith

module _ (now id : ℕ) (remote : List ℕ) (target protocol : String) (r : Recorder) where
  abbrev new_record : RecordedConn
  new_record = fresh_record now (add64 r.sequence 1) id remote target protocol

  -- The records that were there are as they were.
  pushed_old : (p : ℕ) → p < r.allocated → update r.store r.allocated new_record p ≡ r.store p
  pushed_old p h = update_ne r.store r.allocated new_record p (omega arith)

  pushed_new : update r.store r.allocated new_record r.allocated ≡ new_record
  pushed_new = update_self r.store r.allocated new_record

  pushed-Rising :
      IsValid r
      → r.sequence + 1 < word64
      → Rising
          (update r.store r.allocated new_record)
          0
          (r.dumps ++ r.allocated ∷ [])
          (add64 r.sequence 1)
  pushed-Rising v small =
      let same : All (λ p. (update r.store r.allocated new_record p).token ≡ (r.store p).token)
          r.dumps =
        All-map (λ p h. ap (λ (d : RecordedConn). d.token) (pushed_old p h)) r.dumps v.allocated in
      let old =
        Rising-same r.store (update r.store r.allocated new_record) 0 r.dumps r.sequence same
          v.rising in
      let token : (update r.store r.allocated new_record r.allocated).token ≡ add64 r.sequence 1 =
        ap (λ (d : RecordedConn). d.token) pushed_new in
      subst (Rising (update r.store r.allocated new_record) 0 (r.dumps ++ r.allocated ∷ [])) token (
        Rising-push (update r.store r.allocated new_record) 0 r.dumps r.sequence r.allocated old
          (omega (arith, token)))

  pushed-writers :
      IsValid r
      → (t p : ℕ) → update r.active (add64 r.sequence 1) (some r.allocated) t ≡ some p
      → (Held p (r.dumps ++ r.allocated ∷ []))
        × ((update r.store r.allocated new_record p).token ≡ t)
        × ((update r.store r.allocated new_record p).closed ≡ false)
  pushed-writers v t p w = elim (Bool-cases (t == add64 r.sequence 1)) [
    | inl e ↦
        let same : r.allocated ≡ p = ground arith in
        subst
          (λ q.
            (Held q (r.dumps ++ r.allocated ∷ []))
            × ((update r.store r.allocated new_record q).token ≡ t)
            × ((update r.store r.allocated new_record q).closed ≡ false))
          same
          (
            Held-middle_self r.dumps r.allocated [],
            rw pushed_new (ground arith),
            rw pushed_new refl,
          )
    | inr e ↦
        let old = v.writers t p (rw e at w) in
        let below : p < r.allocated =
          All-Held (λ q. q < r.allocated) p r.dumps v.allocated old.listed in
        (
          Held-append_left p r.dumps (r.allocated ∷ []) old.listed,
          rw (pushed_old p below) old.own,
          rw (pushed_old p below) old.is_open,
        )
  ]

  pushed-reachable :
      IsValid r
      → r.sequence + 1 < word64
      → All
          (λ p.
            (update r.store r.allocated new_record p).closed ≡ false
            → update r.active
                (add64 r.sequence 1)
                (some r.allocated)
                (update r.store r.allocated new_record p).token
              ≡ some p)
          (r.dumps ++ r.allocated ∷ [])
  pushed-reachable v small = All-append _ r.dumps (r.allocated ∷ []) old (newest, tt)
    where
      newest :
          (update r.store r.allocated new_record r.allocated).closed ≡ false
          → update r.active
              (add64 r.sequence 1)
              (some r.allocated)
              (update r.store r.allocated new_record r.allocated).token
            ≡ some r.allocated
      newest c = rw pushed_new (update_self r.active (add64 r.sequence 1) (some r.allocated))

      below : All (λ p. (0 < (r.store p).token) × ((r.store p).token ≤ r.sequence)) r.dumps
      below = Rising-above r.store 0 r.dumps r.sequence v.rising

      old :
          All
            (λ p.
              (update r.store r.allocated new_record p).closed ≡ false
              → update r.active
                  (add64 r.sequence 1)
                  (some r.allocated)
                  (update r.store r.allocated new_record p).token
                ≡ some p)
            r.dumps
      old = Held-All _ r.dumps λ p h.
          let fresh : p < r.allocated = All-Held (λ q. q < r.allocated) p r.dumps v.allocated h in
          let low =
            All-Held (λ q. (0 < (r.store q).token) × ((r.store q).token ≤ r.sequence)) p r.dumps
              below h in
          let back =
            All-Held (λ q. (r.store q).closed ≡ false → r.active (r.store q).token ≡ some q) p
              r.dumps v.reachable h in
          rw (pushed_old p fresh) (λ c.
            update_ne r.active (add64 r.sequence 1) (some r.allocated) (r.store p).token
              (omega arith)
            ∙ back c)

  pub push_record-IsValid :
      IsValid r
      → length r.dumps < r.max_conns
      → r.sequence + 1 < word64
      → IsValid (push_record now id remote target protocol r).0
  unfolding push_record
  push_record-IsValid v room small = record {
    bounded = omega (arith, length-append r.dumps (r.allocated ∷ []));
    allocated =
        All-append _ r.dumps (r.allocated ∷ []) (All-map (λ p h. omega arith) r.dumps v.allocated)
          (omega arith, tt);
    fits =
        All-append _ r.dumps (r.allocated ∷ [])
          (Held-All _ r.dumps λ p h.
            rw (pushed_old p (All-Held _ p r.dumps v.allocated h))
              (All-Held (λ q. Fits r.max_bytes_per (r.store q)) p r.dumps v.fits h))
          (
            rw pushed_new
                (fresh-Fits r.max_bytes_per now (add64 r.sequence 1) id remote target protocol),
            tt,
          );
    rising = pushed-Rising v small;
    writers = λ t p w.
        let (a, b, c) = pushed-writers v t p w in record { listed = a; own = b; is_open = c };
    reachable = pushed-reachable v small;
  }

begin_rest-IsValid :
    (now id : ℕ) (remote : List ℕ) (target protocol : String) (r : Recorder)
    → IsValid r
    → r.sequence + 1 < word64
    → IsValid (begin_rest now id remote target protocol r).0
unfolding begin_rest
begin_rest-IsValid now id remote target protocol r v small = elim (Option-cases (make_room r)) [
  | inl n ↦ rw (n, begin_rest) v
  | inr (r', n) ↦
      let (v', room) = make_room-IsValid r r' n v in
      rw (n, begin_rest)
        (push_record-IsValid now id remote target protocol r' v' room
          (omega (arith, make_room-same r r' n)))
]

module _ (now id : ℕ) (remote : List ℕ) (target protocol : String) (r : Recorder) where
  -- `BeginProtocol` keeps the invariant on every branch, the ones that record nothing included.
  pub begin_protocol-IsValid :
      IsValid r
      → r.sequence + 1 < word64
      → IsValid (begin_protocol now id remote target protocol r).0
  unfolding begin_protocol
  begin_protocol-IsValid v small = elim (Option-cases (drop_same_id id r)) [
    | inl n ↦ rw (n, begin_protocol) v
    | inr (r', n) ↦
        rw (n, begin_protocol)
          (begin_rest-IsValid now id remote target protocol r' (drop_same_id-IsValid id r r' n v)
            (omega (arith, drop_same_id-same id r r' n)))
  ]
