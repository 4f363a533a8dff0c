-- ===== src/Recorder/Resize/Laws.antt =====
-- What `Resize` keeps: every pin, the invariant, and the prefix of each stream.
use ctf_proxy_utils.Common.{
  ℕ, zero, suc, ◌+◌, ◌≤◌, ◌<◌, String, ◌≡◌, refl, sym, ap, subst, ◌∙◌, ◌≢◌, ◌⊎◌, inl, inr, false,
  Option, none, some, List, [], ◌∷◌, ◌++◌, arith, ltb, leb, ◌==◌, Bool-cases, Option-cases, length,
  take, All, update, update_self, update_ne,
}
use mathlib.Core.Path.{ap₂}
use ctf_proxy_utils.Common.Int.{ℤ, pos_part}
use ctf_proxy_utils.Recorder.Record.{RecordedConn, stream}
use ctf_proxy_utils.Recorder.Limits.{Fits, IsKnown}
use ctf_proxy_utils.Recorder.Trim.{
  trim_record, trim_record-Fits, trim_record-same, stream-trim_record,
}
use ctf_proxy_utils.Recorder.Pointers.{
  Held, All-Held, Held-All, Rising, Rising-same, Rising-above, Held-middle_weaken,
}
use ctf_proxy_utils.Recorder.Invariant.{
  IsValid, evict-IsValid, length-take_out, take_out-Split, take_out-none,
}
use ctf_proxy_utils.Recorder.Resize.{
  count_pinned, evict_loop, enter, rebuild, rebuild_active, trim_all, Resized, not_positive,
  too_many_pins, resized, resize_to, resize,
}
use ctf_proxy_utils.Recorder.{Recorder, evict_oldest_unpinned, take_out, remove, is_unpinned}

-- A list without unpinned records counts as many pins as it is long.
All-pinned :
    (store : ℕ → RecordedConn) (ps : List ℕ)
    → All (λ p. is_unpinned (store p) ≡ false) ps
    → count_pinned store ps ≡ length ps
unfolding count_pinned
All-pinned store [] h = refl
All-pinned store (p ∷ ps) h = ground (arith, All-pinned store ps h.1)

count_pinned-append :
    (store : ℕ → RecordedConn) (ps qs : List ℕ)
    → count_pinned store (ps ++ qs) ≡ count_pinned store ps + count_pinned store qs
unfolding count_pinned
count_pinned-append store [] qs = omega arith
count_pinned-append store (p ∷ ps) qs = ground (arith, count_pinned-append store ps qs)

-- An eviction changes only the list and the map, takes one record, and no pinned one.
evicted :
    (r r' : Recorder)
    → evict_oldest_unpinned r ≡ some r'
    → (length r'.dumps + 1 ≡ length r.dumps)
      × (count_pinned r'.store r'.dumps ≡ count_pinned r.store r.dumps)
      × (r'.store ≡ r.store)
unfolding evict_oldest_unpinned remove count_pinned
evicted r r' e = elim (Option-cases (take_out is_unpinned r.store r.dumps)) [
  | inl n ↦ absurd (ground arith)
  | inr ((p, rest), n) ↦
      let s = take_out-Split is_unpinned r.store r.dumps p rest n in
      let same : r' ≡ remove r p rest = ground arith in
      let counts = count_pinned-append r.store s.before (p ∷ s.after) in
      let left = count_pinned-append r.store s.before s.after in
      rw same (
        length-take_out is_unpinned r.store r.dumps p rest n,
        ground (
          arith,
          s.whole,
          s.remains,
          s.passes,
          counts,
          left,
          ap (count_pinned r.store) s.whole,
          ap (count_pinned r.store) s.remains,
        ),
        refl,
      )
]

-- With room for the pins the loop ends, below the limit, with the same pins in the same store.
pub record Evicted (max_conns : ℕ) (r r' : Recorder) : Type 0 where
  pub valid : IsValid r'
  pub few : length r'.dumps ≤ max_conns
  pub pins : count_pinned r'.store r'.dumps ≡ count_pinned r.store r.dumps
  pub same_store : r'.store ≡ r.store
  pub same_bytes : r'.max_bytes_per ≡ r.max_bytes_per
  pub same_sequence : r'.sequence ≡ r.sequence
  pub subset : (p : ℕ) → Held p r'.dumps → Held p r.dumps

evict_step :
    (max_conns : ℕ) (r r' : Recorder)
    → evict_oldest_unpinned r ≡ some r'
    → IsValid r
    → (IsValid r')
      × (r'.max_bytes_per ≡ r.max_bytes_per)
      × (r'.sequence ≡ r.sequence)
      × ((p : ℕ) → Held p r'.dumps → Held p r.dumps)
unfolding evict_oldest_unpinned remove
evict_step max_conns r r' e v = elim (Option-cases (take_out is_unpinned r.store r.dumps)) [
  | inl n ↦ absurd (ground arith)
  | inr ((p, rest), n) ↦
      let s = take_out-Split is_unpinned r.store r.dumps p rest n in
      let same : r' ≡ remove r p rest = ground arith in
      (
        (evict-IsValid r r' e v).0,
        ap (λ (x : Recorder). x.max_bytes_per) same,
        ap (λ (x : Recorder). x.sequence) same,
        λ q h. subst (Held q) (sym s.whole) (
            Held-middle_weaken q s.before p s.after
              (subst (Held q) (ap (λ (x : Recorder). x.dumps) same ∙ s.remains) h)),
      )
]

no_eviction :
    (r : Recorder) → evict_oldest_unpinned r ≡ none → count_pinned r.store r.dumps ≡ length r.dumps
unfolding evict_oldest_unpinned
no_eviction r e =
    All-pinned r.store r.dumps (take_out-none is_unpinned r.store r.dumps (ground arith))

done-Evicted :
    (max_conns : ℕ) (r : Recorder) → length r.dumps ≤ max_conns → IsValid r → Evicted max_conns r r
done-Evicted max_conns r h v = record {
  valid = v;
  few = h;
  pins = refl;
  same_store = refl;
  same_bytes = refl;
  same_sequence = refl;
  subset = λ p k. k;
}

-- The loop ends: each round takes a record, and without one to take all are pins.
evict_loop-Evicted :
    (fuel max_conns : ℕ) (r : Recorder)
    → length r.dumps ≤ fuel
    → count_pinned r.store r.dumps ≤ max_conns
    → IsValid r
    → (r' : Recorder) × (evict_loop fuel max_conns r ≡ some r') × Evicted max_conns r r'
unfolding evict_loop
evict_loop-Evicted zero max_conns r enough pins v =
    (r, ground arith, done-Evicted max_conns r (omega arith) v)
evict_loop-Evicted (suc fuel) max_conns r enough pins v =
    elim (Bool-cases (leb (length r.dumps) max_conns)) [
      | inl h ↦ (r, rw (h, evict_loop) refl, done-Evicted max_conns r (ground arith) v)
      | inr h ↦ elim (Option-cases (evict_oldest_unpinned r)) [
        | inl n ↦ absurd (ground (arith, no_eviction r n))
        | inr (r₁, n) ↦
            let (less, pins₁, store₁) = evicted r r₁ n in
            let (v₁, bytes₁, sequence₁, subset₁) = evict_step max_conns r r₁ n v in
            let (r', e, w) = evict_loop-Evicted fuel max_conns r₁ (omega arith) (omega arith) v₁ in
            (
              r',
              rw (h, evict_loop, n) e,
              record {
                valid = w.valid;
                few = w.few;
                pins = w.pins ∙ pins₁;
                same_store = w.same_store ∙ store₁;
                same_bytes = w.same_bytes ∙ bytes₁;
                same_sequence = w.same_sequence ∙ sequence₁;
                subset = λ p k. subset₁ p (w.subset p k);
              },
            )
      ]
    ]

-- The rebuilt map has the open records under their tokens, as before.
rebuild-keeps :
    (store : ℕ → RecordedConn) (active : ℕ → Option ℕ) (lo : ℕ) (ps : List ℕ) (hi t : ℕ)
    → Rising store lo ps hi
    → t ≤ lo
    → rebuild store active ps t ≡ active t
unfolding rebuild
rebuild-keeps store active lo [] hi t h k = refl
rebuild-keeps store active lo (p ∷ ps) hi t h k =
    rebuild-keeps store (enter store active p) (store p).token ps hi t h.1 (omega arith)
    ∙ ground arith

rebuild-finds :
    (store : ℕ → RecordedConn) (active : ℕ → Option ℕ) (lo : ℕ) (ps : List ℕ) (hi p : ℕ)
    → Rising store lo ps hi
    → Held p ps
    → (store p).closed ≡ false
    → rebuild store active ps (store p).token ≡ some p
unfolding rebuild
rebuild-finds store active lo [] hi p h k c = absurd k
rebuild-finds store active lo (q ∷ ps) hi p h (inr k) c =
    rebuild-finds store (enter store active q) (store q).token ps hi p h.1 k c
rebuild-finds store active lo (q ∷ ps) hi p h (inl e) c = rw e (
    rebuild-keeps store (enter store active q) (store q).token ps hi (store q).token h.1
      (omega arith)
    ∙ ground arith)

rebuild_sound :
    (store : ℕ → RecordedConn) (active : ℕ → Option ℕ) (ps : List ℕ) (t p : ℕ)
    → rebuild store active ps t ≡ some p
    → (active t ≡ some p) ⊎ (Held p ps × ((store p).token ≡ t) × ((store p).closed ≡ false))
unfolding rebuild
rebuild_sound store active [] t p e = inl e
rebuild_sound store active (q ∷ ps) t p e =
    elim (rebuild_sound store (enter store active q) ps t p e) [
      | inr (h, own, open_) ↦ inr (inr h, own, open_)
      | inl a ↦ entered a
    ]
  where
    entered :
        enter store active q t ≡ some p
        → (active t ≡ some p)
          ⊎ (Held p (q ∷ ps) × ((store p).token ≡ t) × ((store p).closed ≡ false))
    entered a = elim (Bool-cases (store q).closed) [
      | inl c ↦ inl (ground arith)
      | inr c ↦ elim (Bool-cases (t == (store q).token)) [
        | inr other ↦ inl (ground arith)
        | inl own ↦
            let same : q ≡ p = ground arith in
            inr (
              inl (sym same),
              ground (arith, ap (λ x. (store x).token) same),
              ground (arith, ap (λ x. (store x).closed) same),
            )
      ]
    ]

rebuild_active-IsValid :
    (capacity max_conns : ℕ) (r : Recorder)
    → IsValid r
    → IsValid (rebuild_active capacity max_conns r)
unfolding rebuild_active
rebuild_active-IsValid capacity max_conns r v = elim (Bool-cases (ltb max_conns capacity)) [
  | inr h ↦ simp h v
  | inl h ↦ simp h (record {
    bounded = v.bounded;
    allocated = v.allocated;
    fits = v.fits;
    rising = v.rising;
    writers = λ t p w. elim (rebuild_sound r.store (λ _. none) r.dumps t p w) [
      | inl n ↦ absurd (ground arith)
      | inr (held, own, open_) ↦ record { listed = held; own = own; is_open = open_ }
    ];
    reachable =
        Held-All _ r.dumps
          (λ p k c. rebuild-finds r.store (λ _. none) 0 r.dumps r.sequence p v.rising k c);
  })
]

-- `trim_all` cuts each listed record once, and leaves the others.
trim_all-other :
    (max_bytes : ℕ) (store : ℕ → RecordedConn) (ps : List ℕ) (q : ℕ)
    → ¬ (Held q ps)
    → trim_all max_bytes store ps q ≡ store q
unfolding trim_all
trim_all-other max_bytes store [] q h = refl
trim_all-other max_bytes store (p ∷ ps) q h =
    trim_all-other max_bytes (update store p (trim_record max_bytes (store p))) ps q
      (λ k. h (inr k))
    ∙ update_ne store p (trim_record max_bytes (store p)) q (λ e. h (inl e))

trim_all-listed :
    (max_bytes : ℕ) (store : ℕ → RecordedConn) (lo : ℕ) (ps : List ℕ) (hi q : ℕ)
    → Rising store lo ps hi
    → Held q ps
    → trim_all max_bytes store ps q ≡ trim_record max_bytes (store q)
unfolding trim_all
trim_all-listed max_bytes store lo [] hi q h k = absurd k
trim_all-listed max_bytes store lo (p ∷ ps) hi q h (inl e) = rw e (
    trim_all-other max_bytes (update store p (trim_record max_bytes (store p))) ps p (λ k. absurd (
      omega (
        arith,
        (All-Held (λ x. ((store p).token < (store x).token) × ((store x).token ≤ hi)) p ps
            (Rising-above store (store p).token ps hi h.1) k).0,
      )))
    ∙ update_self store p (trim_record max_bytes (store p)))
trim_all-listed max_bytes store lo (p ∷ ps) hi q h (inr k) =
    trim_all-listed max_bytes store' (store p).token ps hi q
      (Rising-same store store' (store p).token ps hi (Held-All _ ps (λ x _. same_token x)) h.1) k
    ∙ ap (trim_record max_bytes) (update_ne store p (trim_record max_bytes (store p)) q other)
  where
    store' : ℕ → RecordedConn
    store' = update store p (trim_record max_bytes (store p))

    same_token : (x : ℕ) → (store' x).token ≡ (store x).token
    same_token x = ground (arith, trim_record-same max_bytes (store p))

    above : (store p).token < (store q).token
    above =
        (All-Held (λ x. ((store p).token < (store x).token) × ((store x).token ≤ hi)) q ps
          (Rising-above store (store p).token ps hi h.1) k).0

    other : q ≢ p
    other e = absurd (omega (arith, above, ap (λ x. (store x).token) e))

-- What a successful `Resize` promises.
pub record Resizes (max_conns max_bytes : ℕ) (r r' : Recorder) : Type 0 where
  pub valid : IsValid r'
  pub conns : r'.max_conns ≡ max_conns
  pub bytes : r'.max_bytes_per ≡ max_bytes
  pub sequence : r'.sequence ≡ r.sequence
  pub pins : count_pinned r'.store r'.dumps ≡ count_pinned r.store r.dumps
  pub prefixes :
      (p : ℕ) (dir : String)
      → Held p r'.dumps
      → IsKnown dir
      → Held p r.dumps
        × (stream dir (r'.store p).chunks ≡ take max_bytes (stream dir (r.store p).chunks))

count_pinned-same :
    (s s' : ℕ → RecordedConn) (ps : List ℕ)
    → All (λ p. (s' p).pinned ≡ (s p).pinned) ps
    → count_pinned s' ps ≡ count_pinned s ps
unfolding count_pinned
count_pinned-same s s' [] h = refl
count_pinned-same s s' (p ∷ ps) h = ground (arith, count_pinned-same s s' ps h.1)

module _ (max_conns max_bytes : ℕ) (r : Recorder) where
  abbrev trimmed_store : ℕ → RecordedConn
  trimmed_store = trim_all max_bytes r.store r.dumps

  abbrev trimmed_recorder : Recorder
  trimmed_recorder = record r {
    max_conns = max_conns;
    max_bytes_per = max_bytes;
    store = trimmed_store;
  }

  trimmed_at :
      IsValid r → (p : ℕ) → Held p r.dumps → trimmed_store p ≡ trim_record max_bytes (r.store p)
  trimmed_at v p h = trim_all-listed max_bytes r.store 0 r.dumps r.sequence p v.rising h

  trimmed_field :
      {A : Type 0} (f : RecordedConn → A)
      → ((d : RecordedConn) → f (trim_record max_bytes d) ≡ f d)
      → IsValid r
      → (p : ℕ) → Held p r.dumps
      → f (trimmed_store p) ≡ f (r.store p)
  trimmed_field f same v p h = ap f (trimmed_at v p h) ∙ same (r.store p)

  trimmed-IsValid : length r.dumps ≤ max_conns → IsValid r → IsValid trimmed_recorder
  trimmed-IsValid few v = record {
    bounded = few;
    allocated = v.allocated;
    fits = Held-All _ r.dumps λ p h. rw (trimmed_at v p h) (
        trim_record-Fits r.max_bytes_per max_bytes (r.store p)
          (All-Held (λ q. Fits r.max_bytes_per (r.store q)) p r.dumps v.fits h));
    rising =
        Rising-same r.store trimmed_store 0 r.dumps r.sequence
          (Held-All _ r.dumps (λ p h. tokens p h)) v.rising;
    writers = λ t p w.
        let old = v.writers t p w in
        record {
          listed = old.listed;
          own = tokens p old.listed ∙ old.own;
          is_open = closes p old.listed ∙ old.is_open;
        };
    reachable = Held-All _ r.dumps λ p h c.
        ap r.active (tokens p h)
        ∙ All-Held (λ q. (r.store q).closed ≡ false → r.active (r.store q).token ≡ some q) p r.dumps
            v.reachable h (sym (closes p h) ∙ c);
  }
    where
      tokens : (p : ℕ) → Held p r.dumps → (trimmed_store p).token ≡ (r.store p).token
      tokens = trimmed_field (λ d. d.token) (λ d. (trim_record-same max_bytes d).0) v

      closes : (p : ℕ) → Held p r.dumps → (trimmed_store p).closed ≡ (r.store p).closed
      closes = trimmed_field (λ d. d.closed) (λ d. (trim_record-same max_bytes d).1) v

rebuild_active-same :
    (capacity max_conns : ℕ) (r : Recorder)
    → ((rebuild_active capacity max_conns r).dumps ≡ r.dumps)
      × ((rebuild_active capacity max_conns r).store ≡ r.store)
      × ((rebuild_active capacity max_conns r).sequence ≡ r.sequence)
unfolding rebuild_active
rebuild_active-same capacity max_conns r = ground arith

resize_to-Resizes :
    (capacity max_conns max_bytes : ℕ) (r : Recorder)
    → IsValid r
    → count_pinned r.store r.dumps ≤ max_conns
    → (r' : Recorder) × (resize_to capacity max_conns max_bytes r ≡ resized r')
      × Resizes max_conns max_bytes r r'
unfolding resize_to
resize_to-Resizes capacity max_conns max_bytes r v pins =
    let (r₁, e, w) = evict_loop-Evicted (length r.dumps) max_conns r (omega arith) pins v in
    let r₂ = rebuild_active capacity max_conns r₁ in
    let v₂ = rebuild_active-IsValid capacity max_conns r₁ w.valid in
    let (dumps₂, store₂, sequence₂) = rebuild_active-same capacity max_conns r₁ in
    let store₀ : r₂.store ≡ r.store = store₂ ∙ w.same_store in
    (
      trimmed_recorder max_conns max_bytes r₂,
      rw (e, resize_to) refl,
      record {
        valid = trimmed-IsValid max_conns max_bytes r₂ (omega (arith, ap length dumps₂, w.few)) v₂;
        conns = refl;
        bytes = refl;
        sequence = sequence₂ ∙ w.same_sequence;
        pins =
            count_pinned-same r₂.store _ r₂.dumps (
              Held-All _ r₂.dumps (
                trimmed_field max_conns max_bytes r₂ (λ d. d.pinned)
                  (λ d. (trim_record-same max_bytes d).2) v₂))
            ∙ ap₂ count_pinned store₂ dumps₂
            ∙ w.pins;
        prefixes = λ p dir h known. (
          w.subset p (subst (Held p) dumps₂ h),
          ap (λ (d : RecordedConn). stream dir d.chunks) (trimmed_at max_conns max_bytes r₂ v₂ p h)
              ∙ stream-trim_record r₂.max_bytes_per max_bytes dir (r₂.store p) known
                  (All-Held (λ q. Fits r₂.max_bytes_per (r₂.store q)) p r₂.dumps v₂.fits h)
              ∙ ap (λ s. take max_bytes (stream dir (s p).chunks)) store₀,
        );
      },
    )

-- The three branches.
resize_cases :
    (capacity : ℕ) (max_conns max_bytes : ℤ) (r : Recorder)
    → IsValid r
    → let pinned = count_pinned r.store r.dumps in
      (((pos_part max_conns ≡ 0) ⊎ (pos_part max_bytes ≡ 0))
        → resize capacity max_conns max_bytes r ≡ not_positive)
      × (0 < pos_part max_conns
          → 0 < pos_part max_bytes
          → pos_part max_conns < pinned
          → resize capacity max_conns max_bytes r ≡ too_many_pins pinned)
      × (0 < pos_part max_conns
          → 0 < pos_part max_bytes
          → pinned ≤ pos_part max_conns
          → (r' : Recorder) × (resize capacity max_conns max_bytes r ≡ resized r')
            × Resizes (pos_part max_conns) (pos_part max_bytes) r r')
unfolding resize
resize_cases capacity max_conns max_bytes r v = (
  ground arith,
  ground arith,
  λ c b pins.
      let (r', e, w) =
        resize_to-Resizes capacity (pos_part max_conns) (pos_part max_bytes) r v pins in
      (r', ground (arith, e), w),
)

zero-cases : (n : ℕ) → (n ≡ 0) ⊎ (0 < n)
zero-cases zero = inl refl
zero-cases (suc n) = inr (omega arith)

-- What has been resized satisfies the promise, whatever the limits were.
pub resized-Resizes :
    (capacity : ℕ) (max_conns max_bytes : ℤ) (r r' : Recorder)
    → resize capacity max_conns max_bytes r ≡ resized r'
    → IsValid r
    → Resizes (pos_part max_conns) (pos_part max_bytes) r r'
resized-Resizes capacity max_conns max_bytes r r' e v =
    let (refused, pinned, done) = resize_cases capacity max_conns max_bytes r v in
    elim (zero-cases (pos_part max_conns)) [
      | inl z ↦ absurd (cc (refused (inl z)))
      | inr c ↦ elim (zero-cases (pos_part max_bytes)) [
        | inl z ↦ absurd (cc (refused (inr z)))
        | inr b ↦ elim (Bool-cases (leb (count_pinned r.store r.dumps) (pos_part max_conns))) [
          | inr many ↦ absurd (cc (pinned c b (ground arith)))
          | inl few ↦
              let (r'', e', w) = done c b (ground arith) in
              let same : r'' ≡ r' = cc in
              subst (Resizes (pos_part max_conns) (pos_part max_bytes) r) same w
        ]
      ]
    ]

-- How a call of `Resize` ends. That the loop of evictions does not is no such case.
pub data Outcome (max_conns max_bytes : ℕ) (r : Recorder) : Resized → Type 0 where
  refuses : (max_conns ≡ 0) ⊎ (max_bytes ≡ 0) → Outcome max_conns max_bytes r not_positive
  holds_pins :
      0 < max_conns
      → 0 < max_bytes
      → max_conns < count_pinned r.store r.dumps
      → Outcome max_conns max_bytes r (too_many_pins (count_pinned r.store r.dumps))
  resizes :
      (r' : Recorder)
      → count_pinned r.store r.dumps ≤ max_conns
      → Resizes max_conns max_bytes r r'
      → Outcome max_conns max_bytes r (resized r')

-- `Resize` refuses limits that are not positive, and a number of records below the number of pins.
-- With any other limits it ends, keeps the invariant and all pins, and keeps of each remaining
-- record the prefix of each stream that the new limit allows.
pub resize-Outcome :
    (capacity : ℕ) (max_conns max_bytes : ℤ) (r : Recorder)
    → IsValid r
    → Outcome (pos_part max_conns) (pos_part max_bytes) r (resize capacity max_conns max_bytes r)
resize-Outcome capacity max_conns max_bytes r v =
    let (refused, pinned, done) = resize_cases capacity max_conns max_bytes r v in
    elim (zero-cases (pos_part max_conns)) [
      | inl z ↦ rw (refused (inl z)) (refuses (inl z))
      | inr c ↦ elim (zero-cases (pos_part max_bytes)) [
        | inl z ↦ rw (refused (inr z)) (refuses (inr z))
        | inr b ↦ elim (Bool-cases (leb (count_pinned r.store r.dumps) (pos_part max_conns))) [
          | inr many ↦ let h = pinned c b (ground arith) in rw h (holds_pins c b (ground arith))
          | inl few ↦ let (r', e, w) = done c b (ground arith) in rw e (resizes r' (ground arith) w)
        ]
      ]
    ]
