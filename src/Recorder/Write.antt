-- ===== src/Recorder/Write.antt =====
-- Writing, finishing and clearing keep the invariant of the recorder.
use ctf_proxy_utils.Common.{
  ℕ, String, ◌≡◌, refl, sym, ap, subst, ◌∙◌, ◌≢◌, ◌⊎◌, inl, inr, Bool, false, not, ◌||◌, Option,
  none, some, List, [], ◌∷◌, ◌++◌, str_eq, eq_iff, arith, ◌==◌, Bool-cases, Option-cases, is_empty,
  All-map, update, update_ne,
}
use mathlib.Core.List.{append_assoc}
use ctf_proxy_utils.Recorder.Record.{
  RecordedConn, dir_in, dir_out, capture, count_bytes, mark_truncated, append_bytes, add_chunk,
  store_chunks,
}
use ctf_proxy_utils.Recorder.Pointers.{Held-All, Rising-same}
use ctf_proxy_utils.Recorder.Update.{modify-IsValid, Held-Fits, same-Fits}
use ctf_proxy_utils.Recorder.Limits.{Fits, capture-Fits}
use ctf_proxy_utils.Recorder.{
  Recorder, ConnWriter, remove, modify, close_record, record_finish, finish, write, record_write,
  clear, clear_loop, clear_all,
}
use ctf_proxy_utils.Recorder.Invariant.{Reaches, IsValid, remove-IsValid}

capture-same :
    (max_bytes now : ℕ) (dir : String) (b : List ℕ) (datagram : Bool) (d : RecordedConn)
    → ((capture max_bytes now dir b datagram d).token ≡ d.token)
      × ((capture max_bytes now dir b datagram d).closed ≡ d.closed)
unfolding capture count_bytes mark_truncated append_bytes add_chunk store_chunks
capture-same max_bytes now dir b datagram d = ground arith

record_write-IsValid :
    (w : ConnWriter) (now : ℕ) (dir : String) (b : List ℕ) (datagram : Bool) (r : Recorder)
    → (dir ≡ dir_in) ⊎ (dir ≡ dir_out)
    → IsValid r
    → IsValid (record_write w now dir b datagram r)
unfolding record_write
record_write-IsValid w now dir b datagram r dirs v = elim (Option-cases (r.active w.token)) [
  | inl n ↦ rw (n, record_write) v
  | inr (p, n) ↦
      let reach = v.writers w.token p n in
      let (token, closed) = capture-same r.max_bytes_per now dir b datagram (r.store p) in
      rw (n, record_write)
        (simp (reach.is_open) (
          modify-IsValid r p (capture r.max_bytes_per now dir b datagram) reach.listed token closed
            (capture-Fits r.max_bytes_per now dir b datagram (r.store p) dirs
              (Held-Fits r p v reach.listed))
            v))
]

pub write-IsValid :
    (w : Option ConnWriter) (now : ℕ) (dir : String) (b : List ℕ) (datagram : Bool) (r : Recorder)
    → IsValid r
    → IsValid (write w now dir b datagram r).0
unfolding write
write-IsValid none now dir b datagram r v = v
write-IsValid (some w) now dir b datagram r v =
    elim (Bool-cases (is_empty b || not (str_eq dir dir_in || str_eq dir dir_out))) [
      | inl h ↦ rw h v
      | inr h ↦ rw h (elim (Bool-cases w.recording) [
        | inl on ↦ simp on (
            record_write-IsValid w now dir b datagram r
              (ground (arith, eq_iff dir dir_in, eq_iff dir dir_out)) v)
        | inr off ↦ simp off v
      ])
    ]

module _ (r : Recorder) (p now bytes_in bytes_out : ℕ) where
  abbrev finished : RecordedConn
  finished = close_record now bytes_in bytes_out (r.store p)

  -- The record is closed, and its token is taken out of the map.
  closed-IsValid :
      IsValid r
      → (t : ℕ) → r.active t ≡ some p
      → IsValid (record (modify p (close_record now bytes_in bytes_out) r) {
        active = update r.active t none;
      })
  closed-IsValid v t reached = record {
    bounded = v.bounded;
    allocated = v.allocated;
    fits = All-map (λ q k. at_fits q k) r.dumps v.fits;
    rising =
        Rising-same r.store store' 0 r.dumps r.sequence (Held-All _ r.dumps (λ q h. same_token q))
          v.rising;
    writers = λ u q w.
        let other : u ≢ t = ground arith in
        let old = v.writers u q (ground arith) in
        let same =
          untouched q (λ e. other (sym old.own ∙ ap (λ x. (r.store x).token) e ∙ reach.own)) in
        record { listed = old.listed; own = same_token q ∙ old.own; is_open = rw same old.is_open };
    reachable = All-map (λ q k c. still q k c) r.dumps v.reachable;
  }
    where
      reach : Reaches r t p
      reach = v.writers t p reached

      store' : ℕ → RecordedConn
      store' = update r.store p finished

      same_token : (q : ℕ) → (store' q).token ≡ (r.store q).token
      same_token q = ground arith

      at_fits : (q : ℕ) → Fits r.max_bytes_per (r.store q) → Fits r.max_bytes_per (store' q)
      at_fits q old = elim (Bool-cases (q == p)) [
        | inl e ↦ rw e (
            same-Fits r.max_bytes_per (r.store p) finished refl refl refl
              (Held-Fits r p v reach.listed))
        | inr e ↦ rw e old
      ]

      untouched : (q : ℕ) → q ≢ p → store' q ≡ r.store q
      untouched q h = update_ne r.store p finished q h

      not_closed : (q : ℕ) → (store' q).closed ≡ false → q ≢ p
      not_closed q c e = ground arith

      still :
          (q : ℕ)
          → ((r.store q).closed ≡ false → r.active (r.store q).token ≡ some q)
          → (store' q).closed ≡ false
          → update r.active t none (store' q).token ≡ some q
      still q back c =
          let other = not_closed q c in
          let same = untouched q other in
          let there = back (sym (ap (λ (d : RecordedConn). d.closed) same) ∙ c) in
          rw same (
            update_ne r.active t none (r.store q).token
              (λ e. other (ground (arith, reached, ap r.active e)))
            ∙ there)

pub finish-IsValid :
    (w : ConnWriter) (now bytes_in bytes_out : ℕ) (r : Recorder)
    → IsValid r
    → IsValid (finish w now bytes_in bytes_out r).1
unfolding finish record_finish
finish-IsValid w now bytes_in bytes_out r v = elim (Bool-cases w.recording) [
  | inr off ↦ simp off v
  | inl on ↦ simp on (elim (Option-cases (r.active w.token)) [
    | inl n ↦ rw (n, record_finish) v
    | inr (p, n) ↦
        let reach = v.writers w.token p n in
        rw (n, record_finish)
          (simp (reach.is_open) (closed-IsValid r p now bytes_in bytes_out v w.token n))
  ])
]

-- The walk from the end, with the pointers before it still to come.
clear_loop-IsValid :
    (r : Recorder) (before ps : List ℕ)
    → IsValid (record r { dumps = before ++ ps })
    → IsValid (record r {
      active = (clear_loop r.store r.active ps).0;
      dumps = before ++ (clear_loop r.store r.active ps).1;
    })
unfolding clear_loop remove
clear_loop-IsValid r before [] v = v
clear_loop-IsValid r before (p ∷ ps) v =
    let (active', rest) = clear_loop r.store r.active ps in
    let r' : Recorder = record r { active = active'; dumps = before ++ p ∷ rest } in
    let start =
      subst (λ l. IsValid (record r { dumps = l })) (sym (append_assoc before (p ∷ []) ps)) v in
    let later : IsValid r' =
      subst (λ l. IsValid (record r { active = active'; dumps = l }))
        (append_assoc before (p ∷ []) rest) (clear_loop-IsValid r (before ++ p ∷ []) ps start) in
    elim (Bool-cases (r.store p).pinned) [
      | inl h ↦ simp h later
      | inr h ↦ simp h (remove-IsValid r' before p rest refl later)
    ]

pub clear-IsValid : (r : Recorder) → IsValid r → IsValid (clear r)
unfolding clear
clear-IsValid r v = clear_loop-IsValid r [] r.dumps v

pub clear_all-IsValid : (r : Recorder) → IsValid r → IsValid (clear_all r)
unfolding clear_all
clear_all-IsValid r v = record {
  bounded = omega arith;
  allocated = tt;
  fits = tt;
  rising = omega arith;
  writers = λ t p w. absurd (ground arith);
  reachable = tt;
}
