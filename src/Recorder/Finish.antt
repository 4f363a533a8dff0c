-- ===== src/Recorder/Finish.antt =====
-- internal/proxy/dump.go: what the `Finish` of writers leaves alone in a recorder.
use ctf_proxy_utils.Common.{
  ℕ, ◌≡◌, refl, sym, ap, subst, ◌∙◌, inl, inr, true, false, none, List, [], ◌∷◌, arith, ◌==◌,
  Bool-cases, Option-cases, update, update_ne,
}
use ctf_proxy_utils.Recorder.Record.{RecordedConn}
use ctf_proxy_utils.Recorder.Invariant.{IsValid}
use ctf_proxy_utils.Recorder.Write.{finish-IsValid}
use ctf_proxy_utils.Recorder.Resize.{count_pinned}
use ctf_proxy_utils.Recorder.{Recorder, ConnWriter, modify, close_record, record_finish, finish}

-- A record without what `Finish` enters into it.
abbrev pub as_open : RecordedConn → RecordedConn
as_open d = record d {
  dump = record d.dump { closed = false; ended_at = 0; bytes_in = 0; bytes_out = 0 };
}

-- The second recorder holds the records of the first, under the same limits. A record differs at most
-- in what `Finish` enters, its end and its totals, and not even there if it was closed before.
pub record Finished (r r' : Recorder) : Type 0 where
  pub same_dumps : r'.dumps ≡ r.dumps
  pub same_conns : r'.max_conns ≡ r.max_conns
  pub same_bytes : r'.max_bytes_per ≡ r.max_bytes_per
  pub same_sequence : r'.sequence ≡ r.sequence
  pub same_content : (p : ℕ) → as_open (r'.store p) ≡ as_open (r.store p)
  pub stays_closed : (p : ℕ) → (r.store p).closed ≡ true → r'.store p ≡ r.store p
  pub stays_valid : IsValid r → IsValid r'

pub Finished-refl : (r : Recorder) → Finished r r
Finished-refl r = record {
  same_dumps = refl;
  same_conns = refl;
  same_bytes = refl;
  same_sequence = refl;
  same_content = λ p. refl;
  stays_closed = λ p h. refl;
  stays_valid = λ v. v;
}

pub Finished-trans : (r r' r'' : Recorder) → Finished r r' → Finished r' r'' → Finished r r''
Finished-trans r r' r'' f g = record {
  same_dumps = g.same_dumps ∙ f.same_dumps;
  same_conns = g.same_conns ∙ f.same_conns;
  same_bytes = g.same_bytes ∙ f.same_bytes;
  same_sequence = g.same_sequence ∙ f.same_sequence;
  same_content = λ p. g.same_content p ∙ f.same_content p;
  stays_closed = λ p h.
      let same = f.stays_closed p h in
      g.stays_closed p (ap (λ (d : RecordedConn). d.closed) same ∙ h) ∙ same;
  stays_valid = λ v. g.stays_valid (f.stays_valid v);
}

-- The store after the record of `p`, which was open, has been closed.
module _ (r : Recorder) (p now bytes_in bytes_out : ℕ) where
  abbrev closed_store : ℕ → RecordedConn
  closed_store = update r.store p (close_record now bytes_in bytes_out (r.store p))

  closed-content : (q : ℕ) → as_open (closed_store q) ≡ as_open (r.store q)
  closed-content q = elim (Bool-cases (q == p)) [
    | inl e ↦ let same : q ≡ p = ground arith in simp e (ap (λ x. as_open (r.store x)) (sym same))
    | inr e ↦ rw e refl
  ]

  closed-stays :
      (r.store p).closed ≡ false → (q : ℕ) → (r.store q).closed ≡ true → closed_store q ≡ r.store q
  closed-stays c q h =
      update_ne r.store p (close_record now bytes_in bytes_out (r.store p)) q
        (λ e. absurd (ground (arith, c, h, ap (λ x. (r.store x).closed) e)))

abbrev closed_recorder : Recorder → ℕ → ℕ → ℕ → ℕ → ℕ → Recorder
closed_recorder r p now bytes_in bytes_out t =
    record (modify p (close_record now bytes_in bytes_out) r) { active = update r.active t none }

pub finish-Finished :
    (w : ConnWriter) (now bytes_in bytes_out : ℕ) (r : Recorder)
    → Finished r (finish w now bytes_in bytes_out r).1
unfolding finish record_finish
finish-Finished w now bytes_in bytes_out r =
    let valid : (IsValid r → IsValid (finish w now bytes_in bytes_out r).1) =
      finish-IsValid w now bytes_in bytes_out r in
    elim (Bool-cases w.recording) [
      | inr off ↦ simp off (Finished-refl r)
      | inl on ↦ elim (Option-cases (r.active w.token)) [
        | inl n ↦ rw (on, n, record_finish) (Finished-refl r)
        | inr (p, n) ↦ elim (Bool-cases (r.store p).closed) [
          | inl c ↦ rw (on, n, record_finish) (simp c (Finished-refl r))
          | inr c ↦
              let same : (finish w now bytes_in bytes_out r).1
                  ≡ closed_recorder r p now bytes_in bytes_out w.token =
                rw (on, n, record_finish) (simp c refl) in
              subst (Finished r) (sym same) (record {
                same_dumps = refl;
                same_conns = refl;
                same_bytes = refl;
                same_sequence = refl;
                same_content = closed-content r p now bytes_in bytes_out;
                stays_closed = closed-stays r p now bytes_in bytes_out c;
                stays_valid = λ v. subst IsValid same (valid v);
              })
        ]
      ]
    ]

pub count_pinned-Finished :
    (r r' : Recorder)
    → Finished r r'
    → count_pinned r'.store r'.dumps ≡ count_pinned r.store r.dumps
unfolding count_pinned
count_pinned-Finished r r' f = ap (count_pinned r'.store) f.same_dumps ∙ over r.dumps
  where
    pin : (p : ℕ) → (r'.store p).pinned ≡ (r.store p).pinned
    pin p = ap (λ (d : RecordedConn). d.pinned) (f.same_content p)

    over : (ps : List ℕ) → count_pinned r'.store ps ≡ count_pinned r.store ps
    over [] = refl
    over (p ∷ ps) = rw (pin p, over ps) refl
