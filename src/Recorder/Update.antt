-- ===== src/Recorder/Update.antt =====
-- The operations that change records in place keep the invariant of the recorder.
use ctf_proxy_utils.Common.{
  ℕ, ◌≡◌, refl, sym, ◌∙◌, inl, inr, Bool, some, List, [], ◌∷◌, arith, ◌==◌, Bool-cases,
  Option-cases, All-map, update,
}
use ctf_proxy_utils.Recorder.Record.{RecordedConn}
use ctf_proxy_utils.Recorder.Pointers.{Held, All-Held, Held-All, Rising-same}
use ctf_proxy_utils.Recorder.Limits.{Fits}
use ctf_proxy_utils.Recorder.{
  Recorder, modify, mark_record, pin_record, mark_finding, set_pinned, find_id,
}
use ctf_proxy_utils.Recorder.Invariant.{IsValid}

-- A change of one listed record that keeps its token and stays open or closed.
pub modify-IsValid :
    (r : Recorder) (p : ℕ) (f : RecordedConn → RecordedConn)
    → Held p r.dumps
    → (f (r.store p)).token ≡ (r.store p).token
    → (f (r.store p)).closed ≡ (r.store p).closed
    → Fits r.max_bytes_per (f (r.store p))
    → IsValid r
    → IsValid (modify p f r)
modify-IsValid r p f held token closed fits v = record {
  bounded = v.bounded;
  allocated = v.allocated;
  fits = All-map (λ q k. at (Fits r.max_bytes_per) q fits k) r.dumps v.fits;
  rising =
      Rising-same r.store store' 0 r.dumps r.sequence (Held-All _ r.dumps (λ q h. same_token q))
        v.rising;
  writers = λ t q w.
      let old = v.writers t q w in
      record {
        listed = old.listed;
        own = same_token q ∙ old.own;
        is_open = same_closed q ∙ old.is_open;
      };
  reachable =
      All-map (λ q k c. rw (same_token q) (k (sym (same_closed q) ∙ c))) r.dumps v.reachable;
}
  where
    store' : ℕ → RecordedConn
    store' = update r.store p (f (r.store p))

    same_token : (q : ℕ) → (store' q).token ≡ (r.store q).token
    same_token q = ground arith

    same_closed : (q : ℕ) → (store' q).closed ≡ (r.store q).closed
    same_closed q = ground arith

    at : (P : RecordedConn → Type 0) (q : ℕ) → P (f (r.store p)) → P (r.store q) → P (store' q)
    at P q new old = elim (Bool-cases (q == p)) [ inl e ↦ rw e new | inr e ↦ rw e old ]

pub find_id-Held :
    (id : ℕ) (store : ℕ → RecordedConn) (ps : List ℕ) (p : ℕ)
    → find_id id store ps ≡ some p
    → Held p ps
unfolding find_id
find_id-Held id store [] p e = absurd (cc)
find_id-Held id store (q ∷ ps) p e = elim (Bool-cases ((store q).id == id)) [
  | inl h ↦ inl (ground arith)
  | inr h ↦ inr (find_id-Held id store ps p (ground arith))
]

pub Held-Fits :
    (r : Recorder) (p : ℕ) → IsValid r → Held p r.dumps → Fits r.max_bytes_per (r.store p)
Held-Fits r p v h = All-Held (λ q. Fits r.max_bytes_per (r.store q)) p r.dumps v.fits h

pub same-Fits :
    (max_bytes : ℕ) (d d' : RecordedConn)
    → d'.chunks ≡ d.chunks
    → d'.written_in ≡ d.written_in
    → d'.written_out ≡ d.written_out
    → Fits max_bytes d
    → Fits max_bytes d'
same-Fits max_bytes d d' e i o v = record {
  counted_in = record { size = rw (e, i) (v.counted_in.size); within = rw i (v.counted_in.within) };
  counted_out = record {
    size = rw (e, o) (v.counted_out.size);
    within = rw o (v.counted_out.within);
  };
  few = rw e (v.few);
  known = rw e (v.known);
}

pub mark_finding-IsValid :
    (id score : ℕ) (pin : Bool) (r r' : Recorder)
    → mark_finding id score pin r ≡ some r'
    → IsValid r
    → IsValid r'
unfolding mark_finding mark_record
mark_finding-IsValid id score pin r r' e v = elim (Option-cases (find_id id r.store r.dumps)) [
  | inl n ↦ absurd (ground arith)
  | inr (p, n) ↦
      let same : r' ≡ modify p (mark_record score pin) r = ground arith in
      let held = find_id-Held id r.store r.dumps p n in
      rw same (
        modify-IsValid r p (mark_record score pin) held refl refl
          (same-Fits r.max_bytes_per (r.store p) (mark_record score pin (r.store p)) refl refl refl
            (Held-Fits r p v held))
          v)
]

pub set_pinned-IsValid :
    (id : ℕ) (pinned : Bool) (r r' : Recorder)
    → set_pinned id pinned r ≡ some r'
    → IsValid r
    → IsValid r'
unfolding set_pinned
set_pinned-IsValid id pinned r r' e v = elim (Option-cases (find_id id r.store r.dumps)) [
  | inl n ↦ absurd (ground arith)
  | inr (p, n) ↦
      let same : r' ≡ modify p (pin_record pinned) r = ground arith in
      let held = find_id-Held id r.store r.dumps p n in
      rw same (
        modify-IsValid r p (pin_record pinned) held refl refl
          (same-Fits r.max_bytes_per (r.store p) (pin_record pinned (r.store p)) refl refl refl
            (Held-Fits r p v held))
          v)
]
