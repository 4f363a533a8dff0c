-- ===== src/Rule/Pipe.antt =====
-- internal/proxy/rule.go: the loop that carries one direction of a connection. What the two sockets
-- do is an argument: the reads of one, and for each read the results of the writes to the other.
use ctf_proxy_utils.Common.{
  ℕ, zero, suc, ◌+◌, ◌<◌, ◌≡◌, refl, sym, ap, subst, ◌∙◌, inl, inr, Bool, true, false, not, ◌||◌,
  List, [], ◌∷◌, ◌++◌, arith, ltb, ◌==◌, if◌then◌else◌, Bool-cases, length, take, drop, All,
  is_empty, length-append, take-append-drop, All-append,
}
use mathlib.Core.List.{append_assoc, append-nil}
use ctf_proxy_utils.Probe.{ReadEnd, goes_on, ended, failed}

-- The bytes that a write took, and whether it returned an error.
abbrev pub Written : Type 0
Written = ℕ × Bool

pub record Read : Type 0 where
  pub content : List ℕ
  pub state : ReadEnd
  pub writes : List Written

-- How a pipe ends, when it does: after the end of the stream it closes one half, after an error both.
pub data Closing : Type 0 where
  open_still half_closed both_closed : Closing

-- `pieces` are the arguments of the calls of the writer, in order, and `total` the result.
pub record Piped : Type 0 where
  pub pieces : List (List ℕ)
  pub total : ℕ
  pub closing : Closing

abbrev pub piped_nothing : Piped
piped_nothing = record { pieces = []; total = 0; closing = open_still }

abbrev pub carry : List ℕ → Piped → Piped
carry piece p = record p { pieces = p.pieces ++ piece ∷ []; total = p.total + length piece }

-- A write takes at most what it is given.
abbrev pub clip : ℕ → List ℕ → ℕ
clip n b = if ltb (length b) n then length b else n

-- The inner loop. Where the results stop the write has not returned.
unfoldable pub write_all : List ℕ → List Written → Piped → Piped × Bool
write_all [] writes p = (p, true)
write_all (x ∷ b) [] p = (p, false)
write_all (x ∷ b) ((n, err) ∷ writes) p =
    let n' = clip n (x ∷ b) in
    let p' = if ltb 0 n' then carry (take n' (x ∷ b)) p else p in
    let more = write_all (drop n' (x ∷ b)) writes p' in
    if err || n' == 0 then (record p' { closing = both_closed }, false) else more

abbrev pub close_by : ReadEnd → Piped → Piped
close_by goes_on p = p
close_by ended p = record p { closing = half_closed }
close_by failed p = record p { closing = both_closed }

abbrev is_over : ReadEnd → Bool
is_over goes_on = false
is_over ended = true
is_over failed = true

unfoldable pub pipe_from : List Read → Piped → Piped
pipe_from [] p = p
pipe_from (r ∷ rest) p =
    let (p', whole) = write_all r.content r.writes p in
    let more = pipe_from rest p' in
    if not whole then p' else if is_over r.state then close_by r.state p' else more

unfoldable pub pipe : List Read → Piped
pipe reads = pipe_from reads piped_nothing

abbrev pub joined : List (List ℕ) → List ℕ
joined [] = []
joined (b ∷ bs) = b ++ joined bs

abbrev pub all_read : List Read → List ℕ
all_read [] = []
all_read (r ∷ rest) = r.content ++ all_read rest

-- The reads up to the first that ends the stream or fails.
abbrev pub until_over : List Read → List ℕ
until_over [] = []
until_over (r ∷ rest) = if is_over r.state then r.content else r.content ++ until_over rest

-- What was carried is a beginning of what was read before the stream was over, in pieces that are
-- not empty, and `total` is its length.
pub record Carries (sent : List ℕ) (p : Piped) : Type 0 where
  pub later : List ℕ
  pub split : sent ≡ joined p.pieces ++ later
  pub counted : p.total ≡ length (joined p.pieces)
  pub filled : All (λ piece. is_empty piece ≡ false) p.pieces

joined_snoc : (bs : List (List ℕ)) (b : List ℕ) → joined (bs ++ b ∷ []) ≡ joined bs ++ b
joined_snoc [] b = append-nil b
joined_snoc (x ∷ bs) b =
    ap (λ (rest : List ℕ). x ++ rest) (joined_snoc bs b) ∙ sym (append_assoc x (joined bs) b)

-- A state of the loops: `sent` has come so far, and all of it but `rest` has been carried.
record Halfway (sent rest : List ℕ) (p : Piped) : Type 0 where
  halves : sent ≡ joined p.pieces ++ rest
  sum : p.total ≡ length (joined p.pieces)
  solid : All (λ piece. is_empty piece ≡ false) p.pieces

carry-Halfway :
    (sent b : List ℕ) (x n : ℕ) (p : Piped)
    → 0 < n
    → Halfway sent (x ∷ b) p
    → Halfway sent (drop n (x ∷ b)) (carry (take n (x ∷ b)) p)
carry-Halfway sent b x n p pos_n v = record {
  halves =
      v.halves
      ∙ ap (λ (l : List ℕ). joined p.pieces ++ l) (sym (take-append-drop n (x ∷ b)))
      ∙ sym (append_assoc (joined p.pieces) (take n (x ∷ b)) (drop n (x ∷ b)))
      ∙ ap (λ (l : List ℕ). l ++ drop n (x ∷ b)) (sym (joined_snoc p.pieces (take n (x ∷ b))));
  sum = omega (
    arith,
    v.sum,
    ap (λ (l : List ℕ). length l) (joined_snoc p.pieces (take n (x ∷ b))),
    length-append (joined p.pieces) (take n (x ∷ b)),
  );
  solid =
      All-append (λ piece. is_empty piece ≡ false) p.pieces (take n (x ∷ b) ∷ []) v.solid
        (some_taken n pos_n, tt);
}
  where
    some_taken : (n : ℕ) → 0 < n → is_empty (take n (x ∷ b)) ≡ false
    some_taken zero h = absurd (omega arith)
    some_taken (suc n) h = refl

-- The inner loop ends with everything carried exactly when it says so.
write_all-Halfway :
    (sent b : List ℕ) (writes : List Written) (p : Piped)
    → Halfway sent b p
    → (rest : List ℕ) × Halfway sent rest (write_all b writes p).0
      × ((write_all b writes p).1 ≡ true → rest ≡ [])
unfolding write_all
write_all-Halfway sent [] writes p v = ([], v, λ h. refl)
write_all-Halfway sent (x ∷ b) [] p v = (x ∷ b, v, λ h. absurd (cc))
write_all-Halfway sent (x ∷ b) ((n, err) ∷ writes) p v = elim (Bool-cases (err || n' == 0)) [
  | inl stops ↦
      simp stops (
        rest,
        record { halves = next.halves; sum = next.sum; solid = next.solid },
        λ h. absurd (cc),
      )
  | inr goes ↦ simp goes (
      write_all-Halfway sent (drop (clip n (x ∷ b)) (x ∷ b)) writes
        (if ltb 0 (clip n (x ∷ b)) then carry (take (clip n (x ∷ b)) (x ∷ b)) p else p) next)
]
  where
    n' : ℕ
    n' = clip n (x ∷ b)

    p' : Piped
    p' = if ltb 0 n' then carry (take n' (x ∷ b)) p else p

    rest : List ℕ
    rest = drop n' (x ∷ b)

    next : Halfway sent rest p'
    next = elim (Bool-cases (ltb 0 n')) [
      | inl k ↦ simp k (carry-Halfway sent b x n' p (ground arith) v)
      | inr k ↦ let nothing : n' ≡ 0 = ground arith in rw (k, nothing) v
    ]

abbrev pub is_half : Closing → Bool
is_half half_closed = true
is_half open_still = false
is_half both_closed = false

write_all-closing :
    (b : List ℕ) (writes : List Written) (p : Piped)
    → is_half p.closing ≡ false
    → is_half (write_all b writes p).0.closing ≡ false
unfolding write_all
write_all-closing [] writes p h = h
write_all-closing (x ∷ b) [] p h = h
write_all-closing (x ∷ b) ((n, err) ∷ writes) p h = ground (
  arith,
  h,
  write_all-closing (drop (clip n (x ∷ b)) (x ∷ b)) writes
      (if ltb 0 (clip n (x ∷ b)) then carry (take (clip n (x ∷ b)) (x ∷ b)) p else p),
)

-- What the pipe leaves, and that nothing is left behind one half that it closes.
record Ends (sent : List ℕ) (p : Piped) : Type 0 where
  left : List ℕ
  parts : sent ≡ joined p.pieces ++ left
  size : p.total ≡ length (joined p.pieces)
  whole : All (λ piece. is_empty piece ≡ false) p.pieces
  clean : is_half p.closing ≡ true → left ≡ []

abbrev tail_of : Read → List Read → List ℕ
tail_of r rest = if is_over r.state then [] else until_over rest

until_over_lem : (r : Read) (rest : List Read) → until_over (r ∷ rest) ≡ r.content ++ tail_of r rest
until_over_lem r rest = elim (Bool-cases (is_over r.state)) [
  | inl k ↦ rw k (sym (append-nil r.content))
  | inr k ↦ rw k refl
]

Halfway-Ends :
    (sent tail rest : List ℕ) (p : Piped)
    → (is_half p.closing ≡ true → rest ++ tail ≡ [])
    → Halfway sent rest p
    → Ends (sent ++ tail) p
Halfway-Ends sent tail rest p clean v = record {
  left = rest ++ tail;
  parts = ap (λ (l : List ℕ). l ++ tail) v.halves ∙ append_assoc (joined p.pieces) rest tail;
  size = v.sum;
  whole = v.solid;
  clean = clean;
}

pipe_from_step :
    (r : Read) (rest : List Read) (p : Piped)
    → pipe_from (r ∷ rest) p ≡ (
        if not (write_all r.content r.writes p).1
        then (write_all r.content r.writes p).0
        else if is_over r.state
        then close_by r.state (write_all r.content r.writes p).0
        else pipe_from rest (write_all r.content r.writes p).0)
unfolding pipe_from
pipe_from_step r rest p = refl

-- After a read that was carried whole.
state-Ends :
    (sent later : List ℕ) (q more : Piped) (s : ReadEnd)
    → Halfway sent [] q
    → Ends (sent ++ later) more
    → is_half q.closing ≡ false
    → Ends (sent ++ (if is_over s then [] else later)) (if is_over s then close_by s q else more)
state-Ends sent later q more goes_on v e h = e
state-Ends sent later q more ended v e h =
    Halfway-Ends sent [] [] (record q { closing = half_closed }) (λ k. refl)
      (record { halves = v.halves; sum = v.sum; solid = v.solid })
state-Ends sent later q more failed v e h =
    Halfway-Ends sent [] [] (record q { closing = both_closed }) (λ k. refl)
      (record { halves = v.halves; sum = v.sum; solid = v.solid })

pipe_from-Ends :
    (reads : List Read) (sent : List ℕ) (p : Piped)
    → is_half p.closing ≡ false
    → Halfway sent [] p
    → Ends (sent ++ until_over reads) (pipe_from reads p)
unfolding pipe_from
pipe_from-Ends [] sent p h v = Halfway-Ends sent [] [] p (λ k. refl) v
pipe_from-Ends (r ∷ rest) sent p h v =
    let start : Halfway (sent ++ r.content) r.content p = record {
      halves = ap (λ (l : List ℕ). l ++ r.content) (v.halves ∙ append-nil (joined p.pieces));
      sum = v.sum;
      solid = v.solid;
    } in
    let (rem, half, done) = write_all-Halfway (sent ++ r.content) r.content r.writes p start in
    let shut = write_all-closing r.content r.writes p h in
    rw (until_over_lem r rest) (
      subst (λ (l : List ℕ). Ends l (pipe_from (r ∷ rest) p))
        (append_assoc sent r.content (tail_of r rest))
        (elim (Bool-cases (write_all r.content r.writes p).1) [
          | inr stuck ↦ simp stuck (
              Halfway-Ends (sent ++ r.content) (tail_of r rest) rem
                (write_all r.content r.writes p).0 (λ k. absurd (ground (arith, k, shut))) half)
          | inl whole ↦
              let all : Halfway (sent ++ r.content) [] (write_all r.content r.writes p).0 =
                subst
                  (λ (l : List ℕ). Halfway (sent ++ r.content) l (write_all r.content r.writes p).0)
                  (done whole) half in
              simp whole (
                state-Ends (sent ++ r.content) (until_over rest) (write_all r.content r.writes p).0
                  (pipe_from rest (write_all r.content r.writes p).0) r.state all
                  (pipe_from-Ends rest (sent ++ r.content) (write_all r.content r.writes p).0 shut
                    all)
                  shut)
        ]))

nothing-Ends : (reads : List Read) → Ends (until_over reads) (pipe reads)
unfolding pipe
nothing-Ends reads =
    pipe_from-Ends reads [] piped_nothing refl (record { halves = refl; sum = refl; solid = tt })

-- Whatever the two sockets do, a pipe carries a beginning of what it has read, in order and in
-- pieces that are not empty, and its result is the number of bytes that it has carried.
pub pipe-Carries : (reads : List Read) → Carries (until_over reads) (pipe reads)
pipe-Carries reads =
    let ends = nothing-Ends reads in
    record { later = ends.left; split = ends.parts; counted = ends.size; filled = ends.whole }

-- A pipe that closes one half only has carried everything up to the end of the stream.
pub pipe_complete :
    (reads : List Read)
    → (pipe reads).closing ≡ half_closed
    → joined (pipe reads).pieces ≡ until_over reads
pipe_complete reads h =
    let ends = nothing-Ends reads in
    sym (
      ends.parts
      ∙ ap (λ (l : List ℕ). joined (pipe reads).pieces ++ l) (ends.clean (ap is_half h))
      ∙ append-nil (joined (pipe reads).pieces))
