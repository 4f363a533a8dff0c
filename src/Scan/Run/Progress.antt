-- ===== src/Scan/Run/Progress.antt =====
-- The progress of a scan, whatever the order of its goroutines.
use ctf_proxy_utils.Common.{
  ℕ, ◌+◌, ◌*◌, ◌≤◌, String, ◌≡◌, refl, ap, ◌≢◌, inl, inr, true, false, ◌&&◌, Option, none, some,
  List, [], ◌∷◌, ◌++◌, map, arith, ltb, Bool-cases, length, take, drop, is_empty, length-append,
  take-append-drop, length-map,
}
use ctf_proxy_utils.Scan.Run.{
  Options, Job, Scanner, jobs_of, start, ProbeEnd, Found, launch_next, launch, give_up, land_at,
  land, end_run, stop, Tick, begins, launches, gives_up, stops, lands, ends, or_same, tick, ticks,
}

-- What is done, in flight and to come is the whole, until the scan is cancelled; no more probes are in
-- flight than there are slots; and a scanner that is not running has nothing to come.
pub record IsOnTrack (s : Scanner) : Type 0 where
  pub whole : s.cancelled ≡ false → s.done + length s.flying + length s.pending ≡ s.total
  pub bounded : s.done + length s.flying + length s.pending ≤ s.total
  pub in_slots : length s.flying ≤ s.slots
  pub at_rest : s.running ≡ false → (s.flying ≡ []) × (s.pending ≡ [])

length-jobs_of :
    (ips : List String) (ports : List ℕ) → length (jobs_of ips ports) ≡ length ips * length ports
unfolding jobs_of
length-jobs_of [] ports = omega arith
length-jobs_of (ip ∷ ips) ports =
    let own = length-map {B = Job} ports (λ p. (ip, p)) in
    let both = length-append (map (λ p. (ip, p)) ports) (jobs_of ips ports) in
    let rest = length-jobs_of ips ports in grind (arith, own, both, rest)

start-IsOnTrack :
    (now : ℕ) (opts : Options) (ips : Option (List String)) (ports : Option (List ℕ)) (s : Scanner)
    → IsOnTrack s
    → IsOnTrack (or_same s (start now opts ips ports s))
unfolding start
start-IsOnTrack now opts none ports s v = v
start-IsOnTrack now opts (some ips) none s v = v
start-IsOnTrack now opts (some ips) (some ports) s v = elim (Bool-cases s.running) [
  | inl busy ↦ simp busy v
  | inr idle ↦
      let all = length-jobs_of ips ports in
      simp idle (record {
        whole = λ k. omega (arith, all);
        bounded = omega (arith, all);
        in_slots = omega arith;
        at_rest = λ k. absurd (ground (arith, k));
      })
]

launch-IsOnTrack : (s : Scanner) → IsOnTrack s → IsOnTrack (launch s)
unfolding launch
launch-IsOnTrack s v = of_pending s.pending refl
  where
    of_pending : (l : List Job) → s.pending ≡ l → IsOnTrack (launch_next s l)
    of_pending [] e = v
    of_pending (j ∷ rest) e =
        let longer = length-append s.flying (j ∷ []) in
        let here = ap (λ (l : List Job). length l) e in
        elim (Bool-cases (ltb (length s.flying) s.slots)) [
          | inr full ↦ simp full v
          | inl free ↦ simp free (record {
            whole = λ k. omega (arith, v.whole k, longer, here);
            bounded = omega (arith, v.bounded, longer, here);
            in_slots = ground (arith, longer, free);
            at_rest = λ k. absurd (ground (arith, (v.at_rest k).1, e));
          })
        ]

land-IsOnTrack : (n : ℕ) (e : ProbeEnd) (s : Scanner) → IsOnTrack s → IsOnTrack (land n e s)
unfolding land
land-IsOnTrack n e s v = of_rest (drop n s.flying) refl
  where
    nothing_there : (m : ℕ) → s.running ≡ false → m + 1 ≢ length s.flying
    nothing_there m off h =
        let none_flying = ap (λ (l : List Job). length l) (v.at_rest off).0 in
        omega (arith, h, none_flying)

    of_rest : (l : List Job) → drop n s.flying ≡ l → IsOnTrack (land_at n e s l)
    of_rest [] k = v
    of_rest (j ∷ rest) k =
        let cut = ap (λ (l : List Job). length l) (take-append-drop n s.flying) in
        let both = length-append (take n s.flying) (drop n s.flying) in
        let tail = ap (λ (l : List Job). length l) k in
        let kept = length-append (take n s.flying) rest in
        let one_less : length (take n s.flying ++ rest) + 1 ≡ length s.flying =
          omega (arith, cut, both, tail, kept) in
        (record {
          whole = λ c. omega (arith, v.whole c, one_less);
          bounded = omega (arith, v.bounded, one_less);
          in_slots = omega (arith, v.in_slots, one_less);
          at_rest = λ off. absurd (nothing_there (length (take n s.flying ++ rest)) off one_less);
        })

give_up-IsOnTrack : (s : Scanner) → IsOnTrack s → IsOnTrack (give_up s)
unfolding give_up
give_up-IsOnTrack s v = elim (Bool-cases s.cancelled) [
  | inr on ↦ simp on v
  | inl off ↦ simp off (record {
    whole = λ k. absurd (ground (arith, k, off));
    bounded = omega (arith, v.bounded);
    in_slots = v.in_slots;
    at_rest = λ k. ((v.at_rest k).0, refl);
  })
]

end_run-IsOnTrack : (now : ℕ) (f : Found) (s : Scanner) → IsOnTrack s → IsOnTrack (end_run now f s)
unfolding end_run
end_run-IsOnTrack now f s v =
    elim (Bool-cases (s.running && is_empty s.pending && is_empty s.flying)) [
      | inr later ↦ simp later v
      | inl over ↦ simp over (record {
        whole = v.whole;
        bounded = v.bounded;
        in_slots = v.in_slots;
        at_rest = λ k.
            (nothing s.flying (ground (arith, over)), nothing s.pending (ground (arith, over)));
      })
    ]
  where
    nothing : (l : List Job) → is_empty l ≡ true → l ≡ []
    nothing [] h = refl
    nothing (x ∷ xs) h = absurd (ground (arith, h))

stop-IsOnTrack : (s : Scanner) → IsOnTrack s → IsOnTrack (stop s)
stop-IsOnTrack s v = elim (Bool-cases s.running) [
  | inr off ↦ simp off v
  | inl on ↦ simp on (record {
    whole = λ k. absurd (ground (arith, k));
    bounded = v.bounded;
    in_slots = v.in_slots;
    at_rest = λ k. absurd (ground (arith, k, on));
  })
]

tick-IsOnTrack : (s : Scanner) (t : Tick) → IsOnTrack s → IsOnTrack (tick s t)
unfolding tick
tick-IsOnTrack s (begins now opts ips ports) v = start-IsOnTrack now opts ips ports s v
tick-IsOnTrack s launches v = launch-IsOnTrack s v
tick-IsOnTrack s gives_up v = give_up-IsOnTrack s v
tick-IsOnTrack s stops v = stop-IsOnTrack s v
tick-IsOnTrack s (lands n e) v = land-IsOnTrack n e s v
tick-IsOnTrack s (ends now f) v = end_run-IsOnTrack now f s v

-- Whatever the order of its goroutines and of the calls of the panel: the probes that are done, in
-- flight and to come are never more than the total, and exactly the total while the scan is not
-- cancelled; no more are in flight than there are slots; and a scanner that is not running has none
-- in flight and none to come.
pub ticks-IsOnTrack : (ts : List Tick) (s : Scanner) → IsOnTrack s → IsOnTrack (ticks s ts)
unfolding ticks
ticks-IsOnTrack [] s v = v
ticks-IsOnTrack (t ∷ rest) s v = ticks-IsOnTrack rest (tick s t) (tick-IsOnTrack s t v)
