-- ===== src/Failover/Marks.antt =====
-- The up mark of an endpoint, as a function of the outcomes of its probes.
use ctf_proxy_utils.Common.{
  ℕ, suc, ◌≤◌, min, ◌≡◌, refl, Bool, true, false, List, [], ◌∷◌, arith, leb, if◌then◌else◌,
}
use ctf_proxy_utils.Failover.{Streaks, all_up, note_outcome}

-- The newest outcome stands first.
abbrev pub after : ℕ → ℕ → List Bool → Streaks
after fail_after rise_after [] = all_up
after fail_after rise_after (ok ∷ older) =
    note_outcome fail_after rise_after ok (after fail_after rise_after older)

-- How often the same outcome has come last.
abbrev pub last_failures : List Bool → ℕ
last_failures [] = 0
last_failures (true ∷ older) = 0
last_failures (false ∷ older) = suc (last_failures older)

abbrev pub last_successes : List Bool → ℕ
last_successes [] = 0
last_successes (true ∷ older) = suc (last_successes older)
last_successes (false ∷ older) = 0

-- Up after enough successes, down after enough failures, and as before in between.
abbrev pub is_up : ℕ → ℕ → List Bool → Bool
is_up fail_after rise_after [] = true
is_up fail_after rise_after (ok ∷ older) =
    if leb rise_after (last_successes (ok ∷ older))
    then true
    else if leb fail_after (last_failures (ok ∷ older))
    then false
    else is_up fail_after rise_after older

pub record Follows (fail_after rise_after : ℕ) (outcomes : List Bool) (s : Streaks) : Type 0 where
  pub mark : s.up ≡ is_up fail_after rise_after outcomes
  pub failures : s.failed ≡ min fail_after (last_failures outcomes)
  pub successes : s.risen ≡ min rise_after (last_successes outcomes)

-- With positive thresholds an endpoint is marked up when the last outcomes, as many as the threshold
-- for rising, are successes; down when as many as the threshold for failing are failures; and keeps
-- its mark otherwise. The two streaks count the last outcomes up to the thresholds.
pub after-Follows :
    (fail_after rise_after : ℕ) (outcomes : List Bool)
    → 1 ≤ fail_after
    → 1 ≤ rise_after
    → Follows fail_after rise_after outcomes (after fail_after rise_after outcomes)
unfolding note_outcome
after-Follows f r [] hf hr = record { mark = refl; failures = omega arith; successes = omega arith }
after-Follows f r (true ∷ older) hf hr =
    let before = after-Follows f r older hf hr in
    record {
      mark = ground (arith, before.mark, before.successes);
      failures = omega arith;
      successes = ground (arith, before.successes);
    }
after-Follows f r (false ∷ older) hf hr =
    let before = after-Follows f r older hf hr in
    record {
      mark = ground (arith, before.mark, before.failures);
      failures = ground (arith, before.failures);
      successes = omega arith;
    }
