-- ===== src/Journal/Tests.antt =====
-- Tests of the journal, and its theorem at concrete reports.
use ctf_proxy_utils.Common.{◌≡◌, refl, List, [], ◌∷◌, map, arith, take}
use ctf_proxy_utils.Journal.{
  Event, Report, add, add_all, backwards, events, events-add_all, max_events, numbered,
}

abbrev reports : List Report
reports =
    record { at = 9; rule_id = "r1"; rule_name = "web"; kind = "stopped"; message = "" }
    ∷ record { at = 5; rule_id = "r1"; rule_name = "web"; kind = "started"; message = "" }
    ∷ []

events-add_all_example : events (add_all reports) ≡ take max_events (numbered reports)
events-add_all_example = events-add_all reports (omega arith)

newest_first : map (λ (e : Event). e.id) (events (add_all reports)) ≡ 2 ∷ 1 ∷ []
unfolding events backwards add
newest_first = refl
