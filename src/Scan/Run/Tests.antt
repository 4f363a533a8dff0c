-- ===== src/Scan/Run/Tests.antt =====
-- Tests of the scanner, and its theorem at a concrete scan.
use ctf_proxy_utils.Common.{◌≡◌, refl, false, some, List, [], ◌∷◌, map, arith}
use ctf_proxy_utils.Common.Int.{pos}
use ctf_proxy_utils.Scan.Run.{
  Options, scan_defaults, Host, new_scanner, jobs_of, start, change_host, refused, connected,
  guess_by_port, probe, launch, give_up, land, end_run, Tick, begins, launches, lands, tick, ticks,
}
use ctf_proxy_utils.Scan.Run.Progress.{IsOnTrack, ticks-IsOnTrack}

program : Unit {0}
unfolding scan_defaults jobs_of start change_host guess_by_port probe launch give_up land end_run
    tick ticks
program = tt

abbrev two_at_once : Options
two_at_once = record {
  cidr = "10.0.0.1";
  ports = "22,80";
  timeout_ms = pos 0;
  concurrency = pos 2;
  fingerprint = false;
}

-- The second probe ends before the first.
abbrev history : List Tick
history =
    begins 1 two_at_once (some ("10.0.0.1" ∷ [])) (some (22 ∷ 80 ∷ []))
    ∷ launches
    ∷ launches
    ∷ lands 1 (connected "" "")
    ∷ lands 0 refused
    ∷ []

ticks-IsOnTrack_example : IsOnTrack (ticks new_scanner history)
ticks-IsOnTrack_example = ticks-IsOnTrack history new_scanner (record {
  whole = λ k. refl;
  bounded = omega arith;
  in_slots = omega arith;
  at_rest = λ k. (refl, refl);
})

all_done : (ticks new_scanner history).done ≡ 2
unfolding program
all_done = refl

found_http :
    map (λ (h : Host). h.open_ports) (ticks new_scanner history).hosts
    ≡ (record { port = 80; service = "http"; banner = "" } ∷ []) ∷ []
unfolding program
found_http = refl
