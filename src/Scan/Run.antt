-- ===== src/Scan/Run.antt =====
-- internal/scan/scan.go: the state of the scanner, and a scan in the steps of its goroutines. How a
-- probe ends is an argument. The product of the numbers of hosts and ports is far below 2 ^ 63.
pub mod Progress
mod Tests
use ctf_proxy_utils.Common.{
  ℕ, zero, suc, ◌+◌, ◌-◌, ◌*◌, ◌/◌, ◌%◌, ◌^◌, ◌≤◌, ◌<◌, min, max, String, ◌≡◌, refl, sym, ap, subst,
  ◌∙◌, ◌≢◌, ◌↔◌, ◌⊎◌, inl, inr, Bool, true, false, not, ◌&&◌, ◌||◌, Option, none, some, List, [],
  ◌∷◌, ◌++◌, map, str_eq, eq_iff, arith, ltb, leb, ◌==◌, ==_iff, if◌then◌else◌, Bool-cases,
  Option-cases, length, take, drop, keep, All, get_elem?, is_empty, length-append, take-append-drop,
  length-take, length-drop, take_of_length-le, take-take, take-append, take-append_left,
  take-append_right, length-keep-le, All-append, All-map, All-both, All-keep, length-map, word64,
  add64, sub64, update, update_self, update_ne,
}
use ctf_proxy_utils.Common.Int.{ℤ, pos, pos_part}

pub record Options : Type 0 where
  pub cidr : String
  pub ports : String
  pub timeout_ms : ℤ
  pub concurrency : ℤ
  pub fingerprint : Bool

abbrev at_most : ℤ → ℕ → ℤ
at_most n d = if ltb d (pos_part n) then pos d else n

abbrev positive_or : ℤ → ℕ → ℤ
positive_or n d = if pos_part n == 0 then pos d else n

unfoldable pub scan_defaults : Options → Options
scan_defaults o = record o {
  timeout_ms = positive_or o.timeout_ms 500;
  concurrency = at_most (positive_or o.concurrency 256) 2048;
}

pub record PortResult : Type 0 where
  pub port : ℕ
  pub service : String
  pub banner : String

pub record Host : Type 0 where
  pub ip : String
  pub mac : String
  pub vendor : String
  pub hostname : String
  pub is_self : Bool
  pub open_ports : List PortResult
  pub reachable : Bool

abbrev pub new_host : String → Host
new_host ip = record {
  ip = ip;
  mac = "";
  vendor = "";
  hostname = "";
  is_self = false;
  open_ports = [];
  reachable = false;
}

abbrev pub Job : Type 0
Job = String × ℕ

-- `hosts` are the entries of the map, `pending` the probes that the loops have not come to, `flying`
-- those that have begun, and `slots` the capacity of the semaphore.
pub record Scanner : Type 0 where
  pub running : Bool
  pub cancelled : Bool
  pub total : ℕ
  pub done : ℕ
  pub scanned : String
  pub ports_spec : String
  pub started_at : ℕ
  pub finished : ℕ
  pub hosts : List Host
  pub pending : List Job
  pub flying : List Job
  pub slots : ℕ

abbrev pub new_scanner : Scanner
new_scanner = record {
  running = false;
  cancelled = false;
  total = 0;
  done = 0;
  scanned = "";
  ports_spec = "";
  started_at = 0;
  finished = 0;
  hosts = [];
  pending = [];
  flying = [];
  slots = 0;
}

unfoldable pub jobs_of : List String → List ℕ → List Job
jobs_of [] ports = []
jobs_of (ip ∷ ips) ports = map (λ p. (ip, p)) ports ++ jobs_of ips ports

-- `Start`; the addresses and the ports are the results of the two parsers. None is an error.
unfoldable pub start :
    ℕ → Options → Option (List String) → Option (List ℕ) → Scanner → Option Scanner
start now opts none ports s = none
start now opts (some ips) none s = none
start now opts (some ips) (some ports) s =
    if s.running
    then none
    else some (record {
      running = true;
      cancelled = false;
      total = length ips * length ports;
      done = 0;
      scanned = opts.cidr;
      ports_spec = opts.ports;
      started_at = now;
      finished = 0;
      hosts = [];
      pending = jobs_of ips ports;
      flying = [];
      slots = pos_part (scan_defaults opts).concurrency;
    })

-- A host that the map does not have is entered first.
unfoldable pub change_host : String → (Host → Host) → List Host → List Host
change_host ip f [] = f (new_host ip) ∷ []
change_host ip f (h ∷ hs) = if str_eq h.ip ip then f h ∷ hs else h ∷ change_host ip f hs

abbrev pub mark_reachable : Host → Host
mark_reachable h = record h { reachable = true }

abbrev pub add_port : PortResult → Host → Host
add_port res h = record h { reachable = true; open_ports = h.open_ports ++ res ∷ [] }

abbrev well_known : List (ℕ × String)
well_known =
    (21, "ftp")
    ∷ (22, "ssh")
    ∷ (23, "telnet")
    ∷ (25, "smtp")
    ∷ (53, "dns")
    ∷ (80, "http")
    ∷ (110, "pop3")
    ∷ (143, "imap")
    ∷ (443, "https")
    ∷ (445, "smb")
    ∷ (3306, "mysql")
    ∷ (3389, "rdp")
    ∷ (5432, "postgres")
    ∷ (5900, "vnc")
    ∷ (6379, "redis")
    ∷ (8080, "http")
    ∷ (8443, "https")
    ∷ (27017, "mongodb")
    ∷ []

abbrev service_in : ℕ → List (ℕ × String) → String
service_in port [] = ""
service_in port (e ∷ rest) = if e.0 == port then e.1 else service_in port rest

unfoldable pub guess_by_port : ℕ → String
guess_by_port port = service_in port well_known

-- How a probe ends: no answer, an active refusal, or a connection with what the fingerprint found.
pub data ProbeEnd : Type 0 where
  silent refused : ProbeEnd
  connected : String → String → ProbeEnd

unfoldable pub probe : Job → ProbeEnd → List Host → List Host
unfolding guess_by_port
probe j silent hosts = hosts
probe j refused hosts = change_host j.0 mark_reachable hosts
probe j (connected service banner) hosts =
    change_host j.0
      (add_port (record {
        port = j.1;
        service = if str_eq service "" then guess_by_port j.1 else service;
        banner = banner;
      }))
      hosts

-- What `enrich` finds about an address after the scan.
pub record Found : Type 0 where
  pub arp : String → Option (String × String)
  pub name : String → Option String
  pub self : String → Bool

unfoldable pub insert_port : PortResult → List PortResult → List PortResult
insert_port r [] = r ∷ []
insert_port r (x ∷ xs) = if leb r.port x.port then r ∷ x ∷ xs else x ∷ insert_port r xs

unfoldable pub sort_ports : List PortResult → List PortResult
sort_ports [] = []
sort_ports (r ∷ rs) = insert_port r (sort_ports rs)

unfoldable pub enrich_host : Found → Host → Host
unfolding sort_ports
enrich_host f h = record h {
  mac = elim (f.arp h.ip) [ none ↦ h.mac | some e ↦ e.0 ];
  vendor = elim (f.arp h.ip) [ none ↦ h.vendor | some e ↦ e.1 ];
  hostname = elim (f.name h.ip) [ none ↦ h.hostname | some n ↦ n ];
  is_self = h.is_self || f.self h.ip;
  open_ports = sort_ports h.open_ports;
}

abbrev pub launch_next : Scanner → List Job → Scanner
launch_next s [] = s
launch_next s (j ∷ rest) =
    if ltb (length s.flying) s.slots
    then record s { pending = rest; flying = s.flying ++ j ∷ [] }
    else s

-- The loop begins the next probe when the semaphore has a slot.
unfoldable pub launch : Scanner → Scanner
launch s = launch_next s s.pending

-- The loop sees that the scan is cancelled.
unfoldable pub give_up : Scanner → Scanner
give_up s = if s.cancelled then record s { pending = [] } else s

abbrev pub land_at : ℕ → ProbeEnd → Scanner → List Job → Scanner
land_at n e s [] = s
land_at n e s (j ∷ rest) = record s {
  flying = take n s.flying ++ rest;
  done = s.done + 1;
  hosts = probe j e s.hosts;
}

-- The n-th of the probes in flight ends.
unfoldable pub land : ℕ → ProbeEnd → Scanner → Scanner
land n e s = land_at n e s (drop n s.flying)

-- The end of `run`, behind `wg.Wait`.
unfoldable pub end_run : ℕ → Found → Scanner → Scanner
end_run now f s =
    if s.running && is_empty s.pending && is_empty s.flying
    then record s { hosts = map (enrich_host f) s.hosts; running = false; finished = now }
    else s

abbrev pub stop : Scanner → Scanner
stop s = if s.running then record s { cancelled = true } else s

pub data Tick : Type 0 where
  begins : ℕ → Options → Option (List String) → Option (List ℕ) → Tick
  launches gives_up stops : Tick
  lands : ℕ → ProbeEnd → Tick
  ends : ℕ → Found → Tick

abbrev pub or_same : Scanner → Option Scanner → Scanner
or_same s none = s
or_same s (some s') = s'

unfoldable pub tick : Scanner → Tick → Scanner
unfolding start launch give_up land end_run
tick s (begins now opts ips ports) = or_same s (start now opts ips ports s)
tick s launches = launch s
tick s gives_up = give_up s
tick s stops = stop s
tick s (lands n e) = land n e s
tick s (ends now f) = end_run now f s

unfoldable pub ticks : Scanner → List Tick → Scanner
unfolding tick
ticks s [] = s
ticks s (t ∷ rest) = ticks (tick s t) rest
