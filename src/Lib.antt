-- ===== src/Lib.antt =====
-- Model and proofs of the forwarding proxy and of what configures it: the traffic recorder, the
-- detector engine, the rules with their connections, UDP sessions, configuration and failover, the
-- manager of the rules, the stored configuration, and the parts of the panel and of the scanner
-- that decide something.
--
-- A connection that a rule carries is written to the recorder (internal/proxy/dump.go), which
-- keeps the beginning of both directions for the newest connections and for those that are pinned.
-- The same bytes go as events into the detector engine (internal/proxy/detect.go): a bounded
-- queue, one worker that keeps a session per connection, and the findings that the sessions build.
-- A finding can pin the record of its connection. A rule is started only with a configuration that
-- passes its validation (internal/proxy/spec.go); the outcomes of probes and connections
-- (internal/proxy/health.go) decide whether its new connections go to the target or to the backup.
-- The manager (internal/proxy/manager.go) holds the rules, whose listeners must not take the same
-- port.
--
-- Recorder/Record has the records and what a write does to one (ConnDump, recordedConn, the locked
-- part of connWriter.Write); Recorder has the list of the records, the map of the open connections
-- and the operations on them (BeginProtocol, MarkFinding, SetPinned, Write, Finish, List, Get,
-- Clear, ClearAll); Recorder/Resize has Recorder.Resize, and Recorder/Search has Recorder.Search,
-- whose records are given as they are at each copy. Detect/Config has the configuration of the
-- detectors and compileDetector, Detect/Scope the part of a stream that a detector sees and its
-- match, Detect the state of the engine, its queue and addSignal, and Detect/Worker the worker
-- (run, inspectChunk, detectBurst). Spec has RuleSpec and its defaults, and Spec/Validate has
-- Validate, loopsToSelf and parseACL. Failover has the marks and streaks of the two endpoints,
-- noteEndpointProbe, decideFailoverLocked, setRoutingModeLocked and the part of updateLocked
-- (internal/proxy/manager.go) that stores a new configuration. Manager has
-- checkPortConflictLocked, addLocked up to the entry of the rule, NormalizeRuleSet and the loop of
-- ReplaceSpecs that enters a rule set. Rule has the state of a running rule and the steps of its
-- handlers (startLocked, stopLocked, the locked parts of handle, ResetStats), Rule/Handlers their
-- histories, and Rule/Pipe the loop of pipe. Udp has the sessions of a UDP rule and the steps of
-- its loops (internal/proxy/udp.go), and Udp/Loop their order. Manager/Update has updateLocked
-- with its rollback. Journal has the journal of events of a manager (internal/proxy/events.go).
-- Probe has the payload and the response of a probe (decodeHealthBytes, matchHealthResponse,
-- readHealthResponse). Config has the stored configuration and its setters, Config/Disk the save
-- as the states of the disk (internal/config/config.go). Web has applyDetectionConfig with
-- SetDetectionConfig (internal/proxy/manager.go) and the save of its notify (cmd/ctf-
-- proxyutils/main.go), and Web/Profile mergeProfileRules (internal/web/api.go). Scan/Ports has
-- ParsePorts (internal/scan/ports.go), and Scan/Run the scanner and its scan
-- (internal/scan/scan.go). Bytes has the byte strings and the hex codec, and Common the lists,
-- numbers and maps that all files share.
--
-- Records and findings are shared by pointer in the program, so they live in a store, a function
-- from numbers, and the lists and maps hold numbers. A mutex makes each operation one step. A stop
-- waits for the handlers of its connections: the wait is one step, in which each of them ends, and
-- what it holds at its end (its writer and its totals) is an argument; bytes that a handler would
-- still record between the stop and its end are not part of that step. The stop in Rule and
-- Manager/Update is that of TCP connections; Udp has the stop that closes the sessions of a UDP
-- rule. Go maps are functions, or the list of their entries where a loop visits them. A text that
-- is only compared is a native string, and one that is walked is a list of bytes. Times are
-- numbers of nanoseconds with 0 for the zero time, given as arguments. 64-bit counters wrap around
-- at 2 ^ 64; configuration fields of type int are integers.
--
-- What the program takes from the standard library and what depends on Unicode tables or the host
-- is a parameter: the record Text (TrimSpace, ToLower, Fields, utf8.Valid, QueryUnescape,
-- regexp.Compile), the record Net (ParseIP, ParseCIDR and the tests of addresses, InterfaceAddrs,
-- EqualFold, TrimSuffix) and net.SplitHostPort. The capacity of a slice that Resize reallocates is
-- an argument, and so are the compiled built-in detectors. The loop of Resize that evicts runs on
-- fuel, the number of records, which is enough: its outcome is never the one for fuel that has run
-- out.
--
-- Not modelled: network I/O, the contents of files other than whole, the JSON shape of the data,
-- the handlers of the web interface that only decode a request and call a component, the probes of
-- the scanner, and the wiring of the command but for what a change of the detectors saves.
pub mod Bytes
pub mod Common
pub mod Config
pub mod Detect
pub mod Failover
pub mod Journal
pub mod Manager
pub mod Probe
pub mod Recorder
pub mod Rule
pub mod Scan
pub mod Spec
pub mod Udp
pub mod Web
