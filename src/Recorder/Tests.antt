-- ===== src/Recorder/Tests.antt =====
-- Tests of the recorder, and its theorems at concrete inputs.
use ctf_proxy_utils.Common.{
  ◌≡◌, refl, inl, inr, true, false, none, some, List, [], ◌∷◌, arith, keep,
}
use ctf_proxy_utils.Common.Int.{pos}
use ctf_proxy_utils.Bytes.{Text, contains, index, has_prefix}
use ctf_proxy_utils.Recorder.Record.{
  RecordedConn, capture, dir_in, dir_out, stream, count_bytes, mark_truncated, append_bytes,
  add_chunk, store_chunks, extend_last, clone_dump,
}
use ctf_proxy_utils.Recorder.Capture.{Tracks}
use ctf_proxy_utils.Recorder.Stream.{Sent, captures, captures-Tracks}
use ctf_proxy_utils.Recorder.Invariant.{IsValid}
use ctf_proxy_utils.Recorder.History.{Call, begins, writes, pins, step, run, run-new-IsValid}
use ctf_proxy_utils.Recorder.Pins.{Stays, begin_protocol-Stays, clear_releases}
use ctf_proxy_utils.Recorder.Resize.{resize, count_pinned}
use ctf_proxy_utils.Recorder.Resize.Laws.{Outcome, resize-Outcome}
use ctf_proxy_utils.Recorder.Search.{
  DumpQuery, DumpPage, IsPage, search, search-IsPage, check_query, collect, page_limit,
  search_direction, matcher, passes_filters, dump_matches, stream_matches,
}
use ctf_proxy_utils.Recorder.{
  Recorder, new_recorder, positive_or, begin_protocol, begin_rest, push_record, drop_same_id,
  make_room, take_out, remove, evict_oldest_unpinned, write, record_write, set_pinned, find_id,
  writer_of, clear, clear_loop, fresh_record,
}

abbrev pub blank : RecordedConn
blank = fresh_record 0 0 0 [] "" ""

program : Unit {0}
unfolding new_recorder positive_or begin_protocol begin_rest push_record drop_same_id make_room
    take_out remove evict_oldest_unpinned write record_write set_pinned find_id step run capture
    count_bytes mark_truncated append_bytes add_chunk store_chunks extend_last clear clear_loop
    count_pinned
program = tt

-- Two connections in two slots, with a pin on the older one.
abbrev calls : List Call
calls =
    begins 5 7 (1 ∷ 2 ∷ []) "a:1" "tcp"
    ∷ writes (some (writer_of 1)) 6 dir_in (10 ∷ 20 ∷ 30 ∷ []) false
    ∷ begins 8 9 (3 ∷ []) "a:1" "tcp"
    ∷ pins 7 true
    ∷ []

abbrev two_records : Recorder
unfolding program
two_records = run (new_recorder (λ _. blank) (pos 2) (pos 8)) calls

two_records-IsValid : IsValid two_records
unfolding program
two_records-IsValid = run-new-IsValid (λ _. blank) (pos 2) (pos 8) calls (omega arith)

two_records_listed : two_records.dumps ≡ 0 ∷ 1 ∷ []
unfolding program
two_records_listed = refl

run-new-IsValid_example : IsValid (run (new_recorder (λ _. blank) (pos 2) (pos 8)) calls)
run-new-IsValid_example = run-new-IsValid (λ _. blank) (pos 2) (pos 8) calls (omega arith)

-- The third connection takes the slot of the second: the first is pinned.
begin_protocol-Stays_example :
    Stays two_records (begin_protocol 9 11 [] "b:2" "tcp" two_records).0 0
unfolding program
begin_protocol-Stays_example =
    begin_protocol-Stays 9 11 [] "b:2" "tcp" two_records 0 two_records-IsValid (inl refl) refl

third_listed : (begin_protocol 9 11 [] "b:2" "tcp" two_records).0.dumps ≡ 0 ∷ 2 ∷ []
unfolding program
third_listed = refl

clear_releases_example :
    ((clear two_records).dumps ≡ keep (λ q. (two_records.store q).pinned) two_records.dumps)
    × ((clear two_records).store ≡ two_records.store)
    × (record_write (writer_of 2) 9 dir_in (1 ∷ []) false (clear two_records) ≡ clear two_records)
unfolding program
clear_releases_example =
    clear_releases two_records 1 9 dir_in (1 ∷ []) false (writer_of 2) two_records-IsValid
      (inr (inl refl)) refl refl

abbrev sends : List Sent
sends =
    record { at = 1; dir = dir_in; content = 1 ∷ 2 ∷ []; datagram = false }
    ∷ record { at = 2; dir = dir_out; content = 3 ∷ []; datagram = false }
    ∷ record { at = 3; dir = dir_in; content = 4 ∷ 5 ∷ 6 ∷ []; datagram = true }
    ∷ []

captures-Tracks_example :
    Tracks 4 dir_in (1 ∷ 2 ∷ 4 ∷ 5 ∷ 6 ∷ []) (captures 4 (fresh_record 0 1 7 [] "a:1" "tcp") sends)
captures-Tracks_example =
    captures-Tracks 4 0 1 7 [] "a:1" "tcp" dir_in sends (inl refl)
      (inl refl, (inr refl, (inl refl, tt)))

captures_cut :
    stream dir_in (captures 4 (fresh_record 0 1 7 [] "a:1" "tcp") sends).chunks ≡ 1 ∷ 2 ∷ 4 ∷ 5 ∷ []
unfolding captures capture count_bytes mark_truncated append_bytes add_chunk store_chunks
    extend_last
captures_cut = refl

resize-Outcome_example : Outcome 1 2 two_records (resize 4 (pos 1) (pos 2) two_records)
resize-Outcome_example = resize-Outcome 4 (pos 1) (pos 2) two_records two_records-IsValid

-- A text library that treats bytes as they are.
abbrev plain : Text
plain = record {
  trim_space = λ s. s;
  to_lower = λ s. s;
  fields = λ s. s ∷ [];
  is_utf8 = λ s. true;
  query_unescape = λ s. some s;
  compile = λ s. none;
}

abbrev any_query : DumpQuery
any_query = record {
  query = 20 ∷ [];
  mode = "text";
  direction = "in";
  remote = [];
  since = 0;
  until = 0;
  pinned_only = false;
  offset = pos 0;
  limit = pos 0;
}

abbrev found_page : DumpPage
unfolding program clone_dump
found_page = record { items = clone_dump (two_records.store 0).dump false ∷ []; total = 1 }

search_program : Unit {0}
unfolding program search check_query collect page_limit search_direction matcher passes_filters
    dump_matches stream_matches contains index has_prefix clone_dump
search_program = tt

search-IsPage_example :
    IsPage plain any_query two_records two_records.store two_records.store found_page
unfolding search_program
search-IsPage_example =
    search-IsPage plain any_query two_records two_records.store two_records.store found_page refl
