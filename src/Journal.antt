-- ===== src/Journal.antt =====
-- internal/proxy/events.go: the journal of events, which keeps the newest 200.
mod Tests
use ctf_proxy_utils.Common.{
  ℕ, zero, suc, ◌+◌, ◌-◌, ◌*◌, ◌/◌, ◌%◌, ◌^◌, ◌≤◌, ◌<◌, min, max, String, ◌≡◌, refl, sym, ap, subst,
  ◌∙◌, ◌≢◌, ◌↔◌, ◌⊎◌, inl, inr, Bool, true, false, not, ◌&&◌, ◌||◌, Option, none, some, List, [],
  ◌∷◌, ◌++◌, map, str_eq, eq_iff, arith, ltb, leb, ◌==◌, ==_iff, if◌then◌else◌, Bool-cases,
  Option-cases, length, take, drop, keep, All, get_elem?, is_empty, length-append, take-append-drop,
  length-take, length-drop, take_of_length-le, take-take, take-append, take-append_left,
  take-append_right, length-keep-le, All-append, All-map, All-both, All-keep, length-map, word64,
  add64, sub64, update, update_self, update_ne,
}
use mathlib.Core.List.{append_assoc, append-nil}

abbrev pub max_events : ℕ
max_events = 200

pub record Event : Type 0 where
  pub id : ℕ
  pub at : ℕ
  pub rule_id : String
  pub rule_name : String
  pub kind : String
  pub message : String

pub record EventJournal : Type 0 where
  pub seq : ℕ
  pub entries : List Event

abbrev pub empty_journal : EventJournal
empty_journal = record { seq = 0; entries = [] }

-- A full journal moves its entries down by one and overwrites the last.
unfoldable pub add : ℕ → String → String → String → String → EventJournal → EventJournal
add now rule_id rule_name kind message j =
    let seq = add64 j.seq 1 in
    let event : Event = record {
      id = seq;
      at = now;
      rule_id = rule_id;
      rule_name = rule_name;
      kind = kind;
      message = message;
    } in
    record {
      seq = seq;
      entries =
          if length j.entries == max_events
          then drop 1 j.entries ++ event ∷ []
          else j.entries ++ event ∷ [];
    }

-- The loop of `Events`, from the oldest entry on.
unfoldable pub backwards : List Event → List Event → List Event
backwards [] done = done
backwards (e ∷ rest) done = backwards rest (e ∷ done)

-- The snapshot, newest first.
unfoldable pub events : EventJournal → List Event
events j = backwards j.entries []

-- An event as it is reported.
pub record Report : Type 0 where
  pub at : ℕ
  pub rule_id : String
  pub rule_name : String
  pub kind : String
  pub message : String

abbrev pub add_report : Report → EventJournal → EventJournal
add_report r j = add r.at r.rule_id r.rule_name r.kind r.message j

-- The newest report stands first in the list.
abbrev pub add_all : List Report → EventJournal
add_all [] = empty_journal
add_all (r ∷ older) = add_report r (add_all older)

abbrev pub event_at : ℕ → Report → Event
event_at id r = record {
  id = id;
  at = r.at;
  rule_id = r.rule_id;
  rule_name = r.rule_name;
  kind = r.kind;
  message = r.message;
}

-- What the snapshot should be: each report with its number.
abbrev pub numbered : List Report → List Event
numbered [] = []
numbered (r ∷ older) = event_at (suc (length older)) r ∷ numbered older

backwards_snoc :
    (es done : List Event) (e : Event) → backwards (es ++ e ∷ []) done ≡ e ∷ backwards es done
unfolding backwards
backwards_snoc [] done e = refl
backwards_snoc (x ∷ es) done e = backwards_snoc es (x ∷ done) e

backwards_onto : (es done : List Event) → backwards es done ≡ backwards es [] ++ done
unfolding backwards
backwards_onto [] done = refl
backwards_onto (x ∷ es) done =
    backwards_onto es (x ∷ done)
    ∙ sym (append_assoc (backwards es []) (x ∷ []) done)
    ∙ ap (λ (l : List Event). l ++ done) (sym (backwards_onto es (x ∷ [])))

length-backwards : (es done : List Event) → length (backwards es done) ≡ length es + length done
unfolding backwards
length-backwards [] done = omega arith
length-backwards (x ∷ es) done = omega (arith, length-backwards es (x ∷ done))

-- Leaving the oldest out is taking one less.
backwards-drop :
    (es : List Event) → backwards (drop 1 es) [] ≡ take (length es - 1) (backwards es [])
unfolding backwards
backwards-drop [] = refl
backwards-drop (x ∷ es) = sym (
    ap (λ (l : List Event). take (length (x ∷ es) - 1) l) (backwards_onto es (x ∷ []))
    ∙ take-append_left (length (x ∷ es) - 1) (backwards es []) (x ∷ [])
        (omega (arith, length-backwards es []))
    ∙ take_of_length-le (length (x ∷ es) - 1) (backwards es [])
        (omega (arith, length-backwards es [])))

length-numbered : (rs : List Report) → length (numbered rs) ≡ length rs
length-numbered [] = refl
length-numbered (r ∷ rs) = ap suc (length-numbered rs)

seq-add_all : (rs : List Report) → length rs < word64 → (add_all rs).seq ≡ length rs
unfolding add
seq-add_all [] h = refl
seq-add_all (r ∷ rs) h = omega (arith, seq-add_all rs (omega arith))

-- One more report stands in front of the newest 199 of the snapshot.
events-add_report :
    (r : Report) (j : EventJournal)
    → length j.entries ≤ max_events
    → events (add_report r j) ≡ event_at (add64 j.seq 1) r ∷ take (max_events - 1) (events j)
unfolding events add
events-add_report r j room = elim (Bool-cases (length j.entries == max_events)) [
  | inl full ↦
      let count : length j.entries ≡ max_events = ground arith in
      simp full (
        backwards_snoc (drop 1 j.entries) [] (event_at (add64 j.seq 1) r)
        ∙ ap (◌∷◌ (event_at (add64 j.seq 1) r))
            (backwards-drop j.entries ∙ ap (λ n. take (n - 1) (backwards j.entries [])) count))
  | inr short ↦
      let count : length j.entries ≤ max_events - 1 = ground arith in
      simp short (
        backwards_snoc j.entries [] (event_at (add64 j.seq 1) r)
        ∙ ap (◌∷◌ (event_at (add64 j.seq 1) r)) (
            sym (
              take_of_length-le (max_events - 1) (backwards j.entries [])
                (omega (arith, length-backwards j.entries [], count)))))
]

entries_bound :
    (rs : List Report)
    → events (add_all rs) ≡ take max_events (numbered rs)
    → length (add_all rs).entries ≤ max_events
unfolding events
entries_bound rs same = omega (
  arith,
  length-backwards (add_all rs).entries [],
  ap (λ (es : List Event). length es) same,
  length-take max_events (numbered rs),
)

-- As long as the counter does not wrap around, the snapshot is the newest 200 of all reports,
-- newest first, each with its number in the order of the reports.
pub events-add_all :
    (rs : List Report) → length rs < word64 → events (add_all rs) ≡ take max_events (numbered rs)
unfolding events backwards
events-add_all [] h = start
  where
    start : events empty_journal ≡ []
    start = refl
events-add_all (r ∷ older) h =
    let before = events-add_all older (omega arith) in
    let many = length-numbered older in
    events-add_report r (add_all older) (entries_bound older before)
    ∙ ap (λ id. event_at id r ∷ take (max_events - 1) (events (add_all older)))
        (omega (arith, seq-add_all older (omega arith)))
    ∙ ap (λ (es : List Event). event_at (suc (length older)) r ∷ take (max_events - 1) es) before
    ∙ ap (◌∷◌ (event_at (suc (length older)) r))
        (take-take (max_events - 1) max_events (numbered older) (omega arith))
