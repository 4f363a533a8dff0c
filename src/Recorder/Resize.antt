-- ===== src/Recorder/Resize.antt =====
-- internal/proxy/dump.go: `Resize`. The capacity of the slice of pointers is up to the runtime, so
-- it is an argument.
pub mod Laws
use ctf_proxy_utils.Common.{
  ℕ, zero, suc, ◌+◌, ◌-◌, ◌*◌, ◌/◌, ◌%◌, ◌^◌, ◌≤◌, ◌<◌, min, max, String, ◌≡◌, refl, sym, ap, subst,
  ◌∙◌, ◌≢◌, ◌↔◌, ◌⊎◌, inl, inr, Bool, true, false, not, ◌&&◌, ◌||◌, Option, none, some, List, [],
  ◌∷◌, ◌++◌, map, str_eq, eq_iff, arith, ltb, leb, ◌==◌, ==_iff, if◌then◌else◌, Bool-cases,
  Option-cases, length, take, drop, keep, All, get_elem?, is_empty, length-append, take-append-drop,
  length-take, length-drop, take_of_length-le, take-take, take-append, take-append_left,
  take-append_right, length-keep-le, All-append, All-map, All-both, All-keep, length-map, word64,
  add64, sub64, update, update_self, update_ne,
}
use ctf_proxy_utils.Common.Int.{ℤ, pos, negsuc, pos_part}
use ctf_proxy_utils.Recorder.Record.{RecordedConn, stream}
use ctf_proxy_utils.Recorder.Limits.{Fits, IsKnown}
use ctf_proxy_utils.Recorder.Trim.{
  trim_record, trim_record-Fits, trim_record-same, stream-trim_record,
}
use ctf_proxy_utils.Recorder.Pointers.{
  Held, All-Held, Held-All, Rising-same, Rising-above, All-middle,
}
use ctf_proxy_utils.Recorder.Invariant.{
  IsValid, Reaches, evict-IsValid, take_out-Split, take_out-none,
}
use ctf_proxy_utils.Recorder.{Recorder, evict_oldest_unpinned, take_out, remove, is_unpinned}

unfoldable pub count_pinned : (ℕ → RecordedConn) → List ℕ → ℕ
count_pinned store [] = 0
count_pinned store (p ∷ ps) =
    if (store p).pinned then suc (count_pinned store ps) else count_pinned store ps

-- `for len(r.dumps) > maxConns { r.evictOldestUnpinned() }` on fuel.
unfoldable pub evict_loop : ℕ → ℕ → Recorder → Option Recorder
evict_loop zero max_conns r = if leb (length r.dumps) max_conns then some r else none
evict_loop (suc fuel) max_conns r = elim (leb (length r.dumps) max_conns) [
  | true ↦ some r
  | false ↦ elim (evict_oldest_unpinned r) [
    | none ↦ evict_loop fuel max_conns r
    | some r' ↦ evict_loop fuel max_conns r'
  ]
]

-- An open record goes into the map.
abbrev pub enter : (ℕ → RecordedConn) → (ℕ → Option ℕ) → ℕ → ℕ → Option ℕ
enter store active p = if (store p).closed then active else update active (store p).token (some p)

-- The map built anew from the open records.
unfoldable pub rebuild : (ℕ → RecordedConn) → (ℕ → Option ℕ) → List ℕ → ℕ → Option ℕ
rebuild store active [] = active
rebuild store active (p ∷ ps) = rebuild store (enter store active p) ps

unfoldable pub rebuild_active : ℕ → ℕ → Recorder → Recorder
unfolding rebuild
rebuild_active capacity max_conns r =
    if ltb max_conns capacity then record r { active = rebuild r.store (λ _. none) r.dumps } else r

-- Every listed record is cut down, one after another.
unfoldable pub trim_all : ℕ → (ℕ → RecordedConn) → List ℕ → ℕ → RecordedConn
trim_all max_bytes store [] = store
trim_all max_bytes store (p ∷ ps) =
    trim_all max_bytes (update store p (trim_record max_bytes (store p))) ps

pub data Resized : Type 0 where
  not_positive : Resized
  too_many_pins : ℕ → Resized
  stuck : Resized
  resized : Recorder → Resized

-- `stuck` is the eviction loop that never ends. The new limits, which that loop does not read, are
-- set behind it.
unfoldable pub resize_to : ℕ → ℕ → ℕ → Recorder → Resized
resize_to capacity max_conns max_bytes r = elim (evict_loop (length r.dumps) max_conns r) [
  | none ↦ stuck
  | some r' ↦
      let r'' = rebuild_active capacity max_conns r' in
      resized (record r'' {
        max_conns = max_conns;
        max_bytes_per = max_bytes;
        store = trim_all max_bytes r''.store r''.dumps;
      })
]

unfoldable pub resize : ℕ → ℤ → ℤ → Recorder → Resized
resize capacity max_conns max_bytes r =
    if pos_part max_conns == 0 || pos_part max_bytes == 0
    then not_positive
    else if ltb (pos_part max_conns) (count_pinned r.store r.dumps)
    then too_many_pins (count_pinned r.store r.dumps)
    else resize_to capacity (pos_part max_conns) (pos_part max_bytes) r
