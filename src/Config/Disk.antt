-- ===== src/Config/Disk.antt =====
-- internal/config/config.go: `saveLocked`, as the states that the disk goes through. How each call of
-- package os ends is an argument.
use ctf_proxy_utils.Common.{
  ℕ, String, Bool, true, false, not, ◌&&◌, Option, none, some, List, [], ◌∷◌, ◌++◌, str_eq,
  if◌then◌else◌, take,
}

-- The contents of the files.
abbrev pub Files : Type 0
Files = String → Option (List ℕ)

abbrev pub put : String → Option (List ℕ) → Files → Files
put p b d q = if str_eq q p then b else d q

-- `encoded` is the result of the JSON encoder and `temp` the name of the temporary file; `written` is
-- none for a whole write and the bytes that an incomplete one left otherwise.
pub record Calls : Type 0 where
  pub encoded : Option (List ℕ)
  pub mkdir_ok : Bool
  pub temp : Option String
  pub written : Option ℕ
  pub chmod_ok : Bool
  pub sync_ok : Bool
  pub close_ok : Bool
  pub rename_ok : Bool
  pub remove_ok : Bool

-- The states before the last one, and the last one.
pub record Trace : Type 0 where
  pub seen : List Files
  pub now : Files

abbrev pub begin_trace : Files → Trace
begin_trace d = record { seen = []; now = d }

abbrev pub next : Files → Trace → Trace
next d t = record { seen = t.seen ++ t.now ∷ []; now = d }

-- The deferred removal.
unfoldable pub drop_temp : Calls → String → Trace → Trace
drop_temp c tmp t = if c.remove_ok then next (put tmp none t.now) t else t

abbrev pub rename : String → String → Files → Files
rename tmp path d = put tmp none (put path (d tmp) d)

-- After a whole write; the flag says whether Chmod, Sync, Close and Rename succeed.
unfoldable pub replace_file : Calls → String → String → Trace → Bool → Trace × Bool
unfolding drop_temp
replace_file c path tmp full true = (drop_temp c tmp (next (rename tmp path full.now) full), true)
replace_file c path tmp full false = (drop_temp c tmp full, false)

unfoldable pub fill_temp : Calls → String → String → List ℕ → Trace → Option ℕ → Trace × Bool
unfolding drop_temp replace_file
fill_temp c path tmp content created (some n) =
    (drop_temp c tmp (next (put tmp (some (take n content)) created.now) created), false)
fill_temp c path tmp content created none =
    replace_file c path tmp (next (put tmp (some content) created.now) created)
      (c.chmod_ok && c.sync_ok && c.close_ok && c.rename_ok)

-- From the temporary file on.
unfoldable pub write_temp : Calls → String → String → List ℕ → Files → Trace × Bool
unfolding fill_temp
write_temp c path tmp content d =
    fill_temp c path tmp content (next (put tmp (some []) d) (begin_trace d)) c.written

-- `saveLocked`; the last part is false for an error.
unfoldable pub save_locked : Calls → String → Files → Trace × Bool
unfolding write_temp
save_locked c path d = if str_eq path "" then (begin_trace d, true) else elim c.encoded [
  | none ↦ (begin_trace d, false)
  | some content ↦ if not c.mkdir_ok then (begin_trace d, false) else elim c.temp [
    | none ↦ (begin_trace d, false)
    | some tmp ↦ write_temp c path tmp (content ++ 10 ∷ []) d
  ]
]
