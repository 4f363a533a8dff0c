-- ===== src/Config/Atomic.antt =====
-- A save is atomic, wherever it stops.
use ctf_proxy_utils.Common.{
  ℕ, String, ◌≡◌, refl, ◌∙◌, ◌≢◌, ◌⊎◌, inl, inr, Bool, true, false, not, ◌&&◌, Option, none, some,
  List, [], ◌∷◌, ◌++◌, str_eq, eq_iff, if◌then◌else◌, Bool-cases, take, All, All-append,
}
use ctf_proxy_utils.Config.Disk.{
  Files, put, Calls, Trace, begin_trace, next, drop_temp, rename, replace_file, fill_temp,
  write_temp, save_locked,
}

-- The file holds what it held, or the whole new content.
abbrev pub OldOrNew : String → List ℕ → Files → Files → Type 0
OldOrNew path content d x = (x path ≡ d path) ⊎ (x path ≡ some content)

-- Every state on the way has the old or the new file; the last one has the new file after a success
-- and the old one after an error; no file but it and the temporary one is touched.
pub record IsAtomic (path tmp : String) (content : List ℕ) (d : Files) (r : Trace × Bool)
    : Type 0 where
  pub on_the_way : All (OldOrNew path content d) r.0.seen
  pub at_the_end : r.0.now path ≡ (if r.1 then some content else d path)
  pub others : (q : String) → q ≢ path → q ≢ tmp → r.0.now q ≡ d q

put_ne : (p q : String) (b : Option (List ℕ)) (d : Files) → q ≢ p → put p b d q ≡ d q
put_ne p q b d h = elim (Bool-cases (str_eq q p)) [
  | inl same ↦ absurd (h ((eq_iff q p).0 same))
  | inr other ↦ simp other refl
]

put_self : (p : String) (b : Option (List ℕ)) (d : Files) → put p b d p ≡ b
put_self p b d = rw ((eq_iff p p).1 refl) refl

drop_temp-IsAtomic :
    (c : Calls) (path tmp : String) (content : List ℕ) (d : Files) (t : Trace) (ok : Bool)
    → path ≢ tmp
    → IsAtomic path tmp content d (t, ok)
    → IsAtomic path tmp content d (drop_temp c tmp t, ok)
unfolding drop_temp
drop_temp-IsAtomic c path tmp content d t ok apart h = elim (Bool-cases c.remove_ok) [
  | inr kept ↦ simp kept h
  | inl removed ↦ simp removed (record {
    on_the_way =
        All-append (OldOrNew path content d) t.seen (t.now ∷ []) h.on_the_way
          (last ok h.at_the_end, tt);
    at_the_end = put_ne tmp path none t.now apart ∙ h.at_the_end;
    others = λ q p k. put_ne tmp q none t.now k ∙ h.others q p k;
  })
]
  where
    last :
        (ok : Bool)
        → t.now path ≡ (if ok then some content else d path)
        → OldOrNew path content d t.now
    last true e = inr e
    last false e = inl e

-- The temporary file is written, and nothing else.
temp-IsAtomic :
    (path tmp : String) (content : List ℕ) (b b' : Option (List ℕ)) (d : Files)
    → path ≢ tmp
    → IsAtomic path tmp content d
        (next (put tmp b' (put tmp b d)) (next (put tmp b d) (begin_trace d)), false)
temp-IsAtomic path tmp content b b' d apart = record {
  on_the_way = (inl refl, (inl (put_ne tmp path b d apart), tt));
  at_the_end = put_ne tmp path b' (put tmp b d) apart ∙ put_ne tmp path b d apart;
  others = λ q p k. put_ne tmp q b' (put tmp b d) k ∙ put_ne tmp q b d k;
}

rename-IsAtomic :
    (path tmp : String) (content : List ℕ) (b : Option (List ℕ)) (d : Files)
    → path ≢ tmp
    → IsAtomic path tmp content d (
      next
          (rename tmp path (put tmp (some content) (put tmp b d)))
          (next (put tmp (some content) (put tmp b d)) (next (put tmp b d) (begin_trace d))),
      true,
    )
rename-IsAtomic path tmp content b d apart =
    let before = temp-IsAtomic path tmp content b (some content) d apart in
    let full = put tmp (some content) (put tmp b d) in
    record {
      on_the_way = (inl refl, (inl (put_ne tmp path b d apart), (inl before.at_the_end, tt)));
      at_the_end =
          put_ne tmp path none (put path (full tmp) full) apart
          ∙ put_self path (full tmp) full
          ∙ put_self tmp (some content) (put tmp b d);
      others = λ q p k.
          put_ne tmp q none (put path (full tmp) full) k
          ∙ put_ne path q (full tmp) full p
          ∙ before.others q p k;
    }

replace_file-IsAtomic :
    (c : Calls) (path tmp : String) (content : List ℕ) (d : Files) (fine : Bool)
    → path ≢ tmp
    → IsAtomic path tmp content d (
        replace_file c path tmp
          (next
            (put tmp (some content) (put tmp (some []) d))
            (next (put tmp (some []) d) (begin_trace d)))
          fine)
unfolding replace_file
replace_file-IsAtomic c path tmp content d true apart =
    drop_temp-IsAtomic c path tmp content d _ true apart
      (rename-IsAtomic path tmp content (some []) d apart)
replace_file-IsAtomic c path tmp content d false apart =
    drop_temp-IsAtomic c path tmp content d _ false apart
      (temp-IsAtomic path tmp content (some []) (some content) d apart)

fill_temp-IsAtomic :
    (c : Calls) (path tmp : String) (content : List ℕ) (d : Files) (written : Option ℕ)
    → path ≢ tmp
    → IsAtomic path tmp content d
        (fill_temp c path tmp content (next (put tmp (some []) d) (begin_trace d)) written)
unfolding fill_temp
fill_temp-IsAtomic c path tmp content d (some n) apart =
    drop_temp-IsAtomic c path tmp content d _ false apart
      (temp-IsAtomic path tmp content (some []) (some (take n content)) d apart)
fill_temp-IsAtomic c path tmp content d none apart =
    replace_file-IsAtomic c path tmp content d
      (c.chmod_ok && c.sync_ok && c.close_ok && c.rename_ok) apart

write_temp-IsAtomic :
    (c : Calls) (path tmp : String) (content : List ℕ) (d : Files)
    → path ≢ tmp
    → IsAtomic path tmp content d (write_temp c path tmp content d)
unfolding write_temp
write_temp-IsAtomic c path tmp content d apart =
    fill_temp-IsAtomic c path tmp content d c.written apart

nothing-IsAtomic :
    (path tmp : String) (content : List ℕ) (d : Files)
    → IsAtomic path tmp content d (begin_trace d, false)
nothing-IsAtomic path tmp content d = record {
  on_the_way = tt;
  at_the_end = refl;
  others = λ q p k. refl;
}

-- A save to a file, with the temporary file under another name, never leaves half a file: in every
-- state that the disk goes through the file has its old content or the whole new one. When it
-- succeeds the file has the new content, after an error the old one, and no other file is touched but
-- the temporary one.
pub save_locked-IsAtomic :
    (c : Calls) (path tmp : String) (content : List ℕ) (d : Files)
    → path ≢ ""
    → path ≢ tmp
    → c.temp ≡ some tmp
    → c.encoded ≡ some content
    → IsAtomic path tmp (content ++ 10 ∷ []) d (save_locked c path d)
unfolding save_locked
save_locked-IsAtomic c path tmp content d named apart temp encoded =
    elim (Bool-cases (str_eq path "")) [
      | inl unnamed ↦ absurd (named ((eq_iff path "").0 unnamed))
      | inr has_name ↦ elim (Bool-cases (not c.mkdir_ok)) [
        | inl refused ↦
            simp (has_name, encoded, refused) (nothing-IsAtomic path tmp (content ++ 10 ∷ []) d)
        | inr there ↦
            simp (has_name, encoded, there, temp)
              (write_temp-IsAtomic c path tmp (content ++ 10 ∷ []) d apart)
      ]
    ]
