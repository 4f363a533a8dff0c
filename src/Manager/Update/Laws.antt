-- ===== src/Manager/Update/Laws.antt =====
-- An update happens as a whole or is undone.
use ctf_proxy_utils.Common.{
  ℕ, String, ◌≡◌, refl, sym, ap, subst, ◌∙◌, ◌⊎◌, inl, inr, Bool, true, false, not, ◌&&◌, ◌||◌,
  some, List, [], ◌∷◌, str_eq, arith, Bool-cases, Option-cases,
}
use ctf_proxy_utils.Bytes.{Text}
use ctf_proxy_utils.Recorder.Resize.{Resized, not_positive, too_many_pins, stuck, resized, resize}
use ctf_proxy_utils.Spec.{RuleSpec, int_eq, spec_defaults}
use ctf_proxy_utils.Spec.Validate.{Net, IpNet, parse_acl}
use ctf_proxy_utils.Recorder.{Recorder}
use ctf_proxy_utils.Recorder.Finish.{Finished, Finished-refl, Finished-trans, finish-Finished}
use ctf_proxy_utils.Rule.{
  Ending, end_writer, Rule, spec_of, start_locked, stop_locked, start_health, leave, leave_all,
}
use ctf_proxy_utils.Rule.Handlers.{running-leave_all}
use ctf_proxy_utils.Manager.{passes, check_port_conflict}
use ctf_proxy_utils.Manager.Update.{
  UpdateError, ListenAddr, needs_listener, Stage, bind_stage, restore, finish_update, replace_spec,
  update_locked,
}

-- The rule has kept its configuration and its access list, and runs if it did. Its recorder has kept
-- its records, where at most the ends of some have been entered.
pub record Undone (r r' : Rule) : Type 0 where
  pub same_spec : spec_of r' ≡ spec_of r
  pub same_rec : Finished r.rec r'.rec
  pub same_acl : r'.acl ≡ r.acl
  pub same_running : r'.running ≡ r.running

-- The old listener could not be had again: the rule is off.
pub record Lost (r r' : Rule) : Type 0 where
  pub off_spec : spec_of r' ≡ record (spec_of r) { enabled = false }
  pub kept_rec : Finished r.rec r'.rec
  pub off : r'.running ≡ false

-- The part of a rule that a stop does not touch, but for the writers that it finishes.
pub record Parts (r r' : Rule) : Type 0 where
  pub spec_part : spec_of r' ≡ spec_of r
  pub rec_part : Finished r.rec r'.rec
  pub acl_part : r'.acl ≡ r.acl

end_writer-Finished : (e : Ending) (q : Recorder) → Finished q (end_writer e q)
unfolding end_writer
end_writer-Finished e q = elim (Option-cases e.writer) [
  | inl n ↦ rw n (Finished-refl q)
  | inr (w, n) ↦ rw n (finish-Finished w e.now e.bytes_in e.bytes_out q)
]

pub leave_all-Parts : (ends : ℕ → Ending) (ids : List ℕ) (r : Rule) → Parts r (leave_all ends ids r)
unfolding leave_all leave
leave_all-Parts ends [] r = record {
  spec_part = refl;
  rec_part = Finished-refl r.rec;
  acl_part = refl;
}
leave_all-Parts ends (id ∷ ids) r =
    let rest = leave_all-Parts ends ids (leave (ends id) id r) in
    record {
      spec_part = rest.spec_part;
      rec_part = Finished-trans _ _ _ (end_writer-Finished (ends id) r.rec) rest.rec_part;
      acl_part = rest.acl_part;
    }

pub stop_locked-Parts : (ends : ℕ → Ending) (r : Rule) → Parts r (stop_locked ends r)
unfolding stop_locked
stop_locked-Parts ends r = elim (Bool-cases r.running) [
  | inl on ↦
      let rest = leave_all-Parts ends r.conns (record r { running = false }) in
      simp on
        (record { spec_part = rest.spec_part; rec_part = rest.rec_part; acl_part = rest.acl_part })
  | inr off ↦
      simp off (record { spec_part = refl; rec_part = Finished-refl r.rec; acl_part = refl })
]

pub running-stop_locked : (ends : ℕ → Ending) (r : Rule) → (stop_locked ends r).running ≡ false
unfolding stop_locked
running-stop_locked ends r = elim (Bool-cases r.running) [
  | inl on ↦ simp on (running-leave_all ends r.conns (record r { running = false }))
  | inr off ↦ simp off refl
]

-- A stopped rule starts again, or is off.
abbrev Restored : Bool → Rule → Rule → Type 0
Restored again r r' = Undone r r' ⊎ ((again ≡ false) × Lost r r')

-- What a start makes of a stopped rule.
pub record Starts (bound binds : Bool) (q : Rule) : Type 0 where
  pub success : (start_locked bound binds q).1 ≡ (bound || binds)
  pub parts : Parts q (start_locked bound binds q).0
  pub runs : (start_locked bound binds q).0.running ≡ (bound || binds)

pub start_locked-Starts : (bound binds : Bool) (q : Rule) → q.running ≡ false → Starts bound binds q
unfolding start_locked start_health
start_locked-Starts bound binds q off = record {
  success = ground arith;
  parts = record {
    spec_part = ground arith;
    rec_part = subst (Finished q.rec) (sym same) (Finished-refl q.rec);
    acl_part = ground arith;
  };
  runs = ground arith;
}
  where
    same : (start_locked bound binds q).0.rec ≡ q.rec
    same = ground arith

restart-Restored :
    (again : Bool) (r q : Rule)
    → r.running ≡ true
    → q.running ≡ false
    → Parts r q
    → Restored again r (restore again true q)
unfolding restore
restart-Restored true r q on off parts =
    let start = start_locked-Starts false true q off in
    inl (
      simp start.success (record {
        same_spec = start.parts.spec_part ∙ parts.spec_part;
        same_rec = Finished-trans _ _ _ parts.rec_part start.parts.rec_part;
        same_acl = start.parts.acl_part ∙ parts.acl_part;
        same_running = start.runs ∙ sym on;
      }))
restart-Restored false r q on off parts =
    let start = start_locked-Starts false false q off in
    inr (
      refl,
      simp start.success (record {
        off_spec =
            ap (λ (s : RuleSpec). record s { enabled = false })
              (start.parts.spec_part ∙ parts.spec_part);
        kept_rec = Finished-trans _ _ _ parts.rec_part start.parts.rec_part;
        off = start.runs;
      }),
    )

untouched-Undone : (r : Rule) → Undone r r
untouched-Undone r = record {
  same_spec = refl;
  same_rec = Finished-refl r.rec;
  same_acl = refl;
  same_running = refl;
}

untouched-Restored : (again : Bool) (r : Rule) → Restored again r (restore again false r)
unfolding restore
untouched-Restored again r = inl (record {
  same_spec = refl;
  same_rec = Finished-refl r.rec;
  same_acl = refl;
  same_running = refl;
})

-- The two forms of a stage.
stage-Restored :
    (ends : ℕ → Ending) (first second need again : Bool) (s : RuleSpec) (r : Rule)
    → Restored again r (
        restore again
          (bind_stage ends first second need s r).stopped
          (bind_stage ends first second need s r).rule)
unfolding bind_stage
stage-Restored ends first second need again s r = elim (Bool-cases (not need || first)) [
  | inl k ↦ simp k (untouched-Restored again r)
  | inr k ↦
      elim (Bool-cases (
        r.running
        && int_eq (spec_of r).listen_port s.listen_port
        && str_eq (spec_of r).protocol s.protocol)) [
          | inl again_here ↦
              simp (k, again_here)
                (restart-Restored again r (stop_locked ends r) (ground arith)
                  (running-stop_locked ends r) (stop_locked-Parts ends r))
          | inr elsewhere ↦ simp (k, elsewhere) (untouched-Restored again r)
        ]
]

finish_update-Restored :
    (ends : ℕ → Ending) (again was_running need : Bool) (acl : List IpNet) (s : RuleSpec)
    (z : Resized) (stage : Stage) (r r' : Rule) (e : UpdateError)
    → Restored again r (restore again stage.stopped stage.rule)
    → finish_update ends again was_running need acl s z stage ≡ some (r', some e)
    → Restored again r r'
unfolding finish_update
finish_update-Restored ends again was_running need acl s not_positive stage r r' e h k =
    let same : restore again stage.stopped stage.rule ≡ r' = ground arith in
    subst (Restored again r) same h
finish_update-Restored ends again was_running need acl s (too_many_pins n) stage r r' e h k =
    let same : restore again stage.stopped stage.rule ≡ r' = ground arith in
    subst (Restored again r) same h
finish_update-Restored ends again was_running need acl s stuck stage r r' e h k =
    absurd (ground arith)
finish_update-Restored ends again was_running need acl s (resized rec') stage r r' e h k =
    absurd (ground arith)

replace_spec-Restored :
    (join : ListenAddr) (capacity : ℕ) (ends : ℕ → Ending) (first second again : Bool)
    (acl : List IpNet) (s : RuleSpec) (r r' : Rule) (e : UpdateError)
    → replace_spec join capacity ends first second again acl s r ≡ some (r', some e)
    → Restored again r r'
unfolding replace_spec
replace_spec-Restored join capacity ends first second again acl s r r' e h =
    let stage = bind_stage ends first second (needs_listener join s r) s r in
    let undone = stage-Restored ends first second (needs_listener join s r) again s r in
    elim (Bool-cases (bind_stage ends first second (needs_listener join s r) s r).bound) [
      | inl bound ↦
          finish_update-Restored ends again r.running (needs_listener join s r) acl s
            (resize capacity s.dump.max_conns s.dump.max_bytes_per stage.rule.rec) stage r r' e
            undone (ground arith)
      | inr unbound ↦
          let same : restore again stage.stopped stage.rule ≡ r' = ground arith in
          subst (Restored again r) same undone
    ]

unchanged : (again : Bool) (r r' : Rule) → r ≡ r' → Restored again r r'
unchanged again r r' same = subst (Restored again r) same (inl (untouched-Undone r))

-- An update that returns an error leaves the rule with its configuration and its access list, and
-- running if it was. Only where its old listener was closed for the second attempt and cannot be had
-- again it is off, and marked so in its configuration. Either way, but for what handlers write
-- meanwhile, the recorder holds the same records with the same bytes and pins under the same limits,
-- and is valid if it was; only the `Finish` of the handlers that the stop waits for may have entered
-- the end and the totals of records that were still open.
pub update_locked-Restored :
    (text : Text) (net : Net) (join : ListenAddr) (capacity : ℕ) (ends : ℕ → Ending)
    (first second again : Bool) (rules : List (String × RuleSpec)) (id : String) (spec : RuleSpec)
    (r r' : Rule) (e : UpdateError)
    → update_locked text net join capacity ends first second again rules id spec r
      ≡ some (r', some e)
    → Undone r r' ⊎ ((again ≡ false) × Lost r r')
unfolding update_locked
update_locked-Restored text net join capacity ends first second again rules id spec r r' e h =
    let new = spec_defaults (record spec { id = id }) in
    elim (Bool-cases (passes text net new)) [
      | inr bad ↦ unchanged again r r' (ground arith)
      | inl fine ↦ elim (Option-cases (parse_acl net new.allow_cidr)) [
        | inl bad ↦ unchanged again r r' (ground arith)
        | inr (acl, parsed) ↦ elim (Bool-cases (check_port_conflict net new id rules)) [
          | inl taken ↦ unchanged again r r' (ground arith)
          | inr free ↦
              replace_spec-Restored join capacity ends first second again acl new r r' e
                (ground arith)
        ]
      ]
    ]
