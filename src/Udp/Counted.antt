-- ===== src/Udp/Counted.antt =====
-- What it means that the entries of the sessions of a UDP rule and their counter are as they should be.
use ctf_proxy_utils.Common.{
  ℕ, ◌%◌, ◌≤◌, ◌<◌, ◌≡◌, refl, sym, ap, ◌∙◌, ◌⊎◌, inl, inr, true, false, Option, none, some, List,
  [], ◌∷◌, arith, ◌==◌, Bool-cases, length, All, All-map, word64, update,
}
use ctf_proxy_utils.Common.Int.{pos_part}
use ctf_proxy_utils.Recorder.{ConnWriter}
use ctf_proxy_utils.Rule.{Rule, spec_of}
use ctf_proxy_utils.Udp.Table.{
  Entries, find_session, length-delete_session, All-delete_session, AreDistinct,
  delete_session-AreDistinct, Without,
}
use ctf_proxy_utils.Udp.{UdpSession, UdpRule, set_session, finish_writer, close_session, take_away}

-- An entry stands under the key of its session, which is open and in the store.
abbrev pub Holds : (ℕ → UdpSession) → ℕ → List ℕ × ℕ → Type 0
Holds store n e = ((store e.1).key ≡ e.0) × ((store e.1).closed ≡ false) × (e.1 < n)

abbrev pub Limited : ℕ → ℕ → Type 0
Limited limit n = (limit ≡ 0) ⊎ (n ≤ limit)

-- Each client has at most one session, all sessions in the map are open, the counter of active
-- connections is their number, and the limit of the rule holds.
pub record IsTabled (u : UdpRule) : Type 0 where
  pub distinct : AreDistinct u.sessions
  pub entries : All (Holds u.store u.allocated) u.sessions
  pub active : u.rule.active_conns ≡ length u.sessions % word64
  pub limited : Limited (pos_part (spec_of u.rule).max_conns) (length u.sessions)

-- The part of a rule that the sessions depend on.
pub record Alike (r r' : Rule) : Type 0 where
  pub like_active : r'.active_conns ≡ r.active_conns
  pub like_limit : (spec_of r').max_conns ≡ (spec_of r).max_conns

pub same_table :
    (u : UdpRule) (r' : Rule) → Alike u.rule r' → IsTabled u → IsTabled (record u { rule = r' })
same_table u r' k v = record {
  distinct = v.distinct;
  entries = v.entries;
  active = k.like_active ∙ v.active;
  limited = rw k.like_limit v.limited;
}

-- A write to a session that keeps its key and does not close it.
set_session-Holds :
    (store : ℕ → UdpSession) (n p : ℕ) (s : UdpSession)
    → s.key ≡ (store p).key
    → s.closed ≡ (store p).closed
    → (e : List ℕ × ℕ) → Holds store n e
    → Holds (update store p s) n e
set_session-Holds store n p s k c e h = elim (Bool-cases (e.1 == p)) [
  | inl same ↦
      let eq : e.1 ≡ p = ground (arith, same) in
      rw same (
        k ∙ ap (λ (q : ℕ). (store q).key) (sym eq) ∙ h.0,
        c ∙ ap (λ (q : ℕ). (store q).closed) (sym eq) ∙ h.1,
        h.2,
      )
  | inr other ↦ rw other h
]

pub set_session-IsTabled :
    (p : ℕ) (s : UdpSession) (u : UdpRule)
    → s.key ≡ (u.store p).key
    → s.closed ≡ (u.store p).closed
    → IsTabled u
    → IsTabled (set_session p s u)
set_session-IsTabled p s u k c v = record {
  distinct = v.distinct;
  entries = All-map (set_session-Holds u.store u.allocated p s k c) u.sessions v.entries;
  active = v.active;
  limited = v.limited;
}

pub other-Holds :
    (store : ℕ → UdpSession) (n p : ℕ) (s : UdpSession) (t : Entries)
    → Without p t
    → All (Holds store n) t
    → All (Holds (update store p s) n) t
other-Holds store n p s [] w h = tt
other-Holds store n p s (e ∷ t) w h = (rw w.0 h.0, other-Holds store n p s t w.1 h.1)

pub finish_writer-Alike :
    (now m n : ℕ) (r : Rule) (w : Option ConnWriter) → Alike r (finish_writer now m n r w)
finish_writer-Alike now m n r none = record { like_active = refl; like_limit = refl }
finish_writer-Alike now m n r (some w) = record { like_active = refl; like_limit = refl }

-- A step that enters no session.
pub record Goes (u u' : UdpRule) : Type 0 where
  pub tabled : IsTabled u'
  pub fewer : length u'.sessions ≤ length u.sessions
  pub limit : (spec_of u'.rule).max_conns ≡ (spec_of u.rule).max_conns

pub Goes-trans : (u u' u'' : UdpRule) → Goes u u' → Goes u' u'' → Goes u u''
Goes-trans u u' u'' g h = record {
  tabled = h.tabled;
  fewer = omega (arith, g.fewer, h.fewer);
  limit = h.limit ∙ g.limit;
}

pub stays : (u : UdpRule) → IsTabled u → Goes u u
stays u v = record { tabled = v; fewer = omega arith; limit = refl }

pub rule-Goes :
    (u : UdpRule) (r' : Rule) → Alike u.rule r' → IsTabled u → Goes u (record u { rule = r' })
rule-Goes u r' k v = record {
  tabled = same_table u r' k v;
  fewer = omega arith;
  limit = k.like_limit;
}

pub session-Goes :
    (p : ℕ) (s : UdpSession) (u : UdpRule)
    → s.key ≡ (u.store p).key
    → s.closed ≡ (u.store p).closed
    → IsTabled u
    → Goes u (set_session p s u)
session-Goes p s u k c v = record {
  tabled = set_session-IsTabled p s u k c v;
  fewer = omega arith;
  limit = refl;
}

-- A session that is no entry can be closed.
pub close_session-Goes :
    (now p : ℕ) (u : UdpRule) → Without p u.sessions → IsTabled u → Goes u (close_session now p u)
unfolding close_session
close_session-Goes now p u w v =
    let alike =
      finish_writer-Alike now (u.store p).bytes_in (u.store p).bytes_out u.rule
        (u.store p).writer in
    elim (Bool-cases (u.store p).closed) [
      | inl k ↦ simp k (stays u v)
      | inr k ↦ simp k (record {
        tabled = record {
          distinct = v.distinct;
          entries =
              other-Holds u.store u.allocated p (record (u.store p) { closed = true }) u.sessions w
                v.entries;
          active = alike.like_active ∙ v.active;
          limited = rw alike.like_limit v.limited;
        };
        fewer = omega arith;
        limit = alike.like_limit;
      })
    ]

pub take_away-Goes :
    (k : List ℕ) (p : ℕ) (u : UdpRule)
    → find_session k u.sessions ≡ some p
    → IsTabled u
    → Goes u (take_away k u)
take_away-Goes k p u f v =
    let shorter = length-delete_session k u.sessions p f in
    record {
      tabled = record {
        distinct = delete_session-AreDistinct k u.sessions v.distinct;
        entries = All-delete_session (Holds u.store u.allocated) k u.sessions v.entries;
        active = omega (arith, v.active, shorter);
        limited = elim v.limited [ inl free ↦ inl free | inr few ↦ inr (omega arith) ];
      };
      fewer = omega (arith, shorter);
      limit = refl;
    }
