-- ===== src/Escalation/Window.antt =====
-- `EscalationTracker` of bridgewire/escalation.py beside a reference that keeps every event since the
-- last quiet period.
use frontdoor.Prelude.{
  ℕ, ◌≤◌, ◌≡◌, refl, Option, none, some, List, [], ◌∷◌, ◌++◌, arith, if◌then◌else◌, Bool-cases, inl,
  inr, ap₂,
}
use frontdoor.Escalation.{
  EscalationLevel, quiet, EscalationPolicy, EscalationTracker, drop_older, count_within,
  record_event, is_stale, next_level, changed_level, record_all, new_tracker,
}
use frontdoor.Escalation.Alerts.{IsPolicy}

-- Every event since the last quiet period.
pub record History : Type 0 where
  pub all : List ℕ
  pub reached : EscalationLevel
  pub latest : Option ℕ

abbrev pub no_history : History
no_history = record { all = []; reached = quiet; latest = none }

unfoldable pub observe : EscalationPolicy → History → ℕ → EscalationLevel × History
observe p h now =
    let stale = is_stale p h.latest now in
    let before = if stale then [] else h.all in
    let old = if stale then quiet else h.reached in
    let all = before ++ now ∷ [] in
    let new =
      next_level p old (count_within p.critical_window now all)
        (count_within p.warning_window now all) in
    (changed_level old new, record { all = all; reached = new; latest = some now })

unfoldable pub observe_all : EscalationPolicy → History → List ℕ → List EscalationLevel
observe_all p h [] = []
observe_all p h (t ∷ ts) = let (changed, h') = observe p h t in changed ∷ observe_all p h' ts

abbrev pub StartsAfter : Option ℕ → ℕ → Type 0
StartsAfter none now = Unit
StartsAfter (some last) now = last ≤ now

-- The times do not go back.
abbrev pub IsMonotone : Option ℕ → List ℕ → Type 0
IsMonotone last [] = Unit
IsMonotone last (t ∷ ts) = StartsAfter last t × IsMonotone (some t) ts

-- An event that was dropped does not count.
count-drop_older :
    (w cw now : ℕ) (events : List ℕ)
    → w ≤ cw
    → count_within w now (drop_older cw now events) ≡ count_within w now events
count-drop_older w cw now [] h = refl
count-drop_older w cw now (e ∷ es) h = ground (arith, count-drop_older w cw now es h)

-- To drop at one time and again later is to drop once, later.
drop_older-again :
    (cw last now : ℕ) (events tail : List ℕ)
    → last ≤ now
    → drop_older cw now (drop_older cw last events ++ tail) ≡ drop_older cw now (events ++ tail)
drop_older-again cw last now [] tail h = refl
drop_older-again cw last now (e ∷ es) tail h =
    ground (arith, drop_older-again cw last now es tail h)

-- What the tracker has kept of a history.
abbrev pub kept_of : ℕ → Option ℕ → List ℕ → List ℕ
kept_of window none events = []
kept_of window (some last) events = drop_older window last events

record Tracks (p : EscalationPolicy) (t : EscalationTracker) (h : History) : Type 0 where
  policy : t.policy ≡ p
  events : t.events ≡ kept_of p.critical_window h.latest h.all
  fresh : h.latest ≡ none → h.all ≡ []
  level : t.level ≡ h.reached
  last : t.last_event ≡ h.latest

kept_next :
    (cw : ℕ) (last : Option ℕ) (all : List ℕ) (now : ℕ)
    → (last ≡ none → all ≡ [])
    → StartsAfter last now
    → drop_older cw now (kept_of cw last all ++ now ∷ []) ≡ drop_older cw now (all ++ now ∷ [])
kept_next cw none all now fresh h = rw (fresh refl)
kept_next cw (some l) all now fresh h = drop_older-again cw l now all (now ∷ []) h

record_event-Tracks :
    (p : EscalationPolicy) (t : EscalationTracker) (h : History) (now : ℕ)
    → IsPolicy p
    → StartsAfter h.latest now
    → Tracks p t h
    → ((record_event t now).0 ≡ (observe p h now).0)
      × Tracks p (record_event t now).1 (observe p h now).1
unfolding record_event observe
record_event-Tracks p t h now valid mono tracks = elim (Bool-cases (is_stale p h.latest now)) [
  | inl stale ↦ ground (
    arith,
    count-drop_older p.critical_window p.critical_window now (now ∷ []),
    count-drop_older p.warning_window p.critical_window now (now ∷ []),
  )
  | inr recent ↦ ground (
    arith,
    kept_next p.critical_window h.latest h.all now tracks.fresh mono,
    count-drop_older p.critical_window p.critical_window now (h.all ++ now ∷ []),
    count-drop_older p.warning_window p.critical_window now (h.all ++ now ∷ []),
  )
]

record_all-Tracks :
    (p : EscalationPolicy) (t : EscalationTracker) (h : History) (ts : List ℕ)
    → IsPolicy p
    → IsMonotone h.latest ts
    → Tracks p t h
    → (record_all t ts).0 ≡ observe_all p h ts
unfolding record_all observe_all
record_all-Tracks p t h [] valid mono tracks = refl
record_all-Tracks p t h (now ∷ ts) valid mono tracks =
    let (same, tracks') = record_event-Tracks p t h now valid mono.0 tracks in
    ap₂ ◌∷◌ same (
      record_all-Tracks p (record_event t now).1 (observe p h now).1 ts valid
        (unfold observe in mono.1) tracks')

-- With an accepted policy and times that do not go back, a new tracker returns for every event what
-- a tracker that never drops an old event would return.
pub record_all-eq-observe_all :
    (p : EscalationPolicy) (ts : List ℕ)
    → IsPolicy p
    → IsMonotone none ts
    → (record_all (new_tracker p) ts).0 ≡ observe_all p no_history ts
unfolding new_tracker
record_all-eq-observe_all p ts valid mono =
    record_all-Tracks p (new_tracker p) no_history ts valid mono (ground arith)
