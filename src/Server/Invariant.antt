-- ===== src/Server/Invariant.antt =====
-- The invariant of the reachable states of the server of bridgewire/adapters/http/uvicorn_server.py.
use mathlib.Core.Logic.{if_pos, if_neg}
use native.Mathlib.Decide.{ℕ_discrete}
use frontdoor.Prelude.{
  ℕ, ◌≡◌, ◌≢◌, refl, sym, ◌∙◌, ◌⊎◌, inl, inr, Bool, true, false, not, ◌&&◌, ◌||◌, List, [], ◌∷◌,
  arith, Bool-cases,
}
use frontdoor.Server.{
  ApiServerState, new, starting, running, start_failed, start_timed_out, failed, stopping, stopped,
  stop_timed_out, ServerError, shutdown_timeout, ThreadState, unborn, serving, ApiServer, Caller,
  launching, polling, asking_exit, joining_start, joining_stop, awaiting_stop, begin_start,
  launch_failed, finish_start, ask_exit, begin_stop, finish_awaiting, finish_stop, run_raised,
  run_returned,
}
use frontdoor.Server.System.{
  Move, call_start, launch, launch_fails, poll, ask, start_join, call_stop, await, stop_join,
  ThreadMove, start_up, crash, leave, end, update, System, Step, caller, thread, Reach, start,
  later,
}

abbrev pub is_unborn : ThreadState → Bool
is_unborn unborn = true
is_unborn _ = false

abbrev pub is_serving : ThreadState → Bool
is_serving serving = true
is_serving _ = false

abbrev pub is_recorded : List ServerError → Bool
is_recorded [] = false
is_recorded (e ∷ _) = true

abbrev pub is_shutdown_timeout : List ServerError → Bool
is_shutdown_timeout (shutdown_timeout ∷ _) = true
is_shutdown_timeout _ = false

-- The state agrees with the thread, Uvicorn's flag and the failures.
abbrev pub agrees_with : ApiServerState → ApiServer → Bool
agrees_with new s = is_unborn s.thread && not (is_recorded s.failures)
agrees_with starting s = is_unborn s.thread || is_serving s.thread
agrees_with running s = is_serving s.thread && s.started
agrees_with start_failed s = is_recorded s.failures
agrees_with start_timed_out s = is_recorded s.failures && not (is_unborn s.thread)
agrees_with failed s = is_recorded s.failures && not (is_unborn s.thread)
agrees_with stopping s = not (is_unborn s.thread)
agrees_with stopped s = true
agrees_with stop_timed_out s = is_shutdown_timeout s.failures && not (is_unborn s.thread)

-- A thread that was not started has served nothing and was not asked to leave.
abbrev pub is_untouched : ThreadState → ApiServer → Bool
is_untouched unborn s = not s.started && not s.should_exit
is_untouched _ s = true

abbrev pub IsAgreed : ApiServer → Type 0
IsAgreed s = (agrees_with s.state s ≡ true) × (is_untouched s.thread s ≡ true)

abbrev pub is_new : ApiServerState → Bool
is_new new = true
is_new _ = false

abbrev pub is_launched : ApiServerState → Bool
is_launched starting = true
is_launched stopped = true
is_launched _ = false

abbrev pub is_polled : ApiServerState → Bool
is_polled new = false
is_polled running = false
is_polled _ = true

abbrev pub is_past : ApiServerState → Bool
is_past new = false
is_past starting = false
is_past running = false
is_past _ = true

-- What a caller that is under way knows of the server.
abbrev pub fits : ApiServer → Caller → Bool
fits s launching = is_unborn s.thread && is_launched s.state
fits s polling = not (is_unborn s.thread) && is_polled s.state
fits s asking_exit = not (is_unborn s.thread) && not (is_new s.state)
fits s joining_start = not (is_unborn s.thread) && not (is_new s.state)
fits s joining_stop = not (is_unborn s.thread) && is_past s.state
fits s awaiting_stop = not (is_unborn s.thread) && is_past s.state
fits s _ = true

abbrev pub is_starter : Caller → Bool
is_starter launching = true
is_starter polling = true
is_starter _ = false

-- What one step of a caller does to the server, to the caller and to another caller.
record Kept (s : ApiServer) (c : Caller) (t : ApiServer) (d : Caller) : Type 0 where
  agreed : IsAgreed t
  fitting : fits t d ≡ true
  starter : is_starter d ≡ true → (is_starter c ≡ true) ⊎ (s.state ≡ new)

Move-Kept :
    (s : ApiServer) (c : Caller) (t : ApiServer) (d : Caller)
    → Move s c t d
    → IsAgreed s
    → fits s c ≡ true
    → Kept s c t d
unfolding begin_start launch_failed finish_start ask_exit begin_stop finish_awaiting finish_stop
Move-Kept s c t d (call_start free) h f = ground arith
Move-Kept s c t d (launch e) h f = ground arith
Move-Kept s c t d (launch_fails e) h f = ground arith
Move-Kept s c t d poll h f = ground arith
Move-Kept s c t d ask h f = ground arith
Move-Kept s c t d start_join h f = ground arith
Move-Kept s c t d (call_stop free) h f = ground arith
Move-Kept s c t d await h f = ground arith
Move-Kept s c t d stop_join h f = ground arith

-- What another caller knows stays true.
Move-fits :
    (s : ApiServer) (c : Caller) (t : ApiServer) (d : Caller) (o : Caller)
    → Move s c t d
    → IsAgreed s
    → fits s c ≡ true
    → fits s o ≡ true
    → (is_starter c ≡ true → is_starter o ≡ false)
    → fits t o ≡ true
unfolding begin_start launch_failed finish_start ask_exit begin_stop finish_awaiting finish_stop
Move-fits s c t d o (call_start free) h f g alone = ground arith
Move-fits s c t d o (launch e) h f g alone = ground (arith, alone refl)
Move-fits s c t d o (launch_fails e) h f g alone = ground (arith, alone refl)
Move-fits s c t d o poll h f g alone = ground (arith, alone refl)
Move-fits s c t d o ask h f g alone = ground arith
Move-fits s c t d o start_join h f g alone = ground arith
Move-fits s c t d o (call_stop free) h f g alone = ground arith
Move-fits s c t d o await h f g alone = ground arith
Move-fits s c t d o stop_join h f g alone = ground arith

ThreadMove-IsAgreed : (s t : ApiServer) → ThreadMove s t → IsAgreed s → IsAgreed t
unfolding run_raised run_returned
ThreadMove-IsAgreed s t (start_up e) h = ground arith
ThreadMove-IsAgreed s t (crash x e) h = ground arith
ThreadMove-IsAgreed s t (leave e) h = ground arith
ThreadMove-IsAgreed s t (end e) h = ground arith

ThreadMove-fits :
    (s t : ApiServer) (o : Caller) → ThreadMove s t → IsAgreed s → fits s o ≡ true → fits t o ≡ true
unfolding run_raised run_returned
ThreadMove-fits s t o (start_up e) h g = ground arith
ThreadMove-fits s t o (crash x e) h g = ground arith
ThreadMove-fits s t o (leave e) h g = ground arith
ThreadMove-fits s t o (end e) h g = ground arith

-- What holds of a system in every reachable state.
pub record Inv (server : ApiServer) (callers : ℕ → Caller) : Type 0 where
  pub agreed : IsAgreed server
  pub fitting : (i : ℕ) → fits server (callers i) ≡ true
  pub single : (i j : ℕ) → is_starter (callers i) ≡ true → is_starter (callers j) ≡ true → i ≡ j

pub update_cases :
    (f : ℕ → Caller) (i : ℕ) (c : Caller) (j : ℕ)
    → ((i ≡ j) × (update f i c j ≡ c)) ⊎ ((i ≢ j) × (update f i c j ≡ f j))
update_cases f i c j = elim (ℕ_discrete i j) [
  | yes e ↦ inl (e, if_pos _ e c (f j))
  | no e ↦ inr (e, if_neg _ e c (f j))
]

-- In the state `new` no call is under way.
none_starting :
    (s : ApiServer) (o : Caller) → s.state ≡ new → fits s o ≡ true → is_starter o ≡ false
none_starting s o e g = ground arith

module _ (s : System) (inv : Inv s.server s.callers) (i : ℕ) {t : ApiServer} {d : Caller}
    (m : Move s.server (s.callers i) t d) where
  kept : Kept s.server (s.callers i) t d
  kept = Move-Kept s.server (s.callers i) t d m inv.agreed (inv.fitting i)

  other_fits : (j : ℕ) → i ≢ j → fits t (s.callers j) ≡ true
  other_fits j apart =
      Move-fits s.server (s.callers i) t d (s.callers j) m inv.agreed (inv.fitting i)
        (inv.fitting j)
        (λ begins. elim (Bool-cases (is_starter (s.callers j))) [
          | inl also ↦ absurd (apart (inv.single i j begins also))
          | inr not_also ↦ not_also
        ])

  -- A caller that becomes a starter was one, or none was.
  starter_apart : (j : ℕ) → i ≢ j → is_starter d ≡ true → is_starter (s.callers j) ≡ true → i ≡ j
  starter_apart j apart begins also = elim (kept.starter begins) [
    | inl before ↦ inv.single i j before also
    | inr fresh ↦ absurd (cc (none_starting s.server (s.callers j) fresh (inv.fitting j), also))
  ]

  caller-Inv : Inv t (update s.callers i d)
  caller-Inv = record {
    agreed = kept.agreed;
    fitting = λ j. elim (update_cases s.callers i d j) [
      | inl (same, e) ↦ rw e kept.fitting
      | inr (apart, e) ↦ rw e (other_fits j apart)
    ];
    single = λ j k a b. elim (update_cases s.callers i d j) [
      | inl (j_same, ej) ↦ elim (update_cases s.callers i d k) [
        | inl (k_same, ek) ↦ sym j_same ∙ k_same
        | inr (k_apart, ek) ↦ sym j_same ∙ starter_apart k k_apart (rw ej at a) (rw ek at b)
      ]
      | inr (j_apart, ej) ↦ elim (update_cases s.callers i d k) [
        | inl (k_same, ek) ↦ sym (starter_apart j j_apart (rw ek at b) (rw ej at a)) ∙ k_same
        | inr (k_apart, ek) ↦ inv.single j k (rw ej at a) (rw ek at b)
      ]
    ];
  }

Step-Inv : {s t : System} → Step s t → Inv s.server s.callers → Inv t.server t.callers
Step-Inv {s} (caller i m) inv = caller-Inv s inv i m
Step-Inv {s} (thread m) inv = record {
  agreed = ThreadMove-IsAgreed s.server _ m inv.agreed;
  fitting = λ i. ThreadMove-fits s.server _ (s.callers i) m inv.agreed (inv.fitting i);
  single = inv.single;
}

pub Reach-Inv : {s : System} → Reach s → Inv s.server s.callers
Reach-Inv start = record {
  agreed = (refl, refl);
  fitting = λ i. refl;
  single = λ i j a b. absurd (cc);
}
Reach-Inv (later r st) = Step-Inv st (Reach-Inv r)
