-- ===== src/Server/Lifecycle.antt =====
-- What callers of bridgewire/adapters/http/uvicorn_server.py may rely on, in any interleaving.
use frontdoor.Prelude.{ℕ, ◌≡◌, ◌≢◌, refl, sym, ◌∙◌, ap, inl, inr, Bool, true, false, arith}
use frontdoor.Server.{
  ApiServerState, new, starting, running, start_timed_out, stopped, stop_timed_out, other_error,
  startup_cancelled, unborn, serving, ApiServer, Caller, launching, polling, returned, raised,
  begin_start, launch_failed, finish_start, ask_exit, begin_stop, finish_awaiting, finish_stop,
  run_raised, run_returned,
}
use frontdoor.Server.System.{
  is_free, Move, call_start, launch, launch_fails, poll, ask, start_join, call_stop, await,
  stop_join, ThreadMove, start_up, crash, leave, end, update, System, Step, caller, thread, Reach,
  Steps, done, after,
}
use frontdoor.Server.Invariant.{IsAgreed, fits, Reach-Inv, update_cases}

-- In every reachable state of one server with any callers: `new` is a server whose thread was not
-- started and that has no failure, `running` one whose thread serves and that Uvicorn calls started,
-- every failure state has a failure recorded, a timed-out shutdown has that timeout as its latest
-- failure, a thread that was not started was not asked to leave; and the assertion of `stop` holds.
pub Reach-IsAgreed :
    {s : System} → Reach s → IsAgreed s.server × (finish_awaiting s.server ≢ raised other_error)
unfolding finish_awaiting
Reach-IsAgreed {s} r = let inv = Reach-Inv r in (inv.agreed, ground (arith, inv.agreed))

-- The state diagram: which state may follow which.
abbrev pub may_follow : ApiServerState → ApiServerState → Bool
may_follow new new = true
may_follow new starting = true
may_follow new stopped = true
may_follow new _ = false
may_follow _ new = false
may_follow starting starting = true
may_follow _ starting = false
may_follow starting running = true
may_follow running running = true
may_follow _ running = false
may_follow starting start_timed_out = true
may_follow start_timed_out start_timed_out = true
may_follow stop_timed_out start_timed_out = true
may_follow _ start_timed_out = false
may_follow _ _ = true

Move-may_follow :
    (s : ApiServer) (c : Caller) (t : ApiServer) (d : Caller)
    → Move s c t d
    → IsAgreed s
    → fits s c ≡ true
    → may_follow s.state t.state ≡ true
unfolding begin_start launch_failed finish_start ask_exit begin_stop finish_awaiting finish_stop
Move-may_follow s c t d (call_start free) h f = ground arith
Move-may_follow s c t d (launch e) h f = ground arith
Move-may_follow s c t d (launch_fails e) h f = ground arith
Move-may_follow s c t d poll h f = ground arith
Move-may_follow s c t d ask h f = ground arith
Move-may_follow s c t d start_join h f = ground arith
Move-may_follow s c t d (call_stop free) h f = ground arith
Move-may_follow s c t d await h f = ground arith
Move-may_follow s c t d stop_join h f = ground arith

ThreadMove-may_follow :
    (s t : ApiServer) → ThreadMove s t → IsAgreed s → may_follow s.state t.state ≡ true
unfolding run_raised run_returned
ThreadMove-may_follow s t (start_up e) h = ground arith
ThreadMove-may_follow s t (crash x e) h = ground arith
ThreadMove-may_follow s t (leave e) h = ground arith
ThreadMove-may_follow s t (end e) h = ground arith

-- Every step of every caller and of the thread, from a reachable state, goes along the state diagram:
-- `new` is left for `starting` or `stopped` and never comes back, `running` comes from `starting`
-- alone, and a startup times out only while it is starting or after a shutdown timed out.
pub Step-may_follow :
    {s t : System} → Reach s → Step s t → may_follow s.server.state t.server.state ≡ true
Step-may_follow {s} r (caller i m) =
    let inv = Reach-Inv r in Move-may_follow s.server (s.callers i) _ _ m inv.agreed (inv.fitting i)
Step-may_follow {s} r (thread m) = ThreadMove-may_follow s.server _ m (Reach-Inv r).agreed

-- The callers after a step of one of them.
module _ (f : ℕ → Caller) (i : ℕ) (c : Caller) where
  update_self : update f i c i ≡ c
  update_self = elim (update_cases f i c i) [
    | inl (e, here) ↦ here
    | inr (apart, there) ↦ absurd (apart refl)
  ]

  update_other : (j : ℕ) → i ≢ j → update f i c j ≡ f j
  update_other j apart = elim (update_cases f i c j) [
    | inl (e, here) ↦ absurd (apart e)
    | inr (other, there) ↦ there
  ]

-- A system in which both calls are over and the server runs on.
pub record IsAbandoned (i j : ℕ) (s : System) : Type 0 where
  pub cancelled : s.callers i ≡ raised startup_cancelled
  pub over : s.callers j ≡ returned
  pub state : s.server.state ≡ stopped
  pub running_on : s.server.thread ≡ serving
  pub not_asked : s.server.should_exit ≡ false

stop_unlaunched :
    (s : ApiServer)
    → fits s launching ≡ true
    → IsAgreed s
    → let (t, d) = begin_stop s in
      (t.state ≡ stopped) × (t.thread ≡ unborn) × (t.should_exit ≡ false) × (d ≡ returned)
unfolding begin_stop
stop_unlaunched s f h = ground arith

poll_stopped :
    (s : ApiServer)
    → s.state ≡ stopped
    → (finish_start s).0 ≡ s × ((finish_start s).1 ≡ raised startup_cancelled)
unfolding finish_start
poll_stopped s e = ground arith

-- A `stop` that comes between the two sections of a `start` returns before the thread is started: from
-- every reachable state in which one caller is about to start the thread and another one is free, steps
-- lead on to a state in which the start was cancelled, the stop has returned and the state is
-- `stopped`, while the thread serves and was not asked to leave.
pub stop_abandons :
    {s : System} (i j : ℕ)
    → Reach s
    → i ≢ j
    → s.callers i ≡ launching
    → is_free (s.callers j) ≡ true
    → (t : System) × Steps s t × IsAbandoned i j t
stop_abandons {s} i j r apart about free =
    let inv = Reach-Inv r in
    let (is_stopped, not_born, not_asked, over) =
      stop_unlaunched s.server (rw about at (inv.fitting i)) inv.agreed in
    let s1 : System = record {
      server = (begin_stop s.server).0;
      callers = update s.callers j (begin_stop s.server).1;
    } in
    let e1 : s1.callers i ≡ launching = update_other s.callers j _ i (λ e. apart (sym e)) ∙ about in
    let s2 : System = record {
      server = record s1.server { thread = serving };
      callers = update s1.callers i polling;
    } in
    let e2 : s2.callers i ≡ polling = update_self s1.callers i polling in
    let s3 : System = record {
      server = (finish_start s2.server).0;
      callers = update s2.callers i (finish_start s2.server).1;
    } in
    let r1 : Steps s s1 = after done (caller j (call_stop free)) in
    let m2 : Move s1.server (s1.callers i) s2.server polling = rw e1 (launch not_born) in
    let r2 : Steps s s2 = after r1 (caller i m2) in
    let m3 : Move s2.server (s2.callers i) s3.server (finish_start s2.server).1 = rw e2 poll in
    let r3 : Steps s s3 = after r2 (caller i m3) in
    let (same, cancelled) = poll_stopped s2.server is_stopped in
    let over_j : s3.callers j ≡ returned =
      update_other s2.callers i _ j apart
      ∙ update_other s1.callers i polling j apart
      ∙ update_self s.callers j _
      ∙ over in
    (
      s3,
      r3,
      record {
        cancelled = update_self s2.callers i _ ∙ cancelled;
        over = over_j;
        state = ap (λ (x : ApiServer). x.state) same ∙ is_stopped;
        running_on = ap (λ (x : ApiServer). x.thread) same;
        not_asked = ap (λ (x : ApiServer). x.should_exit) same ∙ not_asked;
      },
    )
