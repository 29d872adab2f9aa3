-- ===== src/Server/System.antt =====
-- Callers and the thread of one server, bridgewire/adapters/http/uvicorn_server.py, interleaved in
-- any order. A caller starts and stops the server as often as it likes.
use mathlib.Core.Logic.{ite}
use native.Mathlib.Decide.{ℕ_discrete}
use frontdoor.Prelude.{ℕ, Bool, true, false, ◌≡◌}
use frontdoor.Server.{
  ServerError, unborn, serving, finishing, dead, ApiServer, new_server, Caller, idle, launching,
  polling, asking_exit, joining_start, joining_stop, awaiting_stop, returned, raised, begin_start,
  launch_failed, finish_start, ask_exit, begin_stop, finish_awaiting, finish_stop, run_raised,
  run_returned,
}

-- A call may begin where none is under way.
abbrev pub is_free : Caller → Bool
is_free idle = true
is_free returned = true
is_free (raised _) = true
is_free _ = false

-- A step of one caller. The poll, a join and a wait may end at any time, since each has a timeout.
pub data Move (s : ApiServer) : Caller → ApiServer → Caller → Type 0 where
  call_start : {c : Caller} → is_free c ≡ true → Move s c (begin_start s).0 (begin_start s).1
  launch : s.thread ≡ unborn → Move s launching (record s { thread = serving }) polling
  launch_fails : (e : ServerError) → Move s launching (launch_failed e s).0 (launch_failed e s).1
  poll : Move s polling (finish_start s).0 (finish_start s).1
  ask : Move s asking_exit (ask_exit s) joining_start
  start_join : Move s joining_start s (raised ServerError.startup_timeout)
  call_stop : {c : Caller} → is_free c ≡ true → Move s c (begin_stop s).0 (begin_stop s).1
  await : Move s awaiting_stop s (finish_awaiting s)
  stop_join : Move s joining_stop (finish_stop s).0 (finish_stop s).1

-- A step of the thread; Uvicorn sets `started` while it runs.
pub data ThreadMove (s : ApiServer) : ApiServer → Type 0 where
  start_up : s.thread ≡ serving → ThreadMove s (record s { started = true })
  crash :
      (e : ServerError)
      → s.thread ≡ serving
      → ThreadMove s (record (run_raised e s) { thread = finishing })
  leave : s.thread ≡ serving → ThreadMove s (record (run_returned s) { thread = finishing })
  end : s.thread ≡ finishing → ThreadMove s (record s { thread = dead })

abbrev pub update : (ℕ → Caller) → ℕ → Caller → ℕ → Caller
update f i c j = ite (ℕ_discrete i j) c (f j)

pub record System : Type 0 where
  pub server : ApiServer
  pub callers : ℕ → Caller

pub data Step (s : System) : System → Type 0 where
  caller :
      (i : ℕ) {server : ApiServer} {c : Caller}
      → Move s.server (s.callers i) server c
      → Step s (record { server = server; callers = update s.callers i c })
  thread : {server : ApiServer} → ThreadMove s.server server → Step s (record s { server = server })

abbrev pub init : System
init = record { server = new_server; callers = λ _. idle }

pub data Reach : System → Type 0 where
  start : Reach init
  later : {s t : System} → Reach s → Step s t → Reach t

-- One step after the other, from a system.
pub data Steps (s : System) : System → Type 0 where
  done : Steps s s
  after : {t u : System} → Steps s t → Step t u → Steps s u
