-- ===== src/Server.antt =====
-- The lifecycle of the HTTP server, bridgewire/adapters/http/uvicorn_server.py, a locked section at a
-- time. Uvicorn, the thread and the clock are what the environment does: `Server.System` has the
-- steps of the callers and of the thread, in any order.
pub mod System
pub mod Invariant
pub mod Lifecycle
use frontdoor.Prelude.{
  Bool, true, false, not, ◌&&◌, List, [], ◌∷◌, Option, none, some, Result, ok, err, if◌then◌else◌,
}

pub data ApiServerState : Type 0 where
  new starting running start_failed start_timed_out failed : ApiServerState
  stopping stopped stop_timed_out : ApiServerState

-- The exceptions of the module, and those of `run` and of `Thread.start`, which it only keeps.
pub data ServerError : Type 0 where
  lifecycle_error startup_error startup_timeout startup_cancelled : ServerError
  shutdown_timeout server_error other_error : ServerError

-- Where the server's thread is: not started, in `run`, past the last locked section of
-- `_thread_main`, or ended.
pub data ThreadState : Type 0 where
  unborn serving finishing dead : ThreadState

abbrev pub is_alive : ThreadState → Bool
is_alive unborn = false
is_alive serving = true
is_alive finishing = true
is_alive dead = false

-- The newest failure stands first. `started` and `should_exit` are attributes of Uvicorn's server.
pub record ApiServer : Type 0 where
  pub state : ApiServerState
  pub failures : List ServerError
  pub thread : ThreadState
  pub started : Bool
  pub should_exit : Bool
  pub stop_complete : Bool

-- `UvicornThreadServer.__init__`
abbrev pub new_server : ApiServer
new_server = record {
  state = new;
  failures = [];
  thread = unborn;
  started = false;
  should_exit = false;
  stop_complete = false;
}

pub record ApiServerSnapshot : Type 0 where
  pub state : ApiServerState
  pub thread_alive : Bool
  pub failures : List ServerError

unfoldable pub server_snapshot : ApiServer → ApiServerSnapshot
server_snapshot s = record {
  state = s.state;
  thread_alive = is_alive s.thread;
  failures = s.failures;
}

abbrev pub fail_with : ServerError → ApiServerState → ApiServer → ApiServer
fail_with e state s = record s { failures = e ∷ s.failures; state = state }

-- Where a caller of `start` or `stop` goes on after a section: the call is over, or it is to start the
-- thread, to poll, to ask for an exit and join the thread after a timeout, to join it in `stop`, or to
-- wait for another `stop`.
pub data Caller : Type 0 where
  idle : Caller
  launching polling asking_exit joining_start joining_stop awaiting_stop : Caller
  returned : Caller
  raised : ServerError → Caller

-- The first section of `start`.
abbrev pub start_from : ApiServerState → ApiServer → ApiServer × Caller
start_from new s = (record s { state = starting }, launching)
start_from _ s = (s, raised lifecycle_error)

unfoldable pub begin_start : ApiServer → ApiServer × Caller
begin_start s = start_from s.state s

-- The `except` clause round `Thread.start`.
unfoldable pub launch_failed : ServerError → ApiServer → ApiServer × Caller
launch_failed e s = (fail_with e start_failed s, raised startup_error)

-- The end of the last section of `start`, where the state decides nothing.
abbrev pub start_late : Bool → ApiServer → ApiServer × Caller
start_late false s = (s, raised startup_error)
start_late true s = (fail_with startup_timeout start_timed_out s, asking_exit)

-- The last section of `start`.
abbrev pub started_from : ApiServerState → ApiServer → ApiServer × Caller
started_from start_failed s = (s, raised startup_error)
started_from failed s = (s, raised startup_error)
started_from stopping s = (s, raised startup_cancelled)
started_from stopped s = (s, raised startup_cancelled)
started_from starting s =
    if s.started then (record s { state = running }, returned) else start_late (is_alive s.thread) s
started_from _ s = start_late (is_alive s.thread) s

unfoldable pub finish_start : ApiServer → ApiServer × Caller
finish_start s = started_from s.state s

-- `self._server.should_exit = True`, after a timeout.
unfoldable pub ask_exit : ApiServer → ApiServer
ask_exit s = record s { should_exit = true }

-- The first section of `stop` once the thread is alive, and where it is not.
abbrev pub stop_alive : ApiServerState → ApiServer → ApiServer × Caller
stop_alive stopping s = (s, awaiting_stop)
stop_alive _ s =
    (record s { state = stopping; stop_complete = false; should_exit = true }, joining_stop)

abbrev pub stop_dead : ApiServerState → ApiServer → ApiServer × Caller
stop_dead start_failed s = (s, returned)
stop_dead failed s = (s, returned)
stop_dead stopped s = (s, returned)
stop_dead _ s = (record s { state = stopped }, returned)

abbrev pub stop_from : ApiServerState → ApiServer → ApiServer × Caller
stop_from new s = (record s { state = stopped }, returned)
stop_from state s = if is_alive s.thread then stop_alive state s else stop_dead state s

unfoldable pub begin_stop : ApiServer → ApiServer × Caller
begin_stop s = stop_from s.state s

-- The section after the wait for another `stop`; the assertion in it raises where the last failure is
-- no shutdown timeout.
abbrev pub awaited_failure : List ServerError → Caller
awaited_failure (shutdown_timeout ∷ _) = raised shutdown_timeout
awaited_failure _ = raised other_error

abbrev pub awaited_from : ApiServerState → ApiServer → Caller
awaited_from stop_timed_out s = awaited_failure s.failures
awaited_from _ s = returned

unfoldable pub finish_awaiting : ApiServer → Caller
finish_awaiting s = awaited_from s.state s

-- The last section of `stop`, after the join.
unfoldable pub finish_stop : ApiServer → ApiServer × Caller
finish_stop s =
    if is_alive s.thread
    then (
      record (fail_with shutdown_timeout stop_timed_out s) { stop_complete = true },
      raised shutdown_timeout,
    )
    else (record s { state = stopped; stop_complete = true }, returned)

-- The sections of `_thread_main`, where `run` raises and where it returns.
abbrev pub crash_state : ApiServerState → Bool → ApiServerState
crash_state starting false = start_failed
crash_state starting true = failed
crash_state _ started = failed

unfoldable pub run_raised : ServerError → ApiServer → ApiServer
run_raised e s = fail_with e (crash_state s.state s.started) s

abbrev pub returned_from : ApiServerState → ApiServer → ApiServer
returned_from starting s = fail_with startup_error start_failed s
returned_from running s = fail_with server_error failed s
returned_from stopping s = record s { state = stopped }
returned_from _ s = s

unfoldable pub run_returned : ApiServer → ApiServer
run_returned s = returned_from s.state s
