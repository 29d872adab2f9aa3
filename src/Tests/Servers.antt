-- ===== src/Tests/Servers.antt =====
-- Runs of one server with two callers.
use native.Mathlib.Decide.{ℕ_discrete}
use frontdoor.Prelude.{ℕ, ◌≡◌, ◌≢◌, refl, true}
use frontdoor.Server.{
  new_server, launching, polling, raised, ThreadState, other_error, begin_start, finish_awaiting,
}
use frontdoor.Server.System.{
  System, Step, Steps, Reach, start, later, init, caller, call_start, launch, update,
}
use frontdoor.Server.Invariant.{IsAgreed}
use frontdoor.Server.Lifecycle.{
  Reach-IsAgreed, may_follow, Step-may_follow, IsAbandoned, stop_abandons,
}

-- Caller 0 is about to start the thread.
abbrev at_launch : System
at_launch = record {
  server = (begin_start new_server).0;
  callers = update init.callers 0 (begin_start new_server).1;
}

at_launch-Reach : Reach at_launch
at_launch-Reach = later start (caller 0 (call_start refl))

-- Its thread serves, and it polls.
abbrev at_poll : System
at_poll = record {
  server = record at_launch.server { thread = ThreadState.serving };
  callers = update at_launch.callers 0 polling;
}

launch-Step : Step at_launch at_poll
unfolding begin_start ℕ_discrete
launch-Step = caller 0 (launch refl)

at_poll-Reach : Reach at_poll
at_poll-Reach = later at_launch-Reach launch-Step

Reach-IsAgreed_example :
    IsAgreed at_poll.server × (finish_awaiting at_poll.server ≢ raised other_error)
Reach-IsAgreed_example = Reach-IsAgreed at_poll-Reach

Step-may_follow_example : may_follow at_launch.server.state at_poll.server.state ≡ true
Step-may_follow_example = Step-may_follow at_launch-Reach launch-Step

zero_apart : ◌≢◌ {A = ℕ} 0 1
zero_apart same = absurd cc

about_to_launch : at_launch.callers 0 ≡ launching
unfolding begin_start ℕ_discrete
about_to_launch = refl

stop_abandons_example : (t : System) × Steps at_launch t × IsAbandoned 0 1 t
unfolding ℕ_discrete
stop_abandons_example = stop_abandons 0 1 at_launch-Reach zero_apart about_to_launch refl
