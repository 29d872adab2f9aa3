-- ===== src/Runtime/Waiting.antt =====
-- `EventWaiter`, `cooperative_wait` and the publication of snapshots of bridgewire/application/runtime.py.
use frontdoor.Prelude.{
  ℕ, zero, suc, ◌+◌, ◌-◌, min, Bool, true, false, Option, none, some, assertion_error, ok, err,
  Exec, pure, ◌>>◌, leb, if◌then◌else◌,
}
use frontdoor.Controller.State.{snapshot}
use frontdoor.Controller.Operations.{tick}
use frontdoor.Reader.Supervisor.State.{Host, Reading}
use frontdoor.Reader.Supervisor.Effects.{on_world}
use frontdoor.Reader.Supervisor.Read.{snapshot as reader_snapshot}
use frontdoor.Status.{publish}
use frontdoor.Runtime.{Devices, Hub, on_base, on_door}

module _ {S : Type 0} (monotonic : S → ℕ × S) (wait_for : ℕ → S → Bool × S) (interval : ℕ)
    (on_interval : Exec S Unit) where
  -- The loop of `EventWaiter.wait`, with fuel: `none` is an end of the fuel.
  unfoldable pub wait_loop : ℕ → ℕ → Exec S (Option Bool)
  wait_loop zero deadline s = (ok none, s)
  wait_loop (suc fuel) deadline s =
      let (now, s1) = monotonic s in
      if leb deadline now
      then (ok (some true), s1)
      else (let (ticked, s2) = on_interval s1 in
          let (later, s3) = monotonic s2 in
          let (stopped, s4) = wait_for (min interval (deadline - later)) s3 in
          let rest = wait_loop fuel deadline s4 in
          elim ticked [
            | err e ↦ (err e, s2)
            | ok _ ↦ if stopped then (ok (some false), s4) else rest
          ])

  -- `EventWaiter.wait`; the fuel is one round for each tick of the time, and one more.
  unfoldable pub event_wait : ℕ → Exec S (Option Bool)
  unfolding wait_loop
  event_wait seconds s = let (now, s1) = monotonic s in wait_loop (suc seconds) (now + seconds) s1

module _ {W Session : Type 0} (devices : Devices W Session) where
  -- The host of the supervisor but for the two callbacks, which the snapshots do not use.
  abbrev pub quiet_host : Host (Hub W) Session
  quiet_host = record {
    enumerate_devices = on_base devices.enumerate_devices;
    open_reader = λ path. on_base (devices.open_reader path);
    usable = devices.usable;
    read = λ session. on_base (devices.read session);
    close = λ session. on_base (devices.close session);
    wait = λ s seconds. pure true;
    emit = λ s event. pure tt;
    random_unit = on_base devices.random_unit;
    monotonic =
        some (λ h. let (now, w) = devices.ports.monotonic h.world in (now, record h { world = w }));
  }

  -- `_publish_snapshot`
  unfoldable pub publish_snapshot : Exec (Reading (Hub W) Session) Unit
  publish_snapshot r = elim r.world.store [
    | none ↦ (ok tt, r)
    | some store ↦
        let (controller, d) =
          snapshot devices.ports
            (record { controller = r.world.controller; world = r.world.world }) in
        let r' = record r { world = record r.world { world = d.world } } in
        let (reader, r'') = reader_snapshot quiet_host r' in
        let (now, w) = devices.ports.now r''.world.world in
        let (published, store') = publish controller reader now store in
        (published, record r'' { world = record r''.world { store = some store'; world = w } })
  ]

  -- `_tick_and_publish`
  unfoldable pub tick_and_publish : Exec (Reading (Hub W) Session) Unit
  unfolding on_world publish_snapshot
  tick_and_publish = do on_world (on_door (tick devices.ports)); publish_snapshot

  -- `self._clock.monotonic()` and `self._stop_event.wait(…)` on a supervisor and its hub.
  abbrev pub hub_monotonic : Reading (Hub W) Session → ℕ × Reading (Hub W) Session
  hub_monotonic r =
      let (now, w) = devices.ports.monotonic r.world.world in
      (now, record r { world = record r.world { world = w } })

  abbrev pub hub_wait_for : ℕ → Reading (Hub W) Session → Bool × Reading (Hub W) Session
  hub_wait_for seconds r =
      let (stopped, w) = devices.wait_for seconds r.world.world in
      (stopped, record r { world = record r.world { world = w } })

  -- `cooperative_wait` with an `EventWaiter`; a wait that runs out of fuel fails an assertion.
  unfoldable pub cooperative_wait : ℕ → Exec (Reading (Hub W) Session) Bool
  unfolding event_wait
  cooperative_wait seconds r =
      let (ended, r') =
        event_wait hub_monotonic hub_wait_for devices.interval tick_and_publish seconds r in
      elim ended [
        | err e ↦ (err e, r')
        | ok answer ↦ elim answer [ none ↦ (err assertion_error, r') | some b ↦ (ok b, r') ]
      ]
