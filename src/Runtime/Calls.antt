-- ===== src/Runtime/Calls.antt =====
-- The controller of bridgewire/controller.py under the loop of bridgewire/application/runtime.py.
use frontdoor.Prelude.{
  Result-cases, ◌>>=◌, ◌>>◌, is_none, ℕ, zero, suc, ◌-◌, min, ◌≡◌, Bool, true, false, Option, none,
  some, List, [], ◌∷◌, Exec, arith, inl, inr, sym, subst,
}
use frontdoor.Reader.Record.{RecordResult}
use frontdoor.Reader.Stream.{ReaderRecordStream}
use frontdoor.Controller.Operations.{start, tick, recoverable_failure, shutdown, process}
use frontdoor.Controller.State.{Ports, Door, AccessController}
use frontdoor.Access.{submit_record, physical_reader}
use frontdoor.Reader.Supervisor.State.{ReaderEvent, ReaderSupervisor, Reading}
use frontdoor.Reader.Supervisor.Effects.{on_world}
use frontdoor.Reader.Supervisor.Keeps.{HostKeeps}
use frontdoor.Reader.Supervisor.Connect.Keeps.{connect_until_ready_keeps}
use frontdoor.Reader.Supervisor.Read.Keeps.{read_records_once_keeps}
use frontdoor.Runtime.{finally, Devices, Hub, on_base, on_door}
use frontdoor.Runtime.Events.{host, append_reader_event, record_reader_event}
use frontdoor.Runtime.Waiting.{
  publish_snapshot, tick_and_publish, wait_loop, event_wait, cooperative_wait, hub_monotonic,
  hub_wait_for,
}
use frontdoor.Runtime.Loop.{
  start_runtime, submit_all, connect_round, read_round, round_of, run_once, handle_failure,
}
use frontdoor.Runtime.Cleanup.{publish_snapshot-controller, door_of}

-- The methods of the controller that the runtime calls keep a property.
pub record Kept {W : Type 0} (P : AccessController → Type 0) (ports : Ports W) : Type 0 where
  pub starts : (d : Door W) → P d.controller → P (start ports d).1.controller
  pub ticks : (d : Door W) → P d.controller → P (tick ports d).1.controller
  pub fails : (d : Door W) → P d.controller → P (recoverable_failure ports d).1.controller
  pub ends : (d : Door W) → P d.controller → P (shutdown ports d).1.controller
  pub processes :
      (r : RecordResult) (d : Door W) → P d.controller → P (process ports r d).1.controller

pub bind_keeps :
    {S A B : Type 0} (P : S → Type 0) (m : Exec S A) (f : A → Exec S B) (s : S)
    → P (m s).1
    → ((a : A) (t : S) → P t → P (f a t).1)
    → P ((m >>= f) s).1
bind_keeps P m f s h k = elim (Result-cases (m s).0) [
  | inl (a, made) ↦ ground (arith, made, k a (m s).1 h)
  | inr (e, failed) ↦ ground (arith, failed, h)
]

-- A property of the result of a reading of a clock, if there is a clock.
abbrev AfterClock : {S : Type 0} → (S → Type 0) → S → Option (S → ℕ × S) → Type 0
AfterClock P s none = Unit
AfterClock P s (some monotonic) = P (monotonic s).1

module _ {S : Type 0} (P : S → Type 0) (monotonic : S → ℕ × S) (wait_for : ℕ → S → Bool × S)
    (interval : ℕ) (on_interval : Exec S Unit) (reads : (s : S) → P s → P (monotonic s).1)
    (waits : (n : ℕ) (s : S) → P s → P (wait_for n s).1)
    (ticks : (s : S) → P s → P (on_interval s).1) where
  wait_loop_keeps :
      (fuel deadline : ℕ) (s : S)
      → P s
      → P (wait_loop monotonic wait_for interval on_interval fuel deadline s).1
  unfolding wait_loop
  wait_loop_keeps zero deadline s h = h
  wait_loop_keeps (suc fuel) deadline s h =
      let h1 = reads s h in
      let s1 = (monotonic s).1 in
      let h2 = ticks s1 h1 in
      let s2 = (on_interval s1).1 in
      let h3 = reads s2 h2 in
      let s3 = (monotonic s2).1 in
      let seconds = min interval (deadline - (monotonic s2).0) in
      let h4 = waits seconds s3 h3 in
      let h5 = wait_loop_keeps fuel deadline (wait_for seconds s3).1 h4 in
      ground (arith, h1, h2, h4, h5)

  event_wait_keeps :
      (seconds : ℕ) (s : S)
      → P s
      → P (event_wait monotonic wait_for interval on_interval seconds s).1
  unfolding event_wait
  event_wait_keeps seconds s h = wait_loop_keeps (suc seconds) _ _ (reads s h)

module _ {W Session : Type 0} (devices : Devices W Session) (P : AccessController → Type 0)
    (kept : Kept P devices.ports) where
  abbrev HasKept : Reading (Hub W) Session → Type 0
  HasKept r = P r.world.controller

  publish_snapshot_keeps :
      (r : Reading (Hub W) Session)
      → P r.world.controller
      → P (publish_snapshot devices r).1.world.controller
  publish_snapshot_keeps r h = subst P (sym (publish_snapshot-controller devices r).0) h

  tick_and_publish_keeps :
      (r : Reading (Hub W) Session)
      → P r.world.controller
      → P (tick_and_publish devices r).1.world.controller
  unfolding tick_and_publish on_world
  tick_and_publish_keeps r h =
      bind_keeps HasKept (on_world (on_door (tick devices.ports))) (λ _. publish_snapshot devices) r
        (kept.ticks (door_of r) h) (λ _ r' k. publish_snapshot_keeps r' k)

  pub cooperative_wait_keeps :
      (n : ℕ) (r : Reading (Hub W) Session)
      → P r.world.controller
      → P (cooperative_wait devices n r).1.world.controller
  unfolding cooperative_wait
  cooperative_wait_keeps n r h =
      let waited =
        event_wait_keeps (λ r. P r.world.controller) (hub_monotonic devices) (hub_wait_for devices)
          devices.interval (tick_and_publish devices) (λ s k. k) (λ m s k. k) tick_and_publish_keeps
          n r h in
      ground (arith, waited)

  append_reader_event_keeps :
      (s : ReaderSupervisor Session) (e : ReaderEvent) (h : Hub W)
      → (append_reader_event devices s e h).1.controller ≡ h.controller
  unfolding append_reader_event
  append_reader_event_keeps s e h = ground arith

  pub record_reader_event_keeps :
      (s : ReaderSupervisor Session) (e : ReaderEvent) (h : Hub W)
      → (record_reader_event devices s e h).1.controller ≡ h.controller
  unfolding record_reader_event
  record_reader_event_keeps s e h = grind (arith, append_reader_event_keeps)

  host_keeps : (stream : ReaderRecordStream) → HostKeeps (λ h. P h.controller) (host devices stream)
  unfolding host
  host_keeps stream = record {
    enumerates = λ w k. k;
    opens = λ path w k. k;
    reads = λ s w k. k;
    closes = λ s w k. k;
    waits =
        λ s n w k. cooperative_wait_keeps n (record { reader = s; stream = stream; world = w }) k;
    emits = λ s e w k. subst P (sym (record_reader_event_keeps s e w)) k;
    draws = λ w k. k;
    clocks = λ monotonic w same k. subst (AfterClock (λ h. P h.controller) w) same k;
  }

  pub start_runtime_keeps :
      (r : Reading (Hub W) Session)
      → P r.world.controller
      → P (start_runtime devices r).1.world.controller
  unfolding start_runtime on_world
  start_runtime_keeps r h =
      bind_keeps HasKept (on_world (on_door (start devices.ports)))
        (λ _.
          on_world (on_base (devices.report "degraded" (("reason", "reader_connecting") ∷ [])))
          >> publish_snapshot devices)
        r (kept.starts (door_of r) h)
        (λ _ r' k.
          bind_keeps HasKept
            (on_world (on_base (devices.report "degraded" (("reason", "reader_connecting") ∷ []))))
            (λ _. publish_snapshot devices) r' k (λ _ r'' k'. publish_snapshot_keeps r'' k'))

  pub handle_failure_keeps :
      (r : Reading (Hub W) Session)
      → P r.world.controller
      → P (handle_failure devices r).1.world.controller
  unfolding handle_failure on_world
  handle_failure_keeps r h =
      bind_keeps HasKept (on_world (on_door (recoverable_failure devices.ports)))
        (λ _. publish_snapshot devices) r (kept.fails (door_of r) h)
        (λ _ r' k. publish_snapshot_keeps r' k)

  submit_record_keeps :
      (x : RecordResult) (d : Door W)
      → P d.controller
      → P (submit_record devices.ports x physical_reader d).1.controller
  unfolding submit_record
  submit_record_keeps x d h = grind (arith, kept.processes x d h)

  submit_all_keeps :
      (xs : List RecordResult) (r : Reading (Hub W) Session)
      → P r.world.controller
      → P (submit_all devices xs r).1.world.controller
  unfolding submit_all on_world
  submit_all_keeps [] r h = h
  submit_all_keeps (x ∷ xs) r h =
      bind_keeps HasKept (on_world (on_door (submit_record devices.ports x physical_reader)))
        (λ _. submit_all devices xs) r (submit_record_keeps x (door_of r) h)
        (λ _ r' k. submit_all_keeps xs r' k)

  tick_keeps :
      (r : Reading (Hub W) Session)
      → P r.world.controller
      → P (on_world {Session = Session} (on_door (tick devices.ports)) r).1.world.controller
  unfolding on_world
  tick_keeps r h = kept.ticks (door_of r) h

  connect_round_keeps :
      (r : Reading (Hub W) Session)
      → P r.world.controller
      → P (connect_round devices r).1.world.controller
  unfolding connect_round on_world
  connect_round_keeps r h = grind (
    arith,
    connect_until_ready_keeps (λ h. P h.controller) (host devices r.stream) (host_keeps r.stream) 1
        r h,
  )

  read_round_keeps :
      (r : Reading (Hub W) Session)
      → P r.world.controller
      → P (read_round devices r).1.world.controller
  unfolding read_round
  read_round_keeps r h = grind (
    arith,
    read_records_once_keeps (λ h. P h.controller) (host devices r.stream) (host_keeps r.stream) r h,
    submit_all_keeps,
    tick_keeps,
  )

  round_of_keeps :
      (disconnected : Bool) (r : Reading (Hub W) Session)
      → P r.world.controller
      → P (round_of devices disconnected r).1.world.controller
  unfolding round_of
  round_of_keeps true r h = connect_round_keeps r h
  round_of_keeps false r h = read_round_keeps r h

  finally_keeps :
      {A : Type 0} (m : Exec (Reading (Hub W) Session) A) (r : Reading (Hub W) Session)
      → P (m r).1.world.controller
      → P (finally m (publish_snapshot devices) r).1.world.controller
  finally_keeps m r h = ground (arith, publish_snapshot_keeps (m r).1 h)

  pub run_once_keeps :
      (r : Reading (Hub W) Session)
      → P r.world.controller
      → P (run_once devices r).1.world.controller
  unfolding run_once
  run_once_keeps r h =
      bind_keeps HasKept (on_world (on_door (tick devices.ports)))
        (λ _ r'.
          finally (round_of devices (is_none r'.reader.session)) (publish_snapshot devices) r')
        r (tick_keeps r h)
        (λ _ r' k.
          finally_keeps (round_of devices (is_none r'.reader.session)) r'
            (round_of_keeps (is_none r'.reader.session) r' k))
