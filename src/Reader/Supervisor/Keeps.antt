-- ===== src/Reader/Supervisor/Keeps.antt =====
-- What the events of a supervisor leave as it is in the world, if its callables do.
use frontdoor.Prelude.{ℕ, String, some, ◌≡◌}
use frontdoor.Reader.Supervisor.State.{
  ReaderEventType, ReaderEvent, ReaderSupervisor, Host, Reading,
}
use frontdoor.Reader.Supervisor.Effects.{on_world, emit, wait, emit_attempt, emit_plain}

-- Every callable keeps a property of the world.
pub record HostKeeps {W Session : Type 0} (P : W → Type 0) (host : Host W Session) : Type 0 where
  pub enumerates : (w : W) → P w → P (host.enumerate_devices w).1
  pub opens : (path : String) (w : W) → P w → P (host.open_reader path w).1
  pub reads : (s : Session) (w : W) → P w → P (host.read s w).1
  pub closes : (s : Session) (w : W) → P w → P (host.close s w).1
  pub waits : (s : ReaderSupervisor Session) (n : ℕ) (w : W) → P w → P (host.wait s n w).1
  pub emits : (s : ReaderSupervisor Session) (e : ReaderEvent) (w : W) → P w → P (host.emit s e w).1
  pub draws : (w : W) → P w → P (host.random_unit w).1
  pub clocks :
      (monotonic : W → ℕ × W) (w : W) → host.monotonic ≡ some monotonic → P w → P (monotonic w).1

module _ {W Session : Type 0} (P : W → Type 0) (host : Host W Session)
    (keeps : HostKeeps P host) where
  pub emit_keeps : (e : ReaderEvent) (r : Reading W Session) → P r.world → P (emit host e r).1.world
  unfolding emit on_world
  emit_keeps e r h = keeps.emits r.reader e r.world h

  pub emit_attempt_keeps :
      (t : ReaderEventType) (n : ℕ) (r : Reading W Session)
      → P r.world
      → P (emit_attempt host t n r).1.world
  unfolding emit_attempt
  emit_attempt_keeps t n r h = emit_keeps _ r h

  pub emit_plain_keeps :
      (t : ReaderEventType) (r : Reading W Session) → P r.world → P (emit_plain host t r).1.world
  unfolding emit_plain
  emit_plain_keeps t r h = emit_keeps _ r h

  pub wait_keeps : (n : ℕ) (r : Reading W Session) → P r.world → P (wait host n r).1.world
  unfolding wait on_world
  wait_keeps n r h = keeps.waits r.reader n r.world h
