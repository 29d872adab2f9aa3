-- ===== src/Reader/Supervisor/Effects.antt =====
-- The steps that the methods of a supervisor share.
use frontdoor.Prelude.{ℕ, Bool, none, Result, ok, Exec}
use frontdoor.Reader.Supervisor.State.{
  ReaderEventType, ReaderEvent, ReaderSupervisor, Host, Reading,
}

module _ {W Session : Type 0} where
  -- An operation of the host, on the world of a reading.
  unfoldable pub on_world : {A : Type 0} → (W → Result A × W) → Exec (Reading W Session) A
  on_world f r = let (result, w) = f r.world in (result, record r { world = w })

  unfoldable pub update :
      (ReaderSupervisor Session → ReaderSupervisor Session) → Exec (Reading W Session) Unit
  update f r = (ok tt, record r { reader = f r.reader })

module _ {W Session : Type 0} (host : Host W Session) where
  unfoldable pub emit : ReaderEvent → Exec (Reading W Session) Unit
  unfolding on_world
  emit event r = on_world (host.emit r.reader event) r

  unfoldable pub wait : ℕ → Exec (Reading W Session) Bool
  unfolding on_world
  wait seconds r = on_world (host.wait r.reader seconds) r

  -- `ReaderEvent(event_type, self._attempt, unrelated_count=…)`
  unfoldable pub emit_attempt : ReaderEventType → ℕ → Exec (Reading W Session) Unit
  unfolding emit
  emit_attempt event_type unrelated r =
      emit
        (record {
          event_type = event_type;
          attempt = r.reader.attempt;
          backoff_seconds = none;
          unrelated_count = unrelated;
        })
        r

  -- `ReaderEvent(event_type)`
  unfoldable pub emit_plain : ReaderEventType → Exec (Reading W Session) Unit
  unfolding emit
  emit_plain event_type =
      emit (record {
        event_type = event_type;
        attempt = 0;
        backoff_seconds = none;
        unrelated_count = 0;
      })
