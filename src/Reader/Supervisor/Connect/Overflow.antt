-- ===== src/Reader/Supervisor/Connect/Overflow.antt =====
-- A reader that stays away: no device is ever listed, and every wait runs its time.
use frontdoor.Prelude.{
  ℕ, zero, suc, ◌+◌, ◌≤◌, ◌<◌, ◌≡◌, refl, true, false, [], ok, err, overflow_error, arith,
}
use frontdoor.Reader.Backoff.{BackoffPolicy, delay, jittered}
use frontdoor.Reader.Backoff.Bounds.{base_delay, delay_overflows}
use frontdoor.Reader.Discovery.{discover_reader}
use frontdoor.Reader.Supervisor.State.{
  ReaderEvent, reader_not_found, ReaderSupervisor, Host, Reading, retry,
}
use frontdoor.Reader.Supervisor.Connect.{
  attempt_once, connect_until_ready, finish_attempt, failure_of, finish_failure,
}

-- What the callables of the constructor do while the reader is unplugged.
pub record IsSilent {W Session : Type 0} (host : Host W Session) : Type 0 where
  pub no_device : (w : W) → (host.enumerate_devices w).0 ≡ ok []
  pub emits : (s : ReaderSupervisor Session) (e : ReaderEvent) (w : W) → (host.emit s e w).0 ≡ ok tt
  pub waits : (s : ReaderSupervisor Session) (t : ℕ) (w : W) → (host.wait s t w).0 ≡ ok true
  pub random : (w : W) → (host.random_unit w).0 ≡ ok 500

delay_fits :
    (p : BackoffPolicy) (attempt u : ℕ)
    → attempt ≤ 1024
    → delay p attempt u ≡ ok (jittered p u (base_delay p attempt))
unfolding delay
delay_fits p attempt u h = ground arith

finish_failure-fits :
    {W Session : Type 0} (host : Host W Session) (n : ℕ) (r : Reading W Session)
    → IsSilent host
    → r.reader.attempt ≤ 1024
    → ((finish_failure host reader_not_found n r).0 ≡ ok retry)
      × ((finish_failure host reader_not_found n r).1.reader.attempt ≡ r.reader.attempt)
unfolding finish_failure
finish_failure-fits host n r silent h =
    grind (arith, silent.emits, silent.waits, silent.random, delay_fits)

finish_failure-overflows :
    {W Session : Type 0} (host : Host W Session) (n : ℕ) (r : Reading W Session)
    → IsSilent host
    → 1025 ≤ r.reader.attempt
    → (finish_failure host reader_not_found n r).0 ≡ err overflow_error
unfolding finish_failure
finish_failure-overflows host n r silent h =
    grind (arith, silent.emits, silent.waits, silent.random, delay_overflows)

attempt_once_silent :
    {W Session : Type 0} (host : Host W Session) (r : Reading W Session)
    → IsSilent host
    → ((r.reader.attempt < 1024)
        → ((attempt_once host r).0 ≡ ok retry)
          × ((attempt_once host r).1.reader.attempt ≡ r.reader.attempt + 1))
      × ((1024 ≤ r.reader.attempt) → (attempt_once host r).0 ≡ err overflow_error)
unfolding attempt_once finish_attempt failure_of discover_reader
attempt_once_silent host r silent = (
  λ h. grind (arith, silent.no_device, silent.emits, finish_failure-fits host 0),
  λ h. grind (arith, silent.no_device, silent.emits, finish_failure-overflows host 0),
)

-- With no reader in sight, attempts fail one after another up to the 1024th since the last
-- connection. The call that makes one more raises `OverflowError`.
pub connect_until_ready_silent :
    {W Session : Type 0} (host : Host W Session) (n : ℕ) (r : Reading W Session)
    → IsSilent host
    → r.reader.attempt ≤ 1024
    → let result = (connect_until_ready host n r).0 in
      (r.reader.attempt + n ≤ 1024 → result ≡ ok false)
      × (1025 ≤ r.reader.attempt + n → result ≡ err overflow_error)
unfolding connect_until_ready
connect_until_ready_silent host zero r silent h = (λ few. refl, λ many. absurd (omega arith))
connect_until_ready_silent host (suc n) r silent h =
    let (fits, overflows) = attempt_once_silent host r silent in
    ground
      (arith, fits, overflows, connect_until_ready_silent host n (attempt_once host r).1 silent)
