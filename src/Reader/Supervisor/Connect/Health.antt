-- ===== src/Reader/Supervisor/Connect/Health.antt =====
-- How `connect_until_ready` leaves the supervisor, whatever the host does.
use frontdoor.Prelude.{
  ℕ, zero, suc, ◌+◌, ◌≤◌, ◌≡◌, refl, ◌⊎◌, ◌>>=◌, ◌∙◌, List, Bool, true, false, Option, none, some,
  Result, ok, err, arith, is_none,
}
use frontdoor.Reader.Discovery.{
  SerialDevice, DiscoveryResult, DiscoveryStatus, discover_reader, found, not_found, ambiguous,
}
use frontdoor.Reader.Supervisor.State.{
  ReaderEventType, connecting, ready, degraded, ReaderSupervisor, Host, Reading, Attempt, connected,
  interrupted, retry,
}
use frontdoor.Reader.Supervisor.Connect.{
  attempt_once, connect_until_ready, finish_attempt, failure_of, finish_connection, finish_failure,
}

-- A supervisor that has just connected.
pub record IsReady {Session : Type 0} (s : ReaderSupervisor Session) : Type 0 where
  pub session : is_none s.session ≡ false
  pub health : s.health_state ≡ ready
  pub attempt : s.attempt ≡ 0
  pub had_connection : s.had_connection ≡ true
  pub flag : s.repeated_failure_emitted ≡ false

-- A supervisor that has given up after some attempts.
pub record IsDown {Session : Type 0} (before : ℕ) (s : ReaderSupervisor Session) : Type 0 where
  pub session : is_none s.session ≡ true
  pub health : s.health_state ≡ degraded
  pub attempt : s.attempt ≡ before + 1

abbrev AfterAttempt : {Session : Type 0} → ℕ → Result Attempt → ReaderSupervisor Session → Type 0
AfterAttempt before (ok connected) s = IsReady s
AfterAttempt before (ok interrupted) s = IsDown before s
AfterAttempt before (ok retry) s = IsDown before s
AfterAttempt before (err e) s = Unit

finish_failure-IsDown :
    {W Session : Type 0} (host : Host W Session) (failure : ReaderEventType) (unrelated before : ℕ)
    (r : Reading W Session)
    → is_none r.reader.session ≡ true
    → r.reader.attempt ≡ before + 1
    → let (outcome, r') = finish_failure host failure unrelated r in
      AfterAttempt before outcome r'.reader
unfolding finish_failure
finish_failure-IsDown host failure unrelated before r h a = ground arith

finish_connection-IsReady :
    {W Session : Type 0} (host : Host W Session) (unrelated before : ℕ) (r : Reading W Session)
    → is_none r.reader.session ≡ false
    → let (outcome, r') = finish_connection host unrelated r in
      AfterAttempt before outcome r'.reader
unfolding finish_connection
finish_connection-IsReady host unrelated before r h = ground arith

-- An attempt that has not failed has a session.
failure_of-session :
    {W Session : Type 0} (host : Host W Session) (status : DiscoveryStatus)
    (device : Option SerialDevice) (r : Reading W Session)
    → is_none r.reader.session ≡ true
    → let (failure, r') = failure_of host status device r in
      (failure ≡ ok none → is_none r'.reader.session ≡ false)
      × ((e : ReaderEventType) → failure ≡ ok (some e) → is_none r'.reader.session ≡ true)
      × (r'.reader.attempt ≡ r.reader.attempt)
unfolding failure_of
failure_of-session host not_found device r h = ground arith
failure_of-session host ambiguous device r h = ground arith
failure_of-session host found none r h = ground arith
failure_of-session host found (some d) r h = ground arith

finish_attempt-After :
    {W Session : Type 0} (host : Host W Session) (unrelated before : ℕ)
    (failure : Result (Option ReaderEventType)) (r : Reading W Session)
    → (failure ≡ ok none → is_none r.reader.session ≡ false)
    → ((e : ReaderEventType) → failure ≡ ok (some e) → is_none r.reader.session ≡ true)
    → r.reader.attempt ≡ before + 1
    → let (outcome, r') = ((λ _. (failure, r)) >>= finish_attempt host unrelated) r in
      AfterAttempt before outcome r'.reader
unfolding finish_attempt
finish_attempt-After host unrelated before (err e) r some_ none_ a = tt
finish_attempt-After host unrelated before (ok none) r some_ none_ a =
    finish_connection-IsReady host unrelated before r (some_ refl)
finish_attempt-After host unrelated before (ok (some e)) r some_ none_ a =
    finish_failure-IsDown host e unrelated before r (none_ e refl) a

-- The rest of an attempt, once the devices are known.
after_devices :
    {W Session : Type 0} (host : Host W Session) (discovery : DiscoveryResult) (before : ℕ)
    (r : Reading W Session)
    → is_none r.reader.session ≡ true
    → r.reader.attempt ≡ before + 1
    → let (outcome, r') =
        (failure_of host discovery.status discovery.device
            >>= finish_attempt host discovery.unrelated_count)
          r in
      AfterAttempt before outcome r'.reader
after_devices host discovery before r h a =
    let (some_, none_, same) = failure_of-session host discovery.status discovery.device r h in
    let (failure, r') = failure_of host discovery.status discovery.device r in
    finish_attempt-After host discovery.unrelated_count before failure r' some_ none_ (same ∙ a)

attempt_once-After :
    {W Session : Type 0} (host : Host W Session) (r : Reading W Session)
    → is_none r.reader.session ≡ true
    → let (outcome, r') = attempt_once host r in AfterAttempt r.reader.attempt outcome r'.reader
unfolding attempt_once
attempt_once-After {W} host r h =
    let s = record r.reader { attempt = r.reader.attempt + 1; health_state = connecting } in
    grind (
      arith,
      λ (devices : List SerialDevice) (w : W).
          after_devices host (discover_reader devices r.reader.identity) r.reader.attempt
            (record r { reader = s; world = w }) h refl,
    )

-- What a call leaves, by what it returns: `before` attempts had failed, and `n` were allowed.
abbrev pub AfterConnect :
    {Session : Type 0} → ℕ → ℕ → Result Bool → ReaderSupervisor Session → Type 0
AfterConnect before n (ok true) s = IsReady s
AfterConnect before n (ok false) s =
    (is_none s.session ≡ true)
    × (s.attempt ≤ before + n)
    × ((n ≡ 0) ⊎ ((s.health_state ≡ degraded) × (before + 1 ≤ s.attempt)))
AfterConnect before n (err e) s = Unit

-- From a supervisor with no session, a call that returns true leaves a session that is ready, with
-- the count of attempts and the outage flag cleared; a call that returns false leaves no session, a
-- degraded health, and a count that has grown by at most the attempts allowed, by one at least if
-- any was.
pub connect_until_ready-AfterConnect :
    {W Session : Type 0} (host : Host W Session) (n : ℕ) (r : Reading W Session)
    → is_none r.reader.session ≡ true
    → let (outcome, r') = connect_until_ready host n r in
      AfterConnect r.reader.attempt n outcome r'.reader
unfolding connect_until_ready
connect_until_ready-AfterConnect host zero r h = ground arith
connect_until_ready-AfterConnect host (suc n) r h =
    let (outcome, r') = attempt_once host r in
    ground (arith, attempt_once-After host r h, connect_until_ready-AfterConnect host n r')
