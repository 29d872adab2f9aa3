-- ===== src/Runtime/Waiter.antt =====
-- The end of a wait of `EventWaiter` of bridgewire/application/runtime.py.
use frontdoor.Prelude.{
  ℕ, zero, suc, ◌+◌, ◌-◌, ◌≤◌, ◌<◌, min, Bool, true, false, Option, none, some, ok, Exec, ◌≡◌, ◌≢◌,
  leb, arith, Exception, err, Result-cases, subst, sym, Result, Bool-cases, inl, inr,
}
use frontdoor.Runtime.Waiting.{wait_loop, event_wait}

-- The clock reads a time that never goes back, and a wait that no stop event ends takes its time.
pub record IsPatient {S : Type 0} (monotonic : S → ℕ × S) (wait_for : ℕ → S → Bool × S)
    (on_interval : Exec S Unit) (time : S → ℕ) : Type 0 where
  pub reads : (s : S) → ((monotonic s).0 ≡ time s) × (time s ≤ time (monotonic s).1)
  pub ticks : (s : S) → time s ≤ time (on_interval s).1
  pub waits :
      (seconds : ℕ) (s : S)
      → (wait_for seconds s).0 ≡ false
      → time s + seconds ≤ time (wait_for seconds s).1

-- How a wait ends: not for want of fuel, with True only at the deadline, with False only where the wait
-- for the stop event came back with True, and with an exception only where the callback raised it.
pub record IsDone {S : Type 0} (wait_for : ℕ → S → Bool × S) (on_interval : Exec S Unit)
    (time : S → ℕ) (deadline : ℕ) (end : Result (Option Bool) × S) : Type 0 where
  pub ends : end.0 ≢ ok none
  pub punctual : end.0 ≡ ok (some true) → deadline ≤ time end.1
  pub stopped :
      end.0 ≡ ok (some false) → (seconds : ℕ) × (s : S) × (wait_for seconds s ≡ (true, end.1))
  pub raises : (e : Exception) → end.0 ≡ err e → (s : S) × (on_interval s ≡ (err e, end.1))

module _ {S : Type 0} (monotonic : S → ℕ × S) (wait_for : ℕ → S → Bool × S) (interval : ℕ)
    (on_interval : Exec S Unit) (time : S → ℕ)
    (patient : IsPatient monotonic wait_for on_interval time) where
  wait_loop-IsDone :
      (fuel deadline : ℕ) (s : S)
      → 0 < interval
      → deadline - time s < fuel
      → IsDone wait_for on_interval time deadline
          (wait_loop monotonic wait_for interval on_interval fuel deadline s)
  unfolding wait_loop
  wait_loop-IsDone zero deadline s positive enough = absurd (omega arith)
  wait_loop-IsDone (suc fuel) deadline s positive enough =
      let (now, s1) = monotonic s in
      let read = patient.reads s in
      let s2 = (on_interval s1).1 in
      let ticked = patient.ticks s1 in
      let read_again = patient.reads s2 in
      let s3 = (monotonic s2).1 in
      let seconds = min interval (deadline - (monotonic s2).0) in
      let waited = patient.waits seconds s3 in
      let s4 = (wait_for seconds s3).1 in
      elim (Bool-cases (leb deadline now)) [
        | inl over ↦ record {
          ends = ground (arith, over);
          punctual = ground (arith, over, read);
          stopped = λ answer. absurd (ground (arith, over, answer));
          raises = λ e raised. absurd (ground (arith, over, raised));
        }
        | inr early ↦ elim (Result-cases (on_interval s1).0) [
          | inr (x, failed) ↦ record {
            ends = ground (arith, early, failed);
            punctual = ground (arith, early, failed);
            stopped = λ answer. absurd (ground (arith, early, failed, answer));
            raises = λ e raised. (s1, ground (arith, early, failed, raised));
          }
          | inl (_, passed) ↦ elim (Bool-cases (wait_for seconds s3).0) [
            | inl stopped ↦ record {
              ends = ground (arith, early, stopped);
              punctual = ground (arith, early, stopped);
              stopped = λ answer. (seconds, s3, ground (arith, early, passed, stopped));
              raises = λ e raised. absurd (ground (arith, early, passed, stopped, raised));
            }
            | inr unstopped ↦
                let late = waited unstopped in
                let rest =
                  wait_loop-IsDone fuel deadline s4 positive
                    (ground (arith, early, late, read, ticked, read_again)) in
                record {
                  ends = ground (arith, early, unstopped, rest.ends);
                  punctual = ground (arith, early, unstopped, rest.punctual);
                  stopped = ground (arith, early, passed, unstopped, rest.stopped);
                  raises = λ e. ground (arith, early, passed, unstopped, rest.raises e);
                }
          ]
        ]
      ]

-- A wait of `EventWaiter` ends, whatever the callback does on every interval, if the interval is
-- positive, the clock does not go back and a wait for the stop event that is not stopped takes its
-- time: after at most one round for each tick of the time waited for and one more it returns or raises;
-- it returns True only once that time is over, returns False only as a wait for the stop event came
-- back with True, and raises only what the callback then raised.
pub event_wait-IsDone :
    {S : Type 0} (monotonic : S → ℕ × S) (wait_for : ℕ → S → Bool × S) (interval : ℕ)
    (on_interval : Exec S Unit) (time : S → ℕ) (seconds : ℕ) (s : S)
    → IsPatient monotonic wait_for on_interval time
    → 0 < interval
    → IsDone wait_for on_interval time
        (time s + seconds)
        (event_wait monotonic wait_for interval on_interval seconds s)
unfolding event_wait
event_wait-IsDone monotonic wait_for interval on_interval time seconds s patient positive =
    let read = patient.reads s in
    subst
      (λ now. IsDone wait_for on_interval time (time s + seconds) (
        wait_loop monotonic wait_for interval on_interval (suc seconds) (now + seconds)
          (monotonic s).1))
      (sym read.0)
      (wait_loop-IsDone monotonic wait_for interval on_interval time patient (suc seconds)
        (time s + seconds) (monotonic s).1 positive (omega (arith, read.1)))
