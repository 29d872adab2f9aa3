-- ===== src/Serial/Descriptors.antt =====
-- The descriptors that `PosixSerialSession` of bridgewire/adapters/reader/posix_serial.py opens, uses
-- and closes.
use frontdoor.Prelude.{
  ℕ, String, Bool, true, false, not, ◌&&◌, ◌||◌, Option, none, some, List, [], ◌∷◌, ◌≡◌, Result, ok,
  err, is_ok, Result-cases, Bool-cases, inl, inr, ◌∙◌, arith, ◌==◌,
}
use frontdoor.Serial.Session.{
  System, PosixSerialSession, configure, close_after, kept_or_closed, open_configured, after_open,
  open_session, read_open, read_session, close_session,
}

-- A call of the operating system on a descriptor; `closed` tells whether the call returned.
pub data FdCall : Type 0 where
  opened used : ℕ → FdCall
  closed : ℕ → Bool → FdCall

abbrev pub Logged : Type 0 → Type 0
Logged W = W × List FdCall

abbrev opened_by : Result ℕ → List FdCall → List FdCall
opened_by (ok fd) log = opened fd ∷ log
opened_by (err e) log = log

abbrev using : {W A : Type 0} → (ℕ → W → A × W) → ℕ → Logged W → A × Logged W
using f fd (w, log) = let (a, w') = f fd w in (a, (w', used fd ∷ log))

-- A system that keeps a log, the newest call first.
abbrev pub logged : {W : Type 0} → System W → System (Logged W)
logged system = record {
  termios = system.termios;
  open_file = λ path l. let (fd, w) = system.open_file path l.0 in (fd, (w, opened_by fd l.1));
  setraw = using system.setraw;
  tcgetattr = using system.tcgetattr;
  tcsetattr = λ fd a. using (λ fd. system.tcsetattr fd a) fd;
  tcflush = using system.tcflush;
  select = using system.select;
  read = using system.read;
  close = λ fd l. let (done, w) = system.close fd l.0 in (done, (w, closed fd (is_ok done) ∷ l.1));
}

-- Whether a descriptor was opened and no close of it has returned since.
abbrev pub is_open : ℕ → List FdCall → Bool
is_open fd [] = false
is_open fd (opened other ∷ log) = (other == fd) || is_open fd log
is_open fd (used other ∷ log) = is_open fd log
is_open fd (closed other false ∷ log) = is_open fd log
is_open fd (closed other true ∷ log) = not (other == fd) && is_open fd log

-- Every call but the opening is on a descriptor that was open.
abbrev pub IsProper : List FdCall → Type 0
IsProper [] = Unit
IsProper (opened fd ∷ log) = IsProper log
IsProper (used fd ∷ log) = (is_open fd log ≡ true) × IsProper log
IsProper (closed fd done ∷ log) = (is_open fd log ≡ true) × IsProper log

-- The descriptor that a session has is open.
abbrev pub IsHeld : Option ℕ → List FdCall → Type 0
IsHeld none log = Unit
IsHeld (some fd) log = is_open fd log ≡ true

pub data SessionCall : Type 0 where
  read_call close_call : SessionCall

module _ {W : Type 0} (system : System W) where
  unfoldable pub after_session_call : SessionCall → PosixSerialSession W → PosixSerialSession W
  after_session_call read_call s = (read_session system s).1
  after_session_call close_call s = (close_session system s).1

  unfoldable pub after_session_calls :
      List SessionCall → PosixSerialSession W → PosixSerialSession W
  after_session_calls [] s = s
  after_session_calls (call ∷ calls) s = after_session_calls calls (after_session_call call s)

-- What a configuration of an open descriptor leaves: more uses of it.
abbrev MoreUses : ℕ → List FdCall → List FdCall → Type 0
MoreUses fd log log' =
    (IsProper log → is_open fd log ≡ true → IsProper log')
    × ((n : ℕ) → is_open n log' ≡ is_open n log)

module _ {W : Type 0} (system : System W) where
  configure-MoreUses :
      (fd : ℕ) (l : Logged W) → MoreUses fd l.1 (configure (logged system) fd l).1.1
  unfolding configure
  configure-MoreUses fd l = (λ p o. ground arith, λ n. ground arith)

  read-IsProper : (fd : ℕ) (l : Logged W) → MoreUses fd l.1 (read_open (logged system) fd l).1.1
  unfolding read_open
  read-IsProper fd l = (λ p o. ground arith, λ n. ground arith)

  after_session_call-IsProper :
      (call : SessionCall) (fd : Option ℕ) (w : W) (log : List FdCall)
      → IsProper log
      → IsHeld fd log
      → let s = after_session_call (logged system) call (record { fd = fd; world = (w, log) }) in
        IsProper s.world.1 × IsHeld s.fd s.world.1
  unfolding after_session_call read_session close_session
  after_session_call-IsProper read_call none w log p h = (p, tt)
  after_session_call-IsProper read_call (some fd) w log p h =
      let (proper, same) = read-IsProper fd (w, log) in (proper p h, same fd ∙ h)
  after_session_call-IsProper close_call none w log p h = (p, tt)
  after_session_call-IsProper close_call (some fd) w log p h =
      elim (Result-cases (system.close fd w).0) [
        | inl (a, done) ↦ (ground (arith, done, p, h), ground (arith, done))
        | inr (e, failed) ↦ (ground (arith, failed, p, h), ground (arith, failed, h))
      ]

  after_session_calls-IsProper :
      (calls : List SessionCall) (s : PosixSerialSession (Logged W))
      → IsProper s.world.1
      → IsHeld s.fd s.world.1
      → IsProper (after_session_calls (logged system) calls s).world.1
  unfolding after_session_calls
  after_session_calls-IsProper [] s p h = p
  after_session_calls-IsProper (call ∷ calls) s p h =
      let (p', h') = after_session_call-IsProper call s.fd s.world.0 s.world.1 p h in
      after_session_calls-IsProper calls (after_session_call (logged system) call s) p' h'

  -- What the constructor leaves of a log, by its result.
  abbrev Opened : Result ℕ → List FdCall → List FdCall → Type 0
  Opened (ok fd) log log' = IsProper log' × (is_open fd log' ≡ true)
  Opened (err e) log log' = IsProper log' × ((n : ℕ) → is_open n log' ≡ true → is_open n log ≡ true)

  kept_or_closed-Opened :
      (fd : ℕ) (done : Result Unit) (l : Logged W) (log : List FdCall)
      → ((n : ℕ) (w : W) → is_ok (system.close n w).0 ≡ true)
      → IsProper l.1
      → ((n : ℕ) → is_open n l.1 ≡ is_open n (opened fd ∷ log))
      → let (result, l') = kept_or_closed (logged system) fd done l in Opened result log l'.1
  unfolding kept_or_closed close_after
  kept_or_closed-Opened fd (ok _) l log closes p same = (p, ground (arith, same fd))
  kept_or_closed-Opened fd (err e) l log closes p same =
      elim (Result-cases (system.close fd l.0).0) [
        | inl (a, done) ↦ ground (arith, done, p, same fd)
        | inr (second, failed) ↦ absurd (ground (arith, closes fd l.0, failed))
      ]

  open_configured-Opened :
      (fd : ℕ) (w : W) (log : List FdCall)
      → ((n : ℕ) (w : W) → is_ok (system.close n w).0 ≡ true)
      → IsProper log
      → let (result, l) = open_configured (logged system) fd (w, opened fd ∷ log) in
        Opened result log l.1
  unfolding open_configured
  open_configured-Opened fd w log closes p =
      let (more, same) = configure-MoreUses fd (w, opened fd ∷ log) in
      let (done, l) = configure (logged system) fd (w, opened fd ∷ log) in
      kept_or_closed-Opened fd done l log closes (more p (ground arith)) same

  after_open-Opened :
      (fd : Result ℕ) (w : W) (log : List FdCall)
      → ((n : ℕ) (w : W) → is_ok (system.close n w).0 ≡ true)
      → IsProper log
      → let (result, l) = after_open (logged system) fd (w, opened_by fd log) in
        Opened result log l.1
  unfolding after_open
  after_open-Opened (ok fd) w log closes p = open_configured-Opened fd w log closes p
  after_open-Opened (err e) w log closes p = (p, λ n h. h)

  open_session-Opened :
      (path : String) (baud_rate : ℕ) (w : W) (log : List FdCall)
      → ((n : ℕ) (w : W) → is_ok (system.close n w).0 ≡ true)
      → IsProper log
      → let (result, l) = open_session (logged system) path baud_rate (w, log) in
        Opened result log l.1
  unfolding open_session
  open_session-Opened path baud_rate w log closes p = elim (Bool-cases (baud_rate == 9600)) [
    | inr other ↦ rw other (p, λ n h. h)
    | inl right ↦
        let (fd, w') = system.open_file path w in rw right (after_open-Opened fd w' log closes p)
  ]

-- What a session leaves of a log: after a constructor that raised no descriptor is open that was not
-- before; after one that returned, and any calls, every call was on an open descriptor.
abbrev pub LeavesProper :
    {W : Type 0} → System W → List SessionCall → List FdCall → Result ℕ → Logged W → Type 0
LeavesProper system calls log (err e) l =
    IsProper l.1 × ((n : ℕ) → is_open n l.1 ≡ true → is_open n log ≡ true)
LeavesProper system calls log (ok fd) l =
    IsProper
      (after_session_calls (logged system) calls (record { fd = some fd; world = l })).world.1

module _ {W : Type 0} (system : System W) (calls : List SessionCall) (log : List FdCall) where
  LeavesProper-Opened :
      (result : Result ℕ) (l : Logged W)
      → Opened system result log l.1
      → LeavesProper system calls log result l
  LeavesProper-Opened (err e) l h = h
  LeavesProper-Opened (ok fd) l (p, held) =
      after_session_calls-IsProper system calls (record { fd = some fd; world = l }) p held

  -- Where a close of a descriptor returns: a constructor that raises leaves no descriptor open that was
  -- not open before, whatever termios raises; after one that returns, every read and close of any
  -- calls is on a descriptor that is open, so none comes after a close.
  pub open_session-LeavesProper :
      (path : String) (baud_rate : ℕ) (w : W)
      → ((n : ℕ) (w : W) → is_ok (system.close n w).0 ≡ true)
      → IsProper log
      → let (result, l) = open_session (logged system) path baud_rate (w, log) in
        LeavesProper system calls log result l
  open_session-LeavesProper path baud_rate w closes p =
      LeavesProper-Opened _ _ (open_session-Opened system path baud_rate w log closes p)
