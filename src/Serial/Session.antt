-- ===== src/Serial/Session.antt =====
-- `PosixSerialSession` of bridgewire/adapters/reader/posix_serial.py. The operating system and termios
-- are parameters.
use Prim.Native.Nat.{bit_and, bit_or, bit_xor}
use frontdoor.Prelude.{
  ℕ, String, Bool, not, Option, none, some, List, [], Exception, reader_disconnected_error,
  value_error, Result, ok, err, Exec, pure, ◌>>=◌, ◌>>◌, ◌==◌, if◌then◌else◌,
}
use frontdoor.Reader.Record.{Text}
use frontdoor.Reader.Supervisor.State.{is_os_error}

-- The list that `tcgetattr` gives: `attributes[2]` is `cflag`, `[4]` and `[5]` are the speeds.
pub record Attributes : Type 0 where
  pub iflag : ℕ
  pub oflag : ℕ
  pub cflag : ℕ
  pub lflag : ℕ
  pub ispeed : ℕ
  pub ospeed : ℕ
  pub cc : List ℕ

pub record Termios : Type 0 where
  pub b9600 : ℕ
  pub csize : ℕ
  pub parenb : ℕ
  pub cstopb : ℕ
  pub cs8 : ℕ
  pub clocal : ℕ
  pub cread : ℕ

-- The calls, each on a descriptor but `open_file`, which is `os.open`. `select` tells whether there is something to read.
pub record System (W : Type 0) : Type 0 where
  pub termios : Termios
  pub open_file : String → W → Result ℕ × W
  pub setraw : ℕ → W → Result (Unit {0}) × W
  pub tcgetattr : ℕ → W → Result Attributes × W
  pub tcsetattr : ℕ → Attributes → W → Result (Unit {0}) × W
  pub tcflush : ℕ → W → Result (Unit {0}) × W
  pub select : ℕ → W → Result Bool × W
  pub read : ℕ → W → Result Text × W
  pub close : ℕ → W → Result (Unit {0}) × W

-- `a & ~b`
abbrev pub without : ℕ → ℕ → ℕ
without a b = bit_xor a (bit_and a b)

unfoldable pub configured : Termios → Attributes → Attributes
configured t a = record a {
  ispeed = t.b9600;
  ospeed = t.b9600;
  cflag =
      bit_or
        (bit_or (bit_or (without a.cflag (bit_or (bit_or t.csize t.parenb) t.cstopb)) t.cs8)
          t.clocal)
        t.cread;
}

-- `_fd`, where `none` stands for -1, and the world.
pub record PosixSerialSession (W : Type 0) : Type 0 where
  pub fd : Option ℕ
  pub world : W

module _ {W : Type 0} (system : System W) where
  -- The `try` block of the constructor.
  unfoldable pub configure : ℕ → Exec W Unit
  configure fd = do
    system.setraw fd
    attributes ← system.tcgetattr fd
    system.tcsetattr fd (configured system.termios attributes)
    system.tcflush fd

  -- Its `except` clause: an exception of `os.close` replaces the one before.
  unfoldable pub close_after : ℕ → Exception → W → Result ℕ × W
  close_after fd e w =
      let (closed, w') = system.close fd w in
      elim closed [ ok _ ↦ (err e, w') | err second ↦ (err second, w') ]

  unfoldable pub kept_or_closed : ℕ → Result (Unit {0}) → W → Result ℕ × W
  unfolding close_after
  kept_or_closed fd (ok _) w = (ok fd, w)
  kept_or_closed fd (err e) w = close_after fd e w

  unfoldable pub open_configured : ℕ → W → Result ℕ × W
  unfolding configure kept_or_closed
  open_configured fd w = let (done, w') = configure fd w in kept_or_closed fd done w'

  unfoldable pub after_open : Result ℕ → W → Result ℕ × W
  unfolding open_configured
  after_open (ok fd) w = open_configured fd w
  after_open (err e) w = (err e, w)

  -- `__init__`, with the descriptor that the new session has.
  unfoldable pub open_session : String → ℕ → W → Result ℕ × W
  unfolding after_open
  open_session path baud_rate w =
      if not (baud_rate == 9600)
      then (err value_error, w)
      else (let (fd, w') = system.open_file path w in after_open fd w')

  abbrev pub as_disconnected : Exception → Exception
  as_disconnected e = if is_os_error e then reader_disconnected_error else e

  abbrev pub disconnecting : Result Text × W → Result Text × W
  disconnecting (ok chunk, w) = (ok chunk, w)
  disconnecting (err e, w) = (err (as_disconnected e), w)

  unfoldable pub read_open : ℕ → W → Result Text × W
  read_open fd w =
      disconnecting ((do waiting ← system.select fd; if waiting then system.read fd else pure []) w)

  abbrev pub read_from : Option ℕ → W → Result Text × W
  read_from none w = (err reader_disconnected_error, w)
  read_from (some fd) w = read_open fd w

  -- `read`
  unfoldable pub read_session : Exec (PosixSerialSession W) Text
  unfolding read_open
  read_session s = let (chunk, w) = read_from s.fd s.world in (chunk, record s { world = w })

  abbrev pub close_fd : Option ℕ → Exec (PosixSerialSession W) Unit
  close_fd none s = (ok tt, s)
  close_fd (some fd) s =
      let (closed, w) = system.close fd s.world in
      elim closed [
        | ok _ ↦ (ok tt, record { fd = none; world = w })
        | err e ↦ (err e, record s { world = w })
      ]

  -- `close`
  unfoldable pub close_session : Exec (PosixSerialSession W) Unit
  close_session s = close_fd s.fd s
