-- ===== src/Reader/Simulated.antt =====
-- `SimulatedReaderSession` of bridgewire/simulation.py: what a test lets a reader send.
use frontdoor.Prelude.{Bool, true, List, [], ◌∷◌, Result, ok, Exec}
use frontdoor.Reader.Record.{Text}

-- A record is the bytes that a read returns or the exception that it raises.
pub record SimulatedReaderSession : Type 0 where
  pub records : List (Result Text)
  pub closed : Bool

abbrev pub pop_first : List (Result Text) → Exec SimulatedReaderSession Text
pop_first [] s = (ok [], s)
pop_first (r ∷ rest) s = (r, record s { records = rest })

unfoldable pub read_simulated : Exec SimulatedReaderSession Text
read_simulated s = pop_first s.records s

unfoldable pub close_simulated : Exec SimulatedReaderSession Unit
close_simulated s = (ok tt, record s { closed = true })
