-- ===== src/Controller/Tracing.antt =====
-- Ports that keep a log of what the controller asks of the relay and of the authorization source,
-- the newest call first; each entry is made whether the call returns or raises.
use frontdoor.Prelude.{Bool, List, [], ◌∷◌, Result}
use frontdoor.Reader.Record.{Text}
use frontdoor.Controller.State.{AuthorizationOutcome, Ports}

pub data PortCall : Type 0 where
  set_up cleaned_up : PortCall
  commanded : Bool → PortCall
  classified : Text → Result AuthorizationOutcome → PortCall

-- The calls of the relay in a log.
abbrev pub relay_calls : List PortCall → List PortCall
relay_calls [] = []
relay_calls (classified credential outcome ∷ log) = relay_calls log
relay_calls (call ∷ log) = call ∷ relay_calls log

abbrev pub Traced : Type 0 → Type 0
Traced W = W × List PortCall

abbrev pub silently : {W A : Type 0} → (W → A × W) → Traced W → A × Traced W
silently f t = let (a, w) = f t.0 in (a, (w, t.1))

abbrev pub noting : {W A : Type 0} → (A → PortCall) → (W → A × W) → Traced W → A × Traced W
noting call f t = let (a, w) = f t.0 in (a, (w, call a ∷ t.1))

abbrev pub traced : {W : Type 0} → Ports W → Ports (Traced W)
traced ports = record {
  monotonic = silently ports.monotonic;
  now = silently ports.now;
  new_id = silently ports.new_id;
  setup = λ numbering channel. noting (λ _. set_up) (ports.setup numbering channel);
  command = λ high. noting (λ _. commanded high) (ports.command high);
  cleanup = noting (λ _. cleaned_up) ports.cleanup;
  classify = λ credential. noting (classified credential) (ports.classify credential);
  append = λ event. silently (ports.append event);
  enqueue = λ event. silently (ports.enqueue event);
}
