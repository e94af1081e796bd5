-- ===== src/Server/Toggle/Examples.antt =====
-- toggle.rs and chord.rs: a chord as text, and a device whose tap comes and goes.
use padwire.Prelude.{ℕ, ◌≤◌, ◌≡◌, refl, false, some, List, [], ◌∷◌, ok, arith}
use padwire.Server.Chord.Text.{from_str, describe}
use padwire.Server.Chord.Text.RoundTrip.{from_str-describe}
use padwire.Server.Toggle.Watch.{Taps, Hotkey, new}
use padwire.Server.Toggle.Watch.Once.{steps, steps-fires}

-- L4 and R4.
from_str-describe_example : from_str (describe 0x60000000000) ≡ ok (record { mask = 0x60000000000 })
from_str-describe_example = from_str-describe 0x60000000000 (omega arith) (omega arith)

abbrev back_buttons : Hotkey
back_buttons = record { chord = record { mask = 0x60000000000 }; hold = 1000 }

-- A report of a controller with some byte of its buttons.
abbrev report : ℕ → List ℕ
report b = 1 ∷ 0 ∷ 9 ∷ 60 ∷ 0 ∷ 0 ∷ 0 ∷ 0 ∷ 0 ∷ 0 ∷ 0 ∷ 0 ∷ 0 ∷ b ∷ 0 ∷ 0 ∷ []

-- The one node gives a report with the chord up and one with it down at every read.
abbrev taps : Taps ℕ ℕ ℕ
taps = record {
  nodes_for_busid = λ busid k. (ok (7 ∷ []), k);
  open_tap = λ nodes k. (7, k);
  is_empty = λ tap. false;
  read = λ tap k. (ok (some (report 0 ∷ report 6 ∷ [])), k);
  now = λ k. (k, k);
  take_hangup = λ k. (false, k);
  sleep = λ k. k;
  sorted = λ names. names;
}

steps-fires_example :
    (steps taps back_buttons 3 (new taps back_buttons [] 0) 0).0
    ≤ (steps taps back_buttons 3 (new taps back_buttons [] 0) 0).1
steps-fires_example = steps-fires taps back_buttons 3 (new taps back_buttons [] 0) 0 refl
