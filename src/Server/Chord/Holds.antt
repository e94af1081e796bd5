-- ===== src/Server/Chord/Holds.antt =====
-- chord.rs, `Detector::feed`: how long a chord has to be held.
use padwire.Prelude.{
  ℕ, ◌+◌, ◌-◌, ◌≤◌, ◌<◌, ◌≡◌, refl, ap, ◌∙◌, Bool, true, false, none, some, List, [], ◌∷◌, All, ltb,
  arith,
}
use padwire.Server.Chord.{
  Chord, Detector, buttons, held_in, default, released, held, fed, feed, new,
}
use padwire.Server.Chord.Presses.{Timed, feed_all, firings, is_release}

-- Whether a report shows the chord down.
unfoldable pub is_held : Chord → List ℕ → Bool
is_held chord report = elim (buttons report) [ none ↦ false | some b ↦ held_in chord b ]

-- A detector that has seen the chord up, and then down since a time.
abbrev pub holding : Chord → ℕ → ℕ → Detector
holding chord hold since = record { chord = chord; hold = hold; since = some since; armed = true }

-- Of a report that does not show the chord up, before the hold is over.
abbrev pub IsEarly : Chord → ℕ → ℕ → List ℕ × ℕ → Type 0
IsEarly chord hold since r = (is_release chord r.0 ≡ false) × (r.1 - since < hold)

feed-early :
    (chord : Chord) (hold since : ℕ) (report : List ℕ) (now : ℕ)
    → IsEarly chord hold since (report, now)
    → ((feed (holding chord hold since) report now).0.fired ≡ false)
      × ((feed (holding chord hold since) report now).1 ≡ holding chord hold since)
unfolding feed fed held is_release
feed-early chord hold since report now (up, soon) = ground arith

feed_all-early :
    (chord : Chord) (hold since : ℕ) (stream : Timed)
    → All (IsEarly chord hold since) stream
    → (firings (feed_all (holding chord hold since) stream).0 ≡ 0)
      × ((feed_all (holding chord hold since) stream).1 ≡ holding chord hold since)
unfolding feed_all firings
feed_all-early chord hold since [] h = (refl, refl)
feed_all-early chord hold since ((report, now) ∷ rest) (h, hs) =
    let (quiet, same) = feed-early chord hold since report now h in
    let (none_fired, ends) = feed_all-early chord hold since rest hs in
    rw quiet (rw same (ap (λ n. 0 + n) none_fired, ends))

feed-release :
    (det : Detector) (report : List ℕ) (now : ℕ)
    → is_release det.chord report ≡ true
    → feed det report now ≡ released det
unfolding feed fed is_release
feed-release det report now h = ground arith

feed-held :
    (det : Detector) (report : List ℕ) (now : ℕ)
    → is_held det.chord report ≡ true
    → feed det report now ≡ held det now
unfolding feed fed is_held
feed-held det report now h = ground arith

abbrev ready : Chord → ℕ → Detector
ready chord hold = record { chord = chord; hold = hold; since = none; armed = true }

new-up :
    (chord : Chord) (hold : ℕ) (report : List ℕ) (now : ℕ)
    → is_release chord report ≡ true
    → feed (new chord hold) report now ≡ (default, ready chord hold)
unfolding new released
new-up chord hold report now h = feed-release (new chord hold) report now h

ready-down :
    (chord : Chord) (hold : ℕ) (report : List ℕ) (now : ℕ)
    → is_held chord report ≡ true
    → 0 < hold
    → feed (ready chord hold) report now
      ≡ (record { swallow = true; fired = false }, holding chord hold now)
unfolding held
ready-down chord hold report now h positive =
    let soon : ltb (now - now) hold ≡ true = ground arith in
    feed-held (ready chord hold) report now h ∙ rw (soon, held) refl

holding-fires :
    (chord : Chord) (hold since : ℕ) (report : List ℕ) (now : ℕ)
    → is_held chord report ≡ true
    → hold ≤ now - since
    → (feed (holding chord hold since) report now).0.fired ≡ true
unfolding held
holding-fires chord hold since report now h long =
    let late : ltb (now - since) hold ≡ false = ground arith in
    ap (λ r. r.0.fired) (feed-held (holding chord hold since) report now h) ∙ rw (late, held) refl

-- With a hold above zero, a new detector that sees a report with the chord up, then one with it down
-- and then only reports that come before the hold is over and do not show it up, fires in none of these,
-- and fires in a report after them that shows the chord down when the hold is over.
pub feed-fires :
    (chord : Chord) (hold up_at since now : ℕ) (up down last : List ℕ) (between : Timed)
    → is_release chord up ≡ true
    → is_held chord down ≡ true
    → is_held chord last ≡ true
    → All (IsEarly chord hold since) between
    → 0 < hold
    → hold ≤ now - since
    → (firings (feed_all (new chord hold) ((up, up_at) ∷ (down, since) ∷ between)).0 ≡ 0)
      × ((feed
            (feed_all (new chord hold) ((up, up_at) ∷ (down, since) ∷ between)).1
            last
            now).0.fired
          ≡ true)
unfolding feed_all firings
feed-fires chord hold up_at since now up down last between u e l b positive long =
    let (quiet, same) = feed_all-early chord hold since between b in
    rw (new-up chord hold up up_at u) (
      rw (ready-down chord hold down since e positive)
        (rw same (ap (λ n. 0 + (0 + n)) quiet, holding-fires chord hold since last now l long)))
