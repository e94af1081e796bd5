-- ===== src/Server/Session/Screens.antt =====
-- session.rs, `screen`: a report in which the chord is down.
use padwire.Prelude.{
  ℕ, ◌≡◌, refl, ap, ◌∙◌, true, false, ◌||◌, not, some, List, [], ◌∷◌, ◌++◌, arith,
}
use padwire.Prelude.Int.{pos}
use padwire.Backend.{UsbBackend, UrbCompletion}
use padwire.Server.Chord.{Detector, Chord, buttons, feed, fed, held, released}
use padwire.Server.Chord.Holds.{is_held}
use padwire.Server.Prefetch.{owns, is_zero}
use padwire.Server.Session.{Session, to_submit, default_ret}
use padwire.Server.Session.Reaper
use padwire.Server.Session.Reaper.{Reaping, After, more, screen, fill, answered, reaped, is_empty}

held-swallow : (det : Detector) (now : ℕ) → (held det now).0.swallow ≡ true
unfolding held
held-swallow det now = ground arith

feed-swallow :
    (det : Detector) (report : List ℕ) (now : ℕ)
    → (feed det report now).0.swallow ≡ is_held det.chord report
unfolding feed fed is_held released
feed-swallow det report now = ground (arith, held-swallow det now)

is_held-nil : (chord : Chord) → is_held chord [] ≡ false
unfolding is_held buttons
is_held-nil chord = refl

held-nonempty :
    (chord : Chord) (report : List ℕ) → is_held chord report ≡ true → is_empty report ≡ false
held-nonempty chord [] h = cc (is_held-nil chord)
held-nonempty chord (b ∷ bs) h = refl

screen-held :
    (det : Detector) (c : UrbCompletion) (now : ℕ)
    → is_held det.chord c.data_bytes ≡ true
    → c.status ≡ pos 0
    → (screen (some det) c now).2 ≡ record c { data_bytes = []; actual_length = 0 }
unfolding screen
screen-held det c now h ok_status =
    let down = feed-swallow det c.data_bytes now ∙ h in
    let full = held-nonempty det.chord c.data_bytes h in
    let live : (not (is_zero c.status) || is_empty c.data_bytes) ≡ false =
      ground (arith, ok_status, full) in
    rw live (rw down refl)

module _ {D : Type 0} (dev : UsbBackend D) where
  blanked : UrbCompletion → UrbCompletion
  blanked c = record c { data_bytes = []; actual_length = 0 }

  pass_on-blanked :
      (c : UrbCompletion) (S : Session D)
      → c.status ≡ pos 0
      → owns c.seqnum ≡ false
      → ((Reaper.pass_on dev true (blanked c) S).0 ≡ more)
        × ((Reaper.pass_on dev true (blanked c) S).1.posted
            ≡ S.posted ++ to_submit c.seqnum default_ret [] ∷ [])
  unfolding Reaper.pass_on answered fill blanked
  pass_on-blanked c S ok_status theirs = rw theirs (
    refl,
    ap (λ z. S.posted ++ to_submit c.seqnum (record default_ret { status = z }) [] ∷ []) ok_status,
  )

  -- A client's own completion in which the chord is down is answered all the same, with success
  -- and no data: the submit is not left open, and the importer does not see the chord.
  pub reaped-held :
      (now : ℕ) (c : UrbCompletion) (r : Reaping D) (det : Detector)
      → r.detector ≡ some det
      → is_held det.chord c.data_bytes ≡ true
      → c.status ≡ pos 0
      → c.unlinked ≡ false
      → owns c.seqnum ≡ false
      → ((reaped dev true now c r).0 ≡ more)
        × ((reaped dev true now c r).1.session.posted
            ≡ r.session.posted ++ to_submit c.seqnum default_ret [] ∷ [])
  unfolding reaped blanked
  reaped-held now c r det found h ok_status linked theirs =
      let e : (screen r.detector c now).2 ≡ blanked c =
        ap (λ o. (screen o c now).2) found ∙ screen-held det c now h ok_status in
      simp linked (rw e (pass_on-blanked c r.session ok_status theirs))
