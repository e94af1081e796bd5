-- ===== src/Server/Session/Keeps.antt =====
-- session.rs: the prefetcher of a session stays well, whatever the session does.
use Prim.Native.Nat.{bit_or}
use padwire.Prelude.{
  ℕ, Bool, true, false, Option, none, some, Result, ok, err, inl, inr, Bool-cases,
}
use padwire.Usbip.Pdu.{CmdSubmit, CmdUnlink, is_iso, is_in}
use padwire.Usbip.Io.Stream.{IoError}
use padwire.Usbip.Io.Transfer.{Pdu}
use padwire.Backend.{UsbBackend, UrbRequest, UrbCompletion, SubmitError, urb, handled, fatal}
use padwire.Server.Prefetch
use padwire.Server.Prefetch.{
  Prefetch, Take, ready, waiting, pass_through, Reply, internal_base, owns,
}
use padwire.Server.Prefetch.Calls.{IsWell, take-IsWell, deliver-IsWell, unlink-IsWell}
use padwire.Server.Session.{Session, Answer, reply, count_completed, count_rejected, count_unlinked}
use padwire.Server.Session.Reader
use padwire.Server.Session.Reader.{
  request_of, submit_answered, taken, submit_urb, on_submit, unlinked, unlink_answered, on_unlink,
  on_pdu,
}
use padwire.Server.Session.Reaper
use padwire.Server.Session.Reaper.{
  Reaping, After, screen, fill, delivered, answered, reaped, on_reap, reap_one,
}

module _ {D : Type 0} where
  reply-IsWell :
      (accepted : Bool) (a : Answer) (S : Session D)
      → IsWell S.prefetch
      → IsWell (reply accepted a S).1.prefetch
  unfolding reply
  reply-IsWell true a S w = w
  reply-IsWell false a S w = w

  fill-IsWell :
      (accepted : Bool) (a : Answer) (S : Session D)
      → IsWell S.prefetch
      → IsWell (fill accepted a S).1.prefetch
  unfolding fill
  fill-IsWell true a S w = w
  fill-IsWell false a S w = w

  delivered-IsWell :
      (accepted : Bool) (o : Option Reply) (S : Session D)
      → IsWell S.prefetch
      → IsWell (delivered accepted o S).1.prefetch
  unfolding delivered
  delivered-IsWell accepted none S w = w
  delivered-IsWell accepted (some (seqnum, status, report)) S w =
      fill-IsWell accepted _ (count_completed S) w

module _ {D : Type 0} (dev : UsbBackend D) where
  submit_answered-IsWell :
      (accepted : Bool) (seqnum : ℕ) (answer : Result SubmitError (Unit {0})) (S : Session D)
      → IsWell S.prefetch
      → IsWell (submit_answered dev accepted seqnum answer S).1.prefetch
  unfolding submit_answered
  submit_answered-IsWell accepted seqnum (ok u) S w = w
  submit_answered-IsWell accepted seqnum (err (handled status)) S w =
      reply-IsWell accepted _ (count_completed S) w
  submit_answered-IsWell accepted seqnum (err (urb status)) S w =
      reply-IsWell accepted _ (count_rejected S) w
  submit_answered-IsWell accepted seqnum (err (fatal e)) S w = w

  reader_pass_on-IsWell :
      (accepted : Bool) (req : UrbRequest) (S : Session D)
      → IsWell S.prefetch
      → IsWell (Reader.pass_on dev accepted req S).1.prefetch
  unfolding Reader.pass_on
  reader_pass_on-IsWell accepted req S w =
      let (answer, d) = dev.submit req S.dev in
      submit_answered-IsWell accepted req.seqnum answer (record S { dev = d }) w

  taken-IsWell :
      (accepted : Bool) (req : UrbRequest) (answer : Take) (S : Session D)
      → IsWell S.prefetch
      → IsWell (taken dev accepted req answer S).1.prefetch
  unfolding taken
  taken-IsWell accepted req (ready report) S w = reply-IsWell accepted _ (count_completed S) w
  taken-IsWell accepted req waiting S w = w
  taken-IsWell accepted req pass_through S w = reader_pass_on-IsWell accepted req S w

  pub on_submit-IsWell :
      (accepted : Bool) (p : Pdu) (c : CmdSubmit) (S : Session D)
      → IsWell S.prefetch
      → IsWell (on_submit dev accepted p c S).1.prefetch
  unfolding on_submit submit_urb
  on_submit-IsWell accepted p c S w =
      let req = request_of p c in
      let (answer, q, d) =
        Prefetch.take dev S.prefetch (bit_or req.ep 0x80) req.seqnum req.buffer_length S.dev in
      elim (Bool-cases (is_iso c)) [
        | inl e ↦ rw e (reply-IsWell accepted _ (count_rejected S) w)
        | inr e ↦ elim (Bool-cases (is_in req.dir)) [
          | inl e' ↦ rw e (
              rw e' (
                taken-IsWell accepted req answer (record S { prefetch = q; dev = d })
                  (take-IsWell dev S.prefetch _ req.seqnum req.buffer_length S.dev w)))
          | inr e' ↦ rw e (rw e' (reader_pass_on-IsWell accepted req S w))
        ]
      ]

  unlink_answered-IsWell :
      (accepted : Bool) (seqnum : ℕ) (answer : Result IoError Bool) (S : Session D)
      → IsWell S.prefetch
      → IsWell (unlink_answered dev accepted seqnum answer S).1.prefetch
  unfolding unlink_answered unlinked
  unlink_answered-IsWell accepted seqnum (ok cancelled) S w =
      reply-IsWell accepted _ (count_unlinked S) w
  unlink_answered-IsWell accepted seqnum (err e) S w = w

  pub on_unlink-IsWell :
      (accepted : Bool) (seqnum : ℕ) (u : CmdUnlink) (S : Session D)
      → IsWell S.prefetch
      → IsWell (on_unlink dev accepted seqnum u S).1.prefetch
  unfolding on_unlink unlinked
  on_unlink-IsWell accepted seqnum u S w =
      let (found, p) = Prefetch.unlink S.prefetch u.unlink_seqnum in
      let (answer, d) = dev.unlink u.unlink_seqnum S.dev in
      let w' = unlink-IsWell S.prefetch u.unlink_seqnum w in
      elim (Bool-cases found) [
        | inl e ↦ rw e (reply-IsWell accepted _ (count_unlinked (record S { prefetch = p })) w')
        | inr e ↦
            rw e (
              unlink_answered-IsWell accepted seqnum answer (record S { prefetch = p; dev = d }) w')
      ]

  pass_on-IsWell :
      (accepted : Bool) (c : UrbCompletion) (S : Session D)
      → IsWell S.prefetch
      → IsWell (Reaper.pass_on dev accepted c S).1.prefetch
  unfolding Reaper.pass_on answered
  pass_on-IsWell accepted c S w =
      let (o, p, d) = Prefetch.deliver dev S.prefetch c.seqnum c.status c.data_bytes S.dev in
      elim (Bool-cases (owns c.seqnum)) [
        | inl e ↦ rw e (
            delivered-IsWell accepted o (record S { prefetch = p; dev = d })
              (deliver-IsWell dev S.prefetch c.seqnum c.status c.data_bytes S.dev w))
        | inr e ↦ rw e (fill-IsWell accepted _ (count_completed S) w)
      ]

  reaped-IsWell :
      (accepted : Bool) (now : ℕ) (c : UrbCompletion) (r : Reaping D)
      → IsWell r.session.prefetch
      → IsWell (reaped dev accepted now c r).1.session.prefetch
  unfolding reaped
  reaped-IsWell accepted now c r w = elim (Bool-cases c.unlinked) [
    | inl e ↦ simp e w
    | inr e ↦ simp e (pass_on-IsWell accepted (screen r.detector c now).2 r.session w)
  ]

  pub on_reap-IsWell :
      (accepted : Bool) (now : ℕ) (answer : Result IoError (Option UrbCompletion)) (r : Reaping D)
      → IsWell r.session.prefetch
      → IsWell (on_reap dev accepted now answer r).1.session.prefetch
  unfolding on_reap
  on_reap-IsWell accepted now (ok (some c)) r w = reaped-IsWell accepted now c r w
  on_reap-IsWell accepted now (ok none) r w = w
  on_reap-IsWell accepted now (err e) r w = w
