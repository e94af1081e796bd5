-- ===== src/Server/Session/Once.antt =====
-- session.rs: no submit of a client is answered twice, whatever the threads do in whatever order.
use Prim.Native.Nat.{bit_or}
use padwire.Prelude.{
  ℕ, ◌+◌, ◌≤◌, ◌<◌, ◌≡◌, ap, Bool, true, false, List, [], ◌∷◌, ◌++◌, ◌==◌, if◌then◌else◌, Result,
  ok, err, arith, inl, inr, Bool-cases, Result-cases,
}
use padwire.Prelude.Int.{pos}
use padwire.Usbip.Pdu.{CmdSubmit, CmdUnlink, is_iso, is_in}
use padwire.Usbip.Io.Stream.{IoError}
use padwire.Usbip.Io.Transfer.{Pdu}
use padwire.Backend.{UsbBackend, UrbRequest, SubmitError, urb, handled, fatal}
use padwire.Server.Prefetch
use padwire.Server.Prefetch.{
  Prefetch, Take, ready, waiting, pass_through, Reply, internal_base, owns,
}
use padwire.Server.Prefetch.Calls.{IsWell}
use padwire.Server.Session.{
  Session, Answer, to_submit, to_unlink, reply, count_completed, count_rejected, count_unlinked,
  encode_error,
}
use padwire.Server.Session.Reader
use padwire.Server.Session.Reader.{
  request_of, not_supported, conn_reset, submit_answered, taken, submit_urb, on_submit, unlinked,
  unlink_answered, on_unlink, on_pdu,
}
use padwire.Server.Session.Accounts.{
  one, CompletesOnce, waiting_count, registered, take-due, unlink-waiting_count,
}

abbrev pub answers_one : ℕ → Answer → ℕ
answers_one s (to_submit seqnum ret report) = one (seqnum == s)
answers_one s (to_unlink seqnum status) = 0

-- How many replies answer a submit with a seqnum.
unfoldable pub answers : ℕ → List Answer → ℕ
answers s [] = 0
answers s (a ∷ posted) = answers_one s a + answers s posted

pub answers-append :
    (s : ℕ) (posted : List Answer) (a : Answer)
    → answers s (posted ++ a ∷ []) ≡ answers s posted + answers_one s a
unfolding answers
answers-append s [] a = omega arith
answers-append s (b ∷ posted) a = omega (arith, answers-append s posted a)

module _ {D : Type 0} (dev : UsbBackend D) (pending : D → ℕ → ℕ)
    (v : CompletesOnce dev pending) where
  -- What has been answered, and what may still be.
  abbrev pub total : ℕ → Session D → ℕ
  total s S = answers s S.posted + (waiting_count s S.prefetch + pending S.dev s)

  reply-total :
      (s : ℕ) (accepted : Bool) (a : Answer) (S : Session D)
      → total s (reply accepted a S).1 ≤ total s S + answers_one s a
  unfolding reply
  reply-total s true a S = omega (arith, answers-append s S.posted a)
  reply-total s false a S = omega arith

  -- What an answer of the device to a submit costs at once.
  abbrev refusal : ℕ → ℕ → Result SubmitError (Unit {0}) → ℕ
  refusal s seqnum (ok u) = 0
  refusal s seqnum (err e) = one (seqnum == s)

  submit_answered-total :
      (s : ℕ) (accepted : Bool) (seqnum : ℕ) (answer : Result SubmitError (Unit {0}))
      (S : Session D)
      → total s (submit_answered dev accepted seqnum answer S).1
        ≤ total s S + refusal s seqnum answer
  unfolding submit_answered encode_error
  submit_answered-total s accepted seqnum (ok u) S = omega arith
  submit_answered-total s accepted seqnum (err (handled status)) S =
      reply-total s accepted (encode_error seqnum status) (count_completed S)
  submit_answered-total s accepted seqnum (err (urb status)) S =
      reply-total s accepted (encode_error seqnum status) (count_rejected S)
  submit_answered-total s accepted seqnum (err (fatal e)) S = omega arith

  pass_on-total :
      (s : ℕ) (accepted : Bool) (req : UrbRequest) (S : Session D)
      → total s (Reader.pass_on dev accepted req S).1 ≤ total s S + one (req.seqnum == s)
  unfolding Reader.pass_on
  pass_on-total s accepted req S =
      let (answer, d) = dev.submit req S.dev in
      let step = submit_answered-total s accepted req.seqnum answer (record S { dev = d }) in
      elim (Result-cases answer) [
        | inl (u, e) ↦
            let cost : refusal s req.seqnum answer ≡ 0 = ap (refusal s req.seqnum) e in
            omega (arith, step, cost, v.accepts req S.dev s)
        | inr (x, e) ↦
            let cost : refusal s req.seqnum answer ≡ one (req.seqnum == s) =
              ap (refusal s req.seqnum) e in
            omega (arith, step, cost, v.refuses req S.dev s x e)
      ]

  taken-total :
      (s : ℕ) (accepted : Bool) (req : UrbRequest) (answer : Take) (S : Session D)
      → total s (taken dev accepted req answer S).1 + registered s req.seqnum answer
        ≤ total s S + one (req.seqnum == s)
  unfolding taken
  taken-total s accepted req (ready report) S =
      omega (arith, reply-total s accepted (to_submit req.seqnum _ report) (count_completed S))
  taken-total s accepted req waiting S = omega arith
  taken-total s accepted req pass_through S = omega (arith, pass_on-total s accepted req S)

  submit_urb-total :
      (s : ℕ) (accepted : Bool) (req : UrbRequest) (S : Session D)
      → s < internal_base
      → IsWell S.prefetch
      → total s (submit_urb dev accepted req S).1 ≤ total s S + one (req.seqnum == s)
  unfolding submit_urb
  submit_urb-total s accepted req S low w = elim (Bool-cases (is_in req.dir)) [
    | inl e ↦
        let k = bit_or req.ep 0x80 in
        let (answer, p, d) = Prefetch.take dev S.prefetch k req.seqnum req.buffer_length S.dev in
        rw e (
          omega (
            arith,
            taken-total s accepted req answer (record S { prefetch = p; dev = d }),
            take-due dev pending v s S.prefetch k req.seqnum req.buffer_length S.dev low w.0,
          ))
    | inr e ↦ rw e (pass_on-total s accepted req S)
  ]

  pub on_submit-total :
      (s : ℕ) (accepted : Bool) (p : Pdu) (c : CmdSubmit) (S : Session D)
      → s < internal_base
      → IsWell S.prefetch
      → total s (on_submit dev accepted p c S).1 ≤ total s S + one (p.header.base.seqnum == s)
  unfolding on_submit request_of encode_error
  on_submit-total s accepted p c S low w = elim (Bool-cases (is_iso c)) [
    | inl e ↦ rw e (
        reply-total s accepted (encode_error p.header.base.seqnum not_supported) (count_rejected S))
    | inr e ↦ rw e (submit_urb-total s accepted (request_of p c) S low w)
  ]

  unlinked-total :
      (s : ℕ) (accepted : Bool) (seqnum : ℕ) (cancelled : Bool) (S : Session D)
      → total s (unlinked dev accepted seqnum cancelled S).1 ≤ total s S
  unfolding unlinked
  unlinked-total s accepted seqnum cancelled S = omega (
    arith,
    reply-total s accepted (to_unlink seqnum (if cancelled then conn_reset else pos 0))
        (count_unlinked S),
  )

  unlink_answered-total :
      (s : ℕ) (accepted : Bool) (seqnum : ℕ) (answer : Result IoError Bool) (S : Session D)
      → total s (unlink_answered dev accepted seqnum answer S).1 ≤ total s S
  unfolding unlink_answered
  unlink_answered-total s accepted seqnum (ok cancelled) S =
      unlinked-total s accepted seqnum cancelled S
  unlink_answered-total s accepted seqnum (err e) S = omega arith

  pub on_unlink-total :
      (s : ℕ) (accepted : Bool) (seqnum : ℕ) (u : CmdUnlink) (S : Session D)
      → total s (on_unlink dev accepted seqnum u S).1 ≤ total s S
  unfolding on_unlink
  on_unlink-total s accepted seqnum u S =
      let (found, p) = Prefetch.unlink S.prefetch u.unlink_seqnum in
      let (answer, d) = dev.unlink u.unlink_seqnum S.dev in
      let fewer = unlink-waiting_count s u.unlink_seqnum S.prefetch in
      elim (Bool-cases found) [
        | inl e ↦ rw e (
            omega (arith, fewer, unlinked-total s accepted seqnum true (record S { prefetch = p })))
        | inr e ↦ rw e (
            omega (
              arith,
              fewer,
              v.unlinks u.unlink_seqnum S.dev s,
              unlink_answered-total s accepted seqnum answer (record S { prefetch = p; dev = d }),
            ))
      ]
