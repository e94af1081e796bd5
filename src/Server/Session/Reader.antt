-- ===== src/Server/Session/Reader.antt =====
-- session.rs, `reader_loop`: what the session does with each message of the client.
use Prim.Native.Nat.{bit_and, bit_or}
use padwire.Prelude.{ℕ, Bool, true, false, List, [], ◌∷◌, Result, ok, err, if◌then◌else◌}
use padwire.Prelude.Int.{ℤ, pos, negsuc, max_zero}
use padwire.Usbip.Pdu.{CmdSubmit, CmdUnlink, cmd_submit, cmd_unlink, is_iso, is_in, dir}
use padwire.Usbip.Io.Transfer.{Pdu, read_pdu}
use padwire.Usbip.Io.Stream.{Stream, IoError, kind, unexpected_eof, connection_reset}
use padwire.Backend.{UsbBackend, UrbRequest, SubmitError, urb, handled, fatal}
use padwire.Server.Prefetch
use padwire.Server.Prefetch.{Take, ready, waiting, pass_through}
use padwire.Server.Session.{
  Session, Next, again, done, failed, panicked, to_submit, to_unlink, encode_error, default_ret,
  len_i32, reply, count_submitted, count_completed, count_unlinked, count_rejected,
}

-- -EOPNOTSUPP and -ECONNRESET.
abbrev pub not_supported : ℤ
not_supported = negsuc 94

abbrev pub conn_reset : ℤ
conn_reset = negsuc 103

unfoldable pub request_of : Pdu → CmdSubmit → UrbRequest
request_of p c = record {
  seqnum = p.header.base.seqnum;
  ep = bit_and p.header.base.ep 0x0f;
  dir = dir p.header.base;
  transfer_flags = c.transfer_flags;
  setup = c.setup;
  buffer_length = max_zero c.transfer_buffer_length;
  data_bytes = p.data_bytes;
}

-- Why `read_pdu` failed, and whether the session was stopping.
unfoldable pub read_failed : Bool → IoError → Next
read_failed stop e = elim (kind e) [
  | unexpected_eof ↦ done
  | connection_reset ↦ done
  | _ ↦ if stop then done else failed e
]

module _ {D : Type 0} (dev : UsbBackend D) where
  -- What the device answered to a submit.
  unfoldable pub submit_answered :
      Bool → ℕ → Result SubmitError (Unit {0}) → Session D → Next × Session D
  unfolding reply
  submit_answered accepted seqnum (ok u) s = (again, count_submitted s)
  submit_answered accepted seqnum (err (handled status)) s =
      reply accepted (encode_error seqnum status) (count_completed s)
  submit_answered accepted seqnum (err (urb status)) s =
      reply accepted (encode_error seqnum status) (count_rejected s)
  submit_answered accepted seqnum (err (fatal e)) s = (failed e, s)

  unfoldable pub pass_on : Bool → UrbRequest → Session D → Next × Session D
  unfolding submit_answered
  pass_on accepted req s =
      let (answer, d) = dev.submit req s.dev in
      submit_answered accepted req.seqnum answer (record s { dev = d })

  -- What the prefetcher made of a submit.
  unfoldable pub taken : Bool → UrbRequest → Take → Session D → Next × Session D
  unfolding pass_on reply
  taken accepted req (ready report) s =
      reply accepted
        (to_submit req.seqnum (record default_ret { actual_length = len_i32 report }) report)
        (count_completed s)
  taken accepted req waiting s = (again, s)
  taken accepted req pass_through s = pass_on accepted req s

  unfoldable pub submit_urb : Bool → UrbRequest → Session D → Next × Session D
  unfolding taken pass_on
  submit_urb accepted req s =
      let (answer, p, d) =
        Prefetch.take dev s.prefetch (bit_or req.ep 0x80) req.seqnum req.buffer_length s.dev in
      if is_in req.dir
      then taken accepted req answer (record s { prefetch = p; dev = d })
      else pass_on accepted req s

  unfoldable pub on_submit : Bool → Pdu → CmdSubmit → Session D → Next × Session D
  unfolding submit_urb request_of reply encode_error
  on_submit accepted p c s =
      if is_iso c
      then reply accepted (encode_error p.header.base.seqnum not_supported) (count_rejected s)
      else submit_urb accepted (request_of p c) s

  unfoldable pub unlinked : Bool → ℕ → Bool → Session D → Next × Session D
  unfolding reply
  unlinked accepted seqnum cancelled s =
      reply accepted (to_unlink seqnum (if cancelled then conn_reset else pos 0)) (count_unlinked s)

  unfoldable pub unlink_answered : Bool → ℕ → Result IoError Bool → Session D → Next × Session D
  unlink_answered accepted seqnum (ok cancelled) s = unlinked accepted seqnum cancelled s
  unlink_answered accepted seqnum (err e) s = (failed e, s)

  unfoldable pub on_unlink : Bool → ℕ → CmdUnlink → Session D → Next × Session D
  unfolding unlinked unlink_answered
  on_unlink accepted seqnum u s =
      let (found, p) = Prefetch.unlink s.prefetch u.unlink_seqnum in
      let (answer, d) = dev.unlink u.unlink_seqnum s.dev in
      if found
      then unlinked accepted seqnum true (record s { prefetch = p })
      else unlink_answered accepted seqnum answer (record s { prefetch = p; dev = d })

  -- `read_pdu` yields no other message; the source panics on one.
  unfoldable pub on_pdu : Bool → Pdu → Session D → Next × Session D
  unfolding on_submit on_unlink
  on_pdu accepted p s = elim p.header.body [
    | cmd_submit c ↦ on_submit accepted p c s
    | cmd_unlink u ↦ on_unlink accepted p.header.base.seqnum u s
    | _ ↦ (panicked, s)
  ]

  -- A round of the loop: the flags as its test finds them, the stop flag if the read fails, and what
  -- `post` returns.
  pub record Round : Type 0 where
    pub running : Bool
    pub stopping : Bool
    pub accepted : Bool

  unfoldable pub reader_loop : ℕ → List Round → Stream → Session D → Next × Session D
  unfolding on_pdu read_failed
  reader_loop max_transfer [] stream s = (again, s)
  reader_loop max_transfer (r ∷ rounds) stream s = elim r.running [
    | false ↦ (done, s)
    | true ↦ elim (read_pdu max_transfer stream) [
      | err e ↦ (read_failed r.stopping e, s)
      | ok (p, stream') ↦
          let (next, s') = on_pdu r.accepted p s in
          elim next [ again ↦ reader_loop max_transfer rounds stream' s' | n ↦ (n, s') ]
    ]
  ]
