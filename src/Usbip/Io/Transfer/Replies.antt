-- ===== src/Usbip/Io/Transfer/Replies.antt =====
-- io.rs: the reply to a submit, from the exporter's writer to the client's `read_ret_submit`.
use padwire.Prelude.{
  ℕ, ◌≤◌, ◌≡◌, refl, sym, ◌∙◌, false, Option, some, List, [], ◌++◌, append-nil, append_assoc,
  length, ok, arith, ltb,
}
use padwire.Usbip.Wire.Words.{IsU32}
use padwire.Usbip.Pdu.{Direction, RetSubmit, IsRet, IsHeader, new_ret_submit, ret_payload_len}
use padwire.Usbip.Pdu.Encode.{to_bytes}
use padwire.Usbip.Pdu.RoundTrip.{decode-to_bytes}
use padwire.Usbip.Io.Stream.{Stream, ErrorKind, pure, read_exact_front, >>=-ok, lift-ok}
use padwire.Usbip.Io.Transfer.{write_ret_submit, read_ret_submit, ret_of, or_invalid}

new_ret_submit-IsHeader :
    (seqnum : ℕ) (ret : RetSubmit) → IsU32 seqnum → IsRet ret → IsHeader (new_ret_submit seqnum ret)
unfolding new_ret_submit
new_ret_submit-IsHeader seqnum ret n v = record { base = ground arith; body = v; command = refl }

ret_of-new :
    (seqnum : ℕ) (ret : RetSubmit) (s : Stream)
    → ret_of (new_ret_submit seqnum ret).body s ≡ ok (ret, s)
unfolding ret_of new_ret_submit pure
ret_of-new seqnum ret s = refl

dir-known :
    (dir_for : ℕ → Option Direction) (seqnum : ℕ) (ret : RetSubmit) (s : Stream) {d : Direction}
    → dir_for seqnum ≡ some d
    → or_invalid (dir_for (new_ret_submit seqnum ret).base.seqnum) s ≡ ok (d, s)
unfolding or_invalid new_ret_submit pure
dir-known dir_for seqnum ret s h = rw h refl

-- A client that knows the direction of a submit reads its reply back, with the data that the reply
-- announces, up to its limit, and nothing of what follows.
pub read_ret_submit-write_ret_submit :
    (seqnum : ℕ) (ret : RetSubmit) (report rest : List ℕ) (ending : ErrorKind)
    (dir_for : ℕ → Option Direction) (d : Direction) (max_transfer : ℕ)
    → IsU32 seqnum
    → IsRet ret
    → dir_for seqnum ≡ some d
    → ret_payload_len ret d ≡ length report
    → length report ≤ max_transfer
    → read_ret_submit dir_for max_transfer
        (record { incoming = write_ret_submit seqnum ret report ++ rest; ending = ending })
      ≡ ok ((new_ret_submit seqnum ret, report), record { incoming = rest; ending = ending })
unfolding read_ret_submit write_ret_submit
read_ret_submit-write_ret_submit seqnum ret report rest ending dir_for d max_transfer n v known size
      within =
    let h = new_ret_submit seqnum ret in
    let (header_size, whole) = decode-to_bytes h [] (new_ret_submit-IsHeader seqnum ret n v) in
    let parsed = rw (append-nil (to_bytes h)) at whole in
    let room : ltb max_transfer (ret_payload_len ret d) ≡ false = ground arith in
    rw (append_assoc (to_bytes h) report rest) (
      >>=-ok _ _ _ (read_exact_front (to_bytes h) _ _ ending header_size)
      ∙ >>=-ok _ _ _ (lift-ok _ _ parsed)
      ∙ >>=-ok _ _ _ (ret_of-new seqnum ret _)
      ∙ >>=-ok _ _ _ (dir-known dir_for seqnum ret _ known)
      ∙ rw room (
          >>=-ok _ _ _ (read_exact_front report rest (ret_payload_len ret d) ending (sym size))
          ∙ (unfold pure in refl)))
