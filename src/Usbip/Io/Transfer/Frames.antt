-- ===== src/Usbip/Io/Transfer/Frames.antt =====
-- `read_pdu` takes a whole message off the stream and leaves what follows.
use padwire.Prelude.{
  ℕ, suc, ◌*◌, ◌≡◌, refl, sym, ap, ◌∙◌, true, List, [], ◌∷◌, ◌++◌, append-nil, append_assoc, length,
  All, ok, arith, ltb,
}
use padwire.Usbip.Wire.Writer
use padwire.Usbip.Wire.Writer.{Put, ◌>>◌}
use padwire.Usbip.Wire.Carry.{
  Carries, Carries-eq, Carries-bind, Carries-done, length-into_vec, parse-into_vec,
}
use padwire.Usbip.Pdu.{IsHeader, IsoPacketDescriptor, IsIso}
use padwire.Usbip.Pdu.Encode.{to_bytes, put_iso}
use padwire.Usbip.Pdu.RoundTrip.{decode-to_bytes, iso-Carries}
use padwire.Usbip.Io.Stream.{ErrorKind, pure, read_exact_front, >>=-ok, lift-ok}
use padwire.Usbip.Io.Transfer.{Pdu, sizes, get_isos, read_iso, read_pdu, lift_io-ok}

pub put_isos : List IsoPacketDescriptor → Put
put_isos [] = Writer.done
put_isos (d ∷ iso) = put_iso d >> put_isos iso

isos-Carries :
    (iso out : List IsoPacketDescriptor)
    → All IsIso iso
    → Carries (length iso * 16) (put_isos iso) (get_isos (length iso) out) (out ++ iso)
unfolding put_isos get_isos
isos-Carries [] out h = Carries-eq (Carries-done out) (omega arith) (sym (append-nil out))
isos-Carries (d ∷ iso) out h =
    Carries-eq (Carries-bind _ _ _ _ (iso-Carries d h.0) (isos-Carries iso (out ++ d ∷ []) h.1))
      (omega arith) (append_assoc out (d ∷ []) iso)

-- The bytes of a message: its header, its data and its packet descriptors.
pub message_bytes : Pdu → List ℕ
message_bytes p = to_bytes p.header ++ (p.data_bytes ++ Writer.into_vec (put_isos p.iso))

-- A message whose fields fit their types, that `sizes` allows under the limit, and whose data and
-- descriptors are as many as it says.
pub record IsFrame (max_transfer : ℕ) (p : Pdu) : Type 0 where
  pub header : IsHeader p.header
  pub iso : All IsIso p.iso
  pub sizes : sizes p.header max_transfer ≡ ok (length p.data_bytes, length p.iso)

read_iso_front :
    (iso : List IsoPacketDescriptor) (rest : List ℕ) (ending : ErrorKind)
    → All IsIso iso
    → read_iso
        (length iso)
        (record { incoming = Writer.into_vec (put_isos iso) ++ rest; ending = ending })
      ≡ ok (iso, record { incoming = rest; ending = ending })
unfolding read_iso Writer.into_vec Writer.new
read_iso_front [] rest ending h = unfold pure put_isos Writer.done in refl
read_iso_front (d ∷ iso) rest ending h =
    let c = isos-Carries (d ∷ iso) [] h in
    let some_left : ltb 0 (suc (length iso)) ≡ true = ground arith in
    let parsed = rw (append-nil _) at (parse-into_vec c []) in
    rw some_left (
      >>=-ok _ _ _ (read_exact_front _ rest _ ending (length-into_vec c))
      ∙ lift-ok _ _ (rw parsed refl))

-- However the stream goes on, `read_pdu` gives back a message that is within the limits, and leaves
-- the bytes behind it on the stream.
pub read_pdu-message_bytes :
    (p : Pdu) (max_transfer : ℕ) (rest : List ℕ) (ending : ErrorKind)
    → IsFrame max_transfer p
    → read_pdu max_transfer (record { incoming = message_bytes p ++ rest; ending = ending })
      ≡ ok (p, record { incoming = rest; ending = ending })
unfolding read_pdu message_bytes
read_pdu-message_bytes p max_transfer rest ending v =
    let (size, whole) = decode-to_bytes p.header [] v.header in
    let parsed = rw (append-nil (to_bytes p.header)) at whole in
    let isos = Writer.into_vec (put_isos p.iso) in
    let split =
      append_assoc (to_bytes p.header) (p.data_bytes ++ isos) rest
      ∙ ap (◌++◌ (to_bytes p.header)) (append_assoc p.data_bytes isos rest) in
    rw split (
      >>=-ok _ _ _ (read_exact_front (to_bytes p.header) _ _ ending size)
      ∙ >>=-ok _ _ _ (lift-ok _ _ parsed)
      ∙ >>=-ok _ _ _ (lift_io-ok _ _ v.sizes)
      ∙ >>=-ok _ _ _ (read_exact_front p.data_bytes _ _ ending refl)
      ∙ >>=-ok _ _ _ (read_iso_front p.iso rest ending v.iso)
      ∙ (unfold pure in refl))
