-- ===== src/Backend/Usbfs/Bounds.antt =====
-- usbfs.rs: the sizes of the buffers, and what the device refuses.
use Prim.Native.Nat.{bit_and}
use padwire.Prelude.{
  ℕ, ◌+◌, ◌-◌, ◌≤◌, ◌≡◌, ◌≢◌, refl, ap, ◌∙◌, Bool, true, none, List, [], ◌++◌, length, take, drop,
  replicate, length-append, length-take, length-drop, length-replicate, drop-append, take-append,
  max, if◌then◌else◌, arith, inl, inr, Bool-cases, get_or,
}
use padwire.Prelude.Int.{pos, max_zero}
use padwire.Usbip.Pdu.{is_in}
use padwire.Backend.{UrbRequest}
use padwire.Backend.Usbfs.Requests.{classify}
use padwire.Backend.Usbfs.Device.{
  Fixed, PendingUrb, setup_len, is_control, offset_of, buffer_of, urb_of, payload_len, reply_len,
  reply_data, completion_of,
}

abbrev head_of : UrbRequest → ℕ → List ℕ
head_of req t = if is_control t then req.setup else []

abbrev sent_of : UrbRequest → ℕ → List ℕ
sent_of req t = if is_in req.dir then [] else take (payload_len req t) req.data_bytes

length-head_of :
    (req : UrbRequest) (t : ℕ) → length req.setup ≡ setup_len → length (head_of req t) ≡ offset_of t
length-head_of req t h = elim (Bool-cases (is_control t)) [ inl e ↦ rw e h | inr e ↦ rw e refl ]

length-sent_of : (req : UrbRequest) (t : ℕ) → length (sent_of req t) ≤ payload_len req t
length-sent_of req t = elim (Bool-cases (is_in req.dir)) [
  | inl e ↦ rw e (omega arith)
  | inr e ↦ rw e (omega (arith, length-take (payload_len req t) req.data_bytes))
]

length-buffer_of :
    (req : UrbRequest) (t : ℕ)
    → length req.setup ≡ setup_len
    → length (buffer_of req t) ≡ max (offset_of t + payload_len req t) 1
unfolding buffer_of
length-buffer_of req t h =
    let pad =
      max (offset_of t + payload_len req t) 1 - (length (head_of req t) + length (sent_of req t)) in
    length-append (head_of req t) (sent_of req t ++ replicate pad 0)
    ∙ omega (
      arith,
      length-append (sent_of req t) (replicate pad 0),
      length-replicate {A = ℕ} pad 0,
      length-head_of req t h,
      length-sent_of req t,
    )

-- What the kernel may do to a URB that it has accepted: it writes to the buffer, the status and
-- the length.
pub record Fills (p q : PendingUrb) : Type 0 where
  pub same_seqnum : q.seqnum ≡ p.seqnum
  pub same_dir : q.dir ≡ p.dir
  pub same_offset : q.data_offset ≡ p.data_offset
  pub same_reply : q.max_reply ≡ p.max_reply
  pub same_size : length q.buffer ≡ length p.buffer

length-reply_data : (q : PendingUrb) → is_in q.dir ≡ true → length (reply_data q) ≡ reply_len q
unfolding reply_data
length-reply_data q e = rw e (
    length-take (reply_len q) (drop q.data_offset q.buffer)
    ∙ omega (arith, length-drop q.data_offset q.buffer))

-- What an IN transfer brings back once the kernel has filled the buffer that `submit` made: the
-- slice taken from it lies inside it, no more bytes come than the client asked for, and the length
-- reported is theirs.
pub completion_of-IsBounded :
    (fixed : Fixed) (req : UrbRequest) (address t : ℕ) (q : PendingUrb) (unlinked : Bool)
    → length req.setup ≡ setup_len
    → is_in req.dir ≡ true
    → Fills (urb_of fixed req address t) q
    → (q.data_offset + reply_len q ≤ length q.buffer)
      × (length (completion_of q unlinked).data_bytes ≤ req.buffer_length)
      × ((completion_of q unlinked).actual_length ≡ length (completion_of q unlinked).data_bytes)
unfolding completion_of urb_of
completion_of-IsBounded fixed req address t q unlinked setup incoming fills =
    let dir : is_in q.dir ≡ true = ap is_in fills.same_dir ∙ incoming in
    let len = length-reply_data q dir in
    let off : q.data_offset ≡ offset_of t = fills.same_offset in
    let most : q.max_reply ≡ req.buffer_length = fills.same_reply in
    let size : length q.buffer ≡ length (buffer_of req t) = fills.same_size in
    (omega (arith, off, size, length-buffer_of req t setup), omega (arith, len, most), rw dir refl)

-- The bytes that the kernel wrote behind the setup packet come back, all of them, when they are no
-- more than the client asked for.
pub reply_data-written :
    (q : PendingUrb) (setup written rest : List ℕ)
    → is_in q.dir ≡ true
    → length setup ≡ q.data_offset
    → q.buffer ≡ setup ++ (written ++ rest)
    → q.actual_length ≡ pos (length written)
    → length written ≤ q.max_reply
    → reply_data q ≡ written
unfolding reply_data
reply_data-written q setup written rest incoming off buffer actual fits =
    let tail : drop q.data_offset q.buffer ≡ written ++ rest =
      ap (drop q.data_offset) buffer ∙ drop-append setup (written ++ rest) q.data_offset off in
    let total : length q.buffer ≡ length setup + (length written + length rest) =
      ap length buffer
      ∙ length-append setup (written ++ rest)
      ∙ ap (λ n. length setup + n) (length-append written rest) in
    let n : length written ≡ reply_len q = omega (arith, ap max_zero actual, fits, total, off) in
    rw incoming (ap (take (reply_len q)) tail ∙ take-append written rest (reply_len q) n)

-- A control request that reads from the device is never answered without asking it.
pub classify_in : (setup : List ℕ) → bit_and (get_or setup 0 0) 0x80 ≢ 0 → classify setup ≡ none
unfolding classify
classify_in setup h = ground (arith, h)
