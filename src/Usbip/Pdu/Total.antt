-- ===== src/Usbip/Pdu/Total.antt =====
-- The decoder of pdu.rs on any 48 bytes.
use padwire.Prelude.{
  ℕ, ◌≡◌, ◌≢◌, refl, sym, subst, List, length, length-drop, ok, err, arith, ◌⊎◌, inl, inr, All,
  ℕ_discrete, ◌==◌, false,
}
use padwire.Usbip.Wire.Error.{ProtoError, size_cmd_header, bad_command}
use padwire.Usbip.Wire.Words.{IsByte}
use padwire.Usbip.Wire.Reader.{Reader, Parse, ◌>>=◌, fail}
use padwire.Usbip.Wire.Reader
use padwire.Usbip.Wire.Carry.{advance}
use padwire.Usbip.Wire.Takes.{
  All-drop, Takes, Takes-bind, Takes-pure, Takes-u32, Takes-i32, Takes-array, Takes-skip,
}
use padwire.Usbip.Pdu.{
  BasicHeader, Body, Header, IsBase, IsBody, IsHeader, IsIso, command_of, usbip_cmd_submit,
  usbip_ret_submit, usbip_cmd_unlink, usbip_ret_unlink,
}
use padwire.Usbip.Pdu.Decode.{get_base, get_body, get_header, decode, get_iso}

IsBase-Takes : Takes 20 get_base IsBase
unfolding get_base
IsBase-Takes = Takes-bind _ _ Takes-u32 λ command c. Takes-bind _ _ Takes-u32 λ seqnum s.
    Takes-bind _ _ Takes-u32 λ devid d. Takes-bind _ _ Takes-u32 λ direction i.
      Takes-pure _ _ Takes-u32
        λ ep e. record { command = c; seqnum = s; devid = d; direction = i; ep = e }

pub IsIso-Takes : Takes 16 get_iso IsIso
unfolding get_iso
IsIso-Takes = Takes-bind _ _ Takes-u32 λ offset o. Takes-bind _ _ Takes-u32 λ length l.
    Takes-bind _ _ Takes-u32 λ actual_length a.
      Takes-pure _ _ Takes-u32
        λ status s. record { offset = o; length = l; actual_length = a; status = s }

-- A body that fits its types and goes with the command.
abbrev Announced : ℕ → Body → Type 0
Announced command b = IsBody b × (command ≡ command_of b)

cmd_submit-Takes : Takes 28 (get_body usbip_cmd_submit) (Announced usbip_cmd_submit)
unfolding get_body
cmd_submit-Takes = Takes-bind _ _ Takes-u32 λ flags f. Takes-bind _ _ Takes-i32 λ buffer_length b.
    Takes-bind _ _ Takes-i32 λ start_frame s. Takes-bind _ _ Takes-i32 λ number_of_packets n.
      Takes-bind _ _ Takes-i32 λ interval i. Takes-pure _ _ (Takes-array 8) λ setup p. (
        record {
          transfer_flags = f;
          transfer_buffer_length = b;
          start_frame = s;
          number_of_packets = n;
          interval = i;
          setup = p.0;
        },
        refl,
      )

ret_submit-Takes : Takes 28 (get_body usbip_ret_submit) (Announced usbip_ret_submit)
unfolding get_body
ret_submit-Takes = Takes-bind _ _ Takes-i32 λ status s. Takes-bind _ _ Takes-i32 λ actual_length a.
    Takes-bind _ _ Takes-i32 λ start_frame f. Takes-bind _ _ Takes-i32 λ number_of_packets n.
      Takes-bind _ _ Takes-i32 λ error_count e. Takes-pure _ _ (Takes-skip 8) λ padding _. (
        record {
          status = s;
          actual_length = a;
          start_frame = f;
          number_of_packets = n;
          error_count = e;
        },
        refl,
      )

cmd_unlink-Takes : Takes 28 (get_body usbip_cmd_unlink) (Announced usbip_cmd_unlink)
unfolding get_body
cmd_unlink-Takes =
    Takes-bind _ _ Takes-u32 λ seqnum s. Takes-pure _ _ (Takes-skip 24) λ padding _. (s, refl)

ret_unlink-Takes : Takes 28 (get_body usbip_ret_unlink) (Announced usbip_ret_unlink)
unfolding get_body
ret_unlink-Takes =
    Takes-bind _ _ Takes-i32 λ status s. Takes-pure _ _ (Takes-skip 24) λ padding _. (s, refl)

-- The four commands of the protocol.
abbrev pub IsCommand : ℕ → Type 0
IsCommand c =
    (c ≡ usbip_cmd_submit)
    ⊎ (c ≡ usbip_ret_submit)
    ⊎ (c ≡ usbip_cmd_unlink)
    ⊎ (c ≡ usbip_ret_unlink)

at_command :
    (k c : ℕ) → c ≡ k → Takes 28 (get_body k) (Announced k) → Takes 28 (get_body c) (Announced c)
at_command k c e = subst (λ v. Takes 28 (get_body v) (Announced v)) (sym e)

known : (c : ℕ) → IsCommand c → Takes 28 (get_body c) (Announced c)
known c (inl e) = at_command _ c e cmd_submit-Takes
known c (inr (inl e)) = at_command _ c e ret_submit-Takes
known c (inr (inr (inl e))) = at_command _ c e cmd_unlink-Takes
known c (inr (inr (inr e))) = at_command _ c e ret_unlink-Takes

test_ne : (c k : ℕ) → c ≢ k → (c == k) ≡ false
test_ne c k h = ground arith

unknown : (c : ℕ) (r : Reader) → ¬ (IsCommand c) → get_body c r ≡ err (bad_command c)
unfolding get_body fail
unknown c r h = rw (test_ne c 1 (λ e. h (inl e))) (
    rw (test_ne c 3 (λ e. h (inr (inl e)))) (
      rw (test_ne c 2 (λ e. h (inr (inr (inl e)))))
        (rw (test_ne c 4 (λ e. h (inr (inr (inr e))))) refl)))

IsCommand-cases : (c : ℕ) → IsCommand c ⊎ (¬ (IsCommand c))
IsCommand-cases c = ground (arith, ℕ_discrete c 1, ℕ_discrete c 2, ℕ_discrete c 3, ℕ_discrete c 4)

decode_ok :
    (buf : List ℕ) {b : BasicHeader} {body : Body} {r r' : Reader}
    → get_base (Reader.new buf) ≡ ok (b, r)
    → get_body b.command r ≡ ok (body, r')
    → decode buf ≡ ok (record { base = b; body = body })
unfolding decode get_header
decode_ok buf e e' = rw (e, decode, get_header, ◌>>=◌) (rw (e', ◌>>=◌) refl)

decode_err :
    (buf : List ℕ) {b : BasicHeader} {r : Reader} {x : ProtoError}
    → get_base (Reader.new buf) ≡ ok (b, r)
    → get_body b.command r ≡ err x
    → decode buf ≡ err x
unfolding decode get_header
decode_err buf e e' = rw (e, decode, get_header, ◌>>=◌) (rw (e', ◌>>=◌) refl)

-- Any 48 bytes decode either to a header whose fields fit their types and whose command is that of
-- its body, or to `BadCommand` with a command that is none of the four; never to `Truncated`.
pub decode_total :
    (buf : List ℕ)
    → All IsByte buf
    → length buf ≡ size_cmd_header
    → ((h : Header) × (decode buf ≡ ok h) × IsHeader h)
      ⊎ ((c : ℕ) × (decode buf ≡ err (bad_command c)) × (¬ (IsCommand c)))
unfolding Reader.new
decode_total buf bs size =
    let (b, e, v) = IsBase-Takes.at (Reader.new buf) bs (omega arith) in
    elim (IsCommand-cases b.command) [
      | inl k ↦
          let (body, e', w) =
            (known b.command k).at (advance (Reader.new buf) 20) (All-drop IsByte 20 buf bs)
              (omega (arith, length-drop 20 buf)) in
          inl (
            record { base = b; body = body },
            decode_ok buf e e',
            record { base = v; body = w.0; command = w.1 },
          )
      | inr k ↦ inr (b.command, decode_err buf e (unknown b.command _ k), k)
    ]
