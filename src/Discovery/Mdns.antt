-- ===== src/Discovery/Mdns.antt =====
-- crates/usbfwd-common/src/mdns.rs: the messages of the responder and of the browser. A string is
-- the list of its bytes. The sockets, the clock and the loop that receives are left out.
pub mod Lossy
pub mod Names
pub mod Ends
pub mod Browse
pub mod Records
pub mod Announcement
pub mod Found
use Prim.Native.Nat.{bit_and}
use padwire.Prelude.{
  ℕ, zero, suc, ◌+◌, ◌*◌, ◌%◌, ◌^◌, Bool, true, false, ◌&&◌, ◌||◌, not, Option, none, some, List,
  [], ◌∷◌, ◌++◌, length, take, drop, get_or, min, ltb, leb, ◌==◌, if◌then◌else◌,
}
use padwire.Prelude.Text.{split, is_nil}
use padwire.Usbip.Wire.Words.{u16_to_be_bytes, u32_to_be_bytes, u16_from_be_bytes}
use padwire.Discovery.Mdns.Lossy.{from_utf8_lossy}

-- `_usbip._tcp.local`
abbrev pub service : List ℕ
service =
    95 ∷ 117 ∷ 115 ∷ 98 ∷ 105 ∷ 112 ∷ 46 ∷ 95 ∷ 116 ∷ 99 ∷ 112 ∷ 46 ∷ 108 ∷ 111 ∷ 99 ∷ 97 ∷ 108 ∷ []

abbrev pub type_a : ℕ
type_a = 1

abbrev pub type_ptr : ℕ
type_ptr = 12

abbrev pub type_txt : ℕ
type_txt = 16

abbrev pub type_srv : ℕ
type_srv = 33

abbrev pub type_any : ℕ
type_any = 255

abbrev pub class_in : ℕ
class_in = 1

abbrev pub flag_unicast_or_flush : ℕ
flag_unicast_or_flush = 0x8000

abbrev pub ttl_host : ℕ
ttl_host = 120

abbrev pub ttl_ptr : ℕ
ttl_ptr = 4500

unfoldable pub encode_labels : List (List ℕ) → List ℕ
encode_labels [] = 0 ∷ []
encode_labels (l ∷ ls) =
    let rest = encode_labels ls in
    if is_nil l then rest else min (length l) 63 ∷ (take (min (length l) 63) l ++ rest)

unfoldable pub encode_name : List ℕ → List ℕ
unfolding encode_labels
encode_name name = encode_labels (split 46 name)

-- `buf.get(p)`
unfoldable pub get : List ℕ → ℕ → Option ℕ
get buf p = if ltb p (length buf) then some (get_or buf p 0) else none

-- What `read_name` finds: a name and the position behind it, or nothing. `no_fuel` is the model's
-- own: a loop that has not ended when its rounds are used up.
pub data Read : Type 0 where
  named : List ℕ → ℕ → Read
  unreadable no_fuel : Read

abbrev pub push_label : List ℕ → List ℕ → List ℕ
push_label out label = if is_nil out then label else out ++ 46 ∷ label

abbrev pub or_here : Option ℕ → ℕ → ℕ
or_here (some p) q = p
or_here none q = q

-- `resume` is the position behind the first pointer.
unfoldable pub read_from : ℕ → List ℕ → ℕ → Option ℕ → ℕ → List ℕ → Read
unfolding get from_utf8_lossy
read_from zero buf p resume hops out = no_fuel
read_from (suc fuel) buf p resume hops out =
    let len = get_or buf p 0 in
    let low = get_or buf (p + 1) 0 in
    let jumped =
      read_from fuel buf (bit_and len 0x3f * 256 + low) (some (or_here resume (p + 2))) (hops + 1)
        out in
    let label = from_utf8_lossy (take len (drop (p + 1) buf)) in
    let more = read_from fuel buf (p + 1 + len) resume hops (push_label out label) in
    if not (ltb p (length buf))
    then unreadable
    else if bit_and len 0xc0 == 0xc0
    then if not (ltb (p + 1) (length buf)) || ltb 16 (hops + 1) then unreadable else jumped
    else if len == 0
    then named out (or_here resume (p + 1))
    else if leb (p + 1 + len) (length buf)
    then more
    else unreadable

-- Each round is a jump, of at most 16, or moves on in the buffer.
unfoldable pub read_name : List ℕ → ℕ → Read
unfolding read_from
read_name buf p = read_from (17 * (length buf + 1) + 1) buf p none 0 []

pub record Message : Type 0 where
  pub buf : List ℕ
  pub questions : ℕ
  pub answers : ℕ
  pub additional : ℕ

unfoldable pub new : ℕ → ℕ → Message
new id flags = record {
  buf = u16_to_be_bytes id ++ (u16_to_be_bytes flags ++ 0 ∷ 0 ∷ 0 ∷ 0 ∷ 0 ∷ 0 ∷ 0 ∷ 0 ∷ []);
  questions = 0;
  answers = 0;
  additional = 0;
}

unfoldable pub question : List ℕ → ℕ → ℕ → Message → Message
question name qtype qclass m = record m {
  buf = m.buf ++ (encode_name name ++ (u16_to_be_bytes qtype ++ u16_to_be_bytes qclass));
  questions = m.questions + 1;
}

-- The bytes of a record.
unfoldable pub record_bytes : List ℕ → ℕ → ℕ → ℕ → List ℕ → List ℕ
record_bytes name rtype class ttl rdata =
    encode_name name
    ++ (u16_to_be_bytes rtype
        ++ (u16_to_be_bytes class
            ++ (u32_to_be_bytes ttl ++ (u16_to_be_bytes (length rdata % 2 ^ 16) ++ rdata))))

-- The counts are 16 bits wide; a message of as many records as would overflow them panics or wraps,
-- and is far larger than a packet.
unfoldable pub add_record : List ℕ → ℕ → ℕ → ℕ → List ℕ → Bool → Message → Message
unfolding record_bytes
add_record name rtype class ttl rdata extra m =
    let buf = m.buf ++ record_bytes name rtype class ttl rdata in
    if extra
    then record m { buf = buf; additional = m.additional + 1 }
    else record m { buf = buf; answers = m.answers + 1 }

unfoldable pub finish : Message → List ℕ
finish m =
    take 4 m.buf
    ++ (u16_to_be_bytes m.questions
        ++ (u16_to_be_bytes m.answers
            ++ (take 2 (drop 8 m.buf) ++ (u16_to_be_bytes m.additional ++ drop 12 m.buf))))

unfoldable pub srv_rdata : ℕ → List ℕ → List ℕ
srv_rdata port target = 0 ∷ 0 ∷ 0 ∷ 0 ∷ (u16_to_be_bytes port ++ encode_name target)

unfoldable pub txt_entries : List (List ℕ) → List ℕ
txt_entries [] = []
txt_entries (e ∷ es) = min (length e) 255 ∷ (take (min (length e) 255) e ++ txt_entries es)

unfoldable pub txt_rdata : List (List ℕ) → List ℕ
unfolding txt_entries
txt_rdata [] = 0 ∷ []
txt_rdata (e ∷ es) = txt_entries (e ∷ es)

-- `p` moves on by a byte at least in each round.
unfoldable pub txt_from : ℕ → List ℕ → List (List ℕ)
txt_from zero rest = []
txt_from (suc fuel) [] = []
txt_from (suc fuel) (n ∷ rest) =
    let others = txt_from fuel (drop n rest) in
    if n == 0 || ltb (length rest) n then [] else from_utf8_lossy (take n rest) ∷ others

unfoldable pub parse_txt : List ℕ → List (List ℕ)
unfolding txt_from
parse_txt rdata = txt_from (length rdata) rdata
