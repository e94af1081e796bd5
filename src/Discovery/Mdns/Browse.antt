-- ===== src/Discovery/Mdns/Browse.antt =====
-- mdns.rs: what the responder answers, and what the browser collects.
use Prim.Native.Nat.{bit_and}
use padwire.Prelude.{
  ℕ, zero, suc, ◌+◌, ◌*◌, Bool, true, false, ◌&&◌, ◌||◌, not, Option, none, some, List, [], ◌∷◌,
  ◌++◌, length, take, drop, get_or, ltb, leb, ◌==◌, if◌then◌else◌,
}
use padwire.Prelude.Text.{is_same, same_ignoring_case, lower}
use padwire.Usbip.Wire.Words.{u16_from_be_bytes}
use padwire.Discovery.Mdns.{
  service, type_a, type_ptr, type_txt, type_srv, type_any, class_in, flag_unicast_or_flush,
  ttl_host, ttl_ptr, encode_name, Read, named, read_name, Message, new, add_record, finish,
  srv_rdata, txt_rdata, parse_txt,
}

pub record Responder : Type 0 where
  pub instance_fqdn : List ℕ
  pub host_fqdn : List ℕ
  pub port : ℕ
  pub addrs : List (List ℕ)
  pub txt : List (List ℕ)

-- `CLASS_IN | FLAG_UNICAST_OR_FLUSH`
abbrev pub flush : ℕ
flush = 0x8001

abbrev pub or_ttl : Option ℕ → ℕ → ℕ
or_ttl (some ttl) other = ttl
or_ttl none other = other

-- A record for each address, of four octets.
unfoldable pub add_addresses : List ℕ → ℕ → List (List ℕ) → Message → Message
add_addresses host ttl [] m = m
add_addresses host ttl (a ∷ addrs) m =
    add_addresses host ttl addrs (add_record host type_a flush ttl a true m)

unfoldable pub answer : Responder → Bool → Option ℕ → List ℕ
unfolding add_addresses
answer r include_ptr ttl_override =
    let host = or_ttl ttl_override ttl_host in
    let start = new 0 0x8400 in
    let pointed =
      if include_ptr
      then add_record service type_ptr class_in (or_ttl ttl_override ttl_ptr)
          (encode_name r.instance_fqdn) false start
      else start in
    let served =
      add_record r.instance_fqdn type_srv flush host (srv_rdata r.port r.host_fqdn) false pointed in
    let told = add_record r.instance_fqdn type_txt flush host (txt_rdata r.txt) false served in
    finish (add_addresses r.host_fqdn host r.addrs told)

-- Two bytes, if both are there.
unfoldable pub u16_at : List ℕ → ℕ → Option ℕ
u16_at buf p =
    if ltb (p + 1) (length buf) then some (get_or buf p 0 * 256 + get_or buf (p + 1) 0) else none

-- Whether the service type was asked for, something of this responder, and a unicast reply.
pub record Asked : Type 0 where
  pub ptr : Bool
  pub svc : Bool
  pub unicast : Bool

unfoldable pub asked : Responder → List ℕ → ℕ → ℕ → Asked → Asked
asked r name qtype qclass a =
    let a' = if bit_and qclass flag_unicast_or_flush == 0 then a else record a { unicast = true } in
    if is_same (lower name) service && (qtype == type_ptr || qtype == type_any)
    then record a' { ptr = true }
    else if is_same (lower name) (lower r.instance_fqdn)
          && (qtype == type_srv || qtype == type_txt || qtype == type_any)
        || is_same (lower name) (lower r.host_fqdn) && (qtype == type_a || qtype == type_any)
    then record a' { svc = true }
    else a'

unfoldable pub match_each : Responder → ℕ → List ℕ → ℕ → Asked → Option Asked
unfolding asked u16_at
match_each r zero buf p a = some a
match_each r (suc n) buf p a = elim (read_name buf p) [
  | named name q ↦ elim (u16_at buf q) [
    | none ↦ none
    | some qtype ↦ elim (u16_at buf (q + 2)) [
      | none ↦ none
      | some qclass ↦ match_each r n buf (q + 4) (asked r name qtype qclass a)
    ]
  ]
  | _ ↦ none
]

unfoldable pub match_questions : Responder → List ℕ → Option Asked
unfolding match_each
match_questions r buf =
    if ltb (length buf) 12
    then none
    else if not (bit_and (u16_from_be_bytes (drop 2 buf)) 0x8000 == 0)
    then none
    else match_each r (u16_from_be_bytes (drop 4 buf)) buf 12
        (record { ptr = false; svc = false; unicast = false })

-- What the browser has heard so far.
pub record Heard : Type 0 where
  pub instances : List (List ℕ)
  pub srv : List (List ℕ × ℕ × List ℕ)
  pub txts : List (List ℕ × List (List ℕ))
  pub addrs : List (List ℕ × List ℕ)

unfoldable pub has_instance : List ℕ → List (List ℕ) → Bool
has_instance target [] = false
has_instance target (i ∷ is) = same_ignoring_case i target || has_instance target is

unfoldable pub note_ptr : Read → Heard → Heard
unfolding has_instance
note_ptr (named target q) h =
    if has_instance target h.instances
    then h
    else record h { instances = h.instances ++ target ∷ [] }
note_ptr _ h = h

unfoldable pub note_srv : List ℕ → ℕ → Read → Heard → Heard
note_srv name port (named target q) h = record h { srv = h.srv ++ (name, port, target) ∷ [] }
note_srv name port _ h = h

-- One record, with the position of its data.
unfoldable pub note : List ℕ → List ℕ → ℕ → ℕ → List ℕ → Heard → Heard
unfolding note_ptr note_srv
note buf name rtype p rdata h =
    if rtype == type_ptr && same_ignoring_case name service
    then note_ptr (read_name buf p) h
    else if rtype == type_srv && leb 7 (length rdata)
    then note_srv name (get_or rdata 4 0 * 256 + get_or rdata 5 0) (read_name buf (p + 6)) h
    else if rtype == type_txt
    then record h { txts = h.txts ++ (name, parse_txt rdata) ∷ [] }
    else if rtype == type_a && length rdata == 4
    then record h { addrs = h.addrs ++ (name, rdata) ∷ [] }
    else h

-- The records left; what has been heard before a record that cannot be read stays.
unfoldable pub collect_each : ℕ → List ℕ → ℕ → Heard → Heard
unfolding note u16_at
collect_each zero buf p h = h
collect_each (suc n) buf p h = elim (read_name buf p) [
  | named name q ↦ elim (u16_at buf q) [
    | none ↦ h
    | some rtype ↦ elim (u16_at buf (q + 8)) [
      | none ↦ h
      | some len ↦
          let rdata = take len (drop (q + 10) buf) in
          let next = collect_each n buf (q + 10 + len) (note buf name rtype (q + 10) rdata h) in
          if leb (q + 10 + len) (length buf) then next else h
    ]
  ]
  | _ ↦ h
]

unfoldable pub skip_questions : ℕ → List ℕ → ℕ → Option ℕ
skip_questions zero buf p = some p
skip_questions (suc n) buf p = elim (read_name buf p) [
  | named name q ↦ skip_questions n buf (q + 4)
  | _ ↦ none
]

abbrev pub count_at : List ℕ → ℕ → ℕ
count_at buf p = get_or buf p 0 * 256 + get_or buf (p + 1) 0

unfoldable pub collect : List ℕ → Heard → Heard
unfolding collect_each skip_questions
collect buf h = if ltb (length buf) 12 then h else elim (skip_questions (count_at buf 4) buf 12) [
  | none ↦ h
  | some p ↦ collect_each (count_at buf 6 + count_at buf 8 + count_at buf 10) buf p h
]
