-- ===== src/Discovery/Mdns/Announcement.antt =====
-- mdns.rs: the bytes of an announcement.
use padwire.Prelude.{
  ℕ, ◌+◌, ◌≡◌, refl, ap, sym, ◌∙◌, true, false, none, List, [], ◌∷◌, ◌++◌, append-nil, append_assoc,
  All, length, take, drop, arith,
}
use padwire.Prelude.Text.{join}
use padwire.Usbip.Wire.Text.{is_utf8}
use padwire.Usbip.Wire.Words.{u16_to_be_bytes}
use padwire.Discovery.Mdns.{
  service, type_a, type_ptr, type_txt, type_srv, class_in, ttl_host, ttl_ptr, Message, new,
  add_record, finish, encode_name, record_bytes, srv_rdata, txt_rdata,
}
use padwire.Discovery.Mdns.Names.{IsLabel}
use padwire.Discovery.Mdns.Browse.{Responder, flush, add_addresses, answer}

abbrev pub service_labels : List (List ℕ)
service_labels =
    (95 ∷ 117 ∷ 115 ∷ 98 ∷ 105 ∷ 112 ∷ [])
    ∷ (95 ∷ 116 ∷ 99 ∷ 112 ∷ [])
    ∷ (108 ∷ 111 ∷ 99 ∷ 97 ∷ 108 ∷ [])
    ∷ []

service-join : join 46 service_labels ≡ service
unfolding join
service-join = refl

pub service_labels-IsLabel : All IsLabel service_labels
unfolding is_utf8
service_labels-IsLabel = ground arith

-- The records of the addresses.
unfoldable pub address_bytes : List (List ℕ) → List (List ℕ) → List ℕ
address_bytes hs [] = []
address_bytes hs (a ∷ addrs) =
    record_bytes (join 46 hs) type_a flush ttl_host a ++ address_bytes hs addrs

add_addresses-lem :
    (hs addrs : List (List ℕ)) (m : Message)
    → ((add_addresses (join 46 hs) ttl_host addrs m).buf ≡ m.buf ++ address_bytes hs addrs)
      × ((add_addresses (join 46 hs) ttl_host addrs m).additional ≡ m.additional + length addrs)
      × ((add_addresses (join 46 hs) ttl_host addrs m).answers ≡ m.answers)
      × ((add_addresses (join 46 hs) ttl_host addrs m).questions ≡ m.questions)
unfolding add_addresses add_record address_bytes
add_addresses-lem hs [] m = (sym (append-nil m.buf), omega arith, refl, refl)
add_addresses-lem hs (a ∷ addrs) m =
    let r = add_addresses-lem hs addrs (add_record (join 46 hs) type_a flush ttl_host a true m) in
    (
      r.0
          ∙ append_assoc m.buf (record_bytes (join 46 hs) type_a flush ttl_host a)
              (address_bytes hs addrs),
      omega (arith, r.1),
      r.2,
      r.3,
    )

abbrev pub responder : List (List ℕ) → List (List ℕ) → ℕ → List (List ℕ) → List (List ℕ) → Responder
responder is hs port addrs txt = record {
  instance_fqdn = join 46 is;
  host_fqdn = join 46 hs;
  port = port;
  addrs = addrs;
  txt = txt;
}

-- What stands behind the header of an announcement.
abbrev pub body_bytes : List (List ℕ) → List (List ℕ) → ℕ → List (List ℕ) → List (List ℕ) → List ℕ
body_bytes is hs port addrs txt =
    record_bytes (join 46 service_labels) type_ptr class_in ttl_ptr (encode_name (join 46 is))
    ++ (record_bytes (join 46 is) type_srv flush ttl_host (srv_rdata port (join 46 hs))
        ++ (record_bytes (join 46 is) type_txt flush ttl_host (txt_rdata txt)
            ++ address_bytes hs addrs))

abbrev finished : List ℕ → ℕ → ℕ → ℕ → List ℕ
finished buf q a more =
    take 4 buf
    ++ (u16_to_be_bytes q
        ++ (u16_to_be_bytes a ++ (take 2 (drop 8 buf) ++ (u16_to_be_bytes more ++ drop 12 buf))))

finish-lem :
    (m : Message) (buf : List ℕ) (q a more : ℕ)
    → m.buf ≡ buf
    → m.questions ≡ q
    → m.answers ≡ a
    → m.additional ≡ more
    → finish m ≡ finished buf q a more
unfolding finish
finish-lem m buf q a more b q' a' more' =
    ap (λ x. finished x m.questions m.answers m.additional) b
    ∙ ap (λ x. finished buf x m.answers m.additional) q'
    ∙ ap (λ x. finished buf q x m.additional) a'
    ∙ ap (λ x. finished buf q a x) more'

pub answer-body_bytes :
    (is hs : List (List ℕ)) (port : ℕ) (addrs txt : List (List ℕ))
    → answer (responder is hs port addrs txt) true none
      ≡ 0
        ∷ 0
        ∷ 0x84
        ∷ 0
        ∷ 0
        ∷ 0
        ∷ 0
        ∷ 3
        ∷ 0
        ∷ 0
        ∷ (u16_to_be_bytes (length addrs) ++ body_bytes is hs port addrs txt)
unfolding answer add_record new u16_to_be_bytes
answer-body_bytes is hs port addrs txt =
    let start : Message = new 0 0x8400 in
    let pointed =
      add_record service type_ptr class_in ttl_ptr (encode_name (join 46 is)) false start in
    let served =
      add_record (join 46 is) type_srv flush ttl_host (srv_rdata port (join 46 hs)) false pointed in
    let told = add_record (join 46 is) type_txt flush ttl_host (txt_rdata txt) false served in
    let all = add_addresses-lem hs addrs told in
    let ptr = record_bytes service type_ptr class_in ttl_ptr (encode_name (join 46 is)) in
    let srv = record_bytes (join 46 is) type_srv flush ttl_host (srv_rdata port (join 46 hs)) in
    let text = record_bytes (join 46 is) type_txt flush ttl_host (txt_rdata txt) in
    let more : 0 + length addrs ≡ length addrs = omega arith in
    finish-lem (add_addresses (join 46 hs) ttl_host addrs told) (told.buf ++ address_bytes hs addrs)
      0 3 (length addrs) all.0 all.3 all.2 (all.1 ∙ more)
    ∙ ap (λ x. 0 ∷ 0 ∷ 0x84 ∷ 0 ∷ 0 ∷ 0 ∷ 0 ∷ 3 ∷ 0 ∷ 0 ∷ (u16_to_be_bytes (length addrs) ++ x))
        (append_assoc (ptr ++ srv) text (address_bytes hs addrs)
          ∙ append_assoc ptr srv (text ++ address_bytes hs addrs)
          ∙ ap
              (λ s.
                record_bytes s type_ptr class_in ttl_ptr (encode_name (join 46 is))
                ++ (srv ++ (text ++ address_bytes hs addrs)))
              (sym service-join))
