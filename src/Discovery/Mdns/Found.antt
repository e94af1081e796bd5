-- ===== src/Discovery/Mdns/Found.antt =====
-- mdns.rs: the browser finds what the responder announces.
use padwire.Prelude.{
  ℕ, suc, ◌+◌, ◌*◌, ◌/◌, ◌%◌, ◌^◌, ◌≤◌, ◌<◌, ◌≡◌, refl, ap, sym, ◌∙◌, true, false, none, List, [],
  ◌∷◌, ◌++◌, map, append-nil, append_assoc, All, length, drop, ltb, leb, ◌==◌, arith,
}
use padwire.Prelude.Text.{join}
use padwire.Usbip.Wire.Words.{u16_to_be_bytes}
use padwire.Discovery.Mdns.{
  type_a, type_ptr, type_txt, type_srv, class_in, ttl_host, ttl_ptr, encode_name, srv_rdata,
  txt_rdata,
}
use padwire.Discovery.Mdns.Names.{
  IsLabel, behind, read_name-encode_name, encode_name-label_bytes, label_bytes,
}
use padwire.Discovery.Mdns.Browse.{
  flush, answer, Heard, note, note_ptr, note_srv, has_instance, collect_each, collect,
  skip_questions,
}
use padwire.Discovery.Mdns.Records.{data_at, IsEntry, collect_each-record, parse_txt-txt_rdata}
use padwire.Discovery.Mdns.Announcement.{
  service_labels, service_labels-IsLabel, address_bytes, body_bytes, answer-body_bytes,
}

abbrev pub silence : Heard
silence = record { instances = []; srv = []; txts = []; addrs = [] }

note-ptr :
    (buf : List ℕ) (p : ℕ) (is : List (List ℕ)) (rest : List ℕ)
    → All IsLabel is
    → drop p buf ≡ encode_name (join 46 is) ++ rest
    → note buf (join 46 service_labels) type_ptr p (encode_name (join 46 is)) silence
      ≡ record silence { instances = join 46 is ∷ [] }
unfolding note note_ptr join has_instance
note-ptr buf p is rest v e = rw (read_name-encode_name buf p is rest v e, note_ptr) refl

length-srv_rdata :
    (port : ℕ) (hs : List (List ℕ)) → All IsLabel hs → 7 ≤ length (srv_rdata port (join 46 hs))
unfolding srv_rdata u16_to_be_bytes label_bytes
length-srv_rdata port hs v = omega (arith, ap length (encode_name-label_bytes hs v), some_bytes hs)
  where
    some_bytes : (ls : List (List ℕ)) → 1 ≤ length (label_bytes ls)
    some_bytes [] = omega arith
    some_bytes (l ∷ ls) = omega arith

note-srv :
    (buf : List ℕ) (p : ℕ) (is hs : List (List ℕ)) (port : ℕ) (rest : List ℕ) (h : Heard)
    → All IsLabel hs
    → port < 65536
    → drop p buf ≡ srv_rdata port (join 46 hs) ++ rest
    → note buf (join 46 is) type_srv p (srv_rdata port (join 46 hs)) h
      ≡ record h { srv = h.srv ++ (join 46 is, port, join 46 hs) ∷ [] }
unfolding note note_srv srv_rdata u16_to_be_bytes
note-srv buf p is hs port rest h v small e =
    let long : leb 7 (length (srv_rdata port (join 46 hs))) ≡ true =
      ground (arith, length-srv_rdata port hs v) in
    let here : drop (p + 6) buf ≡ encode_name (join 46 hs) ++ rest =
      behind p 6 buf (0 ∷ 0 ∷ 0 ∷ 0 ∷ u16_to_be_bytes port) (encode_name (join 46 hs) ++ rest) e
        refl in
    let value : port / 2 ^ 8 % 256 * 256 + port % 256 ≡ port = omega (arith, small) in
    rw long (
      rw (read_name-encode_name buf (p + 6) hs rest v here, note_srv)
        (ap (λ n. record h { srv = h.srv ++ (join 46 is, n, join 46 hs) ∷ [] }) value))

note-txt :
    (buf : List ℕ) (p : ℕ) (is : List (List ℕ)) (txt : List (List ℕ)) (h : Heard)
    → All IsEntry txt
    → note buf (join 46 is) type_txt p (txt_rdata txt) h
      ≡ record h { txts = h.txts ++ (join 46 is, txt) ∷ [] }
unfolding note
note-txt buf p is txt h v =
    ap (λ t. record h { txts = h.txts ++ (join 46 is, t) ∷ [] }) (parse_txt-txt_rdata txt v)

note-address :
    (buf : List ℕ) (p : ℕ) (hs : List (List ℕ)) (a : List ℕ) (h : Heard)
    → length a ≡ 4
    → note buf (join 46 hs) type_a p a h ≡ record h { addrs = h.addrs ++ (join 46 hs, a) ∷ [] }
unfolding note
note-address buf p hs a h four = let e : (length a == 4) ≡ true = ground (arith, four) in rw e refl

collect_each-addresses :
    (buf : List ℕ) (p : ℕ) (hs addrs : List (List ℕ)) (h : Heard)
    → All IsLabel hs
    → All (λ a. length a ≡ 4) addrs
    → drop p buf ≡ address_bytes hs addrs
    → collect_each (length addrs) buf p h
      ≡ record h { addrs = h.addrs ++ map (λ a. (join 46 hs, a)) addrs }
unfolding collect_each address_bytes
collect_each-addresses buf p hs [] h v four e =
    ap (λ x. record h { addrs = x }) (sym (append-nil h.addrs))
collect_each-addresses buf p hs (a ∷ addrs) h v four e =
    let r =
      collect_each-record (length addrs) buf p hs type_a flush ttl_host a (address_bytes hs addrs) h
        v (omega arith) (omega (arith, four.0)) e in
    let h' : Heard = record h { addrs = h.addrs ++ (join 46 hs, a) ∷ [] } in
    r.0
    ∙ ap (λ x. collect_each (length addrs) buf (data_at p hs + length a) x)
        (note-address buf (data_at p hs) hs a h four.0)
    ∙ collect_each-addresses buf (data_at p hs + length a) hs addrs h' v four.1 r.2
    ∙ ap (λ x. record h { addrs = x })
        (append_assoc h.addrs ((join 46 hs, a) ∷ []) (map (λ a. (join 46 hs, a)) addrs))

-- What an announcement can carry: labels that are sent whole, entries that come back, addresses of
-- four octets, and sizes that their fields can hold.
pub record Fits (is hs : List (List ℕ)) (port : ℕ) (addrs txt : List (List ℕ)) : Type 0 where
  pub instance_labels : All IsLabel is
  pub host_labels : All IsLabel hs
  pub port_small : port < 65536
  pub octets : All (λ a. length a ≡ 4) addrs
  pub entries : All IsEntry txt
  pub instance_size : length (encode_name (join 46 is)) < 65536
  pub host_size : length (srv_rdata port (join 46 hs)) < 65536
  pub text_size : length (txt_rdata txt) < 65536
  pub few_addresses : length addrs < 65536

abbrev heard_of : List (List ℕ) → List (List ℕ) → ℕ → List (List ℕ) → List (List ℕ) → Heard
heard_of is hs port addrs txt = record {
  instances = join 46 is ∷ [];
  srv = (join 46 is, port, join 46 hs) ∷ [];
  txts = (join 46 is, txt) ∷ [];
  addrs = map (λ a. (join 46 hs, a)) addrs;
}

collect_each-body_bytes :
    (is hs : List (List ℕ)) (port : ℕ) (addrs txt : List (List ℕ)) (buf : List ℕ)
    → Fits is hs port addrs txt
    → drop 12 buf ≡ body_bytes is hs port addrs txt
    → collect_each (suc (suc (suc (length addrs)))) buf 12 silence ≡ heard_of is hs port addrs txt
collect_each-body_bytes is hs port addrs txt buf v e =
    let n = length addrs in
    let ptr =
      collect_each-record (suc (suc n)) buf 12 service_labels type_ptr class_in ttl_ptr
        (encode_name (join 46 is)) _ silence service_labels-IsLabel (omega arith) v.instance_size
        e in
    let q = data_at 12 service_labels in
    let h1 : Heard = record silence { instances = join 46 is ∷ [] } in
    let p1 = q + length (encode_name (join 46 is)) in
    let srv =
      collect_each-record (suc n) buf p1 is type_srv flush ttl_host (srv_rdata port (join 46 hs)) _
        h1 v.instance_labels (omega arith) v.host_size ptr.2 in
    let h2 : Heard = record h1 { srv = (join 46 is, port, join 46 hs) ∷ [] } in
    let p2 = data_at p1 is + length (srv_rdata port (join 46 hs)) in
    let told =
      collect_each-record n buf p2 is type_txt flush ttl_host (txt_rdata txt)
        (address_bytes hs addrs) h2 v.instance_labels (omega arith) v.text_size srv.2 in
    let h3 : Heard = record h2 { txts = (join 46 is, txt) ∷ [] } in
    let p3 = data_at p2 is + length (txt_rdata txt) in
    ptr.0
    ∙ ap (collect_each (suc (suc n)) buf p1) (note-ptr buf q is _ v.instance_labels ptr.1)
    ∙ srv.0
    ∙ ap (collect_each (suc n) buf p2)
        (note-srv buf (data_at p1 is) is hs port _ h1 v.host_labels v.port_small srv.1)
    ∙ told.0
    ∙ ap (collect_each n buf p3) (note-txt buf (data_at p2 is) is txt h2 v.entries)
    ∙ collect_each-addresses buf p3 hs addrs h3 v.host_labels v.octets told.2

-- From one announcement of a responder, the browser hears of exactly its service: its instance, its
-- host and port, its entries and its addresses, in their order.
pub collect-answer :
    (is hs : List (List ℕ)) (port : ℕ) (addrs txt : List (List ℕ))
    → Fits is hs port addrs txt
    → collect
        (answer
          (record {
            instance_fqdn = join 46 is;
            host_fqdn = join 46 hs;
            port = port;
            addrs = addrs;
            txt = txt;
          })
          true
          none)
        silence
      ≡ record {
        instances = join 46 is ∷ [];
        srv = (join 46 is, port, join 46 hs) ∷ [];
        txts = (join 46 is, txt) ∷ [];
        addrs = map (λ a. (join 46 hs, a)) addrs;
      }
unfolding collect skip_questions u16_to_be_bytes
collect-answer is hs port addrs txt v =
    let n = length addrs in
    let body = body_bytes is hs port addrs txt in
    let buf = 0 ∷ 0 ∷ 0x84 ∷ 0 ∷ 0 ∷ 0 ∷ 0 ∷ 3 ∷ 0 ∷ 0 ∷ (u16_to_be_bytes n ++ body) in
    let total : 3 + 0 + (n / 2 ^ 8 % 256 * 256 + n % 256) ≡ suc (suc (suc n)) =
      omega (arith, v.few_addresses) in
    let started : ltb (length buf) 12 ≡ false = ground arith in
    ap (λ b. collect b silence) (answer-body_bytes is hs port addrs txt)
    ∙ rw started (
        ap (λ k. collect_each k buf 12 silence) total
        ∙ collect_each-body_bytes is hs port addrs txt buf v refl)
