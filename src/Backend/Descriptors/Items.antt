-- ===== src/Backend/Descriptors/Items.antt =====
-- descriptors.rs: what the loop over a configuration makes of each descriptor.
use padwire.Prelude.{
  ℕ, zero, suc, ◌+◌, ◌*◌, ◌/◌, ◌%◌, ◌≤◌, ◌<◌, ◌≡◌, ◌≢◌, refl, ap, ◌∙◌, false, ◌||◌, List, [], ◌∷◌,
  ◌++◌, length, drop, get_or, length-append, drop-append, All, leb, ltb, ◌==◌, ◌&&◌, if◌then◌else◌,
  ok, arith,
}
use padwire.Backend.Descriptors.Index.{alt_setting_in, endpoint_in, visit_whole, walk_round}
use padwire.Backend.Descriptors.{
  Parsed, ◌>>=◌, EndpointDescriptor, AltSetting, push_endpoint, visit, walk, or_bad, dt_interface,
  dt_endpoint,
}

-- A descriptor in a configuration: of an interface with its string index, of an endpoint, or of
-- a kind that the parser does not read.
pub data Item : Type 0 where
  interface : AltSetting → ℕ → Item
  endpoint : EndpointDescriptor → Item
  other : ℕ → List ℕ → Item

unfoldable pub item_bytes : Item → List ℕ
item_bytes (interface a text) =
    9
    ∷ 4
    ∷ a.interface_number
    ∷ a.alternate_setting
    ∷ length a.endpoints
    ∷ a.class
    ∷ a.sub_class
    ∷ a.protocol
    ∷ text
    ∷ []
item_bytes (endpoint ep) =
    7
    ∷ 5
    ∷ ep.address
    ∷ ep.attributes
    ∷ (ep.max_packet_size % 256)
    ∷ (ep.max_packet_size / 256)
    ∷ ep.interval
    ∷ []
item_bytes (other kind body) = (2 + length body) ∷ kind ∷ body

unfoldable pub items_bytes : List Item → List ℕ
items_bytes [] = []
items_bytes (i ∷ items) = item_bytes i ++ items_bytes items

abbrev pub IsItem : Item → Type 0
IsItem (interface a text) = Unit {0}
IsItem (endpoint ep) = Unit {0}
IsItem (other kind body) = (kind ≢ dt_interface) × (kind ≢ dt_endpoint)

-- What an item adds to the settings found so far.
abbrev added : List AltSetting → Item → Parsed (List AltSetting)
added alts (interface a text) = ok (alts ++ record a { endpoints = [] } ∷ [])
added alts (endpoint ep) = or_bad (push_endpoint alts ep)
added alts (other kind body) = ok alts

abbrev item_len : Item → ℕ
item_len (interface a text) = 9
item_len (endpoint ep) = 7
item_len (other kind body) = 2 + length body

pub length-item : (i : Item) → length (item_bytes i) ≡ item_len i
unfolding item_bytes
length-item (interface a text) = refl
length-item (endpoint ep) = refl
length-item (other kind body) = omega arith

first-item : (i : Item) (rest : List ℕ) → get_or (item_bytes i ++ rest) 0 0 ≡ item_len i
unfolding item_bytes
first-item (interface a text) rest = refl
first-item (endpoint ep) rest = refl
first-item (other kind body) rest = refl

pub item_len_two : (i : Item) → 2 ≤ item_len i
item_len_two (interface a text) = omega arith
item_len_two (endpoint ep) = omega arith
item_len_two (other kind body) = omega arith

visit-item :
    (alts : List AltSetting) (i : Item) (rest : List ℕ)
    → IsItem i
    → visit
        (get_or (item_bytes i ++ rest) 0 0)
        (get_or (item_bytes i ++ rest) 1 0)
        alts
        (item_bytes i ++ rest)
      ≡ added alts i
visit-item alts i rest h =
    visit_whole _ _ alts (item_bytes i ++ rest)
      (omega (arith, first-item i rest, length-item i, length-append (item_bytes i) rest))
    ∙ described alts i rest h
  where
    described :
        (alts : List AltSetting) (i : Item) (rest : List ℕ)
        → IsItem i
        → (if get_or (item_bytes i ++ rest) 1 0 == dt_interface
              && leb 9 (get_or (item_bytes i ++ rest) 0 0)
            then ok (alts ++ alt_setting_in (item_bytes i ++ rest) ∷ [])
            else if get_or (item_bytes i ++ rest) 1 0 == dt_endpoint
                && leb 7 (get_or (item_bytes i ++ rest) 0 0)
            then or_bad (push_endpoint alts (endpoint_in (item_bytes i ++ rest)))
            else ok alts)
          ≡ added alts i
    described alts (interface a text) rest h = unfold item_bytes in refl
    described alts (endpoint ep) rest h =
        let e : ep.max_packet_size % 256 + ep.max_packet_size / 256 * 256 ≡ ep.max_packet_size =
          omega arith in
        unfold item_bytes in
        ap (λ m. or_bad (push_endpoint alts (record ep { max_packet_size = m }))) e
    described alts (other kind body) rest h = unfold item_bytes in ground arith

walk-item :
    (fuel : ℕ) (alts : List AltSetting) (i : Item) (rest : List ℕ)
    → IsItem i
    → walk (suc fuel) alts (item_bytes i ++ rest) ≡ (added alts i >>= λ alts'. walk fuel alts' rest)
walk-item fuel alts i rest h =
    let bytes = item_bytes i ++ rest in
    let inside : (ltb (length bytes) 2
          || ltb (get_or bytes 0 0) 2
          || ltb (length bytes) (get_or bytes 0 0))
        ≡ false =
      ground (
        arith,
        first-item i rest,
        item_len_two i,
        length-item i,
        length-append (item_bytes i) rest,
      ) in
    let left : drop (get_or bytes 0 0) bytes ≡ rest =
      ap (λ n. drop n bytes) (first-item i rest)
      ∙ drop-append (item_bytes i) rest (item_len i) (length-item i) in
    walk_round fuel alts bytes
    ∙ rw inside (
        ap (λ m. m >>= λ alts'. walk fuel alts' (drop (get_or bytes 0 0) bytes))
          (visit-item alts i rest h)
        ∙ ap (λ r. added alts i >>= λ alts'. walk fuel alts' r) left)

-- The settings that a list of items describes.
unfoldable pub gather : List AltSetting → List Item → Parsed (List AltSetting)
gather alts [] = ok alts
gather alts (i ∷ items) = added alts i >>= λ alts'. gather alts' items

pub walk-items :
    (fuel : ℕ) (alts : List AltSetting) (items : List Item)
    → length items < fuel
    → All IsItem items
    → walk fuel alts (items_bytes items) ≡ gather alts items
unfolding items_bytes gather
walk-items zero alts items h v = elim h [ ]
walk-items (suc fuel) alts [] h v = walk_round fuel alts []
walk-items (suc fuel) alts (i ∷ items) h v =
    walk-item fuel alts i (items_bytes items) v.0
    ∙ (λ j. added alts i >>= λ alts'. walk-items fuel alts' items (omega arith) v.1 j)
