-- ===== src/Discovery/Examples.antt =====
-- mdns.rs: a responder of one service, and messages with pointers in their names.
use padwire.Prelude.{ℕ, ◌≡◌, true, none, List, [], ◌∷◌, map, All, arith}
use padwire.Prelude.Text.{join, split}
use padwire.Usbip.Wire.Text.{is_utf8}
use padwire.Usbip.Wire.Words.{u16_to_be_bytes}
use padwire.Discovery.Mdns.{
  read_name, encode_name, encode_labels, srv_rdata, txt_rdata, txt_entries,
}
use padwire.Discovery.Mdns.Ends.{Reads, read_name-Reads}
use padwire.Discovery.Mdns.Names.{IsLabel}
use padwire.Discovery.Mdns.Records.{IsEntry}
use padwire.Discovery.Mdns.Browse.{answer, collect}
use padwire.Discovery.Mdns.Found.{Fits, silence, collect-answer}

-- The labels `deck` and `a`.
abbrev labels : List (List ℕ)
labels = (100 ∷ 101 ∷ 99 ∷ 107 ∷ []) ∷ (97 ∷ []) ∷ []

labels-IsLabel : All IsLabel labels
unfolding is_utf8
labels-IsLabel = ground arith

-- A pointer to itself is given up after 16 jumps.
read_name-Reads_example : Reads 1 3 (read_name (0 ∷ 0xc0 ∷ 1 ∷ []) 1)
read_name-Reads_example = read_name-Reads (0 ∷ 0xc0 ∷ 1 ∷ []) 1

-- Two addresses and the entry `v=1`.
abbrev addresses : List (List ℕ)
addresses = (10 ∷ 0 ∷ 0 ∷ 1 ∷ []) ∷ (10 ∷ 0 ∷ 0 ∷ 2 ∷ []) ∷ []

abbrev entries : List (List ℕ)
entries = (118 ∷ 61 ∷ 49 ∷ []) ∷ []

entries-IsEntry : All IsEntry entries
unfolding is_utf8
entries-IsEntry = ground arith

labels-Fits : Fits labels labels 3240 addresses entries
unfolding encode_name encode_labels join split srv_rdata txt_rdata txt_entries u16_to_be_bytes
labels-Fits = record {
  instance_labels = labels-IsLabel;
  host_labels = labels-IsLabel;
  port_small = omega arith;
  octets = ground arith;
  entries = entries-IsEntry;
  instance_size = omega arith;
  host_size = omega arith;
  text_size = omega arith;
  few_addresses = omega arith;
}

collect-answer_example :
    collect
      (answer
        (record {
          instance_fqdn = join 46 labels;
          host_fqdn = join 46 labels;
          port = 3240;
          addrs = addresses;
          txt = entries;
        })
        true
        none)
      silence
    ≡ record {
      instances = join 46 labels ∷ [];
      srv = (join 46 labels, 3240, join 46 labels) ∷ [];
      txts = (join 46 labels, entries) ∷ [];
      addrs = map (λ a. (join 46 labels, a)) addresses;
    }
collect-answer_example = collect-answer labels labels 3240 addresses entries labels-Fits
