-- ===== src/Backend/Descriptors/Walk.antt =====
-- descriptors.rs: what the parser finds in the bytes of a well-formed configuration.
use padwire.Prelude.{
  ℕ, suc, ◌≤◌, ◌≡◌, ◌≢◌, refl, ap, sym, ◌∙◌, some, List, [], ◌∷◌, ◌++◌, append_assoc, append-nil,
  length, map, length-append, All, ok, arith,
}
use padwire.Backend.Descriptors.Safety.{parse_config-walk}
use padwire.Backend.Descriptors.{
  ◌>>=◌, EndpointDescriptor, AltSetting, push_endpoint, walk, parse_config, or_bad, dt_config,
  dt_interface, dt_endpoint,
}
use padwire.Backend.Descriptors.Items.{
  Item, interface, endpoint, other, item_bytes, items_bytes, IsItem, length-item, item_len_two,
  gather, walk-items,
}

push_endpoint-last :
    (alts : List AltSetting) (a : AltSetting) (ep : EndpointDescriptor)
    → push_endpoint (alts ++ a ∷ []) ep
      ≡ some (alts ++ record a { endpoints = a.endpoints ++ ep ∷ [] } ∷ [])
unfolding push_endpoint
push_endpoint-last [] a ep = refl
push_endpoint-last (b ∷ []) a ep = refl
push_endpoint-last (b ∷ c ∷ alts) a ep = rw (push_endpoint-last (c ∷ alts) a ep, push_endpoint)

-- A setting as a device sends it: its interface, descriptors of other kinds, and its endpoints.
pub record Setting : Type 0 where
  pub alt : AltSetting
  pub text : ℕ
  pub between : List (ℕ × List ℕ)

endpoints_of : List EndpointDescriptor → List Item → List Item
endpoints_of [] rest = rest
endpoints_of (ep ∷ eps) rest = endpoint ep ∷ endpoints_of eps rest

others_of : List (ℕ × List ℕ) → List Item → List Item
others_of [] rest = rest
others_of ((kind, body) ∷ others) rest = other kind body ∷ others_of others rest

pub settings_items : List Setting → List Item
unfolding endpoints_of others_of
settings_items [] = []
settings_items (s ∷ settings) =
    interface s.alt s.text
    ∷ others_of s.between (endpoints_of s.alt.endpoints (settings_items settings))

gather-others :
    (alts : List AltSetting) (others : List (ℕ × List ℕ)) (rest : List Item)
    → gather alts (others_of others rest) ≡ gather alts rest
unfolding gather others_of ◌>>=◌
gather-others alts [] rest = refl
gather-others alts ((kind, body) ∷ others) rest = gather-others alts others rest

gather-endpoints :
    (alts : List AltSetting) (a : AltSetting) (eps : List EndpointDescriptor) (rest : List Item)
    → gather (alts ++ a ∷ []) (endpoints_of eps rest)
      ≡ gather (alts ++ record a { endpoints = a.endpoints ++ eps } ∷ []) rest
unfolding gather endpoints_of ◌>>=◌ or_bad
gather-endpoints alts a [] rest =
    ap (λ es. gather (alts ++ record a { endpoints = es } ∷ []) rest) (sym (append-nil a.endpoints))
gather-endpoints alts a (ep ∷ eps) rest = rw (push_endpoint-last alts a ep) (
    gather-endpoints alts (record a { endpoints = a.endpoints ++ ep ∷ [] }) eps rest
    ∙ ap (λ es. gather (alts ++ record a { endpoints = es } ∷ []) rest)
        (append_assoc a.endpoints (ep ∷ []) eps))

gather-none : (alts : List AltSetting) → gather alts [] ≡ ok alts
unfolding gather
gather-none alts = refl

gather-interface :
    (alts : List AltSetting) (a : AltSetting) (text : ℕ) (rest : List Item)
    → gather alts (interface a text ∷ rest) ≡ gather (alts ++ record a { endpoints = [] } ∷ []) rest
unfolding gather ◌>>=◌
gather-interface alts a text rest = refl

gather-settings :
    (alts : List AltSetting) (settings : List Setting)
    → gather alts (settings_items settings) ≡ ok (alts ++ map (λ s. s.alt) settings)
unfolding settings_items
gather-settings alts [] = gather-none alts ∙ ap ok (sym (append-nil alts))
gather-settings alts (s ∷ settings) =
    let rest = endpoints_of s.alt.endpoints (settings_items settings) in
    gather-interface alts s.alt s.text (others_of s.between rest)
    ∙ gather-others (alts ++ record s.alt { endpoints = [] } ∷ []) s.between rest
    ∙ gather-endpoints alts (record s.alt { endpoints = [] }) s.alt.endpoints
        (settings_items settings)
    ∙ gather-settings (alts ++ s.alt ∷ []) settings
    ∙ ap ok (append_assoc alts (s.alt ∷ []) (map (λ s. s.alt) settings))

abbrev pub IsSetting : Setting → Type 0
IsSetting s = All (λ o. (o.0 ≢ dt_interface) × (o.0 ≢ dt_endpoint)) s.between

others-IsItem :
    (others : List (ℕ × List ℕ)) (rest : List Item)
    → All (λ o. (o.0 ≢ dt_interface) × (o.0 ≢ dt_endpoint)) others
    → All IsItem rest
    → All IsItem (others_of others rest)
unfolding others_of
others-IsItem [] rest h v = v
others-IsItem ((kind, body) ∷ others) rest h v = (h.0, others-IsItem others rest h.1 v)

endpoints-IsItem :
    (eps : List EndpointDescriptor) (rest : List Item)
    → All IsItem rest
    → All IsItem (endpoints_of eps rest)
unfolding endpoints_of
endpoints-IsItem [] rest v = v
endpoints-IsItem (ep ∷ eps) rest v = (tt, endpoints-IsItem eps rest v)

settings-IsItem :
    (settings : List Setting) → All IsSetting settings → All IsItem (settings_items settings)
unfolding settings_items
settings-IsItem [] h = tt
settings-IsItem (s ∷ settings) h = (
  tt,
  others-IsItem s.between _ h.0 (endpoints-IsItem s.alt.endpoints _ (settings-IsItem settings h.1)),
)

-- A configuration with its header of nine bytes; its total and the last three are not read here.
pub config_bytes : ℕ → ℕ → ℕ × ℕ × ℕ × ℕ × ℕ → List Setting → List ℕ
unfolding settings_items items_bytes
config_bytes value interfaces (lo, hi, text, attributes, power) settings =
    9
    ∷ dt_config
    ∷ lo
    ∷ hi
    ∷ interfaces
    ∷ value
    ∷ text
    ∷ attributes
    ∷ power
    ∷ items_bytes (settings_items settings)

length-items_bytes : (items : List Item) → length items ≤ length (items_bytes items)
unfolding items_bytes
length-items_bytes [] = omega arith
length-items_bytes (i ∷ items) = omega (
  arith,
  length-items_bytes items,
  length-append (item_bytes i) (items_bytes items),
  length-item i,
  item_len_two i,
)

-- The settings of a configuration are parsed as the device has them, with each endpoint in its
-- setting, whatever descriptors of other kinds stand between.
pub parse_config-config_bytes :
    (value interfaces : ℕ) (header : ℕ × ℕ × ℕ × ℕ × ℕ) (settings : List Setting)
    → All IsSetting settings
    → parse_config (config_bytes value interfaces header settings)
      ≡ ok (record {
        configuration_value = value;
        num_interfaces = interfaces;
        alt_settings = map (λ s. s.alt) settings;
      })
unfolding config_bytes ◌>>=◌
parse_config-config_bytes value interfaces (lo, hi, text, attributes, power) settings h =
    let items = settings_items settings in
    let buf = config_bytes value interfaces (lo, hi, text, attributes, power) settings in
    let found : walk (suc (length buf)) [] (items_bytes items) ≡ ok (map (λ s. s.alt) settings) =
      walk-items (suc (length buf)) [] items (omega (arith, length-items_bytes items))
        (settings-IsItem settings h)
      ∙ gather-settings [] settings in
    parse_config-walk buf (omega arith) ∙ rw (found, ◌>>=◌) refl
