-- ===== src/Backend/Descriptors/Safety.antt =====
-- descriptors.rs: where the parser ends, and where it panics.
use padwire.Prelude.{
  ℕ, zero, suc, ◌+◌, ◌≤◌, ◌<◌, ◌≡◌, refl, ap, sym, subst, ◌∙◌, true, false, ◌&&◌, ◌||◌, not, Option,
  none, some, List, [], length, take, drop, get_or, max, length-drop, length-take, drop-drop, leb,
  ltb, ◌==◌, ok, err, arith, Bool-cases, inl, inr,
}
use padwire.Backend.Descriptors.{
  Parsed, invalid_data, panic, no_fuel, ◌>>=◌, le16, dt_interface, dt_endpoint, AltSetting,
  ConfigDescriptor, visit, walk, parse_config, scan, parse, or_bad, dt_config, dt_device,
  device_desc_len,
}
use padwire.Backend.Descriptors.Index.{
  index-ok, index-panic, u16le-ok, u16_then, visit_whole, walk_round, scan_round, parse_start,
}

-- A result, or an error that the caller handles.
abbrev pub Settles : {A : Type 0} → Parsed A → Type 0
Settles (ok a) = Unit {0}
Settles (err invalid_data) = Unit {0}
Settles (err panic) = ⊥
Settles (err no_fuel) = ⊥

pub >>=-Settles :
    {A B : Type 0} (m : Parsed A) (f : A → Parsed B)
    → Settles m
    → ((a : A) → m ≡ ok a → Settles (f a))
    → Settles (m >>= f)
unfolding ◌>>=◌
>>=-Settles (ok a) f h k = k a refl
>>=-Settles (err invalid_data) f h k = tt
>>=-Settles (err panic) f h k = absurd h
>>=-Settles (err no_fuel) f h k = absurd h

or_bad-Settles : {A : Type 0} (o : Option A) → Settles (or_bad o)
unfolding or_bad
or_bad-Settles (some a) = tt
or_bad-Settles none = tt

visit-Settles :
    (len dtype : ℕ) (alts : List AltSetting) (rest : List ℕ)
    → len ≤ length rest
    → Settles (visit len dtype alts rest)
visit-Settles len dtype alts rest h =
    rw (visit_whole len dtype alts rest h) (elim (Bool-cases (dtype == dt_interface && leb 9 len)) [
      | inl e ↦ rw e tt
      | inr e ↦ elim (Bool-cases (dtype == dt_endpoint && leb 7 len)) [
        | inl e' ↦ rw e (rw e' (or_bad-Settles _))
        | inr e' ↦ rw e (rw e' tt)
      ]
    ])

-- The walk over a configuration takes a step of two bytes at least.
pub walk-Settles :
    (fuel : ℕ) (alts : List AltSetting) (rest : List ℕ)
    → length rest < fuel
    → Settles (walk fuel alts rest)
walk-Settles zero alts rest h = elim h [ ]
walk-Settles (suc fuel) alts rest h =
    rw (walk_round fuel alts rest)
      (elim (Bool-cases
        (ltb (length rest) 2 || ltb (get_or rest 0 0) 2 || ltb (length rest) (get_or rest 0 0))) [
          | inl e ↦ rw e tt
          | inr e ↦
              let shorter : length (drop (get_or rest 0 0) rest) < fuel =
                ground (arith, length-drop (get_or rest 0 0) rest) in
              let inside : get_or rest 0 0 ≤ length rest = ground (arith, e) in
              rw e (
                >>=-Settles _ _ (visit-Settles _ _ alts rest inside)
                  λ alts' h'. walk-Settles fuel alts' _ shorter)
        ])

-- With the six bytes that it indexes, the parser of a configuration is its walk.
pub parse_config-walk :
    (buf : List ℕ)
    → 6 ≤ length buf
    → parse_config buf ≡ (
        walk (suc (length buf)) [] (drop (get_or buf 0 0) buf) >>= λ alts. ok (record {
          configuration_value = get_or buf 5 0;
          num_interfaces = get_or buf 4 0;
          alt_settings = alts;
        }))
unfolding parse_config ◌>>=◌
parse_config-walk buf h =
    rw (index-ok buf 4 (omega arith), ◌>>=◌)
      (rw (index-ok buf 5 (omega arith), ◌>>=◌) (rw (index-ok buf 0 (omega arith), ◌>>=◌) refl))

pub parse_config-Settles : (buf : List ℕ) → 6 ≤ length buf → Settles (parse_config buf)
parse_config-Settles buf h = rw (parse_config-walk buf h) (
    >>=-Settles _ _
      (walk-Settles (suc (length buf)) [] _ (omega (arith, length-drop (get_or buf 0 0) buf)))
      λ alts e. tt)

pub parse_config_short : (buf : List ℕ) → length buf < 6 → parse_config buf ≡ err panic
unfolding parse_config ◌>>=◌
parse_config_short buf h = elim (Bool-cases (ltb 4 (length buf))) [
  | inl e ↦ rw (index-ok buf 4 (ground arith)) (rw (index-panic buf 5 (ground arith)) refl)
  | inr e ↦ rw (index-panic buf 4 (ground arith)) refl
]

-- Where the parser would panic: a position at which a configuration descriptor stands that says that
-- it has fewer than six bytes.
abbrev pub ShortConfig : List ℕ → Type 0
ShortConfig blob =
    (pos : ℕ) × (pos + 9 ≤ length blob)
    × (get_or (drop pos blob) 1 0 ≡ dt_config)
    × (le16 (drop pos blob) 2 < 6)

-- How a parser of some bytes ends: with a result, with an error, or with a panic that such a
-- descriptor explains.
abbrev pub Ends : {A : Type 0} → List ℕ → Parsed A → Type 0
Ends blob (ok a) = Unit {0}
Ends blob (err invalid_data) = Unit {0}
Ends blob (err panic) = ShortConfig blob
Ends blob (err no_fuel) = ⊥

>>=-Ends :
    {A B : Type 0} (blob : List ℕ) (m : Parsed A) (f : A → Parsed B)
    → Ends blob m
    → ((a : A) → Ends blob (f a))
    → Ends blob (m >>= f)
unfolding ◌>>=◌
>>=-Ends blob (ok a) f h k = k a
>>=-Ends blob (err invalid_data) f h k = tt
>>=-Ends blob (err panic) f h k = h
>>=-Ends blob (err no_fuel) f h k = absurd h

Settles-Ends : {A : Type 0} (blob : List ℕ) (m : Parsed A) → Settles m → Ends blob m
Settles-Ends blob (ok a) h = tt
Settles-Ends blob (err invalid_data) h = tt
Settles-Ends blob (err panic) h = absurd h
Settles-Ends blob (err no_fuel) h = absurd h

ShortConfig-drop : (n : ℕ) (blob : List ℕ) → ShortConfig (drop n blob) → ShortConfig blob
ShortConfig-drop n blob (at, fits, is_config, short) =
    let e = drop-drop n at blob in
    (
      n + at,
      omega (arith, fits, length-drop n blob),
      ap (λ rest. get_or rest 1 0) (sym e) ∙ is_config,
      subst (λ rest. le16 rest 2 < 6) e short,
    )

Ends-drop : {A : Type 0} (n : ℕ) (blob : List ℕ) (m : Parsed A) → Ends (drop n blob) m → Ends blob m
Ends-drop n blob (ok a) h = tt
Ends-drop n blob (err invalid_data) h = tt
Ends-drop n blob (err panic) h = ShortConfig-drop n blob h
Ends-drop n blob (err no_fuel) h = absurd h

config-Ends :
    (rest : List ℕ)
    → 9 ≤ length rest
    → get_or rest 1 0 ≡ dt_config
    → Ends rest (parse_config (take (le16 rest 2) rest))
config-Ends rest fits is_config = elim (Bool-cases (ltb (le16 rest 2) 6)) [
  | inl short ↦
      rw
        (parse_config_short (take (le16 rest 2) rest)
          (ground (arith, short, length-take (le16 rest 2) rest)))
        (0, fits, is_config, ground (arith, short))
  | inr long ↦
      Settles-Ends rest _
        (parse_config-Settles _ (ground (arith, long, fits, length-take (le16 rest 2) rest)))
]

scan-Ends :
    (fuel : ℕ) (configs : List ConfigDescriptor) (rest : List ℕ)
    → length rest < fuel
    → Ends rest (scan fuel configs rest)
scan-Ends zero configs rest h = elim h [ ]
scan-Ends (suc fuel) configs rest h =
    rw (scan_round fuel configs rest)
      (elim (Bool-cases
        (ltb (length rest) 2 || ltb (get_or rest 0 0) 2 || ltb (length rest) (get_or rest 0 0))) [
          | inl e ↦ rw e tt
          | inr e ↦ elim (Bool-cases (get_or rest 1 0 == dt_config)) [
            | inr other ↦ rw e (
                rw other (
                  Ends-drop (get_or rest 0 0) rest _ (
                    scan-Ends fuel configs _ (ground (arith, length-drop (get_or rest 0 0) rest)))))
            | inl this ↦ elim (Bool-cases (ltb (get_or rest 0 0) 9)) [
              | inl short ↦ rw e (rw this (rw short tt))
              | inr long ↦
                  let is_config : get_or rest 1 0 ≡ dt_config = ground arith in
                  let fits : 9 ≤ length rest = ground arith in
                  rw e (
                    rw this (
                      rw long (
                        rw (u16_then {B = List ConfigDescriptor} rest 2 _ (omega (arith, fits))) (
                          >>=-Ends rest _ _ (config-Ends rest fits is_config) λ c.
                            elim (Bool-cases (ltb (le16 rest 2) (get_or rest 0 0))) [
                              | inl last ↦ rw last tt
                              | inr more ↦ rw more (
                                  Ends-drop (le16 rest 2) rest _ (
                                    scan-Ends fuel _ _
                                      (ground (arith, length-drop (le16 rest 2) rest))))
                            ]))))
            ]
          ]
        ])

-- The parser ends on any bytes, with descriptors or with an error; if it panics, a configuration
-- descriptor that stands in the bytes says that it has fewer than six.
pub parse-Ends : (blob : List ℕ) → Ends blob (parse blob)
parse-Ends blob =
    rw (parse_start blob)
      (elim (Bool-cases (ltb (length blob) device_desc_len || not (get_or blob 1 0 == dt_device))) [
        | inl e ↦ rw e tt
        | inr e ↦
            let n = max (get_or blob 0 0) device_desc_len in
            rw e (
              >>=-Ends blob _ _
                (Ends-drop n blob _ (
                  scan-Ends (suc (length blob)) [] (drop n blob)
                    (omega (arith, length-drop n blob))))
                λ configs. tt)
      ])

-- A first configuration that says that it has fewer than six bytes makes the parser panic.
pub parse_short_config :
    (blob : List ℕ)
    → 27 ≤ length blob
    → get_or blob 0 0 ≤ 18
    → get_or blob 1 0 ≡ dt_device
    → 9 ≤ get_or (drop 18 blob) 0 0
    → get_or (drop 18 blob) 0 0 + 18 ≤ length blob
    → get_or (drop 18 blob) 1 0 ≡ dt_config
    → le16 (drop 18 blob) 2 < 6
    → parse blob ≡ err panic
unfolding ◌>>=◌
parse_short_config blob size first is_device len fits is_config total =
    let n : max (get_or blob 0 0) device_desc_len ≡ 18 = omega arith in
    let rest = drop 18 blob in
    let shut =
      parse_config_short (take (le16 rest 2) rest)
        (omega (arith, length-take (le16 rest 2) rest)) in
    let started : (ltb (length blob) device_desc_len || not (get_or blob 1 0 == dt_device))
        ≡ false =
      ground arith in
    let inside : (ltb (length rest) 2
          || ltb (get_or rest 0 0) 2
          || ltb (length rest) (get_or rest 0 0))
        ≡ false =
      ground (arith, length-drop 18 blob) in
    let this : (get_or rest 1 0 == dt_config) ≡ true = ground arith in
    let long : ltb (get_or rest 0 0) 9 ≡ false = ground arith in
    parse_start blob
    ∙ rw started (
        rw n (
          rw (scan_round (length blob) [] rest) (
            rw inside (
              rw this (
                rw long (
                  rw (u16le-ok rest 2 (omega (arith, size, length-drop 18 blob)))
                    (rw shut refl)))))))
