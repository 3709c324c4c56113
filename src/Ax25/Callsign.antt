-- ===== src/Ax25/Callsign.antt =====
-- The callsigns of ax25.c and what an address keeps of them.
use ion_dtn_terrestrial.Prelude.{
  ℕ, zero, suc, ◌≤◌, ◌<◌, ◌==◌, leb, ltb, Bool, true, false, ◌||◌, [], ◌∷◌, ◌++◌, length, take,
  drop, map, some, ◌≡◌, ◌∙◌, refl, arith, length-append, take-append, drop-append, append_assoc,
  sym, ap, subst, Option, none, All,
}
use ion_dtn_terrestrial.Prelude.Bits.{Bytes, shr, low_bits, same_below, same_below→eq}
use ion_dtn_terrestrial.Ax25.Frame.{length-call_bytes, length-decimal}
use ion_dtn_terrestrial.Ax25.{
  ssid_field, call_bytes, split_dash, parse_ssid, ax25_encode_addr, trim_spaces, c_string, decimal,
  ax25_decode_addr, toupper, atoi,
}

-- `isgraph` in the C locale.
abbrev pub IsGraphic : ℕ → Type 0
IsGraphic c = (32 < c) × (c < 127)

-- The text of an address: "%s-%d".
abbrev pub call_text : Bytes → ℕ → Bytes
call_text call ssid = map toupper call ++ (b'-' ∷ decimal ssid)

trim-call_bytes :
    (n : ℕ) (call : Bytes)
    → All IsGraphic call
    → length call ≤ n
    → trim_spaces (map (λ b. shr b 1) (call_bytes n call)) ≡ map toupper call
unfolding trim_spaces call_bytes toupper
trim-call_bytes zero [] h short = refl
trim-call_bytes zero (c ∷ call) h short = absurd (omega arith)
trim-call_bytes (suc n) [] h short = ground (arith, trim-call_bytes n [] tt (omega arith))
trim-call_bytes (suc n) (c ∷ call) h short =
    ground (arith, trim-call_bytes n call h.1 (omega arith))

c_string-toupper :
    (call : Bytes) → All IsGraphic call → c_string (map toupper call) ≡ map toupper call
unfolding c_string toupper
c_string-toupper [] h = refl
c_string-toupper (c ∷ call) h = ground (arith, c_string-toupper call h.1)

ssid-ssid_field :
    (ssid : ℕ) (last : Bool) → ssid < 16 → low_bits (shr (ssid_field ssid last) 1) 4 ≡ ssid
unfolding same_below
ssid-ssid_field ssid true h =
    same_below→eq (λ s. low_bits (shr (ssid_field s true) 1) 4) (λ s. s) 16 refl ssid h
ssid-ssid_field ssid false h =
    same_below→eq (λ s. low_bits (shr (ssid_field s false) 1) 4) (λ s. s) 16 refl ssid h

pub parse_ssid_bounds : (text : Option Bytes) {ssid : ℕ} → parse_ssid text ≡ some ssid → ssid < 16
unfolding parse_ssid
parse_ssid_bounds none e = ground arith
parse_ssid_bounds (some text) e = ground arith

pub take-past_end : (a rest : Bytes) (n : ℕ) → length a ≡ n → take n (a ++ rest) ≡ a
take-past_end a rest n h = subst (λ m. take m (a ++ rest) ≡ a) h (take-append a rest)

pub drop-past_end : (a rest : Bytes) (n : ℕ) → length a ≡ n → drop n (a ++ rest) ≡ rest
drop-past_end a rest n h = subst (λ m. drop m (a ++ rest) ≡ rest) h (drop-append a rest)

-- The seven bytes of an address.
abbrev pub address : Bytes → ℕ → Bool → Bytes
address call ssid last = call_bytes 6 call ++ (ssid_field ssid last ∷ [])

length-toupper : (s : Bytes) → length (map toupper s) ≡ length s
length-toupper [] = refl
length-toupper (c ∷ s) = omega (arith, length-toupper s)

length-call_text :
    (call : Bytes) (ssid : ℕ)
    → length call ≤ 6
    → ssid < 16
    → leb 12 (length (call_text call ssid)) ≡ false
length-call_text call ssid short h =
    let le : length (call_text call ssid) ≤ 9 = omega (
      arith,
      length-append (map toupper call) (b'-' ∷ decimal ssid),
      length-toupper call,
      length-decimal ssid,
    ) in
    ground arith

pub decode-address :
    (call : Bytes) (ssid : ℕ) (last : Bool) (rest : Bytes)
    → All IsGraphic call
    → length call ≤ 6
    → ssid < 16
    → ax25_decode_addr (address call ssid last ++ rest) 12 ≡ some (call_text call ssid)
unfolding ax25_decode_addr
decode-address call ssid last rest graphic short h =
    let tail = ssid_field ssid last ∷ rest in
    let front : take 6 (call_bytes 6 call ++ tail) ≡ call_bytes 6 call =
      take-past_end (call_bytes 6 call) tail 6 (length-call_bytes 6 call) in
    let back : drop 6 (call_bytes 6 call ++ tail) ≡ tail =
      drop-past_end (call_bytes 6 call) tail 6 (length-call_bytes 6 call) in
    rw
      (
        append_assoc (call_bytes 6 call) (ssid_field ssid last ∷ []) rest,
        front,
        back,
        trim-call_bytes 6 call graphic short,
        c_string-toupper call graphic,
        ssid-ssid_field ssid last h,
        length-call_text call ssid short h,
      )
      refl

split-call_text :
    (call : Bytes) (ssid : ℕ)
    → All IsGraphic call
    → (split_dash call).1 ≡ none
    → split_dash (map toupper call ++ (b'-' ∷ decimal ssid))
      ≡ (map toupper call, some (decimal ssid))
unfolding split_dash toupper
split-call_text [] ssid g e = refl
split-call_text (c ∷ call) ssid g e = ground (arith, split-call_text call ssid g.1 (ground arith))

toupper_idem : (c : ℕ) → toupper (toupper c) ≡ toupper c
unfolding toupper
toupper_idem c = ground arith

call_bytes-toupper : (n : ℕ) (call : Bytes) → call_bytes n (map toupper call) ≡ call_bytes n call
unfolding call_bytes
call_bytes-toupper zero call = refl
call_bytes-toupper (suc n) [] = refl
call_bytes-toupper (suc n) (c ∷ call) = rw (toupper_idem c, call_bytes-toupper n call) refl

parse_ssid-decimal : (ssid : ℕ) → ssid < 16 → parse_ssid (some (decimal ssid)) ≡ some ssid
unfolding parse_ssid atoi
parse_ssid-decimal ssid h = ground arith

-- A callsign that ax25_encode_addr accepts, with the number behind its dash.
abbrev pub base : Bytes → Bytes
base callsign = (split_dash callsign).0

pub record IsCallsign (callsign : Bytes) (ssid : ℕ) : Type 0 where
  pub some_letters : 0 < length (base callsign)
  pub at_most_six : length (base callsign) ≤ 6
  pub graphic : All IsGraphic (base callsign)
  pub numbered : parse_ssid (split_dash callsign).1 ≡ some ssid

pub encode_addr-IsCallsign :
    {callsign : Bytes} {ssid : ℕ} (last : Bool)
    → IsCallsign callsign ssid
    → ax25_encode_addr callsign last ≡ some (address (base callsign) ssid last)
unfolding ax25_encode_addr
encode_addr-IsCallsign {callsign} {ssid} last ok =
    let sized : (length (base callsign) == 0 || ltb 6 (length (base callsign))) ≡ false =
      six_letters (length (base callsign)) ok.some_letters ok.at_most_six in
    rw (sized, ok.numbered) refl
  where
    six_letters : (n : ℕ) → 0 < n → n ≤ 6 → (n == 0 || ltb 6 n) ≡ false
    six_letters n h k = ground arith

split_dash-base : (callsign : Bytes) → (split_dash (base callsign)).1 ≡ none
unfolding split_dash
split_dash-base [] = refl
split_dash-base (c ∷ callsign) = ground (arith, split_dash-base callsign)

-- The text of a callsign as it comes back.
abbrev pub shown : Bytes → ℕ → Bytes
shown callsign ssid = call_text (base callsign) ssid

toupper-IsGraphic : (s : Bytes) → All IsGraphic s → All IsGraphic (map toupper s)
unfolding toupper
toupper-IsGraphic [] h = tt
toupper-IsGraphic (c ∷ s) h = (ground arith, toupper-IsGraphic s h.1)

split-shown :
    {callsign : Bytes} {ssid : ℕ}
    → IsCallsign callsign ssid
    → split_dash (shown callsign ssid) ≡ (map toupper (base callsign), some (decimal ssid))
split-shown {callsign} {ssid} ok =
    split-call_text (base callsign) ssid ok.graphic (split_dash-base callsign)

base-shown :
    {callsign : Bytes} {ssid : ℕ}
    → IsCallsign callsign ssid
    → base (shown callsign ssid) ≡ map toupper (base callsign)
base-shown ok = ap (λ (r : Bytes × Option Bytes). r.0) (split-shown ok)

pub shown-IsCallsign :
    {callsign : Bytes} {ssid : ℕ} → IsCallsign callsign ssid → IsCallsign (shown callsign ssid) ssid
shown-IsCallsign {callsign} {ssid} ok =
    let small : ssid < 16 = parse_ssid_bounds (split_dash callsign).1 ok.numbered in
    record {
      some_letters =
          subst (λ s. 0 < length s) (sym (base-shown ok)) (rw length-toupper ok.some_letters);
      at_most_six =
          subst (λ s. length s ≤ 6) (sym (base-shown ok)) (rw length-toupper ok.at_most_six);
      graphic =
          subst (All IsGraphic) (sym (base-shown ok))
            (toupper-IsGraphic (base callsign) ok.graphic);
      numbered =
          subst (λ (r : Bytes × Option Bytes). parse_ssid r.1 ≡ some ssid) (sym (split-shown ok))
            (parse_ssid-decimal ssid small);
    }

pub encode-shown :
    {callsign : Bytes} {ssid : ℕ} (last : Bool)
    → IsCallsign callsign ssid
    → ax25_encode_addr (shown callsign ssid) last ≡ ax25_encode_addr callsign last
encode-shown {callsign} {ssid} last ok =
    encode_addr-IsCallsign last (shown-IsCallsign ok)
    ∙ ap (λ bytes. some (bytes ++ (ssid_field ssid last ∷ [])))
        (ap (call_bytes 6) (base-shown ok) ∙ call_bytes-toupper 6 (base callsign))
    ∙ sym (encode_addr-IsCallsign last ok)
