-- ===== src/Beacon/Frame.antt =====
-- The beacon of kiss-interface/beacon.c: what it transmits.
use ion_dtn_terrestrial.Prelude.{
  ℕ, ◌≤◌, true, not, ◌||◌, leb, ltb, Bool-cases, inl, inr, [], ◌∷◌, length, append-nil, Option,
  none, some, >>=-eq-some, ◌≡◌, ◌∙◌, refl, sym, ap, arith,
}
use ion_dtn_terrestrial.Prelude.Bits.{Bytes}
use ion_dtn_terrestrial.Kiss.{Outcome, frame, ready, kiss_encode, feed_all}
use ion_dtn_terrestrial.Kiss.Encode.{kiss_encode_shape}
use ion_dtn_terrestrial.Kiss.RoundTrip.{reported, nothing, then_frame, feed_all-Sent}
use ion_dtn_terrestrial.Ax25.{ax25_build_frame, ax25_strip_frame}
use ion_dtn_terrestrial.Ax25.Frame.{strip-build_frame}
use ion_dtn_terrestrial.Beacon.{
  beacon_tocall, beacon_max_position, Coordinate, beacon_build_position, valid_callsign, Beacon,
  named, finish, frame_position, beacon_init,
}

finished :
    (state : Beacon) (made : Option Bytes) {end : Beacon}
    → finish state made ≡ (end, true)
    → (k : Bytes) × (made ≡ some k)
      × (end.kiss_frame ≡ k)
      × (end.position_info ≡ state.position_info)
unfolding finish
finished state none e = cc
finished state (some k) e = (k, refl, cc, cc)

-- What `frame_position` leaves in the state when it succeeds.
framed :
    (state : Beacon) (position : Option Bytes) {end : Beacon}
    → frame_position state position ≡ (end, true)
    → (f : Bytes) × (ax25_build_frame beacon_tocall state.callsign end.position_info 512 ≡ some f)
      × (kiss_encode f 600 ≡ some end.kiss_frame)
      × (position ≡ some end.position_info)
unfolding frame_position
framed state none e = cc
framed state (some info) {end} e =
    let (k, made, kept, same) = finished (record state { position_info = info }) _ e in
    let (f, built, encoded) =
      >>=-eq-some (ax25_build_frame beacon_tocall state.callsign info 512) _ made in
    (
      f,
      ap (λ i. ax25_build_frame beacon_tocall state.callsign i 512) same ∙ built,
      encoded ∙ ap some (sym kept),
      ap some (sym same),
    )

-- A beacon that is set up has passed every test.
pub initialised :
    (state : Beacon) (callsign : Bytes) (lat lon : Coordinate) (comment : Bytes) (interval_sec : ℕ)
    {end : Beacon}
    → beacon_init state callsign lat lon comment interval_sec ≡ (end, true)
    → frame_position
        (named callsign comment interval_sec)
        (beacon_build_position lat lon comment beacon_max_position)
      ≡ (end, true)
unfolding beacon_init
initialised state callsign lat lon comment interval_sec e =
    elim (Bool-cases (valid_callsign callsign)) [
      | inr bad ↦ let never = rw bad at e in cc
      | inl good ↦ elim (Bool-cases (not lat.in_range || not lon.in_range)) [
        | inl outside ↦ let never = rw (good, outside) at e in cc
        | inr inside ↦ elim (Bool-cases (ltb interval_sec 10 || ltb 3600 interval_sec)) [
          | inl odd ↦ let never = rw (good, inside, odd) at e in cc
          | inr usual ↦ elim (Bool-cases (leb 10 (length callsign))) [
            | inl long ↦ let never = rw (good, inside, usual, long) at e in cc
            | inr short ↦ rw (good, inside, usual, short) at e
          ]
        ]
      ]
    ]

pub feed_frame :
    (f : Bytes) (size out_size : ℕ) {bytes : Bytes}
    → kiss_encode f size ≡ some bytes
    → feed_all ready bytes out_size ≡ (ready, reported f out_size ∷ [])
feed_frame f size out_size {bytes} e =
    ap (λ b. feed_all ready b out_size) (sym (append-nil bytes))
    ∙ feed_all-Sent out_size (then_frame e nothing)

-- A beacon that is set up holds in `kiss_frame` a frame of its position: a KISS decoder that is
-- ready and has room for it reports one frame, and that is an AX.25 frame with `position_info` as
-- its information field, the text that beacon_build_position gives.
beacon_init-frame :
    (state : Beacon) (callsign : Bytes) (lat lon : Coordinate) (comment : Bytes)
    (interval_sec out_size : ℕ) {end : Beacon}
    → beacon_init state callsign lat lon comment interval_sec ≡ (end, true)
    → 600 ≤ out_size
    → (f : Bytes) × (feed_all ready end.kiss_frame out_size ≡ (ready, frame f ∷ []))
      × ((s : Bytes) × (d : Bytes) × (ax25_strip_frame f ≡ some (s, d, end.position_info)))
      × (beacon_build_position lat lon comment beacon_max_position ≡ some end.position_info)
beacon_init-frame state callsign lat lon comment interval_sec out_size e room =
    let framing = initialised state callsign lat lon comment interval_sec e in
    let (f, built, encoded, printed_info) =
      framed (named callsign comment interval_sec)
        (beacon_build_position lat lon comment beacon_max_position) framing in
    let small : length f ≤ 600 =
      omega (arith, (kiss_encode_shape f 600 encoded).0, (kiss_encode_shape f 600 encoded).1) in
    let accepted : reported f out_size ≡ frame f = ground (arith, small) in
    (
      f,
      feed_frame f 600 out_size encoded ∙ ap (λ (o : Outcome). (ready, o ∷ [])) accepted,
      strip-build_frame beacon_tocall callsign _ 512 built,
      printed_info,
    )
