-- ===== src/Mp4/Tree.antt =====
-- container/mp4/box.go, commonContainer.go: boxes within boxes, by the table of the parsers. A type of
-- the table whose parser is not modelled is `stuck`.
pub mod RoundTrip
use golive.Common.{
  ℕ, zero, suc, ◌+◌, ◌-◌, Bool, true, false, ◌||◌, List, [], ◌∷◌, ◌==◌, if◌then◌else◌,
}
use golive.Common.Go.{Result, ok, stuck, ◌>>=◌}
use golive.Common.Go.Reader.{Reader}
use golive.Mp4.{
  Box, UnsupportedBox, Parsed, parse_box, serialize_box, parse_unsupported_box,
  serialize_unsupported_box,
}
use golive.Mp4.Fragment.{
  MfhdBox, TfhdBox, TfdtBox, TrunBox, parse_mfhd, serialize_mfhd, parse_tfhd, serialize_tfhd,
  parse_tfdt, serialize_tfdt, parse_trun, serialize_trun,
}

-- `IBox`, with the boxes of `SubBoxes`.
mutual
  pub data IBox : Type 0 where
    container : Box → IBoxes → IBox
    mfhd : MfhdBox → IBox
    tfhd : TfhdBox → IBox
    tfdt : TfdtBox → IBox
    trun : TrunBox → IBox
    unsupported : UnsupportedBox → IBox

  pub data IBoxes : Type 0 where
    no_box : IBoxes
    next_box : IBox → IBoxes → IBoxes

unfoldable pub is_one_of : ℕ → List ℕ → Bool
is_one_of t [] = false
is_one_of t (u ∷ types) = t == u || is_one_of t types

-- moof, traf, trak, edts, mdia, minf, dinf, stbl, mvex, udta and mfra, which are `SimpleBoxContainer`s
abbrev pub container_types : List ℕ
container_types =
    0x6d6f6f66 ∷ 0x74726166 ∷ 0x7472616b ∷ 0x65647473 ∷ 0x6d646961 ∷ 0x6d696e66 ∷ 0x64696e66
    ∷ 0x7374626c ∷ 0x6d766578 ∷ 0x75647461 ∷ 0x6d667261 ∷ []

-- ftyp, styp, sidx, mvhd, tkhd, mdhd, hdlr, vmhd, dref, stsd, stts, stsc, stsz, stz2, stco, elst, trex,
-- meta, url, urn, avc1, mp4a, hev1, pasp, esds, smhd, tfra and mfro
abbrev pub other_types : List ℕ
other_types =
    0x66747970 ∷ 0x73747970 ∷ 0x73696478 ∷ 0x6d766864 ∷ 0x746b6864 ∷ 0x6d646864 ∷ 0x68646c72
    ∷ 0x766d6864 ∷ 0x64726566 ∷ 0x73747364 ∷ 0x73747473 ∷ 0x73747363 ∷ 0x7374737a ∷ 0x73747a32
    ∷ 0x7374636f ∷ 0x656c7374 ∷ 0x74726578 ∷ 0x6d657461 ∷ 0x75726c20 ∷ 0x75726e20 ∷ 0x61766331
    ∷ 0x6d703461 ∷ 0x68657631 ∷ 0x70617370 ∷ 0x65736473 ∷ 0x736d6864 ∷ 0x74667261 ∷ 0x6d66726f ∷ []

pub data Parser : Type 0 where
  container_parser mfhd_parser tfhd_parser tfdt_parser trun_parser other_parser : Parser
  unsupported_parser : Parser

-- `getParser`
unfoldable pub get_parser : ℕ → Parser
get_parser t =
    if is_one_of t container_types
    then container_parser
    else if t == 0x6d666864
    then mfhd_parser
    else if t == 0x74666864
    then tfhd_parser
    else if t == 0x74666474
    then tfdt_parser
    else if t == 0x7472756e
    then trun_parser
    else if is_one_of t other_types
    then other_parser
    else unsupported_parser

-- The box of a parser, as an `IBox`.
abbrev as_box : {A : Type 0} → (A → IBox) → (A × ℕ) × Reader → Parsed IBox
as_box f ((b, n), r) = ok ((f b, n), r)

-- On fuel. `parseChildBox`, the parsers of the table, and the loop of `SimpleBoxContainer.Parse` with
-- the bytes that remain, which ends when they are used up, or more than they.
unfoldable mutual
  pub parse_child_box : ℕ → Reader → Parsed IBox
  parse_child_box zero r = stuck
  parse_child_box (suc fuel) r = parse_box r >>= λ ((b, n), r1).
      parse_with fuel (get_parser b.box_type) b r1 >>= λ ((x, k), r2). ok ((x, n + k), r2)

  pub parse_with : ℕ → Parser → Box → Reader → Parsed IBox
  parse_with zero p b r = stuck
  parse_with (suc fuel) container_parser b r =
      parse_boxes fuel (b.size - 8) r >>= λ ((xs, k), r'). ok ((container b xs, k), r')
  parse_with (suc fuel) mfhd_parser b r = parse_mfhd b r >>= as_box mfhd
  parse_with (suc fuel) tfhd_parser b r = parse_tfhd b r >>= as_box tfhd
  parse_with (suc fuel) tfdt_parser b r = parse_tfdt b r >>= as_box tfdt
  parse_with (suc fuel) trun_parser b r = parse_trun b r >>= as_box trun
  parse_with (suc fuel) unsupported_parser b r = parse_unsupported_box b r >>= as_box unsupported
  parse_with (suc fuel) other_parser b r = stuck

  pub parse_boxes : ℕ → ℕ → Reader → Parsed IBoxes
  parse_boxes zero remain r = stuck
  parse_boxes (suc fuel) zero r = ok ((no_box, 0), r)
  parse_boxes (suc fuel) (suc remain) r = parse_child_box fuel r >>= λ ((x, k), r1).
      parse_boxes fuel (suc remain - k) r1 >>= λ ((xs, k'), r2). ok ((next_box x xs, k + k'), r2)

unfoldable mutual
  pub serialize : List ℕ → IBox → Result (List ℕ)
  serialize w (container b xs) = serialize_box w b >>= λ w1. serialize_boxes w1 xs
  serialize w (mfhd b) = serialize_mfhd w b
  serialize w (tfhd b) = serialize_tfhd w b
  serialize w (tfdt b) = serialize_tfdt w b
  serialize w (trun b) = serialize_trun w b
  serialize w (unsupported b) = serialize_unsupported_box w b

  pub serialize_boxes : List ℕ → IBoxes → Result (List ℕ)
  serialize_boxes w no_box = ok w
  serialize_boxes w (next_box x xs) = serialize w x >>= λ w1. serialize_boxes w1 xs
