-- ===== src/Mp4/Tree/RoundTrip.antt =====
-- container/mp4: a box with all the boxes in it, written and read back.
use golive.Common.{
  ℕ, zero, suc, ◌+◌, ◌-◌, ◌≤◌, ◌≡◌, refl, sym, ap, ◌∙◌, arith, true, false, ◌==◌, List, [], ◌++◌,
  length, append_assoc, append-nil, length-append, ltb,
}
use golive.Common.Go.{ok, IsU32}
use golive.Common.Go.Reader.{Reader, bytes, read_full-prefix, Reads}
use golive.Mp4.{Box, UnsupportedBox, parse_box, parse_unsupported_box, serialize_unsupported_box}
use golive.Mp4.Fragment.{MfhdBox, parse_mfhd, serialize_mfhd}
use golive.Mp4.Layout.{be32, write_u32_be-be32, read_u32-Reads}
use golive.Mp4.Header.{
  IsBox, header_bytes, serialize_box-eq, parse_box-Reads, IsFull, full_word, serialize_full_box-eq,
  parse_full_box-Reads,
}
use golive.Mp4.Trun.{IsTrun, trun_body, serialize_trun-eq, trun-Reads}
use golive.Mp4.Track.{
  IsTfhd, tfhd_body, serialize_tfhd-eq, tfhd-Reads, IsTfdt, tfdt_body, serialize_tfdt-eq,
  tfdt-Reads,
}
use golive.Mp4.Tree.{
  IBox, container, mfhd, tfhd, tfdt, trun, unsupported, IBoxes, no_box, next_box, get_parser,
  container_parser, mfhd_parser, tfhd_parser, tfdt_parser, trun_parser, unsupported_parser,
  parse_child_box, parse_with, parse_boxes, serialize, serialize_boxes,
}

-- The box of a fragment's number, of version 0 and without flags.
pub record IsMfhd (b : MfhdBox) : Type 0 where
  pub is_full : IsFull b.full
  pub version_0 : b.full.version ≡ 0
  pub no_flags : b.full.flags24_bit ≡ 0
  pub number_32 : IsU32 b.sequence_number

abbrev mfhd_body : MfhdBox → List ℕ
mfhd_body b = be32 (full_word b.full) ++ be32 b.sequence_number

serialize_mfhd-eq :
    (w : List ℕ) (b : MfhdBox)
    → IsMfhd b
    → serialize_mfhd w b ≡ ok (w ++ (header_bytes b.full.box ++ mfhd_body b))
unfolding serialize_mfhd
serialize_mfhd-eq w b v =
    let front = w ++ header_bytes b.full.box ++ be32 (full_word b.full) in
    rw (serialize_full_box-eq w b.full v.is_full, write_u32_be-be32 front b.sequence_number)
      (ap ok (simp append_assoc))

mfhd-Reads :
    (b : MfhdBox) (rest : List ℕ) (r : Reader)
    → IsMfhd b
    → bytes r ≡ mfhd_body b ++ rest
    → Reads (parse_mfhd b.full.box) r (b, length (mfhd_body b)) rest
unfolding parse_mfhd
mfhd-Reads b rest r v e =
    let f = b.full in
    let hv = v.version_0 in
    let hf = v.no_flags in
    let version : (f.version == 0) ≡ true = ground arith in
    let flags : (f.flags24_bit == 0) ≡ true = ground arith in
    let (r1, p1, q1) =
      parse_full_box-Reads f 0 false 0 (be32 b.sequence_number ++ rest) r v.is_full
        (rw version refl) (rw flags refl) e in
    let (r2, p2, q2) = read_u32-Reads b.sequence_number rest r1 v.number_32 q1 in
    (r2, rw (p1, p2) refl, q2)

unsupported-Reads :
    (b : UnsupportedBox) (rest : List ℕ) (r : Reader)
    → b.box.size ≡ 8 + length b.raw_data
    → bytes r ≡ b.raw_data ++ rest
    → Reads (parse_unsupported_box b.box) r (b, length b.raw_data) rest
unfolding parse_unsupported_box
unsupported-Reads b rest r h e =
    let (r1, p, q) = read_full-prefix b.raw_data rest r e in
    let fits : ltb b.box.size 8 ≡ false = ground arith in
    let size : b.box.size - 8 ≡ length b.raw_data = omega arith in (r1, rw (fits, size, p) refl, q)

unfoldable mutual
  -- What is written of a box after its header, and of boxes.
  pub body_bytes : IBox → List ℕ
  body_bytes (container b xs) = boxes_bytes xs
  body_bytes (mfhd b) = mfhd_body b
  body_bytes (tfhd b) = tfhd_body b
  body_bytes (tfdt b) = tfdt_body b
  body_bytes (trun b) = trun_body b
  body_bytes (unsupported b) = b.raw_data

  pub boxes_bytes : IBoxes → List ℕ
  boxes_bytes no_box = []
  boxes_bytes (next_box x xs) = header_bytes (box_of x) ++ body_bytes x ++ boxes_bytes xs

  pub box_of : IBox → Box
  box_of (container b xs) = b
  box_of (mfhd b) = b.full.box
  box_of (tfhd b) = b.full.box
  box_of (tfdt b) = b.full.box
  box_of (trun b) = b.full.box
  box_of (unsupported b) = b.box

-- All that is written of a box.
abbrev pub box_bytes : IBox → List ℕ
box_bytes x = header_bytes (box_of x) ++ body_bytes x

unfoldable mutual
  -- A box that its parser can return: its type is in the table for its kind, its numbers fit, and the
  -- size of a container, or of a box that is not in the table, is that of what it holds and of its header.
  pub IsTree : IBox → Type 0
  IsTree (container b xs) =
      IsBox b
      × (get_parser b.box_type ≡ container_parser)
      × (b.size ≡ 8 + length (boxes_bytes xs))
      × AreTrees xs
  IsTree (mfhd b) = IsMfhd b × (get_parser b.full.box.box_type ≡ mfhd_parser)
  IsTree (tfhd b) = IsTfhd b × (get_parser b.full.box.box_type ≡ tfhd_parser)
  IsTree (tfdt b) = IsTfdt b × (get_parser b.full.box.box_type ≡ tfdt_parser)
  IsTree (trun b) = IsTrun b × (get_parser b.full.box.box_type ≡ trun_parser)
  IsTree (unsupported b) =
      IsBox b.box
      × (get_parser b.box.box_type ≡ unsupported_parser)
      × (b.box.size ≡ 8 + length b.raw_data)

  pub AreTrees : IBoxes → Type 0
  AreTrees no_box = Unit {0}
  AreTrees (next_box x xs) = IsTree x × AreTrees xs

mutual
  unfolding serialize box_of body_bytes serialize_unsupported_box IsTree

  serialize-eq : (w : List ℕ) (x : IBox) → IsTree x → serialize w x ≡ ok (w ++ box_bytes x)
  serialize-eq w (container b xs) (v, kind, size, vs) = rw (serialize_box-eq w b v) (
      serialize_boxes-eq (w ++ header_bytes b) xs vs
      ∙ ap ok (append_assoc w (header_bytes b) (boxes_bytes xs)))
  serialize-eq w (mfhd b) (v, kind) = serialize_mfhd-eq w b v
  serialize-eq w (tfhd b) (v, kind) = serialize_tfhd-eq w b v
  serialize-eq w (tfdt b) (v, kind) = serialize_tfdt-eq w b v
  serialize-eq w (trun b) (v, kind) = serialize_trun-eq w b v
  serialize-eq w (unsupported b) (v, kind, size) =
      rw (serialize_box-eq w b.box v) (ap ok (append_assoc w (header_bytes b.box) b.raw_data))

  serialize_boxes-eq :
      (w : List ℕ) (xs : IBoxes) → AreTrees xs → serialize_boxes w xs ≡ ok (w ++ boxes_bytes xs)
  serialize_boxes-eq w no_box vs = ap ok (sym (append-nil w))
  serialize_boxes-eq w (next_box x xs) (v, vs) = rw (serialize-eq w x v) (
      serialize_boxes-eq (w ++ box_bytes x) xs vs
      ∙ ap ok (append_assoc w (box_bytes x) (boxes_bytes xs)))

-- A box is parsed by its header and its parser.
child_run :
    (fuel k : ℕ) (b : Box) (x : IBox) (r r1 r2 : Reader)
    → parse_box r ≡ ok ((b, 8), r1)
    → parse_with fuel (get_parser b.box_type) b r1 ≡ ok ((x, k), r2)
    → parse_child_box (suc fuel) r ≡ ok ((x, 8 + k), r2)
unfolding parse_child_box
child_run fuel k b x r r1 r2 p q = rw (p, q) refl

container_run :
    (fuel n k : ℕ) (b : Box) (xs : IBoxes) (r1 r2 : Reader)
    → get_parser b.box_type ≡ container_parser
    → b.size - 8 ≡ n
    → parse_boxes fuel n r1 ≡ ok ((xs, k), r2)
    → parse_with (suc fuel) (get_parser b.box_type) b r1 ≡ ok ((container b xs, k), r2)
unfolding parse_with
container_run fuel n k b xs r1 r2 kind remain p = rw (kind, remain, p) refl

boxes_run :
    (fuel remain k n k' : ℕ) (x : IBox) (xs : IBoxes) (r r1 r2 : Reader)
    → parse_child_box fuel r ≡ ok ((x, k), r1)
    → suc remain - k ≡ n
    → parse_boxes fuel n r1 ≡ ok ((xs, k'), r2)
    → parse_boxes (suc fuel) (suc remain) r ≡ ok ((next_box x xs, k + k'), r2)
unfolding parse_boxes
boxes_run fuel remain k n k' x xs r r1 r2 p behind q = rw (p, behind, q) refl

mutual
  unfolding parse_with parse_boxes box_of body_bytes IsTree

  -- With as many rounds as the box has bytes.
  tree-Reads :
      (fuel : ℕ) (x : IBox) (rest : List ℕ) (r : Reader)
      → IsTree x
      → length (box_bytes x) ≤ fuel
      → bytes r ≡ box_bytes x ++ rest
      → Reads (parse_child_box fuel) r (x, 8 + length (body_bytes x)) rest
  tree-Reads zero x rest r v h e = absurd (omega arith)
  tree-Reads (suc zero) x rest r v h e = absurd (omega arith)
  tree-Reads (suc (suc fuel)) (container b xs) rest r (v, kind, size, vs) h e =
      let (r1, p1, q1) = parse_box-Reads b (boxes_bytes xs ++ rest) r v e in
      let remain : b.size - 8 ≡ length (boxes_bytes xs) = omega arith in
      let (r2, p2, q2) = trees-Reads fuel xs rest r1 vs (omega arith) q1 in
      (
        r2,
        child_run (suc fuel) (length (boxes_bytes xs)) b (container b xs) r r1 r2 p1
            (container_run fuel _ _ b xs r1 r2 kind remain p2),
        q2,
      )
  tree-Reads (suc (suc fuel)) (mfhd b) rest r (v, kind) h e =
      let (r1, p1, q1) = parse_box-Reads b.full.box (mfhd_body b ++ rest) r v.is_full.is_box e in
      let (r2, p2, q2) = mfhd-Reads b rest r1 v q1 in
      (
        r2,
        child_run (suc fuel) (length (mfhd_body b)) b.full.box (mfhd b) r r1 r2 p1
            (rw (kind, p2) refl),
        q2,
      )
  tree-Reads (suc (suc fuel)) (tfhd b) rest r (v, kind) h e =
      let (r1, p1, q1) = parse_box-Reads b.full.box (tfhd_body b ++ rest) r v.is_full.is_box e in
      let (r2, p2, q2) = tfhd-Reads b rest r1 v q1 in
      (
        r2,
        child_run (suc fuel) (length (tfhd_body b)) b.full.box (tfhd b) r r1 r2 p1
            (rw (kind, p2) refl),
        q2,
      )
  tree-Reads (suc (suc fuel)) (tfdt b) rest r (v, kind) h e =
      let (r1, p1, q1) = parse_box-Reads b.full.box (tfdt_body b ++ rest) r v.is_full.is_box e in
      let (r2, p2, q2) = tfdt-Reads b rest r1 v q1 in
      (
        r2,
        child_run (suc fuel) (length (tfdt_body b)) b.full.box (tfdt b) r r1 r2 p1
            (rw (kind, p2) refl),
        q2,
      )
  tree-Reads (suc (suc fuel)) (trun b) rest r (v, kind) h e =
      let (r1, p1, q1) = parse_box-Reads b.full.box (trun_body b ++ rest) r v.is_full.is_box e in
      let (r2, p2, q2) = trun-Reads b rest r1 v q1 in
      (
        r2,
        child_run (suc fuel) (length (trun_body b)) b.full.box (trun b) r r1 r2 p1
            (rw (kind, p2) refl),
        q2,
      )
  tree-Reads (suc (suc fuel)) (unsupported b) rest r (v, kind, size) h e =
      let (r1, p1, q1) = parse_box-Reads b.box (b.raw_data ++ rest) r v e in
      let (r2, p2, q2) = unsupported-Reads b rest r1 size q1 in
      (
        r2,
        child_run (suc fuel) (length b.raw_data) b.box (unsupported b) r r1 r2 p1
            (rw (kind, p2) refl),
        q2,
      )

  trees-Reads :
      (fuel : ℕ) (xs : IBoxes) (rest : List ℕ) (r : Reader)
      → AreTrees xs
      → length (boxes_bytes xs) + 1 ≤ fuel
      → bytes r ≡ boxes_bytes xs ++ rest
      → Reads (parse_boxes fuel (length (boxes_bytes xs))) r (xs, length (boxes_bytes xs)) rest
  trees-Reads zero xs rest r vs h e = absurd (omega arith)
  trees-Reads (suc fuel) no_box rest r vs h e = (r, refl, e)
  trees-Reads (suc fuel) (next_box x xs) rest r (v, vs) h e =
      let size : length (boxes_bytes (next_box x xs))
          ≡ length (box_bytes x) + length (boxes_bytes xs) =
        length-append (box_bytes x) (boxes_bytes xs) in
      let stream = e ∙ append_assoc (box_bytes x) (boxes_bytes xs) rest in
      let (r1, p1, q1) = tree-Reads fuel x (boxes_bytes xs ++ rest) r v (omega arith) stream in
      let (r2, p2, q2) = trees-Reads fuel xs rest r1 vs (omega arith) q1 in
      let k = 8 + length (body_bytes x) in
      let behind : length (boxes_bytes (next_box x xs)) - k ≡ length (boxes_bytes xs) =
        omega arith in
      let count : k + length (boxes_bytes xs) ≡ length (boxes_bytes (next_box x xs)) =
        omega arith in
      (
        r2,
        boxes_run fuel _ k _ _ x xs r r1 r2 p1 behind p2
            ∙ ap (λ n. ok ((next_box x xs, n), r2)) count,
        q2,
      )

-- A tree of boxes is written without an error, and from the bytes written, with anything after
-- them, in every segmentation, `parseChildBox` with at least as many rounds as they are returns
-- the tree and the number of the bytes, and leaves what follows. The boxes are: containers, whose
-- size is 8 and that of the boxes in them; mfhd of version 0 without flags; tfhd of version 0;
-- tfdt without flags, of version 0 with a time of 32 bits or of version 1 with one of 64; trun,
-- whose `SampleCount` is the number of its samples and whose samples' signed offsets are the
-- unsigned ones as int32; and boxes of types that are not in the table of parsers, whose size is
-- 8 and that of their data. Each box's type is in the table for its kind (not in it for the last)
-- and its name is the four bytes of its type; sizes and types have 32 bits and no size is 1;
-- versions have 8 bits and flags 24; the other numbers have the 32 bits of their fields, tfhd's
-- base data offset 64; a field of tfhd, trun or a sample that the flags do not ask for is 0.
pub tree_round_trip :
    (x : IBox) (fuel : ℕ) (rest : List ℕ) (r : Reader)
    → IsTree x
    → length (box_bytes x) ≤ fuel
    → bytes r ≡ box_bytes x ++ rest
    → (serialize [] x ≡ ok (box_bytes x))
      × Reads (parse_child_box fuel) r (x, length (box_bytes x)) rest
tree_round_trip x fuel rest r v h e =
    let (r', p, q) = tree-Reads fuel x rest r v h e in
    let count : 8 + length (body_bytes x) ≡ length (box_bytes x) = omega arith in
    (serialize-eq [] x v, (r', p ∙ ap (λ n. ok ((x, n), r')) count, q))
