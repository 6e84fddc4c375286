-- ===== src/Mp4/Fragment.antt =====
-- container/mp4/moofBox.go: the boxes of a movie fragment.
use golive.Common.{
  ℕ, zero, suc, ◌+◌, ◌-◌, ◌*◌, ◌/◌, ◌%◌, ◌^◌, Bool, true, false, List, [], ◌∷◌, ◌++◌,
}
use golive.Common.{drop, ◌==◌, ltb, if◌then◌else◌, bit_and}
use golive.Common.Go.{Result, ok, ◌>>=◌}
use golive.Common.Go.Float.{ℤ, pos, negsuc}
use golive.Common.Go.Reader.{Reader, read_full}
use golive.ByteIo.Get.{u32_be, u64_be}
use golive.ByteIo.Put.{write_u32_be, write_u64_be}
use golive.Mp4.{
  Box, FullBox, Parsed, any_flag, parse_full_box, serialize_full_box, uint32_serialize,
}

pub record MfhdBox : Type 0 where
  pub full : FullBox
  pub sequence_number : ℕ

pub record TfhdBox : Type 0 where
  pub full : FullBox
  pub track_id : ℕ
  pub base_data_offset : ℕ
  pub sample_description_index : ℕ
  pub default_sample_duration : ℕ
  pub default_sample_size : ℕ
  pub default_sample_flags : ℕ

pub record TfdtBox : Type 0 where
  pub full : FullBox
  pub base_media_decode_time : ℕ

pub record TrunBoxSample : Type 0 where
  pub sample_duration : ℕ
  pub sample_size : ℕ
  pub sample_flags : ℕ
  pub sample_composition_time_offset : ℕ
  pub signed_offset : ℤ

pub record TrunBox : Type 0 where
  pub full : FullBox
  pub sample_count : ℕ
  pub data_offset : ℕ
  pub first_sample_flags : ℕ
  pub box_samples : List TrunBoxSample

-- `b.FullBox.flags24Bit & k == k`: whether a field exists.
unfoldable pub has : ℕ → FullBox → Bool
has k b = bit_and b.flags24_bit k == k

-- `io.ReadFull(r, buf[0:4])` and `byteio.U32BE(buf)`
unfoldable pub read_u32 : Reader → Result (ℕ × Reader)
read_u32 r = do (buf, r') ← read_full 4 r; v ← u32_be buf; ok (v, r')

unfoldable pub read_u64 : Reader → Result (ℕ × Reader)
read_u64 r = do (buf, r') ← read_full 8 r; v ← u64_be buf; ok (v, r')

-- A field that is read where it exists, of a box that is new: it is 0 otherwise.
unfoldable pub read_if : Bool → (Reader → Result (ℕ × Reader)) → Reader → Result (ℕ × Reader)
read_if true read r = read r
read_if false read r = ok (0, r)

-- `if exists { nums = append(nums, n) }`
unfoldable pub only_if : Bool → List ℕ → List ℕ
only_if true nums = nums
only_if false nums = []

-- The bytes of a field of `n` bytes.
unfoldable pub count_if : Bool → ℕ → ℕ
count_if true n = n
count_if false n = 0

unfoldable pub parse_mfhd : Box → Reader → Parsed MfhdBox
parse_mfhd b r = do
  ((full, n), r1) ← parse_full_box b 0 false 0 r
  (number, r2) ← read_u32 r1
  ok ((record { full = full; sequence_number = number }, n + 4), r2)

unfoldable pub serialize_mfhd : List ℕ → MfhdBox → Result (List ℕ)
serialize_mfhd w b = do w1 ← serialize_full_box w b.full; write_u32_be w1 b.sequence_number

unfoldable pub parse_tfhd : Box → Reader → Parsed TfhdBox
parse_tfhd b r = do
  ((full, n), r1) ← parse_full_box b 0 false any_flag r
  (id, r2) ← read_u32 r1
  (offset, r3) ← read_if (has 0x01 full) read_u64 r2
  (index, r4) ← read_if (has 0x02 full) read_u32 r3
  (duration, r5) ← read_if (has 0x08 full) read_u32 r4
  (size, r6) ← read_if (has 0x10 full) read_u32 r5
  (flags, r7) ← read_if (has 0x20 full) read_u32 r6
  ok (
    (
      record {
        full = full;
        track_id = id;
        base_data_offset = offset;
        sample_description_index = index;
        default_sample_duration = duration;
        default_sample_size = size;
        default_sample_flags = flags;
      },
      n
          + 4
          + count_if (has 0x01 full) 8
          + count_if (has 0x02 full) 4
          + count_if (has 0x08 full) 4
          + count_if (has 0x10 full) 4
          + count_if (has 0x20 full) 4,
    ),
    r7,
  )

unfoldable pub serialize_tfhd : List ℕ → TfhdBox → Result (List ℕ)
serialize_tfhd w b = do
  w1 ← serialize_full_box w b.full
  uint32_serialize w1 (
      (b.track_id ∷ [])
      ++ only_if (has 0x01 b.full) (b.base_data_offset / 2 ^ 32 ∷ b.base_data_offset % 2 ^ 32 ∷ [])
      ++ only_if (has 0x02 b.full) (b.sample_description_index ∷ [])
      ++ only_if (has 0x08 b.full) (b.default_sample_duration ∷ [])
      ++ only_if (has 0x10 b.full) (b.default_sample_size ∷ [])
      ++ only_if (has 0x20 b.full) (b.default_sample_flags ∷ []))

-- Any version but 1 has 32 bits.
unfoldable pub parse_tfdt : Box → Reader → Parsed TfdtBox
parse_tfdt b r = do
  ((full, n), r1) ← parse_full_box b 0 true 0 r
  (time, r2) ← (if full.version == 1 then read_u64 r1 else read_u32 r1)
  ok (
    (
      record { full = full; base_media_decode_time = time },
      n + (if full.version == 1 then 8 else 4),
    ),
    r2,
  )

-- Any version but 0 has 64 bits.
unfoldable pub serialize_tfdt : List ℕ → TfdtBox → Result (List ℕ)
serialize_tfdt w b = do
  w1 ← serialize_full_box w b.full
  if b.full.version == 0
      then write_u32_be w1 (b.base_media_decode_time % 2 ^ 32)
      else write_u64_be w1 b.base_media_decode_time

-- `int32(u)`
unfoldable pub int32 : ℕ → ℤ
int32 u = if ltb u (2 ^ 31) then pos u else negsuc (2 ^ 32 - 1 - u)

-- `if exists { v = byteio.U32BE(buf[offset:offset+4]); offset += 4 }`, for the bytes from the offset on
unfoldable pub field_if : Bool → List ℕ → Result (ℕ × List ℕ)
field_if true buf = do v ← u32_be buf; ok (v, drop 4 buf)
field_if false buf = ok (0, buf)

unfoldable pub parse_sample : FullBox → List ℕ → Result TrunBoxSample
parse_sample full buf = do
  (duration, b1) ← field_if (has 0x100 full) buf
  (size, b2) ← field_if (has 0x200 full) b1
  (flags, b3) ← field_if (has 0x400 full) b2
  (offset, b4) ← field_if (has 0x800 full) b3
  ok (record {
    sample_duration = duration;
    sample_size = size;
    sample_flags = flags;
    sample_composition_time_offset = offset;
    signed_offset = int32 offset;
  })

-- `itemLen`
unfoldable pub item_len : FullBox → ℕ
item_len full =
    count_if (has 0x100 full) 4
    + count_if (has 0x200 full) 4
    + count_if (has 0x400 full) 4
    + count_if (has 0x800 full) 4

-- The loop over the samples, with the number of those still to come.
unfoldable pub parse_samples : FullBox → ℕ → Reader → Result (List TrunBoxSample × Reader)
parse_samples full zero r = ok ([], r)
parse_samples full (suc n) r = do
  (buf, r1) ← read_full (item_len full) r
  sample ← parse_sample full buf
  (samples, r2) ← parse_samples full n r1
  ok (sample ∷ samples, r2)

unfoldable pub parse_trun : Box → Reader → Parsed TrunBox
parse_trun b r = do
  ((full, n), r1) ← parse_full_box b 0 true any_flag r
  (sample_count, r2) ← read_u32 r1
  (offset, r3) ← read_if (has 0x01 full) read_u32 r2
  (flags, r4) ← read_if (has 0x04 full) read_u32 r3
  (samples, r5) ← parse_samples full sample_count r4
  ok (
    (
      record {
        full = full;
        sample_count = sample_count;
        data_offset = offset;
        first_sample_flags = flags;
        box_samples = samples;
      },
      n
          + 4
          + count_if (has 0x01 full) 4
          + count_if (has 0x04 full) 4
          + sample_count * item_len full,
    ),
    r5,
  )

unfoldable pub sample_nums : FullBox → TrunBoxSample → List ℕ
sample_nums full s =
    only_if (has 0x100 full) (s.sample_duration ∷ [])
    ++ only_if (has 0x200 full) (s.sample_size ∷ [])
    ++ only_if (has 0x400 full) (s.sample_flags ∷ [])
    ++ only_if (has 0x800 full) (s.sample_composition_time_offset ∷ [])

unfoldable pub samples_nums : FullBox → List TrunBoxSample → List ℕ
samples_nums full [] = []
samples_nums full (s ∷ samples) = sample_nums full s ++ samples_nums full samples

unfoldable pub serialize_trun : List ℕ → TrunBox → Result (List ℕ)
serialize_trun w b = do
  w1 ← serialize_full_box w b.full
  uint32_serialize w1 (
      (b.sample_count ∷ [])
      ++ only_if (has 0x01 b.full) (b.data_offset ∷ [])
      ++ only_if (has 0x04 b.full) (b.first_sample_flags ∷ [])
      ++ samples_nums b.full b.box_samples)
