-- ===== src/Mp4/Track.antt =====
-- container/mp4/moofBox.go: the header and the time of a track fragment, written and read back.
use golive.Common.{
  ℕ, ◌+◌, ◌/◌, ◌%◌, ◌^◌, ◌≡◌, refl, sym, ap, ◌∙◌, arith, Bool, true, false, ◌==◌, if◌then◌else◌,
  inl, inr, ◌⊎◌, List, [], ◌∷◌, ◌++◌, length, append_assoc, length-append,
}
use golive.Common.Go.{ok, IsU32, IsU64}
use golive.Common.Go.Reader.{Reader, bytes, Reads}
use golive.Mp4.{parse_full_box, any_flag}
use golive.Mp4.Fragment.{
  TfhdBox, TfdtBox, has, only_if, count_if, read_if, read_u32, read_u64, parse_tfhd, serialize_tfhd,
  parse_tfdt, serialize_tfdt,
}
use golive.Mp4.Layout.{
  be32, be64, words, words-append, uint32_serialize-words, read_u32-Reads, read_u64-Reads, IsField,
  read_if-Reads, length-only_if, write_u32_be-be32, write_u64_be-be64,
}
use golive.Mp4.Header.{header_bytes, IsFull, full_word, serialize_full_box-eq, parse_full_box-Reads}

abbrev offset_nums : TfhdBox → List ℕ
offset_nums b =
    only_if (has 0x01 b.full) (b.base_data_offset / 2 ^ 32 ∷ b.base_data_offset % 2 ^ 32 ∷ [])

-- A track's header of version 0, with the fields that its flags ask for.
pub record IsTfhd (b : TfhdBox) : Type 0 where
  pub is_full : IsFull b.full
  pub version_0 : b.full.version ≡ 0
  pub track_32 : IsU32 b.track_id
  pub offset_64 : IsU64 b.base_data_offset
  pub offset_there : has 0x01 b.full ≡ false → b.base_data_offset ≡ 0
  pub index : IsField (has 0x02 b.full) b.sample_description_index
  pub duration : IsField (has 0x08 b.full) b.default_sample_duration
  pub size : IsField (has 0x10 b.full) b.default_sample_size
  pub flags : IsField (has 0x20 b.full) b.default_sample_flags

abbrev pub tfhd_body : TfhdBox → List ℕ
tfhd_body b =
    be32 (full_word b.full)
    ++ (be32 b.track_id
        ++ (words (offset_nums b)
            ++ (words (only_if (has 0x02 b.full) (b.sample_description_index ∷ []))
                ++ (words (only_if (has 0x08 b.full) (b.default_sample_duration ∷ []))
                    ++ (words (only_if (has 0x10 b.full) (b.default_sample_size ∷ []))
                        ++ words (only_if (has 0x20 b.full) (b.default_sample_flags ∷ [])))))))

pub serialize_tfhd-eq :
    (w : List ℕ) (b : TfhdBox)
    → IsTfhd b
    → serialize_tfhd w b ≡ ok (w ++ (header_bytes b.full.box ++ tfhd_body b))
unfolding serialize_tfhd
serialize_tfhd-eq w b v =
    rw
      (
        serialize_full_box-eq w b.full v.is_full,
        uint32_serialize-words (w ++ header_bytes b.full.box ++ be32 (full_word b.full)) _,
      )
      (ap ok (simp (words-append, append_assoc)))

read_offset-Reads :
    (exists : Bool) (v : ℕ) (rest : List ℕ) (r : Reader)
    → IsU64 v
    → (exists ≡ false → v ≡ 0)
    → bytes r ≡ words (only_if exists (v / 2 ^ 32 ∷ v % 2 ^ 32 ∷ [])) ++ rest
    → Reads (read_if exists read_u64) r v rest
unfolding read_if only_if
read_offset-Reads true v rest r h z e = read_u64-Reads v rest r h e
read_offset-Reads false v rest r h z e = (r, ap (λ n. ok (n, r)) (sym (z refl)), e)

length-offset :
    (exists : Bool) (a c : ℕ) → length (words (only_if exists (a ∷ c ∷ []))) ≡ count_if exists 8
unfolding only_if count_if
length-offset true a c = refl
length-offset false a c = refl

-- The run of the parser, from those of its reads.
tfhd_run :
    (b : TfhdBox) (r1 r2 r3 r4 r5 r6 r7 r8 : Reader)
    → parse_full_box b.full.box 0 false any_flag r1 ≡ ok ((b.full, 4), r2)
    → read_u32 r2 ≡ ok (b.track_id, r3)
    → read_if (has 0x01 b.full) read_u64 r3 ≡ ok (b.base_data_offset, r4)
    → read_if (has 0x02 b.full) read_u32 r4 ≡ ok (b.sample_description_index, r5)
    → read_if (has 0x08 b.full) read_u32 r5 ≡ ok (b.default_sample_duration, r6)
    → read_if (has 0x10 b.full) read_u32 r6 ≡ ok (b.default_sample_size, r7)
    → read_if (has 0x20 b.full) read_u32 r7 ≡ ok (b.default_sample_flags, r8)
    → parse_tfhd b.full.box r1
      ≡ ok (
        (
          b,
          4
              + 4
              + count_if (has 0x01 b.full) 8
              + count_if (has 0x02 b.full) 4
              + count_if (has 0x08 b.full) 4
              + count_if (has 0x10 b.full) 4
              + count_if (has 0x20 b.full) 4,
        ),
        r8,
      )
unfolding parse_tfhd
tfhd_run b r1 r2 r3 r4 r5 r6 r7 r8 p2 p3 p4 p5 p6 p7 p8 = rw (p2, p3, p4, p5, p6, p7, p8) refl

-- A track's header is read back from what is written of it, and its length is counted.
pub tfhd-Reads :
    (b : TfhdBox) (rest : List ℕ) (r1 : Reader)
    → IsTfhd b
    → bytes r1 ≡ tfhd_body b ++ rest
    → Reads (parse_tfhd b.full.box) r1 (b, length (tfhd_body b)) rest
tfhd-Reads b rest r1 v e =
    let f = b.full in
    let w1 = words (offset_nums b) in
    let w2 = words (only_if (has 0x02 f) (b.sample_description_index ∷ [])) in
    let w3 = words (only_if (has 0x08 f) (b.default_sample_duration ∷ [])) in
    let w4 = words (only_if (has 0x10 f) (b.default_sample_size ∷ [])) in
    let w5 = words (only_if (has 0x20 f) (b.default_sample_flags ∷ [])) in
    let behind : (w1 ++ (w2 ++ (w3 ++ (w4 ++ w5)))) ++ rest
        ≡ w1 ++ (w2 ++ (w3 ++ (w4 ++ (w5 ++ rest)))) =
      simp append_assoc in
    let stream = e ∙ ap (λ l. be32 (full_word f) ++ (be32 b.track_id ++ l)) behind in
    let h0 = v.version_0 in
    let version_ok : (f.version == 0) ≡ true = ground arith in
    let (r2, p2, q2) =
      parse_full_box-Reads f 0 false any_flag _ r1 v.is_full (rw version_ok refl) refl stream in
    let (r3, p3, q3) = read_u32-Reads b.track_id _ r2 v.track_32 q2 in
    let (r4, p4, q4) =
      read_offset-Reads (has 0x01 f) b.base_data_offset _ r3 v.offset_64 v.offset_there q3 in
    let (r5, p5, q5) = read_if-Reads (has 0x02 f) b.sample_description_index _ r4 v.index q4 in
    let (r6, p6, q6) = read_if-Reads (has 0x08 f) b.default_sample_duration _ r5 v.duration q5 in
    let (r7, p7, q7) = read_if-Reads (has 0x10 f) b.default_sample_size _ r6 v.size q6 in
    let (r8, p8, q8) = read_if-Reads (has 0x20 f) b.default_sample_flags rest r7 v.flags q7 in
    let count : 4
          + 4
          + count_if (has 0x01 f) 8
          + count_if (has 0x02 f) 4
          + count_if (has 0x08 f) 4
          + count_if (has 0x10 f) 4
          + count_if (has 0x20 f) 4
        ≡ length (tfhd_body b) =
      omega (
        arith,
        length-append w1 (w2 ++ (w3 ++ (w4 ++ w5))),
        length-append w2 (w3 ++ (w4 ++ w5)),
        length-append w3 (w4 ++ w5),
        length-append w4 w5,
        length-offset (has 0x01 f) (b.base_data_offset / 2 ^ 32) (b.base_data_offset % 2 ^ 32),
        length-only_if (has 0x02 f) b.sample_description_index,
        length-only_if (has 0x08 f) b.default_sample_duration,
        length-only_if (has 0x10 f) b.default_sample_size,
        length-only_if (has 0x20 f) b.default_sample_flags,
      ) in
    (
      r8,
      tfhd_run b r1 r2 r3 r4 r5 r6 r7 r8 p2 p3 p4 p5 p6 p7 p8 ∙ ap (λ n. ok ((b, n), r8)) count,
      q8,
    )

-- The time of version 0, which has 32 bits, or of version 1, which has 64.
pub record IsTfdt (b : TfdtBox) : Type 0 where
  pub is_full : IsFull b.full
  pub no_flags : b.full.flags24_bit ≡ 0
  pub versions :
      ((b.full.version ≡ 0) × IsU32 b.base_media_decode_time)
      ⊎ ((b.full.version ≡ 1) × IsU64 b.base_media_decode_time)

abbrev time_bytes : TfdtBox → List ℕ
time_bytes b =
    if b.full.version == 0 then be32 b.base_media_decode_time else be64 b.base_media_decode_time

abbrev pub tfdt_body : TfdtBox → List ℕ
tfdt_body b = be32 (full_word b.full) ++ time_bytes b

pub serialize_tfdt-eq :
    (w : List ℕ) (b : TfdtBox)
    → IsTfdt b
    → serialize_tfdt w b ≡ ok (w ++ (header_bytes b.full.box ++ tfdt_body b))
unfolding serialize_tfdt
serialize_tfdt-eq w b v =
    let front = w ++ header_bytes b.full.box ++ be32 (full_word b.full) in
    let joined : front ++ time_bytes b ≡ w ++ (header_bytes b.full.box ++ tfdt_body b) =
      simp append_assoc in
    rw (serialize_full_box-eq w b.full v.is_full) (elim v.versions [
      | inl (zero_version, h) ↦
          let yes : (b.full.version == 0) ≡ true = ground arith in
          let same : b.base_media_decode_time % 2 ^ 32 ≡ b.base_media_decode_time = omega arith in
          rw (yes, same, write_u32_be-be32 front b.base_media_decode_time)
            (ap ok (rw yes at joined))
      | inr (one, h) ↦
          let no : (b.full.version == 0) ≡ false = ground arith in
          rw (no, write_u64_be-be64 front b.base_media_decode_time) (ap ok (rw no at joined))
    ])

-- The time is read back from what is written of it.
pub tfdt-Reads :
    (b : TfdtBox) (rest : List ℕ) (r1 : Reader)
    → IsTfdt b
    → bytes r1 ≡ tfdt_body b ++ rest
    → Reads (parse_tfdt b.full.box) r1 (b, length (tfdt_body b)) rest
unfolding parse_tfdt
tfdt-Reads b rest r1 v e =
    let f = b.full in
    let hf = v.no_flags in
    let no_flags : (f.flags24_bit == 0) ≡ true = ground arith in
    let (r2, p2, q2) =
      parse_full_box-Reads f 0 true 0 (time_bytes b ++ rest) r1 v.is_full refl (rw no_flags refl)
        e in
    elim v.versions [
      | inl (zero_version, h) ↦
          let yes : (f.version == 0) ≡ true = ground arith in
          let no : (f.version == 1) ≡ false = ground arith in
          let stream : bytes r2 ≡ be32 b.base_media_decode_time ++ rest = rw yes at q2 in
          let (r3, p3, q3) = read_u32-Reads b.base_media_decode_time rest r2 h stream in
          (r3, rw (p2, no, p3, yes) refl, q3)
      | inr (one, h) ↦
          let no : (f.version == 0) ≡ false = ground arith in
          let yes : (f.version == 1) ≡ true = ground arith in
          let stream : bytes r2 ≡ be64 b.base_media_decode_time ++ rest = rw no at q2 in
          let (r3, p3, q3) = read_u64-Reads b.base_media_decode_time rest r2 h stream in
          (r3, rw (p2, yes, p3, no) refl, q3)
    ]
