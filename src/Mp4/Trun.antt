-- ===== src/Mp4/Trun.antt =====
-- container/mp4/moofBox.go: a track run that is written and read back.
use golive.Common.{
  ℕ, suc, ◌+◌, ◌*◌, ◌≡◌, refl, sym, ap, ◌∙◌, arith, true, List, [], ◌∷◌, ◌++◌, length, All,
  append_assoc, append-nil, length-append,
}
use golive.Common.Go.{ok, IsU32}
use golive.Common.Go.Reader.{Reader, bytes, read_full, read_full-prefix, Reads}
use golive.Mp4.{FullBox, any_flag}
use golive.Mp4.Fragment.{
  TrunBoxSample, TrunBox, has, only_if, count_if, int32, parse_sample, item_len, parse_samples,
  parse_trun, sample_nums, samples_nums, serialize_trun,
}
use golive.Mp4.Layout.{
  be32, words, words-append, uint32_serialize-words, read_u32-Reads, IsField, read_if-Reads,
  field_if-eq, length-only_if,
}
use golive.Mp4.Header.{header_bytes, IsFull, full_word, serialize_full_box-eq, parse_full_box-Reads}

module _ (full : FullBox) where
  -- A sample with the fields that the flags ask for, and the offset as a signed number too.
  pub record IsSample (s : TrunBoxSample) : Type 0 where
    pub duration : IsField (has 0x100 full) s.sample_duration
    pub size : IsField (has 0x200 full) s.sample_size
    pub flags : IsField (has 0x400 full) s.sample_flags
    pub offset : IsField (has 0x800 full) s.sample_composition_time_offset
    pub signed : s.signed_offset ≡ int32 s.sample_composition_time_offset

  abbrev sample_bytes : TrunBoxSample → List ℕ
  sample_bytes s =
      words (only_if (has 0x100 full) (s.sample_duration ∷ []))
      ++ (words (only_if (has 0x200 full) (s.sample_size ∷ []))
          ++ (words (only_if (has 0x400 full) (s.sample_flags ∷ []))
              ++ (words (only_if (has 0x800 full) (s.sample_composition_time_offset ∷ [])) ++ [])))

  parse_sample-eq : (s : TrunBoxSample) → IsSample s → parse_sample full (sample_bytes s) ≡ ok s
  unfolding parse_sample
  parse_sample-eq s v =
      rw
        (
          field_if-eq (has 0x100 full) s.sample_duration _ v.duration,
          field_if-eq (has 0x200 full) s.sample_size _ v.size,
          field_if-eq (has 0x400 full) s.sample_flags _ v.flags,
          field_if-eq (has 0x800 full) s.sample_composition_time_offset [] v.offset,
          sym v.signed,
        )
        refl

  words-sample_nums : (s : TrunBoxSample) → words (sample_nums full s) ≡ sample_bytes s
  unfolding sample_nums
  words-sample_nums s = simp (words-append, append_assoc, append-nil)

  length-sample : (s : TrunBoxSample) → length (sample_bytes s) ≡ item_len full
  unfolding item_len
  length-sample s =
      let a = words (only_if (has 0x100 full) (s.sample_duration ∷ [])) in
      let b = words (only_if (has 0x200 full) (s.sample_size ∷ [])) in
      let c = words (only_if (has 0x400 full) (s.sample_flags ∷ [])) in
      let d = words (only_if (has 0x800 full) (s.sample_composition_time_offset ∷ [])) in
      omega (
        arith,
        length-append a (b ++ (c ++ (d ++ []))),
        length-append b (c ++ (d ++ [])),
        length-append c (d ++ []),
        length-append d [],
        length-only_if (has 0x100 full) s.sample_duration,
        length-only_if (has 0x200 full) s.sample_size,
        length-only_if (has 0x400 full) s.sample_flags,
        length-only_if (has 0x800 full) s.sample_composition_time_offset,
      )

  words-cons :
      (s : TrunBoxSample) (samples : List TrunBoxSample) (rest : List ℕ)
      → words (samples_nums full (s ∷ samples)) ++ rest
        ≡ sample_bytes s ++ (words (samples_nums full samples) ++ rest)
  unfolding samples_nums
  words-cons s samples rest =
      ap (λ l. l ++ rest) (words-append (sample_nums full s) (samples_nums full samples))
      ∙ append_assoc (words (sample_nums full s)) (words (samples_nums full samples)) rest
      ∙ ap (λ l. l ++ (words (samples_nums full samples) ++ rest)) (words-sample_nums s)

  -- Every sample is read back, and takes as many bytes as the flags say.
  parse_samples-Reads :
      (samples : List TrunBoxSample) (rest : List ℕ) (r : Reader)
      → All IsSample samples
      → bytes r ≡ words (samples_nums full samples) ++ rest
      → Reads (parse_samples full (length samples)) r samples rest
  unfolding parse_samples samples_nums
  parse_samples-Reads [] rest r v e = (r, refl, e)
  parse_samples-Reads (s ∷ samples) rest r (v, vs) e =
      let (r1, p1, q1) =
        read_full-prefix (sample_bytes s) (words (samples_nums full samples) ++ rest) r
          (e ∙ words-cons s samples rest) in
      let (r2, p2, q2) = parse_samples-Reads samples rest r1 vs q1 in
      let size = length-sample s in
      let p : read_full (item_len full) r ≡ ok (sample_bytes s, r1) =
        ap (λ n. read_full n r) (sym size) ∙ p1 in
      (r2, rw (p, parse_sample-eq s v, p2) refl, q2)

  length-samples :
      (samples : List TrunBoxSample)
      → length (words (samples_nums full samples)) ≡ length samples * item_len full
  unfolding samples_nums
  length-samples [] = omega arith
  length-samples (s ∷ samples) =
      let rest = words (samples_nums full samples) in
      let joined : words (samples_nums full (s ∷ samples)) ≡ sample_bytes s ++ rest =
        words-append (sample_nums full s) (samples_nums full samples)
        ∙ ap (λ l. l ++ rest) (words-sample_nums s) in
      let size = length-sample s in
      let sizes = length-samples samples in
      let step : suc (length samples) * item_len full
          ≡ item_len full + length samples * item_len full =
        omega arith in
      ap length joined ∙ length-append (sample_bytes s) rest ∙ omega arith

-- A run whose count is that of its samples, with the fields that its flags ask for.
pub record IsTrun (b : TrunBox) : Type 0 where
  pub is_full : IsFull b.full
  pub counted : b.sample_count ≡ length b.box_samples
  pub count_32 : IsU32 b.sample_count
  pub data_offset : IsField (has 0x01 b.full) b.data_offset
  pub first_sample_flags : IsField (has 0x04 b.full) b.first_sample_flags
  pub samples : All (IsSample b.full) b.box_samples

-- What is written of a run, after the header of its box.
abbrev pub trun_body : TrunBox → List ℕ
trun_body b =
    be32 (full_word b.full)
    ++ (be32 b.sample_count
        ++ (words (only_if (has 0x01 b.full) (b.data_offset ∷ []))
            ++ (words (only_if (has 0x04 b.full) (b.first_sample_flags ∷ []))
                ++ words (samples_nums b.full b.box_samples))))

pub serialize_trun-eq :
    (w : List ℕ) (b : TrunBox)
    → IsTrun b
    → serialize_trun w b ≡ ok (w ++ (header_bytes b.full.box ++ trun_body b))
unfolding serialize_trun
serialize_trun-eq w b v =
    rw
      (
        serialize_full_box-eq w b.full v.is_full,
        uint32_serialize-words (w ++ header_bytes b.full.box ++ be32 (full_word b.full)) _,
      )
      (ap ok (simp (words-append, append_assoc)))

-- A run is read back from what is written of it, and its length is counted.
pub trun-Reads :
    (b : TrunBox) (rest : List ℕ) (r1 : Reader)
    → IsTrun b
    → bytes r1 ≡ trun_body b ++ rest
    → Reads (parse_trun b.full.box) r1 (b, length (trun_body b)) rest
unfolding parse_trun
trun-Reads b rest r1 v e =
    let f = b.full in
    let offset_bytes = words (only_if (has 0x01 f) (b.data_offset ∷ [])) in
    let flags_bytes = words (only_if (has 0x04 f) (b.first_sample_flags ∷ [])) in
    let samples_bytes = words (samples_nums f b.box_samples) in
    let behind : (offset_bytes ++ (flags_bytes ++ samples_bytes)) ++ rest
        ≡ offset_bytes ++ (flags_bytes ++ (samples_bytes ++ rest)) =
      append_assoc offset_bytes (flags_bytes ++ samples_bytes) rest
      ∙ ap (λ l. offset_bytes ++ l) (append_assoc flags_bytes samples_bytes rest) in
    let stream = e ∙ ap (λ l. be32 (full_word f) ++ (be32 b.sample_count ++ l)) behind in
    let (r2, p2, q2) = parse_full_box-Reads f 0 true any_flag _ r1 v.is_full refl refl stream in
    let (r3, p3, q3) = read_u32-Reads b.sample_count _ r2 v.count_32 q2 in
    let (r4, p4, q4) = read_if-Reads (has 0x01 f) b.data_offset _ r3 v.data_offset q3 in
    let (r5, p5, q5) =
      read_if-Reads (has 0x04 f) b.first_sample_flags _ r4 v.first_sample_flags q4 in
    let (r6, p6, q6) = parse_samples-Reads f b.box_samples rest r5 v.samples q5 in
    let p6' : parse_samples f b.sample_count r5 ≡ ok (b.box_samples, r6) =
      ap (λ n. parse_samples f n r5) v.counted ∙ p6 in
    let products : length b.box_samples * item_len f ≡ b.sample_count * item_len f =
      ap (λ n. n * item_len f) (sym v.counted) in
    let count : 4
          + 4
          + count_if (has 0x01 f) 4
          + count_if (has 0x04 f) 4
          + b.sample_count * item_len f
        ≡ length (trun_body b) =
      omega (
        arith,
        length-append offset_bytes (flags_bytes ++ samples_bytes),
        length-append flags_bytes samples_bytes,
        length-only_if (has 0x01 f) b.data_offset,
        length-only_if (has 0x04 f) b.first_sample_flags,
        length-samples f b.box_samples,
      ) in
    (r6, rw (p2, p3, p4, p5, p6') (ap (λ n. ok ((b, n), r6)) count), q6)
