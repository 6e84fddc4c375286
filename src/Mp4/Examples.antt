-- ===== src/Mp4/Examples.antt =====
-- container/mp4: a movie fragment, and the theorems at it.
use golive.Common.{ℕ, ◌≡◌, ◌≤◌, refl, arith, inr, ◌-◌, [], ◌∷◌, ◌++◌, length, append-nil}
use golive.Common.Go.{ok, panic}
use golive.Common.Go.Float.{negsuc}
use golive.Common.Go.Reader.{Reads}
use golive.Mp4.{Box, FullBox, MdatBox, box_type_mdat, parse_unsupported_box, serialize_mdat}
use golive.Mp4.Fragment.{
  MfhdBox, TfhdBox, TfdtBox, TrunBox, TrunBoxSample, has, int32, only_if, samples_nums, sample_nums,
}
use golive.Mp4.Layout.{be32}
use golive.Mp4.Trun.{IsTrun, IsSample}
use golive.Mp4.Track.{IsTfhd, IsTfdt}
use golive.Mp4.Mdat.{parse_mdat_child, IsSized, mdat_bytes, mdat-Reads}
use golive.Mp4.Tree.{
  IBox, container, mfhd, tfhd, tfdt, trun, unsupported, no_box, next_box, get_parser, is_one_of,
  parse_child_box, serialize,
}
use golive.Mp4.Tree.RoundTrip.{IsMfhd, IsTree, box_bytes, body_bytes, tree_round_trip}

abbrev box : ℕ → ℕ → Box
box size t = record { size = size; box_type = t; type_name = be32 t }

abbrev full : ℕ → ℕ → ℕ → ℕ → FullBox
full size t version flags = record { box = box size t; version = version; flags24_bit = flags }

abbrev number_box : MfhdBox
number_box = record { full = full 16 0x6d666864 0 0; sequence_number = 7 }

abbrev track_box : TfhdBox
track_box = record {
  full = full 28 0x74666864 0 0x11;
  track_id = 1;
  base_data_offset = 5000000000;
  sample_description_index = 0;
  default_sample_duration = 0;
  default_sample_size = 80;
  default_sample_flags = 0;
}

abbrev time_box : TfdtBox
time_box = record { full = full 20 0x74666474 1 0; base_media_decode_time = 6000000000 }

abbrev sample : ℕ → TrunBoxSample
sample size = record {
  sample_duration = 0;
  sample_size = size;
  sample_flags = 0;
  sample_composition_time_offset = 0xffffffff;
  signed_offset = negsuc 0;
}

abbrev run_box : TrunBox
run_box = record {
  full = full 36 0x7472756e 1 0xa01;
  sample_count = 2;
  data_offset = 12;
  first_sample_flags = 0;
  box_samples = sample 3 ∷ sample 4 ∷ [];
}

abbrev fragment : IBox
fragment = container (box 127 0x6d6f6f66) (
    next_box (mfhd number_box) (
      next_box
        (container (box 92 0x74726166)
          (next_box (tfhd track_box) (next_box (tfdt time_box) (next_box (trun run_box) no_box))))
        (next_box (unsupported (record { box = box 11 0x66726565; raw_data = 1 ∷ 2 ∷ 3 ∷ [] }))
          no_box)))

number_box-IsMfhd : IsMfhd number_box
number_box-IsMfhd = record {
  is_full = record {
    is_box = record {
      size_32 = omega arith;
      type_32 = omega arith;
      named = refl;
      not_large = refl;
    };
    version_8 = omega arith;
    flags_24 = omega arith;
  };
  version_0 = refl;
  no_flags = refl;
  number_32 = omega arith;
}

track_box-IsTfhd : IsTfhd track_box
unfolding has
track_box-IsTfhd = record {
  is_full = record {
    is_box = record {
      size_32 = omega arith;
      type_32 = omega arith;
      named = refl;
      not_large = refl;
    };
    version_8 = omega arith;
    flags_24 = omega arith;
  };
  version_0 = refl;
  track_32 = omega arith;
  offset_64 = omega arith;
  offset_there = λ e. absurd (cc);
  index = (omega arith, λ e. refl);
  duration = (omega arith, λ e. refl);
  size = (omega arith, λ e. absurd (cc));
  flags = (omega arith, λ e. refl);
}

time_box-IsTfdt : IsTfdt time_box
time_box-IsTfdt = record {
  is_full = record {
    is_box = record {
      size_32 = omega arith;
      type_32 = omega arith;
      named = refl;
      not_large = refl;
    };
    version_8 = omega arith;
    flags_24 = omega arith;
  };
  no_flags = refl;
  versions = inr (refl, omega arith);
}

sample-IsSample : (size : ℕ) → size ≤ 255 → IsSample run_box.full (sample size)
unfolding has int32
sample-IsSample size h = record {
  duration = (omega arith, λ e. refl);
  size = (omega arith, λ e. absurd (cc));
  flags = (omega arith, λ e. refl);
  offset = (omega arith, λ e. absurd (cc));
  signed = refl;
}

run_box-IsTrun : IsTrun run_box
unfolding has
run_box-IsTrun = record {
  is_full = record {
    is_box = record {
      size_32 = omega arith;
      type_32 = omega arith;
      named = refl;
      not_large = refl;
    };
    version_8 = omega arith;
    flags_24 = omega arith;
  };
  counted = refl;
  count_32 = omega arith;
  data_offset = (omega arith, λ e. absurd (cc));
  first_sample_flags = (omega arith, λ e. refl);
  samples = (sample-IsSample 3 (omega arith), (sample-IsSample 4 (omega arith), tt));
}

fragment-IsTree : IsTree fragment
unfolding IsTree body_bytes get_parser is_one_of has only_if samples_nums sample_nums
fragment-IsTree = (
  record { size_32 = omega arith; type_32 = omega arith; named = refl; not_large = refl },
  refl,
  refl,
  (
    (number_box-IsMfhd, refl),
    (
      (
        record { size_32 = omega arith; type_32 = omega arith; named = refl; not_large = refl },
        refl,
        refl,
        ((track_box-IsTfhd, refl), ((time_box-IsTfdt, refl), ((run_box-IsTrun, refl), tt))),
      ),
      (
        (
          record { size_32 = omega arith; type_32 = omega arith; named = refl; not_large = refl },
          refl,
          refl,
        ),
        tt,
      ),
    ),
  ),
)

tree_round_trip_example :
    (serialize [] fragment ≡ ok (box_bytes fragment))
    × Reads
        (parse_child_box 127)
        ((box_bytes fragment ++ (9 ∷ [])) ∷ [])
        (fragment, length (box_bytes fragment))
        (9 ∷ [])
unfolding body_bytes has only_if samples_nums sample_nums
tree_round_trip_example =
    tree_round_trip fragment 127 (9 ∷ []) ((box_bytes fragment ++ (9 ∷ [])) ∷ []) fragment-IsTree
      (omega arith) refl

abbrev some_data : MdatBox
some_data = record { box = box 10 box_type_mdat; contents = 5 ∷ 6 ∷ [] }

mdat-Reads_example :
    (serialize_mdat [] some_data ≡ ok (mdat_bytes some_data))
    × Reads parse_mdat_child
        ((mdat_bytes some_data ++ (9 ∷ [])) ∷ [])
        (some_data, length (mdat_bytes some_data) - 8)
        (9 ∷ [])
unfolding IsSized
mdat-Reads_example =
    mdat-Reads some_data (9 ∷ []) ((mdat_bytes some_data ++ (9 ∷ [])) ∷ [])
      (record { kind = refl; named = refl }) refl (omega arith)
      (append-nil (mdat_bytes some_data ++ (9 ∷ [])))

-- A box that says it is shorter than its header.
short_box_panics : parse_unsupported_box (box 7 0x66726565) ((1 ∷ 2 ∷ 3 ∷ []) ∷ []) ≡ panic
unfolding parse_unsupported_box
short_box_panics = refl
