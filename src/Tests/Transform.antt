-- ===== src/Tests/Transform.antt =====
-- The vectors of clients/js/test/fixtures/image_transform_vectors.json, and the theorems on
-- clients/js/src/transform.ts at concrete inputs.
use kiln_cms.Prelude.{
  ℕ, ◌+◌, ◌*◌, ◌≤◌, ◌<◌, ◌≡◌, refl, false, none, some, List, [], ◌∷◌, ok, codes, show, split_on,
  join, read, sort, arith,
}
use kiln_cms.Transform.{
  Num, whole, TransformMedia, TransformOptions, text, default_transform_sizes, positive_integer,
  wholes,
}
use kiln_cms.Transform.Ladder.{snap_transform_size}
use kiln_cms.Transform.Ladder.Snap.{IsSnap, snap_transform_size-IsSnap}
use kiln_cms.Transform.Ratio.{ratio_parts, ratio, ratio_of, aspect_parts, parse_ratio_side}
use kiln_cms.Transform.Ratio.Print.{ratio_parts-ratio_of}
use kiln_cms.Transform.Ratio.Spelling.{ratio-text}
use kiln_cms.Transform.Version.{
  transform_version, pin_input, utf8, fnv1a32, hex, pad_start, milli, print_signed, round_half,
}
use kiln_cms.Transform.Version.Pin.{round_half-nearest}
use kiln_cms.Transform.Ops.{
  transform_path, canonical_ops, path_for, checked_params, Params, size_of, one_of, dpr_of,
  quality_of, media_id, params_list,
}
use kiln_cms.Transform.Ops.Canonical.{IsAllowed, checked_params-IsAllowed}
use kiln_cms.Transform.Srcset.{pick, candidates, unique}
use kiln_cms.Transform.Srcset.Candidates.{IsSrcset, pick-IsSrcset}

abbrev photo : TransformMedia
photo = record {
  id = some (codes "8a5b8e4e-7b8f-4a57-9a5e-2f3a1c9d0b11");
  url = some (codes "/uploads/3f2a9c01-5b6d-4e1f-8a2b-7c9d0e1f2a3b.jpg");
  focal_x = some (record { negative = false; num = 300; den_pred = 0 });
  focal_y = some (record { negative = false; num = 620; den_pred = 0 });
  width = some (whole 2400);
  height = some (whole 1600);
}

abbrev plain : TransformOptions
plain = record {
  width = none;
  height = none;
  aspect_ratio = none;
  dpr = none;
  fit = none;
  crop = none;
  format = none;
  quality = none;
  sizes = none;
}

abbrev wide : TransformOptions
wide = record plain {
  width = some (whole 800);
  aspect_ratio = some (text (codes "16:9"));
  format = some (codes "auto");
}

photo_pin : transform_version photo ≡ some (codes "4b87b277")
unfolding transform_version pin_input utf8 fnv1a32 hex pad_start milli print_signed show
photo_pin = refl

wide_path :
    transform_path photo wide
    ≡ ok (codes "/media/8a5b8e4e-7b8f-4a57-9a5e-2f3a1c9d0b11/t/w_828,ar_16:9,fm_auto,v_4b87b277")
unfolding transform_path canonical_ops path_for checked_params size_of one_of dpr_of quality_of
    media_id params_list positive_integer snap_transform_size sort ratio ratio_of parse_ratio_side
    split_on read show join transform_version pin_input utf8 fnv1a32 hex pad_start milli
    print_signed
wide_path = refl

three_candidates :
    pick 900 (256 ∷ 640 ∷ 1080 ∷ 1920 ∷ [])
    ≡ record { width = 256; described = 256 }
      ∷ record { width = 640; described = 640 }
      ∷ record { width = 1080; described = 900 }
      ∷ []
unfolding pick candidates unique sort
three_candidates = refl

abbrev odd_ladder : List Num
odd_ladder = whole 900 ∷ whole 300 ∷ whole 600 ∷ []

snap_transform_size-IsSnap_example :
    (r : ℕ) × (snap_transform_size 400 odd_ladder ≡ ok r) × IsSnap 400 (wholes odd_ladder) r
snap_transform_size-IsSnap_example =
    snap_transform_size-IsSnap 400 odd_ladder (λ e. cc) (omega arith)

ratio_parts-ratio_of_example :
    ratio_parts (text (codes "16:9")) ≡ ratio_of (aspect_parts (text (codes "16:9")))
ratio_parts-ratio_of_example = ratio_parts-ratio_of (text (codes "16:9"))

ratio-text_example : codes "16:9" ≡ codes "16:9"
unfolding ratio ratio_of parse_ratio_side split_on read show
ratio-text_example = ratio-text (codes "16:9") refl

round_half-nearest_example :
    (2 * 125 < 2 * (round_half 125 2 * 2) + 2) × (2 * (round_half 125 2 * 2) ≤ 2 * 125 + 2)
round_half-nearest_example = round_half-nearest 125 1

abbrev wide_params : Params
wide_params = record {
  w = some 828;
  h = none;
  ar = some (codes "16:9");
  dpr = none;
  fit = none;
  crop = none;
  fm = some (codes "auto");
  q = none;
  v = some (codes "4b87b277");
}

checked_params-IsAllowed_example : IsAllowed photo (wholes default_transform_sizes) wide_params
unfolding checked_params size_of one_of dpr_of quality_of media_id positive_integer
    snap_transform_size sort ratio ratio_of parse_ratio_side split_on read show transform_version
    pin_input utf8 fnv1a32 hex pad_start milli print_signed
checked_params-IsAllowed_example = checked_params-IsAllowed photo wide refl

pick-IsSrcset_example :
    IsSrcset 900 (1920 ∷ 256 ∷ 1080 ∷ 256 ∷ []) (pick 900 (1920 ∷ 256 ∷ 1080 ∷ 256 ∷ []))
pick-IsSrcset_example = pick-IsSrcset 900 (1920 ∷ 256 ∷ 1080 ∷ 256 ∷ [])
