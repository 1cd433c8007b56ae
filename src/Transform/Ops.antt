-- ===== src/Transform/Ops.antt =====
-- The canonical operations and the paths of clients/js/src/transform.ts: `canonicalOps`, `pathFor`,
-- `transformPath`. The signature is a parameter: Web Crypto computes it.
pub mod Canonical
use kiln_cms.Prelude.{
  ℕ, Bool, true, false, not, ◌&&◌, Option, none, some, List, [], ◌∷◌, ◌++◌, map, Result, ok, err,
  ◌>>=◌, ◌>>◌, ensure, Text, String, codes, text_eq, join, show, any, is_some, or_else, leb, ◌==◌,
  if◌then◌else◌,
}
use kiln_cms.Transform.{
  Num, whole, other, Aspect, TransformMedia, TransformOptions, TransformError, bad_id, both_sides,
  bad_dpr, bad_quality, not_one_of, positive_integer, default_transform_sizes,
}
use kiln_cms.Transform.Ladder.{snap_transform_size}
use kiln_cms.Transform.Ratio.{ratio}
use kiln_cms.Transform.Version.{transform_version}

abbrev pub fits : List Text
fits = codes "cover" ∷ codes "contain" ∷ []

abbrev pub crops : List Text
crops =
    codes "focal"
    ∷ codes "center"
    ∷ codes "top"
    ∷ codes "bottom"
    ∷ codes "left"
    ∷ codes "right"
    ∷ []

abbrev pub formats : List Text
formats = codes "auto" ∷ codes "jpg" ∷ codes "png" ∷ codes "webp" ∷ codes "avif" ∷ []

-- `optional(f)` of a value that may be missing
abbrev pub when_given {ℓ κ} :
    {A : Type ℓ} {B : Type κ}
    → (A → Result TransformError B)
    → Option A
    → Result TransformError (Option B)
when_given f none = ok none
when_given f (some a) = do b ← f a; ok (some b)

-- The local function `size`.
unfoldable pub size_of : String → Bool → List Num → Num → Result TransformError ℕ
size_of key snap sizes value = do
  n ← positive_integer key value
  if snap then snap_transform_size n sizes else ok n

unfoldable pub one_of : String → List Text → Text → Result TransformError Text
one_of key allowed value = do ensure (any (text_eq value) allowed) (not_one_of key); ok value

unfoldable pub dpr_of : Num → Result TransformError ℕ
dpr_of other = err bad_dpr
dpr_of (whole n) = if leb 1 n && leb n 3 then ok n else err bad_dpr

unfoldable pub quality_of : Num → Result TransformError ℕ
quality_of value = do n ← positive_integer "quality" value; ensure (leb n 100) bad_quality; ok n

unfoldable pub media_id : Option Text → Result TransformError Text
media_id none = err bad_id
media_id (some []) = err bad_id
media_id (some (c ∷ s)) = ok (c ∷ s)

-- The values that `params` holds, each checked.
pub record Params : Type 0 where
  pub w : Option ℕ
  pub h : Option ℕ
  pub ar : Option Text
  pub dpr : Option ℕ
  pub fit : Option Text
  pub crop : Option Text
  pub fm : Option Text
  pub q : Option ℕ
  pub v : Option Text

-- The checks of `canonicalOps`, in their order.
unfoldable pub checked_params :
    TransformMedia → TransformOptions → Bool → Result TransformError Params
checked_params media options snap = do
  _ ← media_id media.id
  let sizes = or_else options.sizes default_transform_sizes
  w ← when_given (size_of "width" snap sizes) options.width
  h ← when_given (size_of "height" snap sizes) options.height
  ar ← when_given ratio options.aspect_ratio
  ensure (not (is_some h && is_some ar)) both_sides
  dpr ← when_given dpr_of options.dpr
  fit ← when_given (one_of "fit" fits) options.fit
  crop ← when_given (one_of "crop" crops) options.crop
  fm ← when_given (one_of "format" formats) options.format
  q ← when_given quality_of options.quality
  ok (record {
    w = w;
    h = h;
    ar = ar;
    dpr = dpr;
    fit = fit;
    crop = crop;
    fm = fm;
    q = q;
    v = transform_version media;
  })

abbrev pub param : Text → Option Text → List Text
param key none = []
param key (some value) = (key ++ b'_' ∷ value) ∷ []

abbrev pub shown : Option ℕ → Option Text
shown none = none
shown (some n) = some (show n)

-- `key_value` for each parameter given, in the canonical order
unfoldable pub params_list : Params → List Text
params_list p =
    param (codes "w") (shown p.w)
    ++ (param (codes "h") (shown p.h)
        ++ (param (codes "ar") p.ar
            ++ (param (codes "dpr") (shown p.dpr)
                ++ (param (codes "fit") p.fit
                    ++ (param (codes "crop") p.crop
                        ++ (param (codes "fm") p.fm
                            ++ (param (codes "q") (shown p.q) ++ param (codes "v") p.v)))))))

unfoldable pub canonical_ops : TransformMedia → TransformOptions → Bool → Result TransformError Text
canonical_ops media options snap = do
  p ← checked_params media options snap
  ok (join (codes ",") (params_list p))

-- The identifier is a text wherever the operations were accepted.
unfoldable pub path_for : TransformMedia → Text → Text
path_for media ops = codes "/media/" ++ (or_else media.id [] ++ (codes "/t/" ++ ops))

unfoldable pub transform_path : TransformMedia → TransformOptions → Result TransformError Text
transform_path media options = do ops ← canonical_ops media options true; ok (path_for media ops)

unfoldable pub append_signature : Text → Text → Text
append_signature [] signature = codes "s_" ++ signature
append_signature (c ∷ ops) signature = (c ∷ ops) ++ (codes ",s_" ++ signature)

-- `signedTransformPath` under a key that was imported; `sign` is the HMAC of the text signed.
unfoldable pub signed_transform_path :
    (sign : Text → Text) → TransformMedia → TransformOptions → Result TransformError Text
signed_transform_path sign media options = do
  ops ← canonical_ops media options false
  ok (path_for media (append_signature ops (sign (or_else media.id [] ++ b'/' ∷ ops))))
