-- ===== src/Transform/Ops/Canonical.antt =====
-- What the builders of clients/js/src/transform.ts let through.
use kiln_cms.Prelude.{
  ℕ, ◌≤◌, ◌≡◌, ◌⊎◌, inl, inr, refl, true, not, ◌&&◌, Option, none, some, List, Result, ok,
  >>=-eq-ok, ensure-eq-ok, ok-injective, subst, leb, Text, String, text_eq, any, is_some, or_else,
  Has, arith,
}
use kiln_cms.Transform.{
  Num, whole, other, TransformMedia, TransformOptions, TransformError, wholes, positive_integer,
  positive_integer-ok, default_transform_sizes, both_sides, bad_quality, not_one_of,
}
use kiln_cms.Transform.Ladder.Snap.{snap_transform_size-ok}
use kiln_cms.Transform.Ratio.{ratio}
use kiln_cms.Transform.Version.{transform_version}
use kiln_cms.Transform.Ops.{
  fits, crops, formats, when_given, size_of, one_of, dpr_of, quality_of, media_id, Params,
  checked_params,
}

-- A property of a value, where one is given.
abbrev pub Each {ℓ κ} : {A : Type ℓ} → (A → Type κ) → Option A → Type κ
Each P none = Unit
Each P (some a) = P a

when_given-Each {ℓ κ μ} :
    {A : Type ℓ} {B : Type κ} (P : B → Type μ) (f : A → Result TransformError B) (o : Option A)
    {r : Option B}
    → ((a : A) (b : B) → f a ≡ ok b → P b)
    → when_given f o ≡ ok r
    → Each P r
when_given-Each P f none imp e = subst (Each P) (ok-injective e) tt
when_given-Each P f (some a) imp e =
    let (b, got, e') = >>=-eq-ok (f a) _ e in subst (Each P) (ok-injective e') (imp a b got)

size_of-Has :
    (key : String) (sizes : List Num) (value : Num) (n : ℕ)
    → size_of key true sizes value ≡ ok n
    → Has n (wholes sizes)
unfolding size_of
size_of-Has key sizes value n e =
    let (m, _, e') = >>=-eq-ok (positive_integer key value) _ e in
    (snap_transform_size-ok m sizes e').rung

one_of-any :
    (key : String) (allowed : List Text) (value t : Text)
    → one_of key allowed value ≡ ok t
    → any (text_eq t) allowed ≡ true
unfolding one_of
one_of-any key allowed value t e =
    let (found, e') = ensure-eq-ok (any (text_eq value) allowed) (not_one_of key) e in
    subst (λ s. any (text_eq s) allowed ≡ true) (ok-injective e') found

dpr_of-ok : (value : Num) (n : ℕ) → dpr_of value ≡ ok n → (1 ≤ n) × (n ≤ 3)
unfolding dpr_of
dpr_of-ok other n e = cc
dpr_of-ok (whole m) n e = ground arith

quality_of-ok : (value : Num) (n : ℕ) → quality_of value ≡ ok n → (1 ≤ n) × (n ≤ 100)
unfolding quality_of
quality_of-ok value n e =
    let (m, read, e') = >>=-eq-ok (positive_integer "quality" value) _ e in
    let (_, low) = positive_integer-ok "quality" value read in
    let (high, e'') = ensure-eq-ok (leb m 100) bad_quality e' in
    subst (λ k. (1 ≤ k) × (k ≤ 100)) (ok-injective e'') (low, ground arith)

-- What the server's parser and its allowlist ask of the parameters of an unsigned URL.
pub record IsAllowed (media : TransformMedia) (sizes : List ℕ) (p : Params) : Type 0 where
  pub width : Each (λ n. Has n sizes) p.w
  pub height : Each (λ n. Has n sizes) p.h
  pub one_shape : (p.h ≡ none) ⊎ (p.ar ≡ none)
  pub dpr : Each (λ n. (1 ≤ n) × (n ≤ 3)) p.dpr
  pub fit : Each (λ t. any (text_eq t) fits ≡ true) p.fit
  pub crop : Each (λ t. any (text_eq t) crops ≡ true) p.crop
  pub format : Each (λ t. any (text_eq t) formats ≡ true) p.fm
  pub quality : Each (λ n. (1 ≤ n) × (n ≤ 100)) p.q
  pub pin : p.v ≡ transform_version media

one_shape_of :
    {A B : Type 0} (h : Option A) (ar : Option B)
    → not (is_some h && is_some ar) ≡ true
    → (h ≡ none) ⊎ (ar ≡ none)
one_shape_of none ar e = inl refl
one_shape_of (some h) none e = inr refl
one_shape_of (some h) (some ar) e = cc

-- Whatever the options, the parameters of an unsigned URL that is built at all are allowed: its
-- sizes are rungs of the ladder, it has no height beside a ratio, each enumerated value, the
-- device-pixel ratio and the quality are in range, and the version pin is the item's.
pub checked_params-IsAllowed :
    (media : TransformMedia) (options : TransformOptions) {p : Params}
    → checked_params media options true ≡ ok p
    → IsAllowed media (wholes (or_else options.sizes default_transform_sizes)) p
unfolding checked_params
checked_params-IsAllowed media options {p} e0 =
    let sizes = or_else options.sizes default_transform_sizes in
    let (_, _, e1) = >>=-eq-ok (media_id media.id) _ e0 in
    let (w, ew, e2) = >>=-eq-ok (when_given (size_of "width" true sizes) options.width) _ e1 in
    let (h, eh, e3) = >>=-eq-ok (when_given (size_of "height" true sizes) options.height) _ e2 in
    let (ar, ea, e4) = >>=-eq-ok (when_given ratio options.aspect_ratio) _ e3 in
    let (shape, e5) = ensure-eq-ok (not (is_some h && is_some ar)) both_sides e4 in
    let (dpr, ed, e6) = >>=-eq-ok (when_given dpr_of options.dpr) _ e5 in
    let (fit, ef, e7) = >>=-eq-ok (when_given (one_of "fit" fits) options.fit) _ e6 in
    let (crop, ec, e8) = >>=-eq-ok (when_given (one_of "crop" crops) options.crop) _ e7 in
    let (fm, em, e9) = >>=-eq-ok (when_given (one_of "format" formats) options.format) _ e8 in
    let (q, eq, e10) = >>=-eq-ok (when_given quality_of options.quality) _ e9 in
    subst (IsAllowed media (wholes sizes)) (ok-injective e10) (record {
      width =
          when_given-Each (λ n. Has n (wholes sizes)) _ options.width (size_of-Has "width" sizes)
            ew;
      height =
          when_given-Each (λ n. Has n (wholes sizes)) _ options.height (size_of-Has "height" sizes)
            eh;
      one_shape = one_shape_of h ar shape;
      dpr = when_given-Each _ dpr_of options.dpr dpr_of-ok ed;
      fit = when_given-Each _ _ options.fit (one_of-any "fit" fits) ef;
      crop = when_given-Each _ _ options.crop (one_of-any "crop" crops) ec;
      format = when_given-Each _ _ options.format (one_of-any "format" formats) em;
      quality = when_given-Each _ quality_of options.quality quality_of-ok eq;
      pin = refl;
    })
