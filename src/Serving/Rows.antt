-- ===== src/Serving/Rows.antt =====
-- What the registry answers control_plane/runtime_catalog.py, and what the code makes of it.
use Prim.Native.String.{◌++◌ as text_append}
use ml_template.Prelude.{
  ◌>>=◌, ◌>>◌, String, Bool, List, Option, Result, ok, err, check, value_error, [], ◌∷◌, any,
  list_beq, drop, ◌==◌, some, break_at, ◌&&◌, ℕ_eq, none, not, eqb, false, codes, Option_eq,
  String_eq,
}
use ml_template.Release.Types.{Text}
use ml_template.Release.Pairs.{repository, runtime_image}

pub record Repository : Type 0 where
  pub uri : Option String
  pub tag_mutability : Option String
  -- imageTagMutabilityExclusionFilters
  pub has_exclusions : Bool

-- A row of `imageDetails`; a digest that is missing is the empty text.
pub record ImageDetail : Type 0 where
  pub tags : List Text
  pub digest : String

-- A row of `images` of `batch_get_image`.
pub record Manifest : Type 0 where
  pub digest : Text
  pub manifest : String

unfoldable pub is_immutable : List Repository → Bool
is_immutable (r ∷ []) =
    r.uri == some repository && r.tag_mutability == some "IMMUTABLE" && not r.has_exclusions
is_immutable _ = false

-- the image of the one row that has the tag
unfoldable pub image_of : Text → List ImageDetail → Result String
image_of tag (row ∷ []) = do
  check (any (λ t. list_beq t tag) row.tags) (value_error "Malformed ECR catalog response")
  runtime_image (text_append repository (text_append "@" row.digest))
image_of tag _ = err (value_error "Malformed ECR catalog response")

-- the manifest of the one image that `batch_get_image` found
unfoldable pub source_manifest : Text → Bool × List Manifest → Result String
source_manifest digest (false, row ∷ []) = do
  check (list_beq row.digest digest) (value_error "Source manifest unavailable")
  ok row.manifest
source_manifest digest _ = err (value_error "Source manifest unavailable")

-- `image.split("@", 1)[1]`
unfoldable pub digest_of : String → Text
digest_of image = drop 1 (break_at (eqb b'@') (codes image)).1

-- what `lookup` makes of the answer for a tag
unfoldable pub found_image : Text → Option (List ImageDetail) → Result (Option String)
unfolding image_of
found_image tag none = ok none
found_image tag (some rows) = do image ← image_of tag rows; ok (some image)
