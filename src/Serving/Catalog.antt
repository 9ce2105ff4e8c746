-- ===== src/Serving/Catalog.antt =====
-- `Catalog` of control_plane/runtime_catalog.py over the API of the registry.
pub mod Publication
use ml_template.Prelude.Actions.{Action, return, raise, lift, catch, ◌>>=◌, ◌>>◌}
use ml_template.Prelude.{
  String, Bool, List, Option, Result, check, value_error, ◌==◌, some, Option_eq, String_eq, none,
}
use ml_template.Release.Types.{Text}
use ml_template.Release.Pairs.{runtime_image}
use ml_template.Serving.Objects.{fingerprint_tag}
use ml_template.Serving.Rows.{
  Repository, ImageDetail, Manifest, is_immutable, found_image, source_manifest, digest_of,
}

-- The calls of ECR: `describe_images` returns none for an ImageNotFoundException, and `put_image`
-- false if the image or the tag exists.
pub record Registry (W : Type 0) : Type 0 where
  pub describe_repositories : Action W (List Repository)
  pub describe_images : Text → Action W (Option (List ImageDetail))
  pub batch_get_image : Text → Action W (Bool × List Manifest)
  pub put_image : String → Text → Text → Action W Bool
  -- json.loads accepts the manifest
  pub is_json : String → Bool

module _ {W : Type 0} (ecr : Registry W) where
  -- `verify_repository`
  unfoldable pub verify_repository : Action W (Unit {0})
  unfolding is_immutable
  verify_repository = do
    found ← ecr.describe_repositories
    lift (
        check (is_immutable found)
          (value_error "Catalog requires immutable tags without exclusions"))

  -- `lookup`
  unfoldable pub lookup : String → Action W (Option String)
  unfolding found_image
  lookup fingerprint = do
    tag ← lift (fingerprint_tag fingerprint)
    verify_repository
    rows ← ecr.describe_images tag
    lift (found_image tag rows)

  -- `publish` of a fingerprint that the catalog lacks
  add_image : String → String → Action W String
  unfolding source_manifest digest_of
  add_image fingerprint image = do
    response ← ecr.batch_get_image (digest_of image)
    manifest ← lift (source_manifest (digest_of image) response)
    lift (check (ecr.is_json manifest) (value_error "JSONDecodeError"))
    tag ← lift (fingerprint_tag fingerprint)
    ecr.put_image manifest (digest_of image) tag
    found ← lookup fingerprint
    lift (check (found == some image) (value_error "Catalog publication conflict"))
    return image

  publish_over : String → String → Option String → Action W String
  unfolding add_image
  publish_over fingerprint image none = add_image fingerprint image
  publish_over fingerprint image (some existing) = do
    lift (check (existing == image) (value_error "Catalog integrity violation"))
    return existing

  -- `publish`
  unfoldable pub publish : String → String → Action W String
  unfolding publish_over
  publish fingerprint image = do
    lift (runtime_image image)
    existing ← lookup fingerprint
    publish_over fingerprint image existing
