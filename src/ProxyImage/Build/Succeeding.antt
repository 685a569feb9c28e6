-- ===== src/ProxyImage/Build/Succeeding.antt =====
-- src/proxy_image.rs: when every answer of the machine is a success, the image is ensured.
use iwaya.Prelude.{ℕ, String, ◌<>◌, List, true, ◌≡◌, refl, inl, inr, Bool-cases, ok, map_err}
use iwaya.ProxyImage.{Material, build_context, image_tag}
use iwaya.Text.Number.{hex}
use iwaya.ProxyImage.Build.{
  Machine, Event, made_dir, Output, join, write_build_context, inspect_command, image_exists,
  build_command, build_image, create_context, build_in, build_missing, ensure_image,
  ensure_proxy_image,
}
use iwaya.ProxyImage.Build.Context.{write_build_context-eq-ok, and_next-eq-ok}
use iwaya.ProxyImage.Collection.{Process, build_material}

build_in-eq-ok :
    (os : Machine) (runtime tag path : String) (material : List Material) (output : Output)
    → ((event : Event) → os.answer event ≡ ok tt)
    → os.run (build_command runtime tag path) ≡ ok output
    → output.success ≡ true
    → (build_in os runtime tag path material).1 ≡ ok tag
unfolding build_in build_image
build_in-eq-ok os runtime tag path material output answers ended success =
    let context = write_build_context os path material in
    and_next-eq-ok (context.0, map_err build_context context.1) _
      (rw (write_build_context-eq-ok os answers path material) refl)
      (and_next-eq-ok (build_image os runtime tag path) _ (rw (ended, success) refl) refl)

build_missing-eq-ok :
    (os : Machine) (runtime tag path : String) (material : List Material) (output : Output)
    → (create_context os).1 ≡ ok path
    → ((event : Event) → os.answer event ≡ ok tt)
    → os.run (build_command runtime tag path) ≡ ok output
    → output.success ≡ true
    → (build_missing os runtime tag material).1 ≡ ok tag
unfolding build_missing
build_missing-eq-ok os runtime tag path material output made answers ended success =
    and_next-eq-ok (create_context os) _ made
      (build_in-eq-ok os runtime tag path material output answers ended success)

-- The tag is returned if the material and the tag were had, the random bytes too, every answer of the
-- file system is a success, the inspection ends, and so does the build, successfully.
pub ensure_proxy_image-eq-ok :
    (os : Machine) (process : Process) (sha256 : List ℕ → List ℕ) (version runtime : String)
    (material : List Material) (tag : String) (random : List ℕ) (inspected : Output)
    (built : String → Output)
    → build_material process ≡ ok material
    → image_tag sha256 version material ≡ ok tag
    → os.fill 8 ≡ ok random
    → ((event : Event) → os.answer event ≡ ok tt)
    → os.run (inspect_command runtime tag) ≡ ok inspected
    → ((path : String) → os.run (build_command runtime tag path) ≡ ok (built path))
    → ((path : String) → (built path).success ≡ true)
    → (ensure_proxy_image os process sha256 version runtime).1 ≡ ok tag
unfolding ensure_proxy_image ensure_image image_exists create_context
ensure_proxy_image-eq-ok os process sha256 version runtime material tag random inspected built
      collected tagged filled answers inspection builds success =
    let path = join os.temp_dir ("iwaya-proxy-image-" <> hex random) in
    let made : (create_context os).1 ≡ ok path =
      rw (filled, answers (made_dir path), create_context) refl in
    elim (Bool-cases inspected.success) [
      | inl found ↦ rw (collected, tagged, ensure_proxy_image, inspection, found) refl
      | inr missing ↦
          rw (collected, tagged, ensure_proxy_image, inspection, missing)
            (build_missing-eq-ok os runtime tag path material (built path) made answers
              (builds path) (success path))
    ]
