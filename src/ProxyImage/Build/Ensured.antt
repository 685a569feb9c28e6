-- ===== src/ProxyImage/Build/Ensured.antt =====
-- src/proxy_image.rs: what the build of the image leaves.
use iwaya.Prelude.{
  ℕ, String, ◌<>◌, none, some, List, [], ◌∷◌, ◌++◌, true, ◌≡◌, ◌⊎◌, refl, ap, ap₂, inl, inr,
  Bool-cases, Result, ok, err, Result-cases, map_err, map_err-eq-ok, ◌∙◌,
}
use iwaya.ProxyImage.{
  ProxyImageError, Material, dockerfile, build_context, temp_dir, runtime_start, image_tag,
}
use iwaya.Text.Number.{hex}
use iwaya.ProxyImage.Build.{
  Machine, Event, wrote_file, made_dir, ran, removed_dir, Output, join, write_build_context,
  inspect_command, image_exists, build_command, build_image, create_context, build_in,
  build_missing, ensure_image, ensure_proxy_image,
}
use iwaya.ProxyImage.Build.Context.{
  and_next-ok, context_events, write_build_context-ok, build_image-ok,
}
use iwaya.ProxyImage.Collection.{Process, build_material}

-- A build that succeeded: the recipe, then every file at its place below `rootfs`, then the runtime's
-- build of this directory under the tag.
pub record IsBuilt (os : Machine) (runtime tag path : String) (material : List Material)
    (events : List Event) : Type 0 where
  pub events_eq :
      events
      ≡ (wrote_file (join path "Dockerfile") dockerfile
          ∷ context_events (join path "rootfs") material)
        ++ (ran (build_command runtime tag path) ∷ [])
  pub output : Output
  pub ended : os.run (build_command runtime tag path) ≡ ok output
  pub success : output.success ≡ true

build_in-IsBuilt :
    (os : Machine) (runtime tag path : String) (material : List Material) (t : String)
    → (build_in os runtime tag path material).1 ≡ ok t
    → (t ≡ tag) × IsBuilt os runtime tag path material (build_in os runtime tag path material).0
unfolding build_in build_image
build_in-IsBuilt os runtime tag path material t h =
    let context = write_build_context os path material in
    let (u, written, h1, e1) = and_next-ok (context.0, map_err build_context context.1) _ h in
    let (v, built, h2, e2) = and_next-ok (build_image os runtime tag path) _ h1 in
    let (output, ended, success) = build_image-ok os runtime tag path v built in
    let written_context =
      write_build_context-ok os path material u (map_err-eq-ok build_context context.1 written) in
    (
      cc,
      record {
        events_eq = e1 ∙ ap₂ (λ a b. a ++ b) written_context e2;
        output = output;
        ended = ended;
        success = success;
      },
    )

create_context-cases :
    (os : Machine)
    → ((path : String) × (create_context os ≡ (made_dir path ∷ [], ok path)))
      ⊎ ((e : ProxyImageError) × ((create_context os ≡ ([], err e))
            ⊎ ((path : String) × (source : String) × (os.answer (made_dir path) ≡ err source)
                × (create_context os ≡ (made_dir path ∷ [], err e)))))
unfolding create_context
create_context-cases os = elim (Result-cases (os.fill 8)) [
  | inr (_, failed) ↦ inr (temp_dir none, inl (rw (failed, create_context) refl))
  | inl (random, filled) ↦
      let path = join os.temp_dir ("iwaya-proxy-image-" <> hex random) in
      elim (Result-cases (os.answer (made_dir path))) [
        | inl (_, made) ↦ inl (path, rw (filled, made, create_context) refl)
        | inr (source, failed) ↦ inr (
          temp_dir (some source),
          inr (path, source, failed, rw (filled, failed, create_context) refl),
        )
      ]
]

-- The four ways in which the image is ensured or not: it existed; no directory was made; it was
-- built; or the build failed.
pub data IsEnsured (os : Machine) (runtime tag : String) (material : List Material)
    (events : List Event) (result : Result ProxyImageError String) : Type 0 where
  reused :
      (output : Output)
      → os.run (inspect_command runtime tag) ≡ ok output
      → output.success ≡ true
      → events ≡ ran (inspect_command runtime tag) ∷ []
      → result ≡ ok tag
      → IsEnsured os runtime tag material events result
  unmade :
      (e : ProxyImageError)
      → (events ≡ ran (inspect_command runtime tag) ∷ [])
        ⊎ ((path : String) × (source : String) × (os.answer (made_dir path) ≡ err source)
            × (events ≡ ran (inspect_command runtime tag) ∷ made_dir path ∷ []))
      → result ≡ err e
      → IsEnsured os runtime tag material events result
  removed :
      (path : String) (between : List Event)
      → events
        ≡ (ran (inspect_command runtime tag) ∷ made_dir path ∷ between) ++ (removed_dir path ∷ [])
      → ((e : ProxyImageError) × (result ≡ err e))
        ⊎ ((result ≡ ok tag) × IsBuilt os runtime tag path material between)
      → IsEnsured os runtime tag material events result

build_in-cases :
    (os : Machine) (runtime tag path : String) (material : List Material)
    → ((e : ProxyImageError) × ((build_in os runtime tag path material).1 ≡ err e))
      ⊎ (((build_in os runtime tag path material).1 ≡ ok tag)
          × IsBuilt os runtime tag path material (build_in os runtime tag path material).0)
build_in-cases os runtime tag path material =
    elim (Result-cases (build_in os runtime tag path material).1) [
      | inr failed ↦ inl failed
      | inl (t, built) ↦
          let (same, is_built) = build_in-IsBuilt os runtime tag path material t built in
          inr (built ∙ ap ok same, is_built)
    ]

ensure_image-IsEnsured :
    (os : Machine) (runtime tag : String) (material : List Material)
    → IsEnsured os runtime tag material
        (ensure_image os runtime tag material).0
        (ensure_image os runtime tag material).1
unfolding ensure_image image_exists build_missing
ensure_image-IsEnsured os runtime tag material =
    elim (Result-cases (os.run (inspect_command runtime tag))) [
      | inr (source, failed) ↦
          unmade (runtime_start runtime source) (inl (rw (failed) refl)) (rw (failed) refl)
      | inl (output, ended) ↦ elim (Bool-cases output.success) [
        | inl found ↦ reused output ended found (rw (ended, found) refl) (rw (ended, found) refl)
        | inr missing ↦ elim (create_context-cases os) [
          | inr (e, inl none_made) ↦
              unmade e (inl (rw (ended, missing, none_made) refl))
                (rw (ended, missing, none_made) refl)
          | inr (e, inr (path, source, failed, not_made)) ↦
              unmade e (inr (path, source, failed, rw (ended, missing, not_made) refl))
                (rw (ended, missing, not_made) refl)
          | inl (path, made) ↦
              removed path (build_in os runtime tag path material).0
                (rw (ended, missing, made) refl)
                (rw (ended, missing, made) (build_in-cases os runtime tag path material))
        ]
      ]
    ]

pub ensure_proxy_image-IsEnsured :
    (os : Machine) (process : Process) (sha256 : List ℕ → List ℕ) (version runtime : String)
    → let (events, result) = ensure_proxy_image os process sha256 version runtime in
      ((e : ProxyImageError) × (result ≡ err e) × (events ≡ []))
      ⊎ ((material : List Material) × (tag : String) × (build_material process ≡ ok material)
          × (image_tag sha256 version material ≡ ok tag)
          × IsEnsured os runtime tag material events result)
unfolding ensure_proxy_image
ensure_proxy_image-IsEnsured os process sha256 version runtime =
    elim (Result-cases (build_material process)) [
      | inr (e, failed) ↦
          inl (e, rw (failed, ensure_proxy_image) refl, rw (failed, ensure_proxy_image) refl)
      | inl (material, collected) ↦ elim (Result-cases (image_tag sha256 version material)) [
        | inr (e, failed) ↦ inl (
          e,
          rw (collected, failed, ensure_proxy_image) refl,
          rw (collected, failed, ensure_proxy_image) refl,
        )
        | inl (tag, tagged) ↦ inr (
          material,
          tag,
          collected,
          tagged,
          rw (collected, tagged, ensure_proxy_image)
              (ensure_image-IsEnsured os runtime tag material),
        )
      ]
    ]
