-- ===== src/ProxyImage/Build.antt =====
-- src/proxy_image.rs: the build context and the container runtime's build of the image.
pub mod Context
pub mod Ensured
pub mod Succeeding
use iwaya.Prelude.{
  ℕ, Bool, String, ◌<>◌, List, [], ◌∷◌, ◌++◌, none, some, code, is_some, ◌==◌, true, false, Result,
  ok, err, map_err, if◌then◌else◌,
}
use iwaya.Text.{is_empty, strip_suffix}
use iwaya.Text.Number.{hex}
use iwaya.Run.{Command}
use iwaya.ProxyImage.{
  ProxyImageError, Material, temp_dir, build_context, runtime_start, build_failed, dockerfile,
  image_tag,
}
use iwaya.Bws.Diagnostic.{trim_end}
use iwaya.ProxyImage.Collection.{Process, build_material}

-- What a command that ended left: whether it succeeded, and its status and its error output as texts.
pub record Output : Type 0 where
  pub success : Bool
  pub status : String
  pub stderr : String

-- What is asked of the machine, in order, whatever it answers. `made_parents` is the creation of the
-- directory that the path stands in, and `copied` what the open file holds, from its start.
pub data Event : Type 0 where
  made_dir : (path : String) → Event
  wrote_file : (path contents : String) → Event
  made_parents : (path : String) → Event
  rewound : (destination : String) → Event
  made_file : (path : String) → Event
  copied : (destination path : String) → Event
  set_mode : (path : String) (mode : ℕ) → Event
  ran : Command → Event
  removed_dir : (path : String) → Event

-- The machine: random bytes, the directory for temporary files, the file system's answers and the
-- container runtime's.
pub record Machine : Type 0 where
  pub fill : ℕ → Result String (List ℕ)
  pub temp_dir : String
  pub answer : Event → Result String (Unit {0})
  pub run : Command → Result String Output

-- What was asked, and the result.
abbrev pub Traced : Type 0 → Type 0 → Type 0
Traced E A = List Event × Result E A

-- `e?` and what follows it
abbrev pub and_next : {E A B : Type 0} → Traced E A → (A → Traced E B) → Traced E B
and_next (events, err e) next = (events, err e)
and_next (events, ok a) next = let (later, result) = next a in (events ++ later, result)

abbrev pub ask : Machine → Event → Traced String (Unit {0})
ask os event = (event ∷ [], os.answer event)

-- `trim_start_matches('/')`
unfoldable pub trim_slashes : String → String
trim_slashes String.[] = ""
trim_slashes (String.◌∷◌ c s) =
    let rest = trim_slashes s in if code c == b'/' then rest else String.◌∷◌ c s

-- `base.join(part)` of a relative path
unfoldable pub join : String → String → String
join base part =
    if is_empty base
    then part
    else if is_some (strip_suffix base "/")
    then base <> part
    else base <> "/" <> part

-- The body of the loop over the material.
unfoldable pub copy_entry : Machine → String → Material → Traced String (Unit {0})
copy_entry os rootfs entry =
    let destination = join rootfs (trim_slashes entry.destination) in
    and_next (ask os (made_parents destination)) (λ _.
      and_next (ask os (rewound entry.destination)) (λ _.
        and_next (ask os (made_file destination)) (λ _.
          and_next (ask os (copied entry.destination destination))
            (λ _. ask os (set_mode destination 493)))))

unfoldable pub copy_entries : Machine → String → List Material → Traced String (Unit {0})
copy_entries os rootfs [] = ([], ok tt)
copy_entries os rootfs (entry ∷ material) =
    and_next (copy_entry os rootfs entry) (λ _. copy_entries os rootfs material)

-- `write_build_context`
unfoldable pub write_build_context : Machine → String → List Material → Traced String (Unit {0})
write_build_context os directory material =
    and_next (ask os (wrote_file (join directory "Dockerfile") dockerfile))
      (λ _. copy_entries os (join directory "rootfs") material)

-- `image_exists`
abbrev pub inspect_command : (runtime tag : String) → Command
inspect_command runtime tag = record {
  program = runtime;
  arguments = "image" ∷ "inspect" ∷ tag ∷ [];
  environment = [];
}

unfoldable pub image_exists : Machine → (runtime tag : String) → Traced ProxyImageError Bool
image_exists os runtime tag =
    let command = inspect_command runtime tag in
    (
      ran command ∷ [],
      elim (os.run command) [
        | err source ↦ err (runtime_start runtime source)
        | ok output ↦ ok output.success
      ],
    )

-- `build_image`
abbrev pub build_command : (runtime tag context : String) → Command
build_command runtime tag context = record {
  program = runtime;
  arguments = "build" ∷ "--tag" ∷ tag ∷ context ∷ [];
  environment = [];
}

unfoldable pub build_image :
    Machine → (runtime tag context : String) → Traced ProxyImageError (Unit {0})
build_image os runtime tag context =
    let command = build_command runtime tag context in
    (
      ran command ∷ [],
      elim (os.run command) [
        | err source ↦ err (runtime_start runtime source)
        | ok output ↦
            if output.success
            then ok tt
            else err (build_failed output.status (trim_end output.stderr))
      ],
    )

-- `TempContext::create`
unfoldable pub create_context : Machine → Traced ProxyImageError String
create_context os = elim (os.fill 8) [
  | err _ ↦ ([], err (temp_dir none))
  | ok random ↦
      let path = join os.temp_dir ("iwaya-proxy-image-" <> hex random) in
      and_next
        (made_dir path ∷ [], map_err (λ source. temp_dir (some source)) (os.answer (made_dir path)))
        (λ _. ([], ok path))
]

-- `TempContext::drop`
abbrev pub drop_context : String → List Event
drop_context path = removed_dir path ∷ []

-- What `ensure_proxy_image` does while it holds the context directory.
unfoldable pub build_in :
    Machine → (runtime tag path : String) → List Material → Traced ProxyImageError String
build_in os runtime tag path material =
    let (events, written) = write_build_context os path material in
    and_next (events, map_err build_context written)
      (λ _. and_next (build_image os runtime tag path) (λ _. ([], ok tag)))

-- `ensure_proxy_image` behind the inspection: the directory is dropped at the end of the scope.
unfoldable pub build_missing :
    Machine → (runtime tag : String) → List Material → Traced ProxyImageError String
build_missing os runtime tag material = and_next (create_context os) (λ path.
    let (events, result) = build_in os runtime tag path material in
    (events ++ drop_context path, result))

-- `ensure_proxy_image` behind the tag
unfoldable pub ensure_image :
    Machine → (runtime tag : String) → List Material → Traced ProxyImageError String
ensure_image os runtime tag material = and_next (image_exists os runtime tag) (λ found.
    let missing = build_missing os runtime tag material in if found then ([], ok tag) else missing)

-- `ensure_proxy_image`; the process, the hash function and the package's version are arguments.
unfoldable pub ensure_proxy_image :
    Machine
    → Process
    → (List ℕ → List ℕ)
    → (version runtime : String) → Traced ProxyImageError String
ensure_proxy_image os process sha256 version runtime = elim (build_material process) [
  | err e ↦ ([], err e)
  | ok material ↦ elim (image_tag sha256 version material) [
    | err e ↦ ([], err e)
    | ok tag ↦ ensure_image os runtime tag material
  ]
]
