-- ===== src/ProxyImage/Collection.antt =====
-- src/proxy_image.rs: the collection of the image's material.
use iwaya.Prelude.{
  String, List, [], ◌∷◌, Option, none, some, Bool, Result, ok, ◌>>=◌, map_err, push,
}
use iwaya.ProxyImage.{ProxyImageError, exe, maps, unreadable_material, Material}
use iwaya.ProxyImage.Maps.{text_lines, shared_objects}
use iwaya.ProxyImage.Sorting.{sort, dedup}
use iwaya.ProxyImage.Elf.{Executable, program_interpreter}

-- What the process finds of itself: its path, its own image as a file, with its bytes as an
-- executable, the files at other paths, its memory map, and whether a path is the executable's.
pub record Process : Type 0 where
  pub current_exe : Result String String
  pub self_exe : Result String Material
  pub executable : Executable
  pub open_file : String → Result String Material
  pub read_maps : Result String String
  pub is_path : String → String → Bool

abbrev pub itself : String → String
itself s = s

-- `loaded_shared_objects`
unfoldable pub loaded_shared_objects : Process → String → Result ProxyImageError (List String)
loaded_shared_objects os exe_path = do
  text ← map_err maps os.read_maps
  ok (
      dedup itself
        (sort itself (shared_objects (λ path. os.is_path path exe_path) (text_lines text))))

-- `open_material`: the file at a path, which is its destination too
unfoldable pub open_material : Process → String → Result ProxyImageError Material
open_material os path = do
  file ← map_err (unreadable_material path) (os.open_file path)
  ok (record file { destination = path; path = path })

unfoldable pub open_interpreter :
    Process → Option String → List Material → Result ProxyImageError (List Material)
open_interpreter os none material = ok material
open_interpreter os (some interpreter) material = do
  opened ← open_material os interpreter
  ok (push material opened)

-- The loop over the shared objects.
unfoldable pub open_objects :
    Process → List String → List Material → Result ProxyImageError (List Material)
open_objects os [] material = ok material
open_objects os (object ∷ rest) material = do
  opened ← open_material os object
  open_objects os rest (push material opened)

abbrev pub destination_of : Material → String
destination_of m = m.destination

-- The end of `build_material`: `sort_by` and `dedup_by`.
unfoldable pub arrange : List Material → List Material
arrange material = dedup destination_of (sort destination_of material)

-- `build_material`
unfoldable pub build_material : Process → Result ProxyImageError (List Material)
build_material os = do
  exe_path ← map_err exe os.current_exe
  self ← map_err exe os.self_exe
  interpreter ← program_interpreter os.executable
  with_interpreter ←
      open_interpreter os interpreter (record self { destination = "/iwaya"; path = exe_path } ∷ [])
  objects ← loaded_shared_objects os exe_path
  material ← open_objects os objects with_interpreter
  ok (arrange material)
