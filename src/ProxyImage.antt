-- ===== src/ProxyImage.antt =====
-- src/proxy_image.rs: the material of the sidecar's image and the image's tag.
pub mod Maps
pub mod Sorting
pub mod Elf
pub mod Collection
pub mod Collected
pub mod FirstKept
pub mod Framing
pub mod Build
mod Tests
use iwaya.Prelude.{
  ℕ, zero, suc, ◌/◌, ◌%◌, ◌*◌, String, ◌<>◌, List, [], ◌∷◌, ◌++◌, length, Option, none, some,
  Result, ok, err, ◌>>=◌, map_err, map_ok,
}
use iwaya.Text.Number.{hex}
use iwaya.Text.Utf8.{as_bytes}

-- `ProxyImageError`; a path is the text that it displays, and an I/O error too.
pub data ProxyImageError : Type 0 where
  exe : (source : String) → ProxyImageError
  maps : (source : String) → ProxyImageError
  unsupported_executable : ProxyImageError
  unreadable_material : (path source : String) → ProxyImageError
  temp_dir : (source : Option String) → ProxyImageError
  build_context : (source : String) → ProxyImageError
  runtime_start : (runtime source : String) → ProxyImageError
  build_failed : (status stderr : String) → ProxyImageError

-- `ProxyImageError`'s `Display`
unfoldable pub show_proxy_image_error : ProxyImageError → String
show_proxy_image_error (exe source) = "cannot read the running iwaya binary: " <> source
show_proxy_image_error (maps source) = "cannot list the loaded shared objects: " <> source
show_proxy_image_error unsupported_executable =
    "the running iwaya binary is not an ELF64 little-endian executable"
show_proxy_image_error (unreadable_material path source) =
    "cannot read proxy image material '" <> path <> "': " <> source
show_proxy_image_error (temp_dir (some source)) =
    "cannot create the proxy image build context: " <> source
show_proxy_image_error (temp_dir none) =
    "cannot create the proxy image build context: no usable OS entropy source"
show_proxy_image_error (build_context source) =
    "cannot assemble the proxy image build context: " <> source
show_proxy_image_error (runtime_start runtime source) =
    "cannot start runtime '" <> runtime <> "': " <> source
show_proxy_image_error (build_failed status stderr) =
    "the proxy image build failed (" <> status <> "): " <> stderr

-- `DOCKERFILE`
abbrev pub dockerfile : String
dockerfile = "FROM scratch\nCOPY rootfs/ /\nENTRYPOINT [\"/iwaya\", \"proxy\"]\n"

-- `Material`. The open file is what the operating system answers for it: its length, whether it can
-- be rewound, and the reads from then on, in order, of which an empty one is the end.
pub record Material : Type 0 where
  pub destination : String
  pub path : String
  pub metadata_length : Result String ℕ
  pub rewind : Result String (Unit {0})
  pub reads : List (Result String (List ℕ))

-- `to_le_bytes` of a number of so many bytes
unfoldable pub to_le_bytes : ℕ → ℕ → List ℕ
to_le_bytes zero n = []
to_le_bytes (suc size) n = n % 256 ∷ to_le_bytes size (n / 256)

-- The loop over the reads: all bytes up to the end.
unfoldable pub read_all : List (Result String (List ℕ)) → Result String (List ℕ)
read_all [] = ok []
read_all (err source ∷ reads) = err source
read_all (ok [] ∷ reads) = ok []
read_all (ok (b ∷ bytes) ∷ reads) = map_ok (λ later. (b ∷ bytes) ++ later) (read_all reads)

-- What the hasher is given for one entry.
unfoldable pub hash_entry : Material → Result ProxyImageError (List ℕ)
hash_entry entry = do
  let name = as_bytes entry.destination
  size ← map_err (unreadable_material entry.path) entry.metadata_length
  _ ← map_err (unreadable_material entry.path) entry.rewind
  contents ← map_err (unreadable_material entry.path) (read_all entry.reads)
  ok (to_le_bytes 8 (length name) ++ (name ++ (to_le_bytes 8 size ++ contents)))

-- The loop over the material.
unfoldable pub hash_entries : List Material → Result ProxyImageError (List ℕ)
hash_entries [] = ok []
hash_entries (entry ∷ rest) = do
  bytes ← hash_entry entry
  later ← hash_entries rest
  ok (bytes ++ later)

-- `digest[..6]`
unfoldable pub first_bytes : ℕ → List ℕ → List ℕ
first_bytes zero bytes = []
first_bytes (suc n) [] = []
first_bytes (suc n) (b ∷ bytes) = b ∷ first_bytes n bytes

-- `image_tag`; the hash function and the package's version are arguments.
unfoldable pub image_tag :
    (List ℕ → List ℕ) → String → List Material → Result ProxyImageError String
image_tag sha256 version material = do
  bytes ← hash_entries material
  let digest = sha256 (as_bytes dockerfile ++ bytes)
  ok ("iwaya-proxy:v" <> version <> "-" <> hex (first_bytes 6 digest))
