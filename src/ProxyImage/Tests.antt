-- ===== src/ProxyImage/Tests.antt =====
-- src/proxy_image.rs: tests.
use iwaya.Prelude.{
  false, ℕ, zero, suc, String, List, [], ◌∷◌, ◌++◌, map, length, none, some, true, ◌==◌, ◌≡◌, refl,
  ok, arith, if◌then◌else◌,
}
use iwaya.Text.{char_of, ◌=?◌, strip_suffix, strip_prefix}
use iwaya.Text.Ascii.{is_whitespace}
use iwaya.Text.Search.{split_at_match}
use iwaya.Text.Utf8.{as_bytes, utf8}
use iwaya.Bws.Diagnostic.{trim_start}
use iwaya.Text.Number.{hex, hex_digit}
use iwaya.ProxyImage.{
  image_tag, Material, to_le_bytes, read_all, hash_entry, hash_entries, first_bytes,
}
use iwaya.ProxyImage.Maps.{
  mapped_pathname, drop_fields, drop_field, text_lines, shared_objects, is_shared_object, precedes,
}
use iwaya.ProxyImage.Sorting.{insert, sort, dedup_behind, dedup}
use iwaya.ProxyImage.Elf.{
  Executable, is_elf64, number_at, from_le_bytes, drop_bytes, entry_offset, strip_zeros,
  read_interpreter, scan_headers, program_interpreter, IsNamed, program_interpreter-IsNamed,
}
use iwaya.ProxyImage.Collection.{
  Process, loaded_shared_objects, open_material, open_interpreter, open_objects, arrange,
  build_material,
}
use iwaya.ProxyImage.Build.{Machine, Output, ensure_proxy_image, join, trim_slashes}
use iwaya.ProxyImage.Build.Succeeding.{ensure_proxy_image-eq-ok}
use iwaya.ProxyImage.Collected.{IsMaterial, build_material-IsMaterial}
use iwaya.ProxyImage.Framing.{Settled, shipped, hash_entries_inj}

pathname_tests :
    (mapped_pathname "7f-80 r-xp 0 fd:00 1   /lib/a b.so (deleted)" ≡ some "/lib/a b.so")
    × (mapped_pathname "7f-80 rw-p 0 00:00 0 " ≡ none)
    × (mapped_pathname "7f-80 rw-p" ≡ none)
unfolding mapped_pathname drop_fields drop_field trim_start strip_suffix is_whitespace
pathname_tests = (refl, refl, refl)

abbrev zeros : ℕ → List ℕ
zeros zero = []
zeros (suc n) = 0 ∷ zeros n

-- The header of an executable with one program header, at 64, of the interpreter's kind: its name has
-- four bytes, at 120.
abbrev header : List ℕ
header = (127 ∷ 69 ∷ 76 ∷ 70 ∷ 2 ∷ 1 ∷ zeros 26) ++ ((64 ∷ zeros 21) ++ (56 ∷ 0 ∷ 1 ∷ 0 ∷ zeros 6))

abbrev program_header : List ℕ
program_header = (3 ∷ zeros 7) ++ ((120 ∷ zeros 23) ++ (4 ∷ zeros 23))

abbrev executable : Executable
executable = record {
  read_at = λ offset size. ok (
      if offset == 0
      then header
      else if offset == 64
      then program_header
      else 47 ∷ 108 ∷ 100 ∷ 0 ∷ []);
  from_utf8 = λ bytes. some "/ld";
}

names_interpreter : program_interpreter executable ≡ ok (some "/ld")
unfolding program_interpreter scan_headers read_interpreter is_elf64 number_at from_le_bytes
    drop_bytes first_bytes entry_offset strip_zeros
names_interpreter = refl

program_interpreter-IsNamed_example :
    ((bytes : List ℕ) × (executable.read_at 0 64 ≡ ok bytes) × (is_elf64 bytes ≡ true))
    × IsNamed executable "/ld"
program_interpreter-IsNamed_example = program_interpreter-IsNamed executable "/ld" names_interpreter

abbrev file : String → List ℕ → Material
file path bytes = record {
  destination = path;
  path = path;
  metadata_length = ok (length bytes);
  rewind = ok tt;
  reads = ok bytes ∷ ok [] ∷ [];
}

abbrev process : Process
process = record {
  current_exe = ok "/usr/bin/iwaya";
  self_exe = ok (file "/proc/self/exe" (1 ∷ []));
  executable = executable;
  open_file = λ path. ok (file path (2 ∷ []));
  read_maps = ok "1 r 0 f 1 /z.so\n1 r 0 f 1 /c.so\n1 r 0 f 1 /z.so\n";
  is_path = λ a b. a =? b;
}

abbrev material : List Material
material =
    file "/c.so" (2 ∷ [])
    ∷ record (file "/iwaya" (1 ∷ [])) { path = "/usr/bin/iwaya" }
    ∷ file "/ld" (2 ∷ [])
    ∷ file "/z.so" (2 ∷ [])
    ∷ []

built : build_material process ≡ ok material
unfolding build_material loaded_shared_objects open_material open_interpreter open_objects arrange
    program_interpreter scan_headers read_interpreter is_elf64 number_at from_le_bytes drop_bytes
    first_bytes entry_offset strip_zeros text_lines shared_objects is_shared_object mapped_pathname
    drop_fields drop_field trim_start strip_suffix strip_prefix split_at_match is_whitespace sort
    insert dedup dedup_behind precedes
built = refl

build_material-IsMaterial_example : IsMaterial process material
build_material-IsMaterial_example = build_material-IsMaterial process material built

abbrev entries : List (Material × List ℕ)
entries = (file "/a" (7 ∷ 8 ∷ []), 7 ∷ 8 ∷ []) ∷ []

entries-Settled : Settled entries
unfolding read_all as_bytes utf8
entries-Settled =
    (record { read = refl; reported = refl; size = omega arith; name_size = omega arith }, tt)

abbrev hashed : List ℕ
hashed = (2 ∷ zeros 7) ++ ((47 ∷ 97 ∷ 2 ∷ zeros 7) ++ (7 ∷ 8 ∷ []))

hashes : hash_entries (map (λ e. e.0) entries) ≡ ok hashed
unfolding hash_entries hash_entry read_all to_le_bytes as_bytes utf8
hashes = refl

hash_entries_inj_example : shipped entries ≡ shipped entries
hash_entries_inj_example =
    hash_entries_inj entries entries hashed entries-Settled entries-Settled hashes hashes

-- A hash function, and a runtime that has no image yet and builds one.
abbrev digest : List ℕ → List ℕ
digest bytes = 1 ∷ 2 ∷ 3 ∷ 4 ∷ 5 ∷ 6 ∷ 7 ∷ []

abbrev tag : String
tag = "iwaya-proxy:v0.1.0-010203040506"

abbrev absent : Output
absent = record { success = false; status = "exit status: 1"; stderr = "" }

abbrev finished : Output
finished = record { success = true; status = "exit status: 0"; stderr = "" }

abbrev machine : Machine
machine = record {
  fill = λ n. ok (10 ∷ 11 ∷ []);
  temp_dir = "/tmp";
  answer = λ event. ok tt;
  run = λ command. elim command.arguments [
    | [] ↦ ok absent
    | word ∷ words ↦ if word =? "build" then ok finished else ok absent
  ];
}

join_tests : (join "/tmp" "a" ≡ "/tmp/a") × (join "/tmp/" (trim_slashes "//b/") ≡ "/tmp/b/")
unfolding join trim_slashes strip_suffix
join_tests = (refl, refl)

tagged : image_tag digest "0.1.0" material ≡ ok tag
unfolding image_tag hash_entries hash_entry read_all to_le_bytes as_bytes utf8 first_bytes hex
    hex_digit char_of
tagged = refl

ensure_proxy_image-eq-ok_example :
    (ensure_proxy_image machine process digest "0.1.0" "podman").1 ≡ ok tag
ensure_proxy_image-eq-ok_example =
    ensure_proxy_image-eq-ok machine process digest "0.1.0" "podman" material tag (10 ∷ 11 ∷ [])
      absent (λ path. finished) built tagged refl (λ _. refl) refl (λ _. refl) (λ _. refl)
