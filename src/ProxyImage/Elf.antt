-- ===== src/ProxyImage/Elf.antt =====
-- src/proxy_image.rs: the interpreter that the running executable names.
use iwaya.Prelude.{
  ℕ, zero, suc, ◌+◌, ◌-◌, ◌*◌, ◌^◌, ◌≤◌, ◌≡◌, ap, String, List, [], ◌∷◌, Option, none, some, Bool,
  true, false, not, ◌&&◌, ◌||◌, ◌==◌, ltb, ◌>>=◌, ◌>>◌, >>=-eq-ok, ensure, ensure-eq-ok, map_err,
  map_err-eq-ok, ok_or, Result, ok, if◌then◌else◌, Bool-cases, inl, inr, arith, map_ok,
}
use iwaya.ProxyImage.{ProxyImageError, exe, unsupported_executable, first_bytes}

-- `from_le_bytes`
unfoldable pub from_le_bytes : List ℕ → ℕ
from_le_bytes [] = 0
from_le_bytes (b ∷ bytes) = b + 256 * from_le_bytes bytes

unfoldable pub drop_bytes : ℕ → List ℕ → List ℕ
drop_bytes zero bytes = bytes
drop_bytes (suc n) [] = []
drop_bytes (suc n) (b ∷ bytes) = drop_bytes n bytes

-- The number in `bytes[from..to]`.
unfoldable pub number_at : ℕ → ℕ → List ℕ → ℕ
number_at from to bytes = from_le_bytes (first_bytes (to - from) (drop_bytes from bytes))

-- The test on the identification: ELF, 64 bits, little-endian.
unfoldable pub is_elf64 : List ℕ → Bool
is_elf64 (m0 ∷ m1 ∷ m2 ∷ m3 ∷ class ∷ order ∷ _) =
    m0 == 127 && m1 == b'E' && m2 == b'L' && m3 == b'F' && class == 2 && order == 1
is_elf64 [] = false
is_elf64 (_ ∷ []) = false
is_elf64 (_ ∷ _ ∷ []) = false
is_elf64 (_ ∷ _ ∷ _ ∷ []) = false
is_elf64 (_ ∷ _ ∷ _ ∷ _ ∷ []) = false
is_elf64 (_ ∷ _ ∷ _ ∷ _ ∷ _ ∷ []) = false

-- The checked arithmetic on an entry's offset.
unfoldable pub entry_offset : (index entry_size ph_offset : ℕ) → Option ℕ
entry_offset index entry_size ph_offset =
    let table_offset = index * entry_size in
    let offset = ph_offset + table_offset in
    if ltb table_offset (2 ^ 64) && ltb offset (2 ^ 64) then some offset else none

-- The loop that pops zeros from the end.
unfoldable pub strip_zeros : List ℕ → List ℕ
strip_zeros [] = []
strip_zeros (b ∷ bytes) = elim (strip_zeros bytes) [
  | [] ↦ if b == 0 then [] else b ∷ []
  | x ∷ rest ↦ b ∷ x ∷ rest
]

-- `INTERPRETER_PATH_LIMIT`
abbrev pub interpreter_path_limit : ℕ
interpreter_path_limit = 4096

-- The open executable: the bytes at an offset, exactly as many as are asked for, or the error of
-- moving there and reading; and the decoding of a text.
pub record Executable : Type 0 where
  pub read_at : (offset size : ℕ) → Result String (List ℕ)
  pub from_utf8 : List ℕ → Option String

module _ (file : Executable) where
  open file use {read_at, from_utf8}

  -- What an entry of the interpreter's kind says.
  unfoldable pub read_interpreter : List ℕ → Result ProxyImageError (Option String)
  read_interpreter entry = do
    let offset = number_at 8 16 entry
    let size = number_at 32 40 entry
    ensure (not (size == 0 || ltb interpreter_path_limit size)) unsupported_executable
    path ← map_err exe (read_at offset size)
    map_ok some (ok_or unsupported_executable (from_utf8 (strip_zeros path)))

  -- The loop over the program headers, of which so many are left.
  unfoldable pub scan_headers :
      (left index entry_size ph_offset : ℕ) → Result ProxyImageError (Option String)
  scan_headers zero index entry_size ph_offset = ok none
  scan_headers (suc left) index entry_size ph_offset =
      let later = scan_headers left (suc index) entry_size ph_offset in
      do
        offset ← ok_or unsupported_executable (entry_offset index entry_size ph_offset)
        entry ← map_err exe (read_at offset 56)
        if number_at 0 4 entry == 3 then read_interpreter entry else later

  -- `program_interpreter`
  unfoldable pub program_interpreter : Result ProxyImageError (Option String)
  program_interpreter = do
    header ← map_err exe (read_at 0 64)
    ensure (is_elf64 header) unsupported_executable
    scan_headers (number_at 56 58 header) 0 (number_at 54 56 header) (number_at 32 40 header)

  -- Where an interpreter's name was read.
  pub record IsNamed (name : String) : Type 0 where
    pub offset : ℕ
    pub size : ℕ
    pub not_empty : 1 ≤ size
    pub limited : size ≤ 4096
    pub path : List ℕ
    pub read : read_at offset size ≡ ok path
    pub decoded : from_utf8 (strip_zeros path) ≡ some name

  read_interpreter-IsNamed :
      (entry : List ℕ) (name : String) → read_interpreter entry ≡ ok (some name) → IsNamed name
  unfolding read_interpreter
  read_interpreter-IsNamed entry name h =
      let size = number_at 32 40 entry in
      let (_, sized, h1) =
        >>=-eq-ok
          (ensure (not (size == 0 || ltb interpreter_path_limit size)) unsupported_executable) _
          h in
      let (path, read, h2) = >>=-eq-ok (map_err exe (read_at (number_at 8 16 entry) size)) _ h1 in
      let fits =
        ensure-eq-ok (not (size == 0 || ltb interpreter_path_limit size)) unsupported_executable
          sized in
      record {
        offset = number_at 8 16 entry;
        size = size;
        not_empty = ground arith;
        limited = ground arith;
        path = path;
        read = map_err-eq-ok exe (read_at (number_at 8 16 entry) size) read;
        decoded = named (from_utf8 (strip_zeros path)) h2;
      }
    where
      named :
          (o : Option String)
          → map_ok some (ok_or unsupported_executable o) ≡ ok (some name)
          → o ≡ some name
      named none e = cc
      named (some s) e = ap some (ground arith)

  scan_headers-IsNamed :
      (left index entry_size ph_offset : ℕ) (name : String)
      → scan_headers left index entry_size ph_offset ≡ ok (some name)
      → IsNamed name
  unfolding scan_headers
  scan_headers-IsNamed zero index entry_size ph_offset name h = cc
  scan_headers-IsNamed (suc left) index entry_size ph_offset name h =
      let (offset, _, h1) =
        >>=-eq-ok (ok_or unsupported_executable (entry_offset index entry_size ph_offset)) _ h in
      let (entry, _, h2) = >>=-eq-ok (map_err exe (read_at offset 56)) _ h1 in
      elim (Bool-cases (number_at 0 4 entry == 3)) [
        | inl interpreter ↦ read_interpreter-IsNamed entry name (rw interpreter at h2)
        | inr other ↦
            scan_headers-IsNamed left (suc index) entry_size ph_offset name (rw other at h2)
      ]

  -- An interpreter is only named by an executable that identifies itself as ELF of 64 bits in little
  -- endian, and its name was read from the file as between 1 and 4096 bytes, whatever the headers say.
  pub program_interpreter-IsNamed :
      (name : String)
      → program_interpreter ≡ ok (some name)
      → ((header : List ℕ) × (read_at 0 64 ≡ ok header) × (is_elf64 header ≡ true)) × IsNamed name
  unfolding program_interpreter
  program_interpreter-IsNamed name h =
      let (header, read, h1) = >>=-eq-ok (map_err exe (read_at 0 64)) _ h in
      let (_, elf, h2) = >>=-eq-ok (ensure (is_elf64 header) unsupported_executable) _ h1 in
      (
        (header, map_err-eq-ok exe (read_at 0 64) read, ensure-eq-ok (is_elf64 header) _ elf),
        scan_headers-IsNamed (number_at 56 58 header) 0 (number_at 54 56 header)
            (number_at 32 40 header) name h2,
      )
