-- ===== src/ProxyImage/Collected.antt =====
-- src/proxy_image.rs: what the collected material is.
use iwaya.Prelude.{
  String, List, [], ◌∷◌, Option, none, some, Bool, true, false, find, is_some, Bool-cases,
  Option-cases, ◌≡◌, ◌⊎◌, refl, Result, ok, >>=-eq-ok, map_err, map_err-eq-ok, push, Any, arith,
  inl, inr, subst, sym, ◌∙◌,
}
use iwaya.ProxyImage.{ProxyImageError, exe, unreadable_material, Material}
use iwaya.Text.{◌=?◌, starts_with}
use iwaya.Text.Search.{split_at_match}
use iwaya.ProxyImage.Maps.{text_lines, shared_objects, is_shared_object, mapped_pathname}
use iwaya.ProxyImage.Sorting.{sort, dedup, Ascending, dedup-sort-Ascending}
use iwaya.ProxyImage.FirstKept.{dedup-sort-first}
use iwaya.ProxyImage.Elf.{program_interpreter}
use iwaya.ProxyImage.Collection.{
  Process, itself, destination_of, loaded_shared_objects, open_material, open_interpreter,
  open_objects, arrange, build_material,
}

ok_inj : {A : Type 0} {a b : A} → ◌≡◌ {A = Result ProxyImageError A} (ok a) (ok b) → a ≡ b
ok_inj e = ground arith

path_inj : {a b : String} → ◌≡◌ {A = Result String String} (ok a) (ok b) → a ≡ b
path_inj e = ground arith

image_inj : {a b : Material} → ◌≡◌ {A = Result String Material} (ok a) (ok b) → a ≡ b
image_inj e = ground arith

open_material-destination :
    (os : Process) (path : String) (m : Material)
    → open_material os path ≡ ok m
    → m.destination ≡ path
unfolding open_material
open_material-destination os path m h =
    let (file, _, same) = >>=-eq-ok (map_err (unreadable_material path) (os.open_file path)) _ h in
    ground arith

-- The first entry for a destination.
abbrev pub first_at : String → List Material → Option Material
first_at k material = find (λ m. m.destination =? k) material

-- Some entry has the destination.
abbrev pub HasDestination : String → List Material → Type 0
HasDestination k material = Any (λ m. m.destination ≡ k) material

push-HasDestination :
    (k : String) (material : List Material) (m : Material)
    → HasDestination k material ⊎ (m.destination ≡ k)
    → HasDestination k (push material m)
push-HasDestination k [] m (inl old) = absurd old
push-HasDestination k [] m (inr new) = inl new
push-HasDestination k (x ∷ material) m (inl (inl here)) = inl here
push-HasDestination k (x ∷ material) m (inl (inr later)) =
    inr (push-HasDestination k material m (inl later))
push-HasDestination k (x ∷ material) m (inr new) = inr (push-HasDestination k material m (inr new))

open_objects-HasDestination :
    (os : Process) (objects : List String) (material found : List Material) (k : String)
    → open_objects os objects material ≡ ok found
    → HasDestination k material ⊎ Any (λ o. o ≡ k) objects
    → HasDestination k found
unfolding open_objects
open_objects-HasDestination os [] material found k h (inl m) =
    subst (HasDestination k) (ground arith) m
open_objects-HasDestination os [] material found k h (inr m) = absurd m
open_objects-HasDestination os (o ∷ objects) material found k h m =
    let (opened, first, others) = >>=-eq-ok (open_material os o) _ h in
    let named = open_material-destination os o opened first in
    open_objects-HasDestination os objects (push material opened) found k others (elim m [
      | inl old ↦ inl (push-HasDestination k material opened (inl old))
      | inr (inl here) ↦ inl (push-HasDestination k material opened (inr (named ∙ here)))
      | inr (inr later) ↦ inr later
    ])

-- What an image is made of.
pub record IsMaterial (os : Process) (material : List Material) : Type 0 where
  pub ascending : Ascending destination_of material
  pub program :
      (exe_path : String) (self : Material)
      → os.current_exe ≡ ok exe_path
      → os.self_exe ≡ ok self
      → first_at "/iwaya" material ≡ some (record self { destination = "/iwaya"; path = exe_path })
  pub interpreter :
      (name : String)
      → program_interpreter os.executable ≡ ok (some name)
      → HasDestination name material
  pub objects :
      (exe_path text : String)
      → os.current_exe ≡ ok exe_path
      → os.read_maps ≡ ok text
      → (k : String) → Any (λ line. mapped_pathname line ≡ some k) (text_lines text)
      → starts_with k "/" ≡ true
      → is_some (split_at_match k ".so") ≡ true
      → os.is_path k exe_path ≡ false
      → HasDestination k material

shared_objects-Any :
    (is_exe : String → Bool) (lines : List String) (k : String)
    → Any (λ line. mapped_pathname line ≡ some k) lines
    → is_shared_object is_exe k ≡ true
    → Any (λ o. o ≡ k) (shared_objects is_exe lines)
unfolding shared_objects
shared_objects-Any is_exe [] k m h = absurd m
shared_objects-Any is_exe (line ∷ lines) k (inl e) h = rw (e, h, shared_objects) (inl refl)
shared_objects-Any is_exe (line ∷ lines) k (inr m) h =
    let later = shared_objects-Any is_exe lines k m h in
    elim (Option-cases (mapped_pathname line)) [
      | inl anonymous ↦ rw (anonymous, shared_objects) later
      | inr (path, mapped) ↦ elim (Bool-cases (is_shared_object is_exe path)) [
        | inl shared ↦ rw (mapped, shared, shared_objects) (inr later)
        | inr other ↦ rw (mapped, other, shared_objects) later
      ]
    ]

loaded_shared_objects-Any :
    (os : Process) (exe_path text : String) (found : List String) (k : String)
    → os.read_maps ≡ ok text
    → loaded_shared_objects os exe_path ≡ ok found
    → Any (λ line. mapped_pathname line ≡ some k) (text_lines text)
    → starts_with k "/" ≡ true
    → is_some (split_at_match k ".so") ≡ true
    → os.is_path k exe_path ≡ false
    → Any (λ o. o ≡ k) found
unfolding loaded_shared_objects is_shared_object
loaded_shared_objects-Any os exe_path text found k at_text loaded m absolute so other =
    let is_exe = λ (path : String). os.is_path path exe_path in
    let named : is_shared_object is_exe k ≡ true = rw (absolute, so, other) refl in
    let objects = shared_objects is_exe (text_lines text) in
    let whole : dedup itself (sort itself objects) ≡ found = ok_inj (rw at_text at loaded) in
    subst (Any (λ o. o ≡ k)) whole (
      (dedup-sort-Ascending itself objects).1 k
        (shared_objects-Any is_exe (text_lines text) k m named))

push-first_at :
    (k : String) (material : List Material) (m x : Material)
    → first_at k material ≡ some x
    → first_at k (push material m) ≡ some x
push-first_at k [] m x h = cc
push-first_at k (y ∷ material) m x h = ground (arith, push-first_at k material m x)

open_objects-first_at :
    (os : Process) (objects : List String) (material found : List Material) (k : String)
    (x : Material)
    → open_objects os objects material ≡ ok found
    → first_at k material ≡ some x
    → first_at k found ≡ some x
unfolding open_objects
open_objects-first_at os [] material found k x h m = ground arith
open_objects-first_at os (o ∷ objects) material found k x h m =
    let (opened, _, others) = >>=-eq-ok (open_material os o) _ h in
    open_objects-first_at os objects (push material opened) found k x others
      (push-first_at k material opened x m)

open_interpreter-first_at :
    (os : Process) (i : Option String) (material found : List Material) (k : String) (x : Material)
    → open_interpreter os i material ≡ ok found
    → first_at k material ≡ some x
    → first_at k found ≡ some x
unfolding open_interpreter
open_interpreter-first_at os none material found k x h m = ground arith
open_interpreter-first_at os (some name) material found k x h m =
    let (opened, _, pushed) = >>=-eq-ok (open_material os name) _ h in
    let whole : push material opened ≡ found = ground arith in
    subst (λ ms. first_at k ms ≡ some x) whole (push-first_at k material opened x m)

open_interpreter-HasDestination :
    (os : Process) (i : Option String) (material found : List Material) (k : String)
    → open_interpreter os i material ≡ ok found
    → HasDestination k material ⊎ (i ≡ some k)
    → HasDestination k found
unfolding open_interpreter
open_interpreter-HasDestination os none material found k h (inl m) =
    subst (HasDestination k) (ground arith) m
open_interpreter-HasDestination os none material found k h (inr e) = cc
open_interpreter-HasDestination os (some name) material found k h m =
    let (opened, first, pushed) = >>=-eq-ok (open_material os name) _ h in
    let named = open_material-destination os name opened first in
    let whole : push material opened ≡ found = ground arith in
    subst (HasDestination k) whole (
      push-HasDestination k material opened
        (elim m [ inl old ↦ inl old | inr e ↦ inr (named ∙ ground arith) ]))

-- The entries of an image's material have strictly ascending destinations, so none is there twice and
-- the order does not depend on the memory map's. The entry for `/iwaya` is the program's own image; the
-- interpreter that the program names is a destination, and so is every pathname on a line of the memory
-- map that is absolute, contains `.so` and is not the executable's.
pub build_material-IsMaterial :
    (os : Process) (material : List Material)
    → build_material os ≡ ok material
    → IsMaterial os material
unfolding build_material arrange
build_material-IsMaterial os material h =
    let (path, at_path, h1) = >>=-eq-ok (map_err exe os.current_exe) _ h in
    let (self, at_self_exe, h2) = >>=-eq-ok (map_err exe os.self_exe) _ h1 in
    let (name, named, h3) = >>=-eq-ok (program_interpreter os.executable) _ h2 in
    let start = record self { destination = "/iwaya"; path = path } ∷ [] in
    let (first, opened, h4) = >>=-eq-ok (open_interpreter os name start) _ h3 in
    let (objects, listed, h5) = >>=-eq-ok (loaded_shared_objects os path) _ h4 in
    let (all, found, h6) = >>=-eq-ok (open_objects os objects first) _ h5 in
    let (sorted, complete) = dedup-sort-Ascending destination_of all in
    let whole : dedup destination_of (sort destination_of all) ≡ material = ground arith in
    let collected : (k : String)
        → HasDestination k first ⊎ Any (λ o. o ≡ k) objects
        → HasDestination k material =
      λ k m.
        subst (HasDestination k) whole
          (complete k (open_objects-HasDestination os objects first all k found m)) in
    record {
      ascending = subst (Ascending destination_of) whole sorted;
      program = λ exe_path image at_exe at_self.
          let same : exe_path ≡ path =
            path_inj (sym at_exe ∙ map_err-eq-ok exe os.current_exe at_path) in
          let same_image : image ≡ self =
            image_inj (sym at_self ∙ map_err-eq-ok exe os.self_exe at_self_exe) in
          let kept =
            open_objects-first_at os objects first all "/iwaya" _ found
              (open_interpreter-first_at os name start first "/iwaya" _ opened refl) in
          rw (← whole, same, same_image) (dedup-sort-first destination_of "/iwaya" all ∙ kept);
      interpreter = λ n e. collected n (
          inl (
            open_interpreter-HasDestination os name start first n opened
              (inr (ok_inj (sym named ∙ e)))));
      objects = λ exe_path text at_exe at_text k m absolute so other.
          let same : exe_path ≡ path =
            path_inj (sym at_exe ∙ map_err-eq-ok exe os.current_exe at_path) in
          let unlike : os.is_path k path ≡ false = subst (λ p. os.is_path k p ≡ false) same other in
          collected k (
            inr (
              loaded_shared_objects-Any os path text objects k at_text listed m absolute so
                unlike));
    }
