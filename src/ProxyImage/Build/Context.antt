-- ===== src/ProxyImage/Build/Context.antt =====
-- src/proxy_image.rs: what the writing of the build context asks of the machine.
use iwaya.Prelude.{
  String, List, [], ◌∷◌, ◌++◌, true, ◌≡◌, refl, ap, inl, inr, Bool-cases, ok, err, Result-cases,
  ◌∙◌,
}
use iwaya.ProxyImage.{Material, dockerfile}
use iwaya.ProxyImage.Build.{
  Machine, Event, wrote_file, made_parents, rewound, made_file, copied, set_mode, Output, Traced,
  and_next, ask, join, trim_slashes, copy_entry, copy_entries, write_build_context, build_command,
  build_image,
}

-- What a step and the next have done if both succeeded.
pub and_next-ok :
    {E A B : Type 0} (m : Traced E A) (next : A → Traced E B) {b : B}
    → (and_next m next).1 ≡ ok b
    → (a : A) × (m.1 ≡ ok a) × ((next a).1 ≡ ok b) × ((and_next m next).0 ≡ m.0 ++ (next a).0)
and_next-ok (events, ok a) next h = (a, refl, h, refl)
and_next-ok (events, err e) next h = cc

-- What is asked to bring one file into the context.
unfoldable pub entry_events : String → Material → List Event
entry_events rootfs entry =
    let destination = join rootfs (trim_slashes entry.destination) in
    made_parents destination
    ∷ rewound entry.destination
    ∷ made_file destination
    ∷ copied entry.destination destination
    ∷ set_mode destination 493
    ∷ []

pub copy_entry-ok :
    (os : Machine) (rootfs : String) (entry : Material) (u : Unit {0})
    → (copy_entry os rootfs entry).1 ≡ ok u
    → (copy_entry os rootfs entry).0 ≡ entry_events rootfs entry
unfolding copy_entry entry_events
copy_entry-ok os rootfs entry u h =
    let destination = join rootfs (trim_slashes entry.destination) in
    let (_, _, h1, e1) = and_next-ok (ask os (made_parents destination)) _ h in
    let (_, _, h2, e2) = and_next-ok (ask os (rewound entry.destination)) _ h1 in
    let (_, _, h3, e3) = and_next-ok (ask os (made_file destination)) _ h2 in
    let (_, _, _, e4) = and_next-ok (ask os (copied entry.destination destination)) _ h3 in
    e1
    ∙ ap (λ later. made_parents destination ∷ later)
        (e2
          ∙ ap (λ later. rewound entry.destination ∷ later)
              (e3 ∙ ap (λ later. made_file destination ∷ later) e4))

unfoldable pub context_events : String → List Material → List Event
context_events rootfs [] = []
context_events rootfs (entry ∷ material) =
    entry_events rootfs entry ++ context_events rootfs material

pub copy_entries-ok :
    (os : Machine) (rootfs : String) (material : List Material) (u : Unit {0})
    → (copy_entries os rootfs material).1 ≡ ok u
    → (copy_entries os rootfs material).0 ≡ context_events rootfs material
unfolding copy_entries context_events
copy_entries-ok os rootfs [] u h = refl
copy_entries-ok os rootfs (entry ∷ material) u h =
    let (first, copied_first, h1, e1) = and_next-ok (copy_entry os rootfs entry) _ h in
    rw
      (
        e1,
        copy_entry-ok os rootfs entry first copied_first,
        copy_entries-ok os rootfs material u h1,
      )
      refl

pub build_image-ok :
    (os : Machine) (runtime tag path : String) (u : Unit {0})
    → (build_image os runtime tag path).1 ≡ ok u
    → (output : Output) × (os.run (build_command runtime tag path) ≡ ok output)
      × (output.success ≡ true)
unfolding build_image
build_image-ok os runtime tag path u h =
    elim (Result-cases (os.run (build_command runtime tag path))) [
      | inr (e, failed) ↦ cc (rw (failed) at h)
      | inl (output, ended) ↦ elim (Bool-cases output.success) [
        | inl success ↦ (output, ended, success)
        | inr failed ↦ cc (rw (ended, failed) at h)
      ]
    ]

pub write_build_context-ok :
    (os : Machine) (path : String) (material : List Material) (u : Unit {0})
    → (write_build_context os path material).1 ≡ ok u
    → (write_build_context os path material).0
      ≡ wrote_file (join path "Dockerfile") dockerfile
        ∷ context_events (join path "rootfs") material
unfolding write_build_context
write_build_context-ok os path material u h =
    let (_, _, h1, e) = and_next-ok (ask os (wrote_file (join path "Dockerfile") dockerfile)) _ h in
    rw (e, copy_entries-ok os (join path "rootfs") material u h1) refl

-- What succeeds if every answer does.
pub and_next-eq-ok :
    {E A B : Type 0} (m : Traced E A) (next : A → Traced E B) {a : A} {b : B}
    → m.1 ≡ ok a
    → (next a).1 ≡ ok b
    → (and_next m next).1 ≡ ok b
and_next-eq-ok (events, ok first) next {a} h k = let same : first ≡ a = cc in rw (same) k
and_next-eq-ok (events, err e) next h k = cc

module _ (os : Machine) (answers : (event : Event) → os.answer event ≡ ok tt) where
  copy_entry-eq-ok : (rootfs : String) (entry : Material) → (copy_entry os rootfs entry).1 ≡ ok tt
  unfolding copy_entry
  copy_entry-eq-ok rootfs entry =
      let destination = join rootfs (trim_slashes entry.destination) in
      and_next-eq-ok (ask os (made_parents destination)) _ (answers (made_parents destination)) (
        and_next-eq-ok (ask os (rewound entry.destination)) _ (answers (rewound entry.destination))
          (and_next-eq-ok (ask os (made_file destination)) _ (answers (made_file destination)) (
            and_next-eq-ok (ask os (copied entry.destination destination)) _
              (answers (copied entry.destination destination))
              (answers (set_mode destination 493)))))

  copy_entries-eq-ok :
      (rootfs : String) (material : List Material) → (copy_entries os rootfs material).1 ≡ ok tt
  unfolding copy_entries
  copy_entries-eq-ok rootfs [] = refl
  copy_entries-eq-ok rootfs (entry ∷ material) =
      and_next-eq-ok (copy_entry os rootfs entry) _ (copy_entry-eq-ok rootfs entry)
        (copy_entries-eq-ok rootfs material)

  pub write_build_context-eq-ok :
      (path : String) (material : List Material) → (write_build_context os path material).1 ≡ ok tt
  unfolding write_build_context
  write_build_context-eq-ok path material =
      let recipe = wrote_file (join path "Dockerfile") dockerfile in
      and_next-eq-ok (ask os recipe) _ (answers recipe)
        (copy_entries-eq-ok (join path "rootfs") material)
