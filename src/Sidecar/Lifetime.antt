-- ===== src/Sidecar/Lifetime.antt =====
-- src/sidecar.rs: what is left of a sidecar, on every path.
use iwaya.Prelude.{
  String, List, [], ◌∷◌, ◌++◌, some, false, ◌≡◌, ◌⊎◌, refl, sym, ap, ◌∙◌, inl, inr, Result, ok, err,
  Result-cases, Bool-cases, Option-cases, ap₂, arith, All,
}
use iwaya.Text.{is_empty, contains_char}
use iwaya.Bws.Diagnostic.{trim_end}
use iwaya.Sidecar.{
  Sidecar, SidecarError, transfer_not_single_line, readiness_limit, Host, Event, spawned, wrote,
  ran, reaped, ephemeral_name, run_command, teardown, deliver, await_readiness, dropped, attach,
  start,
}

-- A sidecar that is up: it was started in the target's network namespace under its own name, was
-- given the one line and nothing else, and announced its port.
pub record IsUp (os : Host) (runtime image target transfer : String) (events : List Event)
    (sidecar : Sidecar) : Type 0 where
  pub name : ephemeral_name os ≡ ok sidecar.container_name
  pub same_runtime : sidecar.runtime ≡ runtime
  pub single_line : contains_char transfer b'\n' ≡ false
  pub events_eq :
      events
      ≡ spawned (run_command runtime image target sidecar.container_name)
        ∷ wrote transfer
        ∷ wrote "\n"
        ∷ []
  pub readiness : String
  pub received : os.read_line readiness_limit ≡ ok readiness
  pub announced : os.parse_readiness (trim_end readiness) ≡ some sidecar.port

abbrev pub IsWrote : Event → Type 0
IsWrote (wrote text) = Unit
IsWrote (spawned command) = ⊥
IsWrote (ran command) = ⊥
IsWrote reaped = ⊥

-- A failure: nothing was started, or the container is removed and its process reaped at the end, with
-- nothing but writes between.
pub data IsDown (runtime image target : String) (events : List Event) : Type 0 where
  unstarted : events ≡ [] → IsDown runtime image target events
  removed :
      (name : String) (between : List Event)
      → All IsWrote between
      → events
        ≡ (spawned (run_command runtime image target name) ∷ between)
          ++ teardown (record { runtime = runtime; container_name = name; port = 0 })
      → IsDown runtime image target events

deliver-ok :
    (os : Host) (transfer : String) (u : Unit {0})
    → (deliver os transfer).1 ≡ ok u
    → (deliver os transfer).0 ≡ wrote transfer ∷ wrote "\n" ∷ []
unfolding deliver
deliver-ok os transfer u h = elim (Result-cases (os.write transfer)) [
  | inr (e, failed) ↦ cc (rw (failed, deliver) at h)
  | inl (_, first) ↦ elim (Result-cases (os.write "\n")) [
    | inr (e, failed) ↦ cc (rw (first, failed, deliver) at h)
    | inl (_, second) ↦ rw (first, second, deliver) refl
  ]
]

deliver-IsWrote : (os : Host) (transfer : String) → All IsWrote (deliver os transfer).0
unfolding deliver
deliver-IsWrote os transfer = elim (Result-cases (os.write transfer)) [
  | inr (e, failed) ↦ rw (failed, deliver) tt
  | inl (_, first) ↦ elim (Result-cases (os.write "\n")) [
    | inr (e, failed) ↦ rw (first, failed, deliver) (tt, tt)
    | inl (_, second) ↦ rw (first, second, deliver) (tt, (tt, tt))
  ]
]

-- What a start is that gave a sidecar.
await_readiness-parts :
    (os : Host) (s : Sidecar) (delivery : Result String (Unit {0})) (sidecar : Sidecar)
    → await_readiness os s delivery ≡ ok sidecar
    → (delivery ≡ ok tt)
      × (readiness : String) × (os.read_line readiness_limit ≡ ok readiness)
      × (os.parse_readiness (trim_end readiness) ≡ some sidecar.port)
      × (sidecar ≡ record s { port = sidecar.port })
unfolding await_readiness
await_readiness-parts os s (err e) sidecar h = cc
await_readiness-parts os s (ok _) sidecar h = elim (Result-cases (os.read_line readiness_limit)) [
  | inr (e, failed) ↦ cc (rw (failed, await_readiness) at h)
  | inl (readiness, read) ↦ elim (Bool-cases (is_empty readiness)) [
    | inl nothing ↦ cc (rw (read, nothing, await_readiness) at h)
    | inr something ↦ elim (Option-cases (os.parse_readiness (trim_end readiness))) [
      | inl unusable ↦ cc (rw (read, something, unusable, await_readiness) at h)
      | inr (port, parsed) ↦
          let same : ok (record s { port = port }) ≡ ok sidecar =
            rw (read, something, parsed, await_readiness) at h in
          (refl, readiness, read, parsed ∙ ap some (ground arith), ground arith)
    ]
  ]
]

attach-parts :
    (os : Host) (s : Sidecar) (transfer : String) (sidecar : Sidecar)
    → (attach os s transfer).1 ≡ ok sidecar
    → ((attach os s transfer).0 ≡ wrote transfer ∷ wrote "\n" ∷ [])
      × (sidecar ≡ record s { port = sidecar.port })
      × (readiness : String) × (os.read_line readiness_limit ≡ ok readiness)
      × (os.parse_readiness (trim_end readiness) ≡ some sidecar.port)
unfolding attach
attach-parts os s transfer sidecar h =
    let delivery = (deliver os transfer).1 in
    let (delivered, readiness, read, parsed, same) =
      await_readiness-parts os s delivery sidecar h in
    (
      ap₂ ◌++◌ (deliver-ok os transfer tt delivered) (ap (dropped s) h),
      same,
      readiness,
      read,
      parsed,
    )

attach-failed :
    (os : Host) (s : Sidecar) (transfer : String) (e : SidecarError)
    → (attach os s transfer).1 ≡ err e
    → (attach os s transfer).0 ≡ (deliver os transfer).0 ++ teardown s
unfolding attach
attach-failed os s transfer e h = ap (λ r. (deliver os transfer).0 ++ dropped s r) h

-- A start either gives a sidecar that is up, in the network namespace of the target and with the
-- announced port, and that was written the one line of the document and its line ending; or it is an
-- error, and then nothing was started, or the container was written to and at the end removed by its
-- own name and its process reaped.
pub start_lem :
    (os : Host) (runtime image target transfer : String)
    → let (events, result) = start os runtime image target transfer in
      ((sidecar : Sidecar) × (result ≡ ok sidecar)
        × IsUp os runtime image target transfer events sidecar)
      ⊎ ((e : SidecarError) × (result ≡ err e) × IsDown runtime image target events)
unfolding start
start_lem os runtime image target transfer = elim (Bool-cases (contains_char transfer b'\n')) [
  | inl several ↦ rw (several, start) (inr (transfer_not_single_line, refl, unstarted refl))
  | inr single ↦ elim (Result-cases (ephemeral_name os)) [
    | inr (e, unnamed) ↦ rw (single, unnamed, start) (inr (e, refl, unstarted refl))
    | inl (name, named) ↦ elim (Result-cases (os.spawn (run_command runtime image target name))) [
      | inr (source, failed) ↦ rw (single, named, failed, start) (inr (_, refl, unstarted refl))
      | inl (_, running) ↦
          let s : Sidecar = record { runtime = runtime; container_name = name; port = 0 } in
          rw (single, named, running, start)
            (elim (Result-cases (attach os s transfer).1) [
              | inr (e, failed) ↦ inr (
                e,
                failed,
                removed name (deliver os transfer).0 (deliver-IsWrote os transfer) (
                    ap (◌∷◌ (spawned (run_command runtime image target name)))
                      (attach-failed os s transfer e failed)),
              )
              | inl (sidecar, up) ↦
                  let (events, same, readiness, read, parsed) =
                    attach-parts os s transfer sidecar up in
                  inl (
                    sidecar,
                    up,
                    record {
                      name = named ∙ ap (λ x. ok x.container_name) (sym same);
                      same_runtime = ap (λ x. x.runtime) same;
                      single_line = single;
                      events_eq =
                          ap (◌∷◌ (spawned (run_command runtime image target name))) events
                          ∙ ap
                              (λ x.
                                spawned (run_command runtime image target x.container_name)
                                ∷ wrote transfer
                                ∷ wrote "\n"
                                ∷ [])
                              (sym same);
                      readiness = readiness;
                      received = read;
                      announced = parsed;
                    },
                  )
            ])
    ]
  ]
]
