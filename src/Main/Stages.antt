-- ===== src/Main/Stages.antt =====
-- src/main.rs: the events of each stage of an execution are steps of the machine of its stages.
use iwaya.Prelude.{
  ℕ, String, Bool, false, List, [], ◌∷◌, ◌++◌, map, ◌≡◌, refl, sym, ap, inl, inr, ok, ◌∙◌, All, Any,
}
use iwaya.Run.{Command, System, supervise, waited}
use iwaya.Run.{Event as RunEvent}
use iwaya.Run.Supervision.{IsFor, IsChildless, supervise_lem}
use iwaya.Sidecar.{Sidecar, Host, teardown, spawned, wrote, ran, reaped}
use iwaya.Sidecar.{Event as SidecarEvent}
use iwaya.Sidecar.Lifetime.{IsUp, IsDown, unstarted, removed, IsWrote}
use iwaya.ProxyImage.Build.{Machine, ensure_proxy_image}
use iwaya.ProxyImage.Build.{Event as ImageEvent}
use iwaya.ProxyImage.Collection.{Process}
use iwaya.ProxyImage.Build.Ensured.{ensure_proxy_image-IsEnsured, reused, unmade}
use iwaya.ProxyImage.Build.Ensured.{removed as removed_directory}
use iwaya.Main.Surroundings.{asked, imaged, attended, supervised}
use iwaya.Main.Protocol.{
  resolving, preparing, attached, running, ended, over, ask, begin, prepare, attach, write, watch,
  run, follow, reap, settle, remove, remove_behind, abandon, finish, Steps, here, next,
  Steps-append, IsAccepted,
}

pub asked-Steps :
    {relays : Bool} (commands : List Command)
    → Steps relays resolving (map asked commands) resolving
asked-Steps [] = here resolving
asked-Steps (c ∷ commands) = next _ _ (ask c) (asked-Steps commands)

imaged-Steps :
    {relays : Bool} (events : List ImageEvent)
    → Steps relays preparing (map imaged events) preparing
imaged-Steps [] = here preparing
imaged-Steps (e ∷ events) = next _ _ (prepare e) (imaged-Steps events)

pub imaged-IsAccepted :
    {relays : Bool} (events : List ImageEvent) → IsAccepted relays resolving (map imaged events)
imaged-IsAccepted [] = (resolving, here resolving, tt)
imaged-IsAccepted (e ∷ events) = (preparing, next _ _ (begin e) (imaged-Steps events), tt)

-- An image that is there has been asked for.
begun-Steps :
    {relays : Bool} (events : List ImageEvent) {event : ImageEvent} {rest : List ImageEvent}
    → events ≡ event ∷ rest
    → Steps relays resolving (map imaged events) preparing
begun-Steps [] h = cc
begun-Steps (event ∷ events) h = next _ _ (begin event) (imaged-Steps events)

pub prepared-Steps :
    {relays : Bool} (os : Machine) (process : Process) (sha256 : List ℕ → List ℕ)
    (version runtime image : String)
    → (ensure_proxy_image os process sha256 version runtime).1 ≡ ok image
    → Steps relays resolving
        (map imaged (ensure_proxy_image os process sha256 version runtime).0)
        preparing
prepared-Steps os process sha256 version runtime image h =
    elim (ensure_proxy_image-IsEnsured os process sha256 version runtime) [
      | inl (e, failed, _) ↦ cc (sym h ∙ failed)
      | inr (material, tag, _, _, reused output _ _ only _) ↦ begun-Steps _ only
      | inr (material, tag, _, _, unmade e _ failed) ↦ cc (sym h ∙ failed)
      | inr (material, tag, _, _, removed_directory path between only _) ↦ begun-Steps _ only
    ]

teardown-attached :
    {relays : Bool} (sidecar : Sidecar)
    → Steps relays
        (attached sidecar.runtime sidecar.container_name)
        (map attended (teardown sidecar))
        over
unfolding teardown
teardown-attached sidecar =
    next _ _ (remove sidecar.runtime sidecar.container_name _ refl) (next _ _ finish (here over))

teardown-ended :
    {relays : Bool} (sidecar : Sidecar) (pid : ℕ)
    → Steps relays
        (ended sidecar.runtime sidecar.container_name pid)
        (map attended (teardown sidecar))
        over
unfolding teardown
teardown-ended sidecar pid =
    next _ _ (remove_behind sidecar.runtime sidecar.container_name pid _ refl)
      (next _ _ finish (here over))

teardown-abandoned :
    {relays : Bool} (sidecar : Sidecar) (pid : ℕ)
    → relays ≡ false
    → Steps relays
        (running sidecar.runtime sidecar.container_name pid)
        (map attended (teardown sidecar))
        over
unfolding teardown
teardown-abandoned sidecar pid refused =
    next _ _ (abandon sidecar.runtime sidecar.container_name pid _ refused refl)
      (next _ _ finish (here over))

wrote-Steps :
    {relays : Bool} (runtime name : String) (events : List SidecarEvent)
    → All IsWrote events
    → Steps relays (attached runtime name) (map attended events) (attached runtime name)
wrote-Steps runtime name [] h = here _
wrote-Steps runtime name (wrote text ∷ events) (_, h) =
    next _ _ (write runtime name text) (wrote-Steps runtime name events h)
wrote-Steps runtime name (spawned c ∷ events) (h, _) = absurd h
wrote-Steps runtime name (ran c ∷ events) (h, _) = absurd h
wrote-Steps runtime name (reaped ∷ events) (h, _) = absurd h

pub IsUp-Steps :
    {relays : Bool} (os : Host) (runtime image target transfer : String)
    (events : List SidecarEvent) (sidecar : Sidecar)
    → IsUp os runtime image target transfer events sidecar
    → Steps relays preparing (map attended events) (attached sidecar.runtime sidecar.container_name)
IsUp-Steps os runtime image target transfer events sidecar up =
    rw (up.events_eq, up.same_runtime)
      (next _ _ (attach runtime image target sidecar.container_name _ refl) (
        wrote-Steps runtime sidecar.container_name (wrote transfer ∷ wrote "\n" ∷ [])
          (tt, (tt, tt))))

map-append :
    (xs ys : List SidecarEvent) → map attended (xs ++ ys) ≡ map attended xs ++ map attended ys
map-append [] ys = refl
map-append (x ∷ xs) ys = ap (◌∷◌ (attended x)) (map-append xs ys)

pub IsDown-IsAccepted :
    {relays : Bool} (runtime image target : String) (events : List SidecarEvent)
    → IsDown runtime image target events
    → IsAccepted relays preparing (map attended events)
IsDown-IsAccepted runtime image target events (unstarted nothing) =
    (preparing, rw nothing (here preparing), tt)
IsDown-IsAccepted runtime image target events (removed name between writes split) =
    let sidecar : Sidecar = record { runtime = runtime; container_name = name; port = 0 } in
    (
      over,
      rw (split, map-append between (teardown sidecar))
          (next _ _ (attach runtime image target name _ refl)
            (Steps-append (wrote-Steps runtime name between writes) (teardown-attached sidecar))),
      tt,
    )

module _ (runtime name : String) (pid : ℕ) where
  settled-Steps :
      {relays : Bool} (events : List RunEvent)
      → All (IsFor pid) events
      → Steps relays (ended runtime name pid) (map supervised events) (ended runtime name pid)
  settled-Steps [] h = here _
  settled-Steps (e ∷ events) (own, h) =
      next _ _ (settle runtime name pid e own) (settled-Steps events h)

  -- The run of a child that is waited for.
  run-Steps :
      {relays : Bool} (events : List RunEvent)
      → All (IsFor pid) events
      → Any (λ x. x ≡ waited pid) events
      → Steps relays (running runtime name pid) (map supervised events) (ended runtime name pid)
  run-Steps [] h m = absurd m
  run-Steps (e ∷ events) (own, h) (inl it) =
      rw it (next _ _ (reap runtime name pid) (settled-Steps events h))
  run-Steps (e ∷ events) (own, h) (inr m) =
      next _ _ (follow runtime name pid e own) (run-Steps events h m)

childless-Steps :
    {relays : Bool} (runtime name : String) (events : List RunEvent)
    → All IsChildless events
    → Steps relays (attached runtime name) (map supervised events) (attached runtime name)
childless-Steps runtime name [] h = here _
childless-Steps runtime name (e ∷ events) (own, h) =
    next _ _ (watch runtime name e own) (childless-Steps runtime name events h)

-- The supervision in the presence of a sidecar, and its removal.
pub supervised-Steps :
    (os : System) (command : Command) (runtime : String) (sidecar : Sidecar)
    → Steps os.relay_starts
        (attached sidecar.runtime sidecar.container_name)
        (map supervised (supervise os command runtime).0 ++ map attended (teardown sidecar))
        over
supervised-Steps os command runtime sidecar = elim (supervise_lem os command runtime) [
  | inr (inl B) ↦
      let rt = sidecar.runtime in
      let name = sidecar.container_name in
      Steps-append {q = running rt name B.left}
        (rw B.events_eq
          (next _ _ (watch rt name _ tt) (next _ _ (run rt name B.left command) (here _))))
        (teardown-abandoned sidecar B.left B.refused)
  | inr (inr U) ↦
      Steps-append
        (childless-Steps sidecar.runtime sidecar.container_name (supervise os command runtime).0
          U.childless)
        (teardown-attached sidecar)
  | inl A ↦
      let rt = sidecar.runtime in
      let name = sidecar.container_name in
      Steps-append {q = ended rt name A.pid}
        (rw A.events_eq (
          next _ _ (watch rt name _ tt)
            (next _ _ (run rt name A.pid command) (run-Steps rt name A.pid A.rest A.own A.reaped))))
        (teardown-ended sidecar A.pid)
]
