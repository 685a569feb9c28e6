-- ===== src/Main/Input.antt =====
-- src/main.rs: what an execution writes to the standard input of its sidecar.
use iwaya.Prelude.{String, ◌<>◌, List, [], ◌∷◌, ◌++◌, map, ◌≡◌, refl, ap}
use iwaya.Run.{Command}
use iwaya.Run.{Event as RunEvent}
use iwaya.ProxyImage.Build.{Event as ImageEvent}
use iwaya.Sidecar.{Sidecar, teardown, spawned, wrote, ran, reaped}
use iwaya.Sidecar.{Event as SidecarEvent}
use iwaya.Sidecar.Handover.{written}
use iwaya.Main.Surroundings.{Event, asked, imaged, attended, supervised}

unfoldable pub sidecar_input : List Event → String
sidecar_input [] = ""
sidecar_input (asked command ∷ events) = sidecar_input events
sidecar_input (imaged event ∷ events) = sidecar_input events
sidecar_input (supervised event ∷ events) = sidecar_input events
sidecar_input (attended (wrote text) ∷ events) = text <> sidecar_input events
sidecar_input (attended (spawned command) ∷ events) = sidecar_input events
sidecar_input (attended (ran command) ∷ events) = sidecar_input events
sidecar_input (attended reaped ∷ events) = sidecar_input events

pub sidecar_input-asked :
    (commands : List Command) (rest : List Event)
    → sidecar_input (map asked commands ++ rest) ≡ sidecar_input rest
unfolding sidecar_input
sidecar_input-asked [] rest = refl
sidecar_input-asked (c ∷ commands) rest = sidecar_input-asked commands rest

sidecar_input-imaged :
    (events : List ImageEvent) (rest : List Event)
    → sidecar_input (map imaged events ++ rest) ≡ sidecar_input rest
unfolding sidecar_input
sidecar_input-imaged [] rest = refl
sidecar_input-imaged (e ∷ events) rest = sidecar_input-imaged events rest

sidecar_input-supervised :
    (events : List RunEvent) (rest : List Event)
    → sidecar_input (map supervised events ++ rest) ≡ sidecar_input rest
unfolding sidecar_input
sidecar_input-supervised [] rest = refl
sidecar_input-supervised (e ∷ events) rest = sidecar_input-supervised events rest

sidecar_input-attended :
    (events : List SidecarEvent) (rest : List Event)
    → sidecar_input rest ≡ ""
    → sidecar_input (map attended events ++ rest) ≡ written events
unfolding sidecar_input written
sidecar_input-attended [] rest h = h
sidecar_input-attended (wrote text ∷ events) rest h =
    ap (λ s. text <> s) (sidecar_input-attended events rest h)
sidecar_input-attended (spawned c ∷ events) rest h = sidecar_input-attended events rest h
sidecar_input-attended (ran c ∷ events) rest h = sidecar_input-attended events rest h
sidecar_input-attended (reaped ∷ events) rest h = sidecar_input-attended events rest h

sidecar_input-teardown : (sidecar : Sidecar) → sidecar_input (map attended (teardown sidecar)) ≡ ""
unfolding sidecar_input teardown
sidecar_input-teardown sidecar = refl

-- Of what is done behind the resolution, only the sidecar's start writes to it.
pub sidecar_input-served :
    (image : List ImageEvent) (start : List SidecarEvent) (target : List RunEvent)
    (sidecar : Sidecar)
    → sidecar_input (
        map imaged image
        ++ (map attended start ++ (map supervised target ++ map attended (teardown sidecar))))
      ≡ written start
sidecar_input-served image start target sidecar = rw (sidecar_input-imaged image) (
    sidecar_input-attended start _
      (rw (sidecar_input-supervised target) (sidecar_input-teardown sidecar)))
