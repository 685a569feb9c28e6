-- ===== src/Main/Presence.antt =====
-- src/main.rs: the target runs only in the presence of its sidecar.
use iwaya.Prelude.{ℕ, String, Bool, List, [], ◌∷◌, ◌++◌, ◌≡◌, ◌⊎◌, refl, sym, inl, inr, Any, subst}
use iwaya.Run.{Command}
use iwaya.Run.{spawned as run_spawned}
use iwaya.Run.Supervision.{IsFor, IsChildless}
use iwaya.Sidecar.{run_command, spawned, ran}
use iwaya.Main.{Invocation}
use iwaya.Main.Execute.{execute}
use iwaya.Main.Surroundings.{World, Event, attended, supervised}
use iwaya.Main.Protocol.{
  Phase, resolving, preparing, attached, running, ended, removing, over, remove_command, Step, ask,
  begin, prepare, attach, write, watch, run, follow, reap, settle, remove, remove_behind, abandon,
  finish, Steps, here, next, IsSettled,
}
use iwaya.Main.Ordered.{execute-IsAccepted}

module _ (runtime name : String) where
  -- The sidecar of this name is there.
  abbrev pub IsPresent : Phase → Type 0
  IsPresent resolving = ⊥
  IsPresent preparing = ⊥
  IsPresent (attached r n) = (r ≡ runtime) × (n ≡ name)
  IsPresent (running r n pid) = (r ≡ runtime) × (n ≡ name)
  IsPresent (ended r n pid) = (r ≡ runtime) × (n ≡ name)
  IsPresent removing = ⊥
  IsPresent over = ⊥

  -- Its container is started, or removed, by the event.
  abbrev pub IsStart : Event → Type 0
  IsStart event =
      (image : String) × (target : String) × (event
        ≡ attended (spawned (run_command runtime image target name)))

  abbrev pub IsRemoval : Event → Type 0
  IsRemoval event = event ≡ attended (ran (remove_command runtime name))

  Step-IsStart :
      {relays : Bool} {p q : Phase} {event : Event}
      → Step relays p event q
      → IsPresent q
      → IsPresent p ⊎ IsStart event
  Step-IsStart (ask c) h = inl h
  Step-IsStart (begin e) h = inl h
  Step-IsStart (prepare e) h = inl h
  Step-IsStart (attach r image target n c same) (hr, hn) =
      inr (image, target, rw (same, hr, hn) refl)
  Step-IsStart (write r n text) h = inl h
  Step-IsStart (watch r n e own) h = inl h
  Step-IsStart (run r n pid c) h = inl h
  Step-IsStart (follow r n pid e own) h = inl h
  Step-IsStart (reap r n pid) h = inl h
  Step-IsStart (settle r n pid e own) h = inl h
  Step-IsStart (remove r n c same) h = absurd h
  Step-IsStart (remove_behind r n pid c same) h = absurd h
  Step-IsStart (abandon r n pid c refused same) h = absurd h
  Step-IsStart finish h = inl h

  Step-IsRemoval :
      {relays : Bool} {p q : Phase} {event : Event}
      → Step relays p event q
      → IsPresent p
      → IsPresent q ⊎ IsRemoval event
  Step-IsRemoval (ask c) h = inl h
  Step-IsRemoval (begin e) h = absurd h
  Step-IsRemoval (prepare e) h = inl h
  Step-IsRemoval (attach r image target n c same) h = absurd h
  Step-IsRemoval (write r n text) h = inl h
  Step-IsRemoval (watch r n e own) h = inl h
  Step-IsRemoval (run r n pid c) h = inl h
  Step-IsRemoval (follow r n pid e own) h = inl h
  Step-IsRemoval (reap r n pid) h = inl h
  Step-IsRemoval (settle r n pid e own) h = inl h
  Step-IsRemoval (remove r n c same) (hr, hn) = inr (rw (same, hr, hn) refl)
  Step-IsRemoval (remove_behind r n pid c same) (hr, hn) = inr (rw (same, hr, hn) refl)
  Step-IsRemoval (abandon r n pid c refused same) (hr, hn) = inr (rw (same, hr, hn) refl)
  Step-IsRemoval finish h = absurd h

  Steps-IsStart :
      {relays : Bool} {p q : Phase} {events : List Event}
      → Steps relays p events q
      → IsPresent q
      → IsPresent p ⊎ Any IsStart events
  Steps-IsStart (here p) h = inl h
  Steps-IsStart (next event events s rest) h = elim (Steps-IsStart rest h) [
    | inr later ↦ inr (inr later)
    | inl there ↦ elim (Step-IsStart s there) [ inl before ↦ inl before | inr it ↦ inr (inl it) ]
  ]

  IsSettled-absent : (p : Phase) → IsSettled p → IsPresent p → ⊥
  IsSettled-absent resolving s h = h
  IsSettled-absent preparing s h = h
  IsSettled-absent (attached r n) s h = s
  IsSettled-absent (running r n pid) s h = s
  IsSettled-absent (ended r n pid) s h = s
  IsSettled-absent removing s h = h
  IsSettled-absent over s h = h

  Steps-IsRemoval :
      {relays : Bool} {p q : Phase} {events : List Event}
      → Steps relays p events q
      → IsPresent p
      → IsSettled q
      → Any IsRemoval events
  Steps-IsRemoval (here p) h settled = absurd (IsSettled-absent p settled h)
  Steps-IsRemoval (next event events s rest) h settled = elim (Step-IsRemoval s h) [
    | inl there ↦ inr (Steps-IsRemoval rest there settled)
    | inr it ↦ inl it
  ]

Steps-split :
    {relays : Bool} {p r : Phase} (xs ys : List Event)
    → Steps relays p (xs ++ ys) r
    → (q : Phase) × Steps relays p xs q × Steps relays q ys r
Steps-split {p = p} [] ys h = (p, here p, h)
Steps-split (x ∷ xs) ys (next event events s rest) =
    let (q, first, last) = Steps-split xs ys rest in (q, next x xs s first, last)

-- The phase in which a target is started.
data IsRun (p q : Phase) : Type 0 where
  in_presence :
      (runtime name : String) (pid : ℕ)
      → p ≡ attached runtime name
      → q ≡ running runtime name pid
      → IsRun p q

Step-IsRun :
    {relays : Bool} {p q : Phase} {event : Event} (pid : ℕ) (command : Command)
    → Step relays p event q
    → event ≡ supervised (run_spawned pid command)
    → IsRun p q
Step-IsRun pid command (ask c) h = cc
Step-IsRun pid command (begin e) h = cc
Step-IsRun pid command (prepare e) h = cc
Step-IsRun pid command (attach r image target n c same) h = cc
Step-IsRun pid command (write r n text) h = cc
Step-IsRun pid command (watch r n e own) h =
    let it : e ≡ run_spawned pid command = cc in absurd (subst IsChildless it own)
Step-IsRun pid command (run r n other c) h = in_presence r n other refl refl
Step-IsRun pid command (follow r n other e own) h =
    let it : e ≡ run_spawned pid command = cc in absurd (subst (IsFor other) it own)
Step-IsRun pid command (reap r n other) h = cc
Step-IsRun pid command (settle r n other e own) h =
    let it : e ≡ run_spawned pid command = cc in absurd (subst (IsFor other) it own)
Step-IsRun pid command (remove r n c same) h = cc
Step-IsRun pid command (remove_behind r n other c same) h = cc
Step-IsRun pid command (abandon r n other c refused same) h = cc
Step-IsRun pid command finish h = cc

-- What stands around the start of a target.
pub record IsSurrounded (before after : List Event) : Type 0 where
  pub runtime : String
  pub name : String
  pub started : Any (IsStart runtime name) before
  pub removed : Any (IsRemoval runtime name) after

Steps-IsSurrounded :
    {relays : Bool} {p q r : Phase} {before after : List Event} {event : Event} (pid : ℕ)
    (command : Command)
    → Steps relays resolving before p
    → Step relays p event q
    → event ≡ supervised (run_spawned pid command)
    → Steps relays q after r
    → IsSettled r
    → IsSurrounded before after
Steps-IsSurrounded pid command first s it last settled = elim (Step-IsRun pid command s it) [
  | in_presence runtime name other at to ↦ record {
    runtime = runtime;
    name = name;
    started =
        elim (Steps-IsStart runtime name first
          (subst (IsPresent runtime name) (sym at) (refl, refl))) [
            | inl never ↦ absurd never
            | inr before ↦ before
          ];
    removed =
        Steps-IsRemoval runtime name last (subst (IsPresent runtime name) (sym to) (refl, refl))
          settled;
  }
]

Steps-head :
    {relays : Bool} {p r : Phase} {event : Event} {events : List Event}
    → Steps relays p (event ∷ events) r
    → (q : Phase) × Step relays p event q × Steps relays q events r
Steps-head (next {q = q} event events s rest) = (q, s, rest)

-- Wherever in an execution a target is started, a sidecar's container was started before it, and is
-- removed by its name behind it.
pub execute-IsSurrounded :
    (w : World) (invocation : Invocation) (before after : List Event) (pid : ℕ) (command : Command)
    → (execute w invocation).0 ≡ before ++ supervised (run_spawned pid command) ∷ after
    → IsSurrounded before after
execute-IsSurrounded w invocation before after pid command split =
    let (r, steps, settled) = execute-IsAccepted w invocation in
    let (p, first, rest) =
      Steps-split before (supervised (run_spawned pid command) ∷ after)
        (subst (λ events. Steps w.system.relay_starts resolving events r) split steps) in
    let (q, s, last) = Steps-head rest in Steps-IsSurrounded pid command first s refl last settled
