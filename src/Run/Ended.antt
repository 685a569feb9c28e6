-- ===== src/Run/Ended.antt =====
-- src/run.rs: a supervision that returns a code.
use iwaya.Prelude.{
  ℕ, String, ◌≡◌, refl, inl, inr, Result, ok, some, Bool-cases, arith, err, Result-cases,
}
use iwaya.Run.{
  Command, System, ExitStatus, exit_code_of, forwarded_signals, finish, attend, supervise,
}

finish-ok :
    (runtime : String) (pid : ℕ) (w : Result String ExitStatus) (code : ℕ)
    → (finish runtime pid w).1 ≡ ok code
    → (status : ExitStatus) × (w ≡ ok status) × (exit_code_of status ≡ code)
unfolding finish
finish-ok runtime pid (ok status) code h = (status, refl, cc)
finish-ok runtime pid (err source) code h = cc

-- A supervision returns a code only if its child was started and waited for, and the code is that of
-- the child's status.
pub supervise-ok :
    (os : System) (command : Command) (runtime : String) (code : ℕ)
    → (supervise os command runtime).1 ≡ some (ok code)
    → (pid : ℕ) × (status : ExitStatus) × (os.spawn command ≡ ok pid)
      × (os.wait pid ≡ ok status)
      × (exit_code_of status ≡ code)
unfolding supervise attend
supervise-ok os command runtime code h = elim (Result-cases (os.register forwarded_signals)) [
  | inr (e, failed) ↦ cc (rw (failed, supervise) at h)
  | inl (_, ready) ↦ elim (Result-cases (os.spawn command)) [
    | inr (e, failed) ↦ cc (rw (ready, failed, supervise) at h)
    | inl (pid, started) ↦ elim (Bool-cases os.relay_starts) [
      | inr refused ↦ cc (rw (ready, started, supervise, refused) at h)
      | inl starts ↦
          let (status, waited, same) =
            finish-ok runtime pid (os.wait pid) code
              (ground (arith, rw (ready, started, supervise, starts) at h)) in
          (pid, status, started, waited, same)
    ]
  ]
]
