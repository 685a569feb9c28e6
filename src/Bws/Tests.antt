-- ===== src/Bws/Tests.antt =====
-- src/bws.rs: tests.
use iwaya.Prelude.{String, [], ◌∷◌, some, true, ◌≡◌, ◌⊎◌, Result, ok, push, if◌then◌else◌}
use iwaya.Text.{◌=?◌}
use iwaya.Config.{BwsProvider, SecretName}
use iwaya.Bws.{Output, Shell, Resolved, resolve, acquisition_command}
use iwaya.Bws.Commands.{IsCalled, resolve_calls}

abbrev provider : BwsProvider
provider = record {
  id = record { id = "bws-default" };
  project = "p";
  access_token = record { program = "pass"; args = "show" ∷ [] };
}

abbrev succeed : String → Result String (Output String)
succeed text = ok (record { success = true; status = "exit status: 0"; stdout = text; stderr = "" })

-- Surroundings in which the token is `t`, and the project lists one key twice.
abbrev shell : Shell
shell = record {
  Bytes = String;
  from_utf8 = λ b. some b;
  from_utf8_lossy = λ b. b;
  projects_from_slice =
      λ b. ok (record { id = "7"; name = "q" } ∷ record { id = "8"; name = "p" } ∷ []);
  secrets_from_slice = λ b. ok (
      record { key = "git"; value = "old" }
      ∷ record { key = "x"; value = "y" }
      ∷ record { key = "git"; value = "new" }
      ∷ []);
  run = λ ran command. if command.program =? "bws" then succeed "" else succeed "t\n";
}

abbrev git : SecretName
git = record { name = "git" }

abbrev only_git : Resolved
only_git = (git, record { value = "new" }) ∷ (git, record { value = "old" }) ∷ []

resolve_calls_example :
    ((resolve shell [] provider (git ∷ [])).0 ≡ push [] (acquisition_command provider))
    ⊎ IsCalled shell [] provider (resolve shell [] provider (git ∷ [])).0
resolve_calls_example = resolve_calls shell [] provider (git ∷ [])

abbrev npm : SecretName
npm = record { name = "npm" }
