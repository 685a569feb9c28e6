-- ===== src/Main/Example.antt =====
-- src/main.rs: surroundings in which an invocation with a proxied secret runs to its end.
use iwaya.Prelude.{
  ℕ, zero, suc, String, List, [], ◌∷◌, none, some, true, Result, ok, err, if◌then◌else◌,
}
use iwaya.Text.{◌=?◌}
use iwaya.Kdl.{pos}
use iwaya.Config.Trees.{Tree, tree, nil, plant, text, number, always, leaf}
use iwaya.Run.{Command, System, replaced, exited, registered, relayed, waited, closed, joined}
use iwaya.Bws.{Shell, Output}
use iwaya.Sidecar.{Host, spawned, wrote, ran, reaped}
use iwaya.Transfer.Lines.{lines}
use iwaya.ProxyImage.{Material}
use iwaya.ProxyImage.Elf.{Executable}
use iwaya.ProxyImage.Collection.{Process}
use iwaya.ProxyImage.Build.{Machine}
use iwaya.Main.{Invocation}
use iwaya.Main.Surroundings.{World, Event, asked, imaged, attended, supervised}
use iwaya.ProxyImage.Build.{ran as image_ran}

abbrev pub proxy_secret_node : Tree
proxy_secret_node = tree "proxy-secret" ("API_KEY" ∷ []) [] (
    plant (leaf "provider" "vault") (
      plant (leaf "secret-name" "git") (
        plant (leaf "upstream" "https://h") (
          plant (leaf "base-url-env" "API_URL")
            (plant (tree "inject-header" ("k" ∷ "{}" ∷ []) [] nil) nil)))))

abbrev pub policy_node : Tree
policy_node = tree "command" ("claude" ∷ []) [] (
    plant
      (tree "secret" ("GIT_TOKEN" ∷ [])
        (("provider", text "vault") ∷ ("secret-name", text "git") ∷ []) nil)
      (plant proxy_secret_node nil))

abbrev pub direct_node : Tree
direct_node = tree "command" ("git" ∷ []) [] (
    plant
      (tree "secret" ("GIT_TOKEN" ∷ [])
        (("provider", text "vault") ∷ ("secret-name", text "git") ∷ []) nil)
      nil)

abbrev pub provider_node : Tree
provider_node = tree "bws" ("vault" ∷ []) [] (
    plant (leaf "project" "p")
      (plant (tree "access-token" [] [] (plant (leaf "exec" "pass") nil)) nil))

abbrev pub context_node : Tree
context_node = tree "docker" ("dev" ∷ []) [] (
    plant (leaf "user" "u") (plant (leaf "workdir" "/w") (plant (leaf "container-name" "app") nil)))

abbrev pub document : Tree
document = tree "iwaya" [] (("version", number (pos 1)) ∷ []) (
    plant (tree "providers" [] [] (plant provider_node nil)) (
      plant (tree "contexts" [] [] (plant context_node nil))
        (plant (tree "policies" [] [] (plant policy_node (plant direct_node nil))) nil)))

abbrev pub succeed : String → Result String (Output String)
succeed output =
    ok (record { success = true; status = "exit status: 0"; stdout = output; stderr = "" })

abbrev pub shell : Shell
shell = record {
  Bytes = String;
  from_utf8 = λ b. some b;
  from_utf8_lossy = λ b. b;
  projects_from_slice = λ b. ok (record { id = "8"; name = "p" } ∷ []);
  secrets_from_slice = λ b. ok (record { key = "git"; value = "new" } ∷ []);
  run = λ ran command. if command.program =? "bws" then succeed "" else succeed "t\n";
}

abbrev pub zeros : ℕ → List ℕ
zeros zero = []
zeros (suc n) = 0 ∷ zeros n

-- A static executable.
abbrev pub executable : Executable
executable = record {
  read_at = λ offset size. ok (127 ∷ 69 ∷ 76 ∷ 70 ∷ 2 ∷ 1 ∷ zeros 58);
  from_utf8 = λ bytes. none;
}

abbrev pub iwaya_file : Material
iwaya_file = record {
  destination = "/proc/self/exe";
  path = "/proc/self/exe";
  metadata_length = ok 1;
  rewind = ok tt;
  reads = ok (1 ∷ []) ∷ ok [] ∷ [];
}

abbrev pub process : Process
process = record {
  current_exe = ok "/usr/bin/iwaya";
  self_exe = ok iwaya_file;
  executable = executable;
  open_file = λ path. ok iwaya_file;
  read_maps = ok "";
  is_path = λ a b. a =? b;
}

-- A runtime that has the image.
abbrev pub machine : Machine
machine = record {
  fill = λ n. ok (10 ∷ 11 ∷ []);
  temp_dir = "/tmp";
  answer = λ event. ok tt;
  run = λ command. ok (record { success = true; status = "exit status: 0"; stderr = "" });
}

abbrev pub host : Host
host = record {
  fill = λ n. ok (1 ∷ 2 ∷ []);
  spawn = λ _. ok tt;
  write = λ _. ok tt;
  read_line = λ limit. ok "{\"port\":34567}\n";
  parse_readiness = λ s. some 34567;
}

abbrev pub system : System
system = record {
  exec = λ _. replaced;
  register = λ _. ok tt;
  spawn = λ _. ok 77;
  caught = 2 ∷ [];
  late = [];
  relay_starts = true;
  wait = λ _. ok (exited 3);
}

abbrev pub world : World
world = record {
  kdl = always document;
  var_os = λ name. if name =? "HOME" then some "/home/u" else none;
  read_to_string = λ path. ok "";
  shell = shell;
  fill = λ calls n. ok (calls ∷ 7 ∷ []);
  machine = machine;
  process = process;
  sha256 = λ bytes. 1 ∷ 2 ∷ 3 ∷ 4 ∷ 5 ∷ 6 ∷ 7 ∷ [];
  version = "0.1.0";
  serde = lines;
  host = host;
  system = system;
  stderr_writes = true;
}

abbrev pub invocation : Invocation
invocation = record {
  context = record { id = "dev" };
  command = record { id = "claude" };
  args = "--resume" ∷ [];
}

-- The container runtime refuses to start a container.
abbrev pub refusing : World
refusing = record world { host = record host { spawn = λ _. err "no such runtime" } }

abbrev pub target : Command
target = record {
  program = "docker";
  arguments =
      "exec" ∷ "--interactive" ∷ "--tty" ∷ "--env" ∷ "GIT_TOKEN" ∷ "--env" ∷ "API_KEY" ∷ "--env"
      ∷ "API_URL" ∷ "--user" ∷ "u" ∷ "--workdir" ∷ "/w" ∷ "app" ∷ "claude" ∷ "--resume" ∷ [];
  environment =
      ("API_URL", "http://127.0.0.1:34567")
      ∷ ("API_KEY", "iwaya-phantom-0007")
      ∷ ("GIT_TOKEN", "new")
      ∷ [];
}

-- What is done before and behind the start of the target.
abbrev pub before : List Event
before =
    asked (record { program = "pass"; arguments = []; environment = [] })
    ∷ asked (record {
      program = "bws";
      arguments = "project" ∷ "list" ∷ "--output" ∷ "json" ∷ [];
      environment = ("BWS_ACCESS_TOKEN", "t") ∷ [];
    })
    ∷ asked (record {
      program = "bws";
      arguments = "secret" ∷ "list" ∷ "8" ∷ "--output" ∷ "json" ∷ [];
      environment = ("BWS_ACCESS_TOKEN", "t") ∷ [];
    })
    ∷ imaged (
        image_ran (record {
          program = "docker";
          arguments = "image" ∷ "inspect" ∷ "iwaya-proxy:v0.1.0-010203040506" ∷ [];
          environment = [];
        }))
    ∷ attended (
        spawned (record {
          program = "docker";
          arguments =
              "run" ∷ "--rm" ∷ "--interactive" ∷ "--network" ∷ "container:app" ∷ "--name"
              ∷ "iwaya-proxy-0102" ∷ "iwaya-proxy:v0.1.0-010203040506" ∷ [];
          environment = [];
        }))
    ∷ attended (wrote "akea{a}eahatatapasa:a/a/aheaiawaaayaaa-apahaaanataoama-a0a0a0a7eanaeawe")
    ∷ attended (wrote "\n")
    ∷ supervised (registered (2 ∷ 15 ∷ 1 ∷ 3 ∷ []))
    ∷ []

abbrev pub after : List Event
after =
    supervised (relayed 77 2)
    ∷ supervised (waited 77)
    ∷ supervised closed
    ∷ supervised joined
    ∷ attended (
        ran (record {
          program = "docker";
          arguments = "rm" ∷ "--force" ∷ "iwaya-proxy-0102" ∷ [];
          environment = [];
        }))
    ∷ attended reaped
    ∷ []
