-- ===== src/Transfer/Confinement.antt =====
-- src/transfer.rs: what the target process is given for the proxied secrets.
use mathlib.Core.List.{append-nil, append_assoc}
use iwaya.Prelude.{ℕ, String, List, [], ◌∷◌, ◌++◌, map, ◌≡◌, refl, sym, ap, ◌∙◌}
use iwaya.Config.{EnvName}
use iwaya.Phantom.{expose_to_target_env}
use iwaya.Secret.{Secret}
use iwaya.Transfer.{
  Serde, ProvisionedProxySecret, plan_of, into_transfer, base_url, plan_entries, target_environment,
}
use iwaya.Transfer.RoundTrip.{into_transfer-eq}

-- The entries of a plan: the phantom, and the loopback URL.
abbrev pub entries_of : ℕ → List ProvisionedProxySecret → List (EnvName × String)
entries_of port [] = []
entries_of port (p ∷ ps) =
    (p.env_name, p.phantom.value) ∷ (p.base_url_env, base_url port) ∷ entries_of port ps

plan_entries-eq :
    (ps : List ProvisionedProxySecret) (port : ℕ) (environment : List (EnvName × String))
    → plan_entries (map plan_of ps) port environment ≡ environment ++ entries_of port ps
unfolding plan_entries plan_of expose_to_target_env
plan_entries-eq [] port environment = rw append-nil refl
plan_entries-eq (p ∷ ps) port environment =
    rw (plan_entries-eq ps port, append_assoc, append_assoc) refl

-- The target's environment has two entries for each provisioned secret, in order: the phantom under
-- the credential's name, and the loopback proxy's URL under the base URL's name.
pub target_environment-into_transfer :
    (S : Serde) (ps : List ProvisionedProxySecret) (port : ℕ)
    → target_environment (into_transfer S ps).1 port ≡ entries_of port ps
unfolding target_environment
target_environment-into_transfer S ps port = rw (into_transfer-eq S ps) (plan_entries-eq ps port [])

-- The secrets with other raw values in place of theirs.
abbrev pub with_raw_values :
    (ProvisionedProxySecret → Secret) → List ProvisionedProxySecret → List ProvisionedProxySecret
with_raw_values f [] = []
with_raw_values f (p ∷ ps) = record p { raw_value = f p } ∷ with_raw_values f ps

entries_of-with_raw_values :
    (f : ProvisionedProxySecret → Secret) (ps : List ProvisionedProxySecret) (port : ℕ)
    → entries_of port (with_raw_values f ps) ≡ entries_of port ps
entries_of-with_raw_values f [] port = refl
entries_of-with_raw_values f (p ∷ ps) port =
    ap (λ rest. (p.env_name, p.phantom.value) ∷ (p.base_url_env, base_url port) ∷ rest)
      (entries_of-with_raw_values f ps port)

-- The entries of the target's environment that stand for proxied secrets hold none of their raw values:
-- if every proxied secret's raw value is replaced by any other, the phantoms and the URLs are the same.
pub target_environment-with_raw_values :
    (S : Serde) (f : ProvisionedProxySecret → Secret) (ps : List ProvisionedProxySecret) (port : ℕ)
    → target_environment (into_transfer S (with_raw_values f ps)).1 port
      ≡ target_environment (into_transfer S ps).1 port
target_environment-with_raw_values S f ps port =
    target_environment-into_transfer S (with_raw_values f ps) port
    ∙ entries_of-with_raw_values f ps port
    ∙ sym (target_environment-into_transfer S ps port)
