-- ===== src/Secret.antt =====
-- src/secret.rs: a resolved secret value. Rust's ownership makes the consuming accessors usable
-- once; here each is the value that it hands over, and what is done with it is in its callers.
use iwaya.Prelude.{String}

-- `Secret(String)`
pub record Secret : Type 0 where
  pub value : String

-- `Secret::new`
unfoldable pub new_secret : String → Secret
new_secret value = record { value = value }

unfoldable pub clone_for_shared_declaration : Secret → Secret
clone_for_shared_declaration s = record { value = s.value }

unfoldable pub expose_to_subprocess_env : Secret → String
expose_to_subprocess_env s = s.value

unfoldable pub expose_to_upstream_header : Secret → String
expose_to_upstream_header s = s.value

unfoldable pub into_proxy_transfer : Secret → String
into_proxy_transfer s = s.value
