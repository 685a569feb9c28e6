-- ===== src/Proxy/Hops.antt =====
-- src/proxy.rs: the hop-by-hop headers.
use text.Mathlib.TextEquality.{eq_iff}
use iwaya.Prelude.{String, List, [], ◌∷◌, false, ◌≡◌, ◌≢◌, refl, sym, ◌∙◌, any, arith, All}
use iwaya.Text.{◌=?◌}
use iwaya.Proxy.Forward.{is_hop_by_hop}

-- The headers of a single connection.
abbrev pub hop_by_hop_names : List String
hop_by_hop_names =
    "connection" ∷ "keep-alive" ∷ "proxy-authenticate" ∷ "proxy-authorization" ∷ "te" ∷ "trailer"
    ∷ "transfer-encoding" ∷ "upgrade" ∷ []

pub is_hop_by_hop-eq :
    (name : String) → is_hop_by_hop name ≡ any (λ hop. hop =? name) hop_by_hop_names
unfolding is_hop_by_hop
is_hop_by_hop-eq name = refl

any-none :
    (name : String) (hops : List String)
    → any (λ hop. hop =? name) hops ≡ false
    → All (λ hop. name ≢ hop) hops
any-none name [] h = tt
any-none name (hop ∷ hops) h =
    let (first, later) : ((hop =? name) ≡ false) × (any (λ x. x =? name) hops ≡ false) =
      ground arith in
    (λ e. ground (arith, eq_iff hop name, sym e, first), any-none name hops later)

pub is_hop_by_hop-none :
    (name : String) → is_hop_by_hop name ≡ false → All (λ hop. name ≢ hop) hop_by_hop_names
is_hop_by_hop-none name h = any-none name hop_by_hop_names (sym (is_hop_by_hop-eq name) ∙ h)
