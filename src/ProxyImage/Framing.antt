-- ===== src/ProxyImage/Framing.antt =====
-- src/proxy_image.rs: the hasher's input determines the material.
use iwaya.Prelude.{
  ℕ, zero, suc, ◌*◌, ◌/◌, ◌%◌, ◌^◌, ◌<◌, String, List, [], ◌∷◌, ◌++◌, map, length, ok, >>=-eq-ok,
  ◌≡◌, refl, sym, ap, ap₂, ◌∙◌, All, arith, Result-cases, inl, inr,
}
use mathlib.Core.List.{append_assoc}
use iwaya.Text.Utf8.{as_bytes}
use iwaya.Text.Encoding.{as_bytes_inj}
use iwaya.ProxyImage.{Material, to_le_bytes, read_all, hash_entry, hash_entries}

-- Lists with first parts of one length are equal in parts.
append_inj :
    (xs xs' ys ys' : List ℕ)
    → length xs ≡ length xs'
    → xs ++ ys ≡ xs' ++ ys'
    → (xs ≡ xs') × (ys ≡ ys')
append_inj [] [] ys ys' h e = (refl, e)
append_inj [] (x ∷ xs') ys ys' h e = absurd (omega arith)
append_inj (x ∷ xs) [] ys ys' h e = absurd (omega arith)
append_inj (x ∷ xs) (x' ∷ xs') ys ys' h e =
    let (same, rest) = append_inj xs xs' ys ys' (omega arith) (ground arith) in
    (ap₂ ◌∷◌ (ground arith) same, rest)

length-to_le_bytes : (size n : ℕ) → length (to_le_bytes size n) ≡ size
unfolding to_le_bytes
length-to_le_bytes zero n = refl
length-to_le_bytes (suc size) n = ap suc (length-to_le_bytes size (n / 256))

-- The numbers of so many bytes are those below this.
abbrev bound : ℕ → ℕ
bound zero = 1
bound (suc size) = 256 * bound size

to_le_bytes_inj :
    (size m n : ℕ)
    → m < bound size
    → n < bound size
    → to_le_bytes size m ≡ to_le_bytes size n
    → m ≡ n
unfolding to_le_bytes
to_le_bytes_inj zero m n p q e = omega arith
to_le_bytes_inj (suc size) m n p q e =
    let low : m % 256 ≡ n % 256 = ground arith in
    let rest : to_le_bytes size (m / 256) ≡ to_le_bytes size (n / 256) = ground arith in
    omega (arith, to_le_bytes_inj size (m / 256) (n / 256) (omega arith) (omega arith) rest)

-- What the file system is taken to say of an entry: the length that it reports is that of the bytes
-- that are read, and this and the name's length are numbers of 64 bits.
pub record IsSettled (entry : Material) (contents : List ℕ) : Type 0 where
  pub read : read_all entry.reads ≡ ok contents
  pub reported : entry.metadata_length ≡ ok (length contents)
  pub size : length contents < 2 ^ 64
  pub name_size : length (as_bytes entry.destination) < 2 ^ 64

-- An entry, as it is hashed.
abbrev pub framed : String → List ℕ → List ℕ
framed destination contents =
    let name = as_bytes destination in
    to_le_bytes 8 (length name) ++ (name ++ (to_le_bytes 8 (length contents) ++ contents))

hash_entry-framed :
    (entry : Material) (contents bytes : List ℕ)
    → IsSettled entry contents
    → hash_entry entry ≡ ok bytes
    → bytes ≡ framed entry.destination contents
unfolding hash_entry
hash_entry-framed entry contents bytes settled h = elim (Result-cases entry.rewind) [
  | inr (e, failed) ↦ cc (rw (settled.reported, failed, hash_entry) at h)
  | inl (_, rewound) ↦
      let same : ok (framed entry.destination contents) ≡ ok bytes =
        rw (settled.reported, rewound, settled.read, hash_entry) at h in
      ground arith
]

-- The entry's four parts in front of what follows.
abbrev laid_out : String → List ℕ → List ℕ → List ℕ
laid_out destination contents later =
    let name = as_bytes destination in
    to_le_bytes 8 (length name)
    ++ (name ++ (to_le_bytes 8 (length contents) ++ (contents ++ later)))

framed-laid_out : (a : String) (xs later : List ℕ) → framed a xs ++ later ≡ laid_out a xs later
framed-laid_out a xs later = rw (append_assoc, append_assoc, append_assoc) refl

-- A measured part can be told from what follows it.
measured_inj :
    (xs ys later later' : List ℕ)
    → length xs < 2 ^ 64
    → length ys < 2 ^ 64
    → to_le_bytes 8 (length xs) ++ (xs ++ later) ≡ to_le_bytes 8 (length ys) ++ (ys ++ later')
    → (xs ≡ ys) × (later ≡ later')
measured_inj xs ys later later' p q e =
    let (sizes, rest) =
      append_inj (to_le_bytes 8 (length xs)) (to_le_bytes 8 (length ys)) (xs ++ later)
        (ys ++ later') (length-to_le_bytes 8 (length xs) ∙ sym (length-to_le_bytes 8 (length ys)))
        e in
    append_inj xs ys later later' (to_le_bytes_inj 8 (length xs) (length ys) p q sizes) rest

framed_inj :
    (a b : String) (xs ys later later' : List ℕ)
    → length (as_bytes a) < 2 ^ 64
    → length (as_bytes b) < 2 ^ 64
    → length xs < 2 ^ 64
    → length ys < 2 ^ 64
    → framed a xs ++ later ≡ framed b ys ++ later'
    → (a ≡ b) × (xs ≡ ys) × (later ≡ later')
framed_inj a b xs ys later later' pa pb px py e =
    let (names, rest) =
      measured_inj (as_bytes a) (as_bytes b) _ _ pa pb
        (sym (framed-laid_out a xs later) ∙ e ∙ framed-laid_out b ys later') in
    let (contents, others) = measured_inj xs ys later later' px py rest in
    (as_bytes_inj a b names, contents, others)

-- The entries with what is read of them.
abbrev pub Settled : List (Material × List ℕ) → Type 0
Settled entries = All (λ e. IsSettled e.0 e.1) entries

abbrev pub shipped : List (Material × List ℕ) → List (String × List ℕ)
shipped entries = map (λ e. (e.0.destination, e.1)) entries

joined : List (Material × List ℕ) → List ℕ
joined [] = []
joined (e ∷ rest) = framed e.0.destination e.1 ++ joined rest

hash_entries-framed :
    (entries : List (Material × List ℕ)) (bytes : List ℕ)
    → Settled entries
    → hash_entries (map (λ e. e.0) entries) ≡ ok bytes
    → bytes ≡ joined entries
unfolding hash_entries joined
hash_entries-framed [] bytes h e = ground arith
hash_entries-framed ((m, contents) ∷ rest) bytes (s, h) e =
    let (first, hashed, e1) = >>=-eq-ok (hash_entry m) _ e in
    let (later, others, e2) = >>=-eq-ok (hash_entries (map (λ e. e.0) rest)) _ e1 in
    let whole : first ++ later ≡ bytes = ground arith in
    sym whole
    ∙ ap₂ ◌++◌ (hash_entry-framed m contents first s hashed)
        (hash_entries-framed rest later h others)

joined_inj :
    (xs ys : List (Material × List ℕ))
    → Settled xs
    → Settled ys
    → joined xs ≡ joined ys
    → shipped xs ≡ shipped ys
unfolding joined to_le_bytes
joined_inj [] [] h k e = refl
joined_inj [] (y ∷ ys) h k e = cc
joined_inj (x ∷ xs) [] h k e = cc
joined_inj ((m, c) ∷ xs) ((n, d) ∷ ys) (s, h) (t, k) e =
    let (names, contents, rest) =
      framed_inj m.destination n.destination c d (joined xs) (joined ys) s.name_size t.name_size
        s.size t.size e in
    ap₂ ◌∷◌ (ap₂ (λ a b. (a, b)) names contents) (joined_inj xs ys h k rest)

-- The hasher's input, behind the build file, determines what the image holds: two lists of entries with
-- the same input have the same destinations with the same contents, in the same order, so no shift of
-- bytes between a name, a file and its neighbour goes unnoticed. Files are as long as is reported.
pub hash_entries_inj :
    (xs ys : List (Material × List ℕ)) (bytes : List ℕ)
    → Settled xs
    → Settled ys
    → hash_entries (map (λ e. e.0) xs) ≡ ok bytes
    → hash_entries (map (λ e. e.0) ys) ≡ ok bytes
    → shipped xs ≡ shipped ys
hash_entries_inj xs ys bytes h k hx hy =
    joined_inj xs ys h k
      (sym (hash_entries-framed xs bytes h hx) ∙ hash_entries-framed ys bytes k hy)
