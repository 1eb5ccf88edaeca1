-- ===== src/IpodPath/Portable.antt =====
-- Every portable sequence of names is a path that `IpodPath::new` accepts.
use libopod.Base.{ℕ, ◌<◌, ◌≤◌, ◌≡◌, refl, ap, ◌∙◌, false, List, [], ◌∷◌, ◌++◌, arith}
use libopod.Base.Tests.{le→leb, ◌==◌}
use libopod.Base.Lists.{length}
use libopod.Error.{ok}
use libopod.IpodPath.{
  IpodPath, has, is_dots, is_empty, push_first, split, components, starts_with, validate,
  validate_component, validate_components, new, max_path_bytes, max_component_bytes,
}
use libopod.IpodPath.Accepted.{join}

-- no name has the byte
abbrev pub AllLack : ℕ → List (List ℕ) → Type 0
AllLack x [] = Unit {0}
AllLack x (c ∷ cs) = (has x c ≡ false) × AllLack x cs

-- no name is empty, too long, `.` or `..`
abbrev pub AllNamed : List (List ℕ) → Type 0
AllNamed [] = Unit {0}
AllNamed (c ∷ cs) =
    ((0 < length c) × (length c ≤ max_component_bytes) × (is_dots c ≡ false)) × AllNamed cs

has-append : (x : ℕ) (c d : List ℕ) → has x c ≡ false → has x d ≡ false → has x (c ++ d) ≡ false
has-append x [] d h k = k
has-append x (b ∷ bs) d h k =
    let rest : has x bs ≡ false = ground arith in
    let first : (b == x) ≡ false = ground arith in rw (first) (has-append x bs d rest k)

has-join :
    (x : ℕ) (cs : List (List ℕ)) → (b'/' == x) ≡ false → AllLack x cs → has x (join cs) ≡ false
has-join x [] h l = refl
has-join x (c ∷ []) h l = l.0
has-join x (c ∷ d ∷ cs) h l =
    has-append x c (b'/' ∷ join (d ∷ cs)) l.0 (rw (h) (has-join x (d ∷ cs) h l.1))

split_name : (c : List ℕ) → has b'/' c ≡ false → split c ≡ c ∷ []
unfolding split
split_name [] h = refl
split_name (b ∷ bs) h =
    let rest : has b'/' bs ≡ false = ground arith in
    let first : (b == b'/') ≡ false = ground arith in
    rw (first) (ap (push_first b) (split_name bs rest))

split_slash : (c rest : List ℕ) → has b'/' c ≡ false → split (c ++ (b'/' ∷ rest)) ≡ c ∷ split rest
unfolding split
split_slash [] rest h = refl
split_slash (b ∷ bs) rest h =
    let tail : has b'/' bs ≡ false = ground arith in
    let first : (b == b'/') ≡ false = ground arith in
    rw (first) (ap (push_first b) (split_slash bs rest tail))

split-join :
    (c : List ℕ) (cs : List (List ℕ)) → AllLack b'/' (c ∷ cs) → split (join (c ∷ cs)) ≡ c ∷ cs
split-join c [] l = split_name c l.0
split-join c (d ∷ cs) l = split_slash c (join (d ∷ cs)) l.0 ∙ ap (λ t. c ∷ t) (split-join d cs l.1)

AllNamed-validate : (cs : List (List ℕ)) → AllNamed cs → validate_components cs ≡ ok tt
unfolding validate_components validate_component
AllNamed-validate [] n = refl
AllNamed-validate ([] ∷ cs) n = absurd (omega (arith, n.0.0))
AllNamed-validate ((b ∷ bs) ∷ cs) n =
    let rest = AllNamed-validate cs n.1 in ground (arith, rest, n.0)

starts_join :
    (c : List ℕ) (cs : List (List ℕ))
    → 0 < length c
    → has b'/' c ≡ false
    → (is_empty (join (c ∷ cs)) ≡ false) × (starts_with b'/' (join (c ∷ cs)) ≡ false)
starts_join [] cs h l = absurd (omega arith)
starts_join (b ∷ bs) [] h l = (refl, ground arith)
starts_join (b ∷ bs) (d ∷ cs) h l = (refl, ground arith)

-- A sequence of names, joined by slashes, is a path that `IpodPath::new` accepts, with these names
-- as its components: where there is one name at least, none has a slash, a backslash, a colon or a
-- zero, none is empty, `.`, `..` or longer than 255 bytes, and the path has at most 4096 bytes.
pub new-join :
    (c : List ℕ) (cs : List (List ℕ))
    → AllLack b'/' (c ∷ cs)
    → AllLack b'\\' (c ∷ cs)
    → AllLack b':' (c ∷ cs)
    → AllLack 0 (c ∷ cs)
    → AllNamed (c ∷ cs)
    → length (join (c ∷ cs)) ≤ max_path_bytes
    → (p : IpodPath) × (new (join (c ∷ cs)) ≡ ok p) × (components p ≡ c ∷ cs)
unfolding new validate components
new-join c cs slash backslash colon nul named short =
    let cut = split-join c cs slash in
    let head = starts_join c cs named.0.0 slash.0 in
    let b = has-join b'\\' (c ∷ cs) refl backslash in
    let l = has-join b':' (c ∷ cs) refl colon in
    let z = has-join 0 (c ∷ cs) refl nul in
    let fits = le→leb (length (join (c ∷ cs))) max_path_bytes short in
    (
      record { text = join (c ∷ cs) },
      rw (head.0, fits, head.1, b, l, z, cut, AllNamed-validate (c ∷ cs) named),
      cut,
    )
