-- ===== src/IpodPath/Accepted.antt =====
-- The paths that `IpodPath::new` accepts.
use libopod.Base.{
  ℕ, ◌<◌, ◌≤◌, inl, inr, ◌≡◌, refl, sym, ap, ◌∙◌, false, ◌||◌, List, [], ◌∷◌, ◌++◌, append_assoc,
  arith,
}
use libopod.Cdb.Chunk.{eq_bytes}
use libopod.Base.Tests.{==_iff, Bool-cases, ◌==◌, if◌then◌else◌}
use libopod.Base.Lists.{length, length-append}
use libopod.Error.{ok, >>=-eq-ok}
use libopod.IpodPath.{
  IpodPath, has, is_empty, push_first, split, components, validate, validate_component,
  validate_components, new, max_path_bytes, max_component_bytes,
}

-- the components with a slash between each two
abbrev pub join : List (List ℕ) → List ℕ
join [] = []
join (c ∷ []) = c
join (c ∷ d ∷ cs) = c ++ (b'/' ∷ join (d ∷ cs))

join-push_first : (b : ℕ) (cs : List (List ℕ)) → join (push_first b cs) ≡ b ∷ join cs
join-push_first b [] = refl
join-push_first b (c ∷ []) = refl
join-push_first b (c ∷ d ∷ cs) = refl

join-empty : (cs : List (List ℕ)) → 0 < length cs → join ([] ∷ cs) ≡ b'/' ∷ join cs
join-empty [] h = absurd (omega arith)
join-empty (d ∷ ds) h = refl

split_cons-nonempty :
    (b : ℕ) (rest : List (List ℕ)) → 0 < length (if b == b'/' then [] ∷ rest else push_first b rest)
split_cons-nonempty b [] = ground arith
split_cons-nonempty b (c ∷ cs) = ground arith

split-nonempty : (bs : List ℕ) → 0 < length (split bs)
unfolding split
split-nonempty [] = omega arith
split-nonempty (b ∷ bs) = split_cons-nonempty b (split bs)

join-split_cons :
    (b : ℕ) (bs : List ℕ) (rest : List (List ℕ))
    → 0 < length rest
    → join rest ≡ bs
    → join (if b == b'/' then [] ∷ rest else push_first b rest) ≡ b ∷ bs
join-split_cons b bs rest h e = elim (Bool-cases (b == b'/')) [
  | inl slash ↦ rw (slash, (==_iff b b'/').0 slash) (join-empty rest h ∙ ap (λ t. b'/' ∷ t) e)
  | inr other ↦ rw (other) (join-push_first b rest ∙ ap (λ t. b ∷ t) e)
]

pub join-split : (bs : List ℕ) → join (split bs) ≡ bs
unfolding split
join-split [] = refl
join-split (b ∷ bs) = join-split_cons b bs (split bs) (split-nonempty bs) (join-split bs)

-- What a directory walk makes of the components, with the innermost directory first: an empty
-- component and `.` stay, `..` goes up, any other goes down.
abbrev pub pop : List (List ℕ) → List (List ℕ)
pop [] = []
pop (d ∷ ds) = ds

abbrev pub enter : List (List ℕ) → List ℕ → List (List ℕ)
enter at c =
    if is_empty c || eq_bytes c (b'.' ∷ [])
    then at
    else (if eq_bytes c (b'.' ∷ b'.' ∷ []) then pop at else c ∷ at)

abbrev pub walk : List (List ℕ) → List (List ℕ) → List (List ℕ)
walk at [] = at
walk at (c ∷ cs) = walk (enter at c) cs

validate_component-enter :
    (at : List (List ℕ)) (c : List ℕ)
    → validate_component c ≡ ok tt
    → (enter at c ≡ c ∷ at) × (length c ≤ max_component_bytes)
unfolding validate_component
validate_component-enter at c e = ground arith

-- a walk over validated components goes one directory down for each
walk_down :
    (at : List (List ℕ)) (cs : List (List ℕ))
    → validate_components cs ≡ ok tt
    → (inside : List (List ℕ)) × (walk at cs ≡ inside ++ at) × (length inside ≡ length cs)
unfolding validate_components
walk_down at [] e = ([], refl, refl)
walk_down at (c ∷ cs) e =
    let (_, good, rest) = >>=-eq-ok (validate_component c) _ e in
    let (inside, same, long) = walk_down (c ∷ at) cs rest in
    let entered = (validate_component-enter at c good).0 in
    (
      inside ++ (c ∷ []),
      ap (λ t. walk t cs) entered ∙ same ∙ sym (append_assoc inside (c ∷ []) at),
      length-append inside (c ∷ []) ∙ omega (arith, long),
    )

new_inv :
    (path : List ℕ) {p : IpodPath}
    → new path ≡ ok p
    → (p.text ≡ path)
      × (length path ≤ max_path_bytes)
      × (has b'\\' path ≡ false)
      × (has b':' path ≡ false)
      × (has 0 path ≡ false)
      × (validate_components (split path) ≡ ok tt)
unfolding new validate
new_inv path {p} e = ground arith

-- A path that `IpodPath::new` accepts is kept byte for byte: its components with a slash between
-- each two are the path. It has at most 4096 bytes, and none of them a backslash, a colon or a
-- zero. A directory walk over its components, from any directory, ends below that directory, one
-- level for each component.
pub new-walk :
    (path : List ℕ) (root : List (List ℕ)) {p : IpodPath}
    → new path ≡ ok p
    → (join (components p) ≡ path)
      × (length path ≤ max_path_bytes)
      × (has b'\\' path ≡ false)
      × (has b':' path ≡ false)
      × (has 0 path ≡ false)
      × ((inside : List (List ℕ)) × (walk root (components p) ≡ inside ++ root)
          × (length inside ≡ length (components p)))
unfolding components
new-walk path root {p} e =
    let (same, short, backslash, colon, nul, passed) = new_inv path e in
    rw (same) (join-split path, short, backslash, colon, nul, walk_down root (split path) passed)
