-- ===== src/IpodPath.antt =====
-- src/fs/ipod_path.rs: a path is the list of its UTF-8 bytes. The bytes that the code looks for are
-- ASCII, so they stand in no longer character, and a cut at one of them is a cut of the text.
pub mod Accepted
pub mod Portable
use libopod.Base.{ℕ, Bool, true, false, ◌||◌, not, List, [], ◌∷◌}
use libopod.Base.Tests.{leb, ◌==◌, if◌then◌else◌}
use libopod.Base.Lists.{length, any}
use libopod.Error.{
  Result, ok, err, Error, PathFault, invalid_ipod_path, path_empty, path_too_long, path_absolute,
  path_backslash, path_colon, path_nul, component_empty, component_dots, component_too_long, ◌>>=◌,
  ◌>>◌, ensure,
}
use libopod.Cdb.Chunk.{eq_bytes}

abbrev pub max_path_bytes : ℕ
max_path_bytes = 4096

abbrev pub max_component_bytes : ℕ
max_component_bytes = 255

pub record IpodPath : Type 0 where
  pub text : List ℕ

-- `path.contains(c)`
abbrev pub has : ℕ → List ℕ → Bool
has c path = any (λ b. b == c) path

abbrev pub is_empty : List ℕ → Bool
is_empty [] = true
is_empty (b ∷ bs) = false

abbrev pub starts_with : ℕ → List ℕ → Bool
starts_with c [] = false
starts_with c (b ∷ bs) = b == c

abbrev pub push_first : ℕ → List (List ℕ) → List (List ℕ)
push_first b [] = (b ∷ []) ∷ []
push_first b (c ∷ cs) = (b ∷ c) ∷ cs

-- `path.split('/')`
unfoldable pub split : List ℕ → List (List ℕ)
split [] = [] ∷ []
split (b ∷ bs) = let rest = split bs in if b == b'/' then [] ∷ rest else push_first b rest

unfoldable pub components : IpodPath → List (List ℕ)
unfolding split
components path = split path.text

-- `matches!(component, "." | "..")`
abbrev pub is_dots : List ℕ → Bool
is_dots c = eq_bytes c (b'.' ∷ []) || eq_bytes c (b'.' ∷ b'.' ∷ [])

unfoldable pub validate_component : List ℕ → Result (Unit {0})
validate_component component = do
  ensure (not (is_empty component)) (invalid_ipod_path component_empty)
  ensure (not (is_dots component)) (invalid_ipod_path component_dots)
  ensure (leb (length component) max_component_bytes) (invalid_ipod_path component_too_long)

-- the loop over the components
unfoldable pub validate_components : List (List ℕ) → Result (Unit {0})
unfolding validate_component
validate_components [] = ok tt
validate_components (c ∷ cs) = validate_component c >> validate_components cs

unfoldable pub validate : List ℕ → Result (Unit {0})
unfolding validate_components split
validate path = do
  ensure (not (is_empty path)) (invalid_ipod_path path_empty)
  ensure (leb (length path) max_path_bytes) (invalid_ipod_path path_too_long)
  ensure (not (starts_with b'/' path)) (invalid_ipod_path path_absolute)
  ensure (not (has b'\\' path)) (invalid_ipod_path path_backslash)
  ensure (not (has b':' path)) (invalid_ipod_path path_colon)
  ensure (not (has 0 path)) (invalid_ipod_path path_nul)
  validate_components (split path)

-- `IpodPath::new(path)`
unfoldable pub new : List ℕ → Result IpodPath
unfolding validate
new path = validate path >> ok (record { text = path })
