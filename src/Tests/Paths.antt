-- ===== src/Tests/Paths.antt =====
-- A path of two names.
use libopod.Base.{ℕ, ◌≤◌, ◌≡◌, refl, false, List, [], ◌∷◌, ◌++◌, arith}
use libopod.Base.Lists.{length}
use libopod.Error.{ok}
use libopod.IpodPath.{
  IpodPath, has, split, components, validate, validate_component, validate_components, new,
  max_path_bytes,
}
use libopod.IpodPath.Accepted.{join, walk, new-walk}
use libopod.IpodPath.Portable.{new-join}

abbrev device : List ℕ
device = b'D' ∷ b'e' ∷ b'v' ∷ []

abbrev file : List ℕ
file = b'f' ∷ b'.' ∷ []

abbrev device_file : List ℕ
device_file = device ++ (b'/' ∷ file)

accepts : new device_file ≡ ok (record { text = device_file })
unfolding new validate validate_components validate_component split
accepts = refl

new-walk_example :
    (join (components (record { text = device_file })) ≡ device_file)
    × (length device_file ≤ max_path_bytes)
    × (has b'\\' device_file ≡ false)
    × (has b':' device_file ≡ false)
    × (has 0 device_file ≡ false)
    × ((inside : List (List ℕ)) × (walk (device ∷ []) (components (record { text = device_file }))
          ≡ inside ++ (device ∷ []))
        × (length inside ≡ length (components (record { text = device_file }))))
new-walk_example = new-walk device_file (device ∷ []) accepts

new-join_example : (p : IpodPath) × (new device_file ≡ ok p) × (components p ≡ device ∷ file ∷ [])
new-join_example =
    new-join device (file ∷ []) (refl, (refl, tt)) (refl, (refl, tt)) (refl, (refl, tt))
      (refl, (refl, tt)) ((omega arith, omega arith, refl), ((omega arith, omega arith, refl), tt))
      (omega arith)
