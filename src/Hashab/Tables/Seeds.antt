-- ===== src/Hashab/Tables/Seeds.antt =====
-- src/crypto/hashab/tables.rs: the initial words of the reduction.
use libopod.Base.{ℕ, List, [], ◌∷◌}

unfoldable pub key_seed : List ℕ
key_seed =
    0x5099fdb1 ∷ 0x9bbf4349 ∷ 0x5cd7686c ∷ 0x92aebb6d ∷ 0x2df36af2 ∷ 0x552f4079 ∷ 0x219dfeae
    ∷ 0x343eb35a ∷ 0x5dac0284 ∷ 0x91bae1f7 ∷ 0x64ec9d83 ∷ 0xa2ff04aa ∷ 0x46df36ef ∷ 0xd0d7ebdc
    ∷ 0xf334c68d ∷ 0x99a81ecf ∷ 0x8a85f4e4 ∷ 0xb96ef2ae ∷ 0x2e132f59 ∷ 0x91d1d6ee ∷ 0x73628eaa
    ∷ 0x7bfcd2c8 ∷ 0xcbc8db84 ∷ 0x2c358ebb ∷ 0xcdce075f ∷ 0x096dddf4 ∷ 0xf86bae65 ∷ 0xb408b83c
    ∷ 0x3aa5ae3b ∷ 0xef04fe54 ∷ 0xcbae433f ∷ 0xbafb26c5 ∷ 0x546e42be ∷ 0x694466f8 ∷ 0xc0141741
    ∷ 0x51fb98d5 ∷ 0x6a53c93d ∷ 0x784b88bc ∷ 0xe689e637 ∷ 0x720cffaf ∷ 0x3fb860f4 ∷ 0x1d78ec71
    ∷ 0xa8a5ae0b ∷ 0x6eeaa5b8 ∷ 0x4fd82294 ∷ 0xa61ea409 ∷ 0x3919851c ∷ 0x577402c5 ∷ 0xe8b09ca2
    ∷ 0x11676e33 ∷ 0xfa7fa4ec ∷ 0x707bcd8d ∷ 0x52c20d40 ∷ 0x734b0bfb ∷ 0x744241ff ∷ 0x089fb6e0
    ∷ 0xe1cea850 ∷ 0xa91e1a9a ∷ 0x9e9db0f3 ∷ 0x6fedd35b ∷ 0xee066a04 ∷ 0x178a973a ∷ 0x00aa4e6f
    ∷ 0xf2994295 ∷ []

unfoldable pub state_seed : List ℕ
state_seed =
    0xf825e4f8 ∷ 0x202997a3 ∷ 0x65055cfe ∷ 0xd588806b ∷ 0x9a396a74 ∷ 0x210d95d7 ∷ 0x760fa7a5
    ∷ 0x5b85496a ∷ 0x65ad1cb7 ∷ 0xd93ce632 ∷ 0xb44bfe86 ∷ 0x97e5e021 ∷ 0x774af9ea ∷ 0xfed3b7c5
    ∷ 0x0d36b3e5 ∷ 0x7d7242ac ∷ 0x648df3be ∷ 0xfda267a7 ∷ 0x0abf3e91 ∷ 0xea9d68c3 ∷ 0xb9de0b6e
    ∷ 0xd4b020aa ∷ 0x2af3296f ∷ 0xb5bd052c ∷ 0xb0b3bf8e ∷ 0x4b3d7bfe ∷ 0xfd689550 ∷ 0xc3c8d629
    ∷ 0xf1683297 ∷ 0x70e73403 ∷ 0x7b681b65 ∷ 0x4c566e07 ∷ 0x9d39df6e ∷ 0x7ced44ca ∷ 0xd85121e1
    ∷ 0x8f89dab8 ∷ 0x49d5dcd4 ∷ 0x630a3cdd ∷ 0xa43cd850 ∷ 0xe05011fa ∷ 0xc79a3eb2 ∷ 0xe5912da3
    ∷ 0x4683718c ∷ 0xd0a154f1 ∷ 0x9c6aec15 ∷ 0x0e0d0468 ∷ 0x27de8990 ∷ 0x412adb3d ∷ 0xf8775990
    ∷ 0xe5e21243 ∷ 0xc753f819 ∷ 0x0663c6ef ∷ 0x93c9d773 ∷ 0xab28ffff ∷ 0x5204a510 ∷ 0x11a9d2c5
    ∷ 0x6ec18106 ∷ 0x20ea572e ∷ 0x6fe51b3a ∷ 0x6e812c3d ∷ 0x014b907b ∷ 0x5c86830b ∷ 0x9934a3d8
    ∷ 0x3c57d8a8 ∷ []

unfoldable pub reduce_table : List ℕ
reduce_table =
    0x3dd3c06d ∷ 0x02eda8fb ∷ 0xb82d5a58 ∷ 0xe4d2adec ∷ 0x5c66b0d9 ∷ 0x5a4f2459 ∷ 0x08da381e
    ∷ 0x35ba3a4c ∷ 0xa86bb294 ∷ 0xfb7fc66a ∷ 0xf53a25f2 ∷ 0x5dfe38f1 ∷ 0x6cb6b4af ∷ 0xebeb4c63
    ∷ 0x66209bd7 ∷ 0x29271b4e ∷ 0x7a91205b ∷ 0x7993f4f5 ∷ 0x8fb73ed6 ∷ 0x974262cd ∷ 0xf47cab3b
    ∷ 0x757b65cc ∷ 0x92e55b93 ∷ 0xfa401668 ∷ 0xe8f42bcc ∷ 0xa1796665 ∷ 0xc544210e ∷ 0x4ff7d275
    ∷ 0x1090b646 ∷ 0xad8b53cb ∷ 0x7c871580 ∷ 0x67fb52d6 ∷ 0x5ae5b9a1 ∷ 0x69becb2c ∷ 0xd2b974af
    ∷ 0xb709f90d ∷ 0x95671e5b ∷ 0x2479e36e ∷ 0x305facbd ∷ 0xd7524214 ∷ 0xd7f29e79 ∷ 0x30cf42db
    ∷ 0x86bad405 ∷ 0x370d4cb9 ∷ 0xaf348764 ∷ 0xc5ea190b ∷ 0x06b2f0c7 ∷ 0x62ecaf33 ∷ 0x59f1cee3
    ∷ 0xf7f35186 ∷ 0xf89d98cf ∷ 0x1c9e3527 ∷ 0x31e62b5c ∷ 0x89851e84 ∷ 0x9d67e93a ∷ 0xec33dc26
    ∷ 0x913bca92 ∷ 0x92f8982e ∷ 0x5f160f82 ∷ 0x2691b03f ∷ 0x433589fd ∷ 0x18d97e1a ∷ 0xba586b58
    ∷ 0x8907cb75 ∷ []
