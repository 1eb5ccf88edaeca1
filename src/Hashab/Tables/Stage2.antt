-- ===== src/Hashab/Tables/Stage2.antt =====
-- src/crypto/hashab/tables.rs: the maps, the round tables and the key schedule of the second cipher stage.
use libopod.Base.{ℕ, List, [], ◌∷◌}

unfoldable pub stage2_input_map : List ℕ
stage2_input_map =
    0x35 ∷ 0x0d ∷ 0x3c ∷ 0x1e ∷ 0xb2 ∷ 0x30 ∷ 0x01 ∷ 0x23 ∷ 0xe5 ∷ 0x4a ∷ 0x7b ∷ 0x59 ∷ 0xf5 ∷ 0x77
    ∷ 0x46 ∷ 0x64 ∷ 0xa2 ∷ 0x6d ∷ 0x82 ∷ 0xe3 ∷ 0x0c ∷ 0x50 ∷ 0xbf ∷ 0xb4 ∷ 0x5b ∷ 0x2a ∷ 0xc5
    ∷ 0xa4 ∷ 0x4b ∷ 0x17 ∷ 0xf8 ∷ 0xf3 ∷ 0x1c ∷ 0xd3 ∷ 0x7f ∷ 0x5d ∷ 0x6c ∷ 0xee ∷ 0x28 ∷ 0x0a
    ∷ 0x3b ∷ 0x94 ∷ 0x38 ∷ 0x1a ∷ 0x2b ∷ 0xa9 ∷ 0x6f ∷ 0x4d ∷ 0x7c ∷ 0x2e ∷ 0xc1 ∷ 0x3d ∷ 0xd2
    ∷ 0x79 ∷ 0x96 ∷ 0x6a ∷ 0x85 ∷ 0x69 ∷ 0x86 ∷ 0x7a ∷ 0x95 ∷ 0x3e ∷ 0xd1 ∷ 0x2d ∷ 0xc2 ∷ 0x90
    ∷ 0xa1 ∷ 0x83 ∷ 0x45 ∷ 0xc7 ∷ 0xf6 ∷ 0xd4 ∷ 0x78 ∷ 0xd7 ∷ 0xe6 ∷ 0xc4 ∷ 0x02 ∷ 0x80 ∷ 0xb1
    ∷ 0x93 ∷ 0x3f ∷ 0xf0 ∷ 0x1f ∷ 0x14 ∷ 0xfb ∷ 0xa7 ∷ 0x48 ∷ 0x29 ∷ 0xc6 ∷ 0xb7 ∷ 0x58 ∷ 0x53
    ∷ 0xbc ∷ 0xe0 ∷ 0x0f ∷ 0x6e ∷ 0x81 ∷ 0x4e ∷ 0x88 ∷ 0xaa ∷ 0x9b ∷ 0x19 ∷ 0xb5 ∷ 0x97 ∷ 0xa6
    ∷ 0x09 ∷ 0xcf ∷ 0xed ∷ 0xdc ∷ 0x5e ∷ 0xf2 ∷ 0xd0 ∷ 0xe1 ∷ 0xd9 ∷ 0x36 ∷ 0xca ∷ 0x25 ∷ 0xe4
    ∷ 0x0b ∷ 0xf7 ∷ 0x18 ∷ 0x9e ∷ 0x71 ∷ 0x8d ∷ 0x62 ∷ 0xa3 ∷ 0x4c ∷ 0xb0 ∷ 0x5f ∷ 0x67 ∷ 0x56
    ∷ 0x74 ∷ 0xd8 ∷ 0x5a ∷ 0x6b ∷ 0x49 ∷ 0x8f ∷ 0x20 ∷ 0x11 ∷ 0x33 ∷ 0x9f ∷ 0x1d ∷ 0x2c ∷ 0x0e
    ∷ 0xc8 ∷ 0x07 ∷ 0xe8 ∷ 0x89 ∷ 0x66 ∷ 0x3a ∷ 0xd5 ∷ 0xde ∷ 0x31 ∷ 0x40 ∷ 0xaf ∷ 0xce ∷ 0x21
    ∷ 0x7d ∷ 0x92 ∷ 0x99 ∷ 0x76 ∷ 0xb9 ∷ 0x15 ∷ 0x37 ∷ 0x06 ∷ 0x84 ∷ 0x42 ∷ 0x60 ∷ 0x51 ∷ 0xfe
    ∷ 0x52 ∷ 0x70 ∷ 0x41 ∷ 0xc3 ∷ 0x05 ∷ 0x27 ∷ 0x16 ∷ 0x44 ∷ 0xab ∷ 0x57 ∷ 0xb8 ∷ 0x13 ∷ 0xfc
    ∷ 0x00 ∷ 0xef ∷ 0x03 ∷ 0xec ∷ 0x10 ∷ 0xff ∷ 0x54 ∷ 0xbb ∷ 0x47 ∷ 0xa8 ∷ 0xfa ∷ 0xcb ∷ 0xe9
    ∷ 0x2f ∷ 0xad ∷ 0x9c ∷ 0xbe ∷ 0x12 ∷ 0xbd ∷ 0x8c ∷ 0xae ∷ 0x68 ∷ 0xea ∷ 0xdb ∷ 0xf9 ∷ 0x55
    ∷ 0x9a ∷ 0x75 ∷ 0x7e ∷ 0x91 ∷ 0xcd ∷ 0x22 ∷ 0x43 ∷ 0xac ∷ 0xdd ∷ 0x32 ∷ 0x39 ∷ 0xd6 ∷ 0x8a
    ∷ 0x65 ∷ 0x04 ∷ 0xeb ∷ 0x24 ∷ 0xe2 ∷ 0xc0 ∷ 0xf1 ∷ 0x73 ∷ 0xdf ∷ 0xfd ∷ 0xcc ∷ 0x63 ∷ 0xa5
    ∷ 0x87 ∷ 0xb6 ∷ 0x34 ∷ 0x98 ∷ 0xba ∷ 0x8b ∷ 0xb3 ∷ 0x5c ∷ 0xa0 ∷ 0x4f ∷ 0x8e ∷ 0x61 ∷ 0x9d
    ∷ 0x72 ∷ 0xf4 ∷ 0x1b ∷ 0xe7 ∷ 0x08 ∷ 0xc9 ∷ 0x26 ∷ 0xda ∷ []

unfoldable pub stage2_final_map : List ℕ
stage2_final_map =
    0xcd ∷ 0x6e ∷ 0x86 ∷ 0x8c ∷ 0x3d ∷ 0xf0 ∷ 0xef ∷ 0x96 ∷ 0xdd ∷ 0x85 ∷ 0x80 ∷ 0x69 ∷ 0xb2 ∷ 0xa0
    ∷ 0x3f ∷ 0x6b ∷ 0x41 ∷ 0x8d ∷ 0x1d ∷ 0x2b ∷ 0x1f ∷ 0xb1 ∷ 0x6c ∷ 0x0b ∷ 0x76 ∷ 0x75 ∷ 0xa7
    ∷ 0xc5 ∷ 0xec ∷ 0xb3 ∷ 0x42 ∷ 0xe0 ∷ 0xda ∷ 0x4e ∷ 0x67 ∷ 0xb7 ∷ 0xb8 ∷ 0x9b ∷ 0x46 ∷ 0x35
    ∷ 0xed ∷ 0x2d ∷ 0x88 ∷ 0xf6 ∷ 0x90 ∷ 0x1e ∷ 0x27 ∷ 0xfb ∷ 0xad ∷ 0x6f ∷ 0x21 ∷ 0x5f ∷ 0x26
    ∷ 0x62 ∷ 0x30 ∷ 0x99 ∷ 0x59 ∷ 0x71 ∷ 0x68 ∷ 0x02 ∷ 0x1a ∷ 0xf7 ∷ 0x28 ∷ 0x92 ∷ 0x18 ∷ 0x87
    ∷ 0xeb ∷ 0x0f ∷ 0x73 ∷ 0x9c ∷ 0x24 ∷ 0xdc ∷ 0xb4 ∷ 0xd9 ∷ 0x5a ∷ 0xfd ∷ 0x40 ∷ 0xd0 ∷ 0x05
    ∷ 0x91 ∷ 0x1c ∷ 0xc9 ∷ 0xbf ∷ 0x3e ∷ 0xae ∷ 0x9e ∷ 0xe7 ∷ 0xbe ∷ 0xc0 ∷ 0xfa ∷ 0x51 ∷ 0xfc
    ∷ 0x84 ∷ 0xa8 ∷ 0x3b ∷ 0xf2 ∷ 0xb0 ∷ 0x13 ∷ 0x10 ∷ 0x60 ∷ 0xf4 ∷ 0x55 ∷ 0xc3 ∷ 0x72 ∷ 0x2e
    ∷ 0xc8 ∷ 0x19 ∷ 0x5c ∷ 0xca ∷ 0x22 ∷ 0x7d ∷ 0xe4 ∷ 0xd1 ∷ 0x53 ∷ 0xf3 ∷ 0x8a ∷ 0xce ∷ 0xab
    ∷ 0x93 ∷ 0x77 ∷ 0x04 ∷ 0x45 ∷ 0x08 ∷ 0x83 ∷ 0xba ∷ 0xd6 ∷ 0xa1 ∷ 0x5d ∷ 0xaf ∷ 0xbb ∷ 0x48
    ∷ 0x32 ∷ 0xff ∷ 0xac ∷ 0xa4 ∷ 0xa9 ∷ 0x8e ∷ 0x29 ∷ 0x78 ∷ 0x98 ∷ 0x38 ∷ 0x17 ∷ 0x44 ∷ 0x06
    ∷ 0xd5 ∷ 0x61 ∷ 0xbd ∷ 0xe1 ∷ 0xf9 ∷ 0x9a ∷ 0x50 ∷ 0x03 ∷ 0x7b ∷ 0x3c ∷ 0x0d ∷ 0xa5 ∷ 0xbc
    ∷ 0xd2 ∷ 0x0c ∷ 0x66 ∷ 0x94 ∷ 0xb5 ∷ 0x1b ∷ 0xe8 ∷ 0xfe ∷ 0xe3 ∷ 0x31 ∷ 0x56 ∷ 0x00 ∷ 0xc4
    ∷ 0x7f ∷ 0xee ∷ 0x4d ∷ 0x0e ∷ 0xde ∷ 0x79 ∷ 0xaa ∷ 0xd8 ∷ 0x7e ∷ 0xd3 ∷ 0x5b ∷ 0x5e ∷ 0x15
    ∷ 0x49 ∷ 0xa6 ∷ 0x6d ∷ 0x2f ∷ 0x6a ∷ 0x20 ∷ 0x97 ∷ 0x8f ∷ 0x52 ∷ 0x7c ∷ 0xc6 ∷ 0x4f ∷ 0x57
    ∷ 0x4c ∷ 0xf1 ∷ 0x12 ∷ 0x89 ∷ 0x58 ∷ 0x07 ∷ 0x63 ∷ 0x7a ∷ 0x9d ∷ 0x2c ∷ 0x47 ∷ 0x70 ∷ 0x37
    ∷ 0x3a ∷ 0xc7 ∷ 0xa2 ∷ 0x25 ∷ 0x2a ∷ 0x4a ∷ 0xcc ∷ 0x74 ∷ 0xb6 ∷ 0x95 ∷ 0x81 ∷ 0x0a ∷ 0xc2
    ∷ 0xd7 ∷ 0x14 ∷ 0xdf ∷ 0xd4 ∷ 0x82 ∷ 0xe9 ∷ 0xea ∷ 0x8b ∷ 0xc1 ∷ 0x39 ∷ 0x23 ∷ 0x11 ∷ 0x64
    ∷ 0xb9 ∷ 0xcb ∷ 0xf8 ∷ 0xe5 ∷ 0xe6 ∷ 0xf5 ∷ 0x43 ∷ 0x01 ∷ 0x33 ∷ 0x65 ∷ 0x9f ∷ 0x36 ∷ 0xcf
    ∷ 0x09 ∷ 0x16 ∷ 0xa3 ∷ 0xe2 ∷ 0x34 ∷ 0x4b ∷ 0x54 ∷ 0xdb ∷ []

unfoldable pub stage2_output_map : List ℕ
stage2_output_map =
    0x36 ∷ 0xd1 ∷ 0xff ∷ 0x50 ∷ 0xae ∷ 0xc9 ∷ 0x07 ∷ 0xd8 ∷ 0xcf ∷ 0x20 ∷ 0xc6 ∷ 0x61 ∷ 0x97 ∷ 0x68
    ∷ 0x7e ∷ 0x99 ∷ 0x3a ∷ 0x55 ∷ 0x7b ∷ 0x4c ∷ 0x82 ∷ 0x1d ∷ 0xb3 ∷ 0x04 ∷ 0x4b ∷ 0x1c ∷ 0xca
    ∷ 0xe5 ∷ 0x43 ∷ 0x94 ∷ 0x52 ∷ 0xed ∷ 0x40 ∷ 0x6f ∷ 0xc1 ∷ 0xa6 ∷ 0x48 ∷ 0xf7 ∷ 0x39 ∷ 0x9e
    ∷ 0xf1 ∷ 0xd6 ∷ 0xb0 ∷ 0xdf ∷ 0xa9 ∷ 0x0e ∷ 0x78 ∷ 0x27 ∷ 0xbc ∷ 0x6b ∷ 0xc5 ∷ 0x2a ∷ 0xf4
    ∷ 0x23 ∷ 0x0d ∷ 0xf2 ∷ 0xf5 ∷ 0x5a ∷ 0x2c ∷ 0xdb ∷ 0x7d ∷ 0x62 ∷ 0x24 ∷ 0x53 ∷ 0x30 ∷ 0x5f
    ∷ 0x71 ∷ 0x56 ∷ 0xf8 ∷ 0xa7 ∷ 0x29 ∷ 0x8e ∷ 0x41 ∷ 0x26 ∷ 0xc0 ∷ 0xef ∷ 0xb9 ∷ 0x1e ∷ 0xc8
    ∷ 0x77 ∷ 0xac ∷ 0x5b ∷ 0x75 ∷ 0xda ∷ 0xa4 ∷ 0xd3 ∷ 0xfd ∷ 0xe2 ∷ 0x45 ∷ 0xaa ∷ 0x3c ∷ 0xeb
    ∷ 0x8d ∷ 0x72 ∷ 0x74 ∷ 0xa3 ∷ 0x46 ∷ 0xe1 ∷ 0x4f ∷ 0xa0 ∷ 0xfe ∷ 0x19 ∷ 0x17 ∷ 0xe8 ∷ 0x7f
    ∷ 0xd0 ∷ 0xb6 ∷ 0x51 ∷ 0x87 ∷ 0x58 ∷ 0x2e ∷ 0x49 ∷ 0x4a ∷ 0x65 ∷ 0xcb ∷ 0x9c ∷ 0xd2 ∷ 0x6d
    ∷ 0xc3 ∷ 0x14 ∷ 0xfb ∷ 0xcc ∷ 0xba ∷ 0xd5 ∷ 0x33 ∷ 0x84 ∷ 0x02 ∷ 0x9d ∷ 0xd4 ∷ 0x03 ∷ 0x2d
    ∷ 0x12 ∷ 0xdc ∷ 0x8b ∷ 0xa5 ∷ 0x0a ∷ 0x5d ∷ 0x42 ∷ 0x44 ∷ 0x73 ∷ 0x15 ∷ 0x7a ∷ 0x0c ∷ 0xbb
    ∷ 0x28 ∷ 0xd7 ∷ 0x59 ∷ 0xbe ∷ 0x60 ∷ 0x8f ∷ 0xa1 ∷ 0x86 ∷ 0x89 ∷ 0xee ∷ 0x98 ∷ 0x47 ∷ 0x11
    ∷ 0xf6 ∷ 0x90 ∷ 0xbf ∷ 0xa2 ∷ 0x3d ∷ 0x93 ∷ 0xe4 ∷ 0x1a ∷ 0x35 ∷ 0x9b ∷ 0x6c ∷ 0x63 ∷ 0xb4
    ∷ 0x32 ∷ 0xcd ∷ 0x2b ∷ 0xfc ∷ 0xea ∷ 0x05 ∷ 0xce ∷ 0xe9 ∷ 0xe7 ∷ 0xb8 ∷ 0x16 ∷ 0xb1 ∷ 0x1f
    ∷ 0x70 ∷ 0xb7 ∷ 0x88 ∷ 0x5e ∷ 0x79 ∷ 0xaf ∷ 0x00 ∷ 0xe6 ∷ 0x81 ∷ 0xb2 ∷ 0x4d ∷ 0xe3 ∷ 0x34
    ∷ 0x6a ∷ 0x85 ∷ 0xab ∷ 0x7c ∷ 0x13 ∷ 0x64 ∷ 0x22 ∷ 0xbd ∷ 0x1b ∷ 0xec ∷ 0x9a ∷ 0xb5 ∷ 0xde
    ∷ 0xf9 ∷ 0x37 ∷ 0x08 ∷ 0x66 ∷ 0x01 ∷ 0x2f ∷ 0x80 ∷ 0x67 ∷ 0x38 ∷ 0x4e ∷ 0x69 ∷ 0x9f ∷ 0xf0
    ∷ 0x96 ∷ 0x31 ∷ 0xc4 ∷ 0xf3 ∷ 0xdd ∷ 0xc2 ∷ 0x8c ∷ 0x3b ∷ 0x95 ∷ 0xfa ∷ 0xad ∷ 0x92 ∷ 0x54
    ∷ 0x83 ∷ 0x25 ∷ 0x8a ∷ 0x5c ∷ 0x0b ∷ 0x18 ∷ 0xc7 ∷ 0x09 ∷ 0x6e ∷ 0x10 ∷ 0x3f ∷ 0x91 ∷ 0x76
    ∷ 0xd9 ∷ 0x3e ∷ 0xa8 ∷ 0x57 ∷ 0x21 ∷ 0x06 ∷ 0xe0 ∷ 0x0f ∷ []

unfoldable pub stage2_round_base : List ℕ
stage2_round_base =
    0xf5 ∷ 0xed ∷ 0x73 ∷ 0xf9 ∷ 0x12 ∷ 0x16 ∷ 0x8f ∷ 0x8a ∷ 0x0c ∷ 0xa1 ∷ 0xb2 ∷ 0xf4 ∷ 0xaf ∷ 0xac
    ∷ 0x18 ∷ 0x7e ∷ 0xbe ∷ 0xc6 ∷ 0x62 ∷ 0x4d ∷ 0x68 ∷ 0x1a ∷ 0xe7 ∷ 0x3d ∷ 0x94 ∷ 0x58 ∷ 0x3c
    ∷ 0xcf ∷ 0xba ∷ 0x90 ∷ 0x0b ∷ 0x9f ∷ 0x95 ∷ 0x9d ∷ 0x52 ∷ 0xc5 ∷ 0x5c ∷ 0x99 ∷ 0x1d ∷ 0x6b
    ∷ 0x85 ∷ 0xeb ∷ 0xd5 ∷ 0xc9 ∷ 0x55 ∷ 0x57 ∷ 0x61 ∷ 0xda ∷ 0xb6 ∷ 0xd2 ∷ 0xce ∷ 0x5b ∷ 0x5e
    ∷ 0x48 ∷ 0x78 ∷ 0x13 ∷ 0x7d ∷ 0x74 ∷ 0xcb ∷ 0x65 ∷ 0xfb ∷ 0xf6 ∷ 0xf8 ∷ 0xdf ∷ 0x71 ∷ 0x4c
    ∷ 0x23 ∷ 0x91 ∷ 0xfe ∷ 0x00 ∷ 0xdd ∷ 0x33 ∷ 0x09 ∷ 0x20 ∷ 0xc8 ∷ 0x7c ∷ 0x81 ∷ 0x66 ∷ 0xfc
    ∷ 0x6a ∷ 0x5d ∷ 0xd9 ∷ 0x45 ∷ 0x27 ∷ 0x83 ∷ 0x0a ∷ 0x0f ∷ 0x7a ∷ 0xdc ∷ 0xe5 ∷ 0x04 ∷ 0x43
    ∷ 0x9e ∷ 0xa5 ∷ 0xb4 ∷ 0x9c ∷ 0x25 ∷ 0xbd ∷ 0x08 ∷ 0xc2 ∷ 0x3a ∷ 0x28 ∷ 0x69 ∷ 0xc1 ∷ 0xde
    ∷ 0xe6 ∷ 0x4e ∷ 0x6e ∷ 0x6c ∷ 0x7b ∷ 0x21 ∷ 0xb3 ∷ 0x59 ∷ 0x8e ∷ 0xa3 ∷ 0x5f ∷ 0xc0 ∷ 0x10
    ∷ 0xe0 ∷ 0xab ∷ 0xc3 ∷ 0x92 ∷ 0x88 ∷ 0x07 ∷ 0xd6 ∷ 0xb9 ∷ 0x93 ∷ 0x51 ∷ 0xbc ∷ 0xe9 ∷ 0xbb
    ∷ 0xf2 ∷ 0x76 ∷ 0x89 ∷ 0x80 ∷ 0x9a ∷ 0xf3 ∷ 0xc7 ∷ 0x32 ∷ 0x2c ∷ 0x01 ∷ 0xe8 ∷ 0xad ∷ 0x2e
    ∷ 0x75 ∷ 0xfd ∷ 0x4f ∷ 0xa0 ∷ 0x50 ∷ 0xa6 ∷ 0x3b ∷ 0x5a ∷ 0x87 ∷ 0x2d ∷ 0x9b ∷ 0xbf ∷ 0x70
    ∷ 0xec ∷ 0xa4 ∷ 0x6d ∷ 0x79 ∷ 0x36 ∷ 0xc4 ∷ 0x96 ∷ 0x49 ∷ 0x2a ∷ 0x47 ∷ 0xe4 ∷ 0xef ∷ 0xf0
    ∷ 0x2b ∷ 0xb0 ∷ 0xa8 ∷ 0xae ∷ 0x39 ∷ 0x0d ∷ 0x2f ∷ 0x1f ∷ 0x14 ∷ 0xd3 ∷ 0xf7 ∷ 0x64 ∷ 0x1b
    ∷ 0x84 ∷ 0x03 ∷ 0xd8 ∷ 0xe1 ∷ 0x41 ∷ 0xf1 ∷ 0xb5 ∷ 0xcc ∷ 0xb1 ∷ 0x1e ∷ 0x40 ∷ 0xa2 ∷ 0xdb
    ∷ 0x97 ∷ 0x29 ∷ 0x82 ∷ 0xea ∷ 0x42 ∷ 0x11 ∷ 0x77 ∷ 0xb8 ∷ 0x3f ∷ 0xd4 ∷ 0x22 ∷ 0x4b ∷ 0x98
    ∷ 0x8b ∷ 0x7f ∷ 0x26 ∷ 0xe2 ∷ 0x72 ∷ 0x31 ∷ 0xca ∷ 0x67 ∷ 0xfa ∷ 0x46 ∷ 0x8d ∷ 0x02 ∷ 0x56
    ∷ 0x86 ∷ 0x24 ∷ 0x06 ∷ 0x4a ∷ 0x38 ∷ 0xa9 ∷ 0x1c ∷ 0x60 ∷ 0xe3 ∷ 0x3e ∷ 0x44 ∷ 0x37 ∷ 0xee
    ∷ 0x63 ∷ 0x53 ∷ 0x6f ∷ 0x8c ∷ 0x30 ∷ 0x05 ∷ 0x34 ∷ 0xd0 ∷ 0xcd ∷ 0xd1 ∷ 0x35 ∷ 0xa7 ∷ 0xff
    ∷ 0xb7 ∷ 0xd7 ∷ 0x19 ∷ 0x15 ∷ 0x54 ∷ 0x0e ∷ 0x17 ∷ 0xaa ∷ []

unfoldable pub stage2_round_affine : List ℕ
stage2_round_affine =
    0x85 ∷ 0xa4 ∷ 0x92 ∷ 0x5d ∷ 0x9c ∷ 0xb3 ∷ 0xc5 ∷ 0x56 ∷ 0x08 ∷ 0xb0 ∷ 0xa4 ∷ 0x92 ∷ 0x5d ∷ 0x9c
    ∷ 0xb3 ∷ 0xc5 ∷ 0x56 ∷ 0x08 ∷ 0xd6 ∷ 0xa5 ∷ 0x90 ∷ 0x59 ∷ 0x94 ∷ 0xa3 ∷ 0xe5 ∷ 0x16 ∷ 0x88
    ∷ 0x75 ∷ 0xa5 ∷ 0x90 ∷ 0x59 ∷ 0x94 ∷ 0xa3 ∷ 0xe5 ∷ 0x16 ∷ 0x88 ∷ 0x5e ∷ 0x01 ∷ 0x02 ∷ 0x04
    ∷ 0x08 ∷ 0x10 ∷ 0x20 ∷ 0x40 ∷ 0x80 ∷ 0x18 ∷ 0xa4 ∷ 0x92 ∷ 0x5d ∷ 0x9c ∷ 0xb3 ∷ 0xc5 ∷ 0x56
    ∷ 0x08 ∷ 0x21 ∷ 0xa4 ∷ 0x92 ∷ 0x5d ∷ 0x9c ∷ 0xb3 ∷ 0xc5 ∷ 0x56 ∷ 0x08 ∷ 0x9d ∷ 0xa4 ∷ 0x92
    ∷ 0x5d ∷ 0x9c ∷ 0xb3 ∷ 0xc5 ∷ 0x56 ∷ 0x08 ∷ 0x54 ∷ 0xa5 ∷ 0x90 ∷ 0x59 ∷ 0x94 ∷ 0xa3 ∷ 0xe5
    ∷ 0x16 ∷ 0x88 ∷ 0xd0 ∷ 0x01 ∷ 0x02 ∷ 0x04 ∷ 0x08 ∷ 0x10 ∷ 0x20 ∷ 0x40 ∷ 0x80 ∷ 0xd4 ∷ 0xa4
    ∷ 0x92 ∷ 0x5d ∷ 0x9c ∷ 0xb3 ∷ 0xc5 ∷ 0x56 ∷ 0x08 ∷ 0xcb ∷ 0xa4 ∷ 0x92 ∷ 0x5d ∷ 0x9c ∷ 0xb3
    ∷ 0xc5 ∷ 0x56 ∷ 0x08 ∷ 0xac ∷ 0xa4 ∷ 0x92 ∷ 0x5d ∷ 0x9c ∷ 0xb3 ∷ 0xc5 ∷ 0x56 ∷ 0x08 ∷ 0x5b
    ∷ 0xa5 ∷ 0x90 ∷ 0x59 ∷ 0x94 ∷ 0xa3 ∷ 0xe5 ∷ 0x16 ∷ 0x88 ∷ 0x00 ∷ 0x01 ∷ 0x02 ∷ 0x04 ∷ 0x08
    ∷ 0x10 ∷ 0x20 ∷ 0x40 ∷ 0x80 ∷ []

unfoldable pub stage2_schedule : List ℕ
stage2_schedule =
    0x42 ∷ 0x27 ∷ 0x0e ∷ 0xb8 ∷ 0xa6 ∷ 0x9e ∷ 0x0d ∷ 0xd8 ∷ 0x77 ∷ 0x54 ∷ 0xa8 ∷ 0x16 ∷ 0xae ∷ 0xb3
    ∷ 0x57 ∷ 0x13 ∷ 0xb8 ∷ 0x14 ∷ 0x2c ∷ 0xc5 ∷ 0x1e ∷ 0x8a ∷ 0x21 ∷ 0x1d ∷ 0x69 ∷ 0xde ∷ 0x89
    ∷ 0x0b ∷ 0xc7 ∷ 0x6d ∷ 0xde ∷ 0x18 ∷ 0x4d ∷ 0x48 ∷ 0x5e ∷ 0xf3 ∷ 0x53 ∷ 0xc2 ∷ 0x7f ∷ 0xee
    ∷ 0x3a ∷ 0x1c ∷ 0xf6 ∷ 0xe5 ∷ 0xfd ∷ 0x71 ∷ 0x28 ∷ 0xfd ∷ 0xc0 ∷ 0xfb ∷ 0x46 ∷ 0xeb ∷ 0x93
    ∷ 0x39 ∷ 0x39 ∷ 0x05 ∷ 0xa9 ∷ 0x25 ∷ 0xcf ∷ 0xe0 ∷ 0x54 ∷ 0x54 ∷ 0xe7 ∷ 0x1d ∷ 0xd4 ∷ 0x18
    ∷ 0xef ∷ 0xd2 ∷ 0x47 ∷ 0x21 ∷ 0xd6 ∷ 0xd7 ∷ 0xee ∷ 0x04 ∷ 0x19 ∷ 0x37 ∷ 0xba ∷ 0x50 ∷ 0xfe
    ∷ 0x2a ∷ 0x39 ∷ 0x28 ∷ 0x47 ∷ 0x74 ∷ 0x7e ∷ 0x09 ∷ 0x91 ∷ 0xa3 ∷ 0x90 ∷ 0x0d ∷ 0x88 ∷ 0x94
    ∷ 0x2a ∷ 0x5d ∷ 0x76 ∷ 0xbe ∷ 0xfe ∷ 0x5b ∷ 0x50 ∷ 0xdc ∷ 0x80 ∷ 0x52 ∷ 0xc1 ∷ 0x7f ∷ 0x10
    ∷ 0x5f ∷ 0x49 ∷ 0xeb ∷ 0x3a ∷ 0x02 ∷ 0x3f ∷ 0x55 ∷ 0x2c ∷ 0xa5 ∷ 0xd1 ∷ 0x99 ∷ 0xac ∷ 0xf7
    ∷ 0x10 ∷ 0xe6 ∷ 0xbc ∷ 0xa8 ∷ 0x59 ∷ 0x0d ∷ 0x86 ∷ 0xaa ∷ 0x66 ∷ 0x58 ∷ 0x9a ∷ 0xc7 ∷ 0x5d
    ∷ 0x1d ∷ 0x36 ∷ 0x30 ∷ 0x4d ∷ 0xfb ∷ 0x8a ∷ 0x98 ∷ 0x14 ∷ 0xf6 ∷ 0x0c ∷ 0x32 ∷ 0x72 ∷ 0xae
    ∷ 0x6b ∷ 0xe7 ∷ 0x20 ∷ 0x59 ∷ 0x5d ∷ 0xd7 ∷ 0x6d ∷ 0xa2 ∷ 0xd7 ∷ 0x4f ∷ 0x79 ∷ 0x54 ∷ 0xdb
    ∷ 0x7d ∷ 0x0b ∷ 0xfa ∷ 0x42 ∷ 0xf6 ∷ 0x70 ∷ 0x5c ∷ 0x1f ∷ 0x21 ∷ 0x1d ∷ 0xfe ∷ 0xc8 ∷ 0x6e
    ∷ 0x64 ∷ 0xaa ∷ 0x13 ∷ 0x13 ∷ 0x6f ∷ 0x50 ∷ []
