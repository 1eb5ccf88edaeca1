-- ===== src/Hashab/Tables/Stage1.antt =====
-- src/crypto/hashab/tables.rs: the maps, the round tables and the key schedule of the first cipher stage.
use libopod.Base.{ℕ, List, [], ◌∷◌}

unfoldable pub stage1_input_map : List ℕ
stage1_input_map =
    0x6e ∷ 0x04 ∷ 0x46 ∷ 0xb4 ∷ 0xdc ∷ 0xcc ∷ 0xf4 ∷ 0xf8 ∷ 0xc4 ∷ 0x29 ∷ 0xa7 ∷ 0x4a ∷ 0x76 ∷ 0x7a
    ∷ 0x42 ∷ 0x52 ∷ 0x3a ∷ 0xc8 ∷ 0x8a ∷ 0xe0 ∷ 0x58 ∷ 0xcf ∷ 0xe8 ∷ 0x34 ∷ 0x90 ∷ 0x7d ∷ 0xa4
    ∷ 0x56 ∷ 0x75 ∷ 0x2e ∷ 0x16 ∷ 0x9e ∷ 0x26 ∷ 0xcb ∷ 0x0e ∷ 0xe3 ∷ 0x94 ∷ 0x03 ∷ 0xbc ∷ 0xb0
    ∷ 0x93 ∷ 0x61 ∷ 0x68 ∷ 0x02 ∷ 0x21 ∷ 0x2d ∷ 0x0a ∷ 0x9d ∷ 0x72 ∷ 0x9f ∷ 0xc2 ∷ 0x2f ∷ 0x97
    ∷ 0x87 ∷ 0xbf ∷ 0x7c ∷ 0x5f ∷ 0x35 ∷ 0xec ∷ 0x01 ∷ 0x3d ∷ 0xe1 ∷ 0x5e ∷ 0xc9 ∷ 0x71 ∷ 0x83
    ∷ 0xc1 ∷ 0xab ∷ 0xc3 ∷ 0x4b ∷ 0x73 ∷ 0x7f ∷ 0xdb ∷ 0x36 ∷ 0x20 ∷ 0xcd ∷ 0x69 ∷ 0x65 ∷ 0x5d
    ∷ 0xd5 ∷ 0xbd ∷ 0xd7 ∷ 0x95 ∷ 0x67 ∷ 0xdf ∷ 0x48 ∷ 0xf7 ∷ 0x2b ∷ 0x17 ∷ 0xfa ∷ 0x23 ∷ 0x49
    ∷ 0x6a ∷ 0xa9 ∷ 0x91 ∷ 0x81 ∷ 0x39 ∷ 0xd4 ∷ 0x89 ∷ 0x64 ∷ 0x8b ∷ 0x1c ∷ 0x3b ∷ 0x37 ∷ 0x14
    ∷ 0x7e ∷ 0x77 ∷ 0x85 ∷ 0xa6 ∷ 0xaa ∷ 0x15 ∷ 0x82 ∷ 0xf5 ∷ 0x18 ∷ 0xdd ∷ 0x30 ∷ 0x88 ∷ 0x00
    ∷ 0x38 ∷ 0x63 ∷ 0x40 ∷ 0xb2 ∷ 0x6b ∷ 0x86 ∷ 0x22 ∷ 0xfe ∷ 0xd9 ∷ 0x4e ∷ 0xf6 ∷ 0x9c ∷ 0xde
    ∷ 0x2c ∷ 0x44 ∷ 0x54 ∷ 0x6c ∷ 0x60 ∷ 0x5c ∷ 0xb1 ∷ 0x3f ∷ 0xd2 ∷ 0xee ∷ 0xe2 ∷ 0xda ∷ 0xca
    ∷ 0xa2 ∷ 0x50 ∷ 0x12 ∷ 0x78 ∷ 0xc0 ∷ 0x57 ∷ 0x70 ∷ 0xac ∷ 0x08 ∷ 0xe5 ∷ 0x3c ∷ 0xce ∷ 0xed
    ∷ 0xb6 ∷ 0x8e ∷ 0x06 ∷ 0xbe ∷ 0x53 ∷ 0x96 ∷ 0x7b ∷ 0x0c ∷ 0x9b ∷ 0x24 ∷ 0x28 ∷ 0x0b ∷ 0xf9
    ∷ 0xf0 ∷ 0x9a ∷ 0xb9 ∷ 0xb5 ∷ 0x92 ∷ 0x05 ∷ 0xea ∷ 0x07 ∷ 0x5a ∷ 0xb7 ∷ 0x0f ∷ 0x1f ∷ 0x27
    ∷ 0xe4 ∷ 0xc7 ∷ 0xad ∷ 0x74 ∷ 0x99 ∷ 0xa5 ∷ 0x79 ∷ 0xc6 ∷ 0x51 ∷ 0xe9 ∷ 0x1b ∷ 0x59 ∷ 0x33
    ∷ 0x5b ∷ 0xd3 ∷ 0xeb ∷ 0xe7 ∷ 0x43 ∷ 0xae ∷ 0xb8 ∷ 0x55 ∷ 0xf1 ∷ 0xfd ∷ 0xc5 ∷ 0x4d ∷ 0x25
    ∷ 0x4f ∷ 0x0d ∷ 0xff ∷ 0x47 ∷ 0xd0 ∷ 0x6f ∷ 0xb3 ∷ 0x8f ∷ 0x62 ∷ 0xbb ∷ 0xd1 ∷ 0xf2 ∷ 0x31
    ∷ 0x09 ∷ 0x19 ∷ 0xa1 ∷ 0x4c ∷ 0x11 ∷ 0xfc ∷ 0x13 ∷ 0x84 ∷ 0xa3 ∷ 0xaf ∷ 0x8c ∷ 0xe6 ∷ 0xef
    ∷ 0x1d ∷ 0x3e ∷ 0x32 ∷ 0x8d ∷ 0x1a ∷ 0x6d ∷ 0x80 ∷ 0x45 ∷ 0xa8 ∷ 0x10 ∷ 0x98 ∷ 0xa0 ∷ 0xfb
    ∷ 0xd8 ∷ 0x2a ∷ 0xf3 ∷ 0x1e ∷ 0xba ∷ 0x66 ∷ 0x41 ∷ 0xd6 ∷ []

unfoldable pub stage1_final_map : List ℕ
stage1_final_map =
    0x13 ∷ 0x4c ∷ 0xd8 ∷ 0x88 ∷ 0xbe ∷ 0x65 ∷ 0x9c ∷ 0x43 ∷ 0x9f ∷ 0xf6 ∷ 0xf1 ∷ 0xe6 ∷ 0x07 ∷ 0x42
    ∷ 0xc8 ∷ 0x04 ∷ 0xa8 ∷ 0xca ∷ 0x05 ∷ 0x7a ∷ 0x2c ∷ 0x4a ∷ 0xbc ∷ 0xe7 ∷ 0x5a ∷ 0xba ∷ 0x21
    ∷ 0x3c ∷ 0xa2 ∷ 0x84 ∷ 0x53 ∷ 0xfd ∷ 0x80 ∷ 0xf0 ∷ 0x2e ∷ 0xe3 ∷ 0x9b ∷ 0x7c ∷ 0x66 ∷ 0x82
    ∷ 0xa0 ∷ 0xf2 ∷ 0x0a ∷ 0x8e ∷ 0xfb ∷ 0xc9 ∷ 0xb4 ∷ 0xb1 ∷ 0xab ∷ 0x61 ∷ 0xa3 ∷ 0x76 ∷ 0x5b
    ∷ 0x63 ∷ 0x32 ∷ 0x10 ∷ 0x49 ∷ 0x97 ∷ 0x3e ∷ 0xd6 ∷ 0x41 ∷ 0x38 ∷ 0x03 ∷ 0x87 ∷ 0xb0 ∷ 0x2a
    ∷ 0x79 ∷ 0xe5 ∷ 0x1c ∷ 0x2b ∷ 0xee ∷ 0x75 ∷ 0xcd ∷ 0x3d ∷ 0x29 ∷ 0x86 ∷ 0x55 ∷ 0xaa ∷ 0x16
    ∷ 0xbf ∷ 0xea ∷ 0xb6 ∷ 0xa4 ∷ 0x6d ∷ 0x33 ∷ 0x2d ∷ 0x6b ∷ 0xc6 ∷ 0x15 ∷ 0x74 ∷ 0x60 ∷ 0x30
    ∷ 0x01 ∷ 0x54 ∷ 0x1d ∷ 0xe1 ∷ 0x12 ∷ 0x7b ∷ 0xcf ∷ 0xed ∷ 0x6f ∷ 0xae ∷ 0x50 ∷ 0x09 ∷ 0x9a
    ∷ 0x4f ∷ 0x0f ∷ 0x5d ∷ 0xd0 ∷ 0x20 ∷ 0x96 ∷ 0x52 ∷ 0x69 ∷ 0x46 ∷ 0xff ∷ 0xb7 ∷ 0x51 ∷ 0x81
    ∷ 0xac ∷ 0x4e ∷ 0x92 ∷ 0x5e ∷ 0x1b ∷ 0x45 ∷ 0xd1 ∷ 0x62 ∷ 0x47 ∷ 0xbb ∷ 0xcc ∷ 0xc2 ∷ 0x7d
    ∷ 0xb8 ∷ 0xad ∷ 0x70 ∷ 0x0c ∷ 0x73 ∷ 0xeb ∷ 0x18 ∷ 0xb5 ∷ 0xb3 ∷ 0xf7 ∷ 0x68 ∷ 0x9d ∷ 0x31
    ∷ 0x0b ∷ 0xe0 ∷ 0x4b ∷ 0x83 ∷ 0x6c ∷ 0xdf ∷ 0x71 ∷ 0x48 ∷ 0xc0 ∷ 0xc4 ∷ 0x3f ∷ 0x17 ∷ 0xdd
    ∷ 0x91 ∷ 0x34 ∷ 0x6e ∷ 0x00 ∷ 0x7f ∷ 0x35 ∷ 0x3a ∷ 0x85 ∷ 0xd5 ∷ 0xc7 ∷ 0xfc ∷ 0xc1 ∷ 0xdc
    ∷ 0xa6 ∷ 0xa9 ∷ 0x4d ∷ 0x95 ∷ 0x19 ∷ 0x99 ∷ 0x67 ∷ 0xe2 ∷ 0x36 ∷ 0x22 ∷ 0x90 ∷ 0x77 ∷ 0x26
    ∷ 0xd7 ∷ 0x64 ∷ 0x37 ∷ 0x8a ∷ 0x1e ∷ 0x6a ∷ 0x9e ∷ 0xf5 ∷ 0x5f ∷ 0x8b ∷ 0x25 ∷ 0xfe ∷ 0x27
    ∷ 0x8d ∷ 0x06 ∷ 0x2f ∷ 0x93 ∷ 0xf3 ∷ 0x5c ∷ 0x56 ∷ 0xf8 ∷ 0x78 ∷ 0xa7 ∷ 0xe4 ∷ 0xaf ∷ 0xa5
    ∷ 0xd3 ∷ 0xf4 ∷ 0xb9 ∷ 0x72 ∷ 0x1f ∷ 0x59 ∷ 0x02 ∷ 0xe8 ∷ 0x0e ∷ 0x23 ∷ 0xcb ∷ 0xce ∷ 0x0d
    ∷ 0x89 ∷ 0xef ∷ 0x1a ∷ 0xd4 ∷ 0x98 ∷ 0xde ∷ 0x3b ∷ 0x24 ∷ 0x28 ∷ 0xec ∷ 0x94 ∷ 0xc5 ∷ 0xd2
    ∷ 0xda ∷ 0x58 ∷ 0xd9 ∷ 0x08 ∷ 0xe9 ∷ 0x7e ∷ 0x40 ∷ 0x11 ∷ 0xfa ∷ 0x44 ∷ 0xb2 ∷ 0x8c ∷ 0x57
    ∷ 0xa1 ∷ 0x8f ∷ 0xbd ∷ 0x14 ∷ 0x39 ∷ 0xdb ∷ 0xc3 ∷ 0xf9 ∷ []

unfoldable pub stage1_output_map : List ℕ
stage1_output_map =
    0x9c ∷ 0xd6 ∷ 0x26 ∷ 0x2c ∷ 0x98 ∷ 0xda ∷ 0x2a ∷ 0x28 ∷ 0xdb ∷ 0x95 ∷ 0x05 ∷ 0x8b ∷ 0x57 ∷ 0x19
    ∷ 0x89 ∷ 0x07 ∷ 0xc7 ∷ 0xc9 ∷ 0x59 ∷ 0x17 ∷ 0xcb ∷ 0xc5 ∷ 0x55 ∷ 0x1b ∷ 0x68 ∷ 0xea ∷ 0x9a
    ∷ 0xd8 ∷ 0xec ∷ 0x66 ∷ 0x16 ∷ 0x5c ∷ 0x31 ∷ 0x3f ∷ 0xaf ∷ 0xe1 ∷ 0x3d ∷ 0x33 ∷ 0xa3 ∷ 0xed
    ∷ 0x72 ∷ 0x00 ∷ 0x50 ∷ 0x02 ∷ 0xfe ∷ 0x74 ∷ 0xc4 ∷ 0x8e ∷ 0x4e ∷ 0x04 ∷ 0xb4 ∷ 0xbe ∷ 0x42
    ∷ 0x10 ∷ 0xc0 ∷ 0xb2 ∷ 0x2d ∷ 0x63 ∷ 0xf3 ∷ 0x7d ∷ 0xa1 ∷ 0xef ∷ 0x7f ∷ 0xf1 ∷ 0x7b ∷ 0xf5
    ∷ 0xa5 ∷ 0xeb ∷ 0xf7 ∷ 0x79 ∷ 0x29 ∷ 0x67 ∷ 0x3c ∷ 0x36 ∷ 0xc6 ∷ 0x8c ∷ 0x38 ∷ 0x3a ∷ 0xca
    ∷ 0x88 ∷ 0xc8 ∷ 0x8a ∷ 0xfa ∷ 0x78 ∷ 0x4c ∷ 0x06 ∷ 0x76 ∷ 0xfc ∷ 0x27 ∷ 0x69 ∷ 0xb9 ∷ 0xb7
    ∷ 0x2b ∷ 0x65 ∷ 0xb5 ∷ 0xbb ∷ 0x12 ∷ 0x60 ∷ 0xf0 ∷ 0x62 ∷ 0x9e ∷ 0xd4 ∷ 0x64 ∷ 0xee ∷ 0xd1
    ∷ 0x9f ∷ 0x4f ∷ 0x41 ∷ 0xdd ∷ 0x93 ∷ 0x43 ∷ 0x4d ∷ 0x8d ∷ 0x03 ∷ 0x53 ∷ 0x1d ∷ 0x01 ∷ 0x8f
    ∷ 0xdf ∷ 0x91 ∷ 0xae ∷ 0xa4 ∷ 0x14 ∷ 0x5e ∷ 0xa2 ∷ 0xb0 ∷ 0x20 ∷ 0x52 ∷ 0xe8 ∷ 0x6a ∷ 0x1a
    ∷ 0x58 ∷ 0x6c ∷ 0xe6 ∷ 0x96 ∷ 0xdc ∷ 0x47 ∷ 0x49 ∷ 0xd9 ∷ 0x97 ∷ 0x4b ∷ 0x45 ∷ 0xd5 ∷ 0x9b
    ∷ 0x5b ∷ 0x15 ∷ 0x85 ∷ 0x0b ∷ 0xd7 ∷ 0x99 ∷ 0x09 ∷ 0x87 ∷ 0x1c ∷ 0x56 ∷ 0xa6 ∷ 0xac ∷ 0x18
    ∷ 0x5a ∷ 0xaa ∷ 0xa8 ∷ 0xad ∷ 0xe3 ∷ 0x73 ∷ 0xfd ∷ 0x21 ∷ 0x6f ∷ 0xff ∷ 0x71 ∷ 0xce ∷ 0x84
    ∷ 0x34 ∷ 0x3e ∷ 0xc2 ∷ 0x90 ∷ 0x40 ∷ 0x32 ∷ 0xf2 ∷ 0x80 ∷ 0xd0 ∷ 0x82 ∷ 0x7e ∷ 0xf4 ∷ 0x44
    ∷ 0x0e ∷ 0xb1 ∷ 0xbf ∷ 0x2f ∷ 0x61 ∷ 0xbd ∷ 0xb3 ∷ 0x23 ∷ 0x6d ∷ 0xa7 ∷ 0xe9 ∷ 0x39 ∷ 0x37
    ∷ 0xab ∷ 0xe5 ∷ 0x35 ∷ 0x3b ∷ 0x48 ∷ 0x0a ∷ 0x7a ∷ 0xf8 ∷ 0xcc ∷ 0x86 ∷ 0xf6 ∷ 0x7c ∷ 0xbc
    ∷ 0xb6 ∷ 0x46 ∷ 0x0c ∷ 0xb8 ∷ 0xba ∷ 0x4a ∷ 0x08 ∷ 0xfb ∷ 0x75 ∷ 0x25 ∷ 0x6b ∷ 0x77 ∷ 0xf9
    ∷ 0xa9 ∷ 0xe7 ∷ 0x2e ∷ 0x24 ∷ 0x94 ∷ 0xde ∷ 0x22 ∷ 0x30 ∷ 0xa0 ∷ 0xd2 ∷ 0x0d ∷ 0x83 ∷ 0xd3
    ∷ 0x9d ∷ 0x81 ∷ 0x0f ∷ 0x5f ∷ 0x11 ∷ 0x51 ∷ 0x1f ∷ 0xcf ∷ 0xc1 ∷ 0x5d ∷ 0x13 ∷ 0xc3 ∷ 0xcd
    ∷ 0x92 ∷ 0xe0 ∷ 0x70 ∷ 0xe2 ∷ 0x1e ∷ 0x54 ∷ 0xe4 ∷ 0x6e ∷ []

unfoldable pub stage1_round_base : List ℕ
stage1_round_base =
    0xb9 ∷ 0x97 ∷ 0x1b ∷ 0xfa ∷ 0x8b ∷ 0xf8 ∷ 0x88 ∷ 0xf5 ∷ 0x35 ∷ 0x2c ∷ 0xe3 ∷ 0xf7 ∷ 0x8d ∷ 0xdc
    ∷ 0xc0 ∷ 0xb8 ∷ 0x6d ∷ 0xc9 ∷ 0x91 ∷ 0x7b ∷ 0x3a ∷ 0x37 ∷ 0x1f ∷ 0xde ∷ 0xec ∷ 0xbf ∷ 0x6b
    ∷ 0xe1 ∷ 0xb5 ∷ 0x46 ∷ 0x83 ∷ 0x0c ∷ 0xef ∷ 0xca ∷ 0xae ∷ 0xa6 ∷ 0x01 ∷ 0xdb ∷ 0x09 ∷ 0xe6
    ∷ 0xbc ∷ 0xc3 ∷ 0x0d ∷ 0xc7 ∷ 0xac ∷ 0xe9 ∷ 0x59 ∷ 0xd9 ∷ 0x4d ∷ 0x51 ∷ 0x9c ∷ 0xd2 ∷ 0xc5
    ∷ 0x58 ∷ 0x07 ∷ 0x99 ∷ 0x17 ∷ 0xa8 ∷ 0x75 ∷ 0xbb ∷ 0xfc ∷ 0x48 ∷ 0x31 ∷ 0x73 ∷ 0xf0 ∷ 0x9a
    ∷ 0x5b ∷ 0x06 ∷ 0x76 ∷ 0xb3 ∷ 0x6a ∷ 0xb4 ∷ 0x40 ∷ 0xc8 ∷ 0xba ∷ 0x5a ∷ 0x23 ∷ 0x64 ∷ 0x7f
    ∷ 0xa2 ∷ 0x5e ∷ 0x16 ∷ 0x15 ∷ 0x29 ∷ 0x2e ∷ 0x13 ∷ 0x89 ∷ 0x60 ∷ 0x19 ∷ 0x9d ∷ 0x78 ∷ 0x0e
    ∷ 0x38 ∷ 0x0a ∷ 0x5f ∷ 0xaf ∷ 0x90 ∷ 0x52 ∷ 0xd4 ∷ 0xd7 ∷ 0xbd ∷ 0x50 ∷ 0xa3 ∷ 0x2d ∷ 0x28
    ∷ 0x2a ∷ 0x10 ∷ 0x65 ∷ 0x5d ∷ 0x42 ∷ 0x81 ∷ 0xaa ∷ 0x80 ∷ 0x9e ∷ 0x98 ∷ 0x3f ∷ 0x8a ∷ 0xc6
    ∷ 0xc4 ∷ 0x03 ∷ 0x6e ∷ 0xd8 ∷ 0xff ∷ 0x55 ∷ 0x74 ∷ 0x71 ∷ 0xb7 ∷ 0x96 ∷ 0x69 ∷ 0x22 ∷ 0xf2
    ∷ 0xb6 ∷ 0xed ∷ 0x34 ∷ 0xad ∷ 0x14 ∷ 0x77 ∷ 0xdf ∷ 0x70 ∷ 0xd0 ∷ 0x05 ∷ 0xa9 ∷ 0xa1 ∷ 0x27
    ∷ 0x24 ∷ 0x86 ∷ 0x1e ∷ 0xcf ∷ 0x00 ∷ 0x0f ∷ 0x1d ∷ 0x3e ∷ 0x2b ∷ 0x82 ∷ 0x5c ∷ 0x56 ∷ 0x9b
    ∷ 0x4e ∷ 0xa7 ∷ 0x94 ∷ 0x11 ∷ 0x66 ∷ 0x8e ∷ 0x41 ∷ 0x6f ∷ 0xdd ∷ 0x49 ∷ 0x25 ∷ 0x02 ∷ 0xb2
    ∷ 0xcd ∷ 0x44 ∷ 0xbe ∷ 0xe7 ∷ 0xf6 ∷ 0x08 ∷ 0x20 ∷ 0x8f ∷ 0xe8 ∷ 0x4b ∷ 0x67 ∷ 0xfb ∷ 0x33
    ∷ 0x92 ∷ 0xd1 ∷ 0xc1 ∷ 0xf3 ∷ 0xe2 ∷ 0xa0 ∷ 0x1c ∷ 0x4a ∷ 0xf1 ∷ 0xda ∷ 0xc2 ∷ 0xb1 ∷ 0x1a
    ∷ 0x7a ∷ 0xa4 ∷ 0x87 ∷ 0x47 ∷ 0xea ∷ 0x4c ∷ 0x45 ∷ 0x8c ∷ 0x72 ∷ 0xe4 ∷ 0x2f ∷ 0x79 ∷ 0x3c
    ∷ 0x7d ∷ 0x63 ∷ 0x9f ∷ 0x3d ∷ 0xcb ∷ 0xcc ∷ 0x18 ∷ 0x57 ∷ 0x39 ∷ 0x62 ∷ 0xe0 ∷ 0xfd ∷ 0x84
    ∷ 0xd3 ∷ 0x43 ∷ 0xd6 ∷ 0xf4 ∷ 0x21 ∷ 0x26 ∷ 0x68 ∷ 0xeb ∷ 0x93 ∷ 0xfe ∷ 0xce ∷ 0xab ∷ 0x54
    ∷ 0x12 ∷ 0xe5 ∷ 0x32 ∷ 0x04 ∷ 0x7e ∷ 0x4f ∷ 0xd5 ∷ 0xb0 ∷ 0x85 ∷ 0x7c ∷ 0xf9 ∷ 0x53 ∷ 0x6c
    ∷ 0x95 ∷ 0xee ∷ 0x36 ∷ 0x30 ∷ 0x61 ∷ 0x3b ∷ 0x0b ∷ 0xa5 ∷ []

unfoldable pub stage1_round_affine : List ℕ
stage1_round_affine =
    0xb0 ∷ 0x73 ∷ 0x5d ∷ 0x64 ∷ 0x75 ∷ 0xef ∷ 0x87 ∷ 0x21 ∷ 0x85 ∷ 0xe3 ∷ 0x73 ∷ 0x5d ∷ 0x64 ∷ 0x75
    ∷ 0xef ∷ 0x87 ∷ 0x21 ∷ 0x85 ∷ 0xe1 ∷ 0x72 ∷ 0x5f ∷ 0x60 ∷ 0x7d ∷ 0xff ∷ 0xa7 ∷ 0x61 ∷ 0x05
    ∷ 0x2f ∷ 0x72 ∷ 0x5f ∷ 0x60 ∷ 0x7d ∷ 0xff ∷ 0xa7 ∷ 0x61 ∷ 0x05 ∷ 0xa4 ∷ 0x01 ∷ 0x02 ∷ 0x04
    ∷ 0x08 ∷ 0x10 ∷ 0x20 ∷ 0x40 ∷ 0x80 ∷ 0x03 ∷ 0x73 ∷ 0x5d ∷ 0x64 ∷ 0x75 ∷ 0xef ∷ 0x87 ∷ 0x21
    ∷ 0x85 ∷ 0xd4 ∷ 0x73 ∷ 0x5d ∷ 0x64 ∷ 0x75 ∷ 0xef ∷ 0x87 ∷ 0x21 ∷ 0x85 ∷ 0x4e ∷ 0x73 ∷ 0x5d
    ∷ 0x64 ∷ 0x75 ∷ 0xef ∷ 0x87 ∷ 0x21 ∷ 0x85 ∷ 0x77 ∷ 0x72 ∷ 0x5f ∷ 0x60 ∷ 0x7d ∷ 0xff ∷ 0xa7
    ∷ 0x61 ∷ 0x05 ∷ 0x0c ∷ 0x01 ∷ 0x02 ∷ 0x04 ∷ 0x08 ∷ 0x10 ∷ 0x20 ∷ 0x40 ∷ 0x80 ∷ 0x00 ∷ 0x73
    ∷ 0x5d ∷ 0x64 ∷ 0x75 ∷ 0xef ∷ 0x87 ∷ 0x21 ∷ 0x85 ∷ 0xe9 ∷ 0x73 ∷ 0x5d ∷ 0x64 ∷ 0x75 ∷ 0xef
    ∷ 0x87 ∷ 0x21 ∷ 0x85 ∷ 0xeb ∷ 0x73 ∷ 0x5d ∷ 0x64 ∷ 0x75 ∷ 0xef ∷ 0x87 ∷ 0x21 ∷ 0x85 ∷ 0x64
    ∷ 0x72 ∷ 0x5f ∷ 0x60 ∷ 0x7d ∷ 0xff ∷ 0xa7 ∷ 0x61 ∷ 0x05 ∷ 0xbd ∷ 0x01 ∷ 0x02 ∷ 0x04 ∷ 0x08
    ∷ 0x10 ∷ 0x20 ∷ 0x40 ∷ 0x80 ∷ []

unfoldable pub stage1_schedule : List ℕ
stage1_schedule =
    0x23 ∷ 0x13 ∷ 0xad ∷ 0xee ∷ 0xf1 ∷ 0xd1 ∷ 0xf0 ∷ 0x0b ∷ 0xea ∷ 0x2b ∷ 0x5c ∷ 0x70 ∷ 0xf0 ∷ 0x47
    ∷ 0x0f ∷ 0x9f ∷ 0x5b ∷ 0xfd ∷ 0xe6 ∷ 0x16 ∷ 0xaa ∷ 0x2c ∷ 0x16 ∷ 0x1d ∷ 0x40 ∷ 0x07 ∷ 0x4a
    ∷ 0x6d ∷ 0xb0 ∷ 0x40 ∷ 0x45 ∷ 0xf2 ∷ 0x9a ∷ 0x86 ∷ 0xbe ∷ 0x6e ∷ 0x30 ∷ 0xaa ∷ 0xa8 ∷ 0x73
    ∷ 0x70 ∷ 0xad ∷ 0xe2 ∷ 0x1e ∷ 0xc0 ∷ 0xed ∷ 0xa7 ∷ 0xec ∷ 0xf2 ∷ 0x3b ∷ 0x34 ∷ 0x2a ∷ 0xc2
    ∷ 0x91 ∷ 0x9c ∷ 0x59 ∷ 0xb2 ∷ 0x3c ∷ 0x7e ∷ 0x47 ∷ 0x72 ∷ 0xd1 ∷ 0xd9 ∷ 0xab ∷ 0xca ∷ 0xbc
    ∷ 0xcf ∷ 0x5e ∷ 0x08 ∷ 0x2d ∷ 0x53 ∷ 0x07 ∷ 0xba ∷ 0x11 ∷ 0x2d ∷ 0x40 ∷ 0xc8 ∷ 0xc0 ∷ 0xf4
    ∷ 0xeb ∷ 0xc5 ∷ 0x09 ∷ 0xa1 ∷ 0x5c ∷ 0xcd ∷ 0x24 ∷ 0xf2 ∷ 0x5b ∷ 0x77 ∷ 0x35 ∷ 0xdf ∷ 0x1b
    ∷ 0xbf ∷ 0xf5 ∷ 0x2b ∷ 0xf0 ∷ 0x8c ∷ 0x6a ∷ 0x59 ∷ 0xee ∷ 0x41 ∷ 0x4e ∷ 0xab ∷ 0xb5 ∷ 0x36
    ∷ 0x7b ∷ 0x74 ∷ 0xae ∷ 0x89 ∷ 0x8e ∷ 0x5f ∷ 0x5e ∷ 0x6c ∷ 0x97 ∷ 0x44 ∷ 0x99 ∷ 0x2d ∷ 0xd9
    ∷ 0xef ∷ 0x2c ∷ 0x1b ∷ 0xa2 ∷ 0x9b ∷ 0x82 ∷ 0x92 ∷ 0x2c ∷ 0xc4 ∷ 0xdc ∷ 0x8a ∷ 0x8c ∷ 0x7c
    ∷ 0xa9 ∷ 0xa7 ∷ 0x55 ∷ 0x93 ∷ 0x85 ∷ 0xbc ∷ 0xf7 ∷ 0x08 ∷ 0x07 ∷ 0x2e ∷ 0xdb ∷ 0xcc ∷ 0xdb
    ∷ 0xcc ∷ 0x08 ∷ 0x82 ∷ 0xc9 ∷ 0x6b ∷ 0x5d ∷ 0x11 ∷ 0x4c ∷ 0xd7 ∷ 0xaa ∷ 0x19 ∷ 0x4b ∷ 0xf9
    ∷ 0x71 ∷ 0xd5 ∷ 0x90 ∷ 0x66 ∷ 0x64 ∷ 0xd7 ∷ 0x0f ∷ 0x0d ∷ 0x39 ∷ 0xc6 ∷ 0x43 ∷ 0xda ∷ 0x93
    ∷ 0xdf ∷ 0x08 ∷ 0x23 ∷ 0xe2 ∷ 0x0a ∷ 0x98 ∷ []

unfoldable pub stage1_initial_chain : List ℕ
stage1_initial_chain =
    0xfb ∷ 0xf0 ∷ 0xe5 ∷ 0x88 ∷ 0x1e ∷ 0x89 ∷ 0x74 ∷ 0xc9 ∷ 0x46 ∷ 0xb2 ∷ 0x5d ∷ 0x56 ∷ 0x03 ∷ 0xe5
    ∷ 0x7e ∷ 0xe4 ∷ []
