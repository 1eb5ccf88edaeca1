-- ===== src/Hashab/Tables/Bytes.antt =====
-- src/crypto/hashab/tables.rs: the four substitution tables of the hash.
use libopod.Base.{ℕ, List, [], ◌∷◌}

unfoldable pub hash_byte_table_0 : List ℕ
hash_byte_table_0 =
    0x41 ∷ 0xe9 ∷ 0x90 ∷ 0x48 ∷ 0x7a ∷ 0x4a ∷ 0x0b ∷ 0xae ∷ 0x92 ∷ 0x79 ∷ 0xbf ∷ 0x2d ∷ 0x46 ∷ 0x49
    ∷ 0x28 ∷ 0x51 ∷ 0x06 ∷ 0x75 ∷ 0x1d ∷ 0xce ∷ 0xa1 ∷ 0x18 ∷ 0x3e ∷ 0x5c ∷ 0x03 ∷ 0x5a ∷ 0x91
    ∷ 0x24 ∷ 0x56 ∷ 0xe1 ∷ 0x77 ∷ 0x47 ∷ 0x42 ∷ 0xa3 ∷ 0x78 ∷ 0x5f ∷ 0x8d ∷ 0x20 ∷ 0xdd ∷ 0x2b
    ∷ 0x40 ∷ 0x89 ∷ 0xd7 ∷ 0x15 ∷ 0x61 ∷ 0xde ∷ 0x27 ∷ 0x21 ∷ 0xdc ∷ 0x86 ∷ 0xfc ∷ 0x6c ∷ 0x97
    ∷ 0xea ∷ 0xb1 ∷ 0xbb ∷ 0xbd ∷ 0x71 ∷ 0xe0 ∷ 0x44 ∷ 0x87 ∷ 0x45 ∷ 0xf1 ∷ 0xb6 ∷ 0x6d ∷ 0x6a
    ∷ 0xf2 ∷ 0x38 ∷ 0x82 ∷ 0x76 ∷ 0xcf ∷ 0x8b ∷ 0x6f ∷ 0xc0 ∷ 0x55 ∷ 0x5e ∷ 0x57 ∷ 0xad ∷ 0xd2
    ∷ 0x99 ∷ 0x7f ∷ 0x2a ∷ 0x68 ∷ 0x25 ∷ 0xd4 ∷ 0xc6 ∷ 0x94 ∷ 0xdf ∷ 0x4f ∷ 0x04 ∷ 0xc4 ∷ 0x39
    ∷ 0xfb ∷ 0x80 ∷ 0x62 ∷ 0x84 ∷ 0x0e ∷ 0xbe ∷ 0xa9 ∷ 0xec ∷ 0xe4 ∷ 0xa6 ∷ 0x1c ∷ 0x37 ∷ 0xe5
    ∷ 0x59 ∷ 0x35 ∷ 0x00 ∷ 0xd1 ∷ 0xe7 ∷ 0xfa ∷ 0x1f ∷ 0x0c ∷ 0x73 ∷ 0xd8 ∷ 0xc8 ∷ 0xf9 ∷ 0xef
    ∷ 0x13 ∷ 0xe6 ∷ 0x50 ∷ 0xcc ∷ 0xc7 ∷ 0xd5 ∷ 0x7e ∷ 0x19 ∷ 0x9f ∷ 0xa2 ∷ 0x63 ∷ 0xe2 ∷ 0xb5
    ∷ 0x74 ∷ 0x66 ∷ 0x01 ∷ 0x09 ∷ 0xb7 ∷ 0x96 ∷ 0x33 ∷ 0x98 ∷ 0x1e ∷ 0xc3 ∷ 0x4e ∷ 0x08 ∷ 0xac
    ∷ 0xda ∷ 0xa5 ∷ 0x2e ∷ 0xf4 ∷ 0xc2 ∷ 0x67 ∷ 0x81 ∷ 0x4d ∷ 0xf5 ∷ 0xb9 ∷ 0xed ∷ 0xa4 ∷ 0x3b
    ∷ 0x11 ∷ 0x0a ∷ 0xf7 ∷ 0x05 ∷ 0x02 ∷ 0x12 ∷ 0x93 ∷ 0x16 ∷ 0x72 ∷ 0xb4 ∷ 0xe8 ∷ 0x9a ∷ 0xba
    ∷ 0xdb ∷ 0x53 ∷ 0xaf ∷ 0x1a ∷ 0xb3 ∷ 0x22 ∷ 0x88 ∷ 0x31 ∷ 0xf0 ∷ 0x7c ∷ 0xd0 ∷ 0xf3 ∷ 0x6e
    ∷ 0x58 ∷ 0xfe ∷ 0x8e ∷ 0x64 ∷ 0xb0 ∷ 0xd9 ∷ 0x85 ∷ 0x2c ∷ 0x9b ∷ 0xee ∷ 0x3a ∷ 0x8c ∷ 0xf8
    ∷ 0x43 ∷ 0x2f ∷ 0x65 ∷ 0x14 ∷ 0x5d ∷ 0x6b ∷ 0xc5 ∷ 0x34 ∷ 0x26 ∷ 0x0f ∷ 0xab ∷ 0x1b ∷ 0xa7
    ∷ 0xc9 ∷ 0xe3 ∷ 0x54 ∷ 0x07 ∷ 0xbc ∷ 0xff ∷ 0xcb ∷ 0x83 ∷ 0x30 ∷ 0xb8 ∷ 0x9c ∷ 0xb2 ∷ 0x7d
    ∷ 0xa8 ∷ 0x52 ∷ 0x70 ∷ 0xeb ∷ 0x9e ∷ 0xcd ∷ 0x5b ∷ 0xc1 ∷ 0x10 ∷ 0x8a ∷ 0x23 ∷ 0xd6 ∷ 0xa0
    ∷ 0x8f ∷ 0x36 ∷ 0x4b ∷ 0x0d ∷ 0x7b ∷ 0x3f ∷ 0x17 ∷ 0xd3 ∷ 0xaa ∷ 0xfd ∷ 0x9d ∷ 0xca ∷ 0x4c
    ∷ 0x69 ∷ 0x29 ∷ 0xf6 ∷ 0x3d ∷ 0x32 ∷ 0x3c ∷ 0x60 ∷ 0x95 ∷ []

unfoldable pub hash_byte_table_1 : List ℕ
hash_byte_table_1 =
    0x02 ∷ 0xbf ∷ 0x20 ∷ 0x4f ∷ 0xea ∷ 0x48 ∷ 0x23 ∷ 0xc4 ∷ 0x6f ∷ 0x84 ∷ 0x7d ∷ 0xee ∷ 0x1f ∷ 0x41
    ∷ 0x29 ∷ 0x97 ∷ 0xa1 ∷ 0xb4 ∷ 0x75 ∷ 0x2f ∷ 0x73 ∷ 0xec ∷ 0x2b ∷ 0x70 ∷ 0x71 ∷ 0xe5 ∷ 0xb9
    ∷ 0x24 ∷ 0x36 ∷ 0x3b ∷ 0x49 ∷ 0x95 ∷ 0xad ∷ 0xd5 ∷ 0x6b ∷ 0xc0 ∷ 0xb5 ∷ 0xb0 ∷ 0x80 ∷ 0x86
    ∷ 0xd7 ∷ 0x79 ∷ 0xfe ∷ 0xf4 ∷ 0x65 ∷ 0xdf ∷ 0xaa ∷ 0x33 ∷ 0x46 ∷ 0x96 ∷ 0x10 ∷ 0xed ∷ 0x1b
    ∷ 0xe0 ∷ 0x67 ∷ 0x90 ∷ 0x91 ∷ 0x57 ∷ 0xa4 ∷ 0xa2 ∷ 0x9d ∷ 0x44 ∷ 0x27 ∷ 0x04 ∷ 0x92 ∷ 0x52
    ∷ 0xfd ∷ 0x76 ∷ 0x7c ∷ 0x7f ∷ 0xae ∷ 0xbb ∷ 0xb1 ∷ 0xbe ∷ 0x4c ∷ 0x93 ∷ 0x07 ∷ 0x6a ∷ 0x58
    ∷ 0xfa ∷ 0x4a ∷ 0x7b ∷ 0xcb ∷ 0xe6 ∷ 0xac ∷ 0xd1 ∷ 0xd2 ∷ 0x66 ∷ 0x08 ∷ 0x3c ∷ 0x56 ∷ 0x62
    ∷ 0x1c ∷ 0xd9 ∷ 0x0f ∷ 0xf0 ∷ 0x01 ∷ 0xf9 ∷ 0x5c ∷ 0x9a ∷ 0xca ∷ 0x19 ∷ 0x32 ∷ 0x82 ∷ 0x99
    ∷ 0x13 ∷ 0xf3 ∷ 0xb8 ∷ 0x3d ∷ 0xa9 ∷ 0xcf ∷ 0xbc ∷ 0x3a ∷ 0x18 ∷ 0x00 ∷ 0xbd ∷ 0x63 ∷ 0xa8
    ∷ 0xc1 ∷ 0xdb ∷ 0x64 ∷ 0x68 ∷ 0xd6 ∷ 0x14 ∷ 0x5e ∷ 0x9e ∷ 0x5d ∷ 0xb7 ∷ 0x72 ∷ 0xc7 ∷ 0xba
    ∷ 0x53 ∷ 0x15 ∷ 0xf8 ∷ 0x8b ∷ 0x5f ∷ 0x39 ∷ 0xab ∷ 0x5a ∷ 0x8c ∷ 0x88 ∷ 0x1a ∷ 0x11 ∷ 0xa0
    ∷ 0x0d ∷ 0x26 ∷ 0x59 ∷ 0x51 ∷ 0xdc ∷ 0xa7 ∷ 0x21 ∷ 0x0b ∷ 0x3e ∷ 0x2c ∷ 0x6c ∷ 0x42 ∷ 0x55
    ∷ 0x3f ∷ 0x47 ∷ 0x0a ∷ 0xcd ∷ 0xd4 ∷ 0xe8 ∷ 0xa5 ∷ 0xff ∷ 0x81 ∷ 0x0e ∷ 0xd8 ∷ 0xb6 ∷ 0xd3
    ∷ 0xef ∷ 0xdd ∷ 0x37 ∷ 0x50 ∷ 0x6d ∷ 0x1e ∷ 0xc6 ∷ 0xeb ∷ 0xe3 ∷ 0x60 ∷ 0xf6 ∷ 0x28 ∷ 0xf7
    ∷ 0x87 ∷ 0x7e ∷ 0xb2 ∷ 0xfb ∷ 0x0c ∷ 0x8f ∷ 0xcc ∷ 0x2a ∷ 0x78 ∷ 0x8d ∷ 0x9b ∷ 0xe2 ∷ 0x1d
    ∷ 0x85 ∷ 0x09 ∷ 0x06 ∷ 0x6e ∷ 0x8e ∷ 0x89 ∷ 0x77 ∷ 0x83 ∷ 0xa6 ∷ 0x98 ∷ 0x12 ∷ 0xa3 ∷ 0x4d
    ∷ 0x40 ∷ 0x31 ∷ 0xe4 ∷ 0xc2 ∷ 0xf5 ∷ 0xda ∷ 0x69 ∷ 0x03 ∷ 0x05 ∷ 0xf2 ∷ 0xe7 ∷ 0x17 ∷ 0x30
    ∷ 0xe1 ∷ 0x25 ∷ 0xd0 ∷ 0xc5 ∷ 0x34 ∷ 0x38 ∷ 0xde ∷ 0xc8 ∷ 0x94 ∷ 0x8a ∷ 0x16 ∷ 0x4e ∷ 0xb3
    ∷ 0x43 ∷ 0x74 ∷ 0xe9 ∷ 0x35 ∷ 0xfc ∷ 0x22 ∷ 0x61 ∷ 0xc3 ∷ 0x45 ∷ 0x7a ∷ 0x5b ∷ 0xf1 ∷ 0xc9
    ∷ 0x2d ∷ 0x9c ∷ 0x9f ∷ 0xce ∷ 0x2e ∷ 0xaf ∷ 0x4b ∷ 0x54 ∷ []

unfoldable pub hash_byte_table_2 : List ℕ
hash_byte_table_2 =
    0xd1 ∷ 0xc9 ∷ 0xe3 ∷ 0x5a ∷ 0xa0 ∷ 0x31 ∷ 0x3d ∷ 0x46 ∷ 0x7e ∷ 0x26 ∷ 0x9c ∷ 0x0d ∷ 0x51 ∷ 0xd5
    ∷ 0x86 ∷ 0x50 ∷ 0xfd ∷ 0x72 ∷ 0x68 ∷ 0x8c ∷ 0x36 ∷ 0x71 ∷ 0x74 ∷ 0x8b ∷ 0xd8 ∷ 0xb5 ∷ 0x12
    ∷ 0x13 ∷ 0xbb ∷ 0xd6 ∷ 0xec ∷ 0xa8 ∷ 0x81 ∷ 0x14 ∷ 0x89 ∷ 0x70 ∷ 0x91 ∷ 0x4e ∷ 0x2c ∷ 0x96
    ∷ 0xeb ∷ 0xa1 ∷ 0xc0 ∷ 0x16 ∷ 0xe0 ∷ 0xc6 ∷ 0x22 ∷ 0x98 ∷ 0x83 ∷ 0x6a ∷ 0xda ∷ 0x27 ∷ 0xa6
    ∷ 0xc3 ∷ 0x95 ∷ 0x49 ∷ 0x73 ∷ 0xfb ∷ 0xcc ∷ 0x5c ∷ 0x82 ∷ 0xfe ∷ 0x62 ∷ 0xc4 ∷ 0xfa ∷ 0xad
    ∷ 0x41 ∷ 0xd7 ∷ 0xd2 ∷ 0x92 ∷ 0xdb ∷ 0xae ∷ 0x17 ∷ 0x8e ∷ 0xf6 ∷ 0xd4 ∷ 0x47 ∷ 0xc5 ∷ 0x29
    ∷ 0x2f ∷ 0xe4 ∷ 0x54 ∷ 0x80 ∷ 0x5f ∷ 0x23 ∷ 0x2b ∷ 0x79 ∷ 0xdd ∷ 0x61 ∷ 0xf8 ∷ 0x05 ∷ 0xd9
    ∷ 0x0f ∷ 0x3b ∷ 0x34 ∷ 0xdc ∷ 0x9e ∷ 0x6c ∷ 0x76 ∷ 0xac ∷ 0x6d ∷ 0xa2 ∷ 0x0e ∷ 0x9f ∷ 0x7c
    ∷ 0x93 ∷ 0x08 ∷ 0xbf ∷ 0x6b ∷ 0x2e ∷ 0xe9 ∷ 0x7f ∷ 0x55 ∷ 0x65 ∷ 0x0c ∷ 0xf1 ∷ 0x3f ∷ 0xea
    ∷ 0x6e ∷ 0x4c ∷ 0x64 ∷ 0x11 ∷ 0xd3 ∷ 0x52 ∷ 0x01 ∷ 0x94 ∷ 0x56 ∷ 0x1d ∷ 0x3c ∷ 0xbd ∷ 0xb7
    ∷ 0xf3 ∷ 0x43 ∷ 0x0a ∷ 0xcd ∷ 0xde ∷ 0x7a ∷ 0xc7 ∷ 0xb6 ∷ 0x06 ∷ 0x67 ∷ 0x1c ∷ 0xbc ∷ 0x18
    ∷ 0xb1 ∷ 0x44 ∷ 0x1f ∷ 0xff ∷ 0x90 ∷ 0x10 ∷ 0x8a ∷ 0xe5 ∷ 0xc1 ∷ 0xab ∷ 0xcb ∷ 0xb8 ∷ 0x8f
    ∷ 0xba ∷ 0x85 ∷ 0x66 ∷ 0x19 ∷ 0xcf ∷ 0x4a ∷ 0x9d ∷ 0x4d ∷ 0x03 ∷ 0x1e ∷ 0xf4 ∷ 0x24 ∷ 0xce
    ∷ 0x30 ∷ 0xfc ∷ 0x78 ∷ 0x07 ∷ 0xca ∷ 0x15 ∷ 0x7b ∷ 0x99 ∷ 0xf9 ∷ 0x38 ∷ 0xf7 ∷ 0xf2 ∷ 0x9a
    ∷ 0xf5 ∷ 0x00 ∷ 0xe8 ∷ 0x37 ∷ 0x42 ∷ 0x8d ∷ 0x84 ∷ 0x53 ∷ 0xef ∷ 0xd0 ∷ 0xbe ∷ 0x60 ∷ 0x1a
    ∷ 0xb0 ∷ 0xaf ∷ 0x69 ∷ 0x0b ∷ 0xed ∷ 0x4b ∷ 0x87 ∷ 0x5e ∷ 0xa7 ∷ 0x32 ∷ 0x7d ∷ 0x77 ∷ 0xaa
    ∷ 0xf0 ∷ 0xb4 ∷ 0x59 ∷ 0x25 ∷ 0xb3 ∷ 0x1b ∷ 0x57 ∷ 0xa9 ∷ 0x5d ∷ 0x88 ∷ 0xe2 ∷ 0x40 ∷ 0xee
    ∷ 0x48 ∷ 0x9b ∷ 0xb2 ∷ 0xa3 ∷ 0x2a ∷ 0x20 ∷ 0x21 ∷ 0x02 ∷ 0xc2 ∷ 0x63 ∷ 0x45 ∷ 0x6f ∷ 0x58
    ∷ 0xa5 ∷ 0x09 ∷ 0xe7 ∷ 0x2d ∷ 0x4f ∷ 0x5b ∷ 0x33 ∷ 0x3e ∷ 0xe6 ∷ 0xb9 ∷ 0x35 ∷ 0xdf ∷ 0x75
    ∷ 0x04 ∷ 0x28 ∷ 0xa4 ∷ 0x39 ∷ 0x3a ∷ 0xe1 ∷ 0x97 ∷ 0xc8 ∷ []

unfoldable pub hash_byte_table_3 : List ℕ
hash_byte_table_3 =
    0x8f ∷ 0x37 ∷ 0x1a ∷ 0x93 ∷ 0xaf ∷ 0xdc ∷ 0x24 ∷ 0x12 ∷ 0xf6 ∷ 0x89 ∷ 0x81 ∷ 0xf4 ∷ 0xe7 ∷ 0x27
    ∷ 0xe0 ∷ 0xc1 ∷ 0x67 ∷ 0x15 ∷ 0x98 ∷ 0xc4 ∷ 0xd9 ∷ 0x9f ∷ 0x7c ∷ 0x16 ∷ 0x49 ∷ 0xec ∷ 0x28
    ∷ 0x26 ∷ 0xd2 ∷ 0x65 ∷ 0x7d ∷ 0x11 ∷ 0x74 ∷ 0x8d ∷ 0xae ∷ 0x61 ∷ 0x0a ∷ 0xc0 ∷ 0x19 ∷ 0x58
    ∷ 0x6f ∷ 0x82 ∷ 0xb9 ∷ 0xdf ∷ 0x20 ∷ 0x2d ∷ 0x54 ∷ 0x4d ∷ 0xf1 ∷ 0xd0 ∷ 0x59 ∷ 0x7a ∷ 0x95
    ∷ 0xb0 ∷ 0xca ∷ 0x66 ∷ 0xdb ∷ 0xea ∷ 0x63 ∷ 0x84 ∷ 0x2c ∷ 0xa4 ∷ 0xf3 ∷ 0x06 ∷ 0xd3 ∷ 0x01
    ∷ 0x9c ∷ 0x60 ∷ 0x6b ∷ 0xc6 ∷ 0x6a ∷ 0xe2 ∷ 0xf8 ∷ 0x2f ∷ 0x32 ∷ 0x8c ∷ 0xc3 ∷ 0x78 ∷ 0xc8
    ∷ 0xd6 ∷ 0x69 ∷ 0xb6 ∷ 0x92 ∷ 0xda ∷ 0x99 ∷ 0xd5 ∷ 0xff ∷ 0x2a ∷ 0x3d ∷ 0x0e ∷ 0xb1 ∷ 0x41
    ∷ 0x44 ∷ 0xe6 ∷ 0xfe ∷ 0x50 ∷ 0xfa ∷ 0xbb ∷ 0xd4 ∷ 0xb3 ∷ 0x45 ∷ 0xcf ∷ 0x6c ∷ 0xcb ∷ 0x0c
    ∷ 0x09 ∷ 0xed ∷ 0x3c ∷ 0xab ∷ 0xd8 ∷ 0x2b ∷ 0xee ∷ 0x52 ∷ 0xad ∷ 0x7f ∷ 0x94 ∷ 0x38 ∷ 0x53
    ∷ 0x29 ∷ 0xfb ∷ 0xd1 ∷ 0x80 ∷ 0x5a ∷ 0x03 ∷ 0x51 ∷ 0x14 ∷ 0xa2 ∷ 0x77 ∷ 0xc2 ∷ 0x0d ∷ 0x04
    ∷ 0x71 ∷ 0x3e ∷ 0xfc ∷ 0xf5 ∷ 0x90 ∷ 0x39 ∷ 0x62 ∷ 0xe9 ∷ 0x3f ∷ 0x17 ∷ 0xf0 ∷ 0xb8 ∷ 0x1c
    ∷ 0xe4 ∷ 0xb5 ∷ 0xbf ∷ 0x76 ∷ 0xfd ∷ 0x83 ∷ 0xc7 ∷ 0x36 ∷ 0xa7 ∷ 0xb4 ∷ 0xac ∷ 0xe1 ∷ 0x00
    ∷ 0x91 ∷ 0x1d ∷ 0xb2 ∷ 0x7b ∷ 0x8e ∷ 0x4b ∷ 0x7e ∷ 0xf9 ∷ 0x85 ∷ 0xbd ∷ 0xa9 ∷ 0xbc ∷ 0x9e
    ∷ 0x75 ∷ 0xcc ∷ 0x2e ∷ 0x79 ∷ 0xce ∷ 0x13 ∷ 0xbe ∷ 0xaa ∷ 0xe3 ∷ 0x0f ∷ 0xa8 ∷ 0xa0 ∷ 0xba
    ∷ 0x3b ∷ 0x43 ∷ 0x5e ∷ 0x21 ∷ 0x97 ∷ 0x02 ∷ 0x31 ∷ 0xa3 ∷ 0xcd ∷ 0x4e ∷ 0xe5 ∷ 0x30 ∷ 0x70
    ∷ 0x5c ∷ 0xdd ∷ 0xf2 ∷ 0x9d ∷ 0x1f ∷ 0x07 ∷ 0x8b ∷ 0x57 ∷ 0x42 ∷ 0x4f ∷ 0xe8 ∷ 0x22 ∷ 0xeb
    ∷ 0x05 ∷ 0x5f ∷ 0xde ∷ 0x10 ∷ 0x68 ∷ 0x6d ∷ 0x1b ∷ 0x08 ∷ 0xa1 ∷ 0xa6 ∷ 0x72 ∷ 0x34 ∷ 0x9a
    ∷ 0x96 ∷ 0xd7 ∷ 0x56 ∷ 0xef ∷ 0xb7 ∷ 0x4a ∷ 0x64 ∷ 0x87 ∷ 0x48 ∷ 0x8a ∷ 0x4c ∷ 0x3a ∷ 0x18
    ∷ 0x88 ∷ 0x86 ∷ 0x46 ∷ 0xc5 ∷ 0x9b ∷ 0x5d ∷ 0xf7 ∷ 0x6e ∷ 0xc9 ∷ 0x35 ∷ 0x25 ∷ 0x5b ∷ 0x0b
    ∷ 0x33 ∷ 0x73 ∷ 0x1e ∷ 0x55 ∷ 0x23 ∷ 0x47 ∷ 0x40 ∷ 0xa5 ∷ []
