-- ===== src/Tests/Fixtures/Models.antt =====
-- The blobs of tools/efi-inventory/fixtures.h with a root node of their own models.
use muen_orin.Base.{ℕ, List, [], ◌∷◌}

abbrev pub fdt_min : List ℕ
fdt_min =
    0xd0 ∷ 0x0d ∷ 0xfe ∷ 0xed ∷ 0x00 ∷ 0x00 ∷ 0x00 ∷ 0x48 ∷ 0x00 ∷ 0x00 ∷ 0x00 ∷ 0x38 ∷ 0x00 ∷ 0x00
    ∷ 0x00 ∷ 0x48 ∷ 0x00 ∷ 0x00 ∷ 0x00 ∷ 0x28 ∷ 0x00 ∷ 0x00 ∷ 0x00 ∷ 0x11 ∷ 0x00 ∷ 0x00 ∷ 0x00
    ∷ 0x10 ∷ 0x00 ∷ 0x00 ∷ 0x00 ∷ 0x00 ∷ 0x00 ∷ 0x00 ∷ 0x00 ∷ 0x00 ∷ 0x00 ∷ 0x00 ∷ 0x00 ∷ 0x10
    ∷ 0x00 ∷ 0x00 ∷ 0x00 ∷ 0x00 ∷ 0x00 ∷ 0x00 ∷ 0x00 ∷ 0x00 ∷ 0x00 ∷ 0x00 ∷ 0x00 ∷ 0x00 ∷ 0x00
    ∷ 0x00 ∷ 0x00 ∷ 0x00 ∷ 0x00 ∷ 0x00 ∷ 0x00 ∷ 0x01 ∷ 0x00 ∷ 0x00 ∷ 0x00 ∷ 0x00 ∷ 0x00 ∷ 0x00
    ∷ 0x00 ∷ 0x02 ∷ 0x00 ∷ 0x00 ∷ 0x00 ∷ 0x09 ∷ []

abbrev pub fdt_v16 : List ℕ
fdt_v16 =
    0xd0 ∷ 0x0d ∷ 0xfe ∷ 0xed ∷ 0x00 ∷ 0x00 ∷ 0x00 ∷ 0x48 ∷ 0x00 ∷ 0x00 ∷ 0x00 ∷ 0x38 ∷ 0x00 ∷ 0x00
    ∷ 0x00 ∷ 0x48 ∷ 0x00 ∷ 0x00 ∷ 0x00 ∷ 0x28 ∷ 0x00 ∷ 0x00 ∷ 0x00 ∷ 0x10 ∷ 0x00 ∷ 0x00 ∷ 0x00
    ∷ 0x10 ∷ 0x00 ∷ 0x00 ∷ 0x00 ∷ 0x00 ∷ 0x00 ∷ 0x00 ∷ 0x00 ∷ 0x00 ∷ 0x00 ∷ 0x00 ∷ 0x00 ∷ 0x00
    ∷ 0x00 ∷ 0x00 ∷ 0x00 ∷ 0x00 ∷ 0x00 ∷ 0x00 ∷ 0x00 ∷ 0x00 ∷ 0x00 ∷ 0x00 ∷ 0x00 ∷ 0x00 ∷ 0x00
    ∷ 0x00 ∷ 0x00 ∷ 0x00 ∷ 0x00 ∷ 0x00 ∷ 0x00 ∷ 0x01 ∷ 0x00 ∷ 0x00 ∷ 0x00 ∷ 0x00 ∷ 0x00 ∷ 0x00
    ∷ 0x00 ∷ 0x02 ∷ 0x00 ∷ 0x00 ∷ 0x00 ∷ 0x09 ∷ []

abbrev pub fdt_model : List ℕ
fdt_model =
    0xd0 ∷ 0x0d ∷ 0xfe ∷ 0xed ∷ 0x00 ∷ 0x00 ∷ 0x00 ∷ 0xc5 ∷ 0x00 ∷ 0x00 ∷ 0x00 ∷ 0x48 ∷ 0x00 ∷ 0x00
    ∷ 0x00 ∷ 0xb0 ∷ 0x00 ∷ 0x00 ∷ 0x00 ∷ 0x28 ∷ 0x00 ∷ 0x00 ∷ 0x00 ∷ 0x11 ∷ 0x00 ∷ 0x00 ∷ 0x00
    ∷ 0x10 ∷ 0x00 ∷ 0x00 ∷ 0x00 ∷ 0x00 ∷ 0x00 ∷ 0x00 ∷ 0x00 ∷ 0x15 ∷ 0x00 ∷ 0x00 ∷ 0x00 ∷ 0x68
    ∷ 0x00 ∷ 0x00 ∷ 0x00 ∷ 0x00 ∷ 0x80 ∷ 0x00 ∷ 0x00 ∷ 0x00 ∷ 0x00 ∷ 0x00 ∷ 0x00 ∷ 0x00 ∷ 0x00
    ∷ 0x01 ∷ 0x00 ∷ 0x00 ∷ 0x00 ∷ 0x00 ∷ 0x00 ∷ 0x00 ∷ 0x00 ∷ 0x00 ∷ 0x00 ∷ 0x00 ∷ 0x00 ∷ 0x00
    ∷ 0x00 ∷ 0x00 ∷ 0x00 ∷ 0x00 ∷ 0x00 ∷ 0x00 ∷ 0x00 ∷ 0x00 ∷ 0x00 ∷ 0x01 ∷ 0x00 ∷ 0x00 ∷ 0x00
    ∷ 0x00 ∷ 0x00 ∷ 0x00 ∷ 0x00 ∷ 0x03 ∷ 0x00 ∷ 0x00 ∷ 0x00 ∷ 0x14 ∷ 0x00 ∷ 0x00 ∷ 0x00 ∷ 0x00
    ∷ 0x4e ∷ 0x56 ∷ 0x49 ∷ 0x44 ∷ 0x49 ∷ 0x41 ∷ 0x20 ∷ 0x22 ∷ 0x74 ∷ 0x65 ∷ 0x73 ∷ 0x74 ∷ 0x22
    ∷ 0x20 ∷ 0x62 ∷ 0x6f ∷ 0x61 ∷ 0x72 ∷ 0x64 ∷ 0x00 ∷ 0x00 ∷ 0x00 ∷ 0x00 ∷ 0x03 ∷ 0x00 ∷ 0x00
    ∷ 0x00 ∷ 0x04 ∷ 0x00 ∷ 0x00 ∷ 0x00 ∷ 0x06 ∷ 0x00 ∷ 0x00 ∷ 0x00 ∷ 0x02 ∷ 0x00 ∷ 0x00 ∷ 0x00
    ∷ 0x01 ∷ 0x63 ∷ 0x70 ∷ 0x75 ∷ 0x73 ∷ 0x00 ∷ 0x00 ∷ 0x00 ∷ 0x00 ∷ 0x00 ∷ 0x00 ∷ 0x00 ∷ 0x03
    ∷ 0x00 ∷ 0x00 ∷ 0x00 ∷ 0x09 ∷ 0x00 ∷ 0x00 ∷ 0x00 ∷ 0x00 ∷ 0x6e ∷ 0x6f ∷ 0x74 ∷ 0x2d ∷ 0x72
    ∷ 0x6f ∷ 0x6f ∷ 0x74 ∷ 0x00 ∷ 0x00 ∷ 0x00 ∷ 0x00 ∷ 0x00 ∷ 0x00 ∷ 0x00 ∷ 0x02 ∷ 0x00 ∷ 0x00
    ∷ 0x00 ∷ 0x02 ∷ 0x00 ∷ 0x00 ∷ 0x00 ∷ 0x09 ∷ 0x6d ∷ 0x6f ∷ 0x64 ∷ 0x65 ∷ 0x6c ∷ 0x00 ∷ 0x23
    ∷ 0x61 ∷ 0x64 ∷ 0x64 ∷ 0x72 ∷ 0x65 ∷ 0x73 ∷ 0x73 ∷ 0x2d ∷ 0x63 ∷ 0x65 ∷ 0x6c ∷ 0x6c ∷ 0x73
    ∷ 0x00 ∷ []

abbrev pub fdt_leading_nop : List ℕ
fdt_leading_nop =
    0xd0 ∷ 0x0d ∷ 0xfe ∷ 0xed ∷ 0x00 ∷ 0x00 ∷ 0x00 ∷ 0xc9 ∷ 0x00 ∷ 0x00 ∷ 0x00 ∷ 0x48 ∷ 0x00 ∷ 0x00
    ∷ 0x00 ∷ 0xb4 ∷ 0x00 ∷ 0x00 ∷ 0x00 ∷ 0x28 ∷ 0x00 ∷ 0x00 ∷ 0x00 ∷ 0x11 ∷ 0x00 ∷ 0x00 ∷ 0x00
    ∷ 0x10 ∷ 0x00 ∷ 0x00 ∷ 0x00 ∷ 0x00 ∷ 0x00 ∷ 0x00 ∷ 0x00 ∷ 0x15 ∷ 0x00 ∷ 0x00 ∷ 0x00 ∷ 0x6c
    ∷ 0x00 ∷ 0x00 ∷ 0x00 ∷ 0x00 ∷ 0x80 ∷ 0x00 ∷ 0x00 ∷ 0x00 ∷ 0x00 ∷ 0x00 ∷ 0x00 ∷ 0x00 ∷ 0x00
    ∷ 0x01 ∷ 0x00 ∷ 0x00 ∷ 0x00 ∷ 0x00 ∷ 0x00 ∷ 0x00 ∷ 0x00 ∷ 0x00 ∷ 0x00 ∷ 0x00 ∷ 0x00 ∷ 0x00
    ∷ 0x00 ∷ 0x00 ∷ 0x00 ∷ 0x00 ∷ 0x00 ∷ 0x00 ∷ 0x00 ∷ 0x00 ∷ 0x00 ∷ 0x04 ∷ 0x00 ∷ 0x00 ∷ 0x00
    ∷ 0x01 ∷ 0x00 ∷ 0x00 ∷ 0x00 ∷ 0x00 ∷ 0x00 ∷ 0x00 ∷ 0x00 ∷ 0x03 ∷ 0x00 ∷ 0x00 ∷ 0x00 ∷ 0x14
    ∷ 0x00 ∷ 0x00 ∷ 0x00 ∷ 0x00 ∷ 0x4e ∷ 0x56 ∷ 0x49 ∷ 0x44 ∷ 0x49 ∷ 0x41 ∷ 0x20 ∷ 0x22 ∷ 0x74
    ∷ 0x65 ∷ 0x73 ∷ 0x74 ∷ 0x22 ∷ 0x20 ∷ 0x62 ∷ 0x6f ∷ 0x61 ∷ 0x72 ∷ 0x64 ∷ 0x00 ∷ 0x00 ∷ 0x00
    ∷ 0x00 ∷ 0x03 ∷ 0x00 ∷ 0x00 ∷ 0x00 ∷ 0x04 ∷ 0x00 ∷ 0x00 ∷ 0x00 ∷ 0x06 ∷ 0x00 ∷ 0x00 ∷ 0x00
    ∷ 0x02 ∷ 0x00 ∷ 0x00 ∷ 0x00 ∷ 0x01 ∷ 0x63 ∷ 0x70 ∷ 0x75 ∷ 0x73 ∷ 0x00 ∷ 0x00 ∷ 0x00 ∷ 0x00
    ∷ 0x00 ∷ 0x00 ∷ 0x00 ∷ 0x03 ∷ 0x00 ∷ 0x00 ∷ 0x00 ∷ 0x09 ∷ 0x00 ∷ 0x00 ∷ 0x00 ∷ 0x00 ∷ 0x6e
    ∷ 0x6f ∷ 0x74 ∷ 0x2d ∷ 0x72 ∷ 0x6f ∷ 0x6f ∷ 0x74 ∷ 0x00 ∷ 0x00 ∷ 0x00 ∷ 0x00 ∷ 0x00 ∷ 0x00
    ∷ 0x00 ∷ 0x02 ∷ 0x00 ∷ 0x00 ∷ 0x00 ∷ 0x02 ∷ 0x00 ∷ 0x00 ∷ 0x00 ∷ 0x09 ∷ 0x6d ∷ 0x6f ∷ 0x64
    ∷ 0x65 ∷ 0x6c ∷ 0x00 ∷ 0x23 ∷ 0x61 ∷ 0x64 ∷ 0x64 ∷ 0x72 ∷ 0x65 ∷ 0x73 ∷ 0x73 ∷ 0x2d ∷ 0x63
    ∷ 0x65 ∷ 0x6c ∷ 0x6c ∷ 0x73 ∷ 0x00 ∷ []

abbrev pub fdt_model_64 : List ℕ
fdt_model_64 =
    0xd0 ∷ 0x0d ∷ 0xfe ∷ 0xed ∷ 0x00 ∷ 0x00 ∷ 0x00 ∷ 0x9e ∷ 0x00 ∷ 0x00 ∷ 0x00 ∷ 0x38 ∷ 0x00 ∷ 0x00
    ∷ 0x00 ∷ 0x98 ∷ 0x00 ∷ 0x00 ∷ 0x00 ∷ 0x28 ∷ 0x00 ∷ 0x00 ∷ 0x00 ∷ 0x11 ∷ 0x00 ∷ 0x00 ∷ 0x00
    ∷ 0x10 ∷ 0x00 ∷ 0x00 ∷ 0x00 ∷ 0x00 ∷ 0x00 ∷ 0x00 ∷ 0x00 ∷ 0x06 ∷ 0x00 ∷ 0x00 ∷ 0x00 ∷ 0x60
    ∷ 0x00 ∷ 0x00 ∷ 0x00 ∷ 0x00 ∷ 0x00 ∷ 0x00 ∷ 0x00 ∷ 0x00 ∷ 0x00 ∷ 0x00 ∷ 0x00 ∷ 0x00 ∷ 0x00
    ∷ 0x00 ∷ 0x00 ∷ 0x00 ∷ 0x00 ∷ 0x00 ∷ 0x00 ∷ 0x01 ∷ 0x00 ∷ 0x00 ∷ 0x00 ∷ 0x00 ∷ 0x00 ∷ 0x00
    ∷ 0x00 ∷ 0x03 ∷ 0x00 ∷ 0x00 ∷ 0x00 ∷ 0x41 ∷ 0x00 ∷ 0x00 ∷ 0x00 ∷ 0x00 ∷ 0x4d ∷ 0x4d ∷ 0x4d
    ∷ 0x4d ∷ 0x4d ∷ 0x4d ∷ 0x4d ∷ 0x4d ∷ 0x4d ∷ 0x4d ∷ 0x4d ∷ 0x4d ∷ 0x4d ∷ 0x4d ∷ 0x4d ∷ 0x4d
    ∷ 0x4d ∷ 0x4d ∷ 0x4d ∷ 0x4d ∷ 0x4d ∷ 0x4d ∷ 0x4d ∷ 0x4d ∷ 0x4d ∷ 0x4d ∷ 0x4d ∷ 0x4d ∷ 0x4d
    ∷ 0x4d ∷ 0x4d ∷ 0x4d ∷ 0x4d ∷ 0x4d ∷ 0x4d ∷ 0x4d ∷ 0x4d ∷ 0x4d ∷ 0x4d ∷ 0x4d ∷ 0x4d ∷ 0x4d
    ∷ 0x4d ∷ 0x4d ∷ 0x4d ∷ 0x4d ∷ 0x4d ∷ 0x4d ∷ 0x4d ∷ 0x4d ∷ 0x4d ∷ 0x4d ∷ 0x4d ∷ 0x4d ∷ 0x4d
    ∷ 0x4d ∷ 0x4d ∷ 0x4d ∷ 0x4d ∷ 0x4d ∷ 0x4d ∷ 0x4d ∷ 0x4d ∷ 0x4d ∷ 0x00 ∷ 0x00 ∷ 0x00 ∷ 0x00
    ∷ 0x00 ∷ 0x00 ∷ 0x00 ∷ 0x02 ∷ 0x00 ∷ 0x00 ∷ 0x00 ∷ 0x09 ∷ 0x6d ∷ 0x6f ∷ 0x64 ∷ 0x65 ∷ 0x6c
    ∷ 0x00 ∷ []

abbrev pub fdt_model_long : List ℕ
fdt_model_long =
    0xd0 ∷ 0x0d ∷ 0xfe ∷ 0xed ∷ 0x00 ∷ 0x00 ∷ 0x00 ∷ 0xc2 ∷ 0x00 ∷ 0x00 ∷ 0x00 ∷ 0x38 ∷ 0x00 ∷ 0x00
    ∷ 0x00 ∷ 0xbc ∷ 0x00 ∷ 0x00 ∷ 0x00 ∷ 0x28 ∷ 0x00 ∷ 0x00 ∷ 0x00 ∷ 0x11 ∷ 0x00 ∷ 0x00 ∷ 0x00
    ∷ 0x10 ∷ 0x00 ∷ 0x00 ∷ 0x00 ∷ 0x00 ∷ 0x00 ∷ 0x00 ∷ 0x00 ∷ 0x06 ∷ 0x00 ∷ 0x00 ∷ 0x00 ∷ 0x84
    ∷ 0x00 ∷ 0x00 ∷ 0x00 ∷ 0x00 ∷ 0x00 ∷ 0x00 ∷ 0x00 ∷ 0x00 ∷ 0x00 ∷ 0x00 ∷ 0x00 ∷ 0x00 ∷ 0x00
    ∷ 0x00 ∷ 0x00 ∷ 0x00 ∷ 0x00 ∷ 0x00 ∷ 0x00 ∷ 0x01 ∷ 0x00 ∷ 0x00 ∷ 0x00 ∷ 0x00 ∷ 0x00 ∷ 0x00
    ∷ 0x00 ∷ 0x03 ∷ 0x00 ∷ 0x00 ∷ 0x00 ∷ 0x65 ∷ 0x00 ∷ 0x00 ∷ 0x00 ∷ 0x00 ∷ 0x4c ∷ 0x4c ∷ 0x4c
    ∷ 0x4c ∷ 0x4c ∷ 0x4c ∷ 0x4c ∷ 0x4c ∷ 0x4c ∷ 0x4c ∷ 0x4c ∷ 0x4c ∷ 0x4c ∷ 0x4c ∷ 0x4c ∷ 0x4c
    ∷ 0x4c ∷ 0x4c ∷ 0x4c ∷ 0x4c ∷ 0x4c ∷ 0x4c ∷ 0x4c ∷ 0x4c ∷ 0x4c ∷ 0x4c ∷ 0x4c ∷ 0x4c ∷ 0x4c
    ∷ 0x4c ∷ 0x4c ∷ 0x4c ∷ 0x4c ∷ 0x4c ∷ 0x4c ∷ 0x4c ∷ 0x4c ∷ 0x4c ∷ 0x4c ∷ 0x4c ∷ 0x4c ∷ 0x4c
    ∷ 0x4c ∷ 0x4c ∷ 0x4c ∷ 0x4c ∷ 0x4c ∷ 0x4c ∷ 0x4c ∷ 0x4c ∷ 0x4c ∷ 0x4c ∷ 0x4c ∷ 0x4c ∷ 0x4c
    ∷ 0x4c ∷ 0x4c ∷ 0x4c ∷ 0x4c ∷ 0x4c ∷ 0x4c ∷ 0x4c ∷ 0x4c ∷ 0x4c ∷ 0x2d ∷ 0x6f ∷ 0x76 ∷ 0x65
    ∷ 0x72 ∷ 0x66 ∷ 0x6c ∷ 0x6f ∷ 0x77 ∷ 0x2d ∷ 0x54 ∷ 0x54 ∷ 0x54 ∷ 0x54 ∷ 0x54 ∷ 0x54 ∷ 0x54
    ∷ 0x54 ∷ 0x54 ∷ 0x54 ∷ 0x54 ∷ 0x54 ∷ 0x54 ∷ 0x54 ∷ 0x54 ∷ 0x54 ∷ 0x54 ∷ 0x54 ∷ 0x54 ∷ 0x54
    ∷ 0x54 ∷ 0x54 ∷ 0x54 ∷ 0x54 ∷ 0x54 ∷ 0x54 ∷ 0x00 ∷ 0x00 ∷ 0x00 ∷ 0x00 ∷ 0x00 ∷ 0x00 ∷ 0x00
    ∷ 0x02 ∷ 0x00 ∷ 0x00 ∷ 0x00 ∷ 0x09 ∷ 0x6d ∷ 0x6f ∷ 0x64 ∷ 0x65 ∷ 0x6c ∷ 0x00 ∷ []

abbrev pub fdt_model_escape : List ℕ
fdt_model_escape =
    0xd0 ∷ 0x0d ∷ 0xfe ∷ 0xed ∷ 0x00 ∷ 0x00 ∷ 0x00 ∷ 0x6a ∷ 0x00 ∷ 0x00 ∷ 0x00 ∷ 0x38 ∷ 0x00 ∷ 0x00
    ∷ 0x00 ∷ 0x64 ∷ 0x00 ∷ 0x00 ∷ 0x00 ∷ 0x28 ∷ 0x00 ∷ 0x00 ∷ 0x00 ∷ 0x11 ∷ 0x00 ∷ 0x00 ∷ 0x00
    ∷ 0x10 ∷ 0x00 ∷ 0x00 ∷ 0x00 ∷ 0x00 ∷ 0x00 ∷ 0x00 ∷ 0x00 ∷ 0x06 ∷ 0x00 ∷ 0x00 ∷ 0x00 ∷ 0x2c
    ∷ 0x00 ∷ 0x00 ∷ 0x00 ∷ 0x00 ∷ 0x00 ∷ 0x00 ∷ 0x00 ∷ 0x00 ∷ 0x00 ∷ 0x00 ∷ 0x00 ∷ 0x00 ∷ 0x00
    ∷ 0x00 ∷ 0x00 ∷ 0x00 ∷ 0x00 ∷ 0x00 ∷ 0x00 ∷ 0x01 ∷ 0x00 ∷ 0x00 ∷ 0x00 ∷ 0x00 ∷ 0x00 ∷ 0x00
    ∷ 0x00 ∷ 0x03 ∷ 0x00 ∷ 0x00 ∷ 0x00 ∷ 0x0e ∷ 0x00 ∷ 0x00 ∷ 0x00 ∷ 0x00 ∷ 0x74 ∷ 0x61 ∷ 0x62
    ∷ 0x09 ∷ 0x68 ∷ 0x65 ∷ 0x72 ∷ 0x65 ∷ 0x5c ∷ 0x62 ∷ 0x61 ∷ 0x63 ∷ 0x6b ∷ 0x00 ∷ 0x00 ∷ 0x00
    ∷ 0x00 ∷ 0x00 ∷ 0x00 ∷ 0x02 ∷ 0x00 ∷ 0x00 ∷ 0x00 ∷ 0x09 ∷ 0x6d ∷ 0x6f ∷ 0x64 ∷ 0x65 ∷ 0x6c
    ∷ 0x00 ∷ []

abbrev pub fdt_model_nonascii : List ℕ
fdt_model_nonascii =
    0xd0 ∷ 0x0d ∷ 0xfe ∷ 0xed ∷ 0x00 ∷ 0x00 ∷ 0x00 ∷ 0x62 ∷ 0x00 ∷ 0x00 ∷ 0x00 ∷ 0x38 ∷ 0x00 ∷ 0x00
    ∷ 0x00 ∷ 0x5c ∷ 0x00 ∷ 0x00 ∷ 0x00 ∷ 0x28 ∷ 0x00 ∷ 0x00 ∷ 0x00 ∷ 0x11 ∷ 0x00 ∷ 0x00 ∷ 0x00
    ∷ 0x10 ∷ 0x00 ∷ 0x00 ∷ 0x00 ∷ 0x00 ∷ 0x00 ∷ 0x00 ∷ 0x00 ∷ 0x06 ∷ 0x00 ∷ 0x00 ∷ 0x00 ∷ 0x24
    ∷ 0x00 ∷ 0x00 ∷ 0x00 ∷ 0x00 ∷ 0x00 ∷ 0x00 ∷ 0x00 ∷ 0x00 ∷ 0x00 ∷ 0x00 ∷ 0x00 ∷ 0x00 ∷ 0x00
    ∷ 0x00 ∷ 0x00 ∷ 0x00 ∷ 0x00 ∷ 0x00 ∷ 0x00 ∷ 0x01 ∷ 0x00 ∷ 0x00 ∷ 0x00 ∷ 0x00 ∷ 0x00 ∷ 0x00
    ∷ 0x00 ∷ 0x03 ∷ 0x00 ∷ 0x00 ∷ 0x00 ∷ 0x07 ∷ 0x00 ∷ 0x00 ∷ 0x00 ∷ 0x00 ∷ 0x6e ∷ 0x61 ∷ 0xc3
    ∷ 0xaf ∷ 0x76 ∷ 0x65 ∷ 0x00 ∷ 0x00 ∷ 0x00 ∷ 0x00 ∷ 0x00 ∷ 0x02 ∷ 0x00 ∷ 0x00 ∷ 0x00 ∷ 0x09
    ∷ 0x6d ∷ 0x6f ∷ 0x64 ∷ 0x65 ∷ 0x6c ∷ 0x00 ∷ []

abbrev pub fdt_model_list : List ℕ
fdt_model_list =
    0xd0 ∷ 0x0d ∷ 0xfe ∷ 0xed ∷ 0x00 ∷ 0x00 ∷ 0x00 ∷ 0x5e ∷ 0x00 ∷ 0x00 ∷ 0x00 ∷ 0x38 ∷ 0x00 ∷ 0x00
    ∷ 0x00 ∷ 0x58 ∷ 0x00 ∷ 0x00 ∷ 0x00 ∷ 0x28 ∷ 0x00 ∷ 0x00 ∷ 0x00 ∷ 0x11 ∷ 0x00 ∷ 0x00 ∷ 0x00
    ∷ 0x10 ∷ 0x00 ∷ 0x00 ∷ 0x00 ∷ 0x00 ∷ 0x00 ∷ 0x00 ∷ 0x00 ∷ 0x06 ∷ 0x00 ∷ 0x00 ∷ 0x00 ∷ 0x20
    ∷ 0x00 ∷ 0x00 ∷ 0x00 ∷ 0x00 ∷ 0x00 ∷ 0x00 ∷ 0x00 ∷ 0x00 ∷ 0x00 ∷ 0x00 ∷ 0x00 ∷ 0x00 ∷ 0x00
    ∷ 0x00 ∷ 0x00 ∷ 0x00 ∷ 0x00 ∷ 0x00 ∷ 0x00 ∷ 0x01 ∷ 0x00 ∷ 0x00 ∷ 0x00 ∷ 0x00 ∷ 0x00 ∷ 0x00
    ∷ 0x00 ∷ 0x03 ∷ 0x00 ∷ 0x00 ∷ 0x00 ∷ 0x04 ∷ 0x00 ∷ 0x00 ∷ 0x00 ∷ 0x00 ∷ 0x61 ∷ 0x00 ∷ 0x62
    ∷ 0x00 ∷ 0x00 ∷ 0x00 ∷ 0x00 ∷ 0x02 ∷ 0x00 ∷ 0x00 ∷ 0x00 ∷ 0x09 ∷ 0x6d ∷ 0x6f ∷ 0x64 ∷ 0x65
    ∷ 0x6c ∷ 0x00 ∷ []
