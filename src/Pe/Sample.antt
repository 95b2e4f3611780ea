-- ===== src/Pe/Sample.antt =====
-- A small image with one section, which holds an import directory of one library.
use nonameos.Prelude.{ℕ, zero, suc, ◌/◌, ◌%◌, List, [], ◌∷◌, ◌++◌, replicate}
use nonameos.Prelude.Text.{codes}

abbrev pub little_endian : ℕ → ℕ → List ℕ
little_endian zero n = []
little_endian (suc k) n = n % 256 ∷ little_endian k (n / 256)

abbrev headers : ℕ → List ℕ
headers magic =
    little_endian 2 0x5A4D
    ++ (replicate 58 0
        ++ (little_endian 4 64
            ++ (little_endian 4 0x4550
                ++ (little_endian 2 0x8664
                    ++ (little_endian 2 1
                        ++ (replicate 12 0
                            ++ (little_endian 2 128
                                ++ (little_endian 2 2 ++ little_endian 2 magic))))))))

abbrev optional : List ℕ
optional =
    replicate 14 0
    ++ (little_endian 4 0x1000
        ++ (replicate 4 0
            ++ (little_endian 8 0x400000
                ++ (replicate 24 0
                    ++ (little_endian 4 0x2000
                        ++ (little_endian 4 256
                            ++ (replicate 44 0
                                ++ (little_endian 4 2
                                    ++ (replicate 8 0
                                        ++ (little_endian 4 0x1000 ++ little_endian 4 40))))))))))

abbrev section : List ℕ
section =
    codes ".data"
    ++ (replicate 3 0
        ++ (little_endian 4 0x100
            ++ (little_endian 4 0x1000
                ++ (little_endian 4 46 ++ (little_endian 4 256 ++ replicate 16 0)))))

abbrev imports : ℕ → List ℕ
imports name_rva =
    little_endian 4 1
    ++ (replicate 8 0
        ++ (little_endian 4 name_rva
            ++ (replicate 4 0 ++ (replicate 20 0 ++ (codes "a.dll" ++ (0 ∷ []))))))

abbrev pub image_with : ℕ → ℕ → List ℕ
image_with magic name_rva = headers magic ++ (optional ++ (section ++ imports name_rva))

abbrev pub image : List ℕ
image = image_with 0x20B 0x1028

-- The name of the import stands past the end of the file.
abbrev pub stray_image : List ℕ
stray_image = image_with 0x20B 0x10F0
