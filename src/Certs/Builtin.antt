-- ===== src/Certs/Builtin.antt =====
-- src/certs/builtin: the root certificate in the binary.
use csv_rs.Base.{◌∷◌, ◌++◌, [], ◌≡◌, refl, ascii, Bytes, replicate, take, ok}
use csv_rs.Util.{load, read_exact}
use csv_rs.Util.Memory.{le_value}
use csv_rs.Crypto.Ecc
use csv_rs.Crypto.Ecdsa
use csv_rs.Certs.Usage as Usages
use csv_rs.Certs.Ca.Data.{Certificate, body, preamble, info}
use csv_rs.Certs.Ca.Cert.{decode, usage}

-- `HRK`, the bytes of hrk.cert.
abbrev pub hrk : Bytes
hrk =
    (0x01 ∷ 0x00 ∷ 0x00 ∷ 0x00 ∷ 0x3a ∷ 0xe8 ∷ 0x6a ∷ 0x97 ∷ 0x01 ∷ 0x35 ∷ 0x5c ∷ 0xce ∷ 0x33 ∷ 0x3a
      ∷ 0x58 ∷ 0x9d ∷ 0xe2 ∷ 0x15 ∷ 0x83 ∷ 0xd7 ∷ 0x3a ∷ 0xe8 ∷ 0x6a ∷ 0x97 ∷ 0x01 ∷ 0x35 ∷ 0x5c
      ∷ 0xce ∷ 0x33 ∷ 0x3a ∷ 0x58 ∷ 0x9d ∷ 0xe2 ∷ 0x15 ∷ 0x83 ∷ 0xd7 ∷ [])
    ++ replicate 28 0
    ++ (0x03 ∷ 0x00 ∷ 0x00 ∷ 0x00 ∷ 0x2d ∷ 0xf6 ∷ 0xc2 ∷ 0x92 ∷ 0x1d ∷ 0xf2 ∷ 0xf5 ∷ 0x2a ∷ 0x50
        ∷ 0x1f ∷ 0xcd ∷ 0x85 ∷ 0xe7 ∷ 0x35 ∷ 0x09 ∷ 0xc8 ∷ 0x75 ∷ 0x3a ∷ 0x56 ∷ 0x09 ∷ 0xdb ∷ 0x02
        ∷ 0xd7 ∷ 0xf3 ∷ 0x4c ∷ 0xf1 ∷ 0xa4 ∷ 0x62 ∷ 0x4d ∷ 0xe1 ∷ 0x62 ∷ 0xbe ∷ [])
    ++ replicate 40 0
    ++ (0x46 ∷ 0xb9 ∷ 0x1e ∷ 0xb4 ∷ 0x68 ∷ 0x4d ∷ 0x74 ∷ 0x38 ∷ 0x47 ∷ 0x88 ∷ 0xbe ∷ 0xb9 ∷ 0x10
        ∷ 0x0c ∷ 0x64 ∷ 0x4a ∷ 0x38 ∷ 0x95 ∷ 0x4e ∷ 0x16 ∷ 0x97 ∷ 0x8b ∷ 0x4f ∷ 0x58 ∷ 0x15 ∷ 0x70
        ∷ 0xbb ∷ 0x57 ∷ 0x3a ∷ 0x12 ∷ 0xab ∷ 0x3b ∷ [])
    ++ replicate 40 0
    ++ (0x0d ∷ 0x00 ∷ 0x48 ∷ 0x59 ∷ 0x47 ∷ 0x4f ∷ 0x4e ∷ 0x2d ∷ 0x53 ∷ 0x53 ∷ 0x44 ∷ 0x2d ∷ 0x48
        ∷ 0x52 ∷ 0x4b ∷ [])
    ++ replicate 349 0
    ++ (0x29 ∷ 0x65 ∷ 0xff ∷ 0xee ∷ 0x8c ∷ 0xe0 ∷ 0x48 ∷ 0xa0 ∷ 0xcb ∷ 0x8e ∷ 0x0b ∷ 0x3b ∷ 0xe6
        ∷ 0xce ∷ 0xb7 ∷ 0x58 ∷ 0x09 ∷ 0x94 ∷ 0x33 ∷ 0x62 ∷ 0x8d ∷ 0xf7 ∷ 0xe6 ∷ 0x08 ∷ 0x47 ∷ 0xc8
        ∷ 0xbe ∷ 0x40 ∷ 0xa4 ∷ 0xda ∷ 0xb6 ∷ 0xb1 ∷ [])
    ++ replicate 40 0
    ++ (0x50 ∷ 0xd7 ∷ 0x6b ∷ 0xe3 ∷ 0x4f ∷ 0xbb ∷ 0x2b ∷ 0x85 ∷ 0x7c ∷ 0x56 ∷ 0xa3 ∷ 0x51 ∷ 0xf3
        ∷ 0x23 ∷ 0xd5 ∷ 0x81 ∷ 0xab ∷ 0x54 ∷ 0x25 ∷ 0x49 ∷ 0xc6 ∷ 0xa1 ∷ 0xc9 ∷ 0xb5 ∷ 0x46 ∷ 0xd3
        ∷ 0x79 ∷ 0x8e ∷ 0xde ∷ 0x21 ∷ 0x43 ∷ 0x8e ∷ [])
    ++ replicate 152 0

-- They are one whole certificate: a root's that names itself, on the SM2 curve, of the user
-- "HYGON-SSD-HRK".
pub decode-hrk :
    (c : Certificate) × (decode hrk ≡ ok (c, []))
    × (usage c ≡ Usages.hrk)
    × (c.body.preamble.info.kid ≡ c.body.preamble.info.sid)
    × (c.body.pubkey.g ≡ Ecc.sm2_256)
    × (take c.body.uid_size c.body.user_id ≡ ascii "HYGON-SSD-HRK")
unfolding decode usage load read_exact body preamble info Ecc.pub_key Ecdsa.signature le_value
    replicate
decode-hrk = (_, refl, refl, refl, refl, refl)
