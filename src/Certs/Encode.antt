-- ===== src/Certs/Encode.antt =====
-- src/certs/chain.rs: what `encode` writes of a chain is not what `decode` reads.
use csv_rs.Base.{
  append_assoc, [], ◌++◌, ◌≡◌, ◌≢◌, Bytes, length, length-append, IsArray, ok, arith, ap,
}
use csv_rs.Util.{save}
use csv_rs.Util.Memory.{append-IsArray}
use csv_rs.Certs.Sizes.{
  csv_body-IsArray, ca_body-IsArray, csv_certificate-IsArray, ca_certificate-IsArray,
}
use csv_rs.Certs.Ca.Data as CaData
use csv_rs.Certs.Csv.Data as CsvData
use csv_rs.Certs.Ca.Cert as CaCert
use csv_rs.Certs.Csv.Cert as CsvCert
use csv_rs.Certs.Ca.Chain as CaChain
use csv_rs.Certs.Csv.Chain as CsvChain
use csv_rs.Certs.Ca.ChainRoundTrip as Ca
use csv_rs.Certs.Csv.ChainRoundTrip as Csv
use csv_rs.Certs.Chain.{Chain, decode, encode}
use csv_rs.Certs.RoundTrip.{image, IsChain, decode-iff-image}

-- The six bodies.
abbrev bodies : Chain → Bytes
bodies c =
    CsvData.body.to_bytes c.csv.pdh.body
    ++ (CsvData.body.to_bytes c.csv.pek.body
        ++ (CsvData.body.to_bytes c.csv.oca.body
            ++ (CsvData.body.to_bytes c.csv.cek.body
                ++ (CaData.body.to_bytes c.ca.hsk.body ++ CaData.body.to_bytes c.ca.hrk.body))))

encode-eq-bodies : (c : Chain) → encode c [] ≡ ok (bodies c)
unfolding encode CsvCert.encode CaCert.encode save
encode-eq-bodies c = simp append_assoc

bodies-IsArray : (c : Chain) → IsChain c → IsArray 5328 (bodies c)
bodies-IsArray c h = append-IsArray 1044 4284 _ _ (csv_body-IsArray _ h.csv.pdh.0) (
    append-IsArray 1044 3240 _ _ (csv_body-IsArray _ h.csv.pek.0) (
      append-IsArray 1044 2196 _ _ (csv_body-IsArray _ h.csv.oca.0) (
        append-IsArray 1044 1152 _ _ (csv_body-IsArray _ h.csv.cek.0) (
          append-IsArray 576 576 _ _ (ca_body-IsArray _ h.ca.hsk.0)
            (ca_body-IsArray _ h.ca.hrk.0)))))

csv_image-IsArray : (c : CsvChain.Chain) → Csv.IsChain c → IsArray 8336 (Csv.image c)
unfolding Csv.image
csv_image-IsArray c h = append-IsArray 2084 6252 _ _ (csv_certificate-IsArray c.pdh h.pdh) (
    append-IsArray 2084 4168 _ _ (csv_certificate-IsArray c.pek h.pek) (
      append-IsArray 2084 2084 _ _ (csv_certificate-IsArray c.oca h.oca)
        (csv_certificate-IsArray c.cek h.cek)))

ca_image-IsArray : (c : CaChain.Chain) → Ca.IsChain c → IsArray 1664 (Ca.image c)
unfolding Ca.image
ca_image-IsArray c h =
    append-IsArray 832 832 _ _ (ca_certificate-IsArray c.hsk h.hsk)
      (ca_certificate-IsArray c.hrk h.hrk)

-- The image of a whole chain.
pub image-IsArray : (c : Chain) → IsChain c → IsArray 10000 (image c)
unfolding image
image-IsArray c h =
    append-IsArray 8336 1664 _ _ (csv_image-IsArray c.csv h.csv) (ca_image-IsArray c.ca h.ca)

-- Of a chain that `decode` could have read, `encode` writes 5328 bytes, the bodies of PDH, PEK,
-- OCA, CEK, HSK and HRK in this order without their signatures, and `decode` reads no chain
-- whatever from them.
pub decode-encode :
    (c : Chain)
    → IsChain c
    → let written =
        CsvData.body.to_bytes c.csv.pdh.body
        ++ (CsvData.body.to_bytes c.csv.pek.body
            ++ (CsvData.body.to_bytes c.csv.oca.body
                ++ (CsvData.body.to_bytes c.csv.cek.body
                    ++ (CaData.body.to_bytes c.ca.hsk.body
                        ++ CaData.body.to_bytes c.ca.hrk.body)))) in
      (encode c [] ≡ ok written)
      × (length written ≡ 5328)
      × ((c' : Chain) (rest : Bytes) → decode written ≢ ok (c', rest))
decode-encode c h = (
  encode-eq-bodies c,
  (bodies-IsArray c h).size,
  λ c' rest read.
      let (split, fits) = (decode-iff-image (bodies c) c' rest (bodies-IsArray c h).bytes).0 read in
      absurd (
        omega (
          arith,
          (bodies-IsArray c h).size,
          ap length split,
          length-append (image c') rest,
          (image-IsArray c' fits).size,
        )),
)
