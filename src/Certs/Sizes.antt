-- ===== src/Certs/Sizes.antt =====
-- src/certs: the sizes of certificates, of their bodies and of whole chains in memory.
use csv_rs.Base.{◌≡◌, refl, IsArray}
use csv_rs.Version.{version}
use csv_rs.Crypto.Ecc as Ecc
use csv_rs.Crypto.Ecdsa as Ecdsa
use csv_rs.Certs.Ca.Data as Ca
use csv_rs.Certs.Csv.Data as Csv

pub csv_body-size : Csv.body.size ≡ 1044
unfolding Csv.body Csv.info Csv.pub_key version Ecc.pub_key
csv_body-size = refl

pub csv_certificate-size : Csv.certificate.size ≡ 2084
unfolding Csv.certificate Csv.body Csv.info Csv.pub_key Csv.signatures version Ecc.pub_key
    Ecdsa.signature
csv_certificate-size = refl

pub ca_body-size : Ca.body.size ≡ 576
unfolding Ca.body Ca.preamble Ca.info Ecc.pub_key
ca_body-size = refl

pub ca_certificate-size : Ca.certificate.size ≡ 832
unfolding Ca.certificate Ca.body Ca.preamble Ca.info Ecc.pub_key Ecdsa.signature
ca_certificate-size = refl

pub csv_body-IsArray : (b : Csv.Body) → Csv.IsBody b → IsArray 1044 (Csv.body.to_bytes b)
csv_body-IsArray b h = rw (← csv_body-size) (Csv.body-IsFaithful.to_bytes-IsArray b h)

pub ca_body-IsArray : (b : Ca.Body) → Ca.IsBody b → IsArray 576 (Ca.body.to_bytes b)
ca_body-IsArray b h = rw (← ca_body-size) (Ca.body-IsFaithful.to_bytes-IsArray b h)

pub csv_certificate-IsArray :
    (c : Csv.Certificate) → Csv.IsCertificate c → IsArray 2084 (Csv.certificate.to_bytes c)
csv_certificate-IsArray c h =
    rw (← csv_certificate-size) (Csv.certificate-IsFaithful.to_bytes-IsArray c h)

pub ca_certificate-IsArray :
    (c : Ca.Certificate) → Ca.IsCertificate c → IsArray 832 (Ca.certificate.to_bytes c)
ca_certificate-IsArray c h =
    rw (← ca_certificate-size) (Ca.certificate-IsFaithful.to_bytes-IsArray c h)
