-- ===== src/Session/Inject.antt =====
-- src/session/mod.rs and src/api/launch/mod.rs: a secret on its way from the tenant to the kernel.
use csv_rs.Base.{
  ℕ, ◌%◌, ◌^◌, ◌<◌, ◌≡◌, ◌≢◌, refl, sym, ap, ◌∙◌, arith, Bytes, ◌∷◌, ◌++◌, length, length-append,
  ok,
}
use csv_rs.Util.Memory.{length-le_bytes, le_bytes}
use csv_rs.Util.Heap.{Heap, place, place_here, place_elsewhere}
use csv_rs.Crypto.Encrypt.{xor_bytes}
use csv_rs.Api.Launch.Secret.{HeaderFlags, Header, header, Secret}
use csv_rs.Api.Launch.Types.{LaunchSecret, launch_secret, launch_secret-of_bytes, secret_new}
use csv_rs.Api.Launch.Id
use csv_rs.Api.Launch.Command.{Command, command, Kernel, issue}
use csv_rs.Api.Launch.Launcher as Launch
use csv_rs.Api.Launch.Launcher.{Launcher, Measured, Places}
use csv_rs.Api.Launch.Watch.{Seen, watching}
use csv_rs.Api.Launch.Delivery.{state_after}
use csv_rs.Session.Symm.{SymmLib, SymmLaws}
use csv_rs.Session.Channel.{Session}
use csv_rs.Session.Attest.{Verified, secret}
use csv_rs.Session.Steps.{secret-opens}

-- The objects of a secret stand at different places.
pub record SecretApart (at : Places) : Type 0 where
  pub first : at.header ≢ at.subcommand
  pub second : at.ciphertext ≢ at.subcommand
  pub third : at.ciphertext ≢ at.header
  pub header_fits : at.header < 256 ^ 8
  pub ciphertext_fits : at.ciphertext < 256 ^ 8

-- A command that injects a secret: at the place that it names stands a subcommand with the places and
-- lengths of the header and of the ciphertext, and with the place in the guest.
pub record Injected (cmd : Command) (seen : Heap) (csv guest : ℕ) (packet : Secret) : Type 0 where
  pub id : cmd.code ≡ 5
  pub fd : cmd.csv_fd ≡ csv % 2 ^ 32
  pub sub : LaunchSecret
  pub reads : launch_secret.of_bytes (seen cmd.data_addr) ≡ sub
  pub same_header : seen sub.hdr_addr ≡ header.to_bytes packet.header
  pub header_len : length (seen sub.hdr_addr) ≡ sub.hdr_len
  pub same_text : seen sub.trans_addr ≡ packet.ciphertext
  pub text_len : length (seen sub.trans_addr) ≡ sub.trans_len
  pub in_guest : sub.guest_addr ≡ guest
  pub guest_len : sub.guest_len ≡ length packet.ciphertext

length-header :
    (h : Header) → length h.iv ≡ 16 → length h.mac ≡ 32 → length (header.to_bytes h) ≡ 52
unfolding header
length-header h size_iv size_mac = omega (
  arith,
  length-append (le_bytes 4 h.flags) (h.iv ++ h.mac),
  length-append h.iv h.mac,
  length-le_bytes 4 h.flags,
  size_iv,
  size_mac,
)

header-short : header.size % 2 ^ 32 ≡ 52
unfolding header
header-short = refl

module _ (k : Kernel) (at : Places) (heap : Heap) where
  pub inject-Injected :
      (l : Launcher Measured) (packet : Secret) (guest : ℕ) (s : Seen k.State)
      → length packet.header.iv ≡ 16
      → length packet.header.mac ≡ 32
      → length packet.ciphertext < 2 ^ 32
      → guest < 256 ^ 8
      → SecretApart at
      → (cmd : Command) × (seen : Heap) × ((Launch.inject
            (watching k)
            at
            heap
            l
            packet
            guest
            s).0.commands
          ≡ (cmd, seen) ∷ s.commands)
        × Injected cmd seen l.csv guest packet
  unfolding Launch.inject issue command secret_new
  inject-Injected l packet guest s size_iv size_mac short fits apart =
      let sub = secret_new at.header guest at.ciphertext packet.ciphertext in
      let text = place at.ciphertext packet.ciphertext heap in
      let under = place at.header (header.to_bytes packet.header) text in
      let seen = place at.subcommand (launch_secret.to_bytes sub) under in
      let header_there : seen at.header ≡ header.to_bytes packet.header =
        place_elsewhere at.subcommand at.header _ under apart.first ∙ place_here at.header _ text in
      let text_there : seen at.ciphertext ≡ packet.ciphertext =
        place_elsewhere at.subcommand at.ciphertext _ under apart.second
        ∙ place_elsewhere at.header at.ciphertext _ text apart.third
        ∙ place_here at.ciphertext _ heap in
      let whole : length packet.ciphertext ≡ length packet.ciphertext % 2 ^ 32 =
        omega (arith, short) in
      (
        command Id.launch_secret l.csv at.subcommand,
        seen,
        ap (λ (q : Seen k.State). q.commands) (state_after _ _),
        record {
          id = refl;
          fd = refl;
          sub = sub;
          reads =
              ap launch_secret.of_bytes (place_here at.subcommand _ under)
              ∙ launch_secret-of_bytes sub (
                apart.header_fits,
                (omega arith, (fits, (omega arith, (apart.ciphertext_fits, omega arith)))),
              );
          same_header = header_there;
          header_len =
              ap length header_there
              ∙ length-header packet.header size_iv size_mac
              ∙ sym header-short;
          same_text = text_there;
          text_len = ap length text_there ∙ whole;
          in_guest = refl;
          guest_len = sym whole;
        },
      )

  -- A secret that a verified session makes, of fewer than 2^32 bytes, under a key of 16 bytes and
  -- with the 16 random bytes that are drawn for it, and that a measured launcher injects, its objects at places apart: the kernel sees one command
  -- more, that names the header, the ciphertext and the place in the guest, and what stands at the place of
  -- the ciphertext opens to the secret, with the key of the session and the vector in the packet.
  pub inject-secret :
      (y : SymmLib) (symm : SymmLaws y) (self : Session (Verified y)) (flags : HeaderFlags)
      (plain iv : Bytes) (l : Launcher Measured) (guest : ℕ) (s : Seen k.State)
      → length self.tek ≡ 16
      → length iv ≡ 16
      → y.rand_bytes 5 16 ≡ ok iv
      → length plain < 2 ^ 32
      → guest < 256 ^ 8
      → SecretApart at
      → (packet : Secret) × (cmd : Command) × (seen : Heap) × (secret y self flags plain
          ≡ ok packet)
        × ((Launch.inject (watching k) at heap l packet guest s).0.commands
            ≡ (cmd, seen) ∷ s.commands)
        × (injected : Injected cmd seen l.csv guest packet) × (xor_bytes
              (symm.stream self.tek packet.header.iv (length plain))
              (seen injected.sub.trans_addr)
            ≡ plain)
  inject-secret y symm self flags plain iv l guest s size_key size_iv drawn short fits apart =
      let (packet, made, same_flags, same_iv, same_length, opens, same_mac) =
        secret-opens y symm self flags plain iv size_key size_iv drawn in
      let (cmd, seen, delivered, injected) =
        inject-Injected l packet guest s (ap length same_iv ∙ size_iv)
          (ap length same_mac ∙ symm.length-mac self.tik _) (omega (arith, same_length, short)) fits
          apart in
      (
        packet,
        cmd,
        seen,
        made,
        delivered,
        injected,
        ap (xor_bytes (symm.stream self.tek packet.header.iv (length plain))) injected.same_text
            ∙ opens,
      )
