-- ===== src/Api/Launch/Delivery.antt =====
-- src/api/launch/mod.rs: what a started launch delivers, what a measured one is given, and the lengths of what is encrypted.
use csv_rs.Base.{
  ℕ, ◌%◌, ◌^◌, ◌<◌, ◌≡◌, ◌↔◌, ◌≢◌, refl, sym, ap, ◌∙◌, arith, ◌∷◌, length, none, Outcome, ok, err,
  panicked,
}
use csv_rs.Error.{IoError}
use csv_rs.Version.{version}
use csv_rs.Crypto.Ecc
use csv_rs.Crypto.Ecdsa
use csv_rs.Certs.Csv.Data as Csv
use csv_rs.Api.Launch.Policy.{IsPolicy}
use csv_rs.Api.Launch.Session as Sessions
use csv_rs.Api.Launch.Secret.{Measurement, measurement, IsMeasurement, measurement-IsFaithful}
use csv_rs.Api.Launch.Types.{
  LaunchStart, launch_start, region, launch_start-of_bytes, region-of_bytes, start_new,
  update_data_new, measure_new,
}
use csv_rs.Api.Launch.Id
use csv_rs.Api.Launch.Command.{
  Command, command, KvmEncRegion, enc_region, Heap, place, Kernel, issue, answered, accepted,
  register, and_then,
}
use csv_rs.Api.Launch.Launcher as Launch
use csv_rs.Api.Launch.Launcher.{Launcher, New, Started, Measured, Places, Slice}
use csv_rs.Util.Heap.{place_here, place_elsewhere}
use csv_rs.Api.Launch.Watch.{Seen, watching}

-- The objects of a start stand at different places.
pub record Apart (at : Places) : Type 0 where
  pub first : at.certificate ≢ at.subcommand
  pub second : at.session ≢ at.subcommand
  pub third : at.session ≢ at.certificate
  pub certificate_fits : at.certificate < 256 ^ 8
  pub session_fits : at.session < 256 ^ 8

-- A command that starts a launch: at the place that it names stands a subcommand with the policy, and
-- with the places and lengths of the certificate and of the session.
pub record Delivered (cmd : Command) (seen : Heap) (csv : ℕ) (packet : Sessions.Start)
    : Type 0 where
  pub id : cmd.code ≡ 2
  pub fd : cmd.csv_fd ≡ csv % 2 ^ 32
  pub sub : LaunchStart
  pub reads : launch_start.of_bytes (seen cmd.data_addr) ≡ sub
  pub same_policy : sub.policy ≡ packet.policy
  pub no_handle : sub.handle ≡ 0
  pub same_cert : seen sub.dh_addr ≡ Csv.certificate.to_bytes packet.cert
  pub cert_len : length (seen sub.dh_addr) ≡ sub.dh_len
  pub same_session : seen sub.session_addr ≡ Sessions.session.to_bytes packet.session
  pub session_len : length (seen sub.session_addr) ≡ sub.session_len

-- What follows an answer does not change the kernel's state.
pub state_after :
    {S A B : Type 0} (r : S × Outcome IoError A) (make : A → B)
    → (and_then r (λ a s. (s, Outcome.ok (make a)))).0 ≡ r.0
state_after (s, ok a) make = refl
state_after (s, err e) make = refl
state_after (s, panicked) make = refl

-- The sizes fit their fields.
certificate-short : Csv.certificate.size % 2 ^ 32 ≡ Csv.certificate.size
unfolding Csv.certificate Csv.body Csv.signatures Csv.info Ecdsa.signature version Csv.pub_key
    Ecc.pub_key
certificate-short = refl

session-short : Sessions.session.size % 2 ^ 32 ≡ Sessions.session.size
unfolding Sessions.session Sessions.session_body Sessions.session_sig
session-short = refl

module _ (k : Kernel) (at : Places) (heap : Heap) where
  -- The same for any packet whose certificate and session have their sizes as bytes.
  pub start-Delivered_sized :
      (l : Launcher New) (packet : Sessions.Start) (s : Seen k.State)
      → IsPolicy packet.policy
      → length (Csv.certificate.to_bytes packet.cert) ≡ Csv.certificate.size
      → length (Sessions.session.to_bytes packet.session) ≡ Sessions.session.size
      → Apart at
      → (cmd : Command) × (seen : Heap) × ((Launch.start (watching k) at heap l packet s).0.commands
          ≡ (cmd, seen) ∷ s.commands)
        × Delivered cmd seen l.csv packet
        × (Launch.start_raw (watching k) at heap l packet.policy packet.cert packet.session s
            ≡ Launch.start (watching k) at heap l packet s)
  unfolding Launch.start Launch.start_raw issue command start_new
  start-Delivered_sized l packet s policy cert session apart =
      let sub = start_new packet.policy at.certificate at.session in
      let under =
        place at.certificate (Csv.certificate.to_bytes packet.cert)
          (place at.session (Sessions.session.to_bytes packet.session) heap) in
      let seen = place at.subcommand (launch_start.to_bytes sub) under in
      let cert_there : seen at.certificate ≡ Csv.certificate.to_bytes packet.cert =
        place_elsewhere at.subcommand at.certificate _ under apart.first
        ∙ place_here at.certificate _ _ in
      let session_there : seen at.session ≡ Sessions.session.to_bytes packet.session =
        place_elsewhere at.subcommand at.session _ under apart.second
        ∙ place_elsewhere at.certificate at.session _ _ apart.third
        ∙ place_here at.session _ _ in
      (
        command Id.launch_start l.csv at.subcommand,
        seen,
        ap (λ (q : Seen k.State). q.commands) (state_after _ _),
        record {
          id = refl;
          fd = refl;
          sub = sub;
          reads =
              ap launch_start.of_bytes (place_here at.subcommand _ _)
              ∙ launch_start-of_bytes sub (
                omega arith,
                (
                  policy,
                  (apart.certificate_fits, (omega arith, (apart.session_fits, omega arith))),
                ),
              );
          same_policy = refl;
          no_handle = refl;
          same_cert = cert_there;
          cert_len = ap length cert_there ∙ cert ∙ sym certificate-short;
          same_session = session_there;
          session_len = ap length session_there ∙ session ∙ sym session-short;
        },
        refl,
      )

  -- Starting a launch with a packet of the Rust type, its objects at places apart: the kernel sees one
  -- command more, that delivers the packet; and `start_raw` with the parts of a packet is `start`.
  pub start-Delivered :
      (l : Launcher New) (packet : Sessions.Start) (s : Seen k.State)
      → Sessions.IsStart packet
      → Apart at
      → (cmd : Command) × (seen : Heap) × ((Launch.start (watching k) at heap l packet s).0.commands
          ≡ (cmd, seen) ∷ s.commands)
        × Delivered cmd seen l.csv packet
        × (Launch.start_raw (watching k) at heap l packet.policy packet.cert packet.session s
            ≡ Launch.start (watching k) at heap l packet s)
  start-Delivered l packet s (policy, (cert, session)) apart =
      start-Delivered_sized l packet s policy
        (Csv.certificate-IsFaithful.to_bytes-IsArray packet.cert cert).size
        (Sessions.session-IsFaithful.to_bytes-IsArray packet.session session).size apart

  -- A kernel that accepts the region and the command for new data, that stands apart from the
  -- subcommand at a place of 64 bits: it has registered the whole of the data, and has got the
  -- command for new data, with the descriptor of the device, the place where the data stands and
  -- the lowest 32 bits of its length; these are the whole exactly if the data is shorter than 2^32
  -- bytes. The call succeeds in either case.
  pub update_data-lengths :
      (l : Launcher Started) (added : Slice) (s : Seen k.State)
      → added.addr < 256 ^ 8
      → added.addr ≢ at.subcommand
      → ((t : k.State) (vm_fd : ℕ) (area : KvmEncRegion) → (k.reg_region t vm_fd area).1 ≡ none)
      → ((t : k.State) (vm_fd : ℕ) (cmd : Command) (h : Heap) → (k.op t vm_fd cmd h).failure ≡ none)
      → (cmd : Command) × (seen : Heap) × (after : k.State) × (Launch.update_data
            (watching k)
            at
            heap
            l
            added
            s
          ≡ (
            record {
              state = after;
              commands = (cmd, seen) ∷ s.commands;
              regions = record { addr = added.addr; size = length added.bytes } ∷ s.regions;
            },
            ok tt,
          ))
        × (cmd.code ≡ 3)
        × (cmd.csv_fd ≡ l.csv % 2 ^ 32)
        × (seen added.addr ≡ added.bytes)
        × (region.of_bytes (seen cmd.data_addr)
            ≡ record { addr = added.addr; len = length added.bytes % 2 ^ 32 })
        × ((length added.bytes % 2 ^ 32 ≡ length added.bytes) ↔ (length added.bytes < 2 ^ 32))
  unfolding Launch.update_data issue register answered accepted command enc_region update_data_new
  update_data-lengths l added s fits apart registers accepts = (
    command Id.launch_update_data l.csv at.subcommand,
    place at.subcommand (region.to_bytes (update_data_new added.addr added.bytes))
        (place added.addr added.bytes heap),
    (k.op (k.reg_region s.state l.vm_fd (enc_region added.addr added.bytes)).0 l.vm_fd
        (command Id.launch_update_data l.csv at.subcommand)
        (place at.subcommand (region.to_bytes (update_data_new added.addr added.bytes))
          (place added.addr added.bytes heap))).state,
    rw (registers, accepts) refl,
    refl,
    refl,
    place_elsewhere at.subcommand added.addr _ _ apart ∙ place_here added.addr _ heap,
    ap region.of_bytes (place_here at.subcommand _ _)
        ∙ region-of_bytes (update_data_new added.addr added.bytes) fits (omega arith),
    (λ h. omega (arith, h), λ h. omega (arith, h)),
  )

  -- A kernel that accepts the command for a measurement and leaves one of the Rust type at the place for
  -- it: the launcher goes on with that measurement, and with handle and descriptors as before.
  pub measurement-measure :
      (l : Launcher Started) (m : Measurement) (s : k.State)
      → let reply =
          k.op s l.vm_fd
            (command Id.launch_measure l.csv at.subcommand)
            (place at.subcommand (region.to_bytes (measure_new at.measurement)) heap) in
        IsMeasurement m
        → reply.failure ≡ none
        → reply.heap at.measurement ≡ measurement.to_bytes m
        → (n : Launcher Measured) × (Launch.measure k at heap l s ≡ (reply.state, ok n))
          × (Launch.measurement n ≡ m)
          × (n.state.handle ≡ l.state.handle)
          × (n.vm_fd ≡ l.vm_fd)
          × (n.csv ≡ l.csv)
  unfolding Launch.measure Launch.measurement issue answered
  measurement-measure l m s fits accepts writes = (
    record {
      state = record { handle = l.state.handle; measured = m };
      vm_fd = l.vm_fd;
      csv = l.csv;
    },
    rw (accepts, writes, measurement-IsFaithful.of_bytes-to_bytes m fits) refl,
    refl,
    refl,
    refl,
    refl,
  )
