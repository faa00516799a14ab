-- ===== src/Miptpd/Server/Tests/Packages.antt =====
-- The packages that come to and leave the transport daemon, at concrete inputs.
use in4230_mip.Prelude.{
  ℕ, ◌≡◌, refl, sym, none, some, [], ◌∷◌, length-replicate, replicate, map, code, read_at, All,
  arith,
}
use in4230_mip.Commons.MipdMessage.{MipdMessage}
use in4230_mip.Miptpd.Package
use in4230_mip.Miptpd.Package.{MiptpPackage}
use in4230_mip.Miptpd.SendJob.{SendJob}
use in4230_mip.Miptpd.SendJob.Slice.{IsJob}
use in4230_mip.Miptpd.Connection.{AppConnection, conn_sender}
use in4230_mip.Miptpd.Controller.{AppController, handle_mipd_package, handle_outgoing}
use in4230_mip.Miptpd.Controller.Registry.{IsSound, SoundAs}
use in4230_mip.Miptpd.Controller.Delivery.{deliver, handle_mipd_package_lem}
use in4230_mip.Miptpd.Controller.Outgoing.{handle_outgoing_overflow}
use in4230_mip.Miptpd.Controller.Sent.{
  IsBrief, BriefAs, BriefSender, all_messages, handle_outgoing_lem,
}
use in4230_mip.Miptpd.Server.Tests.{applications, packages, waiting, controller}

abbrev job : ℕ → SendJob
job size = record {
  port = 10;
  destination = 110;
  timeout = 0;
  last_ack = 0;
  content = replicate size 1;
  data_size = size;
  sliding_window = record { window_size = 10; sequence_base = 0; sequence_max = 11 };
}

abbrev sender : ℕ → AppConnection
sender size = record waiting { port = 10; status = conn_sender; s_job = some (job size) }

abbrev acknowledgement : MiptpPackage
acknowledgement = record {
  miptp_header = record { pl = 0; port = 10; psn = 2 };
  content = [];
  data_size = 0;
}

abbrev message : MipdMessage
message = record { mip_address = 110; data_size = 4; content = 40 ∷ 0 ∷ 2 ∷ 0 ∷ [] }

message_read : Package.deserialize message.content message.data_size ≡ some acknowledgement
unfolding Package.deserialize read_at
message_read = refl

both-IsSound : All IsSound (sender 4000 ∷ waiting ∷ [])
unfolding IsSound SoundAs
both-IsSound = ((job 4000, refl), (tt, tt))

handle_mipd_package_lem_example :
    (next : AppController applications) × handle_mipd_package applications
        (controller (sender 4000 ∷ waiting ∷ []))
        message
      ≡ some (code 1, next)
    × next.connections ≡ map (deliver acknowledgement) (sender 4000 ∷ waiting ∷ [])
handle_mipd_package_lem_example =
    handle_mipd_package_lem applications (controller (sender 4000 ∷ waiting ∷ [])) message
      acknowledgement message_read both-IsSound

IsJob-job : IsJob (job 4000)
IsJob-job = record { size = sym (length-replicate {A = ℕ} 4000 1); small = omega arith }

handle_outgoing_overflow_example :
    handle_outgoing applications packages (λ i. code 1) (controller (sender 4000 ∷ [])) ≡ none
handle_outgoing_overflow_example =
    handle_outgoing_overflow applications packages (λ i. code 1) (controller (sender 4000 ∷ []))
      (sender 4000) [] (job 4000) refl refl refl IsJob-job (omega arith) (omega arith)

-- two bytes for port 10
IsBrief-job : IsBrief (job 2)
IsBrief-job = record {
  is_job = record { size = refl; small = omega arith };
  small = omega arith;
  base = refl;
  room = omega arith;
}

abbrev peered : AppConnection
peered = record (sender 2) { connected_mip = 110 }

both-BriefSender : All BriefSender (peered ∷ waiting ∷ [])
unfolding BriefSender BriefAs
both-BriefSender = ((job 2, refl, IsBrief-job, omega arith), (tt, tt))

handle_outgoing_lem_example :
    handle_outgoing applications packages (λ i. code 9) (controller (peered ∷ waiting ∷ []))
    ≡ some (code 1, all_messages (peered ∷ waiting ∷ []))
handle_outgoing_lem_example =
    handle_outgoing_lem applications packages (λ i. 9) (controller (peered ∷ waiting ∷ []))
      both-BriefSender
