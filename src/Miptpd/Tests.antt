-- ===== src/Miptpd/Tests.antt =====
-- The transport daemon's packages, windows, jobs and connections at concrete inputs.
use in4230_mip.Prelude.{
  code, ℕ, ◌+◌, ◌-◌, ◌*◌, ◌%◌, ◌≡◌, refl, sym, true, none, some, List, [], ◌∷◌, length-replicate,
  take, drop, replicate, u16_mod, arith,
}
use in4230_mip.Commons.LinkedList.{plain}
use in4230_mip.Miptpd.Window.{window_create, acknowledged, largest, acknowledged-largest}
use in4230_mip.Miptpd.Package
use in4230_mip.Miptpd.Package.{MiptpPackage, IsPackage}
use in4230_mip.Miptpd.Package.Wire.{deserialize-serialize_shift}
use in4230_mip.Commons.ClientPackage.{ClientPackage}
use in4230_mip.Miptpd.ReceiveJob.{
  ReceiveJob, no_packages, receive_job_create, receive_all, receive_job_is_complete, next_acks,
  receive_job_result, receive_all-unchanged,
}
use in4230_mip.Miptpd.Connection.{AppConnection, conn_sender}
use in4230_mip.Miptpd.Connection.Progress.{receive_each, status_of, status_at, sender_progress}
use in4230_mip.Miptpd.SendJob.{SendJob, next_package, next_packages, is_complete}
use in4230_mip.Miptpd.SendJob.Slice.{
  IsJob, carried, next_packages-carried, next_package_wraps, is_complete_lem,
}

acknowledged-largest_example :
    (acknowledged (window_create 0 10) (3 ∷ 1 ∷ 4 ∷ 4 ∷ [])).sequence_base
      ≡ largest 0 (3 ∷ 1 ∷ 4 ∷ 4 ∷ [])
    × (acknowledged (window_create 0 10) (3 ∷ 1 ∷ 4 ∷ 4 ∷ [])).sequence_max
      ≡ (largest 0 (3 ∷ 1 ∷ 4 ∷ 4 ∷ []) + 11) % u16_mod
acknowledged-largest_example =
    acknowledged-largest 10 (3 ∷ 1 ∷ 4 ∷ 4 ∷ [])
      (omega arith, (omega arith, (omega arith, (omega arith, tt))))

abbrev parcel : MiptpPackage
parcel = record {
  miptp_header = record { pl = 1; port = 80; psn = 7 };
  content = 1 ∷ 2 ∷ 3 ∷ [];
  data_size = 3;
}

IsPackage-parcel : IsPackage parcel
IsPackage-parcel = record {
  pl = omega arith;
  port = omega arith;
  psn = omega arith;
  size = omega arith;
  content = refl;
}

-- the data 1, 2, 3 comes back as 3, 0, 1
deserialize-serialize_shift_example :
    (out : List ℕ) × (Package.serialize (replicate 9 0) parcel ≡ some (7, out))
    × (Package.deserialize out 7 ≡ some (record parcel { content = 3 ∷ 0 ∷ 1 ∷ [] }))
deserialize-serialize_shift_example =
    deserialize-serialize_shift parcel IsPackage-parcel (replicate 9 0) (omega arith)

abbrev job : ℕ → ℕ → SendJob
job base size = record {
  port = 80;
  destination = 20;
  timeout = 1000;
  last_ack = 0;
  content = replicate size 1;
  data_size = size;
  sliding_window = record { window_size = 10; sequence_base = base; sequence_max = base + 11 };
}

IsJob-job : IsJob (job 1 4000)
IsJob-job = record { size = sym (length-replicate {A = ℕ} 4000 1); small = omega arith }

next_packages-carried_example :
    carried (next_packages (plain MiptpPackage) (job 1 4000))
    ≡ take (11 * 1492) (drop (1 * 1492) (replicate 4000 1))
next_packages-carried_example =
    next_packages-carried (plain MiptpPackage) (job 1 4000) IsJob-job (omega arith) (omega arith)

IsJob-large : IsJob (job 40 60000)
IsJob-large = record { size = sym (length-replicate {A = ℕ} 60000 1); small = omega arith }

next_package_wraps_example :
    (p : MiptpPackage) × next_package (job 40 60000) 44 ≡ some p
    × p.content ≡ take 1492 (drop (44 * 1492 - 65_536) (replicate 60000 1))
    × p.miptp_header.psn ≡ 44
next_package_wraps_example =
    next_package_wraps (job 40 60000) IsJob-large 44 (omega arith) (omega arith)
      (omega (arith, length-replicate {A = ℕ} 60000 1))

-- one package of data counts as sent before anything is acknowledged
is_complete_lem_example : is_complete (job 0 1000) ≡ true
is_complete_lem_example = is_complete_lem (job 0 1000) (omega arith) (omega arith)

receive_all-unchanged_example :
    (done : ReceiveJob) × receive_all
        (receive_job_create 80 1000)
        ((20, parcel) ∷ (20, parcel) ∷ [])
      ≡ some (code 1 ∷ code 1 ∷ [], done)
    × done ≡ receive_job_create 80 1000
    × receive_job_is_complete done ≡ true
    × next_acks done ≡ (no_packages, done)
    × (result : ClientPackage) × receive_job_result 1 done ≡ some result
    × result.content ≡ []
receive_all-unchanged_example = receive_all-unchanged 80 1000 1 ((20, parcel) ∷ (20, parcel) ∷ [])

abbrev connection : AppConnection
connection = record {
  socket = 9;
  port = 80;
  connected_mip = 20;
  status = conn_sender;
  r_job = none;
  s_job = some (job 0 4000);
}

abbrev ack : ℕ → ℕ × MiptpPackage
ack nr = (20, record parcel { miptp_header = record { pl = 0; port = 80; psn = nr } })

sender_progress_example :
    status_of (receive_each connection (ack 2 ∷ ack 1 ∷ []))
    ≡ some (status_at 4000 (largest 0 (2 ∷ 1 ∷ [])))
sender_progress_example =
    sender_progress connection (job 0 4000) (ack 2) (ack 1 ∷ []) refl refl (omega arith)
      (omega arith)
