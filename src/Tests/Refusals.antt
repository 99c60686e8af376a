-- ===== src/Tests/Refusals.antt =====
-- An upload to a file that is there, and a download of one that is not.
use foc_project.Prelude.{◌≡◌, refl, [], ◌∷◌, arith, replicate, take, drop}
use foc_project.Memory as M
use foc_project.Words as W
use foc_project.Memory.{Buffer, ok}
use foc_project.Packets.Codes.{upload_req, download_req}
use foc_project.Packets.Upload.Ack as UploadAck
use foc_project.Packets.Download.Ack as DownloadAck
use foc_project.Session.{nil, returned, faulted}
use foc_project.Session.Delivery.{Delivered}
use foc_project.Server.Transfers.{upload_file, download_file}
use foc_project.Server.Transfers.Refusals.{upload_file-refused, download_file-missing}
use foc_project.Tests.Toy.{toy_platform, toy-IsCcm}
use foc_project.Tests.Ready.{toy_Ready}
use foc_project.Tests.Transfers.{
  a_name, short_a, start, begin, upload_request, upload_request_made, download_request,
  download_request_made, a_exists, a_is_new,
}

abbrev refuse : Buffer
refuse = upload_req ∷ 0 ∷ []

refuse_made : UploadAck.serialize (UploadAck.make 0) ≡ ok refuse
unfolding M.zeros M.write UploadAck.make UploadAck.serialize replicate take drop
refuse_made = refl

abbrev missing : Buffer
missing = download_req ∷ 0 ∷ 0 ∷ 0 ∷ 0 ∷ 1 ∷ []

missing_made : DownloadAck.serialize toy_platform.host (DownloadAck.make_failed 1) ≡ ok missing
unfolding M.zeros M.write W.store32 W.htonl DownloadAck.make_failed DownloadAck.serialize replicate
    take drop
missing_made = refl

upload_file-refused_example :
    ((upload_file toy_platform upload_request start).0 ≡ returned nil)
    × Delivered start refuse (upload_file toy_platform upload_request start).1
upload_file-refused_example =
    upload_file-refused toy-IsCcm start a_name upload_request refuse 17 short_a (omega arith)
      upload_request_made a_exists refuse_made
      (toy_Ready start refuse (3 ∷ 4 ∷ []) _ _ refl refl (omega arith) refl refl (omega arith))

download_file-missing_example :
    ((download_file toy_platform download_request begin).0 ≡ faulted)
    × Delivered begin missing (download_file toy_platform download_request begin).1
download_file-missing_example =
    download_file-missing toy-IsCcm begin a_name download_request missing short_a
      download_request_made a_is_new missing_made
      (toy_Ready begin missing (3 ∷ 4 ∷ []) _ _ refl refl (omega arith) refl refl (omega arith))
