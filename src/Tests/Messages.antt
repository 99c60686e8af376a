-- ===== src/Tests/Messages.antt =====
-- Messages, counters and the login, at concrete inputs.
use foc_project.Prelude.{
  ℕ, ◌+◌, ◌-◌, ◌%◌, sym, ◌<◌, ◌≤◌, ◌^◌, ◌≡◌, ◌≢◌, ◌↔◌, refl, some, [], ◌∷◌, ◌++◌, length, take,
  replicate, length-replicate, arith,
}
use foc_project.Memory.{Buffer, ok, thrown, undefined, read, strncpy, zeros, ◌>>=◌}
use foc_project.Memory.Laws.{length-strncpy, length-zeros}
use foc_project.Words.{little, big, be_bytes, le_bytes, store32, htonl, ntohl, load64}
use foc_project.Security.Evp.{tag_length}
use foc_project.Security.Login.{Vector, serialize_m3, deserialize_m3, serialize_m4, deserialize_m4}
use foc_project.Security.Login.Laws.{
  IsBacked, IsM3, copied, message, deserialize_m3-serialize_m3, serialize_m3_leak,
  deserialize_m3_overrun, deserialize_m4-serialize_m4,
}
use foc_project.Packets.Codes.{upload_req, rename_req}
use foc_project.Packets.Wrapper
use foc_project.Packets.Wrapper.{Wrapper}
use foc_project.Packets.Wrapper.Laws.{
  wrapper_round_trip, serialize-deserialize, deserialize_short, create_aad-endian,
}
use foc_project.Packets.Upload.M1 as UploadM1
use foc_project.Packets.Rename.M1 as RenameM1
use foc_project.Packets.Download.Ack as DownloadAck
use foc_project.Packets.Listing.M2 as ListM2
use foc_project.Packets.Listing.Names.{listed, listed-c_string}
use foc_project.Tests.Toy.{toy_evp, toy-IsCcm}
use foc_project.Tests.Ready.{toy_Fits, toy_sealed, toy_opens}

abbrev key : Buffer
key = 1 ∷ 2 ∷ []

abbrev iv : Buffer
iv = 7 ∷ 8 ∷ []

abbrev wrapper : Wrapper
wrapper = Wrapper.make key 5 (9 ∷ 10 ∷ [])

wrapper_round_trip_example :
    (Wrapper.serialize little toy_evp wrapper (some iv)
      >>= Wrapper.deserialize little toy_evp wrapper.session_key)
    ≡ ok wrapper
unfolding Wrapper.make
wrapper_round_trip_example =
    wrapper_round_trip little toy_evp toy-IsCcm wrapper iv
      (toy_Fits 5 key iv (9 ∷ 10 ∷ []) (omega arith) refl refl (omega arith))
      (toy_sealed key iv _ (9 ∷ 10 ∷ []) refl refl (omega arith))

-- The bytes of the counter 5, as `htonl` leaves them.
abbrev packet_5 : Buffer
packet_5 = iv ++ ((0 ∷ 0 ∷ 0 ∷ 5 ∷ []) ++ ((9 ∷ 10 ∷ []) ++ zeros tag_length))

packet_5_opens : Wrapper.deserialize little toy_evp key packet_5 ≡ ok wrapper
unfolding store32 htonl
packet_5_opens = toy_opens 5 key (9 ∷ 10 ∷ []) (omega arith) refl (omega arith)

serialize-deserialize_example : Wrapper.serialize little toy_evp wrapper (some iv) ≡ ok packet_5
serialize-deserialize_example =
    serialize-deserialize little toy_evp toy-IsCcm key iv (9 ∷ 10 ∷ []) (zeros tag_length) 0 0 0 5
      refl refl (sym (length-zeros tag_length)) (omega arith) (omega arith) (omega arith)
      (omega arith) (omega arith) (omega arith) packet_5_opens

deserialize_short_example :
    ((length iv < 2 + 4) → Wrapper.deserialize little toy_evp key iv ≡ undefined)
    × ((2 + 4 ≤ length iv)
        → (length iv < 2 + 4 + tag_length)
        → Wrapper.deserialize little toy_evp key iv ≡ thrown)
deserialize_short_example = deserialize_short little toy_evp key iv (omega arith)

create_aad-endian_example :
    (Wrapper.create_aad little toy_evp (htonl little 5) iv
      ≡ Wrapper.create_aad big toy_evp (htonl big 5) iv)
    ↔ (be_bytes 5 ≡ le_bytes 5)
create_aad-endian_example = create_aad-endian toy_evp 5 iv (omega arith)

abbrev upload_m1 : UploadM1.UploadM1
upload_m1 = record {
  command_code = upload_req;
  file_size = 70000;
  file_name = strncpy (b'a' ∷ []) 256;
}

upload_m1_round_trip_example :
    (UploadM1.serialize little upload_m1 >>= UploadM1.deserialize big) ≡ ok upload_m1
upload_m1_round_trip_example = UploadM1.upload_m1_round_trip little big upload_m1 (record {
  command_lt = omega arith;
  size_lt = omega arith;
  name_length = length-strncpy (b'a' ∷ []) 256;
})

abbrev rename_m1 : RenameM1.RenameM1
rename_m1 = record {
  command_code = rename_req;
  file_name = strncpy (b'a' ∷ []) 256;
  new_file_name = strncpy (b'b' ∷ []) 256;
}

rename_m1_round_trip_example :
    (RenameM1.serialize rename_m1 >>= RenameM1.deserialize) ≡ ok rename_m1
rename_m1_round_trip_example = RenameM1.rename_m1_round_trip rename_m1 (record {
  name_length = length-strncpy (b'a' ∷ []) 256;
  new_name_length = length-strncpy (b'b' ∷ []) 256;
})

download_ack_round_trip_example :
    (DownloadAck.serialize little (DownloadAck.make 0 70000) >>= DownloadAck.deserialize big)
    ≡ ok (DownloadAck.make 0 70000)
unfolding DownloadAck.make
download_ack_round_trip_example =
    DownloadAck.download_ack_round_trip little big (DownloadAck.make 0 70000) (omega arith)

list_m2_round_trip_example :
    (ListM2.serialize little (ListM2.make 0 70000) >>= ListM2.deserialize big)
    ≡ ok (ListM2.make 0 70000)
unfolding ListM2.make
list_m2_round_trip_example =
    ListM2.list_m2_round_trip little big (ListM2.make 0 70000) (omega arith)

abbrev names : Buffer
names = b'a' ∷ b',' ∷ b'b' ∷ []

abbrev no_junk : ℕ
no_junk = 0

listed-c_string_example :
    (no_junk ≡ 0 → listed 3 no_junk names ≡ ok names)
    × (no_junk ≢ 0 → listed 3 no_junk names ≡ undefined)
listed-c_string_example = listed-c_string 3 no_junk names (omega arith) (ground arith)

-- A short vector before much other memory.
abbrev vector : Vector
vector = record { bytes = 1 ∷ 2 ∷ []; behind = replicate 6000 7 }

vector-IsBacked : (n : ℕ) → 2 ≤ n → n ≤ 6000 → IsBacked vector n
vector-IsBacked n h k = record {
  small = omega (arith, h);
  backed = omega (arith, k, length-replicate {A = ℕ} 6000 7);
}

vectors-IsM3 : IsM3 vector vector vector vector
vectors-IsM3 = record {
  key_ok = vector-IsBacked 2048 (omega arith) (omega arith);
  cipher_text_ok = vector-IsBacked 272 (omega arith) (omega arith);
  iv_ok = vector-IsBacked 16 (omega arith) (omega arith);
  certificate_ok = vector-IsBacked 5120 (omega arith) (omega arith);
}

deserialize_m3-serialize_m3_example :
    (serialize_m3 little vector vector vector vector >>= deserialize_m3 little)
    ≡ ok (record {
      key = vector.bytes;
      cipher_text = copied vector 272;
      certificate = vector.bytes;
      iv = copied vector 16;
    })
deserialize_m3-serialize_m3_example =
    deserialize_m3-serialize_m3 little vector vector vector vector vectors-IsM3

serialize_m3_leak_example :
    (serialize_m3 little vector vector vector vector >>= λ msg. read msg 2 (2048 - 2))
    ≡ ok (take (2048 - 2) vector.behind)
serialize_m3_leak_example = serialize_m3_leak little vector vector vector vector vectors-IsM3

deserialize_m4-serialize_m4_example :
    (serialize_m4 vector vector >>= deserialize_m4) ≡ ok (copied vector 272, copied vector 16)
deserialize_m4-serialize_m4_example =
    deserialize_m4-serialize_m4 vector vector (vector-IsBacked 272 (omega arith) (omega arith))
      (vector-IsBacked 16 (omega arith) (omega arith))

abbrev large_size : Buffer
large_size = 0 ∷ 0 ∷ 255 ∷ 255 ∷ 0 ∷ 0 ∷ 0 ∷ 0 ∷ []

large : 2048 < ntohl little (load64 little large_size % 2 ^ 32)
unfolding load64 htonl
large = omega arith

deserialize_m3_overrun_example :
    deserialize_m3 little
      (message (zeros 2048) large_size (zeros 272) (zeros 16) large_size (zeros 5120))
    ≡ undefined
deserialize_m3_overrun_example =
    deserialize_m3_overrun little (zeros 2048) large_size (zeros 272) (zeros 16) large_size
      (zeros 5120) (sym (length-zeros 2048)) refl (sym (length-zeros 272)) (sym (length-zeros 16))
      refl (sym (length-zeros 5120)) large
