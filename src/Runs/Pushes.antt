-- ===== src/Runs/Pushes.antt =====
-- Runs of the notices of ricq/src/client/processor/online_push.rs and
-- ricq-core/src/command/online_push/decoder.rs.
use ricq.Base.{◌*◌, ◌≡◌, refl, inl, arith, [], ◌∷◌, none, some}
use ricq.Base.Int.{pos}
use ricq.Wire.BigEndian.{big_endian}
use ricq.Result.{ok, panic}
use ricq.Group.{group_uin2code}
use ricq.Structs.{PushTransInfo, member_leave, member_permission_change, administrator}
use ricq.Client.Seen.{
  PushMessageInfo, same_pair, push_req_exists, check_unless, check_key, tidy, req_too_old,
}
use ricq.Client.Pushes.{
  Decoders, group_mute, push_events, process_push_req, TransMsgInfo,
  decode_online_push_trans_packet,
}
use ricq.Client.Pushes.Read.{
  SaysLeft, SaysRights, mute_bytes, leave_bytes, permission_bytes, trans_of, push_events-mute,
  process_push_req-short, decode_online_push_trans_packet-bytes,
}
use ricq.Runs.Notices.{table, no_keys, second, notice}
use ricq.Runs.Crypto.{hello}

-- Decoders that read nothing.
abbrev no_decoders : Decoders
no_decoders = record {
  msg_type_0x210 = λ bs. none;
  notify_msg_body = λ bs. none;
  sub_8a = λ bs. none;
  sub_b3 = λ bs. none;
  sub_d4 = λ bs. none;
  general_gray_tip = λ bs. none;
  sub_msg_0x27 = λ bs. none;
}

abbrev muted : PushMessageInfo
muted = record notice { v_msg = mute_bytes 5555 1 10001 (0 ∷ 0 ∷ 0 ∷ 0 ∷ 0 ∷ 1 ∷ []) 10002 600 [] }

push_events-mute_example :
    push_events no_decoders 10003 muted
    ≡ ok (
        group_mute
          (record { group_code = 5555; operator_uin = 10001; target_uin = 10002; duration = 600 })
        ∷ [])
push_events-mute_example =
    push_events-mute no_decoders 10003 muted 5555 1 10001 (0 ∷ 0 ∷ 0 ∷ 0 ∷ 0 ∷ 1 ∷ []) 10002 600 []
      refl refl (omega arith) (omega arith) refl (omega arith) (omega arith)

process_push_req-short_example :
    process_push_req no_decoders 10003
      (table same_pair 30)
      50
      ((60 * second, notice) ∷ (60 * second, muted) ∷ [])
      no_keys
    ≡ ([], panic)
unfolding push_req_exists check_unless check_key tidy req_too_old
process_push_req-short_example =
    process_push_req-short no_decoders 10003 (table same_pair 30) 50 (60 * second) notice
      ((60 * second, muted) ∷ []) no_keys refl refl (omega arith)

-- The group has the number 1000000.
abbrev left : TransMsgInfo
left = record {
  from_uin = some (pos 203000000);
  msg_type = some 34;
  msg_seq = some 7;
  msg_uid = none;
  msg_time = some 60;
  msg_data = some (leave_bytes 0 1 10002 0x03 10001 []);
}

abbrev promoted : TransMsgInfo
promoted = record left {
  msg_type = some 44;
  msg_data = some (permission_bytes (0 ∷ 0 ∷ 0 ∷ 0 ∷ 1 ∷ []) 1 10002 1);
}

abbrev removed : PushTransInfo
removed = member_leave (record {
  group_code = group_uin2code (pos 203000000);
  member_uin = 10002;
  operator_uin = some 10001;
})

abbrev raised_member : PushTransInfo
raised_member = member_permission_change (record {
  group_code = group_uin2code (pos 203000000);
  member_uin = 10002;
  new_permission = administrator;
})

decode_online_push_trans_packet-bytes_example :
    (decode_online_push_trans_packet hello left ≡ ok (trans_of left removed))
    × (decode_online_push_trans_packet hello promoted ≡ ok (trans_of promoted raised_member))
decode_online_push_trans_packet-bytes_example =
    decode_online_push_trans_packet-bytes hello left promoted (pos 203000000) removed 0 1 10002 0x03
      10001 [] (0 ∷ 0 ∷ 0 ∷ 0 ∷ 1 ∷ []) 1 1 administrator refl refl refl
      (SaysLeft.removed (inl refl)) refl refl refl (omega arith) (omega arith) refl (omega arith)
      SaysRights.raised
