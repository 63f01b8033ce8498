-- ===== src/Client/Pushes/Read.antt =====
-- What is read of the bytes of notices in ricq/src/client/processor/online_push.rs and
-- ricq-core/src/command/online_push/decoder.rs.
use ricq.Base.{
  ℕ, zero, suc, ◌%◌, ◌^◌, ◌<◌, ◌≡◌, refl, ap, ◌∙◌, arith, List, [], ◌∷◌, ◌++◌, length, drop-append,
  Option, some, none, false, Bool-cases, ◌⊎◌, inl, inr, ◌==◌, ==_eq, ◌≢◌, if◌then◌else◌,
}
use ricq.Base.Int.{ℤ}
use ricq.Wire.{Wire}
use ricq.Result.{ok, panic, map_ok}
use ricq.Binary.Reader.{get_u8, get_be, get_u32, advance}
use ricq.Binary.Reader.ReadBack.{not_short, get_be-append}
use ricq.Client.Pushes.{
  Decoders, QEvent, group_mute, read_mute, read_732, push_events, after_push, process_push_req,
  TransMsgInfo, number_or_zero, leave_info, permission_info, read_leave, read_var5, read_permission,
  read_trans, trans_result, with_data, decode_online_push_trans_packet,
}
use ricq.Group.{group_uin2code}
use ricq.Structs.{
  OnlinePushTrans, PushTransInfo, group_disband, member_leave, member_permission_change,
  GroupMemberPermission, owner, administrator, member,
}
use ricq.Client.Seen.{TimedCache, PushMessageInfo, push_req_exists}

module _ ⦃w : Wire⦄ where
  -- The bytes of a notice that members cannot speak.
  abbrev pub mute_bytes : ℕ → ℕ → ℕ → List ℕ → ℕ → ℕ → List ℕ → List ℕ
  mute_bytes group sub operator six target duration rest =
      w.be 4 group
      ++ (0x0c ∷ sub ∷ (w.be 4 operator ++ (six ++ (w.be 4 target ++ (w.be 4 duration ++ rest)))))

  advance-append :
      (n : ℕ) (xs rest : List ℕ) → length xs ≡ n → advance n (xs ++ rest) ≡ ok (tt, rest)
  unfolding advance
  advance-append n xs rest h = rw (not_short xs rest n h, drop-append n xs rest h)

  get_u32-append : (v : ℕ) (rest : List ℕ) → v < 2 ^ 32 → get_u32 (w.be 4 v ++ rest) ≡ ok (v, rest)
  get_u32-append v rest h =
      let same : v % 256 ^ 4 ≡ v = omega arith in
      get_be-append 4 v rest ∙ ap (λ (n : ℕ). ok (n, rest)) same

module _ ⦃w : Wire⦄ (d : Decoders) (uin : ℕ) where
  mute_events : ℕ → ℕ → ℕ → ℕ → List QEvent
  mute_events group operator target duration =
      if operator == uin
      then []
      else group_mute (record {
        group_code = group;
        operator_uin = operator;
        target_uin = target;
        duration = duration;
      })
        ∷ []

  read_732-mute :
      (group sub operator : ℕ) (six : List ℕ) (target duration : ℕ) (rest : List ℕ)
      → group < 2 ^ 32
      → operator < 2 ^ 32
      → length six ≡ 6
      → target < 2 ^ 32
      → duration < 2 ^ 32
      → map_ok
          (λ (r : List QEvent × List ℕ). r.0)
          (read_732 d uin (mute_bytes group sub operator six target duration rest))
        ≡ ok (mute_events group operator target duration)
  unfolding read_732 read_mute mute_events get_u8
  read_732-mute group sub operator six target duration rest g o s t u =
      elim (Bool-cases (operator == uin)) [
        | inl b ↦ rw (get_u32-append group _ g, get_u32-append operator _ o, b)
        | inr b ↦ rw (
          get_u32-append group _ g,
          get_u32-append operator _ o,
          b,
          advance-append 6 six _ s,
          get_u32-append target _ t,
          get_u32-append duration _ u,
        )
      ]

  -- A notice of type 732 with the number of a group, the kind 0x0c, and who has silenced whom for how
  -- long, all below 2 ^ 32, makes one event, with these numbers; where the client itself did so, it makes
  -- none. What stands behind is not read.
  pub push_events-mute :
      (info : PushMessageInfo) (group sub operator : ℕ) (six : List ℕ) (target duration : ℕ)
      (rest : List ℕ)
      → info.msg_type ≡ 732
      → info.v_msg ≡ mute_bytes group sub operator six target duration rest
      → group < 2 ^ 32
      → operator < 2 ^ 32
      → length six ≡ 6
      → target < 2 ^ 32
      → duration < 2 ^ 32
      → push_events d uin info
        ≡ ok (
            if operator == uin
            then []
            else group_mute (record {
              group_code = group;
              operator_uin = operator;
              target_uin = target;
              duration = duration;
            })
              ∷ [])
  unfolding push_events mute_events
  push_events-mute info group sub operator six target duration rest e f g o s t u =
      rw (e, f) (read_732-mute group sub operator six target duration rest g o s t u)

  read_732-short : (r : List ℕ) → length r < 6 → read_732 d uin r ≡ panic
  unfolding read_732 get_be get_u8
  read_732-short [] h = refl
  read_732-short (a ∷ []) h = refl
  read_732-short (a ∷ b ∷ []) h = refl
  read_732-short (a ∷ b ∷ c ∷ []) h = refl
  read_732-short (a ∷ b ∷ c ∷ e ∷ []) h = refl
  read_732-short (a ∷ b ∷ c ∷ e ∷ f ∷ []) h = refl
  read_732-short (a ∷ b ∷ c ∷ e ∷ f ∷ g ∷ r) h = absurd (omega arith)

  push_events-short :
      (info : PushMessageInfo)
      → info.msg_type ≡ 732
      → length info.v_msg < 6
      → push_events d uin info ≡ panic
  unfolding push_events
  push_events-short info e h = rw (e, read_732-short info.v_msg h)

  -- A notice of type 732 with fewer than six bytes, which was not seen before, makes the task panic: the
  -- handler is told nothing of the notices behind it in the same packet, whatever they are.
  pub process_push_req-short :
      {C : Type 0} (ops : TimedCache (ℕ × ℕ) C) (start_time now : ℕ) (info : PushMessageInfo)
      (rest : List (ℕ × PushMessageInfo)) (c : C)
      → (push_req_exists ops start_time now info c).0 ≡ false
      → info.msg_type ≡ 732
      → length info.v_msg < 6
      → process_push_req d uin ops start_time ((now, info) ∷ rest) c ≡ ([], panic)
  unfolding process_push_req after_push
  process_push_req-short ops start_time now info rest c unseen e h =
      rw (unseen, push_events-short info e h)

module _ ⦃w : Wire⦄ where
  -- The bytes of a notice that somebody has left a group, and of one that somebody's rights have changed.
  abbrev pub leave_bytes : ℕ → ℕ → ℕ → ℕ → ℕ → List ℕ → List ℕ
  leave_bytes first sub target typ operator rest =
      w.be 4 first ++ (sub ∷ (w.be 4 target ++ (typ ∷ (w.be 4 operator ++ rest))))

  abbrev pub permission_bytes : List ℕ → ℕ → ℕ → ℕ → List ℕ
  permission_bytes five kind target flag = five ++ (kind ∷ (w.be 4 target ++ (flag ∷ [])))

  read_leave-bytes :
      (group : ℤ) (first sub target typ operator : ℕ) (rest : List ℕ)
      → target < 2 ^ 32
      → operator < 2 ^ 32
      → read_leave group (leave_bytes first sub target typ operator rest)
        ≡ ok (leave_info group target typ operator, rest)
  unfolding read_leave get_u8
  read_leave-bytes group first sub target typ operator rest t o = rw (
    get_be-append 4 first (sub ∷ (w.be 4 target ++ (typ ∷ (w.be 4 operator ++ rest)))),
    get_u32-append target (typ ∷ (w.be 4 operator ++ rest)) t,
    get_u32-append operator rest o,
  )

  read_permission-bytes :
      (group : ℤ) (five : List ℕ) (kind target flag : ℕ)
      → length five ≡ 5
      → kind < 2
      → target < 2 ^ 32
      → read_permission group (permission_bytes five kind target flag)
        ≡ ok (some (permission_info group target flag), [])
  unfolding read_permission read_var5 get_u8
  read_permission-bytes group five zero target flag f k t = rw (
    advance-append 5 five (0 ∷ (w.be 4 target ++ (flag ∷ []))) f,
    get_u32-append target (flag ∷ []) t,
  )
  read_permission-bytes group five (suc zero) target flag f k t = rw (
    advance-append 5 five (1 ∷ (w.be 4 target ++ (flag ∷ []))) f,
    get_u32-append target (flag ∷ []) t,
  )
  read_permission-bytes group five (suc (suc n)) target flag f k t = absurd (omega arith)

  -- What the kinds of the first notice say.
  pub data SaysLeft (group : ℤ) (target operator : ℕ) : ℕ → PushTransInfo → Type 0 where
    disbanded :
        {typ : ℕ}
        → (typ ≡ 1) ⊎ (typ ≡ 129)
        → SaysLeft group target operator typ
            (group_disband (record { group_code = group; operator_uin = operator }))
    left :
        {typ : ℕ}
        → (typ ≡ 2) ⊎ (typ ≡ 130)
        → SaysLeft group target operator typ
            (member_leave (record { group_code = group; member_uin = target; operator_uin = none }))
    removed :
        {typ : ℕ}
        → (typ ≡ 3) ⊎ (typ ≡ 131)
        → SaysLeft group target operator typ (
            member_leave
              (record { group_code = group; member_uin = target; operator_uin = some operator }))

  leave_info-SaysLeft :
      (group : ℤ) (target typ operator : ℕ) (i : PushTransInfo)
      → SaysLeft group target operator typ i
      → leave_info group target typ operator ≡ some i
  unfolding leave_info
  leave_info-SaysLeft group target typ operator i (disbanded (inl e)) = rw e
  leave_info-SaysLeft group target typ operator i (disbanded (inr e)) = rw e
  leave_info-SaysLeft group target typ operator i (left (inl e)) = rw e
  leave_info-SaysLeft group target typ operator i (left (inr e)) = rw e
  leave_info-SaysLeft group target typ operator i (removed (inl e)) = rw e
  leave_info-SaysLeft group target typ operator i (removed (inr e)) = rw e

  -- The rights that the flag of the second notice says: 1 those of an administrator, another one those of a
  -- member.
  pub data SaysRights : ℕ → GroupMemberPermission → Type 0 where
    raised : SaysRights 1 administrator
    lowered : {flag : ℕ} → flag ≢ 1 → SaysRights flag member

  permission_info-SaysRights :
      (group : ℤ) (target flag : ℕ) (rights : GroupMemberPermission)
      → SaysRights flag rights
      → permission_info group target flag
        ≡ member_permission_change
            (record { group_code = group; member_uin = target; new_permission = rights })
  unfolding permission_info
  permission_info-SaysRights group target flag administrator raised = refl
  permission_info-SaysRights group target flag owner x = elim x [ ]
  permission_info-SaysRights group target flag member (lowered h) = elim (Bool-cases (flag == 1)) [
    | inl e ↦ absurd (h (==_eq flag 1 e))
    | inr e ↦ rw e
  ]

  -- A number, or 0 where there is none.
  abbrev pub zero_without : Option ℕ → ℕ
  zero_without none = 0
  zero_without (some n) = n

  zero_without-same : (n : Option ℕ) → number_or_zero n ≡ zero_without n
  zero_without-same none = refl
  zero_without-same (some n) = refl

  -- The head of what is decoded, with what happened in the group.
  abbrev pub trans_of : TransMsgInfo → PushTransInfo → OnlinePushTrans
  trans_of info i = record {
    msg_seq = zero_without info.msg_seq;
    msg_uid = zero_without info.msg_uid;
    msg_time = zero_without info.msg_time;
    info = i;
  }

  -- A notice of type 34 whose bytes name a member, a kind and an operator, the first and the last below
  -- 2 ^ 32, is decoded to
  -- what the kind says of them: 1 and 129 that the group is disbanded, 2 and 130 that the member has left,
  -- 3 and 131 that the operator has removed the member. A notice of type 44 whose bytes name a member below
  -- 2 ^ 32 behind a 0 or a 1, and end with a flag, is decoded to the member's new rights, those of an
  -- administrator for the flag 1 and else those of a member. In both the group
  -- is the one that `group_uin2code` makes of the account of the sender.
  pub decode_online_push_trans_packet-bytes :
      (message : List ℕ) (leave change : TransMsgInfo) (sender : ℤ) (i : PushTransInfo)
      (first sub target typ operator : ℕ) (rest five : List ℕ) (kind flag : ℕ)
      (rights : GroupMemberPermission)
      → leave.from_uin ≡ some sender
      → leave.msg_type ≡ some 34
      → leave.msg_data ≡ some (leave_bytes first sub target typ operator rest)
      → SaysLeft (group_uin2code sender) target operator typ i
      → change.from_uin ≡ some sender
      → change.msg_type ≡ some 44
      → change.msg_data ≡ some (permission_bytes five kind target flag)
      → target < 2 ^ 32
      → operator < 2 ^ 32
      → length five ≡ 5
      → kind < 2
      → SaysRights flag rights
      → (decode_online_push_trans_packet message leave ≡ ok (trans_of leave i))
        × (decode_online_push_trans_packet message change
            ≡ ok (
                trans_of change (
                  member_permission_change (record {
                    group_code = group_uin2code sender;
                    member_uin = target;
                    new_permission = rights;
                  }))))
  unfolding decode_online_push_trans_packet with_data trans_result read_trans
  decode_online_push_trans_packet-bytes message leave change sender i first sub target typ operator
        rest five kind flag rights a b e l a' b' e' t o f k r =
      (
        rw (
          a,
          b,
          e,
          read_leave-bytes (group_uin2code sender) first sub target typ operator rest t o,
          leave_info-SaysLeft (group_uin2code sender) target typ operator i l,
          zero_without-same leave.msg_seq,
          zero_without-same leave.msg_uid,
          zero_without-same leave.msg_time,
        ),
        rw (
          a',
          b',
          e',
          read_permission-bytes (group_uin2code sender) five kind target flag f k t,
          permission_info-SaysRights (group_uin2code sender) target flag rights r,
          zero_without-same change.msg_seq,
          zero_without-same change.msg_uid,
          zero_without-same change.msg_time,
        ),
      )
