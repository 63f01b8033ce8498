-- ===== src/Engine/Token.antt =====
-- `gen_token` and `load_token` of ricq-core/src/lib.rs, and the token of ricq-core/src/token.rs.
use ricq.Base.{ℕ, List, ◌≡◌, refl, ◌+◌, ◌%◌, ◌^◌, ◌<◌, arith, zero, suc}
use ricq.Base.Int.{ℤ}
use ricq.Engine.{Engine, next_seq}

pub record Token : Type 0 where
  pub uin : ℤ
  pub d2 : List ℕ
  pub d2key : List ℕ
  pub tgt : List ℕ
  pub srm_token : List ℕ
  pub t133 : List ℕ
  pub encrypted_a1 : List ℕ
  pub out_packet_session_id : List ℕ
  pub tgtgt_key : List ℕ
  pub wt_session_ticket_key : List ℕ

unfoldable pub gen_token : Engine → Token
gen_token e = record {
  uin = e.uin;
  d2 = e.transport.sig.d2;
  d2key = e.transport.sig.d2key;
  tgt = e.transport.sig.tgt;
  srm_token = e.transport.sig.srm_token;
  t133 = e.transport.sig.t133;
  encrypted_a1 = e.transport.sig.encrypted_a1;
  out_packet_session_id = e.transport.sig.out_packet_session_id;
  tgtgt_key = e.transport.sig.tgtgt_key;
  wt_session_ticket_key = e.transport.oicq_codec.wt_session_ticket_key;
}

unfoldable pub load_token : Token → Engine → Engine
load_token token e = record e {
  uin = token.uin;
  transport = record e.transport {
    sig = record e.transport.sig {
      d2 = token.d2;
      d2key = token.d2key;
      tgt = token.tgt;
      srm_token = token.srm_token;
      t133 = token.t133;
      encrypted_a1 = token.encrypted_a1;
      out_packet_session_id = token.out_packet_session_id;
      tgtgt_key = token.tgtgt_key;
    };
    oicq_codec = record e.transport.oicq_codec {
      wt_session_ticket_key = token.wt_session_ticket_key;
    };
  };
}

-- A token that was loaded is the one that `gen_token` saves; loading the token that `gen_token` saved
-- changes nothing; and of two tokens that are loaded the last one counts.
pub gen_token-load_token :
    (token other : Token) (e : Engine)
    → (gen_token (load_token token e) ≡ token)
      × (load_token (gen_token e) e ≡ e)
      × (load_token token (load_token other e) ≡ load_token token e)
unfolding gen_token load_token
gen_token-load_token token other e = (refl, refl, refl)

-- The engine after `n` calls of `next_seq`, and the number that the next call returns.
abbrev pub after : ℕ → Engine → Engine
after zero e = e
after (suc n) e = after n (next_seq e).1

-- For every engine whose number fits an `u16`, the number that `next_seq` returns after `n` calls is
-- the first one plus `n`, modulo 2 ^ 16.
pub next_seq-after :
    (n : ℕ) (e : Engine) → e.seq_id < 2 ^ 16 → (next_seq (after n e)).0 ≡ (e.seq_id + n) % 2 ^ 16
unfolding next_seq
next_seq-after zero e h = omega arith
next_seq-after (suc n) e h = omega (arith, next_seq-after n (next_seq e).1 (omega arith))
