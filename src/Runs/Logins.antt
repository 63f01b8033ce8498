-- ===== src/Runs/Logins.antt =====
-- A run of the model of ricq/src/client/api/login.rs.
use ricq.Base.{[], ◌∷◌}
use ricq.Result.{ok}
use ricq.Wire.BigEndian.{big_endian}
use ricq.Engine.Token.{Token}
use ricq.Client.Login.{Client, Network}
use ricq.Runs.Crypto.{sevens, hello}
use ricq.Runs.Login.{some_engine, some_outside}

-- A server that always answers that the account is frozen: the status 40.
abbrev frozen : Network
frozen = record {
  out = some_outside;
  secrets = record { random_string = hello; md5 = λ bytes. bytes };
  work = λ bytes. ok [];
  send_and_wait = λ pkt. ok (record pkt { body = 0 ∷ 9 ∷ 40 ∷ 0 ∷ 0 ∷ [] });
  sign = λ e what. ok sevens;
  trim = λ text. text;
}

abbrev some_client : Client
some_client = record {
  engine = some_engine;
  account_info = record { nickname = []; age = 0; gender = 0 };
  logins = [];
}
