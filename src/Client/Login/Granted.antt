-- ===== src/Client/Login/Granted.antt =====
-- What the calls of ricq/src/client/api/login.rs change.
use ricq.Base.{[], ◌∷◌, ◌++◌, ◌≡◌}
use ricq.Wire.{Wire}
use ricq.Result.{Result, ok, err, panic}
use ricq.Protocol.Packet.{Packet}
use ricq.Engine.{Engine, next_seq}
use ricq.Engine.Token.{Token}
use ricq.Engine.LoginKept.{identity, ticket, granted}
use ricq.Client.Login.{Client, Returned}

-- After a call that has returned a response, the engine has used one number and what it is known by is
-- otherwise the same, its ticket is what the response grants, and the handler was told of a login, whatever
-- the response is. After any other call the ticket and the handler are as they were.
abbrev pub IsGranted : Client → Returned → Type 0
IsGranted c (ok resp, c') =
    (identity c'.engine ≡ identity (next_seq c.engine).1)
    × (ticket c'.engine ≡ granted resp (ticket c.engine))
    × (c'.logins ≡ c.logins ++ (c.engine.uin ∷ []))
IsGranted c (err e, c') = (ticket c'.engine ≡ ticket c.engine) × (c'.logins ≡ c.logins)
IsGranted c (panic, c') = (ticket c'.engine ≡ ticket c.engine) × (c'.logins ≡ c.logins)

-- The client with the next number used.
abbrev counted : Client → Client
counted c = record c { engine = (next_seq c.engine).1 }
