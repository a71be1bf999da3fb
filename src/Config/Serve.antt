-- ===== src/Config/Serve.antt =====
-- The configuration server and its clients over the wire: servers/config/main.cc and
-- libs/config/config.cc.
use umbongo.Base.{ℕ, List, [], ◌∷◌, ◌++◌, Option, some, Bool}
use umbongo.Base.Panic.{◌>>=◌}
use umbongo.Messages.{MessageDecoder}
use umbongo.Config.{Domain}
use umbongo.Config.Requests.{Request, Sends, answer}
use umbongo.Config.Wire.{decode_request, message_of, reply_fields}

-- The domains, and what was written to each client, oldest first.
pub record Served : Type 0 where
  pub domains : List Domain
  pub written : List (ℕ × List ℕ)

-- `send_message` of each reply.
unfoldable pub send_all : Sends → Option (List (ℕ × List ℕ))
send_all [] = some []
send_all (sent ∷ sends) = message_of (reply_fields sent.1) >>= λ bytes.
    send_all sends >>= λ rest. some ((sent.0, bytes) ∷ rest)

-- The handler from the decoded request on.
unfoldable pub serve : (List ℕ → Option (List ℕ)) → ℕ → Request → Served → Option (Bool × Served)
serve config_file client request s = answer config_file client request s.domains >>= λ r.
    send_all r.2 >>= λ bytes. some (r.0, record { domains = r.1; written = s.written ++ bytes })

-- The whole handler of `set_on_message`.
unfoldable pub handle :
    (List ℕ → Option (List ℕ))
    → ℕ
    → MessageDecoder
    → Served
    → Option (Bool × MessageDecoder × Served)
handle config_file client d s =
    decode_request d >>= λ r. serve config_file client r.0 s >>= λ done. some (done.0, r.1, done.1)
