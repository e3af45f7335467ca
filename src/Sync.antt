-- ===== src/Sync.antt =====
-- src/Sync.cpp: syncWithClient and syncWithServer, run by the two ends of a pair of connections that
-- keep every message in order. Of the messages only the ready messages matter here, so that a
-- connection is the number of them under way.
pub mod Handshake
pub mod Messages
use packetcomms.Base.{ℕ, suc, ◌≡◌, Bool, true, false}

-- Before its subscription, in its loop, and after its return, which ends the subscription.
pub data Phase : Type 0 where
  outside waiting returned : Phase

-- `server_ready` is `clientReady` of syncWithClient, `client_ready` is `serverReady` of
-- syncWithServer; each is set by the end's subscriber.
pub record Session : Type 0 where
  pub server : Phase
  pub server_ready : Bool
  pub client : Phase
  pub client_ready : Bool
  pub to_client : ℕ
  pub to_server : ℕ
  -- How many acknowledgements the client has sent.
  pub acknowledged : ℕ

abbrev pub start : Session
start = record {
  server = outside;
  server_ready = false;
  client = outside;
  client_ready = false;
  to_client = 0;
  to_server = 0;
  acknowledged = 0;
}

-- The subscriber of a ready message, if there is one.
abbrev pub hears : Phase → Bool → Bool
hears waiting ready = true
hears _ ready = ready

pub data Step (s t : Session) : Type 0 where
  server_subscribes : s.server ≡ outside → t ≡ record s { server = waiting } → Step s t
  server_sends :
      s.server ≡ waiting
      → s.server_ready ≡ false
      → t ≡ record s { to_client = suc s.to_client }
      → Step s t
  server_returns :
      s.server ≡ waiting → s.server_ready ≡ true → t ≡ record s { server = returned } → Step s t
  client_subscribes : s.client ≡ outside → t ≡ record s { client = waiting } → Step s t
  client_acknowledges :
      s.client ≡ waiting
      → s.client_ready ≡ true
      → t ≡ record s {
        client = returned;
        to_server = suc s.to_server;
        acknowledged = suc s.acknowledged;
      }
      → Step s t
  -- A message reaches its end, where nobody hears it without a subscription.
  client_receives :
      (n : ℕ)
      → s.to_client ≡ suc n
      → t ≡ record s { to_client = n; client_ready = hears s.client s.client_ready }
      → Step s t
  server_receives :
      (n : ℕ)
      → s.to_server ≡ suc n
      → t ≡ record s { to_server = n; server_ready = hears s.server s.server_ready }
      → Step s t

pub data Reach (s : Session) : Session → Type 0 where
  here : Reach s s
  next : {t u : Session} → Reach s t → Step t u → Reach s u
