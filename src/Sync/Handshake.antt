-- ===== src/Sync/Handshake.antt =====
-- What the handshake guarantees at each end.
use packetcomms.Base.{ℕ, suc, ◌≡◌, ◌≢◌, ◌⊎◌, inl, inr, refl, ◌∙◌, true, false, Bool-cases, arith}
use packetcomms.Sync.{
  Phase, outside, waiting, returned, Session, start, hears, Step, server_subscribes, server_sends,
  server_returns, client_subscribes, client_acknowledges, client_receives, server_receives, Reach,
  here, next,
}

-- The client hears only a message of a server that has subscribed; it acknowledges once, when it
-- returns; and the acknowledgement is under way until the server, which still listens, has heard it.
pub record IsSound (s : Session) : Type 0 where
  pub quiet : s.server ≡ outside → s.to_client ≡ 0
  pub invited : s.client_ready ≡ true → s.server ≢ outside
  pub answered : s.client ≡ returned → s.client_ready ≡ true
  pub one_answer :
      (s.client ≡ returned → s.acknowledged ≡ 1) × (s.client ≢ returned → s.acknowledged ≡ 0)
  pub kept : s.server_ready ≡ false → s.to_server ≡ s.acknowledged
  pub heard : s.server_ready ≡ true → s.client ≡ returned
  pub told : s.server ≡ returned → s.server_ready ≡ true

pub Step-IsSound : (s t : Session) → Step s t → IsSound s → IsSound t
Step-IsSound s t (server_subscribes p e) v = rw e (ground arith)
Step-IsSound s t (server_sends p r e) v = rw e (ground arith)
Step-IsSound s t (server_returns p r e) v = rw e (ground arith)
Step-IsSound s t (client_subscribes p e) v = rw e (ground arith)
Step-IsSound s t (client_acknowledges p r e) v = rw e (ground arith)
Step-IsSound s t (client_receives n p e) v = rw e (ground arith)
Step-IsSound s t (server_receives n p e) v = rw e (ground arith)

-- In every state that the two ends can reach: the server has returned only if the client has
-- returned too and has acknowledged exactly once; and the client has returned only if it heard a
-- message of a server that had subscribed before.
pub Reach-start :
    (s : Session)
    → Reach start s
    → IsSound s
      × (s.server ≡ returned → (s.client ≡ returned) × (s.acknowledged ≡ 1))
      × (s.client ≡ returned → s.server ≢ outside)
Reach-start s here = (ground arith, (λ h. cc), (λ h. cc))
Reach-start s (next {t = t} r st) =
    let v = Step-IsSound t s st (Reach-start t r).0 in
    (
      v,
      (λ h. (v.heard (v.told h), v.one_answer.0 (v.heard (v.told h)))),
      (λ h. v.invited (v.answered h)),
    )

prepend : {s t u : Session} → Step s t → Reach t u → Reach s u
prepend st here = next here st
prepend st (next r st') = next (prepend st r) st'

abbrev pub Completes : Session → Type 0
Completes s = (t : Session) × Reach s t × (t.server ≡ returned) × (t.client ≡ returned)

after : {s t : Session} → Step s t → Completes t → Completes s
after st c = (c.0, prepend st c.1, c.2, c.3)

Phase-cases : (p : Phase) → (p ≡ outside) ⊎ (p ≡ waiting) ⊎ (p ≡ returned)
Phase-cases outside = inl refl
Phase-cases waiting = inr (inl refl)
Phase-cases returned = inr (inr refl)

server_ends : (s : Session) → IsSound s → s.client ≡ returned → s.server_ready ≡ true → Completes s
server_ends s v c r = elim (Phase-cases s.server) [
  | inl p ↦ absurd (v.invited (v.answered c) p)
  | inr (inl p) ↦ after (server_returns p r refl) (_, here, refl, c)
  | inr (inr p) ↦ (s, here, p, c)
]

server_hears :
    (s : Session) → IsSound s → s.client ≡ returned → s.server_ready ≡ false → Completes s
server_hears s v c r = elim (Phase-cases s.server) [
  | inl p ↦ absurd (v.invited (v.answered c) p)
  | inr (inl p) ↦
      let t : Session = record s { to_server = 0; server_ready = hears s.server s.server_ready } in
      let st : Step s t = server_receives 0 (v.kept r ∙ v.one_answer.0 c) refl in
      after st (server_ends t (Step-IsSound s t st v) c (rw p refl))
  | inr (inr p) ↦ cc (v.told p)
]

client_answers :
    (s : Session) → IsSound s → s.client ≡ waiting → s.client_ready ≡ true → Completes s
client_answers s v c r = elim (Bool-cases s.server_ready) [
  | inl q ↦ cc (v.heard q)
  | inr q ↦
      let t : Session = record s {
        client = returned;
        to_server = suc s.to_server;
        acknowledged = suc s.acknowledged;
      } in
      let st : Step s t = client_acknowledges c r refl in
      after st (server_hears t (Step-IsSound s t st v) refl q)
]

client_hears :
    (s : Session) (n : ℕ) → IsSound s → s.client ≡ waiting → s.to_client ≡ suc n → Completes s
client_hears s n v c m =
    let t : Session = record s { to_client = n; client_ready = hears s.client s.client_ready } in
    let st : Step s t = client_receives n m refl in
    after st (client_answers t (Step-IsSound s t st v) c (rw c refl))

server_invites :
    (s : Session)
    → IsSound s
    → s.client ≡ waiting
    → s.server ≡ waiting
    → s.server_ready ≡ false
    → Completes s
server_invites s v c p q =
    let t : Session = record s { to_client = suc s.to_client } in
    let st : Step s t = server_sends p q refl in
    after st (client_hears t s.to_client (Step-IsSound s t st v) c refl)

client_waits : (s : Session) → IsSound s → s.client ≡ waiting → Completes s
client_waits s v c = elim (Bool-cases s.server_ready) [
  | inl q ↦ cc (v.heard q)
  | inr q ↦ elim (Phase-cases s.server) [
    | inl p ↦
        let t : Session = record s { server = waiting } in
        let st : Step s t = server_subscribes p refl in
        after st (server_invites t (Step-IsSound s t st v) c refl q)
    | inr (inl p) ↦ server_invites s v c p q
    | inr (inr p) ↦ cc (v.told p)
  ]
]

-- From every state that the two ends can reach there is a run in which both return, whatever was
-- lost while one of them had not subscribed.
pub handshake_completes : (s : Session) → Reach start s → Completes s
handshake_completes s r =
    let v = (Reach-start s r).0 in
    elim (Phase-cases s.client) [
      | inl c ↦
          let t : Session = record s { client = waiting } in
          let st : Step s t = client_subscribes c refl in
          after st (client_waits t (Step-IsSound s t st v) refl)
      | inr (inl c) ↦ client_waits s v c
      | inr (inr c) ↦ elim (Bool-cases s.server_ready) [
        | inl q ↦ server_ends s v c q
        | inr q ↦ server_hears s v c q
      ]
    ]
