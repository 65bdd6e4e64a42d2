-- ===== src/Tests/Agents.antt =====
-- The agent: internal/node/bootstrap.go.
use sit.Prelude.{Text, text, ◌==◌, ◌≡◌, refl, true, some, [], ◌∷◌, arith, nat_eq, if◌then◌else◌}
use sit.Strings.{is_space}
use sit.Strings.Laws.{last_ok, is_free→Free}
use sit.Exec.{ok, err, bad_credentials}
use sit.Table.{find}
use sit.Store.Models.{active}
use sit.Auth.Credentials.{Accepts}
use sit.Managerd.{wss_auth}
use sit.Managerd.Handshake.{IsNodeId}
use sit.Transport.Backoff.{new_backoff}
use sit.Node.Identity.{Identity}
use sit.Node.Agent.{auth_token, auth_header, dial_failed, served, waits}
use sit.Node.Agent.Reconnect.{waits_before, AreWaits, waits_bounded}
use sit.Node.Agent.Connect.{agent_connects}
use sit.Tests.Fixtures.{crypto, manager}

waits_bounded_example :
    AreWaits
      (waits_before 0 (dial_failed ∷ served ∷ dial_failed ∷ []))
      (waits (λ k. 7) 0 (dial_failed ∷ served ∷ dial_failed ∷ []) new_backoff)
waits_bounded_example =
    waits_bounded (λ k. 7) (dial_failed ∷ served ∷ dial_failed ∷ []) (λ i. omega arith)

abbrev identity : Identity
identity = record { node_id = text "n1"; secret = text "secret" }

n1-IsNodeId : IsNodeId (text "n1")
unfolding is_space
n1-IsNodeId = (refl, is_free→Free (nat_eq 58) (text "n1") refl, refl)

secret_ends : last_ok is_space (text "secret") ≡ true
unfolding is_space
secret_ends = refl

n1-Accepts : Accepts crypto (text "n1") (text "secret") manager.db
unfolding find ◌==◌
n1-Accepts = (
  record {
    node_id = text "n1";
    secret_hash = text "#secret";
    state = active;
    issued_at = 1;
    revoked_at = 0;
  },
  refl,
  refl,
  refl,
)

agent_connects_example :
    (header : Text) × (auth_header (auth_token identity) ≡ some header)
    × ((wss_auth crypto header manager).0
        ≡ (if manager.world.fails manager.world.calls then err bad_credentials else ok (text "n1")))
agent_connects_example = agent_connects crypto identity manager n1-IsNodeId secret_ends n1-Accepts
