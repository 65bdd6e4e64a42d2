-- ===== src/Node/Agent/Connect.antt =====
-- The header of a node's agent and the Manager's handshake.
use sit.Prelude.{Text, ◌≡◌, refl, true, false, some, [], ◌∷◌, ◌++◌, is_empty, if◌then◌else◌}
use sit.Strings.{is_space}
use sit.Strings.Laws.{last_ok}
use sit.Exec.{ok, err, bad_credentials}
use sit.Manager.{Manager}
use sit.Auth.{Crypto}
use sit.Auth.Credentials.{Accepts}
use sit.Managerd.{wss_auth}
use sit.Managerd.Handshake.{node_header, IsNodeId, accepted_connects}
use sit.Node.Identity.{Identity}
use sit.Node.Agent.{auth_token, auth_header}

filled : (id rest : Text) → is_empty id ≡ false → is_empty (id ++ rest) ≡ false
filled [] rest h = cc
filled (x ∷ id) rest h = refl

header_shown :
    (i : Identity)
    → is_empty i.node_id ≡ false
    → auth_header (auth_token i) ≡ some (node_header i.node_id i.secret)
header_shown i h = rw (filled i.node_id (58 ∷ i.secret) h) refl

-- An agent sends a header, and where the Manager holds an active credential for its identity the
-- handshake answers that header with the agent's node id, unless the database fails, which is
-- reported as bad credentials; the id must be one that a header can carry, and the secret must not
-- end in a space.
pub agent_connects :
    (c : Crypto) (i : Identity) (m : Manager)
    → IsNodeId i.node_id
    → last_ok is_space i.secret ≡ true
    → Accepts c i.node_id i.secret m.db
    → (header : Text) × (auth_header (auth_token i) ≡ some header)
      × ((wss_auth c header m).0
          ≡ (if m.world.fails m.world.calls then err bad_credentials else ok i.node_id))
agent_connects c i m n l a = (
  node_header i.node_id i.secret,
  header_shown i n.0,
  accepted_connects c i.node_id i.secret m n l a,
)
