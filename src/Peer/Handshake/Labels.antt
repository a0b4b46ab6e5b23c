-- ===== src/Peer/Handshake/Labels.antt =====
-- The byte strings that keep the derivations of peer/handshake.go, peer/psk.go, peer/data_channel.go
-- and peer/signaling_channel.go apart.
use telekit.Common.{ℕ, List, [], ◌∷◌}

-- `telekit/client-hello-key/v1`
abbrev pub client_hello_label : List ℕ
client_hello_label =
    116 ∷ 101 ∷ 108 ∷ 101 ∷ 107 ∷ 105 ∷ 116 ∷ 47 ∷ 99 ∷ 108 ∷ 105 ∷ 101 ∷ 110 ∷ 116 ∷ 45 ∷ 104 ∷ 101
    ∷ 108 ∷ 108 ∷ 111 ∷ 45 ∷ 107 ∷ 101 ∷ 121 ∷ 47 ∷ 118 ∷ 49 ∷ []

-- `telekit/server-hello-key/v1`
abbrev pub server_hello_label : List ℕ
server_hello_label =
    116 ∷ 101 ∷ 108 ∷ 101 ∷ 107 ∷ 105 ∷ 116 ∷ 47 ∷ 115 ∷ 101 ∷ 114 ∷ 118 ∷ 101 ∷ 114 ∷ 45 ∷ 104
    ∷ 101 ∷ 108 ∷ 108 ∷ 111 ∷ 45 ∷ 107 ∷ 101 ∷ 121 ∷ 47 ∷ 118 ∷ 49 ∷ []

-- `telekit/server-hello/v3`
abbrev pub transcript_label : List ℕ
transcript_label =
    116 ∷ 101 ∷ 108 ∷ 101 ∷ 107 ∷ 105 ∷ 116 ∷ 47 ∷ 115 ∷ 101 ∷ 114 ∷ 118 ∷ 101 ∷ 114 ∷ 45 ∷ 104
    ∷ 101 ∷ 108 ∷ 108 ∷ 111 ∷ 47 ∷ 118 ∷ 51 ∷ []

-- `telekit/session/v3`
abbrev pub session_label : List ℕ
session_label =
    116 ∷ 101 ∷ 108 ∷ 101 ∷ 107 ∷ 105 ∷ 116 ∷ 47 ∷ 115 ∷ 101 ∷ 115 ∷ 115 ∷ 105 ∷ 111 ∷ 110 ∷ 47
    ∷ 118 ∷ 51 ∷ []

-- `client-to-server`
abbrev pub client_to_server_label : List ℕ
client_to_server_label =
    99 ∷ 108 ∷ 105 ∷ 101 ∷ 110 ∷ 116 ∷ 45 ∷ 116 ∷ 111 ∷ 45 ∷ 115 ∷ 101 ∷ 114 ∷ 118 ∷ 101 ∷ 114 ∷ []

-- `server-to-client`
abbrev pub server_to_client_label : List ℕ
server_to_client_label =
    115 ∷ 101 ∷ 114 ∷ 118 ∷ 101 ∷ 114 ∷ 45 ∷ 116 ∷ 111 ∷ 45 ∷ 99 ∷ 108 ∷ 105 ∷ 101 ∷ 110 ∷ 116 ∷ []

-- `telekit/data/v1`
abbrev pub data_label : List ℕ
data_label = 116 ∷ 101 ∷ 108 ∷ 101 ∷ 107 ∷ 105 ∷ 116 ∷ 47 ∷ 100 ∷ 97 ∷ 116 ∷ 97 ∷ 47 ∷ 118 ∷ 49 ∷ []

-- `telekit/signaling/v1`
abbrev pub signaling_label : List ℕ
signaling_label =
    116 ∷ 101 ∷ 108 ∷ 101 ∷ 107 ∷ 105 ∷ 116 ∷ 47 ∷ 115 ∷ 105 ∷ 103 ∷ 110 ∷ 97 ∷ 108 ∷ 105 ∷ 110
    ∷ 103 ∷ 47 ∷ 118 ∷ 49 ∷ []
